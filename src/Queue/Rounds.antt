-- ===== src/Queue/Rounds.antt =====
-- What one round of a worker (server/internal/run/queue.go) leaves: its run has ended, and the other
-- runs and jobs are as before.
use eagle_condor_sandbox.Prelude.{
  ℕ, true, false, Option, none, some, ◌≡◌, inl, inr, refl, sym, ap, ◌∙◌, subst, get_elem?, set,
  Bool-cases,
}
use eagle_condor_sandbox.Prelude.Int.{ℤ}
use eagle_condor_sandbox.Prelude.Text.{Text, text_eq}
use eagle_condor_sandbox.Run.{Run, terminal}
use eagle_condor_sandbox.Run.Terminal.{terminal-cancelled}
use eagle_condor_sandbox.Store.{get}
use eagle_condor_sandbox.Store.Persist.{Faults}
use eagle_condor_sandbox.Store.Updates.{get-update_other}
use eagle_condor_sandbox.Queue.Defs.{Job, Queue, Sys, Outcome, Collected}
use eagle_condor_sandbox.Queue.Loop.{
  Round, must_skip, note, note_pid, arm, start_run, finish, mark_finished, skipped, execute,
  work_on,
}
use eagle_condor_sandbox.Queue.Ownership.{JobOf, JobOf-set}
use eagle_condor_sandbox.Queue.Work.{work_on_lem, finish-store}

-- A run is in the store, and has ended.
abbrev pub IsOver : Sys → Text → Type 0
IsOver s id = (x : Run) × (get s.store id ≡ some x) × (terminal x.state ≡ true)

-- A run whose job has the address is in the store.
abbrev pub IsWaiting : Sys → Text → ℕ → Type 0
IsWaiting s id a = JobOf s.queue.heap id a × (r : Run) × (get s.store id ≡ some r)

-- What a round leaves in place.
pub record IsRound (s : Sys) (a : ℕ) (j : Job) (s' : Sys) : Type 0 where
  pub over : IsOver s' j.run_id
  pub others : (k : Text) → text_eq j.run_id k ≡ false → get s'.store k ≡ get s.store k
  pub owned : (k : Text) (b : ℕ) → JobOf s.queue.heap k b → JobOf s'.queue.heap k b
  pub jobs : s'.queue.jobs ≡ s.queue.jobs
  pub closed : s'.queue.closed ≡ s.queue.closed

note-queue : (s : Sys) (f : Faults) (o : Option ℤ) (j : Job) → (note s f o j).queue ≡ s.queue
note-queue s f none j = refl
note-queue s f (some pid) j = unfold note_pid in refl

finish-queue :
    (s : Sys) (f : Faults) (now : ℕ) (j : Job) (o : Outcome) (c : Collected)
    → ((finish s f now j o c).queue.heap ≡ s.queue.heap)
      × ((finish s f now j o c).queue.jobs ≡ s.queue.jobs)
      × ((finish s f now j o c).queue.closed ≡ s.queue.closed)
unfolding finish
finish-queue s f now j o c = (refl, refl, refl)

finish-others :
    (s : Sys) (f : Faults) (now : ℕ) (j : Job) (o : Outcome) (c : Collected) (k : Text)
    → text_eq j.run_id k ≡ false
    → get (finish s f now j o c).store k ≡ get s.store k
finish-others s f now j o c k ne =
    ap (λ st. get st k) (finish-store s f now j o c)
    ∙ get-update_other s.store f j.run_id k (mark_finished now o c) ne

keep_owned :
    (s s' : Sys)
    → s'.queue.heap ≡ s.queue.heap
    → (k : Text) (b : ℕ) → JobOf s.queue.heap k b
    → JobOf s'.queue.heap k b
keep_owned s s' e k b h = subst (λ hp. JobOf hp k b) (sym e) h

module _ (s : Sys) (w : Round) (a : ℕ) (j : Job) (r : Run)
    (here : get_elem? s.queue.heap a ≡ some j) (known : get s.store j.run_id ≡ some r)
    (ends : terminal w.outcome.state ≡ true) where
  skip-IsRound : must_skip s j ≡ true → IsRound s a j (work_on s w a j)
  skip-IsRound e =
      let (x, got, st, _, _, _, _) = (work_on_lem s w a j r known).0 e in
      subst (IsRound s a j) (sym as_finish) (record {
        over = (
          x,
          ap (λ (y : Sys). get y.store j.run_id) (sym as_finish) ∙ got,
          ap terminal st ∙ terminal-cancelled,
        );
        others = finish-others s w.end_faults w.ended j skipped w.collected;
        owned = keep_owned s (finish s w.end_faults w.ended j skipped w.collected) q.0;
        jobs = q.1;
        closed = q.2;
      })
    where
      as_finish : work_on s w a j ≡ finish s w.end_faults w.ended j skipped w.collected
      as_finish = unfold work_on in rw e refl

      q :
          ((finish s w.end_faults w.ended j skipped w.collected).queue.heap ≡ s.queue.heap)
          × ((finish s w.end_faults w.ended j skipped w.collected).queue.jobs ≡ s.queue.jobs)
          × ((finish s w.end_faults w.ended j skipped w.collected).queue.closed ≡ s.queue.closed)
      q = finish-queue s w.end_faults w.ended j skipped w.collected

  abbrev armed : Sys
  armed = start_run (arm s a j) w.start_faults w.started j

  abbrev noted : Sys
  noted = note armed w.pid_faults w.pid j

  armed-queue :
      (armed.queue.heap ≡ set s.queue.heap a (record j { cancellable = true }))
      × (armed.queue.jobs ≡ s.queue.jobs)
      × (armed.queue.closed ≡ s.queue.closed)
  armed-queue = unfold start_run arm in (refl, refl, refl)

  run-IsRound : must_skip s j ≡ false → IsRound s a j (work_on s w a j)
  run-IsRound e =
      let (x, got, st, _, _, _, _, others) = (work_on_lem s w a j r known).1 e in
      subst (IsRound s a j) (sym as_execute) (record {
        over = (
          x,
          ap (λ (y : Sys). get y.store j.run_id) (sym as_execute) ∙ got,
          ap terminal st ∙ ends,
        );
        others = λ k ne. ap (λ (y : Sys). get y.store k) (sym as_execute) ∙ others k ne;
        owned = λ k b h.
            subst (λ hp. JobOf hp k b) (sym heap_now)
              (JobOf-set s.queue.heap k b a j (record j { cancellable = true }) here refl h);
        jobs = q.1 ∙ ap (λ (x : Queue). x.jobs) noted_queue ∙ armed-queue.1;
        closed = q.2 ∙ ap (λ (x : Queue). x.closed) noted_queue ∙ armed-queue.2;
      })
    where
      as_execute : work_on s w a j ≡ finish noted w.end_faults w.ended j w.outcome w.collected
      as_execute = unfold work_on execute in rw e refl

      q :
          ((finish noted w.end_faults w.ended j w.outcome w.collected).queue.heap
            ≡ noted.queue.heap)
          × ((finish noted w.end_faults w.ended j w.outcome w.collected).queue.jobs
              ≡ noted.queue.jobs)
          × ((finish noted w.end_faults w.ended j w.outcome w.collected).queue.closed
              ≡ noted.queue.closed)
      q = finish-queue noted w.end_faults w.ended j w.outcome w.collected

      noted_queue : noted.queue ≡ armed.queue
      noted_queue = note-queue armed w.pid_faults w.pid j

      heap_now :
          (finish noted w.end_faults w.ended j w.outcome w.collected).queue.heap
          ≡ set s.queue.heap a (record j { cancellable = true })
      heap_now = q.0 ∙ ap (λ (x : Queue). x.heap) noted_queue ∙ armed-queue.0

  pub work_on-IsRound : IsRound s a j (work_on s w a j)
  work_on-IsRound = elim (Bool-cases (must_skip s j)) [
    | inl e ↦ skip-IsRound e
    | inr e ↦ run-IsRound e
  ]
