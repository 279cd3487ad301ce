-- ===== src/Queue/Work.antt =====
-- One round of a worker of server/internal/run/queue.go, with no other call in between.
use eagle_condor_sandbox.Prelude.{
  ℕ, true, false, Option, none, some, ◌≡◌, refl, ap, ◌∙◌, arith, Bool-cases, inl, inr,
}
use eagle_condor_sandbox.Prelude.Int.{ℤ, pos}
use eagle_condor_sandbox.Prelude.Text.{Text, text_eq, text_eq_refl}
use eagle_condor_sandbox.Prelude.Assoc.{Assoc, lookup, delete, lookup-delete}
use eagle_condor_sandbox.Run.{Run, State, cancelled, running, state_eq}
use eagle_condor_sandbox.Store.{get, update}
use eagle_condor_sandbox.Store.Persist.{Faults}
use eagle_condor_sandbox.Store.Updates.{get-update_self, get-update_other}
use eagle_condor_sandbox.Queue.Defs.{Job, Sys, Outcome, Collected}
use eagle_condor_sandbox.Queue.Loop.{
  must_skip, execute, arm, mark_running, mark_pid, mark_finished, start_run, note_pid, note, finish,
  Round, skipped, work_on,
}

pub finish-store :
    (s : Sys) (f : Faults) (now : ℕ) (j : Job) (o : Outcome) (c : Collected)
    → (finish s f now j o c).store ≡ (update s.store f j.run_id (mark_finished now o c)).0
unfolding finish
finish-store s f now j o c = refl

gone {ℓ} : {V : Type ℓ} (k : Text) (m : Assoc V) → lookup k (delete k m) ≡ none
gone k m = lookup-delete k k m ∙ rw (text_eq_refl k)

finish-forgets :
    (s : Sys) (f : Faults) (now : ℕ) (j : Job) (o : Outcome) (c : Collected)
    → (lookup j.run_id (finish s f now j o c).queue.live ≡ none)
      × (lookup j.run_id (finish s f now j o c).queue.flagged ≡ none)
unfolding finish
finish-forgets s f now j o c = (gone j.run_id s.queue.live, gone j.run_id s.queue.flagged)

-- What is true of a run's record once its worker is done with it.
abbrev pub Ended : ℕ → Outcome → Collected → Run → Type 0
Ended now o c x =
    (x.ended_at ≡ some now)
    × (x.exit_code ≡ some o.exit_code)
    × (x.summary ≡ c.summary)
    × (x.artifacts ≡ c.artifacts)
    × (x.pid ≡ pos 0)

mark_finished-Ended :
    (now : ℕ) (o : Outcome) (c : Collected) (r : Run) → Ended now o c (mark_finished now o c r)
unfolding mark_finished
mark_finished-Ended now o c r = (refl, refl, refl, refl, refl)

mark_finished-cancelled :
    (now : ℕ) (o : Outcome) (c : Collected) (r : Run)
    → o.state ≡ cancelled
    → (mark_finished now o c r).state ≡ cancelled
unfolding mark_finished
mark_finished-cancelled now o c r e = rw e (ground arith)

mark_finished-running :
    (now : ℕ) (o : Outcome) (c : Collected) (r : Run)
    → r.state ≡ running
    → (mark_finished now o c r).state ≡ o.state
unfolding mark_finished
mark_finished-running now o c r e = rw (not_cancelled r.state e)
  where
    not_cancelled : (st : State) → st ≡ running → state_eq st cancelled ≡ false
    not_cancelled st q = rw q

mark_finished-started :
    (now : ℕ) (o : Outcome) (c : Collected) (r : Run)
    → (mark_finished now o c r).started_at ≡ r.started_at
unfolding mark_finished
mark_finished-started now o c r = refl

abbrev Begun : Sys → Job → ℕ → Sys → Type 0
Begun s j started m =
    (y : Run) × (get m.store j.run_id ≡ some y)
    × (y.state ≡ running)
    × (y.started_at ≡ some started)
    × ((k : Text) → text_eq j.run_id k ≡ false → get m.store k ≡ get s.store k)

-- Before its child process runs, a job's run is marked as running, and nothing else is.
start_run-Begun :
    (s : Sys) (f : Faults) (now a : ℕ) (j : Job) (r : Run)
    → get s.store j.run_id ≡ some r
    → Begun s j now (start_run (arm s a j) f now j)
unfolding start_run arm mark_running
start_run-Begun s f now a j r known = (
  mark_running now r,
  get-update_self s.store f j.run_id (mark_running now) r known,
  refl,
  refl,
  λ k ne. get-update_other s.store f j.run_id k (mark_running now) ne,
)

note-Begun :
    (s m : Sys) (f : Faults) (pid : Option ℤ) (now : ℕ) (j : Job)
    → Begun s j now m
    → Begun s j now (note m f pid j)
note-Begun s m f none now j h = h
note-Begun s m f (some pid) now j (y, e, st, at, others) =
    unfold note_pid mark_pid in
    (
      mark_pid pid y,
      get-update_self m.store f j.run_id (mark_pid pid) y e,
      st,
      at,
      λ k ne. get-update_other m.store f j.run_id k (mark_pid pid) ne ∙ others k ne,
    )

-- What a worker leaves of a job that it skipped.
abbrev pub Skipped : Sys → Round → Job → Run → Sys → Type 0
Skipped s w j r s' =
    (x : Run) × (get s'.store j.run_id ≡ some x)
    × (x.state ≡ cancelled)
    × (x.started_at ≡ r.started_at)
    × Ended w.ended skipped w.collected x
    × (lookup j.run_id s'.queue.live ≡ none)
    × (lookup j.run_id s'.queue.flagged ≡ none)

-- What a worker leaves of a job that it ran.
abbrev pub Executed : Sys → Round → Job → Sys → Type 0
Executed s w j s' =
    (x : Run) × (get s'.store j.run_id ≡ some x)
    × (x.state ≡ w.outcome.state)
    × (x.started_at ≡ some w.started)
    × Ended w.ended w.outcome w.collected x
    × (lookup j.run_id s'.queue.live ≡ none)
    × (lookup j.run_id s'.queue.flagged ≡ none)
    × ((k : Text) → text_eq j.run_id k ≡ false → get s'.store k ≡ get s.store k)

finish-Skipped :
    (s : Sys) (w : Round) (j : Job) (r : Run)
    → get s.store j.run_id ≡ some r
    → Skipped s w j r (finish s w.end_faults w.ended j skipped w.collected)
finish-Skipped s w j r known = (
  mark_finished w.ended skipped w.collected r,
  ap (λ st. get st j.run_id) (finish-store s w.end_faults w.ended j skipped w.collected)
      ∙ get-update_self s.store w.end_faults j.run_id (mark_finished w.ended skipped w.collected) r
          known,
  mark_finished-cancelled w.ended skipped w.collected r refl,
  mark_finished-started w.ended skipped w.collected r,
  mark_finished-Ended w.ended skipped w.collected r,
  (finish-forgets s w.end_faults w.ended j skipped w.collected).0,
  (finish-forgets s w.end_faults w.ended j skipped w.collected).1,
)

pub execute-Executed :
    (s : Sys) (w : Round) (a : ℕ) (j : Job) (r : Run)
    → get s.store j.run_id ≡ some r
    → Executed s w j (execute s w a j)
unfolding execute
execute-Executed s w a j r known =
    let (y, e, st, at, others) =
      note-Begun s (start_run (arm s a j) w.start_faults w.started j) w.pid_faults w.pid w.started j
        (start_run-Begun s w.start_faults w.started a j r known) in
    (
      end y,
      get-update_self m.store w.end_faults j.run_id end y e,
      mark_finished-running w.ended w.outcome w.collected y st,
      mark_finished-started w.ended w.outcome w.collected y ∙ at,
      mark_finished-Ended w.ended w.outcome w.collected y,
      (finish-forgets m w.end_faults w.ended j w.outcome w.collected).0,
      (finish-forgets m w.end_faults w.ended j w.outcome w.collected).1,
      λ k ne. get-update_other m.store w.end_faults j.run_id k end ne ∙ others k ne,
    )
  where
    m : Sys
    m = note (start_run (arm s a j) w.start_faults w.started j) w.pid_faults w.pid j

    end : Run → Run
    end = mark_finished w.ended w.outcome w.collected

-- What finish leaves when the run's record is `y` by then.
abbrev pub Finished : Sys → Round → Job → Run → Sys → Type 0
Finished m w j y s' =
    (x : Run) × (get s'.store j.run_id ≡ some x)
    × (state_eq y.state cancelled ≡ true → state_eq x.state cancelled ≡ true)
    × (state_eq y.state cancelled ≡ false → x.state ≡ w.outcome.state)
    × (x.started_at ≡ y.started_at)
    × Ended w.ended w.outcome w.collected x
    × (lookup j.run_id s'.queue.live ≡ none)
    × (lookup j.run_id s'.queue.flagged ≡ none)
    × ((k : Text) → text_eq j.run_id k ≡ false → get s'.store k ≡ get m.store k)

mark_finished-kept :
    (now : ℕ) (o : Outcome) (c : Collected) (r : Run)
    → state_eq r.state cancelled ≡ true
    → state_eq (mark_finished now o c r).state cancelled ≡ true
unfolding mark_finished
mark_finished-kept now o c r e = elim (Bool-cases (state_eq o.state cancelled)) [
  | inl q ↦ rw (e, q) q
  | inr q ↦ rw (e, q) e
]

mark_finished-ends :
    (now : ℕ) (o : Outcome) (c : Collected) (r : Run)
    → state_eq r.state cancelled ≡ false
    → (mark_finished now o c r).state ≡ o.state
unfolding mark_finished
mark_finished-ends now o c r e = rw e refl

finish-Finished :
    (m : Sys) (w : Round) (j : Job) (y : Run)
    → get m.store j.run_id ≡ some y
    → Finished m w j y (finish m w.end_faults w.ended j w.outcome w.collected)
finish-Finished m w j y known = (
  end y,
  ap (λ st. get st j.run_id) (finish-store m w.end_faults w.ended j w.outcome w.collected)
      ∙ get-update_self m.store w.end_faults j.run_id end y known,
  mark_finished-kept w.ended w.outcome w.collected y,
  mark_finished-ends w.ended w.outcome w.collected y,
  mark_finished-started w.ended w.outcome w.collected y,
  mark_finished-Ended w.ended w.outcome w.collected y,
  (finish-forgets m w.end_faults w.ended j w.outcome w.collected).0,
  (finish-forgets m w.end_faults w.ended j w.outcome w.collected).1,
  λ k ne.
      ap (λ st. get st k) (finish-store m w.end_faults w.ended j w.outcome w.collected)
      ∙ get-update_other m.store w.end_faults j.run_id k end ne,
)
  where
    end : Run → Run
    end = mark_finished w.ended w.outcome w.collected

-- A worker takes a job whose run is in the store. If the run was flagged as cancelled before,
-- and no other call comes in between, the job is skipped: the run ends as cancelled with the exit
-- code -1 and keeps the start that it had, and the queue forgets it. If it was not flagged, and
-- no other call comes in between, the job is run: the run starts, and ends in the state and with
-- the exit code that its process had and with what was collected; the queue forgets it, and no
-- other run in the store is touched. Whatever other calls did in between, the end of the round
-- takes the record that it finds then: a run that is cancelled by then stays cancelled, any other
-- gets the state of the process; the exit code, the end, the summary and the artifacts are those
-- of the round in both cases, the queue forgets the run, and no other run in the store is touched.
pub work_on_lem :
    (s : Sys) (w : Round) (a : ℕ) (j : Job) (r : Run)
    → get s.store j.run_id ≡ some r
    → (must_skip s j ≡ true → Skipped s w j r (work_on s w a j))
      × (must_skip s j ≡ false → Executed s w j (work_on s w a j))
      × ((m : Sys) (y : Run)
          → get m.store j.run_id ≡ some y
          → Finished m w j y (finish m w.end_faults w.ended j w.outcome w.collected))
unfolding work_on
work_on_lem s w a j r known = (
  λ e. rw e (finish-Skipped s w j r known),
  λ e. rw e (execute-Executed s w a j r known),
  λ m y. finish-Finished m w j y,
)
