-- ===== src/Queue/Cancel.antt =====
-- Cancel of server/internal/run/queue.go, as one uninterrupted call.
use eagle_condor_sandbox.Prelude.{
  ℕ, ◌<◌, true, false, Option, none, some, ◌≡◌, refl, sym, ap, ◌∙◌, subst, length, get_elem?,
  get_elem?-set_self,
}
use eagle_condor_sandbox.Prelude.Text.{Text}
use eagle_condor_sandbox.Prelude.Assoc.{lookup, lookup-insert_self}
use eagle_condor_sandbox.Run.{Run, cancelled, terminal}
use eagle_condor_sandbox.Store.{Store, Updated, saved, unsaved, no_run, get, update}
use eagle_condor_sandbox.Store.Persist.{Faults}
use eagle_condor_sandbox.Store.Updates.{get-update_self}
use eagle_condor_sandbox.Queue.Defs.{
  Job, Sys, Answer, done, not_found, refusal, cancel_flag, with_job, mark_cancelled, answer_of,
  stop_job, cancel_act, cancel,
}
use eagle_condor_sandbox.Queue.Loop.{must_skip}

cancel_going :
    (s : Sys) (f : Faults) (now : ℕ) (id : Text)
    → refusal (get s.store id) ≡ none
    → cancel s f now id ≡ cancel_act (cancel_flag s id).0 f now id (lookup id s.queue.live)
unfolding cancel
cancel_going s f now id e = rw (e, cancel)

refusal-none : (o : Option Run) (r : Run) → o ≡ some r → terminal r.state ≡ false → refusal o ≡ none
refusal-none o r e t = rw (e, t)

answer_of-store : (s : Sys) (p : Store × Updated) → (answer_of s p).0 ≡ record s { store = p.0 }
answer_of-store s (store, saved r) = refl
answer_of-store s (store, unsaved r e) = refl
answer_of-store s (store, no_run) = refl

pub stop_job-idle :
    (s : Sys) (f : Faults) (now : ℕ) (id : Text) (a : ℕ) (j : Job)
    → j.cancellable ≡ false
    → (stop_job s f now id a (some j)).0
      ≡ record s { store = (update s.store f id (mark_cancelled now)).0 }
stop_job-idle s f now id a j e = rw e (answer_of-store s (update s.store f id (mark_cancelled now)))

pub stop_job-busy :
    (s : Sys) (f : Faults) (now : ℕ) (id : Text) (a : ℕ) (j : Job)
    → j.cancellable ≡ true
    → stop_job s f now id a (some j) ≡ (with_job s a (record j { stopped = true }), done)
stop_job-busy s f now id a j e = rw e

-- A live run's call comes down to what is done with its job.
cancel_live :
    (s : Sys) (f : Faults) (now : ℕ) (id : Text) (a : ℕ) (j : Job) (r : Run)
    → get s.store id ≡ some r
    → terminal r.state ≡ false
    → lookup id s.queue.live ≡ some a
    → get_elem? s.queue.heap a ≡ some j
    → cancel s f now id ≡ stop_job (cancel_flag s id).0 f now id a (some j)
cancel_live s f now id a j r known live listed here =
    cancel_going s f now id (refusal-none (get s.store id) r known live)
    ∙ ap (cancel_act (cancel_flag s id).0 f now id) listed
    ∙ unfold cancel_act cancel_flag in ap (stop_job (cancel_flag s id).0 f now id a) here

flagged-must_skip :
    (s : Sys) (j : Job) (store : Store)
    → must_skip (record (cancel_flag s j.run_id).0 { store = store }) j ≡ true
unfolding must_skip cancel_flag
flagged-must_skip s j store = rw (lookup-insert_self j.run_id true s.queue.flagged)

-- Cancelling a run that is in the store and has not ended, and whose job is live and has not
-- been taken by a worker, records it as cancelled at once; a worker that looks at its job from
-- then on will skip it; and the job stays in the channel.
pub cancel_waiting :
    (s : Sys) (f : Faults) (now : ℕ) (a : ℕ) (j : Job) (r : Run)
    → get s.store j.run_id ≡ some r
    → terminal r.state ≡ false
    → lookup j.run_id s.queue.live ≡ some a
    → get_elem? s.queue.heap a ≡ some j
    → j.cancellable ≡ false
    → let s' = (cancel s f now j.run_id).0 in
      (get s'.store j.run_id ≡ some (record r { state = cancelled; ended_at = some now }))
      × (must_skip s' j ≡ true)
      × (s'.queue.jobs ≡ s.queue.jobs)
unfolding mark_cancelled
cancel_waiting s f now a j r known live listed here idle = subst Recorded (sym course) (
  get-update_self s.store f j.run_id (mark_cancelled now) r known,
  flagged-must_skip s j after,
  unfold cancel_flag in refl,
)
  where
    after : Store
    after = (update s.store f j.run_id (mark_cancelled now)).0

    Recorded : Sys → Type 0
    Recorded s' =
        (get s'.store j.run_id ≡ some (record r { state = cancelled; ended_at = some now }))
        × (must_skip s' j ≡ true)
        × (s'.queue.jobs ≡ s.queue.jobs)

    course : (cancel s f now j.run_id).0 ≡ record (cancel_flag s j.run_id).0 { store = after }
    course =
        ap (λ p. p.0) (cancel_live s f now j.run_id a j r known live listed here)
        ∙ unfold cancel_flag in stop_job-idle (cancel_flag s j.run_id).0 f now j.run_id a j idle

-- Cancelling a run that is in the store and has not ended, and whose job is live and was armed
-- by a worker, succeeds, asks for the process to be stopped, and leaves the record of the run to
-- the worker.
pub cancel_running :
    (s : Sys) (f : Faults) (now : ℕ) (id : Text) (a : ℕ) (j : Job) (r : Run)
    → get s.store id ≡ some r
    → terminal r.state ≡ false
    → lookup id s.queue.live ≡ some a
    → get_elem? s.queue.heap a ≡ some j
    → j.cancellable ≡ true
    → a < length s.queue.heap
    → let (s', x) = cancel s f now id in
      (x ≡ done)
      × (s'.store ≡ s.store)
      × (get_elem? s'.queue.heap a ≡ some (record j { stopped = true }))
unfolding cancel_flag
cancel_running s f now id a j r known live listed here busy lt =
    subst Asked (sym course)
      (refl, refl, get_elem?-set_self s.queue.heap a (record j { stopped = true }) lt)
  where
    Asked : Sys × Answer → Type 0
    Asked (s', x) =
        (x ≡ done)
        × (s'.store ≡ s.store)
        × (get_elem? s'.queue.heap a ≡ some (record j { stopped = true }))

    course :
        cancel s f now id ≡ (with_job (cancel_flag s id).0 a (record j { stopped = true }), done)
    course =
        cancel_live s f now id a j r known live listed here
        ∙ stop_job-busy (cancel_flag s id).0 f now id a j busy

-- A run that is in the store, has not ended, and is not live, which is how a run stands between Add
-- and Submit, is reported as unknown. The call still flags it, so that a worker will skip its job.
pub cancel_stray :
    (s : Sys) (f : Faults) (now : ℕ) (id : Text) (r : Run)
    → get s.store id ≡ some r
    → terminal r.state ≡ false
    → lookup id s.queue.live ≡ none
    → let (s', x) = cancel s f now id in
      (x ≡ not_found) × (s'.store ≡ s.store) × (lookup id s'.queue.flagged ≡ some true)
cancel_stray s f now id r known live absent = subst Stray (sym course) (
  refl,
  unfold cancel_flag in refl,
  unfold cancel_flag in lookup-insert_self id true s.queue.flagged,
)
  where
    Stray : Sys × Answer → Type 0
    Stray (s', x) =
        (x ≡ not_found) × (s'.store ≡ s.store) × (lookup id s'.queue.flagged ≡ some true)

    course : cancel s f now id ≡ ((cancel_flag s id).0, not_found)
    course =
        cancel_going s f now id (refusal-none (get s.store id) r known live)
        ∙ ap (cancel_act (cancel_flag s id).0 f now id) absent
        ∙ unfold cancel_act in refl
