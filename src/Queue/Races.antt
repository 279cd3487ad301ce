-- ===== src/Queue/Races.antt =====
-- Cancel and a worker of server/internal/run/queue.go, with the steps of one between those of the
-- other.
use eagle_condor_sandbox.Prelude.{ℕ, false, some, ◌≡◌}
use eagle_condor_sandbox.Prelude.Assoc.{lookup}
use eagle_condor_sandbox.Run.{Run, cancelled, terminal}
use eagle_condor_sandbox.Store.{get}
use eagle_condor_sandbox.Store.Persist.{Faults}
use eagle_condor_sandbox.Prelude.{get_elem?}
use eagle_condor_sandbox.Queue.Defs.{Job, Sys, cancel}
use eagle_condor_sandbox.Queue.Loop.{Round, must_skip, resume}
use eagle_condor_sandbox.Queue.Work.{Executed, execute-Executed}
use eagle_condor_sandbox.Queue.Cancel.{cancel_waiting}

-- A cancellation of a run that waits in the queue and has not ended is lost if the whole call of
-- Cancel falls between the worker's look at the cancelled runs, which does not find the job, and
-- the moment at which the job gets its cancel function. The record says cancelled when the call
-- returns, but the worker starts the process all the same, and the run ends in the state that
-- the process had.
pub cancel_lost :
    (s : Sys) (f : Faults) (now : ℕ) (w : Round) (a : ℕ) (j : Job) (r : Run)
    → must_skip s j ≡ false
    → get s.store j.run_id ≡ some r
    → terminal r.state ≡ false
    → lookup j.run_id s.queue.live ≡ some a
    → get_elem? s.queue.heap a ≡ some j
    → j.cancellable ≡ false
    → let s' = (cancel s f now j.run_id).0 in
      (get s'.store j.run_id ≡ some (record r { state = cancelled; ended_at = some now }))
      × Executed s' w j (resume (must_skip s j) s' w a j)
cancel_lost s f now w a j r looked known live listed here idle =
    let (e, flagged, waiting) = cancel_waiting s f now a j r known live listed here idle in
    (
      e,
      rw looked (
          execute-Executed (cancel s f now j.run_id).0 w a j
            (record r { state = cancelled; ended_at = some now }) e),
    )
