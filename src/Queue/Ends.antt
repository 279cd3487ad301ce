-- ===== src/Queue/Ends.antt =====
-- A worker's round of server/internal/run/queue.go with the process of server/internal/run/exec.go.
use eagle_condor_sandbox.Prelude.{ℕ, true, some, ◌≡◌, ap, ◌∙◌, Bool-cases, inl, inr}
use eagle_condor_sandbox.Logbuf.{Buffer}
use eagle_condor_sandbox.Run.{Run, terminal}
use eagle_condor_sandbox.Run.Terminal.{terminal-cancelled}
use eagle_condor_sandbox.Store.{get}
use eagle_condor_sandbox.Exec.{Spec, Runtime, Child, run_child}
use eagle_condor_sandbox.Exec.Outcomes.{run_child-terminal}
use eagle_condor_sandbox.Queue.Defs.{Job, Sys}
use eagle_condor_sandbox.Queue.Loop.{Round, must_skip, work_on}
use eagle_condor_sandbox.Queue.Work.{work_on_lem}

-- The Spec of a job.
abbrev pub spec_of : Job → Spec
spec_of j = record {
  spec = j.workflow.spec;
  root = j.root;
  env = j.env;
  timeout_seconds = j.timeout_seconds;
}

-- The round's outcome is the one that Execute answers for the job.
abbrev pub Runs : Runtime → Child → Buffer → Job → Round → Type 0
Runs rt c b j w = w.outcome ≡ (run_child rt (spec_of j) c b).1

-- Every run in the store whose job a worker takes is in a terminal state when the worker is done
-- with it, whether it was skipped or run, if the round's outcome is what Execute answers for the
-- job; and this whatever the process and the disk did.
pub work_on-terminal :
    (s : Sys) (w : Round) (a : ℕ) (j : Job) (r : Run) (rt : Runtime) (c : Child) (b : Buffer)
    → get s.store j.run_id ≡ some r
    → Runs rt c b j w
    → (x : Run) × (get (work_on s w a j).store j.run_id ≡ some x) × (terminal x.state ≡ true)
work_on-terminal s w a j r rt c b known runs = elim (Bool-cases (must_skip s j)) [
  | inl e ↦
      let (x, here, st, _, _, _, _) = (work_on_lem s w a j r known).0 e in
      (x, here, ap terminal st ∙ terminal-cancelled)
  | inr e ↦
      let (x, here, st, _, _, _, _, _) = (work_on_lem s w a j r known).1 e in
      (x, here, ap terminal (st ∙ ap (λ o. o.state) runs) ∙ run_child-terminal rt (spec_of j) c b)
]
