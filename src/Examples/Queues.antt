-- ===== src/Examples/Queues.antt =====
-- The theorems of server/internal/run/queue.go at concrete inputs.
use eagle_condor_sandbox.Prelude.{[], ◌∷◌, none, some, ◌≡◌, refl, true, false}
use eagle_condor_sandbox.Prelude.Int.{pos}
use eagle_condor_sandbox.Prelude.Text.{codes, text_eq}
use eagle_condor_sandbox.Prelude.Assoc.{lookup}
use eagle_condor_sandbox.Catalog.{Workflow}
use eagle_condor_sandbox.Run.{Run, queued, cancelled, succeeded, terminal}
use eagle_condor_sandbox.Store.{Store, get}
use eagle_condor_sandbox.Queue.Defs.{
  Job, Sys, new_queue, submit, register, send, stop, cancel, accepted,
}
use eagle_condor_sandbox.Queue.Loop.{Round, must_skip, work_on, finish, resume}
use eagle_condor_sandbox.Queue.Submit.{Submits, submit_lem}
use eagle_condor_sandbox.Queue.Cancel.{cancel_waiting}
use eagle_condor_sandbox.Queue.Work.{Skipped, Executed, Finished, work_on_lem}
use eagle_condor_sandbox.Queue.Steps.{
  Reach, begin, next, registers, sends, stops, added, sent, shut,
}
use eagle_condor_sandbox.Queue.History.{Follows}
use eagle_condor_sandbox.Queue.Follows.{Reach-Follows}
use eagle_condor_sandbox.Queue.Races.{cancel_lost}
use eagle_condor_sandbox.Queue.Position.{queue_position}
use eagle_condor_sandbox.Examples.Runs.{run_of, smooth, bare_disk}

abbrev pub waiting : Run
waiting = run_of (codes "r1") queued 5

abbrev flow : Workflow
flow = record {
  id = codes "gis-single";
  module_code = codes "gis";
  label = codes "GIS";
  spec = codes "tests/gis.spec.ts";
  default_timeout = pos 600;
  max_timeout = pos 1800;
  inputs = [];
}

abbrev pub stored : Store
stored = record {
  runs_dir = codes "/srv/runs";
  runs = (codes "r1", waiting) ∷ [];
  disk = bare_disk;
}

abbrev idle : Sys
idle = new_queue stored 2 8

submit_lem_example : Submits idle waiting flow [] (submit idle waiting flow [])
unfolding new_queue lookup
submit_lem_example = submit_lem idle waiting flow [] refl refl

abbrev pub one_job : Job
one_job = record {
  run_id = codes "r1";
  workflow = flow;
  root = codes "/srv/runs/r1";
  env = [];
  timeout_seconds = pos 600;
  buf = 0;
  cancellable = false;
  stopped = false;
}

abbrev with_job_of : Job → Sys
with_job_of j = record {
  store = stored;
  queue = record {
    workers = 2;
    depth = 8;
    jobs = 0 ∷ [];
    closed = false;
    heap = j ∷ [];
    buffers = [];
    live = (codes "r1", 0) ∷ [];
    bufs = [];
    flagged = [];
  };
}

abbrev pub queued_up : Sys
queued_up = with_job_of one_job

abbrev busy_job : Job
busy_job = record one_job { cancellable = true }

abbrev pub round : Round
round = record {
  started = 10;
  ended = 20;
  start_faults = smooth;
  pid_faults = smooth;
  end_faults = smooth;
  pid = some (pos 4711);
  outcome = record { exit_code = pos 0; state = succeeded; err = none };
  collected = record { summary = none; artifacts = [] };
}

cancel_waiting_example :
    let s' = (cancel queued_up smooth 7 (codes "r1")).0 in
    (get s'.store (codes "r1") ≡ some (record waiting { state = cancelled; ended_at = some 7 }))
    × (must_skip s' one_job ≡ true)
    × (s'.queue.jobs ≡ 0 ∷ [])
unfolding get lookup text_eq terminal
cancel_waiting_example =
    cancel_waiting queued_up smooth 7 0 one_job waiting refl refl refl refl refl

work_on_lem_example :
    (must_skip queued_up one_job ≡ true
      → Skipped queued_up round one_job waiting (work_on queued_up round 0 one_job))
    × (must_skip queued_up one_job ≡ false
        → Executed queued_up round one_job (work_on queued_up round 0 one_job))
    × ((m : Sys) (y : Run)
        → get m.store (codes "r1") ≡ some y
        → Finished m round one_job y (finish m smooth 20 one_job round.outcome round.collected))
unfolding get lookup text_eq
work_on_lem_example = work_on_lem queued_up round 0 one_job waiting refl

cancel_lost_example :
    let s' = (cancel queued_up smooth 7 (codes "r1")).0 in
    (get s'.store (codes "r1") ≡ some (record waiting { state = cancelled; ended_at = some 7 }))
    × Executed s' round one_job (resume (must_skip queued_up one_job) s' round 0 one_job)
unfolding get lookup text_eq terminal must_skip
cancel_lost_example =
    cancel_lost queued_up smooth 7 round 0 one_job waiting refl refl refl refl refl refl

first_in_line : queue_position queued_up (codes "r1") ≡ 1
unfolding queue_position
first_in_line = refl

submitted :
    Reach stored 2 8
      (sent accepted (codes "r1") 0 ∷ added (codes "r1") 0 0 ∷ [])
      (send (register idle waiting flow []).0 (codes "r1") 0 0).0
unfolding send register new_queue
submitted = next (next begin (registers waiting flow [])) (sends (codes "r1") 0 0)

Reach-Follows_example :
    Follows 8
      (shut ∷ sent accepted (codes "r1") 0 ∷ added (codes "r1") 0 0 ∷ [])
      (stop (send (register idle waiting flow []).0 (codes "r1") 0 0).0)
Reach-Follows_example =
    Reach-Follows stored 2 8 (shut ∷ sent accepted (codes "r1") 0 ∷ added (codes "r1") 0 0 ∷ [])
      (stop (send (register idle waiting flow []).0 (codes "r1") 0 0).0) (next submitted stops)
