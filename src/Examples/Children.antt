-- ===== src/Examples/Children.antt =====
-- The theorems of server/internal/run/exec.go at concrete inputs.
use eagle_condor_sandbox.Prelude.{
  ◌*◌, ◌-◌, ◌<◌, ◌≤◌, [], ◌∷◌, ◌++◌, Option, none, some, ◌≡◌, ◌↔◌, refl, arith, true,
}
use eagle_condor_sandbox.Prelude.Int.{pos}
use eagle_condor_sandbox.Prelude.Text.{Text, codes, text_eq}
use eagle_condor_sandbox.Prelude.Assoc.{lookup}
use eagle_condor_sandbox.Logbuf.{new}
use eagle_condor_sandbox.Logbuf.Ring.{new-Holds}
use eagle_condor_sandbox.Run.{Run, timed_out, terminal}
use eagle_condor_sandbox.Store.{get}
use eagle_condor_sandbox.Exec.{Spec, Runtime, Child, reads, expires, exits, run_child, command_line}
use eagle_condor_sandbox.Exec.Outcomes.{run_child-stopped, run_child-terminal}
use eagle_condor_sandbox.Exec.Logs.{Logged, run_child-logs}
use eagle_condor_sandbox.Exec.Environment.{own, env_map, playwright_ms}
use eagle_condor_sandbox.Exec.Environment.Chosen.{env_map-lookup, playwright_ms_lem}
use eagle_condor_sandbox.Queue.Loop.{Round, work_on}
use eagle_condor_sandbox.Queue.Ends.{spec_of, work_on-terminal}
use eagle_condor_sandbox.Examples.Queues.{queued_up, one_job, waiting, round}

abbrev node : Runtime
node = record {
  automation_dir = codes "/srv/automation";
  playwright_cli = codes "/srv/node_modules/playwright/cli.js";
  node_bin = codes "node";
  receipts_dir = codes "/srv/receipts";
}

abbrev spec : Spec
spec = record {
  spec = codes "tests/gis.spec.ts";
  root = codes "/srv/runs/r1";
  env = (codes "PW_TRACE", codes "on") ∷ [];
  timeout_seconds = pos 600;
}

-- The deadline passes between two lines, and the tree cannot be killed.
abbrev late : Child
late = record {
  create_error = none;
  pipe_error = none;
  start_error = none;
  pid = pos 4711;
  events = reads (codes "a") ∷ expires (some (codes "no")) ∷ reads (codes "b" ++ 13 ∷ []) ∷ [];
  waited = exits (pos 1);
}

run_child-stopped_example :
    let (x, o) = run_child node spec late (new (pos 9)) in
    (x.started ≡ pos 4711 ∷ [])
    × (x.kills ≡ pos 4711 ∷ [])
    × ((o.exit_code ≡ pos 1) × (o.state ≡ timed_out) × (o.err ≡ none))
run_child-stopped_example = run_child-stopped node spec late (new (pos 9)) (refl, refl, refl)

run_child-terminal_example : terminal (run_child node spec late (new (pos 9))).1.state ≡ true
run_child-terminal_example = run_child-terminal node spec late (new (pos 9))

run_child-logs_example :
    Logged (command_line node spec) [] late.events (run_child node spec late (new (pos 9))).0
unfolding new
run_child-logs_example =
    run_child-logs node spec late [] (new (pos 9)) (refl, refl, refl)
      (record { holds = new-Holds (pos 9); reach = tt; shut = refl }) (omega arith)

abbrev host : Text → Option Text
host k = some (codes "secret")

env_map-lookup_example : lookup (codes "TA_USER_ID") (env_map host node spec) ≡ none
unfolding own lookup text_eq
env_map-lookup_example = env_map-lookup host node spec (codes "TA_USER_ID")

playwright_ms_lem_example :
    (600 ≤ 150 → playwright_ms (pos 600) ≡ 30000)
    × (150 ≤ 600 → playwright_ms (pos 600) ≡ (600 - 120) * 1000)
    × ((playwright_ms (pos 600) < 600 * 1000) ↔ (30 < 600))
playwright_ms_lem_example = playwright_ms_lem 600 (omega arith)

abbrev late_round : Round
late_round = record round { outcome = (run_child node (spec_of one_job) late (new (pos 9))).1 }

work_on-terminal_example :
    (x : Run) × (get (work_on queued_up late_round 0 one_job).store (codes "r1") ≡ some x)
    × (terminal x.state ≡ true)
unfolding get lookup text_eq
work_on-terminal_example =
    work_on-terminal queued_up late_round 0 one_job waiting node late (new (pos 9)) refl refl
