-- ===== src/Examples/Runs.antt =====
-- Runs, jobs and faults of server/internal/run that the other examples use.
use eagle_condor_sandbox.Prelude.{ℕ, true, [], ◌∷◌, none}
use eagle_condor_sandbox.Prelude.Int.{pos}
use eagle_condor_sandbox.Prelude.Text.{Text, codes}
use eagle_condor_sandbox.Run.{Run, State, Artifact, trace}
use eagle_condor_sandbox.Store.Persist.{Disk, Faults}

abbrev pub shot : Artifact
shot = record {
  id = codes "ab12";
  kind = trace;
  name = codes "trace.zip";
  test_title = codes "logs in";
  size = 812;
  sensitive = true;
  rel = codes "output/logs-in/trace.zip";
}

abbrev pub run_of : Text → State → ℕ → Run
run_of id st at = record {
  id = id;
  workflow_id = codes "gis-single";
  env = codes "dev3";
  submitted_by = [];
  state = st;
  error = [];
  queued_at = at;
  started_at = none;
  ended_at = none;
  timeout_seconds = pos 600;
  exit_code = none;
  params = [];
  summary = none;
  artifacts = shot ∷ [];
  pid = pos 0;
  queue_position = 0;
}

abbrev pub smooth : Faults
smooth = record {
  temp_name = codes "meta-1.json";
  encode_ok = true;
  create_ok = true;
  write_ok = true;
  close_ok = true;
  rename_ok = λ n. true;
  remove_ok = true;
}

abbrev pub bare_disk : Disk
bare_disk = record { meta = []; temps = [] }
