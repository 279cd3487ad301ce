-- ===== src/Examples/Startups.antt =====
-- The theorems of server/internal/config/config.go and server/cmd/pstad/main.go at concrete inputs.
use eagle_condor_sandbox.Prelude.{
  Bool, true, false, [], Option, none, some, ◌≡◌, ◌↔◌, refl, if◌then◌else◌,
}
use eagle_condor_sandbox.Prelude.Int.{pos}
use eagle_condor_sandbox.Prelude.Text.{Text, codes, text_eq}
use eagle_condor_sandbox.Catalog.{Manifest}
use eagle_condor_sandbox.Catalog.Comments.{Json, object, no_fields}
use eagle_condor_sandbox.Catalog.Load.{Catalog}
use eagle_condor_sandbox.Catalog.Index.{index}
use eagle_condor_sandbox.Config.{Config, Host, Stat, folder, loaded, load}
use eagle_condor_sandbox.Config.Checks.{IsFrom, load_lem}
use eagle_condor_sandbox.Config.Valid.{IsValid}
use eagle_condor_sandbox.Store.Recovery.{Scan, not_exist, fresh}
use eagle_condor_sandbox.Boot.{Flags, Machine, serves, real_main, new_server, runtime}
use eagle_condor_sandbox.Boot.Ready.{IsReady, real_main-IsReady}
use eagle_condor_sandbox.Examples.Runs.{smooth, bare_disk}
use eagle_condor_sandbox.Examples.Manifests.{manifest}

-- Only the token and the automation directory are set.
abbrev variables : Text → Text
variables key =
    if text_eq key (codes "PSTAD_TOKEN")
    then codes "secret"
    else if text_eq key (codes "PSTAD_AUTOMATION_DIR")
    then codes "/srv"
    else []

abbrev folders : Text → Stat
folders path = folder

abbrev makes : Text → Bool
makes path = true

abbrev host : Host
host = record {
  getenv = variables;
  stat = folders;
  mkdir_all = makes;
  executable = none;
  getwd = some (codes "/home");
}

abbrev settled : Config
settled = record {
  addr = codes "127.0.0.1:8080";
  automation_dir = codes "/srv";
  runs_dir = codes "/srv/.runs";
  receipts_dir = codes "/srv/data/receipts";
  node_bin = codes "node";
  max_concurrent = pos 2;
  queue_depth = pos 32;
  token = codes "secret";
  max_upload_bytes = pos 10485760;
  shutdown_grace = pos 15000000000;
}

load_lem_example : (load host ≡ loaded settled) ↔ (IsFrom host settled × IsValid host settled)
load_lem_example = load_lem host settled

settings_found : load host ≡ loaded settled
unfolding load
settings_found = refl

abbrev any_json : Text → Option Json
any_json t = some (object no_fields)

abbrev decodes : Json → Option Manifest
decodes j = some manifest

abbrev has_text : Text → Option Text
has_text path = some (codes "{}")

abbrev no_runs : Text → Scan
no_runs path = not_exist

abbrev machine : Machine
machine = record {
  host = host;
  codec = record { parse = any_json; decode = decodes };
  read_file = has_text;
  scan = no_runs;
  world = record { clock = λ name. 7; faults = λ name. smooth };
  disk = bare_disk;
  version = codes "dev";
}

abbrev plain_start : Flags
plain_start = record { check_only = false; show_version = false }

abbrev catalog : Catalog
catalog = record {
  manifest = manifest;
  by_id = (index (λ path. true) (codes "/srv") manifest).1;
  raw = codes "{}";
}

listens :
    real_main machine plain_start
    ≡ serves (new_server machine settled catalog (fresh bare_disk)) (runtime settled) []
unfolding real_main index
listens = refl

real_main-IsReady_example :
    IsReady machine (new_server machine settled catalog (fresh bare_disk)) (runtime settled)
real_main-IsReady_example =
    real_main-IsReady machine plain_start (new_server machine settled catalog (fresh bare_disk))
      (runtime settled) [] listens
