-- ===== src/Boot.antt =====
-- realMain of server/cmd/pstad/main.go up to the point where the server listens. What the system
-- answers while it starts is a parameter.
pub mod Ready
use eagle_condor_sandbox.Prelude.{Bool, true, false, List, [], Option, none, some, if◌then◌else◌}
use eagle_condor_sandbox.Prelude.Int.{ℤ, pos_part}
use eagle_condor_sandbox.Prelude.Text.{Text}
use eagle_condor_sandbox.Exec.{Runtime}
use eagle_condor_sandbox.Catalog.Load.{Catalog, JsonCodec, Loading, catalog_loaded, load_catalog}
use eagle_condor_sandbox.Config.{
  Config, Host, Loaded, loaded, load, exists, manifest_path, playwright_cli,
}
use eagle_condor_sandbox.Store.{new_store}
use eagle_condor_sandbox.Store.Persist.{Disk}
use eagle_condor_sandbox.Store.Recovery.{Scan, World, Progress, recover}
use eagle_condor_sandbox.Queue.Defs.{new_queue}
use eagle_condor_sandbox.Http.Server.{Server}

-- The command's flags.
pub record Flags : Type 0 where
  pub check_only : Bool
  pub show_version : Bool

-- What the process meets: its environment, encoding/json, the files it reads, the runs directory.
pub record Machine : Type 0 where
  pub host : Host
  pub codec : JsonCodec
  pub read_file : Text → Option Text
  pub scan : Text → Scan
  pub world : World
  pub disk : Disk
  pub version : Text

-- How it goes on: `serves` has the server that listens, the runtime of its queue, and the process
-- ids given to KillTree.
pub data Boot : Type 0 where
  shows_version runs_unreadable : Boot
  bad_config : Loaded → Boot
  bad_catalog : Loading → Boot
  config_ok : Config → Catalog → Boot
  serves : Server → Runtime → List ℤ → Boot

unfoldable pub runtime : Config → Runtime
unfolding playwright_cli
runtime c = record {
  automation_dir = c.automation_dir;
  playwright_cli = playwright_cli c;
  node_bin = c.node_bin;
  receipts_dir = c.receipts_dir;
}

-- The server over the recovered store. New starts with no run of this process in the queue.
unfoldable pub new_server : Machine → Config → Catalog → Progress → Server
unfolding new_store new_queue
new_server m c cat p = record {
  config = c;
  manifest = cat.manifest;
  by_id = cat.by_id;
  raw = cat.raw;
  version = m.version;
  sys =
      new_queue (record (new_store c.runs_dir p.disk) { runs = p.runs }) (pos_part c.max_concurrent)
        (pos_part c.queue_depth);
  dirs = [];
  files = [];
}

abbrev pub recovered : Machine → Config → Catalog → Option Progress → Boot
recovered m c cat none = runs_unreadable
recovered m c cat (some p) = serves (new_server m c cat p) (runtime c) p.killed

abbrev pub cataloged : Machine → Flags → Config → Loading → Boot
cataloged m f c (catalog_loaded cat) =
    if f.check_only
    then config_ok c cat
    else recovered m c cat (recover m.world (m.scan c.runs_dir) m.disk)
cataloged m f c e = bad_catalog e

abbrev pub configured : Machine → Flags → Loaded → Boot
configured m f (loaded c) = cataloged m f c (
    load_catalog m.codec (λ p. exists (m.host.stat p)) c.automation_dir
      (m.read_file (manifest_path c)))
configured m f e = bad_config e

-- realMain, up to srv.ListenAndServe
unfoldable pub real_main : Machine → Flags → Boot
unfolding load load_catalog manifest_path recover new_server runtime
real_main m f = if f.show_version then shows_version else configured m f (load m.host)
