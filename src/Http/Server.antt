-- ===== src/Http/Server.antt =====
-- The server of server/internal/httpapi/server.go: what it holds, and what its environment answers
-- while it serves one request.
use eagle_condor_sandbox.Prelude.{ℕ, Bool, List, Option}
use eagle_condor_sandbox.Prelude.Int.{ℤ}
use eagle_condor_sandbox.Prelude.Text.{Text}
use eagle_condor_sandbox.Prelude.Assoc.{Assoc}
use eagle_condor_sandbox.Config.{Config, Stat}
use eagle_condor_sandbox.Catalog.Comments.{Json}
use eagle_condor_sandbox.Catalog.{Manifest, Workflow}
use eagle_condor_sandbox.Run.Id.{Stamp, new_id}
use eagle_condor_sandbox.Store.Persist.{Faults}
use eagle_condor_sandbox.Queue.Defs.{Sys}
use eagle_condor_sandbox.Receipts.{Listing}
use eagle_condor_sandbox.Http.Header.{Row}

-- Server. `by_id` and `raw` are fields of the catalog, `dirs` and `files` are what requests made on
-- the disk, besides the meta.json files.
pub record Server : Type 0 where
  pub config : Config
  pub manifest : Manifest
  pub by_id : Assoc Workflow
  pub raw : Text
  pub version : Text
  pub sys : Sys
  pub dirs : List Text
  pub files : Assoc Text

-- createConfig
pub record CreateConfig : Type 0 where
  pub workflow_id : Text
  pub env : Text
  pub timeout_seconds : ℤ
  pub trace : Bool
  pub submitted_by : Text
  pub params : Assoc Text

-- A part of a multipart body: its form name, its bytes, and whether reading fails behind them.
pub record Part : Type 0 where
  pub name : Text
  pub content : Text
  pub broken : Bool

-- What NextPart answers; the end of a list of them is io.EOF.
pub data Next : Type 0 where
  part : Part → Next
  bad_part : Next

-- encoding/json and encoding/csv. The decoder of a config part gets what the limited reader gives,
-- and whether that ends in an error; it writes into the config that is there.
pub record Codec : Type 0 where
  pub decode : CreateConfig → Text → Bool → Option CreateConfig
  pub csv : Text → Option (List Row)

-- What the system answers: the random bytes and the calendar for NewID, the clock when the run is queued and when it is given up,
-- os.MkdirAll, os.WriteFile, whether os.RemoveAll works, the faults of the two saves.
pub record Answers : Type 0 where
  pub random : Option (List ℕ)
  pub stamp : Stamp
  pub now : ℕ
  pub stat : Text → Stat
  pub mkdir : Text → Bool
  pub write : Text → Bool
  pub remove : Bool
  pub add_faults : Faults
  pub full_faults : Faults

-- `run.NewID(time.Now())`
abbrev pub id_of : Answers → Option Text
id_of w = new_id w.random w.stamp

-- All that one request can meet: also what is on the disk, encoding/json, the working directory,
-- and for a cancellation the clock and the faults of its save.
pub record Surroundings : Type 0 where
  pub codec : Codec
  pub answers : Answers
  pub listing : Listing
  pub read_file : Text → Option Text
  pub can_open : Text → Bool
  pub unmarshal : Text → Option Json
  pub cwd : Option Text
  pub now : ℕ
  pub faults : Faults

-- A request. `path` are the parts of its cleaned path, `query` the first value of each key.
pub record HttpRequest : Type 0 where
  pub method : Text
  pub path : List Text
  pub authorization : Text
  pub if_none_match : Text
  pub query : Assoc Text
  pub body : ℤ → Option (List Next)
