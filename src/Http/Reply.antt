-- ===== src/Http/Reply.antt =====
-- What a handler of server/internal/httpapi answers: the status, the headers that it sets besides
-- the content type, and the body.
use eagle_condor_sandbox.Prelude.{ℕ, List, [], Option}
use eagle_condor_sandbox.Prelude.Int.{ℤ}
use eagle_condor_sandbox.Prelude.Text.{Text}
use eagle_condor_sandbox.Catalog.{Workflow}
use eagle_condor_sandbox.Catalog.Comments.{Json}
use eagle_condor_sandbox.Logbuf.{Line}
use eagle_condor_sandbox.Receipts.{Receipt}
use eagle_condor_sandbox.Run.{Run, State, Artifact, Summary}
use eagle_condor_sandbox.Store.Persist.{PersistError}
use eagle_condor_sandbox.Http.Upload.{Refusal}
use eagle_condor_sandbox.Http.Tail.{Numbered}

pub record Results : Type 0 where
  pub id : Text
  pub state : State
  pub summary : Option Summary
  pub outputs : List Json
  pub artifacts : List Artifact

-- A file that is sent is given by its path; `problem` is the error of writeError.
pub data Body : Type 0 where
  nothing : Body
  problem : Text → Body
  refusal : Refusal → Body
  unsaved : PersistError → Body
  health : Text → ℕ → ℕ → ℤ → Body
  bytes : Text → Body
  workflow : Workflow → Body
  receipts : List Receipt → Body
  runs : List Run → Body
  run : Option Run → Body
  memory_log : List Line → ℤ → State → Body
  file_log : List Numbered → ℤ → State → Body
  results : Results → Body
  artifacts : List Artifact → Body
  attachment : Text → Text → Body

pub record Response : Type 0 where
  pub status : ℕ
  pub headers : List (Text × Text)
  pub body : Body

-- writeJSON, and writeError.
unfoldable pub reply : ℕ → Body → Response
reply status body = record { status = status; headers = []; body = body }
