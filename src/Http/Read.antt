-- ===== src/Http/Read.antt =====
-- The handlers of server/internal/httpapi/handlers.go that read.
pub mod Downloads
use eagle_condor_sandbox.Prelude.{
  ℕ, Bool, true, false, List, [], ◌∷◌, ◌++◌, Option, none, some, if◌then◌else◌, get_elem?,
}
use eagle_condor_sandbox.Prelude.Int.{ℤ, pos}
use eagle_condor_sandbox.Prelude.Text.{Text, codes, text_eq}
use eagle_condor_sandbox.Prelude.Assoc.{Assoc, lookup}
use eagle_condor_sandbox.Catalog.{Workflow}
use eagle_condor_sandbox.Catalog.Comments.{Json}
use eagle_condor_sandbox.Layout.{Resolved, ok, absolute, no_cwd, escapes, resolve, log_file}
use eagle_condor_sandbox.Layout.Path.{join_all}
use eagle_condor_sandbox.Logbuf.{Buffer, since}
use eagle_condor_sandbox.Receipts.{Receipt, list_receipts, etag}
use eagle_condor_sandbox.Run.{Run, queued, state_eq, Artifact, Kind, output_json}
use eagle_condor_sandbox.Store.{get, list, counts}
use eagle_condor_sandbox.Queue.Defs.{buffer, layout}
use eagle_condor_sandbox.Queue.Position.{queue_position}
use eagle_condor_sandbox.Http.Server.{Server, Surroundings}
use eagle_condor_sandbox.Http.Query.{query_get, query_int}
use eagle_condor_sandbox.Http.Tail.{tail_file}
use eagle_condor_sandbox.Http.Reply.{
  Response, reply, nothing, problem, health, bytes, workflow, receipts, runs, run, memory_log,
  file_log, results, artifacts, attachment,
}

abbrev pub no_run : Response
no_run = reply 404 (problem (codes "no such run"))

abbrev pub workflow_reply : Option Workflow → Response
workflow_reply none = reply 404 (problem (codes "no such workflow"))
workflow_reply (some wf) = reply 200 (workflow wf)

abbrev pub receipts_reply : Text → Option (List Receipt) → Response
receipts_reply tag none = reply 500 (problem (codes "reading receipts dir"))
receipts_reply tag (some rs) =
    if text_eq tag (etag rs)
    then reply 304 nothing
    else record { status = 200; headers = (codes "ETag", etag rs) ∷ []; body = receipts rs }

-- listReceipts, given the header If-None-Match.
unfoldable pub get_receipts : Surroundings → Text → Response
unfolding list_receipts etag text_eq reply
get_receipts w tag = receipts_reply tag (list_receipts w.listing)

abbrev pub reference_reply : Option Text → Response
reference_reply none = reply 404 (problem (codes "reference data not captured yet"))
reference_reply (some t) = reply 200 (bytes t)

abbrev pub is_output : Kind → Bool
is_output output_json = true
is_output _ = false

-- json.Unmarshal into a map takes objects, and null, which leaves the map nil.
abbrev pub with_output : Option Json → List Json → List Json
with_output none rest = rest
with_output (some j) rest = j ∷ rest

abbrev pub read_at : Surroundings → Resolved → Option Text
read_at w (ok path) = w.read_file path
read_at w absolute = none
read_at w no_cwd = none
read_at w escapes = none

abbrev pub parse_output : Surroundings → Option Text → Option Json
parse_output w none = none
parse_output w (some t) = w.unmarshal t

-- The loop over the artifacts of getResults.
unfoldable pub read_outputs : Surroundings → Text → List Artifact → List Json
unfolding resolve
read_outputs w root [] = []
read_outputs w root (a ∷ xs) =
    let rest = read_outputs w root xs in
    let parsed = parse_output w (read_at w (resolve w.cwd root a.rel)) in
    if is_output a.kind then with_output parsed rest else rest

abbrev pub artifacts_reply : Option Run → Response
artifacts_reply none = no_run
artifacts_reply (some r) = reply 200 (artifacts r.artifacts)

-- The loop of getArtifact: the first artifact of the id.
unfoldable pub find_artifact : Text → List Artifact → Option Artifact
unfolding text_eq
find_artifact wanted [] = none
find_artifact wanted (a ∷ xs) =
    let rest = find_artifact wanted xs in if text_eq a.id wanted then some a else rest

abbrev pub artifact_headers : Artifact → List (Text × Text)
artifact_headers a =
    (codes "Content-Disposition", codes "attachment; filename=\"" ++ (a.name ++ codes "\""))
    ∷ (if a.sensitive then (codes "Cache-Control", codes "no-store, private") ∷ [] else [])

abbrev pub serve_file : Surroundings → Artifact → Resolved → Response
serve_file w a absolute = reply 400 (problem (codes "invalid artifact path"))
serve_file w a no_cwd = reply 400 (problem (codes "invalid artifact path"))
serve_file w a escapes = reply 400 (problem (codes "invalid artifact path"))
serve_file w a (ok path) =
    if w.can_open path
    then record { status = 200; headers = artifact_headers a; body = attachment a.name path }
    else reply 404 (problem (codes "artifact file is gone"))

module _ (s : Server) where
  -- health
  unfoldable pub get_health : Response
  unfolding counts reply
  get_health =
      let (running, waiting) = counts s.sys.store in
      reply 200 (health s.version running waiting s.config.max_concurrent)

  -- listWorkflows
  unfoldable pub list_workflows : Response
  unfolding reply
  list_workflows = reply 200 (bytes s.raw)

  -- getWorkflow
  unfoldable pub get_workflow : Text → Response
  unfolding lookup reply
  get_workflow id = workflow_reply (lookup id s.by_id)

  -- getReference
  unfoldable pub get_reference : Surroundings → Response
  unfolding join_all reply
  get_reference w = reference_reply (
      w.read_file (
        join_all (
          s.config.automation_dir
          ∷ codes "data"
          ∷ codes "shared"
          ∷ codes "reference"
          ∷ codes "ps-reference.json"
          ∷ [])))

  -- listRuns
  unfoldable pub list_runs : Assoc Text → Response
  unfolding list query_get query_int reply
  list_runs q = reply 200 (
      runs (
        list s.sys.store (query_get q (codes "state")) (query_get q (codes "workflow"))
          (query_int q (codes "limit") (pos 50))))

  abbrev pub run_reply : Option Run → Response
  run_reply none = no_run
  run_reply (some r) =
      if state_eq r.state queued
      then reply 200 (run (some (record r { queue_position = queue_position s.sys r.id })))
      else reply 200 (run (some r))

  -- getRun
  unfoldable pub get_run : Text → Response
  unfolding get state_eq queue_position reply
  get_run id = run_reply (get s.sys.store id)

  abbrev pub at_address : Option ℕ → Option Buffer
  at_address none = none
  at_address (some a) = get_elem? s.sys.queue.buffers a

  abbrev pub log_of : Surroundings → Text → ℤ → ℤ → Run → Option Buffer → Response
  log_of w id from limit r (some b) =
      let (lines, next) = since b from limit in reply 200 (memory_log lines next r.state)
  log_of w id from limit r none =
      let (lines, next) = tail_file (w.read_file (log_file (layout s.sys.store id))) from limit in
      reply 200 (file_log lines next r.state)

  abbrev pub log_reply : Surroundings → Text → Assoc Text → Option Run → Response
  log_reply w id q none = no_run
  log_reply w id q (some r) =
      log_of w id (query_int q (codes "from") (pos 0)) (query_int q (codes "limit") (pos 2000)) r
        (at_address (buffer s.sys id))

  -- getLog
  unfoldable pub get_log : Surroundings → Text → Assoc Text → Response
  unfolding get query_int buffer since tail_file log_file layout reply
  get_log w id q = log_reply w id q (get s.sys.store id)

  abbrev pub results_reply : Surroundings → Text → Option Run → Response
  results_reply w id none = no_run
  results_reply w id (some r) = reply 200 (
      results (record {
        id = r.id;
        state = r.state;
        summary = r.summary;
        outputs = read_outputs w (layout s.sys.store id) r.artifacts;
        artifacts = r.artifacts;
      }))

  -- getResults
  unfoldable pub get_results : Surroundings → Text → Response
  unfolding get read_outputs layout reply
  get_results w id = results_reply w id (get s.sys.store id)

  -- listArtifacts
  unfoldable pub list_artifacts : Text → Response
  unfolding get reply
  list_artifacts id = artifacts_reply (get s.sys.store id)

  abbrev pub artifact_reply : Surroundings → Text → Option Artifact → Response
  artifact_reply w id none = reply 404 (problem (codes "no such artifact"))
  artifact_reply w id (some a) = serve_file w a (resolve w.cwd (layout s.sys.store id) a.rel)

  abbrev pub run_artifact : Surroundings → Text → Text → Option Run → Response
  run_artifact w id wanted none = no_run
  run_artifact w id wanted (some r) = artifact_reply w id (find_artifact wanted r.artifacts)

  -- getArtifact. http.ServeContent answers the file, or a range of it.
  unfoldable pub get_artifact : Surroundings → Text → Text → Response
  unfolding get find_artifact resolve layout reply
  get_artifact w id wanted = run_artifact w id wanted (get s.sys.store id)
