-- ===== src/Http/Create.antt =====
-- createRun of server/internal/httpapi/handlers.go: from a multipart body to a queued run. What a
-- refused request wrote is removed again, if os.RemoveAll works; a file that os.WriteFile could write
-- only in part is removed with the rest and is left out.
pub mod Outcomes
pub mod Accepted
pub mod Checked
pub mod Provided
pub mod Files
pub mod Kept
pub mod Complete
use eagle_condor_sandbox.Prelude.{
  ℕ, Bool, true, false, ◌&&◌, ◌||◌, not, List, [], ◌∷◌, ◌++◌, Option, none, some, if◌then◌else◌,
}
use eagle_condor_sandbox.Prelude.Int.{ℤ, pos}
use eagle_condor_sandbox.Prelude.Text.{Text, codes, text_eq, has_prefix}
use eagle_condor_sandbox.Prelude.Assoc.{Assoc, lookup, insert}
use eagle_condor_sandbox.Catalog.{Workflow}
use eagle_condor_sandbox.Layout.{create}
use eagle_condor_sandbox.Run.{Run, queued, errored}
use eagle_condor_sandbox.Store.{Store, add, update}
use eagle_condor_sandbox.Store.Persist.{PersistError}
use eagle_condor_sandbox.Queue.Defs.{Sys, Sent, accepted, full, panics, layout, submit}
use eagle_condor_sandbox.Run.Id.{new_id}
use eagle_condor_sandbox.Http.Server.{Server, CreateConfig, Codec, Answers, Next, id_of}
use eagle_condor_sandbox.Http.Upload.{
  Refusal, no_workflow, no_id, no_dirs, refusal_status, Tried, refused, fine, ◌>>=◌, Form,
  read_form,
}
use eagle_condor_sandbox.Http.Inputs.{
  choose_env, choose_timeout, check_names, Gathered, Request, first_env, take_inputs,
}

-- How createRun ends: it refuses the request, or Add fails, or Submit finds the queue full or panics,
-- or it answers with the run.
pub data Created : Type 0 where
  rejected : Refusal → Created
  not_added : PersistError → Created
  queue_full panicked : Created
  created : Run → Created

-- The status of the answer. A panic is answered by recoverPanics.
unfoldable pub created_status : Created → ℕ
unfolding refusal_status
created_status (rejected e) = refusal_status e
created_status (not_added e) = 500
created_status queue_full = 429
created_status panicked = 500
created_status (created r) = 202

-- What the request asks for, once everything before the run's directory is checked.
pub record Order : Type 0 where
  pub workflow : Workflow
  pub cfg : CreateConfig
  pub uploads : Assoc Text
  pub env : Text
  pub timeout : ℤ

abbrev pub find_workflow : Text → Option Workflow → Tried Workflow
find_workflow id none = refused (no_workflow id)
find_workflow id (some wf) = fine wf

-- createRun up to the check of the uploads' names.
unfoldable pub read_order : Server → Codec → (ℤ → Option (List Next)) → Tried Order
unfolding read_form lookup choose_env choose_timeout check_names
read_order s codec body = do
  f ← read_form codec s.config.max_upload_bytes body
  wf ← find_workflow f.cfg.workflow_id (lookup f.cfg.workflow_id s.by_id)
  env ← choose_env f.cfg.env
  names ← check_names wf.inputs f.uploads
  fine (record {
    workflow = wf;
    cfg = f.cfg;
    uploads = f.uploads;
    env = env;
    timeout = choose_timeout wf f.cfg.timeout_seconds;
  })

unfoldable pub new_run : Text → Order → Assoc Text → ℕ → Run
new_run id o params now = record {
  id = id;
  workflow_id = o.workflow.id;
  env = o.env;
  submitted_by = o.cfg.submitted_by;
  state = queued;
  error = [];
  queued_at = now;
  started_at = none;
  ended_at = none;
  timeout_seconds = o.timeout;
  exit_code = none;
  params = params;
  summary = none;
  artifacts = [];
  pid = pos 0;
  queue_position = 0;
}

-- What the run becomes when the queue has no room for it.
unfoldable pub mark_full : Run → Run
mark_full r = record r { state = errored; error = codes "queue full" }

abbrev pub is_within : Text → Text → Bool
is_within root p = text_eq p root || has_prefix p (root ++ codes "/")

unfoldable pub outside : Text → List Text → List Text
unfolding text_eq has_prefix
outside root [] = []
outside root (d ∷ ds) = let rest = outside root ds in if is_within root d then rest else d ∷ rest

-- os.RemoveAll of the run's directory, whose error is dropped. The files that this request wrote are not in the
-- server's record of files yet.
unfoldable pub remove_all : Bool → Text → Server → Server
unfolding outside
remove_all works root s = if works then record s { dirs = outside root s.dirs } else s

abbrev pub with_store : Server → Store → Server
with_store s store = record s { sys = record s.sys { store = store } }

abbrev pub with_sys : Server → Sys → Server
with_sys s sys = record s { sys = sys }

abbrev pub give_up : Server → Answers → Text → Server
give_up s w id = with_store s (update s.sys.store w.full_faults id mark_full).0

-- createRun from the answer of Submit on.
abbrev pub sent : Server → Answers → Run → Sys × Sent → Server × Created
sent s w r (sys, accepted) = (with_sys s sys, created r)
sent s w r (sys, full) = (give_up (with_sys s sys) w r.id, queue_full)
sent s w r (sys, panics) = (with_sys s sys, panicked)

-- createRun from the answer of Add on.
abbrev pub added :
    Server → Answers → Run → Workflow → Assoc Text → Store × Option PersistError → Server × Created
added s w r wf env (store, some e) = (with_store s store, not_added e)
added s w r wf env (store, none) =
    let s' = with_store s store in sent s' w r (submit s'.sys r wf env)

-- createRun from the end of the loop over the inputs on.
abbrev pub gathered : Server → Answers → Text → Order → Tried Gathered → Server × Created
gathered s w id o (refused e) = (remove_all w.remove (layout s.sys.store id) s, rejected e)
gathered s w id o (fine g) =
    let r = new_run id o g.params w.now in
    added (record s { files = g.files }) w r o.workflow g.child_env (add s.sys.store w.add_faults r)

abbrev pub first_gathered : Server → Order → Gathered
first_gathered s o = record {
  child_env = first_env o.env o.cfg.trace;
  params = [];
  files = s.files;
}

abbrev pub request_of : Server → Text → Order → Request
request_of s id o = record {
  root = layout s.sys.store id;
  uploads = o.uploads;
  given = o.cfg.params;
}

-- createRun from the answer of Create on.
abbrev pub made : Server → Codec → Answers → Text → Order → List Text × Bool → Server × Created
made s codec w id o (dirs, false) = (record s { dirs = s.dirs ++ dirs }, rejected no_dirs)
made s codec w id o (dirs, true) =
    let s' = record s { dirs = s.dirs ++ dirs } in
    gathered s' w id o
      (take_inputs s codec w (request_of s id o) o.workflow.inputs (first_gathered s o))

abbrev pub with_id : Server → Codec → Answers → Order → Option Text → Server × Created
with_id s codec w o none = (s, rejected no_id)
with_id s codec w o (some id) = made s codec w id o (create w.mkdir (layout s.sys.store id))

abbrev pub ordered : Server → Codec → Answers → Tried Order → Server × Created
ordered s codec w (refused e) = (s, rejected e)
ordered s codec w (fine o) = with_id s codec w o (id_of w)

-- createRun
unfoldable pub create_run : Server → Codec → Answers → (ℤ → Option (List Next)) → Server × Created
unfolding new_id read_order create layout take_inputs add new_run submit update mark_full remove_all
create_run s codec w body = ordered s codec w (read_order s codec body)
