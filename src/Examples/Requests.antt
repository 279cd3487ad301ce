-- ===== src/Examples/Requests.antt =====
-- The theorems of server/internal/httpapi at concrete inputs: a server with one workflow, one run
-- with a trace, and a request that starts another.
use eagle_condor_sandbox.Prelude.{
  Bool, true, false, List, [], ◌∷◌, Option, none, some, ◌≡◌, refl, All,
}
use eagle_condor_sandbox.Prelude.Int.{ℤ, pos, ◌<ℤ◌, ◌≤ℤ◌}
use eagle_condor_sandbox.Prelude.Text.{Text, codes}
use eagle_condor_sandbox.Prelude.Assoc.{lookup}
use eagle_condor_sandbox.Config.{Config}
use eagle_condor_sandbox.Receipts.{entries}
use eagle_condor_sandbox.Layout.Path.{abs}
use eagle_condor_sandbox.Layout.Components.{Proper, render}
use eagle_condor_sandbox.Layout.Inside.{Below}
use eagle_condor_sandbox.Catalog.Comments.{Json}
use eagle_condor_sandbox.Catalog.Index.{index}
use eagle_condor_sandbox.Run.{Run, queued}
use eagle_condor_sandbox.Store.Persist.{persist}
use eagle_condor_sandbox.Queue.Defs.{new_queue, layout}
use eagle_condor_sandbox.Http.Server.{
  Server, CreateConfig, Next, part, Codec, Answers, Surroundings, HttpRequest,
}
use eagle_condor_sandbox.Http.Create.{created, create_run, request_of}
use eagle_condor_sandbox.Http.Create.Outcomes.{Creates, MakesFresh, create_run_lem}
use eagle_condor_sandbox.Http.Create.Accepted.{IsOrdered}
use eagle_condor_sandbox.Http.Create.Checked.{IsEnv, AreKnown, create_run-IsChecked}
use eagle_condor_sandbox.Http.Create.Files.{last_sent}
use eagle_condor_sandbox.Http.Create.Complete.{HasInput, create_run-HasInput}
use eagle_condor_sandbox.Http.Reply.{attachment}
use eagle_condor_sandbox.Http.Read.{get_artifact}
use eagle_condor_sandbox.Http.Read.Downloads.{IsSent, get_artifact_lem}
use eagle_condor_sandbox.Http.Serve.{authorized, serve}
use eagle_condor_sandbox.Http.Serve.Guarded.{Changed, IsPublic, serve-Changed, serve-IsPublic}
use eagle_condor_sandbox.Examples.Runs.{smooth}
use eagle_condor_sandbox.Examples.Queues.{stored}
use eagle_condor_sandbox.Examples.Manifests.{manifest, all_there}
use eagle_condor_sandbox.Examples.Uploads.{all_files, parse_sheet}

abbrev pub config : Config
config = record {
  addr = codes ":8080";
  automation_dir = codes "/srv";
  runs_dir = codes "/srv/runs";
  receipts_dir = codes "/srv/receipts";
  node_bin = codes "node";
  max_concurrent = pos 2;
  queue_depth = pos 8;
  token = codes "secret";
  max_upload_bytes = pos 1000;
  shutdown_grace = pos 15000000000;
}

abbrev server : Server
server = record {
  config = config;
  manifest = manifest;
  by_id = (index all_there (codes "/srv") manifest).1;
  raw = codes "{}";
  version = codes "dev";
  sys = new_queue stored 2 8;
  dirs = [];
  files = [];
}

abbrev asked : CreateConfig
asked = record {
  workflow_id = codes "gis-single";
  env = codes "dev";
  timeout_seconds = pos 9000;
  trace = false;
  submitted_by = codes "ann";
  params = [];
}

-- It reads every config part as the one above.
abbrev decode_asked : CreateConfig → Text → Bool → Option CreateConfig
decode_asked cfg t broken = some asked

abbrev codec : Codec
codec = record { decode = decode_asked; csv = parse_sheet }

abbrev works : Text → Bool
works path = true

abbrev answers : Answers
answers = record {
  random = some (1 ∷ 2 ∷ 3 ∷ 4 ∷ 5 ∷ 6 ∷ 7 ∷ 255 ∷ []);
  stamp = record { year = 2026; month = 11; day = 26; hour = 8; minute = 59; second = 7 };
  now = 50;
  stat = all_files;
  mkdir = works;
  write = works;
  remove = true;
  add_faults = smooth;
  full_faults = smooth;
}

abbrev body : ℤ → Option (List Next)
body limit = some (
    part (record { name = codes "config"; content = codes "{}"; broken = false })
    ∷ part (record { name = codes "users"; content = codes "User"; broken = false })
    ∷ [])

answers-MakesFresh : MakesFresh server answers
unfolding lookup new_queue
answers-MakesFresh id e = (refl, refl)

create_run_lem_example : Creates server answers (create_run server codec answers body)
create_run_lem_example = create_run_lem server codec answers body answers-MakesFresh

manifest_accepted : (index all_there (codes "/srv") manifest).0 ≡ []
unfolding index
manifest_accepted = refl

abbrev made_id : Text
made_id = codes "20261126T085907Z-01020304050607ff"

abbrev new_one : Run
new_one = record {
  id = made_id;
  workflow_id = codes "gis-single";
  env = codes "DEV";
  submitted_by = codes "ann";
  state = queued;
  error = [];
  queued_at = 50;
  started_at = none;
  ended_at = none;
  timeout_seconds = pos 1800;
  exit_code = none;
  params = [];
  summary = none;
  artifacts = [];
  pid = pos 0;
  queue_position = 0;
}

abbrev after : Server
after = (create_run server codec answers body).0

accepted : create_run server codec answers body ≡ (after, created new_one)
unfolding create_run index lookup new_queue persist
accepted = refl

create_run-IsChecked_example :
    (o : IsOrdered server codec answers body after new_one) × (lookup o.order.cfg.workflow_id
        server.by_id
      ≡ some o.order.workflow)
    × IsEnv new_one.env
    × (pos 0 <ℤ new_one.timeout_seconds)
    × (new_one.timeout_seconds ≤ℤ o.order.workflow.max_timeout)
    × AreKnown o.order.workflow.inputs o.order.uploads
    × (o.job.timeout_seconds ≡ new_one.timeout_seconds)
create_run-IsChecked_example =
    create_run-IsChecked server codec answers body all_there after new_one answers-MakesFresh
      manifest_accepted refl accepted

create_run-HasInput_example :
    (o : IsOrdered server codec answers body after new_one) × All
      (HasInput server codec answers (request_of server made_id o.order) o.job.env [])
      (o.order.workflow.inputs)
    × ((p : Text)
        → lookup p after.files
          ≡ last_sent server codec answers
              (request_of server made_id o.order)
              o.order.workflow.inputs
              p
              none)
unfolding lookup
create_run-HasInput_example =
    create_run-HasInput server codec answers body all_there after new_one answers-MakesFresh
      manifest_accepted refl accepted

abbrev no_file : Text → Option Text
no_file path = none

abbrev no_json : Text → Option Json
no_json t = none

abbrev surroundings : Surroundings
surroundings = record {
  codec = codec;
  answers = answers;
  listing = entries [];
  read_file = no_file;
  can_open = works;
  unmarshal = no_json;
  cwd = none;
  now = 60;
  faults = smooth;
}

abbrev request : Text → HttpRequest
request authorization = record {
  method = codes "POST";
  path = codes "v1" ∷ codes "runs" ∷ [];
  authorization = authorization;
  if_none_match = [];
  query = [];
  body = body;
}

serve-Changed_example :
    Changed server
      (request (codes "Bearer secret"))
      (serve server surroundings (request (codes "Bearer secret"))).0
serve-Changed_example = serve-Changed server surroundings (request (codes "Bearer secret"))

token_accepted : authorized server (request (codes "Bearer secret")) ≡ true
unfolding authorized
token_accepted = refl

bare_token_accepted : authorized server (request (codes "secret")) ≡ true
unfolding authorized
bare_token_accepted = refl

token_refused : authorized server (request (codes "Bearer secrets")) ≡ false
unfolding authorized
token_refused = refl

serve-IsPublic_example :
    IsPublic (serve server surroundings (request (codes "Bearer secrets"))).1.body
serve-IsPublic_example =
    serve-IsPublic server surroundings (request (codes "Bearer secrets")) token_refused

abbrev trace_path : Text
trace_path = codes "/srv/runs/r1/output/logs-in/trace.zip"

sends_trace :
    (get_artifact server surroundings (codes "r1") (codes "ab12")).body
    ≡ attachment (codes "trace.zip") trace_path
unfolding get_artifact lookup new_queue
sends_trace = refl

get_artifact_lem_example :
    IsSent server surroundings
      (codes "r1")
      (codes "ab12")
      (get_artifact server surroundings (codes "r1") (codes "ab12"))
      (codes "trace.zip")
      trace_path
    × (rs : List Text) × (abs none (layout server.sys.store (codes "r1")) ≡ some (render rs))
    × All Proper rs
    × Below rs trace_path
get_artifact_lem_example =
    get_artifact_lem server surroundings (codes "r1") (codes "ab12") (codes "trace.zip") trace_path
      tt sends_trace
