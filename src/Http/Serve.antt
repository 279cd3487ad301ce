-- ===== src/Http/Serve.antt =====
-- Handler of server/internal/httpapi/server.go: the routes and what is wrapped around them. The
-- time limits of http.TimeoutHandler, the log and the header Allow of a 405 are left out. A pattern of net/http's ServeMux
-- matches the parts of a cleaned path; one for GET is also for HEAD, and a part of it in braces
-- stands for one part that is not empty. No two of the patterns match one path with one method.
pub mod Guarded
use eagle_condor_sandbox.Prelude.{
  ℕ, Bool, true, false, ◌&&◌, ◌||◌, List, [], ◌∷◌, ◌++◌, Option, none, some, if◌then◌else◌,
}
use eagle_condor_sandbox.Prelude.Text.{Text, codes, text_eq, trim_prefix}
use eagle_condor_sandbox.Http.Server.{Server, Surroundings, HttpRequest}
use eagle_condor_sandbox.Http.Reply.{Response, reply, nothing, problem}
use eagle_condor_sandbox.Http.Read.{
  get_health, list_workflows, get_workflow, get_receipts, get_reference, list_runs, get_run,
  get_log, get_results, list_artifacts, get_artifact,
}
use eagle_condor_sandbox.Http.Write.{Handled, answers, panics, cancel_run, post_run}

pub data Segment : Type 0 where
  lit : Text → Segment
  wildcard : Segment

pub data Endpoint : Type 0 where
  health workflows workflow receipts reference : Endpoint
  create list run log cancel results artifacts artifact : Endpoint

pub record Route : Type 0 where
  pub method : Text
  pub pattern : List Segment
  pub endpoint : Endpoint

abbrev runs_path : List Segment → List Segment
runs_path rest = lit (codes "v1") ∷ lit (codes "runs") ∷ rest

abbrev get : List Segment → Endpoint → Route
get pattern e = record { method = codes "GET"; pattern = pattern; endpoint = e }

abbrev post : List Segment → Endpoint → Route
post pattern e = record { method = codes "POST"; pattern = pattern; endpoint = e }

-- The registrations of Handler.
unfoldable pub routes : List Route
routes =
    get (lit (codes "v1") ∷ lit (codes "health") ∷ []) health
    ∷ get (lit (codes "v1") ∷ lit (codes "workflows") ∷ []) workflows
    ∷ get (lit (codes "v1") ∷ lit (codes "workflows") ∷ wildcard ∷ []) workflow
    ∷ get (lit (codes "v1") ∷ lit (codes "receipts") ∷ []) receipts
    ∷ get (lit (codes "v1") ∷ lit (codes "reference") ∷ []) reference
    ∷ post (runs_path []) create
    ∷ get (runs_path []) list
    ∷ get (runs_path (wildcard ∷ [])) run
    ∷ get (runs_path (wildcard ∷ lit (codes "log") ∷ [])) log
    ∷ post (runs_path (wildcard ∷ lit (codes "cancel") ∷ [])) cancel
    ∷ get (runs_path (wildcard ∷ lit (codes "results") ∷ [])) results
    ∷ get (runs_path (wildcard ∷ lit (codes "artifacts") ∷ [])) artifacts
    ∷ get (runs_path (wildcard ∷ lit (codes "artifacts") ∷ wildcard ∷ [])) artifact
    ∷ []

-- Whether a handler is wrapped in auth: all but health.
abbrev pub is_public : Endpoint → Bool
is_public health = true
is_public _ = false

abbrev pub take_part : Text → Option (List Text) → Option (List Text)
take_part p none = none
take_part [] (some ps) = none
take_part (c ∷ p) (some ps) = some ((c ∷ p) ∷ ps)

-- The values of the wildcards, if the path is of the pattern.
unfoldable pub match_path : List Segment → List Text → Option (List Text)
unfolding text_eq
match_path [] [] = some []
match_path [] (p ∷ ps) = none
match_path (s ∷ ss) [] = none
match_path (lit t ∷ ss) (p ∷ ps) = let rest = match_path ss ps in if text_eq t p then rest else none
match_path (wildcard ∷ ss) (p ∷ ps) = take_part p (match_path ss ps)

-- A pattern for GET is for HEAD too.
unfoldable pub method_fits : Text → Text → Bool
unfolding text_eq
method_fits method asked =
    text_eq method asked || (text_eq method (codes "GET") && text_eq asked (codes "HEAD"))

pub data Found : Type 0 where
  handler : Endpoint → List Text → Found
  wrong_method no_route : Found

abbrev pub found_or : Text → Route → Option (List Text) → Found → Found → Found
found_or asked r none known rest = rest
found_or asked r (some values) known rest =
    if method_fits r.method asked then handler r.endpoint values else known

-- The choice of a handler; `seen` is whether a pattern for another method matched before.
unfoldable pub find_handler : Text → List Text → List Route → Bool → Found
unfolding match_path method_fits
find_handler asked path [] seen = if seen then wrong_method else no_route
find_handler asked path (r ∷ rs) seen =
    found_or asked r (match_path r.pattern path) (find_handler asked path rs true)
      (find_handler asked path rs seen)

-- The comparison of auth.
unfoldable pub authorized : Server → HttpRequest → Bool
unfolding trim_prefix text_eq
authorized s q = text_eq (trim_prefix q.authorization (codes "Bearer ")) s.config.token

abbrev pub first : List Text → Text
first [] = []
first (v ∷ vs) = v

abbrev pub second : List Text → Text
second [] = []
second (v ∷ []) = []
second (v ∷ u ∷ vs) = u

abbrev pub reads : Server → Response → Server × Handled
reads s r = (s, answers r)

abbrev pub answered : Server × Response → Server × Handled
answered (s, r) = (s, answers r)

-- The handler of an endpoint, at the values of its wildcards.
unfoldable pub handle :
    Server → Surroundings → HttpRequest → Endpoint → List Text → Server × Handled
unfolding get_health list_workflows get_workflow get_receipts get_reference list_runs get_run
    get_log get_results list_artifacts get_artifact cancel_run post_run
handle s w q health vs = reads s (get_health s)
handle s w q workflows vs = reads s (list_workflows s)
handle s w q workflow vs = reads s (get_workflow s (first vs))
handle s w q receipts vs = reads s (get_receipts w q.if_none_match)
handle s w q reference vs = reads s (get_reference s w)
handle s w q create vs = post_run s w q.body
handle s w q list vs = reads s (list_runs s q.query)
handle s w q run vs = reads s (get_run s (first vs))
handle s w q log vs = reads s (get_log s w (first vs) q.query)
handle s w q cancel vs = answered (cancel_run s w (first vs))
handle s w q results vs = reads s (get_results s w (first vs))
handle s w q artifacts vs = reads s (list_artifacts s (first vs))
handle s w q artifact vs = reads s (get_artifact s w (first vs) (second vs))

abbrev pub unauthorized : Response
unauthorized = record {
  status = 401;
  headers = (codes "WWW-Authenticate", codes "Bearer realm=\"pstad\"") ∷ [];
  body = problem (codes "missing or invalid bearer token");
}

-- auth around the handlers that are not public.
unfoldable pub guarded :
    Server → Surroundings → HttpRequest → Endpoint → List Text → Server × Handled
unfolding authorized handle
guarded s w q e vs =
    if is_public e || authorized s q then handle s w q e vs else (s, answers unauthorized)

abbrev pub dispatch : Server → Surroundings → HttpRequest → Found → Server × Handled
dispatch s w q (handler e vs) = guarded s w q e vs
dispatch s w q wrong_method = (s, answers (reply 405 (problem (codes "Method Not Allowed"))))
dispatch s w q no_route = (s, answers (reply 404 (problem (codes "404 page not found"))))

-- recoverPanics
unfoldable pub recover_panics : Server × Handled → Server × Response
unfolding reply
recover_panics (s, answers r) = (s, r)
recover_panics (s, panics) = (s, reply 500 (problem (codes "internal error")))

abbrev pub cors_headers : List (Text × Text)
cors_headers =
    (codes "Access-Control-Allow-Origin", codes "*")
    ∷ (codes "Access-Control-Allow-Methods", codes "GET, POST, OPTIONS")
    ∷ (codes "Access-Control-Allow-Headers", codes "Authorization, Content-Type")
    ∷ []

abbrev pub with_cors : Server × Response → Server × Response
with_cors (s, r) = (s, record r { headers = cors_headers ++ r.headers })

-- Handler: cors, which answers every preflight request itself, around the rest.
unfoldable pub serve : Server → Surroundings → HttpRequest → Server × Response
unfolding find_handler routes guarded recover_panics reply text_eq
serve s w q =
    let rest = recover_panics (dispatch s w q (find_handler q.method q.path routes false)) in
    with_cors (if text_eq q.method (codes "OPTIONS") then (s, reply 204 nothing) else rest)
