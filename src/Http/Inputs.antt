-- ===== src/Http/Inputs.antt =====
-- The middle of createRun (server/internal/httpapi/handlers.go): the settings of the run, and the
-- loop over the workflow's inputs, which fills the child's environment and the run's directory.
use eagle_condor_sandbox.Prelude.{
  Bool, ◌&&◌, ◌||◌, List, [], ◌∷◌, Option, none, some, if◌then◌else◌,
}
use eagle_condor_sandbox.Prelude.Int.{ℤ, pos, ltb_ℤ, leb_ℤ}
use eagle_condor_sandbox.Prelude.Decimal.{format_signed}
use eagle_condor_sandbox.Prelude.Text.{Text, codes, text_eq, upper}
use eagle_condor_sandbox.Prelude.Assoc.{Assoc, lookup, insert}
use eagle_condor_sandbox.Catalog.{Input, Workflow, find_input}
use eagle_condor_sandbox.Layout.{input}
use eagle_condor_sandbox.Layout.Path.{join}
use eagle_condor_sandbox.Receipts.{has_receipt}
use eagle_condor_sandbox.Http.Csv.{CsvError, validate_csv}
use eagle_condor_sandbox.Http.Server.{Server, Codec, Answers}
use eagle_condor_sandbox.Http.Upload.{
  unknown_input, missing_input, missing_param, unwritten, bad_csv, bad_env, Tried, refused, fine,
  ◌>>=◌,
}

-- The keys of validEnvs.
abbrev pub valid_env : Text → Bool
valid_env e = text_eq e (codes "DEV") || text_eq e (codes "TST") || text_eq e (codes "STG")

abbrev pub or_test : Text → Text
or_test [] = codes "TST"
or_test (c ∷ e) = c ∷ e

-- The environment of the run.
unfoldable pub choose_env : Text → Tried Text
unfolding upper text_eq
choose_env e = let name = or_test (upper e) in if valid_env name then fine name else refused bad_env

-- The timeout of the run.
unfoldable pub choose_timeout : Workflow → ℤ → ℤ
choose_timeout wf asked =
    let timeout = if leb_ℤ asked (pos 0) then wf.default_timeout else asked in
    if ltb_ℤ (pos 0) wf.max_timeout && ltb_ℤ wf.max_timeout timeout then wf.max_timeout else timeout

abbrev pub known : Option Input → Text → Assoc Text → Tried (Assoc Text) → Tried (Assoc Text)
known none name us rest = refused (unknown_input name)
known (some i) name us rest = rest

-- The loop over the names of the uploads.
unfoldable pub check_names : List Input → Assoc Text → Tried (Assoc Text)
unfolding find_input
check_names is [] = fine []
check_names is ((name, t) ∷ us) = known (find_input name is) name us (check_names is us)

-- childEnv, params, and the files written so far.
pub record Gathered : Type 0 where
  pub child_env : Assoc Text
  pub params : Assoc Text
  pub files : Assoc Text

-- What the loop over the inputs looks at.
pub record Request : Type 0 where
  pub root : Text
  pub uploads : Assoc Text
  pub given : Assoc Text

abbrev pub first_env : Text → Bool → Assoc Text
first_env env trace =
    if trace
    then (codes "ENV", env) ∷ (codes "PW_TRACE", codes "on") ∷ []
    else (codes "ENV", env) ∷ []

module _ (s : Server) (codec : Codec) (w : Answers) where
  -- validateCSV, with the library of the server.
  unfoldable pub check_csv : Input → Text → Option CsvError
  unfolding validate_csv has_receipt
  check_csv i t = validate_csv (has_receipt s.config.receipts_dir w.stat) codec.csv s.manifest i t

  abbrev pub written : Text → Input → Text → Gathered → Tried Gathered
  written dest i t g =
      if w.write dest
      then fine
          (record g { child_env = insert i.env dest g.child_env; files = insert dest t g.files })
      else refused (unwritten dest)

  abbrev pub checked_csv : Text → Input → Text → Option CsvError → Gathered → Tried Gathered
  checked_csv root i t (some e) g = refused (bad_csv e)
  checked_csv root i t none g = written (join (input root) i.filename) i t g

  -- The case "csv".
  abbrev pub take_csv : Text → Input → Option Text → Gathered → Tried Gathered
  take_csv root i none g = if i.required then refused (missing_input i.name) else fine g
  take_csv root i (some t) g = checked_csv root i t (check_csv i t) g

  abbrev pub with_param : Input → Text → Gathered → Gathered
  with_param i raw g = record g {
    child_env = insert i.env raw g.child_env;
    params = insert i.name raw g.params;
  }

  abbrev pub default_param : Input → Option ℤ → Gathered → Tried Gathered
  default_param i (some z) g = fine (with_param i (format_signed z) g)
  default_param i none g = if i.required then refused (missing_param i.name) else fine g

  -- The case "int".
  abbrev pub take_int : Input → Option Text → Gathered → Tried Gathered
  take_int i (some raw) g = fine (with_param i raw g)
  take_int i none g = default_param i i.default g

  -- One round of the loop. An input of another kind is passed over.
  unfoldable pub take_input : Request → Input → Gathered → Tried Gathered
  unfolding text_eq lookup insert join input check_csv format_signed
  take_input q i g =
      if text_eq i.kind (codes "csv")
      then take_csv q.root i (lookup i.name q.uploads) g
      else if text_eq i.kind (codes "int")
      then take_int i (lookup i.name q.given) g
      else fine g

  -- The loop over the inputs.
  unfoldable pub take_inputs : Request → List Input → Gathered → Tried Gathered
  unfolding take_input
  take_inputs q [] g = fine g
  take_inputs q (i ∷ is) g = do g' ← take_input q i g; take_inputs q is g'
