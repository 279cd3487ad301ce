-- ===== src/Config.antt =====
-- server/internal/config/config.go: the server's settings, from its environment. What the system
-- answers is a parameter: os.Getenv, os.Stat, os.MkdirAll, the paths of the executable and of the
-- working directory.
pub mod Defaults
pub mod Valid
pub mod Checks
use eagle_condor_sandbox.Prelude.{
  Bool, true, false, not, List, [], ◌∷◌, ◌++◌, Option, none, some, if◌then◌else◌, ◌||◌, ◌&&◌,
}
use eagle_condor_sandbox.Prelude.Int.{ℤ, pos, ltb_ℤ}
use eagle_condor_sandbox.Prelude.Decimal.{parse_int}
use eagle_condor_sandbox.Prelude.Text.{Text, codes, text_eq}
use eagle_condor_sandbox.Layout.Path.{join_all, abs, dir}

-- Config. A duration is in nanoseconds.
pub record Config : Type 0 where
  pub addr : Text
  pub automation_dir : Text
  pub runs_dir : Text
  pub receipts_dir : Text
  pub node_bin : Text
  pub max_concurrent : ℤ
  pub queue_depth : ℤ
  pub token : Text
  pub max_upload_bytes : ℤ
  pub shutdown_grace : ℤ

-- What os.Stat says of a path.
pub data Stat : Type 0 where
  absent file folder : Stat

pub record Host : Type 0 where
  pub getenv : Text → Text
  pub stat : Text → Stat
  pub mkdir_all : Text → Bool
  pub executable : Option Text
  pub getwd : Option Text

-- PlaywrightCLI
unfoldable pub playwright_cli : Config → Text
unfolding join_all
playwright_cli c = join_all (
    c.automation_dir
    ∷ codes "node_modules"
    ∷ codes "@playwright"
    ∷ codes "test"
    ∷ codes "cli.js"
    ∷ [])

-- ManifestPath
unfoldable pub manifest_path : Config → Text
unfolding join_all
manifest_path c = join_all (c.automation_dir ∷ codes "workflows.json" ∷ [])

-- RunDir
unfoldable pub run_dir : Config → Text → Text
unfolding join_all
run_dir c id = join_all (c.runs_dir ∷ id ∷ [])

-- env
unfoldable pub env : Host → Text → Text → Text
unfolding text_eq
env h key def = if text_eq (h.getenv key) [] then def else h.getenv key

-- envInt: `none` is the error that the value is not a number.
unfoldable pub env_int : Host → Text → ℤ → Option ℤ
unfolding text_eq parse_int
env_int h key def = if text_eq (h.getenv key) [] then some def else parse_int (h.getenv key)

abbrev pub is_folder : Stat → Bool
is_folder folder = true
is_folder file = false
is_folder absent = false

abbrev pub exists : Stat → Bool
exists absent = false
exists file = true
exists folder = true

-- dirExists
unfoldable pub dir_exists : Host → Text → Bool
dir_exists h p = is_folder (h.stat p)

abbrev pub beside_exe : Host → Option Text → Option Text
beside_exe h none = none
beside_exe h (some exe) =
    let d = join_all (dir exe ∷ codes ".." ∷ codes "automation" ∷ []) in
    if dir_exists h d then some d else none

-- The loop over the candidates.
unfoldable pub first_dir : Host → List Text → Option Text
unfolding dir_exists
first_dir h [] = none
first_dir h (p ∷ ps) = let rest = first_dir h ps in if dir_exists h p then some p else rest

abbrev pub in_cwd : Host → Option Text → Option Text
in_cwd h none = none
in_cwd h (some wd) = first_dir h (
    join_all (wd ∷ codes "automation" ∷ [])
    ∷ join_all (wd ∷ codes ".." ∷ codes "automation" ∷ [])
    ∷ [])

abbrev pub or_else : Option Text → Text → Text
or_else none t = t
or_else (some s) t = s

-- defaultAutomationDir
unfoldable pub default_automation_dir : Host → Text
unfolding join_all dir dir_exists first_dir
default_automation_dir h =
    or_else (beside_exe h h.executable) (or_else (in_cwd h h.getwd) (codes "automation"))

pub data Problem : Type 0 where
  no_workers no_depth no_token : Problem
  no_automation_dir no_manifest no_cli no_runs_dir : Text → Problem

abbrev pub unless : Bool → Problem → List Problem
unless b p = if b then [] else p ∷ []

-- validate: its errors, in their order. It makes the runs directory.
unfoldable pub validate : Host → Config → List Problem
unfolding text_eq manifest_path playwright_cli
validate h c =
    unless (not (ltb_ℤ c.max_concurrent (pos 1))) no_workers
    ++ (unless (not (ltb_ℤ c.queue_depth (pos 1))) no_depth
        ++ (unless (not (text_eq c.token [])) no_token
            ++ (unless (is_folder (h.stat c.automation_dir)) (no_automation_dir c.automation_dir)
                ++ (unless (exists (h.stat (manifest_path c))) (no_manifest (manifest_path c))
                    ++ (unless (exists (h.stat (playwright_cli c))) (no_cli (playwright_cli c))
                        ++ unless (h.mkdir_all c.runs_dir) (no_runs_dir c.runs_dir))))))

pub data Loaded : Type 0 where
  loaded : Config → Loaded
  no_cwd : Loaded
  not_a_number : Text → Loaded
  invalid : List Problem → Loaded

abbrev pub checked : Config → List Problem → Loaded
checked c [] = loaded c
checked c (p ∷ ps) = invalid (p ∷ ps)

unfoldable pub settings : Host → Text → ℤ → ℤ → ℤ → Config
unfolding env join_all
settings h automation workers depth upload = record {
  addr = env h (codes "PSTAD_ADDR") (codes "127.0.0.1:8080");
  automation_dir = automation;
  runs_dir = env h (codes "PSTAD_RUNS_DIR") (join_all (automation ∷ codes ".runs" ∷ []));
  receipts_dir =
      env h (codes "PSTAD_RECEIPTS_DIR")
        (join_all (automation ∷ codes "data" ∷ codes "receipts" ∷ []));
  node_bin = env h (codes "PSTAD_NODE_BIN") (codes "node");
  max_concurrent = workers;
  queue_depth = depth;
  token = h.getenv (codes "PSTAD_TOKEN");
  max_upload_bytes = upload;
  shutdown_grace = pos 15000000000;
}

abbrev pub number : Text → Option ℤ → (ℤ → Loaded) → Loaded
number key none next = not_a_number key
number key (some n) next = next n

abbrev pub load_in : Host → Option Text → Loaded
load_in h none = no_cwd
load_in h (some automation) =
    number (codes "PSTAD_MAX_CONCURRENT") (env_int h (codes "PSTAD_MAX_CONCURRENT") (pos 2))
      λ workers.
        number (codes "PSTAD_QUEUE_DEPTH") (env_int h (codes "PSTAD_QUEUE_DEPTH") (pos 32)) λ depth.
          number (codes "PSTAD_MAX_UPLOAD_BYTES")
            (env_int h (codes "PSTAD_MAX_UPLOAD_BYTES") (pos 10485760))
            λ upload.
              checked (settings h automation workers depth upload)
                (validate h (settings h automation workers depth upload))

-- Load
unfoldable pub load : Host → Loaded
unfolding env env_int abs settings validate default_automation_dir
load h = load_in h (abs h.getwd (env h (codes "PSTAD_AUTOMATION_DIR") (default_automation_dir h)))
