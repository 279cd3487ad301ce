-- ===== src/Layout.antt =====
-- server/internal/run/layout.go: the directory of one run, on a system whose separator is "/".
pub mod Path
pub mod Components
pub mod Inside
pub mod Isolation
use eagle_condor_sandbox.Prelude.{
  Bool, true, false, ◌&&◌, ◌||◌, not, List, [], ◌∷◌, ◌++◌, Option, none, some, if◌then◌else◌,
}
use eagle_condor_sandbox.Prelude.Text.{Text, codes, text_eq, has_prefix}
use Path.{clean, join, is_abs, abs, rel}

-- `root` is Layout.Root.
unfoldable pub input : Text → Text
unfolding join
input root = join root (codes "input")

unfoldable pub output : Text → Text
unfolding join
output root = join root (codes "output")

unfoldable pub report : Text → Text
unfolding join
report root = join root (codes "report")

unfoldable pub tmp : Text → Text
unfolding join
tmp root = join root (codes "tmp")

unfoldable pub report_json : Text → Text
unfolding join
report_json root = join root (codes "report.json")

unfoldable pub log_file : Text → Text
unfolding join
log_file root = join root (codes "run.log")

unfoldable pub meta_file : Text → Text
unfolding join
meta_file root = join root (codes "meta.json")

-- The directories of Create, in its order.
unfoldable pub tree : Text → List Text
unfolding input output report tmp
tree root = root ∷ input root ∷ output root ∷ report root ∷ tmp root ∷ []

-- The loop of Create: the directories made, up to the first that os.MkdirAll fails for, and whether
-- there was none.
unfoldable pub make_dirs : (Text → Bool) → List Text → List Text × Bool
make_dirs mkdir [] = ([], true)
make_dirs mkdir (d ∷ ds) =
    let rest = make_dirs mkdir ds in if mkdir d then (d ∷ rest.0, rest.1) else ([], false)

-- Create
unfoldable pub create : (Text → Bool) → Text → List Text × Bool
unfolding tree make_dirs
create mkdir root = make_dirs mkdir (tree root)

pub data Resolved : Type 0 where
  ok : Text → Resolved
  absolute no_cwd escapes : Resolved

abbrev check_inside : Text → Text → Resolved
check_inside root full =
    if not (text_eq full root) && not (has_prefix full (root ++ codes "/"))
    then escapes
    else ok full

abbrev resolve_at : Option Text → Text → Resolved
resolve_at none rel = no_cwd
resolve_at (some root) rel = check_inside root (clean (join root rel))

-- Resolve, in the working directory `cwd`, if that can be read.
unfoldable pub resolve : Option Text → Text → Text → Resolved
unfolding abs clean join has_prefix text_eq is_abs
resolve cwd root rel = if is_abs rel then absolute else resolve_at (abs cwd root) rel

pub data Relative : Type 0 where
  relative : Text → Relative
  no_root not_relative outside : Relative

abbrev pub check_relative : Option Text → Relative
check_relative none = not_relative
check_relative (some r) = if has_prefix r (codes "..") then outside else relative r

abbrev pub rel_to_at : Option Text → Text → Relative
rel_to_at none full = no_root
rel_to_at (some root) full = check_relative (rel root full)

-- RelTo
unfoldable pub rel_to : Option Text → Text → Text → Relative
unfolding abs rel has_prefix
rel_to cwd root full = rel_to_at (abs cwd root) full
