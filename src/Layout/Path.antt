-- ===== src/Layout/Path.antt =====
-- The functions of package path/filepath that server/internal/run/layout.go calls, by the rules of
-- their documentation.
use mathlib.Core.List.{reverse}
use eagle_condor_sandbox.Prelude.{
  ℕ, Bool, true, false, ◌||◌, ◌&&◌, List, [], ◌∷◌, ◌++◌, Option, none, some, if◌then◌else◌, ◌==◌,
  ◌≡◌, refl,
}
use eagle_condor_sandbox.Prelude.Text.{Text, codes, text_eq, has_prefix}

abbrev pub slash : ℕ
slash = b'/'

abbrev pub onto_first : ℕ → List Text → List Text
onto_first c [] = (c ∷ []) ∷ []
onto_first c (x ∷ xs) = (c ∷ x) ∷ xs

-- The parts between the separators.
unfoldable pub split_path : Text → List Text
split_path [] = [] ∷ []
split_path (c ∷ s) = let rest = split_path s in if c == slash then [] ∷ rest else onto_first c rest

-- The parts with one separator between each two.
unfoldable pub join_parts : List Text → Text
join_parts [] = []
join_parts (x ∷ []) = x
join_parts (x ∷ y ∷ r) = x ++ slash ∷ join_parts (y ∷ r)

abbrev pub is_skipped : Text → Bool
is_skipped x = text_eq x [] || text_eq x (codes ".")

abbrev pub is_parent : Text → Bool
is_parent x = text_eq x (codes "..")

-- One part, on the parts before it, the nearest first.
unfoldable pub climb : Bool → List Text → List Text
unfolding text_eq
climb true [] = []
climb false [] = codes ".." ∷ []
climb true (x ∷ xs) = xs
climb false (x ∷ xs) = if is_parent x then codes ".." ∷ x ∷ xs else xs

unfoldable pub walk : Bool → List Text → List Text → List Text
unfolding climb text_eq
walk rooted stack [] = stack
walk rooted stack (x ∷ xs) =
    walk rooted
      (if is_skipped x then stack else if is_parent x then climb rooted stack else x ∷ stack) xs

unfoldable pub is_abs : Text → Bool
unfolding has_prefix
is_abs s = has_prefix s (codes "/")

-- The parts of Clean's result.
unfoldable pub parts : Text → List Text
unfolding is_abs walk split_path
parts s = reverse (walk (is_abs s) [] (split_path s))

abbrev pub or_dot : Text → Text
or_dot [] = codes "."
or_dot (c ∷ s) = c ∷ s

-- filepath.Clean
unfoldable pub clean : Text → Text
unfolding parts join_parts
clean s = if is_abs s then slash ∷ join_parts (parts s) else or_dot (join_parts (parts s))

-- filepath.Join of two elements
unfoldable pub join : Text → Text → Text
unfolding clean
join [] [] = []
join [] (c ∷ b) = clean (c ∷ b)
join (c ∷ a) b = clean ((c ∷ a) ++ slash ∷ b)

abbrev join_cwd : Option Text → Text → Option Text
join_cwd none s = none
join_cwd (some d) s = some (join d s)

-- filepath.Join of any number of elements
unfoldable pub join_all : List Text → Text
unfolding clean join_parts
join_all [] = []
join_all ([] ∷ xs) = join_all xs
join_all ((c ∷ x) ∷ xs) = clean (join_parts ((c ∷ x) ∷ xs))

-- A text up to its last separator, that included.
unfoldable pub dir_part : Text → Text
dir_part [] = []
dir_part (c ∷ s) =
    let rest = dir_part s in
    elim rest [ [] ↦ if c == slash then c ∷ [] else [] | x ∷ xs ↦ c ∷ x ∷ xs ]

-- filepath.Dir, and path.Dir
unfoldable pub dir : Text → Text
unfolding dir_part clean
dir s = clean (dir_part s)

-- filepath.Abs
unfoldable pub abs : Option Text → Text → Option Text
unfolding clean join
abs cwd s = if is_abs s then some (clean s) else join_cwd cwd s

abbrev ups : List Text → List Text
ups [] = []
ups (z ∷ zs) = codes ".." ∷ ups zs

unfoldable pub beyond : List Text → List Text → List Text
unfolding text_eq
beyond [] ys = ys
beyond (x ∷ xs) [] = codes ".." ∷ beyond xs []
beyond (x ∷ xs) (y ∷ ys) =
    let climbs = ups (x ∷ xs) ++ y ∷ ys in
    let further = beyond xs ys in if text_eq x y then further else climbs

-- filepath.Rel from an absolute path, which is what RelTo asks for: a relative target is an error.
unfoldable pub rel : Text → Text → Option Text
unfolding parts join_parts beyond
rel base target =
    if is_abs base && is_abs target
    then some (or_dot (join_parts (beyond (parts base) (parts target))))
    else none

abbrev last_name : List Text → Option Text
last_name [] = none
last_name ([] ∷ xs) = last_name xs
last_name ((c ∷ x) ∷ xs) = elim (last_name xs) [ none ↦ some (c ∷ x) | some y ↦ some y ]

abbrev base_of : Text → Option Text → Text
base_of s (some x) = x
base_of [] none = codes "."
base_of (c ∷ s) none = codes "/"

-- filepath.Base, and path.Base
unfoldable pub base : Text → Text
unfolding split_path
base s = base_of s (last_name (split_path s))

bases : base (codes "node_modules/playwright/cli.js") ≡ codes "cli.js"
unfolding base
bases = refl

cleans : clean (codes "/srv/./runs//a/../b/") ≡ codes "/srv/runs/b"
unfolding clean
cleans = refl

climbs_out : clean (codes "a/../../b") ≡ codes "../b"
unfolding clean
climbs_out = refl
