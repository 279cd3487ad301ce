-- ===== src/Catalog/Index.antt =====
-- index of server/internal/catalog/catalog.go: what is wrong with a manifest. A problem is named by a
-- constructor in place of its text. `stat` says whether a path exists.
pub mod Kinds
pub mod Inputs
pub mod Workflows
pub mod Accepts
pub mod Listed
use eagle_condor_sandbox.Prelude.{
  ℕ, ◌+◌, Bool, true, false, not, List, [], ◌∷◌, ◌++◌, Option, none, some, if◌then◌else◌,
}
use eagle_condor_sandbox.Prelude.Int.{ℤ, pos, ltb_ℤ, leb_ℤ}
use eagle_condor_sandbox.Prelude.Text.{Text, codes, text_eq}
use eagle_condor_sandbox.Prelude.Assoc.{Assoc, lookup, insert}
use eagle_condor_sandbox.Layout.Path.{join}
use eagle_condor_sandbox.Catalog.{Module, Input, Workflow, Manifest, schema}

pub data Problem : Type 0 where
  missing_id : ℕ → Problem
  duplicate_id missing_spec bad_default bad_max unnamed_input : Text → Problem
  unknown_module spec_not_found : Text → Text → Problem
  duplicate_input needs_schema needs_filename missing_env : Text → Text → Problem
  unknown_schema bad_kind env_twice : Text → Text → Text → Problem

-- A problem, if the test says so.
abbrev pub when : Bool → Problem → List Problem
when b p = if b then p ∷ [] else []

-- `m[k]` of a map to bool, and the second result of `m[k]`.
abbrev pub is_set : Option Bool → Bool
is_set none = false
is_set (some b) = b

abbrev pub is_there {ℓ} : {A : Type ℓ} → Option A → Bool
is_there none = false
is_there (some x) = true

-- The set of module codes.
unfoldable pub module_codes : List Module → Assoc Bool → Assoc Bool
unfolding insert
module_codes [] m = m
module_codes (x ∷ xs) m = module_codes xs (insert x.code true m)

-- The switch on in.Kind.
unfoldable pub kind_problems : Manifest → Text → Input → List Problem
unfolding text_eq schema
kind_problems c id i =
    if text_eq i.kind (codes "csv")
    then (if text_eq i.schema []
        then needs_schema id i.name ∷ []
        else when (not (is_there (schema c i.schema))) (unknown_schema id i.name i.schema))
      ++ when (text_eq i.filename []) (needs_filename id i.name)
    else when (not (text_eq i.kind (codes "int"))) (bad_kind id i.name i.kind)

unfoldable pub env_problems : Text → Input → Assoc Bool → List Problem
unfolding text_eq lookup
env_problems id i seen_env =
    if text_eq i.env []
    then missing_env id i.name ∷ []
    else when (is_set (lookup i.env seen_env)) (env_twice id i.name i.env)

-- The loop over the inputs of a workflow.
unfoldable pub input_problems :
    Manifest → Text → Assoc Bool → Assoc Bool → List Input → List Problem
unfolding text_eq lookup insert kind_problems env_problems
input_problems c id seen_env seen_name [] = []
input_problems c id seen_env seen_name (i ∷ is) =
    let skipped = input_problems c id seen_env seen_name is in
    let rest = input_problems c id (insert i.env true seen_env) (insert i.name true seen_name) is in
    if text_eq i.name []
    then unnamed_input id ∷ skipped
    else when (is_set (lookup i.name seen_name)) (duplicate_input id i.name)
      ++ kind_problems c id i
      ++ env_problems id i seen_env
      ++ rest

unfoldable pub spec_problems : (Text → Bool) → Text → Workflow → List Problem
unfolding text_eq join
spec_problems stat dir w =
    if text_eq w.spec []
    then missing_spec w.id ∷ []
    else when (not (stat (join dir w.spec))) (spec_not_found w.id w.spec)

-- What the loop says of one workflow that has an id.
unfoldable pub workflow_problems :
    (Text → Bool) → Text → Manifest → Assoc Bool → Assoc Workflow → Workflow → List Problem
unfolding lookup spec_problems input_problems
workflow_problems stat dir c modules by_id w =
    when (is_there (lookup w.id by_id)) (duplicate_id w.id)
    ++ when (not (is_set (lookup w.module_code modules))) (unknown_module w.id w.module_code)
    ++ spec_problems stat dir w
    ++ when (leb_ℤ w.default_timeout (pos 0)) (bad_default w.id)
    ++ when (ltb_ℤ w.max_timeout w.default_timeout) (bad_max w.id)
    ++ input_problems c w.id [] [] w.inputs

-- The loop over the workflows: the problems, and byID.
unfoldable pub index_from :
    (Text → Bool)
    → Text
    → Manifest
    → Assoc Bool
    → ℕ
    → Assoc Workflow
    → List Workflow
    → List Problem × Assoc Workflow
unfolding text_eq insert workflow_problems
index_from stat dir c modules n by_id [] = ([], by_id)
index_from stat dir c modules n by_id (w ∷ ws) =
    let skipped = index_from stat dir c modules (n + 1) by_id ws in
    let rest = index_from stat dir c modules (n + 1) (insert w.id w by_id) ws in
    if text_eq w.id []
    then (missing_id n ∷ skipped.0, skipped.1)
    else (workflow_problems stat dir c modules by_id w ++ rest.0, rest.1)

-- index: it fails if there is a problem.
unfoldable pub index : (Text → Bool) → Text → Manifest → List Problem × Assoc Workflow
unfolding index_from module_codes
index stat dir c = index_from stat dir c (module_codes c.modules []) 0 [] c.workflows
