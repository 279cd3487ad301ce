-- ===== src/Catalog/Index/Inputs.antt =====
-- The inputs that index (server/internal/catalog/catalog.go) accepts.
use eagle_condor_sandbox.Prelude.{
  Bool, true, false, ◌||◌, List, [], ◌∷◌, ◌++◌, map, ◌≡◌, ◌≢◌, ◌↔◌, refl, Bool-cases, inl, inr, All,
}
use eagle_condor_sandbox.Prelude.Text.{Text, text_eq, text_eq_iff}
use eagle_condor_sandbox.Prelude.Assoc.{Assoc, lookup, insert, lookup-insert}
use eagle_condor_sandbox.Catalog.{Input, Manifest}
use eagle_condor_sandbox.Catalog.Index.{
  Problem, env_twice, duplicate_input, when, is_set, kind_problems, env_problems, input_problems,
}
use eagle_condor_sandbox.Catalog.Index.Kinds.{
  none_of_four, when_iff, not_empty, KindOk, kind_problems_iff, Fresh, Fresh-step,
}

env_problems_iff :
    (id : Text) (i : Input) (seen_env : Assoc Bool)
    → (env_problems id i seen_env ≡ []) ↔ ((i.env ≢ []) × (is_set (lookup i.env seen_env) ≡ false))
unfolding env_problems
env_problems_iff id i seen_env = elim (Bool-cases (text_eq i.env [])) [
  | inl e ↦ rw e (λ q. cc, λ h. absurd (h.0 ((text_eq_iff i.env []).0 e)))
  | inr e ↦
      let t = when_iff (is_set (lookup i.env seen_env)) (env_twice id i.name i.env) in
      rw e (λ q. ((not_empty i.env).0 e, t.0 q), λ h. t.1 h.1)
]

-- An input by itself.
abbrev pub InputOk : Manifest → Input → Type 0
InputOk c i = (i.name ≢ []) × KindOk c i × (i.env ≢ [])

abbrev pub set_in : Assoc Bool → Text → Bool
set_in m k = is_set (lookup k m)

set_in-insert :
    (m : Assoc Bool) (n k : Text) → set_in (insert n true m) k ≡ (text_eq n k || set_in m k)
set_in-insert m n k = elim (Bool-cases (text_eq n k)) [
  | inl e ↦ rw (lookup-insert n k true m, e)
  | inr e ↦ rw (lookup-insert n k true m, e)
]

abbrev pub InputsOk : Manifest → Assoc Bool → Assoc Bool → List Input → Type 0
InputsOk c envs names is =
    All (InputOk c) is
    × Fresh (set_in envs) (map (λ (i : Input). i.env) is)
    × Fresh (set_in names) (map (λ (i : Input). i.name) is)

-- A round of the loop over the inputs, given what is true of the rounds after it.
input_round :
    (c : Manifest) (id : Text) (envs names : Assoc Bool) (i : Input) (is : List Input)
    (later : List Problem)
    → i.name ≢ []
    → (later ≡ []) ↔ InputsOk c (insert i.env true envs) (insert i.name true names) is
    → (when (set_in names i.name) (duplicate_input id i.name)
          ++ kind_problems c id i
          ++ env_problems id i envs
          ++ later
        ≡ [])
      ↔ InputsOk c envs names (i ∷ is)
input_round c id envs names i is later n ih = (only, back)
  where
    twice : List Problem
    twice = when (set_in names i.name) (duplicate_input id i.name)

    new_env : Fresh (set_in envs) (map (λ (j : Input). j.env) (i ∷ is)) ↔ (
        (set_in envs i.env ≡ false)
        × Fresh (set_in (insert i.env true envs)) (map (λ (j : Input). j.env) is))
    new_env = Fresh-step (set_in envs) _ i.env _ (set_in-insert envs i.env)

    new_name : Fresh (set_in names) (map (λ (j : Input). j.name) (i ∷ is)) ↔ (
        (set_in names i.name ≡ false)
        × Fresh (set_in (insert i.name true names)) (map (λ (j : Input). j.name) is))
    new_name = Fresh-step (set_in names) _ i.name _ (set_in-insert names i.name)

    only :
        twice ++ kind_problems c id i ++ env_problems id i envs ++ later ≡ []
        → InputsOk c envs names (i ∷ is)
    only q =
        let (q1, q2, q3, q4) =
          (none_of_four twice (kind_problems c id i) (env_problems id i envs) later).0 q in
        let (ne, fe) = (env_problems_iff id i envs).0 q3 in
        let (ok, re, rn) = ih.0 q4 in
        (
          ((n, (kind_problems_iff c id i).0 q2, ne), ok),
          new_env.1 (fe, re),
          new_name.1 ((when_iff _ _).0 q1, rn),
        )

    back :
        InputsOk c envs names (i ∷ is)
        → twice ++ kind_problems c id i ++ env_problems id i envs ++ later ≡ []
    back (((_, k, ne), ok), fe, fn) =
        let (e1, e2) = new_env.0 fe in
        let (n1, n2) = new_name.0 fn in
        (none_of_four twice (kind_problems c id i) (env_problems id i envs) later).1 (
          (when_iff _ _).1 n1,
          (kind_problems_iff c id i).1 k,
          (env_problems_iff id i envs).1 (ne, e1),
          ih.1 (ok, e2, n2),
        )

pub input_problems_iff :
    (c : Manifest) (id : Text) (envs names : Assoc Bool) (is : List Input)
    → (input_problems c id envs names is ≡ []) ↔ InputsOk c envs names is
unfolding input_problems
input_problems_iff c id envs names [] = (λ e. (tt, (tt, tt), (tt, tt)), λ h. refl)
input_problems_iff c id envs names (i ∷ is) = elim (Bool-cases (text_eq i.name [])) [
  | inl e ↦ rw e (λ q. cc, λ h. absurd (h.0.0.0 ((text_eq_iff i.name []).0 e)))
  | inr e ↦ rw e (
      input_round c id envs names i is _ ((not_empty i.name).0 e)
        (input_problems_iff c id (insert i.env true envs) (insert i.name true names) is))
]
