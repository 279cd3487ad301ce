-- ===== src/Catalog/Index/Workflows.antt =====
-- The workflows that index (server/internal/catalog/catalog.go) accepts.
use eagle_condor_sandbox.Prelude.{
  Bool, true, false, not, ◌||◌, List, [], ◌∷◌, ◌++◌, map, ◌≡◌, ◌≢◌, ◌⊎◌, ◌↔◌, refl, sym, ◌∙◌, arith,
  Bool-cases, inl, inr, All,
}
use eagle_condor_sandbox.Prelude.Int.{ℤ, pos, ltb_ℤ, leb_ℤ, ◌<ℤ◌, ◌≤ℤ◌}
use eagle_condor_sandbox.Prelude.Text.{Text, text_eq, text_eq_iff}
use eagle_condor_sandbox.Prelude.Assoc.{Assoc, lookup, insert, lookup-insert}
use eagle_condor_sandbox.Layout.Path.{join}
use eagle_condor_sandbox.Catalog.{Module, Input, Workflow, Manifest}
use eagle_condor_sandbox.Catalog.Index.{
  Problem, duplicate_id, unknown_module, bad_default, bad_max, when, is_there, module_codes,
  input_problems, spec_problems, workflow_problems,
}
use eagle_condor_sandbox.Catalog.Index.Kinds.{
  append_nil_iff, none_of_four, when_iff, not_iff, not_empty, Distinct,
}
use eagle_condor_sandbox.Catalog.Index.Inputs.{InputOk, set_in, input_problems_iff}

-- A module of the manifest has the code.
abbrev pub HasCode : Text → List Module → Type 0
HasCode k [] = ⊥
HasCode k (m ∷ ms) = (m.code ≡ k) ⊎ HasCode k ms

set_there : (k j : Text) (m : Assoc Bool) → text_eq j k ≡ true → set_in (insert j true m) k ≡ true
set_there k j m e = rw (lookup-insert j k true m, e)

set_elsewhere :
    (k j : Text) (m : Assoc Bool) → text_eq j k ≡ false → set_in (insert j true m) k ≡ set_in m k
set_elsewhere k j m e = rw (lookup-insert j k true m, e)

codes_round :
    (k : Text) (x : Module) (xs : List Module) (m : Assoc Bool)
    → (HasCode k xs ⊎ (set_in (insert x.code true m) k ≡ true))
      ↔ (HasCode k (x ∷ xs) ⊎ (set_in m k ≡ true))
codes_round k x xs m = elim (Bool-cases (text_eq x.code k)) [
  | inl e ↦ (λ h. inl (inl ((text_eq_iff x.code k).0 e)), λ h. inr (set_there k x.code m e))
  | inr e ↦ (
    λ h. elim h [ inl y ↦ inl (inr y) | inr q ↦ inr (sym (set_elsewhere k x.code m e) ∙ q) ],
    λ h. elim h [
      | inl y ↦ elim y [ inl q ↦ absurd (cc ((text_eq_iff x.code k).1 q, e)) | inr z ↦ inl z ]
      | inr q ↦ inr (set_elsewhere k x.code m e ∙ q)
    ],
  )
]

module_codes_iff :
    (k : Text) (ms : List Module) (m : Assoc Bool)
    → (set_in (module_codes ms m) k ≡ true) ↔ (HasCode k ms ⊎ (set_in m k ≡ true))
unfolding module_codes
module_codes_iff k [] m = (λ e. inr e, λ h. elim h [ inl x ↦ absurd x | inr e ↦ e ])
module_codes_iff k (x ∷ xs) m =
    let (only, back) = module_codes_iff k xs (insert x.code true m) in
    let (on, off) = codes_round k x xs m in (λ q. on (only q), λ h. back (off h))

known_iff : (k : Text) (ms : List Module) → (set_in (module_codes ms []) k ≡ true) ↔ HasCode k ms
known_iff k ms =
    let (only, back) = module_codes_iff k ms [] in
    (λ q. elim (only q) [ inl h ↦ h | inr e ↦ absurd (unfold lookup in cc (e)) ], λ h. back (inl h))

-- The inputs of a workflow: each is in order, and no two have one name or one variable.
abbrev pub InputsConsistent : Manifest → List Input → Type 0
InputsConsistent c is =
    All (InputOk c) is
    × Distinct (map (λ (i : Input). i.env) is)
    × Distinct (map (λ (i : Input). i.name) is)

nothing_set : (xs : List Text) → All (λ x. set_in [] x ≡ false) xs
nothing_set [] = tt
nothing_set (x ∷ xs) = (unfold lookup in refl, nothing_set xs)

inputs_iff :
    (c : Manifest) (id : Text) (is : List Input)
    → (input_problems c id [] [] is ≡ []) ↔ InputsConsistent c is
inputs_iff c id is =
    let (only, back) = input_problems_iff c id [] [] is in
    (
      λ e. let (ok, fe, fn) = only e in (ok, fe.1, fn.1),
      λ h. back (h.0, (nothing_set _, h.1), (nothing_set _, h.2)),
    )

-- A workflow by itself.
abbrev pub WorkflowOk : (Text → Bool) → Text → Manifest → Workflow → Type 0
WorkflowOk stat dir c w =
    (w.id ≢ [])
    × HasCode w.module_code c.modules
    × (w.spec ≢ [])
    × (stat (join dir w.spec) ≡ true)
    × (pos 0 <ℤ w.default_timeout)
    × (w.default_timeout ≤ℤ w.max_timeout)
    × InputsConsistent c w.inputs

spec_iff :
    (stat : Text → Bool) (dir : Text) (w : Workflow)
    → (spec_problems stat dir w ≡ []) ↔ ((w.spec ≢ []) × (stat (join dir w.spec) ≡ true))
unfolding spec_problems
spec_iff stat dir w = elim (Bool-cases (text_eq w.spec [])) [
  | inl e ↦ rw e (λ q. cc, λ h. absurd (h.0 ((text_eq_iff w.spec []).0 e)))
  | inr e ↦ rw e (
    λ q. ((not_empty w.spec).0 e, (not_iff _).0 ((when_iff _ _).0 q)),
    λ h. (when_iff _ _).1 ((not_iff _).1 h.1),
  )
]

positive_iff : (t : ℤ) (p : Problem) → (when (leb_ℤ t (pos 0)) p ≡ []) ↔ (pos 0 <ℤ t)
positive_iff t p = ground (arith, when_iff (leb_ℤ t (pos 0)) p)

ordered_iff : (t u : ℤ) (p : Problem) → (when (ltb_ℤ u t) p ≡ []) ↔ (t ≤ℤ u)
ordered_iff t u p = ground (arith, when_iff (ltb_ℤ u t) p)

abbrev pub taken : Assoc Workflow → Text → Bool
taken m k = is_there (lookup k m)

pub workflow_iff :
    (stat : Text → Bool) (dir : Text) (c : Manifest) (by_id : Assoc Workflow) (w : Workflow)
    → w.id ≢ []
    → (workflow_problems stat dir c (module_codes c.modules []) by_id w ≡ [])
      ↔ ((taken by_id w.id ≡ false) × WorkflowOk stat dir c w)
unfolding workflow_problems
workflow_iff stat dir c by_id w n = (only, back)
  where
    first : List Problem
    first =
        when (taken by_id w.id) (duplicate_id w.id)
        ++ when (not (set_in (module_codes c.modules []) w.module_code))
            (unknown_module w.id w.module_code)
        ++ spec_problems stat dir w

    second : List Problem
    second = when (leb_ℤ w.default_timeout (pos 0)) (bad_default w.id)

    third : List Problem
    third = when (ltb_ℤ w.max_timeout w.default_timeout) (bad_max w.id)

    only :
        first ++ second ++ third ++ input_problems c w.id [] [] w.inputs ≡ []
        → (taken by_id w.id ≡ false) × WorkflowOk stat dir c w
    only q =
        let (q1, q2, q3, q4) = (none_of_four first second third _).0 q in
        let (q5, q6) = (append_nil_iff _ (spec_problems stat dir w)).0 q1 in
        let (q7, q8) = (append_nil_iff _ _).0 q5 in
        let (s1, s2) = (spec_iff stat dir w).0 q6 in
        (
          (when_iff _ _).0 q7,
          (
            n,
            (known_iff w.module_code c.modules).0 ((not_iff _).0 ((when_iff _ _).0 q8)),
            s1,
            s2,
            (positive_iff w.default_timeout _).0 q2,
            (ordered_iff w.default_timeout w.max_timeout _).0 q3,
            (inputs_iff c w.id w.inputs).0 q4,
          ),
        )

    back :
        (taken by_id w.id ≡ false) × WorkflowOk stat dir c w
        → first ++ second ++ third ++ input_problems c w.id [] [] w.inputs ≡ []
    back (new, (_, h, s1, s2, p, o, is)) = (none_of_four first second third _).1 (
      (append_nil_iff _ (spec_problems stat dir w)).1 (
        (append_nil_iff _ _).1 (
          (when_iff _ _).1 new,
          (when_iff _ _).1 ((not_iff _).1 ((known_iff w.module_code c.modules).1 h)),
        ),
        (spec_iff stat dir w).1 (s1, s2),
      ),
      (positive_iff w.default_timeout _).1 p,
      (ordered_iff w.default_timeout w.max_timeout _).1 o,
      (inputs_iff c w.id w.inputs).1 is,
    )

pub taken-insert :
    (m : Assoc Workflow) (w : Workflow) (k : Text)
    → taken (insert w.id w m) k ≡ (text_eq w.id k || taken m k)
taken-insert m w k = elim (Bool-cases (text_eq w.id k)) [
  | inl e ↦ rw (lookup-insert w.id k w m, e)
  | inr e ↦ rw (lookup-insert w.id k w m, e)
]
