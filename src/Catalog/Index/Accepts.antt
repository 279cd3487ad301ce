-- ===== src/Catalog/Index/Accepts.antt =====
-- The manifests that index (server/internal/catalog/catalog.go) accepts, and what it then looks up.
use eagle_condor_sandbox.Prelude.{
  ℕ, ◌+◌, Bool, false, List, [], ◌∷◌, ◌++◌, map, some, ◌≡◌, ◌≢◌, ◌↔◌, refl, sym, ◌∙◌, subst, arith,
  Bool-cases, inl, inr, All, All-map,
}
use eagle_condor_sandbox.Prelude.Text.{Text, text_eq, text_eq_iff}
use eagle_condor_sandbox.Prelude.Assoc.{Assoc, lookup, insert, lookup-insert, lookup-insert_self}
use eagle_condor_sandbox.Catalog.{Workflow, Manifest}
use eagle_condor_sandbox.Catalog.Index.{Problem, module_codes, workflow_problems, index_from, index}
use eagle_condor_sandbox.Catalog.Index.Kinds.{
  append_nil_iff, not_empty, Distinct, Fresh, Fresh-step,
}
use eagle_condor_sandbox.Catalog.Index.Workflows.{WorkflowOk, workflow_iff, taken, taken-insert}

abbrev pub ids : List Workflow → List Text
ids ws = map (λ (w : Workflow). w.id) ws

abbrev Accepts : (Text → Bool) → Text → Manifest → Assoc Workflow → List Workflow → Type 0
Accepts stat dir c by_id ws = All (WorkflowOk stat dir c) ws × Fresh (taken by_id) (ids ws)

index_round :
    (stat : Text → Bool) (dir : Text) (c : Manifest) (by_id : Assoc Workflow) (w : Workflow)
    (ws : List Workflow) (later : List Problem)
    → w.id ≢ []
    → (later ≡ []) ↔ Accepts stat dir c (insert w.id w by_id) ws
    → (workflow_problems stat dir c (module_codes c.modules []) by_id w ++ later ≡ [])
      ↔ Accepts stat dir c by_id (w ∷ ws)
index_round stat dir c by_id w ws later n ih =
    let (fresh, unfresh) =
      Fresh-step (taken by_id) (taken (insert w.id w by_id)) w.id (ids ws) (taken-insert by_id w) in
    let (ok, unok) = workflow_iff stat dir c by_id w n in
    (
      λ q.
          let (q1, q2) = (append_nil_iff _ later).0 q in
          let (new, good) = ok q1 in
          let (rest, others) = ih.0 q2 in ((good, rest), unfresh (new, others)),
      λ h.
          let (new, others) = fresh h.1 in
          (append_nil_iff _ later).1 (unok (new, h.0.0), ih.1 (h.0.1, others)),
    )

index_from_iff :
    (stat : Text → Bool) (dir : Text) (c : Manifest) (n : ℕ) (by_id : Assoc Workflow)
    (ws : List Workflow)
    → ((index_from stat dir c (module_codes c.modules []) n by_id ws).0 ≡ [])
      ↔ Accepts stat dir c by_id ws
unfolding index_from
index_from_iff stat dir c n by_id [] = (λ e. (tt, (tt, tt)), λ h. refl)
index_from_iff stat dir c n by_id (w ∷ ws) = elim (Bool-cases (text_eq w.id [])) [
  | inl e ↦ rw e (λ q. cc, λ h. absurd (h.0.0.0 ((text_eq_iff w.id []).0 e)))
  | inr e ↦ rw e (
      index_round stat dir c by_id w ws _ ((not_empty w.id).0 e)
        (index_from_iff stat dir c (n + 1) (insert w.id w by_id) ws))
]

index_from-other :
    (stat : Text → Bool) (dir : Text) (c : Manifest) (m : Assoc Bool) (n : ℕ)
    (by_id : Assoc Workflow) (ws : List Workflow) (k : Text)
    → All (λ x. text_eq k x ≡ false) (ids ws)
    → lookup k (index_from stat dir c m n by_id ws).1 ≡ lookup k by_id
unfolding index_from
index_from-other stat dir c m n by_id [] k h = refl
index_from-other stat dir c m n by_id (w ∷ ws) k (h, hs) = elim (Bool-cases (text_eq w.id [])) [
  | inl e ↦ rw e (index_from-other stat dir c m (n + 1) by_id ws k hs)
  | inr e ↦ rw e (
      index_from-other stat dir c m (n + 1) (insert w.id w by_id) ws k hs
      ∙ lookup-insert w.id k w by_id
      ∙ rw (turned))
]
  where
    turned : text_eq w.id k ≡ false
    turned = ground (arith, text_eq_iff w.id k, text_eq_iff k w.id)

index_from-named :
    (stat : Text → Bool) (dir : Text) (c : Manifest) (m : Assoc Bool) (n : ℕ)
    (by_id : Assoc Workflow) (w : Workflow) (ws : List Workflow)
    → w.id ≢ []
    → (index_from stat dir c m n by_id (w ∷ ws)).1
      ≡ (index_from stat dir c m (n + 1) (insert w.id w by_id) ws).1
unfolding index_from
index_from-named stat dir c m n by_id w ws h = rw ((not_empty w.id).1 h)

-- Each workflow is found under its id.
abbrev pub Finds : List Workflow → Assoc Workflow → Type 0
Finds ws by_id = All (λ (w : Workflow). lookup w.id by_id ≡ some w) ws

index_from-Finds :
    (stat : Text → Bool) (dir : Text) (c : Manifest) (m : Assoc Bool) (n : ℕ)
    (by_id : Assoc Workflow) (ws : List Workflow)
    → All (λ (w : Workflow). w.id ≢ []) ws
    → Distinct (ids ws)
    → Finds ws (index_from stat dir c m n by_id ws).1
index_from-Finds stat dir c m n by_id [] h d = tt
index_from-Finds stat dir c m n by_id (w ∷ ws) (h, hs) (d, ds) =
    subst (Finds (w ∷ ws)) (sym (index_from-named stat dir c m n by_id w ws h)) (
      index_from-other stat dir c m (n + 1) (insert w.id w by_id) ws w.id d
          ∙ lookup-insert_self w.id w by_id,
      index_from-Finds stat dir c m (n + 1) (insert w.id w by_id) ws hs ds,
    )

nothing_taken : (xs : List Text) → All (λ x. taken [] x ≡ false) xs
nothing_taken [] = tt
nothing_taken (x ∷ xs) = (unfold lookup in refl, nothing_taken xs)

-- The manifest has no problem exactly if each workflow has an id, a module of the manifest, an
-- existing spec, a positive default timeout that is not above the greatest, and inputs that are
-- in order, with different names and different variables; and no two workflows have one id. Then
-- each workflow is found under its id.
pub index_lem :
    (stat : Text → Bool) (dir : Text) (c : Manifest)
    → let (problems, by_id) = index stat dir c in
      ((problems ≡ []) ↔ (All (WorkflowOk stat dir c) c.workflows × Distinct (ids c.workflows)))
      × (problems ≡ [] → Finds c.workflows by_id)
unfolding index
index_lem stat dir c =
    let (only, back) = index_from_iff stat dir c 0 [] c.workflows in
    (
      (λ q. ((only q).0, (only q).1.1), λ h. back (h.0, (nothing_taken _, h.1))),
      λ q.
          index_from-Finds stat dir c (module_codes c.modules []) 0 [] c.workflows
            (All-map (λ w (ok : WorkflowOk stat dir c w). ok.0) c.workflows (only q).0)
            (only q).1.1,
    )
