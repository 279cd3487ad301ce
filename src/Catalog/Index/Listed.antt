-- ===== src/Catalog/Index/Listed.antt =====
-- What the map byID of index (server/internal/catalog/catalog.go) can hold.
use eagle_condor_sandbox.Prelude.{
  ℕ, ◌+◌, Bool, List, [], ◌∷◌, some, ◌≡◌, refl, sym, ◌∙◌, subst, Bool-cases, inl, inr, All,
}
use eagle_condor_sandbox.Prelude.Text.{Text, text_eq}
use eagle_condor_sandbox.Prelude.Assoc.{Assoc, lookup, lookup-insert, insert}
use eagle_condor_sandbox.Catalog.{Workflow, Manifest}
use eagle_condor_sandbox.Catalog.Index.{module_codes, index_from, index}
use eagle_condor_sandbox.Catalog.Index.Workflows.{WorkflowOk}
use eagle_condor_sandbox.Catalog.Index.Accepts.{index_lem}

module _ {ℓ} (P : Workflow → Type ℓ) where
  -- All that can be looked up.
  abbrev pub Everything : Assoc Workflow → Type ℓ
  Everything m = (k : Text) (w : Workflow) → lookup k m ≡ some w → P w

  insert-Everything :
      (j : Text) (v : Workflow) (m : Assoc Workflow)
      → P v
      → Everything m
      → Everything (insert j v m)
  insert-Everything j v m p h k w e = elim (Bool-cases (text_eq j k)) [
    | inl q ↦ subst P (same (sym (lookup-insert j k v m ∙ rw q refl) ∙ e)) p
    | inr q ↦ h k w (sym (lookup-insert j k v m ∙ rw q refl) ∙ e)
  ]
    where
      same : some v ≡ some w → v ≡ w
      same e = cc

  pub index_from-Everything :
      (stat : Text → Bool) (dir : Text) (c : Manifest) (m : Assoc Bool) (n : ℕ)
      (by_id : Assoc Workflow) (ws : List Workflow)
      → All P ws
      → Everything by_id
      → Everything (index_from stat dir c m n by_id ws).1
  unfolding index_from
  index_from-Everything stat dir c m n by_id [] h e = e
  index_from-Everything stat dir c m n by_id (w ∷ ws) (p, h) e =
      elim (Bool-cases (text_eq w.id [])) [
        | inl q ↦ rw q (index_from-Everything stat dir c m (n + 1) by_id ws h e)
        | inr q ↦ rw q (
            index_from-Everything stat dir c m (n + 1) (insert w.id w by_id) ws h
              (insert-Everything w.id w by_id p e))
      ]

-- A workflow that is found in the map of a manifest without a problem is in order.
pub index-WorkflowOk :
    (stat : Text → Bool) (dir : Text) (c : Manifest) (k : Text) (w : Workflow)
    → (index stat dir c).0 ≡ []
    → lookup k (index stat dir c).1 ≡ some w
    → WorkflowOk stat dir c w
unfolding index
index-WorkflowOk stat dir c k w q e =
    index_from-Everything (WorkflowOk stat dir c) stat dir c (module_codes c.modules []) 0 []
      c.workflows ((index_lem stat dir c).0.0 q).0 nothing k w e
  where
    nothing : Everything (WorkflowOk stat dir c) []
    nothing j v n = unfold lookup in absurd (cc (n))
