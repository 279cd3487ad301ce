-- ===== src/Results/Scan/Down.antt =====
-- The files of a tree by the names on the way to them, and RelTo (server/internal/run/layout.go) on
-- the way down.
use eagle_condor_sandbox.Prelude.{
  ℕ, false, List, [], ◌∷◌, ◌++◌, some, ◌≡◌, ◌⊎◌, refl, ap, ◌∙◌, All, All-append,
}
use eagle_condor_sandbox.Prelude.Text.{Text, text_eq_refl}
use eagle_condor_sandbox.Layout.Path.{parts, join, join_parts, beyond, rel, or_dot}
use eagle_condor_sandbox.Layout.Components.{Proper, render, is_abs-slash}
use eagle_condor_sandbox.Layout.Inside.{not_skipped}
use eagle_condor_sandbox.Layout.Isolation.{run_dir, parts_of_render}
use eagle_condor_sandbox.Results.{is_internal}
use eagle_condor_sandbox.Results.Scan.{Node, leaf, folder, Nodes, no_nodes, node}

-- Going down from a directory by a name.
pub join-name :
    (ps : List Text) (a : Text)
    → All Proper ps
    → Proper a
    → join (render ps) a ≡ render (ps ++ a ∷ [])
join-name ps a h p =
    run_dir (render ps) a (is_abs-slash (join_parts ps)) p
    ∙ ap (λ t. render (t ++ a ∷ [])) (parts_of_render ps h)

beyond_self : (ps ns : List Text) → beyond ps (ps ++ ns) ≡ ns
unfolding beyond
beyond_self [] ns = refl
beyond_self (p ∷ ps) ns = rw (text_eq_refl p) (beyond_self ps ns)

or_dot-parts :
    (n : Text) (ns : List Text) → Proper n → or_dot (join_parts (n ∷ ns)) ≡ join_parts (n ∷ ns)
or_dot-parts [] ns p = absurd (not_skipped p)
or_dot-parts (c ∷ n) [] p = unfold join_parts in refl
or_dot-parts (c ∷ n) (m ∷ ms) p = unfold join_parts in refl

pub rel-down :
    (ps : List Text) (n : Text) (ns : List Text)
    → All Proper ps
    → All Proper (n ∷ ns)
    → rel (render ps) (render (ps ++ n ∷ ns)) ≡ some (join_parts (n ∷ ns))
unfolding rel
rel-down ps n ns h k =
    rw (is_abs-slash (join_parts ps), is_abs-slash (join_parts (ps ++ n ∷ ns)))
      (ap (λ t. some (or_dot (join_parts (beyond t (parts (render (ps ++ n ∷ ns)))))))
          (parts_of_render ps h)
        ∙ ap (λ t. some (or_dot (join_parts (beyond ps t))))
            (parts_of_render (ps ++ n ∷ ns) (All-append Proper ps (n ∷ ns) h k))
        ∙ ap (λ t. some (or_dot (join_parts t))) (beyond_self ps (n ∷ ns))
        ∙ ap some (or_dot-parts n ns k.0))

-- The names of a directory's entries.
unfoldable mutual
  pub NodeNamed : Node → Type 0
  NodeNamed (leaf name info) = Proper name
  NodeNamed (folder name nodes) = Proper name × Named nodes

  pub Named : Nodes → Type 0
  Named no_nodes = Unit
  Named (node n ns) = NodeNamed n × Named ns

-- A file that is not internal lies in the tree, with the size, at the end of the names.
unfoldable mutual
  pub NodeHas : Node → List Text → ℕ → Type 0
  NodeHas (leaf name info) names size =
      (names ≡ name ∷ []) × (info ≡ some size) × (is_internal name ≡ false)
  NodeHas (folder name nodes) names size =
      (below : List Text) × (names ≡ name ∷ below) × Has nodes below size

  pub Has : Nodes → List Text → ℕ → Type 0
  Has no_nodes names size = ⊥
  Has (node n ns) names size = NodeHas n names size ⊎ Has ns names size
