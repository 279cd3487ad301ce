-- ===== src/Results/Scan/Served.antt =====
-- What scanArtifacts (server/internal/run/results.go) lists can be downloaded: Resolve
-- (server/internal/run/layout.go) leads from an artifact back to the file that was found.
use eagle_condor_sandbox.Prelude.{
  ℕ, true, false, List, [], ◌∷◌, ◌++◌, append_assoc, Option, none, some, ◌≡◌, ◌⊎◌, inl, inr, refl,
  sym, ap, ◌∙◌, subst, All, All-map, All-append, Bool-cases, arith,
}
use eagle_condor_sandbox.Prelude.Text.{Text, codes, text_eq, has_prefix}
use eagle_condor_sandbox.Prelude.Sort.{Sorted, sort_by-All, sort_by-Sorted}
use eagle_condor_sandbox.Layout.{
  ok, output, report_json, relative, check_relative, rel_to_at, rel_to, resolve,
}
use eagle_condor_sandbox.Layout.Path.{is_abs, parts, join, join_parts}
use eagle_condor_sandbox.Layout.Components.{Proper, render}
use eagle_condor_sandbox.Layout.Inside.{IsRooted}
use eagle_condor_sandbox.Layout.Isolation.{run_dir, abs_run_dir, dir-Proper, resolve_accepts}
use eagle_condor_sandbox.Run.{Artifact}
use eagle_condor_sandbox.Results.{is_internal, new_artifact}
use eagle_condor_sandbox.Results.Scan.Down.{join-name, rel-down, NodeNamed, Named, NodeHas, Has}
use eagle_condor_sandbox.Results.Scan.{
  Node, leaf, folder, Nodes, no_nodes, node, artifact_at, visit, walk_node, walk_nodes,
  report_artifact, scan_artifacts,
}

abbrev pub output_name : Text
output_name = codes "output"

abbrev pub report_name : Text
report_name = codes "report.json"

module _ (hash : Text → Text) (cwd : Option Text) (dir id : Text) (w : is_abs dir ≡ true)
    (c : IsRooted cwd) (p : Proper id) where
  abbrev top : List Text
  top = parts dir ++ id ∷ []

  abbrev root : Text
  root = join dir id

  top-Proper : All Proper top
  top-Proper = dir-Proper dir id w p

  rel_to-down :
      (n : Text) (ns : List Text)
      → All Proper (n ∷ ns)
      → has_prefix (join_parts (n ∷ ns)) (codes "..") ≡ false
      → rel_to cwd root (render (top ++ n ∷ ns)) ≡ relative (join_parts (n ∷ ns))
  unfolding rel_to
  rel_to-down n ns k e =
      ap (λ r. rel_to_at r (render (top ++ n ∷ ns))) (abs_run_dir cwd dir id w p)
      ∙ ap check_relative (rel-down top n ns top-Proper k)
      ∙ rw e refl

  output_plain : (ns : List Text) → has_prefix (join_parts (output_name ∷ ns)) (codes "..") ≡ false
  output_plain [] = unfold has_prefix join_parts in refl
  output_plain (m ∷ ms) = unfold has_prefix join_parts in refl

  output-Proper : Proper output_name
  output-Proper = record {
    plain = omega arith;
    named = unfold text_eq in refl;
    down = unfold text_eq in refl;
  }

  -- The artifact of a file that lies below the output directory.
  abbrev Placed : List Text → (List Text → ℕ → Type 0) → Artifact → Type 0
  Placed above Finds a =
      (names : List Text) × (a.rel ≡ join_parts (output_name ∷ (above ++ names)))
      × All Proper names
      × Finds names a.size

  at_leaf :
      (above : List Text) (name : Text)
      → All Proper above
      → Proper name
      → rel_to cwd root (join (render (top ++ output_name ∷ above)) name)
        ≡ relative (join_parts (output_name ∷ (above ++ name ∷ [])))
  at_leaf above name h k =
      ap (rel_to cwd root) (
        join-name (top ++ output_name ∷ above) name
          (All-append Proper top (output_name ∷ above) top-Proper (output-Proper, h)) k
        ∙ ap render (append_assoc top (output_name ∷ above) (name ∷ [])))
      ∙ rel_to-down output_name (above ++ name ∷ [])
          (output-Proper, All-append Proper above (name ∷ []) h (k, tt))
          (output_plain (above ++ name ∷ []))

  visit-Placed :
      (above : List Text) (name : Text) (info : Option ℕ)
      → All Proper above
      → Proper name
      → All
          (Placed above (NodeHas (leaf name info)))
          (visit hash cwd root (join (render (top ++ output_name ∷ above)) name) name info)
  unfolding visit NodeHas
  visit-Placed above name none h k = tt
  visit-Placed above name (some size) h k = elim (Bool-cases (is_internal name)) [
    | inl e ↦ rw e tt
    | inr e ↦
        rw (e, at_leaf above name h k)
          (
            (
              name ∷ [],
              (unfold new_artifact in refl),
              (k, tt),
              (refl, (unfold new_artifact in refl), e),
            ),
            tt,
          )
  ]

  deeper :
      (above : List Text) (name : Text) (nodes : Nodes) (a : Artifact)
      → Proper name
      → Placed (above ++ name ∷ []) (Has nodes) a
      → Placed above (NodeHas (folder name nodes)) a
  unfolding NodeHas
  deeper above name nodes a k (names, e, h, found) = (
    name ∷ names,
    e ∙ ap (λ t. join_parts (output_name ∷ t)) (append_assoc above (name ∷ []) names),
    (k, h),
    (names, refl, found),
  )

  or-Placed :
      (above : List Text) (n : Node) (ns : Nodes) (xs ys : List Artifact)
      → All (Placed above (NodeHas n)) xs
      → All (Placed above (Has ns)) ys
      → All (Placed above (Has (node n ns))) (xs ++ ys)
  unfolding Has
  or-Placed above n ns xs ys hx hy =
      All-append (Placed above (Has (node n ns))) xs ys
        (All-map (λ a (h : Placed above (NodeHas n) a). (h.0, h.1, h.2, inl h.3)) xs hx)
        (All-map (λ a (h : Placed above (Has ns) a). (h.0, h.1, h.2, inr h.3)) ys hy)

  folder_at :
      (above : List Text) (name : Text)
      → All Proper above
      → Proper name
      → join (render (top ++ output_name ∷ above)) name
        ≡ render (top ++ output_name ∷ (above ++ name ∷ []))
  folder_at above name h k =
      join-name (top ++ output_name ∷ above) name
        (All-append Proper top (output_name ∷ above) top-Proper (output-Proper, h)) k
      ∙ ap render (append_assoc top (output_name ∷ above) (name ∷ []))

  mutual
    unfolding walk_node walk_nodes NodeNamed Named

    walk_node-Placed :
        (above : List Text) (n : Node)
        → All Proper above
        → NodeNamed n
        → All
            (Placed above (NodeHas n))
            (walk_node hash cwd root (render (top ++ output_name ∷ above)) n)
    walk_node-Placed above (leaf name info) h k = visit-Placed above name info h k
    walk_node-Placed above (folder name nodes) h (k, ks) = rw (folder_at above name h k) (
        All-map (λ a (q : Placed (above ++ name ∷ []) (Has nodes) a). deeper above name nodes a k q)
          _
          (walk_nodes-Placed (above ++ name ∷ []) nodes
            (All-append Proper above (name ∷ []) h (k, tt)) ks))

    walk_nodes-Placed :
        (above : List Text) (ns : Nodes)
        → All Proper above
        → Named ns
        → All
            (Placed above (Has ns))
            (walk_nodes hash cwd root (render (top ++ output_name ∷ above)) ns)
    walk_nodes-Placed above no_nodes h k = tt
    walk_nodes-Placed above (node n ns) h (k, ks) =
        or-Placed above n ns _ _ (walk_node-Placed above n h k) (walk_nodes-Placed above ns h ks)

  -- A file of the run: the report, or one below the output directory.
  abbrev pub IsFile : Nodes → Option ℕ → List Text → ℕ → Type 0
  IsFile nodes report names size =
      ((names ≡ report_name ∷ []) × (report ≡ some size))
      ⊎ ((below : List Text) × (names ≡ output_name ∷ below) × Has nodes below size)

  -- Resolve leads from the artifact to a file of the run, of its size.
  abbrev pub IsServed : Nodes → Option ℕ → Artifact → Type 0
  IsServed nodes report a =
      (names : List Text) × All Proper names
      × (resolve cwd root a.rel ≡ ok (render (top ++ names)))
      × IsFile nodes report names a.size

  Placed→IsServed :
      (nodes : Nodes) (report : Option ℕ) (a : Artifact)
      → Placed [] (Has nodes) a
      → IsServed nodes report a
  Placed→IsServed nodes report a (names, e, h, found) = (
    output_name ∷ names,
    (output-Proper, h),
    ap (resolve cwd root) e ∙ resolve_accepts cwd dir id output_name names w c p (output-Proper, h),
    inr (names, refl, found),
  )

  report-Proper : Proper report_name
  report-Proper = record {
    plain = omega arith;
    named = unfold text_eq in refl;
    down = unfold text_eq in refl;
  }

  report_path : report_json root ≡ render (top ++ report_name ∷ [])
  report_path =
      unfold report_json in
      ap (λ r. join r report_name) (run_dir dir id w p)
      ∙ join-name top report_name top-Proper report-Proper

  single : join_parts (report_name ∷ []) ≡ report_name
  single = unfold join_parts in refl

  report_at : rel_to cwd root (report_json root) ≡ relative report_name
  report_at =
      ap (rel_to cwd root) report_path
      ∙ rel_to-down report_name [] (report-Proper, tt) (unfold has_prefix join_parts in refl)
      ∙ ap relative single

  report-IsServed :
      (nodes : Nodes) (report : Option ℕ)
      → All (IsServed nodes report) (report_artifact hash cwd root report)
  report-IsServed nodes none = tt
  report-IsServed nodes (some size) =
      subst (λ r. All (IsServed nodes (some size)) (artifact_at hash cwd root r size))
        (sym report_at) (served, tt)
    where
      served : IsServed nodes (some size) (new_artifact hash report_name size)
      served =
          unfold new_artifact in (report_name ∷ [], (report-Proper, tt), asked, inl (refl, refl))
        where
          asked : resolve cwd root report_name ≡ ok (render (top ++ report_name ∷ []))
          asked =
              ap (resolve cwd root) (sym single)
              ∙ resolve_accepts cwd dir id report_name [] w c p (report-Proper, tt)

  output_at : output root ≡ render (top ++ output_name ∷ [])
  output_at =
      unfold output in
      ap (λ r. join r output_name) (run_dir dir id w p)
      ∙ join-name top output_name top-Proper output-Proper

  -- Every artifact that scanArtifacts lists for a run, whose directory lies by its id under an
  -- absolute directory, is resolved by its relative path to a file of the run, of the size that
  -- it tells, below the output directory and not internal, or the report. The list is in the
  -- order of the paths. The names in the directories are without separators and none is ".",
  -- ".." or empty; the working directory, if it can be read, is an absolute path.
  pub scan_artifacts-IsServed :
      (nodes : Nodes) (report : Option ℕ)
      → Named nodes
      → All (IsServed nodes report) (scan_artifacts hash cwd root nodes report)
        × Sorted (λ (a : Artifact). a.rel) (scan_artifacts hash cwd root nodes report)
  unfolding scan_artifacts
  scan_artifacts-IsServed nodes report n = (
    sort_by-All (λ (a : Artifact). a.rel) (IsServed nodes report) _
        (All-append (IsServed nodes report) _ _
          (All-map (Placed→IsServed nodes report) _ (
            subst (λ d. All (Placed [] (Has nodes)) (walk_nodes hash cwd root d nodes))
              (sym output_at) (walk_nodes-Placed [] nodes tt n)))
          (report-IsServed nodes report)),
    sort_by-Sorted (λ (a : Artifact). a.rel)
        (walk_nodes hash cwd root (output root) nodes ++ report_artifact hash cwd root report),
  )
