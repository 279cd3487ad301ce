-- ===== src/Http/Csv/Cells.antt =====
-- The columns of attachments in validateCSV (server/internal/httpapi/handlers.go): what the loop over
-- the rows below the header finds.
use eagle_condor_sandbox.Prelude.{
  ℕ, Bool, true, false, ◌||◌, List, [], ◌∷◌, Option, none, some, ◌≡◌, ◌↔◌, ◌⊎◌, inl, inr, refl, sym,
  ap, ◌∙◌, subst, if◌then◌else◌, arith, All, Bool-cases,
}
use eagle_condor_sandbox.Prelude.Text.{Text, text_eq, text_eq_iff}
use eagle_condor_sandbox.Prelude.Assoc.{Assoc, lookup, insert, lookup-insert}
use eagle_condor_sandbox.Http.Header.{Row, columns}
use eagle_condor_sandbox.Http.Header.Columns.{last_column, lookup-columns_all}
use eagle_condor_sandbox.Http.Csv.{
  is_set, first_error, cell, check_cells, check_column, check_columns,
}

module _ (has : Text → Bool) where
  -- A cell for an attachment is empty or names a file of the library.
  abbrev pub IsKnown : ℕ → Row → Type 0
  IsKnown idx row = (cell idx row ≡ []) ⊎ (has (cell idx row) ≡ true)

  -- Every name that was seen is in the library.
  SeenKnown : Assoc Bool → Type 0
  SeenKnown seen = (n : Text) → is_set (lookup n seen) ≡ true → has n ≡ true

  check_cells-skip :
      (idx : ℕ) (seen : Assoc Bool) (row : Row) (rows : List Row)
      → text_eq (cell idx row) [] || is_set (lookup (cell idx row) seen) ≡ true
      → check_cells has idx seen (row ∷ rows) ≡ check_cells has idx seen rows
  unfolding check_cells
  check_cells-skip idx seen row rows e = rw e refl

  check_cells-pass :
      (idx : ℕ) (seen : Assoc Bool) (row : Row) (rows : List Row)
      → text_eq (cell idx row) [] || is_set (lookup (cell idx row) seen) ≡ false
      → has (cell idx row) ≡ true
      → check_cells has idx seen (row ∷ rows)
        ≡ check_cells has idx (insert (cell idx row) true seen) rows
  unfolding check_cells
  check_cells-pass idx seen row rows e h = rw (e, h) refl

  check_cells-stop :
      (idx : ℕ) (seen : Assoc Bool) (row : Row) (rows : List Row)
      → text_eq (cell idx row) [] || is_set (lookup (cell idx row) seen) ≡ false
      → has (cell idx row) ≡ false
      → check_cells has idx seen (row ∷ rows) ≡ some (cell idx row)
  unfolding check_cells
  check_cells-stop idx seen row rows e h = rw (e, h) refl

  skip-IsKnown :
      (idx : ℕ) (seen : Assoc Bool) (row : Row)
      → SeenKnown seen
      → text_eq (cell idx row) [] || is_set (lookup (cell idx row) seen) ≡ true
      → IsKnown idx row
  unfolding SeenKnown
  skip-IsKnown idx seen row k e = elim (Bool-cases (text_eq (cell idx row) [])) [
    | inl q ↦ inl ((text_eq_iff (cell idx row) []).0 q)
    | inr q ↦ inr (k (cell idx row) (second _ _ q e))
  ]
    where
      second : (a b : Bool) → a ≡ false → a || b ≡ true → b ≡ true
      second a b q e = ground arith

  insert-SeenKnown :
      (name : Text) (seen : Assoc Bool)
      → SeenKnown seen
      → has name ≡ true
      → SeenKnown (insert name true seen)
  unfolding SeenKnown
  insert-SeenKnown name seen k h n e = elim (Bool-cases (text_eq name n)) [
    | inl q ↦ subst (λ m. has m ≡ true) ((text_eq_iff name n).0 q) h
    | inr q ↦ k n (
        sym (
          ap is_set
            (lookup-insert name n true seen ∙ ap (λ b. if b then some true else lookup n seen) q))
        ∙ e)
  ]

  -- The loop finds nothing wrong exactly if each row's cell is known.
  check_cells_only :
      (idx : ℕ) (seen : Assoc Bool) (rows : List Row)
      → SeenKnown seen
      → check_cells has idx seen rows ≡ none
      → All (IsKnown idx) rows
  check_cells_only idx seen [] k e = tt
  check_cells_only idx seen (row ∷ rows) k e =
      elim (Bool-cases (text_eq (cell idx row) [] || is_set (lookup (cell idx row) seen))) [
        | inl q ↦ (
          skip-IsKnown idx seen row k q,
          check_cells_only idx seen rows k (sym (check_cells-skip idx seen row rows q) ∙ e),
        )
        | inr q ↦ elim (Bool-cases (has (cell idx row))) [
          | inl h ↦ (
            inr h,
            check_cells_only idx (insert (cell idx row) true seen) rows
                (insert-SeenKnown (cell idx row) seen k h)
                (sym (check_cells-pass idx seen row rows q h) ∙ e),
          )
          | inr h ↦ absurd (some_ne _ (sym (check_cells-stop idx seen row rows q h) ∙ e))
        ]
      ]
    where
      some_ne : (t : Text) → some t ≡ none → ⊥
      some_ne t e = cc

  check_cells_back :
      (idx : ℕ) (seen : Assoc Bool) (rows : List Row)
      → All (IsKnown idx) rows
      → check_cells has idx seen rows ≡ none
  check_cells_back idx seen [] h = unfold check_cells in refl
  check_cells_back idx seen (row ∷ rows) (p, h) =
      elim (Bool-cases (text_eq (cell idx row) [] || is_set (lookup (cell idx row) seen))) [
        | inl q ↦ check_cells-skip idx seen row rows q ∙ check_cells_back idx seen rows h
        | inr q ↦
            check_cells-pass idx seen row rows q (known q p)
            ∙ check_cells_back idx (insert (cell idx row) true seen) rows h
      ]
    where
      clash : (a b : Bool) → a ≡ true → a || b ≡ false → ⊥
      clash a b p q = ground arith

      known :
          text_eq (cell idx row) [] || is_set (lookup (cell idx row) seen) ≡ false
          → IsKnown idx row
          → has (cell idx row) ≡ true
      known q (inr h) = h
      known q (inl e) = absurd (clash _ _ ((text_eq_iff (cell idx row) []).1 e) q)

  -- In each column for attachments that the header has, the cells below it are known.
  abbrev pub IsAttached : Row → List Row → Text → Type 0
  IsAttached header rows col =
      (idx : ℕ) → last_column col 0 header ≡ some idx → All (IsKnown idx) rows

  nothing_seen : SeenKnown []
  nothing_seen = unfold SeenKnown lookup in λ n e. absurd (cc)

  check_column_only :
      (o : Option ℕ) (rows : List Row)
      → check_column has o rows ≡ none
      → (idx : ℕ) → o ≡ some idx
      → All (IsKnown idx) rows
  check_column_only none rows e idx q = absurd (cc)
  check_column_only (some j) rows e idx q =
      subst (λ k. All (IsKnown k) rows) (same q) (check_cells_only j [] rows nothing_seen e)
    where
      same : some j ≡ some idx → j ≡ idx
      same q = cc

  check_column_back :
      (o : Option ℕ) (rows : List Row)
      → ((idx : ℕ) → o ≡ some idx → All (IsKnown idx) rows)
      → check_column has o rows ≡ none
  check_column_back none rows h = refl
  check_column_back (some j) rows h = check_cells_back j [] rows (h j refl)

  first_error_iff : (a b : Option Text) → (first_error a b ≡ none) ↔ ((a ≡ none) × (b ≡ none))
  first_error_iff none b = (λ e. (refl, e), λ e. e.1)
  first_error_iff (some t) b = (λ e. absurd (cc), λ e. absurd (cc))

  pub check_columns_iff :
      (cols : List Text) (header : Row) (rows : List Row)
      → (check_columns has cols (columns 0 header []) rows ≡ none)
        ↔ All (IsAttached header rows) cols
  unfolding check_columns
  check_columns_iff [] header rows = (λ e. tt, λ e. refl)
  check_columns_iff (col ∷ cols) header rows = (
    λ q.
        let (here, later) = (first_error_iff _ _).0 q in
        (
          λ idx f. check_column_only _ rows here idx (lookup-columns_all col header ∙ f),
          (check_columns_iff cols header rows).0 later,
        ),
    λ h. (first_error_iff _ _).1 (
      check_column_back _ rows (λ idx f. h.0 idx (sym (lookup-columns_all col header) ∙ f)),
      (check_columns_iff cols header rows).1 h.1,
    ),
  )
