-- ===== src/Http/Header/Columns.antt =====
-- The columns of a row, as findHeaderRow of server/internal/httpapi/handlers.go maps them.
use eagle_condor_sandbox.Prelude.{
  ℕ, ◌+◌, Bool, true, false, [], ◌∷◌, Option, none, some, ◌≡◌, ◌↔◌, ◌⊎◌, inl, inr, refl, sym, ap,
  ◌∙◌, if◌then◌else◌, Bool-cases, Option-cases,
}
use eagle_condor_sandbox.Prelude.Text.{Text, text_eq, text_eq_iff}
use eagle_condor_sandbox.Prelude.Assoc.{Assoc, lookup, insert, lookup-insert}
use eagle_condor_sandbox.Http.Header.{Row, column_name, columns, found}

-- The last cell, from the cell `j` on, that names the column.
abbrev pub last_column : Text → ℕ → Row → Option ℕ
last_column w j [] = none
last_column w j (h ∷ hs) = elim (last_column w (j + 1) hs) [
  | some k ↦ some k
  | none ↦ if text_eq (column_name h) w then some j else none
]

-- A row has a cell that names the column.
abbrev pub HasColumn : Row → Text → Type 0
HasColumn [] w = ⊥
HasColumn (h ∷ hs) w = (column_name h ≡ w) ⊎ HasColumn hs w

abbrev or_else : Option ℕ → Option ℕ → Option ℕ
or_else none o = o
or_else (some k) o = some k

step :
    (w : Text) (j : ℕ) (h : Text) (o p : Option ℕ)
    → or_else o (if text_eq (column_name h) w then some j else p)
      ≡ or_else
          (elim o [ some k ↦ some k | none ↦ if text_eq (column_name h) w then some j else none ])
          p
step w j h (some k) p = refl
step w j h none p = elim (Bool-cases (text_eq (column_name h) w)) [
  | inl e ↦ rw e refl
  | inr e ↦ rw e refl
]

-- The map of a row knows the last cell of each name.
lookup-columns :
    (w : Text) (j : ℕ) (row : Row) (m : Assoc ℕ)
    → lookup w (columns j row m) ≡ or_else (last_column w j row) (lookup w m)
unfolding columns
lookup-columns w j [] m = refl
lookup-columns w j (h ∷ hs) m =
    lookup-columns w (j + 1) hs (insert (column_name h) j m)
    ∙ ap (or_else (last_column w (j + 1) hs)) (lookup-insert (column_name h) w j m)
    ∙ step w j h (last_column w (j + 1) hs) (lookup w m)

or_else-none : (o : Option ℕ) → or_else o none ≡ o
or_else-none none = refl
or_else-none (some k) = refl

pub lookup-columns_all : (w : Text) (row : Row) → lookup w (columns 0 row []) ≡ last_column w 0 row
lookup-columns_all w row =
    lookup-columns w 0 row [] ∙ (unfold lookup in or_else-none (last_column w 0 row))

named_or : (b : Bool) (j : ℕ) → (found (if b then some j else none) ≡ true) ↔ (b ≡ true)
named_or true j = (λ e. refl, λ e. refl)
named_or false j = (λ e. absurd (cc), λ e. absurd (cc))

pub false_ne : false ≡ true → ⊥
false_ne e = cc

pub found-last :
    (w : Text) (j : ℕ) (row : Row) → (found (last_column w j row) ≡ true) ↔ HasColumn row w
found-last w j [] = (λ e. absurd (cc), λ e. absurd e)
found-last w j (h ∷ hs) = elim (Option-cases (last_column w (j + 1) hs)) [
  | inr (k, e) ↦ rw e (λ _. inr ((found-last w (j + 1) hs).0 (ap found e)), λ _. refl)
  | inl e ↦ rw e (
    λ q. inl ((text_eq_iff (column_name h) w).0 ((named_or _ j).0 q)),
    λ q. elim q [
      | inl n ↦ (named_or _ j).1 ((text_eq_iff (column_name h) w).1 n)
      | inr later ↦ absurd (no_later e ((found-last w (j + 1) hs).1 later))
    ],
  )
]
  where
    no_later : last_column w (j + 1) hs ≡ none → found (last_column w (j + 1) hs) ≡ true → ⊥
    no_later e f = absurd (false_ne (sym (ap found e) ∙ f))
