-- ===== src/Http/Header/Chosen.antt =====
-- What findHeaderRow (server/internal/httpapi/handlers.go) answers.
use eagle_condor_sandbox.Prelude.{
  ℕ, zero, suc, ◌<◌, false, List, [], ◌∷◌, ◌++◌, Option, none, some, ◌≡◌, ◌≢◌, ◌⊎◌, inl, inr, refl,
  sym, ap, ◌∙◌, ◌==◌, arith, length, append_assoc, take, drop, take-append-drop, All, Bool-cases,
}
use eagle_condor_sandbox.Prelude.Text.{Text}
use eagle_condor_sandbox.Http.Header.{
  Row, columns, absent_of, Best, scan_rows, Header, header_of, find_header_row,
}
use eagle_condor_sandbox.Http.Header.Scan.{
  IsFull, Lacks, IsPartial, row_score-IsFull, absent_of_full, scan_rows-IsPartial, scan_rows-full,
  first_full,
}

-- The first row among the first ten in which no wanted name is missing.
pub record IsFirst (want : List Text) (rows : List Row) (i : ℕ) (row : Row) : Type 0 where
  pub ahead : List Row
  pub behind : List Row
  pub parts : rows ≡ ahead ++ row ∷ behind
  pub place : i ≡ length ahead
  pub soon : i < 10
  pub before : All (Lacks want) ahead
  pub full : IsFull want row

abbrev pub header_at : ℕ → Row → Header
header_at i row = record { idx = i; present = columns 0 row []; missing = [] }

-- What is answered if no row is full: an answer that misses some column, or none.
abbrev pub Misses : Option Header → Type 0
Misses none = Unit
Misses (some h) = h.missing ≢ []

length-take_lt {ℓ} :
    {A : Type ℓ} (n : ℕ) (xs ys zs : List A) (y : A) → take n xs ≡ ys ++ y ∷ zs → length ys < n
length-take_lt zero xs [] zs y e = absurd (cc)
length-take_lt zero xs (z ∷ ys) zs y e = absurd (cc)
length-take_lt (suc n) [] [] zs y e = absurd (cc)
length-take_lt (suc n) [] (z ∷ ys) zs y e = absurd (cc)
length-take_lt (suc n) (x ∷ xs) [] zs y e = omega arith
length-take_lt (suc n) (x ∷ xs) (z ∷ ys) zs y e = omega (arith, length-take_lt n xs ys zs y (cc))

take-parts {ℓ} :
    {A : Type ℓ} (n : ℕ) (ys zs : List A) (y : A)
    → length ys < n
    → (rest : List A) × (take n (ys ++ y ∷ zs) ≡ ys ++ y ∷ rest)
take-parts zero ys zs y h = absurd (omega arith)
take-parts (suc n) [] zs y h = (take n zs, refl)
take-parts (suc n) (x ∷ ys) zs y h =
    let (rest, e) = take-parts n ys zs y (omega arith) in (rest, ap (◌∷◌ x) e)

header_of-Misses :
    (want : List Text) (best : Option Best) → IsPartial want best → Misses (header_of want best)
header_of-Misses want none p = tt
header_of-Misses want (some b) (p, q) = elim (Bool-cases (b.points == 0)) [
  | inl e ↦ rw e tt
  | inr e ↦ rw e (λ a. absurd (omega (arith, (absent_of_full want b.present).0 a)))
]

suc_ne_zero : (n : ℕ) → (suc n == 0) ≡ false
suc_ne_zero n = ground arith

pub find-full :
    (want : List Text) (rows : List Row) (i : ℕ) (row : Row)
    → want ≢ []
    → IsFirst want rows i row
    → find_header_row rows want ≡ some (header_at i row)
unfolding find_header_row
find-full want rows i row ne f =
    let (rest, e) = take-parts 10 f.ahead f.behind row (omega (arith, f.place, f.soon)) in
    ap (λ rs. header_of want (scan_rows want 0 rs none)) (ap (take 10) f.parts ∙ e)
    ∙ ap (header_of want) (
        scan_rows-full want 0 i f.ahead row rest none f.before
          ((row_score-IsFull want row).1 f.full) (omega (arith, f.place)) tt)
    ∙ answered want ne
  where
    missing_none : absent_of want (columns 0 row []) ≡ []
    missing_none = (absent_of_full want (columns 0 row [])).1 ((row_score-IsFull want row).1 f.full)

    answered :
        (ws : List Text)
        → ws ≢ []
        → header_of want (some (record { idx = i; points = length ws; present = columns 0 row [] }))
          ≡ some (header_at i row)
    answered [] q = absurd (q refl)
    answered (w ∷ ws) q = rw (suc_ne_zero (length ws), missing_none) refl

pub find-Misses :
    (want : List Text) (rows : List Row)
    → All (Lacks want) (take 10 rows)
    → Misses (find_header_row rows want)
unfolding find_header_row
find-Misses want rows h =
    header_of-Misses want _ (scan_rows-IsPartial want 0 (take 10 rows) none h tt)

pub first_IsFirst :
    (want : List Text) (rows : List Row)
    → All (Lacks want) (take 10 rows) ⊎ ((i : ℕ) × (row : Row) × IsFirst want rows i row)
first_IsFirst want rows = elim (first_full want (take 10 rows)) [
  | inl h ↦ inl h
  | inr (ahead, row, behind, q, h, f) ↦ inr (
    length ahead,
    row,
    record {
      ahead = ahead;
      behind = behind ++ drop 10 rows;
      parts =
          sym (take-append-drop 10 rows)
          ∙ ap (λ rs. rs ++ drop 10 rows) q
          ∙ append_assoc ahead (row ∷ behind) (drop 10 rows);
      place = refl;
      soon = length-take_lt 10 rows ahead behind row q;
      before = h;
      full = (row_score-IsFull want row).0 f;
    },
  )
]

-- findHeaderRow takes the first row among the first ten that has all the wanted columns, and misses
-- none; if there is no such row it finds no header or reports a column that is missing. This
-- holds if at least one column is wanted.
pub find_header_row_lem :
    (rows : List Row) (want : List Text)
    → want ≢ []
    → ((i : ℕ) × (row : Row) × IsFirst want rows i row
        × (find_header_row rows want ≡ some (header_at i row)))
      ⊎ (All (Lacks want) (take 10 rows) × Misses (find_header_row rows want))
find_header_row_lem rows want ne = elim (first_IsFirst want rows) [
  | inl h ↦ inr (h, find-Misses want rows h)
  | inr (i, row, f) ↦ inl (i, row, f, find-full want rows i row ne f)
]
