-- ===== src/Http/Header/Scan.antt =====
-- Which row findHeaderRow (server/internal/httpapi/handlers.go) takes.
use eagle_condor_sandbox.Prelude.{
  ℕ, suc, ◌+◌, ◌≤◌, ◌<◌, true, false, List, [], ◌∷◌, ◌++◌, Option, none, some, ◌≡◌, ◌↔◌, ◌⊎◌, inl,
  inr, refl, sym, ap, ◌∙◌, subst, ◌==◌, ==_iff, ltb, arith, length, All, All-map, Bool-cases,
  lt→ltb,
}
use eagle_condor_sandbox.Prelude.Text.{Text}
use eagle_condor_sandbox.Prelude.Assoc.{Assoc, lookup}
use eagle_condor_sandbox.Http.Header.{
  Row, columns, found, score, absent_of, Best, next_best, scan_rows,
}
use eagle_condor_sandbox.Http.Header.Columns.{HasColumn, lookup-columns_all, false_ne, found-last}

-- Every wanted name is a column of the row.
abbrev pub IsFull : List Text → Row → Type 0
IsFull want row = All (HasColumn row) want

pub score-le : (want : List Text) (m : Assoc ℕ) → score want m ≤ length want
unfolding score
score-le [] m = omega arith
score-le (w ∷ ws) m = ground (arith, score-le ws m)

AllFound : List Text → Assoc ℕ → Type 0
AllFound want m = All (λ w. found (lookup w m) ≡ true) want

score_full : (want : List Text) (m : Assoc ℕ) → (score want m ≡ length want) ↔ AllFound want m
unfolding score AllFound
score_full [] m = (λ e. tt, λ e. refl)
score_full (w ∷ ws) m = elim (Bool-cases (found (lookup w m))) [
  | inl e ↦
      rw e (λ q. (refl, (score_full ws m).0 (omega arith)), λ q. ap suc ((score_full ws m).1 q.1))
  | inr e ↦ rw e (λ q. absurd (omega (arith, score-le ws m)), λ q. absurd (false_ne q.0))
]

pub absent_of_full :
    (want : List Text) (m : Assoc ℕ) → (absent_of want m ≡ []) ↔ (score want m ≡ length want)
unfolding absent_of score
absent_of_full [] m = (λ e. refl, λ e. refl)
absent_of_full (w ∷ ws) m = elim (Bool-cases (found (lookup w m))) [
  | inl e ↦
      rw e (λ q. ap suc ((absent_of_full ws m).0 q), λ q. (absent_of_full ws m).1 (omega arith))
  | inr e ↦ rw e (λ q. absurd (cc), λ q. absurd (omega (arith, score-le ws m)))
]

abbrev pub row_score : List Text → Row → ℕ
row_score want row = score want (columns 0 row [])

-- A row has the full score exactly if it has all the columns.
pub row_score-IsFull :
    (want : List Text) (row : Row) → (row_score want row ≡ length want) ↔ IsFull want row
row_score-IsFull want row = (
  λ e. to want ((score_full want (columns 0 row [])).0 e),
  λ h. (score_full want (columns 0 row [])).1 (back want h),
)
  where
    to : (ws : List Text) → AllFound ws (columns 0 row []) → IsFull ws row
    to ws h =
        unfold AllFound in
        All-map
          (λ w (e : found (lookup w (columns 0 row [])) ≡ true).
            (found-last w 0 row).0 (sym (ap found (lookup-columns_all w row)) ∙ e))
          ws h

    back : (ws : List Text) → IsFull ws row → AllFound ws (columns 0 row [])
    back ws h =
        unfold AllFound in
        All-map
          (λ w (e : HasColumn row w).
            ap found (lookup-columns_all w row) ∙ (found-last w 0 row).1 e)
          ws h

-- No row so far has the full score.
abbrev pub IsPartial : List Text → Option Best → Type 0
IsPartial want none = Unit
IsPartial want (some b) = (b.points < length want) × (b.points ≡ score want b.present)

next_best-IsPartial :
    (want : List Text) (i k : ℕ) (m : Assoc ℕ) (best : Option Best)
    → k < length want
    → k ≡ score want m
    → IsPartial want best
    → IsPartial want (next_best i k m best)
next_best-IsPartial want i k m none h q p = (h, q)
next_best-IsPartial want i k m (some b) h q p = elim (Bool-cases (ltb b.points k)) [
  | inl e ↦ rw e (h, q)
  | inr e ↦ rw e p
]

next_best-full :
    (want : List Text) (i : ℕ) (m : Assoc ℕ) (best : Option Best)
    → IsPartial want best
    → next_best i (length want) m best
      ≡ some (record { idx = i; points = length want; present = m })
next_best-full want i m none p = refl
next_best-full want i m (some b) p = rw (lt→ltb b.points (length want) p.0) refl

abbrev after : List Text → ℕ → Row → Option Best → Option Best
after want i r best = next_best i (row_score want r) (columns 0 r []) best

scan_rows-on :
    (want : List Text) (i : ℕ) (r : Row) (rs : List Row) (best : Option Best)
    → (row_score want r == length want) ≡ false
    → scan_rows want i (r ∷ rs) best ≡ scan_rows want (i + 1) rs (after want i r best)
unfolding scan_rows
scan_rows-on want i r rs best e = rw e refl

scan_rows-stop :
    (want : List Text) (i : ℕ) (r : Row) (rs : List Row) (best : Option Best)
    → (row_score want r == length want) ≡ true
    → scan_rows want i (r ∷ rs) best ≡ after want i r best
unfolding scan_rows
scan_rows-stop want i r rs best e = rw e refl

-- A row that lacks a column.
abbrev pub Lacks : List Text → Row → Type 0
Lacks want row = (row_score want row == length want) ≡ false

partial_score : (want : List Text) (r : Row) → Lacks want r → row_score want r < length want
partial_score want r e = ground (arith, score-le want (columns 0 r []))

after-IsPartial :
    (want : List Text) (i : ℕ) (r : Row) (best : Option Best)
    → Lacks want r
    → IsPartial want best
    → IsPartial want (after want i r best)
after-IsPartial want i r best e p =
    next_best-IsPartial want i (row_score want r) (columns 0 r []) best (partial_score want r e)
      refl p

pub scan_rows-IsPartial :
    (want : List Text) (i : ℕ) (rs : List Row) (best : Option Best)
    → All (Lacks want) rs
    → IsPartial want best
    → IsPartial want (scan_rows want i rs best)
scan_rows-IsPartial want i [] best h p = unfold scan_rows in p
scan_rows-IsPartial want i (r ∷ rs) best (e, h) p =
    subst (IsPartial want) (sym (scan_rows-on want i r rs best e)) (
      scan_rows-IsPartial want (i + 1) rs (after want i r best) h
        (after-IsPartial want i r best e p))

abbrev best_at : List Text → ℕ → Row → Option Best
best_at want i row = some (record { idx = i; points = length want; present = columns 0 row [] })

pub scan_rows-full :
    (want : List Text) (i k : ℕ) (ahead : List Row) (row : Row) (behind : List Row)
    (best : Option Best)
    → All (Lacks want) ahead
    → row_score want row ≡ length want
    → k ≡ i + length ahead
    → IsPartial want best
    → scan_rows want i (ahead ++ row ∷ behind) best ≡ best_at want k row
scan_rows-full want i k [] row behind best h e q p =
    scan_rows-stop want i row behind best ((==_iff _ _).1 e)
    ∙ ap (λ n. next_best i n (columns 0 row []) best) e
    ∙ next_best-full want i (columns 0 row []) best p
    ∙ ap (λ n. best_at want n row) (omega arith)
scan_rows-full want i k (r ∷ ahead) row behind best (l, h) e q p =
    scan_rows-on want i r (ahead ++ row ∷ behind) best l
    ∙ scan_rows-full want (i + 1) k ahead row behind (after want i r best) h e (omega arith)
        (after-IsPartial want i r best l p)

-- The first row that has all the columns, if there is one.
pub first_full :
    (want : List Text) (rs : List Row)
    → All (Lacks want) rs
      ⊎ ((ahead : List Row) × (row : Row) × (behind : List Row) × (rs ≡ ahead ++ row ∷ behind)
          × All (Lacks want) ahead
          × (row_score want row ≡ length want))
first_full want [] = inl tt
first_full want (r ∷ rs) = elim (Bool-cases (row_score want r == length want)) [
  | inl e ↦ inr ([], r, rs, refl, tt, (==_iff _ _).0 e)
  | inr e ↦ elim (first_full want rs) [
    | inl h ↦ inl (e, h)
    | inr (ahead, row, behind, q, h, f) ↦ inr (r ∷ ahead, row, behind, ap (◌∷◌ r) q, (e, h), f)
  ]
]
