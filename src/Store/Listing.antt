-- ===== src/Store/Listing.antt =====
-- List and Counts of server/internal/run/store.go.
use mathlib.Core.Path.{ap₂}
use mathlib.Core.List.{Perm}
use mathlib.Core.List.Perm
use eagle_condor_sandbox.Prelude.{
  ℕ, zero, suc, ◌≤◌, false, List, [], ◌∷◌, ◌≡◌, refl, sym, ap, ◌∙◌, ltb, arith, take, length, All,
  All-map, Bool-cases, inl, inr,
}
use eagle_condor_sandbox.Prelude.Int.{ℤ, pos, negsuc}
use eagle_condor_sandbox.Prelude.Text.{Text, text_eq}
use eagle_condor_sandbox.Run.{Run, State, queued, running, state_eq, state_text}
use eagle_condor_sandbox.Store.{
  Store, values, wanted, keep, place, newest_first, cap_list, list, tally, counts,
}

-- No run stands before one that was queued later.
abbrev pub Descending : List Run → Type 0
Descending [] = Unit
Descending (r ∷ rs) = All (λ x. x.queued_at ≤ r.queued_at) rs × Descending rs

place-All :
    (n : ℕ) (r : Run) (xs : List Run)
    → r.queued_at ≤ n
    → All (λ x. x.queued_at ≤ n) xs
    → All (λ x. x.queued_at ≤ n) (place r xs)
unfolding place
place-All n r [] h hx = (h, tt)
place-All n r (x ∷ xs) h (p, hx) = elim (Bool-cases (ltb r.queued_at x.queued_at)) [
  | inl e ↦ rw e (p, place-All n r xs h hx)
  | inr e ↦ rw e (h, (p, hx))
]

place-Descending : (r : Run) (xs : List Run) → Descending xs → Descending (place r xs)
unfolding place
place-Descending r [] d = (tt, tt)
place-Descending r (x ∷ xs) (h, d) = elim (Bool-cases (ltb r.queued_at x.queued_at)) [
  | inl e ↦ rw e (place-All x.queued_at r xs (ground arith) h, place-Descending r xs d)
  | inr e ↦
      rw e
        ((ground arith, All-map (λ y (p : y.queued_at ≤ x.queued_at). ground arith) xs h), (h, d))
]

newest_first-Descending : (rs : List Run) → Descending (newest_first rs)
unfolding newest_first
newest_first-Descending [] = tt
newest_first-Descending (r ∷ rs) = place-Descending r (newest_first rs) (newest_first-Descending rs)

place-perm : (r : Run) (xs : List Run) → Perm (place r xs) (r ∷ xs)
unfolding place
place-perm r [] = Perm.refl (r ∷ [])
place-perm r (x ∷ xs) = elim (Bool-cases (ltb r.queued_at x.queued_at)) [
  | inl e ↦ rw e (Perm.trans (Perm.cons x (place-perm r xs)) (Perm.swap r x xs))
  | inr e ↦ rw e (Perm.refl (r ∷ x ∷ xs))
]

newest_first-perm : (rs : List Run) → Perm (newest_first rs) rs
unfolding newest_first
newest_first-perm [] = Perm.refl []
newest_first-perm (r ∷ rs) =
    Perm.trans (place-perm r (newest_first rs)) (Perm.cons r (newest_first-perm rs))

-- A limit that is positive keeps that many from the front, and any other limit keeps all.
abbrev pub first_of : ℤ → List Run → List Run
first_of (pos (suc n)) rs = take (suc n) rs
first_of _ rs = rs

take_all : (n : ℕ) (rs : List Run) → length rs ≤ n → take n rs ≡ rs
take_all zero [] h = refl
take_all zero (r ∷ rs) h = absurd (omega arith)
take_all (suc n) [] h = refl
take_all (suc n) (r ∷ rs) h = ap (◌∷◌ r) (take_all n rs (omega arith))

cap_list-first : (limit : ℤ) (rs : List Run) → cap_list limit rs ≡ first_of limit rs
unfolding cap_list
cap_list-first (pos zero) rs = refl
cap_list-first (pos (suc n)) rs = elim (Bool-cases (ltb (suc n) (length rs))) [
  | inl e ↦ rw e
  | inr e ↦ rw e (sym (take_all (suc n) rs (ground arith)))
]
cap_list-first (negsuc n) rs = refl

pub list_lem :
    (s : Store) (state workflow_id : Text) (limit : ℤ)
    → (all : List Run) × (list s state workflow_id limit ≡ first_of limit all)
      × Descending all
      × Perm all (keep (wanted state workflow_id) (values s.runs))
unfolding list
list_lem s state workflow_id limit =
    let found = keep (wanted state workflow_id) (values s.runs) in
    (
      newest_first found,
      cap_list-first limit (newest_first found),
      newest_first-Descending found,
      newest_first-perm found,
    )

length-place : (r : Run) (xs : List Run) → length (place r xs) ≡ suc (length xs)
unfolding place
length-place r [] = refl
length-place r (x ∷ xs) = ground (arith, length-place r xs)

pub length-newest_first : (rs : List Run) → length (newest_first rs) ≡ length rs
unfolding newest_first
length-newest_first [] = refl
length-newest_first (r ∷ rs) = length-place r (newest_first rs) ∙ ap suc (length-newest_first rs)

wanted-state :
    (st : State) (r : Run)
    → text_eq (state_text st) [] ≡ false
    → wanted (state_text st) [] r ≡ state_eq r.state st
unfolding wanted state_eq
wanted-state st r ne = ground arith

tally-keep :
    (st : State) (rs : List Run)
    → text_eq (state_text st) [] ≡ false
    → tally st rs ≡ length (keep (wanted (state_text st) []) rs)
unfolding keep
tally-keep st [] ne = refl
tally-keep st (r ∷ rs) ne = elim (Bool-cases (state_eq r.state st)) [
  | inl e ↦ rw (wanted-state st r ne, e) (ap suc (tally-keep st rs ne))
  | inr e ↦ rw (wanted-state st r ne, e) (tally-keep st rs ne)
]

tally-list :
    (s : Store) (st : State)
    → text_eq (state_text st) [] ≡ false
    → tally st (values s.runs) ≡ length (list s (state_text st) [] (pos 0))
unfolding list
tally-list s st ne =
    tally-keep st (values s.runs) ne
    ∙ sym (length-newest_first (keep (wanted (state_text st) []) (values s.runs)))

-- Counts agrees with List: the runs it counts are those that a list by that state shows.
pub counts-list :
    (s : Store)
    → counts s ≡ (
      length (list s (state_text running) [] (pos 0)),
      length (list s (state_text queued) [] (pos 0)),
    )
unfolding counts
counts-list s =
    ap₂ (λ m n. (m, n)) (tally-list s running (unfold text_eq state_text in refl))
      (tally-list s queued (unfold text_eq state_text in refl))
