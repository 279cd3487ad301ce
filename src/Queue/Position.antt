-- ===== src/Queue/Position.antt =====
-- QueuePosition of server/internal/run/queue.go.
use mathlib.Core.List.{reverse, reverse-cons, reverse_perm, Perm}
use mathlib.Core.List.Perm
use eagle_condor_sandbox.Prelude.{
  ℕ, ◌+◌, ◌≤◌, true, false, List, [], ◌∷◌, ◌++◌, ◌≡◌, refl, sym, ◌⊎◌, ap, subst, arith, length, All,
  All-append, Bool-cases, inl, inr, if◌then◌else◌,
}
use eagle_condor_sandbox.Prelude.Int.{pos}
use eagle_condor_sandbox.Prelude.Text.{Text, text_eq}
use eagle_condor_sandbox.Run.{Run, queued, state_text}
use eagle_condor_sandbox.Store.{values, list, keep, wanted}
use eagle_condor_sandbox.Store.Listing.{Descending, list_lem}
use eagle_condor_sandbox.Queue.Defs.{Sys}

-- The loop, over the queued runs from the oldest on.
unfoldable pub position_loop : Text → ℕ → List Run → ℕ
unfolding text_eq
position_loop id before [] = 0
position_loop id before (r ∷ rs) =
    let rest = position_loop id (before + 1) rs in if text_eq r.id id then before + 1 else rest

-- QueuePosition
unfoldable pub queue_position : Sys → Text → ℕ
unfolding position_loop list state_text
queue_position s id = position_loop id 0 (reverse (list s.store (state_text queued) [] (pos 0)))

abbrev pub NoneOf : Text → List Run → Type 0
NoneOf id rs = All (λ (x : Run). text_eq x.id id ≡ false) rs

-- One queued run with the id, and the queued runs ahead of it.
abbrev pub PlacedAt : Text → List Run → ℕ → Type 0
PlacedAt id rs k =
    (ahead : List Run) × (r : Run) × (behind : List Run) × (rs ≡ ahead ++ r ∷ behind)
    × (k ≡ length ahead + 1)
    × (text_eq r.id id ≡ true)
    × NoneOf id ahead

-- What a position says of the queued runs, the oldest first.
abbrev pub Places : Text → List Run → ℕ → Type 0
Places id rs k = ((k ≡ 0) × NoneOf id rs) ⊎ PlacedAt id rs k

abbrev Passed : Text → ℕ → List Run → ℕ → Type 0
Passed id n rs k = ((k ≡ 0) × NoneOf id rs) ⊎ ((m : ℕ) × (k ≡ n + m) × PlacedAt id rs m)

Passed-cons :
    (id : Text) (n k : ℕ) (x : Run) (rs : List Run)
    → text_eq x.id id ≡ false
    → Passed id (n + 1) rs k
    → Passed id n (x ∷ rs) k
Passed-cons id n k x rs e (inl (z, h)) = inl (z, (e, h))
Passed-cons id n k x rs e (inr (m, km, (ahead, r, behind, q, c, i, h))) =
    inr (m + 1, omega arith, (x ∷ ahead, r, behind, ap (◌∷◌ x) q, omega arith, i, (e, h)))

position_loop-hit :
    (id : Text) (n : ℕ) (x : Run) (rs : List Run)
    → text_eq x.id id ≡ true
    → position_loop id n (x ∷ rs) ≡ n + 1
unfolding position_loop
position_loop-hit id n x rs e = rw e

position_loop-miss :
    (id : Text) (n : ℕ) (x : Run) (rs : List Run)
    → text_eq x.id id ≡ false
    → position_loop id n (x ∷ rs) ≡ position_loop id (n + 1) rs
unfolding position_loop
position_loop-miss id n x rs e = rw e

position_loop-Passed : (id : Text) (n : ℕ) (rs : List Run) → Passed id n rs (position_loop id n rs)
position_loop-Passed id n [] = unfold position_loop in inl (refl, tt)
position_loop-Passed id n (x ∷ rs) = elim (Bool-cases (text_eq x.id id)) [
  | inl e ↦ inr (1, position_loop-hit id n x rs e, ([], x, rs, refl, refl, e, tt))
  | inr e ↦
      subst (Passed id n (x ∷ rs)) (sym (position_loop-miss id n x rs e))
        (Passed-cons id n _ x rs e (position_loop-Passed id (n + 1) rs))
]

position_loop-Places : (id : Text) (rs : List Run) → Places id rs (position_loop id 0 rs)
position_loop-Places id rs = elim (position_loop-Passed id 0 rs) [
  | inl h ↦ inl h
  | inr (m, e, (ahead, r, behind, q, c, i, h)) ↦ inr (ahead, r, behind, q, omega arith, i, h)
]

-- The queued runs in the order in which QueuePosition walks through them.
abbrev pub Ascending : List Run → Type 0
Ascending [] = Unit
Ascending (r ∷ rs) = All (λ (x : Run). r.queued_at ≤ x.queued_at) rs × Ascending rs

snoc-Ascending :
    (rs : List Run) (r : Run)
    → Ascending rs
    → All (λ (x : Run). x.queued_at ≤ r.queued_at) rs
    → Ascending (rs ++ r ∷ [])
snoc-Ascending [] r h g = (tt, tt)
snoc-Ascending (x ∷ rs) r (h, hs) (g, gs) =
    (All-append _ rs (r ∷ []) h (g, tt), snoc-Ascending rs r hs gs)

reverse-All {ℓ} : (P : Run → Type ℓ) (rs : List Run) → All P rs → All P (reverse rs)
reverse-All P [] h = tt
reverse-All P (r ∷ rs) (h, hs) =
    subst (All P) (sym (reverse-cons r rs))
      (All-append P (reverse rs) (r ∷ []) (reverse-All P rs hs) (h, tt))

reverse-Ascending : (rs : List Run) → Descending rs → Ascending (reverse rs)
reverse-Ascending [] d = tt
reverse-Ascending (r ∷ rs) (h, d) =
    subst Ascending (sym (reverse-cons r rs))
      (snoc-Ascending (reverse rs) r (reverse-Ascending rs d) (reverse-All _ rs h))

-- QueuePosition is 0 if no queued run has the id. Otherwise it is one more than the number
-- of queued runs that stand before the run, in an arrangement of all the queued runs in which none
-- stands before one that was queued earlier.
pub queue_position_lem :
    (s : Sys) (id : Text)
    → (line : List Run) × Ascending line
      × Perm line (keep (wanted (state_text queued) []) (values s.store.runs))
      × Places id line (queue_position s id)
unfolding queue_position
queue_position_lem s id =
    let (found, e, d, p) = list_lem s.store (state_text queued) [] (pos 0) in
    (
      reverse found,
      reverse-Ascending found d,
      Perm.trans (reverse_perm found) p,
      subst (Places id (reverse found)) (sym (ap (λ rs. position_loop id 0 (reverse rs)) e))
          (position_loop-Places id (reverse found)),
    )
