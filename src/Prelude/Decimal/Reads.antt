-- ===== src/Prelude/Decimal/Reads.antt =====
-- Which texts strconv.ParseInt reads, and as what.
use eagle_condor_sandbox.Prelude.Tests.{ltb, ◌==◌, ==_iff, if◌then◌else◌, lt→ltb, Bool-cases}
use eagle_condor_sandbox.Prelude.Text.{Text}
use eagle_condor_sandbox.Prelude.Int.{ℤ, pos, negsuc}
use eagle_condor_sandbox.Prelude.Decimal.{scan, unsigned, above, below, parse_int}
use Prim.Native.Nat.{ℕ, zero, suc, ◌+◌, ◌-◌, ◌*◌, ◌≤◌, ◌<◌}
use mathlib.Core.Path.{◌≡◌, refl, sym, ap, ◌∙◌}
use mathlib.Core.Bool.{true, false, ◌||◌}
use mathlib.Core.Logic.{◌≢◌, ◌⊎◌, ◌↔◌, inl, inr}
use mathlib.Core.Option.{Option, none, some}
use mathlib.Core.List.{[], ◌∷◌}
use native.Mathlib.Omega.{arith}

-- Decimal digits that make `m` out of `n`.
abbrev pub Spells : ℕ → Text → ℕ → Type 0
Spells n [] m = n ≡ m
Spells n (c ∷ s) m = (b'0' ≤ c) × (c ≤ b'9') × Spells (n * 10 + (c - b'0')) s m

abbrev pub negative : ℕ → ℤ
negative zero = pos 0
negative (suc n) = negsuc n

-- Digits that make `m`, with the sign that they may have.
abbrev pub IsSigned : Text → Text → ℕ → ℤ → Type 0
IsSigned t body m z =
    (t ≡ body × z ≡ pos m × m < 9223372036854775808)
    ⊎ ((t ≡ b'+' ∷ body × z ≡ pos m × m < 9223372036854775808)
        ⊎ (t ≡ b'-' ∷ body × z ≡ negative m × m ≤ 9223372036854775808))

-- The text spells the int64 `z` with at least one digit.
abbrev pub IsDecimal : Text → ℤ → Type 0
IsDecimal t z = (body : Text) × (m : ℕ) × (body ≢ []) × Spells 0 body m × IsSigned t body m z

scan→Spells : (n : ℕ) (s : Text) (m : ℕ) → scan n s ≡ some m → Spells n s m
unfolding scan
scan→Spells n [] m e = cc
scan→Spells n (c ∷ s) m e = elim (Bool-cases (ltb c b'0' || ltb b'9' c)) [
  | inl q ↦ absurd (fails q e)
  | inr q ↦ (low q, high q, scan→Spells (n * 10 + (c - b'0')) s m (reads q e))
]
  where
    fails :
        (ltb c b'0' || ltb b'9' c) ≡ true
        → (if ltb c b'0' || ltb b'9' c then none else scan (n * 10 + (c - b'0')) s) ≡ some m
        → ⊥
    fails q e = cc (sym (ap (λ b. if b then none else scan (n * 10 + (c - b'0')) s) q) ∙ e)

    reads :
        (ltb c b'0' || ltb b'9' c) ≡ false
        → (if ltb c b'0' || ltb b'9' c then none else scan (n * 10 + (c - b'0')) s) ≡ some m
        → scan (n * 10 + (c - b'0')) s ≡ some m
    reads q e = sym (ap (λ b. if b then none else scan (n * 10 + (c - b'0')) s) q) ∙ e

    low : (ltb c b'0' || ltb b'9' c) ≡ false → b'0' ≤ c
    low q = ground arith

    high : (ltb c b'0' || ltb b'9' c) ≡ false → c ≤ b'9'
    high q = ground arith

Spells→scan : (n : ℕ) (s : Text) (m : ℕ) → Spells n s m → scan n s ≡ some m
unfolding scan
Spells→scan n [] m e = ap some e
Spells→scan n (c ∷ s) m (l, h, k) = rw inside (Spells→scan (n * 10 + (c - b'0')) s m k)
  where
    inside : (ltb c b'0' || ltb b'9' c) ≡ false
    inside = ground arith

unsigned→ : (s : Text) (m : ℕ) → unsigned s ≡ some m → (s ≢ []) × Spells 0 s m
unsigned→ [] m e = absurd (cc)
unsigned→ (c ∷ s) m e = (λ q. cc, scan→Spells 0 (c ∷ s) m e)

→unsigned : (s : Text) (m : ℕ) → s ≢ [] → Spells 0 s m → unsigned s ≡ some m
→unsigned [] m ne k = absurd (ne refl)
→unsigned (c ∷ s) m ne k = Spells→scan 0 (c ∷ s) m k

above→ :
    (o : Option ℕ) (z : ℤ)
    → above o ≡ some z
    → (m : ℕ) × (o ≡ some m) × (z ≡ pos m) × (m < 9223372036854775808)
above→ none z e = absurd (cc)
above→ (some n) z e = (n, refl, ground arith, ground arith)

→above : (m : ℕ) → m < 9223372036854775808 → above (some m) ≡ some (pos m)
→above m h = rw (lt→ltb m 9223372036854775808 h) refl

below→ :
    (o : Option ℕ) (z : ℤ)
    → below o ≡ some z
    → (m : ℕ) × (o ≡ some m) × (z ≡ negative m) × (m ≤ 9223372036854775808)
below→ none z e = absurd (cc)
below→ (some zero) z e = (0, refl, cc, omega arith)
below→ (some (suc n)) z e = (suc n, refl, ground arith, ground arith)

→below : (m : ℕ) → m ≤ 9223372036854775808 → below (some m) ≡ some (negative m)
→below zero h = refl
→below (suc n) h = rw (lt→ltb n 9223372036854775808 (omega arith)) refl

parse_int-minus : (s : Text) → parse_int (b'-' ∷ s) ≡ below (unsigned s)
unfolding parse_int
parse_int-minus s = refl

parse_int-plus : (s : Text) → parse_int (b'+' ∷ s) ≡ above (unsigned s)
unfolding parse_int
parse_int-plus s = refl

parse_int-plain :
    (c : ℕ) (s : Text)
    → (c == b'-') ≡ false
    → (c == b'+') ≡ false
    → parse_int (c ∷ s) ≡ above (unsigned (c ∷ s))
unfolding parse_int
parse_int-plain c s e q = rw (e, q) refl

parse_int→ : (t : Text) (z : ℤ) → parse_int t ≡ some z → IsDecimal t z
parse_int→ [] z e = unfold parse_int in absurd (cc (e))
parse_int→ (c ∷ s) z e = elim (Bool-cases (c == b'-')) [
  | inl p ↦
      let t : (c ∷ s) ≡ b'-' ∷ s = ap (λ k. k ∷ s) ((==_iff c b'-').0 p) in
      let (m, u, v, w) = below→ (unsigned s) z (sym (ap parse_int t ∙ parse_int-minus s) ∙ e) in
      let (ne, k) = unsigned→ s m u in (s, m, ne, k, inr (inr (t, v, w)))
  | inr p ↦ elim (Bool-cases (c == b'+')) [
    | inl q ↦
        let t : (c ∷ s) ≡ b'+' ∷ s = ap (λ k. k ∷ s) ((==_iff c b'+').0 q) in
        let (m, u, v, w) = above→ (unsigned s) z (sym (ap parse_int t ∙ parse_int-plus s) ∙ e) in
        let (ne, k) = unsigned→ s m u in (s, m, ne, k, inr (inl (t, v, w)))
    | inr q ↦
        let (m, u, v, w) = above→ (unsigned (c ∷ s)) z (sym (parse_int-plain c s p q) ∙ e) in
        let (ne, k) = unsigned→ (c ∷ s) m u in (c ∷ s, m, ne, k, inl (refl, v, w))
  ]
]

parse_int-digits : (t : Text) (m : ℕ) → t ≢ [] → Spells 0 t m → parse_int t ≡ above (unsigned t)
parse_int-digits [] m ne k = absurd (ne refl)
parse_int-digits (c ∷ s) m ne (l, h, k) = parse_int-plain c s (ground arith) (ground arith)

→parse_int : (t : Text) (z : ℤ) → IsDecimal t z → parse_int t ≡ some z
→parse_int t z (body, m, ne, k, inl (e, v, w)) =
    ap parse_int e
    ∙ parse_int-digits body m ne k
    ∙ ap above (→unsigned body m ne k)
    ∙ →above m w
    ∙ ap some (sym v)
→parse_int t z (body, m, ne, k, inr (inl (e, v, w))) =
    ap parse_int e
    ∙ parse_int-plus body
    ∙ ap above (→unsigned body m ne k)
    ∙ →above m w
    ∙ ap some (sym v)
→parse_int t z (body, m, ne, k, inr (inr (e, v, w))) =
    ap parse_int e
    ∙ parse_int-minus body
    ∙ ap below (→unsigned body m ne k)
    ∙ →below m w
    ∙ ap some (sym v)

-- ParseInt reads exactly the decimal texts of an int64, with a sign or without.
pub parse_int_iff : (t : Text) (z : ℤ) → (parse_int t ≡ some z) ↔ IsDecimal t z
parse_int_iff t z = (parse_int→ t z, →parse_int t z)
