-- ===== src/Prelude/Int.antt =====
-- Signed integers over the native numbers: Go's int and int64 values.
use eagle_condor_sandbox.Prelude.Tests.{ltb, leb, ◌==◌, if◌then◌else◌}
use Prim.Native.Nat.{ℕ, zero, suc, ◌+◌, ◌-◌, ◌%◌, ◌≤◌, ◌<◌}
use mathlib.Core.Path.{◌≡◌}
use mathlib.Core.Logic.{◌↔◌}
use mathlib.Core.Bool.{Bool, true}
use native.Mathlib.Omega.{arith}

-- `negsuc n` is -(n + 1).
pub data ℤ : Type 0 where
  pos : ℕ → ℤ
  negsuc : ℕ → ℤ

abbrev pub pos_part : ℤ → ℕ
pos_part (pos n) = n
pos_part (negsuc n) = 0

abbrev pub neg_part : ℤ → ℕ
neg_part (pos n) = 0
neg_part (negsuc n) = suc n

infix 50 ◌≤ℤ◌ ◌<ℤ◌
abbrev pub ◌≤ℤ◌ : ℤ → ℤ → Type 0
a ≤ℤ b = pos_part a + neg_part b ≤ pos_part b + neg_part a

abbrev pub ◌<ℤ◌ : ℤ → ℤ → Type 0
a <ℤ b = pos_part a + neg_part b < pos_part b + neg_part a

abbrev pub ltb_ℤ : ℤ → ℤ → Bool
ltb_ℤ a b = ltb (pos_part a + neg_part b) (pos_part b + neg_part a)

abbrev pub leb_ℤ : ℤ → ℤ → Bool
leb_ℤ a b = leb (pos_part a + neg_part b) (pos_part b + neg_part a)

abbrev pub eq_ℤ : ℤ → ℤ → Bool
eq_ℤ a b = pos_part a + neg_part b == pos_part b + neg_part a

abbrev pub max_int64 : ℕ
max_int64 = 9223372036854775807

-- `n++` on an int64, which wraps to the smallest value.
abbrev pub inc64 : ℤ → ℤ
inc64 (pos n) = if ltb n max_int64 then pos (n + 1) else negsuc max_int64
inc64 (negsuc zero) = pos 0
inc64 (negsuc (suc n)) = negsuc n

pub ltb_ℤ_iff : (a b : ℤ) → (ltb_ℤ a b ≡ true) ↔ (a <ℤ b)
ltb_ℤ_iff a b = ground arith

pub eq_ℤ_iff : (a b : ℤ) → (eq_ℤ a b ≡ true) ↔ (a ≡ b)
eq_ℤ_iff a b = ground arith

-- An int64 as its residue modulo 2^64.
abbrev pub word : ℤ → ℕ
word (pos n) = n % 18446744073709551616
word (negsuc n) = 18446744073709551615 - n % 18446744073709551616

abbrev pub signed : ℕ → ℤ
signed w = if ltb w 9223372036854775808 then pos w else negsuc (18446744073709551615 - w)

-- `a + b` on int64
unfoldable pub add64 : ℤ → ℤ → ℤ
add64 a b = signed ((word a + word b) % 18446744073709551616)
