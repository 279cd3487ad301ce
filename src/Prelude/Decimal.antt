-- ===== src/Prelude/Decimal.antt =====
-- The functions of package strconv that the server calls: a 64-bit integer and its decimal text.
pub mod Reads
use eagle_condor_sandbox.Prelude.Tests.{ltb, ◌==◌, if◌then◌else◌, lt→ltb, ltb→lt, Bool-cases}
use eagle_condor_sandbox.Prelude.Text.{Text}
use eagle_condor_sandbox.Prelude.Int.{ℤ, pos, negsuc}
use Prim.Native.Nat.{ℕ, zero, suc, ◌+◌, ◌-◌, ◌*◌, ◌/◌, ◌%◌, ◌^◌, ◌≤◌, ◌<◌}
use mathlib.Core.Path.{◌≡◌, refl, sym, ap, ◌∙◌, subst}
use mathlib.Core.Bool.{Bool, true, false, ◌||◌}
use mathlib.Core.Logic.{◌≢◌, inl, inr}
use mathlib.Core.Option.{Option, none, some}
use mathlib.Core.List.{[], ◌∷◌}
use native.Mathlib.Omega.{arith}

unfoldable pub digits : ℕ → ℕ → Text → Text
digits zero n rest = rest
digits (suc fuel) n rest =
    let more = digits fuel (n / 10) ((b'0' + n % 10) ∷ rest) in
    if ltb n 10 then (b'0' + n) ∷ rest else more

-- strconv.FormatInt in base 10, for a number up to 2^63, which has at most 19 digits.
unfoldable pub format_int : ℕ → Text
unfolding digits
format_int n = digits 19 n []

-- fmt.Sprintf("%d", z)
unfoldable pub format_signed : ℤ → Text
unfolding format_int
format_signed (pos n) = format_int n
format_signed (negsuc n) = b'-' ∷ format_int (n + 1)

-- The number that digits spell behind `n`. ParseInt stops where that is too large, and so fails too.
unfoldable pub scan : ℕ → Text → Option ℕ
scan n [] = some n
scan n (c ∷ s) =
    let rest = scan (n * 10 + (c - b'0')) s in if ltb c b'0' || ltb b'9' c then none else rest

abbrev pub unsigned : Text → Option ℕ
unsigned [] = none
unsigned (c ∷ s) = scan 0 (c ∷ s)

abbrev pub above : Option ℕ → Option ℤ
above none = none
above (some n) = if ltb n 9223372036854775808 then some (pos n) else none

abbrev pub below : Option ℕ → Option ℤ
below none = none
below (some zero) = some (pos 0)
below (some (suc n)) = if ltb n 9223372036854775808 then some (negsuc n) else none

-- strconv.ParseInt(s, 10, 64), and strconv.Atoi on a 64-bit system.
unfoldable pub parse_int : Text → Option ℤ
unfolding scan
parse_int [] = none
parse_int (c ∷ s) =
    if c == b'-'
    then below (unsigned s)
    else if c == b'+'
    then above (unsigned s)
    else above (unsigned (c ∷ s))

-- The values of an int64.
abbrev pub IsInt64 : ℤ → Type 0
IsInt64 (pos n) = n < 9223372036854775808
IsInt64 (negsuc n) = n < 9223372036854775808

-- Reading the last digit after the digits before it.
scan_last : (n : ℕ) (rest : Text) → scan (n / 10) ((b'0' + n % 10) ∷ rest) ≡ scan n rest
unfolding scan
scan_last n rest = ground arith

scan_digit : (n : ℕ) (rest : Text) → n < 10 → scan 0 ((b'0' + n) ∷ rest) ≡ scan n rest
unfolding scan
scan_digit n rest h = ground arith

digits_small : (fuel n : ℕ) (rest : Text) → n < 10 → digits (suc fuel) n rest ≡ (b'0' + n) ∷ rest
unfolding digits
digits_small fuel n rest h = rw (lt→ltb n 10 h) refl

digits_large :
    (fuel n : ℕ) (rest : Text)
    → ltb n 10 ≡ false
    → digits (suc fuel) n rest ≡ digits fuel (n / 10) ((b'0' + n % 10) ∷ rest)
unfolding digits
digits_large fuel n rest h = rw h refl

tenth : (fuel n : ℕ) → n < 10 ^ suc (suc fuel) → n / 10 < 10 ^ suc fuel
tenth fuel n h = omega arith

scan-digits :
    (fuel n : ℕ) (rest : Text) → n < 10 ^ suc fuel → scan 0 (digits (suc fuel) n rest) ≡ scan n rest
scan-digits zero n rest h = ap (scan 0) (digits_small 0 n rest h) ∙ scan_digit n rest h
scan-digits (suc fuel) n rest h = elim (Bool-cases (ltb n 10)) [
  | inl e ↦
      ap (scan 0) (digits_small (suc fuel) n rest (ltb→lt n 10 e))
      ∙ scan_digit n rest (ltb→lt n 10 e)
  | inr e ↦
      ap (scan 0) (digits_large (suc fuel) n rest e)
      ∙ scan-digits fuel (n / 10) ((b'0' + n % 10) ∷ rest) (tenth fuel n h)
      ∙ scan_last n rest
]

-- The text of a number starts with a digit.
abbrev Starts : Text → Type 0
Starts s = (c : ℕ) × (r : Text) × (s ≡ c ∷ r) × (b'0' ≤ c)

digits-Starts : (fuel n : ℕ) (rest : Text) → Starts rest → Starts (digits fuel n rest)
unfolding digits
digits-Starts zero n rest h = h
digits-Starts (suc fuel) n rest h = elim (Bool-cases (ltb n 10)) [
  | inl e ↦ (b'0' + n, rest, rw e refl, omega arith)
  | inr e ↦
      let (c, r, q, k) =
        digits-Starts fuel (n / 10) ((b'0' + n % 10) ∷ rest)
          (b'0' + n % 10, rest, refl, omega arith) in
      (c, r, rw e q, k)
]

format_int-Starts : (n : ℕ) → Starts (format_int n)
unfolding format_int digits
format_int-Starts n = elim (Bool-cases (ltb n 10)) [
  | inl e ↦ (b'0' + n, [], rw e refl, omega arith)
  | inr e ↦
      let (c, r, q, k) =
        digits-Starts 18 (n / 10) ((b'0' + n % 10) ∷ []) (b'0' + n % 10, [], refl, omega arith) in
      (
        c,
        r,
        ap (λ b. if b then (b'0' + n) ∷ [] else digits 18 (n / 10) ((b'0' + n % 10) ∷ [])) e ∙ q,
        k,
      )
]

unsigned-format : (n : ℕ) → n < 10 ^ 19 → unsigned (format_int n) ≡ some n
unsigned-format n h =
    let (c, r, q, k) = format_int-Starts n in ap unsigned q ∙ ap (scan 0) (sym q) ∙ scanned
  where
    scanned : scan 0 (format_int n) ≡ some n
    scanned = unfold format_int in scan-digits 18 n [] h ∙ (unfold scan in refl)

parse_int_digits : (s : Text) → Starts s → parse_int s ≡ above (unsigned s)
unfolding parse_int
parse_int_digits s (c, r, q, k) = rw q (ground arith)

-- Every int64 is read back from its decimal text.
pub parse_int-format : (z : ℤ) → IsInt64 z → parse_int (format_signed z) ≡ some z
parse_int-format (pos n) h =
    unfold format_signed in
    parse_int_digits (format_int n) (format_int-Starts n)
    ∙ ap above (unsigned-format n (omega arith))
    ∙ (ground arith)
parse_int-format (negsuc n) h =
    unfold format_signed parse_int in
    ap below (unsigned-format (n + 1) (omega arith)) ∙ (ground arith)

pub format_signed-ne : (z : ℤ) → format_signed z ≢ []
unfolding format_signed
format_signed-ne (pos n) e = let (c, r, q, k) = format_int-Starts n in nil (sym q ∙ e)
  where
    nil : {c : ℕ} {r : Text} → (c ∷ r) ≡ [] → ⊥
    nil e = cc
format_signed-ne (negsuc n) e = absurd (cc)

above-IsInt64 : (o : Option ℕ) (z : ℤ) → above o ≡ some z → IsInt64 z
above-IsInt64 none z e = absurd (cc)
above-IsInt64 (some n) z e = elim (Bool-cases (ltb n 9223372036854775808)) [
  | inl h ↦ subst IsInt64 (within h e) (ltb→lt n 9223372036854775808 h)
  | inr h ↦ absurd (beyond h e)
]
  where
    within : ltb n 9223372036854775808 ≡ true → above (some n) ≡ some z → pos n ≡ z
    within h e = ground arith

    beyond : ltb n 9223372036854775808 ≡ false → above (some n) ≡ some z → ⊥
    beyond h e = ground arith

below-IsInt64 : (o : Option ℕ) (z : ℤ) → below o ≡ some z → IsInt64 z
below-IsInt64 none z e = absurd (cc)
below-IsInt64 (some zero) z e = subst IsInt64 (same e) (omega arith)
  where
    same : some (pos 0) ≡ some z → pos 0 ≡ z
    same e = cc
below-IsInt64 (some (suc n)) z e = elim (Bool-cases (ltb n 9223372036854775808)) [
  | inl h ↦ subst IsInt64 (within h e) (ltb→lt n 9223372036854775808 h)
  | inr h ↦ absurd (beyond h e)
]
  where
    within : ltb n 9223372036854775808 ≡ true → below (some (suc n)) ≡ some z → negsuc n ≡ z
    within h e = ground arith

    beyond : ltb n 9223372036854775808 ≡ false → below (some (suc n)) ≡ some z → ⊥
    beyond h e = ground arith

abbrev IsRead : Option ℤ → Type 0
IsRead o = (z : ℤ) → o ≡ some z → IsInt64 z

if-IsRead : (b : Bool) (o p : Option ℤ) → IsRead o → IsRead p → IsRead (if b then o else p)
if-IsRead true o p h k = h
if-IsRead false o p h k = k

-- What ParseInt reads fits into an int64.
pub parse_int-IsInt64 : (s : Text) (z : ℤ) → parse_int s ≡ some z → IsInt64 z
unfolding parse_int
parse_int-IsInt64 [] z e = absurd (cc)
parse_int-IsInt64 (c ∷ s) z e =
    if-IsRead (c == b'-') _ _ (below-IsInt64 (unsigned s))
      (if-IsRead (c == b'+') _ _ (above-IsInt64 (unsigned s)) (above-IsInt64 (unsigned (c ∷ s)))) z
      e
