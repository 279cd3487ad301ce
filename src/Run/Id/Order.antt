-- ===== src/Run/Id/Order.antt =====
-- The ids that NewID (server/internal/run/run.go) makes are in the order of their times, and are
-- different when their bytes are.
use eagle_condor_sandbox.Prelude.{
  ℕ, ◌+◌, ◌/◌, ◌%◌, ◌≤◌, ◌<◌, true, List, [], ◌∷◌, some, ◌≡◌, ◌≢◌, ◌⊎◌, inl, inr, refl, sym, ap,
  ◌∙◌, arith, All, subst, lt→ltb,
}
use eagle_condor_sandbox.Prelude.Text.{Text}
use eagle_condor_sandbox.Prelude.Sort.{less}
use eagle_condor_sandbox.Run.Id.{
  Stamp, two, year_text, clock_text, day_text, format_stamp, hex_digit, hex, new_id,
}

-- The fields, the greatest unit first.
abbrev pub fields : Stamp → List ℕ
fields t = t.year ∷ t.month ∷ t.day ∷ t.hour ∷ t.minute ∷ t.second ∷ []

-- One list of fields is before another.
abbrev pub IsBefore : List ℕ → List ℕ → Type 0
IsBefore [] ys = ⊥
IsBefore (a ∷ xs) [] = ⊥
IsBefore (a ∷ xs) (b ∷ ys) = (a < b) ⊎ ((a ≡ b) × IsBefore xs ys)

less-cons : (c : ℕ) (s t : Text) → less (c ∷ s) (c ∷ t) ≡ less s t
unfolding less
less-cons c s t = ground arith

less-first : (a b : ℕ) (s t : Text) → a < b → less (a ∷ s) (b ∷ t) ≡ true
unfolding less
less-first a b s t h = rw (lt→ltb a b h) refl

two-less :
    (a b : ℕ) (s t : Text)
    → (a < b) ⊎ ((a ≡ b) × (less s t ≡ true))
    → less (two a s) (two b t) ≡ true
unfolding less
two-less a b s t (inl h) = ground arith
two-less a b s t (inr (e, h)) =
    ap (λ n. less (two n s) (two b t)) e
    ∙ less-cons (b'0' + b / 10) ((b'0' + b % 10) ∷ s) ((b'0' + b % 10) ∷ t)
    ∙ less-cons (b'0' + b % 10) s t
    ∙ h

year_digits : (y : ℕ) (s : Text) → y < 10000 → year_text y s ≡ two (y / 100) (two (y % 100) s)
unfolding year_text
year_digits y s h = rw (lt→ltb y 10000 h) refl

year_less :
    (a b : ℕ) (s t : Text)
    → a < 10000
    → b < 10000
    → (a < b) ⊎ ((a ≡ b) × (less s t ≡ true))
    → less (year_text a s) (year_text b t) ≡ true
year_less a b s t ha hb h =
    ap (λ x. less x (year_text b t)) (year_digits a s ha)
    ∙ ap (less (two (a / 100) (two (a % 100) s))) (year_digits b t hb)
    ∙ two-less (a / 100) (b / 100) (two (a % 100) s) (two (b % 100) t) (halves h)
  where
    halves :
        (a < b) ⊎ ((a ≡ b) × (less s t ≡ true))
        → (a / 100 < b / 100)
          ⊎ ((a / 100 ≡ b / 100) × (less (two (a % 100) s) (two (b % 100) t) ≡ true))
    halves (inl k) = elim (split (a / 100) (b / 100) (omega arith)) [
      | inl less_hundreds ↦ inl less_hundreds
      | inr same ↦ inr (same, two-less (a % 100) (b % 100) s t (inl (omega arith)))
    ]
      where
        split : (m n : ℕ) → m ≤ n → (m < n) ⊎ (m ≡ n)
        split m n h = ground arith
    halves (inr (e, k)) =
        inr (ap (λ n. n / 100) e, two-less (a % 100) (b % 100) s t (inr (ap (λ n. n % 100) e, k)))

-- A field, and what is behind it.
then_less :
    {P : Type 0} (a b : ℕ) (s t : Text)
    → (P → less s t ≡ true)
    → (a < b) ⊎ ((a ≡ b) × P)
    → less (two a s) (two b t) ≡ true
then_less a b s t k (inl h) = two-less a b s t (inl h)
then_less a b s t k (inr (e, p)) = two-less a b s t (inr (e, k p))

module _ (t u : Stamp) (s r : Text) where
  -- What is behind the minutes.
  abbrev second_text : Stamp → Text → Text
  second_text v rest = two v.second (b'Z' ∷ rest)

  clock_less :
      IsBefore (t.hour ∷ t.minute ∷ t.second ∷ []) (u.hour ∷ u.minute ∷ u.second ∷ [])
      → less (clock_text t s) (clock_text u r) ≡ true
  clock_less =
      then_less t.hour u.hour (two t.minute (second_text t s)) (two u.minute (second_text u r)) (
        then_less t.minute u.minute (second_text t s) (second_text u r)
          (then_less t.second u.second (b'Z' ∷ s) (b'Z' ∷ r) λ f. absurd f))

  day_less :
      IsBefore
        (t.month ∷ t.day ∷ t.hour ∷ t.minute ∷ t.second ∷ [])
        (u.month ∷ u.day ∷ u.hour ∷ u.minute ∷ u.second ∷ [])
      → less (day_text t s) (day_text u r) ≡ true
  day_less =
      then_less t.month u.month (two t.day (b'T' ∷ clock_text t s))
        (two u.day (b'T' ∷ clock_text u r))
        (then_less t.day u.day (b'T' ∷ clock_text t s) (b'T' ∷ clock_text u r)
          λ h. less-cons b'T' (clock_text t s) (clock_text u r) ∙ clock_less h)

  format_less :
      t.year < 10000
      → u.year < 10000
      → IsBefore (fields t) (fields u)
      → less (format_stamp t s) (format_stamp u r) ≡ true
  unfolding format_stamp
  format_less it iu (inl h) = year_less t.year u.year (day_text t s) (day_text u r) it iu (inl h)
  format_less it iu (inr (e, h)) =
      year_less t.year u.year (day_text t s) (day_text u r) it iu (inr (e, day_less h))

-- Two texts with two digits in front.
two-injective : (a b : ℕ) (s t : Text) → two a s ≡ two b t → (a ≡ b) × (s ≡ t)
two-injective a b s t e = (whole (firsts e) (seconds e), rests e)
  where
    firsts : two a s ≡ two b t → b'0' + a / 10 ≡ b'0' + b / 10
    firsts e = cc

    seconds : two a s ≡ two b t → b'0' + a % 10 ≡ b'0' + b % 10
    seconds e = cc

    rests : two a s ≡ two b t → s ≡ t
    rests e = cc

    whole : b'0' + a / 10 ≡ b'0' + b / 10 → b'0' + a % 10 ≡ b'0' + b % 10 → a ≡ b
    whole h k = omega arith

hex_digit-injective : (c d : ℕ) → c < 16 → d < 16 → hex_digit c ≡ hex_digit d → c ≡ d
unfolding hex_digit
hex_digit-injective c d hc hd e = ground arith

abbrev pub IsBytes : List ℕ → Type 0
IsBytes bs = All (λ b. b < 256) bs

hex-injective : (xs ys : List ℕ) → IsBytes xs → IsBytes ys → hex xs ≡ hex ys → xs ≡ ys
unfolding hex
hex-injective [] [] hx hy e = refl
hex-injective [] (y ∷ ys) hx hy e = absurd (cc)
hex-injective (x ∷ xs) [] hx hy e = absurd (cc)
hex-injective (x ∷ xs) (y ∷ ys) (hx, hxs) (hy, hys) e =
    cons_eq
      (whole (hex_digit-injective (x / 16) (y / 16) (omega arith) (omega arith) (firsts e))
        (hex_digit-injective (x % 16) (y % 16) (omega arith) (omega arith) (seconds e)))
      (hex-injective xs ys hxs hys (rests e))
  where
    firsts : hex (x ∷ xs) ≡ hex (y ∷ ys) → hex_digit (x / 16) ≡ hex_digit (y / 16)
    firsts e = cc

    seconds : hex (x ∷ xs) ≡ hex (y ∷ ys) → hex_digit (x % 16) ≡ hex_digit (y % 16)
    seconds e = cc

    rests : hex (x ∷ xs) ≡ hex (y ∷ ys) → hex xs ≡ hex ys
    rests e = cc

    whole : x / 16 ≡ y / 16 → x % 16 ≡ y % 16 → x ≡ y
    whole h k = omega arith

    cons_eq : x ≡ y → xs ≡ ys → x ∷ xs ≡ y ∷ ys
    cons_eq p q = cc

module _ (t u : Stamp) (s r : Text) where
  clock-injective : clock_text t s ≡ clock_text u r → s ≡ r
  clock-injective e =
      let (h, e1) = two-injective t.hour u.hour _ _ e in
      let (m, e2) = two-injective t.minute u.minute _ _ e1 in
      let (c, e3) = two-injective t.second u.second _ _ e2 in behind e3
    where
      behind : b'Z' ∷ s ≡ b'Z' ∷ r → s ≡ r
      behind e = cc

  day-injective : day_text t s ≡ day_text u r → s ≡ r
  day-injective e =
      let (h, e1) = two-injective t.month u.month _ _ e in
      let (m, e2) = two-injective t.day u.day _ _ e1 in clock-injective (behind e2)
    where
      behind : b'T' ∷ clock_text t s ≡ b'T' ∷ clock_text u r → clock_text t s ≡ clock_text u r
      behind e = cc

  format-injective : t.year < 10000 → u.year < 10000 → format_stamp t s ≡ format_stamp u r → s ≡ r
  unfolding format_stamp
  format-injective it iu e =
      let q =
        sym (year_digits t.year (day_text t s) it) ∙ e ∙ year_digits u.year (day_text u r) iu in
      let (h, e1) = two-injective (t.year / 100) (u.year / 100) _ _ q in
      let (l, e2) = two-injective (t.year % 100) (u.year % 100) _ _ e1 in day-injective e2

-- NewID: of two ids made in years of four digits, that of an earlier second is before the other
-- in the order of strings, and ids made from different bytes are different.
pub new_id_lem :
    (xs ys : List ℕ) (t u : Stamp) (a b : Text)
    → t.year < 10000
    → u.year < 10000
    → IsBytes xs
    → IsBytes ys
    → new_id (some xs) t ≡ some a
    → new_id (some ys) u ≡ some b
    → (IsBefore (fields t) (fields u) → less a b ≡ true) × (xs ≢ ys → a ≢ b)
unfolding new_id
new_id_lem xs ys t u a b it iu hx hy ea eb = (
  λ h.
      subst (λ x. less x b ≡ true) (one _ a ea)
        (subst (λ y. less (format_stamp t (b'-' ∷ hex xs)) y ≡ true) (one _ b eb)
          (format_less t u (b'-' ∷ hex xs) (b'-' ∷ hex ys) it iu h)),
  λ ne q. ne (
      hex-injective xs ys hx hy (
        behind (
          format-injective t u (b'-' ∷ hex xs) (b'-' ∷ hex ys) it iu
            (one _ a ea ∙ q ∙ sym (one _ b eb))))),
)
  where
    one : (x y : Text) → some x ≡ some y → x ≡ y
    one x y e = cc

    behind : b'-' ∷ hex xs ≡ b'-' ∷ hex ys → hex xs ≡ hex ys
    behind e = cc
