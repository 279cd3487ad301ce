-- ===== src/Run/Id/Names.antt =====
-- The id that NewID (server/internal/run/run.go) makes is the name of a directory.
use eagle_condor_sandbox.Prelude.{
  ℕ, ◌+◌, ◌/◌, ◌%◌, List, [], ◌∷◌, ◌++◌, some, ◌≡◌, ◌≢◌, refl, arith, All-append, Bool-cases, inl,
  inr, ltb, subst, sym, suc, zero, if◌then◌else◌,
}
use eagle_condor_sandbox.Prelude.Text.{Text, text_eq}
use eagle_condor_sandbox.Prelude.Decimal.{format_int, digits}
use eagle_condor_sandbox.Layout.Path.{slash}
use eagle_condor_sandbox.Layout.Components.{NoSlash, Proper}
use eagle_condor_sandbox.Run.Id.{
  Stamp, two, year_text, clock_text, day_text, format_stamp, hex_digit, hex, new_id,
}

two-NoSlash : (n : ℕ) (rest : Text) → NoSlash rest → NoSlash (two n rest)
two-NoSlash n rest h = (omega arith, (omega arith, h))

digits-NoSlash : (fuel n : ℕ) (rest : Text) → NoSlash rest → NoSlash (digits fuel n rest)
unfolding digits
digits-NoSlash zero n rest h = h
digits-NoSlash (suc fuel) n rest h = elim (Bool-cases (ltb n 10)) [
  | inl e ↦ rw e ((omega arith, h))
  | inr e ↦ rw e (digits-NoSlash fuel (n / 10) ((b'0' + n % 10) ∷ rest) ((omega arith, h)))
]

year_text-NoSlash : (y : ℕ) (rest : Text) → NoSlash rest → NoSlash (year_text y rest)
unfolding year_text format_int
year_text-NoSlash y rest h = elim (Bool-cases (ltb y 10000)) [
  | inl e ↦ rw e (two-NoSlash (y / 100) (two (y % 100) rest) (two-NoSlash (y % 100) rest h))
  | inr e ↦ rw e (All-append (λ c. c ≢ slash) (digits 19 y []) rest (digits-NoSlash 19 y [] tt) h)
]

hex_digit_ne : (d : ℕ) → hex_digit d ≢ slash
unfolding hex_digit
hex_digit_ne d = ground arith

hex-NoSlash : (bs : List ℕ) → NoSlash (hex bs)
unfolding hex
hex-NoSlash [] = tt
hex-NoSlash (b ∷ bs) = (hex_digit_ne (b / 16), (hex_digit_ne (b % 16), hex-NoSlash bs))

clock_text-NoSlash : (t : Stamp) (rest : Text) → NoSlash rest → NoSlash (clock_text t rest)
clock_text-NoSlash t rest h = two-NoSlash t.hour (two t.minute (two t.second (b'Z' ∷ rest))) (
    two-NoSlash t.minute (two t.second (b'Z' ∷ rest))
      (two-NoSlash t.second (b'Z' ∷ rest) ((omega arith, h))))

day_text-NoSlash : (t : Stamp) (rest : Text) → NoSlash rest → NoSlash (day_text t rest)
day_text-NoSlash t rest h =
    two-NoSlash t.month (two t.day (b'T' ∷ clock_text t rest))
      (two-NoSlash t.day (b'T' ∷ clock_text t rest) ((omega arith, clock_text-NoSlash t rest h)))

long-Proper : (a b c : ℕ) (r : Text) → NoSlash (a ∷ b ∷ c ∷ r) → Proper (a ∷ b ∷ c ∷ r)
long-Proper a b c r h =
    unfold text_eq in record { plain = h; named = ground arith; down = ground arith }

append-Proper :
    (p : Text) (a b c : ℕ) (r : Text) → NoSlash (p ++ a ∷ b ∷ c ∷ r) → Proper (p ++ a ∷ b ∷ c ∷ r)
append-Proper [] a b c r h = long-Proper a b c r h
append-Proper (x ∷ []) a b c r h = long-Proper x a b (c ∷ r) h
append-Proper (x ∷ y ∷ []) a b c r h = long-Proper x y a (b ∷ c ∷ r) h
append-Proper (x ∷ y ∷ z ∷ p) a b c r h = long-Proper x y z (p ++ a ∷ b ∷ c ∷ r) h

year_text-Proper :
    (y a b c : ℕ) (r : Text)
    → NoSlash (year_text y (a ∷ b ∷ c ∷ r))
    → Proper (year_text y (a ∷ b ∷ c ∷ r))
unfolding year_text
year_text-Proper y a b c r h = elim (Bool-cases (ltb y 10000)) [
  | inl e ↦ subst Proper (sym (chosen e)) (long-Proper _ _ _ _ (subst NoSlash (chosen e) h))
  | inr e ↦
      subst Proper (sym (chosen e))
        (append-Proper (format_int y) a b c r (subst NoSlash (chosen e) h))
]
  where
    chosen :
        {v : _}
        → ltb y 10000 ≡ v
        → year_text y (a ∷ b ∷ c ∷ r) ≡ (
            if v
            then two (y / 100) (two (y % 100) (a ∷ b ∷ c ∷ r))
            else format_int y ++ a ∷ b ∷ c ∷ r)
    chosen e = unfold year_text in rw e refl

-- Every id that NewID makes is a name for a directory: no separator, and none of "", "." and "..".
pub new_id-Proper :
    (bytes : List ℕ) (t : Stamp) (id : Text) → new_id (some bytes) t ≡ some id → Proper id
unfolding new_id
new_id-Proper bytes t id e = subst Proper (one _ id e) (
    unfold format_stamp in
    year_text-Proper t.year _ _ _ _ (
      year_text-NoSlash t.year (day_text t (b'-' ∷ hex bytes))
        (day_text-NoSlash t (b'-' ∷ hex bytes) (omega arith, hex-NoSlash bytes))))
  where
    one : (a b : Text) → some a ≡ some b → a ≡ b
    one a b e = cc
