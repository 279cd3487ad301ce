-- ===== src/Run/Id.antt =====
-- NewID of server/internal/run/run.go: a run's id from the time and from random bytes.
pub mod Names
pub mod Order
pub mod Apart
use eagle_condor_sandbox.Prelude.{
  ℕ, ◌+◌, ◌-◌, ◌/◌, ◌%◌, List, [], ◌∷◌, ◌++◌, Option, none, some, ltb, if◌then◌else◌,
}
use eagle_condor_sandbox.Prelude.Text.{Text, codes}
use eagle_condor_sandbox.Prelude.Decimal.{format_int}

-- The calendar fields of an instant in UTC, as package time gives them.
pub record Stamp : Type 0 where
  pub year : ℕ
  pub month : ℕ
  pub day : ℕ
  pub hour : ℕ
  pub minute : ℕ
  pub second : ℕ

-- A field of two digits.
abbrev pub two : ℕ → Text → Text
two n rest = (b'0' + n / 10) ∷ (b'0' + n % 10) ∷ rest

-- The year, which has at least four digits.
unfoldable pub year_text : ℕ → Text → Text
unfolding format_int
year_text y rest = if ltb y 10000 then two (y / 100) (two (y % 100) rest) else format_int y ++ rest

-- "150405Z"
abbrev pub clock_text : Stamp → Text → Text
clock_text t rest = two t.hour (two t.minute (two t.second (b'Z' ∷ rest)))

-- "0102T150405Z"
abbrev pub day_text : Stamp → Text → Text
day_text t rest = two t.month (two t.day (b'T' ∷ clock_text t rest))

-- Format("20060102T150405Z")
unfoldable pub format_stamp : Stamp → Text → Text
unfolding year_text
format_stamp t rest = year_text t.year (day_text t rest)

unfoldable pub hex_digit : ℕ → ℕ
hex_digit d = if ltb d 10 then b'0' + d else b'a' + (d - 10)

-- hex.EncodeToString
unfoldable pub hex : List ℕ → Text
unfolding hex_digit
hex [] = []
hex (b ∷ bs) = hex_digit (b / 16) ∷ hex_digit (b % 16) ∷ hex bs

-- NewID, of what rand.Read puts into the bytes.
unfoldable pub new_id : Option (List ℕ) → Stamp → Option Text
unfolding format_stamp hex
new_id none t = none
new_id (some bytes) t = some (format_stamp t (b'-' ∷ hex bytes))
