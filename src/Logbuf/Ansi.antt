-- ===== src/Logbuf/Ansi.antt =====
-- StripANSI of server/internal/logbuf/logbuf.go.
pub mod Sequences
use eagle_condor_sandbox.Prelude.{
  ℕ, zero, suc, ◌+◌, Bool, true, false, ◌&&◌, ◌||◌, List, [], ◌∷◌, ◌++◌, Option, none, some, leb,
  ◌==◌, if◌then◌else◌, ◌≡◌, refl, arith, length,
}
use eagle_condor_sandbox.Prelude.Text.{Text, codes}
use mathlib.Core.Option

abbrev pub esc : ℕ
esc = 0x1b

abbrev pub cr : ℕ
cr = 0x0d

-- `[0-9;?]`
unfoldable pub is_param : ℕ → Bool
is_param c = (leb b'0' c && leb c b'9') || c == b';' || c == b'?'

-- `[ -/]`
unfoldable pub is_intermediate : ℕ → Bool
is_intermediate c = leb b' ' c && leb c b'/'

-- `[@-~]`
unfoldable pub is_final : ℕ → Bool
is_final c = leb b'@' c && leb c b'~'

-- How many bytes `[ -/]*[@-~]` takes from the front.
unfoldable pub match_tail : Text → Option ℕ
unfolding is_intermediate is_final
match_tail [] = none
match_tail (c ∷ r) =
    let more = Option.map suc (match_tail r) in
    if is_intermediate c then more else if is_final c then some 1 else none

-- How many bytes `[0-9;?]*[ -/]*[@-~]` takes. The three classes are disjoint, so that the greedy
-- match needs no backtracking.
unfoldable pub match_body : Text → Option ℕ
unfolding is_param match_tail
match_body [] = none
match_body (c ∷ r) =
    let more = Option.map suc (match_body r) in if is_param c then more else match_tail (c ∷ r)

-- How many bytes the whole of ansiRE takes.
unfoldable pub match_csi : Text → Option ℕ
unfolding match_body
match_csi (c ∷ d ∷ r) =
    if c == esc && d == b'[' then Option.map (λ n. n + 2) (match_body r) else none
match_csi _ = none

-- ReplaceAllString with the empty text: the number counts the bytes of a match still to be skipped.
unfoldable pub erase_csi : ℕ → Text → Text
unfolding match_csi
erase_csi skip [] = []
erase_csi (suc skip) (c ∷ r) = erase_csi skip r
erase_csi zero (c ∷ r) = elim (match_csi (c ∷ r)) [
  | none ↦ c ∷ erase_csi zero r
  | some zero ↦ c ∷ erase_csi zero r
  | some (suc n) ↦ erase_csi n r
]

-- strings.ReplaceAll with "\r"
unfoldable pub erase_cr : Text → Text
erase_cr [] = []
erase_cr (c ∷ r) = let rest = erase_cr r in if c == cr then rest else c ∷ rest

unfoldable pub strip_ansi : Text → Text
unfolding erase_csi erase_cr
strip_ansi s = erase_cr (erase_csi 0 s)

strips_colour : strip_ansi (esc ∷ codes "[1;31mred" ++ esc ∷ codes "[0m!") ≡ codes "red!"
unfolding strip_ansi
strips_colour = refl
