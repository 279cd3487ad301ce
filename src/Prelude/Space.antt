-- ===== src/Prelude/Space.antt =====
-- strings.TrimSpace: white space is Unicode's, in UTF-8. Its encodings are told apart by their first
-- bytes, so that the end of a text is trimmed as the front of the reversed text.
use eagle_condor_sandbox.Prelude.Lists.{length}
use eagle_condor_sandbox.Prelude.Tests.{if◌then◌else◌}
use eagle_condor_sandbox.Prelude.Text.{Text, has_prefix, drop_text}
use Prim.Native.Nat.{ℕ, zero, suc}
use mathlib.Core.Path.{◌≡◌, refl}
use mathlib.Core.Option.{Option, none, some}
use mathlib.Core.List.{List, [], ◌∷◌, map, reverse}

-- U+2000 to U+200A
abbrev quads : List Text
quads =
    map (λ b. 0xe2 ∷ 0x80 ∷ b ∷ [])
      (0x80 ∷ 0x81 ∷ 0x82 ∷ 0x83 ∷ 0x84 ∷ 0x85 ∷ 0x86 ∷ 0x87 ∷ 0x88 ∷ 0x89 ∷ 0x8a ∷ [])

-- The encodings of the characters of unicode.IsSpace.
abbrev pub spaces : List Text
spaces =
    (9 ∷ [])
    ∷ (10 ∷ [])
    ∷ (11 ∷ [])
    ∷ (12 ∷ [])
    ∷ (13 ∷ [])
    ∷ (32 ∷ [])
    ∷ (0xc2 ∷ 0x85 ∷ [])
    ∷ (0xc2 ∷ 0xa0 ∷ [])
    ∷ (0xe1 ∷ 0x9a ∷ 0x80 ∷ [])
    ∷ (0xe2 ∷ 0x80 ∷ 0xa8 ∷ [])
    ∷ (0xe2 ∷ 0x80 ∷ 0xa9 ∷ [])
    ∷ (0xe2 ∷ 0x80 ∷ 0xaf ∷ [])
    ∷ (0xe2 ∷ 0x81 ∷ 0x9f ∷ [])
    ∷ (0xe3 ∷ 0x80 ∷ 0x80 ∷ [])
    ∷ quads

-- The text behind the first of the prefixes that it has. A prefix is not empty.
unfoldable pub strip_one : List Text → Text → Option Text
unfolding has_prefix
strip_one [] s = none
strip_one (p ∷ ps) s =
    let rest = strip_one ps s in if has_prefix s p then some (drop_text s p) else rest

unfoldable pub strip_all : List Text → ℕ → Text → Text
unfolding strip_one
strip_all ps zero s = s
strip_all ps (suc fuel) s = elim (strip_one ps s) [ none ↦ s | some r ↦ strip_all ps fuel r ]

-- As many rounds as there are bytes.
unfoldable pub trim_front : List Text → Text → Text
unfolding strip_all
trim_front ps s = strip_all ps (length s) s

-- strings.TrimSpace
unfoldable pub trim_space : Text → Text
unfolding trim_front
trim_space s = reverse (trim_front (map reverse spaces) (reverse (trim_front spaces s)))

trims :
    trim_space (32 ∷ 0xc2 ∷ 0xa0 ∷ b'a' ∷ 32 ∷ b'b' ∷ 0xe2 ∷ 0x80 ∷ 0x83 ∷ 10 ∷ [])
    ≡ b'a' ∷ 32 ∷ b'b' ∷ []
unfolding trim_space
trims = refl
