-- ===== src/Http/Tail.antt =====
-- tailFile of server/internal/httpapi/handlers.go: the lines of run.log, once the buffer is gone.
pub mod Lines
pub mod Written
use eagle_condor_sandbox.Prelude.{
  ℕ, suc, ◌+◌, Bool, true, false, ◌&&◌, List, [], ◌∷◌, Option, none, some, ◌==◌, if◌then◌else◌,
  length, ◌≡◌, refl,
}
use eagle_condor_sandbox.Prelude.Int.{ℤ, pos, ltb_ℤ, leb_ℤ, inc64}
use eagle_condor_sandbox.Prelude.Text.{Text, codes}

-- "\n"
abbrev pub newline : ℕ
newline = 10

abbrev pub keep_char : ℕ → Text → Text
keep_char c [] = if c == newline then [] else c ∷ []
keep_char c (d ∷ s) = c ∷ d ∷ s

-- strings.TrimRight(s, "\n")
unfoldable pub trim_newlines : Text → Text
trim_newlines [] = []
trim_newlines (c ∷ s) = keep_char c (trim_newlines s)

abbrev pub onto_line : ℕ → List Text → List Text
onto_line c [] = (c ∷ []) ∷ []
onto_line c (l ∷ ls) = (c ∷ l) ∷ ls

-- strings.Split(s, "\n")
unfoldable pub split_lines : Text → List Text
split_lines [] = [] ∷ []
split_lines (c ∷ s) =
    let rest = split_lines s in if c == newline then [] ∷ rest else onto_line c rest

-- A line of the answer.
pub record Numbered : Type 0 where
  pub seq : ℤ
  pub text : Text

-- The loop, at the line `i`, with `got` lines in the answer so far.
unfoldable pub tail_loop : ℤ → ℤ → ℕ → ℕ → List Text → List Numbered
tail_loop from limit i got [] = []
tail_loop from limit i got (t ∷ ts) =
    let skipped = tail_loop from limit (i + 1) got ts in
    let rest = tail_loop from limit (i + 1) (got + 1) ts in
    if ltb_ℤ (pos i) from
    then skipped
    else record { seq = pos i; text = t }
      ∷ (if ltb_ℤ (pos 0) limit && leb_ℤ limit (pos (got + 1)) then [] else rest)

-- `out[len(out)-1]["seq"] + 1`, or the number of lines.
unfoldable pub next_line : ℕ → List Numbered → ℤ
next_line n [] = pos n
next_line n (x ∷ []) = inc64 x.seq
next_line n (x ∷ y ∷ ys) = next_line n (y ∷ ys)

-- tailFile, of what os.ReadFile answers.
unfoldable pub tail_file : Option Text → ℤ → ℤ → List Numbered × ℤ
unfolding trim_newlines split_lines tail_loop next_line
tail_file none from limit = ([], from)
tail_file (some content) from limit =
    let all = split_lines (trim_newlines content) in
    let out = tail_loop from limit 0 0 all in (out, next_line (length all) out)
