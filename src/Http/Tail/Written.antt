-- ===== src/Http/Tail/Written.antt =====
-- tailFile (server/internal/httpapi/handlers.go) reads back the lines that Execute
-- (server/internal/run/exec.go) wrote.
use eagle_condor_sandbox.Prelude.{
  ℕ, ◌≤◌, false, List, [], ◌∷◌, ◌++◌, some, ◌==◌, length, drop, ◌≡◌, ◌≢◌, refl, sym, ap, ◌∙◌, subst,
  All,
}
use eagle_condor_sandbox.Prelude.Int.{ℤ, max_int64}
use eagle_condor_sandbox.Prelude.Text.{Text}
use eagle_condor_sandbox.Http.Tail.{
  newline, keep_char, trim_newlines, onto_line, split_lines, tail_file,
}
use eagle_condor_sandbox.Http.Tail.Lines.{numbered, start, at_most, continues, tail_lines}

-- The file of lines that are each written with a newline behind it.
abbrev pub file_of : List Text → Text
file_of [] = []
file_of (l ∷ ls) = l ++ (newline ∷ file_of ls)

-- No newline within a line.
abbrev pub IsLine : Text → Type 0
IsLine l = All (λ c. (c == newline) ≡ false) l

-- There is a last line, and it is not empty.
abbrev pub EndsFull : List Text → Type 0
EndsFull [] = ⊥
EndsFull (l ∷ []) = l ≢ []
EndsFull (l ∷ m ∷ ms) = EndsFull (m ∷ ms)

keep_char-ne : (c : ℕ) (s : Text) → s ≢ [] → keep_char c s ≡ c ∷ s
keep_char-ne c [] h = absurd (h refl)
keep_char-ne c (d ∷ s) h = refl

keep_char-plain : (c : ℕ) (s : Text) → (c == newline) ≡ false → keep_char c s ≡ c ∷ s
keep_char-plain c [] h = rw h refl
keep_char-plain c (d ∷ s) h = refl

cons_ne : (c : ℕ) (s : Text) → (c ∷ s) ≢ []
cons_ne c s e = cc

append_ne : (p s : Text) → s ≢ [] → (p ++ s) ≢ []
append_ne [] s h = h
append_ne (c ∷ p) s h = cons_ne c (p ++ s)

-- Something that is kept keeps all that stands before it.
trim-append : (p s : Text) → trim_newlines s ≢ [] → trim_newlines (p ++ s) ≡ p ++ trim_newlines s
unfolding trim_newlines
trim-append [] s h = refl
trim-append (c ∷ p) s h =
    ap (keep_char c) (trim-append p s h)
    ∙ keep_char-ne c (p ++ trim_newlines s) (append_ne p (trim_newlines s) h)

trim-line : (l rest : Text) → IsLine l → trim_newlines rest ≡ [] → trim_newlines (l ++ rest) ≡ l
unfolding trim_newlines
trim-line [] rest h e = e
trim-line (c ∷ l) rest (p, h) e = ap (keep_char c) (trim-line l rest h e) ∙ keep_char-plain c l p

only_newline : trim_newlines (newline ∷ []) ≡ []
unfolding trim_newlines
only_newline = refl

-- The lines with a newline between each two.
abbrev spelled : List Text → Text
spelled [] = []
spelled (l ∷ []) = l
spelled (l ∷ m ∷ ms) = l ++ (newline ∷ spelled (m ∷ ms))

spelled-ne : (ls : List Text) → EndsFull ls → spelled ls ≢ []
spelled-ne [] e = absurd e
spelled-ne (l ∷ []) e = e
spelled-ne (l ∷ m ∷ ms) e = append_ne l _ (cons_ne newline (spelled (m ∷ ms)))

trim-newline :
    (s t : Text) → t ≢ [] → trim_newlines s ≡ t → trim_newlines (newline ∷ s) ≡ newline ∷ t
unfolding trim_newlines
trim-newline s t n e = ap (keep_char newline) e ∙ keep_char-ne newline t n

trim-kept : (l s t : Text) → t ≢ [] → trim_newlines s ≡ t → trim_newlines (l ++ s) ≡ l ++ t
trim-kept l s t n e = trim-append l s (λ q. n (sym e ∙ q)) ∙ ap (λ u. l ++ u) e

trim-file : (ls : List Text) → All IsLine ls → EndsFull ls → trim_newlines (file_of ls) ≡ spelled ls
trim-file [] h e = absurd e
trim-file (l ∷ []) (p, h) e = trim-line l (newline ∷ []) p only_newline
trim-file (l ∷ m ∷ ms) (p, h) e =
    trim-kept l (newline ∷ file_of (m ∷ ms)) (newline ∷ spelled (m ∷ ms))
      (cons_ne newline (spelled (m ∷ ms)))
      (trim-newline (file_of (m ∷ ms)) (spelled (m ∷ ms)) (spelled-ne (m ∷ ms) e)
        (trim-file (m ∷ ms) h e))

split-line : (l : Text) → IsLine l → split_lines l ≡ l ∷ []
unfolding split_lines
split-line [] h = refl
split-line (c ∷ l) (p, h) = rw p (ap (onto_line c) (split-line l h))

split-append : (l s : Text) → IsLine l → split_lines (l ++ (newline ∷ s)) ≡ l ∷ split_lines s
unfolding split_lines
split-append [] s h = refl
split-append (c ∷ l) s (p, h) = rw p (ap (onto_line c) (split-append l s h))

split-spelled : (ls : List Text) → ls ≢ [] → All IsLine ls → split_lines (spelled ls) ≡ ls
split-spelled [] n h = absurd (n refl)
split-spelled (l ∷ []) n (p, h) = split-line l p
split-spelled (l ∷ m ∷ ms) n (p, h) =
    split-append l (spelled (m ∷ ms)) p ∙ ap (◌∷◌ l) (split-spelled (m ∷ ms) (λ e. cc) h)

ends_ne : (ls : List Text) → EndsFull ls → ls ≢ []
ends_ne [] e q = absurd e
ends_ne (l ∷ ls) e q = absurd (cc)

-- tailFile reads back what was written line by line, if no line holds a newline, there is a last
-- line that is not empty, and there are fewer than 2^63 lines: a poll answers the lines from the
-- number it asks for, each under its number, as many as a positive limit allows or all, and the
-- number behind the last of them; if there are none it answers the number of lines. A negative
-- number is the first line.
pub tail_file_lem :
    (ls : List Text) (from limit : ℤ)
    → All IsLine ls
    → EndsFull ls
    → length ls ≤ max_int64
    → let page = at_most limit (drop (start from) ls) in
      tail_file (some (file_of ls)) from limit
      ≡ (numbered (start from) page, continues (length ls) (start from) page)
tail_file_lem ls from limit h e n = subst Read lines (λ k. tail_lines (file_of ls) from limit k) n
  where
    Read : List Text → Type 0
    Read all =
        length all ≤ max_int64
        → tail_file (some (file_of ls)) from limit ≡ (
          numbered (start from) (at_most limit (drop (start from) all)),
          continues (length all) (start from) (at_most limit (drop (start from) all)),
        )

    lines : split_lines (trim_newlines (file_of ls)) ≡ ls
    lines = ap split_lines (trim-file ls h e) ∙ split-spelled ls (ends_ne ls e) h
