-- ===== src/Logbuf/Resume.antt =====
-- Two polls of Since of server/internal/logbuf/logbuf.go, one after the other.
use eagle_condor_sandbox.Prelude.{
  ℕ, zero, suc, ◌+◌, ◌-◌, ◌≤◌, List, [], ◌∷◌, ◌++◌, append_assoc, append-nil, ◌≡◌, refl, sym, arith,
  length, drop, take-append-drop, ap, ◌∙◌, length-append, length-drop,
}
use eagle_condor_sandbox.Prelude.Int.{ℤ, pos, negsuc, max_int64}
use eagle_condor_sandbox.Prelude.Text.{Text}
use eagle_condor_sandbox.Logbuf.{Line, Buffer, since}
use eagle_condor_sandbox.Logbuf.Ring.{Holds, numbered, one_line}
use eagle_condor_sandbox.Logbuf.Poll.{start, length-cut-le, since-Holds}
use eagle_condor_sandbox.Logbuf.Pages.{cut, drop-drop}

cut-split : (limit : ℤ) (us : List Text) → (rest : List Text) × (us ≡ cut limit us ++ rest)
cut-split (pos zero) us = ([], sym (append-nil us))
cut-split (pos (suc k)) us = (drop (suc k) us, sym (take-append-drop (suc k) us))
cut-split (negsuc k) us = ([], sym (append-nil us))

numbered-join :
    (n : ℕ) (xs ys : List Text)
    → numbered n (xs ++ ys) ≡ numbered n xs ++ numbered (n + length xs) ys
numbered-join n [] ys = ap (λ m. numbered m ys) {x = n} {y = n + 0} (omega arith)
numbered-join n (x ∷ xs) ys = ap (◌∷◌ (one_line n x)) (
    numbered-join (suc n) xs ys
    ∙ ap (λ m. numbered (suc n) xs ++ numbered m ys) {x = suc n + length xs}
        {y = n + suc (length xs)} (omega arith))

drop-prefix {ℓ} : {A : Type ℓ} (xs ys : List A) → drop (length xs) (xs ++ ys) ≡ ys
drop-prefix [] ys = refl
drop-prefix (x ∷ xs) ys = drop-prefix xs ys

drop-append_le {ℓ} :
    {A : Type ℓ} (k : ℕ) (xs ys : List A) → k ≤ length xs → drop k (xs ++ ys) ≡ drop k xs ++ ys
drop-append_le zero xs ys h = refl
drop-append_le (suc k) [] ys h = absurd (omega arith)
drop-append_le (suc k) (x ∷ xs) ys h = drop-append_le k xs ys (omega arith)

-- A cut after another one, in a list that has grown at its end.
drop-cuts {ℓ} :
    {A : Type ℓ} (s : ℕ) (xs more us old us' later : List A)
    → s ≤ length xs
    → drop s xs ≡ us ++ old
    → drop (s + length us) (xs ++ more) ≡ us' ++ later
    → drop s (xs ++ more) ≡ (us ++ us') ++ later
drop-cuts s xs more us old us' later h e e' =
    left ∙ ap (◌++◌ us) (sym behind ∙ e') ∙ sym (append_assoc us us' later)
  where
    left : drop s (xs ++ more) ≡ us ++ (old ++ more)
    left = drop-append_le s xs more h ∙ ap (λ ts. ts ++ more) e ∙ append_assoc us old more

    behind : drop (s + length us) (xs ++ more) ≡ old ++ more
    behind =
        sym (drop-drop (length us) s (xs ++ more))
        ∙ ap (drop (length us)) left
        ∙ drop-prefix us (old ++ more)

-- What two polls read together: consecutive lines of the history, none left out, none twice.
abbrev pub Reads : ℕ → List Text → List Line → Type 0
Reads s history out =
    (seen : List Text) × (rest : List Text) × (out ≡ numbered s seen)
    × (drop s history ≡ seen ++ rest)

-- A client asks with a number that was already given out, and, after any more lines were
-- appended, again with the number that it was answered. If the ring has not meanwhile dropped
-- lines that it had not read, the two answers are consecutive lines of the history: none is left
-- out between them, and none comes twice. There are fewer than 2^63 lines.
pub since_resumes :
    (history more : List Text) (b b' : Buffer) (f : ℕ) (limit limit' : ℤ)
    → Holds history b
    → Holds (history ++ more) b'
    → f ≤ length history
    → length (history ++ more) ≤ max_int64
    → (let m = start history b f + length (cut limit (drop (start history b f) history)) in
        length (history ++ more) - b'.capacity ≤ m)
    → let (out, next) = since b (pos f) limit in
      Reads (start history b f) (history ++ more) (out ++ (since b' next limit').0)
since_resumes history more b b' f limit limit' h h' le room kept = (
  us ++ us',
  (cut-split limit' (drop m whole)).0,
  rw (first, second) (sym (numbered-join s us us')),
  drop-cuts s history more us (cut-split limit (drop s history)).0 us'
      (cut-split limit' (drop m whole)).0 (omega (arith, h.roomy))
      (cut-split limit (drop s history)).1 (cut-split limit' (drop m whole)).1,
)
  where
    whole : List Text
    whole = history ++ more

    s : ℕ
    s = start history b f

    us : List Text
    us = cut limit (drop s history)

    m : ℕ
    m = s + length us

    us' : List Text
    us' = cut limit' (drop m whole)

    within : m ≤ length history
    within = omega (arith, length-cut-le limit (drop s history), length-drop s history, h.roomy)

    sizes : length whole ≡ length history + length more
    sizes = length-append history more

    first : since b (pos f) limit ≡ (numbered s us, pos m)
    first = since-Holds history b f limit h le (omega (arith, sizes))

    second : (since b' (pos m) limit').0 ≡ numbered m us'
    second =
        ap (λ p. p.0) (since-Holds whole b' m limit' h' (omega (arith, within, sizes)) room)
        ∙ ap (λ k. numbered k (cut limit' (drop k whole))) {x = start whole b' m} {y = m}
            (omega arith)
