-- ===== src/Logbuf/Ring.antt =====
-- The ring of server/internal/logbuf/logbuf.go against a plain history of the lines appended.
use native.Mathlib.Nat.{zero-add}
use eagle_condor_sandbox.Prelude.{
  ℕ, zero, suc, ◌+◌, ◌-◌, ◌≤◌, ◌<◌, false, List, [], ◌∷◌, ◌++◌, ◌≡◌, refl, arith, length, drop, ap,
  sym, ◌∙◌, length-append, length-drop, ==_iff, ◌==◌, Bool-cases, inl, inr, if◌then◌else◌,
}
use eagle_condor_sandbox.Prelude.Int.{ℤ, pos, negsuc, inc64, max_int64}
use eagle_condor_sandbox.Prelude.Text.{Text}
use eagle_condor_sandbox.Logbuf.Ansi.{strip_ansi}
use eagle_condor_sandbox.Logbuf.{Line, Chan, Buffer, new, shift_in, record_line}

-- The lines of a log that begins at `n`, numbered.
abbrev pub numbered : ℕ → List Text → List Line
numbered n [] = []
numbered n (t ∷ ts) = record { seq = pos n; text = strip_ansi t } ∷ numbered (suc n) ts

-- The last `c` elements.
abbrev pub last {ℓ} : {A : Type ℓ} → ℕ → List A → List A
last c xs = drop (length xs - c) xs

-- The buffer holds the last lines of a history, as many as it has room for, and numbers the next
-- line by the history's length.
pub record Holds (history : List Text) (b : Buffer) : Type 0 where
  pub kept : b.lines ≡ last b.capacity (numbered 0 history)
  pub next : b.next_seq ≡ pos (length history)
  pub roomy : 0 < b.capacity

abbrev pub one_line : ℕ → Text → Line
one_line n t = record { seq = pos n; text = strip_ansi t }

numbered-append :
    (n : ℕ) (xs : List Text) (t : Text)
    → numbered n (xs ++ t ∷ []) ≡ numbered n xs ++ one_line (n + length xs) t ∷ []
numbered-append n [] t = ground arith
numbered-append n (x ∷ xs) t = ap (◌∷◌ (one_line n x)) (
    numbered-append (suc n) xs t
    ∙ ap (λ k. numbered (suc n) xs ++ one_line k t ∷ []) {x = suc n + length xs}
        {y = n + suc (length xs)} (omega arith))

pub length-numbered : (n : ℕ) (xs : List Text) → length (numbered n xs) ≡ length xs
length-numbered n [] = refl
length-numbered n (x ∷ xs) = ap suc (length-numbered (suc n) xs)

drop-append {ℓ} :
    {A : Type ℓ} (k : ℕ) (xs : List A) (x : A)
    → k ≤ length xs
    → drop k (xs ++ x ∷ []) ≡ drop k xs ++ x ∷ []
drop-append zero xs x h = refl
drop-append (suc k) [] x h = absurd (omega arith)
drop-append (suc k) (y ∷ xs) x h = drop-append k xs x (omega arith)

shift_in-drop :
    (k : ℕ) (xs : List Line) (x : Line)
    → k < length xs
    → shift_in (drop k xs) x ≡ drop (suc k) xs ++ x ∷ []
shift_in-drop zero [] x h = absurd (omega arith)
shift_in-drop zero (y ∷ xs) x h = refl
shift_in-drop (suc k) [] x h = absurd (omega arith)
shift_in-drop (suc k) (y ∷ xs) x h = shift_in-drop k xs x (omega arith)

push_full :
    (c : ℕ) (xs : List Line) (x : Line)
    → 0 < c
    → c ≤ length xs
    → shift_in (last c xs) x ≡ last c (xs ++ x ∷ [])
push_full c xs x h full =
    shift_in-drop (length xs - c) xs x (omega arith)
    ∙ sym (drop-append (suc (length xs - c)) xs x (omega arith))
    ∙ ap (λ k. drop k (xs ++ x ∷ [])) {x = suc (length xs - c)} {y = length (xs ++ x ∷ []) - c}
        (omega (arith, length-append xs (x ∷ [])))

last-all {ℓ} : {A : Type ℓ} (c : ℕ) (xs : List A) → length xs ≤ c → last c xs ≡ xs
last-all c xs h = ap (λ k. drop k xs) {x = length xs - c} {y = 0} (omega arith)

push_short :
    (c : ℕ) (xs : List Line) (x : Line)
    → length xs < c
    → last c xs ++ x ∷ [] ≡ last c (xs ++ x ∷ [])
push_short c xs x h =
    ap (λ ys. ys ++ x ∷ []) (last-all c xs (omega arith))
    ∙ sym (last-all c (xs ++ x ∷ []) (omega (arith, length-append xs (x ∷ []))))

-- One step of the ring, over any list.
push_last :
    (c : ℕ) (xs : List Line) (x : Line)
    → 0 < c
    → (if length (last c xs) == c then shift_in (last c xs) x else last c xs ++ x ∷ [])
      ≡ last c (xs ++ x ∷ [])
push_last c xs x h = elim (Bool-cases (length (last c xs) == c)) [
  | inl e ↦ rw e (
      push_full c xs x h
        (omega (arith, (==_iff (length (last c xs)) c).0 e, length-drop (length xs - c) xs)))
  | inr e ↦ rw e (push_short c xs x (short e))
]
  where
    short : (length (last c xs) == c) ≡ false → length xs < c
    short e = ground (arith, length-drop (length xs - c) xs)

kept_step :
    (history : List Text) (lines : List Line) (c : ℕ) (n : ℤ) (t : Text)
    → 0 < c
    → lines ≡ last c (numbered 0 history)
    → n ≡ pos (length history)
    → let ln : Line = record { seq = n; text = strip_ansi t } in
      (if length lines == c then shift_in lines ln else lines ++ ln ∷ [])
      ≡ last c (numbered 0 (history ++ t ∷ []))
kept_step history lines c n t h kept next =
    rw (kept, next, numbered-append 0 history t, zero-add)
      (push_last c (numbered 0 history) (one_line (length history) t) h)

pub inc64-pos : (n : ℕ) → n < max_int64 → inc64 (pos n) ≡ pos (n + 1)
inc64-pos n h = ground arith

-- The locked part of Append on an open buffer: a ring that holds a history of fewer than 2^63 - 1 lines holds
-- afterwards the history with the new line behind it, which carries the length of the history as
-- its number.
pub record_line-Holds :
    (history : List Text) (b : Buffer) (t : Text)
    → Holds history b
    → length history < max_int64
    → Holds (history ++ t ∷ []) (record_line b t).0
unfolding record_line
record_line-Holds history b t h room = record {
  kept = kept_step history b.lines b.capacity b.next_seq t h.roomy h.kept h.next;
  next =
      ap inc64 h.next
      ∙ inc64-pos (length history) room
      ∙ ap pos (omega (arith, length-append history (t ∷ [])));
  roomy = h.roomy;
}

-- The channels play no part in what the ring holds.
pub Holds-chans :
    (history : List Text) (b : Buffer) (chans : List Chan)
    → Holds history b
    → Holds history (record b { chans = chans })
Holds-chans history b chans h = record { kept = h.kept; next = h.next; roomy = h.roomy }

pub drop-nil {ℓ} : {A : Type ℓ} (k : ℕ) → drop {A = A} k [] ≡ []
drop-nil zero = refl
drop-nil (suc k) = refl

-- A new buffer holds the empty history.
pub new-Holds : (capacity : ℤ) → Holds [] (new capacity)
unfolding new
new-Holds (pos zero) = record { kept = refl; next = refl; roomy = omega arith }
new-Holds (pos (suc n)) = record {
  kept = sym (drop-nil (0 - suc n));
  next = refl;
  roomy = omega arith;
}
new-Holds (negsuc n) = record { kept = refl; next = refl; roomy = omega arith }
