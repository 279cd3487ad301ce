-- ===== src/Logbuf/Poll.antt =====
-- Since of server/internal/logbuf/logbuf.go against the history of the lines appended: what a client
-- that polls with the number of the previous answer reads.
use native.Mathlib.Nat.{zero-add}
use Prim.Native.Nat.{max}
use eagle_condor_sandbox.Prelude.{
  ℕ, zero, suc, ◌+◌, ◌-◌, ◌≤◌, ◌<◌, List, [], ◌∷◌, none, ◌≡◌, refl, sym, arith, length, drop, ap,
  ◌∙◌, length-take, length-drop, ltb, inl, inr, Bool-cases,
}
use eagle_condor_sandbox.Prelude.Int.{ℤ, pos, negsuc, max_int64}
use eagle_condor_sandbox.Prelude.Text.{Text}
use eagle_condor_sandbox.Logbuf.{Buffer, collect, last_line, next_after, since}
use eagle_condor_sandbox.Logbuf.Ring.{Holds, numbered, length-numbered, inc64-pos}
use eagle_condor_sandbox.Logbuf.Pages.{
  cut, drop-numbered, stale_test, fresh_test, collect-skip, collect-cut, cut-numbered, drop-drop,
}

-- The first line that a poll from `f` can still be given.
abbrev pub start : List Text → Buffer → ℕ → ℕ
start history b f = max f (length history - b.capacity)

kept-numbered :
    (history : List Text) (b : Buffer)
    → Holds history b
    → let d = length history - b.capacity in b.lines ≡ numbered d (drop d history)
kept-numbered history b h =
    h.kept
    ∙ ap (λ m. drop (m - b.capacity) (numbered 0 history)) (length-numbered 0 history)
    ∙ drop-numbered d 0 history (omega arith)
    ∙ ap (λ m. numbered m (drop d history)) (zero-add d)
  where
    d : ℕ
    d = length history - b.capacity

since-out :
    (history : List Text) (b : Buffer) (f : ℕ) (limit : ℤ)
    → Holds history b
    → let s = start history b f in
      collect (pos f) limit [] b.lines ≡ numbered s (cut limit (drop s history))
since-out history b f limit h = elim (Bool-cases (ltb d f)) [
  | inl e ↦
      ap (collect (pos f) limit []) (kept-numbered history b h)
      ∙ collect-skip (f - d) f d limit [] (drop d history) (ground arith)
      ∙ collect-cut f f limit (drop (f - d) (drop d history)) (omega arith)
      ∙ cut-numbered limit f (drop (f - d) (drop d history))
      ∙ ap (λ ts. numbered f (cut limit ts)) (drop-drop (f - d) d history)
      ∙ ap (λ m. numbered f (cut limit (drop m history))) {x = d + (f - d)} {y = f} (ground arith)
      ∙ ap (λ m. numbered m (cut limit (drop m history))) {x = f} {y = max f d} (ground arith)
  | inr e ↦
      ap (collect (pos f) limit []) (kept-numbered history b h)
      ∙ collect-cut f d limit (drop d history) (ground arith)
      ∙ cut-numbered limit d (drop d history)
      ∙ ap (λ m. numbered m (cut limit (drop m history))) {x = d} {y = max f d} (ground arith)
]
  where
    d : ℕ
    d = length history - b.capacity

next-numbered :
    (b : Buffer) (f s : ℕ) (us : List Text)
    → (us ≡ [] → next_after b (pos f) none ≡ pos s)
    → s + length us ≤ max_int64
    → next_after b (pos f) (last_line (numbered s us)) ≡ pos (s + length us)
next-numbered b f s [] h room = h refl ∙ ap pos (omega arith)
next-numbered b f s (u ∷ []) h room = inc64-pos s (omega arith) ∙ ap pos (omega arith)
next-numbered b f s (u ∷ v ∷ us) h room =
    next-numbered b f (suc s) (v ∷ us) (λ e. absurd (cc)) (omega arith) ∙ ap pos (omega arith)

pub length-cut-le : (limit : ℤ) (us : List Text) → length (cut limit us) ≤ length us
length-cut-le (pos zero) us = omega arith
length-cut-le (pos (suc k)) us = omega (arith, length-take (suc k) us)
length-cut-le (negsuc k) us = omega arith

cut-nil : (limit : ℤ) (us : List Text) → cut limit us ≡ [] → us ≡ []
cut-nil (pos zero) us e = e
cut-nil (pos (suc k)) [] e = refl
cut-nil (pos (suc k)) (u ∷ us) e = absurd (cc)
cut-nil (negsuc k) us e = e

wait_here :
    (b : Buffer) (f l s : ℕ)
    → b.next_seq ≡ pos l
    → f ≤ l
    → s ≡ f
    → next_after b (pos f) none ≡ pos s
wait_here b f l s next le e = rw (next, fresh_test l f le) (ap pos (sym e))

send_back : (b : Buffer) (f l : ℕ) → b.next_seq ≡ pos l → l < f → next_after b (pos f) none ≡ pos l
send_back b f l next lt = rw (next, stale_test l f lt)

drop-beyond {ℓ} : {A : Type ℓ} (k : ℕ) (xs : List A) → length xs ≤ k → drop k xs ≡ []
drop-beyond zero [] h = refl
drop-beyond zero (x ∷ xs) h = absurd (omega arith)
drop-beyond (suc k) [] h = refl
drop-beyond (suc k) (x ∷ xs) h = drop-beyond k xs (omega arith)

cut-of_nil {ℓ} : {A : Type ℓ} (limit : ℤ) → cut {A = A} limit [] ≡ []
cut-of_nil (pos zero) = refl
cut-of_nil (pos (suc k)) = refl
cut-of_nil (negsuc k) = refl

-- A poll of a ring that holds a history of fewer than 2^63 lines, from a number that was already
-- given out, answers exactly the lines from there on that are still kept, up to the limit if it
-- is positive, and the number that follows the last of them.
pub since-Holds :
    (history : List Text) (b : Buffer) (f : ℕ) (limit : ℤ)
    → Holds history b
    → f ≤ length history
    → length history ≤ max_int64
    → let s = start history b f in
      let us = cut limit (drop s history) in
      since b (pos f) limit ≡ (numbered s us, pos (s + length us))
unfolding since
since-Holds history b f limit h le room =
    ap (λ out. (out, next_after b (pos f) (last_line out))) (since-out history b f limit h)
    ∙ ap (λ n. (numbered s us, n)) (next-numbered b f s us idle small)
  where
    s : ℕ
    s = start history b f

    us : List Text
    us = cut limit (drop s history)

    small : s + length us ≤ max_int64
    small = omega (arith, length-cut-le limit (drop s history), length-drop s history, h.roomy)

    empty : us ≡ [] → length history - s ≡ 0
    empty e = omega (arith, length-drop s history, ap length (cut-nil limit (drop s history) e))

    idle : us ≡ [] → next_after b (pos f) none ≡ pos s
    idle e = wait_here b f (length history) s h.next le (omega (arith, empty e, h.roomy))

-- A poll of a ring that holds a history, from beyond its last line, answers nothing and sends
-- the client back to the next line.
pub since_ahead :
    (history : List Text) (b : Buffer) (f : ℕ) (limit : ℤ)
    → Holds history b
    → length history < f
    → since b (pos f) limit ≡ ([], pos (length history))
unfolding since
since_ahead history b f limit h lt =
    ap (λ out. (out, next_after b (pos f) (last_line out))) none_left
    ∙ ap (λ n. ([], n)) (send_back b f (length history) h.next lt)
  where
    none_left : collect (pos f) limit [] b.lines ≡ []
    none_left =
        since-out history b f limit h
        ∙ ap (λ ts. numbered (start history b f) (cut limit ts))
            (drop-beyond (start history b f) history (omega arith))
        ∙ ap (numbered (start history b f)) (cut-of_nil limit)
