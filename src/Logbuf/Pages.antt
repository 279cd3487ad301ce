-- ===== src/Logbuf/Pages.antt =====
-- What Since of server/internal/logbuf/logbuf.go collects from lines that are numbered.
use eagle_condor_sandbox.Prelude.{
  ℕ, zero, suc, ◌+◌, ◌≤◌, ◌<◌, true, false, List, [], ◌∷◌, ◌++◌, append_assoc, append-nil, ◌≡◌,
  ◌&&◌, refl, sym, arith, length, take, drop, ap, ◌∙◌, length-append,
}
use eagle_condor_sandbox.Prelude.Int.{ℤ, pos, negsuc, ltb_ℤ, eq_ℤ}
use eagle_condor_sandbox.Prelude.Text.{Text}
use eagle_condor_sandbox.Logbuf.{Line, collect}
use eagle_condor_sandbox.Logbuf.Ring.{numbered, one_line, drop-nil}

-- A limit that is not positive is none.
abbrev pub cut {ℓ} : {A : Type ℓ} → ℤ → List A → List A
cut (pos zero) xs = xs
cut (pos (suc k)) xs = take (suc k) xs
cut (negsuc k) xs = xs

pub drop-numbered :
    (k n : ℕ) (ts : List Text)
    → k ≤ length ts
    → drop k (numbered n ts) ≡ numbered (n + k) (drop k ts)
drop-numbered zero n ts h = ap (λ m. numbered m ts) {x = n} {y = n + 0} (omega arith)
drop-numbered (suc k) n [] h = absurd (omega arith)
drop-numbered (suc k) n (t ∷ ts) h =
    drop-numbered k (suc n) ts (omega arith)
    ∙ ap (λ m. numbered m (drop k ts)) {x = suc n + k} {y = n + suc k} (omega arith)

take-numbered : (k n : ℕ) (ts : List Text) → take k (numbered n ts) ≡ numbered n (take k ts)
take-numbered zero n ts = refl
take-numbered (suc k) n [] = refl
take-numbered (suc k) n (t ∷ ts) = ap (◌∷◌ (one_line n t)) (take-numbered k (suc n) ts)

pub stale_test : (n f : ℕ) → n < f → ltb_ℤ (pos n) (pos f) ≡ true
stale_test n f h = ground arith

pub fresh_test : (n f : ℕ) → f ≤ n → ltb_ℤ (pos n) (pos f) ≡ false
fresh_test n f h = ground arith

-- The loop passes over what is too old.
pub collect-skip :
    (k f n : ℕ) (limit : ℤ) (out : List Line) (ts : List Text)
    → f ≡ n + k
    → collect (pos f) limit out (numbered n ts) ≡ collect (pos f) limit out (numbered f (drop k ts))
unfolding collect
collect-skip zero f n limit out ts e =
    ap (λ m. collect (pos f) limit out (numbered m ts)) {x = n} {y = f} (omega arith)
collect-skip (suc k) f n limit out [] e = refl
collect-skip (suc k) f n limit out (t ∷ ts) e =
    rw (stale_test n f (omega arith), collect) (collect-skip k f (suc n) limit out ts (omega arith))

collect-unlimited :
    (f n : ℕ) (limit : ℤ) (out : List Line) (ts : List Text)
    → f ≤ n
    → ltb_ℤ (pos 0) limit ≡ false
    → collect (pos f) limit out (numbered n ts) ≡ out ++ numbered n ts
unfolding collect
collect-unlimited f n limit out [] h l = sym (append-nil out)
collect-unlimited f n limit out (t ∷ ts) h l =
    rw (l, fresh_test n f h)
      (collect-unlimited f (suc n) limit (out ++ one_line n t ∷ []) ts (omega arith) l
        ∙ append_assoc out (one_line n t ∷ []) (numbered (suc n) ts))

full_test :
    (l : ℕ) (out : List Line)
    → (l ≡ length out) × (0 < l)
    → ltb_ℤ (pos 0) (pos l) && eq_ℤ (pos (length out)) (pos l) ≡ true
full_test l out h = ground arith

short_test :
    (l : ℕ) (out : List Line)
    → length out < l
    → ltb_ℤ (pos 0) (pos l) && eq_ℤ (pos (length out)) (pos l) ≡ false
short_test l out h = ground arith

collect-limited :
    (f n k l : ℕ) (out : List Line) (ts : List Text)
    → f ≤ n
    → l ≡ length out + suc k
    → collect (pos f) (pos l) out (numbered n ts) ≡ out ++ take (suc k) (numbered n ts)
unfolding collect
collect-limited f n k l out [] h e = sym (append-nil out)
collect-limited f n zero l out (t ∷ ts) h e = rw (
  fresh_test n f h,
  full_test l (out ++ one_line n t ∷ []) (omega (arith, length-append out (one_line n t ∷ []))),
)
collect-limited f n (suc k) l out (t ∷ ts) h e =
    rw
      (
        fresh_test n f h,
        short_test l (out ++ one_line n t ∷ [])
            (omega (arith, length-append out (one_line n t ∷ []))),
      )
      (collect-limited f (suc n) k l (out ++ one_line n t ∷ []) ts (omega arith)
          (omega (arith, length-append out (one_line n t ∷ [])))
        ∙ append_assoc out (one_line n t ∷ []) (take (suc k) (numbered (suc n) ts)))

pub collect-cut :
    (f n : ℕ) (limit : ℤ) (ts : List Text)
    → f ≤ n
    → collect (pos f) limit [] (numbered n ts) ≡ cut limit (numbered n ts)
collect-cut f n (pos zero) ts h = collect-unlimited f n (pos zero) [] ts h refl
collect-cut f n (pos (suc k)) ts h = collect-limited f n k (suc k) [] ts h (omega arith)
collect-cut f n (negsuc k) ts h = collect-unlimited f n (negsuc k) [] ts h (ground arith)

pub cut-numbered :
    (limit : ℤ) (n : ℕ) (ts : List Text) → cut limit (numbered n ts) ≡ numbered n (cut limit ts)
cut-numbered (pos zero) n ts = refl
cut-numbered (pos (suc k)) n ts = take-numbered (suc k) n ts
cut-numbered (negsuc k) n ts = refl

pub drop-drop {ℓ} : {A : Type ℓ} (k d : ℕ) (xs : List A) → drop k (drop d xs) ≡ drop (d + k) xs
drop-drop k zero xs = ap (λ m. drop m xs) {x = k} {y = 0 + k} (omega arith)
drop-drop k (suc d) [] =
    drop-nil k ∙ sym (ap (λ m. drop m []) {x = suc d + k} {y = suc (d + k)} (omega arith))
drop-drop k (suc d) (x ∷ xs) =
    drop-drop k d xs ∙ ap (λ m. drop m (x ∷ xs)) {x = suc (d + k)} {y = suc d + k} (omega arith)
