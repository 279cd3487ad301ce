-- ===== src/Logbuf/Ansi/Sequences.antt =====
-- What StripANSI (server/internal/logbuf/logbuf.go) takes out of a line, and what it leaves.
use eagle_condor_sandbox.Prelude.{
  ℕ, suc, ◌+◌, true, false, List, [], ◌∷◌, ◌++◌, some, ◌≡◌, ◌≢◌, refl, arith, length, All-map,
  append_assoc, ==_iff, ap, ◌∙◌, length-append,
}
use eagle_condor_sandbox.Prelude.{All}
use eagle_condor_sandbox.Prelude.Text.{Text}
use eagle_condor_sandbox.Logbuf.Ansi.{
  esc, cr, is_param, is_intermediate, is_final, match_tail, match_body, match_csi, erase_csi,
  erase_cr, strip_ansi,
}

-- One visible byte, or one control sequence: ESC [ parameters intermediates final.
pub data Piece : Type 0 where
  plain : ℕ → Piece
  csi : Text → Text → ℕ → Piece

abbrev pub IsPiece : Piece → Type 0
IsPiece (plain c) = c ≢ esc
IsPiece (csi ps is f) =
    All (λ c. is_param c ≡ true) ps × All (λ c. is_intermediate c ≡ true) is × (is_final f ≡ true)

abbrev pub body : Text → Text → ℕ → Text
body ps is f = ps ++ (is ++ f ∷ [])

abbrev pub written : List Piece → Text
written [] = []
written (plain c ∷ r) = c ∷ written r
written (csi ps is f ∷ r) = esc ∷ b'[' ∷ (ps ++ (is ++ f ∷ written r))

abbrev pub visible : List Piece → Text
visible [] = []
visible (plain c ∷ r) = c ∷ visible r
visible (csi ps is f ∷ r) = visible r

match_tail-final : (f : ℕ) (r : Text) → is_final f ≡ true → match_tail (f ∷ r) ≡ some 1
unfolding match_tail
match_tail-final f r h = ground arith

match_tail-counts :
    (is : Text) (f : ℕ) (r : Text)
    → All (λ c. is_intermediate c ≡ true) is
    → is_final f ≡ true
    → match_tail (is ++ f ∷ r) ≡ some (length is + 1)
unfolding match_tail
match_tail-counts [] f r hi hf = ground arith
match_tail-counts (c ∷ is) f r (h, hi) hf = rw (h, match_tail-counts is f r hi hf) (ground arith)

param_not_later : (c : ℕ) → is_param c ≡ true → (is_intermediate c ≡ false)
unfolding is_param is_intermediate
param_not_later c h = ground arith

intermediate_not_param : (c : ℕ) → is_intermediate c ≡ true → is_param c ≡ false
unfolding is_param is_intermediate
intermediate_not_param c h = ground arith

final_not_param : (c : ℕ) → is_final c ≡ true → is_param c ≡ false
unfolding is_param is_final
final_not_param c h = ground arith

match_body-tail :
    (is : Text) (f : ℕ) (r : Text)
    → All (λ c. is_intermediate c ≡ true) is
    → is_final f ≡ true
    → match_body (is ++ f ∷ r) ≡ match_tail (is ++ f ∷ r)
unfolding match_body
match_body-tail [] f r hi hf = rw (final_not_param f hf)
match_body-tail (c ∷ is) f r (h, hi) hf = rw (intermediate_not_param c h)

-- The match takes the whole sequence, however long its parts are.
match_body-all :
    (ps is : Text) (f : ℕ) (r : Text)
    → IsPiece (csi ps is f)
    → match_body (ps ++ (is ++ f ∷ r)) ≡ some (length ps + (length is + 1))
unfolding match_body
match_body-all [] is f r (hp, hi, hf) =
    match_body-tail is f r hi hf ∙ match_tail-counts is f r hi hf ∙ ground arith
match_body-all (c ∷ ps) is f r ((h, hp), hi, hf) =
    rw (h, match_body-all ps is f r (hp, hi, hf)) (ground arith)

pub match_csi-counts :
    (ps is : Text) (f : ℕ) (r : Text)
    → IsPiece (csi ps is f)
    → match_csi (esc ∷ b'[' ∷ (ps ++ (is ++ f ∷ r))) ≡ some (length ps + (length is + 1) + 2)
unfolding match_csi
match_csi-counts ps is f r h = rw (match_body-all ps is f r h)

erase_csi-skip : (s r : Text) → erase_csi (length s) (s ++ r) ≡ erase_csi 0 r
unfolding erase_csi
erase_csi-skip [] r = refl
erase_csi-skip (c ∷ s) r = erase_csi-skip s r

erase_csi-plain : (c : ℕ) (r : Text) → c ≢ esc → erase_csi 0 (c ∷ r) ≡ c ∷ erase_csi 0 r
unfolding erase_csi
erase_csi-plain c [] h = refl
erase_csi-plain c (d ∷ r) h = ground (arith, ==_iff c esc)

erase_csi-match :
    (c : ℕ) (r : Text) (n : ℕ)
    → match_csi (c ∷ r) ≡ some (suc n)
    → erase_csi 0 (c ∷ r) ≡ erase_csi n r
unfolding erase_csi
erase_csi-match c r n e = rw (e, erase_csi)

length-body : (ps is : Text) (f : ℕ) → length (body ps is f) ≡ length ps + (length is + 1)
length-body ps is f = omega (arith, length-append ps (is ++ f ∷ []), length-append is (f ∷ []))

erase_csi-csi :
    (ps is : Text) (f : ℕ) (r : Text)
    → IsPiece (csi ps is f)
    → erase_csi 0 (esc ∷ b'[' ∷ (ps ++ (is ++ f ∷ r))) ≡ erase_csi 0 r
erase_csi-csi ps is f r h =
    erase_csi-match esc (b'[' ∷ (ps ++ (is ++ f ∷ r))) (length (b'[' ∷ body ps is f))
      (match_csi-counts ps is f r h ∙ ap some (omega (arith, length-body ps is f)))
    ∙ ap (erase_csi (length (b'[' ∷ body ps is f))) whole
    ∙ erase_csi-skip (b'[' ∷ body ps is f) r
  where
    whole : b'[' ∷ (ps ++ (is ++ f ∷ r)) ≡ (b'[' ∷ body ps is f) ++ r
    whole = simp append_assoc

erase_csi-written : (xs : List Piece) → All IsPiece xs → erase_csi 0 (written xs) ≡ visible xs
unfolding erase_csi
erase_csi-written [] h = refl
erase_csi-written (plain c ∷ r) (h, hr) =
    erase_csi-plain c (written r) h ∙ ap (◌∷◌ c) (erase_csi-written r hr)
erase_csi-written (csi ps is f ∷ r) (h, hr) =
    erase_csi-csi ps is f (written r) h ∙ erase_csi-written r hr

-- A line made of bytes other than ESC and of complete control sequences, in any order, keeps
-- exactly the former, less its carriage returns.
pub strip_ansi-written :
    (xs : List Piece) → All IsPiece xs → strip_ansi (written xs) ≡ erase_cr (visible xs)
unfolding strip_ansi
strip_ansi-written xs h = ap erase_cr (erase_csi-written xs h)

erase_csi-no_esc : (s : Text) → All (λ c. c ≢ esc) s → erase_csi 0 s ≡ s
erase_csi-no_esc [] h = unfold erase_csi in refl
erase_csi-no_esc (c ∷ s) (h, hs) = erase_csi-plain c s h ∙ ap (◌∷◌ c) (erase_csi-no_esc s hs)

erase_cr-none : (s : Text) → All (λ c. c ≢ cr) s → erase_cr s ≡ s
unfolding erase_cr
erase_cr-none [] h = refl
erase_cr-none (c ∷ s) (h, hs) = ground (arith, ==_iff c cr, erase_cr-none s hs)

erase_csi-broken : (s : Text) → erase_csi 0 (esc ∷ cr ∷ s) ≡ esc ∷ erase_csi 0 (cr ∷ s)
unfolding erase_csi match_csi
erase_csi-broken s = refl

erase_cr-broken : (s : Text) → erase_cr (esc ∷ cr ∷ s) ≡ esc ∷ erase_cr s
unfolding erase_cr
erase_cr-broken s = refl

-- A carriage return between the ESC and the bracket of a control sequence that has no other ESC
-- or carriage return hides it: the two passes leave the whole sequence, which the expression
-- matches, in the line.
pub strip_ansi_leaves_csi :
    (ps is : Text) (f : ℕ)
    → IsPiece (csi ps is f)
    → All (λ c. (c ≢ esc) × (c ≢ cr)) (body ps is f)
    → (strip_ansi (esc ∷ cr ∷ b'[' ∷ body ps is f) ≡ esc ∷ b'[' ∷ body ps is f)
      × (match_csi (esc ∷ b'[' ∷ body ps is f) ≡ some (length (esc ∷ b'[' ∷ body ps is f)))
unfolding strip_ansi
strip_ansi_leaves_csi ps is f h hb = (
  ap erase_cr (erase_csi-broken (b'[' ∷ body ps is f) ∙ ap (◌∷◌ esc) kept)
      ∙ erase_cr-broken (b'[' ∷ body ps is f)
      ∙ ap (◌∷◌ esc) (erase_cr-none (b'[' ∷ body ps is f) (omega arith, All-map (λ c p. p.1) _ hb)),
  match_csi-counts ps is f [] h ∙ ap some (omega (arith, length-body ps is f)),
)
  where
    kept : erase_csi 0 (cr ∷ b'[' ∷ body ps is f) ≡ cr ∷ b'[' ∷ body ps is f
    kept =
        erase_csi-no_esc (cr ∷ b'[' ∷ body ps is f)
          (omega arith, (omega arith, All-map (λ c p. p.0) _ hb))
