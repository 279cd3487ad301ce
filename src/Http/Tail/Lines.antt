-- ===== src/Http/Tail/Lines.antt =====
-- What tailFile (server/internal/httpapi/handlers.go) answers.
use eagle_condor_sandbox.Prelude.{
  ℕ, zero, suc, ◌+◌, ◌≤◌, ◌<◌, Bool, true, false, ◌&&◌, List, [], ◌∷◌, some, if◌then◌else◌, length,
  length-take, take, drop, ◌⊎◌, ◌≡◌, refl, ap, ◌∙◌, arith, inl, inr,
}
use eagle_condor_sandbox.Prelude.Int.{ℤ, pos, negsuc, ltb_ℤ, leb_ℤ, max_int64}
use eagle_condor_sandbox.Prelude.Text.{Text}
use eagle_condor_sandbox.Http.Tail.{
  trim_newlines, split_lines, Numbered, tail_loop, next_line, tail_file,
}

-- The lines from the number `k` on.
abbrev pub numbered : ℕ → List Text → List Numbered
numbered k [] = []
numbered k (t ∷ ts) = record { seq = pos k; text = t } ∷ numbered (k + 1) ts

-- Where a poll starts: a negative number is the first line.
abbrev pub start : ℤ → ℕ
start (pos n) = n
start (negsuc n) = 0

-- A limit that is positive keeps that many lines, and any other limit keeps all.
abbrev pub at_most : ℤ → List Text → List Text
at_most (pos (suc n)) ts = take (suc n) ts
at_most (pos zero) ts = ts
at_most (negsuc n) ts = ts

abbrev is_full : ℤ → ℕ → Bool
is_full limit got = ltb_ℤ (pos 0) limit && leb_ℤ limit (pos (got + 1))

abbrev line : ℕ → Text → Numbered
line i t = record { seq = pos i; text = t }

reached : (from : ℤ) (i : ℕ) → start from ≤ i → ltb_ℤ (pos i) from ≡ false
reached (pos n) i h = ground arith
reached (negsuc n) i h = ground arith

tail_loop-take :
    (from limit : ℤ) (i got : ℕ) (t : Text) (ts : List Text)
    → start from ≤ i
    → tail_loop from limit i got (t ∷ ts)
      ≡ line i t ∷ (if is_full limit got then [] else tail_loop from limit (i + 1) (got + 1) ts)
unfolding tail_loop
tail_loop-take from limit i got t ts h = rw (reached from i h) refl

tail_loop-skip :
    (from limit : ℤ) (i got : ℕ) (t : Text) (ts : List Text)
    → i < start from
    → tail_loop from limit i got (t ∷ ts) ≡ tail_loop from limit (i + 1) got ts
unfolding tail_loop
tail_loop-skip (pos n) limit i got t ts h = rw (before) refl
  where
    before : ltb_ℤ (pos i) (pos n) ≡ true
    before = ground arith
tail_loop-skip (negsuc n) limit i got t ts h = absurd (omega arith)

abbrev on_step : ℕ → Text → Bool → List Numbered → List Numbered
on_step i t b rest = line i t ∷ (if b then [] else rest)

-- A limit that does not count.
tail_loop-all :
    (from limit : ℤ) (i got : ℕ) (ts : List Text)
    → start from ≤ i
    → ((k : ℕ) → is_full limit k ≡ false)
    → tail_loop from limit i got ts ≡ numbered i ts
tail_loop-all from limit i got [] h o = unfold tail_loop in refl
tail_loop-all from limit i got (t ∷ ts) h o =
    tail_loop-take from limit i got t ts h
    ∙ ap (λ b. on_step i t b (tail_loop from limit (i + 1) (got + 1) ts)) (o got)
    ∙ ap (λ r. line i t ∷ r) (tail_loop-all from limit (i + 1) (got + 1) ts (omega arith) o)

-- A limit of `n + 1` lines, of which `got` are there.
tail_loop-some :
    (from : ℤ) (n i got left : ℕ) (ts : List Text)
    → start from ≤ i
    → got + left ≡ n
    → tail_loop from (pos (suc n)) i got ts ≡ numbered i (take (suc left) ts)
tail_loop-some from n i got left [] h e = unfold tail_loop in refl
tail_loop-some from n i got zero (t ∷ ts) h e =
    tail_loop-take from (pos (suc n)) i got t ts h
    ∙ ap (λ b. on_step i t b (tail_loop from (pos (suc n)) (i + 1) (got + 1) ts)) last
  where
    last : is_full (pos (suc n)) got ≡ true
    last = ground arith
tail_loop-some from n i got (suc left) (t ∷ ts) h e =
    tail_loop-take from (pos (suc n)) i got t ts h
    ∙ ap (λ b. on_step i t b (tail_loop from (pos (suc n)) (i + 1) (got + 1) ts)) more
    ∙ ap (λ r. line i t ∷ r)
        (tail_loop-some from n (i + 1) (got + 1) left ts (omega arith) (omega arith))
  where
    more : is_full (pos (suc n)) got ≡ false
    more = ground arith

tail_loop-on :
    (from limit : ℤ) (i : ℕ) (ts : List Text)
    → start from ≤ i
    → tail_loop from limit i 0 ts ≡ numbered i (at_most limit ts)
tail_loop-on from (pos zero) i ts h = tail_loop-all from (pos 0) i 0 ts h (λ k. ground arith)
tail_loop-on from (pos (suc n)) i ts h = tail_loop-some from n i 0 n ts h (omega arith)
tail_loop-on from (negsuc n) i ts h = tail_loop-all from (negsuc n) i 0 ts h (λ k. ground arith)

tail_loop-nil : (from limit : ℤ) (i : ℕ) → tail_loop from limit i 0 [] ≡ []
tail_loop-nil from limit i = unfold tail_loop in refl

-- The loop passes over the lines before the first.
tail_loop-drop :
    (from limit : ℤ) (i k : ℕ) (ts : List Text)
    → i + k ≡ start from
    → tail_loop from limit i 0 ts ≡ numbered (i + k) (at_most limit (drop k ts))
tail_loop-drop from limit i zero ts e =
    tail_loop-on from limit i ts (omega arith)
    ∙ ap (λ j. numbered j (at_most limit ts)) (omega arith)
tail_loop-drop from limit i (suc k) [] e =
    tail_loop-nil from limit i ∙ ap (numbered (i + suc k)) (nothing limit)
  where
    nothing : (l : ℤ) → [] ≡ at_most l []
    nothing (pos zero) = refl
    nothing (pos (suc n)) = refl
    nothing (negsuc n) = refl
tail_loop-drop from limit i (suc k) (t ∷ ts) e =
    tail_loop-skip from limit i 0 t ts (omega arith)
    ∙ tail_loop-drop from limit (i + 1) k ts (omega arith)
    ∙ ap (λ j. numbered j (at_most limit (drop k ts))) (omega arith)

next_line-cons :
    (n : ℕ) (x y : Numbered) (ys : List Numbered) → next_line n (x ∷ y ∷ ys) ≡ next_line n (y ∷ ys)
next_line-cons n x y ys = unfold next_line in refl

next_line-numbered :
    (n k : ℕ) (t : Text) (ts : List Text)
    → k + length ts < max_int64
    → next_line n (numbered k (t ∷ ts)) ≡ pos (k + length (t ∷ ts))
next_line-numbered n k t [] h = unfold next_line in ground arith
next_line-numbered n k t (u ∷ us) h =
    next_line-cons n (line k t) (line (k + 1) u) (numbered (k + 1 + 1) us)
    ∙ next_line-numbered n (k + 1) u us (omega arith)
    ∙ ap pos (omega arith)

-- The number that the next poll starts from.
abbrev pub continues : ℕ → ℕ → List Text → ℤ
continues n k [] = pos n
continues n k (t ∷ ts) = pos (k + length (t ∷ ts))

next_line-continues :
    (n k : ℕ) (ts : List Text)
    → k + length ts ≤ max_int64
    → next_line n (numbered k ts) ≡ continues n k ts
next_line-continues n k [] h = unfold next_line in refl
next_line-continues n k (t ∷ ts) h = next_line-numbered n k t ts (omega arith)

length-at_most : (limit : ℤ) (ts : List Text) → length (at_most limit ts) ≤ length ts
length-at_most (pos zero) ts = omega arith
length-at_most (pos (suc n)) ts = omega (arith, length-take (suc n) ts)
length-at_most (negsuc n) ts = omega arith

-- A poll starts at a line of the file, or finds nothing.
page-fits :
    (k : ℕ) (limit : ℤ) (all : List Text) (n : ℕ)
    → length all ≤ n
    → (k + length (at_most limit (drop k all)) ≤ n) ⊎ (at_most limit (drop k all) ≡ [])
page-fits zero limit all n h = inl (omega (arith, length-at_most limit all))
page-fits (suc k) limit [] n h = inr (nothing limit)
  where
    nothing : (l : ℤ) → at_most l [] ≡ []
    nothing (pos zero) = refl
    nothing (pos (suc n)) = refl
    nothing (negsuc n) = refl
page-fits (suc k) limit (t ∷ ts) zero h = absurd (omega arith)
page-fits (suc k) limit (t ∷ ts) (suc n) h = elim (page-fits k limit ts n (omega arith)) [
  | inl q ↦ inl (omega arith)
  | inr q ↦ inr q
]

pub tail_lines :
    (content : Text) (from limit : ℤ)
    → let all = split_lines (trim_newlines content) in
      let page = at_most limit (drop (start from) all) in
      length all ≤ max_int64
      → tail_file (some content) from limit
        ≡ (numbered (start from) page, continues (length all) (start from) page)
unfolding tail_file
tail_lines content from limit h =
    ap (λ out. (out, next_line (length all) out))
      (tail_loop-drop from limit 0 (start from) all (omega arith)
        ∙ ap (λ j. numbered j page) (omega arith))
    ∙ ap (λ z. (numbered (start from) page, z)) next
  where
    all : List Text
    all = split_lines (trim_newlines content)

    page : List Text
    page = at_most limit (drop (start from) all)

    next :
        next_line (length all) (numbered (start from) page)
        ≡ continues (length all) (start from) page
    next = elim (page-fits (start from) limit all max_int64 h) [
      | inl q ↦ next_line-continues (length all) (start from) page q
      | inr q ↦ empty page q
    ]
      where
        empty :
            (p : List Text)
            → p ≡ []
            → next_line (length all) (numbered (start from) p)
              ≡ continues (length all) (start from) p
        empty [] q = unfold next_line in refl
        empty (t ∷ ts) q = absurd (cc)
