-- ===== src/Layout/Components.antt =====
-- Clean paths and their parts (package path/filepath, as server/internal/run/layout.go uses it).
use mathlib.Core.List.{reverse, reverse-cons, reverse-reverse}
use eagle_condor_sandbox.Prelude.{
  ℕ, Bool, true, false, List, [], ◌∷◌, ◌++◌, append_assoc, append-nil, ◌==◌, ◌≡◌, ◌≢◌, refl, sym,
  ap, ◌∙◌, arith, ==_iff, Bool-cases, inl, inr, All, All-append, All-map, subst,
}
use eagle_condor_sandbox.Prelude.Text.{Text}
use eagle_condor_sandbox.Layout.Path.{
  slash, onto_first, split_path, join_parts, is_skipped, is_parent, climb, walk, is_abs, parts,
  clean,
}

abbrev pub NoSlash : Text → Type 0
NoSlash x = All (λ c. c ≢ slash) x

-- A part of a clean absolute path: a name, which is not empty, "." or "..".
pub record Proper (x : Text) : Type 0 where
  pub plain : NoSlash x
  pub named : is_skipped x ≡ false
  pub down : is_parent x ≡ false

-- "/" before each part.
abbrev pub render : List Text → Text
render xs = slash ∷ join_parts xs

split_path-plain : (x : Text) → NoSlash x → split_path x ≡ x ∷ []
unfolding split_path
split_path-plain [] h = refl
split_path-plain (c ∷ x) (h, hx) = rw (split_path-plain x hx) (ground (arith, ==_iff c slash))

onto_first-ne : (c : ℕ) (xs : List Text) → onto_first c xs ≢ []
onto_first-ne c [] e = cc
onto_first-ne c (x ∷ xs) e = cc

split_path-ne : (s : Text) → split_path s ≢ []
unfolding split_path
split_path-ne [] e = cc
split_path-ne (c ∷ s) e = elim (Bool-cases (c == slash)) [
  | inl q ↦ ground arith
  | inr q ↦ onto_first-ne c (split_path s) (ground arith)
]

-- The parts of two texts with a separator between them are those of the one and then of the other.
pub split_path-append : (a b : Text) → split_path (a ++ slash ∷ b) ≡ split_path a ++ split_path b
unfolding split_path
split_path-append [] b = refl
split_path-append (c ∷ a) b = elim (Bool-cases (c == slash)) [
  | inl e ↦ rw e (ap (◌∷◌ []) (split_path-append a b))
  | inr e ↦ rw e (
      ap (onto_first c) (split_path-append a b)
      ∙ onto c (split_path a) (split_path b) (split_path-ne a))
]
  where
    onto : (d : ℕ) (xs ys : List Text) → xs ≢ [] → onto_first d (xs ++ ys) ≡ onto_first d xs ++ ys
    onto d [] ys ne = absurd (ne refl)
    onto d (x ∷ xs) ys ne = refl

-- Taking the parts undoes joining them.
pub split_path-join :
    (x : Text) (xs : List Text) → All NoSlash (x ∷ xs) → split_path (join_parts (x ∷ xs)) ≡ x ∷ xs
unfolding join_parts
split_path-join x [] (h, hs) = split_path-plain x h
split_path-join x (y ∷ r) (h, hs) =
    split_path-append x (join_parts (y ∷ r))
    ∙ ap (λ p. p ++ split_path (join_parts (y ∷ r))) (split_path-plain x h)
    ∙ ap (◌∷◌ x) (split_path-join y r hs)

pub split_path-NoSlash : (s : Text) → All NoSlash (split_path s)
unfolding split_path
split_path-NoSlash [] = (tt, tt)
split_path-NoSlash (c ∷ s) = elim (Bool-cases (c == slash)) [
  | inl e ↦ rw e (tt, split_path-NoSlash s)
  | inr e ↦ rw e (onto (split_path s) (split_path-NoSlash s) (λ q. ground (arith, ==_iff c slash)))
]
  where
    onto : (xs : List Text) → All NoSlash xs → c ≢ slash → All NoSlash (onto_first c xs)
    onto [] h ne = ((ne, tt), tt)
    onto (x ∷ xs) (h, hs) ne = ((ne, h), hs)

climb-Proper : (stack : List Text) → All Proper stack → All Proper (climb true stack)
unfolding climb
climb-Proper [] h = tt
climb-Proper (x ∷ xs) (h, hs) = hs

-- In an absolute path ".." stops at the root, so that only names are left.
walk-Proper :
    (stack xs : List Text) → All Proper stack → All NoSlash xs → All Proper (walk true stack xs)
unfolding walk
walk-Proper stack [] h hx = h
walk-Proper stack (x ∷ xs) h (p, hx) = elim (Bool-cases (is_skipped x)) [
  | inl e ↦ rw e (walk-Proper stack xs h hx)
  | inr e ↦ elim (Bool-cases (is_parent x)) [
    | inl q ↦ rw (e, q) (walk-Proper (climb true stack) xs (climb-Proper stack h) hx)
    | inr q ↦
        rw (e, q) (walk-Proper (x ∷ stack) xs (record { plain = p; named = e; down = q }, h) hx)
  ]
]

-- Names are kept as they are.
pub walk-names :
    (rooted : Bool) (stack xs : List Text)
    → All Proper xs
    → walk rooted stack xs ≡ reverse xs ++ stack
unfolding walk
walk-names rooted stack [] h = refl
walk-names rooted stack (x ∷ xs) (h, hs) =
    rw (h.named, h.down)
      (walk-names rooted (x ∷ stack) xs hs
        ∙ sym (append_assoc (reverse xs) (x ∷ []) stack)
        ∙ ap (λ r. r ++ stack) (sym (reverse-cons x xs)))

All-reverse : (xs : List Text) → All Proper xs → All Proper (reverse xs)
All-reverse [] h = tt
All-reverse (x ∷ xs) (h, hs) =
    subst (All Proper) (sym (reverse-cons x xs))
      (All-append Proper (reverse xs) (x ∷ []) (All-reverse xs hs) (h, tt))

pub parts-Proper : (s : Text) → is_abs s ≡ true → All Proper (parts s)
unfolding parts
parts-Proper s a = rw a (
    All-reverse (walk true [] (split_path s))
      (walk-Proper [] (split_path s) tt (split_path-NoSlash s)))

pub clean-render : (s : Text) → is_abs s ≡ true → clean s ≡ render (parts s)
unfolding clean
clean-render s a = rw a

pub is_abs-slash : (s : Text) → is_abs (slash ∷ s) ≡ true
unfolding is_abs
is_abs-slash [] = refl
is_abs-slash (c ∷ s) = refl

pub plain-NoSlash : (xs : List Text) → All Proper xs → All NoSlash xs
plain-NoSlash xs h = All-map (λ x (p : Proper x). p.plain) xs h

-- The first part of an absolute path is the empty text before its "/".
pub split_path-render :
    (x : Text) (xs : List Text) → All Proper (x ∷ xs) → split_path (render (x ∷ xs)) ≡ [] ∷ x ∷ xs
split_path-render x xs h =
    split_path-append [] (join_parts (x ∷ xs))
    ∙ ap (λ p. split_path [] ++ p) (split_path-join x xs (plain-NoSlash (x ∷ xs) h))
    ∙ ap (λ p. p ++ x ∷ xs) (split_path-plain [] tt)

-- The parts of a text that starts with "/", if its other parts are names.
pub parts_of_names :
    (s : Text) (xs : List Text)
    → is_abs s ≡ true
    → split_path s ≡ [] ∷ xs
    → All Proper xs
    → parts s ≡ xs
unfolding parts
parts_of_names s xs a e h =
    rw (a, e)
      (ap reverse (skip_first ∙ walk-names true [] xs h ∙ append-nil (reverse xs))
        ∙ reverse-reverse xs)
  where
    skip_first : walk true [] ([] ∷ xs) ≡ walk true [] xs
    skip_first = unfold walk in refl

pub parts-render :
    (x : Text) (xs : List Text) → All Proper (x ∷ xs) → parts (render (x ∷ xs)) ≡ x ∷ xs
parts-render x xs h =
    parts_of_names (render (x ∷ xs)) (x ∷ xs) (is_abs-slash (join_parts (x ∷ xs)))
      (split_path-render x xs h) h
