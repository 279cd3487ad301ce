-- ===== src/Layout/Inside.antt =====
-- Resolve of server/internal/run/layout.go stays inside the run's directory.
use eagle_condor_sandbox.Prelude.{
  ℕ, true, List, [], ◌∷◌, ◌++◌, append_assoc, append-nil, Option, none, some, ◌≡◌, ◌≢◌, refl, sym,
  ap, ◌∙◌, arith, Bool-cases, Option-cases, inl, inr, All, subst,
}
use eagle_condor_sandbox.Prelude.Text.{
  Text, codes, text_eq, text_eq_iff, has_prefix, has_prefix-split, drop_text,
}
use eagle_condor_sandbox.Layout.Path.{
  slash, split_path, join_parts, is_abs, parts, clean, join, abs,
}
use eagle_condor_sandbox.Layout.Components.{
  Proper, render, split_path-append, split_path-render, parts-Proper, clean-render, is_abs-slash,
  parts-render,
}
use eagle_condor_sandbox.Layout.{ok, check_inside, resolve_at, resolve}

-- The path `full` is a way down from the directory `root`.
abbrev pub Below : List Text → Text → Type 0
Below root full = (down : List Text) × (full ≡ render (root ++ down)) × All Proper down

cons_tail : (x y : Text) (xs ys : List Text) → (x ∷ xs) ≡ (y ∷ ys) → xs ≡ ys
cons_tail x y xs ys e = cc

All-append_right : (xs ys : List Text) → All Proper (xs ++ ys) → All Proper ys
All-append_right [] ys h = h
All-append_right (x ∷ xs) ys h = All-append_right xs ys h.1

pub not_skipped : Proper [] → ⊥
not_skipped p = unfold text_eq in cc (p.named)

append-ne : (s t : Text) → s ++ slash ∷ t ≢ []
append-ne [] t e = cc
append-ne (c ∷ s) t e = cc

-- A clean path that begins with another one and a "/" lies below it.
prefix-Below :
    (xs rs : List Text) (t : Text)
    → All Proper xs
    → All Proper rs
    → render xs ≡ render rs ++ slash ∷ t
    → Below rs (render xs)
prefix-Below [] rs t hx hr e = absurd (append-ne (join_parts rs) t (sym (cons_rest e)))
  where
    cons_rest : render [] ≡ render rs ++ slash ∷ t → [] ≡ join_parts rs ++ slash ∷ t
    cons_rest q = unfold join_parts in cc
prefix-Below (x ∷ xs) [] t (h, hx) hr e = absurd (not_skipped (subst Proper first h))
  where
    two : [] ∷ x ∷ xs ≡ [] ∷ [] ∷ split_path t
    two =
        sym (split_path-render x xs (h, hx))
        ∙ ap split_path e
        ∙ split_path-append (render []) t
        ∙ unfold split_path join_parts in refl

    first : x ≡ []
    first = cc (two)
prefix-Below (x ∷ xs) (r ∷ rs) t hx hr e = (
  split_path t,
  ap render same,
  All-append_right (r ∷ rs) (split_path t) (subst (All Proper) same hx),
)
  where
    whole : [] ∷ x ∷ xs ≡ ([] ∷ r ∷ rs) ++ split_path t
    whole =
        sym (split_path-render x xs hx)
        ∙ ap split_path e
        ∙ split_path-append (render (r ∷ rs)) t
        ∙ ap (λ p. p ++ split_path t) (split_path-render r rs hr)

    same : x ∷ xs ≡ (r ∷ rs) ++ split_path t
    same = cc (whole)

check_inside-Below :
    (xs rs : List Text) (full : Text)
    → All Proper xs
    → All Proper rs
    → check_inside (render rs) (render xs) ≡ ok full
    → Below rs full
check_inside-Below xs rs full hx hr e = elim (Bool-cases (text_eq (render xs) (render rs))) [
  | inl q ↦ (
    [],
    sym (result e) ∙ (text_eq_iff (render xs) (render rs)).0 q ∙ ap render (sym (append-nil rs)),
    tt,
  )
  | inr q ↦ elim (Bool-cases (has_prefix (render xs) (render rs ++ codes "/"))) [
    | inl p ↦ subst (Below rs) (result e) (
        prefix-Below xs rs (drop_text (render xs) (render rs ++ codes "/")) hx hr (
          has_prefix-split (render xs) (render rs ++ codes "/") p
          ∙ append_assoc (render rs) (codes "/") _))
    | inr p ↦ absurd (ground arith)
  ]
]
  where
    result : check_inside (render rs) (render xs) ≡ ok full → render xs ≡ full
    result e = ground arith

-- An absolute path stays absolute when a text is put behind it.
pub is_abs-append : (s t : Text) → is_abs s ≡ true → is_abs (s ++ t) ≡ true
unfolding is_abs
is_abs-append [] t h = absurd (cc)
is_abs-append (c ∷ s) t h = head_only c s (s ++ t) h
  where
    head_only : (d : ℕ) (u v : Text) → is_abs (d ∷ u) ≡ true → is_abs (d ∷ v) ≡ true
    head_only d [] [] q = q
    head_only d [] (y ∷ v) q = q
    head_only d (x ∷ u) [] q = q
    head_only d (x ∷ u) (y ∷ v) q = q

pub join-abs : (a b : Text) → is_abs a ≡ true → join a b ≡ clean (a ++ slash ∷ b)
unfolding join is_abs
join-abs [] b h = absurd (cc)
join-abs (c ∷ a) b h = refl

-- A text that Clean and Join make of an absolute one is the "/" and the names of its parts.
pub join-render : (a b : Text) → is_abs a ≡ true → join a b ≡ render (parts (a ++ slash ∷ b))
join-render a b h = join-abs a b h ∙ clean-render (a ++ slash ∷ b) (is_abs-append a (slash ∷ b) h)

pub join-Proper : (a b : Text) → is_abs a ≡ true → All Proper (parts (a ++ slash ∷ b))
join-Proper a b h = parts-Proper (a ++ slash ∷ b) (is_abs-append a (slash ∷ b) h)

-- The working directory, if there is one, is absolute.
abbrev pub IsRooted : Option Text → Type 0
IsRooted none = Unit
IsRooted (some d) = is_abs d ≡ true

-- The absolute form of a directory, as its names.
abbrev pub Names : Text → List Text → Type 0
Names t rs = (t ≡ render rs) × All Proper rs

abs-Names :
    (cwd : Option Text) (root t : Text)
    → IsRooted cwd
    → abs cwd root ≡ some t
    → (rs : List Text) × Names t rs
unfolding abs
abs-Names none root t w e = elim (Bool-cases (is_abs root)) [
  | inl a ↦ (parts root, (ground (arith, clean-render root a), parts-Proper root a))
  | inr a ↦ absurd (ground arith)
]
abs-Names (some d) root t w e = elim (Bool-cases (is_abs root)) [
  | inl a ↦ (parts root, (ground (arith, clean-render root a), parts-Proper root a))
  | inr a ↦
      (parts (d ++ slash ∷ root), (ground (arith, join-render d root w), join-Proper d root w))
]

pub clean_again : (ps : List Text) → All Proper ps → clean (render ps) ≡ render ps
clean_again [] h = unfold clean in refl
clean_again (p ∷ ps) h =
    clean-render (render (p ∷ ps)) (is_abs-slash (join_parts (p ∷ ps)))
    ∙ ap render (parts-render p ps h)

resolve_at-Below :
    (root rel full : Text) (rs : List Text)
    → Names root rs
    → resolve_at (some root) rel ≡ ok full
    → Below rs full
resolve_at-Below root rel full rs (e, hr) h =
    check_inside-Below ps rs full (join-Proper root rel rooted) hr (sym checked ∙ h)
  where
    rooted : is_abs root ≡ true
    rooted = ap is_abs e ∙ is_abs-slash (join_parts rs)

    ps : List Text
    ps = parts (root ++ slash ∷ rel)

    checked : resolve_at (some root) rel ≡ check_inside (render rs) (render ps)
    checked =
        ap (λ t. check_inside root (clean t)) (join-render root rel rooted)
        ∙ ap (check_inside root) (clean_again ps (join-Proper root rel rooted))
        ∙ ap (λ t. check_inside t (render ps)) e

resolve-some :
    (cwd : Option Text) (root rel full : Text)
    → resolve cwd root rel ≡ ok full
    → (t : Text) × (abs cwd root ≡ some t) × (resolve_at (some t) rel ≡ ok full)
unfolding resolve
resolve-some cwd root rel full h = elim (Bool-cases (is_abs rel)) [
  | inl a ↦ absurd (ground arith)
  | inr a ↦ elim (Option-cases (abs cwd root)) [
    | inl e ↦ absurd (ground arith)
    | inr (t, e) ↦ (t, e, ground arith)
  ]
]

-- Whatever path a caller asks for, if Resolve lets it through, the file is the run's directory
-- itself or lies below it by a chain of names, none of which is empty, "." or "..". The working
-- directory, if it can be read, is an absolute path.
pub resolve-Below :
    (cwd : Option Text) (root rel full : Text)
    → IsRooted cwd
    → resolve cwd root rel ≡ ok full
    → (rs : List Text) × (abs cwd root ≡ some (render rs)) × All Proper rs × Below rs full
resolve-Below cwd root rel full w h =
    let (t, e, r) = resolve-some cwd root rel full h in
    let (rs, n) = abs-Names cwd root t w e in
    (rs, e ∙ ap some n.0, n.1, resolve_at-Below t rel full rs n r)
