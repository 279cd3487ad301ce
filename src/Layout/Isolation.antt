-- ===== src/Layout/Isolation.antt =====
-- What Resolve (server/internal/run/layout.go) accepts, and that two runs never share a file.
use mathlib.Core.List.{reverse, reverse-append, reverse-reverse}
use eagle_condor_sandbox.Prelude.{
  Bool, true, false, List, [], ◌∷◌, ◌++◌, append_assoc, Option, some, ◌≡◌, ◌≢◌, refl, sym, ap, ◌∙◌,
  arith, ==_iff, All, All-append,
}
use eagle_condor_sandbox.Prelude.Text.{Text, codes, has_prefix, has_prefix-append}
use eagle_condor_sandbox.Layout.Path.{
  slash, split_path, join_parts, walk, is_abs, parts, clean, join, abs, rel,
}
use eagle_condor_sandbox.Layout.Components.{
  Proper, render, split_path-append, split_path-join, plain-NoSlash, walk-names, is_abs-slash,
  parts-render, parts-Proper,
}
use eagle_condor_sandbox.Layout.Inside.{
  not_skipped, IsRooted, is_abs-append, join-render, clean_again, resolve-Below,
}
use eagle_condor_sandbox.Layout.{ok, check_inside, resolve}

walk-append :
    (rooted : Bool) (xs ys stack : List Text)
    → walk rooted stack (xs ++ ys) ≡ walk rooted (walk rooted stack xs) ys
unfolding walk
walk-append rooted [] ys stack = refl
walk-append rooted (x ∷ xs) ys stack = walk-append rooted xs ys _

-- Names put behind an absolute path are added to its parts.
parts-append :
    (s : Text) (c : Text) (cs : List Text)
    → is_abs s ≡ true
    → All Proper (c ∷ cs)
    → parts (s ++ slash ∷ join_parts (c ∷ cs)) ≡ parts s ++ c ∷ cs
unfolding parts
parts-append s c cs a h =
    rw (is_abs-append s (slash ∷ join_parts (c ∷ cs)) a, a)
      (ap (λ p. reverse (walk true [] p)) split
        ∙ ap reverse (
            walk-append true (split_path s) (c ∷ cs) []
            ∙ walk-names true (walk true [] (split_path s)) (c ∷ cs) h)
        ∙ reverse-append (reverse (c ∷ cs)) (walk true [] (split_path s))
        ∙ ap (λ p. reverse (walk true [] (split_path s)) ++ p) (reverse-reverse (c ∷ cs)))
  where
    split : split_path (s ++ slash ∷ join_parts (c ∷ cs)) ≡ split_path s ++ c ∷ cs
    split =
        split_path-append s (join_parts (c ∷ cs))
        ∙ ap (λ p. split_path s ++ p) (split_path-join c cs (plain-NoSlash (c ∷ cs) h))

pub parts_of_render : (xs : List Text) → All Proper xs → parts (render xs) ≡ xs
parts_of_render [] h = unfold parts join_parts in refl
parts_of_render (x ∷ xs) h = parts-render x xs h

render_inj : (xs ys : List Text) → All Proper xs → All Proper ys → render xs ≡ render ys → xs ≡ ys
render_inj xs ys hx hy e = sym (parts_of_render xs hx) ∙ ap parts e ∙ parts_of_render ys hy

pub dir-Proper : (dir a : Text) → is_abs dir ≡ true → Proper a → All Proper (parts dir ++ a ∷ [])
dir-Proper dir a w p = All-append Proper (parts dir) (a ∷ []) (parts-Proper dir w) (p, tt)

-- The directory of a run is the runs directory with the id as one more name.
pub run_dir :
    (dir a : Text) → is_abs dir ≡ true → Proper a → join dir a ≡ render (parts dir ++ a ∷ [])
unfolding join_parts
run_dir dir a w p = join-render dir a w ∙ ap render (parts-append dir a [] w (p, tt))

pub abs_run_dir :
    (cwd : Option Text) (dir a : Text)
    → is_abs dir ≡ true
    → Proper a
    → abs cwd (join dir a) ≡ some (render (parts dir ++ a ∷ []))
abs_run_dir cwd dir a w p =
    ap (abs cwd) (run_dir dir a w p) ∙ already (parts dir ++ a ∷ []) (dir-Proper dir a w p)
  where
    already : (xs : List Text) → All Proper xs → abs cwd (render xs) ≡ some (render xs)
    already xs h = unfold abs in rw (is_abs-slash (join_parts xs)) (ap some (clean_again xs h))

cancel_names :
    (ps xs ys : List Text) (a b : Text) → (ps ++ a ∷ []) ++ xs ≡ (ps ++ b ∷ []) ++ ys → a ≡ b
cancel_names [] xs ys a b e = cc
cancel_names (p ∷ ps) xs ys a b e = cancel_names ps xs ys a b (cc)

resolved_names :
    (cwd : Option Text) (dir a rel full : Text)
    → is_abs dir ≡ true
    → IsRooted cwd
    → Proper a
    → resolve cwd (join dir a) rel ≡ ok full
    → (down : List Text) × (full ≡ render ((parts dir ++ a ∷ []) ++ down))
      × All Proper ((parts dir ++ a ∷ []) ++ down)
resolved_names cwd dir a rel full w c p h =
    let (rs, e, hr, (down, f, hd)) = resolve-Below cwd (join dir a) rel full c h in
    let same : rs ≡ parts dir ++ a ∷ [] =
      render_inj rs (parts dir ++ a ∷ []) hr (dir-Proper dir a w p)
        (some_inj (sym e ∙ abs_run_dir cwd dir a w p)) in
    (
      down,
      f ∙ ap (λ t. render (t ++ down)) same,
      All-append Proper (parts dir ++ a ∷ []) down (dir-Proper dir a w p) hd,
    )
  where
    some_inj : {s t : Text} → some s ≡ some t → s ≡ t
    some_inj q = cc

-- Two runs under one absolute directory, whose ids are different names without a separator,
-- never resolve to one file. The working directory, if it can be read, is an absolute path.
pub resolve_isolated :
    (cwd : Option Text) (dir a b rel rel' full full' : Text)
    → is_abs dir ≡ true
    → IsRooted cwd
    → Proper a
    → Proper b
    → a ≢ b
    → resolve cwd (join dir a) rel ≡ ok full
    → resolve cwd (join dir b) rel' ≡ ok full'
    → full ≢ full'
resolve_isolated cwd dir a b rel rel' full full' w c pa pb ne h h' same =
    let (down, f, hf) = resolved_names cwd dir a rel full w c pa h in
    let (down', f', hf') = resolved_names cwd dir b rel' full' w c pb h' in
    ne (cancel_names (parts dir) down down' a b (render_inj _ _ hf hf' (sym f ∙ same ∙ f')))

relative_names : (x : Text) (xs : List Text) → Proper x → is_abs (join_parts (x ∷ xs)) ≡ false
unfolding is_abs join_parts
relative_names [] xs p = absurd (not_skipped p)
relative_names (c ∷ x) [] p = ground (arith, p.plain.0, ==_iff c slash)
relative_names (c ∷ x) (y ∷ r) p = ground (arith, p.plain.0, ==_iff c slash)

join_parts-append :
    (l : Text) (ls : List Text) (x : Text) (xs : List Text)
    → join_parts ((l ∷ ls) ++ x ∷ xs) ≡ join_parts (l ∷ ls) ++ slash ∷ join_parts (x ∷ xs)
unfolding join_parts
join_parts-append l [] x xs = refl
join_parts-append l (k ∷ ls) x xs =
    ap (λ t. l ++ slash ∷ t) (join_parts-append k ls x xs)
    ∙ sym (append_assoc l (slash ∷ join_parts (k ∷ ls)) (slash ∷ join_parts (x ∷ xs)))

under_names :
    (l : Text) (ks : List Text) (y : Text) (ys : List Text)
    → has_prefix (render ((l ∷ ks) ++ y ∷ ys)) (render (l ∷ ks) ++ codes "/") ≡ true
under_names l ks y ys =
    ap (λ t. has_prefix (slash ∷ t) (render (l ∷ ks) ++ codes "/"))
      (join_parts-append l ks y ys
        ∙ sym (append_assoc (join_parts (l ∷ ks)) (codes "/") (join_parts (y ∷ ys))))
    ∙ has_prefix-append (render (l ∷ ks) ++ codes "/") (join_parts (y ∷ ys))

under :
    (ls : List Text) (a x : Text) (xs : List Text)
    → has_prefix (render ((ls ++ a ∷ []) ++ x ∷ xs)) (render (ls ++ a ∷ []) ++ codes "/") ≡ true
under [] a x xs = under_names a [] x xs
under (l ∷ ls) a x xs = under_names l (ls ++ a ∷ []) x xs

-- Every file below the directory of a run, which lies by its id, a name, under an absolute
-- directory, can be asked for: the relative path made of the names on the way to it is resolved
-- to it. The working directory, if it can be read, is an absolute path.
pub resolve_accepts :
    (cwd : Option Text) (dir a x : Text) (xs : List Text)
    → is_abs dir ≡ true
    → IsRooted cwd
    → Proper a
    → All Proper (x ∷ xs)
    → resolve cwd (join dir a) (join_parts (x ∷ xs)) ≡ ok (render ((parts dir ++ a ∷ []) ++ x ∷ xs))
resolve_accepts cwd dir a x xs w c p h =
    asked ∙ ap (λ t. check_inside root t) (ap clean target ∙ clean_again full names) ∙ inside
  where
    root : Text
    root = render (parts dir ++ a ∷ [])

    full : List Text
    full = (parts dir ++ a ∷ []) ++ x ∷ xs

    names : All Proper full
    names = All-append Proper (parts dir ++ a ∷ []) (x ∷ xs) (dir-Proper dir a w p) h

    asked :
        resolve cwd (join dir a) (join_parts (x ∷ xs))
        ≡ check_inside root (clean (join root (join_parts (x ∷ xs))))
    asked = unfold resolve in rw (relative_names x xs h.0, abs_run_dir cwd dir a w p)

    target : join root (join_parts (x ∷ xs)) ≡ render full
    target =
        join-render root (join_parts (x ∷ xs)) (is_abs-slash _)
        ∙ ap render (
            parts-append root x xs (is_abs-slash _) h
            ∙ ap (λ t. t ++ x ∷ xs) (parts_of_render (parts dir ++ a ∷ []) (dir-Proper dir a w p)))

    inside : check_inside root (render full) ≡ ok (render full)
    inside = rw (under (parts dir) a x xs) (ground arith)
