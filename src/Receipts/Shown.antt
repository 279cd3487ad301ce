-- ===== src/Receipts/Shown.antt =====
-- What List and Has of server/internal/receipts/receipts.go show of the library, and that they agree.
use mathlib.Core.List.{Perm}
use eagle_condor_sandbox.Prelude.{
  Bool, true, false, not, ◌&&◌, ◌||◌, List, [], ◌∷◌, ◌++◌, Option, none, some, ◌≡◌, ◌≢◌, ◌⊎◌, ◌↔◌,
  refl, sym, ap, ◌∙◌, arith, All, Bool-cases, inl, inr,
}
use eagle_condor_sandbox.Prelude.Int.{ℤ}
use eagle_condor_sandbox.Prelude.Text.{Text, codes, text_eq, has_prefix, equal_fold}
use eagle_condor_sandbox.Prelude.Sort.{sort_by, Sorted, sort_by-Perm, sort_by-Sorted, sort_by-All}
use eagle_condor_sandbox.Config.{Stat, file, folder, absent}
use eagle_condor_sandbox.Receipts.{
  Receipt, DirEntry, entries, with_info, skip, gather, list_receipts, has_separator, is_file,
  has_receipt,
}

is_file→file : (s : Stat) → (is_file s ≡ true) ↔ (s ≡ file)
is_file→file file = (λ e. refl, λ e. refl)
is_file→file folder = (λ e. absurd (cc), λ e. absurd (cc))
is_file→file absent = (λ e. absurd (cc), λ e. absurd (cc))

both : (a b : Bool) → (not a && b ≡ true) ↔ ((a ≡ false) × (b ≡ true))
both a b = ground arith

-- Has accepts exactly a name that is not empty, has no separator, and is that of something in the
-- library's directory that is not a directory itself.
pub has_receipt_iff :
    (dir : Text) (stat : Text → Stat) (name : Text)
    → (has_receipt dir stat name ≡ true)
      ↔ ((name ≢ []) × (has_separator name ≡ false) × (stat (dir ++ (codes "/" ++ name)) ≡ file))
unfolding has_receipt
has_receipt_iff dir stat [] = unfold text_eq in (λ e. absurd (cc), λ e. absurd (e.0 refl))
has_receipt_iff dir stat (c ∷ name) =
    unfold text_eq in
    (
      λ e. let (a, b) = (both (has_separator (c ∷ name)) _).0 e in (cc, a, (is_file→file _).0 b),
      λ e. (both (has_separator (c ∷ name)) _).1 (e.1, (is_file→file _).1 e.2),
    )

neither : (a b : Bool) → (a || b) ≡ false → (a ≡ false) × (b ≡ false)
neither a b h = ground arith

module _ (dir : Text) (stat : Text → Stat) where
  -- What the system promises of an entry that is not a directory: it has a name, and unless it is a
  -- link to a directory, Stat says the same.
  abbrev pub IsPlain : DirEntry → Type 0
  IsPlain e = e.is_dir ≡ false → (e.name ≢ []) × (stat (dir ++ (codes "/" ++ e.name)) ≡ file)

  -- What a receipt of the list is: not hidden, and Has accepts it, if its name has no separator.
  abbrev pub IsShown : Receipt → Type 0
  IsShown r =
      (skip r.name ≡ false) × (has_separator r.name ≡ false → has_receipt dir stat r.name ≡ true)

  with_info-IsShown :
      (name : Text) (o : Option (ℤ × ℤ)) (rs : List Receipt)
      → skip name ≡ false
      → (name ≢ []) × (stat (dir ++ (codes "/" ++ name)) ≡ file)
      → All IsShown rs
      → All IsShown (with_info name o rs)
  with_info-IsShown name none rs s p h = h
  with_info-IsShown name (some (size, time)) rs s p h =
      ((s, λ q. (has_receipt_iff dir stat name).1 (p.0, q, p.1)), h)

  gather-IsShown : (es : List DirEntry) → All IsPlain es → All IsShown (gather es)
  unfolding gather
  gather-IsShown [] h = tt
  gather-IsShown (e ∷ es) (p, h) = elim (Bool-cases (e.is_dir || skip e.name)) [
    | inl q ↦ rw q (gather-IsShown es h)
    | inr q ↦
        let (d, s) = neither e.is_dir (skip e.name) q in
        rw q (with_info-IsShown e.name e.info (gather es) s (p d) (gather-IsShown es h))
  ]

-- A name that starts with a dot, or that is README.md up to the case of its letters.
abbrev pub IsHidden : Text → Type 0
IsHidden name =
    ((rest : Text) × (name ≡ b'.' ∷ rest)) ⊎ (equal_fold name (codes "README.md") ≡ true)

-- The receipts of a directory: an entry is passed by if it is a directory, is hidden or has no
-- information, and else is there with its name, its size and its time.
pub data Gathers : List DirEntry → List Receipt → Type 0 where
  nothing : Gathers [] []
  passes :
      {e : DirEntry} {es : List DirEntry} {rs : List Receipt}
      → (e.is_dir ≡ true) ⊎ (IsHidden e.name ⊎ (e.info ≡ none))
      → Gathers es rs
      → Gathers (e ∷ es) rs
  takes :
      {e : DirEntry} {es : List DirEntry} {rs : List Receipt} (size time : ℤ)
      → e.is_dir ≡ false
      → ¬ IsHidden e.name
      → e.info ≡ some (size, time)
      → Gathers es rs
      → Gathers (e ∷ es) (record { name = e.name; size = size; modified_at = time } ∷ rs)

dotted :
    (name : Text) → (has_prefix name (codes ".") ≡ true) ↔ ((rest : Text) × (name ≡ b'.' ∷ rest))
unfolding has_prefix
dotted [] = (λ e. absurd (cc), λ (rest, e). absurd (cc))
dotted (c ∷ name) = (λ e. (name, ap (λ k. k ∷ name) (first e)), λ (rest, e). starts rest e)
  where
    first : has_prefix (c ∷ name) (codes ".") ≡ true → c ≡ b'.'
    first e = ground (arith)

    starts : (rest : Text) → (c ∷ name) ≡ b'.' ∷ rest → has_prefix (c ∷ name) (codes ".") ≡ true
    starts rest e = ap (λ t. has_prefix t (codes ".")) e

skip_iff : (name : Text) → (skip name ≡ true) ↔ IsHidden name
unfolding skip
skip_iff name = (to, from)
  where
    to : (has_prefix name (codes ".") || equal_fold name (codes "README.md")) ≡ true → IsHidden name
    to e = elim (Bool-cases (has_prefix name (codes "."))) [
      | inl p ↦ inl ((dotted name).0 p)
      | inr p ↦ inr (sym (ap (λ b. b || equal_fold name (codes "README.md")) p) ∙ e)
    ]

    from :
        IsHidden name → (has_prefix name (codes ".") || equal_fold name (codes "README.md")) ≡ true
    from (inl d) = ap (λ b. b || equal_fold name (codes "README.md")) ((dotted name).1 d)
    from (inr f) = either (has_prefix name (codes ".")) f
      where
        either : {b : Bool} (a : Bool) → b ≡ true → (a || b) ≡ true
        either a h = ground (arith)

with_info-Gathers :
    (e : DirEntry) (es : List DirEntry) (o : Option (ℤ × ℤ)) (rs : List Receipt)
    → e.is_dir ≡ false
    → ¬ IsHidden e.name
    → e.info ≡ o
    → Gathers es rs
    → Gathers (e ∷ es) (with_info e.name o rs)
with_info-Gathers e es none rs d n q g = passes (inr (inr q)) g
with_info-Gathers e es (some (size, time)) rs d n q g = takes size time d n q g

gather-Gathers : (es : List DirEntry) → Gathers es (gather es)
unfolding gather
gather-Gathers [] = nothing
gather-Gathers (e ∷ es) = elim (Bool-cases (e.is_dir || skip e.name)) [
  | inl q ↦ rw q (passes (passed q) (gather-Gathers es))
  | inr q ↦
      let (d, s) = neither e.is_dir (skip e.name) q in
      rw q (
        with_info-Gathers e es e.info (gather es) d (λ h. apart ((skip_iff e.name).1 h) s) refl
          (gather-Gathers es))
]
  where
    apart : {t : Bool} → t ≡ true → t ≡ false → ⊥
    apart p r = cc

    passed :
        (e.is_dir || skip e.name) ≡ true → (e.is_dir ≡ true) ⊎ (IsHidden e.name ⊎ (e.info ≡ none))
    passed q = elim (Bool-cases e.is_dir) [
      | inl d ↦ inl d
      | inr d ↦ inr (inl ((skip_iff e.name).0 (sym (ap (λ b. b || skip e.name) d) ∙ q)))
    ]

-- For a directory that can be read, where each entry that is not a directory has a name and Stat
-- agrees that it is no directory, List answers a list in the order of the names, which is an
-- arrangement of the receipts of all entries that are neither directories nor hidden and have
-- information, each with its name, its size and its time; and Has accepts every listed name without
-- a separator.
pub list_receipts_lem :
    (dir : Text) (stat : Text → Stat) (es : List DirEntry)
    → All (IsPlain dir stat) es
    → (rs : List Receipt) × (list_receipts (entries es) ≡ some rs)
      × Sorted (λ (r : Receipt). r.name) rs
      × ((xs : List Receipt) × Gathers es xs × Perm rs xs)
      × All (IsShown dir stat) rs
unfolding list_receipts
list_receipts_lem dir stat es h = (
  sort_by (λ r. r.name) (gather es),
  refl,
  sort_by-Sorted (λ r. r.name) (gather es),
  (gather es, gather-Gathers es, sort_by-Perm (λ r. r.name) (gather es)),
  sort_by-All (λ r. r.name) (IsShown dir stat) (gather es) (gather-IsShown dir stat es h),
)
