-- ===== src/Catalog/Index/Kinds.antt =====
-- The kinds of inputs that index (server/internal/catalog/catalog.go) accepts, and names that are new.
use eagle_condor_sandbox.Prelude.{
  Bool, true, false, not, ◌||◌, List, [], ◌∷◌, ◌++◌, ◌≡◌, ◌≢◌, ◌⊎◌, ◌↔◌, refl, ap, arith, inl, inr,
  All, if◌then◌else◌,
}
use eagle_condor_sandbox.Prelude.Text.{Text, codes, text_eq, text_eq_iff}
use eagle_condor_sandbox.Catalog.{Input, Manifest, schema}
use eagle_condor_sandbox.Catalog.Index.{
  Problem, needs_schema, unknown_schema, needs_filename, bad_kind, when, is_there, kind_problems,
}

pub append_nil_iff {ℓ} : {A : Type ℓ} (xs ys : List A) → (xs ++ ys ≡ []) ↔ ((xs ≡ []) × (ys ≡ []))
append_nil_iff [] ys = (λ e. (refl, e), λ h. h.1)
append_nil_iff (x ∷ xs) ys = (λ e. cc, λ h. cc (h.0))

pub none_of_four {ℓ} :
    {A : Type ℓ} (zs bs cs ds : List A)
    → (zs ++ bs ++ cs ++ ds ≡ []) ↔ ((zs ≡ []) × (bs ≡ []) × (cs ≡ []) × (ds ≡ []))
none_of_four zs bs cs ds = (
  λ e.
      let (abc, d) = (append_nil_iff (zs ++ bs ++ cs) ds).0 e in
      let (ab, c) = (append_nil_iff (zs ++ bs) cs).0 abc in
      let (a, b) = (append_nil_iff zs bs).0 ab in (a, b, c, d),
  λ h.
      (append_nil_iff (zs ++ bs ++ cs) ds).1
        ((append_nil_iff (zs ++ bs) cs).1 ((append_nil_iff zs bs).1 (h.0, h.1), h.2), h.3),
)

pub when_iff : (b : Bool) (p : Problem) → (when b p ≡ []) ↔ (b ≡ false)
when_iff true p = (λ e. cc, λ h. cc)
when_iff false p = (λ e. refl, λ h. refl)

pub not_iff : (b : Bool) → (not b ≡ false) ↔ (b ≡ true)
not_iff true = (λ e. refl, λ e. refl)
not_iff false = (λ e. cc, λ e. cc)

-- The kind of an input is one of the two, and a spreadsheet has a known schema and a file name.
abbrev pub KindOk : Manifest → Input → Type 0
KindOk c i =
    ((i.kind ≡ codes "csv")
      × (i.schema ≢ [])
      × (is_there (schema c i.schema) ≡ true)
      × (i.filename ≢ []))
    ⊎ (i.kind ≡ codes "int")

pub not_empty : (t : Text) → (text_eq t [] ≡ false) ↔ (t ≢ [])
not_empty t = ground (arith, text_eq_iff t [])

kind_tests :
    (csv bare there unnamed int : Bool) (p q r t : Problem)
    → ((if csv
          then (if bare then p ∷ [] else when (not there) q) ++ when unnamed r
          else when (not int) t)
        ≡ [])
      ↔ (((csv ≡ true) × (bare ≡ false) × (there ≡ true) × (unnamed ≡ false))
          ⊎ ((csv ≡ false) × (int ≡ true)))
kind_tests true true there unnamed int p q r t =
    (λ e. cc, λ h. elim h [ inl x ↦ cc (x.1) | inr x ↦ cc (x.0) ])
kind_tests true false true true int p q r t =
    (λ e. cc, λ h. elim h [ inl x ↦ cc (x.3) | inr x ↦ cc (x.0) ])
kind_tests true false true false int p q r t = (λ e. inl (refl, refl, refl, refl), λ h. refl)
kind_tests true false false unnamed int p q r t =
    (λ e. cc, λ h. elim h [ inl x ↦ cc (x.2) | inr x ↦ cc (x.0) ])
kind_tests false bare there unnamed true p q r t = (λ e. inr (refl, refl), λ h. refl)
kind_tests false bare there unnamed false p q r t =
    (λ e. cc, λ h. elim h [ inl x ↦ cc (x.0) | inr x ↦ cc (x.1) ])

pub int_apart : (t : Text) → t ≡ codes "int" → text_eq t (codes "csv") ≡ false
unfolding text_eq
int_apart t e = ap (λ k. text_eq k (codes "csv")) e

pub kind_problems_iff :
    (c : Manifest) (id : Text) (i : Input) → (kind_problems c id i ≡ []) ↔ KindOk c i
unfolding kind_problems
kind_problems_iff c id i =
    let tests =
      kind_tests (text_eq i.kind (codes "csv")) (text_eq i.schema []) (is_there (schema c i.schema))
        (text_eq i.filename []) (text_eq i.kind (codes "int")) (needs_schema id i.name)
        (unknown_schema id i.name i.schema) (needs_filename id i.name)
        (bad_kind id i.name i.kind) in
    (λ e. read (tests.0 e), λ h. tests.1 (write h))
  where
    Tested : Type 0
    Tested =
        ((text_eq i.kind (codes "csv") ≡ true)
          × (text_eq i.schema [] ≡ false)
          × (is_there (schema c i.schema) ≡ true)
          × (text_eq i.filename [] ≡ false))
        ⊎ ((text_eq i.kind (codes "csv") ≡ false) × (text_eq i.kind (codes "int") ≡ true))

    read : Tested → KindOk c i
    read (inl (k, s, t, f)) = inl (
      (text_eq_iff i.kind (codes "csv")).0 k,
      (not_empty i.schema).0 s,
      t,
      (not_empty i.filename).0 f,
    )
    read (inr (k, n)) = inr ((text_eq_iff i.kind (codes "int")).0 n)

    write : KindOk c i → Tested
    write (inl (k, s, t, f)) = inl (
      (text_eq_iff i.kind (codes "csv")).1 k,
      (not_empty i.schema).1 s,
      t,
      (not_empty i.filename).1 f,
    )
    write (inr n) = inr (int_apart i.kind n, (text_eq_iff i.kind (codes "int")).1 n)

-- No two texts are the same.
abbrev pub Distinct : List Text → Type 0
Distinct [] = Unit
Distinct (x ∷ xs) = All (λ y. text_eq x y ≡ false) xs × Distinct xs

-- No two are the same, and none was seen before.
abbrev pub Fresh : (Text → Bool) → List Text → Type 0
Fresh seen xs = All (λ x. seen x ≡ false) xs × Distinct xs

All-both :
    (seen seen' : Text → Bool) (n : Text) (xs : List Text)
    → ((k : Text) → seen' k ≡ (text_eq n k || seen k))
    → All (λ x. seen' x ≡ false) xs
      ↔ (All (λ x. text_eq n x ≡ false) xs × All (λ x. seen x ≡ false) xs)
All-both seen seen' n [] h = (λ a. (tt, tt), λ a. tt)
All-both seen seen' n (x ∷ xs) h = ground (arith, h x, All-both seen seen' n xs h)

pub Fresh-step :
    (seen seen' : Text → Bool) (n : Text) (xs : List Text)
    → ((k : Text) → seen' k ≡ (text_eq n k || seen k))
    → Fresh seen (n ∷ xs) ↔ ((seen n ≡ false) × Fresh seen' xs)
Fresh-step seen seen' n xs h =
    let (only, when) = All-both seen seen' n xs h in
    (
      λ f. (f.0.0, (when (f.1.0, f.0.1), f.1.1)),
      λ f. ((f.0, (only f.1.0).1), ((only f.1.0).0, f.1.1)),
    )
