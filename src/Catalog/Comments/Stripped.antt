-- ===== src/Catalog/Comments/Stripped.antt =====
-- What stripComments (server/internal/catalog/catalog.go) leaves of a manifest.
use mathlib.Core.Option
use eagle_condor_sandbox.Prelude.{
  false, Option, none, some, ◌≡◌, refl, sym, ap, ◌∙◌, arith, Bool-cases, inl, inr, if◌then◌else◌,
}
use eagle_condor_sandbox.Prelude.Text.{Text, text_eq, text_eq_iff}
use eagle_condor_sandbox.Catalog.Comments.{
  Json, null, bool, number, string, array, object, Items, no_items, item, Fields, no_fields, field,
  comment_key, strip_comments, strip_items, strip_fields,
}

unfoldable mutual
  -- No comment at any depth.
  pub Clean : Json → Type 0
  Clean (array is) = CleanItems is
  Clean (object fs) = CleanFields fs
  Clean other = Unit

  pub CleanItems : Items → Type 0
  CleanItems no_items = Unit
  CleanItems (item v is) = Clean v × CleanItems is

  pub CleanFields : Fields → Type 0
  CleanFields no_fields = Unit
  CleanFields (field k v fs) = (text_eq k comment_key ≡ false) × Clean v × CleanFields fs

mutual
  unfolding strip_comments strip_items strip_fields Clean CleanItems CleanFields

  strip_comments-Clean : (v : Json) → Clean (strip_comments v)
  strip_comments-Clean null = tt
  strip_comments-Clean (bool b) = tt
  strip_comments-Clean (number t) = tt
  strip_comments-Clean (string t) = tt
  strip_comments-Clean (array is) = strip_items-Clean is
  strip_comments-Clean (object fs) = strip_fields-Clean fs

  strip_items-Clean : (is : Items) → CleanItems (strip_items is)
  strip_items-Clean no_items = tt
  strip_items-Clean (item v is) = (strip_comments-Clean v, strip_items-Clean is)

  strip_fields-Clean : (fs : Fields) → CleanFields (strip_fields fs)
  strip_fields-Clean no_fields = tt
  strip_fields-Clean (field k v fs) = elim (Bool-cases (text_eq k comment_key)) [
    | inl e ↦ rw e (strip_fields-Clean fs)
    | inr e ↦ rw e (e, strip_comments-Clean v, strip_fields-Clean fs)
  ]

mutual
  unfolding strip_comments strip_items strip_fields Clean CleanItems CleanFields

  strip_comments_kept : (v : Json) → Clean v → strip_comments v ≡ v
  strip_comments_kept null h = refl
  strip_comments_kept (bool b) h = refl
  strip_comments_kept (number t) h = refl
  strip_comments_kept (string t) h = refl
  strip_comments_kept (array is) h = ap array (strip_items_kept is h)
  strip_comments_kept (object fs) h = ap object (strip_fields_kept fs h)

  strip_items_kept : (is : Items) → CleanItems is → strip_items is ≡ is
  strip_items_kept no_items h = refl
  strip_items_kept (item v is) (h, hs) = rw (strip_comments_kept v h, strip_items_kept is hs)

  strip_fields_kept : (fs : Fields) → CleanFields fs → strip_fields fs ≡ fs
  strip_fields_kept no_fields h = refl
  strip_fields_kept (field k v fs) (e, h, hs) =
      rw (e, strip_comments_kept v h, strip_fields_kept fs hs)

-- No "$comment" key is left at any depth; to strip again changes nothing; and a document without
-- one is not changed at all.
pub strip_comments_lem :
    (v : Json)
    → Clean (strip_comments v)
      × (strip_comments (strip_comments v) ≡ strip_comments v)
      × (Clean v → strip_comments v ≡ v)
strip_comments_lem v = (
  strip_comments-Clean v,
  strip_comments_kept (strip_comments v) (strip_comments-Clean v),
  strip_comments_kept v,
)

-- The value of a key.
unfoldable pub value_of : Text → Fields → Option Json
unfolding text_eq
value_of k no_fields = none
value_of k (field j v fs) = let rest = value_of k fs in if text_eq j k then some v else rest

-- An object keeps every other key, with its value stripped in turn.
pub value_of-strip_fields :
    (k : Text) (fs : Fields)
    → value_of k (strip_fields fs)
      ≡ (if text_eq k comment_key then none else Option.map strip_comments (value_of k fs))
unfolding value_of strip_fields
value_of-strip_fields k no_fields = ground arith
value_of-strip_fields k (field j v fs) = elim (Bool-cases (text_eq j comment_key)) [
  | inl c ↦ elim (Bool-cases (text_eq j k)) [
    | inl e ↦
        rw (c, e)
          (value_of-strip_fields k fs
            ∙ rw (ap (λ t. text_eq t comment_key) (sym ((text_eq_iff j k).0 e)) ∙ c))
    | inr e ↦ rw (c, e) (value_of-strip_fields k fs)
  ]
  | inr c ↦ elim (Bool-cases (text_eq j k)) [
    | inl e ↦ rw (c, e, ap (λ t. text_eq t comment_key) (sym ((text_eq_iff j k).0 e)) ∙ c)
    | inr e ↦ rw (c, e) (value_of-strip_fields k fs)
  ]
]
