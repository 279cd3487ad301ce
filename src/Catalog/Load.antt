-- ===== src/Catalog/Load.antt =====
-- Load of server/internal/catalog/catalog.go: from the file to the catalog. encoding/json is a
-- parameter: `parse` reads any document, `decode` is the way back through text into the records.
use eagle_condor_sandbox.Prelude.{
  Bool, List, [], ◌∷◌, Option, none, some, ◌≡◌, refl, sym, ap, subst,
}
use eagle_condor_sandbox.Prelude.Text.{Text}
use eagle_condor_sandbox.Prelude.Assoc.{Assoc}
use eagle_condor_sandbox.Catalog.{Workflow, Manifest}
use eagle_condor_sandbox.Catalog.Comments.{Json, strip_comments}
use eagle_condor_sandbox.Catalog.Index.{Problem, index}

-- Catalog, with the map byID and the bytes of the file.
pub record Catalog : Type 0 where
  pub manifest : Manifest
  pub by_id : Assoc Workflow
  pub raw : Text

pub data Loading : Type 0 where
  unreadable not_json not_manifest : Loading
  inconsistent : List Problem → Loading
  catalog_loaded : Catalog → Loading

pub record JsonCodec : Type 0 where
  pub parse : Text → Option Json
  pub decode : Json → Option Manifest

abbrev pub indexed : Text → Manifest → List Problem × Assoc Workflow → Loading
indexed raw c ([], by_id) = catalog_loaded (record { manifest = c; by_id = by_id; raw = raw })
indexed raw c (p ∷ ps, by_id) = inconsistent (p ∷ ps)

abbrev pub decoded : (Text → Bool) → Text → Text → Option Manifest → Loading
decoded stat dir raw none = not_manifest
decoded stat dir raw (some c) = indexed raw c (index stat dir c)

abbrev pub parsed : JsonCodec → (Text → Bool) → Text → Text → Option Json → Loading
parsed codec stat dir raw none = not_json
parsed codec stat dir raw (some j) = decoded stat dir raw (codec.decode (strip_comments j))

abbrev pub read : JsonCodec → (Text → Bool) → Text → Option Text → Loading
read codec stat dir none = unreadable
read codec stat dir (some raw) = parsed codec stat dir raw (codec.parse raw)

-- Load, of what os.ReadFile answers for the manifest. `stat` says whether a path exists.
unfoldable pub load_catalog : JsonCodec → (Text → Bool) → Text → Option Text → Loading
unfolding strip_comments index
load_catalog codec stat dir file = read codec stat dir file

-- The catalog holds a manifest without a problem, and its index of the workflows.
abbrev pub IsLoaded : (Text → Bool) → Text → Catalog → Type 0
IsLoaded stat dir c =
    ((index stat dir c.manifest).0 ≡ []) × (c.by_id ≡ (index stat dir c.manifest).1)

indexed-IsLoaded :
    (stat : Text → Bool) (dir raw : Text) (m : Manifest) (c : Catalog)
    → indexed raw m (index stat dir m) ≡ catalog_loaded c
    → IsLoaded stat dir c
indexed-IsLoaded stat dir raw m c e = by_index (index stat dir m) refl e
  where
    by_index :
        (p : List Problem × Assoc Workflow)
        → index stat dir m ≡ p
        → indexed raw m p ≡ catalog_loaded c
        → IsLoaded stat dir c
    by_index ([], by_id) q e =
        subst (IsLoaded stat dir) (one _ c e) (ap (λ x. x.0) q, sym (ap (λ x. x.1) q))
      where
        one : (a b : Catalog) → catalog_loaded a ≡ catalog_loaded b → a ≡ b
        one a b e = cc
    by_index (p ∷ ps, by_id) q e = absurd (cc)

-- A catalog that Load returns is made of a manifest in which index finds no problem.
pub load_catalog-IsLoaded :
    (codec : JsonCodec) (stat : Text → Bool) (dir : Text) (file : Option Text) (c : Catalog)
    → load_catalog codec stat dir file ≡ catalog_loaded c
    → IsLoaded stat dir c
unfolding load_catalog
load_catalog-IsLoaded codec stat dir none c e = absurd (cc)
load_catalog-IsLoaded codec stat dir (some raw) c e = by_json (codec.parse raw) e
  where
    by_manifest :
        (m : Option Manifest) → decoded stat dir raw m ≡ catalog_loaded c → IsLoaded stat dir c
    by_manifest none e = absurd (cc)
    by_manifest (some m) e = indexed-IsLoaded stat dir raw m c e

    by_json :
        (j : Option Json) → parsed codec stat dir raw j ≡ catalog_loaded c → IsLoaded stat dir c
    by_json none e = absurd (cc)
    by_json (some j) e = by_manifest (codec.decode (strip_comments j)) e
