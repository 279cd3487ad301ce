-- ===== src/Examples/Manifests.antt =====
-- The theorems of server/internal/catalog/catalog.go at concrete inputs.
use eagle_condor_sandbox.Prelude.{Bool, [], ◌∷◌, none, ◌≡◌, ◌↔◌, refl, true, All}
use eagle_condor_sandbox.Prelude.Int.{pos}
use eagle_condor_sandbox.Prelude.Text.{Text, codes}
use eagle_condor_sandbox.Catalog.{Input, Workflow, Manifest, is_secret}
use eagle_condor_sandbox.Catalog.Index.{duplicate_id, index}
use eagle_condor_sandbox.Catalog.Index.Kinds.{Distinct}
use eagle_condor_sandbox.Catalog.Index.Workflows.{WorkflowOk}
use eagle_condor_sandbox.Catalog.Index.Accepts.{Finds, index_lem}
use eagle_condor_sandbox.Catalog.Comments.{Json, string, object, no_fields, field, comment_key}

abbrev pub users : Input
users = record {
  name = codes "users";
  kind = codes "csv";
  required = true;
  env = codes "MASTER_CSV";
  filename = codes "users.csv";
  schema = codes "ta";
  label = codes "Users";
  default = none;
}

abbrev pub single : Workflow
single = record {
  id = codes "gis-single";
  module_code = codes "gis";
  label = codes "GIS";
  spec = codes "tests/gis.spec.ts";
  default_timeout = pos 600;
  max_timeout = pos 1800;
  inputs = users ∷ [];
}

abbrev pub manifest : Manifest
manifest = record {
  modules = record { code = codes "gis"; label = codes "GIS" } ∷ [];
  csv_schemas =
      (codes "ta", record { headers = codes "User" ∷ []; secret_columns = codes "Password" ∷ [] })
      ∷ [];
  workflows = single ∷ [];
}

abbrev pub all_there : Text → Bool
all_there path = true

index_lem_example :
    let (problems, by_id) = index all_there (codes "/srv") manifest in
    ((problems ≡ []) ↔ (
      All (WorkflowOk all_there (codes "/srv") manifest) (single ∷ [])
      × Distinct (codes "gis-single" ∷ [])))
    × (problems ≡ [] → Finds (single ∷ []) by_id)
index_lem_example = index_lem all_there (codes "/srv") manifest

accepted : (index all_there (codes "/srv") manifest).0 ≡ []
unfolding index
accepted = refl

twice_refused :
    (index all_there (codes "/srv") (record manifest { workflows = single ∷ single ∷ [] })).0
    ≡ duplicate_id (codes "gis-single") ∷ []
unfolding index
twice_refused = refl

hides_password : is_secret (codes "Password" ∷ []) (codes "PASSWORD") ≡ true
unfolding is_secret
hides_password = refl

abbrev documented : Json
documented =
    object (field comment_key (string (codes "prose")) (field (codes "a") (string []) no_fields))
