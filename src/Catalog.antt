-- ===== src/Catalog.antt =====
-- server/internal/catalog/catalog.go: the manifest of workflows.
pub mod Index
pub mod Comments
pub mod Load
use eagle_condor_sandbox.Prelude.{
  Bool, true, false, List, [], ◌∷◌, Option, none, some, if◌then◌else◌,
}
use eagle_condor_sandbox.Prelude.Int.{ℤ}
use eagle_condor_sandbox.Prelude.Text.{Text, text_eq, equal_fold}
use eagle_condor_sandbox.Prelude.Assoc.{Assoc, lookup}

pub record Module : Type 0 where
  pub code : Text
  pub label : Text

-- Input. The fields that the server passes through untouched (template, parser, template_filename,
-- template_help, group, caption, note, help, min, max) play no part in what it does.
pub record Input : Type 0 where
  pub name : Text
  pub kind : Text
  pub required : Bool
  pub env : Text
  pub filename : Text
  pub schema : Text
  pub label : Text
  pub default : Option ℤ

pub record Workflow : Type 0 where
  pub id : Text
  pub module_code : Text
  pub label : Text
  pub spec : Text
  pub default_timeout : ℤ
  pub max_timeout : ℤ
  pub inputs : List Input

-- Workflow.Input: the first input of the name.
unfoldable pub find_input : Text → List Input → Option Input
unfolding text_eq
find_input name [] = none
find_input name (i ∷ r) = if text_eq i.name name then some i else find_input name r

pub record CsvSchema : Type 0 where
  pub headers : List Text
  pub secret_columns : List Text

-- IsSecret
unfoldable pub is_secret : List Text → Text → Bool
unfolding equal_fold
is_secret [] col = false
is_secret (c ∷ r) col = let rest = is_secret r col in if equal_fold c col then true else rest

pub record Manifest : Type 0 where
  pub modules : List Module
  pub csv_schemas : Assoc CsvSchema
  pub workflows : List Workflow

-- Catalog.Schema
unfoldable pub schema : Manifest → Text → Option CsvSchema
unfolding lookup
schema c name = lookup name c.csv_schemas
