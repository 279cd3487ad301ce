-- ===== src/Http/Csv.antt =====
-- validateCSV of server/internal/httpapi/handlers.go. Reading the text as CSV and looking into the
-- library are parameters.
pub mod Cells
pub mod Accepts
use eagle_condor_sandbox.Prelude.{
  ℕ, suc, Bool, true, false, ◌||◌, List, [], ◌∷◌, Option, none, some, if◌then◌else◌, get_elem?,
  drop,
}
use eagle_condor_sandbox.Prelude.Text.{Text, codes, text_eq}
use eagle_condor_sandbox.Prelude.Space.{trim_space}
use eagle_condor_sandbox.Prelude.Assoc.{Assoc, lookup, insert}
use eagle_condor_sandbox.Catalog.{Input, CsvSchema, Manifest, schema}
use eagle_condor_sandbox.Http.Header.{Row, Header, find_header_row}

pub data CsvError : Type 0 where
  unknown_schema not_csv empty no_header : CsvError
  missing_columns : List Text → CsvError
  unknown_receipt : Text → CsvError

abbrev pub is_set : Option Bool → Bool
is_set none = false
is_set (some b) = b

abbrev pub cell : ℕ → Row → Text
cell idx row = elim (get_elem? row idx) [ none ↦ [] | some c ↦ trim_space c ]

abbrev pub first_error : Option Text → Option Text → Option Text
first_error none later = later
first_error (some name) later = some name

module _ (has : Text → Bool) where
  -- The loop over the rows below the header: the first name that the library does not have. A row
  -- without the cell is passed over as one with an empty cell is.
  unfoldable pub check_cells : ℕ → Assoc Bool → List Row → Option Text
  unfolding lookup insert text_eq trim_space
  check_cells idx seen [] = none
  check_cells idx seen (row ∷ rows) =
      let name = cell idx row in
      let skipped = check_cells idx seen rows in
      let rest = check_cells idx (insert name true seen) rows in
      if text_eq name [] || is_set (lookup name seen)
      then skipped
      else if has name
      then rest
      else some name

  abbrev pub check_column : Option ℕ → List Row → Option Text
  check_column none rows = none
  check_column (some idx) rows = check_cells idx [] rows

  -- The loop over the columns of attachments.
  unfoldable pub check_columns : List Text → Assoc ℕ → List Row → Option Text
  unfolding lookup check_cells
  check_columns [] present rows = none
  check_columns (col ∷ cols) present rows =
      first_error (check_column (lookup col present) rows) (check_columns cols present rows)

abbrev pub attachment_columns : List Text
attachment_columns = codes "attName" ∷ codes "attachmentFile" ∷ []

abbrev pub receipt_error : Option Text → Option CsvError
receipt_error none = none
receipt_error (some name) = some (unknown_receipt name)

abbrev pub check_missing : (Text → Bool) → List Row → Header → List Text → Option CsvError
check_missing has rows h [] =
    receipt_error (check_columns has attachment_columns h.present (drop (suc h.idx) rows))
check_missing has rows h (w ∷ ws) = some (missing_columns (w ∷ ws))

abbrev pub check_header : (Text → Bool) → List Row → Option Header → Option CsvError
check_header has rows none = some no_header
check_header has rows (some h) = check_missing has rows h h.missing

abbrev pub check_rows : (Text → Bool) → List Text → Option (List Row) → Option CsvError
check_rows has want none = some not_csv
check_rows has want (some []) = some empty
check_rows has want (some (r ∷ rs)) = check_header has (r ∷ rs) (find_header_row (r ∷ rs) want)

abbrev pub check_schema :
    (Text → Bool) → (Text → Option (List Row)) → Text → Option CsvSchema → Option CsvError
check_schema has csv data_text none = some unknown_schema
check_schema has csv data_text (some sch) = check_rows has sch.headers (csv data_text)

-- validateCSV: `none` is that there is no error.
unfoldable pub validate_csv :
    (Text → Bool) → (Text → Option (List Row)) → Manifest → Input → Text → Option CsvError
unfolding schema find_header_row check_columns
validate_csv has csv c i data_text = check_schema has csv data_text (schema c i.schema)
