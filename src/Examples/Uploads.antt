-- ===== src/Examples/Uploads.antt =====
-- The theorems of spreadsheets, receipts, logs and queries of server/internal/httpapi/handlers.go
-- and server/internal/receipts/receipts.go at concrete inputs.
use eagle_condor_sandbox.Prelude.{
  Bool, true, false, List, [], ◌∷◌, Option, none, some, ◌≡◌, ◌↔◌, refl, arith, All,
}
use mathlib.Core.List.{Perm}
use eagle_condor_sandbox.Prelude.Int.{ℤ, pos}
use eagle_condor_sandbox.Prelude.Text.{Text, codes}
use eagle_condor_sandbox.Prelude.Assoc.{Assoc, lookup}
use eagle_condor_sandbox.Prelude.Decimal.{format_signed, IsInt64}
use eagle_condor_sandbox.Prelude.Sort.{Sorted}
use eagle_condor_sandbox.Config.{Stat, file}
use eagle_condor_sandbox.Receipts.{Receipt, DirEntry, entries, list_receipts, has_receipt}
use eagle_condor_sandbox.Receipts.Shown.{Gathers, IsShown, list_receipts_lem}
use eagle_condor_sandbox.Http.Header.{Row, find_header_row}
use eagle_condor_sandbox.Http.Header.Chosen.{header_at}
use eagle_condor_sandbox.Http.Csv.{validate_csv}
use eagle_condor_sandbox.Http.Csv.Accepts.{IsAccepted, validate_csv_iff}
use eagle_condor_sandbox.Http.Tail.{tail_file}
use eagle_condor_sandbox.Http.Tail.Lines.{numbered, continues}
use eagle_condor_sandbox.Http.Tail.Written.{file_of, tail_file_lem}
use eagle_condor_sandbox.Http.Query.{query_int, query_int_lem}
use eagle_condor_sandbox.Examples.Manifests.{users, manifest}

abbrev pub all_files : Text → Stat
all_files path = file

hidden_but_accepted : has_receipt (codes "/srv/receipts") all_files (codes "README.md") ≡ true
unfolding has_receipt
hidden_but_accepted = refl

abbrev pdf : DirEntry
pdf = record { name = codes "a.pdf"; is_dir = false; info = some (pos 12, pos 900) }

list_receipts_lem_example :
    (rs : List Receipt) × (list_receipts (entries (pdf ∷ [])) ≡ some rs)
    × Sorted (λ (r : Receipt). r.name) rs
    × ((xs : List Receipt) × Gathers (pdf ∷ []) xs × Perm rs xs)
    × All (IsShown (codes "/srv/receipts") all_files) rs
list_receipts_lem_example =
    list_receipts_lem (codes "/srv/receipts") all_files (pdf ∷ []) (λ e. (cc, refl), tt)

-- A title row, the header, and one user.
abbrev pub sheet : List Row
sheet = (codes "GIS users" ∷ []) ∷ (codes "User" ∷ []) ∷ (codes "jane" ∷ []) ∷ []

second_row : find_header_row sheet (codes "User" ∷ []) ≡ some (header_at 1 (codes "User" ∷ []))
unfolding find_header_row
second_row = refl

abbrev pub parse_sheet : Text → Option (List Row)
parse_sheet t = some sheet

abbrev accepts_all : Text → Bool
accepts_all name = true

validate_csv_iff_example :
    (validate_csv accepts_all parse_sheet manifest users (codes "User") ≡ none)
    ↔ IsAccepted accepts_all parse_sheet manifest users (codes "User")
validate_csv_iff_example = validate_csv_iff accepts_all parse_sheet manifest users (codes "User")

sheet_accepted : validate_csv accepts_all parse_sheet manifest users (codes "User") ≡ none
unfolding validate_csv
sheet_accepted = refl

abbrev two_lines : List Text
two_lines = codes "one" ∷ codes "two" ∷ []

tail_file_lem_example :
    tail_file (some (file_of two_lines)) (pos 1) (pos 500)
    ≡ (numbered 1 (codes "two" ∷ []), continues 2 1 (codes "two" ∷ []))
tail_file_lem_example =
    tail_file_lem two_lines (pos 1) (pos 500)
      ((refl, (refl, (refl, tt))), ((refl, (refl, (refl, tt))), tt)) (λ e. cc) (omega arith)

abbrev asked : Assoc Text
asked = (codes "limit", format_signed (pos 20)) ∷ []

query_int_lem_example :
    let q = asked in
    (lookup (codes "limit") q ≡ none → query_int q (codes "limit") (pos 100) ≡ pos 100)
    × ((z : ℤ)
        → IsInt64 z
        → lookup (codes "limit") q ≡ some (format_signed z)
        → query_int q (codes "limit") (pos 100) ≡ z)
    × IsInt64 (query_int q (codes "limit") (pos 100))
query_int_lem_example = query_int_lem asked (codes "limit") (pos 100) (omega arith)
