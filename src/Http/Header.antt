-- ===== src/Http/Header.antt =====
-- findHeaderRow of server/internal/httpapi/handlers.go: the row of a CSV that holds the column names.
pub mod Columns
pub mod Scan
pub mod Chosen
use eagle_condor_sandbox.Prelude.{
  ℕ, zero, suc, ◌+◌, Bool, true, false, List, [], ◌∷◌, Option, none, some, ◌==◌, if◌then◌else◌, ltb,
  length, take,
}
use eagle_condor_sandbox.Prelude.Text.{Text, trim_prefix}
use eagle_condor_sandbox.Prelude.Space.{trim_space}
use eagle_condor_sandbox.Prelude.Assoc.{Assoc, lookup, insert}

abbrev pub Row : Type 0
Row = List Text

-- "\ufeff"
abbrev byte_order_mark : Text
byte_order_mark = 0xef ∷ 0xbb ∷ 0xbf ∷ []

-- A cell as a column's name.
unfoldable pub column_name : Text → Text
unfolding trim_prefix trim_space
column_name h = trim_space (trim_prefix h byte_order_mark)

-- The map `cols` of a row, from the cell `j` on.
unfoldable pub columns : ℕ → Row → Assoc ℕ → Assoc ℕ
unfolding insert column_name
columns j [] m = m
columns j (h ∷ hs) m = columns (j + 1) hs (insert (column_name h) j m)

abbrev pub found : Option ℕ → Bool
found none = false
found (some j) = true

-- The score of a row.
unfoldable pub score : List Text → Assoc ℕ → ℕ
unfolding lookup
score [] m = 0
score (w ∷ ws) m = let rest = score ws m in if found (lookup w m) then suc rest else rest

-- The names that are not there.
unfoldable pub absent_of : List Text → Assoc ℕ → List Text
unfolding lookup
absent_of [] m = []
absent_of (w ∷ ws) m = let rest = absent_of ws m in if found (lookup w m) then rest else w ∷ rest

-- bestIdx, bestScore and bestPresent, once there are some.
pub record Best : Type 0 where
  pub idx : ℕ
  pub points : ℕ
  pub present : Assoc ℕ

abbrev pub is_better : ℕ → Option Best → Bool
is_better n none = true
is_better n (some b) = ltb b.points n

abbrev pub next_best : ℕ → ℕ → Assoc ℕ → Option Best → Option Best
next_best i n m best =
    if is_better n best then some (record { idx = i; points = n; present = m }) else best

-- The loop over the rows, from row `i` on.
unfoldable pub scan_rows : List Text → ℕ → List Row → Option Best → Option Best
unfolding columns score
scan_rows want i [] best = best
scan_rows want i (r ∷ rs) best =
    let m = columns 0 r [] in
    let n = score want m in
    let next = next_best i n m best in
    let rest = scan_rows want (i + 1) rs next in if n == length want then next else rest

-- headerScanRows
abbrev pub header_scan_rows : ℕ
header_scan_rows = 10

pub record Header : Type 0 where
  pub idx : ℕ
  pub present : Assoc ℕ
  pub missing : List Text

abbrev pub header_of : List Text → Option Best → Option Header
header_of want none = none
header_of want (some b) =
    if b.points == 0
    then none
    else some (record { idx = b.idx; present = b.present; missing = absent_of want b.present })

-- findHeaderRow: `none` is the index -1.
unfoldable pub find_header_row : List Row → List Text → Option Header
unfolding scan_rows absent_of
find_header_row rows want = header_of want (scan_rows want 0 (take header_scan_rows rows) none)
