-- ===== src/Receipts.antt =====
-- server/internal/receipts/receipts.go: the library of attachments. What os.ReadDir and os.Stat
-- answer is a parameter; sizes and times are those of os.FileInfo.
pub mod Shown
use eagle_condor_sandbox.Prelude.{
  ℕ, Bool, true, false, not, ◌&&◌, ◌||◌, List, [], ◌∷◌, ◌++◌, Option, none, some, ◌==◌,
  if◌then◌else◌, length,
}
use eagle_condor_sandbox.Prelude.Int.{ℤ, pos, ltb_ℤ}
use eagle_condor_sandbox.Prelude.Text.{Text, codes, text_eq, has_prefix, equal_fold}
use eagle_condor_sandbox.Prelude.Decimal.{format_int, format_signed}
use eagle_condor_sandbox.Prelude.Sort.{sort_by}
use eagle_condor_sandbox.Config.{Stat, file, folder, absent}

-- Receipt. `modified_at` is its UnixNano.
pub record Receipt : Type 0 where
  pub name : Text
  pub size : ℤ
  pub modified_at : ℤ

-- An entry of the directory, with what e.Info answers: size and time.
pub record DirEntry : Type 0 where
  pub name : Text
  pub is_dir : Bool
  pub info : Option (ℤ × ℤ)

pub data Listing : Type 0 where
  not_exist failed : Listing
  entries : List DirEntry → Listing

-- skip
unfoldable pub skip : Text → Bool
unfolding has_prefix equal_fold
skip name = has_prefix name (codes ".") || equal_fold name (codes "README.md")

abbrev pub with_info : Text → Option (ℤ × ℤ) → List Receipt → List Receipt
with_info name none rest = rest
with_info name (some (size, time)) rest =
    record { name = name; size = size; modified_at = time } ∷ rest

-- The loop of List.
unfoldable pub gather : List DirEntry → List Receipt
unfolding skip
gather [] = []
gather (e ∷ es) =
    let rest = gather es in if e.is_dir || skip e.name then rest else with_info e.name e.info rest

-- List: `none` is the error of a directory that cannot be read.
unfoldable pub list_receipts : Listing → Option (List Receipt)
unfolding gather sort_by
list_receipts not_exist = some []
list_receipts failed = none
list_receipts (entries es) = some (sort_by (λ r. r.name) (gather es))

-- strings.ContainsAny(name, `/\`)
unfoldable pub has_separator : Text → Bool
has_separator [] = false
has_separator (c ∷ s) = (c == b'/') || (c == 0x5c) || has_separator s

abbrev pub is_file : Stat → Bool
is_file file = true
is_file folder = false
is_file absent = false

-- Has, of the library in `dir`
unfoldable pub has_receipt : Text → (Text → Stat) → Text → Bool
unfolding text_eq has_separator
has_receipt dir stat name =
    not (text_eq name [] || has_separator name) && is_file (stat (dir ++ (codes "/" ++ name)))

-- The loop of ETag.
unfoldable pub newest : ℤ → List Receipt → ℤ
newest t [] = t
newest t (r ∷ rs) = newest (if ltb_ℤ t r.modified_at then r.modified_at else t) rs

-- ETag
unfoldable pub etag : List Receipt → Text
unfolding newest format_int format_signed
etag rs =
    codes "W/\""
    ++ (format_int (length rs) ++ (codes "-" ++ (format_signed (newest (pos 0) rs) ++ codes "\"")))
