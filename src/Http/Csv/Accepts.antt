-- ===== src/Http/Csv/Accepts.antt =====
-- When validateCSV (server/internal/httpapi/handlers.go) accepts an upload.
use eagle_condor_sandbox.Prelude.{
  ℕ, suc, Bool, List, [], ◌∷◌, ◌++◌, Option, none, some, ◌≡◌, ◌≢◌, ◌↔◌, ◌⊎◌, inl, inr, refl, sym,
  ap, ◌∙◌, subst, length, drop, All,
}
use eagle_condor_sandbox.Prelude.Text.{Text}
use eagle_condor_sandbox.Catalog.{Input, CsvSchema, Manifest, schema}
use eagle_condor_sandbox.Http.Header.{Row, columns, Header, scan_rows, score, find_header_row}
use eagle_condor_sandbox.Http.Header.Chosen.{IsFirst, Misses, find-full, find-Misses, first_IsFirst}
use eagle_condor_sandbox.Http.Csv.Cells.{IsAttached, check_columns_iff}
use eagle_condor_sandbox.Http.Csv.{
  check_columns, attachment_columns, receipt_error, check_missing, check_header, check_rows,
  check_schema, validate_csv,
}

-- What an accepted upload is.
pub record IsAccepted (has : Text → Bool) (csv : Text → Option (List Row)) (c : Manifest)
    (i : Input) (data_text : Text) : Type 0 where
  pub columns_of : CsvSchema
  pub schema_found : schema c i.schema ≡ some columns_of
  pub headed : columns_of.headers ≢ []
  pub rows : List Row
  pub parsed : csv data_text ≡ some rows
  pub idx : ℕ
  pub header : Row
  pub first : IsFirst columns_of.headers rows idx header
  pub attached : All (IsAttached has header (first.behind)) attachment_columns

drop-parts {ℓ} : {A : Type ℓ} (ys zs : List A) (y : A) → drop (suc (length ys)) (ys ++ y ∷ zs) ≡ zs
drop-parts [] zs y = refl
drop-parts (x ∷ ys) zs y = drop-parts ys zs y

receipt_error_iff : (o : Option Text) → (receipt_error o ≡ none) ↔ (o ≡ none)
receipt_error_iff none = (λ e. refl, λ e. refl)
receipt_error_iff (some t) = (λ e. absurd (cc), λ e. absurd (cc))

check_missing-ne :
    (has : Text → Bool) (rows : List Row) (h : Header) (ms : List Text)
    → ms ≢ []
    → check_missing has rows h ms ≢ none
check_missing-ne has rows h [] m e = m refl
check_missing-ne has rows h (w ∷ ws) m e = absurd (cc)

check_header-Misses :
    (has : Text → Bool) (rows : List Row) (o : Option Header)
    → Misses o
    → check_header has rows o ≢ none
check_header-Misses has rows none m e = absurd (cc)
check_header-Misses has rows (some h) m e = check_missing-ne has rows h h.missing m e

-- With no column to look for, no header is found.
pub no_columns : (rows : List Row) → find_header_row rows [] ≡ none
unfolding find_header_row scan_rows score
no_columns [] = refl
no_columns (r ∷ rs) = refl

nil_ne {ℓ} : {A : Type ℓ} (ys zs : List A) (y : A) → [] ≢ ys ++ y ∷ zs
nil_ne [] zs y e = absurd (cc)
nil_ne (x ∷ ys) zs y e = absurd (cc)

behind_first :
    (want : List Text) (rows : List Row) (i : ℕ) (header : Row) (f : IsFirst want rows i header)
    → drop (suc i) rows ≡ f.behind
behind_first want rows i header f =
    ap (λ k. drop (suc k) rows) f.place
    ∙ ap (drop (suc (length f.ahead))) f.parts
    ∙ drop-parts f.ahead f.behind header

check_rows_iff :
    (has : Text → Bool) (want : List Text) (rows : List Row) (i : ℕ) (header : Row)
    (f : IsFirst want rows i header)
    → want ≢ []
    → (check_rows has want (some rows) ≡ none)
      ↔ All (IsAttached has header f.behind) attachment_columns
check_rows_iff has want [] i header f ne = absurd (nil_ne f.ahead f.behind header f.parts)
check_rows_iff has want (r ∷ rs) i header f ne =
    let e : check_rows has want (some (r ∷ rs))
        ≡ receipt_error (check_columns has attachment_columns (columns 0 header []) f.behind) =
      ap (check_header has (r ∷ rs)) (find-full want (r ∷ rs) i header ne f)
      ∙ ap
          (λ below.
            receipt_error (check_columns has attachment_columns (columns 0 header []) below))
          (behind_first want (r ∷ rs) i header f) in
    let checks = check_columns_iff has attachment_columns header f.behind in
    (
      λ q. checks.0 ((receipt_error_iff _).0 (sym e ∙ q)),
      λ h. e ∙ (receipt_error_iff _).1 (checks.1 h),
    )

check_rows-Misses :
    (has : Text → Bool) (want : List Text) (rows : List Row)
    → Misses (find_header_row rows want)
    → check_rows has want (some rows) ≢ none
check_rows-Misses has want [] m e = absurd (cc)
check_rows-Misses has want (r ∷ rs) m e = check_header-Misses has (r ∷ rs) _ m e

no_columns-Misses :
    (want : List Text) (rows : List Row) → want ≡ [] → Misses (find_header_row rows want)
no_columns-Misses want rows e =
    subst (λ w. Misses (find_header_row rows w)) (sym e) (subst Misses (sym (no_columns rows)) tt)

is_empty : (want : List Text) → (want ≡ []) ⊎ (want ≢ [])
is_empty [] = inl refl
is_empty (w ∷ ws) = inr λ e. cc

module _ (has : Text → Bool) (csv : Text → Option (List Row)) (c : Manifest) (i : Input)
    (t : Text) where
  IsAccepted-only :
      (sch : CsvSchema) (rows : List Row)
      → schema c i.schema ≡ some sch
      → csv t ≡ some rows
      → check_rows has sch.headers (some rows) ≡ none
      → IsAccepted has csv c i t
  IsAccepted-only sch rows s p e = elim (is_empty sch.headers) [
    | inl q ↦
        absurd (check_rows-Misses has sch.headers rows (no_columns-Misses sch.headers rows q) e)
    | inr ne ↦ elim (first_IsFirst sch.headers rows) [
      | inl h ↦ absurd (check_rows-Misses has sch.headers rows (find-Misses sch.headers rows h) e)
      | inr (k, header, f) ↦ record {
        columns_of = sch;
        schema_found = s;
        headed = ne;
        rows = rows;
        parsed = p;
        idx = k;
        header = header;
        first = f;
        attached = (check_rows_iff has sch.headers rows k header f ne).0 e;
      }
    ]
  ]

  -- validateCSV accepts an upload exactly if the input's schema is in the manifest and has a
  -- column, the text is CSV, one of its first ten rows has all the columns of the schema, and
  -- below the first such row each cell of the columns attName and attachmentFile, if the row has
  -- them, is blank or names a file of the library.
  pub validate_csv_iff : (validate_csv has csv c i t ≡ none) ↔ IsAccepted has csv c i t
  unfolding validate_csv
  validate_csv_iff = (
    λ e. from (schema c i.schema) refl e,
    λ a.
        ap (check_schema has csv t) a.schema_found
        ∙ ap (check_rows has a.columns_of.headers) a.parsed
        ∙ (check_rows_iff has a.columns_of.headers a.rows a.idx a.header a.first a.headed).1
            a.attached,
  )
    where
      parsed :
          (sch : CsvSchema) (o : Option (List Row))
          → schema c i.schema ≡ some sch
          → csv t ≡ o
          → check_rows has sch.headers o ≡ none
          → IsAccepted has csv c i t
      parsed sch none s p e = absurd (cc)
      parsed sch (some rows) s p e = IsAccepted-only sch rows s p e

      from :
          (o : Option CsvSchema)
          → schema c i.schema ≡ o
          → check_schema has csv t o ≡ none
          → IsAccepted has csv c i t
      from none s e = absurd (cc)
      from (some sch) s e = parsed sch (csv t) s refl e
