-- ===== src/Http/Create/Provided.antt =====
-- What the loop over the inputs in createRun (server/internal/httpapi/handlers.go) gives to the child.
use eagle_condor_sandbox.Prelude.{
  true, false, Option, none, some, ◌≡◌, ◌⊎◌, refl, sym, ap, ◌∙◌, inl, inr,
}
use eagle_condor_sandbox.Prelude.Int.{ℤ}
use eagle_condor_sandbox.Prelude.Decimal.{format_signed}
use eagle_condor_sandbox.Prelude.Text.{Text, codes, text_eq_iff}
use eagle_condor_sandbox.Prelude.Assoc.{lookup, lookup-insert_self}
use eagle_condor_sandbox.Catalog.{Input}
use eagle_condor_sandbox.Catalog.Index.Kinds.{int_apart}
use eagle_condor_sandbox.Layout.{input}
use eagle_condor_sandbox.Layout.Path.{join}
use eagle_condor_sandbox.Http.Csv.{CsvError}
use eagle_condor_sandbox.Http.Server.{Server, Codec, Answers}
use eagle_condor_sandbox.Http.Upload.{fine, if-fine, if-refused, fine-inj}
use eagle_condor_sandbox.Http.Inputs.{
  Gathered, Request, check_csv, written, checked_csv, take_csv, with_param, default_param, take_int,
  take_input,
}

module _ (s : Server) (codec : Codec) (w : Answers) where
  -- Where the file of an input goes.
  abbrev pub destination : Request → Input → Text
  destination q i = join (input q.root) i.filename

  -- A spreadsheet: it was sent, accepted and written, and its variable is its path; or it may be
  -- missing and was not sent.
  abbrev pub IsSheet : Request → Input → Option Text → Type 0
  IsSheet q i entry =
      ((t : Text) × (lookup i.name q.uploads ≡ some t)
        × (check_csv s codec w i t ≡ none)
        × (w.write (destination q i) ≡ true)
        × (entry ≡ some (destination q i)))
      ⊎ ((lookup i.name q.uploads ≡ none) × (i.required ≡ false))

  -- A number: its variable and its parameter are the text that was given, whatever it is, or the default;
  -- or it may be missing.
  abbrev pub IsNumber : Request → Input → Option Text → Option Text → Type 0
  IsNumber q i entry param =
      ((raw : Text) × (lookup i.name q.given ≡ some raw) × (entry ≡ some raw) × (param ≡ some raw))
      ⊎ (((z : ℤ) × (lookup i.name q.given ≡ none)
            × (i.default ≡ some z)
            × (entry ≡ some (format_signed z))
            × (param ≡ some (format_signed z)))
          ⊎ ((lookup i.name q.given ≡ none) × (i.default ≡ none) × (i.required ≡ false)))

  abbrev pub IsProvided : Request → Input → Option Text → Option Text → Type 0
  IsProvided q i entry param =
      (i.kind ≡ codes "csv" → IsSheet q i entry) × (i.kind ≡ codes "int" → IsNumber q i entry param)

  written-fine :
      (dest : Text) (i : Input) (t : Text) (g g' : Gathered)
      → written s codec w dest i t g ≡ fine g'
      → (w.write dest ≡ true) × (lookup i.env g'.child_env ≡ some dest)
  written-fine dest i t g g' e =
      let (ok, same) = if-fine (w.write dest) _ g' _ e in
      (
        ok,
        ap (λ (x : Gathered). lookup i.env x.child_env) (sym same)
            ∙ lookup-insert_self i.env dest g.child_env,
      )

  checked_csv-fine :
      (q : Request) (i : Input) (t : Text) (o : Option CsvError) (g g' : Gathered)
      → checked_csv s codec w q.root i t o g ≡ fine g'
      → (o ≡ none)
        × (w.write (destination q i) ≡ true)
        × (lookup i.env g'.child_env ≡ some (destination q i))
  checked_csv-fine q i t (some x) g g' e = absurd (cc)
  checked_csv-fine q i t none g g' e =
      let (ok, entry) = written-fine (destination q i) i t g g' e in (refl, ok, entry)

  take_csv-IsSheet :
      (q : Request) (i : Input) (o : Option Text) (g g' : Gathered)
      → lookup i.name q.uploads ≡ o
      → take_csv s codec w q.root i o g ≡ fine g'
      → IsSheet q i (lookup i.env g'.child_env)
  take_csv-IsSheet q i none g g' l e = inr (l, (if-refused i.required _ g' _ e).0)
  take_csv-IsSheet q i (some t) g g' l e =
      let (ok, wrote, entry) = checked_csv-fine q i t (check_csv s codec w i t) g g' e in
      inl (t, l, ok, wrote, entry)

  with_param-entries :
      (i : Input) (raw : Text) (g g' : Gathered)
      → with_param s codec w i raw g ≡ g'
      → (lookup i.env g'.child_env ≡ some raw) × (lookup i.name g'.params ≡ some raw)
  with_param-entries i raw g g' e = (
    ap (λ (x : Gathered). lookup i.env x.child_env) (sym e)
        ∙ lookup-insert_self i.env raw g.child_env,
    ap (λ (x : Gathered). lookup i.name x.params) (sym e) ∙ lookup-insert_self i.name raw g.params,
  )

  default_param-IsNumber :
      (q : Request) (i : Input) (d : Option ℤ) (g g' : Gathered)
      → lookup i.name q.given ≡ none
      → i.default ≡ d
      → default_param s codec w i d g ≡ fine g'
      → IsNumber q i (lookup i.env g'.child_env) (lookup i.name g'.params)
  default_param-IsNumber q i (some z) g g' l d e =
      let (a, b) = with_param-entries i (format_signed z) g g' (fine-inj _ g' e) in
      inr (inl (z, l, d, a, b))
  default_param-IsNumber q i none g g' l d e = inr (inr (l, d, (if-refused i.required _ g' _ e).0))

  take_int-IsNumber :
      (q : Request) (i : Input) (o : Option Text) (g g' : Gathered)
      → lookup i.name q.given ≡ o
      → take_int s codec w i o g ≡ fine g'
      → IsNumber q i (lookup i.env g'.child_env) (lookup i.name g'.params)
  take_int-IsNumber q i none g g' l e = default_param-IsNumber q i i.default g g' l refl e
  take_int-IsNumber q i (some raw) g g' l e =
      let (a, b) = with_param-entries i raw g g' (fine-inj _ g' e) in inl (raw, l, a, b)

  -- The round of an input gives it what it needs.
  pub take_input-IsProvided :
      (q : Request) (i : Input) (g g' : Gathered)
      → take_input s codec w q i g ≡ fine g'
      → IsProvided q i (lookup i.env g'.child_env) (lookup i.name g'.params)
  take_input-IsProvided q i g g' e = (
    λ k. take_csv-IsSheet q i (lookup i.name q.uploads) g g' refl (sym (sheet k) ∙ e),
    λ k. take_int-IsNumber q i (lookup i.name q.given) g g' refl (sym (number k) ∙ e),
  )
    where
      sheet :
          i.kind ≡ codes "csv"
          → take_input s codec w q i g ≡ take_csv s codec w q.root i (lookup i.name q.uploads) g
      sheet k = unfold take_input in rw ((text_eq_iff i.kind (codes "csv")).1 k) refl

      number :
          i.kind ≡ codes "int"
          → take_input s codec w q i g ≡ take_int s codec w i (lookup i.name q.given) g
      number k =
          unfold take_input in rw (int_apart i.kind k, (text_eq_iff i.kind (codes "int")).1 k) refl
