-- ===== src/Http/Create/Files.antt =====
-- The files that the loop over the inputs in createRun (server/internal/httpapi/handlers.go) writes.
use eagle_condor_sandbox.Prelude.{
  Bool, List, [], ◌∷◌, Option, none, some, ◌≡◌, sym, ap, ◌∙◌, if◌then◌else◌, Bool-cases, inl, inr,
}
use eagle_condor_sandbox.Prelude.Int.{ℤ}
use eagle_condor_sandbox.Prelude.Text.{Text, codes, text_eq}
use eagle_condor_sandbox.Prelude.Assoc.{lookup, lookup-insert}
use eagle_condor_sandbox.Catalog.{Input}
use eagle_condor_sandbox.Http.Csv.{CsvError}
use eagle_condor_sandbox.Http.Server.{Server, Codec, Answers}
use eagle_condor_sandbox.Http.Upload.{
  bad_csv, fine, refused_ne, bind-fine, if-fine, if-refused, fine-inj,
}
use eagle_condor_sandbox.Http.Inputs.{
  Gathered, Request, check_csv, written, checked_csv, take_csv, default_param, take_int, take_input,
  take_inputs,
}
use eagle_condor_sandbox.Http.Create.Provided.{destination}

module _ (s : Server) (codec : Codec) (w : Answers) where
  -- What a file has once an input went to it, if it is the input's and the input was sent.
  abbrev over : Bool → Option Text → Option Text → Option Text
  over mine none old = old
  over mine (some t) old = if mine then some t else old

  -- What a file has after the input, if it had `old` before.
  abbrev pub after_input : Request → Input → Text → Option Text → Option Text
  after_input q i p old =
      if text_eq i.kind (codes "csv")
      then over (text_eq (destination s codec w q i) p) (lookup i.name q.uploads) old
      else old

  -- What a file has in the end: the text of the last spreadsheet that was sent for it.
  abbrev pub last_sent : Request → List Input → Text → Option Text → Option Text
  last_sent q [] p old = old
  last_sent q (i ∷ is) p old = last_sent q is p (after_input q i p old)

  -- The files stay.
  abbrev Still : Gathered → Gathered → Type 0
  Still g g' = g'.files ≡ g.files

  written-file :
      (q : Request) (i : Input) (t p : Text) (g g' : Gathered)
      → written s codec w (destination s codec w q i) i t g ≡ fine g'
      → lookup p g'.files ≡ over (text_eq (destination s codec w q i) p) (some t) (lookup p g.files)
  written-file q i t p g g' e =
      let (ok, same) = if-fine (w.write (destination s codec w q i)) _ g' _ e in
      ap (λ (x : Gathered). lookup p x.files) (sym same)
      ∙ lookup-insert (destination s codec w q i) p t g.files

  checked_csv-file :
      (q : Request) (i : Input) (t p : Text) (o : Option CsvError) (g g' : Gathered)
      → checked_csv s codec w q.root i t o g ≡ fine g'
      → lookup p g'.files ≡ over (text_eq (destination s codec w q i) p) (some t) (lookup p g.files)
  checked_csv-file q i t p (some x) g g' e = absurd (refused_ne g' (bad_csv x) e)
  checked_csv-file q i t p none g g' e = written-file q i t p g g' e

  take_csv-file :
      (q : Request) (i : Input) (p : Text) (o : Option Text) (g g' : Gathered)
      → take_csv s codec w q.root i o g ≡ fine g'
      → lookup p g'.files ≡ over (text_eq (destination s codec w q i) p) o (lookup p g.files)
  take_csv-file q i p none g g' e =
      ap (λ (x : Gathered). lookup p x.files) (sym (if-refused i.required g g' _ e).1)
  take_csv-file q i p (some t) g g' e = checked_csv-file q i t p (check_csv s codec w i t) g g' e

  default_param-Still :
      (i : Input) (d : Option ℤ) (g g' : Gathered)
      → default_param s codec w i d g ≡ fine g'
      → Still g g'
  default_param-Still i none g g' e =
      ap (λ (x : Gathered). x.files) (sym (if-refused i.required g g' _ e).1)
  default_param-Still i (some z) g g' e = ap (λ (x : Gathered). x.files) (sym (fine-inj _ g' e))

  take_int-Still :
      (i : Input) (o : Option Text) (g g' : Gathered)
      → take_int s codec w i o g ≡ fine g'
      → Still g g'
  take_int-Still i none g g' e = default_param-Still i i.default g g' e
  take_int-Still i (some raw) g g' e = ap (λ (x : Gathered). x.files) (sym (fine-inj _ g' e))

  take_other-Still :
      (q : Request) (i : Input) (g g' : Gathered)
      → (if text_eq i.kind (codes "int")
          then take_int s codec w i (lookup i.name q.given) g
          else fine g)
        ≡ fine g'
      → Still g g'
  take_other-Still q i g g' e = elim (Bool-cases (text_eq i.kind (codes "int"))) [
    | inl k ↦ take_int-Still i (lookup i.name q.given) g g' (sym (chosen k) ∙ e)
    | inr k ↦ ap (λ (x : Gathered). x.files) (sym (fine-inj g g' (sym (chosen k) ∙ e)))
  ]
    where
      chosen :
          {b : Bool}
          → text_eq i.kind (codes "int") ≡ b
          → (if text_eq i.kind (codes "int")
              then take_int s codec w i (lookup i.name q.given) g
              else fine g)
            ≡ (if b then take_int s codec w i (lookup i.name q.given) g else fine g)
      chosen k = ap (λ b. if b then take_int s codec w i (lookup i.name q.given) g else fine g) k

  take_input-file :
      (q : Request) (i : Input) (p : Text) (g g' : Gathered)
      → take_input s codec w q i g ≡ fine g'
      → lookup p g'.files ≡ after_input q i p (lookup p g.files)
  unfolding take_input
  take_input-file q i p g g' e = elim (Bool-cases (text_eq i.kind (codes "csv"))) [
    | inl k ↦ rw k (take_csv-file q i p (lookup i.name q.uploads) g g' (sym (chosen k) ∙ e))
    | inr k ↦ rw k (ap (lookup p) (take_other-Still q i g g' (sym (chosen k) ∙ e)))
  ]
    where
      chosen :
          {b : Bool}
          → text_eq i.kind (codes "csv") ≡ b
          → take_input s codec w q i g ≡ (
              if b
              then take_csv s codec w q.root i (lookup i.name q.uploads) g
              else if text_eq i.kind (codes "int")
              then take_int s codec w i (lookup i.name q.given) g
              else fine g)
      chosen k =
          ap
            (λ b.
              if b
              then take_csv s codec w q.root i (lookup i.name q.uploads) g
              else if text_eq i.kind (codes "int")
              then take_int s codec w i (lookup i.name q.given) g
              else fine g)
            k

  pub take_inputs-files :
      (q : Request) (is : List Input) (p : Text) (g g' : Gathered)
      → take_inputs s codec w q is g ≡ fine g'
      → lookup p g'.files ≡ last_sent q is p (lookup p g.files)
  unfolding take_inputs
  take_inputs-files q [] p g g' e = ap (λ (x : Gathered). lookup p x.files) (sym (fine-inj g g' e))
  take_inputs-files q (i ∷ is) p g g' e =
      let (g1, e1, e2) = bind-fine (take_input s codec w q i g) _ g' e in
      take_inputs-files q is p g1 g' e2 ∙ ap (last_sent q is p) (take_input-file q i p g g1 e1)
