-- ===== src/Http/Create/Kept.antt =====
-- The rounds of the loop over the inputs in createRun (server/internal/httpapi/handlers.go) leave the
-- entries under other names as they are.
use eagle_condor_sandbox.Prelude.{
  Bool, true, false, List, [], ◌∷◌, Option, none, some, ◌≡◌, refl, ap, ◌∙◌, subst, All,
  if◌then◌else◌,
}
use eagle_condor_sandbox.Prelude.Int.{ℤ}
use eagle_condor_sandbox.Prelude.Decimal.{format_signed}
use eagle_condor_sandbox.Prelude.Text.{Text, codes, text_eq}
use eagle_condor_sandbox.Prelude.Assoc.{Assoc, lookup, insert, lookup-insert}
use eagle_condor_sandbox.Catalog.{Input}
use eagle_condor_sandbox.Http.Create.Provided.{destination}
use eagle_condor_sandbox.Http.Csv.{CsvError}
use eagle_condor_sandbox.Http.Server.{Server, Codec, Answers}
use eagle_condor_sandbox.Http.Upload.{
  bad_csv, fine, refused_ne, bind-fine, if-fine, if-refused, fine-inj,
}
use eagle_condor_sandbox.Http.Inputs.{
  Gathered, Request, check_csv, written, checked_csv, take_csv, with_param, default_param, take_int,
  take_input, take_inputs,
}

module _ (s : Server) (codec : Codec) (w : Answers) where
  -- The entries under other names stay.
  abbrev pub Keeps : Text → Text → Gathered → Gathered → Type 0
  Keeps k j g g' =
      (lookup k g'.child_env ≡ lookup k g.child_env) × (lookup j g'.params ≡ lookup j g.params)

  Keeps-trans : (k j : Text) (g h i : Gathered) → Keeps k j g h → Keeps k j h i → Keeps k j g i
  Keeps-trans k j g h i (a, b) (c, d) = (c ∙ a, d ∙ b)

  Keeps-same : (k j : Text) (g g' : Gathered) → g ≡ g' → Keeps k j g g'
  Keeps-same k j g g' e = subst (Keeps k j g) e (refl, refl)

  insert_other :
      (n k v : Text) (m : Assoc Text) → text_eq n k ≡ false → lookup k (insert n v m) ≡ lookup k m
  insert_other n k v m e = lookup-insert n k v m ∙ ap (λ b. if b then some v else lookup k m) e

  module _ (k j : Text) (i : Input) (ne : text_eq i.env k ≡ false)
      (nn : text_eq i.name j ≡ false) where
    written-Keeps :
        (dest t : Text) (g g' : Gathered) → written s codec w dest i t g ≡ fine g' → Keeps k j g g'
    written-Keeps dest t g g' e =
        let (ok, same) = if-fine (w.write dest) _ g' _ e in
        subst (Keeps k j g) same (insert_other i.env k dest g.child_env ne, refl)

    checked_csv-Keeps :
        (q : Request) (t : Text) (o : Option CsvError) (g g' : Gathered)
        → checked_csv s codec w q.root i t o g ≡ fine g'
        → Keeps k j g g'
    checked_csv-Keeps q t (some x) g g' e = absurd (refused_ne g' (bad_csv x) e)
    checked_csv-Keeps q t none g g' e = written-Keeps (destination s codec w q i) t g g' e

    take_csv-Keeps :
        (q : Request) (o : Option Text) (g g' : Gathered)
        → take_csv s codec w q.root i o g ≡ fine g'
        → Keeps k j g g'
    take_csv-Keeps q none g g' e = Keeps-same k j g g' (if-refused i.required g g' _ e).1
    take_csv-Keeps q (some t) g g' e = checked_csv-Keeps q t (check_csv s codec w i t) g g' e

    with_param-Keeps :
        (raw : Text) (g g' : Gathered) → with_param s codec w i raw g ≡ g' → Keeps k j g g'
    with_param-Keeps raw g g' e =
        subst (Keeps k j g) e
          (insert_other i.env k raw g.child_env ne, insert_other i.name j raw g.params nn)

    default_param-Keeps :
        (d : Option ℤ) (g g' : Gathered) → default_param s codec w i d g ≡ fine g' → Keeps k j g g'
    default_param-Keeps none g g' e = Keeps-same k j g g' (if-refused i.required g g' _ e).1
    default_param-Keeps (some z) g g' e = with_param-Keeps (format_signed z) g g' (fine-inj _ g' e)

    take_int-Keeps :
        (o : Option Text) (g g' : Gathered) → take_int s codec w i o g ≡ fine g' → Keeps k j g g'
    take_int-Keeps none g g' e = default_param-Keeps i.default g g' e
    take_int-Keeps (some raw) g g' e = with_param-Keeps raw g g' (fine-inj _ g' e)

    take_input-Keeps :
        (q : Request) (g g' : Gathered) → take_input s codec w q i g ≡ fine g' → Keeps k j g g'
    unfolding take_input
    take_input-Keeps q g g' e =
        by_kind (text_eq i.kind (codes "csv")) (text_eq i.kind (codes "int")) e
      where
        by_kind :
            (a b : Bool)
            → (if a
                then take_csv s codec w q.root i (lookup i.name q.uploads) g
                else if b
                then take_int s codec w i (lookup i.name q.given) g
                else fine g)
              ≡ fine g'
            → Keeps k j g g'
        by_kind true b h = take_csv-Keeps q _ g g' h
        by_kind false true h = take_int-Keeps _ g g' h
        by_kind false false h = Keeps-same k j g g' (fine-inj g g' h)

  pub take_inputs-Keeps :
      (k j : Text) (q : Request) (is : List Input) (g g' : Gathered)
      → All (λ (x : Input). (text_eq x.env k ≡ false) × (text_eq x.name j ≡ false)) is
      → take_inputs s codec w q is g ≡ fine g'
      → Keeps k j g g'
  unfolding take_inputs
  take_inputs-Keeps k j q [] g g' h e = Keeps-same k j g g' (fine-inj g g' e)
  take_inputs-Keeps k j q (i ∷ is) g g' ((ne, nn), h) e =
      let (g1, e1, e2) = bind-fine (take_input s codec w q i g) _ g' e in
      Keeps-trans k j g g1 g' (take_input-Keeps k j i ne nn q g g1 e1)
        (take_inputs-Keeps k j q is g1 g' h e2)
