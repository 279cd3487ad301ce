-- ===== src/Http/Create/Complete.antt =====
-- Every input of the workflow reaches the child of an accepted run (createRun of
-- server/internal/httpapi/handlers.go).
use eagle_condor_sandbox.Prelude.{
  Bool, false, List, [], ◌∷◌, Option, ◌≡◌, refl, sym, ap, ◌∙◌, subst, map, arith, All,
}
use eagle_condor_sandbox.Prelude.Int.{ℤ}
use eagle_condor_sandbox.Prelude.Text.{Text, text_eq, text_eq_iff}
use eagle_condor_sandbox.Prelude.Assoc.{Assoc, lookup}
use eagle_condor_sandbox.Catalog.{Input}
use eagle_condor_sandbox.Catalog.Index.{index}
use eagle_condor_sandbox.Catalog.Index.Kinds.{Distinct}
use eagle_condor_sandbox.Catalog.Index.Listed.{index-WorkflowOk}
use eagle_condor_sandbox.Run.{Run}
use eagle_condor_sandbox.Http.Server.{Server, Codec, Answers, Next}
use eagle_condor_sandbox.Http.Upload.{fine, bind-fine}
use eagle_condor_sandbox.Http.Inputs.{Gathered, Request, take_input, take_inputs}
use eagle_condor_sandbox.Http.Create.{created, new_run, request_of, create_run}
use eagle_condor_sandbox.Http.Create.Outcomes.{MakesFresh}
use eagle_condor_sandbox.Http.Create.Accepted.{IsOrdered, create_run-IsOrdered}
use eagle_condor_sandbox.Http.Create.Checked.{read_order-IsChecked}
use eagle_condor_sandbox.Http.Create.Provided.{IsProvided, take_input-IsProvided}
use eagle_condor_sandbox.Http.Create.Files.{last_sent, take_inputs-files}
use eagle_condor_sandbox.Http.Create.Kept.{take_inputs-Keeps}

-- What an input has in the end.
abbrev pub HasInput : Server → Codec → Answers → Request → Assoc Text → Assoc Text → Input → Type 0
HasInput s codec w q env params i =
    IsProvided s codec w q i (lookup i.env env) (lookup i.name params)

envs : List Input → List Text
envs is = map (λ (i : Input). i.env) is

apart :
    (i : Input) (is : List Input)
    → All (λ y. text_eq i.env y ≡ false) (map (λ (x : Input). x.env) is)
    → All (λ y. text_eq i.name y ≡ false) (map (λ (x : Input). x.name) is)
    → All (λ (x : Input). (text_eq x.env i.env ≡ false) × (text_eq x.name i.name ≡ false)) is
apart i [] h k = tt
apart i (x ∷ is) (h, hs) (k, ks) =
    ((turned i.env x.env h, turned i.name x.name k), apart i is hs ks)
  where
    turned : (a b : Text) → text_eq a b ≡ false → text_eq b a ≡ false
    turned a b e = ground (arith, text_eq_iff a b, text_eq_iff b a)

take_inputs-HasInput :
    (s : Server) (codec : Codec) (w : Answers) (q : Request) (is : List Input) (g g' : Gathered)
    → Distinct (map (λ (i : Input). i.env) is)
    → Distinct (map (λ (i : Input). i.name) is)
    → take_inputs s codec w q is g ≡ fine g'
    → All (HasInput s codec w q g'.child_env g'.params) is
unfolding take_inputs
take_inputs-HasInput s codec w q [] g g' de dn e = tt
take_inputs-HasInput s codec w q (i ∷ is) g g' (de, des) (dn, dns) e =
    let (g1, e1, e2) = bind-fine (take_input s codec w q i g) _ g' e in
    let (ke, kn) = take_inputs-Keeps s codec w i.env i.name q is g1 g' (apart i is de dn) e2 in
    (
      subst (λ p. IsProvided s codec w q i (lookup i.env g'.child_env) p) (sym kn)
          (subst (λ v. IsProvided s codec w q i v (lookup i.name g1.params)) (sym ke)
            (take_input-IsProvided s codec w q i g g1 e1)),
      take_inputs-HasInput s codec w q is g1 g' des dns e2,
    )

-- If the catalog passed index, then in a run that createRun accepts every input of its workflow
-- is provided: a spreadsheet was sent, passed validateCSV and was written where the child's
-- variable says, or it is not required and was not sent; a number has the text that was given,
-- as it is, or else its default, both in the child's variable and in the parameters of the run,
-- or it is neither given nor required. And every file has the text of the last spreadsheet, in the
-- order of the workflow, that was sent for its path, or what it had before if there is none: two
-- spreadsheets with one path leave that of the second. The new id is not one of the queue.
pub create_run-HasInput :
    (s : Server) (codec : Codec) (w : Answers) (body : ℤ → Option (List Next)) (stat : Text → Bool)
    (s' : Server) (r : Run)
    → MakesFresh s w
    → (index stat s.config.automation_dir s.manifest).0 ≡ []
    → s.by_id ≡ (index stat s.config.automation_dir s.manifest).1
    → create_run s codec w body ≡ (s', created r)
    → (o : IsOrdered s codec w body s' r) × All
        (HasInput s codec w (request_of s r.id o.order) o.job.env r.params)
        o.order.workflow.inputs
      × ((p : Text)
          → lookup p s'.files
            ≡ last_sent s codec w
                (request_of s r.id o.order)
                o.order.workflow.inputs
                p
                (lookup p s.files))
create_run-HasInput s codec w body stat s' r fresh ok indexed e =
    let o = create_run-IsOrdered s codec w body s' r fresh e in
    let c = read_order-IsChecked s codec body o.order o.order_read in
    let wf =
      index-WorkflowOk stat s.config.automation_dir s.manifest o.order.cfg.workflow_id
        o.order.workflow ok (ap (lookup o.order.cfg.workflow_id) (sym indexed) ∙ c.found) in
    let q = request_of s r.id o.order in
    let all =
      take_inputs-HasInput s codec w q o.order.workflow.inputs _ o.got wf.6.1 wf.6.2 o.taken in
    (
      o,
      subst (λ p. All (HasInput s codec w q o.job.env p) o.order.workflow.inputs)
          (sym (params_of r o))
          (subst (λ v. All (HasInput s codec w q v o.got.params) o.order.workflow.inputs)
            (sym o.job_env) all),
      λ p.
          ap (lookup p) o.files
          ∙ take_inputs-files s codec w q o.order.workflow.inputs p _ o.got o.taken,
    )
  where
    params_of : (r : Run) (o : IsOrdered s codec w body s' r) → r.params ≡ o.got.params
    params_of r o = ap (λ (x : Run). x.params) o.run ∙ (unfold new_run in refl)
