-- ===== src/Http/Create/Checked.antt =====
-- What createRun (server/internal/httpapi/handlers.go) has checked of a run that it accepts: the
-- workflow, the environment, the names of the uploads, the timeout.
use eagle_condor_sandbox.Prelude.{
  Bool, true, false, List, [], ◌∷◌, Option, none, some, ◌≡◌, ◌≢◌, refl, sym, ap, ◌∙◌, subst, arith,
  All, Bool-cases, inl, inr,
}
use eagle_condor_sandbox.Prelude.Int.{ℤ, pos, ◌<ℤ◌, ◌≤ℤ◌}
use eagle_condor_sandbox.Prelude.Text.{Text, upper}
use eagle_condor_sandbox.Prelude.Assoc.{Assoc, lookup}
use eagle_condor_sandbox.Catalog.{Input, Workflow, find_input}
use eagle_condor_sandbox.Catalog.Index.{index}
use eagle_condor_sandbox.Catalog.Index.Listed.{index-WorkflowOk}
use eagle_condor_sandbox.Run.{Run}
use eagle_condor_sandbox.Http.Server.{Server, Codec, Answers, Next}
use eagle_condor_sandbox.Http.Upload.{Tried, refused, bad_env, fine, bind-fine, read_form}
use eagle_condor_sandbox.Http.Inputs.{
  valid_env, or_test, choose_env, choose_timeout, known, check_names,
}
use eagle_condor_sandbox.Http.Create.{
  created, Order, find_workflow, new_run, read_order, create_run,
}
use eagle_condor_sandbox.Http.Create.Outcomes.{MakesFresh}
use eagle_condor_sandbox.Http.Create.Accepted.{IsOrdered, create_run-IsOrdered}

-- Every upload is for an input of the workflow.
abbrev pub AreKnown : List Input → Assoc Text → Type 0
AreKnown is us = All (λ (u : Text × Text). find_input u.0 is ≢ none) us

known-fine :
    (o : Option Input) (name : Text) (us out : Assoc Text) (rest : Tried (Assoc Text))
    → known o name us rest ≡ fine out
    → (o ≢ none) × (rest ≡ fine out)
known-fine none name us out rest e = absurd (cc)
known-fine (some i) name us out rest e = ((λ n. absurd (cc)), e)

check_names-AreKnown :
    (is : List Input) (us out : Assoc Text) → check_names is us ≡ fine out → AreKnown is us
unfolding check_names
check_names-AreKnown is [] out e = tt
check_names-AreKnown is ((name, t) ∷ us) out e =
    let (k, rest) = known-fine (find_input name is) name us out (check_names is us) e in
    (k, check_names-AreKnown is us out rest)

-- The three environments.
abbrev pub IsEnv : Text → Type 0
IsEnv e = valid_env e ≡ true

choose_env-IsEnv :
    (asked e : Text) → choose_env asked ≡ fine e → (e ≡ or_test (upper asked)) × IsEnv e
choose_env-IsEnv asked e h = elim (Bool-cases (valid_env (or_test (upper asked)))) [
  | inl q ↦ let same = sym (chosen q) ∙ h in (eq same, subst IsEnv (sym (eq same)) q)
  | inr q ↦ absurd (refusal (not_chosen q) h)
]
  where
    chosen :
        valid_env (or_test (upper asked)) ≡ true → choose_env asked ≡ fine (or_test (upper asked))
    chosen q = unfold choose_env in rw q refl

    not_chosen : valid_env (or_test (upper asked)) ≡ false → choose_env asked ≡ refused bad_env
    not_chosen q = unfold choose_env in rw q refl

    eq : fine (or_test (upper asked)) ≡ fine e → e ≡ or_test (upper asked)
    eq q = cc

    refusal : choose_env asked ≡ refused bad_env → choose_env asked ≡ fine e → ⊥
    refusal q h = cc

-- A timeout is positive and not above the workflow's greatest, if the workflow's own are so.
choose_timeout_bounds :
    (wf : Workflow) (asked : ℤ)
    → pos 0 <ℤ wf.default_timeout
    → wf.default_timeout ≤ℤ wf.max_timeout
    → (pos 0 <ℤ choose_timeout wf asked) × (choose_timeout wf asked ≤ℤ wf.max_timeout)
unfolding choose_timeout
choose_timeout_bounds wf asked h k = (ground arith, ground arith)

find_workflow-fine :
    (id : Text) (o : Option Workflow) (wf : Workflow) → find_workflow id o ≡ fine wf → o ≡ some wf
find_workflow-fine id none wf e = absurd (cc)
find_workflow-fine id (some v) wf e = cc

-- What is sure of an order.
pub record IsChecked (s : Server) (o : Order) : Type 0 where
  pub found : lookup o.cfg.workflow_id s.by_id ≡ some o.workflow
  pub env_named : o.env ≡ or_test (upper o.cfg.env)
  pub env_valid : IsEnv o.env
  pub uploads_known : AreKnown o.workflow.inputs o.uploads
  pub timeout_chosen : o.timeout ≡ choose_timeout o.workflow o.cfg.timeout_seconds

pub read_order-IsChecked :
    (s : Server) (codec : Codec) (body : ℤ → Option (List Next)) (o : Order)
    → read_order s codec body ≡ fine o
    → IsChecked s o
unfolding read_order
read_order-IsChecked s codec body o e =
    let (f, e0, e1) = bind-fine (read_form codec s.config.max_upload_bytes body) _ o e in
    let (wf, e2, e3) = bind-fine (find_workflow f.cfg.workflow_id _) _ o e1 in
    let (env, e4, e5) = bind-fine (choose_env f.cfg.env) _ o e3 in
    let (names, e6, e7) = bind-fine (check_names wf.inputs f.uploads) _ o e5 in
    let (named, valid) = choose_env-IsEnv f.cfg.env env e4 in
    subst (IsChecked s) (last _ o e7) (record {
      found = find_workflow-fine f.cfg.workflow_id _ wf e2;
      env_named = named;
      env_valid = valid;
      uploads_known = check_names-AreKnown wf.inputs f.uploads names e6;
      timeout_chosen = refl;
    })
  where
    last : (a b : Order) → fine a ≡ fine b → a ≡ b
    last a b q = cc

-- If the catalog passed index, a run that createRun accepts is for a workflow of it, in one of
-- the three environments, and its timeout is positive and at most the greatest of the workflow;
-- every file that was sent is for an input of the workflow; and its job is for that workflow
-- with that timeout. The new id is not one of the queue.
pub create_run-IsChecked :
    (s : Server) (codec : Codec) (w : Answers) (body : ℤ → Option (List Next)) (stat : Text → Bool)
    (s' : Server) (r : Run)
    → MakesFresh s w
    → (index stat s.config.automation_dir s.manifest).0 ≡ []
    → s.by_id ≡ (index stat s.config.automation_dir s.manifest).1
    → create_run s codec w body ≡ (s', created r)
    → (o : IsOrdered s codec w body s' r) × (lookup o.order.cfg.workflow_id s.by_id
        ≡ some o.order.workflow)
      × IsEnv r.env
      × (pos 0 <ℤ r.timeout_seconds)
      × (r.timeout_seconds ≤ℤ o.order.workflow.max_timeout)
      × AreKnown o.order.workflow.inputs o.order.uploads
      × (o.job.timeout_seconds ≡ r.timeout_seconds)
create_run-IsChecked s codec w body stat s' r fresh ok indexed e =
    let o = create_run-IsOrdered s codec w body s' r fresh e in
    let c = read_order-IsChecked s codec body o.order o.order_read in
    let wf =
      index-WorkflowOk stat s.config.automation_dir s.manifest o.order.cfg.workflow_id
        o.order.workflow ok (ap (lookup o.order.cfg.workflow_id) (sym indexed) ∙ c.found) in
    let (positive, capped) =
      choose_timeout_bounds o.order.workflow o.order.cfg.timeout_seconds wf.4 wf.5 in
    let same : r.timeout_seconds ≡ choose_timeout o.order.workflow o.order.cfg.timeout_seconds =
      timeout_of r o.order o.got.params o.run ∙ c.timeout_chosen in
    (
      o,
      c.found,
      subst IsEnv (sym (env_of r o.order o.got.params o.run)) c.env_valid,
      subst (λ t. pos 0 <ℤ t) (sym same) positive,
      subst (λ t. t ≤ℤ o.order.workflow.max_timeout) (sym same) capped,
      c.uploads_known,
      o.job_timeout ∙ sym (timeout_of r o.order o.got.params o.run),
    )
  where
    timeout_of :
        (r : Run) (o : Order) (ps : Assoc Text)
        → r ≡ new_run r.id o ps w.now
        → r.timeout_seconds ≡ o.timeout
    timeout_of r o ps q = ap (λ (x : Run). x.timeout_seconds) q ∙ (unfold new_run in refl)

    env_of : (r : Run) (o : Order) (ps : Assoc Text) → r ≡ new_run r.id o ps w.now → r.env ≡ o.env
    env_of r o ps q = ap (λ (x : Run). x.env) q ∙ (unfold new_run in refl)
