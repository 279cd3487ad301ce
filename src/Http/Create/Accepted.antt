-- ===== src/Http/Create/Accepted.antt =====
-- What a request that createRun (server/internal/httpapi/handlers.go) accepts has become.
use eagle_condor_sandbox.Prelude.{
  Bool, true, false, List, ◌++◌, Option, none, some, ◌≡◌, refl, subst, length, get_elem?,
}
use eagle_condor_sandbox.Prelude.Int.{ℤ}
use eagle_condor_sandbox.Prelude.Text.{Text}
use eagle_condor_sandbox.Run.{Run}
use eagle_condor_sandbox.Store.{Store, add}
use eagle_condor_sandbox.Store.Persist.{PersistError}
use eagle_condor_sandbox.Queue.Defs.{Sys, Sent, accepted, full, panics, Job, new_job}
use eagle_condor_sandbox.Queue.Submit.{Submits, submit_lem}
use eagle_condor_sandbox.Http.Server.{Server, Codec, Answers, Next, id_of}
use eagle_condor_sandbox.Http.Upload.{Tried, refused, fine}
use eagle_condor_sandbox.Http.Inputs.{Gathered, take_inputs}
use eagle_condor_sandbox.Http.Create.{
  Created, rejected, not_added, queue_full, panicked, created, Order, new_run, sent, added,
  gathered, first_gathered, request_of, made, with_id, ordered, read_order, create_run,
}
use eagle_condor_sandbox.Http.Create.Outcomes.{MakesFresh, IsFresh}

module _ (s : Server) (codec : Codec) (w : Answers) (body : ℤ → Option (List Next)) where
  -- The order that was read, what the loop over the inputs gathered for it, and the run and the job
  -- that were made of them.
  pub record IsOrdered (s' : Server) (r : Run) : Type 0 where
    pub order : Order
    pub got : Gathered
    pub job : Job
    pub order_read : read_order s codec body ≡ fine order
    pub taken :
        take_inputs s codec w
          (request_of s r.id order)
          order.workflow.inputs
          (first_gathered s order)
        ≡ fine got
    pub run : r ≡ new_run r.id order got.params w.now
    pub files : s'.files ≡ got.files
    pub job_at : get_elem? s'.sys.queue.heap (length s.sys.queue.heap) ≡ some job
    pub job_run : job.run_id ≡ r.id
    pub job_env : job.env ≡ got.child_env
    pub job_workflow : job.workflow ≡ order.workflow
    pub job_timeout : job.timeout_seconds ≡ order.timeout

  -- If the request was accepted, all that.
  abbrev pub Traces : Server × Created → Type 0
  Traces (s', created r) = IsOrdered s' r
  Traces (s', rejected e) = Unit
  Traces (s', not_added e) = Unit
  Traces (s', queue_full) = Unit
  Traces (s', panicked) = Unit

  module _ (fresh : MakesFresh s w) (o : Order) (read : read_order s codec body ≡ fine o) where
    sent-Traces :
        (id : Text) (g : Gathered) (dirs : List Text) (store : Store) (q : Sys × Sent)
        → take_inputs s codec w (request_of s id o) o.workflow.inputs (first_gathered s o) ≡ fine g
        → Submits
            (record s.sys { store = store })
            (new_run id o g.params w.now)
            o.workflow
            g.child_env
            q
        → Traces (
            sent
              (record s { dirs = dirs; files = g.files; sys = record s.sys { store = store } })
              w
              (new_run id o g.params w.now)
              q)
    unfolding new_run
    sent-Traces id g dirs store (sys, accepted) t (c, room, jobs, job, live, e) = record {
      order = o;
      got = g;
      job =
          new_job (record s.sys { store = store }) (new_run id o g.params w.now) o.workflow
            g.child_env;
      order_read = read;
      taken = t;
      run = refl;
      files = refl;
      job_at = job;
      job_run = refl;
      job_env = refl;
      job_workflow = refl;
      job_timeout = refl;
    }
    sent-Traces id g dirs store (sys, full) t h = tt
    sent-Traces id g dirs store (sys, panics) t h = tt

    added-Traces :
        (id : Text) (g : Gathered) (dirs : List Text) (p : Store × Option PersistError)
        → IsFresh s id
        → take_inputs s codec w (request_of s id o) o.workflow.inputs (first_gathered s o) ≡ fine g
        → Traces (
            added
              (record s { dirs = dirs; files = g.files })
              w
              (new_run id o g.params w.now)
              o.workflow
              g.child_env
              p)
    added-Traces id g dirs (store, some e) f t = tt
    added-Traces id g dirs (store, none) f t = sent-Traces id g dirs store _ t (
        submit_lem (record s.sys { store = store }) (new_run id o g.params w.now) o.workflow
          g.child_env (unfold new_run in f.0) (unfold new_run in f.1))

    gathered-Traces :
        (id : Text) (dirs : List Text) (g : Tried Gathered)
        → IsFresh s id
        → take_inputs s codec w (request_of s id o) o.workflow.inputs (first_gathered s o) ≡ g
        → Traces (gathered (record s { dirs = dirs }) w id o g)
    gathered-Traces id dirs (refused e) f t = tt
    gathered-Traces id dirs (fine g) f t =
        added-Traces id g dirs (add s.sys.store w.add_faults (new_run id o g.params w.now)) f t

    made-Traces : (id : Text) (p : List Text × Bool) → IsFresh s id → Traces (made s codec w id o p)
    made-Traces id (dirs, false) f = tt
    made-Traces id (dirs, true) f = gathered-Traces id (s.dirs ++ dirs) _ f refl

    with_id-Traces : (n : Option Text) → id_of w ≡ n → Traces (with_id s codec w o n)
    with_id-Traces none q = tt
    with_id-Traces (some id) q = made-Traces id _ (fresh id q)

  ordered-Traces :
      MakesFresh s w
      → (o : Tried Order) → read_order s codec body ≡ o
      → Traces (ordered s codec w o)
  ordered-Traces fresh (refused e) q = tt
  ordered-Traces fresh (fine o) q = with_id-Traces fresh o q (id_of w) refl

  create_run-Traces : MakesFresh s w → Traces (create_run s codec w body)
  unfolding create_run
  create_run-Traces fresh = ordered-Traces fresh (read_order s codec body) refl

  pub create_run-IsOrdered :
      (s' : Server) (r : Run)
      → MakesFresh s w
      → create_run s codec w body ≡ (s', created r)
      → IsOrdered s' r
  create_run-IsOrdered s' r fresh e = subst Traces e (create_run-Traces fresh)
