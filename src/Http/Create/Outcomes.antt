-- ===== src/Http/Create/Outcomes.antt =====
-- How a request to createRun (server/internal/httpapi/handlers.go) can end, and what it then did.
use eagle_condor_sandbox.Prelude.{
  ◌≤◌, ◌<◌, Bool, true, false, List, [], ◌∷◌, ◌++◌, Option, none, some, ◌≡◌, refl, ap, ◌∙◌, length,
}
use eagle_condor_sandbox.Prelude.Int.{ℤ}
use eagle_condor_sandbox.Prelude.Text.{Text, text_eq}
use eagle_condor_sandbox.Prelude.Assoc.{Assoc, lookup, lookup-insert, lookup-insert_self}
use eagle_condor_sandbox.Catalog.{Workflow}
use eagle_condor_sandbox.Run.{Run, queued}
use eagle_condor_sandbox.Store.{Store, add, get, save}
use eagle_condor_sandbox.Store.Updates.{get-update_self, get-update_other}
use eagle_condor_sandbox.Store.Persist.{PersistError, Faults}
use eagle_condor_sandbox.Queue.Defs.{Sys, Sent, accepted, full, panics, submit}
use eagle_condor_sandbox.Queue.Submit.{Submits, submit_lem}
use eagle_condor_sandbox.Http.Server.{Server, Codec, Answers, Next, id_of}
use eagle_condor_sandbox.Http.Upload.{Tried, refused, fine}
use eagle_condor_sandbox.Http.Inputs.{Gathered}
use eagle_condor_sandbox.Http.Create.{
  Created, rejected, not_added, queue_full, panicked, created, Order, new_run, mark_full, with_sys,
  give_up, sent, added, gathered, made, with_id, ordered, remove_all, read_order, create_run,
}

-- No other run is touched.
abbrev pub KeepsOthers : Text → Server → Server → Type 0
KeepsOthers id s s' = (j : Text) → text_eq id j ≡ false → get s'.sys.store j ≡ get s.sys.store j

-- A run is in the store under the new id.
abbrev pub Stores : Server → Answers → Server → Text → Run → Type 0
Stores s w s' id r = (id_of w ≡ some id) × (get s'.sys.store id ≡ some r) × KeepsOthers id s s'

-- What createRun did, by how it ended.
abbrev pub Creates : Server → Answers → Server × Created → Type 0
Creates s w (s', rejected e) = s'.sys ≡ s.sys
Creates s w (s', not_added e) =
    (r : Run) × Stores s w s' r.id r × (r.state ≡ queued) × (s'.sys.queue ≡ s.sys.queue)
Creates s w (s', queue_full) =
    (r : Run) × Stores s w s' r.id (mark_full r)
    × (r.state ≡ queued)
    × (s.sys.queue.depth ≤ length s.sys.queue.jobs)
    × (s'.sys.queue.jobs ≡ s.sys.queue.jobs)
    × (s'.sys.queue.live ≡ s.sys.queue.live)
    × (s'.sys.queue.bufs ≡ s.sys.queue.bufs)
Creates s w (s', panicked) = s.sys.queue.closed ≡ true
Creates s w (s', created r) =
    Stores s w s' r.id r
    × (r.state ≡ queued)
    × (length s.sys.queue.jobs < s.sys.queue.depth)
    × (s'.sys.queue.jobs ≡ s.sys.queue.jobs ++ length s.sys.queue.heap ∷ [])
    × (lookup r.id s'.sys.queue.live ≡ some (length s.sys.queue.heap))

-- The queue has no job and no buffer of the id yet.
abbrev pub IsFresh : Server → Text → Type 0
IsFresh s id = (lookup id s.sys.queue.live ≡ none) × (lookup id s.sys.queue.bufs ≡ none)

module _ (s : Server) (w : Answers) (r : Run) (new : id_of w ≡ some r.id)
    (waits : r.state ≡ queued) where
  -- The store after Add.
  Added : Store → Type 0
  Added store =
      (get store r.id ≡ some r)
      × ((j : Text) → text_eq r.id j ≡ false → get store j ≡ get s.sys.store j)

  add-Added : (f : Faults) → Added (add s.sys.store f r).0
  unfolding Added get add save
  add-Added f = (
    lookup-insert_self r.id r s.sys.store.runs,
    λ j e. lookup-insert r.id j r s.sys.store.runs ∙ rw e refl,
  )

  full-Stores :
      (s' : Server) (store : Store)
      → Added store
      → (sys : Sys) → sys.store ≡ store
      → Stores s w (give_up (with_sys s' sys) w r.id) r.id (mark_full r)
  unfolding Added
  full-Stores s' store (here, others) sys e = (
    new,
    get-update_self sys.store w.full_faults r.id mark_full r (ap (λ x. get x r.id) e ∙ here),
    λ j d.
        get-update_other sys.store w.full_faults r.id j mark_full d
        ∙ ap (λ x. get x j) e
        ∙ others j d,
  )

  accepted-Stores :
      (s' : Server) (store : Store)
      → Added store
      → (sys : Sys) → sys.store ≡ store
      → Stores s w (with_sys s' sys) r.id r
  unfolding Added
  accepted-Stores s' store (here, others) sys e =
      (new, ap (λ x. get x r.id) e ∙ here, λ j d. ap (λ x. get x j) e ∙ others j d)

  sent-Creates :
      (s' : Server) (store : Store) (wf : Workflow) (env : Assoc Text) (q : Sys × Sent)
      → Added store
      → Submits (record s.sys { store = store }) r wf env q
      → Creates s w (sent s' w r q)
  sent-Creates s' store wf env (sys, accepted) a (c, room, jobs, job, live, e) =
      (accepted-Stores s' store a sys e, waits, room, jobs, live)
  sent-Creates s' store wf env (sys, full) a (c, busy, jobs, live, bufs, e) =
      (r, full-Stores s' store a sys e, waits, busy, jobs, live, bufs)
  sent-Creates s' store wf env (sys, panics) a c = c

  added-Creates :
      (wf : Workflow) (env : Assoc Text) (dirs : List Text) (files : Assoc Text)
      (p : Store × Option PersistError)
      → IsFresh s r.id
      → Added p.0
      → Creates s w (added (record s { dirs = dirs; files = files }) w r wf env p)
  added-Creates wf env dirs files (store, some e) fresh a =
      unfold Added in (r, (new, a.0, a.1), waits, refl)
  added-Creates wf env dirs files (store, none) fresh a =
      sent-Creates (record s { dirs = dirs; files = files; sys = record s.sys { store = store } })
        store wf env (submit (record s.sys { store = store }) r wf env) a
        (submit_lem (record s.sys { store = store }) r wf env fresh.0 fresh.1)

-- The ids that the server makes are not in the queue.
abbrev pub MakesFresh : Server → Answers → Type 0
MakesFresh s w = (id : Text) → id_of w ≡ some id → IsFresh s id

module _ (s : Server) (w : Answers) (fresh : MakesFresh s w) where
  remove_all-sys :
      (works : Bool) (root : Text) (s' : Server) → (remove_all works root s').sys ≡ s'.sys
  unfolding remove_all
  remove_all-sys true root s' = refl
  remove_all-sys false root s' = refl

  gathered-Creates :
      (id : Text) (o : Order) (dirs : List Text) (g : Tried Gathered)
      → id_of w ≡ some id
      → Creates s w (gathered (record s { dirs = dirs }) w id o g)
  gathered-Creates id o dirs (refused e) q = remove_all-sys w.remove _ (record s { dirs = dirs })
  gathered-Creates id o dirs (fine g) q =
      unfold new_run in
      added-Creates s w (new_run id o g.params w.now) q refl o.workflow g.child_env dirs g.files
        (add s.sys.store w.add_faults (new_run id o g.params w.now)) (fresh id q)
        (add-Added s w (new_run id o g.params w.now) q refl w.add_faults)

  made-Creates :
      (codec : Codec) (id : Text) (o : Order) (p : List Text × Bool)
      → id_of w ≡ some id
      → Creates s w (made s codec w id o p)
  made-Creates codec id o (dirs, false) q = refl
  made-Creates codec id o (dirs, true) q = gathered-Creates id o (s.dirs ++ dirs) _ q

  with_id-Creates :
      (codec : Codec) (o : Order) (n : Option Text)
      → id_of w ≡ n
      → Creates s w (with_id s codec w o n)
  with_id-Creates codec o none q = refl
  with_id-Creates codec o (some id) q = made-Creates codec id o _ q

  ordered-Creates : (codec : Codec) (o : Tried Order) → Creates s w (ordered s codec w o)
  ordered-Creates codec (refused e) = refl
  ordered-Creates codec (fine o) = with_id-Creates codec o (id_of w) refl

-- What a request to create a run has done to the store and the queue, by how it ends, for any
-- body, if the new id is not one of the queue. Refused: nothing. Accepted: the run is in the
-- store as queued, and its job is the last of the channel, which had room. The queue is full:
-- the run is in the store as errored and the queue is as before. Add could not save the run: the
-- run stays in the store as queued, but no job exists for it. In none of these is another run
-- touched. It panics only when the queue was stopped.
pub create_run_lem :
    (s : Server) (codec : Codec) (w : Answers) (body : ℤ → Option (List Next))
    → MakesFresh s w
    → Creates s w (create_run s codec w body)
unfolding create_run
create_run_lem s codec w body fresh = ordered-Creates s w fresh codec (read_order s codec body)
