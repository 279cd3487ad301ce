-- ===== src/Queue/Follows.antt =====
-- That the state of server/internal/run/queue.go is at every moment what its history says.
use eagle_condor_sandbox.Prelude.{
  ℕ, suc, ◌≤◌, ==_iff, true, List, [], ◌∷◌, ◌++◌, none, some, ◌≡◌, refl, sym, ap, ◌∙◌, subst, arith,
  length, get_elem?, if◌then◌else◌, append_assoc,
}
use eagle_condor_sandbox.Prelude.Text.{Text, text_eq}
use eagle_condor_sandbox.Prelude.Assoc.{lookup, lookup-insert, lookup-delete}
use eagle_condor_sandbox.Store.{Store}
use eagle_condor_sandbox.Queue.Defs.{Job, Sys, Queue, new_queue, stop, cancel_flag, cancel_act}
use eagle_condor_sandbox.Queue.Loop.{arm, start_run, note_pid, finish_store, finish_log, forget}
use eagle_condor_sandbox.Queue.Steps.{
  Moment, shut, asked, took, armed, forgot, inner, Step, registers, sends, stops, flags, acts,
  takes, arms, starts, notes, records, logs, forgets, Reach, begin, next,
}
use eagle_condor_sandbox.Queue.Ownership.{JobOf, Step-Owned, Taken, take_job-Taken}
use eagle_condor_sandbox.Queue.Sends.{register-Follows, send-Follows}
use eagle_condor_sandbox.Queue.Halts.{stop_job-Follows, quiet-Follows}
use eagle_condor_sandbox.Queue.Signals.{Signalled-set}
use eagle_condor_sandbox.Queue.History.{taken_in, Signalled, Follows}

take-Follows :
    {depth : ℕ} {h : List Moment} (s s' : Sys) (a : ℕ)
    → Taken s a s'
    → Follows depth h s
    → Follows depth (took a ∷ h) s'
take-Follows {depth} {h} s s' a (rest, q, p) f = subst (Follows depth (took a ∷ h)) p (record {
  live = f.live;
  bufs = f.bufs;
  flagged = f.flagged;
  closed = f.closed;
  in_order =
      f.in_order ∙ ap (λ js. taken_in h ++ js) q ∙ sym (append_assoc (taken_in h) (a ∷ []) rest);
  room = shorter (ap (λ js. length js) q);
  depth_kept = f.depth_kept;
  answered = f.answered;
  signalled = f.signalled;
  owned = f.owned;
})
  where
    shorter : length s.queue.jobs ≡ suc (length rest) → length rest ≤ depth
    shorter e = omega (arith, f.room)

arm-Follows :
    {depth : ℕ} {h : List Moment} (s : Sys) (a : ℕ) (j : Job)
    → get_elem? s.queue.heap a ≡ some j
    → Follows depth h s
    → Follows depth (armed a ∷ h) (arm s a j)
unfolding arm
arm-Follows {h} s a j e f = record {
  live = f.live;
  bufs = f.bufs;
  flagged = f.flagged;
  closed = f.closed;
  in_order = f.in_order;
  room = f.room;
  depth_kept = f.depth_kept;
  answered = f.answered;
  signalled =
      Signalled-set h (armed a ∷ h) s.queue.heap a j (record j { cancellable = true }) e
        (rw ((==_iff a a).1 refl) refl, (f.signalled a j e).1) (λ b q. (rw q refl, refl))
        f.signalled;
  owned = Step-Owned s _ (arms a j e) f.owned;
}

flag-Follows :
    {depth : ℕ} {h : List Moment} (s : Sys) (id : Text)
    → Follows depth h s
    → Follows depth (asked id ∷ h) (cancel_flag s id).0
unfolding cancel_flag
flag-Follows s id f = record {
  live = f.live;
  bufs = f.bufs;
  flagged = λ k.
      lookup-insert id k true s.queue.flagged
      ∙ ap (λ o. if text_eq id k then some true else o) (f.flagged k);
  closed = f.closed;
  in_order = f.in_order;
  room = f.room;
  depth_kept = f.depth_kept;
  answered = f.answered;
  signalled = f.signalled;
  owned = f.owned;
}

stop-Follows :
    {depth : ℕ} {h : List Moment} (s : Sys) → Follows depth h s → Follows depth (shut ∷ h) (stop s)
unfolding stop
stop-Follows s f = record {
  live = f.live;
  bufs = f.bufs;
  flagged = f.flagged;
  closed = refl;
  in_order = f.in_order;
  room = f.room;
  depth_kept = f.depth_kept;
  answered = f.answered;
  signalled = f.signalled;
  owned = f.owned;
}

forget-Follows :
    {depth : ℕ} {h : List Moment} (s : Sys) (j : Job)
    → Follows depth h s
    → Follows depth (forgot j.run_id ∷ h) (forget s j)
unfolding forget
forget-Follows s j f = record {
  live = λ k.
      lookup-delete j.run_id k s.queue.live
      ∙ ap (λ o. if text_eq j.run_id k then none else o) (f.live k);
  bufs = f.bufs;
  flagged = λ k.
      lookup-delete j.run_id k s.queue.flagged
      ∙ ap (λ o. if text_eq j.run_id k then none else o) (f.flagged k);
  closed = f.closed;
  in_order = f.in_order;
  room = f.room;
  depth_kept = f.depth_kept;
  answered = f.answered;
  signalled = f.signalled;
  owned = Step-Owned s _ (forgets j) f.owned;
}

-- A step that touches only the store or the buffers.
inner-Follows :
    {depth : ℕ} {h : List Moment} (s s' : Sys)
    → s'.queue ≡ record s.queue { buffers = s'.queue.buffers }
    → Follows depth h s
    → Follows depth (inner ∷ h) s'
inner-Follows {depth} {h} s s' e f = record {
  live = λ id. ap (λ (q : Queue). lookup id q.live) e ∙ f.live id;
  bufs = λ id. ap (λ (q : Queue). lookup id q.bufs) e ∙ f.bufs id;
  flagged = λ id. ap (λ (q : Queue). lookup id q.flagged) e ∙ f.flagged id;
  closed = ap (λ (q : Queue). q.closed) e ∙ f.closed;
  in_order = f.in_order ∙ ap (λ (q : Queue). taken_in h ++ q.jobs) (sym e);
  room = subst (λ (q : Queue). length q.jobs ≤ depth) (sym e) f.room;
  depth_kept = ap (λ (q : Queue). q.depth) e ∙ f.depth_kept;
  answered = f.answered;
  signalled = subst (λ (q : Queue). Signalled h q.heap) (sym e) f.signalled;
  owned =
      subst (λ (q : Queue). (id : Text) (a : ℕ) → lookup id q.live ≡ some a → JobOf q.heap id a)
        (sym e) f.owned;
}

Step-Follows :
    {depth : ℕ} {h : List Moment} (s : Sys) {m : Moment} (s' : Sys)
    → Step s m s'
    → Follows depth h s
    → Follows depth (m ∷ h) s'
Step-Follows s s' (registers r wf env) f = register-Follows s r wf env f
Step-Follows s s' (sends id a buf) f = send-Follows s id a buf f
Step-Follows s s' stops f = stop-Follows s f
Step-Follows s s' (flags id) f = flag-Follows s id f
Step-Follows s s' (acts t now id none) f = unfold cancel_act in quiet-Follows s f
Step-Follows s s' (acts t now id (some a)) f =
    unfold cancel_act in
    stop_job-Follows s t now id a (get_elem? s.queue.heap a) refl f
      (Step-Owned s _ (acts t now id (some a)) f.owned)
Step-Follows s s' (takes a e) f = take-Follows s s' a (take_job-Taken s s' a e) f
Step-Follows s s' (arms a j e) f = arm-Follows s a j e f
Step-Follows s s' (starts t now j) f = inner-Follows s s' (unfold start_run in refl) f
Step-Follows s s' (notes t pid j) f = inner-Follows s s' (unfold note_pid in refl) f
Step-Follows s s' (records t now j o c) f = inner-Follows s s' (unfold finish_store in refl) f
Step-Follows s s' (logs j st) f = inner-Follows s s' (unfold finish_log in refl) f
Step-Follows s s' (forgets j) f = forget-Follows s j f

begin-Follows :
    (store : Store) (workers depth : ℕ) → Follows depth [] (new_queue store workers depth)
unfolding new_queue lookup
begin-Follows store workers depth = record {
  live = λ id. refl;
  bufs = λ id. refl;
  flagged = λ id. refl;
  closed = refl;
  in_order = refl;
  room = omega arith;
  depth_kept = refl;
  answered = tt;
  signalled = λ b j e. absurd (no_job j e);
  owned = λ id a e. absurd (no_entry a e);
}
  where
    no_job : (j : Job) → none ≡ some j → ⊥
    no_job j e = cc

    no_entry : (a : ℕ) → none ≡ some a → ⊥
    no_entry a e = cc

-- In every interleaving of the calls of Submit, Stop and Cancel and of the workers from a new
-- queue on, the state is what the history of its steps says: the maps of jobs and of log buffers
-- hold for each run those of its last Submit, the job until the run is refused or forgotten and the
-- buffer until it is refused; a run is flagged exactly if its cancellation was asked for and it was
-- not forgotten since; the channel is closed exactly if Stop came; the jobs that were accepted are
-- those that the workers took and then those that wait, in this order; a send panics exactly after
-- Stop, and is accepted or refused by whether fewer than `depth` wait;
-- each job has its cancel function exactly if a worker armed it, and its context is cancelled
-- exactly if Cancel acted on it after that; and each entry of the map of jobs leads to a job of the
-- run that it names.
pub Reach-Follows :
    (store : Store) (workers depth : ℕ) (h : List Moment) (s : Sys)
    → Reach store workers depth h s
    → Follows depth h s
Reach-Follows store workers depth h s begin = begin-Follows store workers depth
Reach-Follows store workers depth h s (next {s = before} {h = past} r st) =
    Step-Follows before s st (Reach-Follows store workers depth past before r)
