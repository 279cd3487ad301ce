-- ===== src/Queue/Defs.antt =====
-- The state of server/internal/run/queue.go, and Submit, Stop and Cancel in the pieces
-- between which other goroutines can run.
use eagle_condor_sandbox.Prelude.{
  ℕ, Bool, true, false, List, [], ◌∷◌, ◌++◌, Option, none, some, if◌then◌else◌, length, get_elem?,
  set, ltb,
}
use eagle_condor_sandbox.Prelude.Int.{ℤ, pos}
use eagle_condor_sandbox.Prelude.Text.{Text}
use eagle_condor_sandbox.Prelude.Assoc.{Assoc, lookup, insert, delete}
use eagle_condor_sandbox.Catalog.{Workflow}
use eagle_condor_sandbox.Layout.Path.{join}
pub use eagle_condor_sandbox.Exec.{Outcome}
use eagle_condor_sandbox.Logbuf.{Buffer, append, close}
use eagle_condor_sandbox.Logbuf as Logbuf
use eagle_condor_sandbox.Run.{Run, cancelled, terminal, Summary, Artifact}
use eagle_condor_sandbox.Store.{Store, Updated, saved, unsaved, no_run, get, update}
use eagle_condor_sandbox.Store.Persist.{Faults, PersistError}

-- What Collect read back.
pub record Collected : Type 0 where
  pub summary : Option Summary
  pub artifacts : List Artifact

-- `cancellable` is `cancelFn != nil`, and `stopped` that the run's context was cancelled.
pub record Job : Type 0 where
  pub run_id : Text
  pub workflow : Workflow
  pub root : Text
  pub env : Assoc Text
  pub timeout_seconds : ℤ
  pub buf : ℕ
  pub cancellable : Bool
  pub stopped : Bool

-- `jobs` is the channel, the next job first, and `closed` says whether it was closed.
pub record Queue : Type 0 where
  pub workers : ℕ
  pub depth : ℕ
  pub jobs : List ℕ
  pub closed : Bool
  pub heap : List Job
  pub buffers : List Buffer
  pub live : Assoc ℕ
  pub bufs : Assoc ℕ
  pub flagged : Assoc Bool

pub record Sys : Type 0 where
  pub store : Store
  pub queue : Queue

-- NewQueue
unfoldable pub new_queue : Store → ℕ → ℕ → Sys
new_queue store workers depth = record {
  store = store;
  queue = record {
    workers = workers;
    depth = depth;
    jobs = [];
    closed = false;
    heap = [];
    buffers = [];
    live = [];
    bufs = [];
    flagged = [];
  };
}

-- Buffer: the log buffer of a run, if it is still in memory.
unfoldable pub buffer : Sys → Text → Option ℕ
buffer s id = lookup id s.queue.bufs

-- Layout of the store.
unfoldable pub layout : Store → Text → Text
unfolding join
layout store id = join store.runs_dir id

abbrev pub new_job : Sys → Run → Workflow → Assoc Text → Job
new_job s r wf env = record {
  run_id = r.id;
  workflow = wf;
  root = layout s.store r.id;
  env = env;
  timeout_seconds = r.timeout_seconds;
  buf = length s.queue.buffers;
  cancellable = false;
  stopped = false;
}

-- Submit up to the send: the job's address.
unfoldable pub register : Sys → Run → Workflow → Assoc Text → Sys × ℕ
unfolding layout
register s r wf env =
    let a = length q.heap in
    (
      record s {
        queue = record q {
          heap = q.heap ++ new_job s r wf env ∷ [];
          buffers = q.buffers ++ Logbuf.new (pos 5000) ∷ [];
          live = insert r.id a q.live;
          bufs = insert r.id (length q.buffers) q.bufs;
        };
      },
      a,
    )
  where
    open s use {queue as q}

pub data Sent : Type 0 where
  accepted full panics : Sent

abbrev pub close_buffer : List Buffer → ℕ → List Buffer
close_buffer bs n = elim (get_elem? bs n) [ none ↦ bs | some b ↦ set bs n (close b) ]

-- Submit from the send on: `full` is ErrQueueFull, and a send on a closed channel panics.
unfoldable pub send : Sys → Text → ℕ → ℕ → Sys × Sent
send s id a buf =
    if q.closed
    then (s, panics)
    else if ltb (length q.jobs) q.depth
    then (record s { queue = record q { jobs = q.jobs ++ a ∷ [] } }, accepted)
    else (
      record s {
        queue = record q {
          live = delete id q.live;
          bufs = delete id q.bufs;
          buffers = close_buffer q.buffers buf;
        };
      },
      full,
    )
  where
    open s use {queue as q}

-- Submit
unfoldable pub submit : Sys → Run → Workflow → Assoc Text → Sys × Sent
unfolding register send
submit s r wf env = let (s', a) = register s r wf env in send s' r.id a (length s.queue.buffers)

-- Stop, before it waits: the channel is closed. sync.Once makes a second call do nothing.
unfoldable pub stop : Sys → Sys
stop s = record s { queue = record s.queue { closed = true } }

pub data Answer : Type 0 where
  done not_found already_finished update_failed : Answer
  save_failed : PersistError → Answer

-- Cancel up to the lock: `none` means that it goes on.
abbrev pub refusal : Option Run → Option Answer
refusal none = some not_found
refusal (some r) = if terminal r.state then some already_finished else none

unfoldable pub cancel_check : Sys → Text → Option Answer
cancel_check s id = refusal (get s.store id)

-- Cancel under the lock: the run's job, if it is live.
unfoldable pub cancel_flag : Sys → Text → Sys × Option ℕ
cancel_flag s id =
    (record s { queue = record q { flagged = insert id true q.flagged } }, lookup id q.live)
  where
    open s use {queue as q}

abbrev pub with_job : Sys → ℕ → Job → Sys
with_job s a j = record s { queue = record s.queue { heap = set s.queue.heap a j } }

unfoldable pub mark_cancelled : ℕ → Run → Run
mark_cancelled now r = record r { state = cancelled; ended_at = some now }

abbrev pub answer_of : Sys → Store × Updated → Sys × Answer
answer_of s (store, saved r) = (record s { store = store }, done)
answer_of s (store, unsaved r e) = (record s { store = store }, save_failed e)
answer_of s (store, no_run) = (record s { store = store }, update_failed)

abbrev pub stop_job : Sys → Faults → ℕ → Text → ℕ → Option Job → Sys × Answer
stop_job s f now id a none = (s, not_found)
stop_job s f now id a (some j) =
    if j.cancellable
    then (with_job s a (record j { stopped = true }), done)
    else answer_of s (update s.store f id (mark_cancelled now))

-- Cancel after the lock.
unfoldable pub cancel_act : Sys → Faults → ℕ → Text → Option ℕ → Sys × Answer
unfolding mark_cancelled
cancel_act s f now id none = (s, not_found)
cancel_act s f now id (some a) = stop_job s f now id a (get_elem? s.queue.heap a)

-- Cancel
unfoldable pub cancel : Sys → Faults → ℕ → Text → Sys × Answer
unfolding cancel_check cancel_flag cancel_act
cancel s f now id = elim (cancel_check s id) [
  | some answer ↦ (s, answer)
  | none ↦ cancel_act (cancel_flag s id).0 f now id (cancel_flag s id).1
]
