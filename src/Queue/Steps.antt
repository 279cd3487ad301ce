-- ===== src/Queue/Steps.antt =====
-- Every interleaving of the goroutines of server/internal/run/queue.go: a step is what one of them
-- does between two points where another may run.
use eagle_condor_sandbox.Prelude.{ℕ, List, [], ◌∷◌, Option, some, ◌≡◌, get_elem?, length}
use eagle_condor_sandbox.Prelude.Int.{ℤ}
use eagle_condor_sandbox.Prelude.Text.{Text}
use eagle_condor_sandbox.Prelude.Assoc.{Assoc}
use eagle_condor_sandbox.Catalog.{Workflow}
use eagle_condor_sandbox.Run.{Run, State}
use eagle_condor_sandbox.Store.{Store}
use eagle_condor_sandbox.Store.Persist.{Faults}
use eagle_condor_sandbox.Queue.Defs.{
  Job, Sys, Outcome, Collected, new_queue, register, Sent, send, stop, cancel_flag, cancel_act,
}
use eagle_condor_sandbox.Queue.Loop.{
  take_job, arm, start_run, note_pid, finish_store, finish_log, forget,
}

-- What a step is, as an observer of the queue sees it: Submit puts the job at an address into the
-- maps, with its buffer's address; its send ends; Stop closes the channel; Cancel sets the flag of
-- a run; it acts on the job that it found; a worker takes a job, gives it its cancel function, and
-- forgets a run. A step that touches only the store or a log is `inner`.
pub data Moment : Type 0 where
  added : Text → ℕ → ℕ → Moment
  sent : Sent → Text → ℕ → Moment
  shut : Moment
  asked : Text → Moment
  acted : Option ℕ → Moment
  took : ℕ → Moment
  armed : ℕ → Moment
  forgot : Text → Moment
  inner : Moment

-- A step of Submit, of Stop, of Cancel or of a worker.
pub data Step : Sys → Moment → Sys → Type 0 where
  registers :
      {s : Sys} (r : Run) (wf : Workflow) (env : Assoc Text)
      → Step s (added r.id (length s.queue.heap) (length s.queue.buffers)) (register s r wf env).0
  sends :
      {s : Sys} (id : Text) (a buf : ℕ) → Step s (sent (send s id a buf).1 id a) (send s id a buf).0
  stops : {s : Sys} → Step s shut (stop s)
  flags : {s : Sys} (id : Text) → Step s (asked id) (cancel_flag s id).0
  acts :
      {s : Sys} (f : Faults) (now : ℕ) (id : Text) (found : Option ℕ)
      → Step s (acted found) (cancel_act s f now id found).0
  takes : {s s' : Sys} (a : ℕ) → take_job s ≡ some (a, s') → Step s (took a) s'
  arms :
      {s : Sys} (a : ℕ) (j : Job) → get_elem? s.queue.heap a ≡ some j → Step s (armed a) (arm s a j)
  starts : {s : Sys} (f : Faults) (now : ℕ) (j : Job) → Step s inner (start_run s f now j)
  notes : {s : Sys} (f : Faults) (pid : ℤ) (j : Job) → Step s inner (note_pid s f pid j)
  records :
      {s : Sys} (f : Faults) (now : ℕ) (j : Job) (o : Outcome) (c : Collected)
      → Step s inner (finish_store s f now j o c)
  logs : {s : Sys} (j : Job) (st : State) → Step s inner (finish_log s j st)
  forgets : {s : Sys} (j : Job) → Step s (forgot j.run_id) (forget s j)

-- What can come of a new queue, with what happened, the last first.
pub data Reach (store : Store) (workers depth : ℕ) : List Moment → Sys → Type 0 where
  begin : Reach store workers depth [] (new_queue store workers depth)
  next :
      {s s' : Sys} {h : List Moment} {m : Moment}
      → Reach store workers depth h s
      → Step s m s'
      → Reach store workers depth (m ∷ h) s'
