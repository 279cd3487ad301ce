-- ===== src/Queue/Loop.antt =====
-- The worker loop of server/internal/run/queue.go, in the pieces between which other goroutines can
-- run, and one round of it as a whole.
use eagle_condor_sandbox.Prelude.{
  ℕ, Bool, true, false, ◌||◌, not, List, [], ◌∷◌, ◌++◌, Option, none, some, if◌then◌else◌,
  get_elem?, set,
}
use eagle_condor_sandbox.Prelude.Int.{ℤ, pos, negsuc}
use eagle_condor_sandbox.Prelude.Text.{Text, codes}
use eagle_condor_sandbox.Prelude.Assoc.{lookup, delete}
use eagle_condor_sandbox.Logbuf.{Buffer, append}
use eagle_condor_sandbox.Run.{Run, State, running, cancelled, state_text, state_eq}
use eagle_condor_sandbox.Store.{update}
use eagle_condor_sandbox.Store.Persist.{Faults}
use eagle_condor_sandbox.Queue.Defs.{Job, Sys, Outcome, Collected, with_job, close_buffer}

-- `for j := range q.jobs`: the next job, or `none` while there is none.
unfoldable pub take_job : Sys → Option (ℕ × Sys)
take_job s = elim s.queue.jobs [
  | [] ↦ none
  | a ∷ rest ↦ some (a, record s { queue = record s.queue { jobs = rest } })
]

abbrev pub is_flagged : Option Bool → Bool
is_flagged none = false
is_flagged (some b) = b

-- `skip := q.cancelled[j.runID]`
unfoldable pub must_skip : Sys → Job → Bool
must_skip s j = is_flagged (lookup j.run_id s.queue.flagged)

-- execute under the lock: the job gets its cancel function.
unfoldable pub arm : Sys → ℕ → Job → Sys
arm s a j = with_job s a (record j { cancellable = true })

unfoldable pub mark_running : ℕ → Run → Run
mark_running now r = record r { state = running; started_at = some now }

unfoldable pub mark_pid : ℤ → Run → Run
mark_pid pid r = record r { pid = pid }

-- An Update whose error is only logged.
abbrev pub update_store : Sys → Faults → Text → (Run → Run) → Sys
update_store s f id mutate = record s { store = (update s.store f id mutate).0 }

-- execute up to the child process.
unfoldable pub start_run : Sys → Faults → ℕ → Job → Sys
unfolding mark_running
start_run s f now j = update_store s f j.run_id (mark_running now)

-- The callback that execute gives to Execute.
unfoldable pub note_pid : Sys → Faults → ℤ → Job → Sys
unfolding mark_pid
note_pid s f pid j = update_store s f j.run_id (mark_pid pid)

-- A cancellation that is already recorded stands.
abbrev pub final_state : State → State → State
final_state old new = if not (state_eq old cancelled) || state_eq new cancelled then new else old

abbrev pub error_or : Option Text → Text → Text
error_or none old = old
error_or (some e) old = e

unfoldable pub mark_finished : ℕ → Outcome → Collected → Run → Run
unfolding state_eq
mark_finished now o c r = record r {
  state = final_state r.state o.state;
  ended_at = some now;
  exit_code = some o.exit_code;
  summary = c.summary;
  artifacts = c.artifacts;
  pid = pos 0;
  error = error_or o.err r.error;
}

-- finish up to the log buffer.
unfoldable pub finish_store : Sys → Faults → ℕ → Job → Outcome → Collected → Sys
unfolding mark_finished
finish_store s f now j o c = update_store s f j.run_id (mark_finished now o c)

abbrev with_appended : List Buffer → ℕ → Option Buffer → List Buffer
with_appended bs n none = bs
with_appended bs n (some b) = set bs n b

-- A line for a run's log. Nothing in the server subscribes to a buffer, so the send cannot panic.
unfoldable pub log_line : List Buffer → ℕ → Text → List Buffer
unfolding append
log_line bs n t = elim (get_elem? bs n) [ none ↦ bs | some b ↦ with_appended bs n (append b t) ]

unfoldable pub finish_log : Sys → Job → State → Sys
unfolding log_line state_text
finish_log s j st = record s {
  queue = record s.queue {
    buffers =
        close_buffer (log_line s.queue.buffers j.buf (codes "[server] run " ++ state_text st))
          j.buf;
  };
}

-- finish under the lock.
unfoldable pub forget : Sys → Job → Sys
forget s j = record s {
  queue = record q { live = delete j.run_id q.live; flagged = delete j.run_id q.flagged };
}
  where
    open s use {queue as q}

-- finish
unfoldable pub finish : Sys → Faults → ℕ → Job → Outcome → Collected → Sys
unfolding finish_store finish_log forget
finish s f now j o c = forget (finish_log (finish_store s f now j o c) j o.state) j

-- What one round of a worker meets: the clock and the faults of its three saves, the process id if
-- a process starts, what the child does, and what Collect reads.
pub record Round : Type 0 where
  pub started : ℕ
  pub ended : ℕ
  pub start_faults : Faults
  pub pid_faults : Faults
  pub end_faults : Faults
  pub pid : Option ℤ
  pub outcome : Outcome
  pub collected : Collected

abbrev pub note : Sys → Faults → Option ℤ → Job → Sys
note s f none j = s
note s f (some pid) j = note_pid s f pid j

abbrev pub skipped : Outcome
skipped = record { exit_code = negsuc 0; state = cancelled; err = none }

-- execute, with no other call in between.
unfoldable pub execute : Sys → Round → ℕ → Job → Sys
unfolding arm start_run note_pid finish
execute s w a j =
    finish (note (start_run (arm s a j) w.start_faults w.started j) w.pid_faults w.pid j)
      w.end_faults w.ended j w.outcome w.collected

-- The body of the worker's loop once it has looked whether to skip the job.
abbrev pub resume : Bool → Sys → Round → ℕ → Job → Sys
resume skip s w a j =
    if skip then finish s w.end_faults w.ended j skipped w.collected else execute s w a j

-- The body of the worker's loop for one job, with no other call in between.
unfoldable pub work_on : Sys → Round → ℕ → Job → Sys
unfolding must_skip execute
work_on s w a j = resume (must_skip s j) s w a j

abbrev pub work_at : Sys → Round → ℕ → Option Job → Sys
work_at s w a none = s
work_at s w a (some j) = work_on s w a j

-- One round: `none` while the channel is empty.
unfoldable pub work_one : Sys → Round → Option Sys
unfolding take_job work_on
work_one s w = elim (take_job s) [
  | none ↦ none
  | some (a, s') ↦ some (work_at s' w a (get_elem? s'.queue.heap a))
]
