-- ===== src/Exec.antt =====
-- server/internal/run/exec.go: the child process of a run. What the operating system does is a
-- script: which calls fail, and the events up to the end of the process, in their order. The context
-- is done at most once, so that a second event of that kind changes nothing.
pub mod Environment
pub mod Scanner
pub mod Outcomes
pub mod Success
pub mod Logs
use eagle_condor_sandbox.Prelude.{
  ℕ, Bool, true, false, List, [], ◌∷◌, ◌++◌, Option, none, some, if◌then◌else◌, ◌==◌, length, leb,
}
use eagle_condor_sandbox.Prelude.Int.{ℤ, pos, negsuc, eq_ℤ}
use eagle_condor_sandbox.Prelude.Text.{Text, codes}
use eagle_condor_sandbox.Prelude.Assoc.{Assoc}
use eagle_condor_sandbox.Layout.Path.{base}
use eagle_condor_sandbox.Layout.{log_file}
use eagle_condor_sandbox.Logbuf.{Buffer, append}
use eagle_condor_sandbox.Logbuf.Ansi.{strip_ansi}
use eagle_condor_sandbox.Run.{State, succeeded, failed, cancelled, timed_out, errored}

-- The error is its text.
pub record Outcome : Type 0 where
  pub exit_code : ℤ
  pub state : State
  pub err : Option Text

-- `spec` is Workflow.Spec, and `root` is Layout.Root.
pub record Spec : Type 0 where
  pub spec : Text
  pub root : Text
  pub env : Assoc Text
  pub timeout_seconds : ℤ

pub record Runtime : Type 0 where
  pub automation_dir : Text
  pub playwright_cli : Text
  pub node_bin : Text
  pub receipts_dir : Text

-- What happens up to the end of the process, in its order: the pipe delivers a line, without its
-- newline, before cmd.Wait closes it; or the context ends, by its deadline or by its cancellation,
-- with the error of KillTree. A line that cmd.Wait cuts off or loses is no event, or a shorter one.
pub data Event : Type 0 where
  reads : Text → Event
  expires cancels : Option Text → Event

-- The error of cmd.Wait: none, an ExitError with its code, or another.
pub data Waited : Type 0 where
  clean : Waited
  exits : ℤ → Waited
  wait_fails : Text → Waited

-- The errors of os.Create, StdoutPipe and Start, and what follows.
pub record Child : Type 0 where
  pub create_error : Option Text
  pub pipe_error : Option Text
  pub start_error : Option Text
  pub pid : ℤ
  pub events : List Event
  pub waited : Waited

-- What Execute has done: the log buffer, the lines handed to the writer of the log file, whose
-- errors are ignored, the process ids given to onStart
-- and to KillTree, and what the channel `killed` holds.
pub record Effects : Type 0 where
  pub buf : Buffer
  pub file : List Text
  pub started : List ℤ
  pub kills : List ℤ
  pub killed : Option State

abbrev or_else : Buffer → Option Buffer → Buffer
or_else b none = b
or_else b (some b') = b'

-- buf.Append. Nothing in the server subscribes to a run's buffer, so that no send can panic.
unfoldable pub say : Buffer → Text → Buffer
unfolding append
say b t = or_else b (append b t)

abbrev pub kill_note : Text
kill_note = codes "[server] failed to kill process tree: "

abbrev note_kill : Buffer → Option Text → Buffer
note_kill b none = b
note_kill b (some e) = say b (kill_note ++ e)

-- The supervisor, unless it has already ended.
abbrev stop_with : ℤ → State → Option Text → Effects → Option State → Effects
stop_with pid st e x (some earlier) = x
stop_with pid st e x none = record x {
  buf = note_kill x.buf e;
  kills = x.kills ++ pid ∷ [];
  killed = some st;
}

unfoldable pub happen : ℤ → Effects → Event → Effects
unfolding say strip_ansi
happen pid x (reads t) = record x { buf = say x.buf t; file = x.file ++ strip_ansi t ∷ [] }
happen pid x (expires e) = stop_with pid timed_out e x x.killed
happen pid x (cancels e) = stop_with pid cancelled e x x.killed

unfoldable pub happen_all : ℤ → Effects → List Event → Effects
unfolding happen
happen_all pid x [] = x
happen_all pid x (e ∷ es) = happen_all pid (happen pid x e) es

-- The scanner's limit, sc.Buffer.
abbrev pub max_line : ℕ
max_line = 4194304

-- bufio.ScanLines drops a carriage return at the end of a line.
unfoldable pub drop_cr : Text → Text
drop_cr [] = []
drop_cr (c ∷ []) = if c == 13 then [] else c ∷ []
drop_cr (c ∷ d ∷ t) = c ∷ drop_cr (d ∷ t)

-- The loop over the lines has ended, and what the pipe still delivers is not read.
unfoldable pub unread : List Event → List Event
unread [] = []
unread (reads t ∷ es) = unread es
unread (expires e ∷ es) = expires e ∷ unread es
unread (cancels e ∷ es) = cancels e ∷ unread es

-- The lines that sc.Scan yields: it stops at a line that does not fit its buffer.
unfoldable pub scanned : List Event → List Event
unfolding drop_cr unread
scanned [] = []
scanned (reads t ∷ es) =
    let rest = scanned es in if leb max_line (length t) then unread es else reads (drop_cr t) ∷ rest
scanned (expires e ∷ es) = expires e ∷ scanned es
scanned (cancels e ∷ es) = cancels e ∷ scanned es

-- Execute from the exit code on.
abbrev settle_exit : ℤ → Option State → Outcome
settle_exit code (some st) = record { exit_code = code; state = st; err = none }
settle_exit code none =
    if eq_ℤ code (pos 0)
    then record { exit_code = pos 0; state = succeeded; err = none }
    else record { exit_code = code; state = failed; err = none }

-- Execute after cmd.Wait.
unfoldable pub conclude : Waited → Option State → Outcome
conclude clean killed = settle_exit (pos 0) killed
conclude (exits code) killed = settle_exit code killed
conclude (wait_fails e) killed = record { exit_code = negsuc 0; state = errored; err = some e }

abbrev failure : Text → Outcome
failure e = record { exit_code = negsuc 0; state = errored; err = some e }

abbrev pub command_line : Runtime → Spec → Text
command_line rt spec =
    codes "$ " ++ rt.node_bin ++ codes " " ++ base rt.playwright_cli ++ codes " test " ++ spec.spec

abbrev untouched : Buffer → Effects
untouched b = record { buf = b; file = []; started = []; kills = []; killed = none }

abbrev launched : Runtime → Spec → Child → Buffer → Option Text → Effects × Outcome
launched rt spec c b (some e) =
    (untouched (say b (command_line rt spec)), failure (codes "starting playwright: " ++ e))
launched rt spec c b none =
    let x0 = record (untouched (say b (command_line rt spec))) { started = c.pid ∷ [] } in
    let x = happen_all c.pid x0 (scanned c.events) in (x, conclude c.waited x.killed)

abbrev piped : Runtime → Spec → Child → Buffer → Option Text → Effects × Outcome
piped rt spec c b (some e) = (untouched b, failure e)
piped rt spec c b none = launched rt spec c b c.start_error

abbrev logging : Runtime → Spec → Child → Buffer → Text → Option Text → Effects × Outcome
logging rt spec c b path (some e) =
    (untouched b, failure (codes "creating " ++ path ++ codes ": " ++ e))
logging rt spec c b path none = piped rt spec c b c.pipe_error

-- Execute
unfoldable pub run_child : Runtime → Spec → Child → Buffer → Effects × Outcome
unfolding happen_all scanned conclude say base log_file
run_child rt spec c b = logging rt spec c b (log_file spec.root) c.create_error
