-- ===== src/Run/Kill.antt =====
-- KillTree of server/internal/run/kill_unix.go. What syscall.Kill and the clock answer is a
-- parameter.
pub mod Rounds
pub mod Ends
use eagle_condor_sandbox.Prelude.{
  ℕ, zero, suc, ◌+◌, ◌-◌, Bool, true, false, List, [], ◌∷◌, Option, none, some, ltb, if◌then◌else◌,
}
use eagle_condor_sandbox.Prelude.Int.{ℤ, pos, negsuc, leb_ℤ}

-- SIGTERM, the signal 0, SIGKILL.
pub data Signal : Type 0 where
  term probe kill : Signal

-- ESRCH, and every other error by its number.
pub data Errno : Type 0 where
  no_process : Errno
  errno : ℕ → Errno

pub data KillError : Type 0 where
  invalid_pid : KillError
  term_failed kill_failed : Errno → KillError

-- What the system answers: to SIGTERM, the clock after that, then in each round the clock and the
-- answer to the signal 0, and to SIGKILL. Instants are nanoseconds.
pub record Group : Type 0 where
  pub on_term : Option Errno
  pub started : ℕ
  pub now : ℕ → ℕ
  pub on_probe : ℕ → Option Errno
  pub on_kill : Option Errno

-- The rest of the answers after one round.
abbrev pub shift : Group → Group
shift g = record g { now = λ n. g.now (suc n); on_probe = λ n. g.on_probe (suc n) }

abbrev pub is_gone : Option Errno → Bool
is_gone none = false
is_gone (some no_process) = true
is_gone (some (errno n)) = false

abbrev pub kill_error : Option Errno → Option KillError
kill_error none = none
kill_error (some no_process) = none
kill_error (some (errno n)) = some (kill_failed (errno n))

-- The signals that are sent, with the target of each, and the error.
abbrev pub Sent : Type 0
Sent = List (ℤ × Signal) × Option KillError

abbrev pub sends : ℤ → Signal → Option Sent → Option Sent
sends to s none = none
sends to s (some (ss, e)) = some ((to, s) ∷ ss, e)

-- `time.Now().Add(10 * time.Second)`
abbrev pub deadline : Group → ℕ
deadline g = g.started + 10000000000

-- The loop and what follows; `none` is that it is not over within `fuel` rounds.
unfoldable pub wait : ℕ → ℤ → Group → Option Sent
wait zero to g = none
wait (suc fuel) to g =
    let rest = wait fuel to (shift g) in
    if ltb (g.now 0) (deadline g)
    then sends to probe (if is_gone (g.on_probe 0) then some ([], none) else rest)
    else some ((to, kill) ∷ [], kill_error g.on_kill)

abbrev pub negated : ℤ → ℤ
negated (pos zero) = pos 0
negated (pos (suc n)) = negsuc n
negated (negsuc n) = pos (suc n)

-- From the answer to SIGTERM on.
abbrev pub termed : ℕ → ℤ → Group → Option Errno → Option Sent
termed fuel to g none = sends to term (wait fuel to g)
termed fuel to g (some no_process) = some ((to, term) ∷ [], none)
termed fuel to g (some (errno n)) = some ((to, term) ∷ [], some (term_failed (errno n)))

-- KillTree
unfoldable pub kill_tree : ℕ → ℤ → Group → Option Sent
unfolding wait
kill_tree fuel pid g =
    if leb_ℤ pid (pos 0) then some ([], some invalid_pid) else termed fuel (negated pid) g g.on_term
