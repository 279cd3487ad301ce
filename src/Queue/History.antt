-- ===== src/Queue/History.antt =====
-- What the history of the goroutines of server/internal/run/queue.go says of its state, read from
-- the history alone.
use eagle_condor_sandbox.Prelude.{
  ℕ, ◌+◌, ◌<◌, ◌≤◌, ◌==◌, Bool, true, false, ◌||◌, List, [], ◌∷◌, ◌++◌, Option, none, some, ◌≡◌,
  length, get_elem?, if◌then◌else◌,
}
use eagle_condor_sandbox.Prelude.Text.{Text, text_eq}
use eagle_condor_sandbox.Prelude.Assoc.{lookup}
use eagle_condor_sandbox.Queue.Defs.{Job, Sys, Sent, accepted, full, panics}
use eagle_condor_sandbox.Queue.Steps.{Moment, added, sent, shut, asked, acted, took, armed, forgot}
use eagle_condor_sandbox.Queue.Ownership.{Owned}

-- The job of a run: that of its last Submit, until it is refused or forgotten.
abbrev pub live_in : List Moment → Text → Option ℕ
live_in [] id = none
live_in (added k a b ∷ h) id = if text_eq k id then some a else live_in h id
live_in (sent full k a ∷ h) id = if text_eq k id then none else live_in h id
live_in (forgot k ∷ h) id = if text_eq k id then none else live_in h id
live_in (m ∷ h) id = live_in h id

-- The log buffer of a run: that of its last Submit, until it is refused.
abbrev pub buf_in : List Moment → Text → Option ℕ
buf_in [] id = none
buf_in (added k a b ∷ h) id = if text_eq k id then some b else buf_in h id
buf_in (sent full k a ∷ h) id = if text_eq k id then none else buf_in h id
buf_in (m ∷ h) id = buf_in h id

-- Whether a cancellation of a run was asked for since it was last forgotten.
abbrev pub flag_in : List Moment → Text → Option Bool
flag_in [] id = none
flag_in (asked k ∷ h) id = if text_eq k id then some true else flag_in h id
flag_in (forgot k ∷ h) id = if text_eq k id then none else flag_in h id
flag_in (m ∷ h) id = flag_in h id

-- Whether Stop has closed the channel.
abbrev pub shut_in : List Moment → Bool
shut_in [] = false
shut_in (shut ∷ h) = true
shut_in (m ∷ h) = shut_in h

-- The jobs that Submit put into the channel, the first one first.
abbrev pub accepted_in : List Moment → List ℕ
accepted_in [] = []
accepted_in (sent accepted k a ∷ h) = accepted_in h ++ a ∷ []
accepted_in (m ∷ h) = accepted_in h

-- The jobs that the workers took, the first one first.
abbrev pub taken_in : List Moment → List ℕ
taken_in [] = []
taken_in (took a ∷ h) = taken_in h ++ a ∷ []
taken_in (m ∷ h) = taken_in h

-- Whether the job at an address was given its cancel function.
abbrev pub armed_in : List Moment → ℕ → Bool
armed_in [] b = false
armed_in (added k a n ∷ h) b = if a == b then false else armed_in h b
armed_in (armed a ∷ h) b = if a == b then true else armed_in h b
armed_in (m ∷ h) b = armed_in h b

-- Whether Cancel acted on the job at an address when it had its cancel function.
abbrev pub stopped_in : List Moment → ℕ → Bool
stopped_in [] b = false
stopped_in (added k a n ∷ h) b = if a == b then false else stopped_in h b
stopped_in (acted (some a) ∷ h) b =
    if a == b then stopped_in h b || armed_in h b else stopped_in h b
stopped_in (m ∷ h) b = stopped_in h b

-- The context of each job is as its history says.
abbrev pub Signalled : List Moment → List Job → Type 0
Signalled h heap =
    (b : ℕ) (j : Job)
    → get_elem? heap b ≡ some j
    → (j.cancellable ≡ armed_in h b) × (j.stopped ≡ stopped_in h b)

-- What a send answers: it panics after Stop, and else is accepted exactly if fewer than `depth` of the
-- accepted jobs are not taken yet.
abbrev pub IsAnswer : ℕ → List Moment → Sent → Type 0
IsAnswer depth h panics = shut_in h ≡ true
IsAnswer depth h accepted =
    (shut_in h ≡ false) × (length (accepted_in h) < length (taken_in h) + depth)
IsAnswer depth h full = (shut_in h ≡ false) × (length (taken_in h) + depth ≤ length (accepted_in h))

-- Every send of a history answered by what came before it.
abbrev pub Answered : ℕ → List Moment → Type 0
Answered depth [] = Unit
Answered depth (sent o id a ∷ h) = IsAnswer depth h o × Answered depth h
Answered depth (m ∷ h) = Answered depth h

-- The state of a queue is what its history says.
pub record Follows (depth : ℕ) (h : List Moment) (s : Sys) : Type 0 where
  pub live : (id : Text) → lookup id s.queue.live ≡ live_in h id
  pub bufs : (id : Text) → lookup id s.queue.bufs ≡ buf_in h id
  pub flagged : (id : Text) → lookup id s.queue.flagged ≡ flag_in h id
  pub closed : s.queue.closed ≡ shut_in h
  pub in_order : accepted_in h ≡ taken_in h ++ s.queue.jobs
  pub room : length s.queue.jobs ≤ depth
  pub depth_kept : s.queue.depth ≡ depth
  pub answered : Answered depth h
  pub signalled : Signalled h s.queue.heap
  pub owned : Owned s
