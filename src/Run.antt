-- ===== src/Run.antt =====
-- server/internal/run/run.go: what a run is. Instants are nanoseconds since a fixed moment; a nil
-- pointer is `none`.
pub mod Terminal
pub mod Id
pub mod Kill
use eagle_condor_sandbox.Prelude.{
  ℕ, ◌+◌, ◌-◌, Bool, true, false, ◌||◌, List, [], Option, none, some, leb, if◌then◌else◌,
}
use eagle_condor_sandbox.Prelude.Int.{ℤ, pos, negsuc}
use eagle_condor_sandbox.Prelude.Text.{Text, codes, text_eq}
use eagle_condor_sandbox.Prelude.Assoc.{Assoc}

-- `type State string`: the seven constants, and any other text, which meta.json or a query may hold.
pub data State : Type 0 where
  queued running succeeded failed cancelled timed_out errored : State
  other : Text → State

-- string(s)
unfoldable pub state_text : State → Text
state_text queued = codes "queued"
state_text running = codes "running"
state_text succeeded = codes "succeeded"
state_text failed = codes "failed"
state_text cancelled = codes "cancelled"
state_text timed_out = codes "timed_out"
state_text errored = codes "errored"
state_text (other t) = t

-- `==` on State
unfoldable pub state_eq : State → State → Bool
unfolding state_text text_eq
state_eq s t = text_eq (state_text s) (state_text t)

-- Terminal
unfoldable pub terminal : State → Bool
unfolding state_eq
terminal s =
    state_eq s succeeded
    || state_eq s failed
    || state_eq s cancelled
    || state_eq s timed_out
    || state_eq s errored

pub data Kind : Type 0 where
  output_json policy_csv trace inputs screenshot video other_kind : Kind

pub record Artifact : Type 0 where
  pub id : Text
  pub kind : Kind
  pub name : Text
  pub test_title : Text
  pub size : ℕ
  pub sensitive : Bool
  pub rel : Text

pub record TestResult : Type 0 where
  pub title : Text
  pub status : Text
  pub duration : ℤ
  pub error : Text

pub record Summary : Type 0 where
  pub total : ℕ
  pub passed : ℤ
  pub failed : ℤ
  pub skipped : ℤ
  pub flaky : ℤ
  pub duration : ℤ
  pub tests : List TestResult

pub record Run : Type 0 where
  pub id : Text
  pub workflow_id : Text
  pub env : Text
  pub submitted_by : Text
  pub state : State
  pub error : Text
  pub queued_at : ℕ
  pub started_at : Option ℕ
  pub ended_at : Option ℕ
  pub timeout_seconds : ℤ
  pub exit_code : Option ℤ
  pub params : Assoc Text
  pub summary : Option Summary
  pub artifacts : List Artifact
  pub pid : ℤ
  pub queue_position : ℕ

abbrev span : ℕ → ℕ → ℤ
span a b = if leb a b then pos (b - a) else negsuc (a - b - 1)

abbrev or_now : Option ℕ → ℕ → ℕ
or_now none now = now
or_now (some t) now = t

-- Duration, at the moment `now`.
unfoldable pub duration : Run → ℕ → ℤ
duration r now = elim r.started_at [
  | none ↦ pos 0
  | some started ↦ span started (or_now r.ended_at now)
]
