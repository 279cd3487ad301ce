-- ===== src/Run/Terminal.antt =====
-- Which states of server/internal/run/run.go are final.
use eagle_condor_sandbox.Prelude.{◌≡◌, refl, true, false, ap, ◌||◌}
use eagle_condor_sandbox.Prelude.Text.{text_eq, text_eq_iff}
use eagle_condor_sandbox.Run.{
  State, queued, running, succeeded, failed, cancelled, timed_out, errored, state_text, state_eq,
  terminal,
}

pub state_eq_refl : (s : State) → state_eq s s ≡ true
unfolding state_eq
state_eq_refl s = (text_eq_iff (state_text s) (state_text s)).1 refl

pub terminal-queued : terminal queued ≡ false
unfolding terminal
terminal-queued = refl

pub terminal-running : terminal running ≡ false
unfolding terminal
terminal-running = refl

pub terminal-errored : terminal errored ≡ true
unfolding terminal
terminal-errored = refl

pub terminal-cancelled : terminal cancelled ≡ true
unfolding terminal
terminal-cancelled = refl

-- Whether a state is final depends on its text alone.
pub terminal_by_text : (s t : State) → state_text s ≡ state_text t → terminal s ≡ terminal t
unfolding terminal
terminal_by_text s t h =
    ap
      (λ x.
        text_eq x (state_text succeeded)
        || text_eq x (state_text failed)
        || text_eq x (state_text cancelled)
        || text_eq x (state_text timed_out)
        || text_eq x (state_text errored))
      h
