-- ===== src/Exec/Success.antt =====
-- When Execute (server/internal/run/exec.go) reports success.
use eagle_condor_sandbox.Prelude.{
  List, [], ◌∷◌, Option, none, ◌≡◌, ◌≢◌, ◌↔◌, refl, sym, ap, ◌∙◌, Bool-cases, inl, inr,
}
use eagle_condor_sandbox.Prelude.Int.{ℤ, pos, eq_ℤ, eq_ℤ_iff}
use eagle_condor_sandbox.Logbuf.{Buffer}
use eagle_condor_sandbox.Run.{State, succeeded, errored}
use eagle_condor_sandbox.Exec.{
  Outcome, Spec, Runtime, Event, reads, expires, cancels, Waited, clean, exits, wait_fails, Child,
  settle_exit, conclude, run_child,
}
use eagle_condor_sandbox.Exec.Scanner.{first_stop}
use eagle_condor_sandbox.Exec.Outcomes.{Starts, run_child-concludes, run_child-failed_start}

abbrev pub ExitsZero : Waited → Type 0
ExitsZero clean = Unit
ExitsZero (exits code) = code ≡ pos 0
ExitsZero (wait_fails e) = ⊥

settle_exit-succeeds :
    (code : ℤ) (es : List Event)
    → (settle_exit code (first_stop es)).state ≡ succeeded
    → (code ≡ pos 0) × (first_stop es ≡ none)
settle_exit-succeeds code [] h = elim (Bool-cases (eq_ℤ code (pos 0))) [
  | inl e ↦ ((eq_ℤ_iff code (pos 0)).0 e, refl)
  | inr e ↦ absurd (cc (h, e))
]
settle_exit-succeeds code (reads t ∷ es) h = settle_exit-succeeds code es h
settle_exit-succeeds code (expires e ∷ es) h = cc
settle_exit-succeeds code (cancels e ∷ es) h = cc

conclude-succeeds :
    (w : Waited) (es : List Event)
    → (conclude w (first_stop es)).state ≡ succeeded
    → ExitsZero w × (first_stop es ≡ none)
unfolding conclude
conclude-succeeds clean es h = (tt, (settle_exit-succeeds (pos 0) es h).1)
conclude-succeeds (exits code) es h = settle_exit-succeeds code es h
conclude-succeeds (wait_fails e) es h = cc

conclude-zero :
    (w : Waited) (o : Option State) → ExitsZero w → o ≡ none → (conclude w o).state ≡ succeeded
unfolding conclude
conclude-zero clean o h e = rw e
conclude-zero (exits code) o h e = rw (e, h)
conclude-zero (wait_fails x) o h e = absurd h

not_errored : (st : State) → st ≡ errored → st ≢ succeeded
not_errored st e q = cc

-- Execute reports success exactly if the process could be started, exited with the code 0, and was
-- not stopped before it ended.
pub run_child-succeeded :
    (rt : Runtime) (spec : Spec) (c : Child) (b : Buffer)
    → ((run_child rt spec c b).1.state ≡ succeeded)
      ↔ (Starts c × ExitsZero c.waited × (first_stop c.events ≡ none))
run_child-succeeded rt spec c b = (only, when)
  where
    state_of :
        Starts c → (run_child rt spec c b).1.state ≡ (conclude c.waited (first_stop c.events)).state
    state_of h = ap (λ (o : Outcome). o.state) (run_child-concludes rt spec c b h).2

    succeeds :
        Starts c
        → ExitsZero c.waited × (first_stop c.events ≡ none)
        → Starts c × ExitsZero c.waited × (first_stop c.events ≡ none)
    succeeds h (z, n) = (h, z, n)

    only :
        (run_child rt spec c b).1.state ≡ succeeded
        → Starts c × ExitsZero c.waited × (first_stop c.events ≡ none)
    only e = elim (run_child-failed_start rt spec c b) [
      | inr q ↦ absurd (not_errored (run_child rt spec c b).1.state q e)
      | inl h ↦ succeeds h (conclude-succeeds c.waited c.events (sym (state_of h) ∙ e))
    ]

    when :
        Starts c × ExitsZero c.waited × (first_stop c.events ≡ none)
        → (run_child rt spec c b).1.state ≡ succeeded
    when (h, z, n) = state_of h ∙ conclude-zero c.waited (first_stop c.events) z n
