-- ===== src/Exec/Outcomes.antt =====
-- How a run of Execute (server/internal/run/exec.go) ends.
use eagle_condor_sandbox.Prelude.{
  Bool, true, false, ◌≢◌, List, [], ◌∷◌, ◌++◌, Option, none, some, ◌≡◌, ◌⊎◌, refl, sym, ap, ◌∙◌,
  subst, Bool-cases, inl, inr, append-nil, Option-cases,
}
use eagle_condor_sandbox.Prelude.Int.{ℤ, pos, negsuc, eq_ℤ, eq_ℤ_iff}
use eagle_condor_sandbox.Logbuf.{Buffer}
use eagle_condor_sandbox.Run.{State, succeeded, failed, cancelled, timed_out, errored, terminal}
use eagle_condor_sandbox.Exec.{
  Outcome, Spec, Runtime, Event, reads, expires, cancels, Waited, clean, exits, wait_fails, Child,
  Effects, happen, happen_all, scanned, stop_with, settle_exit, conclude, run_child, untouched, say,
  command_line,
}
use eagle_condor_sandbox.Exec.Scanner.{first_stop, first_stop-scanned}

abbrev pub kills_of : ℤ → Option State → List ℤ
kills_of pid none = []
kills_of pid (some st) = pid ∷ []

abbrev Stopped : ℤ → Effects → Option State → Effects → Type 0
Stopped pid x o y = (y.killed ≡ o) × (y.kills ≡ x.kills ++ kills_of pid o) × (y.started ≡ x.started)

abbrev Idle : State → Effects → Effects → Type 0
Idle st x y = (y.killed ≡ some st) × (y.kills ≡ x.kills) × (y.started ≡ x.started)

stays_stopped :
    (pid : ℤ) (st : State) (es : List Event) (x : Effects)
    → x.killed ≡ some st
    → Idle st x (happen_all pid x es)
unfolding happen_all happen
stays_stopped pid st [] x k = (k, refl, refl)
stays_stopped pid st (reads t ∷ es) x k = stays_stopped pid st es (happen pid x (reads t)) k
stays_stopped pid st (expires e ∷ es) x k =
    subst (λ y. Idle st x (happen_all pid y es)) (sym (ap (stop_with pid timed_out e x) k))
      (stays_stopped pid st es x k)
stays_stopped pid st (cancels e ∷ es) x k =
    subst (λ y. Idle st x (happen_all pid y es)) (sym (ap (stop_with pid cancelled e x) k))
      (stays_stopped pid st es x k)

happen_all-Stopped :
    (pid : ℤ) (es : List Event) (x : Effects)
    → x.killed ≡ none
    → Stopped pid x (first_stop es) (happen_all pid x es)
unfolding happen_all happen
happen_all-Stopped pid [] x k = (k, sym (append-nil x.kills), refl)
happen_all-Stopped pid (reads t ∷ es) x k = happen_all-Stopped pid es (happen pid x (reads t)) k
happen_all-Stopped pid (expires e ∷ es) x k =
    subst (λ y. Stopped pid x (some timed_out) (happen_all pid y es))
      (sym (ap (stop_with pid timed_out e x) k))
      (stays_stopped pid timed_out es (stop_with pid timed_out e x none) refl)
happen_all-Stopped pid (cancels e ∷ es) x k =
    subst (λ y. Stopped pid x (some cancelled) (happen_all pid y es))
      (sym (ap (stop_with pid cancelled e x) k))
      (stays_stopped pid cancelled es (stop_with pid cancelled e x none) refl)

-- The process could be started.
abbrev pub Starts : Child → Type 0
Starts c = (c.create_error ≡ none) × (c.pipe_error ≡ none) × (c.start_error ≡ none)

abbrev pub begun : Runtime → Spec → Child → Buffer → Effects
begun rt spec c b = record (untouched (say b (command_line rt spec))) { started = c.pid ∷ [] }

pub run_child-started :
    (rt : Runtime) (spec : Spec) (c : Child) (b : Buffer)
    → Starts c
    → let x = happen_all c.pid (begun rt spec c b) (scanned c.events) in
      run_child rt spec c b ≡ (x, conclude c.waited x.killed)
unfolding run_child
run_child-started rt spec c b (hc, hp, hs) = rw (hc, hp, hs)

pub run_child-concludes :
    (rt : Runtime) (spec : Spec) (c : Child) (b : Buffer)
    → Starts c
    → let (x, o) = run_child rt spec c b in
      (x.started ≡ c.pid ∷ [])
      × (x.kills ≡ kills_of c.pid (first_stop c.events))
      × (o ≡ conclude c.waited (first_stop c.events))
run_child-concludes rt spec c b h =
    let (killed, kills, started) =
      subst (λ k. Stopped c.pid (begun rt spec c b) k last) (first_stop-scanned c.events)
        (happen_all-Stopped c.pid (scanned c.events) (begun rt spec c b) refl) in
    subst Ends (sym (run_child-started rt spec c b h))
      (started, kills, ap (conclude c.waited) killed)
  where
    last : Effects
    last = happen_all c.pid (begun rt spec c b) (scanned c.events)

    Ends : Effects × Outcome → Type 0
    Ends (x, o) =
        (x.started ≡ c.pid ∷ [])
        × (x.kills ≡ kills_of c.pid (first_stop c.events))
        × (o ≡ conclude c.waited (first_stop c.events))

-- The outcome of a process that ended with an exit code, by the state that was asked for.
abbrev pub JudgedBy : ℤ → Option State → Outcome → Type 0
JudgedBy code (some st) o = (o.exit_code ≡ code) × (o.state ≡ st) × (o.err ≡ none)
JudgedBy code none o =
    (o.exit_code ≡ code)
    × (code ≡ pos 0 → o.state ≡ succeeded)
    × (code ≢ pos 0 → o.state ≡ failed)
    × (o.err ≡ none)

-- The outcome of a process that was started.
abbrev pub Judged : Waited → Option State → Outcome → Type 0
Judged clean asked o = JudgedBy (pos 0) asked o
Judged (exits code) asked o = JudgedBy code asked o
Judged (wait_fails e) asked o = (o.exit_code ≡ negsuc 0) × (o.state ≡ errored) × (o.err ≡ some e)

settle_exit-JudgedBy :
    (code : ℤ) (asked : Option State) → JudgedBy code asked (settle_exit code asked)
settle_exit-JudgedBy code (some st) = (refl, refl, refl)
settle_exit-JudgedBy code none = elim (Bool-cases (eq_ℤ code (pos 0))) [
  | inl e ↦
      let zero : code ≡ pos 0 = (eq_ℤ_iff code (pos 0)).0 e in
      rw e (sym zero, λ q. refl, λ ne. absurd (ne zero), refl)
  | inr e ↦ rw e (refl, λ q. absurd (apart ((eq_ℤ_iff code (pos 0)).1 q) e), λ ne. refl, refl)
]
  where
    apart : {t : Bool} → t ≡ true → t ≡ false → ⊥
    apart p r = cc

conclude-Judged : (w : Waited) (asked : Option State) → Judged w asked (conclude w asked)
unfolding conclude
conclude-Judged clean asked = settle_exit-JudgedBy (pos 0) asked
conclude-Judged (exits code) asked = settle_exit-JudgedBy code asked
conclude-Judged (wait_fails e) asked = (refl, refl, refl)

-- If the process could be started, its id is reported once, and its tree is killed if the context
-- ended before the process did, and then once. If cmd.Wait fails other than by an exit code, the run
-- is errored, with its error and the exit code -1, also after a kill. Otherwise the exit code is
-- that of the process, and there is no error: if the context ended, the first such event decides
-- between cancelled and timed out, whatever the exit code; if not, the run succeeded for the exit
-- code 0 and failed for every other.
pub run_child-stopped :
    (rt : Runtime) (spec : Spec) (c : Child) (b : Buffer)
    → Starts c
    → let (x, o) = run_child rt spec c b in
      (x.started ≡ c.pid ∷ [])
      × (x.kills ≡ kills_of c.pid (first_stop c.events))
      × Judged c.waited (first_stop c.events) o
run_child-stopped rt spec c b h =
    let (started, kills, o) = run_child-concludes rt spec c b h in
    (
      started,
      kills,
      subst (Judged c.waited (first_stop c.events)) (sym o)
          (conclude-Judged c.waited (first_stop c.events)),
    )

abbrev IsEnd : Outcome → Type 0
IsEnd o = terminal o.state ≡ true

first_stop-IsEnd : (es : List Event) (st : State) → first_stop es ≡ some st → terminal st ≡ true
unfolding terminal
first_stop-IsEnd [] st e = cc
first_stop-IsEnd (reads t ∷ es) st e = first_stop-IsEnd es st e
first_stop-IsEnd (expires x ∷ es) st e = ap terminal (sym (some_inj e))
  where
    some_inj : some timed_out ≡ some st → timed_out ≡ st
    some_inj q = cc
first_stop-IsEnd (cancels x ∷ es) st e = ap terminal (sym (some_inj e))
  where
    some_inj : some cancelled ≡ some st → cancelled ≡ st
    some_inj q = cc

settle_exit-IsEnd :
    (code : ℤ) (o : Option State)
    → ((st : State) → o ≡ some st → terminal st ≡ true)
    → IsEnd (settle_exit code o)
unfolding terminal
settle_exit-IsEnd code (some st) h = h st refl
settle_exit-IsEnd code none h = elim (Bool-cases (eq_ℤ code (pos 0))) [
  | inl e ↦ rw e
  | inr e ↦ rw e
]

conclude-IsEnd :
    (w : Waited) (o : Option State)
    → ((st : State) → o ≡ some st → terminal st ≡ true)
    → IsEnd (conclude w o)
unfolding conclude terminal
conclude-IsEnd clean o h = settle_exit-IsEnd (pos 0) o h
conclude-IsEnd (exits code) o h = settle_exit-IsEnd code o h
conclude-IsEnd (wait_fails e) o h = refl

pub run_child-failed_start :
    (rt : Runtime) (spec : Spec) (c : Child) (b : Buffer)
    → Starts c ⊎ ((run_child rt spec c b).1.state ≡ errored)
unfolding run_child
run_child-failed_start rt spec c b = elim (Option-cases c.create_error) [
  | inr (e, h) ↦ inr (rw h)
  | inl hc ↦ elim (Option-cases c.pipe_error) [
    | inr (e, h) ↦ inr (rw (hc, h))
    | inl hp ↦ elim (Option-cases c.start_error) [
      | inr (e, h) ↦ inr (rw (hc, hp, h))
      | inl hs ↦ inl (hc, hp, hs)
    ]
  ]
]

-- Execute always ends in a terminal state, whatever the system does.
pub run_child-terminal :
    (rt : Runtime) (spec : Spec) (c : Child) (b : Buffer)
    → terminal (run_child rt spec c b).1.state ≡ true
run_child-terminal rt spec c b = elim (run_child-failed_start rt spec c b) [
  | inr e ↦ ap terminal e ∙ unfold terminal in refl
  | inl h ↦
      ap (λ (o : Outcome). terminal o.state) (run_child-concludes rt spec c b h).2
      ∙ conclude-IsEnd c.waited (first_stop c.events) (first_stop-IsEnd c.events)
]
