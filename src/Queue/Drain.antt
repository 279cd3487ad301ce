-- ===== src/Queue/Drain.antt =====
-- After Stop of server/internal/run/queue.go: the end of a worker's loop over the closed channel.
use eagle_condor_sandbox.Prelude.{
  ℕ, zero, suc, ◌+◌, true, List, [], ◌∷◌, Option, none, some, ◌≡◌, ◌⊎◌, inl, inr, refl, sym, ap,
  ◌∙◌, subst, length, get_elem?, All, if◌then◌else◌, Bool-cases,
}
use eagle_condor_sandbox.Prelude.Text.{Text, text_eq, text_eq_iff}
use eagle_condor_sandbox.Run.{Run, terminal}
use eagle_condor_sandbox.Store.{get}
use eagle_condor_sandbox.Queue.Defs.{Job, Sys}
use eagle_condor_sandbox.Queue.Loop.{Round, take_job, work_on, work_at, work_one}
use eagle_condor_sandbox.Queue.Ownership.{JobOf}
use eagle_condor_sandbox.Queue.Rounds.{IsOver, IsWaiting, IsRound, work_on-IsRound}

-- The loop of one worker, from its round `n` on. It ends when the channel is empty and closed;
-- `none` is that it is not over within `fuel` rounds, or waits for a job.
unfoldable pub drain : ℕ → Sys → (ℕ → Round) → ℕ → Option Sys
unfolding work_one
drain zero s ws n = none
drain (suc fuel) s ws n = elim (work_one s (ws n)) [
  | none ↦ if s.queue.closed then some s else none
  | some s' ↦ drain fuel s' ws (n + 1)
]

abbrev popped : Sys → List ℕ → Sys
popped s rest = record s { queue = record s.queue { jobs = rest } }

take_job-next :
    (s : Sys) (a : ℕ) (rest : List ℕ)
    → s.queue.jobs ≡ a ∷ rest
    → take_job s ≡ some (a, popped s rest)
unfolding take_job
take_job-next s a rest e = rw (take_job, e) refl

work_one-next :
    (s : Sys) (w : Round) (a : ℕ) (rest : List ℕ) (j : Job)
    → s.queue.jobs ≡ a ∷ rest
    → get_elem? s.queue.heap a ≡ some j
    → work_one s w ≡ some (work_on (popped s rest) w a j)
work_one-next s w a rest j e here = taken ∙ ap (λ o. some (work_at (popped s rest) w a o)) here
  where
    taken : work_one s w ≡ some (work_at (popped s rest) w a (get_elem? s.queue.heap a))
    taken = unfold work_one in rw (work_one, take_job-next s a rest e) refl

take_job-none : (s : Sys) → s.queue.jobs ≡ [] → take_job s ≡ none
unfolding take_job
take_job-none s e = rw (take_job, e) refl

work_one-none : (s : Sys) (w : Round) → s.queue.jobs ≡ [] → work_one s w ≡ none
unfolding work_one
work_one-none s w e = rw (work_one, take_job-none s e) refl

drain-end :
    (fuel : ℕ) (s : Sys) (ws : ℕ → Round) (n : ℕ)
    → s.queue.jobs ≡ []
    → s.queue.closed ≡ true
    → drain (suc fuel) s ws n ≡ some s
unfolding drain
drain-end fuel s ws n e c = rw (drain, work_one-none s (ws n) e, c) refl

drain-next :
    (fuel : ℕ) (s s' : Sys) (ws : ℕ → Round) (n : ℕ)
    → work_one s (ws n) ≡ some s'
    → drain (suc fuel) s ws n ≡ drain fuel s' ws (n + 1)
unfolding drain
drain-next fuel s s' ws n e = rw (drain, e) refl

-- A run that had ended, or whose job is waiting at one of the addresses.
abbrev pub IsDue : Sys → List ℕ → Text → Type 0
IsDue s [] id = IsOver s id
IsDue s (a ∷ js) id = JobOf s.queue.heap id a ⊎ IsDue s js id

-- Every waiting job's run is in the store.
abbrev pub AllWaiting : Sys → List ℕ → Type 0
AllWaiting s js = All (λ a. (id : Text) × IsWaiting s id a) js

-- What the loop leaves.
pub record IsDrained (s : Sys) (js : List ℕ) (ws : ℕ → Round) (n : ℕ) : Type 0 where
  pub last : Sys
  pub ends : drain (suc (length js)) s ws n ≡ some last
  pub empty : last.queue.jobs ≡ []
  pub over : (id : Text) → IsDue s js id → IsOver last id

module _ (s s' : Sys) (rest : List ℕ) (a : ℕ) (j : Job) (here : get_elem? s.queue.heap a ≡ some j)
    (round : IsRound (popped s rest) a j s') where
  still-IsOver : (id : Text) → IsOver s id → IsOver s' id
  still-IsOver id (x, got, t) = elim (Bool-cases (text_eq j.run_id id)) [
    | inl e ↦ subst (IsOver s') ((text_eq_iff j.run_id id).0 e) round.over
    | inr e ↦ (x, round.others id e ∙ got, t)
  ]

  still-IsWaiting : (id : Text) (b : ℕ) → IsWaiting s id b → IsWaiting s' id b
  still-IsWaiting id b (own, r, got) =
      let (x, there) = still_there in (round.owned id b own, x, there)
    where
      still_there : (x : Run) × (get s'.store id ≡ some x)
      still_there = elim (Bool-cases (text_eq j.run_id id)) [
        | inl e ↦
            let (x, there, t) = subst (IsOver s') ((text_eq_iff j.run_id id).0 e) round.over in
            (x, there)
        | inr e ↦ (r, round.others id e ∙ got)
      ]

  all_waiting : (js : List ℕ) → AllWaiting s js → AllWaiting s' js
  all_waiting [] h = tt
  all_waiting (b ∷ js) ((id, q), h) = ((id, still-IsWaiting id b q), all_waiting js h)

  still-IsDue : (js : List ℕ) (id : Text) → IsDue s js id → IsDue s' js id
  still-IsDue [] id h = still-IsOver id h
  still-IsDue (b ∷ js) id (inl own) = inl (round.owned id b own)
  still-IsDue (b ∷ js) id (inr h) = inr (still-IsDue js id h)

  -- A run that was due is due, or was that of this round's job, which is over.
  now-IsDue : (js : List ℕ) (id : Text) → IsDue s (a ∷ js) id → IsDue s' js id
  now-IsDue js id (inr h) = still-IsDue js id h
  now-IsDue js id (inl (x, at, own)) = over_due js (subst (IsOver s') mine round.over)
    where
      mine : j.run_id ≡ id
      mine = ap (λ (y : Job). y.run_id) (one (sym here ∙ at)) ∙ own
        where
          one : some j ≡ some x → j ≡ x
          one e = cc

      over_due : (bs : List ℕ) → IsOver s' id → IsDue s' bs id
      over_due [] o = o
      over_due (b ∷ bs) o = inr (over_due bs o)

module _ (ws : ℕ → Round) (ends : (n : ℕ) → terminal (ws n).outcome.state ≡ true) where
  drain_step :
      (s : Sys) (a : ℕ) (js : List ℕ) (n : ℕ)
      → s.queue.jobs ≡ a ∷ js
      → s.queue.closed ≡ true
      → AllWaiting s (a ∷ js)
      → ((s' : Sys)
          → s'.queue.jobs ≡ js
          → s'.queue.closed ≡ true
          → AllWaiting s' js
          → IsDrained s' js ws (n + 1))
      → IsDrained s (a ∷ js) ws n
  drain_step s a js n e c ((id, ((j, here, own), r, got)), h) later =
      let round =
        work_on-IsRound (popped s js) (ws n) a j r here (ap (get s.store) own ∙ got) (ends n) in
      let s' = work_on (popped s js) (ws n) a j in
      let d = later s' round.jobs (round.closed ∙ c) (all_waiting s s' js a j here round js h) in
      record {
        last = d.last;
        ends =
            drain-next (suc (length js)) s s' ws n (work_one-next s (ws n) a js j e here) ∙ d.ends;
        empty = d.empty;
        over = λ k due. d.over k (now-IsDue s s' js a j here round js k due);
      }

  -- After Stop has closed the channel, the loop of a worker with no other call in between ends,
  -- after one round for each job that was waiting, with an empty channel; and every run that had
  -- ended or whose job was waiting has then ended. The waiting jobs' runs are in the store, and
  -- each round's outcome is one of the final states, as every outcome of Execute is.
  pub drain_lem :
      (s : Sys) (js : List ℕ) (n : ℕ)
      → s.queue.jobs ≡ js
      → s.queue.closed ≡ true
      → AllWaiting s js
      → IsDrained s js ws n
  drain_lem s [] n e c h = record {
    last = s;
    ends = drain-end 0 s ws n e c;
    empty = e;
    over = λ id due. due;
  }
  drain_lem s (a ∷ js) n e c h =
      drain_step s a js n e c h (λ s' e' c' h'. drain_lem s' js (n + 1) e' c' h')
