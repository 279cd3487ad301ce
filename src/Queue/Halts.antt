-- ===== src/Queue/Halts.antt =====
-- Cancel of server/internal/run/queue.go against the history.
use eagle_condor_sandbox.Prelude.{
  ℕ, ==_iff, Bool, true, ◌||◌, List, ◌∷◌, Option, none, some, ◌≡◌, refl, sym, ap, ◌∙◌, subst, arith,
  Bool-cases, inl, inr, get_elem?,
}
use eagle_condor_sandbox.Prelude.Text.{Text}
use eagle_condor_sandbox.Store.Persist.{Faults}
use eagle_condor_sandbox.Queue.Defs.{Job, Sys, stop_job}
use eagle_condor_sandbox.Queue.Cancel.{stop_job-idle, stop_job-busy}
use eagle_condor_sandbox.Queue.Steps.{Moment, acted}
use eagle_condor_sandbox.Queue.Ownership.{Owned}
use eagle_condor_sandbox.Queue.Signals.{Signalled-set, Signalled-idle}
use eagle_condor_sandbox.Queue.History.{armed_in, stopped_in, Follows}

pub stop_job-Follows :
    {depth : ℕ} {h : List Moment} (s : Sys) (t : Faults) (now : ℕ) (id : Text) (a : ℕ)
    (o : Option Job)
    → get_elem? s.queue.heap a ≡ o
    → Follows depth h s
    → Owned (stop_job s t now id a o).0
    → Follows depth (acted (some a) ∷ h) (stop_job s t now id a o).0
stop_job-Follows {h} s t now id a none e f own = record {
  live = f.live;
  bufs = f.bufs;
  flagged = f.flagged;
  closed = f.closed;
  in_order = f.in_order;
  room = f.room;
  depth_kept = f.depth_kept;
  answered = f.answered;
  signalled = Signalled-idle h s.queue.heap a (λ j q. absurd (no j (sym e ∙ q))) f.signalled;
  owned = own;
}
  where
    no : (j : Job) → none ≡ some j → ⊥
    no j q = cc
stop_job-Follows {depth} {h} s t now id a (some j) e f own = elim (Bool-cases j.cancellable) [
  | inl c ↦ subst P (sym (ap (λ p. p.0) (stop_job-busy s t now id a j c))) (record {
    live = f.live;
    bufs = f.bufs;
    flagged = f.flagged;
    closed = f.closed;
    in_order = f.in_order;
    room = f.room;
    depth_kept = f.depth_kept;
    answered = f.answered;
    signalled =
        Signalled-set h (acted (some a) ∷ h) s.queue.heap a j (record j { stopped = true }) e
          ((f.signalled a j e).0, now_stopped c) (λ b q. (refl, rw q refl)) f.signalled;
    owned = subst Owned (ap (λ p. p.0) (stop_job-busy s t now id a j c)) own;
  })
  | inr c ↦ subst P (sym (stop_job-idle s t now id a j c)) (record {
    live = f.live;
    bufs = f.bufs;
    flagged = f.flagged;
    closed = f.closed;
    in_order = f.in_order;
    room = f.room;
    depth_kept = f.depth_kept;
    answered = f.answered;
    signalled =
        Signalled-idle h s.queue.heap a
          (λ x q. ap (λ (y : Job). y.cancellable) (same (sym q ∙ e)) ∙ c) f.signalled;
    owned = f.owned;
  })
]
  where
    P : Sys → Type 0
    P s' = Follows depth (acted (some a) ∷ h) s'

    same : {x : Job} → some x ≡ some j → x ≡ j
    same q = cc

    now_stopped : j.cancellable ≡ true → true ≡ stopped_in (acted (some a) ∷ h) a
    now_stopped c =
        rw ((==_iff a a).1 refl)
          (either (stopped_in h a) (armed_in h a) (sym (f.signalled a j e).0 ∙ c))
      where
        either : (u v : Bool) → v ≡ true → true ≡ u || v
        either u v q = ground arith

pub quiet-Follows :
    {depth : ℕ} {h : List Moment} (s : Sys) → Follows depth h s → Follows depth (acted none ∷ h) s
quiet-Follows s f = record {
  live = f.live;
  bufs = f.bufs;
  flagged = f.flagged;
  closed = f.closed;
  in_order = f.in_order;
  room = f.room;
  depth_kept = f.depth_kept;
  answered = f.answered;
  signalled = f.signalled;
  owned = f.owned;
}
