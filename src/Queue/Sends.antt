-- ===== src/Queue/Sends.antt =====
-- Submit of server/internal/run/queue.go against the history.
use eagle_condor_sandbox.Prelude.{
  ℕ, ◌+◌, ◌<◌, ◌≤◌, true, false, List, [], ◌∷◌, ◌++◌, none, some, ◌≡◌, refl, sym, ap, ◌∙◌, subst,
  arith, Bool-cases, inl, inr, length, length-append, ltb, if◌then◌else◌, append_assoc,
}
use eagle_condor_sandbox.Prelude.Text.{Text, text_eq}
use eagle_condor_sandbox.Prelude.Assoc.{Assoc, lookup-insert, lookup-delete}
use eagle_condor_sandbox.Catalog.{Workflow}
use eagle_condor_sandbox.Run.{Run}
use eagle_condor_sandbox.Queue.Defs.{Sys, Sent, accepted, full, panics, register, new_job, send}
use eagle_condor_sandbox.Queue.Submit.{enqueue, withdraw, send-accepted, send-full, send-panics}
use eagle_condor_sandbox.Queue.Steps.{Moment, added, sent, registers, sends}
use eagle_condor_sandbox.Queue.Ownership.{Owned, Step-Owned}
use eagle_condor_sandbox.Queue.Signals.{Signalled-more}
use eagle_condor_sandbox.Queue.History.{accepted_in, taken_in, Follows}

pub register-Follows :
    {depth : ℕ} {h : List Moment} (s : Sys) (r : Run) (wf : Workflow) (env : Assoc Text)
    → Follows depth h s
    → Follows depth
        (added r.id (length s.queue.heap) (length s.queue.buffers) ∷ h)
        (register s r wf env).0
unfolding register
register-Follows {h} s r wf env f = record {
  live = λ id.
      lookup-insert r.id id (length s.queue.heap) s.queue.live
      ∙ ap (λ o. if text_eq r.id id then some (length s.queue.heap) else o) (f.live id);
  bufs = λ id.
      lookup-insert r.id id (length s.queue.buffers) s.queue.bufs
      ∙ ap (λ o. if text_eq r.id id then some (length s.queue.buffers) else o) (f.bufs id);
  flagged = f.flagged;
  closed = f.closed;
  in_order = f.in_order;
  room = f.room;
  depth_kept = f.depth_kept;
  answered = f.answered;
  signalled =
      Signalled-more h r.id (length s.queue.buffers) s.queue.heap (new_job s r wf env) refl refl
        f.signalled;
  owned = Step-Owned s _ (registers r wf env) f.owned;
}

-- Fewer than `n` of the accepted jobs are waiting.
below :
    (taken js all : List ℕ) (n : ℕ)
    → all ≡ taken ++ js
    → ltb (length js) n ≡ true
    → length all < length taken + n
below taken js all n e q = rw e (ground (arith, length-append taken js))

-- No fewer are.
above :
    (taken js all : List ℕ) (n : ℕ)
    → all ≡ taken ++ js
    → ltb (length js) n ≡ false
    → length taken + n ≤ length all
above taken js all n e q = rw e (ground (arith, length-append taken js))

enqueue-Follows :
    {depth : ℕ} {h : List Moment} (s : Sys) (id : Text) (a : ℕ)
    → s.queue.closed ≡ false
    → ltb (length s.queue.jobs) s.queue.depth ≡ true
    → Follows depth h s
    → Follows depth (sent accepted id a ∷ h) (enqueue s a)
enqueue-Follows {depth} {h} s id a c e f = record {
  live = f.live;
  bufs = f.bufs;
  flagged = f.flagged;
  closed = f.closed;
  in_order = ap (λ js. js ++ a ∷ []) f.in_order ∙ append_assoc (taken_in h) s.queue.jobs (a ∷ []);
  room = longer s.queue.jobs depth (ap (λ n. ltb (length s.queue.jobs) n) (sym f.depth_kept) ∙ e);
  depth_kept = f.depth_kept;
  answered = (
    (
      sym f.closed ∙ c,
      below (taken_in h) s.queue.jobs (accepted_in h) depth f.in_order
          (ap (λ n. ltb (length s.queue.jobs) n) (sym f.depth_kept) ∙ e),
    ),
    f.answered,
  );
  signalled = f.signalled;
  owned = f.owned;
}
  where
    longer : (js : List ℕ) (n : ℕ) → ltb (length js) n ≡ true → length (js ++ a ∷ []) ≤ n
    longer js n e = ground (arith, length-append js (a ∷ []))

withdraw-Follows :
    {depth : ℕ} {h : List Moment} (s : Sys) (id : Text) (a buf : ℕ)
    → s.queue.closed ≡ false
    → ltb (length s.queue.jobs) s.queue.depth ≡ false
    → Follows depth h s
    → Owned (withdraw s id buf)
    → Follows depth (sent full id a ∷ h) (withdraw s id buf)
withdraw-Follows {depth} {h} s id a buf c e f own = record {
  live =
      λ k. lookup-delete id k s.queue.live ∙ ap (λ o. if text_eq id k then none else o) (f.live k);
  bufs =
      λ k. lookup-delete id k s.queue.bufs ∙ ap (λ o. if text_eq id k then none else o) (f.bufs k);
  flagged = f.flagged;
  closed = f.closed;
  in_order = f.in_order;
  room = f.room;
  depth_kept = f.depth_kept;
  answered = (
    (
      sym f.closed ∙ c,
      above (taken_in h) s.queue.jobs (accepted_in h) depth f.in_order
          (ap (λ n. ltb (length s.queue.jobs) n) (sym f.depth_kept) ∙ e),
    ),
    f.answered,
  );
  signalled = f.signalled;
  owned = own;
}

-- A step of which the queue's fields do not tell.
panics-Follows :
    {depth : ℕ} {h : List Moment} (s : Sys) (id : Text) (a : ℕ)
    → s.queue.closed ≡ true
    → Follows depth h s
    → Follows depth (sent panics id a ∷ h) s
panics-Follows s id a c f = record {
  live = f.live;
  bufs = f.bufs;
  flagged = f.flagged;
  closed = f.closed;
  in_order = f.in_order;
  room = f.room;
  depth_kept = f.depth_kept;
  answered = (sym f.closed ∙ c, f.answered);
  signalled = f.signalled;
  owned = f.owned;
}

pub send-Follows :
    {depth : ℕ} {h : List Moment} (s : Sys) (id : Text) (a buf : ℕ)
    → Follows depth h s
    → Follows depth (sent (send s id a buf).1 id a ∷ h) (send s id a buf).0
send-Follows {depth} {h} s id a buf f = elim (Bool-cases s.queue.closed) [
  | inl c ↦ subst P (sym (send-panics s id a buf c)) (panics-Follows s id a c f)
  | inr c ↦ elim (Bool-cases (ltb (length s.queue.jobs) s.queue.depth)) [
    | inl e ↦ subst P (sym (send-accepted s id a buf c e)) (enqueue-Follows s id a c e f)
    | inr e ↦
        let own =
          subst Owned (ap (λ p. p.0) (send-full s id a buf c e))
            (Step-Owned s _ (sends id a buf) f.owned) in
        subst P (sym (send-full s id a buf c e)) (withdraw-Follows s id a buf c e f own)
  ]
]
  where
    P : Sys × Sent → Type 0
    P p = Follows depth (sent p.1 id a ∷ h) p.0
