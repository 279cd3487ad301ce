-- ===== src/Queue/Submit.antt =====
-- Submit of server/internal/run/queue.go.
use eagle_condor_sandbox.Prelude.{
  ℕ, ◌≤◌, ◌<◌, true, false, List, [], ◌∷◌, ◌++◌, none, some, ◌≡◌, refl, sym, subst, arith, length,
  get_elem?, ltb, Bool-cases, inl, inr,
}
use eagle_condor_sandbox.Prelude.Text.{Text}
use eagle_condor_sandbox.Prelude.Assoc.{
  Assoc, lookup, delete, lookup-insert_self, delete-insert_fresh,
}
use eagle_condor_sandbox.Catalog.{Workflow}
use eagle_condor_sandbox.Run.{Run}
use eagle_condor_sandbox.Queue.Defs.{
  Sys, Sent, accepted, full, panics, close_buffer, new_job, register, send, submit,
}

-- What Submit does, by what it answers.
abbrev pub Submits : Sys → Run → Workflow → Assoc Text → Sys × Sent → Type 0
Submits s r wf env (s', accepted) =
    (s.queue.closed ≡ false)
    × (length s.queue.jobs < s.queue.depth)
    × (s'.queue.jobs ≡ s.queue.jobs ++ length s.queue.heap ∷ [])
    × (get_elem? s'.queue.heap (length s.queue.heap) ≡ some (new_job s r wf env))
    × (lookup r.id s'.queue.live ≡ some (length s.queue.heap))
    × (s'.store ≡ s.store)
Submits s r wf env (s', full) =
    (s.queue.closed ≡ false)
    × (s.queue.depth ≤ length s.queue.jobs)
    × (s'.queue.jobs ≡ s.queue.jobs)
    × (s'.queue.live ≡ s.queue.live)
    × (s'.queue.bufs ≡ s.queue.bufs)
    × (s'.store ≡ s.store)
Submits s r wf env (s', panics) = s.queue.closed ≡ true

get_elem?-end {ℓ} :
    {A : Type ℓ} (xs : List A) (x : A) → get_elem? (xs ++ x ∷ []) (length xs) ≡ some x
get_elem?-end [] x = refl
get_elem?-end (y ∷ xs) x = get_elem?-end xs x

abbrev pub enqueue : Sys → ℕ → Sys
enqueue s a = record s { queue = record s.queue { jobs = s.queue.jobs ++ a ∷ [] } }

abbrev pub withdraw : Sys → Text → ℕ → Sys
withdraw s id buf = record s {
  queue = record s.queue {
    live = delete id s.queue.live;
    bufs = delete id s.queue.bufs;
    buffers = close_buffer s.queue.buffers buf;
  };
}

pub send-accepted :
    (s : Sys) (id : Text) (a buf : ℕ)
    → s.queue.closed ≡ false
    → ltb (length s.queue.jobs) s.queue.depth ≡ true
    → send s id a buf ≡ (enqueue s a, accepted)
unfolding send
send-accepted s id a buf c room = rw (c, room)

pub send-full :
    (s : Sys) (id : Text) (a buf : ℕ)
    → s.queue.closed ≡ false
    → ltb (length s.queue.jobs) s.queue.depth ≡ false
    → send s id a buf ≡ (withdraw s id buf, full)
unfolding send
send-full s id a buf c busy = rw (c, busy)

pub send-panics :
    (s : Sys) (id : Text) (a buf : ℕ) → s.queue.closed ≡ true → send s id a buf ≡ (s, panics)
unfolding send
send-panics s id a buf c = rw c

-- For a run of which the queue has no job and no buffer, Submit puts its job behind all the
-- others if the channel has room, refuses it and leaves no trace in the maps if the channel is
-- full, and panics only after Stop has closed the channel.
pub submit_lem :
    (s : Sys) (r : Run) (wf : Workflow) (env : Assoc Text)
    → lookup r.id s.queue.live ≡ none
    → lookup r.id s.queue.bufs ≡ none
    → Submits s r wf env (submit s r wf env)
unfolding submit
submit_lem s r wf env hl hb = elim (Bool-cases s.queue.closed) [
  | inl c ↦ subst (Submits s r wf env) (sym (send-panics s' r.id a buf c)) c
  | inr c ↦ elim (Bool-cases (ltb (length s.queue.jobs) s.queue.depth)) [
    | inl room ↦ subst (Submits s r wf env) (sym (send-accepted s' r.id a buf c room)) (
      c,
      ground arith,
      refl,
      get_elem?-end s.queue.heap (new_job s r wf env),
      lookup-insert_self r.id a s.queue.live,
      refl,
    )
    | inr busy ↦ subst (Submits s r wf env) (sym (send-full s' r.id a buf c busy)) (
      c,
      ground arith,
      refl,
      delete-insert_fresh r.id a s.queue.live hl,
      delete-insert_fresh r.id buf s.queue.bufs hb,
      refl,
    )
  ]
]
  where
    s' : Sys
    s' = (register s r wf env).0

    a : ℕ
    a = length s.queue.heap

    buf : ℕ
    buf = length s.queue.buffers
