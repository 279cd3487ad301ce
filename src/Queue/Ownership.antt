-- ===== src/Queue/Ownership.antt =====
-- Whose job an entry of the map of live runs leads to (server/internal/run/queue.go).
use eagle_condor_sandbox.Prelude.{
  ℕ, zero, suc, ◌<◌, ◌==◌, ==_iff, Bool, true, false, List, [], ◌∷◌, ◌++◌, Option, none, some, ◌≡◌,
  refl, sym, ap, ◌∙◌, subst, arith, Bool-cases, inl, inr, length, get_elem?, set,
  get_elem?-set_self, get_elem?-set_ne, ltb,
}
use eagle_condor_sandbox.Prelude.Text.{Text, text_eq, text_eq_iff}
use eagle_condor_sandbox.Prelude.Assoc.{Assoc, lookup, delete, lookup-insert, lookup-delete}
use eagle_condor_sandbox.Catalog.{Workflow}
use eagle_condor_sandbox.Run.{Run}
use eagle_condor_sandbox.Store.Persist.{Faults}
use eagle_condor_sandbox.Queue.Defs.{
  Job, Sys, register, stop, new_job, send, cancel_flag, cancel_act, stop_job,
}
use eagle_condor_sandbox.Queue.Submit.{withdraw, send-accepted, send-full, send-panics}
use eagle_condor_sandbox.Queue.Cancel.{stop_job-idle, stop_job-busy}
use eagle_condor_sandbox.Queue.Loop.{
  take_job, arm, start_run, note_pid, finish_store, finish_log, forget,
}
use eagle_condor_sandbox.Queue.Steps.{
  Moment, Step, registers, sends, stops, flags, acts, takes, arms, starts, notes, records, logs,
  forgets,
}

-- The job at an address is one of the run.
abbrev pub JobOf : List Job → Text → ℕ → Type 0
JobOf heap id a = (j : Job) × (get_elem? heap a ≡ some j) × (j.run_id ≡ id)

-- Each entry of the map of live runs leads to a job of its run.
abbrev pub Owned : Sys → Type 0
Owned s = (id : Text) (a : ℕ) → lookup id s.queue.live ≡ some a → JobOf s.queue.heap id a

pub get_elem?-lt {ℓ} :
    {A : Type ℓ} (xs : List A) (a : ℕ) (x : A) → get_elem? xs a ≡ some x → a < length xs
get_elem?-lt [] a x e = cc
get_elem?-lt (y ∷ ys) zero x e = omega arith
get_elem?-lt (y ∷ ys) (suc a) x e = omega (arith, get_elem?-lt ys a x e)

get_elem?-more {ℓ} :
    {A : Type ℓ} (xs ys : List A) (a : ℕ) (x : A)
    → get_elem? xs a ≡ some x
    → get_elem? (xs ++ ys) a ≡ some x
get_elem?-more [] ys a x e = cc
get_elem?-more (z ∷ zs) ys zero x e = e
get_elem?-more (z ∷ zs) ys (suc a) x e = get_elem?-more zs ys a x e

pub get_elem?-last {ℓ} :
    {A : Type ℓ} (xs : List A) (x : A) → get_elem? (xs ++ x ∷ []) (length xs) ≡ some x
get_elem?-last [] x = refl
get_elem?-last (y ∷ ys) x = get_elem?-last ys x

-- A job that is replaced by one of its run.
pub JobOf-set :
    (heap : List Job) (id : Text) (a b : ℕ) (j j' : Job)
    → get_elem? heap b ≡ some j
    → j'.run_id ≡ j.run_id
    → JobOf heap id a
    → JobOf (set heap b j') id a
JobOf-set heap id a b j j' e same (x, here, own) = elim (Bool-cases (b == a)) [
  | inl q ↦
      let p : b ≡ a = (==_iff b a).0 q in
      (
        j',
        ap (λ k. get_elem? (set heap b j') k) (sym p)
            ∙ get_elem?-set_self heap b j' (get_elem?-lt heap b j e),
        same ∙ ap (λ (y : Job). y.run_id) (one j x (sym e ∙ ap (get_elem? heap) p ∙ here)) ∙ own,
      )
  | inr q ↦ (x, get_elem?-set_ne heap j' (λ p. apart ((==_iff b a).1 p) q) ∙ here, own)
]
  where
    one : (u v : Job) → some u ≡ some v → u ≡ v
    one u v p = cc

    apart : {t : Bool} → t ≡ true → t ≡ false → ⊥
    apart p r = cc

Owned-fewer :
    (s s' : Sys)
    → s'.queue.heap ≡ s.queue.heap
    → ((k : Text) (x : ℕ) → lookup k s'.queue.live ≡ some x → lookup k s.queue.live ≡ some x)
    → Owned s
    → Owned s'
Owned-fewer s s' same fewer h id a e =
    subst (λ hs. JobOf hs id a) (sym same) (h id a (fewer id a e))

still_there :
    (id k : Text) (x : ℕ) (m : Assoc ℕ) → lookup k (delete id m) ≡ some x → lookup k m ≡ some x
still_there id k x m e = elim (Bool-cases (text_eq id k)) [
  | inl q ↦ absurd (gone (sym (lookup-delete id k m ∙ rw q) ∙ e))
  | inr q ↦ sym (lookup-delete id k m ∙ rw q) ∙ e
]
  where
    gone : none ≡ some x → ⊥
    gone p = cc

register-Owned :
    (s : Sys) (r : Run) (wf : Workflow) (env : Assoc Text) → Owned s → Owned (register s r wf env).0
unfolding register
register-Owned s r wf env h id a e = elim (Bool-cases (text_eq r.id id)) [
  | inl q ↦ (
    new_job s r wf env,
    ap (get_elem? (s.queue.heap ++ new_job s r wf env ∷ []))
          (sym (one _ _ (sym (lookup-insert r.id id _ s.queue.live ∙ rw q) ∙ e)))
        ∙ get_elem?-last s.queue.heap (new_job s r wf env),
    (text_eq_iff r.id id).0 q,
  )
  | inr q ↦
      let (j, here, own) = h id a (sym (lookup-insert r.id id _ s.queue.live ∙ rw q) ∙ e) in
      (j, get_elem?-more s.queue.heap (new_job s r wf env ∷ []) a j here, own)
]
  where
    one : (x y : ℕ) → some x ≡ some y → x ≡ y
    one x y p = cc

send-Owned : (s : Sys) (id : Text) (a buf : ℕ) → Owned s → Owned (send s id a buf).0
unfolding send
send-Owned s id a buf h = elim (Bool-cases s.queue.closed) [
  | inl c ↦ subst Owned (sym (ap (λ p. p.0) (send-panics s id a buf c))) h
  | inr c ↦ elim (Bool-cases (ltb (length s.queue.jobs) s.queue.depth)) [
    | inl e ↦ subst Owned (sym (ap (λ p. p.0) (send-accepted s id a buf c e))) h
    | inr e ↦
        subst Owned (sym (ap (λ p. p.0) (send-full s id a buf c e)))
          (Owned-fewer s (withdraw s id buf) refl (λ k x. still_there id k x s.queue.live) h)
  ]
]

stop_job-Owned :
    (s : Sys) (f : Faults) (now : ℕ) (id : Text) (a : ℕ) (o : Option Job)
    → get_elem? s.queue.heap a ≡ o
    → Owned s
    → Owned (stop_job s f now id a o).0
stop_job-Owned s f now id a none e h = h
stop_job-Owned s f now id a (some j) e h = elim (Bool-cases j.cancellable) [
  | inl c ↦
      subst Owned (sym (ap (λ p. p.0) (stop_job-busy s f now id a j c)))
        (λ k x q. JobOf-set s.queue.heap k x a j (record j { stopped = true }) e refl (h k x q))
  | inr c ↦ subst Owned (sym (stop_job-idle s f now id a j c)) h
]

take_from : Sys → List ℕ → Option (ℕ × Sys)
take_from s [] = none
take_from s (a ∷ rest) = some (a, record s { queue = record s.queue { jobs = rest } })

-- What taking the job at the address `a` from the channel leaves.
abbrev pub Taken : Sys → ℕ → Sys → Type 0
Taken s a s' =
    (rest : List ℕ) × (s.queue.jobs ≡ a ∷ rest)
    × (record s { queue = record s.queue { jobs = rest } } ≡ s')

take_from-Taken :
    (s s' : Sys) (js : List ℕ) (a : ℕ)
    → s.queue.jobs ≡ js
    → take_from s js ≡ some (a, s')
    → Taken s a s'
unfolding take_from
take_from-Taken s s' [] a q e = cc
take_from-Taken s s' (b ∷ rest) a q e =
    (rest, q ∙ ap (λ n. n ∷ rest) (first b a _ s' e), second b a _ s' e)
  where
    first : (b a : ℕ) (x y : Sys) → ◌≡◌ {A = Option (ℕ × Sys)} (some (b, x)) (some (a, y)) → b ≡ a
    first b a x y e = cc

    second : (b a : ℕ) (x y : Sys) → ◌≡◌ {A = Option (ℕ × Sys)} (some (b, x)) (some (a, y)) → x ≡ y
    second b a x y e = cc

take_job-from : (s : Sys) → take_job s ≡ take_from s s.queue.jobs
unfolding take_job take_from
take_job-from s = refl

pub take_job-Taken : (s s' : Sys) (a : ℕ) → take_job s ≡ some (a, s') → Taken s a s'
take_job-Taken s s' a e = take_from-Taken s s' s.queue.jobs a refl (sym (take_job-from s) ∙ e)

arm-Owned :
    (s : Sys) (a : ℕ) (j : Job) → get_elem? s.queue.heap a ≡ some j → Owned s → Owned (arm s a j)
unfolding arm
arm-Owned s a j e h k x q =
    JobOf-set s.queue.heap k x a j (record j { cancellable = true }) e refl (h k x q)

pub Step-Owned : (s s' : Sys) {m : Moment} → Step s m s' → Owned s → Owned s'
Step-Owned s s' (registers r wf env) h = register-Owned s r wf env h
Step-Owned s s' (sends id a buf) h = send-Owned s id a buf h
Step-Owned s s' stops h = unfold stop in h
Step-Owned s s' (flags id) h = unfold cancel_flag in h
Step-Owned s s' (acts f now id none) h = unfold cancel_act in h
Step-Owned s s' (acts f now id (some a)) h =
    unfold cancel_act in stop_job-Owned s f now id a (get_elem? s.queue.heap a) refl h
Step-Owned s s' (takes a e) h = let (rest, q, p) = take_job-Taken s s' a e in subst Owned p h
Step-Owned s s' (arms a j e) h = arm-Owned s a j e h
Step-Owned s s' (starts f now j) h = unfold start_run in h
Step-Owned s s' (notes f pid j) h = unfold note_pid in h
Step-Owned s s' (records f now j o c) h = unfold finish_store in h
Step-Owned s s' (logs j st) h = unfold finish_log in h
Step-Owned s s' (forgets j) h =
    Owned-fewer s (forget s j) (unfold forget in refl)
      (λ k x. unfold forget in still_there j.run_id k x s.queue.live) h
