-- ===== src/Queue/Signals.antt =====
-- The contexts of the jobs of server/internal/run/queue.go against the history.
use eagle_condor_sandbox.Prelude.{
  ℕ, zero, suc, ◌==◌, ==_iff, Bool, true, false, ◌||◌, List, [], ◌∷◌, ◌++◌, some, ◌≡◌, ◌≢◌, refl,
  sym, ap, ◌∙◌, subst, arith, Bool-cases, inl, inr, length, get_elem?, set, get_elem?-set_self,
  get_elem?-set_ne,
}
use eagle_condor_sandbox.Prelude.Text.{Text}
use eagle_condor_sandbox.Queue.Defs.{Job}
use eagle_condor_sandbox.Queue.Steps.{Moment, added, acted}
use eagle_condor_sandbox.Queue.Ownership.{get_elem?-lt, get_elem?-last}
use eagle_condor_sandbox.Queue.History.{armed_in, stopped_in, Signalled}

same_job : (x y : Job) → some x ≡ some y → x ≡ y
same_job x y e = cc

apart : {t : Bool} → t ≡ true → t ≡ false → ⊥
apart p r = cc

-- A change of the job at one address.
pub Signalled-set :
    (h h' : List Moment) (heap : List Job) (a : ℕ) (j j' : Job)
    → get_elem? heap a ≡ some j
    → (j'.cancellable ≡ armed_in h' a) × (j'.stopped ≡ stopped_in h' a)
    → ((b : ℕ)
        → (a == b) ≡ false
        → (armed_in h b ≡ armed_in h' b) × (stopped_in h b ≡ stopped_in h' b))
    → Signalled h heap
    → Signalled h' (set heap a j')
Signalled-set h h' heap a j j' at new others sig b x e = elim (Bool-cases (a == b)) [
  | inl q ↦
      let p : a ≡ b = (==_iff a b).0 q in
      let k : j' ≡ x = same_job j' x (
        sym (get_elem?-set_self heap a j' (get_elem?-lt heap a j at))
        ∙ ap (get_elem? (set heap a j')) p
        ∙ e) in
      subst (λ (y : Job). (y.cancellable ≡ armed_in h' b) × (y.stopped ≡ stopped_in h' b)) k
        (subst (λ n. (j'.cancellable ≡ armed_in h' n) × (j'.stopped ≡ stopped_in h' n)) p new)
  | inr q ↦
      let (c, d) = sig b x (sym (get_elem?-set_ne heap j' (λ p. apart ((==_iff a b).1 p) q)) ∙ e) in
      (c ∙ (others b q).0, d ∙ (others b q).1)
]

get_elem?-before :
    (xs : List Job) (x : Job) (b : ℕ) → length xs ≢ b → get_elem? (xs ++ x ∷ []) b ≡ get_elem? xs b
get_elem?-before [] x zero ne = absurd (ne refl)
get_elem?-before [] x (suc b) ne = refl
get_elem?-before (y ∷ xs) x zero ne = refl
get_elem?-before (y ∷ xs) x (suc b) ne = get_elem?-before xs x b (λ p. ne (ap suc p))

-- A new job at the end.
pub Signalled-more :
    (h : List Moment) (id : Text) (n : ℕ) (heap : List Job) (j : Job)
    → j.cancellable ≡ false
    → j.stopped ≡ false
    → Signalled h heap
    → Signalled (added id (length heap) n ∷ h) (heap ++ j ∷ [])
Signalled-more h id n heap j c d sig b x e = elim (Bool-cases (length heap == b)) [
  | inl q ↦
      let k : j ≡ x = same_job j x (
        sym (get_elem?-last heap j)
        ∙ ap (get_elem? (heap ++ j ∷ [])) ((==_iff (length heap) b).0 q)
        ∙ e) in
      rw q (ap (λ (y : Job). y.cancellable) (sym k) ∙ c, ap (λ (y : Job). y.stopped) (sym k) ∙ d)
  | inr q ↦
      rw q (
        sig b x (sym (get_elem?-before heap j b (λ p. apart ((==_iff (length heap) b).1 p) q)) ∙ e))
]

-- Cancel's call on a job without a cancel function, or on no job.
pub Signalled-idle :
    (h : List Moment) (heap : List Job) (a : ℕ)
    → ((j : Job) → get_elem? heap a ≡ some j → j.cancellable ≡ false)
    → Signalled h heap
    → Signalled (acted (some a) ∷ h) heap
Signalled-idle h heap a idle sig b x e = elim (Bool-cases (a == b)) [
  | inl q ↦
      let (c, d) = sig b x e in
      let i = idle x (ap (get_elem? heap) ((==_iff a b).0 q) ∙ e) in
      rw q (c, d ∙ either (stopped_in h b) (armed_in h b) (sym c ∙ i))
  | inr q ↦ rw q (sig b x e)
]
  where
    either : (u v : Bool) → v ≡ false → u ≡ u || v
    either u v e = ground (arith)
