-- ===== src/Store/Persist/Retries.antt =====
-- How often persist of server/internal/run/store.go tries to rename.
use eagle_condor_sandbox.Prelude.{
  ℕ, zero, suc, ◌+◌, ◌<◌, Bool, true, false, none, some, ◌≡◌, inl, inr, refl, ap, ◌∙◌, arith,
  Bool-cases,
}
use eagle_condor_sandbox.Run.{Run}
use eagle_condor_sandbox.Store.Persist.{
  Disk, Faults, rename_failed, rename_loop, persist_ops, persist,
}

rename_loop-some :
    (left attempt k : ℕ) (ok : ℕ → Bool)
    → k < left
    → ok (attempt + k) ≡ true
    → rename_loop left attempt ok ≡ true
unfolding rename_loop
rename_loop-some zero attempt k ok lt h = absurd (omega arith)
rename_loop-some (suc left) attempt zero ok lt h =
    rw (ap ok {x = attempt} {y = attempt + 0} (omega arith) ∙ h)
rename_loop-some (suc left) attempt (suc k) ok lt h = elim (Bool-cases (ok attempt)) [
  | inl e ↦ rw e
  | inr e ↦ rw e (
      rename_loop-some left (attempt + 1) k ok (omega arith)
        (ap ok {x = attempt + 1 + k} {y = attempt + suc k} (omega arith) ∙ h))
]

rename_loop-none :
    (left attempt : ℕ) (ok : ℕ → Bool)
    → ((k : ℕ) → k < left → ok (attempt + k) ≡ false)
    → rename_loop left attempt ok ≡ false
unfolding rename_loop
rename_loop-none zero attempt ok h = refl
rename_loop-none (suc left) attempt ok h =
    rw (ap ok {x = attempt} {y = attempt + 0} (omega arith) ∙ h 0 (omega arith)) (
      rename_loop-none left (attempt + 1) ok (λ k lt.
        ap ok {x = attempt + 1 + k} {y = attempt + suc k} (omega arith) ∙ h (suc k) (omega arith)))

-- If the run can be encoded and the temporary file created, written and closed, one success among the five tries to
-- rename it is enough, and persist fails only if all five fail.
pub persist_retries :
    (d : Disk) (f : Faults) (r : Run)
    → f.encode_ok ≡ true
    → f.create_ok ≡ true
    → f.write_ok ≡ true
    → f.close_ok ≡ true
    → ((k : ℕ) → k < 5 → f.rename_ok k ≡ true → (persist d f r).1 ≡ none)
      × (((k : ℕ) → k < 5 → f.rename_ok k ≡ false) → (persist d f r).1 ≡ some rename_failed)
unfolding persist persist_ops
persist_retries d f r n c w l = (
  λ k lt ok. rw (
    n,
    c,
    w,
    l,
    rename_loop-some 5 0 k f.rename_ok lt (ap f.rename_ok {x = 0 + k} {y = k} (omega arith) ∙ ok),
  ),
  λ bad. rw (
    n,
    c,
    w,
    l,
    rename_loop-none 5 0 f.rename_ok
        (λ k lt. ap f.rename_ok {x = 0 + k} {y = k} (omega arith) ∙ bad k lt),
  ),
)
