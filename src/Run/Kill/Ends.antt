-- ===== src/Run/Kill/Ends.antt =====
-- KillTree (server/internal/run/kill_unix.go) ends, and what it has sent to whom by then.
use eagle_condor_sandbox.Prelude.{
  ℕ, ◌≤◌, ◌<◌, Bool, true, false, [], ◌∷◌, Option, none, some, ◌≡◌, inl, inr, refl, ap, ◌∙◌, sym,
  arith, Bool-cases,
}
use eagle_condor_sandbox.Prelude.Int.{ℤ, pos, leb_ℤ, ◌≤ℤ◌}
use eagle_condor_sandbox.Run.Kill.{
  term, Errno, no_process, errno, invalid_pid, term_failed, Group, is_gone, Sent, sends, wait,
  negated, termed, kill_tree,
}
use eagle_condor_sandbox.Run.Kill.Rounds.{Sleeps, Stops, IsWaited, wait-IsWaited}

-- What KillTree has done: the signals in their order, each with its target, and the error.
pub record IsKilled (pid : ℤ) (g : Group) (out : Option Sent) : Type 0 where
  pub result : Sent
  pub ends : out ≡ some result
  pub refuses : pid ≤ℤ pos 0 → result ≡ ([], some invalid_pid)
  pub is_away :
      pos 1 ≤ℤ pid → g.on_term ≡ some no_process → result ≡ ((negated pid, term) ∷ [], none)
  pub fails :
      (n : ℕ)
      → pos 1 ≤ℤ pid
      → g.on_term ≡ some (errno n)
      → result ≡ ((negated pid, term) ∷ [], some (term_failed (errno n)))
  pub waits :
      pos 1 ≤ℤ pid
      → g.on_term ≡ none
      → (k : ℕ) × (k ≤ 50)
        × ((i : ℕ) → i < k → is_gone (g.on_probe i) ≡ false)
        × (later : Sent) × (result ≡ ((negated pid, term) ∷ later.0, later.1))
        × Stops (negated pid) g k later

not_positive : (pid : ℤ) → pos 1 ≤ℤ pid → leb_ℤ pid (pos 0) ≡ false
not_positive pid h = ground arith

some-injective : (a b : Errno) → some a ≡ some b → a ≡ b
some-injective a b e = cc

module _ (pid : ℤ) (g : Group) (positive : pos 1 ≤ℤ pid) where
  not_refused : {P : Type 0} → pid ≤ℤ pos 0 → P
  not_refused h = absurd (omega (arith, h, positive))

  termed-IsKilled :
      (o : Option Errno)
      → g.on_term ≡ o
      → IsWaited 50 (negated pid) g (wait 51 (negated pid) g)
      → IsKilled pid g (termed 51 (negated pid) g o)
  termed-IsKilled (some no_process) q w = record {
    result = ((negated pid, term) ∷ [], none);
    ends = refl;
    refuses = not_refused;
    is_away = λ p e. refl;
    fails = λ n p e. absurd (cc);
    waits = λ p e. absurd (cc);
  }
  termed-IsKilled (some (errno n)) q w = record {
    result = ((negated pid, term) ∷ [], some (term_failed (errno n)));
    ends = refl;
    refuses = not_refused;
    is_away = λ p e. absurd (cc);
    fails = λ m p e.
        ap (λ x. ((negated pid, term) ∷ [], some (term_failed x))) (some-injective _ _ (sym q ∙ e));
    waits = λ p e. absurd (cc);
  }
  termed-IsKilled none q w = record {
    result = ((negated pid, term) ∷ w.result.0, w.result.1);
    ends = ap (sends (negated pid) term) w.ends;
    refuses = not_refused;
    is_away = λ p e. absurd (cc);
    fails = λ n p e. absurd (cc);
    waits = λ p e. (w.rounds, w.few, w.there, w.result, refl, w.stops);
  }

-- KillTree ends, with at most 50 rounds of its loop, if each pause takes at least its 200
-- milliseconds and the clock does not go back. A pid that is not positive is refused and nothing
-- is signalled. Otherwise every signal is for the group, and the first is SIGTERM: if that finds
-- no group it is done, and on another error it gives up. Then it asks for the group until either
-- it is gone, which is a success, or ten seconds are over; only then SIGKILL is sent, and its
-- error is the result, unless the group is gone.
pub kill_tree_lem :
    (pid : ℤ) (g : Group) → Sleeps g → g.started ≤ g.now 0 → IsKilled pid g (kill_tree 51 pid g)
unfolding kill_tree
kill_tree_lem pid g sl st = elim (Bool-cases (leb_ℤ pid (pos 0))) [
  | inl bad ↦ rw bad (record {
    result = ([], some invalid_pid);
    ends = refl;
    refuses = λ h. refl;
    is_away = λ p e. absurd (contradicts bad (not_positive pid p));
    fails = λ n p e. absurd (contradicts bad (not_positive pid p));
    waits = λ p e. absurd (contradicts bad (not_positive pid p));
  })
  | inr good ↦ rw good (
      termed-IsKilled pid g (is_positive pid good) g.on_term refl
        (wait-IsWaited 50 (negated pid) g sl (omega (arith, st))))
]
  where
    contradicts : {b : Bool} → b ≡ true → b ≡ false → ⊥
    contradicts p q = cc

    is_positive : (z : ℤ) → leb_ℤ z (pos 0) ≡ false → pos 1 ≤ℤ z
    is_positive z e = ground arith
