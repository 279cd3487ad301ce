-- ===== src/Run/Kill/Rounds.antt =====
-- The loop of KillTree (server/internal/run/kill_unix.go) ends.
use eagle_condor_sandbox.Prelude.{
  ℕ, zero, suc, ◌+◌, ◌*◌, ◌≤◌, ◌<◌, true, false, List, [], ◌∷◌, ◌++◌, Option, none, some, ◌≡◌, ◌⊎◌,
  inl, inr, refl, ap, arith, ltb, Bool-cases, ltb→lt,
}
use eagle_condor_sandbox.Prelude.Int.{ℤ}
use eagle_condor_sandbox.Run.Kill.{
  Signal, probe, kill, Errno, no_process, errno, KillError, Group, shift, is_gone, kill_error, Sent,
  sends, deadline, wait,
}

-- time.Sleep pauses for 200 milliseconds at least, and the clock does not go back.
abbrev pub Sleeps : Group → Type 0
Sleeps g = (n : ℕ) → g.now n + 200000000 ≤ g.now (suc n)

abbrev pub repeat : ℕ → ℤ × Signal → List (ℤ × Signal)
repeat zero x = []
repeat (suc n) x = x ∷ repeat n x

-- After `k` rounds in which the group was there: it is found gone, or the time is up and SIGKILL is
-- sent.
abbrev pub Stops : ℤ → Group → ℕ → Sent → Type 0
Stops to g k (ss, e) =
    ((g.on_probe k ≡ some no_process) × (ss ≡ repeat (suc k) (to, probe)) × (e ≡ none))
    ⊎ ((deadline g ≤ g.now k)
        × (ss ≡ repeat k (to, probe) ++ (to, kill) ∷ [])
        × (e ≡ kill_error g.on_kill))

-- The loop's end, after at most `most` rounds.
pub record IsWaited (most : ℕ) (to : ℤ) (g : Group) (out : Option Sent) : Type 0 where
  pub rounds : ℕ
  pub few : rounds ≤ most
  pub there : (i : ℕ) → i < rounds → is_gone (g.on_probe i) ≡ false
  pub result : Sent
  pub ends : out ≡ some result
  pub stops : Stops to g rounds result

is_gone-no_process : (o : Option Errno) → is_gone o ≡ true → o ≡ some no_process
is_gone-no_process none e = absurd (cc)
is_gone-no_process (some no_process) e = refl
is_gone-no_process (some (errno n)) e = absurd (cc)

later-Stops :
    (to : ℤ) (g : Group) (k : ℕ) (ss : List (ℤ × Signal)) (e : Option KillError)
    → Stops to (shift g) k (ss, e)
    → Stops to g (suc k) ((to, probe) ∷ ss, e)
later-Stops to g k ss e (inl (gone, q, r)) = inl (gone, ap (◌∷◌ (to, probe)) q, r)
later-Stops to g k ss e (inr (late, q, r)) = inr (late, ap (◌∷◌ (to, probe)) q, r)

later-IsWaited :
    (most : ℕ) (to : ℤ) (g : Group) (out : Option Sent)
    → is_gone (g.on_probe 0) ≡ false
    → IsWaited most to (shift g) out
    → IsWaited (suc most) to g (sends to probe out)
later-IsWaited most to g out here w = record {
  rounds = suc w.rounds;
  few = omega (arith, w.few);
  there = there;
  result = ((to, probe) ∷ w.result.0, w.result.1);
  ends = ap (sends to probe) w.ends;
  stops = later-Stops to g w.rounds w.result.0 w.result.1 w.stops;
}
  where
    there : (i : ℕ) → i < suc w.rounds → is_gone (g.on_probe i) ≡ false
    there zero h = here
    there (suc i) h = w.there i (omega arith)

killed-IsWaited :
    (most : ℕ) (to : ℤ) (g : Group)
    → deadline g ≤ g.now 0
    → IsWaited most to g (some ((to, kill) ∷ [], kill_error g.on_kill))
killed-IsWaited most to g h = record {
  rounds = 0;
  few = omega arith;
  there = λ i k. absurd (omega (arith, k));
  result = ((to, kill) ∷ [], kill_error g.on_kill);
  ends = refl;
  stops = inr (h, refl, refl);
}

gone-IsWaited :
    (most : ℕ) (to : ℤ) (g : Group)
    → is_gone (g.on_probe 0) ≡ true
    → IsWaited most to g (some ((to, probe) ∷ [], none))
gone-IsWaited most to g h = record {
  rounds = 0;
  few = omega arith;
  there = λ i k. absurd (omega (arith, k));
  result = ((to, probe) ∷ [], none);
  ends = refl;
  stops = inl (is_gone-no_process _ h, refl, refl);
}

-- What the loop does from the next round on, if one is left.
abbrev GoesOn : ℕ → ℤ → Group → Type 0
GoesOn zero to g = Unit
GoesOn (suc m) to g = IsWaited m to (shift g) (wait (suc m) to (shift g))

waits_on :
    (most : ℕ) (to : ℤ) (g : Group)
    → deadline g ≤ g.now 0 + most * 200000000
    → is_gone (g.on_probe 0) ≡ false
    → ltb (g.now 0) (deadline g) ≡ true
    → GoesOn most to g
    → IsWaited most to g (sends to probe (wait most to (shift g)))
waits_on zero to g h here early next =
    absurd (omega (arith, h, ltb→lt (g.now 0) (deadline g) early))
waits_on (suc m) to g h here early next = later-IsWaited m to g _ here next

one_round :
    (most : ℕ) (to : ℤ) (g : Group)
    → deadline g ≤ g.now 0 + most * 200000000
    → GoesOn most to g
    → IsWaited most to g (wait (suc most) to g)
unfolding wait
one_round most to g h next = elim (Bool-cases (ltb (g.now 0) (deadline g))) [
  | inr late ↦ rw late (killed-IsWaited most to g (ltb_false (g.now 0) (deadline g) late))
  | inl early ↦ elim (Bool-cases (is_gone (g.on_probe 0))) [
    | inl gone ↦ rw (early, gone) (gone-IsWaited most to g gone)
    | inr here ↦ rw (early, here) (waits_on most to g h here early next)
  ]
]
  where
    ltb_false : (a b : ℕ) → ltb a b ≡ false → b ≤ a
    ltb_false a b e = ground arith

-- The loop is over within the rounds that the sleeps leave before the deadline, and one more.
pub wait-IsWaited :
    (most : ℕ) (to : ℤ) (g : Group)
    → Sleeps g
    → deadline g ≤ g.now 0 + most * 200000000
    → IsWaited most to g (wait (suc most) to g)
wait-IsWaited zero to g sl h = one_round zero to g h tt
wait-IsWaited (suc m) to g sl h =
    one_round (suc m) to g h
      (wait-IsWaited m to (shift g) (λ n. sl (suc n)) (omega (arith, h, sl 0)))
