-- ===== src/Logbuf/Race.antt =====
-- The one interleaving of two calls that the lock of server/internal/logbuf/logbuf.go does not exclude.
use eagle_condor_sandbox.Prelude.{
  ℕ, zero, suc, true, false, List, [], ◌∷◌, Option, none, some, ◌≡◌, ◌≢◌, refl, arith, get_elem?,
  set, get_elem?-set_ne, ◌⊎◌, ==_iff, ◌==◌, ◌∙◌, inl, inr, Bool-cases, All, subst,
}
use eagle_condor_sandbox.Prelude.Text.{Text}
use eagle_condor_sandbox.Logbuf.{
  Line, Chan, Buffer, record_line, offer, offer_at, put_at, fan_out, has, shut_chan, close_at,
  unsubscribe,
}
use eagle_condor_sandbox.Logbuf.Subscribers.{Reachable, IsOpen}

abbrev Skips : ℕ → Chan → Option (List Chan) → Type 0
Skips a ch o = (o ≡ none) ⊎ ((chans : List Chan) × (o ≡ some chans) × (get_elem? chans a ≡ some ch))

put_at-Skips :
    (chans : List Chan) (x a : ℕ) (o : Option Chan) (ch : Chan)
    → x ≢ a
    → get_elem? chans a ≡ some ch
    → Skips a ch (put_at chans x o)
put_at-Skips chans x a none ch ne e = inl refl
put_at-Skips chans x a (some y) ch ne e = inr (set chans x y, refl, get_elem?-set_ne chans y ne ∙ e)

offer_at-Skips :
    (chans : List Chan) (x a : ℕ) (o : Option Chan) (ch : Chan) (ln : Line)
    → x ≢ a
    → get_elem? chans a ≡ some ch
    → Skips a ch (offer_at chans x o ln)
offer_at-Skips chans x a none ch ln ne e = inr (chans, refl, e)
offer_at-Skips chans x a (some y) ch ln ne e = put_at-Skips chans x a (offer y ln) ch ne e

offer_shut : (ch : Chan) (ln : Line) → ch.shut ≡ true → offer ch ln ≡ none
unfolding offer
offer_shut ch ln s = rw s

fan_out_shut :
    (chans : List Chan) (subs : List ℕ) (a : ℕ) (ch : Chan) (ln : Line)
    → has a subs ≡ true
    → get_elem? chans a ≡ some ch
    → ch.shut ≡ true
    → fan_out chans subs ln ≡ none
unfolding fan_out
fan_out_shut chans [] a ch ln h e s = cc
fan_out_shut chans (x ∷ r) a ch ln h e s = elim (Bool-cases (x == a)) [
  | inl q ↦ rw (at_shut ((==_iff x a).0 q), fan_out)
  | inr q ↦ elim (offer_at-Skips chans x a (get_elem? chans x) ch ln (λ p. ground arith) e) [
    | inl dead ↦ rw (dead, fan_out)
    | inr (chans', live, e') ↦ rw (live, fan_out) (fan_out_shut chans' r a ch ln (later q) e' s)
  ]
]
  where
    at_shut : x ≡ a → offer_at chans x (get_elem? chans x) ln ≡ none
    at_shut p = rw (p, e, offer_shut ch ln s)

    later : (x == a) ≡ false → has a r ≡ true
    later q = ground arith

close_at-shut :
    (chans : List Chan) (a : ℕ)
    → IsOpen chans a
    → (ch : Chan) × (get_elem? (close_at chans a) a ≡ some ch) × (ch.shut ≡ true)
unfolding close_at
close_at-shut [] a h = absurd (cc)
close_at-shut (x ∷ r) zero h = (shut_chan x, refl, refl)
close_at-shut (x ∷ r) (suc a) h = close_at-shut r a h

has-IsOpen :
    (chans : List Chan) (subs : List ℕ) (a : ℕ)
    → All (IsOpen chans) subs
    → has a subs ≡ true
    → IsOpen chans a
has-IsOpen chans [] a h e = cc
has-IsOpen chans (x ∷ r) a (h, hr) e = elim (Bool-cases (x == a)) [
  | inl q ↦ subst (IsOpen chans) ((==_iff x a).0 q) h
  | inr q ↦ has-IsOpen chans r a hr (ground arith)
]

-- Append lets go of the lock before it sends. On a buffer all of whose subscribers have open
-- channels, if the cancel function of a subscriber runs in between, the send meets the channel
-- that it closed, and panics.
pub append_races_unsubscribe :
    (b : Buffer) (t : Text) (a : ℕ)
    → Reachable b
    → has a b.subs ≡ true
    → let (b', ln, subs) = record_line b t in fan_out (unsubscribe b' a).chans subs ln ≡ none
unfolding record_line unsubscribe
append_races_unsubscribe b t a reach h =
    let (ch, e, s) = close_at-shut b.chans a (has-IsOpen b.chans b.subs a reach h) in
    rw h (fan_out_shut (close_at b.chans a) b.subs a ch (record_line b t).1 h e s)
