-- ===== src/Logbuf/Subscribers.antt =====
-- The subscribers of server/internal/logbuf/logbuf.go: which channels a send may meet.
use eagle_condor_sandbox.Prelude.{
  ℕ, zero, suc, Bool, true, false, not, List, [], ◌∷◌, ◌++◌, Option, none, some, ◌≡◌, ◌≢◌, refl,
  arith, length, get_elem?, set, ◌==◌, ltb, ap, inl, inr, Bool-cases, All, All-map, All-append,
}
use eagle_condor_sandbox.Prelude.Int.{ℤ}
use eagle_condor_sandbox.Logbuf.{
  Line, Chan, Buffer, offer, offer_at, fan_out, subscribe, new_chan, without, has, close_at,
  unsubscribe, close,
}

abbrev pub is_open : Option Chan → Bool
is_open none = false
is_open (some ch) = not ch.shut

-- The channel at a position exists and is open.
abbrev pub IsOpen : List Chan → ℕ → Type 0
IsOpen chans a = is_open (get_elem? chans a) ≡ true

-- Every subscriber in the map can be sent to.
abbrev pub Reachable : Buffer → Type 0
Reachable b = All (IsOpen b.chans) b.subs

pub put-IsOpen :
    (chans : List Chan) (a j : ℕ) (ch : Chan)
    → ch.shut ≡ false
    → IsOpen chans j
    → IsOpen (set chans a ch) j
put-IsOpen [] a j ch s h = h
put-IsOpen (x ∷ r) zero zero ch s h = rw s
put-IsOpen (x ∷ r) zero (suc j) ch s h = h
put-IsOpen (x ∷ r) (suc a) zero ch s h = h
put-IsOpen (x ∷ r) (suc a) (suc j) ch s h = put-IsOpen r a j ch s h

offer_open :
    (ch : Chan) (ln : Line)
    → ch.shut ≡ false
    → (ch' : Chan) × (offer ch ln ≡ some ch') × (ch'.shut ≡ false)
unfolding offer
offer_open ch ln s = elim (Bool-cases (ltb (length ch.items) ch.room)) [
  | inl e ↦ (record ch { items = ch.items ++ ln ∷ [] }, rw (s, e), s)
  | inr e ↦ (ch, rw (s, e), s)
]

offer_at-IsOpen :
    (chans : List Chan) (a : ℕ) (o : Option Chan) (ln : Line)
    → is_open o ≡ true
    → (chans' : List Chan) × (offer_at chans a o ln ≡ some chans')
      × ((j : ℕ) → IsOpen chans j → IsOpen chans' j)
offer_at-IsOpen chans a none ln h = (chans, refl, λ j p. p)
offer_at-IsOpen chans a (some ch) ln h =
    let (ch', e, s) = offer_open ch ln (ground arith) in
    (set chans a ch', rw e, λ j p. put-IsOpen chans a j ch' s p)

-- The sends to open channels all go through, and shut none.
pub fan_out-IsOpen :
    (chans : List Chan) (subs : List ℕ) (ln : Line)
    → All (IsOpen chans) subs
    → (chans' : List Chan) × (fan_out chans subs ln ≡ some chans')
      × ((j : ℕ) → IsOpen chans j → IsOpen chans' j)
unfolding fan_out
fan_out-IsOpen chans [] ln h = (chans, refl, λ j p. p)
fan_out-IsOpen chans (a ∷ r) ln (h, hr) =
    let (chans', e, keep) = offer_at-IsOpen chans a (get_elem? chans a) ln h in
    let (chans'', e', keep') = fan_out-IsOpen chans' r ln (All-map keep r hr) in
    (chans'', rw (e, fan_out) e', λ j p. keep' j (keep j p))

close_at-other :
    (chans : List Chan) (a j : ℕ) → a ≢ j → IsOpen chans j → IsOpen (close_at chans a) j
unfolding close_at
close_at-other [] a j ne h = h
close_at-other (x ∷ r) zero zero ne h = absurd (ne refl)
close_at-other (x ∷ r) zero (suc j) ne h = h
close_at-other (x ∷ r) (suc a) zero ne h = h
close_at-other (x ∷ r) (suc a) (suc j) ne h = close_at-other r a j (λ e. ne (ap suc e)) h

append-IsOpen :
    (chans : List Chan) (ch : Chan) (j : ℕ) → IsOpen chans j → IsOpen (chans ++ ch ∷ []) j
append-IsOpen [] ch j h = cc
append-IsOpen (x ∷ r) ch zero h = h
append-IsOpen (x ∷ r) ch (suc j) h = append-IsOpen r ch j h

new-IsOpen :
    (chans : List Chan) (ch : Chan) → ch.shut ≡ false → IsOpen (chans ++ ch ∷ []) (length chans)
new-IsOpen [] ch s = rw s
new-IsOpen (x ∷ r) ch s = new-IsOpen r ch s

without-IsOpen :
    (chans : List Chan) (a : ℕ) (subs : List ℕ)
    → All (IsOpen chans) subs
    → All (IsOpen (close_at chans a)) (without a subs)
without-IsOpen chans a [] h = tt
without-IsOpen chans a (x ∷ r) (h, hr) = elim (Bool-cases (x == a)) [
  | inl e ↦ rw e (without-IsOpen chans a r hr)
  | inr e ↦ rw e (close_at-other chans a x (λ q. ground arith) h, without-IsOpen chans a r hr)
]

-- Subscribe keeps every subscriber within reach of a send.
pub subscribe-Reachable : (b : Buffer) (size : ℤ) → Reachable b → Reachable (subscribe b size).0
unfolding subscribe
subscribe-Reachable b size h = elim (Bool-cases b.closed) [
  | inl e ↦ rw e (All-map (λ j p. append-IsOpen b.chans (new_chan size true) j p) b.subs h)
  | inr e ↦ rw e (
      All-append (IsOpen (b.chans ++ new_chan size false ∷ [])) b.subs (length b.chans ∷ [])
        (All-map (λ j p. append-IsOpen b.chans (new_chan size false) j p) b.subs h)
        (new-IsOpen b.chans (new_chan size false) refl, tt))
]

pub unsubscribe-Reachable : (b : Buffer) (a : ℕ) → Reachable b → Reachable (unsubscribe b a)
unfolding unsubscribe
unsubscribe-Reachable b a h = elim (Bool-cases (has a b.subs)) [
  | inl e ↦ rw e (without-IsOpen b.chans a b.subs h)
  | inr e ↦ rw e h
]

pub close-Reachable : (b : Buffer) → Reachable b → Reachable (close b)
unfolding close
close-Reachable b h = elim (Bool-cases b.closed) [ inl e ↦ rw e h | inr e ↦ rw e tt ]
