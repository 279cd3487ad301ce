-- ===== src/Logbuf/Sessions.antt =====
-- Whole calls on one buffer of server/internal/logbuf/logbuf.go, in any order.
use eagle_condor_sandbox.Prelude.{
  ℕ, zero, suc, ◌+◌, ◌≤◌, ◌<◌, Bool, true, false, List, [], ◌∷◌, ◌++◌, append_assoc, append-nil,
  Option, none, some, ◌≡◌, refl, arith, length, length-append, get_elem?, set, All-map,
}
use eagle_condor_sandbox.Prelude.Int.{ℤ, max_int64}
use eagle_condor_sandbox.Prelude.Text.{Text}
use eagle_condor_sandbox.Logbuf.{
  Line, Chan, Buffer, new, record_line, append, subscribe, unsubscribe, close,
}
use eagle_condor_sandbox.Logbuf.Ring.{Holds, record_line-Holds, Holds-chans, new-Holds}
use eagle_condor_sandbox.Logbuf.Subscribers.{
  Reachable, IsOpen, fan_out-IsOpen, subscribe-Reachable, unsubscribe-Reachable, close-Reachable,
}

-- The calls that clients make; `receives` is a subscriber that takes a line from its channel.
pub data Call : Type 0 where
  appends : Text → Call
  subscribes : ℤ → Call
  unsubscribes receives : ℕ → Call
  closes : Call

abbrev tail_of : List Line → List Line
tail_of [] = []
tail_of (x ∷ xs) = xs

abbrev take_at : List Chan → ℕ → Option Chan → List Chan
take_at chans a none = chans
take_at chans a (some ch) = set chans a (record ch { items = tail_of ch.items })

abbrev receive : Buffer → ℕ → Buffer
receive b a = record b { chans = take_at b.chans a (get_elem? b.chans a) }

pub step : Buffer → Call → Option Buffer
step b (appends t) = append b t
step b (subscribes n) = some (subscribe b n).0
step b (unsubscribes a) = some (unsubscribe b a)
step b (receives a) = some (receive b a)
step b closes = some (close b)

abbrev and_then : Option Buffer → (Buffer → Option Buffer) → Option Buffer
and_then none f = none
and_then (some b) f = f b

pub run : Buffer → List Call → Option Buffer
run b [] = some b
run b (c ∷ cs) = and_then (step b c) (λ b'. run b' cs)

-- The texts of the calls to Append that stand before the first Close.
abbrev pub logged : Bool → List Call → List Text
logged true cs = []
logged false [] = []
logged false (appends t ∷ cs) = t ∷ logged false cs
logged false (closes ∷ cs) = []
logged false (c ∷ cs) = logged false cs

-- What every call keeps.
pub record Sound (history : List Text) (closed : Bool) (b : Buffer) : Type 0 where
  pub holds : Holds history b
  pub reach : Reachable b
  pub shut : b.closed ≡ closed

pub append_open :
    (history : List Text) (b : Buffer) (t : Text)
    → Sound history false b
    → length history < max_int64
    → (b' : Buffer) × (append b t ≡ some b') × Sound (history ++ t ∷ []) false b'
unfolding append record_line
append_open history b t s room =
    let (chans', e, keep) = fan_out-IsOpen b.chans b.subs (record_line b t).1 s.reach in
    (
      record (record_line b t).0 { chans = chans' },
      rw (s.shut, e),
      record {
        holds =
            Holds-chans _ (record_line b t).0 chans' (record_line-Holds history b t s.holds room);
        reach = All-map keep b.subs s.reach;
        shut = s.shut;
      },
    )

append_closed : (b : Buffer) (t : Text) → b.closed ≡ true → append b t ≡ some b
unfolding append
append_closed b t c = rw c

subscribe-Sound :
    (history : List Text) (closed : Bool) (b : Buffer) (n : ℤ)
    → Sound history closed b
    → Sound history closed (subscribe b n).0
unfolding subscribe
subscribe-Sound history closed b n s = record {
  holds = ground (arith, s.holds);
  reach = subscribe-Reachable b n s.reach;
  shut = ground arith;
}

unsubscribe-Sound :
    (history : List Text) (closed : Bool) (b : Buffer) (a : ℕ)
    → Sound history closed b
    → Sound history closed (unsubscribe b a)
unfolding unsubscribe
unsubscribe-Sound history closed b a s = record {
  holds = ground (arith, s.holds);
  reach = unsubscribe-Reachable b a s.reach;
  shut = ground arith;
}

put_same-IsOpen :
    (chans : List Chan) (a j : ℕ) (old ch : Chan)
    → get_elem? chans a ≡ some old
    → ch.shut ≡ old.shut
    → IsOpen chans j
    → IsOpen (set chans a ch) j
put_same-IsOpen [] a j old ch e s h = h
put_same-IsOpen (x ∷ r) zero zero old ch e s h = ground arith
put_same-IsOpen (x ∷ r) zero (suc j) old ch e s h = h
put_same-IsOpen (x ∷ r) (suc a) zero old ch e s h = h
put_same-IsOpen (x ∷ r) (suc a) (suc j) old ch e s h = put_same-IsOpen r a j old ch e s h

take-IsOpen :
    (chans : List Chan) (a j : ℕ) (o : Option Chan)
    → get_elem? chans a ≡ o
    → IsOpen chans j
    → IsOpen (take_at chans a o) j
take-IsOpen chans a j none e h = h
take-IsOpen chans a j (some ch) e h =
    put_same-IsOpen chans a j ch (record ch { items = tail_of ch.items }) e refl h

receive-Sound :
    (history : List Text) (closed : Bool) (b : Buffer) (a : ℕ)
    → Sound history closed b
    → Sound history closed (receive b a)
receive-Sound history closed b a s = record {
  holds = Holds-chans history b _ s.holds;
  reach = All-map (λ j p. take-IsOpen b.chans a j (get_elem? b.chans a) refl p) b.subs s.reach;
  shut = s.shut;
}

close-Sound :
    (history : List Text) (closed : Bool) (b : Buffer)
    → Sound history closed b
    → Sound history true (close b)
unfolding close
close-Sound history closed b s = record {
  holds = ground (arith, s.holds);
  reach = close-Reachable b s.reach;
  shut = ground arith;
}

abbrev Ends : List Text → Bool → Option Buffer → Type 0
Ends history closed o = (b : Buffer) × (o ≡ some b) × Sound history closed b

abbrev closed_after : Bool → List Call → Bool
closed_after c [] = c
closed_after c (closes ∷ cs) = closed_after true cs
closed_after c (x ∷ cs) = closed_after c cs

run-Sound_closed :
    (history : List Text) (b : Buffer) (cs : List Call)
    → Sound history true b
    → Ends history (closed_after true cs) (run b cs)
unfolding run step
run-Sound_closed history b [] s = (b, refl, s)
run-Sound_closed history b (appends t ∷ cs) s =
    let (b', e, s') = run-Sound_closed history b cs s in (b', rw (append_closed b t s.shut) e, s')
run-Sound_closed history b (subscribes n ∷ cs) s =
    run-Sound_closed history (subscribe b n).0 cs (subscribe-Sound history true b n s)
run-Sound_closed history b (unsubscribes a ∷ cs) s =
    run-Sound_closed history (unsubscribe b a) cs (unsubscribe-Sound history true b a s)
run-Sound_closed history b (receives a ∷ cs) s =
    run-Sound_closed history (receive b a) cs (receive-Sound history true b a s)
run-Sound_closed history b (closes ∷ cs) s =
    run-Sound_closed history (close b) cs (close-Sound history true b s)

run-Sound_open :
    (history : List Text) (b : Buffer) (cs : List Call)
    → Sound history false b
    → length history + length cs ≤ max_int64
    → Ends (history ++ logged false cs) (closed_after false cs) (run b cs)
unfolding run step
run-Sound_open history b [] s room = (b, refl, rw append-nil s)
run-Sound_open history b (appends t ∷ cs) s room =
    let (b', e, s') = append_open history b t s (omega arith) in
    let (b'', e', s'') =
      run-Sound_open (history ++ t ∷ []) b' cs s' (omega (arith, length-append history (t ∷ []))) in
    (b'', rw e e', rw append_assoc at s'')
run-Sound_open history b (subscribes n ∷ cs) s room =
    run-Sound_open history (subscribe b n).0 cs (subscribe-Sound history false b n s) (omega arith)
run-Sound_open history b (unsubscribes a ∷ cs) s room =
    run-Sound_open history (unsubscribe b a) cs (unsubscribe-Sound history false b a s)
      (omega arith)
run-Sound_open history b (receives a ∷ cs) s room =
    run-Sound_open history (receive b a) cs (receive-Sound history false b a s) (omega arith)
run-Sound_open history b (closes ∷ cs) s room =
    rw append-nil (run-Sound_closed history (close b) cs (close-Sound history false b s))

-- Whole calls on a new buffer, in any order, never panic, if there are fewer than 2^63 of them.
-- Afterwards the ring holds the last of the lines appended before the first Close, as many as
-- its capacity, numbered from 0 in their order; every subscriber still in the map has an open
-- channel; and the buffer is closed exactly if one of the calls was Close.
pub run-new :
    (capacity : ℤ) (cs : List Call)
    → length cs ≤ max_int64
    → (b : Buffer) × (run (new capacity) cs ≡ some b)
      × Holds (logged false cs) b
      × Reachable b
      × (b.closed ≡ closed_after false cs)
unfolding new
run-new capacity cs room =
    let (b, e, s) =
      run-Sound_open [] (new capacity) cs
        (record { holds = new-Holds capacity; reach = tt; shut = refl }) (omega arith) in
    (b, e, s.holds, s.reach, s.shut)
