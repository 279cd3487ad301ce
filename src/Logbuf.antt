-- ===== src/Logbuf.antt =====
-- server/internal/logbuf/logbuf.go: the ring of recent lines and its subscribers.
-- Each function is what the source does while it holds the lock; `append` is the whole method run
-- with no other call between its two parts.
pub mod Ansi
pub mod Ring
pub mod Pages
pub mod Poll
pub mod Resume
pub mod Subscribers
pub mod Sessions
pub mod Race
use eagle_condor_sandbox.Prelude.{
  ℕ, zero, suc, ◌+◌, Bool, true, false, ◌&&◌, List, [], ◌∷◌, ◌++◌, Option, none, some, ltb, ◌==◌,
  if◌then◌else◌, length, get_elem?, set,
}
use eagle_condor_sandbox.Prelude.Int.{ℤ, pos, ltb_ℤ, leb_ℤ, eq_ℤ, inc64}
use eagle_condor_sandbox.Prelude.Text.{Text}
use Ansi.{strip_ansi}

pub record Line : Type 0 where
  pub seq : ℤ
  pub text : Text

-- A `chan Line`: what waits in it, its size, and whether it was closed.
pub record Chan : Type 0 where
  pub items : List Line
  pub room : ℕ
  pub shut : Bool

-- `chans` holds every channel that Subscribe made; `subs` names by position those in the source's
-- map.
pub record Buffer : Type 0 where
  pub lines : List Line
  pub capacity : ℕ
  pub next_seq : ℤ
  pub closed : Bool
  pub subs : List ℕ
  pub chans : List Chan

-- New: a capacity that is not positive becomes 5000.
abbrev ring_size : ℤ → ℕ
ring_size (pos zero) = 5000
ring_size (pos (suc n)) = suc n
ring_size _ = 5000

unfoldable pub new : ℤ → Buffer
new capacity = record {
  lines = [];
  capacity = ring_size capacity;
  next_seq = pos 0;
  closed = false;
  subs = [];
  chans = [];
}

-- `copy(b.lines, b.lines[1:])`, then the last cell is overwritten.
abbrev shift_in : List Line → Line → List Line
shift_in [] ln = []
shift_in (x ∷ xs) ln = xs ++ ln ∷ []

-- The part of Append under the lock once the buffer was found open: the line, and the subscribers
-- that it is to be sent to.
unfoldable pub record_line : Buffer → Text → Buffer × Line × List ℕ
record_line b text =
    let ln : Line = record { seq = b.next_seq; text = strip_ansi text } in
    let kept = if length b.lines == b.capacity then shift_in b.lines ln else b.lines ++ ln ∷ [] in
    (record b { lines = kept; next_seq = inc64 b.next_seq }, ln, b.subs)

-- `select { case ch <- ln: default: }`: a full channel misses the line, and a closed one panics.
unfoldable pub offer : Chan → Line → Option Chan
offer ch ln =
    if ch.shut
    then none
    else if ltb (length ch.items) ch.room
    then some (record ch { items = ch.items ++ ln ∷ [] })
    else some ch

abbrev put_at : List Chan → ℕ → Option Chan → Option (List Chan)
put_at chans a none = none
put_at chans a (some ch) = some (set chans a ch)

abbrev offer_at : List Chan → ℕ → Option Chan → Line → Option (List Chan)
offer_at chans a none ln = some chans
offer_at chans a (some ch) ln = put_at chans a (offer ch ln)

-- The loop of Append after the lock is released. `none` is a panic.
unfoldable pub fan_out : List Chan → List ℕ → Line → Option (List Chan)
fan_out chans [] ln = some chans
fan_out chans (a ∷ rest) ln = elim (offer_at chans a (get_elem? chans a) ln) [
  | none ↦ none
  | some chans' ↦ fan_out chans' rest ln
]

abbrev with_chans : Buffer → Option (List Chan) → Option Buffer
with_chans b none = none
with_chans b (some chans) = some (record b { chans = chans })

-- Append
unfoldable pub append : Buffer → Text → Option Buffer
unfolding record_line
append b text =
    let (b', ln, subs) = record_line b text in
    if b.closed then some b else with_chans b' (fan_out b'.chans subs ln)

-- The loop of Since over the lines.
unfoldable pub collect : ℤ → ℤ → List Line → List Line → List Line
collect from limit out [] = out
collect from limit out (ln ∷ rest) =
    let skip = collect from limit out rest in
    let out' = out ++ ln ∷ [] in
    let more = collect from limit out' rest in
    if ltb_ℤ ln.seq from
    then skip
    else if ltb_ℤ (pos 0) limit && eq_ℤ (pos (length out')) limit
    then out'
    else more

abbrev last_line : List Line → Option Line
last_line [] = none
last_line (x ∷ []) = some x
last_line (x ∷ y ∷ r) = last_line (y ∷ r)

abbrev next_after : Buffer → ℤ → Option Line → ℤ
next_after b from (some ln) = inc64 ln.seq
next_after b from none = if ltb_ℤ b.next_seq from then b.next_seq else from

-- Since
unfoldable pub since : Buffer → ℤ → ℤ → List Line × ℤ
unfolding collect
since b from limit =
    let out = collect from limit [] b.lines in (out, next_after b from (last_line out))

abbrev slots : ℤ → ℕ
slots (pos zero) = 256
slots (pos (suc n)) = suc n
slots _ = 256

abbrev new_chan : ℤ → Bool → Chan
new_chan size shut = record { items = []; room = slots size; shut = shut }

-- Subscribe: the new channel's position. A buffer that is closed gives a closed channel.
unfoldable pub subscribe : Buffer → ℤ → Buffer × ℕ
subscribe b size =
    let a = length b.chans in
    if b.closed
    then (record b { chans = b.chans ++ new_chan size true ∷ [] }, a)
    else (record b { chans = b.chans ++ new_chan size false ∷ []; subs = b.subs ++ a ∷ [] }, a)

abbrev without : ℕ → List ℕ → List ℕ
without a [] = []
without a (x ∷ xs) = let rest = without a xs in if x == a then rest else x ∷ rest

abbrev has : ℕ → List ℕ → Bool
has a [] = false
has a (x ∷ xs) = if x == a then true else has a xs

abbrev shut_chan : Chan → Chan
shut_chan ch = record ch { shut = true }

-- `close(ch)` of the channel at a position.
unfoldable pub close_at : List Chan → ℕ → List Chan
close_at [] a = []
close_at (ch ∷ rest) zero = shut_chan ch ∷ rest
close_at (ch ∷ rest) (suc a) = ch ∷ close_at rest a

-- What the cancel function of Subscribe does, once and again.
unfoldable pub unsubscribe : Buffer → ℕ → Buffer
unfolding close_at
unsubscribe b a =
    if has a b.subs then record b { subs = without a b.subs; chans = close_at b.chans a } else b

unfoldable pub close_all : List Chan → List ℕ → List Chan
unfolding close_at
close_all chans [] = chans
close_all chans (a ∷ rest) = close_all (close_at chans a) rest

-- Close
unfoldable pub close : Buffer → Buffer
unfolding close_all
close b =
    if b.closed then b else record b { closed = true; subs = []; chans = close_all b.chans b.subs }
