-- ===== src/Examples/Logs.antt =====
-- The theorems of server/internal/logbuf/logbuf.go at concrete inputs.
use eagle_condor_sandbox.Prelude.{List, [], ◌∷◌, ◌++◌, none, some, ◌≡◌, refl, arith, true}
use eagle_condor_sandbox.Prelude.Int.{pos}
use eagle_condor_sandbox.Prelude.Text.{codes}
use eagle_condor_sandbox.Logbuf.Ansi.Sequences.{Piece, plain, csi}
use eagle_condor_sandbox.Logbuf.{Buffer, new, record_line, fan_out, since, subscribe, unsubscribe}
use eagle_condor_sandbox.Logbuf.Ring.{Holds, numbered, new-Holds, record_line-Holds}
use eagle_condor_sandbox.Logbuf.Poll.{since-Holds}
use eagle_condor_sandbox.Logbuf.Resume.{Reads, since_resumes}
use eagle_condor_sandbox.Logbuf.Subscribers.{Reachable, subscribe-Reachable}
use eagle_condor_sandbox.Logbuf.Sessions.{Call, appends, subscribes, receives, closes, run, run-new}
use eagle_condor_sandbox.Logbuf.Race.{append_races_unsubscribe}

abbrev some_calls : List Call
some_calls =
    appends (codes "a")
    ∷ subscribes (pos 1)
    ∷ appends (codes "b")
    ∷ appends (codes "c")
    ∷ receives 0
    ∷ closes
    ∷ appends (codes "d")
    ∷ []

run-new_example :
    (b : Buffer) × (run (new (pos 2)) some_calls ≡ some b)
    × Holds (codes "a" ∷ codes "b" ∷ codes "c" ∷ []) b
    × Reachable b
    × (b.closed ≡ true)
run-new_example = run-new (pos 2) some_calls (omega arith)

abbrev one_in : Buffer
one_in = (record_line (new (pos 2)) (codes "a")).0

abbrev two_in : Buffer
two_in = (record_line one_in (codes "b")).0

abbrev one_in-Holds : Holds (codes "a" ∷ []) one_in
one_in-Holds = record_line-Holds [] (new (pos 2)) (codes "a") (new-Holds (pos 2)) (omega arith)

abbrev two_in-Holds : Holds (codes "a" ∷ codes "b" ∷ []) two_in
two_in-Holds = record_line-Holds (codes "a" ∷ []) one_in (codes "b") one_in-Holds (omega arith)

since-Holds_example : since two_in (pos 1) (pos 0) ≡ (numbered 1 (codes "b" ∷ []), pos 2)
unfolding record_line new
since-Holds_example =
    since-Holds (codes "a" ∷ codes "b" ∷ []) two_in 1 (pos 0) two_in-Holds (omega arith)
      (omega arith)

since_resumes_example :
    let (out, next) = since one_in (pos 0) (pos 0) in
    Reads 0 (codes "a" ∷ codes "b" ∷ []) (out ++ (since two_in next (pos 0)).0)
unfolding record_line new
since_resumes_example =
    since_resumes (codes "a" ∷ []) (codes "b" ∷ []) one_in two_in 0 (pos 0) (pos 0) one_in-Holds
      two_in-Holds (omega arith) (omega arith) (omega arith)

append_races_unsubscribe_example :
    let (b', ln, subs) = record_line (subscribe (new (pos 3)) (pos 1)).0 (codes "a") in
    fan_out (unsubscribe b' 0).chans subs ln ≡ none
unfolding subscribe new
append_races_unsubscribe_example =
    append_races_unsubscribe (subscribe (new (pos 3)) (pos 1)).0 (codes "a") 0
      (subscribe-Reachable (new (pos 3)) (pos 1) tt) refl

abbrev red : List Piece
red = csi (codes "1;31") [] b'm' ∷ plain b'o' ∷ plain b'k' ∷ csi (codes "0") [] b'm' ∷ []
