-- ===== src/Exec/Logs.antt =====
-- What Execute (server/internal/run/exec.go) hands to the log file and to the log buffer.
use eagle_condor_sandbox.Prelude.{
  ◌+◌, ◌≤◌, ◌<◌, false, List, [], ◌∷◌, ◌++◌, Option, none, some, ◌≡◌, refl, sym, ap, ◌∙◌, subst,
  arith, append_assoc, append-nil, length, length-append, map,
}
use eagle_condor_sandbox.Prelude.Int.{ℤ, max_int64}
use eagle_condor_sandbox.Prelude.Text.{Text}
use eagle_condor_sandbox.Logbuf.{Buffer}
use eagle_condor_sandbox.Logbuf.Ansi.{strip_ansi}
use eagle_condor_sandbox.Logbuf.Ring.{Holds}
use eagle_condor_sandbox.Logbuf.Sessions.{Sound, append_open}
use eagle_condor_sandbox.Run.{State, cancelled, timed_out}
use eagle_condor_sandbox.Exec.{
  Spec, Runtime, Event, reads, expires, cancels, Child, Effects, happen, happen_all, scanned,
  drop_cr, stop_with, run_child, say, command_line, kill_note, note_kill,
}
use eagle_condor_sandbox.Exec.Scanner.{
  lines_of, kill_error, kill_error-scanned, length-scanned, Readable, scanned-Readable,
}
use eagle_condor_sandbox.Exec.Outcomes.{Starts, begun, run_child-started}

abbrev pub failed_kill : Option Text → List Text
failed_kill none = []
failed_kill (some e) = (kill_note ++ e) ∷ []

-- What one event says to the buffer: its line, or that the first end of the context could not kill.
abbrev said_by : Option State → Event → List Text
said_by k (reads t) = t ∷ []
said_by none (expires e) = failed_kill e
said_by none (cancels e) = failed_kill e
said_by (some st) (expires e) = []
said_by (some st) (cancels e) = []

abbrev after : Option State → Event → Option State
after k (reads t) = k
after none (expires e) = some timed_out
after none (cancels e) = some cancelled
after (some st) (expires e) = some st
after (some st) (cancels e) = some st

abbrev pub spoken : Option State → List Event → List Text
spoken k [] = []
spoken k (e ∷ es) = said_by k e ++ spoken (after k e) es

stop_with-file :
    (pid : ℤ) (st : State) (e : Option Text) (x : Effects) (o : Option State)
    → (stop_with pid st e x o).file ≡ x.file
stop_with-file pid st e x none = refl
stop_with-file pid st e x (some y) = refl

happen_all-file :
    (pid : ℤ) (es : List Event) (x : Effects)
    → (happen_all pid x es).file ≡ x.file ++ map strip_ansi (lines_of es)
unfolding happen_all happen
happen_all-file pid [] x = sym (append-nil x.file)
happen_all-file pid (reads t ∷ es) x =
    happen_all-file pid es (happen pid x (reads t))
    ∙ append_assoc x.file (strip_ansi t ∷ []) (map strip_ansi (lines_of es))
happen_all-file pid (expires e ∷ es) x =
    happen_all-file pid es (stop_with pid timed_out e x x.killed)
    ∙ ap (λ f. f ++ map strip_ansi (lines_of es)) (stop_with-file pid timed_out e x x.killed)
happen_all-file pid (cancels e ∷ es) x =
    happen_all-file pid es (stop_with pid cancelled e x x.killed)
    ∙ ap (λ f. f ++ map strip_ansi (lines_of es)) (stop_with-file pid cancelled e x x.killed)

say-Sound :
    (history : List Text) (b : Buffer) (t : Text)
    → Sound history false b
    → length history < max_int64
    → Sound (history ++ t ∷ []) false (say b t)
unfolding say
say-Sound history b t s room = let (b', e, s') = append_open history b t s room in rw e s'

note_kill-Sound :
    (history : List Text) (b : Buffer) (e : Option Text)
    → Sound history false b
    → length history < max_int64
    → Sound (history ++ failed_kill e) false (note_kill b e)
note_kill-Sound history b none s room = rw (append-nil history) s
note_kill-Sound history b (some e) s room = say-Sound history b (kill_note ++ e) s room

stop_with-Sound :
    (pid : ℤ) (st : State) (e : Option Text) (history : List Text) (x : Effects)
    → Sound history false x.buf
    → length history < max_int64
    → Sound (history ++ failed_kill e) false (stop_with pid st e x none).buf
stop_with-Sound pid st e history x s room = note_kill-Sound history x.buf e s room

happen-Sound :
    (pid : ℤ) (e : Event) (history : List Text) (x : Effects) (k : Option State)
    → x.killed ≡ k
    → Sound history false x.buf
    → length history < max_int64
    → Sound (history ++ said_by k e) false (happen pid x e).buf
unfolding happen
happen-Sound pid (reads t) history x k q s room = say-Sound history x.buf t s room
happen-Sound pid (expires e) history x none q s room =
    subst (λ o. Sound (history ++ failed_kill e) false (stop_with pid timed_out e x o).buf) (sym q)
      (note_kill-Sound history x.buf e s room)
happen-Sound pid (expires e) history x (some st) q s room =
    subst (λ o. Sound (history ++ []) false (stop_with pid timed_out e x o).buf) (sym q)
      (rw (append-nil history) s)
happen-Sound pid (cancels e) history x none q s room =
    subst (λ o. Sound (history ++ failed_kill e) false (stop_with pid cancelled e x o).buf) (sym q)
      (note_kill-Sound history x.buf e s room)
happen-Sound pid (cancels e) history x (some st) q s room =
    subst (λ o. Sound (history ++ []) false (stop_with pid cancelled e x o).buf) (sym q)
      (rw (append-nil history) s)

happen-killed :
    (pid : ℤ) (e : Event) (x : Effects) (k : Option State)
    → x.killed ≡ k
    → (happen pid x e).killed ≡ after k e
unfolding happen
happen-killed pid (reads t) x k q = q
happen-killed pid (expires e) x none q = ap (λ o. (stop_with pid timed_out e x o).killed) q
happen-killed pid (expires e) x (some st) q = ap (λ o. (stop_with pid timed_out e x o).killed) q ∙ q
happen-killed pid (cancels e) x none q = ap (λ o. (stop_with pid cancelled e x o).killed) q
happen-killed pid (cancels e) x (some st) q = ap (λ o. (stop_with pid cancelled e x o).killed) q ∙ q

length-failed_kill : (e : Option Text) → length (failed_kill e) ≤ 1
length-failed_kill none = omega arith
length-failed_kill (some e) = omega arith

length-said_by : (k : Option State) (e : Event) → length (said_by k e) ≤ 1
length-said_by k (reads t) = omega arith
length-said_by none (expires e) = length-failed_kill e
length-said_by none (cancels e) = length-failed_kill e
length-said_by (some st) (expires e) = omega arith
length-said_by (some st) (cancels e) = omega arith

happen_all-Sound :
    (pid : ℤ) (es : List Event) (history : List Text) (x : Effects) (k : Option State)
    → x.killed ≡ k
    → Sound history false x.buf
    → length history + length es ≤ max_int64
    → Sound (history ++ spoken k es) false (happen_all pid x es).buf
unfolding happen_all
happen_all-Sound pid [] history x k q s room = rw (append-nil history) s
happen_all-Sound pid (e ∷ es) history x k q s room =
    subst (λ h. Sound h false (happen_all pid (happen pid x e) es).buf)
      (append_assoc history (said_by k e) (spoken (after k e) es))
      (happen_all-Sound pid es (history ++ said_by k e) (happen pid x e) (after k e)
        (happen-killed pid e x k q) (happen-Sound pid e history x k q s (omega arith))
        (omega (arith, length-append history (said_by k e), length-said_by k e)))

-- The third list has the first two, each in its order.
pub data Woven {ℓ} {A : Type ℓ} : List A → List A → List A → Type ℓ where
  ends : Woven [] [] []
  left : {x : A} {xs ys zs : List A} → Woven xs ys zs → Woven (x ∷ xs) ys (x ∷ zs)
  right : {y : A} {xs ys zs : List A} → Woven xs ys zs → Woven xs (y ∷ ys) (y ∷ zs)

abbrev notes_from : Option State → List Event → List Text
notes_from none es = failed_kill (kill_error es)
notes_from (some st) es = []

note_first :
    (e : Option Text) {xs zs : List Text}
    → Woven xs [] zs
    → Woven xs (failed_kill e) (failed_kill e ++ zs)
note_first none w = w
note_first (some e) w = right w

-- What the events say to the buffer is the lines, and the note of a failed kill among them.
spoken-Woven :
    (k : Option State) (es : List Event) → Woven (lines_of es) (notes_from k es) (spoken k es)
spoken-Woven none [] = ends
spoken-Woven (some st) [] = ends
spoken-Woven none (reads t ∷ es) = left (spoken-Woven none es)
spoken-Woven (some st) (reads t ∷ es) = left (spoken-Woven (some st) es)
spoken-Woven none (expires e ∷ es) = note_first e (spoken-Woven (some timed_out) es)
spoken-Woven none (cancels e ∷ es) = note_first e (spoken-Woven (some cancelled) es)
spoken-Woven (some st) (expires e ∷ es) = spoken-Woven (some st) es
spoken-Woven (some st) (cancels e ∷ es) = spoken-Woven (some st) es

-- What Execute leaves in the log file's writer and in the buffer. `good` is what was readable of the
-- lines that the pipe delivered.
abbrev pub Logged : Text → List Text → List Event → Effects → Type 0
Logged command history es x =
    (good : List Text) × (Readable (lines_of es) good)
    × (x.file ≡ map strip_ansi (map drop_cr good))
    × ((told : List Text) × Woven (map drop_cr good) (failed_kill (kill_error es)) told
        × Holds (history ++ command ∷ told) x.buf)
    × (x.buf.closed ≡ false)

-- If the process could be started, and the log buffer is open, holds some history and has room
-- for as many sequence numbers as there are events, the log file's writer is handed exactly the
-- lines that the pipe delivered before cmd.Wait closed it, up to the first of 4 MB or more, each
-- without a carriage return at its end, cleaned, in their order. The buffer gets the command and
-- then the same lines, not cleaned, with a note among them if the first end of the context could
-- not kill the tree, and nothing else; and it stays open.
pub run_child-logs :
    (rt : Runtime) (spec : Spec) (c : Child) (history : List Text) (b : Buffer)
    → Starts c
    → Sound history false b
    → length history + length c.events < max_int64
    → Logged (command_line rt spec) history c.events (run_child rt spec c b).0
run_child-logs rt spec c history b h s room =
    let (good, readable, yields) = scanned-Readable c.events in
    subst (Logged (command_line rt spec) history c.events)
      (sym (ap (λ p. p.0) (run_child-started rt spec c b h)))
      (
        good,
        readable,
        happen_all-file c.pid (scanned c.events) (begun rt spec c b) ∙ ap (map strip_ansi) yields,
        (
          spoken none (scanned c.events),
          subst
              (λ ls. Woven ls (failed_kill (kill_error c.events)) (spoken none (scanned c.events)))
              yields
              (subst
                (λ e.
                  Woven (lines_of (scanned c.events)) (failed_kill e)
                    (spoken none (scanned c.events)))
                (kill_error-scanned c.events) (spoken-Woven none (scanned c.events))),
          sound.holds,
        ),
        sound.shut,
      )
  where
    sound :
        Sound
          (history ++ command_line rt spec ∷ spoken none (scanned c.events))
          false
          (happen_all c.pid (begun rt spec c b) (scanned c.events)).buf
    sound =
        subst (λ t. Sound t false (happen_all c.pid (begun rt spec c b) (scanned c.events)).buf)
          (append_assoc history (command_line rt spec ∷ []) (spoken none (scanned c.events)))
          (happen_all-Sound c.pid (scanned c.events) (history ++ command_line rt spec ∷ [])
            (begun rt spec c b) none refl
            (say-Sound history b (command_line rt spec) s (omega arith))
            (omega
              (arith, length-append history (command_line rt spec ∷ []), length-scanned c.events)))
