-- ===== src/Exec/Scanner.antt =====
-- What the scanner of Execute (server/internal/run/exec.go) makes of the events.
use eagle_condor_sandbox.Prelude.{
  ◌≤◌, ◌<◌, List, [], ◌∷◌, ◌++◌, Option, none, some, ◌≡◌, refl, ap, arith, Bool-cases, inl, inr,
  length, map, leb, All,
}
use eagle_condor_sandbox.Prelude.Text.{Text}
use eagle_condor_sandbox.Run.{State, cancelled, timed_out}
use eagle_condor_sandbox.Exec.{Event, reads, expires, cancels, max_line, drop_cr, unread, scanned}

-- The state that the first end of the context asks for.
abbrev pub first_stop : List Event → Option State
first_stop [] = none
first_stop (reads t ∷ es) = first_stop es
first_stop (expires e ∷ es) = some timed_out
first_stop (cancels e ∷ es) = some cancelled

-- The lines among the events.
abbrev pub lines_of : List Event → List Text
lines_of [] = []
lines_of (reads t ∷ es) = t ∷ lines_of es
lines_of (e ∷ es) = lines_of es

-- The error of the first kill, if it has one.
abbrev pub kill_error : List Event → Option Text
kill_error [] = none
kill_error (reads t ∷ es) = kill_error es
kill_error (expires e ∷ es) = e
kill_error (cancels e ∷ es) = e

first_stop-unread : (es : List Event) → first_stop (unread es) ≡ first_stop es
unfolding unread
first_stop-unread [] = refl
first_stop-unread (reads t ∷ es) = first_stop-unread es
first_stop-unread (expires e ∷ es) = refl
first_stop-unread (cancels e ∷ es) = refl

pub first_stop-scanned : (es : List Event) → first_stop (scanned es) ≡ first_stop es
unfolding scanned
first_stop-scanned [] = refl
first_stop-scanned (reads t ∷ es) = elim (Bool-cases (leb max_line (length t))) [
  | inl e ↦ rw e (first_stop-unread es)
  | inr e ↦ rw e (first_stop-scanned es)
]
first_stop-scanned (expires e ∷ es) = refl
first_stop-scanned (cancels e ∷ es) = refl

kill_error-unread : (es : List Event) → kill_error (unread es) ≡ kill_error es
unfolding unread
kill_error-unread [] = refl
kill_error-unread (reads t ∷ es) = kill_error-unread es
kill_error-unread (expires e ∷ es) = refl
kill_error-unread (cancels e ∷ es) = refl

pub kill_error-scanned : (es : List Event) → kill_error (scanned es) ≡ kill_error es
unfolding scanned
kill_error-scanned [] = refl
kill_error-scanned (reads t ∷ es) = elim (Bool-cases (leb max_line (length t))) [
  | inl e ↦ rw e (kill_error-unread es)
  | inr e ↦ rw e (kill_error-scanned es)
]
kill_error-scanned (expires e ∷ es) = refl
kill_error-scanned (cancels e ∷ es) = refl

lines_of-unread : (es : List Event) → lines_of (unread es) ≡ []
unfolding unread
lines_of-unread [] = refl
lines_of-unread (reads t ∷ es) = lines_of-unread es
lines_of-unread (expires e ∷ es) = lines_of-unread es
lines_of-unread (cancels e ∷ es) = lines_of-unread es

length-unread : (es : List Event) → length (unread es) ≤ length es
unfolding unread
length-unread [] = omega arith
length-unread (reads t ∷ es) = omega (arith, length-unread es)
length-unread (expires e ∷ es) = omega (arith, length-unread es)
length-unread (cancels e ∷ es) = omega (arith, length-unread es)

pub length-scanned : (es : List Event) → length (scanned es) ≤ length es
unfolding scanned
length-scanned [] = omega arith
length-scanned (reads t ∷ es) = elim (Bool-cases (leb max_line (length t))) [
  | inl e ↦ rw e (omega (arith, length-unread es))
  | inr e ↦ rw e (omega (arith, length-scanned es))
]
length-scanned (expires e ∷ es) = omega (arith, length-scanned es)
length-scanned (cancels e ∷ es) = omega (arith, length-scanned es)

-- Nothing is left, or a line of 4 MB or more comes first.
abbrev pub IsHalt : List Text → Type 0
IsHalt [] = Unit
IsHalt (t ∷ ts) = 4194304 ≤ length t

-- The lines `good` are those up to the first of 4 MB or more.
abbrev pub Readable : List Text → List Text → Type 0
Readable ts good =
    (rest : List Text) × (ts ≡ good ++ rest) × All (λ t. length t < 4194304) good × IsHalt rest

-- The scanner yields the lines up to the first of 4 MB or more.
pub scanned-Readable :
    (es : List Event)
    → (good : List Text) × (Readable (lines_of es) good)
      × (lines_of (scanned es) ≡ map drop_cr good)
unfolding scanned
scanned-Readable [] = ([], ([], refl, tt, tt), refl)
scanned-Readable (reads t ∷ es) = elim (Bool-cases (leb max_line (length t))) [
  | inl e ↦ ([], (t ∷ lines_of es, refl, tt, ground arith), rw e (lines_of-unread es))
  | inr e ↦
      let (good, (rest, all, short, halt), q) = scanned-Readable es in
      (
        t ∷ good,
        (rest, ap (λ ts. t ∷ ts) all, (ground arith, short), halt),
        rw e (ap (λ ts. drop_cr t ∷ ts) q),
      )
]
scanned-Readable (expires e ∷ es) = scanned-Readable es
scanned-Readable (cancels e ∷ es) = scanned-Readable es
