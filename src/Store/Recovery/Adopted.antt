-- ===== src/Store/Recovery/Adopted.antt =====
-- What Recover of server/internal/run/store.go leaves in the store.
use eagle_condor_sandbox.Prelude.{
  ℕ, true, false, List, [], ◌∷◌, ◌++◌, append_assoc, append-nil, Option, none, some, if◌then◌else◌,
  ◌≡◌, refl, sym, ap, ◌∙◌, arith, Bool-cases, inl, inr, subst,
}
use eagle_condor_sandbox.Prelude.Int.{ℤ}
use eagle_condor_sandbox.Prelude.Text.{Text, text_eq}
use eagle_condor_sandbox.Prelude.Assoc.{Assoc, lookup, insert, lookup-insert}
use eagle_condor_sandbox.Run.{Run, terminal}
use eagle_condor_sandbox.Run.Terminal.{terminal-errored}
use eagle_condor_sandbox.Store.Persist.{Disk}
use eagle_condor_sandbox.Store.Recovery.{
  Meta, unreadable, malformed, holds, Entry, listed, World, Progress, adopt, orphan, kills,
  settle_run, settle_meta, settle, settle_all, fresh, recover,
}

abbrev pub AllFinal : Assoc Run → Type 0
AllFinal m = (id : Text) (r : Run) → lookup id m ≡ some r → terminal r.state ≡ true

insert-AllFinal :
    (id : Text) (r : Run) (m : Assoc Run)
    → terminal r.state ≡ true
    → AllFinal m
    → AllFinal (insert id r m)
insert-AllFinal id r m t h j x e = elim (Bool-cases (text_eq id j)) [
  | inl q ↦ subst (λ y. terminal y.state ≡ true) (found q) t
  | inr q ↦ h j x (missed q)
]
  where
    found : text_eq id j ≡ true → r ≡ x
    found q = ground (arith, lookup-insert id j r m)

    missed : text_eq id j ≡ false → lookup j m ≡ some x
    missed q = ground (arith, lookup-insert id j r m)

orphan-final : (now : ℕ) (r : Run) → terminal (orphan now r).state ≡ true
unfolding orphan
orphan-final now r = terminal-errored

settle_run-AllFinal :
    (w : World) (name : Text) (r : Run) (p : Progress)
    → AllFinal p.runs
    → AllFinal (settle_run w name r p).runs
unfolding settle_run
settle_run-AllFinal w name r p h = elim (Bool-cases (terminal r.state)) [
  | inl t ↦ rw t (insert-AllFinal r.id r p.runs t h)
  | inr t ↦
      rw t (insert-AllFinal r.id (orphan (w.clock name) r) p.runs (orphan-final (w.clock name) r) h)
]

settle_meta-AllFinal :
    (w : World) (name : Text) (m : Meta) (p : Progress)
    → AllFinal p.runs
    → AllFinal (settle_meta w name m p).runs
settle_meta-AllFinal w name unreadable p h = h
settle_meta-AllFinal w name malformed p h = h
settle_meta-AllFinal w name (holds r) p h = settle_run-AllFinal w name (adopt name r) p h

settle-AllFinal :
    (w : World) (e : Entry) (p : Progress) → AllFinal p.runs → AllFinal (settle w e p).runs
unfolding settle
settle-AllFinal w e p h = elim (Bool-cases e.is_dir) [
  | inl d ↦ rw d (settle_meta-AllFinal w e.name e.meta p h)
  | inr d ↦ rw d h
]

settle_all-AllFinal :
    (w : World) (es : List Entry) (p : Progress)
    → AllFinal p.runs
    → AllFinal (settle_all w es p).runs
unfolding settle_all
settle_all-AllFinal w [] p h = h
settle_all-AllFinal w (e ∷ es) p h =
    settle_all-AllFinal w es (settle w e p) (settle-AllFinal w e p h)

abbrev pub read_run : Text → Meta → Option Run
read_run name unreadable = none
read_run name malformed = none
read_run name (holds r) = some (adopt name r)

-- The run that an entry's metadata stands for, if it can be read.
abbrev pub found_run : Entry → Option Run
found_run e = if e.is_dir then read_run e.name e.meta else none

-- The process ids recorded by the runs that were not final.
abbrev pub stray : Option Run → List ℤ
stray none = []
stray (some r) = if terminal r.state then [] else kills r

abbrev pub strays : List Entry → List ℤ
strays [] = []
strays (e ∷ es) = stray (found_run e) ++ strays es

settle-killed :
    (w : World) (e : Entry) (p : Progress) → (settle w e p).killed ≡ p.killed ++ stray (found_run e)
unfolding settle
settle-killed w e p = elim (Bool-cases e.is_dir) [
  | inl d ↦ rw d (by_meta e.meta)
  | inr d ↦ rw d (sym (append-nil p.killed))
]
  where
    by_run : (r : Run) → (settle_run w e.name r p).killed ≡ p.killed ++ stray (some r)
    by_run r = elim (Bool-cases (terminal r.state)) [
      | inl t ↦ rw t (sym (append-nil p.killed))
      | inr t ↦ rw t
    ]

    by_meta : (m : Meta) → (settle_meta w e.name m p).killed ≡ p.killed ++ stray (read_run e.name m)
    by_meta unreadable = sym (append-nil p.killed)
    by_meta malformed = sym (append-nil p.killed)
    by_meta (holds r) = by_run (adopt e.name r)

settle_all-killed :
    (w : World) (es : List Entry) (p : Progress)
    → (settle_all w es p).killed ≡ p.killed ++ strays es
unfolding settle_all
settle_all-killed w [] p = sym (append-nil p.killed)
settle_all-killed w (e ∷ es) p =
    settle_all-killed w es (settle w e p)
    ∙ ap (λ k. k ++ strays es) (settle-killed w e p)
    ∙ append_assoc p.killed (stray (found_run e)) (strays es)

pub nothing-AllFinal : AllFinal []
unfolding lookup
nothing-AllFinal id r e = cc

-- After a restart with a runs directory that can be read, every run in the store is final. The
-- process ids given to KillTree are exactly those that the readable runs that were not final had
-- recorded, each once, in the order of the directory.
pub recover_lem :
    (w : World) (es : List Entry) (disk : Disk)
    → (p : Progress) × (recover w (listed es) disk ≡ some p)
      × AllFinal p.runs
      × (p.killed ≡ strays es)
unfolding recover
recover_lem w es disk = (
  settle_all w es (fresh disk),
  refl,
  settle_all-AllFinal w es (fresh disk) nothing-AllFinal,
  settle_all-killed w es (fresh disk),
)
