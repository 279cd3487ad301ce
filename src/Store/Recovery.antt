-- ===== src/Store/Recovery.antt =====
-- Recover of server/internal/run/store.go: the runs that a previous process left on the disk.
pub mod Adopted
pub mod Kept
pub mod Restart
use eagle_condor_sandbox.Prelude.{
  ℕ, ◌+◌, Bool, true, false, not, List, [], ◌∷◌, ◌++◌, Option, none, some, if◌then◌else◌,
}
use eagle_condor_sandbox.Prelude.Int.{ℤ, pos, ltb_ℤ}
use eagle_condor_sandbox.Prelude.Text.{Text, codes, text_eq}
use eagle_condor_sandbox.Prelude.Assoc.{Assoc, lookup, insert}
use eagle_condor_sandbox.Run.{Run, State, errored, state_text, terminal}
use eagle_condor_sandbox.Store.Persist.{Disk, Faults, PersistError, persist}

-- What os.ReadFile and json.Unmarshal make of an entry's meta.json.
pub data Meta : Type 0 where
  unreadable malformed : Meta
  holds : Run → Meta

pub record Entry : Type 0 where
  pub name : Text
  pub is_dir : Bool
  pub meta : Meta

-- os.ReadDir of the runs directory.
pub data Scan : Type 0 where
  not_exist scan_failed : Scan
  listed : List Entry → Scan

-- What recovery meets: the clock when it reads it for an entry, and the faults of that entry's save.
pub record World : Type 0 where
  pub clock : Text → ℕ
  pub faults : Text → Faults

-- The store, and the process ids given to KillTree, whose result is only logged.
pub record Progress : Type 0 where
  pub runs : Assoc Run
  pub disk : Disk
  pub killed : List ℤ

-- `if r.ID == "" { r.ID = e.Name() }`
unfoldable pub adopt : Text → Run → Run
unfolding text_eq
adopt name r = if text_eq r.id [] then record r { id = name } else r

abbrev ended : Option ℕ → ℕ → Option ℕ
ended none now = some now
ended (some t) now = some t

abbrev pub restarted : Text
restarted = codes "server restarted while this run was "

-- The three assignments to a run that was not final, in the order of the source.
unfoldable pub orphan : ℕ → Run → Run
unfolding state_text
orphan now r =
    let r1 = record r { state = errored } in
    let r2 = record r1 { error = restarted ++ state_text r1.state } in
    record r2 { ended_at = ended r2.ended_at now }

abbrev kills : Run → List ℤ
kills r = if ltb_ℤ (pos 0) r.pid then r.pid ∷ [] else []

-- The body of the loop once the metadata is read.
unfoldable pub settle_run : World → Text → Run → Progress → Progress
unfolding orphan
settle_run w name r p =
    if terminal r.state
    then record p { runs = insert r.id r p.runs }
    else let r' = orphan (w.clock name) r in
      let (disk, e) = persist p.disk (w.faults name) r' in
      record { runs = insert r'.id r' p.runs; disk = disk; killed = p.killed ++ kills r }

abbrev settle_meta : World → Text → Meta → Progress → Progress
settle_meta w name unreadable p = p
settle_meta w name malformed p = p
settle_meta w name (holds r) p = settle_run w name (adopt name r) p

-- One round of the loop.
unfoldable pub settle : World → Entry → Progress → Progress
unfolding settle_run adopt
settle w e p = if e.is_dir then settle_meta w e.name e.meta p else p

unfoldable pub settle_all : World → List Entry → Progress → Progress
unfolding settle
settle_all w [] p = p
settle_all w (e ∷ es) p = settle_all w es (settle w e p)

abbrev pub fresh : Disk → Progress
fresh disk = record { runs = []; disk = disk; killed = [] }

-- Recover, on a store that holds no run yet. `none` is the error of a directory that cannot be read.
unfoldable pub recover : World → Scan → Disk → Option Progress
unfolding settle_all
recover w not_exist disk = some (fresh disk)
recover w scan_failed disk = none
recover w (listed entries) disk = some (settle_all w entries (fresh disk))
