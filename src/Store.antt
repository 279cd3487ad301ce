-- ===== src/Store.antt =====
-- server/internal/run/store.go: the runs in memory, and the meta.json that mirrors each on disk.
-- `update_memory` is the part of Update under the lock, and `save` the part after it.
pub mod Persist
pub mod Updates
pub mod Listing
pub mod Recovery
use eagle_condor_sandbox.Prelude.{
  ℕ, zero, suc, ◌+◌, Bool, true, false, ◌&&◌, ◌||◌, not, List, [], ◌∷◌, Option, none, some, ltb,
  if◌then◌else◌, length, take,
}
use eagle_condor_sandbox.Prelude.Int.{ℤ, pos, negsuc, ltb_ℤ}
use eagle_condor_sandbox.Prelude.Text.{Text, text_eq}
use eagle_condor_sandbox.Prelude.Assoc.{Assoc, lookup, insert}
use eagle_condor_sandbox.Run.{Run, State, queued, running, state_text, state_eq}
use Persist.{Disk, Faults, PersistError, persist}

pub record Store : Type 0 where
  pub runs_dir : Text
  pub runs : Assoc Run
  pub disk : Disk

-- NewStore, over what the disk holds.
unfoldable pub new_store : Text → Disk → Store
new_store dir disk = record { runs_dir = dir; runs = []; disk = disk }

-- persist, on the store's disk
unfoldable pub save : Store → Faults → Run → Store × Option PersistError
save s f r = let (disk, e) = persist s.disk f r in (record s { disk = disk }, e)

-- Add
unfoldable pub add : Store → Faults → Run → Store × Option PersistError
unfolding save
add s f r = save (record s { runs = insert r.id r s.runs }) f r

-- Get: a copy of the run.
unfoldable pub get : Store → Text → Option Run
get s id = lookup id s.runs

abbrev changed : Store → Text → (Run → Run) → Option Run → Option (Store × Run)
changed s id mutate none = none
changed s id mutate (some r) = some (record s { runs = insert id (mutate r) s.runs }, mutate r)

-- The first half of Update: `none` is the error "no run".
unfoldable pub update_memory : Store → Text → (Run → Run) → Option (Store × Run)
update_memory s id mutate = changed s id mutate (lookup id s.runs)

pub data Updated : Type 0 where
  saved : Run → Updated
  unsaved : Run → PersistError → Updated
  no_run : Updated

abbrev outcome : Run → Store × Option PersistError → Store × Updated
outcome r (s, none) = (s, saved r)
outcome r (s, some e) = (s, unsaved r e)

abbrev finish_update : Store → Faults → Option (Store × Run) → Store × Updated
finish_update s f none = (s, no_run)
finish_update s f (some (s', r)) = outcome r (save s' f r)

-- Update
unfoldable pub update : Store → Faults → Text → (Run → Run) → Store × Updated
unfolding update_memory save
update s f id mutate = finish_update s f (update_memory s id mutate)

-- The two filters of List: an empty text is none.
unfoldable pub wanted : Text → Text → Run → Bool
unfolding text_eq state_text
wanted state workflow_id r =
    (text_eq state [] || text_eq (state_text r.state) state)
    && (text_eq workflow_id [] || text_eq r.workflow_id workflow_id)

abbrev pub values : Assoc Run → List Run
values [] = []
values ((k, r) ∷ m) = r ∷ values m

unfoldable pub keep : (Run → Bool) → List Run → List Run
keep p [] = []
keep p (r ∷ rs) = let rest = keep p rs in if p r then r ∷ rest else rest

-- sort.Slice by "queued later". Runs of one instant keep the order of the map's iteration, which is
-- arbitrary, as the order that sort.Slice gives them is.
unfoldable pub place : Run → List Run → List Run
place r [] = r ∷ []
place r (x ∷ xs) = if ltb r.queued_at x.queued_at then x ∷ place r xs else r ∷ x ∷ xs

unfoldable pub newest_first : List Run → List Run
unfolding place
newest_first [] = []
newest_first (r ∷ rs) = place r (newest_first rs)

-- `if limit > 0 && len(out) > limit { out = out[:limit] }`
unfoldable pub cap_list : ℤ → List Run → List Run
cap_list (pos zero) rs = rs
cap_list (pos (suc n)) rs = if ltb (suc n) (length rs) then take (suc n) rs else rs
cap_list (negsuc n) rs = rs

-- List
unfoldable pub list : Store → Text → Text → ℤ → List Run
unfolding wanted keep newest_first cap_list
list s state workflow_id limit =
    cap_list limit (newest_first (keep (wanted state workflow_id) (values s.runs)))

abbrev tally : State → List Run → ℕ
tally st [] = 0
tally st (r ∷ rs) = let rest = tally st rs in if state_eq r.state st then suc rest else rest

-- Counts: how many run, and how many wait.
unfoldable pub counts : Store → ℕ × ℕ
unfolding state_eq
counts s = (tally running (values s.runs), tally queued (values s.runs))
