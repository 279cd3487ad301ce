-- ===== src/Store/Persist.antt =====
-- persist of server/internal/run/store.go: meta.json is written to a temporary file, which is then
-- renamed onto it. What the file system does is a script of faults; a crash stops between two steps.
pub mod Atomic
pub mod Retries
use eagle_condor_sandbox.Prelude.{
  ℕ, zero, suc, ◌+◌, Bool, true, false, not, List, [], ◌∷◌, ◌++◌, Option, none, some, if◌then◌else◌,
  map,
}
use eagle_condor_sandbox.Prelude.Text.{Text}
use eagle_condor_sandbox.Prelude.Assoc.{Assoc, lookup, insert, delete}
use eagle_condor_sandbox.Run.{Run, Artifact}

abbrev pub unnamed : Artifact → Artifact
unnamed a = record a { rel = [] }

-- What json.Unmarshal gives back of what json.MarshalIndent wrote: Artifact.Rel is tagged "-", so it
-- is not written. An empty map or list reads back as nil, which the program does not tell apart.
unfoldable pub json_view : Run → Run
json_view r = record r { artifacts = map unnamed r.artifacts }

-- What a file holds.
pub data Content : Type 0 where
  empty partial : Content
  whole : Run → Content

-- `meta` holds, for a run's directory, its meta.json.
pub record Disk : Type 0 where
  pub meta : Assoc Content
  pub temps : Assoc Content

pub data PersistError : Type 0 where
  encode_failed temp_failed write_failed close_failed rename_failed : PersistError

-- What the calls of one persist meet: the name that CreateTemp picks, or which call fails, also that
-- of json.MarshalIndent, and os.Remove, whose error is dropped.
pub record Faults : Type 0 where
  pub temp_name : Text
  pub encode_ok : Bool
  pub create_ok : Bool
  pub write_ok : Bool
  pub close_ok : Bool
  pub rename_ok : ℕ → Bool
  pub remove_ok : Bool

pub data Op : Type 0 where
  create remove : Text → Op
  write : Text → Content → Op
  rename : Text → Text → Op

abbrev moved : Disk → Text → Text → Option Content → Disk
moved d tmp id (some c) = record d { meta = insert id c d.meta; temps = delete tmp d.temps }
moved d tmp id none = d

-- The effect of one successful call on the disk.
unfoldable pub do_op : Disk → Op → Disk
do_op d (create tmp) = record d { temps = insert tmp empty d.temps }
do_op d (write tmp c) = record d { temps = insert tmp c d.temps }
do_op d (rename tmp id) = moved d tmp id (lookup tmp d.temps)
do_op d (remove tmp) = record d { temps = delete tmp d.temps }

unfoldable pub do_ops : Disk → List Op → Disk
unfolding do_op
do_ops d [] = d
do_ops d (o ∷ os) = do_ops (do_op d o) os

-- `for attempt := 0; attempt < 5; attempt++`: whether one of the renames succeeds.
unfoldable pub rename_loop : ℕ → ℕ → (ℕ → Bool) → Bool
rename_loop zero attempt ok = false
rename_loop (suc left) attempt ok =
    let later = rename_loop left (attempt + 1) ok in if ok attempt then true else later

-- The deferred os.Remove. A failure changes nothing.
abbrev pub removal : Faults → List Op
removal f = if f.remove_ok then remove f.temp_name ∷ [] else []

-- What persist does to the disk, the deferred removal last, and its error. A write that is cut short
-- leaves a part of the document, and one that succeeds goes through that.
unfoldable pub persist_ops : Faults → Run → List Op × Option PersistError
unfolding rename_loop json_view
persist_ops f r =
    let opened = create f.temp_name in
    let part = write f.temp_name partial in
    let full = write f.temp_name (whole (json_view r)) in
    let moves = rename f.temp_name r.id in
    let gone = removal f in
    if not f.encode_ok
    then ([], some encode_failed)
    else if not f.create_ok
    then ([], some temp_failed)
    else if not f.write_ok
    then (opened ∷ part ∷ gone, some write_failed)
    else if not f.close_ok
    then (opened ∷ part ∷ full ∷ gone, some close_failed)
    else if rename_loop 5 0 f.rename_ok
    then (opened ∷ part ∷ full ∷ moves ∷ gone, none)
    else (opened ∷ part ∷ full ∷ gone, some rename_failed)

-- persist
unfoldable pub persist : Disk → Faults → Run → Disk × Option PersistError
unfolding persist_ops do_ops
persist d f r = let (ops, e) = persist_ops f r in (do_ops d ops, e)
