-- ===== src/Store/Updates.antt =====
-- What Update of server/internal/run/store.go does to the runs in memory and on disk.
use mathlib.Core.Option
use eagle_condor_sandbox.Prelude.{
  false, Option, none, some, ◌≡◌, refl, sym, ap, ◌∙◌, Bool-cases, Option-cases, inl, inr,
  if◌then◌else◌,
}
use eagle_condor_sandbox.Prelude.Text.{Text, text_eq, text_eq_iff, text_eq_refl}
use eagle_condor_sandbox.Prelude.Assoc.{lookup, insert, lookup-insert}
use eagle_condor_sandbox.Run.{Run}
use eagle_condor_sandbox.Store.Persist.{Faults, PersistError}
use eagle_condor_sandbox.Store.{Store, Updated, no_run, save, get, update, outcome}

save-runs : (s : Store) (f : Faults) (r : Run) → (save s f r).0.runs ≡ s.runs
unfolding save
save-runs s f r = refl

outcome-runs : (r : Run) (p : Store × Option PersistError) → (outcome r p).0 ≡ p.0
outcome-runs r (s, none) = refl
outcome-runs r (s, some e) = refl

update_missing :
    (s : Store) (f : Faults) (id : Text) (mutate : Run → Run)
    → lookup id s.runs ≡ none
    → update s f id mutate ≡ (s, no_run)
unfolding update
update_missing s f id mutate e = rw e

update_found :
    (s : Store) (f : Faults) (id : Text) (mutate : Run → Run) (r : Run)
    → lookup id s.runs ≡ some r
    → (update s f id mutate).0.runs ≡ insert id (mutate r) s.runs
unfolding update
update_found s f id mutate r e = rw e (ap (λ (x : Store). x.runs) (outcome-runs (mutate r) _))

-- Update changes the run of its id and no other, in memory at once, whether or not the change could
-- be written to disk.
pub get-update :
    (s : Store) (f : Faults) (id j : Text) (mutate : Run → Run)
    → get (update s f id mutate).0 j
      ≡ (if text_eq id j then Option.map mutate (get s j) else get s j)
unfolding get
get-update s f id j mutate = elim (Option-cases (lookup id s.runs)) [
  | inl e ↦
      ap (λ (p : Store × Updated). lookup j p.0.runs) (update_missing s f id mutate e) ∙ absent e
  | inr (r, e) ↦
      ap (lookup j) (update_found s f id mutate r e)
      ∙ lookup-insert id j (mutate r) s.runs
      ∙ present r e
]
  where
    absent :
        lookup id s.runs ≡ none
        → lookup j s.runs
          ≡ (if text_eq id j then Option.map mutate (lookup j s.runs) else lookup j s.runs)
    absent e = elim (Bool-cases (text_eq id j)) [
      | inl q ↦ rw (q, sym (ap (λ k. lookup k s.runs) ((text_eq_iff id j).0 q)) ∙ e)
      | inr q ↦ rw q
    ]

    present :
        (r : Run)
        → lookup id s.runs ≡ some r
        → (if text_eq id j then some (mutate r) else lookup j s.runs)
          ≡ (if text_eq id j then Option.map mutate (lookup j s.runs) else lookup j s.runs)
    present r e = elim (Bool-cases (text_eq id j)) [
      | inl q ↦ rw (q, sym (ap (λ k. lookup k s.runs) ((text_eq_iff id j).0 q)) ∙ e)
      | inr q ↦ rw q
    ]

pub get-update_self :
    (s : Store) (f : Faults) (id : Text) (mutate : Run → Run) (r : Run)
    → get s id ≡ some r
    → get (update s f id mutate).0 id ≡ some (mutate r)
get-update_self s f id mutate r e = get-update s f id id mutate ∙ rw (text_eq_refl id, e)

pub get-update_other :
    (s : Store) (f : Faults) (id j : Text) (mutate : Run → Run)
    → text_eq id j ≡ false
    → get (update s f id mutate).0 j ≡ get s j
get-update_other s f id j mutate e = get-update s f id j mutate ∙ rw e
