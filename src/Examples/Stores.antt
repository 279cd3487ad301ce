-- ===== src/Examples/Stores.antt =====
-- The theorems of server/internal/run/store.go at concrete inputs.
use mathlib.Core.List.{map}
use eagle_condor_sandbox.Prelude.{List, [], ◌∷◌, some, ◌≡◌, refl, true, false, All, take}
use eagle_condor_sandbox.Prelude.Int.{pos}
use eagle_condor_sandbox.Prelude.Text.{codes, text_eq}
use eagle_condor_sandbox.Prelude.Assoc.{lookup}
use eagle_condor_sandbox.Run.{Run, Artifact, queued, running, succeeded, terminal}
use eagle_condor_sandbox.Store.Persist.{Faults, persist, persist_ops, do_ops}
use eagle_condor_sandbox.Store.Persist.Atomic.{OldOrNew, Tells, persist_crash, persist_lem}
use eagle_condor_sandbox.Store.{Store, list}
use eagle_condor_sandbox.Store.Recovery.{Entry, holds, listed, World, Progress, adopt, recover}
use eagle_condor_sandbox.Store.Recovery.Adopted.{AllFinal, recover_lem}
use eagle_condor_sandbox.Store.Recovery.Restart.{entry_of, restart_forgets_rel}
use eagle_condor_sandbox.Examples.Runs.{run_of, smooth, bare_disk}

abbrev old_run : Run
old_run = run_of (codes "r1") queued 5

abbrev new_run : Run
new_run = run_of (codes "r2") queued 9

abbrev two_runs : Store
two_runs = record {
  runs_dir = codes "/srv/runs";
  runs = (codes "r1", old_run) ∷ (codes "r2", new_run) ∷ [];
  disk = bare_disk;
}

abbrev stuck : Faults
stuck = record smooth { rename_ok = λ n. false }

persist_crash_example :
    OldOrNew bare_disk (do_ops bare_disk (take 2 (persist_ops smooth old_run).0)) old_run
persist_crash_example = persist_crash bare_disk smooth old_run 2

persist_lem_example : Tells bare_disk smooth old_run (persist bare_disk smooth old_run)
unfolding lookup
persist_lem_example = persist_lem bare_disk smooth old_run refl

lists_newest : list two_runs (codes "queued") [] (pos 1) ≡ new_run ∷ []
unfolding list
lists_newest = refl

abbrev left_running : Run
left_running = record (run_of (codes "r3") running 4) { pid = pos 4711 }

abbrev entry : Entry
entry = record { name = codes "r3"; is_dir = true; meta = holds left_running }

abbrev later_entry : Entry
later_entry = record {
  name = codes "r4";
  is_dir = true;
  meta = holds (run_of (codes "r4") succeeded 6);
}

abbrev noon : World
noon = record { clock = λ name. 100; faults = λ name. smooth }

recover_lem_example :
    (p : Progress) × (recover noon (listed (entry ∷ later_entry ∷ [])) bare_disk ≡ some p)
    × AllFinal p.runs
    × (p.killed ≡ pos 4711 ∷ [])
unfolding terminal adopt text_eq
recover_lem_example = recover_lem noon (entry ∷ later_entry ∷ []) bare_disk

restart_forgets_rel_example :
    let d' = (persist bare_disk smooth left_running).0 in
    (p : Progress) × (x : Run) × (recover noon
        (listed (entry_of d' (codes "r3") ∷ later_entry ∷ []))
        d'
      ≡ some p)
    × (lookup (codes "r3") p.runs ≡ some x)
    × (map (λ (a : Artifact). a.id) x.artifacts ≡ codes "ab12" ∷ [])
    × All (λ (a : Artifact). a.rel ≡ []) x.artifacts
unfolding lookup persist text_eq adopt
restart_forgets_rel_example =
    restart_forgets_rel noon bare_disk smooth left_running [] (later_entry ∷ []) refl refl refl
      (refl, tt)
