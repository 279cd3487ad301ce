-- ===== src/Examples/Drains.antt =====
-- The theorems of Stop, the workers' loop and scanArtifacts (server/internal/run) at concrete inputs.
use eagle_condor_sandbox.Prelude.{ℕ, true, [], ◌∷◌, none, some, ◌≡◌, refl, arith, All}
use eagle_condor_sandbox.Prelude.Text.{Text, codes, text_eq}
use eagle_condor_sandbox.Prelude.Sort.{Sorted}
use eagle_condor_sandbox.Prelude.Assoc.{lookup}
use eagle_condor_sandbox.Layout.Path.{join, is_abs}
use eagle_condor_sandbox.Layout.Components.{Proper}
use eagle_condor_sandbox.Run.{Artifact, terminal}
use eagle_condor_sandbox.Store.{get}
use eagle_condor_sandbox.Queue.Defs.{stop}
use eagle_condor_sandbox.Queue.Loop.{Round}
use eagle_condor_sandbox.Queue.Drain.{IsDrained, drain_lem}
use eagle_condor_sandbox.Results.Scan.{leaf, no_nodes, node, Nodes, folder, scan_artifacts}
use eagle_condor_sandbox.Results.Scan.Down.{Named, NodeNamed}
use eagle_condor_sandbox.Results.Scan.Served.{IsServed, scan_artifacts-IsServed}
use eagle_condor_sandbox.Examples.Queues.{queued_up, one_job, round, waiting}

abbrev every_round : ℕ → Round
every_round n = round

drain_lem_example : IsDrained (stop queued_up) (0 ∷ []) every_round 0
unfolding get terminal stop lookup
drain_lem_example =
    drain_lem every_round (λ n. refl) (stop queued_up) (0 ∷ []) 0 refl refl
      ((codes "r1", ((one_job, refl, refl), waiting, refl)), tt)

abbrev found_files : Nodes
found_files =
    node (folder (codes "logs") (node (leaf (codes "trace.zip") (some 812)) no_nodes)) no_nodes

logs-Proper : Proper (codes "logs")
logs-Proper = unfold text_eq in record { plain = (omega arith); named = refl; down = refl }

zip-Proper : Proper (codes "trace.zip")
zip-Proper = unfold text_eq in record { plain = (omega arith); named = refl; down = refl }

run-Proper : Proper (codes "r1")
run-Proper = unfold text_eq in record { plain = (omega arith); named = refl; down = refl }

rooted : is_abs (codes "/srv/runs") ≡ true
unfolding is_abs
rooted = refl

abbrev same : Text → Text
same t = t

scan_artifacts-IsServed_example :
    let arts = scan_artifacts same none (codes "/srv/runs/r1") found_files (some 90) in
    All
      (IsServed same none
        (codes "/srv/runs")
        (codes "r1")
        rooted
        tt
        run-Proper
        found_files
        (some 90))
      arts
    × Sorted (λ (a : Artifact). a.rel) arts
unfolding join Named NodeNamed
scan_artifacts-IsServed_example =
    scan_artifacts-IsServed same none (codes "/srv/runs") (codes "r1") rooted tt run-Proper
      found_files (some 90) ((logs-Proper, (zip-Proper, tt)), tt)
