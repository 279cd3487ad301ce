-- ===== src/Results/Scan.antt =====
-- scanArtifacts of server/internal/run/results.go, over the tree of files below the run's output
-- directory. A directory that cannot be read, or that is not there, has no entries.
pub mod Down
pub mod Served
use eagle_condor_sandbox.Prelude.{
  ℕ, Bool, true, false, List, [], ◌∷◌, ◌++◌, Option, none, some, if◌then◌else◌,
}
use eagle_condor_sandbox.Prelude.Text.{Text}
use eagle_condor_sandbox.Prelude.Sort.{sort_by}
use eagle_condor_sandbox.Layout.{
  output, report_json, Relative, relative, no_root, not_relative, outside, rel_to,
}
use eagle_condor_sandbox.Layout.Path.{join}
use eagle_condor_sandbox.Run.{Artifact}
use eagle_condor_sandbox.Results.{is_internal, new_artifact}

-- An entry of a directory: another directory, or something else with the size that d.Info answers.
mutual
  pub data Node : Type 0 where
    leaf : Text → Option ℕ → Node
    folder : Text → Nodes → Node

  pub data Nodes : Type 0 where
    no_nodes : Nodes
    node : Node → Nodes → Nodes

module _ (hash : Text → Text) (cwd : Option Text) (root : Text) where
  abbrev pub artifact_at : Relative → ℕ → List Artifact
  artifact_at (relative r) size = new_artifact hash r size ∷ []
  artifact_at no_root size = []
  artifact_at not_relative size = []
  artifact_at outside size = []

  -- The callback of WalkDir, for what is not a directory.
  unfoldable pub visit : Text → Text → Option ℕ → List Artifact
  unfolding is_internal rel_to new_artifact
  visit path name none = []
  visit path name (some size) =
      if is_internal name then [] else artifact_at (rel_to cwd root path) size

  -- WalkDir below the directory `dir`.
  unfoldable mutual
    unfolding visit join

    pub walk_node : Text → Node → List Artifact
    walk_node dir (leaf name info) = visit (join dir name) name info
    walk_node dir (folder name nodes) = walk_nodes (join dir name) nodes

    pub walk_nodes : Text → Nodes → List Artifact
    walk_nodes dir no_nodes = []
    walk_nodes dir (node n ns) = walk_node dir n ++ walk_nodes dir ns

  abbrev pub report_artifact : Option ℕ → List Artifact
  report_artifact none = []
  report_artifact (some size) = artifact_at (rel_to cwd root (report_json root)) size

  -- scanArtifacts: `report` is the size of the report file, if os.Stat finds it.
  unfoldable pub scan_artifacts : Nodes → Option ℕ → List Artifact
  unfolding walk_nodes output report_json rel_to new_artifact sort_by
  scan_artifacts nodes report =
      sort_by (λ a. a.rel) (walk_nodes (output root) nodes ++ report_artifact report)
