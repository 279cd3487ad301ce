-- ===== src/Results.antt =====
-- server/internal/run/results.go: the summary of a report, and what an artifact is taken for. A
-- duration is the reporter's, already rounded; `hash` is the hex text of the first bytes of sha1.
pub mod Summaries
pub mod Artifacts
pub mod Scan
use eagle_condor_sandbox.Prelude.{
  ℕ, suc, ◌+◌, Bool, true, false, ◌&&◌, ◌||◌, not, List, [], ◌∷◌, ◌++◌, Option, none, some, ◌==◌,
  if◌then◌else◌, map, length, ◌≡◌, refl,
}
use eagle_condor_sandbox.Prelude.Int.{ℤ, pos, add64}
use eagle_condor_sandbox.Prelude.Text.{Text, codes, text_eq, has_prefix, has_suffix, trim_prefix}
use eagle_condor_sandbox.Layout.Path.{base, dir}
use eagle_condor_sandbox.Run.{
  Artifact, Kind, output_json, policy_csv, trace, inputs, screenshot, video, other_kind, TestResult,
  Summary,
}

pub record PwResult : Type 0 where
  pub status : Text
  pub duration : ℤ
  pub message : Text

pub record PwTest : Type 0 where
  pub status : Text
  pub results : List PwResult

pub record PwSpec : Type 0 where
  pub title : Text
  pub tests : List PwTest

mutual
  pub data PwSuite : Type 0 where
    suite : Text → List PwSpec → PwSuites → PwSuite

  pub data PwSuites : Type 0 where
    no_suites : PwSuites
    child : PwSuite → PwSuites → PwSuites

pub record PwReport : Type 0 where
  pub expected : ℤ
  pub unexpected : ℤ
  pub skipped : ℤ
  pub flaky : ℤ
  pub duration : ℤ
  pub suites : PwSuites

-- " › ", in UTF-8
abbrev pub separator : Text
separator = 0x20 ∷ 0xe2 ∷ 0x80 ∷ 0xba ∷ 0x20 ∷ []

unfoldable pub under : Text → Text → Text
unfolding trim_prefix
under prefix title = trim_prefix (prefix ++ separator ++ title) separator

-- The loop over a test's results.
unfoldable pub take_result : TestResult → PwResult → TestResult
unfolding text_eq add64
take_result tr r = record tr {
  duration = add64 tr.duration r.duration;
  error = if not (text_eq r.message []) && text_eq tr.error [] then r.message else tr.error;
  status = if text_eq r.status [] then tr.status else r.status;
}

unfoldable pub take_results : TestResult → List PwResult → TestResult
unfolding take_result
take_results tr [] = tr
take_results tr (r ∷ rs) = take_results (take_result tr r) rs

-- The loop over a spec's tests.
unfoldable pub take_tests : TestResult → List PwTest → TestResult
unfolding take_results
take_tests tr [] = tr
take_tests tr (t ∷ ts) = take_tests (take_results (record tr { status = t.status }) t.results) ts

unfoldable pub spec_result : Text → PwSpec → TestResult
unfolding under take_tests
spec_result title sp =
    take_tests (record { title = under title sp.title; status = []; duration = pos 0; error = [] })
      sp.tests

unfoldable mutual
  unfolding spec_result under

  pub walk_suite : Text → PwSuite → List TestResult
  walk_suite prefix (suite title specs children) =
      map (spec_result (under prefix title)) specs ++ walk_suites (under prefix title) children

  pub walk_suites : Text → PwSuites → List TestResult
  walk_suites prefix no_suites = []
  walk_suites prefix (child s ss) = walk_suite prefix s ++ walk_suites prefix ss

-- readSummary, of what could be read and decoded.
unfoldable pub read_summary : Option PwReport → Option Summary
unfolding walk_suites
read_summary none = none
read_summary (some rep) = some (record {
  total = length (walk_suites [] rep.suites);
  passed = rep.expected;
  failed = rep.unexpected;
  skipped = rep.skipped;
  flaky = rep.flaky;
  duration = rep.duration;
  tests = walk_suites [] rep.suites;
})

-- isInternal
unfoldable pub is_internal : Text → Bool
unfolding text_eq has_prefix
is_internal name = text_eq name (codes ".last-run.json") || has_prefix name (codes ".playwright")

abbrev pub is_trace : Text → Bool
is_trace name = has_prefix name (codes "trace") && has_suffix name (codes ".zip")

-- The switch of newArtifact: the kind, and whether it is sensitive.
unfoldable pub classify : Text → Kind × Bool
unfolding text_eq has_prefix has_suffix
classify name =
    if text_eq name (codes "output.json")
    then (output_json, false)
    else if text_eq name (codes "policyViolations.csv")
    then (policy_csv, false)
    else if text_eq name (codes "inputs.json")
    then (inputs, false)
    else if text_eq name (codes "report.json")
    then (other_kind, false)
    else if is_trace name
    then (trace, true)
    else if has_suffix name (codes ".png") || has_suffix name (codes ".jpg")
    then (screenshot, false)
    else if has_suffix name (codes ".webm")
    then (video, false)
    else (other_kind, false)

abbrev title_of : Text → Text
title_of d = if text_eq d (codes ".") || text_eq d (codes "output") then [] else base d

-- newArtifact
unfoldable pub new_artifact : (Text → Text) → Text → ℕ → Artifact
unfolding base classify dir text_eq
new_artifact hash rel size = record {
  id = hash rel;
  kind = (classify (base rel)).0;
  name = base rel;
  test_title = title_of (dir rel);
  size = size;
  sensitive = (classify (base rel)).1;
  rel = rel;
}

titled : (new_artifact (λ s. s) (codes "output/logs-in/trace.zip") 812).test_title ≡ codes "logs-in"
unfolding new_artifact
titled = refl
