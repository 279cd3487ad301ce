-- ===== src/Examples/Reports.antt =====
-- The theorems of server/internal/run/results.go at concrete inputs.
use eagle_condor_sandbox.Prelude.{[], ◌∷◌, ◌++◌, some, ◌≡◌, refl, arith}
use eagle_condor_sandbox.Prelude.Int.{pos}
use eagle_condor_sandbox.Prelude.Text.{codes}
use eagle_condor_sandbox.Run.{Summary}
use eagle_condor_sandbox.Results.{
  PwTest, suite, no_suites, child, PwReport, separator, read_summary, walk_suites,
}
use eagle_condor_sandbox.Results.Summaries.{titles, all_paths, EachNamed, read_summary_lem}

abbrev flaky_test : PwTest
flaky_test = record {
  status = codes "flaky";
  results =
      record { status = codes "failed"; duration = pos 40; message = codes "no button" }
      ∷ record { status = codes "passed"; duration = pos 30; message = [] }
      ∷ [];
}

abbrev one_spec : PwReport
one_spec = record {
  expected = pos 0;
  unexpected = pos 0;
  skipped = pos 0;
  flaky = pos 1;
  duration = pos 70;
  suites =
      child
        (suite (codes "gis.spec.ts") [] (
          child
            (suite (codes "login") (record { title = codes "works"; tests = flaky_test ∷ [] } ∷ [])
              no_suites)
            no_suites))
        no_suites;
}

read_summary_lem_example :
    (s : Summary) × (read_summary (some one_spec) ≡ some s)
    × (titles s.tests
        ≡ (codes "gis.spec.ts" ++ separator ++ (codes "login" ++ separator ++ codes "works")) ∷ [])
    × (s.total ≡ 1)
unfolding all_paths EachNamed
read_summary_lem_example = read_summary_lem one_spec ((omega arith, ((omega arith, tt), tt)), tt)

passed_at_last :
    walk_suites [] one_spec.suites
    ≡ record {
      title = codes "gis.spec.ts" ++ separator ++ (codes "login" ++ separator ++ codes "works");
      status = codes "passed";
      duration = pos 70;
      error = codes "no button";
    }
      ∷ []
unfolding walk_suites
passed_at_last = refl
