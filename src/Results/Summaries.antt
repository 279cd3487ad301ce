-- ===== src/Results/Summaries.antt =====
-- What readSummary (server/internal/run/results.go) makes of a report.
use mathlib.Core.Path.{ap₂}
use eagle_condor_sandbox.Prelude.{
  false, List, [], ◌∷◌, ◌++◌, append_assoc, some, ◌≡◌, ◌≢◌, refl, sym, ap, ◌∙◌, arith, map, length,
  length-map, ==_iff,
}
use eagle_condor_sandbox.Prelude.Text.{Text, has_prefix, trim_prefix, trim_prefix-append}
use eagle_condor_sandbox.Run.{TestResult, Summary}
use eagle_condor_sandbox.Results.{
  PwResult, PwTest, PwSpec, PwSuite, suite, PwSuites, no_suites, child, PwReport, separator, under,
  take_result, take_results, take_tests, spec_result, walk_suite, walk_suites, read_summary,
}

-- The names on the way to each spec of a report, the outermost first.
unfoldable mutual
  pub paths : List Text → PwSuite → List (List Text)
  paths way (suite title specs children) =
      map (λ (sp : PwSpec). way ++ title ∷ sp.title ∷ []) specs
      ++ all_paths (way ++ title ∷ []) children

  pub all_paths : List Text → PwSuites → List (List Text)
  all_paths way no_suites = []
  all_paths way (child s ss) = paths way s ++ all_paths way ss

-- Names with the separator between each two.
abbrev pub joined : List Text → Text
joined [] = []
joined (x ∷ []) = x
joined (x ∷ y ∷ r) = x ++ separator ++ joined (y ∷ r)

-- A name that is not empty and does not begin with a blank.
abbrev pub Named : Text → Type 0
Named [] = ⊥
Named (c ∷ s) = c ≢ 0x20

-- Every suite of a report has a title of that kind.
unfoldable mutual
  pub AllNamed : PwSuite → Type 0
  AllNamed (suite title specs children) = Named title × EachNamed children

  pub EachNamed : PwSuites → Type 0
  EachNamed no_suites = Unit
  EachNamed (child s ss) = AllNamed s × EachNamed ss

has_prefix-Named : (t : Text) → Named t → has_prefix t separator ≡ false
unfolding has_prefix
has_prefix-Named [] h = absurd h
has_prefix-Named (c ∷ t) h = ground (arith, ==_iff c 0x20)

Named-append : (s t : Text) → Named s → Named (s ++ t)
Named-append [] t h = absurd h
Named-append (c ∷ s) t h = h

under-first : (t : Text) → under [] t ≡ t
unfolding under
under-first t = trim_prefix-append separator t

under-next : (p t : Text) → Named p → under p t ≡ p ++ separator ++ t
unfolding under trim_prefix
under-next p t h = rw (
    has_prefix-Named (p ++ separator ++ t)
      (Named-append (p ++ separator) t (Named-append p separator h)))

joined-more :
    (x : Text) (xs : List Text) (y : Text)
    → joined (x ∷ xs ++ y ∷ []) ≡ joined (x ∷ xs) ++ separator ++ y
joined-more x [] y = refl
joined-more x (z ∷ zs) y = ap (λ t. x ++ separator ++ t) (joined-more z zs y) ∙ simp append_assoc

abbrev WayNamed : List Text → Type 0
WayNamed [] = Unit
WayNamed (x ∷ xs) = Named x

joined-Named : (x : Text) (xs : List Text) → Named x → Named (joined (x ∷ xs))
joined-Named x [] h = h
joined-Named x (y ∷ ys) h =
    Named-append (x ++ separator) (joined (y ∷ ys)) (Named-append x separator h)

under-joined :
    (way : List Text) (t : Text) → WayNamed way → under (joined way) t ≡ joined (way ++ t ∷ [])
under-joined [] t h = under-first t
under-joined (x ∷ xs) t h =
    under-next (joined (x ∷ xs)) t (joined-Named x xs h) ∙ sym (joined-more x xs t)

WayNamed-more : (way : List Text) (t : Text) → WayNamed way → Named t → WayNamed (way ++ t ∷ [])
WayNamed-more [] t h n = n
WayNamed-more (x ∷ xs) t h n = h

take_results-title : (tr : TestResult) (rs : List PwResult) → (take_results tr rs).title ≡ tr.title
unfolding take_results take_result
take_results-title tr [] = refl
take_results-title tr (r ∷ rs) = take_results-title (take_result tr r) rs

take_tests-title : (tr : TestResult) (ts : List PwTest) → (take_tests tr ts).title ≡ tr.title
unfolding take_tests
take_tests-title tr [] = refl
take_tests-title tr (t ∷ ts) =
    take_tests-title (take_results (record tr { status = t.status }) t.results) ts
    ∙ take_results-title (record tr { status = t.status }) t.results

abbrev pub titles : List TestResult → List Text
titles rs = map (λ (r : TestResult). r.title) rs

map_append {ℓ κ} :
    {A : Type ℓ} {B : Type κ} (f : A → B) (xs ys : List A) → map f (xs ++ ys) ≡ map f xs ++ map f ys
map_append f [] ys = refl
map_append f (x ∷ xs) ys = ap (◌∷◌ (f x)) (map_append f xs ys)

specs-titles :
    (way : List Text) (title : Text) (specs : List PwSpec)
    → WayNamed (way ++ title ∷ [])
    → titles (map (spec_result (joined (way ++ title ∷ []))) specs)
      ≡ map joined (map (λ (sp : PwSpec). way ++ title ∷ sp.title ∷ []) specs)
unfolding spec_result
specs-titles way title [] h = refl
specs-titles way title (sp ∷ sps) h =
    ap₂ (◌∷◌)
      (take_tests-title _ sp.tests
        ∙ under-joined (way ++ title ∷ []) sp.title h
        ∙ ap joined (append_assoc way (title ∷ []) (sp.title ∷ [])))
      (specs-titles way title sps h)

mutual
  unfolding walk_suite walk_suites paths all_paths AllNamed EachNamed

  walk_suite-titles :
      (way : List Text) (s : PwSuite)
      → WayNamed way
      → AllNamed s
      → titles (walk_suite (joined way) s) ≡ map joined (paths way s)
  walk_suite-titles way (suite title specs children) w (n, nc) =
      ap (λ t. titles (map (spec_result t) specs ++ walk_suites t children))
        (under-joined way title w)
      ∙ map_append _ (map (spec_result (joined (way ++ title ∷ []))) specs)
          (walk_suites (joined (way ++ title ∷ [])) children)
      ∙ ap₂ (◌++◌) (specs-titles way title specs (WayNamed-more way title w n))
          (walk_suites-titles (way ++ title ∷ []) children (WayNamed-more way title w n) nc)
      ∙ sym (
          map_append joined (map (λ (sp : PwSpec). way ++ title ∷ sp.title ∷ []) specs)
            (all_paths (way ++ title ∷ []) children))

  walk_suites-titles :
      (way : List Text) (ss : PwSuites)
      → WayNamed way
      → EachNamed ss
      → titles (walk_suites (joined way) ss) ≡ map joined (all_paths way ss)
  walk_suites-titles way no_suites w h = refl
  walk_suites-titles way (child s ss) w (h, hs) =
      map_append _ (walk_suite (joined way) s) (walk_suites (joined way) ss)
      ∙ ap₂ (◌++◌) (walk_suite-titles way s w h) (walk_suites-titles way ss w hs)
      ∙ sym (map_append joined (paths way s) (all_paths way ss))

-- A report that can be read, and in which no suite's title is empty or begins with a blank, has
-- one result for each spec of its suites, at any depth, in the order of the report, under the
-- titles on the way to it with the separator between each two; and the total counts them.
pub read_summary_lem :
    (rep : PwReport)
    → EachNamed rep.suites
    → (s : Summary) × (read_summary (some rep) ≡ some s)
      × (titles s.tests ≡ map joined (all_paths [] rep.suites))
      × (s.total ≡ length (all_paths [] rep.suites))
unfolding read_summary
read_summary_lem rep h =
    let e = walk_suites-titles [] rep.suites tt h in
    (
      _,
      refl,
      e,
      sym (length-map (walk_suites [] rep.suites) (λ (r : TestResult). r.title))
          ∙ ap length e
          ∙ length-map (all_paths [] rep.suites) joined,
    )
