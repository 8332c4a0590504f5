-- ===== src/Orchestrator/Loop.antt =====
-- The loop over the tests of `run_suite` (src/switchtest/orchestrator.py): which results it collects and
-- the status that it leaves.
use mathlib.Core.List.{append-nil, append_assoc}
use omniswitch_ci_cd.Prelude.{
  String, ◌≡◌, refl, sym, ap, ◌∙◌, ◌⊎◌, inl, inr, Bool, true, false, List, [], ◌∷◌, ◌++◌, arith,
  any, map,
}
use omniswitch_ci_cd.Exec.Triple.{Triple, Triple-pure, Triple-given, Triple-bind}
use omniswitch_ci_cd.Domain.Enums.{SuiteStatus}
use omniswitch_ci_cd.Domain.TestCase.{TestCaseDefinition}
use omniswitch_ci_cd.Domain.Results.{TestResult}
use omniswitch_ci_cd.Domain.Runtime.{DeviceDefinition}
use omniswitch_ci_cd.Execution.Steps.{Services}
use omniswitch_ci_cd.Orchestrator.Services.{SuiteState}
use omniswitch_ci_cd.Orchestrator.Suite.{continue_unless, run_tests}
use omniswitch_ci_cd.Orchestrator.Rounds.{
  last_verdict, is_blamed, Started, Entered, Noted, Ended, enter, test_runs, note_fail_lem,
  note_error_lem, ends_loop_lem, Noted-safe, restore_if_lem,
}

-- How the loop over `tests` ended, behind the results `before`: `more` are the results of a first part
-- of the tests.
pub record Looped {W : Type 0} (fail_fast : Bool) (tests : List TestCaseDefinition)
    (before : List TestResult) (s : SuiteState W) : Type 0 where
  pub more : List TestResult
  pub rest : List String
  pub results : s.results ≡ before ++ more
  pub prefix : map (λ t. t.id) tests ≡ map (λ r. r.test_id) more ++ rest
  pub status :
      (s.status ≡ last_verdict SuiteStatus.pass (before ++ more)) × (fail_fast ≡ false → rest ≡ [])
      ⊎ (s.status ≡ SuiteStatus.error) × (any is_blamed more ≡ true)

module _ {W : Type 0} (services : Services W) (device : DeviceDefinition)
    (dry_run fail_fast : Bool) where
  stopped :
      (testcase : TestCaseDefinition) (tests : List TestCaseDefinition) (before : List TestResult)
      (r : TestResult) (s : SuiteState W)
      → r.test_id ≡ testcase.id
      → Ended before r fail_fast true s
      → Looped fail_fast (testcase ∷ tests) before s
  stopped testcase tests before r s id h = record {
    more = r ∷ [];
    rest = map (λ t. t.id) tests;
    results = h.results;
    prefix = ap (λ i. i ∷ map (λ t. t.id) tests) (sym id);
    status = ends h.status;
  }
    where
      ends :
          (s.status ≡ last_verdict SuiteStatus.pass (before ++ r ∷ []))
              × (fail_fast ≡ false → true ≡ false)
            ⊎ (s.status ≡ SuiteStatus.error) × (is_blamed r ≡ true) × (true ≡ true)
          → (s.status ≡ last_verdict SuiteStatus.pass (before ++ r ∷ []))
              × (fail_fast ≡ false → map (λ t. t.id) tests ≡ [])
            ⊎ (s.status ≡ SuiteStatus.error) × (any is_blamed (r ∷ []) ≡ true)
      ends (inl k) = inl (k.0, λ f. cc (k.1 f))
      ends (inr k) = inr (k.0, ground arith)

  goes_on :
      (testcase : TestCaseDefinition) (tests : List TestCaseDefinition) (before : List TestResult)
      (r : TestResult) (s : SuiteState W)
      → r.test_id ≡ testcase.id
      → Looped fail_fast tests (before ++ r ∷ []) s
      → Looped fail_fast (testcase ∷ tests) before s
  goes_on testcase tests before r s id h = record {
    more = r ∷ h.more;
    rest = h.rest;
    results = h.results ∙ append_assoc before (r ∷ []) h.more;
    prefix = λ i. sym id i ∷ h.prefix i;
    status = ends h.status;
  }
    where
      ends :
          (s.status ≡ last_verdict SuiteStatus.pass ((before ++ r ∷ []) ++ h.more))
              × (fail_fast ≡ false → h.rest ≡ [])
            ⊎ (s.status ≡ SuiteStatus.error) × (any is_blamed h.more ≡ true)
          → (s.status ≡ last_verdict SuiteStatus.pass (before ++ r ∷ h.more))
              × (fail_fast ≡ false → h.rest ≡ [])
            ⊎ (s.status ≡ SuiteStatus.error) × (any is_blamed (r ∷ h.more) ≡ true)
      ends (inl k) =
          inl (k.0 ∙ ap (last_verdict SuiteStatus.pass) (append_assoc before (r ∷ []) h.more), k.1)
      ends (inr k) = inr (k.0, ground arith)

  start_next :
      (before : List TestResult) (r : TestResult) (s : SuiteState W)
      → Ended before r fail_fast false s
      → Started (before ++ r ∷ []) s
  start_next before r s h = record { results = h.results; status = from h.status }
    where
      from :
          (s.status ≡ last_verdict SuiteStatus.pass (before ++ r ∷ []))
              × (fail_fast ≡ false → false ≡ false)
            ⊎ (s.status ≡ SuiteStatus.error) × (is_blamed r ≡ true) × (false ≡ true)
          → s.status ≡ last_verdict SuiteStatus.pass (before ++ r ∷ [])
      from (inl k) = k.0
      from (inr k) = cc (k.2)

  continue_lem :
      (testcase : TestCaseDefinition) (tests : List TestCaseDefinition) (before : List TestResult)
      → ((before : List TestResult)
          → Triple
              (Started before)
              (run_tests services device dry_run fail_fast tests)
              (λ _. Looped fail_fast tests before))
      → (stop : Bool) (r : TestResult) → r.test_id ≡ testcase.id
      → Triple
          (Ended before r fail_fast stop)
          (continue_unless services device dry_run fail_fast stop
            (run_tests services device dry_run fail_fast tests))
          (λ _. Looped fail_fast (testcase ∷ tests) before)
  continue_lem testcase tests before ih true r id =
      Triple-pure tt (λ s h. stopped testcase tests before r s id h)
  continue_lem testcase tests before ih false r id = record {
    at = λ s h a e.
        goes_on testcase tests before r _ id
          ((ih (before ++ r ∷ [])).at s (start_next before r s h) a e);
  }

  pub run_tests_lem :
      (tests : List TestCaseDefinition) (before : List TestResult)
      → Triple
          (Started before)
          (run_tests services device dry_run fail_fast tests)
          (λ _. Looped fail_fast tests before)
  unfolding run_tests
  run_tests_lem [] before = Triple-pure tt λ s h. record {
    more = [];
    rest = [];
    results = h.results ∙ sym (append-nil before);
    prefix = refl;
    status =
        inl (h.status ∙ ap (last_verdict SuiteStatus.pass) (sym (append-nil before)), λ _. refl);
  }
  run_tests_lem (testcase ∷ tests) before =
      Triple-bind _ _ (test_runs services testcase before) λ r.
        Triple-bind {R = λ _ s. (r.test_id ≡ testcase.id) × Entered before r s} _ _
          (record { at = λ s h a e. (h.id, (enter testcase before r).at s h a e) })
          λ _. Triple-given _ λ id. Triple-bind _ _ (note_fail_lem before r r.status) λ _.
            Triple-bind _ _ (note_error_lem before r services.driver device dry_run r.status refl)
              λ _.
                Triple-bind _ _
                  (restore_if_lem services.driver device (Noted before r) (Noted-safe before r)
                    dry_run testcase.restore_baseline_after)
                  λ _.
                    Triple-bind _ _ (ends_loop_lem before r fail_fast r.status)
                      λ stop. continue_lem testcase tests before (run_tests_lem tests) stop r id
