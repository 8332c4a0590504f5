-- ===== src/Orchestrator/Status.antt =====
-- What `run_suite` (src/switchtest/orchestrator.py) reports, if it returns.
use mathlib.Core.Path.{subst}
use omniswitch_ci_cd.Prelude.{
  String, ◌≡◌, refl, sym, ap, ◌∙◌, ◌⊎◌, Bool, true, false, List, [], ◌++◌, any, map,
}
use omniswitch_ci_cd.Exec.{Exec, Result, ok, raised, pure, ◌>>=◌}
use omniswitch_ci_cd.Exec.Laws.{Keeps, keeps_rules}
use omniswitch_ci_cd.Exec.Triple.{
  Triple, Triple-pure, Triple-if, Triple-Keeps, Triple-try_finally, Triple-bind, Triple-after,
  Anything,
}
use omniswitch_ci_cd.Domain.Enums.{SuiteStatus, safe}
use omniswitch_ci_cd.Domain.TestCase.{TestCaseDefinition, SuiteDefinition}
use omniswitch_ci_cd.Domain.Results.{Time, SuiteResult}
use omniswitch_ci_cd.Domain.Runtime.{RuntimeContext, DeviceDefinition}
use omniswitch_ci_cd.Driver.{Metadata, BaseSwitchDriver}
use omniswitch_ci_cd.Execution.Steps.{Services}
use omniswitch_ci_cd.Orchestrator.Services.{SuiteState, outside}
use omniswitch_ci_cd.Orchestrator.Suite.{
  Platform, filter_tests_by_tags, set_metadata, open_session, try_suite, guarded_suite,
  suite_services, suite_result, first_state, run_guarded, run_suite, state_of, now, write_reports,
}
use omniswitch_ci_cd.Orchestrator.Rounds.{last_verdict, is_blamed, Started, restore_if_lem}
use omniswitch_ci_cd.Orchestrator.Loop.{Looped, run_tests_lem}

-- The results are those of a first part of the selected tests, in their order. The status is that of the
-- last result that is a failure or an error, and without `fail_fast` no test is left out then; or the
-- status is an error because a test erred or its cleanup failed.
pub record IsSuiteReport (context : RuntimeContext) (tests : List TestCaseDefinition)
    (result : SuiteResult) : Type 0 where
  pub rest : List String
  pub prefix :
      map (λ t. t.id) (filter_tests_by_tags tests context.selected_tags)
      ≡ map (λ r. r.test_id) result.tests ++ rest
  pub status :
      (result.status ≡ last_verdict SuiteStatus.pass result.tests)
        × (context.fail_fast ≡ false → rest ≡ [])
      ⊎ (result.status ≡ SuiteStatus.error) × (any is_blamed result.tests ≡ true)

module _ {W : Type 0} (services : Services W) (device : DeviceDefinition) (dry_run fail_fast : Bool)
    (tests : List TestCaseDefinition) where
  Keeps-outside : {A : Type 0} (m : Exec W A) → Keeps (Started []) (outside m)
  unfolding outside
  Keeps-outside m = record { at = λ s h. record { results = h.results; status = h.status } }

  Keeps-set_metadata : (m : Metadata) → Keeps (Started {W = W} []) (set_metadata m)
  unfolding set_metadata
  Keeps-set_metadata m = record { at = λ s h. record { results = h.results; status = h.status } }

  open_session-Keeps : Keeps (Started []) (open_session services device dry_run fail_fast)
  unfolding open_session
  open_session-Keeps = search (keeps_rules, Keeps-outside, Keeps-set_metadata)

  Looped-safe :
      (s : SuiteState W) (w : W)
      → Looped fail_fast tests [] s
      → Looped fail_fast tests []
          (record s { world = w; context = record s.context { device_state = safe } })
  Looped-safe s w h = record {
    more = h.more;
    rest = h.rest;
    results = h.results;
    prefix = h.prefix;
    status = h.status;
  }

  try_suite_lem :
      Triple
        (Started [])
        (try_suite services device dry_run fail_fast tests)
        (λ _. Looped fail_fast tests [])
  unfolding try_suite
  try_suite_lem = Triple-bind _ _ (Triple-Keeps _ open_session-Keeps (λ _ s h. h)) λ _.
      Triple-bind _ _ (run_tests_lem services device dry_run fail_fast tests []) λ _.
        restore_if_lem services.driver device (Looped fail_fast tests []) Looped-safe dry_run true

  guarded_suite_lem :
      Triple
        (Started [])
        (guarded_suite services device dry_run fail_fast tests)
        (λ _. Looped fail_fast tests [])
  unfolding guarded_suite outside
  guarded_suite_lem = Triple-try_finally _ _ try_suite_lem λ _.
      Triple-if dry_run _ _ (λ _. Triple-pure tt (λ s h. h))
        (λ _. record { at = λ s h a e. same s _ h })
    where
      same :
          (s : SuiteState W) (w : W)
          → Looped fail_fast tests [] s
          → Looped fail_fast tests [] (record s { world = w })
      same s w h = record {
        more = h.more;
        rest = h.rest;
        results = h.results;
        prefix = h.prefix;
        status = h.status;
      }

module _ {W : Type 0} (platform : Platform W) (context : RuntimeContext) (device : DeviceDefinition)
    (suite : SuiteDefinition) (tests : List TestCaseDefinition) where
  abbrev chosen : List TestCaseDefinition
  chosen = filter_tests_by_tags tests context.selected_tags

  run_guarded_lem :
      (driver : BaseSwitchDriver W)
      → Triple Anything
          (run_guarded platform context device chosen driver)
          (λ s _. Looped context.fail_fast chosen [] s)
  unfolding run_guarded
  run_guarded_lem driver = record {
    at = λ w h s e.
        let start = first_state platform context w in
        let services = suite_services platform driver in
        let (r, t) = guarded_suite services device context.dry_run context.fail_fast chosen start in
        by_result r t s
          (unfold last_verdict in
            (guarded_suite_lem services device context.dry_run context.fail_fast chosen).at start
              (record { results = refl; status = refl }))
          e;
  }
    where
      by_result :
          (r : Result (Unit {0})) (t s : SuiteState W)
          → ((a : Unit) → r ≡ ok a → Looped context.fail_fast chosen [] t)
          → state_of platform r t ≡ ok s
          → Looped context.fail_fast chosen [] s
      by_result (ok a) t s h e = subst (Looped context.fail_fast chosen []) (cc e) (h a refl)
      by_result (raised x) t s h e = cc e

  report_of :
      (started ended : Time) (s : SuiteState W)
      → Looped context.fail_fast chosen [] s
      → IsSuiteReport context tests (suite_result platform device suite started ended s)
  report_of started ended s h = record {
    rest = h.rest;
    prefix = h.prefix ∙ ap (λ l. map (λ r. r.test_id) l ++ h.rest) (sym h.results);
    status = rw h.results h.status;
  }

  run_suite_lem :
      Triple Anything
        (run_suite platform context device suite tests)
        (λ result _. IsSuiteReport context tests result)
  unfolding run_suite
  run_suite_lem = Triple-after _ _ λ started. Triple-after _ _ λ _. Triple-after _ _ λ driver.
      Triple-bind _ _ (run_guarded_lem driver)
        λ final. record { at = λ w h result e. (finishes started final h).at w tt result e }
    where
      finishes :
          (started : Time) (final : SuiteState W)
          → Looped context.fail_fast chosen [] final
          → Triple Anything
              (now platform >>= λ ended.
                write_reports platform context
                  (suite_result platform device suite started ended final)
                >>= λ _. pure (suite_result platform device suite started ended final))
              (λ result _. IsSuiteReport context tests result)
      finishes started final h =
          Triple-after _ _
            λ ended. Triple-after _ _ λ _. Triple-pure _ (λ _ _. report_of started ended final h)

  -- The report of a suite that returns: its results are those of a first part of the selected tests, in
  -- their order. Either its status is that of the last failure or error among them (a pass if there is
  -- none), and without `fail_fast` every selected test has its result, or its status is an error and
  -- some test erred or had a cleanup that failed.
  pub run_suite-IsSuiteReport :
      (w : W) (result : SuiteResult)
      → (run_suite platform context device suite tests w).0 ≡ ok result
      → IsSuiteReport context tests result
  run_suite-IsSuiteReport w result returned = run_suite_lem.at w tt result returned
