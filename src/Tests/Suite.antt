-- ===== src/Tests/Suite.antt =====
-- Suites of the bench.
use omniswitch_ci_cd.Prelude.{◌≡◌, refl, false, none, some, [], ◌∷◌}
use omniswitch_ci_cd.Exec.{ok, ◌>>=◌}
use omniswitch_ci_cd.Domain.Enums.{SuiteStatus, safe}
use omniswitch_ci_cd.Domain.Results.{SuiteResult, pos}
use omniswitch_ci_cd.Prelude.Text.{show}
use omniswitch_ci_cd.Domain.Enums.{status_value}
use omniswitch_ci_cd.Validation.Probes.{run_show_of}
use omniswitch_ci_cd.Validation.Checks.{validate_contains, validate_ping}
use omniswitch_ci_cd.Validation.Service.{run_validation}
use omniswitch_ci_cd.Execution.Steps.{
  run_steps, run_actions, run_action, extend_log, check_safe, on_world, set_device_state,
  set_status,
}
use omniswitch_ci_cd.Execution.RunTest.{
  run_test, guarded_test, try_cleanup, try_test, validate, perform, append_result, cleanup_done,
}
use omniswitch_ci_cd.Orchestrator.Services.{outside, collect, verify_baseline, restore, mark_device}
use omniswitch_ci_cd.Orchestrator.Suite.{
  now, make_driver, run_guarded, guarded_suite, try_suite, open_session, set_metadata, run_tests,
  within, append_test, restore_if, device_unsafe, ends_loop, write_reports, filter_tests_by_tags,
  run_suite,
}
use omniswitch_ci_cd.Orchestrator.Status.{IsSuiteReport, run_suite-IsSuiteReport}
use omniswitch_ci_cd.Orchestrator.Disconnect.{IsOffline, run_suite-disconnects}
use omniswitch_ci_cd.Reporting.Junit.{IsConsistent, junit_report, junit_report-IsConsistent}
use omniswitch_ci_cd.Tests.Bench.{Bench, bench, platform, context, device, suite, testcase}
use omniswitch_ci_cd.Tests.Execution.{report}

abbrev Offline : Bench → Type 0
Offline w = w.online ≡ false

offline : IsOffline platform device Offline
offline = record {
  disconnects = λ w. refl;
  utcnow_keeps = λ w h. h;
  directory_keeps = λ path. record { at = λ w h. h };
  json_keeps = λ path r. record { at = λ w h. h };
  junit_keeps = λ path r. record { at = λ w h. h };
  summary_keeps = λ path r. record { at = λ w h. h };
}

run_suite-disconnects_example :
    Offline (run_suite platform (context false safe) device suite (testcase ∷ []) bench).1
run_suite-disconnects_example =
    run_suite-disconnects platform device Offline offline (context false safe) suite (testcase ∷ [])
      bench refl refl

abbrev suite_report : SuiteResult
suite_report = record {
  suite_name = "security";
  device_name = "admin";
  platform = "aos";
  firmware_version = some "8.9";
  device_model = none;
  started_at = 100;
  ended_at = 105;
  duration = pos 5;
  status = SuiteStatus.pass;
  tests = record report { started_at = 101; ended_at = 104 } ∷ [];
}

suite_report_lem :
    (run_suite platform (context false safe) device suite (testcase ∷ []) bench).0 ≡ ok suite_report
unfolding run_suite now make_driver run_guarded guarded_suite try_suite open_session outside collect
    verify_baseline set_metadata run_tests within append_test restore_if device_unsafe restore
    mark_device ends_loop write_reports filter_tests_by_tags run_test guarded_test try_cleanup
    try_test run_steps run_actions run_action extend_log check_safe on_world set_device_state
    validate perform run_validation validate_contains run_show_of validate_ping append_result
    cleanup_done set_status ◌>>=◌ status_value show
suite_report_lem = refl

run_suite-IsSuiteReport_example : IsSuiteReport (context false safe) (testcase ∷ []) suite_report
run_suite-IsSuiteReport_example =
    run_suite-IsSuiteReport platform (context false safe) device suite (testcase ∷ []) bench
      suite_report suite_report_lem

junit_report-IsConsistent_example : IsConsistent (junit_report (λ duration. "5.000") suite_report)
junit_report-IsConsistent_example = junit_report-IsConsistent (λ duration. "5.000") suite_report
