-- ===== src/Tests/Execution.antt =====
-- Runs of the bench's testcase.
use omniswitch_ci_cd.Prelude.{◌≡◌, refl, true, false, none, some, [], ◌∷◌}
use omniswitch_ci_cd.Exec.{ok}
use omniswitch_ci_cd.Domain.Enums.{pass, error, safe, unsafe}
use omniswitch_ci_cd.Domain.Results.{TestResult, passed, failed, pos}
use omniswitch_ci_cd.Exec.{◌>>=◌}
use omniswitch_ci_cd.Prelude.Text.{show}
use omniswitch_ci_cd.Domain.Enums.{status_value}
use omniswitch_ci_cd.Validation.Probes.{run_show_of}
use omniswitch_ci_cd.Validation.Checks.{validate_contains, validate_ping}
use omniswitch_ci_cd.Validation.Service.{run_validation}
use omniswitch_ci_cd.Execution.Steps.{
  Services, run_steps, run_actions, run_action, extend_log, check_safe, on_world, set_device_state,
  set_status,
}
use omniswitch_ci_cd.Execution.RunTest.{
  test_failed, cleanup_failed, skipped_result, run_test, guarded_test, try_cleanup, try_test,
  validate, perform, append_result, cleanup_done,
}
use omniswitch_ci_cd.Execution.Outcome.{
  run_test_returns, run_test-device_state, run_test-status, run_test-pass, run_test_unsafe,
  DeviceLaw, StatusLaw, CleanPass, Untested,
}
use omniswitch_ci_cd.Execution.DryRun.{IsHarmless, run_test_dry_run}
use omniswitch_ci_cd.Tests.Bench.{Bench, services, testcase, run}

abbrev pub report : TestResult
report = record {
  test_id = "SEC-1";
  test_name = "lockout";
  status = pass;
  started_at = 100;
  ended_at = 103;
  duration = pos 3;
  validation_results =
      record {
        name = "check";
        status = pass;
        observed = some "Total locked users: 0";
        expected = some "locked users: 0";
        message = none;
      }
      ∷ record {
        name = "check";
        status = pass;
        observed = some "reply";
        expected = some "192.168.1.1";
        message = none;
      }
      ∷ [];
  command_log =
      "CLI user policy" ∷ "VALIDATE check: pass" ∷ "VALIDATE check: pass" ∷ "WAIT 2s" ∷ [];
  error_message = none;
  cleanup_status = passed;
}

report_lem : (run_test services testcase (run false safe)).0 ≡ ok report
unfolding run_test guarded_test try_cleanup try_test run_steps run_actions run_action extend_log
    check_safe on_world set_device_state validate perform run_validation validate_contains
    run_show_of validate_ping append_result cleanup_done set_status ◌>>=◌ status_value show
report_lem = refl

run_test_returns_example :
    (result : TestResult) × ((run_test services testcase (run false safe)).0 ≡ ok result)
run_test_returns_example = run_test_returns services testcase (run false safe)

run_test-device_state_example :
    DeviceLaw report (run_test services testcase (run false safe)).1.context.device_state
run_test-device_state_example =
    run_test-device_state services testcase (run false safe) report report_lem

run_test-status_example : StatusLaw report
run_test-status_example = run_test-status services testcase (run false safe) report report_lem

run_test-pass_example : CleanPass testcase report
run_test-pass_example = run_test-pass services testcase (run false safe) report report_lem refl

-- The same on a device that is marked unsafe.
abbrev blocked : TestResult
blocked = record {
  test_id = "SEC-1";
  test_name = "lockout";
  status = error;
  started_at = 100;
  ended_at = 103;
  duration = pos 3;
  validation_results = [];
  command_log = "CLI user policy" ∷ "WAIT 2s" ∷ [];
  error_message = some "Device is in unsafe state";
  cleanup_status = failed;
}

blocked_lem : (run_test services testcase (run false unsafe)).0 ≡ ok blocked
unfolding run_test guarded_test try_cleanup try_test run_steps run_actions run_action extend_log
    check_safe on_world test_failed cleanup_failed ◌>>=◌ show
blocked_lem = refl

run_test_unsafe_example :
    Untested blocked (run_test services testcase (run false unsafe)).1.context.device_state
run_test_unsafe_example =
    run_test_unsafe services testcase (run false unsafe) refl blocked blocked_lem

-- The bench with a validation service that only looks.
abbrev looking : Services Bench
looking = record services { run_validation = λ v w. (ok (skipped_result v), w) }

abbrev Offline : Bench → Type 0
Offline w = w.online ≡ false

looking_harmless : IsHarmless looking Offline
looking_harmless = record { clock = λ w h. h; performed = λ v e. record { at = λ w h. h } }

run_test_dry_run_example : Offline (run_test looking testcase (run true safe)).1.world
run_test_dry_run_example =
    run_test_dry_run looking Offline looking_harmless testcase (run true safe) refl refl
