-- ===== src/App.antt =====
-- app.py (src/switchtest/app.py): a run from its arguments to its exit code. `Loading` stands for the
-- loaders and for `make_run_id`; messages on the console are left out.
pub mod ExitCodes
use omniswitch_ci_cd.Prelude.{
  ℕ, String, ◌<>◌, Bool, true, false, ◌||◌, Option, none, some, List, map, any, if◌then◌else◌,
}
use omniswitch_ci_cd.Prelude.Text.{or_text, join, sorted}
use omniswitch_ci_cd.Errors.{
  ErrorKind, Exception, is_loader, is_connection, is_baseline_restore, is_switch_test, ExitCode,
  exit_number,
}
use omniswitch_ci_cd.Exec.{Result, ok, raised, Exec, pure, raise, throw, try_except, ◌>>=◌, ◌>>◌}
use omniswitch_ci_cd.Domain.Enums.{ResultStatus, is_fail, SuiteStatus, DeviceSafetyState}
use omniswitch_ci_cd.Domain.TestCase.{TestCaseDefinition, SuiteDefinition}
use omniswitch_ci_cd.Domain.Results.{is_cleanup_failed, SuiteResult}
use omniswitch_ci_cd.Domain.Runtime.{RuntimeContext, DeviceDefinition}
use omniswitch_ci_cd.Domain.Lab.{LabConfig, Variables, devices, variables, find}
use omniswitch_ci_cd.Orchestrator.Suite.{Platform, run_suite}

pub record RunArguments : Type 0 where
  pub device_name : String
  pub suite_path : String
  pub lab_file : String
  pub report_dir : String
  pub json_report : Option String
  pub junit_report : Option String
  pub fail_fast : Bool
  pub dry_run : Bool
  pub tags : List String

pub record Loading (W : Type 0) : Type 0 where
  pub load_lab : String → Exec W LabConfig
  pub load_suite_testcases : String → Variables → Exec W (SuiteDefinition × List TestCaseDefinition)
  pub make_run_id : Exec W String

abbrev pub is_suite_error : SuiteStatus → Bool
is_suite_error SuiteStatus.error = true
is_suite_error _ = false

-- The exit code of a suite that returned.
unfoldable pub result_code : SuiteResult → ExitCode
result_code result =
    if is_suite_error result.status
    then ExitCode.framework_error
    else if any (λ test. is_cleanup_failed test.cleanup_status) result.tests
    then ExitCode.cleanup_failure
    else if any (λ test. is_fail test.status) result.tests
    then ExitCode.test_failure
    else ExitCode.success

-- The `except` clauses, in their order. What is no `SwitchTestError` goes on to the caller.
unfoldable pub error_code : Exception → Result ExitCode
error_code exc =
    if is_loader exc.kind
    then ok ExitCode.invalid_input
    else if is_connection exc.kind
    then ok ExitCode.device_connection_error
    else if is_baseline_restore exc.kind
    then ok ExitCode.cleanup_failure
    else if is_switch_test exc.kind
    then ok ExitCode.framework_error
    else raised exc

module _ {W : Type 0} (loading : Loading W) (platform : Platform W) where
  abbrev pub lift : {A : Type 0} → Result A → Exec W A
  lift r w = (r, w)

  abbrev pub known_device :
      List (String × DeviceDefinition)
      → RunArguments
      → Option DeviceDefinition
      → Exec W DeviceDefinition
  known_device known args (some device) = pure device
  known_device known args none = raise ErrorKind.loader (
      "Unknown device '"
      <> (args.device_name
          <> ("' in "
              <> (args.lab_file
                  <> (". Devices come from the accounts that declare a transport: "
                      <> or_text (some (join ", " (sorted (map (λ d. d.0) known)))) "(none)")))))

  abbrev pub run_context :
      RunArguments → String → DeviceDefinition → SuiteDefinition → RuntimeContext
  run_context args run_id device suite = record {
    run_id = run_id;
    device_name = device.name;
    suite_name = some suite.name;
    report_dir = args.report_dir;
    lab_file = args.lab_file;
    fail_fast = args.fail_fast;
    dry_run = args.dry_run;
    selected_tags = args.tags;
    json_report = args.json_report;
    junit_report = args.junit_report;
    command_logs_enabled = true;
    device_state = DeviceSafetyState.safe;
  }

  -- The `try` block of `run_application`.
  unfoldable pub try_run : RunArguments → Exec W SuiteResult
  try_run args = do
    lab ← loading.load_lab args.lab_file
    known ← lift (devices lab)
    device ← known_device known args (find args.device_name known)
    loaded ← loading.load_suite_testcases args.suite_path (variables lab)
    run_id ← loading.make_run_id
    run_suite platform (run_context args run_id device loaded.0) device loaded.0 loaded.1

  -- `run_application`: the exit code, or an exception that no clause catches.
  unfoldable pub run_application : RunArguments → Exec W ExitCode
  run_application args =
      try_except (do result ← try_run args; pure (result_code result))
        (λ exc. lift (error_code exc))
