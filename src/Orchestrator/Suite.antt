-- ===== src/Orchestrator/Suite.antt =====
-- `run_suite` of src/switchtest/orchestrator.py. What the orchestrator calls outside is a `Platform`.
use omniswitch_ci_cd.Prelude.{
  ℕ, String, ◌<>◌, Bool, true, false, not, ◌&&◌, ◌||◌, Option, none, some, List, [], ◌∷◌, ◌++◌, any,
  select, str_eq, if◌then◌else◌,
}
use omniswitch_ci_cd.Errors.{ErrorKind}
use omniswitch_ci_cd.Exec.{
  Result, ok, raised, Exec, pure, raise, gets, modify, try_except, try_finally, ◌>>=◌, ◌>>◌,
}
use omniswitch_ci_cd.Domain.Enums.{ResultStatus, is_fail, is_error, SuiteStatus, unsafe, is_unsafe}
use omniswitch_ci_cd.Domain.TestCase.{ValidationStep, TestCaseDefinition, SuiteDefinition}
use omniswitch_ci_cd.Domain.Results.{Time, elapsed, ValidationResult, TestResult, SuiteResult}
use omniswitch_ci_cd.Domain.Runtime.{RuntimeContext, DeviceDefinition}
use omniswitch_ci_cd.Driver.{BaseSwitchDriver, Metadata}
use omniswitch_ci_cd.Execution.Steps.{Services}
use omniswitch_ci_cd.Execution.RunTest.{Run, run_test}
use omniswitch_ci_cd.Orchestrator.Services.{
  SuiteState, outside, mark_device, verify_baseline, restore, reconnect, collect,
}

-- `aos_driver` is the constructor of `AOSSwitchDriver`, `run_validation` that of the validation
-- service; the other fields are the clock, the file system and the report writers.
pub record Platform (W : Type 0) : Type 0 where
  pub aos_driver : DeviceDefinition → BaseSwitchDriver W
  pub run_validation : BaseSwitchDriver W → ValidationStep → Exec W ValidationResult
  pub sleep : ℕ → W → W
  pub utcnow : W → Time × W
  pub ensure_directory : String → Exec W Unit
  pub write_json_report : String → SuiteResult → Exec W Unit
  pub write_junit_report : String → SuiteResult → Exec W Unit
  pub write_summary : String → SuiteResult → Exec W Unit

-- `_filter_tests_by_tags`.
unfoldable pub filter_tests_by_tags :
    List TestCaseDefinition → List String → List TestCaseDefinition
filter_tests_by_tags tests [] = tests
filter_tests_by_tags tests (tag ∷ tags) =
    select (λ test. any (λ t. any (str_eq t) (tag ∷ tags)) test.tags) tests

module _ {W : Type 0} where
  unfoldable pub set_suite_status : SuiteStatus → Exec (SuiteState W) Unit
  unfolding modify
  set_suite_status status = modify (λ s. record s { status = status })

  unfoldable pub append_test : TestResult → Exec (SuiteState W) Unit
  unfolding modify
  append_test result = modify (λ s. record s { results = s.results ++ result ∷ [] })

  unfoldable pub set_metadata : Metadata → Exec (SuiteState W) Unit
  unfolding modify
  set_metadata m = modify (λ s. record s { metadata = m })

  -- `run_test` shares the context of the suite.
  unfoldable pub within : {A : Type 0} → Exec (Run W) A → Exec (SuiteState W) A
  within m s =
      let (r, run) = m (record { context = s.context; world = s.world }) in
      (r, record s { context = run.context; world = run.world })

  unfoldable pub device_unsafe : Exec (SuiteState W) Bool
  unfolding gets
  device_unsafe = gets (λ s. is_unsafe s.context.device_state)

  abbrev pub ends_by : (broken fail_fast : Bool) → ResultStatus → Exec (SuiteState W) Bool
  ends_by true fail_fast status = set_suite_status SuiteStatus.error >> pure true
  ends_by false fail_fast status = pure (fail_fast && (is_fail status || is_error status))

  -- The checks that end the loop: an unsafe device, or `fail_fast` behind a test that did not pass.
  unfoldable pub ends_loop : (fail_fast : Bool) → ResultStatus → Exec (SuiteState W) Bool
  ends_loop fail_fast status = do broken ← device_unsafe; ends_by broken fail_fast status

  abbrev pub note_fail : ResultStatus → Exec (SuiteState W) Unit
  note_fail ResultStatus.fail = set_suite_status SuiteStatus.fail
  note_fail _ = pure tt

module _ {W : Type 0} (driver : BaseSwitchDriver W) (device : DeviceDefinition)
    (dry_run : Bool) where
  -- What an `ERROR` calls for: the status, and a new connection; the device is unsafe without one.
  abbrev pub note_error : ResultStatus → Exec (SuiteState W) Unit
  note_error ResultStatus.error =
      set_suite_status SuiteStatus.error
      >> (if dry_run
          then pure tt
          else try_except (outside (reconnect driver)) (λ exc. mark_device unsafe))
  note_error _ = pure tt

  unfoldable pub restore_if : (wanted : Bool) → Exec (SuiteState W) Unit
  restore_if wanted = do
    broken ← device_unsafe
    if wanted && not dry_run && not broken then restore driver device else pure tt

module _ {W : Type 0} (services : Services W) (device : DeviceDefinition)
    (dry_run fail_fast : Bool) where
  abbrev pub continue_unless : Bool → Exec (SuiteState W) Unit → Exec (SuiteState W) Unit
  continue_unless true rest = pure tt
  continue_unless false rest = rest

  -- The loop over the selected tests.
  unfoldable pub run_tests : List TestCaseDefinition → Exec (SuiteState W) Unit
  run_tests [] = pure tt
  run_tests (testcase ∷ tests) = do
    result ← within (run_test services testcase)
    append_test result
    note_fail result.status
    note_error services.driver device dry_run result.status
    restore_if services.driver device dry_run testcase.restore_baseline_after
    stop ← ends_loop fail_fast result.status
    continue_unless stop (run_tests tests)

  -- The first part of the `try` block: the session and what is read from it.
  unfoldable pub open_session : Exec (SuiteState W) Unit
  open_session = if dry_run then pure tt else (do
    outside services.driver.connect
    metadata ← outside (collect services.driver)
    set_metadata metadata
    outside (verify_baseline services.driver device))

  -- The `try` block.
  unfoldable pub try_suite : List TestCaseDefinition → Exec (SuiteState W) Unit
  try_suite tests = do open_session; run_tests tests; restore_if services.driver device dry_run true

  -- The whole statement: `try` ... `finally`.
  unfoldable pub guarded_suite : List TestCaseDefinition → Exec (SuiteState W) Unit
  guarded_suite tests =
      try_finally (try_suite tests)
        (if dry_run then pure tt else outside services.driver.disconnect)

module _ {W : Type 0} (platform : Platform W) where
  -- `_make_driver`.
  unfoldable pub make_driver : DeviceDefinition → Exec W (BaseSwitchDriver W)
  make_driver device =
      if str_eq device.platform "aos"
      then pure (platform.aos_driver device)
      else raise ErrorKind.configuration ("Unsupported platform: " <> device.platform)

  abbrev pub write_to : Option String → (String → Exec W Unit) → Exec W Unit
  write_to none write = pure tt
  write_to (some path) write = write path

  -- `_write_reports`.
  unfoldable pub write_reports : RuntimeContext → SuiteResult → Exec W Unit
  write_reports context result = do
    write_to context.json_report (λ path. platform.write_json_report path result)
    write_to context.junit_report (λ path. platform.write_junit_report path result)
    platform.write_summary (context.report_dir <> ("/" <> (context.run_id <> ".summary.txt")))
        result

  abbrev pub suite_services : BaseSwitchDriver W → Services W
  suite_services driver = record {
    driver = driver;
    run_validation = platform.run_validation driver;
    sleep = platform.sleep;
    utcnow = platform.utcnow;
  }

  abbrev pub suite_result :
      DeviceDefinition → SuiteDefinition → Time → Time → SuiteState W → SuiteResult
  suite_result device suite started ended s = record {
    suite_name = suite.name;
    device_name = device.name;
    platform = device.platform;
    firmware_version = s.metadata.firmware_version;
    device_model = s.metadata.device_model;
    started_at = started;
    ended_at = ended;
    duration = elapsed started ended;
    status = s.status;
    tests = s.results;
  }

  unfoldable pub now : Exec W Time
  now w = let (t, w') = platform.utcnow w in (ok t, w')

  -- The suite's state when the `try` block is entered.
  abbrev pub first_state : RuntimeContext → W → SuiteState W
  first_state context w = record {
    context = context;
    world = w;
    metadata = record { firmware_version = none; device_model = none };
    results = [];
    status = SuiteStatus.pass;
  }

  -- The local variables behind the statement, or the exception that leaves it.
  abbrev pub state_of : Result (Unit {0}) → SuiteState W → Result (SuiteState W)
  state_of (ok _) s = ok s
  state_of (raised e) s = raised e

  -- The `try` statement in the world, with the state that it ends in as its value.
  unfoldable pub run_guarded :
      RuntimeContext
      → DeviceDefinition
      → List TestCaseDefinition
      → BaseSwitchDriver W
      → Exec W (SuiteState W)
  run_guarded context device tests driver w =
      let (r, s) =
        guarded_suite (suite_services driver) device context.dry_run context.fail_fast tests
          (first_state context w) in
      (state_of r s, s.world)

  -- `run_suite`. The context of the caller is not used behind it, so the world is the only state.
  unfoldable pub run_suite :
      RuntimeContext
      → DeviceDefinition
      → SuiteDefinition
      → List TestCaseDefinition
      → Exec W SuiteResult
  run_suite context device suite tests = do
    started ← now
    platform.ensure_directory context.report_dir
    driver ← make_driver device
    final ← run_guarded context device (filter_tests_by_tags tests context.selected_tags) driver
    ended ← now
    let result = suite_result device suite started ended final
    write_reports context result
    pure result
