-- ===== src/Execution/RunTest.antt =====
-- `run_test` of src/switchtest/services/execution_service.py.
use omniswitch_ci_cd.Prelude.{
  String, ◌<>◌, Bool, true, false, ◌&&◌, Option, none, some, List, [], ◌∷◌, ◌++◌, if◌then◌else◌,
}
use omniswitch_ci_cd.Prelude.Text.{or_else}
use omniswitch_ci_cd.Errors.{Exception}
use omniswitch_ci_cd.Exec.{
  Result, ok, raised, Exec, pure, gets, modify, try_except, try_finally, ◌>>=◌, ◌>>◌,
}
use omniswitch_ci_cd.Domain.Enums.{
  ResultStatus, status_value, DeviceSafetyState, safe, modified, unsafe, is_unsafe,
}
use omniswitch_ci_cd.Domain.TestCase.{TestStep, ValidationStep, TestCaseDefinition}
use omniswitch_ci_cd.Domain.Results.{
  Time, ValidationResult, TestResult, CleanupStatus, not_run, passed, failed, elapsed,
}
use omniswitch_ci_cd.Domain.Runtime.{RuntimeContext}
use omniswitch_ci_cd.Execution.Steps.{
  Services, Session, skipped_in_dry_run, on_world, append_log, set_device_state, set_status,
  run_steps,
}

-- What outlives a testcase: the context, with its device state, and the world.
pub record Run (W : Type 0) : Type 0 where
  pub context : RuntimeContext
  pub world : W

-- The result that stands in for a validation that a dry run does not perform.
abbrev pub skipped_result : ValidationStep → ValidationResult
skipped_result validation = record {
  name = validation.name;
  status = ResultStatus.skipped;
  observed = none;
  expected = or_else validation.expected (or_else validation.pattern validation.target);
  message = some "Skipped device-backed validation in dry-run mode";
}

abbrev pub message_or : Option String → String → Option String
message_or none m = some m
message_or (some first) m = some first

abbrev pub error_if_pass : ResultStatus → ResultStatus
error_if_pass ResultStatus.pass = ResultStatus.error
error_if_pass other = other

module _ {W : Type 0} where
  unfoldable pub append_result : ValidationResult → Exec (Session W) Unit
  unfolding modify
  append_result result =
      modify (λ s. record s { validation_results = s.validation_results ++ result ∷ [] })

  unfoldable pub set_error_message : Option String → Exec (Session W) Unit
  unfolding modify
  set_error_message m = modify (λ s. record s { error_message = m })

  unfoldable pub set_cleanup_status : CleanupStatus → Exec (Session W) Unit
  unfolding modify
  set_cleanup_status c = modify (λ s. record s { cleanup_status = c })

  -- What the loop does behind a result: `rest` is the following rounds, and `break` drops it.
  abbrev pub proceed : Bool → ResultStatus → Exec (Session W) Unit → Exec (Session W) Unit
  proceed true ResultStatus.fail rest = set_status ResultStatus.fail >> rest
  proceed false ResultStatus.fail rest = set_status ResultStatus.fail
  proceed go_on ResultStatus.error rest = set_status ResultStatus.error
  proceed go_on ResultStatus.pass rest = rest
  proceed go_on ResultStatus.skipped rest = rest

  abbrev pub mark_modified : List TestStep → Exec (Session W) Unit
  mark_modified [] = pure tt
  mark_modified (step ∷ steps) = set_device_state modified

  abbrev pub settle : DeviceSafetyState → Exec (Session W) Unit
  settle state = if is_unsafe state then pure tt else set_device_state safe

  -- What follows the cleanup steps when they returned.
  unfoldable pub cleanup_done : Exec (Session W) Unit
  unfolding ◌>>=◌ set_cleanup_status set_device_state
  cleanup_done = do
    set_cleanup_status passed
    state ← gets (λ s. s.context.device_state)
    settle state

  -- `except Exception as exc` of the test.
  unfoldable pub test_failed : Exception → Exec (Session W) Unit
  unfolding ◌>>=◌ set_status set_error_message
  test_failed exc = do set_status ResultStatus.error; set_error_message (some exc.message)

  -- `except Exception as exc` of the cleanup.
  unfoldable pub cleanup_failed : Exception → Exec (Session W) Unit
  unfolding ◌>>=◌ set_cleanup_status set_device_state set_error_message set_status
  cleanup_failed exc = do
    set_cleanup_status failed
    set_device_state unsafe
    first ← gets (λ s. s.error_message)
    set_error_message (message_or first exc.message)
    status ← gets (λ s. s.status)
    set_status (error_if_pass status)

  abbrev pub fresh : RuntimeContext → W → Session W
  fresh context world = record {
    context = context;
    world = world;
    command_log = [];
    validation_results = [];
    status = ResultStatus.pass;
    error_message = none;
    cleanup_status = not_run;
  }

module _ {W : Type 0} (services : Services W) (dry_run : Bool) where
  -- One validation, performed or skipped.
  unfoldable pub perform : ValidationStep → Exec (Session W) ValidationResult
  unfolding skipped_in_dry_run
  perform validation =
      if dry_run && skipped_in_dry_run validation
      then pure (skipped_result validation)
      else on_world (services.run_validation validation)

  -- The loop over the validations.
  unfoldable pub validate :
      (continue_on_failure : Bool) → List ValidationStep → Exec (Session W) Unit
  validate go_on [] = pure tt
  validate go_on (validation ∷ validations) = do
    result ← perform validation
    append_result result
    append_log ("VALIDATE " <> (validation.name <> (": " <> status_value result.status)))
    proceed go_on result.status (validate go_on validations)

  -- The `try` block.
  unfoldable pub try_test : TestCaseDefinition → Exec (Session W) Unit
  try_test testcase = do
    run_steps services dry_run testcase.setup
    mark_modified testcase.setup
    validate testcase.continue_on_failure testcase.validations

  -- The `try` block inside `finally`.
  unfoldable pub try_cleanup : TestCaseDefinition → Exec (Session W) Unit
  try_cleanup testcase = do run_steps services dry_run testcase.cleanup; cleanup_done

  -- The whole statement: `try` ... `except` ... `finally`.
  unfoldable pub guarded_test : TestCaseDefinition → Exec (Session W) Unit
  guarded_test testcase =
      try_finally (try_except (try_test testcase) test_failed)
        (try_except (try_cleanup testcase) cleanup_failed)

module _ {W : Type 0} (services : Services W) where
  -- The result that is returned, from what the session holds at the end.
  abbrev pub test_result : TestCaseDefinition → Session W → Time → Time → TestResult
  test_result testcase s started ended = record {
    test_id = testcase.id;
    test_name = testcase.name;
    status = s.status;
    started_at = started;
    ended_at = ended;
    duration = elapsed started ended;
    validation_results = s.validation_results;
    command_log = s.command_log;
    error_message = s.error_message;
    cleanup_status = s.cleanup_status;
  }

  abbrev pub finish :
      TestCaseDefinition → Time → Result (Unit {0}) → Session W → Result TestResult × Run W
  finish testcase started (ok _) s =
      let (ended, w) = services.utcnow s.world in
      (ok (test_result testcase s started ended), record { context = s.context; world = w })
  finish testcase started (raised e) s = (raised e, record { context = s.context; world = s.world })

  unfoldable pub run_test : TestCaseDefinition → Exec (Run W) TestResult
  run_test testcase run =
      let (started, w) = services.utcnow run.world in
      let (r, s) = guarded_test services run.context.dry_run testcase (fresh run.context w) in
      finish testcase started r s
