-- ===== src/Errors.antt =====
-- exceptions.py (src/switchtest/exceptions.py) and exitcodes.py: the exceptions of the framework with
-- their class hierarchy, and the exit codes. `other` stands for an exception of a library or of the
-- interpreter, which is no `SwitchTestError`.
use omniswitch_ci_cd.Prelude.{ℕ, String, Bool, true, false}

pub data ErrorKind : Type 0 where
  switch_test configuration connection authentication prompt_detection command_execution : ErrorKind
  validation_execution cleanup baseline_restore loader other : ErrorKind

-- An exception as a value: its class and `str(exc)`.
pub record Exception : Type 0 where
  pub kind : ErrorKind
  pub message : String

-- `except SwitchTestError`: the class is a subclass of it.
unfoldable pub is_switch_test : ErrorKind → Bool
is_switch_test other = false
is_switch_test _ = true

-- `except ConnectionError`: `AuthenticationError` and `PromptDetectionError` are subclasses.
unfoldable pub is_connection : ErrorKind → Bool
is_connection connection = true
is_connection authentication = true
is_connection prompt_detection = true
is_connection _ = false

-- `except BaselineRestoreError`.
unfoldable pub is_baseline_restore : ErrorKind → Bool
is_baseline_restore baseline_restore = true
is_baseline_restore _ = false

-- `except LoaderError`.
unfoldable pub is_loader : ErrorKind → Bool
is_loader loader = true
is_loader _ = false

pub data ExitCode : Type 0 where
  success test_failure framework_error device_connection_error cleanup_failure : ExitCode
  invalid_input : ExitCode

-- `int(code)`.
unfoldable pub exit_number : ExitCode → ℕ
exit_number success = 0
exit_number test_failure = 1
exit_number framework_error = 2
exit_number device_connection_error = 3
exit_number cleanup_failure = 4
exit_number invalid_input = 5
