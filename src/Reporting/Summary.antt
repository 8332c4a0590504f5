-- ===== src/Reporting/Summary.antt =====
-- `render_suite_summary` (src/switchtest/infrastructure/reporting/console.py). `repr` is the conversion
-- `!r` of an optional text.
use omniswitch_ci_cd.Prelude.{String, ◌<>◌, Bool, ◌||◌, Option, List, [], ◌∷◌, ◌++◌, if◌then◌else◌}
use omniswitch_ci_cd.Prelude.Text.{given, or_empty, or_text, join, show}
use omniswitch_ci_cd.Domain.Enums.{ResultStatus, SuiteStatus, is_pass, is_fail, is_error}
use omniswitch_ci_cd.Domain.Results.{ValidationResult, TestResult, SuiteResult}
use omniswitch_ci_cd.Reporting.Junit.{count, is_skipped}

-- `status.value.upper()`.
abbrev status_upper : ResultStatus → String
status_upper ResultStatus.pass = "PASS"
status_upper ResultStatus.fail = "FAIL"
status_upper ResultStatus.error = "ERROR"
status_upper ResultStatus.skipped = "SKIPPED"

-- `result.status.value`.
abbrev suite_status_value : SuiteStatus → String
suite_status_value SuiteStatus.pass = "pass"
suite_status_value SuiteStatus.fail = "fail"
suite_status_value SuiteStatus.error = "error"

abbrev went_wrong : ResultStatus → Bool
went_wrong status = is_fail status || is_error status

module _ (repr : Option String → String) where
  validation_lines : List ValidationResult → List String
  validation_lines [] = []
  validation_lines (v ∷ results) =
      let rest = validation_lines results in
      if went_wrong v.status
      then ("    - "
          <> (v.name
              <> (": expected="
                  <> (repr v.expected
                      <> (" observed="
                          <> (repr v.observed
                              <> (" (" <> (or_text v.message "no message" <> ")"))))))))
        ∷ rest
      else rest

  abbrev error_lines : Option String → List String
  error_lines message = if given message then ("    error: " <> or_empty message) ∷ [] else []

  abbrev test_head : TestResult → String
  test_head test =
      "  [" <> (status_upper test.status <> ("] " <> (test.test_id <> (" " <> test.test_name))))

  test_lines : List TestResult → List String
  unfolding validation_lines
  test_lines [] = []
  test_lines (test ∷ tests) =
      test_head test
        ∷ (if went_wrong test.status
            then error_lines test.error_message ++ validation_lines test.validation_results
            else [])
      ++ test_lines tests

  abbrev counts_line : List TestResult → String
  counts_line tests =
      "Pass: "
      <> (show (count (λ t. is_pass t.status) tests)
          <> (" Fail: "
              <> (show (count (λ t. is_fail t.status) tests)
                  <> (" Error: "
                      <> (show (count (λ t. is_error t.status) tests)
                          <> (" Skipped: " <> show (count (λ t. is_skipped t.status) tests)))))))

  unfoldable pub render_suite_summary : SuiteResult → String
  unfolding test_lines join show
  render_suite_summary result = join "\n" (
      ("Suite: " <> result.suite_name)
      ∷ ("Device: " <> result.device_name)
      ∷ ("Platform: " <> result.platform)
      ∷ ("Firmware: " <> or_text result.firmware_version "unknown")
      ∷ ("Model: " <> or_text result.device_model "unknown")
      ∷ ("Status: " <> suite_status_value result.status)
      ∷ counts_line result.tests
      ∷ ""
      ∷ "Tests:"
      ∷ test_lines result.tests)
