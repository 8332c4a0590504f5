-- ===== src/Reporting/Junit.antt =====
-- `write_junit_report` (src/switchtest/infrastructure/reporting/junit_report.py), as the tree of elements
-- that it writes. `seconds` is the format `:.3f` of a duration.
use omniswitch_ci_cd.Prelude.{
  ℕ, suc, ◌+◌, ◌≡◌, refl, ap, String, Bool, true, false, Option, List, [], ◌∷◌, map, length, arith,
}
use omniswitch_ci_cd.Prelude.Text.{or_text}
use omniswitch_ci_cd.Domain.Enums.{ResultStatus, pass, fail, error, skipped, is_fail, is_error}
use omniswitch_ci_cd.Domain.Results.{ℤ, TestResult, SuiteResult}

-- The element inside a `testcase`.
pub data JunitChild : Type 0 where
  no_child : JunitChild
  failure_child error_child : (message text : String) → JunitChild
  skipped_child : JunitChild

pub record JunitCase : Type 0 where
  pub name : String
  pub classname : String
  pub time : String
  pub child : JunitChild

-- The `testsuite` element; the counts are the numbers whose texts are written.
pub record JunitSuite : Type 0 where
  pub name : String
  pub tests : ℕ
  pub failures : ℕ
  pub errors : ℕ
  pub skips : ℕ
  pub time : String
  pub cases : List JunitCase

abbrev pub is_skipped : ResultStatus → Bool
is_skipped skipped = true
is_skipped _ = false

abbrev unit_if : Bool → ℕ
unit_if true = 1
unit_if false = 0

-- `sum(1 for x in xs if test(x))`.
abbrev pub count : {A : Type 0} → (A → Bool) → List A → ℕ
count test [] = 0
count test (x ∷ xs) = unit_if (test x) + count test xs

abbrev child_of : ResultStatus → Option String → JunitChild
child_of fail message =
    failure_child (or_text message "validation failure")
      (or_text message "One or more validations failed")
child_of error message =
    error_child (or_text message "execution error") (or_text message "Test execution error")
child_of skipped message = skipped_child
child_of pass message = no_child

module _ (seconds : ℤ → String) where
  abbrev junit_case : String → TestResult → JunitCase
  junit_case suite_name test = record {
    name = test.test_name;
    classname = suite_name;
    time = seconds test.duration;
    child = child_of test.status test.error_message;
  }

  unfoldable pub junit_report : SuiteResult → JunitSuite
  junit_report result = record {
    name = result.suite_name;
    tests = length result.tests;
    failures = count (λ test. is_fail test.status) result.tests;
    errors = count (λ test. is_error test.status) result.tests;
    skips = count (λ test. is_skipped test.status) result.tests;
    time = seconds result.duration;
    cases = map (junit_case result.suite_name) result.tests;
  }

abbrev pub has_failure : JunitCase → Bool
has_failure case = elim case.child [ failure_child message text ↦ true | _ ↦ false ]

abbrev pub has_error : JunitCase → Bool
has_error case = elim case.child [ error_child message text ↦ true | _ ↦ false ]

abbrev pub has_skipped : JunitCase → Bool
has_skipped case = elim case.child [ skipped_child ↦ true | _ ↦ false ]

-- The counts of a `testsuite` are those of its own elements.
pub record IsConsistent (report : JunitSuite) : Type 0 where
  pub tests : report.tests ≡ length report.cases
  pub failures : report.failures ≡ count has_failure report.cases
  pub errors : report.errors ≡ count has_error report.cases
  pub skips : report.skips ≡ count has_skipped report.cases

module _ (seconds : ℤ → String) (name : String) where
  length-cases :
      (tests : List TestResult) → length tests ≡ length (map (junit_case seconds name) tests)
  length-cases [] = refl
  length-cases (t ∷ tests) = ap suc (length-cases tests)

  module _ (of_test : TestResult → Bool) (of_case : JunitCase → Bool)
      (agree : (t : TestResult) → of_test t ≡ of_case (junit_case seconds name t)) where
    count-cases :
        (tests : List TestResult)
        → count of_test tests ≡ count of_case (map (junit_case seconds name) tests)
    count-cases [] = refl
    count-cases (t ∷ tests) = λ i. unit_if (agree t i) + count-cases tests i

  failure_agrees : (t : TestResult) → is_fail t.status ≡ has_failure (junit_case seconds name t)
  failure_agrees t = ground arith

  error_agrees : (t : TestResult) → is_error t.status ≡ has_error (junit_case seconds name t)
  error_agrees t = ground arith

  skipped_agrees : (t : TestResult) → is_skipped t.status ≡ has_skipped (junit_case seconds name t)
  skipped_agrees t = ground arith

-- The JUnit report of every suite is consistent: the counts of tests, failures, errors and skipped tests
-- in its head are those of the `testcase` elements in it and of the elements inside them.
pub junit_report-IsConsistent :
    (seconds : ℤ → String) (result : SuiteResult) → IsConsistent (junit_report seconds result)
unfolding junit_report
junit_report-IsConsistent seconds result = record {
  tests = length-cases seconds result.suite_name result.tests;
  failures =
      count-cases seconds result.suite_name _ _ (failure_agrees seconds result.suite_name)
        result.tests;
  errors =
      count-cases seconds result.suite_name _ _ (error_agrees seconds result.suite_name)
        result.tests;
  skips =
      count-cases seconds result.suite_name _ _ (skipped_agrees seconds result.suite_name)
        result.tests;
}
