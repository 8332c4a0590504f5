-- ===== src/Domain/Results.antt =====
-- results.py (src/switchtest/domain/results.py). A time is a number of microseconds, and a duration
-- is the difference of two, which a clock that is set back makes negative.
use omniswitch_ci_cd.Prelude.{
  ℕ, suc, ◌-◌, String, Bool, true, false, Option, List, leb, if◌then◌else◌,
}
use omniswitch_ci_cd.Domain.Enums.{ResultStatus, SuiteStatus}

-- An integer; `negsuc n` is -(n + 1).
pub data ℤ : Type 0 where
  pos : ℕ → ℤ
  negsuc : ℕ → ℤ

abbrev pub Time : Type 0
Time = ℕ

-- `ended_at - started_at`.
abbrev pub elapsed : Time → Time → ℤ
elapsed started ended =
    if leb started ended then pos (ended - started) else negsuc (started - suc ended)

pub record ValidationResult : Type 0 where
  pub name : String
  pub status : ResultStatus
  pub observed : Option String
  pub expected : Option String
  pub message : Option String

pub data CleanupStatus : Type 0 where
  not_run passed failed : CleanupStatus

abbrev pub is_cleanup_failed : CleanupStatus → Bool
is_cleanup_failed failed = true
is_cleanup_failed _ = false

pub record TestResult : Type 0 where
  pub test_id : String
  pub test_name : String
  pub status : ResultStatus
  pub started_at : Time
  pub ended_at : Time
  pub duration : ℤ
  pub validation_results : List ValidationResult
  pub command_log : List String
  pub error_message : Option String
  pub cleanup_status : CleanupStatus

pub record SuiteResult : Type 0 where
  pub suite_name : String
  pub device_name : String
  pub platform : String
  pub firmware_version : Option String
  pub device_model : Option String
  pub started_at : Time
  pub ended_at : Time
  pub duration : ℤ
  pub status : SuiteStatus
  pub tests : List TestResult
