-- ===== src/App/ExitCodes.antt =====
-- The exit code of `run_application` (src/switchtest/app.py).
use omniswitch_ci_cd.Prelude.{
  String, ◌≡◌, ◌≢◌, ◌↔◌, refl, ap, sym, ◌∙◌, ◌⊎◌, inl, inr, true, false, List, [], ◌∷◌, any, arith,
  none,
}
use omniswitch_ci_cd.Errors.{
  Exception, is_loader, is_connection, is_baseline_restore, is_switch_test, ExitCode, success,
  invalid_input,
}
use omniswitch_ci_cd.Exec.{Result, ok, raised, pure, raise, try_except, continue, ◌>>=◌}
use omniswitch_ci_cd.Exec.Triple.{Triple, Anything, Triple-after}
use omniswitch_ci_cd.Domain.Enums.{is_fail, is_error, SuiteStatus}
use omniswitch_ci_cd.Domain.TestCase.{TestCaseDefinition}
use omniswitch_ci_cd.Domain.Results.{TestResult, SuiteResult, is_cleanup_failed}
use omniswitch_ci_cd.Domain.Runtime.{RuntimeContext, DeviceDefinition}
use omniswitch_ci_cd.Domain.Lab.{LabConfig, devices, find}
use omniswitch_ci_cd.Orchestrator.Suite.{Platform}
use omniswitch_ci_cd.Orchestrator.Rounds.{last_verdict, is_blamed}
use omniswitch_ci_cd.Orchestrator.Status.{IsSuiteReport, run_suite-IsSuiteReport}
use omniswitch_ci_cd.App.{
  RunArguments, Loading, is_suite_error, result_code, error_code, try_run, run_application,
}

-- The suite passed, and no test failed, erred or had a cleanup that failed.
pub record IsClean (result : SuiteResult) : Type 0 where
  pub status : result.status ≡ SuiteStatus.pass
  pub unfailed : any (λ r. is_fail r.status) result.tests ≡ false
  pub unblamed : any is_blamed result.tests ≡ false

error_code-ne-success : (e : Exception) → error_code e ≢ ok success
unfolding error_code
error_code-ne-success e h = ground arith

error_code-escape : (e x : Exception) → error_code e ≡ raised x → is_switch_test x.kind ≡ false
unfolding error_code is_loader is_connection is_baseline_restore is_switch_test
error_code-escape e x h = ground arith

any-blamed-cleanup :
    (tests : List TestResult)
    → any is_blamed tests ≡ false
    → any (λ t. is_cleanup_failed t.cleanup_status) tests ≡ false
any-blamed-cleanup [] h = refl
any-blamed-cleanup (t ∷ tests) h = ground (arith, any-blamed-cleanup tests)

-- An error stands unless a failure follows it.
last_verdict-error :
    (tests : List TestResult)
    → any (λ r. is_fail r.status) tests ≡ false
    → last_verdict SuiteStatus.error tests ≡ SuiteStatus.error
unfolding last_verdict
last_verdict-error [] h = refl
last_verdict-error (t ∷ tests) h = ground (arith, last_verdict-error tests)

-- Without a failure, the last verdict is an error as soon as one test erred.
last_verdict_sound :
    (tests : List TestResult)
    → any (λ r. is_fail r.status) tests ≡ false
    → is_suite_error (last_verdict SuiteStatus.pass tests) ≡ false
    → (any (λ r. is_error r.status) tests ≡ false)
      × (last_verdict SuiteStatus.pass tests ≡ SuiteStatus.pass)
unfolding last_verdict
last_verdict_sound [] h k = (refl, refl)
last_verdict_sound (t ∷ tests) h k =
    ground (arith, last_verdict_sound tests, last_verdict-error tests)

any-blamed :
    (tests : List TestResult)
    → any (λ t. is_cleanup_failed t.cleanup_status) tests ≡ false
    → any (λ r. is_error r.status) tests ≡ false
    → any is_blamed tests ≡ false
any-blamed [] h k = refl
any-blamed (t ∷ tests) h k = ground (arith, any-blamed tests)

-- The exit code, from what the `try` block of `run_application` ends with.
abbrev pub code_of : Result SuiteResult → Result ExitCode
code_of (ok result) = ok (result_code result)
code_of (raised e) = error_code e

result_code-success :
    (result : SuiteResult)
    → result_code result ≡ success
    → (is_suite_error result.status ≡ false)
      × (any (λ r. is_cleanup_failed r.cleanup_status) result.tests ≡ false)
      × (any (λ r. is_fail r.status) result.tests ≡ false)
unfolding result_code
result_code-success result h = ground arith

clean-code : (result : SuiteResult) → IsClean result → result_code result ≡ success
unfolding result_code
clean-code result clean =
    let cleanups = any-blamed-cleanup result.tests clean.unblamed in
    rw (clean.status, clean.unfailed, cleanups) refl

success-IsClean :
    (context : RuntimeContext) (tests : List TestCaseDefinition) (result : SuiteResult)
    → IsSuiteReport context tests result
    → result_code result ≡ success
    → IsClean result
success-IsClean context tests result report h =
    let (sound, cleanups, unfailed) = result_code-success result h in
    judged sound cleanups unfailed report.status
  where
    judged :
        is_suite_error result.status ≡ false
        → any (λ r. is_cleanup_failed r.cleanup_status) result.tests ≡ false
        → any (λ r. is_fail r.status) result.tests ≡ false
        → (result.status ≡ last_verdict SuiteStatus.pass result.tests)
            × (context.fail_fast ≡ false → report.rest ≡ [])
          ⊎ (result.status ≡ SuiteStatus.error) × (any is_blamed result.tests ≡ true)
        → IsClean result
    judged sound cleanups unfailed (inl k) =
        let (errorless, passed) =
          last_verdict_sound result.tests unfailed (ap is_suite_error (sym k.0) ∙ sound) in
        record {
          status = k.0 ∙ passed;
          unfailed = unfailed;
          unblamed = any-blamed result.tests cleanups errorless;
        }
    judged sound cleanups unfailed (inr k) = cc (sound, k.0)

code_inj : {a b : ExitCode} → ok a ≡ ok b → a ≡ b
code_inj h = cc

try_run_lem :
    {W : Type 0} (loading : Loading W) (platform : Platform W) (args : RunArguments)
    → Triple Anything (try_run loading platform args) (λ result _.
      (context : RuntimeContext) × (tests : List TestCaseDefinition) × IsSuiteReport context tests
        result)
unfolding try_run
try_run_lem loading platform args = Triple-after _ _ λ lab. Triple-after _ _ λ known.
    Triple-after _ _ λ device. Triple-after _ _ λ loaded. Triple-after _ _ λ run_id. record {
      at = λ w h result e.
          (_, loaded.1, run_suite-IsSuiteReport platform _ device loaded.0 loaded.1 w result e);
    }

module _ {W : Type 0} (loading : Loading W) (platform : Platform W) (args : RunArguments)
    (w : W) where
  run_application-code_of :
      (run_application loading platform args w).0 ≡ code_of (try_run loading platform args w).0
  unfolding run_application try_except ◌>>=◌
  run_application-code_of =
      by_result (try_run loading platform args w).0 (try_run loading platform args w).1
    where
      by_result :
          (r : Result SuiteResult) (s : W)
          → (try_except {S = W}
              (λ s. continue r (λ result. pure (result_code result)) s)
              (λ exc. λ s. (error_code exc, s))
              s).0
            ≡ code_of r
      by_result (ok result) s = unfold pure in refl
      by_result (raised e) s = refl

  -- An exception that `run_application` does not turn into an exit code is none of the framework's own:
  -- no `SwitchTestError` escapes.
  pub run_application-escape :
      (e : Exception)
      → (run_application loading platform args w).0 ≡ raised e
      → is_switch_test e.kind ≡ false
  run_application-escape e h =
      by_result (try_run loading platform args w).0 (sym run_application-code_of ∙ h)
    where
      by_result : (r : Result SuiteResult) → code_of r ≡ raised e → is_switch_test e.kind ≡ false
      by_result (ok result) k = cc k
      by_result (raised x) k = error_code-escape x e k

  try_run-report :
      (result : SuiteResult)
      → (try_run loading platform args w).0 ≡ ok result
      → (context : RuntimeContext) × (tests : List TestCaseDefinition) × IsSuiteReport context tests
          result
  try_run-report result h = (try_run_lem loading platform args).at w tt result h

  -- `run_application` returns the exit code 0 if and only if its suite ran to a report in which the suite
  -- passed and no test failed, erred or had a cleanup that failed.
  pub run_application-success : (run_application loading platform args w).0 ≡ ok success ↔ (
      (result : SuiteResult) × ((try_run loading platform args w).0 ≡ ok result) × IsClean result)
  run_application-success = (
    λ h. to (try_run loading platform args w).0 refl (sym run_application-code_of ∙ h),
    λ (result, returned, clean).
        run_application-code_of ∙ ap code_of returned ∙ ap ok (clean-code result clean),
  )
    where
      to :
          (r : Result SuiteResult)
          → (try_run loading platform args w).0 ≡ r
          → code_of r ≡ ok success
          → (result : SuiteResult) × ((try_run loading platform args w).0 ≡ ok result)
            × IsClean result
      to (ok result) returned h =
          let (context, tests, report) = try_run-report result returned in
          (result, returned, success-IsClean context tests result report (code_inj h))
      to (raised e) returned h = absurd (error_code-ne-success e h)

  -- A device that is not among those of the lab file gives the exit code for invalid input, and nothing
  -- is done but to load that file: no suite is loaded and no device is reached.
  pub run_application-unknown_device :
      (lab : LabConfig) (known : List (String × DeviceDefinition))
      → (loading.load_lab args.lab_file w).0 ≡ ok lab
      → devices lab ≡ ok known
      → find args.device_name known ≡ none
      → run_application loading platform args w
        ≡ (ok invalid_input, (loading.load_lab args.lab_file w).1)
  unfolding run_application try_run try_except ◌>>=◌ raise error_code is_loader
  run_application-unknown_device lab known loaded given missing = rw (loaded, given, missing) refl
