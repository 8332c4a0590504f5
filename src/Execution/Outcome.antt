-- ===== src/Execution/Outcome.antt =====
-- What `run_test` reports and the state that it leaves the device in.
use omniswitch_ci_cd.Prelude.{
  ◌≡◌, ◌≢◌, refl, sym, ap, ◌∙◌, true, false, ◌⊎◌, inl, inr, Option, some, none, String, List, [],
  arith, length,
}
use omniswitch_ci_cd.Errors.{Exception}
use omniswitch_ci_cd.Exec.{ok, after_finally, try_finally}
use omniswitch_ci_cd.Domain.Enums.{
  ResultStatus, pass, error, DeviceSafetyState, safe, unsafe, is_unsafe,
}
use omniswitch_ci_cd.Domain.TestCase.{TestCaseDefinition}
use omniswitch_ci_cd.Domain.Results.{ValidationResult, TestResult, passed, failed}
use omniswitch_ci_cd.Execution.Steps.{Services, Session}
use omniswitch_ci_cd.Execution.RunTest.{
  Run, fresh, finish, test_result, message_or, error_if_pass, guarded_test, run_test,
}
use omniswitch_ci_cd.Execution.Cleanup.{
  IsCleaned, IsFailed, cleaned, cleaned_returns, cleaned_outcome,
}
use omniswitch_ci_cd.Execution.Verdict.{verdict, some_failed, some_error}
use omniswitch_ci_cd.Execution.Tried.{
  IsCompleted, IsAborted, IsUntested, tried_unsafe, tried, tried_returns, tried-Outcome,
}

ok_inj : {a b : TestResult} → ok a ≡ ok b → a ≡ b
ok_inj h = cc

module _ {W : Type 0} (services : Services W) (testcase : TestCaseDefinition) (run : Run W) where
  abbrev started_world : W
  started_world = (services.utcnow run.world).1

  abbrev middle : Session W
  middle = (tried services run.context.dry_run testcase (fresh run.context started_world)).1

  abbrev final : Session W
  final = (cleaned services run.context.dry_run testcase middle).1

  abbrev reported : TestResult
  reported =
      test_result services testcase final (services.utcnow run.world).0
        (services.utcnow final.world).0

  guarded-final :
      guarded_test services run.context.dry_run testcase (fresh run.context started_world)
      ≡ (ok tt, final)
  unfolding guarded_test try_finally
  guarded-final = λ i. (
    after_finally
        (tried_returns services run.context.dry_run testcase (fresh run.context started_world) i)
        (cleaned_returns services run.context.dry_run testcase middle i),
    final,
  )

  -- What `run_test` returns, and what it leaves behind.
  run_test-final :
      run_test services testcase run
      ≡ (ok reported, record { context = final.context; world = (services.utcnow final.world).1 })
  unfolding run_test
  run_test-final =
      ap (λ q. finish services testcase (services.utcnow run.world).0 q.0 q.1) guarded-final

  run_test-reported :
      {result : TestResult} → (run_test services testcase run).0 ≡ ok result → reported ≡ result
  run_test-reported returned = ok_inj (sym (ap (λ q. q.0) run_test-final) ∙ returned)

  pub run_test_context : (run_test services testcase run).1.context ≡ final.context
  run_test_context = ap (λ q. q.1.context) run_test-final

  pub tried_cases : IsCompleted testcase middle ⊎ IsAborted middle
  tried_cases = tried-Outcome services run.context.dry_run testcase run.context started_world

  pub IsCleaned-cases : IsCleaned middle final ⊎ ((e : Exception) × IsFailed e middle final)
  IsCleaned-cases = cleaned_outcome services run.context.dry_run testcase middle

-- The device behind a testcase is safe exactly if the cleanup passed, and unsafe if it failed.
abbrev pub DeviceLaw : TestResult → DeviceSafetyState → Type 0
DeviceLaw result state =
    (result.cleanup_status ≡ passed) × (state ≡ safe)
    ⊎ (result.cleanup_status ≡ failed) × (state ≡ unsafe)

-- The status that the cleanup leaves, from that of the results.
abbrev pub StatusLaw : TestResult → Type 0
StatusLaw result =
    (result.cleanup_status ≡ passed)
      × (result.error_message ≡ none)
      × (result.status ≡ verdict result.validation_results)
    ⊎ (result.error_message ≢ none)
      × ((result.status ≡ error)
          ⊎ (result.cleanup_status ≡ failed)
            × (result.status ≡ error_if_pass (verdict result.validation_results)))

abbrev pub CleanPass : TestCaseDefinition → TestResult → Type 0
CleanPass testcase result =
    (result.cleanup_status ≡ passed)
    × (result.error_message ≡ none)
    × (some_failed result.validation_results ≡ false)
    × (some_error result.validation_results ≡ false)
    × (length result.validation_results ≡ length testcase.validations)

verdict-pass :
    (results : List ValidationResult)
    → verdict results ≡ pass
    → (some_failed results ≡ false) × (some_error results ≡ false)
verdict-pass results h = ground arith

error_if_pass-ne-pass : (s : ResultStatus) → error_if_pass s ≢ pass
error_if_pass-ne-pass s = ground arith

some-ne-none : {o : Option String} {m : String} → o ≡ some m → o ≢ none
some-ne-none h = λ e. cc (h, e)

said : {o : Option String} (p : Option String) (m : String) → o ≡ message_or p m → o ≢ none
said none m h = some-ne-none h
said (some first) m h = some-ne-none h

final-status :
    {W : Type 0} {m t : Session W} (testcase : TestCaseDefinition)
    → IsCompleted testcase m ⊎ IsAborted m
    → IsCleaned m t ⊎ ((e : Exception) × IsFailed e m t)
    → (t.cleanup_status ≡ passed)
        × (t.error_message ≡ none)
        × (t.status ≡ verdict t.validation_results)
      ⊎ (t.error_message ≢ none)
        × ((t.status ≡ error)
            ⊎ (t.cleanup_status ≡ failed)
              × (t.status ≡ error_if_pass (verdict t.validation_results)))
final-status testcase (inl c) (inl d) = inl (
  d.cleanup_status,
  d.error_message ∙ c.error_message,
  d.status ∙ c.status ∙ ap verdict (sym d.results),
)
final-status testcase (inl c) (inr (e, f)) = inr (
  said _ e.message f.error_message,
  inr (f.cleanup_status, f.status ∙ ap error_if_pass (c.status ∙ ap verdict (sym f.results))),
)
final-status testcase (inr a) (inl d) =
    inr (some-ne-none (d.error_message ∙ a.error_message), inl (d.status ∙ a.status))
final-status testcase (inr a) (inr (e, f)) =
    inr (said _ e.message f.error_message, inl (f.status ∙ ap error_if_pass a.status))

final-device :
    {W : Type 0} {m t : Session W}
    → IsCleaned m t ⊎ ((e : Exception) × IsFailed e m t)
    → (t.cleanup_status ≡ passed) × (t.context.device_state ≡ safe)
      ⊎ (t.cleanup_status ≡ failed) × (t.context.device_state ≡ unsafe)
final-device (inl d) = inl (d.cleanup_status, d.device_state)
final-device (inr (e, f)) = inr (f.cleanup_status, f.device_state)

final-pass :
    {W : Type 0} {m t : Session W} (testcase : TestCaseDefinition)
    → IsCompleted testcase m ⊎ IsAborted m
    → IsCleaned m t ⊎ ((e : Exception) × IsFailed e m t)
    → t.status ≡ pass
    → (t.cleanup_status ≡ passed)
      × (t.error_message ≡ none)
      × (some_failed t.validation_results ≡ false)
      × (some_error t.validation_results ≡ false)
      × (length t.validation_results ≡ length testcase.validations)
final-pass {t = t} testcase (inl c) (inl d) h =
    let fine = sym (c.status) ∙ sym d.status ∙ h in
    let (unfailed, sound) = verdict-pass t.validation_results (ap verdict d.results ∙ fine) in
    (
      d.cleanup_status,
      d.error_message ∙ c.error_message,
      unfailed,
      sound,
      ap length d.results ∙ c.full fine,
    )
final-pass testcase o (inr (e, f)) h = absurd (error_if_pass-ne-pass _ (sym f.status ∙ h))
final-pass testcase (inr a) (inl d) h = cc (a.status, d.status, h)

-- Nothing was tested, and the cleanup failed.
abbrev pub Untested : TestResult → DeviceSafetyState → Type 0
Untested result state =
    (result.validation_results ≡ [])
    × (result.status ≡ error)
    × (result.cleanup_status ≡ failed)
    × (state ≡ unsafe)

final-untested :
    {W : Type 0} {m t : Session W}
    → IsUntested m
    → IsCleaned m t ⊎ ((e : Exception) × IsFailed e m t)
    → (t.validation_results ≡ [])
      × (t.status ≡ error)
      × (t.cleanup_status ≡ failed)
      × (t.context.device_state ≡ unsafe)
final-untested u (inl d) = cc (u.device_state, d.was_safe)
final-untested u (inr (e, f)) =
    (f.results ∙ u.results, f.status ∙ ap error_if_pass u.status, f.cleanup_status, f.device_state)

module _ {W : Type 0} (services : Services W) (testcase : TestCaseDefinition) (run : Run W) where
  -- No exception escapes from a testcase, whatever the driver, the validations and the steps raise:
  -- `run_test` returns a result.
  pub run_test_returns : (result : TestResult) × ((run_test services testcase run).0 ≡ ok result)
  run_test_returns =
      (reported services testcase run, ap (λ q. q.0) (run_test-final services testcase run))

  -- Behind a testcase the device is marked safe if the cleanup passed and unsafe if it failed, and the
  -- cleanup was tried: it is never left as not run.
  pub run_test-device_state :
      (result : TestResult)
      → (run_test services testcase run).0 ≡ ok result
      → DeviceLaw result (run_test services testcase run).1.context.device_state
  run_test-device_state result returned =
      rw
        (← run_test-reported services testcase run returned, run_test_context services testcase run)
        (final-device (IsCleaned-cases services testcase run))

  -- The status of a testcase. With a passed cleanup and no error message it is the verdict of the
  -- validation results: an error, else a failure, else a pass. Otherwise there is an error message and
  -- the status is an error, or the cleanup failed and a verdict other than a pass stands.
  pub run_test-status :
      (result : TestResult) → (run_test services testcase run).0 ≡ ok result → StatusLaw result
  run_test-status result returned = rw (← run_test-reported services testcase run returned) (
      final-status testcase (tried_cases services testcase run)
        (IsCleaned-cases services testcase run))

  -- A testcase passes only if its cleanup passed, nothing was raised, no validation failed or erred,
  -- and every validation of the testcase has its result.
  pub run_test-pass :
      (result : TestResult)
      → (run_test services testcase run).0 ≡ ok result
      → result.status ≡ pass
      → CleanPass testcase result
  run_test-pass result returned = rw (← run_test-reported services testcase run returned) (
      final-pass testcase (tried_cases services testcase run)
        (IsCleaned-cases services testcase run))

  -- The result of a testcase bears its identifier.
  pub run_test-id :
      (result : TestResult)
      → (run_test services testcase run).0 ≡ ok result
      → result.test_id ≡ testcase.id
  run_test-id result returned = rw (← run_test-reported services testcase run returned) refl

  -- On a device that is marked unsafe nothing is tested: the result is an error without validation
  -- results, the cleanup fails, and the device stays unsafe.
  pub run_test_unsafe :
      is_unsafe run.context.device_state ≡ true
      → (result : TestResult) → (run_test services testcase run).0 ≡ ok result
      → Untested result (run_test services testcase run).1.context.device_state
  run_test_unsafe broken result returned =
      rw
        (← run_test-reported services testcase run returned, run_test_context services testcase run)
        (final-untested
          (tried_unsafe services run.context.dry_run testcase run.context
            (started_world services testcase run) broken)
          (IsCleaned-cases services testcase run))
