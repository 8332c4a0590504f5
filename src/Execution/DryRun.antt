-- ===== src/Execution/DryRun.antt =====
-- What a dry run of `run_test` (src/switchtest/services/execution_service.py) reaches.
use mathlib.Core.Path.{subst}
use omniswitch_ci_cd.Prelude.{
  sym, if◌then◌else◌, ◌≡◌, refl, Bool, true, false, ◌&&◌, String, List, [], ◌∷◌, arith,
}
use omniswitch_ci_cd.Errors.{Exception}
use omniswitch_ci_cd.Exec.{Result, ok, raised, Exec, pure, modify, ◌>>=◌}
use omniswitch_ci_cd.Exec.Laws.{
  Keeps, Keeps-bind, Keeps-pure, Keeps-try_except, Keeps-try_finally, keeps_rules,
}
use omniswitch_ci_cd.Domain.Enums.{
  TestAction, ResultStatus, pass, fail, error, skipped, DeviceSafetyState,
}
use omniswitch_ci_cd.Domain.TestCase.{TestStep, ValidationStep, TestCaseDefinition}
use omniswitch_ci_cd.Domain.Results.{Time, ValidationResult}
use omniswitch_ci_cd.Execution.Steps.{
  Services, Session, skipped_in_dry_run, on_world, extend_log, set_device_state, set_status,
  check_safe, ensure_unlocked, trigger_failed_logins, run_action, run_actions, run_steps,
}
use omniswitch_ci_cd.Execution.RunTest.{
  Run, skipped_result, append_result, set_cleanup_status, proceed, mark_modified, cleanup_done,
  test_failed, cleanup_failed, perform, validate, try_test, try_cleanup, guarded_test, fresh,
  finish, run_test,
}

-- What a dry run may do to the world: read the clock, and perform the validations that it does not skip.
-- Both keep `P`; nothing is asked of the driver, of `sleep` or of a validation that is skipped.
pub record IsHarmless {W : Type 0} (services : Services W) (P : W → Type 0) : Type 0 where
  pub clock : (w : W) → P w → P (services.utcnow w).1
  pub performed :
      (v : ValidationStep) → skipped_in_dry_run v ≡ false → Keeps P (services.run_validation v)

module _ {W : Type 0} (services : Services W) (P : W → Type 0)
    (harmless : IsHarmless services P) where
  abbrev Around : Session W → Type 0
  Around s = P s.world

  Keeps-modify :
      (f : Session W → Session W)
      → ((s : Session W) → Around s → Around (f s))
      → Keeps Around (modify f)
  unfolding modify
  Keeps-modify f h = record { at = h }

  log_lem : (lines : List String) → Keeps Around (extend_log lines)
  unfolding extend_log
  log_lem lines = Keeps-modify _ (λ s h. h)

  state_lem : (d : DeviceSafetyState) → Keeps Around (set_device_state d)
  unfolding set_device_state
  state_lem d = Keeps-modify _ (λ s h. h)

  status_lem : (st : ResultStatus) → Keeps Around (set_status st)
  unfolding set_status
  status_lem st = Keeps-modify _ (λ s h. h)

  result_lem : (r : ValidationResult) → Keeps Around (append_result r)
  unfolding append_result
  result_lem r = Keeps-modify _ (λ s h. h)

  ruleset dry_rules = (keeps_rules, log_lem, state_lem, status_lem, result_lem)

  action_lem :
      (action : TestAction) (step : TestStep) → Keeps Around (run_action services true action step)
  unfolding run_action ensure_unlocked trigger_failed_logins
  action_lem TestAction.cli step = search dry_rules
  action_lem TestAction.wait step = search dry_rules
  action_lem TestAction.save_config step = search dry_rules
  action_lem TestAction.restore_baseline step = search dry_rules
  action_lem TestAction.reboot step = search dry_rules
  action_lem TestAction.trigger_failed_logins step = search dry_rules
  action_lem TestAction.ensure_unlocked step = search dry_rules

  actions_lem : (steps : List TestStep) → Keeps Around (run_actions services true steps)
  unfolding run_actions
  actions_lem [] = Keeps-pure tt
  actions_lem (step ∷ steps) = Keeps-bind _ _ (action_lem step.action step) (λ _. actions_lem steps)

  check_lem : Keeps Around check_safe
  unfolding check_safe
  check_lem = search keeps_rules

  steps_lem : (steps : List TestStep) → Keeps Around (run_steps services true steps)
  unfolding run_steps
  steps_lem steps = Keeps-bind _ _ (actions_lem steps) (λ _. check_lem)

  world_lem : {A : Type 0} (m : Exec W A) → Keeps P m → Keeps Around (on_world m)
  unfolding on_world
  world_lem m k = record { at = λ s h. k.at s.world h }

  by_skip :
      (v : ValidationStep) (b : Bool)
      → skipped_in_dry_run v ≡ b
      → Keeps Around
          (if true && b then pure (skipped_result v) else on_world (services.run_validation v))
  by_skip v true e = Keeps-pure _
  by_skip v false e = world_lem _ (harmless.performed v e)

  perform_lem : (v : ValidationStep) → Keeps Around (perform services true v)
  unfolding perform
  perform_lem v = by_skip v (skipped_in_dry_run v) refl

  proceed_lem :
      (go_on : Bool) (st : ResultStatus) (rest : Exec (Session W) Unit)
      → Keeps Around rest
      → Keeps Around (proceed go_on st rest)
  proceed_lem true fail rest k = Keeps-bind _ _ (status_lem fail) (λ _. k)
  proceed_lem false fail rest k = status_lem fail
  proceed_lem go_on error rest k = status_lem error
  proceed_lem go_on pass rest k = k
  proceed_lem go_on skipped rest k = k

  validate_lem :
      (go_on : Bool) (vs : List ValidationStep) → Keeps Around (validate services true go_on vs)
  unfolding validate
  validate_lem go_on [] = Keeps-pure tt
  validate_lem go_on (v ∷ vs) = Keeps-bind _ _ (perform_lem v) λ result.
      Keeps-bind _ _ (result_lem result) λ _.
        Keeps-bind _ _ (log_lem _) λ _. proceed_lem go_on result.status _ (validate_lem go_on vs)

  mark_lem : (steps : List TestStep) → Keeps Around (mark_modified steps)
  mark_lem [] = Keeps-pure tt
  mark_lem (step ∷ steps) = state_lem _

  module _ (testcase : TestCaseDefinition) where
    try_test_lem : Keeps Around (try_test services true testcase)
    unfolding try_test
    try_test_lem = Keeps-bind _ _ (steps_lem testcase.setup) λ _.
        Keeps-bind _ _ (mark_lem testcase.setup)
          λ _. validate_lem testcase.continue_on_failure testcase.validations

    done_lem : Keeps Around cleanup_done
    unfolding cleanup_done ◌>>=◌ set_cleanup_status set_device_state
    done_lem = record { at = λ s h. ground arith }

    test_failed_lem : (e : Exception) → Keeps Around (test_failed e)
    unfolding test_failed
    test_failed_lem e = record { at = λ s h. h }

    cleanup_failed_lem : (e : Exception) → Keeps Around (cleanup_failed e)
    unfolding cleanup_failed
    cleanup_failed_lem e = record { at = λ s h. h }

    guarded_lem : Keeps Around (guarded_test services true testcase)
    unfolding guarded_test try_cleanup
    guarded_lem = Keeps-try_finally _ _ (Keeps-try_except _ _ try_test_lem test_failed_lem) (
        Keeps-try_except _ _ (Keeps-bind _ _ (steps_lem testcase.cleanup) (λ _. done_lem))
          cleanup_failed_lem)

    finish_lem :
        (started : Time) (r : Result (Unit {0})) (s : Session W)
        → P s.world
        → P (finish services testcase started r s).1.world
    finish_lem started (ok _) s h = harmless.clock s.world h
    finish_lem started (raised e) s h = h

    -- A dry run of a testcase keeps whatever the clock and the validations that it does not skip keep, with
    -- nothing asked of the driver, of `sleep` and of the validations that are skipped. A validation that is
    -- not skipped is performed as in any run, and may call the driver itself.
    pub run_test_dry_run :
        (run : Run W)
        → run.context.dry_run ≡ true
        → P run.world
        → P (run_test services testcase run).1.world
    unfolding run_test
    run_test_dry_run run dry h = finish_lem (services.utcnow run.world).0 _ _ (
        (subst (λ b. Keeps Around (guarded_test services b testcase)) (sym dry) guarded_lem).at
          (fresh run.context (services.utcnow run.world).1) (harmless.clock run.world h))
