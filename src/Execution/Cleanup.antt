-- ===== src/Execution/Cleanup.antt =====
-- The `finally` part of `run_test`: what the session holds once the cleanup was tried.
use omniswitch_ci_cd.Prelude.{◌≡◌, refl, Bool, false, ◌⊎◌, inl, inr, List, arith, ap, sym, ◌∙◌}
use omniswitch_ci_cd.Errors.{Exception}
use omniswitch_ci_cd.Exec.{Result, ok, raised, continue, try_except, ◌>>=◌}
use omniswitch_ci_cd.Exec.Laws.{continue-eq-ok}
use omniswitch_ci_cd.Domain.Enums.{safe, unsafe, is_unsafe}
use omniswitch_ci_cd.Domain.TestCase.{TestStep, TestCaseDefinition}
use omniswitch_ci_cd.Domain.Results.{passed, failed}
use omniswitch_ci_cd.Execution.Steps.{Services, Session, check_safe, run_actions, run_steps}
use omniswitch_ci_cd.Execution.Frame.{IsFramed, Keeps-run_steps, Keeps-run_actions}
use omniswitch_ci_cd.Execution.RunTest.{
  message_or, error_if_pass, cleanup_done, cleanup_failed, try_cleanup,
}

module _ {W : Type 0} where
  check_safe-ok :
      (s : Session W) → (check_safe s).0 ≡ ok tt → is_unsafe s.context.device_state ≡ false
  unfolding check_safe ◌>>=◌
  check_safe-ok s h = ground arith

  check_safe_state : (s : Session W) → (check_safe s).1 ≡ s
  unfolding check_safe ◌>>=◌
  check_safe_state s = ground arith

  -- Two sessions differ in the world and the log at most.
  pub record IsSame (s t : Session W) : Type 0 where
    pub context : t.context ≡ s.context
    pub results : t.validation_results ≡ s.validation_results
    pub status : t.status ≡ s.status
    pub error_message : t.error_message ≡ s.error_message
    pub cleanup_status : t.cleanup_status ≡ s.cleanup_status

  pub IsSame-refl : (s : Session W) → IsSame s s
  IsSame-refl s = record {
    context = refl;
    results = refl;
    status = refl;
    error_message = refl;
    cleanup_status = refl;
  }

  IsSame-IsFramed : (s : Session W) → IsFramed (IsSame s)
  IsSame-IsFramed s t w log h = record {
    context = h.context;
    results = h.results;
    status = h.status;
    error_message = h.error_message;
    cleanup_status = h.cleanup_status;
  }

  module _ (services : Services W) (dry_run : Bool) where
    run_actions-IsSame :
        (steps : List TestStep) (s : Session W) → IsSame s (run_actions services dry_run steps s).1
    run_actions-IsSame steps s =
        (Keeps-run_actions {P = IsSame s} (IsSame-IsFramed s) services dry_run steps).at s
          (IsSame-refl s)

    pub run_steps-IsSame :
        (steps : List TestStep) (s : Session W) → IsSame s (run_steps services dry_run steps s).1
    run_steps-IsSame steps s =
        (Keeps-run_steps {P = IsSame s} (IsSame-IsFramed s) services dry_run steps).at s
          (IsSame-refl s)

    -- The steps return only from a device that is not marked unsafe.
    pub run_steps-ok :
        (steps : List TestStep) (s : Session W)
        → (run_steps services dry_run steps s).0 ≡ ok tt
        → is_unsafe s.context.device_state ≡ false
    unfolding run_steps ◌>>=◌
    run_steps-ok steps s h =
        let (r, s') = run_actions services dry_run steps s in
        let (_, _, returned) = continue-eq-ok r (λ _. check_safe) s' h in
        ap (λ c. is_unsafe c.device_state) (sym (run_actions-IsSame steps s).context)
        ∙ check_safe-ok s' returned

-- The session after the `finally` part, when the cleanup steps returned.
pub record IsCleaned {W : Type 0} (s t : Session W) : Type 0 where
  pub was_safe : is_unsafe s.context.device_state ≡ false
  pub cleanup_status : t.cleanup_status ≡ passed
  pub device_state : t.context.device_state ≡ safe
  pub results : t.validation_results ≡ s.validation_results
  pub status : t.status ≡ s.status
  pub error_message : t.error_message ≡ s.error_message

-- The session after the `finally` part, when a cleanup step raised `e`.
pub record IsFailed {W : Type 0} (e : Exception) (s t : Session W) : Type 0 where
  pub cleanup_status : t.cleanup_status ≡ failed
  pub device_state : t.context.device_state ≡ unsafe
  pub results : t.validation_results ≡ s.validation_results
  pub status : t.status ≡ error_if_pass s.status
  pub error_message : t.error_message ≡ message_or s.error_message e.message

module _ {W : Type 0} where
  abbrev after_steps : Result (Unit {0}) → Session W → Result (Unit {0}) × Session W
  after_steps r t = try_except (λ t. continue r (λ _. cleanup_done) t) cleanup_failed t

  after_steps-ok :
      (s t : Session W)
      → IsSame s t
      → is_unsafe s.context.device_state ≡ false
      → IsCleaned s (after_steps (ok tt) t).1
  unfolding cleanup_done try_except
  after_steps-ok s t same h = ground arith

  after_steps-raised :
      (s t : Session W) (e : Exception) → IsSame s t → IsFailed e s (after_steps (raised e) t).1
  unfolding cleanup_failed try_except
  after_steps-raised s t e same = ground arith

  after_steps_returns : (r : Result (Unit {0})) (t : Session W) → (after_steps r t).0 ≡ ok tt
  unfolding cleanup_failed cleanup_done try_except
  after_steps_returns r t = ground arith

module _ {W : Type 0} (services : Services W) (dry_run : Bool) (testcase : TestCaseDefinition) where
  -- The `finally` part, as the code composes it.
  abbrev pub cleaned : Session W → Result (Unit {0}) × Session W
  cleaned = try_except (try_cleanup services dry_run testcase) cleanup_failed

  pub cleaned_returns : (s : Session W) → (cleaned s).0 ≡ ok tt
  unfolding try_cleanup ◌>>=◌
  cleaned_returns s =
      after_steps_returns (run_steps services dry_run testcase.cleanup s).0
        (run_steps services dry_run testcase.cleanup s).1

  -- It ends in one of two ways.
  pub cleaned_outcome :
      (s : Session W) → IsCleaned s (cleaned s).1 ⊎ ((e : Exception) × IsFailed e s (cleaned s).1)
  unfolding try_cleanup ◌>>=◌
  cleaned_outcome s =
      by_result (run_steps services dry_run testcase.cleanup s).0
        (run_steps services dry_run testcase.cleanup s).1
        (run_steps-IsSame services dry_run testcase.cleanup s)
        (run_steps-ok services dry_run testcase.cleanup s)
    where
      by_result :
          (r : Result (Unit {0})) (t : Session W)
          → IsSame s t
          → (r ≡ ok tt → is_unsafe s.context.device_state ≡ false)
          → IsCleaned s (after_steps r t).1 ⊎ ((e : Exception) × IsFailed e s (after_steps r t).1)
      by_result (ok _) t same h = inl (after_steps-ok s t same (h refl))
      by_result (raised e) t same h = inr (e, after_steps-raised s t e same)
