-- ===== src/Execution/Tried.antt =====
-- What the session holds behind `try` and `except` of `run_test`, before the `finally` part.
use omniswitch_ci_cd.Prelude.{
  ◌≡◌, refl, sym, ap, ◌∙◌, Bool, true, false, ◌⊎◌, inl, inr, some, none, String, List, [], ◌∷◌,
  ◌++◌, arith, length,
}
use omniswitch_ci_cd.Exec.{Exec, Result, ok, raised, after_try, continue, try_except, ◌>>=◌, ◌>>◌}
use omniswitch_ci_cd.Exec.Laws.{Keeps, Keeps-bind, Keeps-pure}
use omniswitch_ci_cd.Domain.Enums.{ResultStatus, pass, fail, error, skipped, modified, is_unsafe}
use omniswitch_ci_cd.Domain.TestCase.{TestStep, ValidationStep, TestCaseDefinition}
use omniswitch_ci_cd.Domain.Runtime.{RuntimeContext}
use omniswitch_ci_cd.Domain.Results.{ValidationResult}
use omniswitch_ci_cd.Execution.Steps.{
  Services, Session, extend_log, set_status, set_device_state, on_world, run_steps,
}
use omniswitch_ci_cd.Execution.RunTest.{
  append_result, proceed, mark_modified, perform, validate, fresh, test_failed, try_test,
}
use omniswitch_ci_cd.Execution.Cleanup.{IsSame, run_steps-IsSame, run_steps-ok}
use omniswitch_ci_cd.Execution.Verdict.{
  verdict, some_error, validate_judged, IsGrown, validate_grown,
}

module _ {W : Type 0} where
  -- No exception has been noted.
  abbrev IsQuiet : Session W → Type 0
  IsQuiet s = s.error_message ≡ none

  proceed-IsQuiet :
      (go_on : Bool) (st : ResultStatus) (rest : Exec (Session W) Unit)
      → Keeps IsQuiet rest
      → Keeps IsQuiet (proceed go_on st rest)
  unfolding ◌>>=◌ set_status
  proceed-IsQuiet true fail rest k = record { at = λ s h. k.at (record s { status = fail }) h }
  proceed-IsQuiet false fail rest k = record { at = λ s h. h }
  proceed-IsQuiet go_on error rest k = record { at = λ s h. h }
  proceed-IsQuiet go_on pass rest k = k
  proceed-IsQuiet go_on skipped rest k = k

  append_result-IsQuiet : (r : ValidationResult) → Keeps IsQuiet (append_result {W = W} r)
  unfolding append_result
  append_result-IsQuiet r = record { at = λ s h. h }

  extend_log-IsQuiet : (lines : List String) → Keeps IsQuiet (extend_log {W = W} lines)
  unfolding extend_log
  extend_log-IsQuiet lines = record { at = λ s h. h }

  module _ (services : Services W) (dry_run : Bool) where
    perform-IsQuiet : (v : ValidationStep) → Keeps IsQuiet (perform services dry_run v)
    unfolding perform on_world ◌>>=◌
    perform-IsQuiet v = record { at = λ s h. ground arith }

    validate-IsQuiet :
        (go_on : Bool) (vs : List ValidationStep)
        → Keeps IsQuiet (validate services dry_run go_on vs)
    unfolding validate
    validate-IsQuiet go_on [] = Keeps-pure tt
    validate-IsQuiet go_on (v ∷ vs) = Keeps-bind _ _ (perform-IsQuiet v) λ result.
        Keeps-bind _ _ (append_result-IsQuiet result) λ _.
          Keeps-bind _ _ (extend_log-IsQuiet _)
            λ _. proceed-IsQuiet go_on result.status _ (validate-IsQuiet go_on vs)

-- The `try` block ran to its end.
pub record IsCompleted {W : Type 0} (testcase : TestCaseDefinition) (t : Session W) : Type 0 where
  pub status : t.status ≡ verdict t.validation_results
  pub error_message : t.error_message ≡ none
  pub full :
      verdict t.validation_results ≡ pass
      → length t.validation_results ≡ length testcase.validations

-- An exception left the `try` block.
pub record IsAborted {W : Type 0} (t : Session W) : Type 0 where
  pub status : t.status ≡ error
  pub message : String
  pub error_message : t.error_message ≡ some message

-- No validation was performed, and the device is still marked unsafe.
pub record IsUntested {W : Type 0} (t : Session W) : Type 0 where
  pub results : t.validation_results ≡ []
  pub status : t.status ≡ error
  pub device_state : is_unsafe t.context.device_state ≡ true

module _ {W : Type 0} (services : Services W) (dry_run : Bool) (testcase : TestCaseDefinition) where
  abbrev pub tried : Session W → Result (Unit {0}) × Session W
  tried = try_except (try_test services dry_run testcase) test_failed

  abbrev checks : Exec (Session W) Unit
  checks = validate services dry_run testcase.continue_on_failure testcase.validations

  module _ (context : RuntimeContext) (w : W) where
    abbrev Outcome : Session W → Type 0
    Outcome t = IsCompleted testcase t ⊎ IsAborted t

    after_checks :
        (s t : Session W) (r : Result (Unit {0}))
        → IsGrown (length testcase.validations) s r t
        → s.validation_results ≡ []
        → t.status ≡ verdict t.validation_results
        → t.error_message ≡ none
        → Outcome (after_try r test_failed t).1
    unfolding test_failed
    after_checks s t (ok _) g none_yet judged quiet =
        let shape : t.validation_results ≡ g.more = g.shape ∙ ap (λ l. l ++ g.more) none_yet in
        inl (record {
          status = judged;
          error_message = quiet;
          full = λ fine. ap length shape ∙ g.full refl (ap verdict (sym shape) ∙ fine);
        })
    after_checks s t (raised e) g none_yet judged quiet =
        inr (record { status = refl; message = e.message; error_message = refl })

    -- The validations start from a session that is as good as new.
    start :
        (t : Session W)
        → t.validation_results ≡ []
        → t.status ≡ pass
        → t.error_message ≡ none
        → Outcome (after_try (checks t).0 test_failed (checks t).1).1
    start t empty good quiet =
        after_checks t (checks t).1 (checks t).0
          (validate_grown services dry_run testcase.continue_on_failure testcase.validations t)
          empty
          (validate_judged services dry_run testcase.continue_on_failure testcase.validations t
            (record { judged = good ∙ ap verdict (sym empty); no_error = ap some_error empty }))
          ((validate-IsQuiet services dry_run testcase.continue_on_failure testcase.validations).at
            t quiet)

    after_setup :
        (setup : List TestStep) (r : Result (Unit {0})) (t : Session W)
        → IsSame (fresh context w) t
        → Outcome
            (try_except (λ t. continue r (λ _. mark_modified setup >> checks) t) test_failed t).1
    unfolding try_except ◌>>=◌ set_device_state
    after_setup [] (ok _) t h = start t h.results h.status h.error_message
    after_setup (step ∷ steps) (ok _) t h =
        start (record t { context = record t.context { device_state = modified } }) h.results
          h.status h.error_message
    after_setup setup (raised e) t h =
        unfold test_failed in
        inr (record { status = refl; message = e.message; error_message = refl })

    -- From a fresh session the `try` block ends in one of two ways.
    pub tried-Outcome : Outcome (tried (fresh context w)).1
    unfolding try_test try_except ◌>>=◌
    tried-Outcome =
        after_setup testcase.setup (run_steps services dry_run testcase.setup (fresh context w)).0
          (run_steps services dry_run testcase.setup (fresh context w)).1
          (run_steps-IsSame services dry_run testcase.setup (fresh context w))

  module _ (context : RuntimeContext) (w : W) (h : is_unsafe context.device_state ≡ true) where
    after_setup_unsafe :
        (r : Result (Unit {0})) (t : Session W)
        → IsSame (fresh context w) t
        → (r ≡ ok tt → is_unsafe context.device_state ≡ false)
        → IsUntested
            (try_except
              (λ t. continue r (λ _. mark_modified testcase.setup >> checks) t)
              test_failed
              t).1
    after_setup_unsafe (ok _) t same k = cc (h, k refl)
    after_setup_unsafe (raised e) t same k =
        unfold try_except test_failed in
        record {
          results = same.results;
          status = refl;
          device_state = ap (λ c. is_unsafe c.device_state) same.context ∙ h;
        }

    -- On a device that is marked unsafe nothing is tested.
    pub tried_unsafe : IsUntested (tried (fresh context w)).1
    unfolding try_test try_except ◌>>=◌
    tried_unsafe =
        after_setup_unsafe (run_steps services dry_run testcase.setup (fresh context w)).0
          (run_steps services dry_run testcase.setup (fresh context w)).1
          (run_steps-IsSame services dry_run testcase.setup (fresh context w))
          (run_steps-ok services dry_run testcase.setup (fresh context w))

  pub tried_returns : (s : Session W) → (tried s).0 ≡ ok tt
  unfolding try_except test_failed
  tried_returns s = ground arith
