-- ===== src/Orchestrator/Rounds.antt =====
-- The loop over the tests of `run_suite` (src/switchtest/orchestrator.py), one round at a time.
use omniswitch_ci_cd.Prelude.{
  String, ◌≡◌, ◌≢◌, refl, sym, ap, ◌∙◌, ◌⊎◌, inl, inr, Bool, true, false, not, ◌&&◌, ◌||◌, List, [],
  ◌∷◌, ◌++◌, arith, if◌then◌else◌,
}
use omniswitch_ci_cd.Errors.{ErrorKind}
use omniswitch_ci_cd.Exec.{ok, pure, raise, try_except, ◌>>=◌, ◌>>◌}
use omniswitch_ci_cd.Exec.Laws.{Keeps, keeps_rules}
use omniswitch_ci_cd.Exec.Triple.{
  Triple, Triple-pure, Triple-if, Triple-Keeps, Triple-bind, Triple-gets, Triple-try_raise,
}
use omniswitch_ci_cd.Domain.Enums.{
  ResultStatus, is_error, SuiteStatus, DeviceSafetyState, safe, unsafe, is_unsafe,
}
use omniswitch_ci_cd.Domain.TestCase.{TestCaseDefinition}
use omniswitch_ci_cd.Domain.Results.{TestResult, is_cleanup_failed, failed}
use omniswitch_ci_cd.Domain.Runtime.{DeviceDefinition}
use omniswitch_ci_cd.Driver.{BaseSwitchDriver}
use omniswitch_ci_cd.Execution.Steps.{Services}
use omniswitch_ci_cd.Execution.RunTest.{Run, run_test}
use omniswitch_ci_cd.Execution.Outcome.{DeviceLaw, run_test-device_state, run_test-id}
use omniswitch_ci_cd.Orchestrator.Services.{SuiteState, outside, mark_device, restore, reconnect}
use omniswitch_ci_cd.Orchestrator.Suite.{
  set_suite_status, append_test, within, device_unsafe, ends_by, ends_loop, note_fail, note_error,
  restore_if,
}

-- The status behind one more result: a failure and an error overwrite what stood there.
abbrev pub verdict_step : SuiteStatus → ResultStatus → SuiteStatus
verdict_step status ResultStatus.fail = SuiteStatus.fail
verdict_step status ResultStatus.error = SuiteStatus.error
verdict_step status _ = status

-- The status that the results amount to: that of the last one that is a failure or an error.
unfoldable pub last_verdict : SuiteStatus → List TestResult → SuiteStatus
last_verdict status [] = status
last_verdict status (r ∷ results) = last_verdict (verdict_step status r.status) results

last_verdict-concat :
    (status : SuiteStatus) (results : List TestResult) (r : TestResult)
    → last_verdict status (results ++ r ∷ []) ≡ verdict_step (last_verdict status results) r.status
unfolding last_verdict
last_verdict-concat status [] r = refl
last_verdict-concat status (q ∷ results) r =
    last_verdict-concat (verdict_step status q.status) results r

-- What can make a device unsafe in the round of a test.
abbrev pub is_blamed : TestResult → Bool
is_blamed r = is_cleanup_failed r.cleanup_status || is_error r.status

blamed_cleanup : (r : TestResult) → r.cleanup_status ≡ failed → is_blamed r ≡ true
blamed_cleanup r h = ground arith

blamed_error : (r : TestResult) → r.status ≡ ResultStatus.error → is_blamed r ≡ true
blamed_error r h = ground arith

-- `note_fail` has seen to a failure only.
abbrev half : ResultStatus → SuiteStatus → SuiteStatus
half ResultStatus.fail status = SuiteStatus.fail
half _ status = status

noted_status :
    (before : List TestResult) (r : TestResult) (st : ResultStatus)
    → r.status ≡ st
    → verdict_step (last_verdict SuiteStatus.pass before) st
      ≡ last_verdict SuiteStatus.pass (before ++ r ∷ [])
noted_status before r st e = sym (
    last_verdict-concat SuiteStatus.pass before r
    ∙ ap (verdict_step (last_verdict SuiteStatus.pass before)) e)

restore_raises :
    {W : Type 0} (message : String) (s : SuiteState W) (a : Unit)
    → ((mark_device {W = W} unsafe >> raise {A = Unit} ErrorKind.baseline_restore message) s).0
      ≢ ok a
unfolding mark_device ◌>>=◌
restore_raises message s a h = cc h

module _ {W : Type 0} where
  -- A round starts.
  pub record Started (before : List TestResult) (s : SuiteState W) : Type 0 where
    pub results : s.results ≡ before
    pub status : s.status ≡ last_verdict SuiteStatus.pass before

  -- The test has run.
  pub record Ran (testcase : TestCaseDefinition) (before : List TestResult) (r : TestResult)
      (s : SuiteState W) : Type 0 where
    pub results : s.results ≡ before
    pub status : s.status ≡ last_verdict SuiteStatus.pass before
    pub id : r.test_id ≡ testcase.id
    pub blame : is_unsafe s.context.device_state ≡ true → r.cleanup_status ≡ failed

  -- Its result is entered.
  pub record Entered (before : List TestResult) (r : TestResult) (s : SuiteState W) : Type 0 where
    pub results : s.results ≡ before ++ r ∷ []
    pub status : s.status ≡ last_verdict SuiteStatus.pass before
    pub blame : is_unsafe s.context.device_state ≡ true → is_blamed r ≡ true

  -- The status follows the result.
  pub record Noted (before : List TestResult) (r : TestResult) (s : SuiteState W) : Type 0 where
    pub results : s.results ≡ before ++ r ∷ []
    pub status : s.status ≡ last_verdict SuiteStatus.pass (before ++ r ∷ [])
    pub blame : is_unsafe s.context.device_state ≡ true → is_blamed r ≡ true

  pub enter :
      (testcase : TestCaseDefinition) (before : List TestResult) (r : TestResult)
      → Triple (Ran testcase before r) (append_test r) (λ _. Entered before r)
  unfolding append_test
  enter testcase before r = record {
    at = λ s h a e. record {
      results = ap (λ l. l ++ r ∷ []) h.results;
      status = h.status;
      blame = λ u. blamed_cleanup r (h.blame u);
    };
  }

  module _ (services : Services W) (testcase : TestCaseDefinition) (before : List TestResult) where
    pub test_runs :
        Triple (Started before) (within (run_test services testcase)) (Ran testcase before)
    unfolding within
    test_runs = record {
      at = λ s h r e.
          let run : Run W = record { context = s.context; world = s.world } in
          record {
            results = h.results;
            status = h.status;
            id = run_test-id services testcase run r e;
            blame = λ u. blamed r _ (run_test-device_state services testcase run r e) u;
          };
    }
      where
        blamed :
            (r : TestResult) (d : DeviceSafetyState)
            → DeviceLaw r d
            → is_unsafe d ≡ true
            → r.cleanup_status ≡ failed
        blamed r d (inl h) u = ground arith
        blamed r d (inr h) u = h.0

  module _ (driver : BaseSwitchDriver W) (device : DeviceDefinition) (P : SuiteState W → Type 0)
      (closed : (s : SuiteState W) (w : W)
        → P s
        → P (record s { world = w; context = record s.context { device_state = safe } })) where
    restored :
        Triple P
          (outside (driver.restore_baseline device.baseline_source) >> mark_device safe)
          (λ _. P)
    unfolding outside mark_device
    restored =
        Triple-bind {R = λ _ s. P (record s { context = record s.context { device_state = safe } })}
          (outside (driver.restore_baseline device.baseline_source)) (λ _. mark_device safe)
          (record { at = λ s h a e. closed s _ h }) λ _. record { at = λ s h a e. h }

    -- A baseline that is restored leaves a safe device; one that is not raises.
    restore_lem : Triple P (restore driver device) (λ _. P)
    unfolding restore
    restore_lem = Triple-try_raise _ _ restored (λ e s a. restore_raises e.message s a)

    pub restore_if_lem :
        (dry_run wanted : Bool) → Triple P (restore_if driver device dry_run wanted) (λ _. P)
    unfolding restore_if device_unsafe
    restore_if_lem dry_run wanted =
        Triple-bind {R = λ _. P} _ _ (record { at = λ s h a e. h })
          λ broken.
            Triple-if (wanted && not dry_run && not broken) _ _ (λ _. restore_lem)
              (λ _. Triple-pure tt (λ s h. h))

  module _ (before : List TestResult) (r : TestResult) where
    pub record Half (st : ResultStatus) (s : SuiteState W) : Type 0 where
      pub results : s.results ≡ before ++ r ∷ []
      pub status : s.status ≡ half st (last_verdict SuiteStatus.pass before)
      pub blame : is_unsafe s.context.device_state ≡ true → is_blamed r ≡ true

    pub note_fail_lem :
        (st : ResultStatus) → Triple (Entered before r) (note_fail st) (λ _. Half st)
    unfolding set_suite_status pure
    note_fail_lem ResultStatus.fail = record {
      at = λ s h a e. record { results = h.results; status = refl; blame = h.blame };
    }
    note_fail_lem ResultStatus.pass = record {
      at = λ s h a e. record { results = h.results; status = h.status; blame = h.blame };
    }
    note_fail_lem ResultStatus.error = record {
      at = λ s h a e. record { results = h.results; status = h.status; blame = h.blame };
    }
    note_fail_lem ResultStatus.skipped = record {
      at = λ s h a e. record { results = h.results; status = h.status; blame = h.blame };
    }

    abbrev Written : SuiteStatus → SuiteState W → Type 0
    Written status s = (s.results ≡ before ++ r ∷ []) × (s.status ≡ status)

    module _ (driver : BaseSwitchDriver W) (device : DeviceDefinition) (dry_run : Bool) where
      reconnect-Keeps :
          (status : SuiteStatus)
          → Keeps (Written status) (
              if dry_run
              then pure tt
              else try_except (outside (reconnect driver)) (λ exc. mark_device unsafe))
      unfolding try_except outside mark_device
      reconnect-Keeps status = search keeps_rules

      pub note_error_lem :
          (st : ResultStatus)
          → r.status ≡ st
          → Triple (Half st) (note_error driver device dry_run st) (λ _. Noted before r)
      unfolding set_suite_status
      note_error_lem ResultStatus.error e =
          Triple-bind {R = λ _. Written SuiteStatus.error} _ _
            (record { at = λ s h a _. (h.results, refl) })
            λ _. Triple-Keeps _ (reconnect-Keeps SuiteStatus.error) λ _ s h. record {
              results = h.0;
              status = h.1 ∙ noted_status before r ResultStatus.error e;
              blame = λ _. blamed_error r e;
            }
      note_error_lem ResultStatus.fail e = Triple-pure _ λ s h. record {
        results = h.results;
        status = h.status ∙ noted_status before r ResultStatus.fail e;
        blame = h.blame;
      }
      note_error_lem ResultStatus.pass e = Triple-pure _ λ s h. record {
        results = h.results;
        status = h.status ∙ noted_status before r ResultStatus.pass e;
        blame = h.blame;
      }
      note_error_lem ResultStatus.skipped e = Triple-pure _ λ s h. record {
        results = h.results;
        status = h.status ∙ noted_status before r ResultStatus.skipped e;
        blame = h.blame;
      }

    pub Noted-safe :
        (s : SuiteState W) (w : W)
        → Noted before r s
        → Noted before r
            (record s { world = w; context = record s.context { device_state = safe } })
    Noted-safe s w h = record { results = h.results; status = h.status; blame = λ u. ground arith }

    -- The ends of a round: the loop goes on, or `fail_fast` or an unsafe device ends it.
    pub record Ended (fail_fast stop : Bool) (s : SuiteState W) : Type 0 where
      pub results : s.results ≡ before ++ r ∷ []
      pub status :
          (s.status ≡ last_verdict SuiteStatus.pass (before ++ r ∷ []))
            × (fail_fast ≡ false → stop ≡ false)
          ⊎ (s.status ≡ SuiteStatus.error) × (is_blamed r ≡ true) × (stop ≡ true)

    ends_by_lem :
        (broken fail_fast : Bool) (st : ResultStatus)
        → Triple
            (λ s. (broken ≡ is_unsafe s.context.device_state) × Noted before r s)
            (ends_by broken fail_fast st)
            (Ended fail_fast)
    unfolding set_suite_status
    ends_by_lem true fail_fast st =
        Triple-bind
          {R = λ _ s.
            (s.results ≡ before ++ r ∷ []) × (s.status ≡ SuiteStatus.error) × (is_blamed r ≡ true)}
          _ _ (record { at = λ s h a e. (h.1.results, refl, h.1.blame (sym h.0)) })
          λ _. Triple-pure true λ s h. record { results = h.0; status = inr (h.1, h.2, refl) }
    ends_by_lem false fail_fast st =
        Triple-pure _
          λ s h. record { results = h.1.results; status = inl (h.1.status, λ e. ground arith) }

    pub ends_loop_lem :
        (fail_fast : Bool) (st : ResultStatus)
        → Triple (Noted before r) (ends_loop fail_fast st) (Ended fail_fast)
    unfolding ends_loop device_unsafe
    ends_loop_lem fail_fast st =
        Triple-bind _ _ (Triple-gets _) λ broken. ends_by_lem broken fail_fast st
