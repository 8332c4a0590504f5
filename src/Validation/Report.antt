-- ===== src/Validation/Report.antt =====
-- What every validation handler of validation_service.py (src/switchtest/services/validation_service.py)
-- reports, if it returns.
use omniswitch_ci_cd.Prelude.{
  String, ◌⊎◌, inl, inr, ◌≡◌, ◌≢◌, refl, Bool, true, false, Option, some, none, if◌then◌else◌,
}
use omniswitch_ci_cd.Prelude.Text.{or_empty, truthy}
use omniswitch_ci_cd.Exec.{ok, Exec, pure}
use omniswitch_ci_cd.Exec.Triple.{
  Triple, Triple-pure, Triple-raise, Triple-if, Triple-try_finally, Triple-bind, Anything,
  Triple-after,
}
use omniswitch_ci_cd.Domain.Enums.{pass, fail, ValidationType}
use omniswitch_ci_cd.Domain.TestCase.{ValidationStep}
use omniswitch_ci_cd.Domain.Results.{ValidationResult}
use omniswitch_ci_cd.Driver.{BaseSwitchDriver}
use omniswitch_ci_cd.Snmp.{SnmpV3Params, SnmpResult}
use omniswitch_ci_cd.Validation.Probes.{Probes, checked, not_executable, ReceivedTrap}
use omniswitch_ci_cd.Validation.Checks.{
  validate_contains, validate_not_contains, validate_regex, validate_equals, validate_ping,
  validate_port_closed, validate_port_scan_closed, validate_web_unreachable, validate_web_reachable,
  validate_api_unreachable, validate_tls_version, validate_tcp_blocked,
}
use omniswitch_ci_cd.Validation.Snmp.{
  value_result, validate_snmp_get, set_and_restore, validate_snmp_set, denied_result, denied_read,
  denied_write, deny, validate_snmp_denied,
}
use omniswitch_ci_cd.Validation.Trap.{
  Trigger, TrapState, Waited, set_failure, arrived, trigger_set, after_get, await, listen,
  guarded_wait, trap_result, wrong_user, judge, validate_snmp_trap_received,
}
use omniswitch_ci_cd.Validation.Service.{handler, run_validation}

-- A report bears the validation's name, and it is a pass, or a failure that says what was wrong.
abbrev pub Reports : ValidationStep → ValidationResult → Type 0
Reports v r = (r.name ≡ v.name) × ((r.status ≡ pass) ⊎ (r.status ≡ fail) × (r.message ≢ none))

some-ne-none : {m : String} → some m ≢ none
some-ne-none = λ e. cc e

checked-Reports :
    (v : ValidationStep) (good : Bool) (observed expected : Option String) (message : String)
    → Reports v (checked v good observed expected message)
checked-Reports v true observed expected message = (refl, inl refl)
checked-Reports v false observed expected message = (refl, inr (refl, some-ne-none))

either-Reports :
    (v : ValidationStep) (b : Bool) (q r : ValidationResult)
    → Reports v q
    → Reports v r
    → Reports v (if b then q else r)
either-Reports v true q r h k = h
either-Reports v false q r h k = k

module _ {W : Type 0} (v : ValidationStep) where
  abbrev Reporting : Exec W ValidationResult → Type 0
  Reporting m = Triple Anything m (λ r _. Reports v r)

  check_lem :
      (good : Bool) (observed expected : Option String) (message : String)
      → Reporting (pure (checked v good observed expected message))
  check_lem good observed expected message =
      Triple-pure _ (λ s h. checked-Reports v good observed expected message)

  report_lem : (r : ValidationResult) → Reports v r → Reporting (pure r)
  report_lem r h = Triple-pure r (λ _ _. h)

  module _ (probes : Probes W) where
    denied_result-Reports :
        (params : SnmpV3Params) (result : SnmpResult)
        → Reports v (denied_result probes v params result)
    unfolding denied_result
    denied_result-Reports params result = (refl, inl refl)

    denied_read-Reports :
        (oid : String) (params : SnmpV3Params) (result : SnmpResult)
        → Reports v (denied_read probes v oid params result)
    denied_read-Reports oid params result =
        either-Reports v result.ok _ _ (refl, inr (refl, some-ne-none))
          (denied_result-Reports params result)

    value_result-Reporting :
        (params : SnmpV3Params) (result : SnmpResult)
        → Reporting (value_result probes v params result)
    value_result-Reporting params result =
        Triple-if result.ok _ _ (λ _. Triple-after _ _ λ matched. check_lem matched _ _ _)
          (λ _. check_lem false _ _ _)

    snmp_get-Reporting : Reporting (validate_snmp_get probes v)
    unfolding validate_snmp_get
    snmp_get-Reporting = Triple-after _ _ λ params.
        Triple-after _ _ λ oid. Triple-after _ _ λ result. value_result-Reporting params result

    set_and_restore-Reporting :
        (oid value : String) (params : SnmpV3Params) (original : SnmpResult)
        → Reporting (set_and_restore probes v oid value params original)
    unfolding set_and_restore
    set_and_restore-Reporting oid value params original =
        Triple-if original.ok _ _
          (λ _. Triple-after _ _ λ written.
            Triple-try_finally {R = λ r _. Reports v r} _ _
              (Triple-if written.ok _ _ (λ _. Triple-after _ _ λ readback. check_lem _ _ _ _)
                (λ _. check_lem false _ _ _))
              λ r. record { at = λ s h a e. h })
          (λ _. check_lem false _ _ _)

    snmp_set-Reporting : Reporting (validate_snmp_set probes v)
    unfolding validate_snmp_set
    snmp_set-Reporting = Triple-after _ _ λ params. Triple-after _ _ λ oid.
        Triple-after _ _
          λ value. Triple-after _ _ λ original. set_and_restore-Reporting oid value params original

    denied_write-Reporting :
        (oid : String) (params : SnmpV3Params) (original result : SnmpResult)
        → Reporting (denied_write probes v oid params original result)
    denied_write-Reporting oid params original result =
        Triple-if result.ok _ _ (λ _. Triple-after _ _ λ _. check_lem false _ _ _)
          (λ _. report_lem _ (denied_result-Reports params result))

    deny-Reporting :
        (oid : String) (params : SnmpV3Params) (value : Option String)
        → Reporting (deny probes v oid params value)
    unfolding deny
    deny-Reporting oid params none =
        Triple-after _ _ λ result. report_lem _ (denied_read-Reports oid params result)
    deny-Reporting oid params (some value) =
        Triple-after _ _
          λ original. Triple-after _ _ λ result. denied_write-Reporting oid params original result

    snmp_denied-Reporting : Reporting (validate_snmp_denied probes v)
    unfolding validate_snmp_denied
    snmp_denied-Reporting =
        Triple-after _ _ λ params. Triple-after _ _ λ oid. deny-Reporting oid params v.value

module _ {W : Type 0} (probes : Probes W) (driver : BaseSwitchDriver W) (v : ValidationStep) where
  abbrev FailureReports : Option ValidationResult → Type 0
  FailureReports none = Unit
  FailureReports (some r) = Reports v r

  abbrev WaitReports : Waited → Type 0
  WaitReports (set_failure r) = Reports v r
  WaitReports (arrived trap) = Unit

  abbrev FailureReporting : Exec (TrapState W) (Option ValidationResult) → Type 0
  FailureReporting m = Triple Anything m (λ f _. FailureReports f)

  after_get-Reports :
      (t : Trigger) (original : SnmpResult)
      → FailureReporting (after_get probes driver v t original)
  after_get-Reports t original =
      Triple-if original.ok _ _
        (λ _. Triple-after _ _ λ written.
          Triple-if written.ok _ _ (λ _. Triple-after _ _ λ _. Triple-pure _ (λ _ _. tt))
            (λ _. Triple-pure _ (λ _ _. (refl, inr (refl, some-ne-none)))))
        (λ _. Triple-pure _ (λ _ _. (refl, inr (refl, some-ne-none))))

  trigger_set-Reports :
      (trigger : Option Trigger) → FailureReporting (trigger_set probes driver v trigger)
  unfolding trigger_set
  trigger_set-Reports none = Triple-pure _ (λ _ _. tt)
  trigger_set-Reports (some t) = Triple-after _ _ λ original. after_get-Reports t original

  await-Reports :
      (failure : Option ValidationResult)
      → FailureReports failure
      → Triple Anything (await probes driver v failure) (λ w _. WaitReports w)
  await-Reports (some failure) h = Triple-pure _ (λ _ _. h)
  await-Reports none h = Triple-after _ _ λ trap. Triple-pure _ (λ _ _. tt)

  listen-Reports :
      (trigger : Option Trigger)
      → Triple Anything (listen probes driver v trigger) (λ w _. WaitReports w)
  unfolding listen
  listen-Reports trigger = Triple-after _ _ λ _.
      Triple-bind {R = λ f _. FailureReports f} _ _ (trigger_set-Reports trigger)
        λ failure. record { at = λ s h a e. (await-Reports failure h).at s tt a e }

  guarded_wait-Reports :
      (trigger : Option Trigger)
      → Triple Anything (guarded_wait probes driver v trigger) (λ w _. WaitReports w)
  unfolding guarded_wait
  guarded_wait-Reports trigger =
      Triple-try_finally {R = λ w _. WaitReports w} _ _
        (Triple-after _ _ λ _.
          Triple-try_finally {R = λ w _. WaitReports w} _ _ (listen-Reports trigger)
            λ w. record { at = λ s h a e. h })
        λ w. record { at = λ s h a e. h }

  trap_result-Reports :
      (trigger : Option Trigger) (trap : Option ReceivedTrap)
      → Reports v (trap_result probes driver v trigger trap)
  unfolding trap_result
  trap_result-Reports trigger none = (refl, inr (refl, some-ne-none))
  trap_result-Reports trigger (some trap) =
      either-Reports v (wrong_user probes driver v trap) _ _ (refl, inr (refl, some-ne-none))
        (refl, inl refl)

  judge-Reports :
      (trigger : Option Trigger) (w : Waited)
      → WaitReports w
      → Reports v (judge probes driver v trigger w)
  unfolding judge
  judge-Reports trigger (set_failure r) h = h
  judge-Reports trigger (arrived trap) h = trap_result-Reports trigger trap

  trap_received-Reporting :
      Triple Anything (validate_snmp_trap_received probes driver v) (λ r _. Reports v r)
  unfolding validate_snmp_trap_received
  trap_received-Reporting =
      Triple-if (truthy (or_empty v.target)) _ (not_executable v " requires a target")
        (λ _. Triple-after _ _ λ trigger.
          Triple-bind {R = λ w _. WaitReports w} _ _
            (record {
              at = λ w h a e.
                  (guarded_wait-Reports trigger).at (record { world = w; written = none }) tt a e;
            })
            λ outcome. Triple-pure _ (λ _ h. judge-Reports trigger outcome h))
        (λ _. Triple-raise _ _)

  handler-Reporting :
      (t : ValidationType) → Triple Anything (handler probes driver t v) (λ r _. Reports v r)
  unfolding handler validate_contains validate_not_contains validate_regex validate_equals
      validate_ping validate_port_closed validate_port_scan_closed validate_web_unreachable
      validate_web_reachable validate_api_unreachable validate_tls_version validate_tcp_blocked
  handler-Reporting ValidationType.regex =
      Triple-after _ _ λ output. Triple-after _ _ λ matched. check_lem v matched _ _ _
  handler-Reporting ValidationType.tls_version =
      Triple-after _ _ λ interface. Triple-after _ _ λ capture. check_lem v _ _ _ _
  handler-Reporting ValidationType.snmp_get = snmp_get-Reporting v probes
  handler-Reporting ValidationType.snmp_set = snmp_set-Reporting v probes
  handler-Reporting ValidationType.snmp_denied = snmp_denied-Reporting v probes
  handler-Reporting ValidationType.snmp_trap_received = trap_received-Reporting
  handler-Reporting _ = Triple-after _ _ λ answer. check_lem v _ _ _ _

  -- Whatever the type of a validation, a result that `run_validation` returns bears the name of the
  -- validation, and it is a pass, or a failure with a message: never an error and never skipped.
  pub run_validation-Reports :
      (w : W) (result : ValidationResult)
      → (run_validation probes driver v w).0 ≡ ok result
      → Reports v result
  unfolding run_validation
  run_validation-Reports w result returned = (handler-Reporting v.type).at w tt result returned
