-- ===== src/Validation/Snmp.antt =====
-- The validation handlers that exchange SNMP requests (src/switchtest/services/validation_service.py).
use omniswitch_ci_cd.Prelude.{
  ℕ, String, ◌<>◌, Bool, false, ◌&&◌, Option, none, some, str_eq, if◌then◌else◌,
}
use omniswitch_ci_cd.Prelude.Text.{
  given, truthy, or_empty, or_else, or_number, or_text, show_option,
}
use omniswitch_ci_cd.Errors.{ErrorKind}
use omniswitch_ci_cd.Exec.{Result, Exec, pure, raise, try_finally, ◌>>=◌, ◌>>◌}
use omniswitch_ci_cd.Domain.Enums.{pass}
use omniswitch_ci_cd.Domain.TestCase.{ValidationStep}
use omniswitch_ci_cd.Domain.Results.{ValidationResult}
use omniswitch_ci_cd.Snmp.{SnmpV3Params, SnmpResult, redact, unanswered}
use omniswitch_ci_cd.Validation.Probes.{
  Probes, checked, failed_check, not_executable, require_oid, snmp_params,
}

module _ {W : Type 0} (probes : Probes W) (v : ValidationStep) where
  abbrev pub snmp_port : ℕ
  snmp_port = or_number v.port 161

  -- `_value_matches`.
  unfoldable pub value_matches : String → Result Bool
  value_matches value = by_expected v.expected
    where
      by_pattern : Option String → Result Bool
      by_pattern pattern =
          if given pattern
          then probes.re_search false (or_empty pattern) value
          else Result.ok (truthy value)

      by_expected : Option String → Result Bool
      by_expected (some expected) = Result.ok (str_eq value expected)
      by_expected none = by_pattern v.pattern

  abbrev pub value_result : SnmpV3Params → SnmpResult → Exec W ValidationResult
  value_result params result =
      let expected = some (or_text (or_else v.expected v.pattern) "any value") in
      if result.ok
      then (do
        matched ← (λ w. (value_matches (or_empty result.value), w))
        pure (
            checked v matched result.value expected
              ("SNMP GET returned '" <> (show_option result.value <> "'"))))
      else pure (
          failed_check v (some (redact params result.detail)) expected (
            "SNMP GET of " <> (show_option v.oid <> (" failed as user '" <> (params.user <> "'")))))

  -- `_validate_snmp_get`.
  unfoldable pub validate_snmp_get : Exec W ValidationResult
  validate_snmp_get = do
    params ← snmp_params probes v
    oid ← require_oid v
    result ← probes.snmp_get (or_empty v.target) snmp_port oid params v.timeout
    value_result params result

  abbrev pub after_restore : (oid original : String) → SnmpV3Params → SnmpResult → Exec W Unit
  after_restore oid original params restored =
      if restored.ok
      then pure tt
      else raise ErrorKind.validation_execution (
          "Could not restore "
          <> (oid
              <> (" to '"
                  <> (original
                      <> ("' after '" <> (v.name <> ("': " <> redact params restored.detail)))))))

  -- `_restore_snmp_value`.
  unfoldable pub restore_snmp_value : (oid original : String) → SnmpV3Params → Exec W Unit
  restore_snmp_value oid original params = do
    restored ←
        probes.snmp_set (or_empty v.target) snmp_port oid original params v.value_type v.timeout
    after_restore oid original params restored

  abbrev pub require_value : Option String → Exec W String
  require_value (some value) = pure value
  require_value none = not_executable v " requires a value to set"

  abbrev pub get_oid : String → SnmpV3Params → Exec W SnmpResult
  get_oid oid params = probes.snmp_get (or_empty v.target) snmp_port oid params v.timeout

  abbrev pub set_oid : (oid value : String) → SnmpV3Params → Exec W SnmpResult
  set_oid oid value params =
      probes.snmp_set (or_empty v.target) snmp_port oid value params v.value_type v.timeout

  abbrev pub readback_result :
      (oid new_value : String) → SnmpV3Params → SnmpResult → ValidationResult
  readback_result oid new_value params readback =
      checked v (readback.ok && str_eq (or_empty readback.value) new_value)
        (if readback.ok then readback.value else some (redact params readback.detail))
        (some new_value) (oid <> (" did not read back as '" <> (new_value <> "' after the SET")))

  -- The `try` block behind the SET.
  abbrev pub confirm :
      (oid new_value : String) → SnmpV3Params → SnmpResult → Exec W ValidationResult
  confirm oid new_value params written =
      if written.ok
      then (do readback ← get_oid oid params; pure (readback_result oid new_value params readback))
      else pure (
          failed_check v (some (redact params written.detail)) (some new_value)
            ("SNMP SET of " <> (oid <> (" was rejected for user '" <> (params.user <> "'")))))

  -- What follows the read of the original value.
  unfoldable pub set_and_restore :
      (oid new_value : String) → SnmpV3Params → SnmpResult → Exec W ValidationResult
  set_and_restore oid new_value params original =
      if original.ok
      then (do
        written ← set_oid oid new_value params
        try_finally (confirm oid new_value params written)
            (restore_snmp_value oid (or_empty original.value) params))
      else pure (
          failed_check v (some (redact params original.detail)) (some new_value) (
            "Could not read "
            <> (oid <> (" before setting it (as user '" <> (params.user <> "')")))))

  -- `_validate_snmp_set`.
  unfoldable pub validate_snmp_set : Exec W ValidationResult
  validate_snmp_set = do
    params ← snmp_params probes v
    oid ← require_oid v
    new_value ← require_value v.value
    original ← get_oid oid params
    set_and_restore oid new_value params original

  -- `_denied_result`.
  unfoldable pub denied_result : SnmpV3Params → SnmpResult → ValidationResult
  denied_result params result = record {
    name = v.name;
    status = pass;
    observed = some (redact params result.detail);
    expected = some ("refused for user '" <> (params.user <> "'"));
    message =
        if unanswered result
        then some (
            "Refused as expected, but the agent never answered -- that also happens when SNMP "
            <> ("is disabled or the request is filtered, so this is weaker evidence than an "
                <> "explicit refusal"))
        else none;
  }

  abbrev pub denied_read : String → SnmpV3Params → SnmpResult → ValidationResult
  denied_read oid params result =
      if result.ok
      then failed_check v result.value
          (some (oid <> (" not readable by '" <> (params.user <> "'"))))
          ("SNMP GET unexpectedly succeeded for user '" <> (params.user <> "'"))
      else denied_result params result

  abbrev pub restore_read : String → SnmpV3Params → SnmpResult → Exec W Unit
  restore_read oid params original =
      if original.ok then restore_snmp_value oid (or_empty original.value) params else pure tt

  -- What follows the SET that should have been refused.
  abbrev pub denied_write :
      String → SnmpV3Params → (original result : SnmpResult) → Exec W ValidationResult
  denied_write oid params original result =
      if result.ok
      then (do
        restore_read oid params original
        pure (
            failed_check v (some (redact params result.detail))
              (some (oid <> (" not writable by '" <> (params.user <> "'"))))
              ("SNMP SET unexpectedly succeeded for read-only user '" <> (params.user <> "'"))))
      else pure (denied_result params result)

  unfoldable pub deny : String → SnmpV3Params → Option String → Exec W ValidationResult
  deny oid params none = do result ← get_oid oid params; pure (denied_read oid params result)
  deny oid params (some value) = do
    original ← get_oid oid params
    result ← set_oid oid value params
    denied_write oid params original result

  -- `_validate_snmp_denied`.
  unfoldable pub validate_snmp_denied : Exec W ValidationResult
  unfolding deny
  validate_snmp_denied = do
    params ← snmp_params probes v
    oid ← require_oid v
    deny oid params v.value
