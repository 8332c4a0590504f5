-- ===== src/Validation/Service.antt =====
-- `ValidationService.run_validation` of src/switchtest/services/validation_service.py: the handler of
-- each validation type. The transcript that it prints of SNMP exchanges is left out.
use omniswitch_ci_cd.Exec.{Exec}
use omniswitch_ci_cd.Domain.Enums.{ValidationType}
use omniswitch_ci_cd.Domain.TestCase.{ValidationStep}
use omniswitch_ci_cd.Domain.Results.{ValidationResult}
use omniswitch_ci_cd.Driver.{BaseSwitchDriver}
use omniswitch_ci_cd.Validation.Probes.{Probes}
use omniswitch_ci_cd.Validation.Checks.{
  validate_contains, validate_not_contains, validate_regex, validate_equals, validate_ping,
  validate_port_closed, validate_port_scan_closed, validate_web_unreachable, validate_web_reachable,
  validate_api_unreachable, validate_tls_version, validate_tcp_blocked,
}
use omniswitch_ci_cd.Validation.Snmp.{validate_snmp_get, validate_snmp_set, validate_snmp_denied}
use omniswitch_ci_cd.Validation.Trap.{validate_snmp_trap_received}

module _ {W : Type 0} (probes : Probes W) (driver : BaseSwitchDriver W) where
  unfoldable pub handler : ValidationType → ValidationStep → Exec W ValidationResult
  handler ValidationType.contains v = validate_contains driver v
  handler ValidationType.not_contains v = validate_not_contains driver v
  handler ValidationType.regex v = validate_regex probes driver v
  handler ValidationType.equals v = validate_equals driver v
  handler ValidationType.ping v = validate_ping probes v
  handler ValidationType.port_closed v = validate_port_closed probes v
  handler ValidationType.port_scan_closed v = validate_port_scan_closed probes v
  handler ValidationType.web_unreachable v = validate_web_unreachable probes v
  handler ValidationType.web_reachable v = validate_web_reachable probes v
  handler ValidationType.api_unreachable v = validate_api_unreachable probes v
  handler ValidationType.tls_version v = validate_tls_version probes v
  handler ValidationType.tcp_blocked v = validate_tcp_blocked probes v
  handler ValidationType.snmp_get v = validate_snmp_get probes v
  handler ValidationType.snmp_set v = validate_snmp_set probes v
  handler ValidationType.snmp_denied v = validate_snmp_denied probes v
  handler ValidationType.snmp_trap_received v = validate_snmp_trap_received probes driver v

  -- `run_validation`.
  unfoldable pub run_validation : ValidationStep → Exec W ValidationResult
  unfolding handler
  run_validation v = handler v.type v
