-- ===== src/Domain/Enums.antt =====
-- enums.py (src/switchtest/domain/enums.py), with the values that the enums carry.
use omniswitch_ci_cd.Prelude.{String, Bool, true, false}

pub data ValidationType : Type 0 where
  contains not_contains regex equals ping port_closed port_scan_closed : ValidationType
  web_unreachable web_reachable api_unreachable tls_version tcp_blocked : ValidationType
  snmp_get snmp_set snmp_denied snmp_trap_received : ValidationType

pub data TransportProtocol : Type 0 where
  tcp udp : TransportProtocol

-- `protocol.value`.
unfoldable pub protocol_value : TransportProtocol → String
protocol_value tcp = "tcp"
protocol_value udp = "udp"

pub data TransportType : Type 0 where
  ssh serial : TransportType

-- `transport.value`.
unfoldable pub transport_value : TransportType → String
transport_value ssh = "ssh"
transport_value serial = "serial"

pub data TestAction : Type 0 where
  cli wait save_config restore_baseline reboot trigger_failed_logins ensure_unlocked : TestAction

pub data Severity : Type 0 where
  low medium high critical : Severity

pub data ResultStatus : Type 0 where
  pass fail error skipped : ResultStatus

-- `status.value`.
unfoldable pub status_value : ResultStatus → String
status_value pass = "pass"
status_value fail = "fail"
status_value error = "error"
status_value skipped = "skipped"

abbrev pub is_pass : ResultStatus → Bool
is_pass pass = true
is_pass _ = false

abbrev pub is_fail : ResultStatus → Bool
is_fail fail = true
is_fail _ = false

abbrev pub is_error : ResultStatus → Bool
is_error error = true
is_error _ = false

pub data SuiteStatus : Type 0 where
  pass fail error : SuiteStatus

pub data DeviceSafetyState : Type 0 where
  safe modified recovery_required unsafe : DeviceSafetyState

abbrev pub is_unsafe : DeviceSafetyState → Bool
is_unsafe unsafe = true
is_unsafe _ = false
