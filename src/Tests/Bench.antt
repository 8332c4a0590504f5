-- ===== src/Tests/Bench.antt =====
-- The bench: a world with one SNMP object, a session flag and a clock, and the driver, the probes and the
-- platform over it.
use omniswitch_ci_cd.Prelude.{ℕ, suc, ◌+◌, String, Bool, true, false, Option, none, some, [], ◌∷◌}
use omniswitch_ci_cd.Exec.{Exec, ok}
use omniswitch_ci_cd.Domain.Enums.{
  ValidationType, tcp, TestAction, Severity, DeviceSafetyState, TransportType,
}
use omniswitch_ci_cd.Domain.TestCase.{
  TestStep, SnmpCredentials, ValidationStep, TestCaseDefinition, SuiteDefinition,
}
use omniswitch_ci_cd.Domain.Runtime.{RuntimeContext, DeviceDefinition}
use omniswitch_ci_cd.Driver.{BaseSwitchDriver}
use omniswitch_ci_cd.Snmp.{SnmpResult}
use omniswitch_ci_cd.Validation.Probes.{Probes}
use omniswitch_ci_cd.Validation.Service.{run_validation}
use omniswitch_ci_cd.Execution.Steps.{Services}
use omniswitch_ci_cd.Execution.RunTest.{Run}
use omniswitch_ci_cd.Orchestrator.Suite.{Platform}

pub record Bench : Type 0 where
  pub value : String
  pub online : Bool
  pub clock : ℕ

abbrev done : {A : Type 0} → A → Exec Bench A
done a w = (ok a, w)

abbrev pub driver : BaseSwitchDriver Bench
driver = record {
  connect = λ w. (ok tt, record w { online = true });
  disconnect = λ w. (ok tt, record w { online = false });
  enter_enable_mode = done tt;
  enter_config_mode = done tt;
  exit_config_mode = done tt;
  run_show = λ command timeout reauth. done "Total locked users: 0";
  apply_config = λ commands timeout ignore_errors. done [];
  restore_baseline = λ source. done tt;
  get_metadata = done (record { firmware_version = some "8.9"; device_model = none });
  attempt_login = λ username password timeout. done false;
}

abbrev answer : Option String → SnmpResult
answer value = record { ok = true; value = value; detail = ""; refused = false; timed_out = false }

-- Every user may read and write the object.
abbrev pub probes : Probes Bench
probes = record {
  ping_target = λ target timeout. done (true, "reply");
  scan_port = λ target port timeout protocol. done ("closed", "closed");
  scan_top_ports = λ target top_ports all_ports timeout. done ([], "");
  check_web_unreachable = λ target port timeout. done (true, "refused");
  check_api_unreachable = λ target port path timeout. done (true, "refused");
  probe_tcp = λ target port timeout. done (true, "refused");
  capture_tls_version = λ interface target port duration. done ("TLS 1.2", "0x0303", "a.pcap");
  snmp_get = λ target port oid params timeout w. (ok (answer (some w.value)), w);
  snmp_set = λ target port oid value params value_type timeout w.
      (ok (answer none), record w { value = value });
  trap_open = λ port. done tt;
  trap_close = done tt;
  trap_wait = λ timeout source. done none;
  getenv = λ name. done none;
  get_required_secret = λ name. done "secret";
  re_search = λ multiline pattern text. ok true;
}

abbrev pub bench : Bench
bench = record { value = "lab-switch"; online = false; clock = 100 }

abbrev pub credentials : SnmpCredentials
credentials = record {
  user = "monitor";
  level = "authPriv";
  auth_protocol = "SHA";
  priv_protocol = "AES";
  auth_password = none;
  auth_password_env = some "SNMP_AUTH";
  priv_password = none;
  priv_password_env = none;
}

abbrev pub validation : ValidationType → ValidationStep
validation type = record {
  name = "check";
  type = type;
  command = some "show user";
  expected = some "locked users: 0";
  pattern = none;
  target = some "192.168.1.1";
  port = none;
  protocol = tcp;
  top_ports = 100;
  all_ports = false;
  path = "/";
  oid = some "sysName.0";
  value = some "renamed";
  value_type = "string";
  snmp = some credentials;
  timeout = 30;
  reauth = false;
  trap_port = 162;
  trigger_commands = [];
}

abbrev pub step : TestAction → TestStep
step action = record {
  action = action;
  commands = "user policy" ∷ [];
  ignore_errors = false;
  seconds = some 2;
  username = some "admin";
  wrong_password = some "wrong";
  attempts = 2;
}

abbrev pub testcase : TestCaseDefinition
testcase = record {
  id = "SEC-1";
  name = "lockout";
  description = "";
  feature = "security";
  tags = "security" ∷ [];
  severity = Severity.high;
  preconditions = [];
  setup = step TestAction.cli ∷ [];
  validations = validation ValidationType.contains ∷ validation ValidationType.ping ∷ [];
  cleanup = step TestAction.wait ∷ [];
  continue_on_failure = false;
  timeout = 60;
  restore_baseline_after = true;
}

abbrev pub services : Services Bench
services = record {
  driver = driver;
  run_validation = run_validation probes driver;
  sleep = λ n w. record w { clock = w.clock + n };
  utcnow = λ w. (w.clock, record w { clock = suc w.clock });
}

abbrev pub context : Bool → DeviceSafetyState → RuntimeContext
context dry_run state = record {
  run_id = "run";
  device_name = "admin";
  suite_name = some "security";
  report_dir = "reports";
  lab_file = "lab.yaml";
  fail_fast = false;
  dry_run = dry_run;
  selected_tags = [];
  json_report = none;
  junit_report = none;
  command_logs_enabled = true;
  device_state = state;
}

abbrev pub run : Bool → DeviceSafetyState → Run Bench
run dry_run state = record { context = context dry_run state; world = bench }

abbrev pub device : DeviceDefinition
device = record {
  name = "admin";
  host = "192.168.1.1";
  port = 22;
  username = "admin";
  password = some "switch";
  password_env = none;
  enable_password = none;
  enable_password_env = none;
  platform = "aos";
  transport = TransportType.ssh;
  serial_port = none;
  serial_baudrate = 9600;
  baseline_strategy = "load_config";
  baseline_source = none;
  expected_prompt = some "->";
  expected_firmware = none;
  tags = [];
  connection_timeout = 10;
  command_timeout = 30;
  strict_host_key = false;
}

abbrev pub suite : SuiteDefinition
suite = record { name = "security"; description = ""; tests = "SEC-1" ∷ [] }

abbrev pub platform : Platform Bench
platform = record {
  aos_driver = λ device. driver;
  run_validation = λ driver. run_validation probes driver;
  sleep = λ n w. record w { clock = w.clock + n };
  utcnow = λ w. (w.clock, record w { clock = suc w.clock });
  ensure_directory = λ path. done tt;
  write_json_report = λ path result. done tt;
  write_junit_report = λ path result. done tt;
  write_summary = λ path result. done tt;
}
