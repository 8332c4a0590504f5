-- ===== src/Tests/Application.antt =====
-- Runs of the whole application on the bench.
use omniswitch_ci_cd.Prelude.{◌≡◌, ◌↔◌, refl, String, false, none, some, [], ◌∷◌}
use omniswitch_ci_cd.Errors.{
  ErrorKind, Exception, is_switch_test, is_loader, is_connection, is_baseline_restore, success,
  invalid_input,
}
use omniswitch_ci_cd.Exec.{Result, ok, raised, ◌>>=◌}
use omniswitch_ci_cd.Domain.Results.{SuiteResult}
use omniswitch_ci_cd.Domain.Lab.{LabConfig, LabAccount, devices, find}
use omniswitch_ci_cd.Domain.Runtime.{DeviceDefinition}
use omniswitch_ci_cd.Domain.Lab.{account_device}
use omniswitch_ci_cd.Domain.Enums.{TransportType}
use omniswitch_ci_cd.Domain.Devices.{IsUsable, devices-IsUsable}
use omniswitch_ci_cd.Prelude.{All, List}
use omniswitch_ci_cd.App.{RunArguments, Loading, try_run, run_application, error_code}
use omniswitch_ci_cd.App.ExitCodes.{
  IsClean, run_application-escape, run_application-success, run_application-unknown_device,
}
use omniswitch_ci_cd.Tests.Bench.{Bench, bench, platform, suite, testcase}

abbrev arguments : String → RunArguments
arguments name = record {
  device_name = name;
  suite_path = "suites/security.yaml";
  lab_file = "lab.yaml";
  report_dir = "reports";
  json_report = none;
  junit_report = none;
  fail_fast = false;
  dry_run = false;
  tags = [];
}

abbrev pub account : LabAccount
account = record {
  username = "admin";
  password = some "switch";
  password_env = none;
  enable_password = none;
  enable_password_env = none;
  transport = none;
  provision = none;
}

-- A lab whose one account has no transport, so that it gives no device.
abbrev pub lab : LabConfig
lab = record {
  switch = record {
    host = "192.168.1.1";
    ssh_port = 22;
    system_name = "lab-switch";
    expected_firmware = none;
    expected_prompt = "->";
    test_port = "1/1/1";
    strict_host_key = false;
    connection_timeout = 10;
    command_timeout = 30;
  };
  console = record { port = ""; baudrate = 9600 };
  accounts = ("admin", account) ∷ [];
  station_ip = "192.168.1.2";
  test_password = "Test-1234";
  baseline = record {
    ip_lockout_threshold = 6;
    lockout_duration = 0;
    password_size_min = 8;
    password_history = 4;
    session_timeout = 4;
    swlog_flash_file_size = 1250;
    swlog_size_trap_threshold = 90;
    swlog_appid_level = "info";
  };
  commissioning = record {
    factory_username = "admin";
    factory_password = "switch";
    initial_password = "Switch-1";
    mgmt_interface = "lab";
    mgmt_address = "192.168.1.1/24";
    mgmt_vlan = 1;
    mgmt_ports = "1/1/1";
  };
  capture_interface = none;
  api_poc_path = none;
}

abbrev loading : Result LabConfig → Loading Bench
loading loaded = record {
  load_lab = λ path w. (loaded, w);
  load_suite_testcases = λ path variables w. (ok (suite, testcase ∷ []), w);
  make_run_id = λ w. (ok "run", w);
}

run_application-unknown_device_example :
    run_application (loading (ok lab)) platform (arguments "guest") bench
    ≡ (ok invalid_input, bench)
run_application-unknown_device_example =
    run_application-unknown_device (loading (ok lab)) platform (arguments "guest") bench lab [] refl
      (unfold devices in refl) (unfold find in refl)

abbrev broken : Exception
broken = record { kind = ErrorKind.other; message = "device 'user' must set 'serial_port'" }

broken_lem :
    (run_application (loading (raised broken)) platform (arguments "user") bench).0 ≡ raised broken
unfolding run_application try_run error_code is_loader is_connection is_baseline_restore
    is_switch_test ◌>>=◌
broken_lem = refl

run_application-escape_example : is_switch_test broken.kind ≡ false
run_application-escape_example =
    run_application-escape (loading (raised broken)) platform (arguments "user") bench broken
      broken_lem

run_application-success_example :
    (run_application (loading (ok lab)) platform (arguments "admin") bench).0 ≡ ok success ↔ (
      (result : SuiteResult) × ((try_run (loading (ok lab)) platform (arguments "admin") bench).0
        ≡ ok result)
      × IsClean result)
run_application-success_example =
    run_application-success (loading (ok lab)) platform (arguments "admin") bench

-- The same lab with a console session.
abbrev pub wired_lab : LabConfig
wired_lab = record lab {
  console = record { port = "COM3"; baudrate = 9600 };
  accounts = ("admin", record account { transport = some TransportType.serial }) ∷ [];
}

abbrev wired : List (String × DeviceDefinition)
wired =
    (
      "admin",
      account_device wired_lab "admin" (record account { transport = some TransportType.serial })
          TransportType.serial,
    )
    ∷ []

wired_lem : devices wired_lab ≡ ok wired
unfolding devices
wired_lem = refl

devices-IsUsable_example : All (IsUsable wired_lab) wired
devices-IsUsable_example = devices-IsUsable wired_lab wired wired_lem
