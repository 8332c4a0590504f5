-- ===== src/Domain/Runtime.antt =====
-- runtime.py and device.py (src/switchtest/domain): the context of a run, whose `device_state` the
-- services overwrite, and the definition of a device. A path is its text.
use omniswitch_ci_cd.Prelude.{ℕ, String, Bool, Option, List}
use omniswitch_ci_cd.Domain.Enums.{DeviceSafetyState, TransportType}

pub record RuntimeContext : Type 0 where
  pub run_id : String
  pub device_name : String
  pub suite_name : Option String
  pub report_dir : String
  pub lab_file : String
  pub fail_fast : Bool
  pub dry_run : Bool
  pub selected_tags : List String
  pub json_report : Option String
  pub junit_report : Option String
  pub command_logs_enabled : Bool
  pub device_state : DeviceSafetyState

pub record DeviceDefinition : Type 0 where
  pub name : String
  pub host : String
  pub port : ℕ
  pub username : String
  pub password : Option String
  pub password_env : Option String
  pub enable_password : Option String
  pub enable_password_env : Option String
  pub platform : String
  pub transport : TransportType
  pub serial_port : Option String
  pub serial_baudrate : ℕ
  pub baseline_strategy : String
  pub baseline_source : Option String
  pub expected_prompt : Option String
  pub expected_firmware : Option String
  pub tags : List String
  pub connection_timeout : ℕ
  pub command_timeout : ℕ
  pub strict_host_key : Bool
