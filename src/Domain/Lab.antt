-- ===== src/Domain/Lab.antt =====
-- lab.py (src/switchtest/domain/lab.py): the one file that an operator edits, the devices that its
-- accounts give and the variables that testcases substitute. A dict is the list of its entries in
-- insertion order. The text of a pydantic error is the text that the validator raises.
use omniswitch_ci_cd.Prelude.{
  ℕ, String, ◌<>◌, Bool, true, false, not, ◌&&◌, Option, none, some, List, [], ◌∷◌, str_eq,
  if◌then◌else◌,
}
use omniswitch_ci_cd.Prelude.Text.{given, show}
use omniswitch_ci_cd.Errors.{ErrorKind}
use omniswitch_ci_cd.Exec.{Result, ok, raised}
use omniswitch_ci_cd.Domain.Enums.{TransportType, ssh, serial}
use omniswitch_ci_cd.Domain.Runtime.{DeviceDefinition}

pub record ProvisionSpec : Type 0 where
  pub privileges : String

pub record LabAccount : Type 0 where
  pub username : String
  pub password : Option String
  pub password_env : Option String
  pub enable_password : Option String
  pub enable_password_env : Option String
  pub transport : Option TransportType
  pub provision : Option ProvisionSpec

pub record LabSwitch : Type 0 where
  pub host : String
  pub ssh_port : ℕ
  pub system_name : String
  pub expected_firmware : Option String
  pub expected_prompt : String
  pub test_port : String
  pub strict_host_key : Bool
  pub connection_timeout : ℕ
  pub command_timeout : ℕ

pub record LabConsole : Type 0 where
  pub port : String
  pub baudrate : ℕ

pub record LabCommissioning : Type 0 where
  pub factory_username : String
  pub factory_password : String
  pub initial_password : String
  pub mgmt_interface : String
  pub mgmt_address : String
  pub mgmt_vlan : ℕ
  pub mgmt_ports : String

pub record LabBaseline : Type 0 where
  pub ip_lockout_threshold : ℕ
  pub lockout_duration : ℕ
  pub password_size_min : ℕ
  pub password_history : ℕ
  pub session_timeout : ℕ
  pub swlog_flash_file_size : ℕ
  pub swlog_size_trap_threshold : ℕ
  pub swlog_appid_level : String

pub record LabConfig : Type 0 where
  pub switch : LabSwitch
  pub console : LabConsole
  pub accounts : List (String × LabAccount)
  pub station_ip : String
  pub test_password : String
  pub baseline : LabBaseline
  pub commissioning : LabCommissioning
  pub capture_interface : Option String
  pub api_poc_path : Option String

-- `_needs_a_password` of an account.
unfoldable pub needs_a_password : LabAccount → Result LabAccount
needs_a_password account =
    if given account.password
    then ok account
    else if given account.password_env
    then ok account
    else raised (record {
      kind = ErrorKind.other;
      message = "account '" <> (account.username <> "' needs 'password' or 'password_env'");
    })

abbrev pub is_serial : TransportType → Bool
is_serial serial = true
is_serial ssh = false

-- `_check_transport_fields` of a device.
unfoldable pub check_transport_fields : DeviceDefinition → Result DeviceDefinition
check_transport_fields device =
    if is_serial device.transport && not (given device.serial_port)
    then raised (record {
      kind = ErrorKind.other;
      message =
          "device '"
          <> (device.name
              <> ("' uses transport 'serial' and must set 'serial_port' "
                  <> "(e.g. COM3 on Windows, /dev/ttyUSB0 on Linux)"));
    })
    else if given device.password
    then ok device
    else if given device.password_env
    then ok device
    else raised (record {
      kind = ErrorKind.other;
      message =
          "device '"
          <> (device.name
              <> ("' needs a password: set it in the lab config, or name "
                  <> "the environment variable holding it with 'password_env'"));
    })

-- The device of one account with a transport, before it is validated.
abbrev pub account_device : LabConfig → String → LabAccount → TransportType → DeviceDefinition
account_device lab role account transport = record {
  name = role;
  host = lab.switch.host;
  port = lab.switch.ssh_port;
  username = account.username;
  password = account.password;
  password_env = account.password_env;
  enable_password = account.enable_password;
  enable_password_env = account.enable_password_env;
  platform = "aos";
  transport = transport;
  serial_port = if is_serial transport then some lab.console.port else none;
  serial_baudrate = lab.console.baudrate;
  baseline_strategy = "load_config";
  baseline_source = none;
  expected_prompt = some lab.switch.expected_prompt;
  expected_firmware = lab.switch.expected_firmware;
  tags = role ∷ [];
  connection_timeout = lab.switch.connection_timeout;
  command_timeout = lab.switch.command_timeout;
  strict_host_key = lab.switch.strict_host_key;
}

abbrev pub add_device :
    String
    → Result DeviceDefinition
    → Result (List (String × DeviceDefinition))
    → Result (List (String × DeviceDefinition))
add_device role (raised e) rest = raised e
add_device role (ok device) (raised e) = raised e
add_device role (ok device) (ok devices) = ok ((role, device) ∷ devices)

-- The loop of `devices`; the roles are the keys of a dict, so no entry overwrites another.
unfoldable pub devices_from :
    LabConfig → List (String × LabAccount) → Result (List (String × DeviceDefinition))
unfolding check_transport_fields
devices_from lab [] = ok []
devices_from lab ((role, account) ∷ accounts) =
    let rest = devices_from lab accounts in
    elim account.transport [
      | none ↦ rest
      | some transport ↦
          add_device role (check_transport_fields (account_device lab role account transport)) rest
    ]

-- `LabConfig.devices`.
unfoldable pub devices : LabConfig → Result (List (String × DeviceDefinition))
unfolding devices_from
devices lab = devices_from lab lab.accounts

-- `d[key]` and `d.get(key)`.
unfoldable pub find {ℓ} : {V : Type ℓ} → String → List (String × V) → Option V
find key [] = none
find key ((k, v) ∷ entries) = if str_eq k key then some v else find key entries

-- `d[key] = v`.
unfoldable pub assign {ℓ} : {V : Type ℓ} → String → V → List (String × V) → List (String × V)
assign key v [] = (key, v) ∷ []
assign key v ((k, w) ∷ entries) =
    let rest = assign key v entries in if str_eq k key then (key, v) ∷ entries else (k, w) ∷ rest

abbrev pub Variables : Type 0
Variables = List (String × String)

abbrev add_firmware : Option String → Variables → Variables
add_firmware none variables = variables
add_firmware (some firmware) variables =
    if given (some firmware) then assign "expected_firmware" firmware variables else variables

user_variables : List (String × LabAccount) → Variables → Variables
unfolding assign
user_variables [] variables = variables
user_variables ((role, account) ∷ accounts) variables =
    user_variables accounts (assign (role <> "_user") account.username variables)

-- `self.baseline.model_dump()` with `str` of each value.
abbrev baseline_entries : LabBaseline → List (String × String)
baseline_entries baseline =
    ("ip_lockout_threshold", show baseline.ip_lockout_threshold)
    ∷ ("lockout_duration", show baseline.lockout_duration)
    ∷ ("password_size_min", show baseline.password_size_min)
    ∷ ("password_history", show baseline.password_history)
    ∷ ("session_timeout", show baseline.session_timeout)
    ∷ ("swlog_flash_file_size", show baseline.swlog_flash_file_size)
    ∷ ("swlog_size_trap_threshold", show baseline.swlog_size_trap_threshold)
    ∷ ("swlog_appid_level", baseline.swlog_appid_level)
    ∷ []

baseline_variables : List (String × String) → Variables → Variables
unfolding assign
baseline_variables [] variables = variables
baseline_variables ((name, value) ∷ entries) variables =
    baseline_variables entries (assign ("baseline_" <> name) value variables)

-- `LabConfig.variables`.
unfoldable pub variables : LabConfig → Variables
unfolding user_variables baseline_variables
variables lab = baseline_variables (baseline_entries lab.baseline) (
    user_variables lab.accounts (
      add_firmware lab.switch.expected_firmware (
        ("host", lab.switch.host)
        ∷ ("system_name", lab.switch.system_name)
        ∷ ("station_ip", lab.station_ip)
        ∷ ("test_password", lab.test_password)
        ∷ ("test_port", lab.switch.test_port)
        ∷ [])))
