-- ===== src/Aos/Driver.antt =====
-- `AOSSwitchDriver` of src/switchtest/drivers/aos.py over its transports.
use omniswitch_ci_cd.Prelude.{
  ℕ, String, ◌<>◌, Bool, true, false, not, ◌&&◌, ◌||◌, Option, none, some, List, [], ◌∷◌, map,
  select, leb, if◌then◌else◌,
}
use omniswitch_ci_cd.Prelude.Text.{truthy, given, or_empty, or_text, codes, starts_with, strip_text}
use omniswitch_ci_cd.Errors.{ErrorKind, Exception, is_connection}
use omniswitch_ci_cd.Exec.{Exec, pure, raise, throw, gets, try_except, ◌>>=◌, ◌>>◌}
use omniswitch_ci_cd.Domain.Enums.{TransportType, ssh, serial, transport_value}
use omniswitch_ci_cd.Domain.Runtime.{DeviceDefinition}
use omniswitch_ci_cd.Driver.{BaseSwitchDriver, Metadata}
use omniswitch_ci_cd.Aos.Output.{
  lines_of, is_repeatable, clean_show_output, extract_firmware, extract_model, is_password_prompt,
}
use omniswitch_ci_cd.Aos.Wire.{
  Transport, Wire, AosState, on_wire, set_transport, check_outputs, resolve_secret,
  resolve_optional_secret,
}

module _ {W : Type 0} (wire : Wire W) (device : DeviceDefinition) where
  abbrev pub transport_of :
      TransportType → (password : String) (secondary : Option String) → Transport
  transport_of serial password secondary = record {
    kind = serial;
    address = or_empty device.serial_port;
    port = device.serial_baudrate;
    auth_username = device.username;
    auth_password = password;
    auth_secondary = secondary;
    prompt = or_text device.expected_prompt "->";
    timeout_socket = device.connection_timeout;
    timeout_ops = device.command_timeout;
    auth_strict_key = false;
  }
  transport_of ssh password secondary = record {
    kind = ssh;
    address = device.host;
    port = device.port;
    auth_username = device.username;
    auth_password = password;
    auth_secondary = secondary;
    prompt = "";
    timeout_socket = device.connection_timeout;
    timeout_ops = device.command_timeout;
    auth_strict_key = device.strict_host_key;
  }

  -- `_build_transport`.
  unfoldable pub build_transport : Exec W Transport
  unfolding resolve_secret resolve_optional_secret
  build_transport = do
    password ←
        resolve_secret wire device.password device.password_env ("device '" <> (device.name <> "'"))
    secondary ← resolve_optional_secret wire device.enable_password device.enable_password_env
    pure (transport_of device.transport password secondary)

  -- `connect`: the attribute is set before the transport connects.
  unfoldable pub aos_connect : Exec (AosState W) Unit
  unfolding build_transport
  aos_connect = do
    transport ← on_wire build_transport
    set_transport transport
    on_wire (wire.connect transport)

  abbrev pub close_if : Option Transport → Exec (AosState W) Unit
  close_if none = pure tt
  close_if (some transport) = on_wire (wire.close transport)

  -- `disconnect`.
  unfoldable pub aos_disconnect : Exec (AosState W) Unit
  aos_disconnect = do transport ← gets (λ s. s.transport); close_if transport

  abbrev pub connected : Option Transport → Exec (AosState W) Transport
  connected (some transport) = pure transport
  connected none =
      raise ErrorKind.command_execution
        (transport_value device.transport <> " transport is not connected")

  -- `_transport`.
  unfoldable pub current_transport : Exec (AosState W) Transport
  unfolding transport_value
  current_transport = do transport ← gets (λ s. s.transport); connected transport

  -- `self._transport().send_command(command, timeout=timeout)`.
  unfoldable pub send : (command : String) (timeout : ℕ) → Exec (AosState W) String
  unfolding current_transport
  send command timeout = do
    transport ← current_transport
    on_wire (wire.send_command transport command timeout)

  abbrev enable_result : String → Exec (AosState W) Unit
  enable_result result =
      if is_password_prompt wire.re_search result
      then raise ErrorKind.command_execution
          "Enable authentication failed: device is still requesting a password"
      else pure tt

  -- `enter_enable_mode`.
  unfoldable pub enter_enable_mode : Exec (AosState W) Unit
  unfolding current_transport
  enter_enable_mode =
      if not (given device.enable_password || given device.enable_password_env)
      then pure tt
      else (do
        transport ← current_transport
        result ← on_wire (
            wire.send_interactive transport
              (("enable", "Password:", false)
                ∷ (or_empty transport.auth_secondary, "->", true)
                ∷ [])
              device.command_timeout)
        enable_result result)

  -- `_run_show_with_reauth`.
  unfoldable pub run_show_with_reauth : (command : String) (timeout : ℕ) → Exec (AosState W) String
  unfolding current_transport
  run_show_with_reauth command timeout = do
    transport ← current_transport
    let prompt = or_text device.expected_prompt "->"
    output ← on_wire (
        wire.send_interactive transport
          ((command, "Password:", false)
            ∷ (transport.auth_password, "^(?:.*[^-])?" <> (wire.re_escape prompt <> "\\s*$"), true)
            ∷ [])
          timeout)
    pure (clean_show_output wire.re_search output command)

  -- `time.sleep(0.2)`, and the command once more.
  abbrev pub ask_again : (command : String) (timeout : ℕ) → Exec (AosState W) String
  ask_again command timeout = do
    on_wire wire.short_sleep
    retry_output ← send command timeout
    pure (clean_show_output wire.re_search retry_output command)

  abbrev pub repeat_if : (cleaned command : String) (timeout : ℕ) → Exec (AosState W) String
  repeat_if cleaned command timeout =
      if truthy cleaned || not (is_repeatable command)
      then pure cleaned
      else ask_again command timeout

  -- `run_show`.
  unfoldable pub aos_run_show :
      (command : String) (timeout : ℕ) (reauth : Bool) → Exec (AosState W) String
  unfolding run_show_with_reauth send
  aos_run_show command timeout true = run_show_with_reauth command timeout
  aos_run_show command timeout false = do
    output ← send command timeout
    repeat_if (clean_show_output wire.re_search output command) command timeout

  -- `apply_config`.
  unfoldable pub aos_apply_config :
      (commands : List String) (timeout : ℕ) (ignore_errors : Bool)
      → Exec (AosState W) (List String)
  unfolding current_transport check_outputs
  aos_apply_config commands timeout ignore_errors = do
    transport ← current_transport
    outputs ← on_wire (wire.send_commands transport commands timeout)
    if ignore_errors then pure outputs else (check_outputs outputs >> pure outputs)

  -- A line of a baseline that is sent.
  abbrev is_baseline_command : String → Bool
  is_baseline_command line = truthy line && not (starts_with (codes line) (codes "!"))

  abbrev apply_baseline : List String → Exec (AosState W) Unit
  apply_baseline [] = pure tt
  apply_baseline (command ∷ commands) =
      aos_apply_config (command ∷ commands)
        (if leb device.command_timeout 60 then 60 else device.command_timeout) false
      >> pure tt

  abbrev load_baseline : String → Bool → Exec (AosState W) Unit
  load_baseline source false =
      raise ErrorKind.baseline_restore ("Baseline file not found: " <> source)
  load_baseline source true = do
    text ← on_wire (wire.read_text source)
    apply_baseline (select is_baseline_command (map strip_text (lines_of text)))

  -- `restore_baseline`.
  unfoldable pub aos_restore_baseline : (source : Option String) → Exec (AosState W) Unit
  unfolding aos_apply_config
  aos_restore_baseline source =
      if given source
      then (on_wire (wire.path_exists (or_empty source)) >>= load_baseline (or_empty source))
      else pure tt

  -- `get_metadata`.
  unfoldable pub aos_get_metadata : Exec (AosState W) Metadata
  unfolding aos_run_show
  aos_get_metadata = do
    output ← aos_run_show "show system" device.command_timeout false
    pure (record {
      firmware_version = extract_firmware wire.re_search output;
      device_model = extract_model wire.re_search output;
    })

  abbrev pub login_transport : (username password : String) (timeout : ℕ) → Transport
  login_transport username password timeout = record {
    kind = ssh;
    address = device.host;
    port = device.port;
    auth_username = username;
    auth_password = password;
    auth_secondary = none;
    prompt = "";
    timeout_socket = timeout;
    timeout_ops = timeout;
    auth_strict_key = device.strict_host_key;
  }

  -- `except SwitchConnectionError`; other exceptions go on.
  abbrev pub login_failed : Transport → Exception → Exec W Bool
  login_failed transport exc =
      if is_connection exc.kind then (wire.close transport >> pure false) else throw exc

  -- The login with a transport of its own: `True` behind the `try` statement closes it too.
  unfoldable pub try_login : Transport → Exec W Bool
  try_login transport = do
    opened ← try_except (wire.connect transport >> pure true) (login_failed transport)
    if opened then (wire.close transport >> pure true) else pure false

  -- `attempt_login`.
  unfoldable pub aos_attempt_login :
      (username password : String) (timeout : ℕ) → Exec (AosState W) Bool
  unfolding try_login
  aos_attempt_login username password timeout =
      on_wire (try_login (login_transport username password timeout))

  -- `AOSSwitchDriver(device)` as a driver.
  abbrev pub aos_driver : BaseSwitchDriver (AosState W)
  aos_driver = record {
    connect = aos_connect;
    disconnect = aos_disconnect;
    enter_enable_mode = enter_enable_mode;
    enter_config_mode = send "configure terminal" device.command_timeout >> pure tt;
    exit_config_mode = send "end" device.command_timeout >> pure tt;
    run_show = aos_run_show;
    apply_config = aos_apply_config;
    restore_baseline = aos_restore_baseline;
    get_metadata = aos_get_metadata;
    attempt_login = aos_attempt_login;
  }
