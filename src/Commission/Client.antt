-- ===== src/Commission/Client.antt =====
-- scripts/commission.py over the serial console of src/switchtest/infrastructure/console/client.py: `open_console`, and
-- that a run of the script on this client ends with a closed port.
use omniswitch_ci_cd.Prelude.{ℕ, String, false, ◌≡◌}
use omniswitch_ci_cd.Exec.{Exec, pure, ◌>>=◌}
use omniswitch_ci_cd.Exec.Laws.{Keeps}
use omniswitch_ci_cd.Domain.Lab.{LabConfig}
use omniswitch_ci_cd.Console.Port.{Serial, ConsoleSettings, ConsoleState}
use omniswitch_ci_cd.Console.Session.{
  open_port_only, close, send_command, await_login_prompt, submit_login, change_password_at_login,
}
use omniswitch_ci_cd.Console.Life.{IsPyserial, send-Sound}
use omniswitch_ci_cd.Console.Operations.{open-Sound, open-Off}
use omniswitch_ci_cd.Console.Close.{
  Kept, close-Off, close-Kept, submit-Kept, change-Kept, await-Kept,
}
use omniswitch_ci_cd.Commission.Stage.{SerialConsole, CommissionArguments, Report, Outside}
use omniswitch_ci_cd.Commission.Run.{commission_main}
use omniswitch_ci_cd.Commission.Ends.{IsPort, commission_main-closes}

-- The transport that `open_console` constructs, with the defaults of the dataclass.
unfoldable pub console_settings : LabConfig → ConsoleSettings
console_settings lab = record {
  serial_port = lab.console.port;
  auth_username = lab.commissioning.factory_username;
  auth_password = lab.commissioning.factory_password;
  baudrate = lab.console.baudrate;
  prompt = lab.switch.expected_prompt;
  timeout_socket = 15;
}

-- The clock, the network and the files do not touch the serial port.
pub record IsBeside {W : Type 0} (outside : Outside W) (Closed : W → Type 0) : Type 0 where
  pub sleep_keeps : (seconds : ℕ) → Keeps Closed (outside.sleep seconds)
  pub scan_keeps :
      (target : String) (top_ports : ℕ) → Keeps Closed (outside.scan_top_ports target top_ports)
  pub clock_keeps : Keeps Closed outside.utcnow
  pub load_keeps : (path : String) → Keeps Closed (outside.load_lab path)
  pub write_keeps :
      (path : String) (report : Report) → Keeps Closed (outside.write_json path report)

-- The transport with what its methods keep: without a connection the port is closed.
pub record Transport {W : Type 0} (Closed : W → Type 0) : Type 0 where
  pub state : ConsoleState W
  pub sound : state.connected ≡ false → Closed state.world

-- The transport has no connection, and the port is closed.
abbrev pub IsOff : {W : Type 0} (Closed : W → Type 0) → Transport Closed → Type 0
IsOff Closed t = (t.state.connected ≡ false) × Closed t.state.world

module _ {W : Type 0} (serial : Serial W) (Closed : W → Type 0)
    (pyserial : IsPyserial serial Closed) where
  abbrev guarded :
      {A : Type 0} (lab : LabConfig) (m : Exec (ConsoleState W) A)
      → Kept serial (console_settings lab) Closed pyserial m
      → Exec (Transport Closed) A
  guarded lab m kept t =
      ((m t.state).0, record { state = (m t.state).1; sound = kept.at t.state t.sound })

  -- The methods of the client that the script calls.
  abbrev pub client : LabConfig → SerialConsole (Transport Closed)
  client lab =
      let settings = console_settings lab in
      record {
        open_port_only =
            guarded lab (open_port_only serial settings)
              (open-Sound serial settings Closed pyserial);
        await_login_prompt = λ timeout.
            guarded lab (await_login_prompt serial settings timeout)
              (await-Kept serial settings Closed pyserial timeout)
            >>= λ _. pure tt;
        submit_login = λ username password timeout.
            guarded lab (submit_login serial settings username password timeout)
              (submit-Kept serial settings Closed pyserial username password timeout);
        change_password_at_login = λ current_password new_password timeout.
            guarded lab
              (change_password_at_login serial settings current_password new_password timeout)
              (change-Kept serial settings Closed pyserial current_password new_password timeout);
        send_command = λ command timeout.
            guarded lab (send_command serial settings command timeout)
              (send-Sound serial settings Closed pyserial command timeout);
        close = guarded lab (close serial settings) (close-Kept serial settings Closed pyserial);
      }

  module _ (outside : Outside W) (beside : IsBeside outside Closed) where
    abbrev elsewhere : {A : Type 0} (m : Exec W A) → Keeps Closed m → Exec (Transport Closed) A
    elsewhere m kept t = (
      (m t.state.world).0,
      record {
        state = record { connected = t.state.connected; world = (m t.state.world).1 };
        sound = λ off. kept.at t.state.world (t.sound off);
      },
    )

    -- What the script calls outside, with the client in place of its `open_console`.
    abbrev pub over_client : Outside (Transport Closed)
    over_client = record {
      open_console = client;
      sleep = λ seconds. elsewhere (outside.sleep seconds) (beside.sleep_keeps seconds);
      scan_top_ports = λ target top_ports.
          elsewhere (outside.scan_top_ports target top_ports) (beside.scan_keeps target top_ports);
      utcnow = elsewhere outside.utcnow beside.clock_keeps;
      load_lab = λ path. elsewhere (outside.load_lab path) (beside.load_keeps path);
      write_json = λ path report.
          elsewhere (outside.write_json path report) (beside.write_keeps path report);
      repr = outside.repr;
      patterns = outside.patterns;
    }

    elsewhere-Keeps :
        {A : Type 0} (m : Exec W A) (kept : Keeps Closed m)
        → Keeps (IsOff Closed) (elsewhere m kept)
    elsewhere-Keeps m kept = record { at = λ t (off, closed). (off, kept.at t.state.world closed) }

    -- The client keeps the contract that the script relies on.
    client-IsPort : IsPort over_client (IsOff Closed)
    client-IsPort = record {
      close_closes =
          λ lab t. close-Off serial (console_settings lab) Closed pyserial t.state t.sound;
      open_raises =
          λ lab t e off h. open-Off serial (console_settings lab) Closed pyserial t.state e off h;
      clock_keeps = elsewhere-Keeps _ beside.clock_keeps;
      load_keeps = λ path. elsewhere-Keeps _ (beside.load_keeps path);
      write_keeps = λ path report. elsewhere-Keeps _ (beside.write_keeps path report);
    }

    -- A run of the script over the client that starts with a closed port ends without a connection and with a closed port,
    -- whatever the switch answers and whichever stage fails or raises, if pyserial closes a port that it is told to close
    -- and leaves none open that it fails to open, and the clocks, the network and the files do not touch the port.
    pub commission_main-over_client :
        (arguments : CommissionArguments) (t : Transport Closed)
        → IsOff Closed t
        → IsOff Closed (commission_main over_client arguments t).1
    commission_main-over_client = commission_main-closes over_client (IsOff Closed) client-IsPort
