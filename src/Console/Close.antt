-- ===== src/Console/Close.antt =====
-- `close` of src/switchtest/infrastructure/console/client.py closes the port, whatever was called before.
use omniswitch_ci_cd.Prelude.{ℕ, String, refl, Bool, true, false, List, [], ◌∷◌}
use omniswitch_ci_cd.Exec.{
  Result, ok, raised, Exec, pure, gets, continue, try_except, after_try, ◌>>=◌, ◌>>◌,
}
use omniswitch_ci_cd.Exec.Laws.{Keeps, Keeps-bind, Keeps-pure, Keeps-throw, Keeps-try_except}
use omniswitch_ci_cd.Console.Port.{Serial, ConsoleSettings, ConsoleState, write_line, read_until}
use omniswitch_ci_cd.Console.Session.{
  close_port, connect, close, send_commands, interact, send_interactive, await_login_prompt,
  submit_login, change_password_at_login,
}
use omniswitch_ci_cd.Console.Life.{
  IsPyserial, until-Sound, logout-Sound, line-Sound, redraw-Sound, stale-Sound, login-Sound,
  send-Sound, require-Keeps,
}
use omniswitch_ci_cd.Console.Operations.{
  Operation, call_open, call_connect, call_close, call_send, call_send_all, call_interact,
  call_await, call_login, call_change, perform, behind, SoundState, OffState, close_port-Off,
  off_sound, close_port-Sound, open-Sound,
}

module _ {W : Type 0} (serial : Serial W) (settings : ConsoleSettings) (Closed : W → Type 0)
    (pyserial : IsPyserial serial Closed) where
  abbrev pub Kept : {A : Type 0} → Exec (ConsoleState W) A → Type 0
  Kept m = Keeps (SoundState serial settings Closed pyserial) m

  until-Kept :
      (matcher : String → Bool) (timeout : ℕ) (expecting : String)
      → Kept (read_until serial settings matcher timeout expecting)
  until-Kept = until-Sound serial settings Closed pyserial

  line-Kept : (text : String) → Kept (write_line serial settings text)
  line-Kept = line-Sound serial settings Closed pyserial

  -- Whatever the logout does, the port is closed behind it.
  after_logout-Off :
      (r : Result Unit) (v : ConsoleState W)
      → SoundState serial settings Closed pyserial v
      → OffState serial settings Closed pyserial
          (continue
            (after_try r (λ exc. pure tt) v).0
            (λ _. close_port serial settings)
            (after_try r (λ exc. pure tt) v).1).1
  unfolding pure
  after_logout-Off (ok u) v sound = close_port-Off serial settings Closed pyserial v sound
  after_logout-Off (raised e) v sound = close_port-Off serial settings Closed pyserial v sound

  pub close-Off :
      (s : ConsoleState W)
      → SoundState serial settings Closed pyserial s
      → OffState serial settings Closed pyserial (close serial settings s).1
  unfolding close gets pure try_except ◌>>=◌
  close-Off s = by s.connected s.world
    where
      by :
          (b : Bool) (w : W)
          → SoundState serial settings Closed pyserial (record { connected = b; world = w })
          → OffState serial settings Closed pyserial
              (close serial settings (record { connected = b; world = w })).1
      by true w sound = after_logout-Off _ _ (
          (Keeps-bind _ (λ _. pure tt)
              (logout-Sound serial settings Closed pyserial settings.timeout_socket false)
              (λ _. Keeps-pure _)).at
            _ sound)
      by false w sound = (refl, sound refl)

  pub close-Kept : Kept (close serial settings)
  close-Kept = record {
    at = λ s sound. off_sound serial settings Closed pyserial _ (close-Off s sound);
  }

  connect-Kept : Kept (connect serial settings)
  unfolding connect
  connect-Kept = Keeps-bind _ _ (open-Sound serial settings Closed pyserial) λ _.
      Keeps-try_except _ _ (login-Sound serial settings Closed pyserial)
        λ e. Keeps-bind _ _ (close_port-Sound serial settings Closed pyserial) λ _. Keeps-throw e

  sends-Kept :
      (commands : List String) (timeout : ℕ) → Kept (send_commands serial settings commands timeout)
  unfolding send_commands
  sends-Kept [] timeout = Keeps-pure _
  sends-Kept (command ∷ commands) timeout =
      Keeps-bind _ _ (send-Sound serial settings Closed pyserial command timeout)
        λ output. Keeps-bind _ _ (sends-Kept commands timeout) λ outputs. Keeps-pure _

  interact-Kept :
      (interactions : List (String × String × Bool)) (timeout : ℕ)
      → Kept (interact serial settings interactions timeout)
  unfolding interact
  interact-Kept [] timeout = Keeps-pure _
  interact-Kept ((channel_input, expected, hidden) ∷ interactions) timeout =
      Keeps-bind _ _ (line-Kept channel_input) λ _.
        Keeps-bind _ _ (until-Kept _ _ _)
          λ text. Keeps-bind _ _ (interact-Kept interactions timeout) λ texts. Keeps-pure _

  pub submit-Kept :
      (username password : String) (timeout : ℕ)
      → Kept (submit_login serial settings username password timeout)
  unfolding submit_login
  submit-Kept username password timeout = Keeps-bind _ _ (line-Kept username) λ _.
      Keeps-bind _ _ (until-Kept _ _ _)
        λ _. Keeps-bind _ _ (line-Kept password) λ _. until-Kept _ _ _

  pub change-Kept :
      (current_password new_password : String) (timeout : ℕ)
      → Kept (change_password_at_login serial settings current_password new_password timeout)
  unfolding change_password_at_login
  change-Kept current_password new_password timeout =
      Keeps-bind _ _ (line-Kept current_password) λ _. Keeps-bind _ _ (until-Kept _ _ _) λ _.
        Keeps-bind _ _ (line-Kept new_password) λ _. Keeps-bind _ _ (until-Kept _ _ _) λ _.
          Keeps-bind _ _ (line-Kept new_password)
            λ _. Keeps-bind _ _ (until-Kept _ _ _) λ result. Keeps-pure _

  pub await-Kept : (timeout : ℕ) → Kept (await_login_prompt serial settings timeout)
  unfolding await_login_prompt
  await-Kept timeout =
      Keeps-bind _ _ (redraw-Sound serial settings Closed pyserial _)
        λ seen. stale-Sound serial settings Closed pyserial _ seen

  interactive-Kept :
      (interactions : List (String × String × Bool)) (timeout : ℕ)
      → Kept (send_interactive serial settings interactions timeout)
  unfolding send_interactive
  interactive-Kept interactions timeout =
      Keeps-bind _ _ (require-Keeps _)
        λ _. Keeps-bind _ _ (interact-Kept interactions timeout) λ collected. Keeps-pure _

  dropped : {A : Type 0} (m : Exec (ConsoleState W) A) → Kept m → Kept (m >> pure tt)
  dropped m kept = Keeps-bind _ _ kept λ _. Keeps-pure _

  perform-Kept : (operation : Operation) → Kept (perform serial settings operation)
  perform-Kept call_open = open-Sound serial settings Closed pyserial
  perform-Kept call_connect = connect-Kept
  perform-Kept call_close = close-Kept
  perform-Kept (call_send command timeout) =
      dropped _ (send-Sound serial settings Closed pyserial command timeout)
  perform-Kept (call_send_all commands timeout) = dropped _ (sends-Kept commands timeout)
  perform-Kept (call_interact interactions timeout) =
      dropped _ (interactive-Kept interactions timeout)
  perform-Kept (call_await timeout) = dropped _ (await-Kept timeout)
  perform-Kept (call_login username password timeout) =
      dropped _ (submit-Kept username password timeout)
  perform-Kept (call_change current_password new_password timeout) =
      dropped _ (change-Kept current_password new_password timeout)

  behind-Sound :
      (operations : List Operation) (s : ConsoleState W)
      → SoundState serial settings Closed pyserial s
      → SoundState serial settings Closed pyserial (behind serial settings operations s)
  behind-Sound [] s sound = sound
  behind-Sound (operation ∷ operations) s sound =
      behind-Sound operations _ ((perform-Kept operation).at s sound)

  -- From a closed port, after any calls of the public methods, in any order and whether they returned or raised, `close`
  -- leaves the port closed and the transport without a connection.
  pub close-closes :
      (operations : List Operation) (w : W)
      → Closed w
      → OffState serial settings Closed pyserial
          (close serial settings
            (behind serial settings operations (record { connected = false; world = w }))).1
  close-closes operations w closed = close-Off _ (behind-Sound operations _ λ off. closed)
