-- ===== src/Console/Session.antt =====
-- The login, the commands and the life of the connection of src/switchtest/infrastructure/console/client.py. Optional
-- timeouts are written out; `timeout or self.timeout_socket` is `or_socket`.
use omniswitch_ci_cd.Prelude.{
  ℕ, String, ◌<>◌, Bool, Option, none, some, true, false, not, ◌||◌, List, [], ◌∷◌, ◌==◌,
  if◌then◌else◌,
}
use omniswitch_ci_cd.Prelude.Text.{join, chars, of_chars, strip_right, show}
use Prim.Native.Char.{code}
use omniswitch_ci_cd.Errors.{ErrorKind, Exception}
use omniswitch_ci_cd.Exec.{Exec, pure, raise, throw, gets, try_except, ◌>>=◌, ◌>>◌}
use omniswitch_ci_cd.Console.Text.{
  login_prompt_pattern, password_prompt_pattern, login_failure_pattern, password_rejection_pattern,
  current_password_prompt_pattern, new_password_prompt_pattern, retype_password_prompt_pattern,
  tail, any_matcher, expected_matcher, change_dialogue_message, strip_echo_and_prompt,
}
use omniswitch_ci_cd.Console.Port.{
  Serial, ConsoleSettings, ConsoleState, on_port, set_connected, require_connection, write_line,
  read_until, logout,
}

module _ {W : Type 0} (serial : Serial W) (settings : ConsoleSettings) where
  -- `self._prompt_pattern`.
  abbrev pub prompt_pattern : String
  prompt_pattern = "(?m)^(?:.*[^-])?" <> (serial.regex.escape settings.prompt <> "\\s*$")

  abbrev pub or_socket : (timeout : ℕ) → ℕ
  or_socket timeout = if timeout == 0 then settings.timeout_socket else timeout

  -- `except (SerialException, OSError, ValueError) as exc: raise ConnectionError(...)`.
  abbrev pub open_failed : Exception → Exec (ConsoleState W) Unit
  open_failed exc =
      if serial.is_serial_error exc || serial.is_value_error exc
      then raise ErrorKind.connection (
          "Failed to open serial console "
          <> (settings.serial_port
              <> (" at " <> (show settings.baudrate <> (" baud: " <> exc.message)))))
      else throw exc

  -- `if pyserial is None: raise ConnectionError(...)`.
  abbrev pub require_pyserial : Option String → Exec (ConsoleState W) Unit
  require_pyserial none = pure tt
  require_pyserial (some import_error) =
      raise ErrorKind.connection ("pyserial could not be imported: " <> import_error)

  -- `open_port_only` behind that.
  unfoldable pub open_installed : Exec (ConsoleState W) Unit
  unfolding on_port set_connected show
  open_installed = do
    try_except
        (on_port
          (serial.open_serial settings.serial_port settings.baudrate settings.timeout_socket))
        open_failed
    set_connected true

  -- `open_port_only`.
  unfoldable pub open_port_only : Exec (ConsoleState W) Unit
  unfolding open_installed
  open_port_only = require_pyserial serial.import_error >> open_installed

  -- `_close_port`.
  unfoldable pub close_port : Exec (ConsoleState W) Unit
  unfolding on_port set_connected
  close_port = do
    connected ← gets (λ s. s.connected)
    set_connected false
    (if connected
        then try_except (on_port serial.close_serial)
            (λ exc. if serial.is_serial_error exc then pure tt else throw exc)
        else pure tt)

  -- `_at_prompt`.
  unfoldable pub at_prompt : (text : String) → Bool
  unfolding tail
  at_prompt text =
      if serial.regex.search login_prompt_pattern (tail text)
        || serial.regex.search password_prompt_pattern (tail text)
      then false
      else serial.regex.search prompt_pattern text

  -- A bare return, and what the console answers with.
  abbrev pub redraw : (timeout : ℕ) → Exec (ConsoleState W) String
  redraw timeout = do
    require_connection
    on_port serial.reset_input_buffer
    write_line serial settings ""
    read_until serial settings
        (any_matcher serial.regex
          (login_prompt_pattern ∷ password_prompt_pattern ∷ prompt_pattern ∷ []))
        timeout "console login prompt"

  -- A session that is still open is logged out.
  abbrev pub leave_stale : (timeout : ℕ) (seen : String) → Exec (ConsoleState W) String
  leave_stale timeout seen =
      if at_prompt seen then logout serial settings timeout true else pure seen

  abbrev pub answer_login : (seen : String) → Exec (ConsoleState W) Unit
  answer_login seen =
      if serial.regex.search login_prompt_pattern (tail seen)
      then (write_line serial settings settings.auth_username
          >> (read_until serial settings (any_matcher serial.regex (password_prompt_pattern ∷ []))
                settings.timeout_socket "password prompt"
              >> pure tt))
      else pure tt

  -- `_login`.
  unfoldable pub login : Exec (ConsoleState W) Unit
  unfolding on_port require_connection at_prompt tail
  login = do
    first ← redraw settings.timeout_socket
    seen ← leave_stale settings.timeout_socket first
    answer_login seen
    write_line serial settings settings.auth_password
    result ←
        read_until serial settings
          (any_matcher serial.regex
            (prompt_pattern ∷ login_prompt_pattern ∷ login_failure_pattern ∷ []))
          settings.timeout_socket ("prompt '" <> (settings.prompt <> "' after login"))
    (if at_prompt result
        then pure tt
        else raise ErrorKind.authentication (
            "Console login as '"
            <> (settings.auth_username <> ("' on " <> (settings.serial_port <> " was rejected")))))

  -- `connect`.
  unfoldable pub connect : Exec (ConsoleState W) Unit
  unfolding open_port_only login close_port
  connect = do open_port_only; try_except login (λ exc. close_port >> throw exc)

  -- `close`.
  unfoldable pub close : Exec (ConsoleState W) Unit
  unfolding close_port
  close = do
    connected ← gets (λ s. s.connected)
    (if connected
        then (try_except (logout serial settings settings.timeout_socket false >> pure tt)
              (λ exc. pure tt)
            >> close_port)
        else pure tt)

  -- `send_command`.
  unfoldable pub send_command : (command : String) (timeout : ℕ) → Exec (ConsoleState W) String
  unfolding on_port require_connection strip_echo_and_prompt
  send_command command timeout = do
    require_connection
    on_port serial.reset_input_buffer
    write_line serial settings command
    output ←
        read_until serial settings (any_matcher serial.regex (prompt_pattern ∷ [])) timeout
          ("prompt '" <> (settings.prompt <> ("' after '" <> (command <> "'"))))
    pure (strip_echo_and_prompt serial.regex output command prompt_pattern)

  -- `send_commands`.
  unfoldable pub send_commands :
      (commands : List String) (timeout : ℕ) → Exec (ConsoleState W) (List String)
  unfolding send_command
  send_commands [] timeout = pure []
  send_commands (command ∷ commands) timeout = do
    output ← send_command command timeout
    outputs ← send_commands commands timeout
    pure (output ∷ outputs)

  -- The loop of `send_interactive`: an interaction is what is sent, what is expected and whether it is hidden.
  unfoldable pub interact :
      List (String × String × Bool) → (timeout : ℕ) → Exec (ConsoleState W) (List String)
  unfolding expected_matcher
  interact [] timeout = pure []
  interact ((channel_input, expected_prompt, hidden) ∷ interactions) timeout = do
    write_line serial settings channel_input
    text ←
        read_until serial settings (expected_matcher serial.regex expected_prompt) timeout
          ("'" <> (expected_prompt <> "'"))
    texts ← interact interactions timeout
    pure (text ∷ texts)

  abbrev first_input : List (String × String × Bool) → String
  first_input [] = ""
  first_input (interaction ∷ interactions) = interaction.0

  -- `send_interactive`.
  unfoldable pub send_interactive :
      List (String × String × Bool) → (timeout : ℕ) → Exec (ConsoleState W) String
  unfolding require_connection interact join strip_echo_and_prompt
  send_interactive interactions timeout = do
    require_connection
    collected ← interact interactions timeout
    pure (
        strip_echo_and_prompt serial.regex (join "" collected) (first_input interactions)
          prompt_pattern)

  -- `await_login_prompt`.
  unfoldable pub await_login_prompt : (timeout : ℕ) → Exec (ConsoleState W) String
  unfolding on_port require_connection at_prompt
  await_login_prompt timeout = do
    seen ← redraw (or_socket timeout)
    leave_stale (or_socket timeout) seen

  -- `submit_login`.
  unfoldable pub submit_login :
      (username password : String) (timeout : ℕ) → Exec (ConsoleState W) String
  submit_login username password timeout = do
    write_line serial settings username
    read_until serial settings (any_matcher serial.regex (password_prompt_pattern ∷ []))
        (or_socket timeout) "password prompt"
    write_line serial settings password
    read_until serial settings
        (any_matcher serial.regex (
          prompt_pattern ∷ login_prompt_pattern ∷ login_failure_pattern
          ∷ current_password_prompt_pattern ∷ []))
        (or_socket timeout) "login result"

  -- The answer that `change_password_at_login` makes of what it read.
  unfoldable pub change_answer : (result : String) → Bool × String × Bool
  unfolding change_dialogue_message strip_right
  change_answer result = (
    not (serial.regex.search password_rejection_pattern result),
    change_dialogue_message serial.regex result,
    serial.regex.search current_password_prompt_pattern
        (of_chars (strip_right code (chars result))),
  )

  -- `change_password_at_login`.
  unfoldable pub change_password_at_login :
      (current_password new_password : String) (timeout : ℕ)
      → Exec (ConsoleState W) (Bool × String × Bool)
  unfolding change_answer
  change_password_at_login current_password new_password timeout = do
    write_line serial settings current_password
    read_until serial settings (any_matcher serial.regex (new_password_prompt_pattern ∷ []))
        (or_socket timeout) "'Enter new password:'"
    write_line serial settings new_password
    read_until serial settings (any_matcher serial.regex (retype_password_prompt_pattern ∷ []))
        (or_socket timeout) "'Retype new password:'"
    write_line serial settings new_password
    result ←
        read_until serial settings
          (any_matcher serial.regex
            (current_password_prompt_pattern ∷ login_prompt_pattern ∷ prompt_pattern ∷ []))
          (or_socket timeout) "result of the password change"
    pure (change_answer result)
