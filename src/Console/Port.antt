-- ===== src/Console/Port.antt =====
-- The serial port of src/switchtest/infrastructure/console/client.py and the loops that read from it. The fuel of a loop
-- is the number of rounds that it may make: the clock moves on in each, so that `timeout` in ticks of the clock are enough
-- (`Console.Fuel`).
use omniswitch_ci_cd.Prelude.{
  ℕ, zero, suc, ◌+◌, ◌*◌, Option, String, ◌<>◌, Bool, ltb, if◌then◌else◌,
}
use omniswitch_ci_cd.Prelude.Text.{truthy, show}
use omniswitch_ci_cd.Prelude.Lines.{tail_lines, without_end}
use omniswitch_ci_cd.Errors.{ErrorKind, Exception}
use omniswitch_ci_cd.Exec.{Exec, pure, raise, throw, gets, modify, try_except, ◌>>=◌, ◌>>◌}
use omniswitch_ci_cd.Console.Text.{
  Regex, pager_pattern, confirm_pattern, login_prompt_pattern, strip_ansi, decode, tail,
}

-- pyserial and the clock. `import_error` is the text of `SERIAL_IMPORT_ERROR`, if pyserial could not be imported. `read` is
-- `connection.read(connection.in_waiting or 1)` with its bytes decoded as UTF-8, `monotonic` counts ticks, of which a
-- second has `ticks`; `is_serial_error` tells `SerialException` and `OSError`, and `is_value_error` `ValueError`. `repr` is
-- that of a text.
pub record Serial (W : Type 0) : Type 0 where
  pub import_error : Option String
  pub open_serial : (port : String) (baudrate write_timeout : ℕ) → Exec W Unit
  pub write : String → Exec W Unit
  pub flush : Exec W Unit
  pub read : Exec W String
  pub reset_input_buffer : Exec W Unit
  pub close_serial : Exec W Unit
  pub monotonic : Exec W ℕ
  pub ticks : ℕ
  pub is_serial_error : Exception → Bool
  pub is_value_error : Exception → Bool
  pub repr : String → String
  pub regex : Regex

-- The fields of `SerialConsoleTransport`.
pub record ConsoleSettings : Type 0 where
  pub serial_port : String
  pub auth_username : String
  pub auth_password : String
  pub baudrate : ℕ
  pub prompt : String
  pub timeout_socket : ℕ

-- `connected`: `_connection` is not None.
pub record ConsoleState (W : Type 0) : Type 0 where
  pub connected : Bool
  pub world : W

-- What a round does with a chunk: a text that ends the loop, or the buffer of the next round.
pub data Round : Type 0 where
  found : String → Round
  again : String → Round

module _ {W : Type 0} where
  unfoldable pub on_port : {A : Type 0} → Exec W A → Exec (ConsoleState W) A
  on_port m s = let (r, w) = m s.world in (r, record s { world = w })

  unfoldable pub set_connected : Bool → Exec (ConsoleState W) Unit
  unfolding modify
  set_connected connected = modify (λ s. record s { connected = connected })

  -- `_require_connection`.
  unfoldable pub require_connection : Exec (ConsoleState W) Unit
  require_connection = do
    connected ← gets (λ s. s.connected)
    (if connected then pure tt else raise ErrorKind.connection "Serial console is not open")

module _ {W : Type 0} (serial : Serial W) (settings : ConsoleSettings) where
  -- `except (SerialException, OSError) as exc: raise ConnectionError(...)`.
  abbrev pub convert : {A : Type 0} → (message : String) → Exception → Exec (ConsoleState W) A
  convert message exc =
      if serial.is_serial_error exc
      then raise ErrorKind.connection (message <> (" failed: " <> exc.message))
      else throw exc

  -- `_write_raw`.
  unfoldable pub write_raw : (payload : String) → Exec (ConsoleState W) Unit
  unfolding on_port require_connection
  write_raw payload = do
    require_connection
    try_except (on_port (serial.write payload) >> on_port serial.flush)
        (convert ("Serial console write to " <> settings.serial_port))

  -- `_write`.
  unfoldable pub write_line : (text : String) → Exec (ConsoleState W) Unit
  unfolding write_raw
  write_line text = write_raw (text <> "\r")

  -- `_read_chunk`.
  unfoldable pub read_chunk : Exec (ConsoleState W) String
  unfolding on_port require_connection decode
  read_chunk = do
    require_connection
    chunk ←
        try_except (on_port serial.read)
          (convert ("Serial console read from " <> settings.serial_port))
    pure (decode chunk)

  -- `_answer_pager`.
  unfoldable pub answer_pager : (buffer : String) → Exec (ConsoleState W) String
  unfolding tail without_end write_raw
  answer_pager buffer =
      if serial.regex.search pager_pattern (tail buffer)
      then (write_raw " " >> pure (without_end buffer (tail buffer)))
      else pure buffer

  -- What both loops raise at their deadline.
  abbrev pub timed_out :
      {A : Type 0} → (timeout : ℕ) (expecting buffer : String) → Exec (ConsoleState W) A
  timed_out timeout expecting buffer = raise ErrorKind.connection (
      "Timed out after "
      <> (show timeout
          <> ("s waiting for "
              <> (expecting
                  <> (" on serial console "
                      <> (settings.serial_port
                          <> (". Last output: " <> serial.repr (tail_lines buffer 3))))))))

  -- The body of the loop of `_read_until`.
  unfoldable pub read_round :
      (matcher : String → Bool) (buffer : String) → Exec (ConsoleState W) Round
  unfolding read_chunk answer_pager strip_ansi
  read_round matcher buffer = do
    chunk ← read_chunk
    (if truthy chunk
        then (answer_pager (buffer <> chunk) >>= λ kept. pure (
            if matcher (strip_ansi kept) then found (strip_ansi kept) else again (strip_ansi kept)))
        else pure (again buffer))

  -- The body of the loop of `_logout`.
  unfoldable pub logout_round : (buffer : String) → Exec (ConsoleState W) Round
  unfolding read_chunk answer_pager tail without_end write_line
  logout_round buffer = do
    chunk ← read_chunk
    (if truthy chunk
        then (answer_pager (buffer <> chunk) >>= λ kept.
            if serial.regex.search confirm_pattern (tail kept)
            then (write_line "y" >> pure (again (without_end kept (tail kept))))
            else pure (
                if serial.regex.search login_prompt_pattern (tail kept)
                then found kept
                else again kept))
        else pure (again buffer))

  -- `while time.monotonic() < deadline` with one of the bodies, and the exception behind it. `give_up` is that
  -- exception, as a function of the buffer.
  unfoldable pub read_loop :
      (fuel deadline : ℕ) (round : String → Exec (ConsoleState W) Round)
      (give_up : String → Exec (ConsoleState W) String) (buffer : String)
      → Exec (ConsoleState W) String
  unfolding on_port
  read_loop zero deadline round give_up buffer = give_up buffer
  read_loop (suc fuel) deadline round give_up buffer = do
    now ← on_port serial.monotonic
    (if ltb now deadline
        then (round buffer >>= λ outcome. elim outcome [
          | found text ↦ pure text
          | again longer ↦ read_loop fuel deadline round give_up longer
        ])
        else give_up buffer)

  -- The loop until `timeout` seconds from now.
  unfoldable pub read_for :
      (timeout : ℕ) (round : String → Exec (ConsoleState W) Round)
      (give_up : String → Exec (ConsoleState W) String)
      → Exec (ConsoleState W) String
  unfolding on_port read_loop
  read_for timeout round give_up = do
    now ← on_port serial.monotonic
    read_loop (suc (timeout * serial.ticks)) (now + timeout * serial.ticks) round give_up ""

  -- `_read_until`.
  unfoldable pub read_until :
      (matcher : String → Bool) (timeout : ℕ) (expecting : String) → Exec (ConsoleState W) String
  unfolding show tail_lines read_round read_for
  read_until matcher timeout expecting =
      read_for timeout (read_round matcher) (timed_out timeout expecting)

  -- `_logout`.
  unfoldable pub logout : (timeout : ℕ) (stale : Bool) → Exec (ConsoleState W) String
  unfolding show tail_lines write_line logout_round read_for
  logout timeout stale = do
    write_line "exit"
    read_for timeout logout_round (
        timed_out timeout (
          if stale
          then "console login prompt after logging out a stale session"
          else "login prompt after logging out"))
