-- ===== src/Console/Life.antt =====
-- The life of a connection of src/switchtest/infrastructure/console/client.py: the transport has a connection exactly as
-- long as the port may be open.
use omniswitch_ci_cd.Prelude.{ℕ, String, ◌<>◌, ◌≡◌, ◌≢◌, refl, sym, ◌∙◌, Bool, true, false, arith}
use omniswitch_ci_cd.Errors.{Exception}
use omniswitch_ci_cd.Exec.{raised, Exec, pure, raise, gets, try_except, ◌>>=◌, ◌>>◌}
use omniswitch_ci_cd.Exec.Laws.{
  Keeps, Keeps-bind, Keeps-pure, Keeps-if, Keeps-raise, Keeps-throw, Keeps-gets, Keeps-try_except,
  Reaches,
}
use omniswitch_ci_cd.Console.Port.{
  Serial, ConsoleSettings, ConsoleState, on_port, require_connection, convert, write_raw,
  write_line, read_chunk, read_until, logout,
}
use omniswitch_ci_cd.Console.Frame.{read_until-Keeps, logout-Keeps}
use omniswitch_ci_cd.Console.Session.{redraw, leave_stale, answer_login, login, send_command}

-- `Closed w`: the operating system has the port closed. pyserial's `close` closes it, also if it raises, a constructor
-- that raises does not leave it open, and the clock does not touch it. Nothing is asked of reading and writing.
pub record IsPyserial {W : Type 0} (serial : Serial W) (Closed : W → Type 0) : Type 0 where
  pub close_closes : Reaches Closed serial.close_serial
  pub open_raises :
      (port : String) (baudrate write_timeout : ℕ) (w : W) (e : Exception)
      → Closed w
      → (serial.open_serial port baudrate write_timeout w).0 ≡ raised e
      → Closed (serial.open_serial port baudrate write_timeout w).1
  pub clock_keeps : Keeps Closed serial.monotonic

pub true_not_false : true ≢ false
true_not_false h = ground (arith, h)

module _ {W : Type 0} where
  abbrev Linked : ConsoleState W → Type 0
  Linked s = s.connected ≡ true

  Linked-Keeps : {A : Type 0} (m : Exec W A) → Keeps Linked (on_port m)
  unfolding on_port
  Linked-Keeps m = record { at = λ s p. p }

  pub require-Keeps : (P : ConsoleState W → Type 0) → Keeps P require_connection
  unfolding require_connection
  require-Keeps P =
      Keeps-bind _ _ (Keeps-gets _) λ b. Keeps-if b _ _ (Keeps-pure _) (Keeps-raise _ _)

module _ {W : Type 0} (serial : Serial W) (settings : ConsoleSettings) where
  convert-Keeps :
      {A : Type 0} (P : ConsoleState W → Type 0) (message : String) (e : Exception)
      → Keeps P (convert serial settings {A = A} message e)
  convert-Keeps P message e = Keeps-if _ _ _ (Keeps-raise _ _) (Keeps-throw _)

  sent_raw : (text : String) → Exec (ConsoleState W) Unit
  sent_raw text =
      try_except (on_port (serial.write text) >> on_port serial.flush)
        (convert serial settings ("Serial console write to " <> settings.serial_port))

  sent-Keeps : (text : String) → Keeps Linked (sent_raw text)
  unfolding sent_raw
  sent-Keeps text =
      Keeps-try_except _ _ (Keeps-bind _ _ (Linked-Keeps _) λ _. Linked-Keeps _) (convert-Keeps _ _)

  write-Linked : (text : String) → Keeps Linked (write_raw serial settings text)
  unfolding write_raw sent_raw
  write-Linked text = Keeps-bind _ _ (require-Keeps _) λ _. sent-Keeps text

  read-Linked : Keeps Linked (read_chunk serial settings)
  unfolding read_chunk
  read-Linked = Keeps-bind _ _ (require-Keeps _) λ _.
      Keeps-bind _ _ (Keeps-try_except _ _ (Linked-Keeps _) (convert-Keeps _ _)) λ _. Keeps-pure _

  module _ (Closed : W → Type 0) (pyserial : IsPyserial serial Closed) where
    -- Without a connection the port is closed.
    abbrev pub Sound : ConsoleState W → Type 0
    Sound s = s.connected ≡ false → Closed s.world

    abbrev pub Off : ConsoleState W → Type 0
    Off s = (s.connected ≡ false) × Closed s.world

    -- What is guarded by `_require_connection` does nothing without a connection, and keeps one.
    guarded-Sound :
        {A : Type 0} (m : Exec (ConsoleState W) A)
        → Keeps Linked m
        → Keeps Sound (require_connection >>= λ _. m)
    unfolding require_connection ◌>>=◌ gets pure raise
    guarded-Sound m kept = record { at = λ s. by s.connected s.world }
      where
        by :
            (b : Bool) (w : W)
            → Sound (record { connected = b; world = w })
            → Sound ((require_connection >>= λ _. m) (record { connected = b; world = w })).1
        by true w sound = λ off.
            absurd
              (true_not_false (sym (kept.at (record { connected = true; world = w }) refl) ∙ off))
        by false w sound = sound

    pub clock-Sound : Keeps Sound (on_port serial.monotonic)
    unfolding on_port
    clock-Sound = record { at = λ s sound off. pyserial.clock_keeps.at s.world (sound off) }

    pub write-Sound : (text : String) → Keeps Sound (write_raw serial settings text)
    unfolding write_raw sent_raw
    write-Sound text = guarded-Sound _ (sent-Keeps text)

    pub read-Sound : Keeps Sound (read_chunk serial settings)
    unfolding read_chunk
    read-Sound = guarded-Sound _ (
        Keeps-bind _ _ (Keeps-try_except _ _ (Linked-Keeps _) (convert-Keeps _ _))
          λ _. Keeps-pure _)

    pub until-Sound :
        (matcher : String → Bool) (timeout : ℕ) (expecting : String)
        → Keeps Sound (read_until serial settings matcher timeout expecting)
    until-Sound = read_until-Keeps serial settings Sound clock-Sound write-Sound read-Sound

    pub until-Linked :
        (matcher : String → Bool) (timeout : ℕ) (expecting : String)
        → Keeps Linked (read_until serial settings matcher timeout expecting)
    until-Linked = read_until-Keeps serial settings Linked (Linked-Keeps _) write-Linked read-Linked

    pub logout-Sound :
        (timeout : ℕ) (stale : Bool) → Keeps Sound (logout serial settings timeout stale)
    logout-Sound = logout-Keeps serial settings Sound clock-Sound write-Sound read-Sound

    pub line-Sound : (text : String) → Keeps Sound (write_line serial settings text)
    unfolding write_line
    line-Sound text = write-Sound _

    pub line-Linked : (text : String) → Keeps Linked (write_line serial settings text)
    unfolding write_line
    line-Linked text = write-Linked _

    pub redraw-Sound : (timeout : ℕ) → Keeps Sound (redraw serial settings timeout)
    redraw-Sound timeout = guarded-Sound _ (
        Keeps-bind _ _ (Linked-Keeps _) λ _. Keeps-bind _ _ (line-Linked _) λ _. until-Linked _ _ _)

    pub stale-Sound :
        (timeout : ℕ) (seen : String) → Keeps Sound (leave_stale serial settings timeout seen)
    stale-Sound timeout seen = Keeps-if _ _ _ (logout-Sound timeout true) (Keeps-pure _)

    answer-Sound : (seen : String) → Keeps Sound (answer_login serial settings seen)
    answer-Sound seen =
        Keeps-if _ _ _
          (Keeps-bind _ _ (line-Sound _) λ _. Keeps-bind _ _ (until-Sound _ _ _) λ _. Keeps-pure _)
          (Keeps-pure _)

    pub login-Sound : Keeps Sound (login serial settings)
    unfolding login
    login-Sound = Keeps-bind _ _ (redraw-Sound _) λ first.
        Keeps-bind _ _ (stale-Sound _ first) λ seen. Keeps-bind _ _ (answer-Sound seen) λ _.
          Keeps-bind _ _ (line-Sound _) λ _.
            Keeps-bind _ _ (until-Sound _ _ _)
              λ result. Keeps-if _ _ _ (Keeps-pure _) (Keeps-raise _ _)

    pub send-Sound :
        (command : String) (timeout : ℕ)
        → Keeps Sound (send_command serial settings command timeout)
    unfolding send_command
    send-Sound command timeout = guarded-Sound _ (
        Keeps-bind _ _ (Linked-Keeps _) λ _.
          Keeps-bind _ _ (line-Linked command)
            λ _. Keeps-bind _ _ (until-Linked _ _ _) λ output. Keeps-pure _)
