-- ===== src/Console/Operations.antt =====
-- The operations of `SerialConsoleTransport` in any order, and what its `connect` and `close` leave behind.
use omniswitch_ci_cd.Prelude.{
  ℕ, String, ◌≡◌, refl, Bool, true, false, List, [], ◌∷◌, Option, none, some, ◌||◌, arith,
  if◌then◌else◌,
}
use omniswitch_ci_cd.Errors.{ErrorKind, Exception}
use omniswitch_ci_cd.Exec.{
  Result, ok, raised, Exec, pure, raise, throw, gets, continue, try_except, after_try, ◌>>=◌, ◌>>◌,
}
use omniswitch_ci_cd.Exec.Laws.{
  Keeps, Keeps-continue, Keeps-pure, Keeps-if, Keeps-throw, Keeps-bind, Keeps-raise,
}
use omniswitch_ci_cd.Console.Port.{Serial, ConsoleSettings, ConsoleState, on_port, set_connected}
use omniswitch_ci_cd.Console.Session.{
  open_failed, require_pyserial, open_installed, open_port_only, close_port, login, connect, close,
  send_command, send_commands, send_interactive, await_login_prompt, submit_login,
  change_password_at_login,
}
use omniswitch_ci_cd.Console.Life.{true_not_false, IsPyserial, Sound, Off, login-Sound}

-- A call of one of the public methods.
pub data Operation : Type 0 where
  call_open call_connect call_close : Operation
  call_send : (command : String) (timeout : ℕ) → Operation
  call_send_all : (commands : List String) (timeout : ℕ) → Operation
  call_interact : List (String × String × Bool) → (timeout : ℕ) → Operation
  call_await : (timeout : ℕ) → Operation
  call_login : (username password : String) (timeout : ℕ) → Operation
  call_change : (current_password new_password : String) (timeout : ℕ) → Operation

module _ {W : Type 0} (serial : Serial W) (settings : ConsoleSettings) where
  abbrev pub perform : Operation → Exec (ConsoleState W) Unit
  perform call_open = open_port_only serial settings
  perform call_connect = connect serial settings
  perform call_close = close serial settings
  perform (call_send command timeout) = send_command serial settings command timeout >> pure tt
  perform (call_send_all commands timeout) =
      send_commands serial settings commands timeout >> pure tt
  perform (call_interact interactions timeout) =
      send_interactive serial settings interactions timeout >> pure tt
  perform (call_await timeout) = await_login_prompt serial settings timeout >> pure tt
  perform (call_login username password timeout) =
      submit_login serial settings username password timeout >> pure tt
  perform (call_change current_password new_password timeout) =
      change_password_at_login serial settings current_password new_password timeout >> pure tt

  -- The state behind some calls, whatever each of them returned or raised.
  abbrev pub behind : List Operation → ConsoleState W → ConsoleState W
  behind [] s = s
  behind (operation ∷ operations) s = behind operations (perform operation s).1

  module _ (Closed : W → Type 0) (pyserial : IsPyserial serial Closed) where
    abbrev pub SoundState : ConsoleState W → Type 0
    SoundState = Sound serial settings Closed pyserial

    abbrev pub OffState : ConsoleState W → Type 0
    OffState = Off serial settings Closed pyserial

    pub close_port-Off :
        (s : ConsoleState W) → SoundState s → OffState (close_port serial settings s).1
    unfolding close_port gets set_connected on_port try_except pure throw ◌>>=◌
    close_port-Off s sound = by s.connected s.world sound
      where
        after :
            (r : Result Unit) (w : W)
            → Closed w
            → OffState
                (after_try r
                  (λ exc. if serial.is_serial_error exc then pure tt else throw exc)
                  (record { connected = false; world = w })).1
        after (ok u) w closed = (refl, closed)
        after (raised e) w closed =
            (Keeps-if {P = OffState} (serial.is_serial_error e) _ _ (Keeps-pure _)
                (Keeps-throw _)).at
              _ (refl, closed)

        by :
            (b : Bool) (w : W)
            → SoundState (record { connected = b; world = w })
            → OffState (close_port serial settings (record { connected = b; world = w })).1
        by true w sound =
            after (serial.close_serial w).0 (serial.close_serial w).1 (pyserial.close_closes.at w)
        by false w sound = (refl, sound refl)

    pub off_sound : (s : ConsoleState W) → OffState s → SoundState s
    off_sound s (off, closed) h = closed

    pub close_port-Sound : Keeps SoundState (close_port serial settings)
    close_port-Sound = record { at = λ s sound. off_sound _ (close_port-Off s sound) }

    abbrev opened : W → Result Unit × W
    opened = serial.open_serial settings.serial_port settings.baudrate settings.timeout_socket

    -- What follows the constructor.
    abbrev after_opening : Result Unit → ConsoleState W → Result Unit × ConsoleState W
    after_opening r v =
        continue (after_try r (open_failed serial settings) v).0 (λ _. set_connected true)
          (after_try r (open_failed serial settings) v).1

    failed_lem :
        (e : Exception) (v : ConsoleState W) (P : ConsoleState W → Type 0)
        → P v
        → P (after_opening (raised e) v).1
    unfolding raise throw
    failed_lem e v P p = by (serial.is_serial_error e || serial.is_value_error e) _ p
      where
        by :
            (b : Bool) (message : String)
            → P v
            → P
                (continue
                  ((if b then raise {A = Unit} ErrorKind.connection message else throw e) v).0
                  (λ _. set_connected true)
                  ((if b then raise {A = Unit} ErrorKind.connection message else throw e) v).1).1
        by true message p = p
        by false message p = p

    after_opening-Sound :
        (s : ConsoleState W) (r : Result Unit)
        → SoundState s
        → (opened s.world).0 ≡ r
        → SoundState (after_opening r (record s { world = (opened s.world).1 })).1
    unfolding set_connected
    after_opening-Sound s (ok u) sound h = λ off. absurd (true_not_false off)
    after_opening-Sound s (raised e) sound h =
        failed_lem e (record s { world = (opened s.world).1 }) SoundState
          λ off. pyserial.open_raises _ _ _ s.world e (sound off) h

    installed-Sound : Keeps SoundState (open_installed serial settings)
    unfolding open_installed on_port try_except ◌>>=◌
    installed-Sound = record { at = λ s sound. after_opening-Sound s (opened s.world).0 sound refl }

    require-Sound : (o : Option String) → Keeps SoundState (require_pyserial serial settings o)
    require-Sound none = Keeps-pure _
    require-Sound (some import_error) = Keeps-raise _ _

    pub open-Sound : Keeps SoundState (open_port_only serial settings)
    unfolding open_port_only
    open-Sound = Keeps-bind _ _ (require-Sound serial.import_error) λ _. installed-Sound

    -- A constructor that raises leaves the transport without a connection.
    after_opening-Off :
        (s : ConsoleState W) (r : Result Unit) (e : Exception)
        → OffState s
        → (opened s.world).0 ≡ r
        → (after_opening r (record s { world = (opened s.world).1 })).0 ≡ raised e
        → OffState (after_opening r (record s { world = (opened s.world).1 })).1
    unfolding set_connected
    after_opening-Off s (ok u) e off h k = absurd (ground (arith, k))
    after_opening-Off s (raised x) e (off, closed) h k =
        failed_lem x (record s { world = (opened s.world).1 }) OffState
          (off, pyserial.open_raises _ _ _ s.world x closed h)

    -- Without pyserial nothing was opened.
    import-Off :
        (o : Option String) (s : ConsoleState W) (e : Exception)
        → OffState s
        → ((require_pyserial serial settings o >> open_installed serial settings) s).0 ≡ raised e
        → OffState ((require_pyserial serial settings o >> open_installed serial settings) s).1
    unfolding open_installed on_port try_except pure raise ◌>>=◌
    import-Off none s e off h = after_opening-Off s (opened s.world).0 e off refl h
    import-Off (some import_error) s e off h = off

    pub open-Off :
        (s : ConsoleState W) (e : Exception)
        → OffState s
        → (open_port_only serial settings s).0 ≡ raised e
        → OffState (open_port_only serial settings s).1
    unfolding open_port_only
    open-Off s e off h = import-Off serial.import_error s e off h

    -- A login that fails closes the port.
    after_login-Off :
        (r : Result Unit) (v : ConsoleState W) (e : Exception)
        → SoundState v
        → (after_try r (λ exc. close_port serial settings >> throw exc) v).0 ≡ raised e
        → OffState (after_try r (λ exc. close_port serial settings >> throw exc) v).1
    unfolding ◌>>=◌
    after_login-Off (ok u) v e sound h = absurd (ground (arith, h))
    after_login-Off (raised x) v e sound h =
        (Keeps-continue {P = OffState} (close_port serial settings v).0 (λ _. throw x)
            (λ _. Keeps-throw x)).at
          (close_port serial settings v).1 (close_port-Off v sound)

    after_open-Off :
        (r : Result Unit) (v : ConsoleState W) (e : Exception)
        → SoundState v
        → ((x : Exception) → r ≡ raised x → OffState v)
        → (continue r
            (λ _.
              try_except (login serial settings) (λ exc. close_port serial settings >> throw exc))
            v).0
          ≡ raised e
        → OffState
            (continue r
              (λ _.
                try_except (login serial settings) (λ exc. close_port serial settings >> throw exc))
              v).1
    unfolding try_except
    after_open-Off (ok u) v e sound off h =
        after_login-Off (login serial settings v).0 (login serial settings v).1 e
          ((login-Sound serial settings Closed pyserial).at v sound) h
    after_open-Off (raised x) v e sound off h = off x refl

    -- A `connect` that raises has closed what it opened: the port is closed and the transport has no connection, whether
    -- pyserial is missing, the port did not open, the login failed or timed out, or closing raised.
    pub connect-off :
        (s : ConsoleState W) (e : Exception)
        → OffState s
        → (connect serial settings s).0 ≡ raised e
        → OffState (connect serial settings s).1
    unfolding connect ◌>>=◌
    connect-off s e off h =
        after_open-Off (open_port_only serial settings s).0 (open_port_only serial settings s).1 e
          (open-Sound.at s (off_sound s off)) (λ x k. open-Off s x off k) h
