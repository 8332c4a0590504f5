-- ===== src/Tests/Console.antt =====
-- The console transport over a cable on which a switch answers with one text and then falls silent.
use omniswitch_ci_cd.Prelude.{
  ℕ, suc, ◌≡◌, refl, String, Bool, true, false, none, List, [], ◌∷◌, ◌++◌, All, str_eq, arith,
}
use omniswitch_ci_cd.Errors.{ErrorKind, Exception}
use omniswitch_ci_cd.Exec.{ok, raised, ◌>>=◌}
use omniswitch_ci_cd.Prelude.Lines.{split_newline}
use omniswitch_ci_cd.Console.Text.{Regex, is_popped, without_echo, kept_lines}
use omniswitch_ci_cd.Console.Port.{
  Serial, ConsoleSettings, ConsoleState, timed_out, read_round, read_until, write_line,
}
use omniswitch_ci_cd.Console.Session.{connect, close}
use omniswitch_ci_cd.Console.Fuel.{IsClock, read_with, read_until-ends}
use omniswitch_ci_cd.Console.Life.{IsPyserial}
use omniswitch_ci_cd.Console.Operations.{
  call_connect, call_send, call_open, behind, OffState, connect-off,
}
use omniswitch_ci_cd.Console.Close.{close-closes}
use omniswitch_ci_cd.Console.Text.{strip_from}
use omniswitch_ci_cd.Console.Ansi.{Decorated, ends, shows, moves, strip_from-Decorated}
use omniswitch_ci_cd.Console.Output.{kept_lines-splits}

pub record Wire : Type 0 where
  pub clock : ℕ
  pub is_open : Bool

-- No pattern matches, so that every wait ends at its deadline.
abbrev regex : Regex
regex = record { search = λ pattern text. false; escape = λ s. s }

abbrev pub serial : Serial Wire
serial = record {
  import_error = none;
  open_serial = λ port baudrate write_timeout w. (ok tt, record w { is_open = true });
  write = λ text w. (ok tt, w);
  flush = λ w. (ok tt, w);
  read = λ w. (ok "login:", record w { clock = suc w.clock });
  reset_input_buffer = λ w. (ok tt, w);
  close_serial = λ w. (ok tt, record w { is_open = false });
  monotonic = λ w. (ok w.clock, w);
  ticks = 1;
  is_serial_error = λ e. true;
  is_value_error = λ e. false;
  repr = λ s. s;
  regex = regex;
}

abbrev settings : ConsoleSettings
settings = record {
  serial_port = "COM3";
  auth_username = "admin";
  auth_password = "switch";
  baudrate = 9600;
  prompt = "->";
  timeout_socket = 2;
}

clock : IsClock serial (λ w. w.clock)
clock = record {
  shows = λ w. refl;
  monotonic_keeps = λ n. record { at = λ w h. h };
  write_keeps = λ n text. record { at = λ w h. h };
  flush_keeps = λ n. record { at = λ w h. h };
  read_moves = λ w. omega arith;
}

abbrev idle : ConsoleState Wire
idle = record { connected = true; world = record { clock = 7; is_open = true } }

read_until-ends_example :
    read_with serial settings 101 3
      (read_round serial settings (λ text. false))
      (timed_out serial settings 3 "a prompt")
      idle
    ≡ read_until serial settings (λ text. false) 3 "a prompt" idle
read_until-ends_example =
    read_until-ends serial settings (λ w. w.clock) clock (λ text. false) 3 100 "a prompt" idle
      (omega arith)

abbrev pub Closed : Wire → Type 0
Closed w = w.is_open ≡ false

pub pyserial : IsPyserial serial Closed
pyserial = record {
  close_closes = record { at = λ w. refl };
  open_raises = λ port baudrate write_timeout w e closed h. absurd (ground (arith, h));
  clock_keeps = record { at = λ w closed. closed };
}

abbrev pub unplugged : Wire
unplugged = record { clock = 0; is_open = false }

close-closes_example :
    OffState serial settings Closed pyserial
      (close serial settings (
        behind serial settings
          (call_open ∷ call_send "show user" 3 ∷ call_connect ∷ [])
          (record { connected = false; world = unplugged }))).1
close-closes_example =
    close-closes serial settings Closed pyserial
      (call_open ∷ call_send "show user" 3 ∷ call_connect ∷ []) unplugged refl

abbrev silence : Exception
silence = record {
  kind = ErrorKind.connection;
  message =
      "Timed out after 2s waiting for console login prompt on serial console COM3. Last output: login:login:";
}

silent_lem :
    (connect serial settings (record { connected = false; world = unplugged })).0 ≡ raised silence
unfolding connect ◌>>=◌ write_line read_until
silent_lem = refl

connect-off_example :
    OffState serial settings Closed pyserial
      (connect serial settings (record { connected = false; world = unplugged })).1
connect-off_example =
    connect-off serial settings Closed pyserial (record { connected = false; world = unplugged })
      silence (refl, refl) silent_lem

-- The first line is the echo, the last one the prompt.
abbrev prompted : Regex
prompted = record { search = λ pattern text. str_eq text "->"; escape = λ s. s }

kept_lines-splits_example :
    (popped : List String) × (without_echo prompted "show user"
        (split_newline "show user\nadmin\n\n->")
      ≡ kept_lines prompted "show user\nadmin\n\n->" "show user" "->" ++ popped)
    × All (λ line. is_popped prompted "->" line ≡ true) popped
    × ((init : List String) (line : String)
        → kept_lines prompted "show user\nadmin\n\n->" "show user" "->" ≡ init ++ line ∷ []
        → is_popped prompted "->" line ≡ false)
kept_lines-splits_example = kept_lines-splits prompted "->" "show user\nadmin\n\n->" "show user"

-- "ab" with a cursor movement between its letters.
abbrev moved : Decorated ("a" ∷ "b" ∷ []) ("a" ∷ "\u{1b}" ∷ "[" ∷ "2" ∷ "H" ∷ "b" ∷ [])
moved = shows "a" refl (moves ("2" ∷ []) [] "H" (refl, tt) tt refl (shows "b" refl ends))

strip_from-Decorated_example :
    strip_from 0 ("a" ∷ "\u{1b}" ∷ "[" ∷ "2" ∷ "H" ∷ "b" ∷ []) ≡ "a" ∷ "b" ∷ []
strip_from-Decorated_example =
    strip_from-Decorated ("a" ∷ "b" ∷ []) ("a" ∷ "\u{1b}" ∷ "[" ∷ "2" ∷ "H" ∷ "b" ∷ []) moved
