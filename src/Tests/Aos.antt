-- ===== src/Tests/Aos.antt =====
-- The AOS driver over a wire that counts the commands it is sent, and over a port with one session.
use omniswitch_ci_cd.Prelude.{
  ℕ, suc, ◌≡◌, refl, ◌≤◌, ◌⊎◌, inl, inr, Option, Bool, true, false, none, some, [], ◌∷◌, any, arith,
  ◌+◌,
}
use omniswitch_ci_cd.Errors.{ErrorKind}
use omniswitch_ci_cd.Exec.{ok, raised, ◌>>=◌}
use omniswitch_ci_cd.Aos.Wire.{Transport, Wire, AosState, is_rejection, on_wire}
use omniswitch_ci_cd.Aos.Driver.{
  transport_of, login_transport, aos_connect, aos_disconnect, aos_run_show, aos_apply_config,
  aos_attempt_login,
}
use omniswitch_ci_cd.Aos.Sessions.{attempt_login-closes, apply_config-accepts}
use omniswitch_ci_cd.Aos.Connection.{IsSession, aos_disconnect-aos_connect}
use omniswitch_ci_cd.Aos.Sends.{IsCounter, attempts, aos_run_show-attempts}
use omniswitch_ci_cd.Tests.Bench.{device}

pub record Line : Type 0 where
  pub sent : ℕ
  pub open_now : Bool

abbrev wire : Wire Line
wire = record {
  connect = λ t w. (ok tt, record w { open_now = true });
  close = λ t w. (ok tt, record w { open_now = false });
  send_command = λ t command timeout w. (ok "", record w { sent = suc w.sent });
  send_commands = λ t commands timeout w. (ok ("done" ∷ []), record w { sent = suc w.sent });
  send_interactive = λ t events timeout w. (ok "", w);
  getenv = λ name w. (ok none, w);
  path_exists = λ path w. (ok true, w);
  read_text = λ path w. (ok "", w);
  short_sleep = λ w. (ok tt, w);
  re_search = λ pattern text. none;
  re_escape = λ s. s;
}

abbrev Closed : Transport → Line → Type 0
Closed t w = w.open_now ≡ false

abbrev session : AosState Line
session = record {
  transport = some (transport_of wire device device.transport "switch" none);
  world = record { sent = 0; open_now = true };
}

counter : IsCounter wire (λ w. w.sent)
counter = record {
  command_counts = λ t command timeout w. omega arith;
  interactive_counts = λ t events timeout w. omega arith;
  sleep_counts = λ w. omega arith;
}

aos_run_show-attempts_example :
    (aos_run_show wire device "user guest password Guest-1" 30 false session).1.world.sent
    ≤ session.world.sent + attempts "user guest password Guest-1" false
aos_run_show-attempts_example =
    aos_run_show-attempts wire device (λ w. w.sent) counter "user guest password Guest-1" 30 false
      session

login_lem : (aos_attempt_login wire device "guest" "wrong" 15 session).0 ≡ ok true
unfolding aos_attempt_login on_wire ◌>>=◌
login_lem = refl

attempt_login-closes_example :
    Closed
      (login_transport wire device "guest" "wrong" 15)
      (aos_attempt_login wire device "guest" "wrong" 15 session).1.world
    × ((aos_attempt_login wire device "guest" "wrong" 15 session).1.transport ≡ session.transport)
attempt_login-closes_example =
    attempt_login-closes wire device Closed (λ t w. refl) "guest" "wrong" 15 session true login_lem

-- A port with one session, which a raising `connect` leaves open.
record Port : Type 0 where
  session : Option Transport

abbrev port_wire : Wire Port
port_wire = record {
  connect = λ t w. (
    raised (record { kind = ErrorKind.connection; message = "login incorrect" }),
    record { session = some t },
  );
  close = λ t w. (ok tt, record { session = none });
  send_command = λ t command timeout w. (ok "", w);
  send_commands = λ t commands timeout w. (ok [], w);
  send_interactive = λ t events timeout w. (ok "", w);
  getenv = λ name w. (ok (some "switch"), w);
  path_exists = λ path w. (ok true, w);
  read_text = λ path w. (ok "", w);
  short_sleep = λ w. (ok tt, w);
  re_search = λ pattern text. none;
  re_escape = λ s. s;
}

abbrev AtMost : Option Transport → Port → Type 0
AtMost o w = (w.session ≡ none) ⊎ (w.session ≡ o)

port_session : IsSession port_wire AtMost
port_session = record {
  connects = λ t w silent. inr refl;
  closes = λ t w one. inl refl;
  close_keeps = λ t. record { at = λ w silent. inl refl };
  getenv_keeps = λ name. record { at = λ w silent. silent };
}

abbrev unused : AosState Port
unused = record { transport = none; world = record { session = none } }

aos_disconnect-aos_connect_example :
    AtMost none (aos_disconnect port_wire device (aos_connect port_wire device unused).1).1.world
aos_disconnect-aos_connect_example =
    aos_disconnect-aos_connect port_wire device AtMost port_session unused (inl refl)

config_lem : (aos_apply_config wire device ("vlan 10" ∷ []) 30 false session).0 ≡ ok ("done" ∷ [])
unfolding aos_apply_config on_wire ◌>>=◌
config_lem = refl

apply_config-accepts_example : any is_rejection ("done" ∷ []) ≡ false
apply_config-accepts_example =
    apply_config-accepts wire device ("vlan 10" ∷ []) 30 session ("done" ∷ []) config_lem
