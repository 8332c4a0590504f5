-- ===== src/Tests/Client.antt =====
-- A run of scripts/commission.py over the serial client, on a cable where no login prompt appears.
use omniswitch_ci_cd.Prelude.{refl, false, []}
use omniswitch_ci_cd.Exec.{ok}
use omniswitch_ci_cd.Commission.Stage.{Outside}
use omniswitch_ci_cd.Commission.Run.{commission_main}
use omniswitch_ci_cd.Commission.Client.{
  Transport, IsOff, IsBeside, over_client, commission_main-over_client,
}
use omniswitch_ci_cd.Tests.Application.{lab}
use omniswitch_ci_cd.Tests.Console.{Wire, serial, pyserial, Closed, unplugged}
use omniswitch_ci_cd.Tests.Commission.{arguments, patterns}

abbrev start : Transport Closed
start = record { state = record { connected = false; world = unplugged }; sound = λ off. refl }

abbrev desk : Outside Wire
desk = record {
  open_console = λ known. record {
    open_port_only = λ w. (ok tt, w);
    await_login_prompt = λ timeout w. (ok tt, w);
    submit_login = λ username password timeout w. (ok "", w);
    change_password_at_login =
        λ current_password new_password timeout w. (ok (false, "", false), w);
    send_command = λ command timeout w. (ok "", w);
    close = λ w. (ok tt, w);
  };
  sleep = λ seconds w. (ok tt, w);
  scan_top_ports = λ target top_ports w. (ok ([], "no open ports"), w);
  utcnow = λ w. (ok "2026-01-01T00:00:00", w);
  load_lab = λ path w. (ok lab, w);
  write_json = λ path report w. (ok tt, w);
  repr = λ s. s;
  patterns = patterns;
}

beside : IsBeside desk Closed
beside = record {
  sleep_keeps = λ seconds. record { at = λ w closed. closed };
  scan_keeps = λ target top_ports. record { at = λ w closed. closed };
  clock_keeps = record { at = λ w closed. closed };
  load_keeps = λ path. record { at = λ w closed. closed };
  write_keeps = λ path report. record { at = λ w closed. closed };
}

start-IsOff : IsOff Closed start
start-IsOff = (refl, refl)

commission_main-over_client_example :
    IsOff Closed
      (commission_main (over_client serial Closed pyserial desk beside) arguments start).1
commission_main-over_client_example =
    commission_main-over_client serial Closed pyserial desk beside arguments start start-IsOff
