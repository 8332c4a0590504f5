-- ===== src/Tests/Commission.antt =====
-- Runs of scripts/commission.py on a factory-reset switch that answers over a cable.
use omniswitch_ci_cd.Prelude.{
  ℕ, ◌+◌, ◌≤◌, ◌≡◌, refl, ap, ◌⊎◌, inl, inr, All, List, ◌∷◌, String, Bool, true, false, none, [],
  map, str_eq, arith, if◌then◌else◌,
}
use omniswitch_ci_cd.Prelude.Text.{codes, lower, starts_with}
use omniswitch_ci_cd.Exec.{Result, ok, raised, ◌>>=◌}
use omniswitch_ci_cd.Exec.Triple.{ok_inj}
use omniswitch_ci_cd.Commission.Text.{Patterns, interface_is_up}
use omniswitch_ci_cd.Commission.Stage.{
  Stage, is_ok, rejected_candidates, SerialConsole, CommissionArguments, Outside,
}
use omniswitch_ci_cd.Commission.Login.{stage_first_login}
use omniswitch_ci_cd.Commission.Network.{wait_for_interface_up}
use omniswitch_ci_cd.Commission.Run.{
  CommissionState, stage_slugs, run_stages, run_planned, commission_main,
}
use omniswitch_ci_cd.Commission.Probing.{IsLog, first_login_checks}
use omniswitch_ci_cd.Commission.Ends.{IsPort, commission_main-closes}
use omniswitch_ci_cd.Commission.Progress.{IsProgress, IsComplete, run_stages-IsProgress}
use omniswitch_ci_cd.Commission.Success.{run_planned-success}
use omniswitch_ci_cd.Commission.Policy.{Refusal, Accepted, stage_first_login-password}
use omniswitch_ci_cd.Commission.Waiting.{IsSleep, wait_for_interface_up-Within}
use omniswitch_ci_cd.Tests.Application.{lab}

record Cable : Type 0 where
  is_open : Bool
  password : String
  slept : ℕ
  answers : List (String × String × (Bool × String × Bool))

-- Everything that a stage looks for.
abbrev screen : String
screen =
    "192.168.1.1 UP\nadmin\n64 bytes from 192.168.1.2\nssh enabled\nhttps enabled\nService type = Http\nserver local"

abbrev refusal : String
refusal =
    "at least 9 characters, non-alphanumeric, uppercase, lowercase, digit, consecutive characters, consecutive identical characters"

-- The dialogue takes the password of the lab file alone.
abbrev reply : (new_password : String) → Bool × String × Bool
reply new_password =
    if str_eq new_password "Switch-1" then (true, "done", false) else (false, refusal, true)

abbrev cable : SerialConsole Cable
cable = record {
  open_port_only = λ w. (ok tt, record w { is_open = true });
  await_login_prompt = λ timeout w. (ok tt, w);
  submit_login = λ username password timeout w.
      (ok (if str_eq w.password "switch" then "Password policy mismatch" else "->"), w);
  change_password_at_login = λ current_password new_password timeout w. (
    ok (reply new_password),
    record w {
      password = if str_eq new_password "Switch-1" then new_password else w.password;
      answers = (current_password, new_password, reply new_password) ∷ w.answers;
    },
  );
  send_command = λ command timeout w. (ok screen, w);
  close = λ w. (ok tt, record w { is_open = false });
}

abbrev pub patterns : Patterns
patterns = record {
  search = λ pattern text. true;
  match_start = λ pattern text. starts_with (lower (codes text)) (codes "service type");
  escape = λ s. s;
}

abbrev outside : Outside Cable
outside = record {
  open_console = λ known. cable;
  sleep = λ seconds w. (ok tt, record w { slept = w.slept + seconds });
  scan_top_ports = λ target top_ports w. (ok ([], "no open ports"), w);
  utcnow = λ w. (ok "2026-01-01T00:00:00", w);
  load_lab = λ path w. (ok lab, w);
  write_json = λ path report w. (ok tt, w);
  repr = λ s. s;
  patterns = patterns;
}

abbrev pub arguments : CommissionArguments
arguments = record {
  lab = "lab.yaml";
  report = "reports/commission.json";
  top_ports = 100;
  skip_scan = false;
  from_stage = "first-login";
  list_stages = false;
}

abbrev factory : Cable
factory = record { is_open = false; password = "switch"; slept = 0; answers = [] }

abbrev Closed : Cable → Type 0
Closed w = w.is_open ≡ false

cable_port : IsPort outside Closed
cable_port = record {
  close_closes = λ known w. refl;
  open_raises = λ known w e closed h. absurd (ground (arith, h));
  clock_keeps = record { at = λ w closed. closed };
  load_keeps = λ path. record { at = λ w closed. closed };
  write_keeps = λ path report. record { at = λ w closed. closed };
}

commission_main-closes_example : Closed (commission_main outside arguments factory).1
commission_main-closes_example =
    commission_main-closes outside Closed cable_port arguments factory refl

-- What stands in the list of answers.
abbrev Listed :
    String × String × (Bool × String × Bool)
    → List (String × String × (Bool × String × Bool))
    → Type 0
Listed entry [] = ⊥
Listed entry (first ∷ entries) = (first ≡ entry) ⊎ Listed entry entries

abbrev Answered : String → String → Bool × String × Bool → Cable → Type 0
Answered p q answer w = Listed (p, q, answer) w.answers

log : IsLog cable Answered
log = record {
  answers = λ p q timeout. record { at = λ w u answer h. inl (ap (λ a. (p, q, a)) (ok_inj h)) };
  await_keeps = λ p q answer timeout. record { at = λ w h. h };
  submit_keeps = λ p q answer username password timeout. record { at = λ w h. h };
  change_keeps = λ p q answer current_password new_password timeout. record { at = λ w h. inr h };
}

abbrev fresh : CommissionState Cable
fresh = record { stages = []; world = factory }

ran_lem : (run_stages outside arguments lab stage_slugs fresh).0 ≡ ok tt
unfolding run_stages ◌>>=◌
ran_lem = refl

run_stages-IsProgress_example :
    IsProgress outside arguments lab stage_slugs
      (run_stages outside arguments lab stage_slugs fresh).1.stages
run_stages-IsProgress_example =
    run_stages-IsProgress outside arguments lab stage_slugs fresh refl ran_lem

success_lem : (run_planned outside arguments lab stage_slugs "now" fresh).0 ≡ ok 0
unfolding run_planned ◌>>=◌
success_lem = refl

run_planned-success_example :
    IsComplete outside arguments lab stage_slugs
      (run_planned outside arguments lab stage_slugs "now" fresh).1.stages
run_planned-success_example =
    run_planned-success outside arguments lab stage_slugs "now" factory success_lem

abbrev first_stage : Stage
first_stage = returned (stage_first_login cable outside.repr lab factory).0
  where
    returned : Result Stage → Stage
    returned (ok stage) = stage
    returned (raised e) = record { name = ""; checks = []; commands = []; error = none }

login_lem : (stage_first_login cable outside.repr lab factory).0 ≡ ok first_stage
unfolding stage_first_login ◌>>=◌
login_lem = refl

login_ok : is_ok first_stage ≡ true
unfolding stage_first_login ◌>>=◌ is_ok
login_ok = refl

stage_first_login-password_example :
    (All
        (λ probe.
          Refusal cable outside.repr Answered log lab probe
            (stage_first_login cable outside.repr lab factory).1)
        rejected_candidates
      × Accepted cable outside.repr Answered log lab
          (stage_first_login cable outside.repr lab factory).1)
    × (map (λ check. check.name) first_stage.checks ≡ first_login_checks "->")
stage_first_login-password_example =
    stage_first_login-password cable outside.repr Answered log lab factory first_stage login_lem
      login_ok

-- The interface never comes up.
abbrev dark : Outside Cable
dark = record outside { patterns = record outside.patterns { search = λ pattern text. false } }

abbrev full_wait : ℕ
full_wait = 55

wait_lem : (wait_for_interface_up dark cable "192.168.1.1" factory).0 ≡ ok (screen, full_wait)
unfolding wait_for_interface_up ◌>>=◌
wait_lem = refl

nap : IsSleep dark cable (λ w. w.slept)
nap = record { sleep_counts = λ seconds w h. refl; command_sleeps_none = λ command timeout w. refl }

wait_for_interface_up-Within_example :
    ((wait_for_interface_up dark cable "192.168.1.1" factory).1.slept ≡ factory.slept + full_wait)
    × (full_wait ≤ 55)
    × (interface_is_up dark.patterns screen "192.168.1.1" ≡ false → full_wait ≡ 55)
wait_for_interface_up-Within_example =
    wait_for_interface_up-Within dark cable (λ w. w.slept) nap "192.168.1.1" factory screen
      full_wait wait_lem
