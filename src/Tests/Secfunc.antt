-- ===== src/Tests/Secfunc.antt =====
-- Runs of all security-functional checks: a switch that refuses what it is asked to remove.
use text.Mathlib.TextEquality.{eq_iff}
use omniswitch_ci_cd.Prelude.{
  ℕ, suc, ◌≤◌, ◌≡◌, ◌↔◌, refl, String, Bool, true, false, none, some, List, [], ◌∷◌, map, leb, All,
  str_eq, if◌then◌else◌, arith,
}
use omniswitch_ci_cd.Errors.{ErrorKind}
use omniswitch_ci_cd.Exec.{ok, raised, pure, ◌>>=◌}
use omniswitch_ci_cd.Domain.Results.{pos, negsuc}
use omniswitch_ci_cd.Domain.Lab.{LabConfig, devices, find}
use omniswitch_ci_cd.Domain.Enums.{TransportType}
use omniswitch_ci_cd.Driver.{BaseSwitchDriver}
use omniswitch_ci_cd.Secfunc.Plan.{
  Step, Phase, SecfuncArguments, StepResult, phases, selected_phases, plan_of, all_passed,
  summarize, exit_code, bar_filled,
}
use omniswitch_ci_cd.Secfunc.Accounts.{
  Runner, delete_command, provisioned_accounts, connect_with_retry, manage_accounts, retry_connect,
  manage_one,
}
use omniswitch_ci_cd.Secfunc.Run.{uses_console, run_plan, run_all}
use omniswitch_ci_cd.Secfunc.Selection.{wanted_of, selected_phases-eq-wanted_of}
use omniswitch_ci_cd.Secfunc.Bounds.{bar_filled-le}
use omniswitch_ci_cd.Secfunc.Results.{
  item_of_result, IsPassed, IsUnsignalled, summarize-exit_code, run_all-success,
}
use omniswitch_ci_cd.Secfunc.Retry.{connect_with_retry-connects}
use omniswitch_ci_cd.Secfunc.Removal.{Removes, AllAsked, run_all-removes}
use omniswitch_ci_cd.Tests.Application.{lab, wired_lab, account}

record Site : Type 0 where
  tries : ℕ
  asked : String → Bool

abbrev changed : List String → Bool → (String → Bool) → String → Bool
changed [] deletes asked user = asked user
changed (command ∷ commands) true asked user =
    if str_eq (delete_command user) command then true else asked user
changed (command ∷ commands) false asked user = false

-- The first two attempts to connect fail. A deletion is the command with errors ignored, and a creation counts for every
-- name.
abbrev site_driver : BaseSwitchDriver Site
site_driver = record {
  connect = λ w. if leb 2 w.tries then (ok tt, w) else (
    raised (record { kind = ErrorKind.connection; message = "no banner" }),
    record w { tries = suc w.tries },
  );
  disconnect = λ w. (ok tt, w);
  enter_enable_mode = pure tt;
  enter_config_mode = pure tt;
  exit_config_mode = pure tt;
  run_show = λ command timeout reauth. pure "";
  apply_config = λ commands timeout ignore_errors w. (
    ok ("ERROR: no such user" ∷ []),
    record w { asked = changed commands ignore_errors w.asked },
  );
  restore_baseline = λ source. pure tt;
  get_metadata = pure (record { firmware_version = none; device_model = none });
  attempt_login = λ username password timeout. pure false;
}

abbrev Asked : String → Site → Type 0
Asked user w = w.asked user ≡ true

stays_asked :
    (user other : String) (asked : String → Bool)
    → asked other ≡ true
    → changed (delete_command user ∷ []) true asked other ≡ true
stays_asked user other asked h = ground (arith, h)

site-Removes : Removes Asked site_driver
site-Removes = record {
  asks = λ user. record {
    at = λ w p r e. rw ((eq_iff (delete_command user) (delete_command user)).1 refl);
  };
  remove_keeps = λ user other. record { at = λ w. stays_asked user other w.asked };
  disconnect_keeps = λ user. record { at = λ w asked. asked };
}

abbrev runner : Runner Site
runner = record {
  aos_driver = λ device. site_driver;
  sleep = λ delay w. (ok tt, w);
  load_lab = λ path w. (ok lab, w);
  make_directory = λ path w. (ok tt, w);
  path_exists = λ path w. (ok true, w);
  run_process = λ command cwd environment w. (ok (pos 0), w);
  environ = λ w. (ok [], w);
  is_absolute = λ path. true;
  parent_of = λ path. ".";
  join_path = λ base path. path;
  executable = "python";
  repo_root = "/repo";
}

abbrev site : Site
site = record { tries = 0; asked = λ user. false }

abbrev arguments : SecfuncArguments
arguments = record {
  lab = "lab.yaml";
  report_dir = "reports";
  phase = "switch-ssh" ∷ "switch-console" ∷ [];
  skip_console = true;
  list_only = false;
  keep_accounts = false;
}

-- A lab with an account that the run makes and removes.
abbrev test_lab : LabConfig
test_lab = record wired_lab {
  accounts =
      ("admin", record account { transport = some TransportType.ssh })
      ∷ (
        "guest",
        record account {
          username = "guest";
          provision = some (record { privileges = "read-only all" });
        },
      )
      ∷ [];
}

abbrev plan : List (Phase × Step)
plan = plan_of (selected_phases arguments)

selected_phases-eq-wanted_of_example : selected_phases arguments ≡ wanted_of arguments phases
selected_phases-eq-wanted_of_example = selected_phases-eq-wanted_of arguments

bar_filled-le_example : (bar_filled 3 8 24 ≤ 24) × (bar_filled 8 8 24 ≡ 24)
bar_filled-le_example = bar_filled-le 3 8 24 (omega arith) (omega arith)

connect_with_retry-connects_example : (connect_with_retry runner site_driver 6 5 site).0 ≡ ok tt
connect_with_retry-connects_example =
    connect_with_retry-connects runner site_driver 5 (λ w. refl) 6 2 site (omega arith) refl

abbrev step : Step
step = record {
  label = "ssh";
  device = some "admin";
  suite = some "suites/secfunc_all_ssh.yaml";
  pytest_files = [];
  needs_console = false;
  needs_api_repo = false;
}

abbrev phase : Phase
phase = record { name = "switch-ssh"; title = "SSH"; steps = step ∷ []; note = "" }

-- One step passed and one was skipped.
abbrev results : List StepResult
results =
    record { phase = phase; step = step; code = pos 0 }
    ∷ record { phase = phase; step = step; code = negsuc 0 }
    ∷ []

results_lem : All IsUnsignalled results
results_lem = ((λ n h. absurd (ground (arith, h))), ((λ n h. ground (arith, h)), tt))

summarize-exit_code_example : (summarize results ≡ all_passed) ↔ (exit_code results ≡ 0)
summarize-exit_code_example = summarize-exit_code results results_lem

abbrev small_plan : List (Phase × Step)
small_plan = (phase, step) ∷ []

made_lem : (manage_accounts runner test_lab true false site).0 ≡ ok tt
unfolding manage_accounts connect_with_retry retry_connect ◌>>=◌ devices find manage_one
made_lem = refl

abbrev worked : Site
worked =
    (run_plan runner arguments test_lab none small_plan
      (manage_accounts runner test_lab true false site).1).1

removed_lem : (manage_accounts runner test_lab false (uses_console small_plan) worked).0 ≡ ok tt
unfolding manage_accounts connect_with_retry retry_connect ◌>>=◌ devices find manage_one run_plan
removed_lem = refl

run_all-removes_example :
    AllAsked Asked
      (provisioned_accounts test_lab)
      (run_all runner arguments test_lab none small_plan site).1
run_all-removes_example =
    run_all-removes Asked runner (λ device. site-Removes) arguments test_lab none small_plan site
      refl made_lem removed_lem

success_lem : (run_all runner arguments test_lab none small_plan site).0 ≡ ok 0
unfolding run_all ◌>>=◌ devices find manage_one
success_lem = refl

run_all-success_example :
    (rs : List StepResult) × ((run_plan runner arguments test_lab none small_plan
        (manage_accounts runner test_lab true false site).1).0
      ≡ ok rs)
    × (map item_of_result rs ≡ small_plan)
    × All IsPassed rs
run_all-success_example = run_all-success runner arguments test_lab none small_plan site success_lem
