-- ===== src/Secfunc/Plan.antt =====
-- The phases of scripts/run_secfunc.py, their selection, and what the summary says of the results.
use omniswitch_ci_cd.Prelude.{
  ℕ, suc, ◌*◌, ◌/◌, ◌%◌, String, ◌<>◌, Bool, true, false, not, ◌&&◌, ◌||◌, Option, none, some, List,
  [], ◌∷◌, ◌++◌, any, all, select, map, ltb, ◌==◌, str_eq, length, if◌then◌else◌,
}
use omniswitch_ci_cd.Domain.Results.{ℤ, pos, negsuc}

-- A path is its text, and `a / b` of paths puts a slash between them. `suite` tells a switchtest run from a
-- pytest run.
pub record Step : Type 0 where
  pub label : String
  pub device : Option String
  pub suite : Option String
  pub pytest_files : List String
  pub needs_console : Bool
  pub needs_api_repo : Bool

pub record Phase : Type 0 where
  pub name : String
  pub title : String
  pub steps : List Step
  pub note : String

pub record SecfuncArguments : Type 0 where
  pub lab : String
  pub report_dir : String
  pub phase : List String
  pub skip_console : Bool
  pub list_only : Bool
  pub keep_accounts : Bool

-- `SKIPPED`, the code -1 of a step that did not run.
abbrev pub skipped_code : ℤ
skipped_code = negsuc 0

-- `step.is_switch`.
abbrev pub is_switch : Step → Bool
is_switch step = elim step.suite [ none ↦ false | some suite ↦ true ]

abbrev switch_step : (label device suite : String) (needs_console : Bool) → Step
switch_step label device suite needs_console = record {
  label = label;
  device = some device;
  suite = some suite;
  pytest_files = [];
  needs_console = needs_console;
  needs_api_repo = false;
}

abbrev api_step : (label : String) (pytest_files : List String) (needs_console : Bool) → Step
api_step label pytest_files needs_console = record {
  label = label;
  device = none;
  suite = none;
  pytest_files = pytest_files;
  needs_console = needs_console;
  needs_api_repo = true;
}

-- `PHASES`.
abbrev pub phases : List Phase
phases =
    record {
      name = "password-change";
      title = "Password change policy (console -> SSH -> API -> WebView)";
      steps =
          switch_step "console" "secureadmin" "suites/password_change_policy.yaml" true
          ∷ switch_step "ssh" "admin" "suites/password_change_policy.yaml" false
          ∷ api_step "api" ("tests/test_password_policy.py" ∷ []) false
          ∷ api_step "webview" ("tests/test_password_policy_webview.py" ∷ []) false
          ∷ [];
      note =
          "same policy refused over all four transports; all-invalid, so no password actually changes";
    }
    ∷ record {
      name = "switch-ssh";
      title = "Switch checks over SSH (admin)";
      steps = switch_step "ssh" "admin" "suites/secfunc_all_ssh.yaml" false ∷ [];
      note =
          "17 testcases: password/lockout config, on-demand self-test, crypto, VLAN -- nothing that reads swlog";
    }
    ∷ record {
      name = "switch-lowpriv";
      title = "Audit access restriction (low-privilege account)";
      steps = switch_step "ssh" "lowpriv" "suites/secfunc_lowpriv.yaml" false ∷ [];
      note = "proves a restricted account is refused the audit log";
    }
    ∷ record {
      name = "api-network";
      title = "API and WebView checks (network only)";
      steps =
          api_step "api+web"
            ("tests/test_lockout_enforcement_api.py" ∷ "tests/test_lockout_enforcement_webview.py"
              ∷ "tests/test_webview_menu_visibility.py" ∷ [])
            false
          ∷ [];
      note = "needs WebView up, so it runs before anything that switches services off";
    }
    ∷ record {
      name = "api-console";
      title = "IP ban over API and WebView";
      steps =
          api_step "api+web"
            ("tests/test_ip_ban_enforcement_api.py" ∷ "tests/test_ip_ban_enforcement_webview.py"
              ∷ [])
            true
          ∷ [];
      note = "bans this machine's IP, then releases it over the serial console";
    }
    ∷ record {
      name = "switch-console";
      title = "Switch checks over the serial console (secureadmin)";
      steps = switch_step "console" "secureadmin" "suites/secfunc_console.yaml" true ∷ [];
      note =
          "14 testcases: everything needing secureadmin (swlog reads) or the console (service disable, IP ban)";
    }
    ∷ []

-- The filter of `selected_phases` on the steps of a phase.
abbrev pub kept_steps : SecfuncArguments → List Step → List Step
kept_steps arguments = select (λ s. not (arguments.skip_console && s.needs_console))

abbrev pub is_excluded : SecfuncArguments → Phase → Bool
is_excluded arguments phase = elim arguments.phase [
  | [] ↦ false
  | name ∷ names ↦ not (any (str_eq phase.name) (name ∷ names))
]

abbrev pub with_steps : Phase → List Step → List Phase → List Phase
with_steps phase [] rest = rest
with_steps phase (step ∷ steps) rest = record phase { steps = step ∷ steps } ∷ rest

-- The loop of `selected_phases`.
unfoldable pub select_from : SecfuncArguments → List Phase → List Phase
select_from arguments [] = []
select_from arguments (phase ∷ others) =
    let rest = select_from arguments others in
    if is_excluded arguments phase
    then rest
    else with_steps phase (kept_steps arguments phase.steps) rest

-- `selected_phases`.
unfoldable pub selected_phases : SecfuncArguments → List Phase
unfolding select_from
selected_phases arguments = select_from arguments phases

-- The steps of the loop of `main`, each with its phase.
unfoldable pub plan_of : List Phase → List (Phase × Step)
plan_of [] = []
plan_of (phase ∷ others) = map (λ s. (phase, s)) phase.steps ++ plan_of others

-- `report_path`.
unfoldable pub report_path : SecfuncArguments → Phase → Step → String
report_path arguments phase step =
    let suffix = if is_switch step then "json" else "xml" in
    let stem = if length phase.steps == 1 then phase.name else phase.name <> ("." <> step.label) in
    arguments.report_dir <> ("/" <> (stem <> ("." <> suffix)))

abbrev pub is_zero : ℤ → Bool
is_zero (pos n) = n == 0
is_zero (negsuc n) = false

abbrev pub is_skipped_code : ℤ → Bool
is_skipped_code (pos n) = false
is_skipped_code (negsuc n) = n == 0

abbrev pub is_positive : ℤ → Bool
is_positive (pos n) = ltb 0 n
is_positive (negsuc n) = false

-- An entry of `results`, without the path of its report.
pub record StepResult : Type 0 where
  pub phase : Phase
  pub step : Step
  pub code : ℤ

-- The last line that `summarize` prints.
pub data Verdict : Type 0 where
  failed : List String → Verdict
  never_ran : Verdict
  all_passed : Verdict

abbrev pub say : List String → Bool → Verdict
say (name ∷ names) some_skipped = failed (name ∷ names)
say [] true = never_ran
say [] false = all_passed

-- `summarize`, as far as its last line goes.
unfoldable pub summarize : List StepResult → Verdict
summarize results =
    say
      (map (λ r. r.phase.name <> ("/" <> r.step.label)) (select (λ r. is_positive r.code) results))
      (any (λ r. is_skipped_code r.code) results)

-- What `main` returns behind the summary.
unfoldable pub exit_code : List StepResult → ℕ
exit_code results = if all (λ r. is_zero r.code) results then 0 else 1

-- `round(a / b)` for `b > 0`: to the nearest integer, and to the even one of two.
abbrev pub round_quotient : ℕ → ℕ → ℕ
round_quotient a b =
    let twice = 2 * (a % b) in
    let down = a / b in if ltb twice b || (twice == b && down % 2 == 0) then down else suc down

-- `filled` of `bar`; the quotient of the code is a float, which is exact enough for numbers of this size.
unfoldable pub bar_filled : (done total width : ℕ) → ℕ
bar_filled done total width = if total == 0 then 0 else round_quotient (width * done) total
