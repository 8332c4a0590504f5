-- ===== src/Secfunc/Run.antt =====
-- The steps and `main` of scripts/run_secfunc.py. The arguments are those that argparse has accepted.
use omniswitch_ci_cd.Prelude.{
  ℕ, String, ◌<>◌, Bool, true, false, not, ◌&&◌, Option, none, some, List, [], ◌∷◌, ◌++◌, any,
  if◌then◌else◌,
}
use omniswitch_ci_cd.Prelude.Text.{given, or_empty, show}
use omniswitch_ci_cd.Errors.{ErrorKind, is_loader}
use omniswitch_ci_cd.Exec.{Exec, pure, raise, throw, try_except, try_finally, ◌>>=◌, ◌>>◌}
use omniswitch_ci_cd.Domain.Results.{ℤ}
use omniswitch_ci_cd.Domain.Lab.{LabConfig, LabAccount, Variables, find, assign}
use omniswitch_ci_cd.Secfunc.Plan.{
  Step, Phase, SecfuncArguments, StepResult, skipped_code, is_switch, selected_phases, plan_of,
  report_path, exit_code,
}
use omniswitch_ci_cd.Secfunc.Accounts.{Runner, item_of, manage_accounts}

abbrev pub add_all : Variables → Variables → Variables
add_all [] variables = variables
add_all ((key, value) ∷ entries) variables = add_all entries (assign key value variables)

abbrev lowpriv_variables : Option LabAccount → Variables
lowpriv_variables none = []
lowpriv_variables (some readonly) =
    ("SWITCH_LOWPRIV_USERNAME", readonly.username)
    ∷ ("SWITCH_LOWPRIV_PASSWORD", or_empty readonly.password)
    ∷ []

abbrev lab_variables : LabConfig → (secureadmin admin : LabAccount) → Variables
lab_variables lab secureadmin admin =
    ("SWITCH_HOST", lab.switch.host)
    ∷ ("SWITCH_API_USERNAME", secureadmin.username)
    ∷ ("SWITCH_API_PASSWORD", or_empty secureadmin.password)
    ∷ ("SWITCH_SSH_PASSWORD", or_empty secureadmin.password)
    ∷ ("SWITCH_CONSOLE_PASSWORD", or_empty secureadmin.password)
    ∷ ("SWITCH_CONSOLE_PORT", lab.console.port)
    ∷ ("SWITCH_CONSOLE_BAUDRATE", show lab.console.baudrate)
    ∷ ("SWITCH_LOCKOUT_USERNAME", admin.username)
    ∷ ("SWITCH_IP_LOCKOUT_THRESHOLD", show lab.baseline.ip_lockout_threshold)
    ∷ []

abbrev pub uses_console : List (Phase × Step) → Bool
uses_console plan = any (λ item. item.1.needs_console) plan

abbrev needs_repo : List (Phase × Step) → Bool
needs_repo plan = any (λ item. item.1.needs_api_repo) plan

abbrev is_absent : Option String → Bool
is_absent none = true
is_absent (some path) = false

module _ {W : Type 0} (runner : Runner W) where
  -- `api_repo_path`.
  unfoldable pub api_repo_path : LabConfig → (lab_file : String) → Option String
  api_repo_path lab lab_file =
      if not (given lab.api_poc_path)
      then none
      else if runner.is_absolute (or_empty lab.api_poc_path)
      then lab.api_poc_path
      else some (runner.join_path (runner.parent_of lab_file) (or_empty lab.api_poc_path))

  abbrev first_existing : List String → Exec W (Option String)
  first_existing [] = pure none
  first_existing (candidate ∷ candidates) = do
    found ← runner.path_exists candidate
    elim found [ true ↦ pure (some candidate) | false ↦ first_existing candidates ]

  -- `api_python`.
  unfoldable pub api_python : (repo : String) → Exec W (Option String)
  api_python repo =
      first_existing ((repo <> "/venv/Scripts/python.exe") ∷ (repo <> "/venv/bin/python") ∷ [])

  -- `api_environment`.
  unfoldable pub api_environment : LabConfig → Exec W Variables
  unfolding show
  api_environment lab = do
    secureadmin ← item_of "secureadmin" (find "secureadmin" lab.accounts)
    admin ← item_of "admin" (find "admin" lab.accounts)
    environment ← runner.environ
    pure (
        add_all
          (lab_variables lab secureadmin admin ++ lowpriv_variables (find "readonly" lab.accounts))
          environment)

  -- `switch_environment`.
  unfoldable pub switch_environment : LabConfig → Exec W Variables
  switch_environment lab = do
    environment ← runner.environ
    pure (
        if given lab.capture_interface
        then assign "SWITCHTEST_CAPTURE_INTERFACE" (or_empty lab.capture_interface) environment
        else environment)

  -- `run_switch_step`.
  unfoldable pub run_switch_step :
      Step → LabConfig → SecfuncArguments → (report : String) → Exec W ℤ
  unfolding switch_environment
  run_switch_step step lab arguments report = do
    environment ← switch_environment lab
    runner.run_process
        (runner.executable
          ∷ "-m"
          ∷ "switchtest.cli"
          ∷ "run"
          ∷ "--device"
          ∷ or_empty step.device
          ∷ "--suite"
          ∷ (runner.repo_root <> ("/" <> or_empty step.suite))
          ∷ "--lab"
          ∷ arguments.lab
          ∷ "--report-dir"
          ∷ arguments.report_dir
          ∷ "--json"
          ∷ report
          ∷ [])
        runner.repo_root environment

  abbrev run_pytest : Step → LabConfig → (repo report : String) → Option String → Exec W ℤ
  run_pytest step lab repo report none = pure skipped_code
  run_pytest step lab repo report (some python) = do
    environment ← api_environment lab
    runner.run_process
        (python ∷ "-m" ∷ "pytest" ∷ step.pytest_files
          ++ "-v" ∷ ("--junit-xml=" <> runner.join_path runner.repo_root report) ∷ [])
        repo environment

  -- `run_api_step`.
  unfoldable pub run_api_step : Step → LabConfig → (repo report : String) → Exec W ℤ
  unfolding api_python api_environment
  run_api_step step lab repo report = do
    python ← api_python repo
    run_pytest step lab repo report python

  abbrev in_repo : Step → LabConfig → Option String → (report : String) → Exec W ℤ
  in_repo step lab none report = raise ErrorKind.other ""
  in_repo step lab (some repo) report = run_api_step step lab repo report

  -- The step of one round of the loop of `main`.
  unfoldable pub run_step :
      SecfuncArguments → LabConfig → Option String → Phase × Step → Exec W StepResult
  unfolding report_path run_switch_step run_api_step
  run_step arguments lab repo (phase, step) = do
    code ←
        (if is_switch step
          then run_switch_step step lab arguments (report_path arguments phase step)
          else in_repo step lab repo (report_path arguments phase step))
    pure (record { phase = phase; step = step; code = code })

  -- The loop of `main`.
  unfoldable pub run_plan :
      SecfuncArguments → LabConfig → Option String → List (Phase × Step) → Exec W (List StepResult)
  unfolding run_step
  run_plan arguments lab repo [] = pure []
  run_plan arguments lab repo (item ∷ items) = do
    result ← run_step arguments lab repo item
    results ← run_plan arguments lab repo items
    pure (result ∷ results)

  -- The `finally` part: the accounts are removed, and what goes wrong is only said.
  unfoldable pub remove_accounts : SecfuncArguments → LabConfig → List (Phase × Step) → Exec W Unit
  unfolding manage_accounts
  remove_accounts arguments lab plan =
      if arguments.keep_accounts
      then pure tt
      else try_except (manage_accounts runner lab false (uses_console plan)) (λ exc. pure tt)

  -- `main` from `manage_accounts(lab, create=True)` on.
  unfoldable pub run_all :
      SecfuncArguments → LabConfig → Option String → List (Phase × Step) → Exec W ℕ
  unfolding manage_accounts run_plan remove_accounts exit_code
  run_all arguments lab repo plan = do
    manage_accounts runner lab true false
    results ← try_finally (run_plan arguments lab repo plan) (remove_accounts arguments lab plan)
    pure (exit_code results)

  abbrev with_lab : SecfuncArguments → List (Phase × Step) → Option LabConfig → Exec W ℕ
  with_lab arguments plan none = pure 2
  with_lab arguments plan (some lab) = do
    runner.make_directory arguments.report_dir
    let repo = api_repo_path lab arguments.lab
    if needs_repo plan && is_absent repo then pure 2 else run_all arguments lab repo plan

  -- `try: lab = load_lab(...)`, where `none` is the `except` clause.
  abbrev try_load : String → Exec W (Option LabConfig)
  try_load path =
      try_except (do lab ← runner.load_lab path; pure (some lab))
        (λ exc. if is_loader exc.kind then pure none else throw exc)

  -- `main`.
  unfoldable pub secfunc_main : SecfuncArguments → Exec W ℕ
  unfolding selected_phases plan_of api_repo_path run_all
  secfunc_main arguments =
      if arguments.list_only
      then pure 0
      else (try_load arguments.lab >>= with_lab arguments (plan_of (selected_phases arguments)))
