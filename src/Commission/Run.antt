-- ===== src/Commission/Run.antt =====
-- The run of the stages of scripts/commission.py and its report. `arguments` are those that argparse has accepted: an
-- unknown `from_stage` cannot occur.
use omniswitch_ci_cd.Prelude.{
  ℕ, String, Bool, false, not, Option, none, some, List, [], ◌∷◌, ◌++◌, all, str_eq, if◌then◌else◌,
}
use omniswitch_ci_cd.Errors.{is_loader}
use omniswitch_ci_cd.Exec.{Exec, pure, throw, gets, modify, try_except, try_finally, ◌>>=◌, ◌>>◌}
use omniswitch_ci_cd.Domain.Lab.{LabConfig}
use omniswitch_ci_cd.Commission.Stage.{Stage, is_ok, SerialConsole, CommissionArguments, Outside}
use omniswitch_ci_cd.Commission.Login.{stage_first_login, sign_in_normally}
use omniswitch_ci_cd.Commission.Network.{stage_addressing, stage_reachability, stage_port_scan}
use omniswitch_ci_cd.Commission.Services.{stage_services_and_accounts, stage_save}

-- `STAGE_SLUGS`.
abbrev pub stage_slugs : List String
stage_slugs = "first-login" ∷ "addressing" ∷ "reachability" ∷ "port-scan" ∷ "services" ∷ "save" ∷ []

-- `STAGE_SLUGS[STAGE_SLUGS.index(from_stage) :]`.
unfoldable pub from_slug : (from_stage : String) → List String → List String
from_slug from_stage [] = []
from_slug from_stage (slug ∷ slugs) =
    let rest = from_slug from_stage slugs in if str_eq slug from_stage then slug ∷ slugs else rest

abbrev pub starts_late : List String → Bool
starts_late [] = false
starts_late (slug ∷ slugs) = not (str_eq slug "first-login")

-- `stages`, which the `finally` part reads, beside what lies outside.
pub record CommissionState (W : Type 0) : Type 0 where
  pub stages : List Stage
  pub world : W

module _ {W : Type 0} where
  unfoldable pub in_world : {A : Type 0} → Exec W A → Exec (CommissionState W) A
  in_world m s = let (r, w) = m s.world in (r, record s { world = w })

  -- `stages.append(stage)`.
  unfoldable pub append_stage : Stage → Exec (CommissionState W) Unit
  unfolding modify
  append_stage stage = modify (λ s. record s { stages = s.stages ++ stage ∷ [] })

-- The code that `main` returns behind the stages.
unfoldable pub stages_code : List Stage → ℕ
unfolding is_ok
stages_code [] = 1
stages_code (stage ∷ stages) = if all is_ok (stage ∷ stages) then 0 else 1

module _ {W : Type 0} (outside : Outside W) (arguments : CommissionArguments)
    (lab : LabConfig) where
  abbrev pub transport : SerialConsole W
  transport = outside.open_console lab

  -- `run_stage`.
  unfoldable pub run_stage : (slug : String) → Exec W Stage
  unfolding stage_first_login stage_addressing stage_reachability stage_port_scan
      stage_services_and_accounts stage_save
  run_stage slug =
      if str_eq slug "first-login"
      then stage_first_login transport outside.repr lab
      else if str_eq slug "addressing"
      then stage_addressing outside transport lab
      else if str_eq slug "reachability"
      then stage_reachability outside transport lab
      else if str_eq slug "port-scan"
      then stage_port_scan outside lab arguments
      else if str_eq slug "services"
      then stage_services_and_accounts outside.patterns transport lab
      else stage_save transport

  -- The loop of `main` over the planned stages.
  unfoldable pub run_stages : List String → Exec (CommissionState W) Unit
  unfolding in_world append_stage run_stage is_ok
  run_stages [] = pure tt
  run_stages (slug ∷ slugs) = do
    stage ← in_world (run_stage slug)
    append_stage stage
    (if is_ok stage then run_stages slugs else pure tt)

  -- `write_report`.
  unfoldable pub write_report : (started : String) → Exec (CommissionState W) Unit
  unfolding in_world is_ok
  write_report started = do
    ended ← in_world outside.utcnow
    stages ← gets (λ s. s.stages)
    in_world (
        outside.write_json arguments.report (record {
          started_at = started;
          ended_at = ended;
          passed = all is_ok stages;
          stages = stages;
        }))

  abbrev pub after_sign_in : List String → Option String → Exec (CommissionState W) (Option ℕ)
  after_sign_in planned none = run_stages planned >> pure none
  after_sign_in planned (some failure) = pure (some 2)

  -- The `try` part of `main`: the code of an early return, or none.
  unfoldable pub try_stages : List String → Exec (CommissionState W) (Option ℕ)
  unfolding in_world sign_in_normally run_stages
  try_stages planned =
      if starts_late planned
      then (in_world (sign_in_normally transport outside.repr lab) >>= after_sign_in planned)
      else after_sign_in planned none

  abbrev pub finish : (started : String) → Exec (CommissionState W) Unit
  finish started = in_world transport.close >> write_report started

  abbrev pub exit_of : Option ℕ → Exec (CommissionState W) ℕ
  exit_of (some early) = pure early
  exit_of none = gets (λ s. stages_code s.stages)

  -- `main` from `open_console` on.
  unfoldable pub run_planned : List String → (started : String) → Exec (CommissionState W) ℕ
  unfolding in_world try_stages write_report stages_code
  run_planned planned started = do
    in_world transport.open_port_only
    early ← try_finally (try_stages planned) (finish started)
    exit_of early

module _ {W : Type 0} (outside : Outside W) where
  -- `stages` starts empty.
  unfoldable pub start_stages : {A : Type 0} → Exec (CommissionState W) A → Exec W A
  start_stages m w = let (r, s) = m (record { stages = []; world = w }) in (r, s.world)

  abbrev pub try_load : String → Exec W (Option LabConfig)
  try_load path =
      try_except (do lab ← outside.load_lab path; pure (some lab))
        (λ exc. if is_loader exc.kind then pure none else throw exc)

  abbrev pub with_lab : CommissionArguments → Option LabConfig → Exec W ℕ
  with_lab arguments none = pure 2
  with_lab arguments (some lab) = do
    started ← outside.utcnow
    start_stages
        (run_planned outside arguments lab (from_slug arguments.from_stage stage_slugs) started)

  -- `main`.
  unfoldable pub commission_main : CommissionArguments → Exec W ℕ
  unfolding from_slug run_planned start_stages
  commission_main arguments =
      if arguments.list_stages then pure 0 else (try_load arguments.lab >>= with_lab arguments)
