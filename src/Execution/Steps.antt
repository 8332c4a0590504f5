-- ===== src/Execution/Steps.antt =====
-- `_run_steps` of src/switchtest/services/execution_service.py. `Session` holds what the code mutates:
-- the context, the world outside, and the local variables that `run_test` assigns.
-- The driver, the validation service, the clock and `time.sleep` are the fields of `Services`.
use omniswitch_ci_cd.Prelude.{
  ℕ, zero, suc, ◌+◌, String, ◌<>◌, Bool, true, false, ◌&&◌, ◌||◌, Option, none, List, [], ◌∷◌, ◌++◌,
  map, ◌==◌, if◌then◌else◌,
}
use omniswitch_ci_cd.Prelude.Text.{
  given, truthy, or_empty, or_number, show, codes, starts_with, is_space,
}
use omniswitch_ci_cd.Errors.{ErrorKind}
use omniswitch_ci_cd.Exec.{Exec, pure, raise, gets, modify, ◌>>=◌, ◌>>◌}
use omniswitch_ci_cd.Domain.Enums.{
  ValidationType, TestAction, ResultStatus, DeviceSafetyState, is_unsafe,
}
use omniswitch_ci_cd.Domain.TestCase.{TestStep, ValidationStep}
use omniswitch_ci_cd.Domain.Results.{Time, ValidationResult, CleanupStatus}
use omniswitch_ci_cd.Domain.Runtime.{RuntimeContext}
use omniswitch_ci_cd.Driver.{BaseSwitchDriver}

-- `SNMP_VALIDATIONS`.
abbrev pub is_snmp_validation : ValidationType → Bool
is_snmp_validation ValidationType.snmp_get = true
is_snmp_validation ValidationType.snmp_set = true
is_snmp_validation ValidationType.snmp_denied = true
is_snmp_validation _ = false

unfoldable pub skipped_in_dry_run : ValidationStep → Bool
skipped_in_dry_run validation = given validation.command || is_snmp_validation validation.type

-- What the service is built over. `sleep` and `utcnow` are `time.sleep` and `utils.time.utcnow`.
pub record Services (W : Type 0) : Type 0 where
  pub driver : BaseSwitchDriver W
  pub run_validation : ValidationStep → Exec W ValidationResult
  pub sleep : ℕ → W → W
  pub utcnow : W → Time × W

pub record Session (W : Type 0) : Type 0 where
  pub context : RuntimeContext
  pub world : W
  pub command_log : List String
  pub validation_results : List ValidationResult
  pub status : ResultStatus
  pub error_message : Option String
  pub cleanup_status : CleanupStatus

-- `\s*` and then the text `t`, from the head of `s`.
after_spaces : List ℕ → List ℕ → Bool
after_spaces [] t = starts_with [] t
after_spaces (c ∷ s) t =
    let later = after_spaces s t in if is_space c then later else starts_with (c ∷ s) t

equals_yes : List ℕ → Bool
equals_yes [] = false
equals_yes (c ∷ s) =
    let later = equals_yes s in
    if is_space c then later else c == b'=' && after_spaces s (codes "Yes")

drop_prefix : List ℕ → List ℕ → List ℕ
drop_prefix s [] = s
drop_prefix [] (d ∷ t) = []
drop_prefix (c ∷ s) (d ∷ t) = drop_prefix s t

-- `re.search(r"Account lockout\s*=\s*Yes", output)`.
unfoldable pub shows_lockout : List ℕ → Bool
unfolding after_spaces equals_yes drop_prefix starts_with is_space
shows_lockout [] = false
shows_lockout (c ∷ s) =
    (starts_with (c ∷ s) (codes "Account lockout")
      && equals_yes (drop_prefix (c ∷ s) (codes "Account lockout")))
    || shows_lockout s

module _ {W : Type 0} where
  -- A call that reaches the world and leaves the session's own variables alone.
  unfoldable pub on_world : {A : Type 0} → Exec W A → Exec (Session W) A
  on_world m s = let (r, w) = m s.world in (r, record s { world = w })

  unfoldable pub extend_log : List String → Exec (Session W) Unit
  unfolding modify
  extend_log lines = modify (λ s. record s { command_log = s.command_log ++ lines })

  abbrev pub append_log : String → Exec (Session W) Unit
  append_log line = extend_log (line ∷ [])

  unfoldable pub set_device_state : DeviceSafetyState → Exec (Session W) Unit
  unfolding modify
  set_device_state d = modify (λ s. record s { context = record s.context { device_state = d } })

  unfoldable pub set_status : ResultStatus → Exec (Session W) Unit
  unfolding modify
  set_status r = modify (λ s. record s { status = r })

  -- The check behind the loop of `_run_steps`.
  unfoldable pub check_safe : Exec (Session W) Unit
  check_safe = do
    state ← gets (λ s. s.context.device_state)
    if is_unsafe state then raise ErrorKind.cleanup "Device is in unsafe state" else pure tt

module _ {W : Type 0} (services : Services W) where
  abbrev pub sleep_unless : Bool → ℕ → Exec (Session W) Unit
  sleep_unless true seconds = pure tt
  sleep_unless false seconds = modify (λ s. record s { world = services.sleep seconds s.world })

  -- The reading of `show user` and what follows it in an `ensure_unlocked` step.
  abbrev pub unlock_if : Bool → String → Exec (Session W) Unit
  unlock_if true username = do
    on_world (services.driver.apply_config (("user " <> (username <> " unlock")) ∷ []) 30 false)
    append_log ("ENSURE_UNLOCKED " <> (username <> ": was locked, now unlocked"))
  unlock_if false username = append_log ("ENSURE_UNLOCKED " <> (username <> ": already unlocked"))

  -- `for attempt in range(1, attempts + 1)`, with the attempts that are left.
  unfoldable pub login_attempts :
      (username password : String) (attempt left : ℕ) → Exec (Session W) Unit
  login_attempts username password attempt zero = pure tt
  login_attempts username password attempt (suc left) = do
    succeeded ← on_world (services.driver.attempt_login username password 15)
    append_log (
        "FAILED_LOGIN_ATTEMPT "
        <> (username
            <> (" #"
                <> (show attempt
                    <> (": "
                        <> (if succeeded then "unexpected SUCCESS" else "rejected as expected"))))))
    login_attempts username password (attempt + 1) left

  unfoldable pub ensure_unlocked : (dry_run : Bool) → String → Exec (Session W) Unit
  ensure_unlocked true username =
      if truthy username
      then append_log ("DRY_RUN ensure_unlocked user=" <> username)
      else raise ErrorKind.command_execution "ensure_unlocked requires a username"
  ensure_unlocked false username =
      if truthy username
      then (do
        output ← on_world (services.driver.run_show ("show user " <> username) 30 false)
        unlock_if (shows_lockout (codes output)) username)
      else raise ErrorKind.command_execution "ensure_unlocked requires a username"

  unfoldable pub trigger_failed_logins :
      (dry_run : Bool) (username password : String) (attempts : ℕ) → Exec (Session W) Unit
  unfolding login_attempts
  trigger_failed_logins true username password attempts =
      if truthy username
      then append_log
          ("DRY_RUN trigger_failed_logins user=" <> (username <> (" attempts=" <> show attempts)))
      else raise ErrorKind.command_execution "trigger_failed_logins requires a username"
  trigger_failed_logins false username password attempts =
      if truthy username
      then login_attempts username password 1 attempts
      else raise ErrorKind.command_execution "trigger_failed_logins requires a username"

  -- One round of the loop of `_run_steps`, by the step's action.
  unfoldable pub run_action : (dry_run : Bool) → TestAction → TestStep → Exec (Session W) Unit
  unfolding ensure_unlocked trigger_failed_logins
  run_action dry_run TestAction.wait step = do
    append_log ("WAIT " <> (show (or_number step.seconds 0) <> "s"))
    sleep_unless dry_run (or_number step.seconds 0)
  run_action true TestAction.cli step = extend_log (map (λ c. "DRY_RUN " <> c) step.commands)
  run_action false TestAction.cli step = do
    outputs ← on_world (services.driver.apply_config step.commands 30 step.ignore_errors)
    extend_log
        (map (λ c. (if step.ignore_errors then "CLI?" else "CLI") <> (" " <> c)) step.commands)
    extend_log (map (λ o. "OUT " <> o) outputs)
  run_action true TestAction.restore_baseline step = append_log "RESTORE_BASELINE"
  run_action false TestAction.restore_baseline step = do
    on_world (services.driver.restore_baseline none)
    append_log "RESTORE_BASELINE"
  run_action dry_run TestAction.reboot step =
      raise ErrorKind.command_execution "Reboot action is not implemented in MVP"
  run_action true TestAction.save_config step = append_log "SAVE_CONFIG"
  run_action false TestAction.save_config step = do
    append_log "SAVE_CONFIG"
    on_world (services.driver.apply_config ("write memory" ∷ []) 30 false)
    pure tt
  run_action dry_run TestAction.ensure_unlocked step =
      ensure_unlocked dry_run (or_empty step.username)
  run_action dry_run TestAction.trigger_failed_logins step =
      trigger_failed_logins dry_run (or_empty step.username) (or_empty step.wrong_password)
        step.attempts

  -- The loop of `_run_steps`.
  unfoldable pub run_actions : (dry_run : Bool) → List TestStep → Exec (Session W) Unit
  run_actions dry_run [] = pure tt
  run_actions dry_run (step ∷ steps) = do
    run_action dry_run step.action step
    run_actions dry_run steps

  -- `_run_steps`.
  unfoldable pub run_steps : (dry_run : Bool) → List TestStep → Exec (Session W) Unit
  run_steps dry_run steps = do run_actions dry_run steps; check_safe
