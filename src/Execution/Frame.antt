-- ===== src/Execution/Frame.antt =====
-- What `_run_steps` leaves alone: a property of the session that neither the world nor the log
-- enters is kept by every step, and a dry run keeps the world.
use omniswitch_ci_cd.Prelude.{ℕ, zero, suc, ◌+◌, String, Bool, true, false, List, [], ◌∷◌}
use omniswitch_ci_cd.Exec.{Exec, modify}
use omniswitch_ci_cd.Exec.Laws.{Keeps, Keeps-bind, keeps_rules}
use omniswitch_ci_cd.Domain.Enums.{TestAction}
use omniswitch_ci_cd.Domain.TestCase.{TestStep}
use omniswitch_ci_cd.Execution.Steps.{
  Services, Session, on_world, extend_log, check_safe, login_attempts, sleep_unless,
  ensure_unlocked, unlock_if, trigger_failed_logins, run_action, run_actions, run_steps,
}

module _ {W : Type 0} (P : Session W → Type 0) where
  -- `P` does not speak of the world or the log.
  abbrev pub IsFramed : Type 0
  IsFramed =
      (s : Session W) (w : W) (log : List String)
      → P s
      → P (record s { world = w; command_log = log })

module _ {W : Type 0} {P : Session W → Type 0} (framed : IsFramed P) where
  Keeps-on_world : {A : Type 0} (m : Exec W A) → Keeps P (on_world m)
  unfolding on_world
  Keeps-on_world m = record { at = λ s p. framed s (m s.world).1 s.command_log p }

  Keeps-extend_log : (lines : List String) → Keeps P (extend_log lines)
  unfolding extend_log
  Keeps-extend_log lines = record { at = λ s p. framed s s.world _ p }

  Keeps-check_safe : Keeps P check_safe
  unfolding check_safe
  Keeps-check_safe = search keeps_rules

  ruleset frame_rules = (keeps_rules, Keeps-on_world, Keeps-extend_log)

  module _ (services : Services W) where
    Keeps-login_attempts :
        (username password : String) (attempt left : ℕ)
        → Keeps P (login_attempts services username password attempt left)
    unfolding login_attempts
    Keeps-login_attempts username password attempt zero = search frame_rules
    Keeps-login_attempts username password attempt (suc left) =
        Keeps-bind _ _ (Keeps-on_world _) (λ b.
          Keeps-bind _ _ (Keeps-extend_log _)
            (λ _. Keeps-login_attempts username password (attempt + 1) left))

    Keeps-unlock_if : (b : Bool) (username : String) → Keeps P (unlock_if services b username)
    Keeps-unlock_if true username = search frame_rules
    Keeps-unlock_if false username = search frame_rules

    Keeps-sleep_unless : (b : Bool) (n : ℕ) → Keeps P (sleep_unless services b n)
    unfolding modify
    Keeps-sleep_unless true n = search frame_rules
    Keeps-sleep_unless false n = record {
      at = λ s p. framed s (services.sleep n s.world) s.command_log p;
    }

    Keeps-ensure_unlocked :
        (dry_run : Bool) (username : String) → Keeps P (ensure_unlocked services dry_run username)
    unfolding ensure_unlocked
    Keeps-ensure_unlocked true username = search frame_rules
    Keeps-ensure_unlocked false username = search (frame_rules, Keeps-unlock_if)

    Keeps-trigger :
        (dry_run : Bool) (username password : String) (attempts : ℕ)
        → Keeps P (trigger_failed_logins services dry_run username password attempts)
    unfolding trigger_failed_logins
    Keeps-trigger true username password attempts = search frame_rules
    Keeps-trigger false username password attempts = search (frame_rules, Keeps-login_attempts)

    Keeps-run_action :
        (dry_run : Bool) (action : TestAction) (step : TestStep)
        → Keeps P (run_action services dry_run action step)
    unfolding run_action
    Keeps-run_action dry_run TestAction.wait step = search (frame_rules, Keeps-sleep_unless)
    Keeps-run_action dry_run TestAction.reboot step = search frame_rules
    Keeps-run_action dry_run TestAction.ensure_unlocked step = Keeps-ensure_unlocked dry_run _
    Keeps-run_action dry_run TestAction.trigger_failed_logins step = Keeps-trigger dry_run _ _ _
    Keeps-run_action true _ step = search frame_rules
    Keeps-run_action false _ step = search frame_rules

    pub Keeps-run_actions :
        (dry_run : Bool) (steps : List TestStep) → Keeps P (run_actions services dry_run steps)
    unfolding run_actions
    Keeps-run_actions dry_run [] = search frame_rules
    Keeps-run_actions dry_run (step ∷ steps) =
        Keeps-bind _ _ (Keeps-run_action dry_run step.action step)
          (λ _. Keeps-run_actions dry_run steps)

    -- `_run_steps` keeps whatever neither the world nor the log enters.
    pub Keeps-run_steps :
        (dry_run : Bool) (steps : List TestStep) → Keeps P (run_steps services dry_run steps)
    unfolding run_steps
    Keeps-run_steps dry_run steps = search (frame_rules, Keeps-run_actions, Keeps-check_safe)
