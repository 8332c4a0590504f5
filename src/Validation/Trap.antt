-- ===== src/Validation/Trap.antt =====
-- `_validate_snmp_trap_received` of src/switchtest/services/validation_service.py.
use omniswitch_ci_cd.Prelude.{
  String, ◌<>◌, Bool, false, not, ◌&&◌, Option, none, some, List, [], ◌∷◌, str_eq, if◌then◌else◌,
}
use omniswitch_ci_cd.Prelude.Text.{truthy, given, or_empty, show}
use omniswitch_ci_cd.Exec.{ok, Exec, pure, try_finally, ◌>>=◌, ◌>>◌}
use omniswitch_ci_cd.Domain.Enums.{pass}
use omniswitch_ci_cd.Domain.TestCase.{SnmpCredentials, ValidationStep}
use omniswitch_ci_cd.Domain.Results.{ValidationResult}
use omniswitch_ci_cd.Driver.{BaseSwitchDriver}
use omniswitch_ci_cd.Snmp.{SnmpV3Params, SnmpResult, redact}
use omniswitch_ci_cd.Validation.Probes.{
  ReceivedTrap, Probes, failed_check, not_executable, snmp_params,
}
use omniswitch_ci_cd.Validation.Snmp.{snmp_port, restore_snmp_value}

-- The SET that provokes the trap: the object, the value and the credentials.
pub record Trigger : Type 0 where
  pub oid : String
  pub new_value : String
  pub params : SnmpV3Params

-- `original`, once `did_write` is true; the `finally` part reads it.
pub record TrapState (W : Type 0) : Type 0 where
  pub world : W
  pub written : Option String

-- How the wait ended: a failed SET returns at once, otherwise a trap or none arrived.
pub data Waited : Type 0 where
  set_failure : ValidationResult → Waited
  arrived : Option ReceivedTrap → Waited

module _ {W : Type 0} where
  unfoldable pub reach : {A : Type 0} → Exec W A → Exec (TrapState W) A
  reach m s = let (r, w) = m s.world in (r, record s { world = w })

  -- `did_write = True`, with the value to put back.
  unfoldable pub remember : String → Exec (TrapState W) Unit
  remember original s = (ok tt, record s { written = some original })

module _ {W : Type 0} (probes : Probes W) (driver : BaseSwitchDriver W) (v : ValidationStep) where
  abbrev target : String
  target = or_empty v.target

  -- `if validation.trigger_commands: driver.apply_config(...)`.
  abbrev pub provoke : List String → Exec W Unit
  provoke [] = pure tt
  provoke (command ∷ commands) = driver.apply_config (command ∷ commands) 30 false >> pure tt

  abbrev pub after_set :
      Trigger → (original written : SnmpResult) → Exec (TrapState W) (Option ValidationResult)
  after_set t original written =
      if written.ok
      then (remember (or_empty original.value) >> pure none)
      else pure (
          some (
            failed_check v (some (redact t.params written.detail)) (some t.new_value) (
              "SNMP SET of "
              <> (t.oid
                  <> (" was rejected for user '"
                      <> (t.params.user <> "' -- no trap was even attempted"))))))

  abbrev pub after_get : Trigger → SnmpResult → Exec (TrapState W) (Option ValidationResult)
  after_get t original =
      if original.ok
      then (do
        written ← reach (
            probes.snmp_set target (snmp_port probes v) t.oid t.new_value t.params v.value_type
              v.timeout)
        after_set t original written)
      else pure (
          some (
            failed_check v (some (redact t.params original.detail)) (some t.new_value) (
              "Could not read "
              <> (t.oid
                  <> (" before setting it (as user '"
                      <> (t.params.user <> "') -- no trap was even attempted"))))))

  -- The SET with its read of the original value; `some` is the `set_failure`.
  unfoldable pub trigger_set : Option Trigger → Exec (TrapState W) (Option ValidationResult)
  trigger_set none = pure none
  trigger_set (some t) = do
    original ← reach (probes.snmp_get target (snmp_port probes v) t.oid t.params v.timeout)
    after_get t original

  abbrev pub await : Option ValidationResult → Exec (TrapState W) Waited
  await (some failure) = pure (set_failure failure)
  await none = do trap ← reach (probes.trap_wait v.timeout target); pure (arrived trap)

  -- The body of `with TrapListener(...)`.
  unfoldable pub listen : Option Trigger → Exec (TrapState W) Waited
  unfolding trigger_set
  listen trigger = do
    reach (provoke v.trigger_commands)
    failure ← trigger_set trigger
    await failure

  abbrev pub put_back : Option Trigger → Option String → Exec W Unit
  put_back (some t) (some original) = restore_snmp_value probes v t.oid original t.params
  put_back _ _ = pure tt

  -- The `finally` part: a value that was written is put back.
  unfoldable pub undo : Option Trigger → Exec (TrapState W) Unit
  undo trigger s = reach (put_back trigger s.written) s

  -- `try: with TrapListener(port) as listener: ...` / `finally`. The socket is bound first.
  unfoldable pub guarded_wait : Option Trigger → Exec (TrapState W) Waited
  guarded_wait trigger =
      try_finally
        (do
          reach (probes.trap_open v.trap_port)
          try_finally (listen trigger) (reach probes.trap_close))
        (undo trigger)

  abbrev expected_text : String
  expected_text = "a trap from " <> (target <> (" within " <> (show v.timeout <> "s")))

  abbrev none_observed : Option Trigger → String
  none_observed trigger =
      "no datagram received on UDP/"
      <> (show v.trap_port <> (" from " <> (target <> set_note trigger)))
    where
      set_note : Option Trigger → String
      set_note none = ""
      set_note (some t) = " (the SET of " <> (t.oid <> " itself succeeded)")

  abbrev version_note : Option String → String
  version_note version = if given version then ", SNMP " <> or_empty version else ""

  abbrev user_note : Option String → String
  user_note username = if given username then ", user '" <> (or_empty username <> "'") else ""

  abbrev trap_observed : ReceivedTrap → String
  trap_observed trap =
      "received from " <> (trap.source_ip <> (version_note trap.version <> user_note trap.username))

  abbrev expected_user : Option SnmpCredentials → Option String
  expected_user none = none
  expected_user (some credentials) = some credentials.user

  abbrev pub wrong_user : ReceivedTrap → Bool
  wrong_user trap =
      given (expected_user v.snmp)
      && given trap.username
      && not (str_eq (or_empty trap.username) (or_empty (expected_user v.snmp)))

  -- The judgement of what arrived.
  unfoldable pub trap_result : Option Trigger → Option ReceivedTrap → ValidationResult
  unfolding show
  trap_result trigger none = failed_check v (some (none_observed trigger)) (some expected_text) (
      "No trap arrived -- the station may be configured but nothing is "
      <> "actually being sent, or it never reached this host")
  trap_result trigger (some trap) =
      if wrong_user trap
      then failed_check v (some (trap_observed trap))
          (some ("trap authenticated as '" <> (or_empty (expected_user v.snmp) <> "'")))
          ("A trap arrived but as user '"
            <> (or_empty trap.username <> ("', not '" <> (or_empty (expected_user v.snmp) <> "'"))))
      else record {
        name = v.name;
        status = pass;
        observed = some (trap_observed trap);
        expected = some expected_text;
        message = none;
      }

  unfoldable pub judge : Option Trigger → Waited → ValidationResult
  unfolding trap_result
  judge trigger (set_failure failure) = failure
  judge trigger (arrived trap) = trap_result trigger trap

  abbrev pub trigger_of : Option String → Option String → Exec W (Option Trigger)
  trigger_of (some oid) (some value) = do
    params ← snmp_params probes v
    pure (some (record { oid = oid; new_value = value; params = params }))
  trigger_of _ _ = pure none

  -- The `try` statement run in the world.
  abbrev pub waited : Option Trigger → Exec W Waited
  waited trigger w =
      let (r, s) = guarded_wait trigger (record { world = w; written = none }) in (r, s.world)

  abbrev pub with_target : Exec W ValidationResult
  with_target = do
    trigger ← trigger_of v.oid v.value
    outcome ← waited trigger
    pure (judge trigger outcome)

  -- `_validate_snmp_trap_received`.
  unfoldable pub validate_snmp_trap_received : Exec W ValidationResult
  validate_snmp_trap_received =
      if truthy target then with_target else not_executable v " requires a target"
