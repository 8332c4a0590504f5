-- ===== src/Validation/Probes.antt =====
-- What the validation handlers call: the probes of src/switchtest/infrastructure, the environment, and
-- the regular expression engine for patterns that a testcase brings; and the helpers that the handlers
-- share (src/switchtest/services/validation_service.py).
use omniswitch_ci_cd.Prelude.{
  ℕ, String, ◌<>◌, Bool, true, false, Option, none, some, List, if◌then◌else◌,
}
use omniswitch_ci_cd.Prelude.Text.{given, or_empty}
use omniswitch_ci_cd.Errors.{ErrorKind}
use omniswitch_ci_cd.Exec.{Result, Exec, pure, raise, ◌>>=◌}
use omniswitch_ci_cd.Domain.Enums.{ResultStatus, pass, fail}
use omniswitch_ci_cd.Domain.TestCase.{SnmpCredentials, ValidationStep}
use omniswitch_ci_cd.Domain.Results.{ValidationResult}
use omniswitch_ci_cd.Driver.{BaseSwitchDriver}
use omniswitch_ci_cd.Snmp.{SnmpV3Params, SnmpResult}

-- What is read of a received trap; the payload itself is not used.
pub record ReceivedTrap : Type 0 where
  pub source_ip : String
  pub version : Option String
  pub username : Option String

pub record Probes (W : Type 0) : Type 0 where
  pub ping_target : (target : String) (timeout : ℕ) → Exec W (Bool × String)
  pub scan_port :
      (target : String) (port timeout : ℕ) (protocol : String) → Exec W (String × String)
  pub scan_top_ports :
      (target : String) (top_ports : ℕ) (all_ports : Bool) (timeout : ℕ)
      → Exec W (List String × String)
  pub check_web_unreachable : (target : String) (port timeout : ℕ) → Exec W (Bool × String)
  pub check_api_unreachable :
      (target : String) (port : ℕ) (path : String) (timeout : ℕ) → Exec W (Bool × String)
  pub probe_tcp : (target : String) (port timeout : ℕ) → Exec W (Bool × String)
  -- the version's name, its raw number and the path of the capture
  pub capture_tls_version :
      (interface target : String) (port duration : ℕ) → Exec W (String × String × String)
  pub snmp_get :
      (target : String) (port : ℕ) (oid : String) → SnmpV3Params → (timeout : ℕ) → Exec W SnmpResult
  pub snmp_set :
      (target : String) (port : ℕ) (oid value : String)
      → SnmpV3Params
      → (value_type : String) (timeout : ℕ) → Exec W SnmpResult
  -- `TrapListener`: `__enter__`, `__exit__` and `wait_for`
  pub trap_open : (port : ℕ) → Exec W Unit
  pub trap_close : Exec W Unit
  pub trap_wait : (timeout : ℕ) (expected_source : String) → Exec W (Option ReceivedTrap)
  -- `os.environ.get` and `get_required_secret`
  pub getenv : String → Exec W (Option String)
  pub get_required_secret : String → Exec W String
  -- `re.search(pattern, text)` and the same with `re.MULTILINE`
  pub re_search : (multiline : Bool) (pattern text : String) → Result Bool

abbrev pub status_of : Bool → ResultStatus
status_of true = pass
status_of false = fail

-- The result of a check, with the message of its failure.
abbrev pub checked :
    ValidationStep
    → Bool
    → (observed expected : Option String) (message : String) → ValidationResult
checked validation good observed expected message = record {
  name = validation.name;
  status = status_of good;
  observed = observed;
  expected = expected;
  message = if good then none else some message;
}

abbrev pub failed_check :
    ValidationStep → (observed expected : Option String) (message : String) → ValidationResult
failed_check validation observed expected message =
    checked validation false observed expected message

module _ {W : Type 0} where
  -- `ValidationExecutionError(f"Validation '{name}' ...")`.
  abbrev pub not_executable : {A : Type 0} → ValidationStep → String → Exec W A
  not_executable validation what =
      raise ErrorKind.validation_execution ("Validation '" <> (validation.name <> ("'" <> what)))

  -- `_run_show`.
  unfoldable pub run_show_of : BaseSwitchDriver W → ValidationStep → Exec W String
  run_show_of driver validation =
      if given validation.command
      then driver.run_show (or_empty validation.command) validation.timeout validation.reauth
      else not_executable validation " requires a command"

  -- `_require_oid`.
  unfoldable pub require_oid : ValidationStep → Exec W String
  require_oid validation =
      if given validation.oid
      then pure (or_empty validation.oid)
      else not_executable validation " requires an oid"

module _ {W : Type 0} (probes : Probes W) where
  -- `_resolve_secret`.
  unfoldable pub resolve_secret :
      (inline env_name : Option String) (validation_name kind : String) → Exec W String
  resolve_secret inline env_name validation_name kind =
      if given env_name
      then probes.get_required_secret (or_empty env_name)
      else if given inline
      then pure (or_empty inline)
      else raise ErrorKind.validation_execution (
          "Validation '"
          <> (validation_name
              <> ("' needs an SNMP "
                  <> (kind
                      <> (" password ("
                          <> (kind <> ("_password or " <> (kind <> "_password_env)"))))))))

  abbrev pub priv_secret : SnmpCredentials → String → String → Exec W String
  priv_secret credentials name auth_password =
      if given credentials.priv_password
      then resolve_secret credentials.priv_password credentials.priv_password_env name "privacy"
      else if given credentials.priv_password_env
      then resolve_secret credentials.priv_password credentials.priv_password_env name "privacy"
      else pure auth_password

  abbrev pub params_from : ValidationStep → Option SnmpCredentials → Exec W SnmpV3Params
  params_from validation none =
      not_executable validation " requires an 'snmp' block (user and passwords)"
  params_from validation (some credentials) = do
    auth_password ←
        resolve_secret credentials.auth_password credentials.auth_password_env validation.name
          "auth"
    priv_password ← priv_secret credentials validation.name auth_password
    pure (record {
      user = credentials.user;
      auth_password = auth_password;
      priv_password = priv_password;
      level = credentials.level;
      auth_protocol = credentials.auth_protocol;
      priv_protocol = credentials.priv_protocol;
    })

  -- `_snmp_params`.
  unfoldable pub snmp_params : ValidationStep → Exec W SnmpV3Params
  unfolding resolve_secret
  snmp_params validation = params_from validation validation.snmp
