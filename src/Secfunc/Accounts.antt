-- ===== src/Secfunc/Accounts.antt =====
-- The provisioned accounts of scripts/run_secfunc.py: they are made before the steps and removed behind
-- them. `Runner` has what the script calls outside; its drivers are those of `AOSSwitchDriver`.
use omniswitch_ci_cd.Prelude.{
  ℕ, zero, suc, String, ◌<>◌, Bool, true, false, Option, none, some, List, [], ◌∷◌, if◌then◌else◌,
}
use omniswitch_ci_cd.Prelude.Text.{or_empty}
use omniswitch_ci_cd.Errors.{ErrorKind}
use omniswitch_ci_cd.Exec.{Result, Exec, pure, raise, try_except, try_finally, ◌>>=◌, ◌>>◌}
use omniswitch_ci_cd.Domain.Results.{ℤ}
use omniswitch_ci_cd.Domain.Runtime.{DeviceDefinition}
use omniswitch_ci_cd.Domain.Lab.{
  LabConfig, LabAccount, ProvisionSpec, Variables, devices, find, is_serial,
}
use omniswitch_ci_cd.Driver.{BaseSwitchDriver}

-- `run_process command cwd env` is the return code of `subprocess.run`, negative for a process that a
-- signal ended; `join_path base path` is `(base / path).resolve()`.
pub record Runner (W : Type 0) : Type 0 where
  pub aos_driver : DeviceDefinition → BaseSwitchDriver W
  pub sleep : ℕ → Exec W Unit
  pub load_lab : String → Exec W LabConfig
  pub make_directory : String → Exec W Unit
  pub path_exists : String → Exec W Bool
  pub run_process : (command : List String) (cwd : String) → Variables → Exec W ℤ
  pub environ : Exec W Variables
  pub is_absolute : String → Bool
  pub parent_of : String → String
  pub join_path : (base path : String) → String
  pub executable : String
  pub repo_root : String

pub record Provisioned : Type 0 where
  pub username : String
  pub password : String
  pub privileges : String

abbrev with_provision : LabAccount → Option ProvisionSpec → List Provisioned → List Provisioned
with_provision account none rest = rest
with_provision account (some provision) rest =
    record {
      username = account.username;
      password = or_empty account.password;
      privileges = provision.privileges;
    }
    ∷ rest

provisioned_from : List (String × LabAccount) → List Provisioned
provisioned_from [] = []
provisioned_from ((role, account) ∷ accounts) =
    with_provision account account.provision (provisioned_from accounts)

-- `provisioned_accounts`.
unfoldable pub provisioned_accounts : LabConfig → List Provisioned
unfolding provisioned_from
provisioned_accounts lab = provisioned_from lab.accounts

-- `serial_device`, from the devices of the lab.
unfoldable pub serial_device : List (String × DeviceDefinition) → Option DeviceDefinition
serial_device [] = none
serial_device ((role, device) ∷ others) =
    let rest = serial_device others in if is_serial device.transport then some device else rest

abbrev pub delete_command : String → String
delete_command username = "no user " <> username

abbrev create_command : Provisioned → String
create_command account =
    "user "
    <> (account.username <> (" password " <> (account.password <> (" " <> account.privileges))))

module _ {W : Type 0} where
  abbrev pub of_result : {A : Type 0} → Result A → Exec W A
  of_result r w = (r, w)

  -- `d[key]` of a dict that may not have the key.
  abbrev pub item_of : {A : Type 0} → String → Option A → Exec W A
  item_of key (some value) = pure value
  item_of key none = raise ErrorKind.other key

  -- One round of the loop of `manage_accounts`.
  unfoldable pub manage_one : BaseSwitchDriver W → (create : Bool) → Provisioned → Exec W Unit
  manage_one driver true account = do
    driver.apply_config (delete_command account.username ∷ []) 30 true
    driver.apply_config (create_command account ∷ []) 30 false
    pure tt
  manage_one driver false account =
      driver.apply_config (delete_command account.username ∷ []) 30 true >> pure tt

  unfoldable pub manage_each : BaseSwitchDriver W → (create : Bool) → List Provisioned → Exec W Unit
  manage_each driver create [] = pure tt
  manage_each driver create (account ∷ accounts) = do
    manage_one driver create account
    manage_each driver create accounts

module _ {W : Type 0} (runner : Runner W) where
  -- The loop of `connect_with_retry`, with the attempts that remain behind this one.
  unfoldable pub retry_connect : BaseSwitchDriver W → (delay remaining : ℕ) → Exec W Unit
  retry_connect driver delay zero = driver.connect
  retry_connect driver delay (suc remaining) =
      try_except driver.connect (λ exc. runner.sleep delay >> retry_connect driver delay remaining)

  -- `connect_with_retry`; without attempts the loop has no round.
  unfoldable pub connect_with_retry : BaseSwitchDriver W → (attempts delay : ℕ) → Exec W Unit
  unfolding retry_connect
  connect_with_retry driver zero delay = pure tt
  connect_with_retry driver (suc attempts) delay = retry_connect driver delay attempts

  -- A new driver for the admin account, connected.
  abbrev pub open_admin : LabConfig → (attempts : ℕ) → Exec W (BaseSwitchDriver W)
  open_admin lab attempts = do
    known ← of_result (devices lab)
    device ← item_of "admin" (find "admin" known)
    connect_with_retry (runner.aos_driver device) attempts 5
    pure (runner.aos_driver device)

  abbrev pub over_cable : LabConfig → Option DeviceDefinition → Exec W (BaseSwitchDriver W)
  over_cable lab none = open_admin lab 3
  over_cable lab (some device) = do
    (runner.aos_driver device).connect
    (runner.aos_driver device).apply_config ("aaa switch-access banned-ip all release" ∷ []) 30 true
    pure (runner.aos_driver device)

  -- `open_teardown_session`.
  unfoldable pub open_teardown_session :
      LabConfig → (console_ran : Bool) → Exec W (BaseSwitchDriver W)
  unfolding connect_with_retry serial_device
  open_teardown_session lab true = do
    known ← of_result (devices lab)
    over_cable lab (serial_device known)
  open_teardown_session lab false = open_admin lab 3

  abbrev pub open_for : LabConfig → (create console_ran : Bool) → Exec W (BaseSwitchDriver W)
  open_for lab true console_ran = open_admin lab 6
  open_for lab false console_ran = open_teardown_session lab console_ran

  abbrev pub manage_listed :
      LabConfig → (create console_ran : Bool) → List Provisioned → Exec W Unit
  manage_listed lab create console_ran [] = pure tt
  manage_listed lab create console_ran (account ∷ accounts) = do
    driver ← open_for lab create console_ran
    try_finally (manage_each driver create (account ∷ accounts)) driver.disconnect

  -- `manage_accounts`.
  unfoldable pub manage_accounts : LabConfig → (create console_ran : Bool) → Exec W Unit
  unfolding connect_with_retry open_teardown_session provisioned_accounts manage_each
  manage_accounts lab create console_ran =
      manage_listed lab create console_ran (provisioned_accounts lab)
