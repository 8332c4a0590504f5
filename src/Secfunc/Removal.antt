-- ===== src/Secfunc/Removal.antt =====
-- A run of scripts/run_secfunc.py asks the switch to remove the provisioned accounts.
use mathlib.Core.Path.{subst}
use omniswitch_ci_cd.Prelude.{
  ℕ, String, ◌≡◌, refl, sym, Bool, true, false, Option, none, some, List, [], ◌∷◌, All, All-mono,
}
use omniswitch_ci_cd.Exec.{Result, ok, raised, pure, try_except, try_finally, continue, ◌>>=◌}
use omniswitch_ci_cd.Exec.Laws.{Keeps, Keeps-bind, Keeps-pure}
use omniswitch_ci_cd.Exec.Triple.{
  Triple, Triple-frame, Triple-weaken, Triple-pure, Triple-bind, Triple-after, Triple-fact,
  Triple-try_finally, Triple-Keeps, Anything,
}
use omniswitch_ci_cd.Domain.Runtime.{DeviceDefinition}
use omniswitch_ci_cd.Domain.Lab.{LabConfig}
use omniswitch_ci_cd.Driver.{BaseSwitchDriver}
use omniswitch_ci_cd.Secfunc.Plan.{Step, Phase, SecfuncArguments, StepResult, exit_code}
use omniswitch_ci_cd.Secfunc.Accounts.{
  Runner, Provisioned, serial_device, open_admin, over_cable, provisioned_accounts, delete_command,
  manage_one, manage_each, open_teardown_session, manage_listed, manage_accounts,
}
use omniswitch_ci_cd.Secfunc.Run.{run_plan, uses_console, remove_accounts, run_all}

-- `Asked user w`: the last command about the account `user` that the switch was sent is `no user`, whatever it said to
-- it. An `apply_config` of that command that returns has sent it, and neither this command for another account nor the end
-- of a session sends another command about `user`.
pub record Removes {W : Type 0} (Asked : String → W → Type 0) (driver : BaseSwitchDriver W)
    : Type 0 where
  pub asks :
      (user : String)
      → Triple Anything (driver.apply_config (delete_command user ∷ []) 30 true) (λ _. Asked user)
  pub remove_keeps :
      (user other : String)
      → Keeps (Asked other) (driver.apply_config (delete_command user ∷ []) 30 true)
  pub disconnect_keeps : (user : String) → Keeps (Asked user) driver.disconnect

module _ {W : Type 0} (Asked : String → W → Type 0) where
  abbrev pub AllAsked : List Provisioned → W → Type 0
  AllAsked accounts w = All (λ account. Asked account.username w) accounts

  module _ (driver : BaseSwitchDriver W) (removes : Removes Asked driver) where
    one-AllAsked :
        (account : Provisioned)
        → Triple Anything (manage_one driver false account) (λ _. Asked account.username)
    unfolding manage_one
    one-AllAsked account =
        Triple-bind _ _ (removes.asks account.username) λ _. Triple-pure _ λ w p. p

    one-Keeps :
        (user : String) (account : Provisioned)
        → Keeps (Asked user) (manage_one driver false account)
    unfolding manage_one
    one-Keeps user account =
        Keeps-bind _ _ (removes.remove_keeps account.username user) λ _. Keeps-pure _

    each-Keeps :
        (user : String) (accounts : List Provisioned)
        → Keeps (Asked user) (manage_each driver false accounts)
    unfolding manage_each
    each-Keeps user [] = Keeps-pure _
    each-Keeps user (account ∷ accounts) =
        Keeps-bind _ _ (one-Keeps user account) λ _. each-Keeps user accounts

    each-AllAsked :
        (accounts : List Provisioned)
        → Triple Anything (manage_each driver false accounts) (λ _. AllAsked accounts)
    unfolding manage_each
    each-AllAsked [] = Triple-pure _ λ w p. tt
    each-AllAsked (account ∷ accounts) = Triple-bind _ _ (one-AllAsked account) λ _.
        Triple-weaken _ (λ w asked. (asked, tt))
          (Triple-frame _ (each-Keeps account.username accounts) (each-AllAsked accounts))

    disconnect-AllAsked :
        (accounts : List Provisioned) → Keeps (AllAsked accounts) driver.disconnect
    disconnect-AllAsked accounts = record {
      at = λ w. All-mono accounts λ account. (removes.disconnect_keeps account.username).at w;
    }

  module _ (runner : Runner W)
      (removes : (device : DeviceDefinition) → Removes Asked (runner.aos_driver device)) where
    abbrev AnAos : BaseSwitchDriver W → Type 0
    AnAos driver = (device : DeviceDefinition) × (driver ≡ runner.aos_driver device)

    open_admin-AnAos :
        (lab : LabConfig) (attempts : ℕ)
        → Triple Anything (open_admin runner lab attempts) (λ driver _. AnAos driver)
    open_admin-AnAos lab attempts = Triple-after _ _ λ known.
        Triple-after _ _ λ device. Triple-after _ _ λ _. Triple-pure _ λ w p. (device, refl)

    over_cable-AnAos :
        (lab : LabConfig) (device : Option DeviceDefinition)
        → Triple Anything (over_cable runner lab device) (λ driver _. AnAos driver)
    over_cable-AnAos lab none = open_admin-AnAos lab 3
    over_cable-AnAos lab (some device) =
        Triple-after _ _ λ _. Triple-after _ _ λ _. Triple-pure _ λ w p. (device, refl)

    open-AnAos :
        (lab : LabConfig) (console_ran : Bool)
        → Triple Anything (open_teardown_session runner lab console_ran) (λ driver _. AnAos driver)
    unfolding open_teardown_session
    open-AnAos lab true = Triple-after _ _ λ known. over_cable-AnAos lab (serial_device known)
    open-AnAos lab false = open_admin-AnAos lab 3

    -- The loop and the end of its session, for one of the drivers.
    session-AllAsked :
        (driver : BaseSwitchDriver W) (accounts : List Provisioned)
        → AnAos driver
        → Triple Anything
            (try_finally (manage_each driver false accounts) driver.disconnect)
            (λ _. AllAsked accounts)
    session-AllAsked driver accounts (device, same) =
        Triple-try_finally _ _ (each-AllAsked driver own accounts)
          λ _. Triple-Keeps _ (disconnect-AllAsked driver own accounts) λ _ w p. p
      where
        own : Removes Asked driver
        own = subst (Removes Asked) (sym same) (removes device)

    listed-AllAsked :
        (lab : LabConfig) (console_ran : Bool) (accounts : List Provisioned)
        → Triple Anything
            (manage_listed runner lab false console_ran accounts)
            (λ _. AllAsked accounts)
    listed-AllAsked lab console_ran [] = Triple-pure _ λ w p. tt
    listed-AllAsked lab console_ran (account ∷ accounts) =
        Triple-bind _ _ (open-AnAos lab console_ran)
          λ driver. Triple-fact _ λ an_aos. session-AllAsked driver (account ∷ accounts) an_aos

    manage_accounts-AllAsked :
        (lab : LabConfig) (console_ran : Bool)
        → Triple Anything
            (manage_accounts runner lab false console_ran)
            (λ _. AllAsked (provisioned_accounts lab))
    unfolding manage_accounts
    manage_accounts-AllAsked lab console_ran =
        listed-AllAsked lab console_ran (provisioned_accounts lab)

    exit-keeps :
        (r : Result (List StepResult)) (w : W)
        → (continue r (λ results. pure (exit_code results)) w).1 ≡ w
    unfolding pure
    exit-keeps (ok results) w = refl
    exit-keeps (raised e) w = refl

    -- An exception of the removal is only said.
    tried-AllAsked :
        (arguments : SecfuncArguments) (lab : LabConfig) (plan : List (Phase × Step)) (w : W)
        → arguments.keep_accounts ≡ false
        → (manage_accounts runner lab false (uses_console plan) w).0 ≡ ok tt
        → AllAsked (provisioned_accounts lab) (remove_accounts runner arguments lab plan w).1
    unfolding remove_accounts try_except
    tried-AllAsked arguments lab plan w kept removed =
        rw (kept, removed) ((manage_accounts-AllAsked lab (uses_console plan)).at w tt tt removed)

    -- Unless the accounts are to be kept: if the provisioning of the accounts has returned, and so does their removal behind
    -- the steps, then at the end `no user` is the last command about each provisioned account that the switch was sent,
    -- whether the steps between ran to their end or raised. The script does not look at what the switch answers.
    pub run_all-removes :
        (arguments : SecfuncArguments) (lab : LabConfig) (repo : Option String)
        (plan : List (Phase × Step)) (w : W)
        → arguments.keep_accounts ≡ false
        → (manage_accounts runner lab true false w).0 ≡ ok tt
        → (let provisioned = (manage_accounts runner lab true false w).1 in
            let worked = (run_plan runner arguments lab repo plan provisioned).1 in
            (manage_accounts runner lab false (uses_console plan) worked).0 ≡ ok tt)
        → AllAsked (provisioned_accounts lab) (run_all runner arguments lab repo plan w).1
    unfolding run_all ◌>>=◌ try_finally
    run_all-removes arguments lab repo plan w kept made removed =
        rw (made, exit-keeps _ _) (tried-AllAsked arguments lab plan _ kept removed)
