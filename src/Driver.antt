-- ===== src/Driver.antt =====
-- base.py (src/switchtest/drivers/base.py): the interface of a switch driver, over the state `W` of
-- all that lies outside the process. A driver is a value of this record.
use omniswitch_ci_cd.Prelude.{ℕ, String, Bool, Option, List}
use omniswitch_ci_cd.Exec.{Exec}

-- `get_metadata()`, a dict with two keys.
pub record Metadata : Type 0 where
  pub firmware_version : Option String
  pub device_model : Option String

-- The optional arguments are written out; `run_show` and `apply_config` default to a timeout of 30.
pub record BaseSwitchDriver (W : Type 0) : Type 0 where
  pub connect : Exec W Unit
  pub disconnect : Exec W Unit
  pub enter_enable_mode : Exec W Unit
  pub enter_config_mode : Exec W Unit
  pub exit_config_mode : Exec W Unit
  pub run_show : (command : String) (timeout : ℕ) (reauth : Bool) → Exec W String
  pub apply_config :
      (commands : List String) (timeout : ℕ) (ignore_errors : Bool) → Exec W (List String)
  pub restore_baseline : (source : Option String) → Exec W Unit
  pub get_metadata : Exec W Metadata
  pub attempt_login : (username password : String) (timeout : ℕ) → Exec W Bool
