-- ===== src/Validation/Agent.antt =====
-- What the validations rely on of the agent behind `snmp_get` and `snmp_set`: the one object that the
-- exchanges of a validation address. `Holds x w` says that the object holds the text `x`.
use omniswitch_ci_cd.Prelude.{ℕ, String, ◌≡◌, true, false, List}
use omniswitch_ci_cd.Prelude.Text.{or_empty}
use omniswitch_ci_cd.Exec.{ok}
use omniswitch_ci_cd.Exec.Laws.{Keeps}
use omniswitch_ci_cd.Domain.TestCase.{ValidationStep}
use omniswitch_ci_cd.Driver.{BaseSwitchDriver}
use omniswitch_ci_cd.Snmp.{SnmpV3Params, SnmpResult}
use omniswitch_ci_cd.Validation.Probes.{Probes}
use omniswitch_ci_cd.Validation.Snmp.{get_oid, set_oid}

-- A GET that succeeds returns the value, and no GET changes it. A SET that is reported as done has
-- written its value. A SET that the agent has answered with a refusal has changed nothing, as RFC 3416
-- asks of an agent. Nothing is said of a SET that raises or that fails in another way: without an answer
-- it may have been carried out.
pub record IsAgent {W : Type 0} (probes : Probes W) (v : ValidationStep)
    (Holds : String → W → Type 0) : Type 0 where
  pub get_reads :
      (x : String) (params : SnmpV3Params) (w : W) (r : SnmpResult)
      → Holds x w
      → (get_oid probes v (or_empty v.oid) params w).0 ≡ ok r
      → r.ok ≡ true
      → or_empty r.value ≡ x
  pub get_keeps :
      (x : String) (params : SnmpV3Params)
      → Keeps (Holds x) (get_oid probes v (or_empty v.oid) params)
  pub set_writes :
      (y : String) (params : SnmpV3Params) (w : W) (r : SnmpResult)
      → (set_oid probes v (or_empty v.oid) y params w).0 ≡ ok r
      → r.ok ≡ true
      → Holds y (set_oid probes v (or_empty v.oid) y params w).1
  pub set_refused :
      (x y : String) (params : SnmpV3Params) (w : W) (r : SnmpResult)
      → Holds x w
      → (set_oid probes v (or_empty v.oid) y params w).0 ≡ ok r
      → r.ok ≡ false
      → r.refused ≡ true
      → Holds x (set_oid probes v (or_empty v.oid) y params w).1
  -- reading a secret writes nothing
  pub secret_keeps : (name x : String) → Keeps (Holds x) (probes.get_required_secret name)

-- The agent answers: every SET that returns without success was refused by it, none was lost on the way
-- or failed for another reason.
pub record IsAnswering {W : Type 0} (probes : Probes W) (v : ValidationStep) : Type 0 where
  pub refuses :
      (y : String) (params : SnmpV3Params) (w : W) (r : SnmpResult)
      → (set_oid probes v (or_empty v.oid) y params w).0 ≡ ok r
      → r.ok ≡ false
      → r.refused ≡ true

-- Waiting for a trap, and the commands that provoke one, do not write the object.
pub record IsBystander {W : Type 0} (probes : Probes W) (driver : BaseSwitchDriver W)
    (Holds : String → W → Type 0) : Type 0 where
  pub apply_keeps :
      (x : String) (commands : List String)
      → Keeps (Holds x) (driver.apply_config commands 30 false)
  pub open_keeps : (x : String) (port : ℕ) → Keeps (Holds x) (probes.trap_open port)
  pub close_keeps : (x : String) → Keeps (Holds x) probes.trap_close
  pub wait_keeps :
      (x : String) (timeout : ℕ) (source : String)
      → Keeps (Holds x) (probes.trap_wait timeout source)
