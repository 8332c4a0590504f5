-- ===== src/Validation/TrapRestore.antt =====
-- `_validate_snmp_trap_received` of validation_service.py (src/switchtest/services/validation_service.py)
-- puts back the value that its SET has overwritten.
use omniswitch_ci_cd.Prelude.{String, ◌⊎◌, inl, ◌≡◌, Option, some, none}
use omniswitch_ci_cd.Prelude.Text.{or_empty}
use omniswitch_ci_cd.Exec.{Exec}
use omniswitch_ci_cd.Exec.Triple.{Triple}
use omniswitch_ci_cd.Domain.TestCase.{ValidationStep}
use omniswitch_ci_cd.Driver.{BaseSwitchDriver}
use omniswitch_ci_cd.Validation.Probes.{Probes}
use omniswitch_ci_cd.Validation.Agent.{IsAgent, IsAnswering, IsBystander}
use omniswitch_ci_cd.Validation.Trap.{Trigger, TrapState}

module _ {W : Type 0} (probes : Probes W) (driver : BaseSwitchDriver W) (v : ValidationStep)
    (Holds : String → W → Type 0) (agent : IsAgent probes v Holds)
    (answering : IsAnswering probes v) (bystander : IsBystander probes driver Holds)
    (x : String) where
  -- Nothing was written yet.
  abbrev Untouched : TrapState W → Type 0
  Untouched s = (s.written ≡ none) × Holds x s.world

  -- The value to put back is known, if something was written.
  abbrev Known : Option Trigger → TrapState W → Type 0
  Known none s = Untouched s
  Known (some t) s = Untouched s ⊎ (s.written ≡ some x)

  abbrev Aimed : Option Trigger → Type 0
  Aimed none = Unit
  Aimed (some t) = t.oid ≡ or_empty v.oid

  Untouched-Known : (trigger : Option Trigger) (s : TrapState W) → Untouched s → Known trigger s
  Untouched-Known none s h = h
  Untouched-Known (some t) s h = inl h
