-- ===== src/Orchestrator/Services.antt =====
-- baseline_service.py, recovery_service.py and metadata_service.py (src/switchtest/services), over the
-- state that a suite mutates.
use omniswitch_ci_cd.Prelude.{false, List, if◌then◌else◌}
use omniswitch_ci_cd.Prelude.Text.{given}
use omniswitch_ci_cd.Errors.{ErrorKind}
use omniswitch_ci_cd.Exec.{Exec, pure, raise, modify, try_except, ◌>>◌}
use omniswitch_ci_cd.Domain.Enums.{DeviceSafetyState, safe, unsafe, SuiteStatus}
use omniswitch_ci_cd.Domain.Results.{TestResult}
use omniswitch_ci_cd.Domain.Runtime.{RuntimeContext, DeviceDefinition}
use omniswitch_ci_cd.Driver.{BaseSwitchDriver, Metadata}

-- The context, the world outside, and the local variables of `run_suite`.
pub record SuiteState (W : Type 0) : Type 0 where
  pub context : RuntimeContext
  pub world : W
  pub metadata : Metadata
  pub results : List TestResult
  pub status : SuiteStatus

module _ {W : Type 0} where
  unfoldable pub outside : {A : Type 0} → Exec W A → Exec (SuiteState W) A
  outside m s = let (r, w) = m s.world in (r, record s { world = w })

  unfoldable pub mark_device : DeviceSafetyState → Exec (SuiteState W) Unit
  unfolding modify
  mark_device d = modify (λ s. record s { context = record s.context { device_state = d } })

  -- `BaselineService.verify_baseline`.
  unfoldable pub verify_baseline : BaseSwitchDriver W → DeviceDefinition → Exec W Unit
  verify_baseline driver device =
      if given device.expected_prompt
      then (driver.run_show "" device.command_timeout false >> pure tt)
      else pure tt

  -- `BaselineService.restore`.
  unfoldable pub restore : BaseSwitchDriver W → DeviceDefinition → Exec (SuiteState W) Unit
  restore driver device =
      try_except (do outside (driver.restore_baseline device.baseline_source); mark_device safe)
        (λ exc. do mark_device unsafe; raise ErrorKind.baseline_restore exc.message)

  -- `RecoveryService.reconnect`.
  unfoldable pub reconnect : BaseSwitchDriver W → Exec W Unit
  reconnect driver = do driver.disconnect; driver.connect

  -- `MetadataService.collect`.
  unfoldable pub collect : BaseSwitchDriver W → Exec W Metadata
  collect driver = driver.get_metadata
