-- ===== src/Orchestrator/Disconnect.antt =====
-- The `finally` part of `run_suite` (src/switchtest/orchestrator.py): no session is left open.
use omniswitch_ci_cd.Prelude.{
  String, ◌≡◌, Bool, true, false, Option, none, some, List, if◌then◌else◌,
}
use omniswitch_ci_cd.Errors.{ErrorKind}
use omniswitch_ci_cd.Exec.{Exec, pure, raise, try_finally, ◌>>=◌}
use omniswitch_ci_cd.Exec.Laws.{Keeps, Keeps-bind, Keeps-pure}
use omniswitch_ci_cd.Domain.TestCase.{TestCaseDefinition, SuiteDefinition}
use omniswitch_ci_cd.Domain.Results.{SuiteResult}
use omniswitch_ci_cd.Domain.Runtime.{RuntimeContext, DeviceDefinition}
use omniswitch_ci_cd.Driver.{BaseSwitchDriver}
use omniswitch_ci_cd.Orchestrator.Services.{SuiteState, outside}
use omniswitch_ci_cd.Orchestrator.Suite.{
  Platform, guarded_suite, make_driver, now, write_reports, write_to, run_guarded, run_suite,
}

-- `Offline w`: no session to the device is open. `disconnect` closes it, also if it raises, and the clock
-- and the report writers do not open one. Nothing is asked of any other call of the driver.
pub record IsOffline {W : Type 0} (platform : Platform W) (device : DeviceDefinition)
    (Offline : W → Type 0) : Type 0 where
  pub disconnects : (w : W) → Offline ((platform.aos_driver device).disconnect w).1
  pub utcnow_keeps : (w : W) → Offline w → Offline (platform.utcnow w).1
  pub directory_keeps : (path : String) → Keeps Offline (platform.ensure_directory path)
  pub json_keeps :
      (path : String) (r : SuiteResult) → Keeps Offline (platform.write_json_report path r)
  pub junit_keeps :
      (path : String) (r : SuiteResult) → Keeps Offline (platform.write_junit_report path r)
  pub summary_keeps :
      (path : String) (r : SuiteResult) → Keeps Offline (platform.write_summary path r)

module _ {W : Type 0} (platform : Platform W) (device : DeviceDefinition) (Offline : W → Type 0)
    (offline : IsOffline platform device Offline) where
  now-Keeps : Keeps Offline (now platform)
  unfolding now
  now-Keeps = record { at = λ w h. offline.utcnow_keeps w h }

  write_to-Keeps :
      (path : Option String) (write : String → Exec W Unit)
      → ((p : String) → Keeps Offline (write p))
      → Keeps Offline (write_to platform path write)
  write_to-Keeps none write k = Keeps-pure tt
  write_to-Keeps (some path) write k = k path

  write_reports-Keeps :
      (context : RuntimeContext) (result : SuiteResult)
      → Keeps Offline (write_reports platform context result)
  unfolding write_reports
  write_reports-Keeps context result =
      Keeps-bind _ _ (write_to-Keeps context.json_report _ (λ p. offline.json_keeps p result)) λ _.
        Keeps-bind _ _ (write_to-Keeps context.junit_report _ (λ p. offline.junit_keeps p result))
          λ _. offline.summary_keeps _ result

  -- A continuation behind `make_driver` is run with the driver of the device only.
  make_driver-Keeps :
      {A : Type 0} (known : Bool) (m : String) (f : BaseSwitchDriver W → Exec W A)
      → Keeps Offline (f (platform.aos_driver device))
      → Keeps Offline (
          (if known then pure (platform.aos_driver device) else raise ErrorKind.configuration m)
          >>= f)
  unfolding ◌>>=◌
  make_driver-Keeps true m f k = k
  make_driver-Keeps false m f k = record { at = λ w h. h }

  last_part :
      (dry_run : Bool) (t : SuiteState W)
      → dry_run ≡ false
      → Offline
          ((if dry_run then pure tt else outside (platform.aos_driver device).disconnect) t).1.world
  unfolding outside
  last_part true t e = cc e
  last_part false t e = offline.disconnects t.world

  run_guarded-Keeps :
      (context : RuntimeContext) (tests : List TestCaseDefinition)
      → context.dry_run ≡ false
      → Keeps Offline (run_guarded platform context device tests (platform.aos_driver device))
  unfolding run_guarded guarded_suite try_finally
  run_guarded-Keeps context tests wet = record { at = λ w h. last_part context.dry_run _ wet }

  module _ (context : RuntimeContext) (suite : SuiteDefinition)
      (tests : List TestCaseDefinition) where
    run_suite-Keeps :
        context.dry_run ≡ false → Keeps Offline (run_suite platform context device suite tests)
    unfolding run_suite make_driver
    run_suite-Keeps wet = Keeps-bind _ _ now-Keeps λ started.
        Keeps-bind _ _ (offline.directory_keeps _) λ _. make_driver-Keeps _ _ _ (
          Keeps-bind _ _ (run_guarded-Keeps context _ wet) λ final.
            Keeps-bind _ _ now-Keeps
              λ ended. Keeps-bind _ _ (write_reports-Keeps context _) λ _. Keeps-pure _)

    -- A suite that is no dry run and starts without an open session ends without one, whether it
    -- returns or raises, and whatever the driver's calls, the testcases and the report writers raise.
    pub run_suite-disconnects :
        (w : W)
        → context.dry_run ≡ false
        → Offline w
        → Offline (run_suite platform context device suite tests w).1
    run_suite-disconnects w wet h = (run_suite-Keeps wet).at w h
