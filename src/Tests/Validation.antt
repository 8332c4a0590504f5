-- ===== src/Tests/Validation.antt =====
-- Validations of the bench.
use mathlib.Core.Path.{subst}
use omniswitch_ci_cd.Prelude.{◌≡◌, refl, ap, String, none, some}
use omniswitch_ci_cd.Prelude.Text.{or_empty, show}
use omniswitch_ci_cd.Exec.{ok, ◌>>=◌}
use omniswitch_ci_cd.Exec.Triple.{ok_inj}
use omniswitch_ci_cd.Domain.Enums.{ValidationType, pass, fail}
use omniswitch_ci_cd.Domain.TestCase.{ValidationStep}
use omniswitch_ci_cd.Domain.Results.{ValidationResult}
use omniswitch_ci_cd.Validation.Probes.{snmp_params, require_oid}
use omniswitch_ci_cd.Validation.Snmp.{validate_snmp_set, set_and_restore, restore_snmp_value}
use omniswitch_ci_cd.Validation.Trap.{
  guarded_wait, listen, trigger_set, undo, reach, remember, judge, validate_snmp_trap_received,
}
use omniswitch_ci_cd.Validation.Agent.{IsAgent}
use omniswitch_ci_cd.Validation.Restore.{validate_snmp_set-restores}
use omniswitch_ci_cd.Validation.Service.{run_validation}
use omniswitch_ci_cd.Validation.Report.{Reports, run_validation-Reports}
use omniswitch_ci_cd.Tests.Bench.{Bench, bench, probes, driver, validation}

abbrev Holds : String → Bench → Type 0
Holds x w = w.value ≡ x

agent : (v : ValidationStep) → IsAgent probes v Holds
agent v = record {
  get_reads = λ x params w r h e good. subst (λ r. or_empty r.value ≡ x) (ok_inj e) h;
  get_keeps = λ x params. record { at = λ w h. h };
  set_writes = λ y params w r e good. refl;
  set_refused = λ x y params w r h e bad refused. cc (ap (λ r. r.ok) (ok_inj e), bad);
  secret_keeps = λ name x. record { at = λ w h. h };
}

abbrev setting : ValidationStep
setting = validation ValidationType.snmp_set

abbrev written : ValidationResult
written = record {
  name = "check";
  status = pass;
  observed = some "renamed";
  expected = some "renamed";
  message = none;
}

written_lem : (validate_snmp_set probes setting bench).0 ≡ ok written
unfolding validate_snmp_set snmp_params require_oid set_and_restore restore_snmp_value ◌>>=◌
written_lem = refl

validate_snmp_set-restores_example : Holds "lab-switch" (validate_snmp_set probes setting bench).1
validate_snmp_set-restores_example =
    validate_snmp_set-restores probes setting Holds (agent setting) "lab-switch" bench refl written
      written_lem

-- A user who may write although this should be denied: the validation fails, and puts the value back.
abbrev denying : ValidationStep
denying = validation ValidationType.snmp_denied

abbrev let_through : ValidationResult
let_through = record {
  name = "check";
  status = fail;
  observed = some "";
  expected = some "sysName.0 not writable by 'monitor'";
  message = some "SNMP SET unexpectedly succeeded for read-only user 'monitor'";
}

-- No trap arrives behind a SET that went through.
abbrev trapping : ValidationStep
trapping = validation ValidationType.snmp_trap_received

abbrev missed : ValidationResult
missed = record {
  name = "check";
  status = fail;
  observed =
      some
        "no datagram received on UDP/162 from 192.168.1.1 (the SET of sysName.0 itself succeeded)";
  expected = some "a trap from 192.168.1.1 within 30s";
  message =
      some
        "No trap arrived -- the station may be configured but nothing is actually being sent, or it never reached this host";
}

missed_lem : (validate_snmp_trap_received probes driver trapping bench).0 ≡ ok missed
unfolding validate_snmp_trap_received guarded_wait listen trigger_set undo reach remember judge
    snmp_params restore_snmp_value ◌>>=◌ show
missed_lem = refl

missed_report : (run_validation probes driver trapping bench).0 ≡ ok missed
unfolding run_validation
missed_report = missed_lem

run_validation-Reports_example : Reports trapping missed
run_validation-Reports_example =
    run_validation-Reports probes driver trapping bench missed missed_report
