-- ===== src/Tests/Snmp.antt =====
-- A GET of the system name.
use omniswitch_ci_cd.Prelude.{ℕ, ◌≡◌, refl, none, some, [], ◌∷◌, true, false, ◌+◌}
use omniswitch_ci_cd.Exec.{ok, pure, ◌>>=◌}
use omniswitch_ci_cd.Snmp.{SnmpV3Params, SnmpResult, redact}
use omniswitch_ci_cd.Snmp.Request.{user_data, object_identity}
use omniswitch_ci_cd.Snmp.Exchange.{
  Pysnmp, ObserverState, run, run_checked, execute, read_response, binding_of, in_world, require,
}
use omniswitch_ci_cd.Snmp.Answers.{IsAnswer, run-IsAnswer}

-- An agent that has one object, and a clock that stands still; the state counts the requests.
abbrev agent : Pysnmp ℕ
agent = record {
  import_error = none;
  check_value = λ class value. none;
  Transport = Unit;
  create_transport = λ target port timeout. pure tt;
  request = λ operation user transport binding n. (
    ok (record {
      error_indication = none;
      error_status = none;
      error_index = 0;
      var_binds = ("sysName.0", "lab-switch") ∷ [];
    }),
    n + 1,
  );
  close_dispatcher = pure tt;
  monotonic = pure 0;
}

abbrev manager : SnmpV3Params
manager = record {
  user = "manager";
  auth_password = "auth-secret";
  priv_password = "priv-secret";
  level = "authPriv";
  auth_protocol = "SHA-256";
  priv_protocol = "AES";
}

abbrev unobserved : ObserverState ℕ
unobserved = record { observer = none; world = 0 }

abbrev read : SnmpResult
read = record {
  ok = true;
  value = some "lab-switch";
  detail = "sysName.0 = lab-switch";
  refused = false;
  timed_out = false;
}

read_lem :
    (run agent "GET" "192.168.1.1" 161 "sysName.0" manager 30 none "s" unobserved).0 ≡ ok read
unfolding run run_checked execute read_response binding_of in_world require user_data
    object_identity redact ◌>>=◌
read_lem = refl

run-IsAnswer_example : IsAnswer read
run-IsAnswer_example =
    run-IsAnswer agent "GET" "192.168.1.1" 161 "sysName.0" manager 30 none "s" unobserved read
      read_lem
