-- ===== src/Snmp/Exchange.antt =====
-- One request of src/switchtest/infrastructure/snmp.py with its result, and the observer of the exchanges.
use omniswitch_ci_cd.Prelude.{
  ℕ, zero, suc, ◌-◌, ◌⊎◌, inl, inr, String, ◌<>◌, Bool, true, false, not, ◌||◌, Option, none, some,
  List, [], ◌∷◌, ◌==◌, str_eq, if◌then◌else◌,
}
use omniswitch_ci_cd.Prelude.Text.{truthy, or_empty, show}
use omniswitch_ci_cd.Errors.{ErrorKind, Exception}
use omniswitch_ci_cd.Exec.{
  Result, ok, raised, Exec, pure, raise, gets, modify, try_except, try_finally, ◌>>=◌, ◌>>◌,
}
use omniswitch_ci_cd.Domain.Lab.{find}
use omniswitch_ci_cd.Snmp.{
  SnmpV3Params, SnmpResult, mentions, denial_texts, no_response_texts, redact,
}
use omniswitch_ci_cd.Snmp.Request.{
  UserData, user_data, ObjectIdentity, object_identity, value_types,
}

-- `ObjectType` with its value, as the class of rfc1902 and the text.
pub record Binding : Type 0 where
  pub identity : ObjectIdentity
  pub value : Option (String × String)

-- What pysnmp answers: `str` of the indication and `prettyPrint` of the status, if they are true; the index of the status
-- with the place that it names in the bindings; the bindings as what `prettyPrint` gives of name and value.
pub record Response : Type 0 where
  pub error_indication : Option String
  pub error_status : Option String
  pub error_index : ℕ
  pub var_binds : List (String × String)

-- pysnmp and the clock. `check_value class value` is the exception of the constructor, if it raises.
pub record Pysnmp (W : Type 0) : Type 1 where
  pub import_error : Option String
  pub check_value : (class value : String) → Option Exception
  pub Transport : Type 0
  pub create_transport : (target : String) (port timeout : ℕ) → Exec W Transport
  pub request : (operation : String) → UserData → Transport → Binding → Exec W Response
  pub close_dispatcher : Exec W Unit
  pub monotonic : Exec W ℕ

pub record SnmpExchange : Type 0 where
  pub operation : String
  pub endpoint : String
  pub profile : String
  pub oid : String
  pub written : Option String
  pub result : SnmpResult
  pub seconds : ℕ

-- `_observer`, beside what lies outside.
pub record ObserverState (W : Type 0) : Type 0 where
  pub observer : Option (SnmpExchange → Exec W Unit)
  pub world : W

-- `params.profile`.
unfoldable pub profile : SnmpV3Params → String
profile params =
    let algorithms =
      if str_eq params.level "noAuthNoPriv"
      then ""
      else if str_eq params.level "authNoPriv"
      then " " <> params.auth_protocol
      else " " <> (params.auth_protocol <> ("/" <> params.priv_protocol)) in
    "v3 " <> (params.level <> (algorithms <> (" as '" <> (params.user <> "'"))))

abbrev pub failed_result : (detail : String) (refused timed_out : Bool) → SnmpResult
failed_result detail refused timed_out = record {
  ok = false;
  value = none;
  detail = detail;
  refused = refused;
  timed_out = timed_out;
}

abbrev pub nth : ℕ → List (String × String) → Option (String × String)
nth n [] = none
nth zero (bind ∷ binds) = some bind
nth (suc n) (bind ∷ binds) = nth n binds

-- The status of an answered request; an index behind the bindings raises an `IndexError`.
abbrev pub status_result :
    (failed : String) (error_index : ℕ) → List (String × String) → Result SnmpResult
status_result failed error_index var_binds =
    if error_index == 0 || is_empty var_binds
    then ok (failed_result failed true false)
    else elim (nth (error_index - 1) var_binds) [
      | none ↦ raised (record { kind = ErrorKind.other; message = "list index out of range" })
      | some (name, value) ↦ ok (failed_result (failed <> (" at " <> name)) true false)
    ]
  where
    is_empty : List (String × String) → Bool
    is_empty [] = true
    is_empty (bind ∷ binds) = false

abbrev pub bound_result : (operation : String) → List (String × String) → Result SnmpResult
bound_result operation [] =
    ok (failed_result ("SNMP " <> (operation <> " returned no value")) false false)
bound_result operation ((name, value) ∷ binds) = ok (record {
  ok = true;
  value = some value;
  detail = name <> (" = " <> value);
  refused = false;
  timed_out = false;
})

abbrev pub status_or_bound : (operation : String) → Response → Option String → Result SnmpResult
status_or_bound operation response none = bound_result operation response.var_binds
status_or_bound operation response (some failed) =
    status_result failed response.error_index response.var_binds

abbrev pub indication_or_status :
    (operation : String) → Response → Option String → Result SnmpResult
indication_or_status operation response none =
    status_or_bound operation response response.error_status
indication_or_status operation response (some detail) =
    ok (failed_result detail (mentions denial_texts detail) (mentions no_response_texts detail))

-- `_execute` behind the answer.
unfoldable pub read_response : (operation : String) → Response → Result SnmpResult
unfolding mentions
read_response operation response = indication_or_status operation response response.error_indication

abbrev checked : (class value value_type : String) → Option Exception → Result (String × String)
checked class value value_type none = ok (class, value)
checked class value value_type (some exc) = raised (record {
  kind = ErrorKind.validation_execution;
  message = "'" <> (value <> ("' is not a valid " <> (class <> (": " <> exc.message))));
})

abbrev bind_value : ObjectIdentity → Result (String × String) → Result Binding
bind_value identity (raised exc) = raised exc
bind_value identity (ok value) = ok (record { identity = identity; value = some value })

abbrev pub redacted : SnmpV3Params → SnmpResult → SnmpResult
redacted params result = record result { detail = redact params result.detail }

abbrev pub given_error : Option String → Bool
given_error none = false
given_error (some error) = true

abbrev pub import_message : Option String → String
import_message error =
    "pysnmp could not be imported ("
    <> (or_empty error <> ") -- install it with `pip install -e .` from the project root")

abbrev pub missing : (operation what : String) → String
missing operation what = "SNMP " <> (operation <> (" validation requires " <> what))

module _ {W : Type 0} where
  abbrev pub of_result : {A : Type 0} → Result A → Exec W A
  of_result r w = (r, w)

  unfoldable pub in_world : {A : Type 0} → Exec W A → Exec (ObserverState W) A
  in_world m s = let (r, w) = m s.world in (r, record s { world = w })

  -- `if not given: raise ValidationExecutionError(message)`, before the rest.
  unfoldable pub require : {A : Type 0} → (given : Bool) (message : String) → Exec W A → Exec W A
  require false message rest = raise ErrorKind.validation_execution message
  require true message rest = rest

  abbrev pub report :
      Option (SnmpExchange → Exec W Unit) → SnmpExchange → Exec (ObserverState W) Unit
  report none exchange = pure tt
  report (some observer) exchange = in_world (observer exchange)

module _ {W : Type 0} (pysnmp : Pysnmp W) where
  -- The request, whose credentials are made, after the transport, inside the `try` statement.
  abbrev pub ask :
      (operation target : String) (port : ℕ)
      → SnmpV3Params
      → Binding
      → (timeout : ℕ) → Exec W Response
  ask operation target port params binding timeout =
      pysnmp.create_transport target port timeout >>= λ transport.
      of_result (user_data params) >>= λ user. pysnmp.request operation user transport binding

  -- The `try` part: an answer, or the result of the `except` clause.
  abbrev pub tried :
      (operation target : String) (port : ℕ)
      → SnmpV3Params
      → Binding
      → (timeout : ℕ) → Exec W (Response ⊎ SnmpResult)
  tried operation target port params binding timeout =
      try_except
        (do response ← ask operation target port params binding timeout; pure (inl response))
        (λ exc. pure (
          inr (failed_result ("SNMP " <> (operation <> (" failed: " <> exc.message))) false false)))

  abbrev pub judged : (operation : String) → Response ⊎ SnmpResult → Exec W SnmpResult
  judged operation (inl response) = of_result (read_response operation response)
  judged operation (inr result) = pure result

  -- `_execute`.
  unfoldable pub execute :
      (operation target : String) (port : ℕ)
      → SnmpV3Params
      → Binding
      → (timeout : ℕ) → Exec W SnmpResult
  unfolding user_data read_response
  execute operation target port params binding timeout =
      try_finally (tried operation target port params binding timeout) pysnmp.close_dispatcher
      >>= judged operation

  -- `_typed_value`, by the entry of the table.
  abbrev typed_value : (value value_type : String) → Option String → Result (String × String)
  typed_value value value_type none = raised (record {
    kind = ErrorKind.validation_execution;
    message = "Unsupported SNMP value type '" <> (value_type <> "' (known: a, i, o, s, t, u)");
  })
  typed_value value value_type (some class) =
      checked class value value_type (pysnmp.check_value class value)

  -- `binding` of `_run`.
  unfoldable pub binding_of :
      (operation oid : String) → Option String → (value_type : String) → Result Binding
  unfolding object_identity find
  binding_of operation oid value value_type =
      if str_eq operation "SET"
      then bind_value (object_identity oid)
          (typed_value (or_empty value) value_type (find value_type value_types))
      else ok (record { identity = object_identity oid; value = none })

  -- `_run` behind the checks of its arguments.
  unfoldable pub run_checked :
      (operation target : String) (port : ℕ) (oid : String)
      → SnmpV3Params
      → (timeout : ℕ) → Option String
      → (value_type : String) → Exec (ObserverState W) SnmpResult
  unfolding binding_of execute in_world redact profile show
  run_checked operation target port oid params timeout value value_type = do
    binding ← in_world (of_result (binding_of operation oid value value_type))
    started ← in_world pysnmp.monotonic
    result ← in_world (execute operation target port params binding timeout)
    ended ← in_world pysnmp.monotonic
    observer ← gets (λ s. s.observer)
    report observer (record {
      operation = operation;
      endpoint = target <> (":" <> show port);
      profile = profile params;
      oid = oid;
      written = value;
      result = redacted params result;
      seconds = ended - started;
    })
    pure (redacted params result)

  -- `_run`.
  unfoldable pub run :
      (operation target : String) (port : ℕ) (oid : String)
      → SnmpV3Params
      → (timeout : ℕ) → Option String
      → (value_type : String) → Exec (ObserverState W) SnmpResult
  unfolding run_checked require
  run operation target port oid params timeout value value_type =
      require (not (given_error pysnmp.import_error)) (import_message pysnmp.import_error) (
        require (truthy target) (missing operation "a target") (
          require (not (port == 0)) (missing operation "a port") (
            require (truthy oid) (missing operation "an oid")
              (run_checked operation target port oid params timeout value value_type))))

  -- `snmp_get` and `snmp_set`.
  unfoldable pub snmp_get :
      (target : String) (port : ℕ) (oid : String)
      → SnmpV3Params
      → (timeout : ℕ) → Exec (ObserverState W) SnmpResult
  unfolding run
  snmp_get target port oid params timeout = run "GET" target port oid params timeout none "s"

  unfoldable pub snmp_set :
      (target : String) (port : ℕ) (oid value : String)
      → SnmpV3Params
      → (value_type : String) (timeout : ℕ) → Exec (ObserverState W) SnmpResult
  unfolding run
  snmp_set target port oid value params value_type timeout =
      run "SET" target port oid params timeout (some value) value_type

  -- `with observing(observer): body`.
  unfoldable pub observing :
      {A : Type 0}
      → Option (SnmpExchange → Exec W Unit)
      → Exec (ObserverState W) A
      → Exec (ObserverState W) A
  unfolding modify
  observing observer body = do
    previous ← gets (λ s. s.observer)
    modify (λ s. record s { observer = observer })
    try_finally body (modify (λ s. record s { observer = previous }))
