-- ===== src/Snmp/Answers.antt =====
-- What a result of src/switchtest/infrastructure/snmp.py can be.
use mathlib.Core.Path.{subst}
use omniswitch_ci_cd.Prelude.{
  ℕ, ◌-◌, ◌==◌, ◌⊎◌, inl, inr, String, ◌<>◌, ◌≡◌, Bool, true, false, not, Option, none, some, List,
  [], ◌∷◌, if◌then◌else◌, arith,
}
use omniswitch_ci_cd.Prelude.Text.{truthy}
use omniswitch_ci_cd.Errors.{ErrorKind, Exception}
use omniswitch_ci_cd.Exec.{Result, ok, raised, Exec}
use omniswitch_ci_cd.Exec.Triple.{
  Triple, Triple-pure, Triple-raise, Triple-bind, Triple-after, Triple-fact, Triple-try_except,
  Triple-try_finally, Anything, ok_inj,
}
use omniswitch_ci_cd.Snmp.{SnmpV3Params, SnmpResult}
use omniswitch_ci_cd.Snmp.Exchange.{
  Binding, Response, Pysnmp, ObserverState, failed_result, bound_result, status_or_bound,
  indication_or_status, read_response, of_result, tried, judged, execute, redacted, in_world,
  require, given_error, import_message, missing, nth, run_checked, run,
}

-- A result is a success with the value that was read and no other mark, or a failure without a value.
pub data IsAnswer : SnmpResult → Type 0 where
  succeeded :
      {value detail : String}
      → IsAnswer (record {
        ok = true;
        value = some value;
        detail = detail;
        refused = false;
        timed_out = false;
      })
  failed :
      {detail : String} {refused timed_out : Bool}
      → IsAnswer (failed_result detail refused timed_out)

redacted-IsAnswer :
    (params : SnmpV3Params) (result : SnmpResult)
    → IsAnswer result
    → IsAnswer (redacted params result)
redacted-IsAnswer params _ succeeded = succeeded
redacted-IsAnswer params _ failed = failed

-- What `_execute` makes of an answer.
Answers : Result SnmpResult → Type 0
Answers r = (result : SnmpResult) → r ≡ ok result → IsAnswer result

answered : {result : SnmpResult} → IsAnswer result → Answers (ok result)
unfolding Answers
answered is result h = subst IsAnswer (ok_inj h) is

no_answer : (e : Exception) → Answers (raised e)
unfolding Answers
no_answer e result h = absurd (ground (arith, h))

bound-Answers :
    (operation : String) (binds : List (String × String)) → Answers (bound_result operation binds)
bound-Answers operation [] = answered failed
bound-Answers operation ((name, value) ∷ binds) = answered succeeded

placed-Answers :
    (status : String) (place : Option (String × String))
    → Answers (elim place [
      | none ↦ raised (record { kind = ErrorKind.other; message = "list index out of range" })
      | some (name, value) ↦ ok (failed_result (status <> (" at " <> name)) true false)
    ])
placed-Answers status none = no_answer _
placed-Answers status (some (name, value)) = answered failed

if-Answers :
    (b : Bool) (r q : Result SnmpResult) → Answers r → Answers q → Answers (if b then r else q)
if-Answers true r q hr hq = hr
if-Answers false r q hr hq = hq

status-Answers :
    (operation : String) (response : Response) (status : Option String)
    → Answers (status_or_bound operation response status)
status-Answers operation response none = bound-Answers operation response.var_binds
status-Answers operation response (some status) =
    if-Answers _ _ _ (answered failed)
      (placed-Answers status (nth (response.error_index - 1) response.var_binds))

read-Answers :
    (operation : String) (response : Response) (indication : Option String)
    → Answers (indication_or_status operation response indication)
read-Answers operation response none = status-Answers operation response response.error_status
read-Answers operation response (some detail) = answered failed

require-Triple :
    {S A : Type 0} {P : S → Type 0} {Q : A → S → Type 0} (given : Bool) (message : String)
    (rest : Exec S A)
    → Triple P rest Q
    → Triple P (require given message rest) Q
unfolding require
require-Triple true message rest t = t
require-Triple false message rest t = Triple-raise _ message

module _ {W : Type 0} (pysnmp : Pysnmp W) where
  of-IsAnswer :
      (r : Result SnmpResult)
      → Answers r
      → Triple {S = W} Anything (of_result r) (λ result w. IsAnswer result)
  unfolding Answers
  of-IsAnswer r h = record { at = λ w p result e. h result e }

  -- The result of the `except` clause is a failure.
  abbrev Tried : Response ⊎ SnmpResult → Type 0
  Tried (inl response) = Unit
  Tried (inr result) = IsAnswer result

  tried-Tried :
      (operation target : String) (port : ℕ) (params : SnmpV3Params) (binding : Binding)
      (timeout : ℕ)
      → Triple Anything
          (tried pysnmp operation target port params binding timeout)
          (λ answer w. Tried answer)
  tried-Tried operation target port params binding timeout =
      Triple-try_except _ _ (Triple-after _ _ λ response. Triple-pure _ λ w p. tt)
        λ e. Triple-pure _ λ w p. failed

  judged-IsAnswer :
      (operation : String) (answer : Response ⊎ SnmpResult)
      → Triple (λ w. Tried answer) (judged pysnmp operation answer) (λ result w. IsAnswer result)
  unfolding read_response
  judged-IsAnswer operation (inl response) =
      of-IsAnswer _ (read-Answers operation response response.error_indication)
  judged-IsAnswer operation (inr result) = Triple-pure _ λ w is. is

  closed-Tried :
      (answer : Response ⊎ SnmpResult)
      → Triple (λ w. Tried answer) pysnmp.close_dispatcher (λ _ w. Tried answer)
  closed-Tried answer = record { at = λ w t _ h. t }

  execute-IsAnswer :
      (operation target : String) (port : ℕ) (params : SnmpV3Params) (binding : Binding)
      (timeout : ℕ)
      → Triple Anything
          (execute pysnmp operation target port params binding timeout)
          (λ result w. IsAnswer result)
  unfolding execute
  execute-IsAnswer operation target port params binding timeout =
      Triple-bind _ _
        (Triple-try_finally _ _ (tried-Tried operation target port params binding timeout)
          closed-Tried)
        (judged-IsAnswer operation)

  world-IsAnswer :
      (m : Exec W SnmpResult)
      → Triple Anything m (λ result w. IsAnswer result)
      → Triple Anything (in_world m) (λ result s. IsAnswer result)
  unfolding in_world
  world-IsAnswer m t = record { at = λ s. t.at s.world }

  checked-IsAnswer :
      (operation target : String) (port : ℕ) (oid : String) (params : SnmpV3Params) (timeout : ℕ)
      (value : Option String) (value_type : String)
      → Triple Anything
          (run_checked pysnmp operation target port oid params timeout value value_type)
          (λ result s. IsAnswer result)
  unfolding run_checked
  checked-IsAnswer operation target port oid params timeout value value_type =
      Triple-after _ _ λ binding. Triple-after _ _ λ started.
        Triple-bind _ _
          (world-IsAnswer _ (execute-IsAnswer operation target port params binding timeout))
          λ result. Triple-fact _ λ is. Triple-after _ _ λ ended. Triple-after _ _ λ observer.
            Triple-after _ _ λ _. Triple-pure _ λ s p. redacted-IsAnswer params result is

  run-Triple :
      (operation target : String) (port : ℕ) (oid : String) (params : SnmpV3Params) (timeout : ℕ)
      (value : Option String) (value_type : String)
      → Triple Anything
          (run pysnmp operation target port oid params timeout value value_type)
          (λ result s. IsAnswer result)
  unfolding run
  run-Triple operation target port oid params timeout value value_type =
      require-Triple (not (given_error pysnmp.import_error)) (import_message pysnmp.import_error) _
        (require-Triple (truthy target) (missing operation "a target") _ (
          require-Triple (not (port == 0)) (missing operation "a port") _ (
            require-Triple (truthy oid) (missing operation "an oid") _
              (checked-IsAnswer operation target port oid params timeout value value_type))))

  -- Every result of a GET or a SET, whatever pysnmp answers or raises and with any credentials, is a success with a value
  -- that is marked neither as refused nor as timed out, or a failure without a value.
  pub run-IsAnswer :
      (operation target : String) (port : ℕ) (oid : String) (params : SnmpV3Params) (timeout : ℕ)
      (value : Option String) (value_type : String) (s : ObserverState W) (result : SnmpResult)
      → (run pysnmp operation target port oid params timeout value value_type s).0 ≡ ok result
      → IsAnswer result
  run-IsAnswer operation target port oid params timeout value value_type s result h =
      (run-Triple operation target port oid params timeout value value_type).at s tt result h
