-- ===== src/Validation/Restore.antt =====
-- The handlers of validation_service.py (src/switchtest/services/validation_service.py) that write an
-- object put its value back where they return, `_validate_snmp_denied` under conditions.
use mathlib.Core.Path.{subst}
use omniswitch_ci_cd.Prelude.{String, ◌≡◌, refl, sym, true, false, Option, some, none}
use omniswitch_ci_cd.Prelude.Text.{or_empty, given}
use omniswitch_ci_cd.Exec.{ok, ◌>>=◌}
use omniswitch_ci_cd.Exec.Laws.{Keeps, Keeps-bind, Keeps-pure, Keeps-raise, keeps_rules}
use omniswitch_ci_cd.Exec.Triple.{
  Triple, Triple-pure, Triple-raise, Triple-if, Triple-try_finally, Triple-Keeps, Triple-given,
  Anything, anywhere, Triple-bind,
}
use omniswitch_ci_cd.Domain.TestCase.{ValidationStep, SnmpCredentials}
use omniswitch_ci_cd.Domain.Results.{ValidationResult}
use omniswitch_ci_cd.Snmp.{SnmpV3Params, SnmpResult}
use omniswitch_ci_cd.Validation.Probes.{
  Probes, resolve_secret, params_from, priv_secret, snmp_params, require_oid, not_executable,
}
use omniswitch_ci_cd.Validation.Agent.{IsAgent, IsAnswering}
use omniswitch_ci_cd.Validation.Snmp.{
  get_oid, restore_snmp_value, set_and_restore, validate_snmp_set, require_value, denied_write,
  deny, validate_snmp_denied,
}

module _ {W : Type 0} (probes : Probes W) (v : ValidationStep) (Holds : String → W → Type 0)
    (agent : IsAgent probes v Holds) where
  abbrev object : String
  object = or_empty v.oid

  secret-Keeps :
      (x : String) (inline env_name : Option String) (name kind : String)
      → Keeps (Holds x) (resolve_secret probes inline env_name name kind)
  unfolding resolve_secret
  secret-Keeps x inline env_name name kind = search (keeps_rules, agent.secret_keeps)

  priv_secret-Keeps :
      (x : String) (credentials : SnmpCredentials) (name auth : String)
      → Keeps (Holds x) (priv_secret probes credentials name auth)
  priv_secret-Keeps x credentials name auth = search (keeps_rules, secret-Keeps)

  params-Keeps :
      (x : String) (credentials : Option SnmpCredentials)
      → Keeps (Holds x) (params_from probes v credentials)
  params-Keeps x none = Keeps-raise _ _
  params-Keeps x (some credentials) =
      Keeps-bind _ _ (secret-Keeps x _ _ _ _)
        λ auth. Keeps-bind _ _ (priv_secret-Keeps x credentials v.name auth) λ priv. Keeps-pure _

  pub snmp_params-Keeps : (x : String) → Keeps (Holds x) (snmp_params probes v)
  unfolding snmp_params
  snmp_params-Keeps x = params-Keeps x v.snmp

  pub require_oid_lem : (P : W → Type 0) → Triple P (require_oid v) (λ oid w. (oid ≡ object) × P w)
  unfolding require_oid
  require_oid_lem P =
      Triple-if (given v.oid) _ (not_executable v " requires an oid")
        (λ _. Triple-pure _ (λ s p. (refl, p))) (λ _. Triple-raise _ _)

  -- A restore that returned has written the value, whatever the object held.
  pub restore_lem :
      (x : String) (params : SnmpV3Params)
      → Triple Anything (restore_snmp_value probes v object x params) (λ _. Holds x)
  unfolding restore_snmp_value
  restore_lem x params =
      Triple-bind {R = λ r w. r.ok ≡ true → Holds x w} _ _
        (record { at = λ s p r e good. agent.set_writes x params s r e good })
        (λ r. Triple-if r.ok _ _ (λ good. Triple-pure tt (λ s h. h good)) (λ _. Triple-raise _ _))

  -- The read of the original value.
  abbrev Read : String → SnmpResult → W → Type 0
  Read x original w = (original.ok ≡ true → or_empty original.value ≡ x) × Holds x w

  pub read_lem :
      (x : String) (params : SnmpV3Params)
      → Triple (Holds x) (get_oid probes v object params) (Read x)
  read_lem x params = record {
    at = λ w h r e.
        (λ good. agent.get_reads x params w r h e good, (agent.get_keeps x params).at w h);
  }

  set_and_restore_lem :
      (x new_value : String) (params : SnmpV3Params) (original : SnmpResult)
      → (original.ok ≡ true → or_empty original.value ≡ x)
      → Triple (Holds x) (set_and_restore probes v object new_value params original) (λ _. Holds x)
  unfolding set_and_restore
  set_and_restore_lem x new_value params original reads =
      Triple-if original.ok _ _
        (λ good. Triple-bind _ _ (anywhere _ _) λ written.
          Triple-try_finally _ _ (anywhere _ _) λ _.
            subst
              (λ y. Triple Anything (restore_snmp_value probes v object y params) (λ _. Holds x))
              (sym (reads good)) (restore_lem x params))
        (λ _. Triple-pure _ (λ s h. h))

  require_value-Keeps :
      (x : String) (o : Option String) → Keeps (Holds x) (require_value probes v o)
  require_value-Keeps x (some value) = Keeps-pure _
  require_value-Keeps x none = Keeps-raise _ _

  exchange_set :
      (x new_value : String) (params : SnmpV3Params)
      → Triple
          (Holds x)
          (get_oid probes v object params >>= set_and_restore probes v object new_value params)
          (λ _. Holds x)
  exchange_set x new_value params =
      Triple-bind _ _ (read_lem x params)
        λ original. Triple-given _ λ reads. set_and_restore_lem x new_value params original reads

  pub validate_snmp_set_lem :
      (x : String) → Triple (Holds x) (validate_snmp_set probes v) (λ _. Holds x)
  unfolding validate_snmp_set
  validate_snmp_set_lem x =
      Triple-bind _ _ (Triple-Keeps _ (snmp_params-Keeps x) (λ _ s h. h)) λ params.
        Triple-bind _ _ (require_oid_lem (Holds x)) λ oid. Triple-given _ λ e.
          Triple-bind _ _ (Triple-Keeps _ (require_value-Keeps x v.value) (λ _ s h. h)) λ value.
            subst
              (λ o.
                Triple (Holds x)
                  (get_oid probes v o params >>= set_and_restore probes v o value params)
                  (λ _. Holds x))
              (sym e) (exchange_set x value params)

  denied_write_lem :
      (x : String) (params : SnmpV3Params) (original result : SnmpResult)
      → (original.ok ≡ true → or_empty original.value ≡ x)
      → original.ok ≡ true
      → Triple
          (λ w. result.ok ≡ false → Holds x w)
          (denied_write probes v object params original result)
          (λ _. Holds x)
  denied_write_lem x params original result reads good =
      Triple-if result.ok _ _
        (λ written.
          Triple-bind {R = λ _ w. Holds x w} _ _
            (Triple-if original.ok _ _
              (λ _. record {
                at = λ w h a e.
                    (subst
                        (λ y.
                          Triple Anything (restore_snmp_value probes v object y params)
                            (λ _. Holds x))
                        (sym (reads good)) (restore_lem x params)).at
                      w tt a e;
              })
              (λ bad. Triple-pure tt (λ w h. cc (good, bad))))
            (λ _. Triple-pure _ (λ w h. h)))
        (λ refused. Triple-pure _ (λ w h. h refused))

  module _ (answering : IsAnswering probes v)
      (readable : (params : SnmpV3Params) (w : W) (r : SnmpResult)
        → (get_oid probes v object params w).0 ≡ ok r
        → r.ok ≡ true) where
    deny_lem :
        (x : String) (params : SnmpV3Params) (value : Option String)
        → Triple (Holds x) (deny probes v object params value) (λ _. Holds x)
    unfolding deny
    deny_lem x params none =
        Triple-bind _ _ (Triple-Keeps _ (agent.get_keeps x params) (λ _ s h. h))
          λ result. Triple-pure _ (λ s h. h)
    deny_lem x params (some value) =
        Triple-bind
          {R = λ original w.
            ((original.ok ≡ true → or_empty original.value ≡ x) × (original.ok ≡ true)) × Holds x w}
          _ _
          (record {
            at = λ w h r e.
                let (reads, held) = (read_lem x params).at w h r e in
                ((reads, readable params w r e), held);
          })
          λ original. Triple-given _ λ known.
            Triple-bind {R = λ result w. result.ok ≡ false → Holds x w} _ _
              (record {
                at = λ w h r e bad.
                    agent.set_refused x value params w r h e bad
                      (answering.refuses value params w r e bad);
              })
              λ result. denied_write_lem x params original result known.0 known.1

    pub validate_snmp_denied_lem :
        (x : String) → Triple (Holds x) (validate_snmp_denied probes v) (λ _. Holds x)
    unfolding validate_snmp_denied
    validate_snmp_denied_lem x =
        Triple-bind _ _ (Triple-Keeps _ (snmp_params-Keeps x) (λ _ s h. h)) λ params.
          Triple-bind _ _ (require_oid_lem (Holds x)) λ oid. Triple-given _ λ e.
            subst (λ o. Triple (Holds x) (deny probes v o params v.value) (λ _. Holds x)) (sym e)
              (deny_lem x params v.value)

module _ {W : Type 0} (probes : Probes W) (v : ValidationStep) (Holds : String → W → Type 0)
    (agent : IsAgent probes v Holds) (x : String) (w : W) (held : Holds x w) where
  -- `_validate_snmp_set` that returns a result, whatever it is, has left the object with the value
  -- that it held before: the SET under test does not stay, also when the read back fails.
  pub validate_snmp_set-restores :
      (result : ValidationResult)
      → (validate_snmp_set probes v w).0 ≡ ok result
      → Holds x (validate_snmp_set probes v w).1
  validate_snmp_set-restores result returned =
      (validate_snmp_set_lem probes v Holds agent x).at w held result returned
