-- ===== src/Aos/Sessions.antt =====
-- What `attempt_login` and `apply_config` of the AOS driver (src/switchtest/drivers/aos.py) leave behind.
use omniswitch_ci_cd.Prelude.{
  ℕ, String, ◌≡◌, refl, sym, ap, ◌∙◌, Bool, true, false, List, [], ◌∷◌, any, arith, if◌then◌else◌,
}
use omniswitch_ci_cd.Errors.{Exception, is_connection}
use omniswitch_ci_cd.Exec.{
  Result, ok, raised, pure, raise, throw, try_except, continue, ◌>>=◌, ◌>>◌,
}
use omniswitch_ci_cd.Exec.Triple.{
  Triple, Triple-pure, Triple-if, Triple-weaken, ok_inj, Triple-bind, Triple-after, Anything,
}
use omniswitch_ci_cd.Domain.Runtime.{DeviceDefinition}
use omniswitch_ci_cd.Aos.Wire.{Transport, Wire, AosState, is_rejection, on_wire, check_outputs}
use omniswitch_ci_cd.Aos.Driver.{
  aos_apply_config, login_transport, login_failed, try_login, aos_attempt_login,
}

module _ {W : Type 0} (wire : Wire W) (device : DeviceDefinition) where
  check_outputs-ok :
      (outputs : List String) (s : AosState W)
      → (check_outputs outputs s).0 ≡ ok tt
      → any is_rejection outputs ≡ false
  unfolding check_outputs raise
  check_outputs-ok [] s h = refl
  check_outputs-ok (output ∷ outputs) s h = ground (arith, check_outputs-ok outputs s)

  -- `Closed t w`: the transport `t` has no session. Closing it ends its session, also if the call raises.
  module _ (Closed : Transport → W → Type 0)
      (closes : (t : Transport) (w : W) → Closed t (wire.close t w).1) where
    close_lem :
        (t : Transport) (b : Bool) → Triple Anything (wire.close t >> pure b) (λ _. Closed t)
    close_lem t b =
        Triple-bind {R = λ _. Closed t} _ _ (record { at = λ w h a e. closes t w })
          λ _. Triple-pure b (λ w h. h)

    attempt_lem :
        (t : Transport)
        → Triple Anything
            (try_except (wire.connect t >> pure true) (login_failed wire device t))
            (λ opened w. opened ≡ false → Closed t w)
    unfolding try_except ◌>>=◌
    attempt_lem t = record {
      at = λ w h a e. by_connect (wire.connect t w).0 (wire.connect t w).1 a e;
    }
      where
        handled :
            (b : Bool) (x : Exception) (w : W) (a : Bool)
            → ((if b then (wire.close t >> pure false) else throw x) w).0 ≡ ok a
            → Closed t ((if b then (wire.close t >> pure false) else throw x) w).1
        handled true x w a e = (close_lem t false).at w tt a e
        handled false x w a e = cc e

        by_connect :
            (r : Result (Unit {0})) (w : W) (a : Bool)
            → (try_except {S = W}
                (λ w. continue r (λ _. pure true) w)
                (login_failed wire device t)
                w).0
              ≡ ok a
            → a ≡ false
            → Closed t
                (try_except {S = W}
                  (λ w. continue r (λ _. pure true) w)
                  (login_failed wire device t)
                  w).1
        by_connect (ok _) w a e f = cc (ok_inj e, f)
        by_connect (raised x) w a e f = handled (is_connection x.kind) x w a e

    either_lem :
        (t : Transport) (opened : Bool)
        → Triple
            (λ w. opened ≡ false → Closed t w)
            (if opened then (wire.close t >> pure true) else pure false)
            (λ _. Closed t)
    either_lem t opened =
        Triple-if opened _ _ (λ e. Triple-weaken _ (λ w h. tt) (close_lem t true))
          (λ e. Triple-pure false (λ w h. h e))

    try_login_lem : (t : Transport) → Triple Anything (try_login wire device t) (λ _. Closed t)
    unfolding try_login
    try_login_lem t =
        Triple-bind {R = λ opened w. opened ≡ false → Closed t w} _ _ (attempt_lem t) (either_lem t)

    -- `attempt_login` that returns, with either answer, has closed the transport that it made, and the
    -- driver's own transport is the one that it was.
    pub attempt_login-closes :
        (username password : String) (timeout : ℕ) (s : AosState W) (answer : Bool)
        → (aos_attempt_login wire device username password timeout s).0 ≡ ok answer
        → Closed
            (login_transport wire device username password timeout)
            (aos_attempt_login wire device username password timeout s).1.world
          × ((aos_attempt_login wire device username password timeout s).1.transport ≡ s.transport)
    unfolding aos_attempt_login on_wire
    attempt_login-closes username password timeout s answer h = (
      (try_login_lem (login_transport wire device username password timeout)).at s.world tt answer
          h,
      refl,
    )

  apply_outputs :
      (outputs results : List String) (t : AosState W)
      → ((check_outputs outputs >> pure outputs) t).0 ≡ ok results
      → (results ≡ outputs) × (any is_rejection outputs ≡ false)
  unfolding ◌>>=◌
  apply_outputs outputs results t h =
      by_check (check_outputs outputs t).0 (check_outputs outputs t).1 (check_outputs-ok outputs t)
        h
    where
      by_check :
          (r : Result (Unit {0})) (t : AosState W)
          → (r ≡ ok tt → any is_rejection outputs ≡ false)
          → (continue r (λ _. pure outputs) t).0 ≡ ok results
          → (results ≡ outputs) × (any is_rejection outputs ≡ false)
      by_check (ok _) t k h = (sym (ok_inj h), k refl)
      by_check (raised e) t k h = cc h

  apply_lem :
      (commands : List String) (timeout : ℕ)
      → Triple Anything
          (aos_apply_config wire device commands timeout false)
          (λ outputs _. any is_rejection outputs ≡ false)
  unfolding aos_apply_config
  apply_lem commands timeout = Triple-after _ _ λ transport. Triple-after _ _ λ outputs. record {
    at = λ t h results e.
        let (same, fine) = apply_outputs outputs results t e in ap (any is_rejection) same ∙ fine;
  }

  -- `apply_config` that returns with errors not ignored returns outputs without any of the markers of a
  -- rejected command.
  pub apply_config-accepts :
      (commands : List String) (timeout : ℕ) (s : AosState W) (outputs : List String)
      → (aos_apply_config wire device commands timeout false s).0 ≡ ok outputs
      → any is_rejection outputs ≡ false
  apply_config-accepts commands timeout s outputs h = (apply_lem commands timeout).at s tt outputs h
