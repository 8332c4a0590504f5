-- ===== src/Execution/Verdict.antt =====
-- The loop over the validations: the status that the session holds is the verdict of the results that
-- it collected, and a loop that found nothing wrong has run to its end.
use mathlib.Core.List.{append-nil, append_assoc}
use omniswitch_ci_cd.Prelude.{
  ℕ, suc, sym, ap, ◌∙◌, ◌≡◌, refl, Bool, true, false, ◌||◌, List, [], ◌∷◌, ◌++◌, arith, any,
  any-append, length, if◌then◌else◌, ◌<>◌,
}
use omniswitch_ci_cd.Exec.{Exec, Result, ok, raised, continue, ◌>>=◌, ◌>>◌}
use omniswitch_ci_cd.Domain.Enums.{
  ResultStatus, pass, fail, error, skipped, is_fail, is_error, status_value,
}
use omniswitch_ci_cd.Domain.TestCase.{ValidationStep}
use omniswitch_ci_cd.Domain.Results.{ValidationResult}
use omniswitch_ci_cd.Execution.Steps.{
  Services, Session, extend_log, append_log, set_status, on_world,
}
use omniswitch_ci_cd.Execution.RunTest.{append_result, proceed, perform, validate}

abbrev pub some_failed : List ValidationResult → Bool
some_failed = any (λ r. is_fail r.status)

abbrev pub some_error : List ValidationResult → Bool
some_error = any (λ r. is_error r.status)

-- The status that the results of a testcase amount to.
abbrev pub verdict : List ValidationResult → ResultStatus
verdict results = if some_error results then error else if some_failed results then fail else pass

some_error-concat :
    (results : List ValidationResult) (r : ValidationResult)
    → some_error (results ++ r ∷ []) ≡ (some_error results || is_error r.status)
some_error-concat results r = ground (arith, any-append (λ r. is_error r.status) results (r ∷ []))

some_failed-concat :
    (results : List ValidationResult) (r : ValidationResult)
    → some_failed (results ++ r ∷ []) ≡ (some_failed results || is_fail r.status)
some_failed-concat results r = ground (arith, any-append (λ r. is_fail r.status) results (r ∷ []))

module _ {W : Type 0} where
  -- The session behind a validation that gave `result`.
  abbrev noted : ValidationStep → ValidationResult → Session W → Session W
  noted validation result s = record s {
    validation_results = s.validation_results ++ result ∷ [];
    command_log =
        s.command_log
        ++ ("VALIDATE " <> (validation.name <> (": " <> status_value result.status))) ∷ [];
  }

  pub record IsJudged (s : Session W) : Type 0 where
    pub judged : s.status ≡ verdict s.validation_results
    pub no_error : some_error s.validation_results ≡ false

  abbrev pub Judges : Result (Unit {0}) × Session W → Type 0
  Judges (r, t) = t.status ≡ verdict t.validation_results

  -- One round, with the later rounds as `rest`.
  round :
      (go_on : Bool)
      → ValidationStep
      → Exec (Session W) Unit
      → ValidationResult
      → Exec (Session W) Unit
  round go_on v rest result = do
    append_result result
    append_log ("VALIDATE " <> (v.name <> (": " <> status_value result.status)))
    proceed go_on result.status rest

  module _ (go_on : Bool) (v : ValidationStep) (rest : Exec (Session W) Unit) where
    round_judged :
        (result : ValidationResult) (s : Session W)
        → IsJudged s
        → ((t : Session W) → IsJudged t → Judges (rest t))
        → Judges (round go_on v rest result s)
    unfolding round ◌>>=◌ append_result extend_log set_status
    round_judged result s h ih = ground (
      arith,
      some_error-concat s.validation_results result,
      some_failed-concat s.validation_results result,
      ih (noted v result s),
      ih (record (noted v result s) { status = fail }),
    )

    rounds_judged :
        (r : Result ValidationResult) (s : Session W)
        → IsJudged s
        → ((t : Session W) → IsJudged t → Judges (rest t))
        → Judges (continue r (round go_on v rest) s)
    rounds_judged (ok result) s h ih = round_judged result s h ih
    rounds_judged (raised e) s h ih = h.judged

  -- An action appends results, and if it returned and all of those are fine, there are `n` of them.
  pub record IsGrown (n : ℕ) (s : Session W) (r : Result (Unit {0})) (t : Session W) : Type 0 where
    pub more : List ValidationResult
    pub shape : t.validation_results ≡ s.validation_results ++ more
    pub full : r ≡ ok tt → verdict more ≡ pass → length more ≡ n

  abbrev Grows : ℕ → Exec (Session W) Unit → Type 0
  Grows n m = (s : Session W) → IsGrown n s (m s).0 (m s).1

  module _ {n : ℕ} (rest : Exec (Session W) Unit) (ih : Grows n rest) where
    -- `rest` runs in `t`, behind a result that does not spoil the verdict or that does.
    grow :
        (result : ValidationResult) (s t u : Session W)
        → t.validation_results ≡ s.validation_results ++ result ∷ []
        → u.validation_results ≡ t.validation_results
        → IsGrown (suc n) s (rest u).0 (rest u).1
    grow result s t u e f =
        let g = ih u in
        record {
          more = result ∷ g.more;
          shape =
              g.shape
              ∙ ap (λ l. l ++ g.more) (f ∙ e)
              ∙ append_assoc s.validation_results (result ∷ []) g.more;
          full = λ returned fine. ground (arith, g.full);
        }

    stop :
        (result : ValidationResult) (s t : Session W) (r : Result (Unit {0}))
        → t.validation_results ≡ s.validation_results ++ result ∷ []
        → (verdict (result ∷ []) ≡ pass → ⊥)
        → IsGrown (suc n) s r t
    stop result s t r e bad = record {
      more = result ∷ [];
      shape = e;
      full = λ _ fine. absurd (bad fine);
    }

    proceed-grown :
        (go_on : Bool) (st : ResultStatus) (result : ValidationResult) (s t : Session W)
        → result.status ≡ st
        → t.validation_results ≡ s.validation_results ++ result ∷ []
        → IsGrown (suc n) s (proceed go_on st rest t).0 (proceed go_on st rest t).1
    unfolding ◌>>=◌ set_status
    proceed-grown true fail result s t e f = grow result s t (record t { status = fail }) f refl
    proceed-grown false fail result s t e f = stop result s _ _ f (λ fine. ground arith)
    proceed-grown go_on error result s t e f = stop result s _ _ f (λ fine. ground arith)
    proceed-grown go_on pass result s t e f = grow result s t t f refl
    proceed-grown go_on skipped result s t e f = grow result s t t f refl

    rounds_grown :
        (go_on : Bool) (v : ValidationStep) (r : Result ValidationResult) (s t : Session W)
        → t.validation_results ≡ s.validation_results
        → IsGrown
            (suc n)
            s
            (continue r (round go_on v rest) t).0
            (continue r (round go_on v rest) t).1
    unfolding round ◌>>=◌ append_result extend_log
    rounds_grown go_on v (ok result) s t e =
        proceed-grown go_on result.status result s (noted v result t) refl
          (ap (λ l. l ++ result ∷ []) e)
    rounds_grown go_on v (raised x) s t e = record {
      more = [];
      shape = e ∙ sym (append-nil s.validation_results);
      full = λ h. ground arith;
    }

  module _ (services : Services W) (dry_run : Bool) where
    perform-IsJudged :
        (v : ValidationStep) (s : Session W)
        → IsJudged s
        → IsJudged (perform services dry_run v s).1
    unfolding perform on_world ◌>>=◌
    perform-IsJudged v s h = ground arith

    -- The loop leaves the status that its results amount to, whether it returns or raises.
    pub validate_judged :
        (go_on : Bool) (vs : List ValidationStep) (s : Session W)
        → IsJudged s
        → Judges (validate services dry_run go_on vs s)
    unfolding validate ◌>>=◌ round
    validate_judged go_on [] s h = h.judged
    validate_judged go_on (v ∷ vs) s h =
        rounds_judged go_on v (validate services dry_run go_on vs) (perform services dry_run v s).0
          (perform services dry_run v s).1 (perform-IsJudged v s h) (validate_judged go_on vs)

    perform-results :
        (v : ValidationStep) (s : Session W)
        → (perform services dry_run v s).1.validation_results ≡ s.validation_results
    unfolding perform on_world ◌>>=◌
    perform-results v s = ground arith

    -- The loop appends its results, one for each validation if it ends with nothing wrong.
    pub validate_grown :
        (go_on : Bool) (vs : List ValidationStep)
        → Grows (length vs) (validate services dry_run go_on vs)
    unfolding validate ◌>>=◌ round
    validate_grown go_on [] s = record {
      more = [];
      shape = sym (append-nil s.validation_results);
      full = λ _ _. refl;
    }
    validate_grown go_on (v ∷ vs) s =
        rounds_grown (validate services dry_run go_on vs) (validate_grown go_on vs) go_on v
          (perform services dry_run v s).0 s (perform services dry_run v s).1 (perform-results v s)
