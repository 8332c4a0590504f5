-- ===== src/Secfunc/Results.antt =====
-- What the results and the exit code of scripts/run_secfunc.py say.
use omniswitch_ci_cd.Prelude.{
  ℕ, String, ◌<>◌, ◌≡◌, refl, ◌↔◌, Bool, true, false, Option, List, [], ◌∷◌, map, any, all, All,
  arith, select,
}
use omniswitch_ci_cd.Exec.{Result, ok, raised, continue, after_finally, pure, ◌>>=◌, try_finally}
use omniswitch_ci_cd.Exec.Laws.{continue-eq-ok}
use omniswitch_ci_cd.Exec.Triple.{
  Triple, Triple-fact, Triple-pure, Triple-after, Triple-bind, Anything, ok_inj,
}
use omniswitch_ci_cd.Domain.Results.{ℤ, pos, negsuc}
use omniswitch_ci_cd.Domain.Lab.{LabConfig}
use omniswitch_ci_cd.Secfunc.Plan.{
  Step, Phase, SecfuncArguments, StepResult, all_passed, say, summarize, exit_code, is_zero,
  is_positive, is_skipped_code,
}
use omniswitch_ci_cd.Secfunc.Accounts.{Runner, manage_accounts}
use omniswitch_ci_cd.Secfunc.Run.{run_step, run_plan, run_all}

abbrev pub item_of_result : StepResult → Phase × Step
item_of_result r = (r.phase, r.step)

-- The step of a result ran and returned 0.
abbrev pub IsPassed : StepResult → Type 0
IsPassed r = r.code ≡ pos 0

-- No process was ended by a signal: a negative code is the code of a skipped step.
abbrev pub IsUnsignalled : StepResult → Type 0
IsUnsignalled r = (n : ℕ) → r.code ≡ negsuc n → n ≡ 0

zero-IsPassed : (code : ℤ) → is_zero code ≡ true → code ≡ pos 0
zero-IsPassed (pos n) h = ground arith
zero-IsPassed (negsuc n) h = ground arith

all-IsPassed :
    (results : List StepResult) → all (λ r. is_zero r.code) results ≡ true → All IsPassed results
all-IsPassed [] h = tt
all-IsPassed (r ∷ rs) h = (zero-IsPassed r.code (ground arith), all-IsPassed rs (ground arith))

exit_code-IsPassed : (results : List StepResult) → exit_code results ≡ 0 → All IsPassed results
unfolding exit_code
exit_code-IsPassed results h = all-IsPassed results (ground arith)

IsPassed-all :
    (results : List StepResult) → All IsPassed results → all (λ r. is_zero r.code) results ≡ true
IsPassed-all [] h = refl
IsPassed-all (r ∷ rs) (p, h) = ground (arith, p, IsPassed-all rs h)

-- A code that is no signal's is a pass, a failure or a skip.
unsignalled_code :
    (code : ℤ)
    → ((n : ℕ) → code ≡ negsuc n → n ≡ 0)
    → is_positive code ≡ false
    → is_skipped_code code ≡ false
    → is_zero code ≡ true
unsignalled_code (pos n) h p s = ground arith
unsignalled_code (negsuc n) h p s = ground (arith, h n refl)

say-all_passed :
    (names : List String) (skipped : Bool)
    → say names skipped ≡ all_passed
    → (names ≡ []) × (skipped ≡ false)
say-all_passed [] true h = absurd (ground arith)
say-all_passed [] false h = (refl, refl)
say-all_passed (x ∷ xs) skipped h = absurd (ground arith)

-- No failed step is named, so there is none.
unnamed_lem :
    (results : List StepResult)
    → map (λ r. r.phase.name <> ("/" <> r.step.label)) (select (λ r. is_positive r.code) results)
      ≡ []
    → any (λ r. is_positive r.code) results ≡ false
unnamed_lem [] h = refl
unnamed_lem (r ∷ rs) h = split (is_positive r.code) refl (unnamed_lem rs)
  where
    split :
        (b : Bool)
        → is_positive r.code ≡ b
        → (map (λ x. x.phase.name <> ("/" <> x.step.label)) (select (λ x. is_positive x.code) rs)
              ≡ []
            → any (λ x. is_positive x.code) rs ≡ false)
        → any (λ x. is_positive x.code) (r ∷ rs) ≡ false
    split true e ih = absurd (ground (arith, e, h))
    split false e ih = ground (arith, e, ih (ground (arith, e, h)))

neither-all :
    (results : List StepResult)
    → All IsUnsignalled results
    → any (λ r. is_positive r.code) results ≡ false
    → any (λ r. is_skipped_code r.code) results ≡ false
    → all (λ r. is_zero r.code) results ≡ true
neither-all [] u p s = refl
neither-all (r ∷ rs) (u, us) p s = ground (
  arith,
  unsignalled_code r.code u (ground arith) (ground arith),
  neither-all rs us (ground arith) (ground arith),
)

passed-neither :
    (results : List StepResult)
    → All IsPassed results
    → (map (λ r. r.phase.name <> ("/" <> r.step.label)) (select (λ r. is_positive r.code) results)
        ≡ [])
      × (any (λ r. is_skipped_code r.code) results ≡ false)
passed-neither [] h = (refl, refl)
passed-neither (r ∷ rs) (p, h) =
    let (names, skips) = passed-neither rs h in (ground (arith, p, names), ground (arith, p, skips))

said_lem :
    {names : List String} {skipped : Bool}
    → (names ≡ []) × (skipped ≡ false)
    → say names skipped ≡ all_passed
said_lem (n, k) = rw (n, k)

-- The summary says that all steps passed if and only if the exit code is 0 and so every step returned 0, provided that
-- no step was ended by a signal.
pub summarize-exit_code :
    (results : List StepResult)
    → All IsUnsignalled results
    → (summarize results ≡ all_passed) ↔ (exit_code results ≡ 0)
unfolding summarize exit_code
summarize-exit_code results u = (
  λ h.
      let (names, skips) = say-all_passed _ _ h in
      ground (arith, neither-all results u (unnamed_lem results names) skips),
  λ h. said_lem (passed-neither results (all-IsPassed results (ground arith))),
)

module _ {W : Type 0} (runner : Runner W) (arguments : SecfuncArguments) (lab : LabConfig)
    (repo : Option String) where
  run_step-item :
      (item : Phase × Step)
      → Triple Anything (run_step runner arguments lab repo item) (λ r w. item_of_result r ≡ item)
  unfolding run_step
  run_step-item (phase, step) = Triple-after _ _ λ code. Triple-pure _ λ w p. refl

  -- A plan that is through has one result for each of its steps, in their order.
  run_plan-items :
      (plan : List (Phase × Step))
      → Triple Anything
          (run_plan runner arguments lab repo plan)
          (λ results w. map item_of_result results ≡ plan)
  unfolding run_plan
  run_plan-items [] = Triple-pure _ λ w p. refl
  run_plan-items (item ∷ items) = Triple-bind _ _ (run_step-item item) λ r. Triple-fact _ λ first.
      Triple-bind _ _ (run_plan-items items)
        λ rs. Triple-fact _ λ others. Triple-pure _ λ w p. rw (first, others)

  -- Behind `finally` the results are those of the body.
  exit-ok :
      (r : Result (List StepResult)) (q : Result Unit) (w : W)
      → (continue (after_finally r q) (λ results. pure (exit_code results)) w).0 ≡ ok 0
      → (results : List StepResult) × (r ≡ ok results) × (exit_code results ≡ 0)
  unfolding pure
  exit-ok (ok results) (ok u) w h = (results, refl, ok_inj h)
  exit-ok (ok results) (raised e) w h = absurd (ground (arith, h))
  exit-ok (raised e) (ok u) w h = absurd (ground (arith, h))
  exit-ok (raised e) (raised d) w h = absurd (ground (arith, h))

  -- The exit code is 0 only if, from what the provisioning of the accounts left, every step of the plan ran to its
  -- end, each once and in order, and returned 0.
  pub run_all-success :
      (plan : List (Phase × Step)) (w : W)
      → (run_all runner arguments lab repo plan w).0 ≡ ok 0
      → (results : List StepResult) × ((run_plan runner arguments lab repo plan
            (manage_accounts runner lab true false w).1).0
          ≡ ok results)
        × (map item_of_result results ≡ plan)
        × All IsPassed results
  unfolding run_all ◌>>=◌ try_finally
  run_all-success plan w h =
      let provisioned = (manage_accounts runner lab true false w).1 in
      let (_, _, run) =
        continue-eq-ok (manage_accounts runner lab true false w).0 _ provisioned h in
      let (results, returned, zero_code) =
        exit-ok (run_plan runner arguments lab repo plan provisioned).0 _ _ run in
      (
        results,
        returned,
        (run_plan-items plan).at provisioned tt results returned,
        exit_code-IsPassed results zero_code,
      )
