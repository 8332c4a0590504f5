-- ===== src/Commission/Success.antt =====
-- What the exit code 0 of scripts/commission.py means.
use omniswitch_ci_cd.Prelude.{
  ℕ, String, ◌≡◌, refl, ◌∙◌, true, Option, none, some, List, [], ◌∷◌, all, arith,
}
use omniswitch_ci_cd.Exec.{ok, Exec, gets}
use omniswitch_ci_cd.Exec.Laws.{Keeps, Keeps-bind, Keeps-gets}
use omniswitch_ci_cd.Exec.Triple.{
  Triple, Triple-pure, Triple-if, Triple-bind, Triple-try_finally, Triple-Keeps, ok_inj,
}
use omniswitch_ci_cd.Domain.Lab.{LabConfig}
use omniswitch_ci_cd.Commission.Stage.{Stage, is_ok, CommissionArguments, Outside}
use omniswitch_ci_cd.Commission.Run.{
  CommissionState, in_world, stages_code, write_report, starts_late, after_sign_in, try_stages,
  finish, exit_of, run_planned,
}
use omniswitch_ci_cd.Commission.Progress.{
  IsProgress, IsComplete, run_stages-IsProgress, ok-IsComplete,
}

all_ok_lem : (stages : List Stage) → stages_code stages ≡ 0 → all is_ok stages ≡ true
unfolding stages_code
all_ok_lem [] h = absurd (ground (arith, h))
all_ok_lem (stage ∷ stages) h = ground (arith, h)

module _ {W : Type 0} (outside : Outside W) (arguments : CommissionArguments) (lab : LabConfig)
    (planned : List String) where
  -- What is known behind the `try` part.
  abbrev Early : Option ℕ → CommissionState W → Type 0
  Early none s = IsProgress outside arguments lab planned s.stages
  Early (some code) s = code ≡ 2

  abbrev Fresh : CommissionState W → Type 0
  Fresh s = s.stages ≡ []

  -- A call outside leaves the list of stages.
  stages-Keeps :
      {A : Type 0} (P : List Stage → Type 0) (m : Exec W A) → Keeps (λ s. P s.stages) (in_world m)
  unfolding in_world
  stages-Keeps P m = record { at = λ s p. p }

  finish-Keeps :
      (P : List Stage → Type 0) (started : String)
      → Keeps (λ s. P s.stages) (finish outside arguments lab started)
  unfolding write_report
  finish-Keeps P started = Keeps-bind _ _ (stages-Keeps P _) λ _.
      Keeps-bind _ _ (stages-Keeps P _)
        λ ended. Keeps-bind _ _ (Keeps-gets _) λ stages. stages-Keeps P _

  finish-Early :
      (started : String) (early : Option ℕ)
      → Triple (Early early) (finish outside arguments lab started) (λ _. Early early)
  finish-Early started none =
      Triple-Keeps _ (finish-Keeps (IsProgress outside arguments lab planned) started) λ _ s p. p
  finish-Early started (some code) =
      Triple-Keeps _ (finish-Keeps (λ _. code ≡ 2) started) λ _ s p. p

  run-Early :
      (failure : Option String)
      → Triple Fresh (after_sign_in outside arguments lab planned failure) Early
  run-Early none =
      Triple-bind _ _
        (record {
          at = λ s fresh _ h. run_stages-IsProgress outside arguments lab planned s fresh h;
        })
        λ _. Triple-pure _ λ s p. p
  run-Early (some failure) = Triple-pure _ λ s p. refl

  try-Early : Triple Fresh (try_stages outside arguments lab planned) Early
  unfolding try_stages
  try-Early =
      Triple-if (starts_late planned) _ _
        (λ _. Triple-bind _ _ (Triple-Keeps _ (stages-Keeps (λ l. l ≡ []) _) λ _ s p. p) run-Early)
        (λ _. run-Early none)

  -- `code` is 0 only if all is well.
  abbrev Complete : ℕ → CommissionState W → Type 0
  Complete code s = code ≡ 0 → IsComplete outside arguments lab planned s.stages

  complete_lem :
      (stages : List Stage)
      → IsProgress outside arguments lab planned stages
      → stages_code stages ≡ 0
      → IsComplete outside arguments lab planned stages
  complete_lem stages progress h =
      ok-IsComplete outside arguments lab planned stages progress (all_ok_lem stages h)

  code-Complete :
      (early : Option ℕ) → Triple (Early early) (exit_of outside arguments lab early) Complete
  unfolding gets
  code-Complete (some code) =
      Triple-pure _ λ s two zero_code. absurd (ground (arith, two, zero_code))
  code-Complete none = record {
    at = λ s progress code h zero_code. complete_lem s.stages progress (ok_inj h ∙ zero_code);
  }

  run_planned-Complete :
      (started : String) → Triple Fresh (run_planned outside arguments lab planned started) Complete
  unfolding run_planned
  run_planned-Complete started =
      Triple-bind _ _ (Triple-Keeps _ (stages-Keeps (λ l. l ≡ []) _) λ _ s p. p)
        λ _. Triple-bind _ _ (Triple-try_finally _ _ try-Early (finish-Early started)) code-Complete

  -- A run of the script that starts without a stage returns 0 only if every planned stage ran, in the order of the plan, and
  -- the stages of its report are those that they returned, each of them ok.
  pub run_planned-success :
      (started : String) (w : W)
      → (run_planned outside arguments lab planned started (record { stages = []; world = w })).0
        ≡ ok 0
      → IsComplete outside arguments lab planned
          (run_planned outside arguments lab planned started
            (record { stages = []; world = w })).1.stages
  run_planned-success started w h = (run_planned-Complete started).at _ refl 0 h refl
