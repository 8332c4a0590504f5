-- ===== src/Commission/Progress.antt =====
-- Which stages scripts/commission.py has run, and what its exit code says of them.
use mathlib.Core.Path.{subst}
use omniswitch_ci_cd.Prelude.{
  append_assoc, append-nil, String, ◌≡◌, refl, sym, ap, ◌∙◌, Bool, true, false, List, [], ◌∷◌, ◌++◌,
  all, arith, if◌then◌else◌,
}
use omniswitch_ci_cd.Exec.{Result, ok, raised, pure, continue, ◌>>=◌, ◌>>◌}
use omniswitch_ci_cd.Domain.Lab.{LabConfig}
use omniswitch_ci_cd.Commission.Stage.{Stage, is_ok, CommissionArguments, Outside}
use omniswitch_ci_cd.Commission.Run.{CommissionState, in_world, append_stage, run_stage, run_stages}

module _ {W : Type 0} (outside : Outside W) (arguments : CommissionArguments)
    (lab : LabConfig) where
  -- The stage of this name returned `stage`.
  abbrev pub Ran : String → Stage → Type 0
  Ran slug stage = (w : W) × ((run_stage outside arguments lab slug w).0 ≡ ok stage)

  -- The planned stages and those that ran: all of them, or a first part whose last one alone is not ok.
  pub data IsProgress : List String → List Stage → Type 0 where
    all_done : IsProgress [] []
    stopped :
        {slug : String} {slugs : List String} {stage : Stage}
        → Ran slug stage
        → is_ok stage ≡ false
        → IsProgress (slug ∷ slugs) (stage ∷ [])
    went_on :
        {slug : String} {slugs : List String} {stage : Stage} {stages : List Stage}
        → Ran slug stage
        → is_ok stage ≡ true
        → IsProgress slugs stages
        → IsProgress (slug ∷ slugs) (stage ∷ stages)

  -- What `run_stages` that started in `s` leaves in `t`.
  abbrev Done : List String → CommissionState W → CommissionState W → Type 0
  Done slugs s t = (stages : List Stage) × (t.stages ≡ s.stages ++ stages) × IsProgress slugs stages

  go_on :
      (slug : String) (slugs : List String) (stage : Stage) (s t : CommissionState W)
      → Ran slug stage
      → is_ok stage ≡ true
      → (stages : List Stage) × (t.stages ≡ (s.stages ++ stage ∷ []) ++ stages)
        × IsProgress slugs stages
      → Done (slug ∷ slugs) s t
  go_on slug slugs stage s t ran fine (stages, same, progress) =
      (stage ∷ stages, same ∙ append_assoc s.stages (stage ∷ []) stages, went_on ran fine progress)

  -- One round, by whether its stage is ok.
  round :
      (slug : String) (slugs : List String) (stage : Stage) (s : CommissionState W)
      (v : CommissionState W) (fine : Bool)
      → Ran slug stage
      → is_ok stage ≡ fine
      → v.stages ≡ s.stages ++ stage ∷ []
      → ((run_stages outside arguments lab slugs v).0 ≡ ok tt
          → Done slugs v (run_stages outside arguments lab slugs v).1)
      → ((if fine then run_stages outside arguments lab slugs else pure tt) v).0 ≡ ok tt
      → Done
          (slug ∷ slugs)
          s
          ((if fine then run_stages outside arguments lab slugs else pure tt) v).1
  unfolding pure
  round slug slugs stage s v true ran fine same ih h =
      let (stages, more, progress) = ih h in
      go_on slug slugs stage s (run_stages outside arguments lab slugs v).1 ran fine
        (stages, more ∙ ap (λ l. l ++ stages) same, progress)
  round slug slugs stage s v false ran fine same ih h = (stage ∷ [], same, stopped ran fine)

  -- One round, by the outcome of its stage.
  outcome :
      (slug : String) (slugs : List String) (s : CommissionState W) (w : W) (r : Result Stage)
      → (run_stage outside arguments lab slug s.world).0 ≡ r
      → ((v : CommissionState W)
          → (run_stages outside arguments lab slugs v).0 ≡ ok tt
          → Done slugs v (run_stages outside arguments lab slugs v).1)
      → (continue r
          (λ stage.
            append_stage stage
            >> (if is_ok stage then run_stages outside arguments lab slugs else pure tt))
          (record s { world = w })).0
        ≡ ok tt
      → Done
          (slug ∷ slugs)
          s
          (continue r
            (λ stage.
              append_stage stage
              >> (if is_ok stage then run_stages outside arguments lab slugs else pure tt))
            (record s { world = w })).1
  unfolding ◌>>=◌ append_stage
  outcome slug slugs s w (ok stage) ran ih h =
      round slug slugs stage s _ (is_ok stage) (s.world, ran) refl refl (ih _) h
  outcome slug slugs s w (raised e) ran ih h = absurd (ground (arith, h))

  pub run_stages-Done :
      (slugs : List String) (s : CommissionState W)
      → (run_stages outside arguments lab slugs s).0 ≡ ok tt
      → Done slugs s (run_stages outside arguments lab slugs s).1
  unfolding run_stages ◌>>=◌ in_world pure
  run_stages-Done [] s h = ([], sym (append-nil s.stages), all_done)
  run_stages-Done (slug ∷ slugs) s h = outcome slug slugs s _ _ refl (run_stages-Done slugs) h

  -- The stages of a run of the script are those planned, in their order, up to the first that is not ok: no stage runs
  -- behind one that is not ok, and none is left out while all are ok.
  pub run_stages-IsProgress :
      (planned : List String) (s : CommissionState W)
      → s.stages ≡ []
      → (run_stages outside arguments lab planned s).0 ≡ ok tt
      → IsProgress planned (run_stages outside arguments lab planned s).1.stages
  run_stages-IsProgress planned s fresh h =
      let (stages, same, progress) = run_stages-Done planned s h in
      subst (IsProgress planned) (sym (same ∙ ap (λ l. l ++ stages) fresh)) progress

  -- Every planned stage ran, in this order, and returned the stage beside it, which is ok.
  pub data IsComplete : List String → List Stage → Type 0 where
    complete : IsComplete [] []
    ran_well :
        {slug : String} {slugs : List String} {stage : Stage} {stages : List Stage}
        → Ran slug stage
        → is_ok stage ≡ true
        → IsComplete slugs stages
        → IsComplete (slug ∷ slugs) (stage ∷ stages)

  -- If all stages that ran are ok, they are all that were planned.
  pub ok-IsComplete :
      (planned : List String) (stages : List Stage)
      → IsProgress planned stages
      → all is_ok stages ≡ true
      → IsComplete planned stages
  ok-IsComplete _ _ all_done h = complete
  ok-IsComplete _ _ (stopped ran bad) h = absurd (ground (arith, bad, h))
  ok-IsComplete _ _ (went_on ran fine progress) h =
      ran_well ran fine (ok-IsComplete _ _ progress (ground (arith, fine, h)))
