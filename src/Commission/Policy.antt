-- ===== src/Commission/Policy.antt =====
-- The first login of scripts/commission.py: what a stage that is ok has asked the switch, and what it answered.
use omniswitch_ci_cd.Prelude.{
  All, All-mono, map-append, ℕ, String, ◌≡◌, ap, ◌∙◌, Bool, true, false, List, [], ◌∷◌, ◌++◌, map,
  arith, if◌then◌else◌,
}
use omniswitch_ci_cd.Exec.{ok}
use omniswitch_ci_cd.Exec.Laws.{Keeps}
use omniswitch_ci_cd.Exec.Triple.{
  Triple, Triple-pure, Triple-bind, Triple-after, Triple-weaken, Triple-frame, Triple-Keeps,
  Triple-given, Anything,
}
use omniswitch_ci_cd.Domain.Lab.{LabConfig}
use omniswitch_ci_cd.Commission.Stage.{
  Stage, is_ok, add_check, fail, Candidate, rejected_candidates, SerialConsole,
}
use omniswitch_ci_cd.Commission.Login.{
  Probing, left, probed, forced_check, change_check, login_check, try_change, first_login_stage,
  sign_in_again, judge_change, set_password, first_change, stage_first_login,
}
use omniswitch_ci_cd.Commission.Probing.{
  IsLog, IsKept, check_names, refusal_names, first_login_checks, failed-is_ok, open-Keeps, Refused,
  Refused-IsKept, Probes, probe-Probes,
}

module _ {W : Type 0} (console : SerialConsole W) (repr : String → String)
    (Answered : (current_password new_password : String) → Bool × String × Bool → W → Type 0)
    (log : IsLog console Answered) (lab : LabConfig) where
  abbrev pub Refusal : Candidate → W → Type 0
  Refusal = Refused console repr Answered log lab.commissioning

  abbrev Refusals : W → Type 0
  Refusals w = All (λ probe. Refusal probe w) rejected_candidates

  -- The switch said that it took the password of the lab file.
  abbrev pub Accepted : W → Type 0
  Accepted w =
      (message : String) × (dialogue_open : Bool) × Answered lab.commissioning.factory_password
        lab.commissioning.initial_password (true, message, dialogue_open) w

  Refusal-IsKept : (probe : Candidate) → IsKept console (Refusal probe)
  Refusal-IsKept = Refused-IsKept console repr Answered log lab.commissioning

  Refusals-IsKept : IsKept console Refusals
  Refusals-IsKept = record {
    await = λ timeout. record {
      at = λ w. All-mono rejected_candidates λ probe. ((Refusal-IsKept probe).await timeout).at w;
    };
    submit = λ username password timeout. record {
      at = λ w.
          All-mono rejected_candidates
            λ probe. ((Refusal-IsKept probe).submit username password timeout).at w;
    };
    change = λ current_password new_password timeout. record {
      at = λ w.
          All-mono rejected_candidates
            λ probe. ((Refusal-IsKept probe).change current_password new_password timeout).at w;
    };
  }

  abbrev Real : W → Type 0
  Real w = Refusals w × Accepted w

  await-Real : (timeout : ℕ) → Keeps Real (console.await_login_prompt timeout)
  await-Real timeout = record {
    at = λ w (refusals, (message, b, a)). (
      (Refusals-IsKept.await timeout).at w refusals,
      (message, b, (log.await_keeps _ _ _ timeout).at w a),
    );
  }

  submit-Real :
      (username password : String) (timeout : ℕ)
      → Keeps Real (console.submit_login username password timeout)
  submit-Real username password timeout = record {
    at = λ w (refusals, (message, b, a)). (
      (Refusals-IsKept.submit username password timeout).at w refusals,
      (message, b, (log.submit_keeps _ _ _ username password timeout).at w a),
    );
  }

  -- What a stage that is ok shows.
  abbrev Final : Stage → W → Type 0
  Final stage w =
      is_ok stage ≡ true
      → Real w × (check_names stage ≡ first_login_checks lab.switch.expected_prompt)

  failed-Final : (stage : Stage) (w : W) → is_ok stage ≡ false → Final stage w
  failed-Final stage w bad fine = absurd (ground (arith, bad, fine))

  -- The checks before the session with the new password.
  abbrev changed_checks : List String
  changed_checks =
      (forced_check "").name
      ∷ (refusal_names rejected_candidates ++ (change_check true "").name ∷ [])

  -- The end of the stage, by whether the prompt came.
  signed-Final :
      (stage : Stage) (signed_in : String) (w : W) (at_prompt : Bool)
      → check_names stage ≡ changed_checks
      → Real w
      → Final
          (if at_prompt
            then add_check stage (login_check lab.switch.expected_prompt signed_in)
            else fail
                (add_check stage (login_check lab.switch.expected_prompt signed_in))
                "Could not log in with the new password after changing it.")
          w
  signed-Final stage signed_in w true names p fine = (
    p,
    map-append (λ check. check.name) stage.checks
          (login_check lab.switch.expected_prompt signed_in ∷ [])
        ∙ ap (λ l. l ++ (login_check lab.switch.expected_prompt "").name ∷ []) names,
  )
  signed-Final stage signed_in w false names p fine = absurd (
      ground (
        arith,
        fine,
        failed-is_ok (add_check stage (login_check lab.switch.expected_prompt signed_in))
            "Could not log in with the new password after changing it.",
      ))

  sign_in-Final :
      (stage : Stage)
      → check_names stage ≡ changed_checks
      → Triple Real (sign_in_again console repr lab stage) Final
  sign_in-Final stage names = Triple-bind _ _ (Triple-Keeps _ (await-Real 30) λ _ w p. p) λ _.
      Triple-bind _ _ (Triple-Keeps _ (submit-Real _ _ 30) λ _ w p. p)
        λ signed_in. Triple-pure _ λ w p. signed-Final stage signed_in w _ names p

  change-Final :
      (stage : Stage) (accepted : Bool) (message : String) (dialogue_open : Bool)
      → check_names stage ≡ changed_checks
      → Triple
          (λ w.
            Refusals w
            × Answered lab.commissioning.factory_password lab.commissioning.initial_password
                (accepted, message, dialogue_open)
                w)
          (judge_change console repr lab accepted message stage)
          Final
  change-Final stage true message dialogue_open names =
      Triple-weaken _ (λ w (refusals, a). (refusals, (message, dialogue_open, a)))
        (sign_in-Final stage names)
  change-Final stage false message dialogue_open names =
      Triple-pure _ λ w p. failed-Final _ w (failed-is_ok stage _)

  try_change-Final :
      (stage : Stage) (is_open : Bool)
      → check_names stage ≡ (forced_check "").name ∷ refusal_names rejected_candidates
      → Triple Refusals (try_change console repr lab stage is_open) Final
  try_change-Final stage false names = Triple-pure _ λ w p. failed-Final _ w (failed-is_ok stage _)
  try_change-Final stage true names =
      Triple-bind _ _
        (Triple-weaken _ (λ w refusals. (refusals, tt))
          (Triple-frame _ (Refusals-IsKept.change _ _ 30) (log.answers _ _ 30)))
        λ answer.
          change-Final (add_check stage (change_check answer.0 answer.1)) answer.0 answer.1 answer.2
            (map-append (λ check. check.name) stage.checks (change_check answer.0 answer.1 ∷ [])
              ∙ ap (λ l. l ++ (change_check true "").name ∷ []) names)

  set_password-Final :
      (probing : Probing)
      → Triple
          (Probes console repr Answered log lab.commissioning
            ((forced_check "").name ∷ [])
            rejected_candidates
            rejected_candidates
            probing)
          (set_password console repr lab probing)
          Final
  unfolding set_password
  set_password-Final (left stage) = Triple-pure _ λ w bad. failed-Final stage w bad
  set_password-Final (probed stage dialogue_open) = Triple-given _ λ names.
      Triple-bind _ _
        (Triple-Keeps _
          (open-Keeps console repr Refusals Refusals-IsKept lab.commissioning dialogue_open)
          λ _ w p. p)
        λ is_open. try_change-Final stage is_open names

  first_change-Final :
      (response : String) (forced : Bool)
      → Triple Anything
          (first_change console repr lab
            (add_check (first_login_stage console repr) (forced_check response))
            forced)
          Final
  first_change-Final response true =
      Triple-bind _ _
        (probe-Probes console repr Answered log lab.commissioning rejected_candidates true _)
        set_password-Final
  first_change-Final response false = Triple-pure _ λ w p.
      failed-Final _ w
        (failed-is_ok (add_check (first_login_stage console repr) (forced_check response)) _)

  first_login-Final : Triple Anything (stage_first_login console repr lab) Final
  unfolding stage_first_login
  first_login-Final =
      Triple-after _ _ λ _. Triple-after _ _ λ response. first_change-Final response _

  -- Behind a first login whose stage is ok, the switch was asked in its change dialogue to take each of the candidates in
  -- place of the factory password, and it refused each of them with the message that is expected for it; and it was asked
  -- to take the password of the lab file, and the answer is read as accepted. The checks of the stage are the forced
  -- change, the refusals in the order of the candidates, the change and the new session.
  pub stage_first_login-password :
      (w : W) (stage : Stage)
      → (stage_first_login console repr lab w).0 ≡ ok stage
      → is_ok stage ≡ true
      → (All (λ probe. Refusal probe (stage_first_login console repr lab w).1) rejected_candidates
          × Accepted (stage_first_login console repr lab w).1)
        × (map (λ check. check.name) stage.checks ≡ first_login_checks lab.switch.expected_prompt)
  stage_first_login-password w stage h fine = first_login-Final.at w tt stage h fine
