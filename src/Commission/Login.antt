-- ===== src/Commission/Login.antt =====
-- The first login of scripts/commission.py: the rules of the password policy are probed in the dialogue that the switch
-- forces, before the real password is set.
use omniswitch_ci_cd.Prelude.{
  String, ◌<>◌, Bool, true, false, not, ◌&&◌, ◌||◌, Option, none, some, List, [], ◌∷◌,
  if◌then◌else◌,
}
use omniswitch_ci_cd.Prelude.Text.{codes, lower, contains}
use omniswitch_ci_cd.Exec.{Exec, pure, ◌>>=◌, ◌>>◌}
use omniswitch_ci_cd.Domain.Lab.{LabConfig, LabCommissioning}
use omniswitch_ci_cd.Commission.Text.{holds_in, said_in, condense}
use omniswitch_ci_cd.Commission.Stage.{
  Check, Stage, new_stage, add_check, fail, Candidate, rejected_candidates, SerialConsole,
}

-- `fragment.lower() in message.lower()`.
unfoldable pub mentions : (fragment message : String) → Bool
unfolding contains lower
mentions fragment message = contains (lower (codes message)) (lower (codes fragment))

-- The probing left the function, or is through: the stage, and whether the dialogue is open.
pub data Probing : Type 0 where
  left : Stage → Probing
  probed : Stage → Bool → Probing

unfoldable pub forces_change : String → Bool
unfolding contains lower
forces_change response =
    said_in "password policy mismatch" response || said_in "enter current password" response

abbrev pub forced_check : String → Check
forced_check response = record {
  name = "공장 초기화 직후 비밀번호 변경 강제";
  passed = forces_change response;
  observed = condense response 3;
  expected = "Password policy mismatch, please change password.";
}

abbrev pub refusal_check : Candidate → (accepted : Bool) (message : String) → Check
refusal_check probe accepted message = record {
  name = "정책 위반 비밀번호 거부 (" <> (probe.case_id <> ")");
  passed = not accepted && mentions probe.expected_fragment message;
  observed = condense message 3;
  expected = "rejected, mentioning '" <> (probe.expected_fragment <> "'");
}

abbrev pub change_check : (accepted : Bool) (message : String) → Check
change_check accepted message = record {
  name = "정책을 만족하는 비밀번호로 변경 성공";
  passed = accepted;
  observed = condense message 3;
  expected = "accepted (session returns to the login prompt)";
}

abbrev pub login_check : (prompt signed_in : String) → Check
login_check prompt signed_in = record {
  name = "새 비밀번호로 재로그인";
  passed = holds_in prompt signed_in;
  observed = condense signed_in 3;
  expected = "CLI prompt '" <> (prompt <> "'");
}

module _ {W : Type 0} (console : SerialConsole W) (repr : String → String) where
  -- `_reopen_dialogue`.
  unfoldable pub reopen_dialogue : LabCommissioning → Exec W Bool
  unfolding contains lower
  reopen_dialogue settings = do
    console.await_login_prompt 30
    response ← console.submit_login settings.factory_username settings.factory_password 30
    pure (said_in "enter current password" response)

  -- `dialogue_open or _reopen_dialogue(...)`.
  abbrev pub keep_open : LabCommissioning → (dialogue_open : Bool) → Exec W Bool
  keep_open settings true = pure true
  keep_open settings false = reopen_dialogue settings

  abbrev accepted_error : LabCommissioning → Candidate → String → String
  accepted_error settings probe message =
      "The switch ACCEPTED a policy-violating password ("
      <> (repr probe.candidate
          <> ("), so it is now the live password for "
              <> (settings.factory_username
                  <> (" -- set a compliant one by hand from the console before doing anything else. (The switch said: "
                      <> (condense message 3 <> ")")))))

  abbrev reason_error : Candidate → String → String
  reason_error probe message =
      repr probe.candidate
      <> (" was refused, but not for the expected reason ("
          <> (repr probe.expected_fragment
              <> ("). Nothing on the switch changed. The switch said: " <> condense message 3)))

  -- What follows the answer to a candidate: `next` goes on with the loop.
  abbrev pub judge_refusal :
      LabCommissioning
      → Candidate
      → (accepted : Bool) (message : String) → Stage
      → (Stage → Exec W Probing)
      → Exec W Probing
  judge_refusal settings probe true message stage next =
      pure (left (fail stage (accepted_error settings probe message)))
  judge_refusal settings probe false message stage next =
      if mentions probe.expected_fragment message
      then next stage
      else pure (left (fail stage (reason_error probe message)))

  abbrev closed_error : String
  closed_error =
      "The change dialogue closed and logging back in did not reopen it. Nothing on the switch changed; check the console by hand."

  -- One round of the loop, by whether the dialogue is open; `next` goes on with the other candidates.
  abbrev pub try_candidate :
      LabCommissioning
      → Candidate
      → Stage
      → (Bool → Stage → Exec W Probing)
      → (is_open : Bool) → Exec W Probing
  try_candidate settings probe stage next false = pure (left (fail stage closed_error))
  try_candidate settings probe stage next true = do
    (accepted, message, dialogue_open) ←
        console.change_password_at_login settings.factory_password probe.candidate 30
    judge_refusal settings probe accepted message
        (add_check stage (refusal_check probe accepted message)) (next dialogue_open)

  -- The loop over the candidates.
  unfoldable pub probe_candidates :
      LabCommissioning → List Candidate → (dialogue_open : Bool) → Stage → Exec W Probing
  unfolding mentions condense reopen_dialogue
  probe_candidates settings [] dialogue_open stage = pure (probed stage dialogue_open)
  probe_candidates settings (probe ∷ probes) dialogue_open stage =
      keep_open settings dialogue_open
      >>= try_candidate settings probe stage (probe_candidates settings probes)

  abbrev pub sign_in_again : LabConfig → Stage → Exec W Stage
  sign_in_again lab stage = do
    console.await_login_prompt 30
    signed_in ←
        console.submit_login lab.commissioning.factory_username lab.commissioning.initial_password
          30
    pure (
        if holds_in lab.switch.expected_prompt signed_in
        then add_check stage (login_check lab.switch.expected_prompt signed_in)
        else fail (add_check stage (login_check lab.switch.expected_prompt signed_in))
            "Could not log in with the new password after changing it.")

  abbrev pub judge_change : LabConfig → (accepted : Bool) (message : String) → Stage → Exec W Stage
  judge_change lab true message stage = sign_in_again lab stage
  judge_change lab false message stage = pure (
      fail stage
        ("The switch refused " <> (repr lab.commissioning.initial_password <> (": " <> message))))

  abbrev last_closed_error : String
  last_closed_error =
      "The change dialogue closed after the last probe and logging back in did not reopen it. Nothing on the switch changed; check the console by hand."

  -- The real password, by whether the dialogue is open.
  abbrev pub try_change : LabConfig → Stage → (is_open : Bool) → Exec W Stage
  try_change lab stage false = pure (fail stage last_closed_error)
  try_change lab stage true = do
    (accepted, message, dialogue_open) ←
        console.change_password_at_login lab.commissioning.factory_password
          lab.commissioning.initial_password 30
    judge_change lab accepted message (add_check stage (change_check accepted message))

  -- What follows the loop over the candidates.
  unfoldable pub set_password : LabConfig → Probing → Exec W Stage
  unfolding condense reopen_dialogue
  set_password lab (left stage) = pure stage
  set_password lab (probed stage dialogue_open) =
      keep_open lab.commissioning dialogue_open >>= try_change lab stage

  abbrev pub first_login_stage : Stage
  first_login_stage = new_stage "첫 로그인 및 비밀번호 정책 검증 (강제 변경 대화)"

  -- What follows the first check, by whether a change was forced.
  abbrev pub first_change : LabConfig → Stage → (forced : Bool) → Exec W Stage
  first_change lab stage true = do
    probing ← probe_candidates lab.commissioning rejected_candidates true stage
    set_password lab probing
  first_change lab stage false = pure (
      fail stage
        "The switch did not force a password change. Either it is not factory-reset, or commissioning.factory_password is wrong.")

  -- `stage_first_login`.
  unfoldable pub stage_first_login : LabConfig → Exec W Stage
  unfolding forces_change probe_candidates set_password
  stage_first_login lab = do
    console.await_login_prompt 30
    response ←
        console.submit_login lab.commissioning.factory_username lab.commissioning.factory_password
          30
    first_change lab (add_check first_login_stage (forced_check response)) (forces_change response)

  -- `sign_in_normally`.
  unfoldable pub sign_in_normally : LabConfig → Exec W (Option String)
  unfolding contains lower condense
  sign_in_normally lab = do
    console.await_login_prompt 30
    seen ←
        console.submit_login lab.commissioning.factory_username lab.commissioning.initial_password
          30
    pure (
        if holds_in lab.switch.expected_prompt seen
        then none
        else if said_in "enter current password" seen
        then some
            "The switch is still demanding the first password change, so the run cannot resume past `first-login` -- start from it instead (drop --from-stage)."
        else some (
            "Could not log in as "
            <> (lab.commissioning.factory_username
                <> (" with commissioning.initial_password. The switch said: " <> condense seen 3))))
