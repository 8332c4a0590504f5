-- ===== src/Commission/Probing.antt =====
-- The loop over the rejected candidates in the first login of scripts/commission.py.
use mathlib.Core.Path.{subst}
use omniswitch_ci_cd.Prelude.{
  All, append_assoc, append-nil, map-append, ℕ, String, ◌≡◌, refl, sym, ◌∙◌, Bool, true, false,
  List, [], ◌∷◌, ◌++◌, map,
}
use omniswitch_ci_cd.Exec.{Exec}
use omniswitch_ci_cd.Exec.Laws.{Keeps, Keeps-bind, Keeps-if, Keeps-pure}
use omniswitch_ci_cd.Exec.Triple.{
  Triple, Triple-pure, Triple-if, Triple-bind, Triple-after, Triple-frame, Anything,
}
use omniswitch_ci_cd.Domain.Lab.{LabCommissioning}
use omniswitch_ci_cd.Commission.Stage.{
  Stage, is_ok, add_check, fail, Candidate, rejected_candidates, SerialConsole,
}
use omniswitch_ci_cd.Commission.Login.{
  mentions, Probing, left, probed, forced_check, refusal_check, change_check, login_check,
  reopen_dialogue, keep_open, judge_refusal, try_candidate, probe_candidates,
}

-- `Answered p q a w`: in its change dialogue the switch was asked to change the password from `p` to `q`, and
-- `change_password_at_login` made `a` of what it said. What was answered stays answered.
pub record IsLog {W : Type 0} (console : SerialConsole W)
    (Answered : (current_password new_password : String) → Bool × String × Bool → W → Type 0)
    : Type 0 where
  pub answers :
      (current_password new_password : String) (timeout : ℕ)
      → Triple Anything
          (console.change_password_at_login current_password new_password timeout)
          (λ answer w. Answered current_password new_password answer w)
  pub await_keeps :
      (p q : String) (a : Bool × String × Bool) (timeout : ℕ)
      → Keeps (Answered p q a) (console.await_login_prompt timeout)
  pub submit_keeps :
      (p q : String) (a : Bool × String × Bool) (username password : String) (timeout : ℕ)
      → Keeps (Answered p q a) (console.submit_login username password timeout)
  pub change_keeps :
      (p q : String) (a : Bool × String × Bool) (current_password new_password : String)
      (timeout : ℕ)
      → Keeps
          (Answered p q a)
          (console.change_password_at_login current_password new_password timeout)

-- What the calls of the first login keep.
pub record IsKept {W : Type 0} (console : SerialConsole W) (P : W → Type 0) : Type 0 where
  pub await : (timeout : ℕ) → Keeps P (console.await_login_prompt timeout)
  pub submit :
      (username password : String) (timeout : ℕ)
      → Keeps P (console.submit_login username password timeout)
  pub change :
      (current_password new_password : String) (timeout : ℕ)
      → Keeps P (console.change_password_at_login current_password new_password timeout)

abbrev pub check_names : Stage → List String
check_names stage = map (λ check. check.name) stage.checks

abbrev pub refusal_names : List Candidate → List String
refusal_names = map (λ probe. (refusal_check probe true "").name)

-- The checks of a first login that went through: the change was forced, every candidate was refused, the real password
-- was accepted and opened a session.
abbrev pub first_login_checks : String → List String
first_login_checks prompt =
    (forced_check "").name
    ∷ (refusal_names rejected_candidates
        ++ (change_check true "").name ∷ (login_check prompt "").name ∷ [])

pub failed-is_ok : (stage : Stage) (message : String) → is_ok (fail stage message) ≡ false
unfolding is_ok
failed-is_ok stage message = refl

module _ {W : Type 0} (console : SerialConsole W) (repr : String → String) where
  module _ (P : W → Type 0) (kept : IsKept console P) (settings : LabCommissioning) where
    reopen-Keeps : Keeps P (reopen_dialogue console repr settings)
    unfolding reopen_dialogue
    reopen-Keeps =
        Keeps-bind _ _ (kept.await 30) λ _. Keeps-bind _ _ (kept.submit _ _ 30) λ _. Keeps-pure _

    pub open-Keeps :
        (dialogue_open : Bool) → Keeps P (keep_open console repr settings dialogue_open)
    open-Keeps true = Keeps-pure _
    open-Keeps false = reopen-Keeps

    judge-Keeps :
        (probe : Candidate) (accepted : Bool) (message : String) (stage : Stage)
        (next : Stage → Exec W Probing)
        → Keeps P (next stage)
        → Keeps P (judge_refusal console repr settings probe accepted message stage next)
    judge-Keeps probe true message stage next go_on = Keeps-pure _
    judge-Keeps probe false message stage next go_on = Keeps-if _ _ _ go_on (Keeps-pure _)

    try-Keeps :
        (probe : Candidate) (stage : Stage) (next : Bool → Stage → Exec W Probing) (is_open : Bool)
        → ((b : Bool) (t : Stage) → Keeps P (next b t))
        → Keeps P (try_candidate console repr settings probe stage next is_open)
    try-Keeps probe stage next false go_on = Keeps-pure _
    try-Keeps probe stage next true go_on =
        Keeps-bind _ _ (kept.change _ _ 30)
          λ answer. judge-Keeps probe answer.0 answer.1 _ (next answer.2) (go_on answer.2 _)

    probe-Keeps :
        (probes : List Candidate) (dialogue_open : Bool) (stage : Stage)
        → Keeps P (probe_candidates console repr settings probes dialogue_open stage)
    unfolding probe_candidates
    probe-Keeps [] dialogue_open stage = Keeps-pure _
    probe-Keeps (probe ∷ probes) dialogue_open stage =
        Keeps-bind _ _ (open-Keeps dialogue_open)
          λ is_open. try-Keeps probe stage _ is_open (probe-Keeps probes)

  module _ (Answered : (current_password new_password : String) → Bool × String × Bool → W → Type 0)
      (log : IsLog console Answered) (settings : LabCommissioning) where
    -- The switch was asked to take the candidate, and refused it for the expected reason.
    abbrev pub Refused : Candidate → W → Type 0
    Refused probe w =
        (message : String) × (dialogue_open : Bool) × Answered settings.factory_password
          probe.candidate (false, message, dialogue_open) w
        × (mentions probe.expected_fragment message ≡ true)

    pub Refused-IsKept : (probe : Candidate) → IsKept console (Refused probe)
    Refused-IsKept probe = record {
      await = λ timeout. record {
        at = λ w (message, b, a, said). (message, b, (log.await_keeps _ _ _ timeout).at w a, said);
      };
      submit = λ username password timeout. record {
        at = λ w (message, b, a, said).
            (message, b, (log.submit_keeps _ _ _ username password timeout).at w a, said);
      };
      change = λ current_password new_password timeout. record {
        at = λ w (message, b, a, said). (
          message,
          b,
          (log.change_keeps _ _ _ current_password new_password timeout).at w a,
          said,
        );
      };
    }

    -- The loop: either it left the function with a stage that is not ok, or there is a check for each candidate, and the
    -- candidates of `known` were refused.
    abbrev pub Probes : List String → (probes known : List Candidate) → Probing → W → Type 0
    Probes names probes known (left stage) w = is_ok stage ≡ false
    Probes names probes known (probed stage dialogue_open) w =
        (check_names stage ≡ names ++ refusal_names probes) × All (λ probe. Refused probe w) known

    -- A check for the first candidate was added before the rest of the loop.
    next-Probes :
        (names : List String) (probe : Candidate) (probes known : List Candidate)
        (probing : Probing) (w : W)
        → Probes (names ++ (refusal_check probe true "").name ∷ []) probes known probing w
        → Probes names (probe ∷ probes) known probing w
    next-Probes names probe probes known (left stage) w p = p
    next-Probes names probe probes known (probed stage dialogue_open) w (p, q) =
        (p ∙ append_assoc names _ (refusal_names probes), q)

    one_more :
        (names : List String) (probe : Candidate) (probes known : List Candidate)
        (probing : Probing) (w : W)
        → Refused probe w × Probes names probes known probing w
        → Probes names probes (probe ∷ known) probing w
    one_more names probe probes known (left stage) w (r, p) = p
    one_more names probe probes known (probed stage dialogue_open) w (r, (p, q)) = (p, (r, q))

    judged-Probes :
        (names : List String) (probe : Candidate) (probes : List Candidate) (message : String)
        (dialogue_open : Bool) (stage : Stage) (next : Stage → Exec W Probing) (accepted : Bool)
        → Keeps (Refused probe) (next stage)
        → Triple Anything (next stage) (Probes names probes probes)
        → Triple
            (Answered settings.factory_password probe.candidate (accepted, message, dialogue_open))
            (judge_refusal console repr settings probe accepted message stage next)
            (Probes names probes (probe ∷ probes))
    judged-Probes names probe probes message dialogue_open stage next true kept loop =
        Triple-pure _ λ w p. failed-is_ok stage _
    judged-Probes names probe probes message dialogue_open stage next false kept loop =
        Triple-if (mentions probe.expected_fragment message) _ _
          (λ said. record {
            at = λ w a probing h.
                one_more names probe probes probes probing _ (
                  (Triple-frame _ kept loop).at w ((message, dialogue_open, a, said), tt) probing
                    h);
          })
          (λ _. Triple-pure _ λ w p. failed-is_ok stage _)

    tried-Probes :
        (names : List String) (probe : Candidate) (probes : List Candidate) (stage : Stage)
        (next : Bool → Stage → Exec W Probing) (is_open : Bool)
        → ((b : Bool) (t : Stage) → Keeps (Refused probe) (next b t))
        → ((b : Bool) (message : String) (accepted : Bool)
            → Triple Anything
                (next b (add_check stage (refusal_check probe accepted message)))
                (Probes names probes probes))
        → Triple Anything
            (try_candidate console repr settings probe stage next is_open)
            (Probes names probes (probe ∷ probes))
    tried-Probes names probe probes stage next false kept loop =
        Triple-pure _ λ w p. failed-is_ok stage _
    tried-Probes names probe probes stage next true kept loop =
        Triple-bind _ _ (log.answers settings.factory_password probe.candidate 30) λ answer.
          judged-Probes names probe probes answer.1 answer.2 _ (next answer.2) answer.0
            (kept answer.2 _) (loop answer.2 answer.1 answer.0)

    pub probe-Probes :
        (probes : List Candidate) (dialogue_open : Bool) (stage : Stage)
        → Triple Anything
            (probe_candidates console repr settings probes dialogue_open stage)
            (Probes (check_names stage) probes probes)
    unfolding probe_candidates
    probe-Probes [] dialogue_open stage =
        Triple-pure _ λ w p. (sym (append-nil (check_names stage)), tt)
    probe-Probes (probe ∷ probes) dialogue_open stage = Triple-after _ _ λ is_open. widen (
        tried-Probes _ probe probes stage _ is_open
          (probe-Keeps (Refused probe) (Refused-IsKept probe) settings probes)
          λ b message accepted.
            subst
              (λ names.
                Triple Anything
                  (probe_candidates console repr settings probes b
                    (add_check stage (refusal_check probe accepted message)))
                  (Probes names probes probes))
              (map-append (λ check. check.name) stage.checks
                (refusal_check probe accepted message ∷ []))
              (probe-Probes probes b (add_check stage (refusal_check probe accepted message))))
      where
        widen :
            {m : Exec W Probing}
            → Triple Anything m (
                Probes
                  (check_names stage ++ (refusal_check probe true "").name ∷ [])
                  probes
                  (probe ∷ probes))
            → Triple Anything m (Probes (check_names stage) (probe ∷ probes) (probe ∷ probes))
        widen t = record {
          at = λ w p probing h.
              next-Probes (check_names stage) probe probes (probe ∷ probes) probing _
                (t.at w p probing h);
        }
