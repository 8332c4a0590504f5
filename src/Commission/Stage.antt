-- ===== src/Commission/Stage.antt =====
-- The stages of scripts/commission.py as data, and what the script calls outside. A stage that is still being filled is
-- passed on by value.
use omniswitch_ci_cd.Prelude.{ℕ, String, Bool, false, Option, none, some, List, [], ◌∷◌, ◌++◌, all}
use omniswitch_ci_cd.Exec.{Exec}
use omniswitch_ci_cd.Domain.Lab.{LabConfig}
use omniswitch_ci_cd.Commission.Text.{Patterns}

pub record Check : Type 0 where
  pub name : String
  pub passed : Bool
  pub observed : String
  pub expected : String

pub record Stage : Type 0 where
  pub name : String
  pub checks : List Check
  pub commands : List String
  pub error : Option String

-- `Stage(name)`.
abbrev pub new_stage : String → Stage
new_stage name = record { name = name; checks = []; commands = []; error = none }

-- `stage.ok`.
unfoldable pub is_ok : Stage → Bool
is_ok stage = elim stage.error [
  | none ↦ all (λ check. check.passed) stage.checks
  | some error ↦ false
]

-- `stage.checks.append(check)`, `stage.commands.append(command)` and `stage.error = message`.
abbrev pub add_check : Stage → Check → Stage
add_check stage check = record stage { checks = stage.checks ++ check ∷ [] }

abbrev pub add_command : Stage → String → Stage
add_command stage command = record stage { commands = stage.commands ++ command ∷ [] }

abbrev pub fail : Stage → String → Stage
fail stage message = record stage { error = some message }

-- A candidate of the change dialogue: its name, the password, and what the switch should answer.
pub record Candidate : Type 0 where
  pub case_id : String
  pub candidate : String
  pub expected_fragment : String

abbrev candidate_of : (case_id candidate expected_fragment : String) → Candidate
candidate_of case_id candidate expected_fragment = record {
  case_id = case_id;
  candidate = candidate;
  expected_fragment = expected_fragment;
}

-- `REJECTED_CANDIDATES`.
abbrev pub rejected_candidates : List Candidate
rejected_candidates =
    candidate_of "length_too_short" "12#qweA" "at least 9 characters"
    ∷ candidate_of "missing_special" "123qweASD" "non-alphanumeric"
    ∷ candidate_of "missing_uppercase" "12#qweasd" "uppercase"
    ∷ candidate_of "missing_lowercase" "12#QWEASD" "lowercase"
    ∷ candidate_of "missing_digit" "Qet++-ASD" "digit"
    ∷ candidate_of "sequential_characters" "12#qwerASD" "consecutive characters"
    ∷ candidate_of "repeated_characters" "12#qqqASD" "consecutive identical characters"
    ∷ []

-- `SerialConsoleTransport` as far as the script calls it. `change_password_at_login` gives whether the password was
-- accepted, the message, and whether the dialogue is still open.
pub record SerialConsole (W : Type 0) : Type 0 where
  pub open_port_only : Exec W Unit
  pub await_login_prompt : (timeout : ℕ) → Exec W Unit
  pub submit_login : (username password : String) (timeout : ℕ) → Exec W String
  pub change_password_at_login :
      (current_password new_password : String) (timeout : ℕ) → Exec W (Bool × String × Bool)
  pub send_command : (command : String) (timeout : ℕ) → Exec W String
  pub close : Exec W Unit

pub record CommissionArguments : Type 0 where
  pub lab : String
  pub report : String
  pub top_ports : ℕ
  pub skip_scan : Bool
  pub from_stage : String
  pub list_stages : Bool

-- The report as `write_report` makes it, before `json.dumps`.
pub record Report : Type 0 where
  pub started_at : String
  pub ended_at : String
  pub passed : Bool
  pub stages : List Stage

-- What the script calls outside. `scan_top_ports` gives the open ports and the summary, `repr` is that of a text, and
-- `open_console lab` is the transport that `open_console` constructs.
pub record Outside (W : Type 0) : Type 0 where
  pub open_console : LabConfig → SerialConsole W
  pub sleep : ℕ → Exec W Unit
  pub scan_top_ports : (target : String) (top_ports : ℕ) → Exec W (List String × String)
  pub utcnow : Exec W String
  pub load_lab : String → Exec W LabConfig
  pub write_json : (path : String) → Report → Exec W Unit
  pub repr : String → String
  pub patterns : Patterns
