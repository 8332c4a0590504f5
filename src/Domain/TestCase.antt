-- ===== src/Domain/TestCase.antt =====
-- testcase.py and suite.py (src/switchtest/domain): what a testcase file holds once the loader has
-- filled in the defaults. Integer fields are natural numbers: a negative number of seconds, attempts
-- or ports is outside the model.
use omniswitch_ci_cd.Prelude.{ℕ, String, Bool, Option, List}
use omniswitch_ci_cd.Domain.Enums.{TestAction, ValidationType, TransportProtocol, Severity}

pub record TestStep : Type 0 where
  pub action : TestAction
  pub commands : List String
  pub ignore_errors : Bool
  pub seconds : Option ℕ
  pub username : Option String
  pub wrong_password : Option String
  pub attempts : ℕ

pub record SnmpCredentials : Type 0 where
  pub user : String
  pub level : String
  pub auth_protocol : String
  pub priv_protocol : String
  pub auth_password : Option String
  pub auth_password_env : Option String
  pub priv_password : Option String
  pub priv_password_env : Option String

pub record ValidationStep : Type 0 where
  pub name : String
  pub type : ValidationType
  pub command : Option String
  pub expected : Option String
  pub pattern : Option String
  pub target : Option String
  pub port : Option ℕ
  pub protocol : TransportProtocol
  pub top_ports : ℕ
  pub all_ports : Bool
  pub path : String
  pub oid : Option String
  pub value : Option String
  pub value_type : String
  pub snmp : Option SnmpCredentials
  pub timeout : ℕ
  pub reauth : Bool
  pub trap_port : ℕ
  pub trigger_commands : List String

pub record TestCaseDefinition : Type 0 where
  pub id : String
  pub name : String
  pub description : String
  pub feature : String
  pub tags : List String
  pub severity : Severity
  pub preconditions : List String
  pub setup : List TestStep
  pub validations : List ValidationStep
  pub cleanup : List TestStep
  pub continue_on_failure : Bool
  pub timeout : ℕ
  pub restore_baseline_after : Bool

pub record SuiteDefinition : Type 0 where
  pub name : String
  pub description : String
  pub tests : List String
