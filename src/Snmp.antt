-- ===== src/Snmp.antt =====
-- The data of src/switchtest/infrastructure/snmp.py: the credentials and the result of an exchange, how
-- a result is read, and the redaction of passwords. `Request` makes the arguments of pysnmp, and
-- `Exchange` one request; pysnmp itself is a parameter. `Answers` is about the results.
pub mod Request
pub mod Exchange
pub mod Answers
use omniswitch_ci_cd.Prelude.{
  String, Bool, not, ◌&&◌, ◌||◌, Option, List, [], ◌∷◌, any, if◌then◌else◌,
}
use omniswitch_ci_cd.Prelude.Text.{truthy, codes, lower, contains, replace}

pub record SnmpV3Params : Type 0 where
  pub user : String
  pub auth_password : String
  pub priv_password : String
  pub level : String
  pub auth_protocol : String
  pub priv_protocol : String

pub record SnmpResult : Type 0 where
  pub ok : Bool
  pub value : Option String
  pub detail : String
  pub refused : Bool
  pub timed_out : Bool

-- The alternatives of `DENIAL_PATTERN`, all of them plain text in lower case.
abbrev pub denial_texts : List String
denial_texts =
    "notwritable" ∷ "not writable" ∷ "noaccess" ∷ "readonly" ∷ "nosuchname" ∷ "authorizationerror"
    ∷ "wrong snmp pdu digest" ∷ "authenticator mismatched" ∷ "unknown usm user"
    ∷ "unknown snmp security name" ∷ "unsupported snmp security level" ∷ "windows of trust"
    ∷ "out of mib view" ∷ "access to mib node denied" ∷ "remote snmp engine reported error"
    ∷ "ciphertext is broken" ∷ []

-- The alternatives of `NO_RESPONSE_PATTERN`.
abbrev pub no_response_texts : List String
no_response_texts = "no snmp response received" ∷ "empty snmp response" ∷ "no response" ∷ []

-- `re.search` of `(?i)(a|b|...)` for texts in lower case.
unfoldable pub mentions : List String → String → Bool
unfolding contains lower
mentions texts s = any (λ t. contains (lower (codes s)) (codes t)) texts

-- `SnmpResult.denied`.
unfoldable pub denied : SnmpResult → Bool
unfolding mentions
denied result = not result.ok && (result.refused || mentions denial_texts result.detail)

-- `SnmpResult.unanswered`.
unfoldable pub unanswered : SnmpResult → Bool
unfolding mentions
unanswered result = not result.ok && (result.timed_out || mentions no_response_texts result.detail)

abbrev redact_one : String → String → String
redact_one secret s = if truthy secret then replace s secret "******" else s

-- `redact`: the auth password first, then the privacy password.
unfoldable pub redact : SnmpV3Params → String → String
unfolding replace
redact params s = redact_one params.priv_password (redact_one params.auth_password s)
