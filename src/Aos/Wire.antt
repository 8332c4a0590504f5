-- ===== src/Aos/Wire.antt =====
-- What the AOS driver (src/switchtest/drivers/aos.py) calls outside, the transports of
-- src/switchtest/infrastructure among it, its state, and the helpers over both.
use omniswitch_ci_cd.Prelude.{
  ℕ, String, ◌<>◌, Bool, Option, none, some, List, [], ◌∷◌, any, if◌then◌else◌,
}
use omniswitch_ci_cd.Prelude.Text.{given, or_empty, codes, lower, contains}
use omniswitch_ci_cd.Errors.{ErrorKind}
use omniswitch_ci_cd.Exec.{Exec, pure, raise, modify, ◌>>=◌}
use omniswitch_ci_cd.Domain.Enums.{TransportType}

-- `SSHTransport(...)` and `SerialConsoleTransport(...)`, by what they are built from.
pub record Transport : Type 0 where
  pub kind : TransportType
  -- the host, or the serial port
  pub address : String
  -- the port, or the baud rate
  pub port : ℕ
  pub auth_username : String
  pub auth_password : String
  pub auth_secondary : Option String
  pub prompt : String
  pub timeout_socket : ℕ
  pub timeout_ops : ℕ
  pub auth_strict_key : Bool

-- `re_search` and `re_escape` are functions of `re`; `path_exists` and `read_text` are those of a path.
pub record Wire (W : Type 0) : Type 0 where
  pub connect : Transport → Exec W Unit
  pub close : Transport → Exec W Unit
  pub send_command : Transport → (command : String) (timeout : ℕ) → Exec W String
  pub send_commands : Transport → (commands : List String) (timeout : ℕ) → Exec W (List String)
  pub send_interactive :
      Transport → (events : List (String × String × Bool)) (timeout : ℕ) → Exec W String
  pub getenv : String → Exec W (Option String)
  pub path_exists : String → Exec W Bool
  pub read_text : String → Exec W String
  -- `time.sleep(0.2)`
  pub short_sleep : Exec W Unit
  pub re_search : (pattern text : String) → Option String
  pub re_escape : String → String

-- The object's attribute `transport`, and the world.
pub record AosState (W : Type 0) : Type 0 where
  pub transport : Option Transport
  pub world : W

abbrev pub rejection_markers : List String
rejection_markers = "invalid input" ∷ "incomplete command" ∷ "error" ∷ []

-- The test of `apply_config` on an output.
unfoldable pub is_rejection : String → Bool
unfolding lower contains
is_rejection output =
    any (λ marker. contains (lower (codes output)) (codes marker)) rejection_markers

module _ {W : Type 0} where
  unfoldable pub on_wire : {A : Type 0} → Exec W A → Exec (AosState W) A
  on_wire m s = let (r, w) = m s.world in (r, record s { world = w })

  unfoldable pub set_transport : Transport → Exec (AosState W) Unit
  unfolding modify
  set_transport t = modify (λ s. record s { transport = some t })

  -- The loop of `apply_config` over the outputs.
  unfoldable pub check_outputs : List String → Exec (AosState W) Unit
  unfolding is_rejection
  check_outputs [] = pure tt
  check_outputs (output ∷ outputs) =
      if is_rejection output
      then raise ErrorKind.command_execution ("Device rejected configuration command: " <> output)
      else check_outputs outputs

module _ {W : Type 0} (wire : Wire W) where
  abbrev need_environment : String → Option String → Exec W String
  need_environment name value =
      if given value
      then pure (or_empty value)
      else raise ErrorKind.configuration ("Required environment variable is missing: " <> name)

  -- `get_required_secret` and `resolve_secret` of src/switchtest/infrastructure/secrets.py.
  unfoldable pub resolve_secret : (inline env_name : Option String) (label : String) → Exec W String
  resolve_secret inline env_name label =
      if given inline
      then pure (or_empty inline)
      else if given env_name
      then wire.getenv (or_empty env_name) >>= need_environment (or_empty env_name)
      else raise ErrorKind.configuration ("No password configured for " <> label)

  -- `resolve_optional_secret` of the same file.
  unfoldable pub resolve_optional_secret :
      (inline env_name : Option String) → Exec W (Option String)
  resolve_optional_secret inline env_name =
      if given inline
      then pure inline
      else if given env_name
      then wire.getenv (or_empty env_name)
      else pure none
