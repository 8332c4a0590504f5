-- ===== src/Validation/Checks.antt =====
-- The validation handlers that read a command's output or a single probe
-- (src/switchtest/services/validation_service.py). The progress display of nmap is left out.
use omniswitch_ci_cd.Prelude.{
  String, ◌<>◌, Bool, true, false, not, some, List, [], ◌∷◌, str_eq, if◌then◌else◌,
}
use omniswitch_ci_cd.Prelude.Text.{
  or_empty, or_number, or_text, show_option, show_number, show, join, codes, contains, replace,
  strip_text,
}
use omniswitch_ci_cd.Exec.{Result, Exec, pure, ◌>>=◌}
use omniswitch_ci_cd.Domain.Enums.{protocol_value}
use omniswitch_ci_cd.Domain.TestCase.{ValidationStep}
use omniswitch_ci_cd.Domain.Results.{ValidationResult}
use omniswitch_ci_cd.Driver.{BaseSwitchDriver}
use omniswitch_ci_cd.Validation.Probes.{Probes, checked, run_show_of}

-- `normalize_cli_output` of src/switchtest/utils/text.py.
unfoldable pub normalize_cli_output : String → String
unfolding replace strip_text
normalize_cli_output s = strip_text (replace s "\r\n" "\n")

abbrev is_empty {ℓ} : {A : Type ℓ} → List A → Bool
is_empty [] = true
is_empty (x ∷ xs) = false

abbrev of_result : {W A : Type 0} → Result A → Exec W A
of_result r w = (r, w)

module _ {W : Type 0} (driver : BaseSwitchDriver W) (v : ValidationStep) where
  unfoldable pub validate_contains : Exec W ValidationResult
  unfolding contains
  validate_contains = do
    output ← run_show_of driver v
    pure (
        checked v (contains (codes output) (codes (or_empty v.expected))) (some output)
          (some (or_empty v.expected)) ("Expected '" <> (or_empty v.expected <> "' to appear")))

  unfoldable pub validate_not_contains : Exec W ValidationResult
  unfolding contains
  validate_not_contains = do
    output ← run_show_of driver v
    pure (
        checked v (not (contains (codes output) (codes (or_empty v.expected)))) (some output)
          (some (or_empty v.expected))
          ("Did not expect '" <> (or_empty v.expected <> "' to appear")))

  unfoldable pub validate_equals : Exec W ValidationResult
  unfolding normalize_cli_output
  validate_equals = do
    shown ← run_show_of driver v
    let output = normalize_cli_output shown
    let expected = normalize_cli_output (or_empty v.expected)
    pure (
        checked v (str_eq output expected) (some output) (some expected)
          "Observed output did not equal expected output")

module _ {W : Type 0} (probes : Probes W) (driver : BaseSwitchDriver W) (v : ValidationStep) where
  unfoldable pub validate_regex : Exec W ValidationResult
  validate_regex = do
    output ← run_show_of driver v
    matched ← of_result (probes.re_search true (or_empty v.pattern) output)
    pure (
        checked v matched (some output) (some (or_empty v.pattern))
          ("Regex '" <> (or_empty v.pattern <> "' did not match")))

module _ {W : Type 0} (probes : Probes W) (v : ValidationStep) where
  unfoldable pub validate_ping : Exec W ValidationResult
  validate_ping = do
    answer ← probes.ping_target (or_empty v.target) v.timeout
    pure (
        checked v answer.0 (some answer.1) v.target
          ("Ping to " <> (show_option v.target <> " failed")))

  unfoldable pub validate_port_closed : Exec W ValidationResult
  unfolding protocol_value show_number
  validate_port_closed = do
    let protocol = protocol_value v.protocol
    answer ← probes.scan_port (or_empty v.target) (or_number v.port 0) v.timeout protocol
    pure (
        checked v (not (str_eq answer.0 "open")) (some answer.1)
          (some (protocol <> (" port " <> (show_number v.port <> " not open"))))
          ("Port "
            <> (show_number v.port
                <> ("/"
                    <> (protocol
                        <> (" on "
                            <> (show_option v.target <> " is open (expected closed/filtered)")))))))

  abbrev scan_label : String
  scan_label = if v.all_ports then "all 65535" else "top " <> show v.top_ports

  unfoldable pub validate_port_scan_closed : Exec W ValidationResult
  unfolding show join
  validate_port_scan_closed = do
    scan ← probes.scan_top_ports (or_empty v.target) v.top_ports v.all_ports v.timeout
    pure (
        checked v (is_empty scan.0) (some scan.1)
          (some (
            "no open ports among the "
            <> (scan_label <> (" tcp and udp ports on " <> show_option v.target))))
          ("Still open: " <> join ", " scan.0))

  abbrev web_place : String
  web_place = show_option v.target <> (":" <> show_number v.port)

  unfoldable pub validate_web_unreachable : Exec W ValidationResult
  unfolding show_number
  validate_web_unreachable = do
    answer ← probes.check_web_unreachable (or_empty v.target) (or_number v.port 0) v.timeout
    pure (
        checked v answer.0 (some answer.1)
          (some ("http(s) on port " <> (show_number v.port <> " unreachable")))
          ("Web service on " <> (web_place <> " is still reachable")))

  unfoldable pub validate_web_reachable : Exec W ValidationResult
  unfolding show_number
  validate_web_reachable = do
    answer ← probes.check_web_unreachable (or_empty v.target) (or_number v.port 0) v.timeout
    pure (
        checked v (not answer.0) (some answer.1)
          (some ("http(s) on port " <> (show_number v.port <> " reachable")))
          ("Web service on " <> (web_place <> " did not load")))

  unfoldable pub validate_api_unreachable : Exec W ValidationResult
  unfolding show_number
  validate_api_unreachable = do
    answer ← probes.check_api_unreachable (or_empty v.target) (or_number v.port 0) v.path v.timeout
    pure (
        checked v answer.0 (some answer.1) (some ("JSON API on " <> (web_place <> " unreachable")))
          ("The API on " <> (web_place <> " still answers requests")))

  unfoldable pub validate_tls_version : Exec W ValidationResult
  validate_tls_version = do
    interface ← probes.getenv "SWITCHTEST_CAPTURE_INTERFACE"
    capture ←
        probes.capture_tls_version (or_empty interface) (or_empty v.target) (or_number v.port 0)
          v.timeout
    let expected = or_text v.expected "TLS 1.2"
    pure (
        checked v (str_eq capture.0 expected)
          (some (capture.0 <> (" (" <> (capture.1 <> (") -- capture saved at " <> capture.2)))))
          (some expected)
          ("Expected "
            <> (expected <> (", observed " <> (capture.0 <> (" (" <> (capture.1 <> ")")))))))

  unfoldable pub validate_tcp_blocked : Exec W ValidationResult
  unfolding show_number
  validate_tcp_blocked = do
    answer ← probes.probe_tcp (or_empty v.target) (or_number v.port 0) v.timeout
    pure (
        checked v answer.0 (some answer.1)
          (some (
            "tcp/"
            <> (show_number v.port
                <> (" on " <> (show_option v.target <> " unreachable from this host")))))
          ("Expected the connection to be blocked, but " <> answer.1))
