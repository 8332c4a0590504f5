-- ===== src/Commission/Services.antt =====
-- The last stages of scripts/commission.py: the services with the accounts that stay, and saving.
use omniswitch_ci_cd.Prelude.{
  String, ◌<>◌, Bool, true, false, not, ◌&&◌, ◌||◌, Option, none, some, List, [], ◌∷◌, ◌++◌, map,
  select, str_eq, if◌then◌else◌,
}
use omniswitch_ci_cd.Prelude.Text.{show_option, contains, lower, strip_text}
use omniswitch_ci_cd.Exec.{Exec, pure, ◌>>=◌}
use omniswitch_ci_cd.Domain.Lab.{LabConfig, LabAccount, ProvisionSpec}
use omniswitch_ci_cd.Commission.Text.{
  holds_in, said_in, condense, redact, Patterns, service_enabled, aaa_service_configured,
}
use omniswitch_ci_cd.Commission.Stage.{
  Check, Stage, new_stage, add_check, add_command, fail, SerialConsole,
}
use omniswitch_ci_cd.Commission.Network.{Sending, rejected, sent}

abbrev is_provisioned : Option ProvisionSpec → Bool
is_provisioned none = false
is_provisioned (some provision) = true

-- The accounts that the loops over `lab.accounts` do not pass over.
abbrev pub is_fixed : LabConfig → String × LabAccount → Bool
is_fixed lab (role, account) =
    not (
      is_provisioned account.provision
      || str_eq account.username lab.commissioning.factory_username)

abbrev pub fixed_accounts : LabConfig → List (String × LabAccount)
fixed_accounts lab = select (is_fixed lab) lab.accounts

-- A command, and whether its errors are tolerated.
account_commands : List (String × LabAccount) → List (String × Bool)
account_commands [] = []
account_commands ((role, account) ∷ accounts) =
    (("no user " <> account.username), true)
    ∷ (
      ("user "
          <> (account.username
              <> (" password " <> (show_option account.password <> " read-write all")))),
      false,
    )
    ∷ account_commands accounts

-- `commands` of `stage_services_and_accounts`.
unfoldable pub service_commands : LabConfig → List (String × Bool)
unfolding account_commands
service_commands lab =
    ("aaa authentication default local", false)
    ∷ ("aaa authentication http local", false)
    ∷ ("ip service ssh admin-state enable", false)
    ∷ ("ip service http admin-state enable", false)
    ∷ account_commands (fixed_accounts lab)

abbrev account_check : (users : String) → String × LabAccount → Check
account_check users (role, account) = record {
  name = "계정 생성 확인 (" <> (role <> (": " <> (account.username <> ")")));
  passed = holds_in account.username users;
  observed = condense users 4;
  expected = account.username;
}

abbrev service_check : (services service : String) → Check
service_check services service = record {
  name = service <> " 활성화";
  passed = service_enabled services service;
  observed = condense services 8;
  expected = service <> " enabled";
}

abbrev http_check : Patterns → (authentication : String) → Check
http_check patterns authentication = record {
  name = "HTTP(WebView/API) 인증 경로 설정";
  passed = aaa_service_configured patterns authentication "http";
  observed = condense authentication 10;
  expected = "Service type = Http -> local";
}

abbrev save_check : (output : String) → Check
save_check output = record {
  name = "running-config 저장";
  passed = not (said_in "error" output);
  observed = condense output 4;
  expected = "no error";
}

abbrev pub add_checks : Stage → List Check → Stage
add_checks stage checks = record stage { checks = stage.checks ++ checks }

module _ {W : Type 0} (patterns : Patterns) (console : SerialConsole W) where
  -- The loop over the commands.
  unfoldable pub send_services : List (String × Bool) → Stage → Exec W Sending
  unfolding lower contains strip_text redact
  send_services [] stage = pure (sent stage)
  send_services ((command, tolerate_errors) ∷ commands) stage = do
    output ← console.send_command command 30
    (if said_in "error" output && not tolerate_errors
        then pure (
            rejected (
              fail (add_command stage (redact command))
                ("'" <> (redact command <> ("' was rejected: " <> strip_text output)))))
        else send_services commands (add_command stage (redact command)))

  -- The checks behind the commands.
  unfoldable pub check_services : LabConfig → Sending → Exec W Stage
  unfolding contains condense service_enabled aaa_service_configured
  check_services lab (rejected stage) = pure stage
  check_services lab (sent stage) = do
    users ← console.send_command "show user" 30
    services ← console.send_command "show ip service" 30
    authentication ← console.send_command "show aaa authentication" 30
    pure (
        add_checks stage (
          map (account_check users) (fixed_accounts lab)
          ++ service_check services "ssh"
            ∷ service_check services "https"
            ∷ http_check patterns authentication
            ∷ []))

  -- `stage_services_and_accounts`.
  unfoldable pub stage_services_and_accounts : LabConfig → Exec W Stage
  unfolding service_commands send_services check_services
  stage_services_and_accounts lab = do
    sending ← send_services (service_commands lab) (new_stage "인증 설정, 서비스 활성화, 고정 계정 생성")
    check_services lab sending

-- `stage_save`; `_condense` never gives the empty text.
unfoldable pub stage_save : {W : Type 0} → SerialConsole W → Exec W Stage
unfolding contains lower condense
stage_save console = do
  output ← console.send_command "write memory" 60
  pure (add_check (add_command (new_stage "설정 저장") "write memory") (save_check output))
