-- ===== src/Commission/Network.antt =====
-- The network stages of scripts/commission.py: the management address with its ports, the ping of the station and the
-- port scan.
use omniswitch_ci_cd.Prelude.{
  ℕ, zero, suc, ◌*◌, String, ◌<>◌, Bool, true, false, List, [], ◌∷◌, if◌then◌else◌,
}
use omniswitch_ci_cd.Prelude.Text.{show, contains, lower, strip_text}
use omniswitch_ci_cd.Exec.{Exec, pure, try_except, ◌>>=◌, ◌>>◌}
use omniswitch_ci_cd.Domain.Lab.{LabConfig}
use omniswitch_ci_cd.Commission.Text.{
  holds_in, said_in, condense, ping_succeeded, Patterns, interface_is_up,
}
use omniswitch_ci_cd.Commission.Stage.{
  Check, Stage, new_stage, add_check, add_command, fail, SerialConsole, CommissionArguments,
  Outside,
}

-- A list of commands went through, or one of them was rejected.
pub data Sending : Type 0 where
  rejected : Stage → Sending
  sent : Stage → Sending

abbrev addressing_commands : LabConfig → List String
addressing_commands lab =
    ("ip interface "
      <> (lab.commissioning.mgmt_interface
          <> (" address "
              <> (lab.commissioning.mgmt_address
                  <> (" vlan " <> show lab.commissioning.mgmt_vlan)))))
    ∷ ("interface port " <> (lab.commissioning.mgmt_ports <> " admin-state disable"))
    ∷ ("interface port " <> (lab.commissioning.mgmt_ports <> " admin-state enable"))
    ∷ []

abbrev address_check : (host interfaces : String) → Check
address_check host interfaces = record {
  name = "관리 IP 반영";
  passed = holds_in host interfaces;
  observed = condense interfaces 6;
  expected = host;
}

abbrev up_check : Patterns → (host interfaces : String) (waited : ℕ) → Check
up_check patterns host interfaces waited = record {
  name = "관리 인터페이스 UP";
  passed = interface_is_up patterns interfaces host;
  observed = condense interfaces 6 <> (" (waited " <> (show waited <> "s)"));
  expected = host <> " UP";
}

abbrev ping_check : (station output : String) → Check
ping_check station output = record {
  name = "스위치에서 PC로 ping 성공";
  passed = ping_succeeded output;
  observed = condense output 6;
  expected = "ICMP replies from " <> station;
}

abbrev scan_check : (top_ports : ℕ) (passed : Bool) (observed expected : String) → Check
scan_check top_ports passed observed expected = record {
  name = "상위 " <> (show top_ports <> "개 tcp/udp 포트 중 열린 것 없음");
  passed = passed;
  observed = observed;
  expected = expected;
}

abbrev none_open : List String → Bool
none_open [] = true
none_open (port ∷ ports) = false

module _ {W : Type 0} (outside : Outside W) (console : SerialConsole W) where
  -- The loop of `_wait_for_interface_up`: `attempt` rounds are done and `remaining` follow this one.
  unfoldable pub poll_interface :
      (address : String) (delay attempt remaining : ℕ) → Exec W (String × ℕ)
  unfolding interface_is_up
  poll_interface address delay attempt zero = do
    output ← console.send_command "show ip interface" 30
    pure (output, attempt * delay)
  poll_interface address delay attempt (suc remaining) = do
    output ← console.send_command "show ip interface" 30
    (if interface_is_up outside.patterns output address
        then pure (output, attempt * delay)
        else outside.sleep delay >> poll_interface address delay (suc attempt) remaining)

  -- `_wait_for_interface_up` with its default of 12 attempts and a delay of 5 seconds.
  unfoldable pub wait_for_interface_up : (address : String) → Exec W (String × ℕ)
  unfolding poll_interface
  wait_for_interface_up address = poll_interface address 5 0 11

  -- The loop of `stage_addressing` over the commands.
  unfoldable pub send_addressing : List String → Stage → Exec W Sending
  unfolding lower contains strip_text
  send_addressing [] stage = pure (sent stage)
  send_addressing (command ∷ commands) stage = do
    output ← console.send_command command 30
    (if said_in "error" output
        then pure (
            rejected (
              fail (add_command stage command)
                ("'" <> (command <> ("' was rejected: " <> strip_text output)))))
        else send_addressing commands (add_command stage command))

  -- The checks of `stage_addressing`.
  unfoldable pub check_addressing : LabConfig → Sending → Exec W Stage
  unfolding contains condense show wait_for_interface_up interface_is_up
  check_addressing lab (rejected stage) = pure stage
  check_addressing lab (sent stage) = do
    interfaces ← console.send_command "show ip interface" 30
    (output, waited) ← wait_for_interface_up lab.switch.host
    pure (
        add_check (add_check stage (address_check lab.switch.host interfaces))
          (up_check outside.patterns lab.switch.host output waited))

  -- `stage_addressing`.
  unfoldable pub stage_addressing : LabConfig → Exec W Stage
  unfolding show send_addressing check_addressing
  stage_addressing lab = do
    sending ← send_addressing (addressing_commands lab) (new_stage "관리 IP 설정 및 포트 활성화")
    check_addressing lab sending

  -- The loop of `stage_reachability`, with the attempts that remain behind this one.
  unfoldable pub poll_ping : (station : String) (remaining : ℕ) → Exec W String
  unfolding ping_succeeded
  poll_ping station zero = console.send_command ("ping " <> (station <> " count 3")) 60
  poll_ping station (suc remaining) = do
    output ← console.send_command ("ping " <> (station <> " count 3")) 60
    (if ping_succeeded output then pure output else outside.sleep 5 >> poll_ping station remaining)

  -- `stage_reachability`.
  unfoldable pub stage_reachability : LabConfig → Exec W Stage
  unfolding poll_ping condense ping_succeeded
  stage_reachability lab = do
    output ← poll_ping lab.station_ip 5
    pure (
        add_check (new_stage ("스위치 -> PC(" <> (lab.station_ip <> ") 통신 확인")))
          (ping_check lab.station_ip output))

module _ {W : Type 0} (outside : Outside W) where
  abbrev scan_stage : Stage
  scan_stage = new_stage "서비스 활성화 전 포트스캔 (전부 닫힘)"

  abbrev scan : LabConfig → (top_ports : ℕ) → Exec W Stage
  scan lab top_ports = do
    (open_ports, summary) ← outside.scan_top_ports lab.switch.host top_ports
    pure (
        add_check scan_stage (
          scan_check top_ports (none_open open_ports) summary
            ("no open ports on " <> lab.switch.host)))

  -- `stage_port_scan`.
  unfoldable pub stage_port_scan : LabConfig → CommissionArguments → Exec W Stage
  unfolding show
  stage_port_scan lab arguments =
      if arguments.skip_scan
      then pure (
          add_check scan_stage
            (scan_check arguments.top_ports true "skipped (--skip-scan)" "no open ports"))
      else try_except (scan lab arguments.top_ports) (λ exc. pure (
          fail scan_stage
            ("port scan could not run (" <> (exc.message <> "); nmap needs an elevated shell"))))
