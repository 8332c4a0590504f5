-- ===== src/Domain/Devices.antt =====
-- The devices that `LabConfig.devices` (src/switchtest/domain/lab.py) gives.
use mathlib.Core.Path.{subst}
use omniswitch_ci_cd.Prelude.{
  String, ◌≡◌, refl, true, false, not, ◌&&◌, ◌||◌, Option, some, none, All, sym, List, [], ◌∷◌,
  arith,
}
use omniswitch_ci_cd.Prelude.Text.{given}
use omniswitch_ci_cd.Exec.{Result, ok, raised}
use omniswitch_ci_cd.Exec.Triple.{ok_inj}
use omniswitch_ci_cd.Domain.Enums.{TransportType}
use omniswitch_ci_cd.Domain.Runtime.{DeviceDefinition}
use omniswitch_ci_cd.Domain.Lab.{
  LabConfig, LabAccount, is_serial, check_transport_fields, account_device, add_device,
  devices_from, devices,
}

-- A device under its role that a driver can open a session with: a serial one has a port, and there is
-- a password or the name of the variable that holds it.
pub record IsUsable (lab : LabConfig) (entry : String × DeviceDefinition) : Type 0 where
  pub name : entry.1.name ≡ entry.0
  pub host : entry.1.host ≡ lab.switch.host
  pub port : (is_serial entry.1.transport && not (given entry.1.serial_port)) ≡ false
  pub secret : (given entry.1.password || given entry.1.password_env) ≡ true

checked_device :
    (d checked : DeviceDefinition)
    → check_transport_fields d ≡ ok checked
    → (checked ≡ d)
      × ((is_serial d.transport && not (given d.serial_port)) ≡ false)
      × ((given d.password || given d.password_env) ≡ true)
unfolding check_transport_fields
checked_device d checked h = ground arith

module _ (lab : LabConfig) where
  usable :
      (role : String) (account : LabAccount) (t : TransportType) (d : DeviceDefinition)
      → check_transport_fields (account_device lab role account t) ≡ ok d
      → IsUsable lab (role, d)
  usable role account t d h =
      let (same, port, secret) = checked_device (account_device lab role account t) d h in
      subst (λ d. IsUsable lab (role, d)) (sym same)
        (record { name = refl; host = refl; port = port; secret = secret })

  abbrev Usable : List (String × DeviceDefinition) → Type 0
  Usable entries = All (IsUsable lab) entries

  added :
      (role : String) (c : Result DeviceDefinition) (r : Result (List (String × DeviceDefinition)))
      (known : List (String × DeviceDefinition))
      → ((d : DeviceDefinition) → c ≡ ok d → IsUsable lab (role, d))
      → ((rest : List (String × DeviceDefinition)) → r ≡ ok rest → Usable rest)
      → add_device role c r ≡ ok known
      → Usable known
  added role (ok d) (ok rest) known hd hr h = subst Usable (ok_inj h) (hd d refl, hr rest refl)
  added role (ok d) (raised e) known hd hr h = cc h
  added role (raised e) r known hd hr h = cc h

  entry :
      (role : String) (account : LabAccount) (o : Option TransportType)
      (r : Result (List (String × DeviceDefinition))) (known : List (String × DeviceDefinition))
      → ((rest : List (String × DeviceDefinition)) → r ≡ ok rest → Usable rest)
      → elim o [
        | none ↦ r
        | some t ↦ add_device role (check_transport_fields (account_device lab role account t)) r
      ]
        ≡ ok known
      → Usable known
  entry role account none r known hr h = hr known h
  entry role account (some t) r known hr h = added role _ r known (usable role account t) hr h

  devices_from-Usable :
      (accounts : List (String × LabAccount)) (known : List (String × DeviceDefinition))
      → devices_from lab accounts ≡ ok known
      → Usable known
  unfolding devices_from
  devices_from-Usable [] known h = subst Usable (ok_inj h) tt
  devices_from-Usable ((role, account) ∷ accounts) known h =
      entry role account account.transport _ known (devices_from-Usable accounts) h

  -- Every device of a lab file that loads is usable: it is found under the role that it is named after,
  -- has the switch's host, has a serial port if it is a serial one, and has a password or the name of
  -- the variable that holds it.
  pub devices-IsUsable :
      (known : List (String × DeviceDefinition)) → devices lab ≡ ok known → All (IsUsable lab) known
  unfolding devices
  devices-IsUsable known h = devices_from-Usable lab.accounts known h
