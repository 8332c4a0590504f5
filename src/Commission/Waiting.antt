-- ===== src/Commission/Waiting.antt =====
-- The wait of scripts/commission.py for the management interface.
use native.Mathlib.Nat
use mathlib.Core.Path.{subst}
use omniswitch_ci_cd.Prelude.{ℕ, zero, suc, ◌+◌, ◌*◌, ◌≤◌, ◌≡◌, ◌∙◌, String, true, false, arith}
use omniswitch_ci_cd.Exec.{ok}
use omniswitch_ci_cd.Exec.Triple.{Triple, Triple-pure, Triple-if, Triple-bind}
use omniswitch_ci_cd.Commission.Text.{interface_is_up}
use omniswitch_ci_cd.Commission.Stage.{SerialConsole, Outside}
use omniswitch_ci_cd.Commission.Network.{poll_interface, wait_for_interface_up}

-- `slept w`: the seconds that the script has slept. A sleep that returns has lasted its seconds, and a command sleeps none.
pub record IsSleep {W : Type 0} (outside : Outside W) (console : SerialConsole W) (slept : W → ℕ)
    : Type 0 where
  pub sleep_counts :
      (seconds : ℕ) (w : W)
      → (outside.sleep seconds w).0 ≡ ok tt
      → slept (outside.sleep seconds w).1 ≡ slept w + seconds
  pub command_sleeps_none :
      (command : String) (timeout : ℕ) (w : W)
      → slept (console.send_command command timeout w).1 ≡ slept w

module _ {W : Type 0} (outside : Outside W) (console : SerialConsole W) (slept : W → ℕ)
    (sleep : IsSleep outside console slept) (address : String) (start : ℕ) where
  -- Since `start`, `seconds` were slept.
  abbrev Slept : ℕ → W → Type 0
  Slept seconds w = slept w ≡ start + seconds

  -- What is returned is what was slept; it is within the bound, and it is the bound unless the interface is up.
  abbrev Within : ℕ → String × ℕ → W → Type 0
  Within bound (output, waited) w =
      Slept waited w
      × (waited ≤ bound)
      × (interface_is_up outside.patterns output address ≡ false → waited ≡ bound)

  look-Slept :
      (seconds : ℕ)
      → Triple (Slept seconds) (console.send_command "show ip interface" 30) (λ _. Slept seconds)
  look-Slept seconds = record {
    at = λ w so_far output h. sleep.command_sleeps_none "show ip interface" 30 w ∙ so_far;
  }

  sleep-Slept :
      (attempt delay : ℕ)
      → Triple (Slept (attempt * delay)) (outside.sleep delay) (λ _. Slept (suc attempt * delay))
  sleep-Slept attempt delay = record {
    at = λ w so_far a h.
        omega (arith, sleep.sleep_counts delay w h, so_far, Nat.suc-mul attempt delay);
  }

  last_lem :
      (attempt delay : ℕ) (output : String) (w : W)
      → Slept (attempt * delay) w
      → Within ((attempt + 0) * delay) (output, attempt * delay) w
  last_lem attempt delay output w so_far =
      (so_far, Nat.mul-le-mul_right delay (omega arith), λ h. rw (Nat.add-zero attempt))

  early_lem :
      (attempt remaining delay : ℕ) (output : String) (w : W)
      → interface_is_up outside.patterns output address ≡ true
      → Slept (attempt * delay) w
      → Within ((attempt + suc remaining) * delay) (output, attempt * delay) w
  early_lem attempt remaining delay output w up so_far =
      (so_far, Nat.mul-le-mul_right delay (omega arith), λ down. absurd (ground (arith, up, down)))

  poll-Within :
      (delay attempt remaining : ℕ)
      → Triple
          (Slept (attempt * delay))
          (poll_interface outside console address delay attempt remaining)
          (Within ((attempt + remaining) * delay))
  unfolding poll_interface
  poll-Within delay attempt zero =
      Triple-bind _ _ (look-Slept (attempt * delay))
        λ output. Triple-pure _ λ w so_far. last_lem attempt delay output w so_far
  poll-Within delay attempt (suc remaining) =
      Triple-bind _ _ (look-Slept (attempt * delay)) λ output.
        Triple-if (interface_is_up outside.patterns output address) _ _
          (λ up. Triple-pure _ λ w so_far. early_lem attempt remaining delay output w up so_far)
          (λ _. Triple-bind _ _ (sleep-Slept attempt delay) λ _.
            subst
              (λ rounds.
                Triple (Slept (suc attempt * delay))
                  (poll_interface outside console address delay (suc attempt) remaining)
                  (Within (rounds * delay)))
              (omega arith) (poll-Within delay (suc attempt) remaining))

module _ {W : Type 0} (outside : Outside W) (console : SerialConsole W) (slept : W → ℕ)
    (sleep : IsSleep outside console slept) (address : String) where
  -- The number of seconds that the wait returns is that of the seconds that it has slept between its looks at the interface:
  -- at most 55, and less only with an interface that is up. The time of the commands themselves is not in it.
  pub wait_for_interface_up-Within :
      (w : W) (output : String) (waited : ℕ)
      → (wait_for_interface_up outside console address w).0 ≡ ok (output, waited)
      → (slept (wait_for_interface_up outside console address w).1 ≡ slept w + waited)
        × (waited ≤ 55)
        × (interface_is_up outside.patterns output address ≡ false → waited ≡ 55)
  unfolding wait_for_interface_up
  wait_for_interface_up-Within w output waited h =
      (poll-Within outside console slept sleep address (slept w) 5 0 11).at w (omega arith)
        (output, waited) h
