-- ===== src/Aos/Sends.antt =====
-- How often the AOS driver (src/switchtest/drivers/aos.py) sends a command.
use omniswitch_ci_cd.Prelude.{
  ℕ, ◌+◌, ◌≤◌, String, Bool, true, false, not, ◌||◌, Option, some, none, List, arith, if◌then◌else◌,
}
use omniswitch_ci_cd.Prelude.Text.{truthy}
use omniswitch_ci_cd.Exec.{Result, ok, raised, Exec, pure, raise, gets, continue, ◌>>=◌}
use omniswitch_ci_cd.Domain.Runtime.{DeviceDefinition}
use omniswitch_ci_cd.Aos.Output.{is_repeatable, clean_show_output}
use omniswitch_ci_cd.Aos.Wire.{Transport, Wire, AosState, on_wire}
use omniswitch_ci_cd.Aos.Driver.{
  connected, current_transport, send, ask_again, repeat_if, run_show_with_reauth, aos_run_show,
}

-- `sent w` counts the commands that were sent: a call of a transport sends one, also if it raises, and sleeping none.
pub record IsCounter {W : Type 0} (wire : Wire W) (sent : W → ℕ) : Type 0 where
  pub command_counts :
      (t : Transport) (command : String) (timeout : ℕ) (w : W)
      → sent (wire.send_command t command timeout w).1 ≤ sent w + 1
  pub interactive_counts :
      (t : Transport) (events : List (String × String × Bool)) (timeout : ℕ) (w : W)
      → sent (wire.send_interactive t events timeout w).1 ≤ sent w + 1
  pub sleep_counts : (w : W) → sent (wire.short_sleep w).1 ≤ sent w

-- What `run_show` may send: a read is asked again if its answer is empty.
abbrev pub attempts : (command : String) (reauth : Bool) → ℕ
attempts command true = 1
attempts command false = if is_repeatable command then 2 else 1

module _ {W : Type 0} (sent : W → ℕ) where
  -- At most `n` commands are sent, whether the action returns or raises.
  record Sends {A : Type 0} (n : ℕ) (m : Exec (AosState W) A) : Type 0 where
    at : (s : AosState W) → sent (m s).1.world ≤ sent s.world + n

  module _ {A : Type 0} where
    Sends-pure : (a : A) → Sends 0 (pure a)
    unfolding pure
    Sends-pure a = record { at = λ s. omega arith }

    Sends-gets : (f : AosState W → A) → Sends 0 (gets f)
    unfolding gets
    Sends-gets f = record { at = λ s. omega arith }

    Sends-weaken : {j k : ℕ} (m : Exec (AosState W) A) → j ≤ k → Sends j m → Sends k m
    Sends-weaken m le sends = record { at = λ s. omega (arith, le, sends.at s) }

    Sends-wire :
        (n : ℕ) (m : Exec W A) → ((w : W) → sent (m w).1 ≤ sent w + n) → Sends n (on_wire m)
    unfolding on_wire
    Sends-wire n m counts = record { at = λ s. counts s.world }

  module _ {A B : Type 0} {j k : ℕ} where
    Sends-bind :
        (m : Exec (AosState W) A) (f : A → Exec (AosState W) B)
        → Sends j m
        → ((a : A) → Sends k (f a))
        → Sends (j + k) (m >>= f)
    unfolding ◌>>=◌
    Sends-bind m f first next = record {
      at = λ s. by_result (m s).0 (m s).1 (sent s.world) (first.at s);
    }
      where
        by_result :
            (r : Result A) (t : AosState W) (n : ℕ)
            → sent t.world ≤ n + j
            → sent (continue r f t).1.world ≤ n + (j + k)
        by_result (ok a) t n le = omega (arith, le, (next a).at t)
        by_result (raised e) t n le = omega (arith, le)

module _ {W : Type 0} (wire : Wire W) (device : DeviceDefinition) (sent : W → ℕ)
    (counter : IsCounter wire sent) where
  connected-Sends : (o : Option Transport) → Sends sent 0 (connected wire device o)
  unfolding raise
  connected-Sends none = record { at = λ s. omega arith }
  connected-Sends (some t) = Sends-pure sent t

  current-Sends : Sends sent 0 (current_transport wire device)
  unfolding current_transport
  current-Sends = Sends-bind sent _ _ (Sends-gets sent _) λ o. connected-Sends o

  send-Sends : (command : String) (timeout : ℕ) → Sends sent 1 (send wire device command timeout)
  unfolding send
  send-Sends command timeout =
      Sends-bind sent _ _ current-Sends
        λ t. Sends-wire sent 1 _ (counter.command_counts t command timeout)

  sleep-Sends : Sends sent 0 (on_wire wire.short_sleep)
  sleep-Sends = Sends-wire sent 0 _ λ w. omega (arith, counter.sleep_counts w)

  ask_again-Sends :
      (command : String) (timeout : ℕ) → Sends sent 1 (ask_again wire device command timeout)
  ask_again-Sends command timeout =
      Sends-bind sent _ _ sleep-Sends
        λ _. Sends-bind sent _ _ (send-Sends command timeout) λ output. Sends-pure sent _

  either-Sends :
      {A : Type 0} (enough again : Bool) (m n : Exec (AosState W) A)
      → Sends sent 0 m
      → Sends sent 1 n
      → Sends sent (if again then 1 else 0) (if enough || not again then m else n)
  either-Sends true true m n hm hn = Sends-weaken sent m (omega arith) hm
  either-Sends true false m n hm hn = hm
  either-Sends false true m n hm hn = hn
  either-Sends false false m n hm hn = hm

  repeat-Sends :
      (cleaned command : String) (timeout : ℕ)
      → Sends sent
          (if is_repeatable command then 1 else 0)
          (repeat_if wire device cleaned command timeout)
  repeat-Sends cleaned command timeout =
      either-Sends (truthy cleaned) (is_repeatable command) _ _ (Sends-pure sent cleaned)
        (ask_again-Sends command timeout)

  one_more : (again : Bool) → 1 + (if again then 1 else 0) ≤ (if again then 2 else 1)
  one_more true = omega arith
  one_more false = omega arith

  run_show-Sends :
      (command : String) (timeout : ℕ) (reauth : Bool)
      → Sends sent (attempts command reauth) (aos_run_show wire device command timeout reauth)
  unfolding aos_run_show run_show_with_reauth
  run_show-Sends command timeout true = Sends-bind sent _ _ current-Sends λ t.
      Sends-bind sent _ _ (Sends-wire sent 1 _ (counter.interactive_counts t _ timeout))
        λ output. Sends-pure sent _
  run_show-Sends command timeout false = Sends-weaken sent _ (one_more (is_repeatable command)) (
      Sends-bind sent _ _ (send-Sends command timeout)
        λ output. repeat-Sends (clean_show_output wire.re_search output command) command timeout)

  -- `run_show` sends a command that is not a read at most once, whatever comes back, and a read at most twice; with a
  -- password to confirm it, any command at most once. This holds also if a call raises, and without a transport.
  pub aos_run_show-attempts :
      (command : String) (timeout : ℕ) (reauth : Bool) (s : AosState W)
      → sent (aos_run_show wire device command timeout reauth s).1.world
        ≤ sent s.world + attempts command reauth
  aos_run_show-attempts command timeout reauth = (run_show-Sends command timeout reauth).at
