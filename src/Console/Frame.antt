-- ===== src/Console/Frame.antt =====
-- What the loops of src/switchtest/infrastructure/console/client.py keep: whatever the clock, a write and a read keep.
use omniswitch_ci_cd.Prelude.{ℕ, zero, suc, ◌+◌, ◌*◌, String, ◌<>◌, Bool}
use omniswitch_ci_cd.Exec.{Exec, pure}
use omniswitch_ci_cd.Exec.Laws.{Keeps, Keeps-bind, Keeps-pure, Keeps-if, Keeps-raise}
use omniswitch_ci_cd.Console.Port.{
  Serial, ConsoleSettings, ConsoleState, on_port, write_raw, write_line, read_chunk, answer_pager,
  Round, found, again, read_round, logout_round, read_loop, read_for, read_until, logout,
}

module _ {W : Type 0} (serial : Serial W) (settings : ConsoleSettings) (P : ConsoleState W → Type 0)
    (ticking : Keeps P (on_port serial.monotonic))
    (writing : (text : String) → Keeps P (write_raw serial settings text))
    (reading : Keeps P (read_chunk serial settings)) where
  pub write_line-Keeps : (text : String) → Keeps P (write_line serial settings text)
  unfolding write_line
  write_line-Keeps text = writing _

  pager-Keeps : (buffer : String) → Keeps P (answer_pager serial settings buffer)
  unfolding answer_pager
  pager-Keeps buffer =
      Keeps-if _ _ _ (Keeps-bind _ _ (writing " ") λ _. Keeps-pure _) (Keeps-pure _)

  read_round-Keeps :
      (matcher : String → Bool) (buffer : String)
      → Keeps P (read_round serial settings matcher buffer)
  unfolding read_round
  read_round-Keeps matcher buffer = Keeps-bind _ _ reading λ chunk.
      Keeps-if _ _ _ (Keeps-bind _ _ (pager-Keeps (buffer <> chunk)) λ kept. Keeps-pure _)
        (Keeps-pure _)

  logout_round-Keeps : (buffer : String) → Keeps P (logout_round serial settings buffer)
  unfolding logout_round
  logout_round-Keeps buffer = Keeps-bind _ _ reading λ chunk.
      Keeps-if _ _ _
        (Keeps-bind _ _ (pager-Keeps (buffer <> chunk)) λ kept.
          Keeps-if _ _ _ (Keeps-bind _ _ (write_line-Keeps "y") λ _. Keeps-pure _) (Keeps-pure _))
        (Keeps-pure _)

  module _ (round : String → Exec (ConsoleState W) Round)
      (give_up : String → Exec (ConsoleState W) String)
      (rounds : (buffer : String) → Keeps P (round buffer))
      (gives_up : (buffer : String) → Keeps P (give_up buffer)) where
    loop-Keeps :
        (fuel deadline : ℕ) (buffer : String)
        → Keeps P (read_loop serial settings fuel deadline round give_up buffer)
    unfolding read_loop
    loop-Keeps zero deadline buffer = gives_up buffer
    loop-Keeps (suc fuel) deadline buffer = Keeps-bind _ _ ticking λ now.
        Keeps-if _ _ _ (Keeps-bind _ _ (rounds buffer) (next (loop-Keeps fuel deadline)))
          (gives_up buffer)
      where
        next :
            ((longer : String)
              → Keeps P (read_loop serial settings fuel deadline round give_up longer))
            → (outcome : Round)
            → Keeps P (elim outcome [
              | found text ↦ pure text
              | again longer ↦ read_loop serial settings fuel deadline round give_up longer
            ])
        next rest (found text) = Keeps-pure _
        next rest (again longer) = rest longer

    read_for-Keeps : (timeout : ℕ) → Keeps P (read_for serial settings timeout round give_up)
    unfolding read_for
    read_for-Keeps timeout =
        Keeps-bind _ _ ticking
          λ now. loop-Keeps (suc (timeout * serial.ticks)) (now + timeout * serial.ticks) ""

  pub read_until-Keeps :
      (matcher : String → Bool) (timeout : ℕ) (expecting : String)
      → Keeps P (read_until serial settings matcher timeout expecting)
  unfolding read_until
  read_until-Keeps matcher timeout expecting =
      read_for-Keeps _ _ (read_round-Keeps matcher) (λ buffer. Keeps-raise _ _) timeout

  pub logout-Keeps : (timeout : ℕ) (stale : Bool) → Keeps P (logout serial settings timeout stale)
  unfolding logout
  logout-Keeps timeout stale =
      Keeps-bind _ _ (write_line-Keeps "exit")
        λ _. read_for-Keeps _ _ logout_round-Keeps (λ buffer. Keeps-raise _ _) timeout
