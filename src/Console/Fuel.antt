-- ===== src/Console/Fuel.antt =====
-- The loops of src/switchtest/infrastructure/console/client.py end: the fuel that they are given is never used up.
use omniswitch_ci_cd.Prelude.{
  ℕ, zero, suc, ◌+◌, ◌*◌, ◌≤◌, ◌<◌, String, ◌<>◌, ◌≡◌, ◌≢◌, refl, Bool, true, false, ltb, arith,
  if◌then◌else◌,
}
use omniswitch_ci_cd.Prelude.Text.{truthy}
use omniswitch_ci_cd.Errors.{ErrorKind, Exception}
use omniswitch_ci_cd.Exec.{Result, ok, raised, Exec, pure, raise, throw, continue, ◌>>=◌}
use omniswitch_ci_cd.Exec.Laws.{
  Keeps, Keeps-bind, Keeps-pure, Keeps-if, Keeps-raise, Keeps-throw, Keeps-gets, Keeps-try_except,
}
use omniswitch_ci_cd.Exec.Triple.{
  Triple, Triple-pure, Triple-if, Triple-bind, Triple-Keeps, Triple-try_raise,
}
use omniswitch_ci_cd.Console.Port.{
  Serial, ConsoleSettings, ConsoleState, on_port, require_connection, convert, write_raw,
  write_line, read_chunk, answer_pager, timed_out, Round, found, again, read_round, logout_round,
  read_loop, read_for, read_until,
}

-- `time w` is what the clock shows. A read takes at least a tick, and no other call turns the clock back.
pub record IsClock {W : Type 0} (serial : Serial W) (time : W → ℕ) : Type 0 where
  pub shows : (w : W) → (serial.monotonic w).0 ≡ ok (time w)
  pub monotonic_keeps : (n : ℕ) → Keeps (λ w. n ≤ time w) serial.monotonic
  pub write_keeps : (n : ℕ) (text : String) → Keeps (λ w. n ≤ time w) (serial.write text)
  pub flush_keeps : (n : ℕ) → Keeps (λ w. n ≤ time w) serial.flush
  pub read_moves : (w : W) → time w < time (serial.read w).1

module _ {W : Type 0} (serial : Serial W) (settings : ConsoleSettings) where
  -- The loop of `_read_until` and that of `_logout` with any fuel, from the reading of the clock on.
  abbrev pub read_with :
      (fuel timeout : ℕ) (round : String → Exec (ConsoleState W) Round)
      (give_up : String → Exec (ConsoleState W) String)
      → Exec (ConsoleState W) String
  read_with fuel timeout round give_up = do
    now ← on_port serial.monotonic
    read_loop serial settings fuel (now + timeout * serial.ticks) round give_up ""

module _ {W : Type 0} (serial : Serial W) (settings : ConsoleSettings) (time : W → ℕ)
    (clock : IsClock serial time) where
  -- The clock shows at least `n`.
  abbrev Since : ℕ → ConsoleState W → Type 0
  Since n s = n ≤ time s.world

  port-Keeps :
      {A : Type 0} (n : ℕ) (m : Exec W A) → Keeps (λ w. n ≤ time w) m → Keeps (Since n) (on_port m)
  unfolding on_port
  port-Keeps n m kept = record { at = λ s. kept.at s.world }

  require-Keeps : (n : ℕ) → Keeps (Since n) (require_connection {W = W})
  unfolding require_connection
  require-Keeps n =
      Keeps-bind _ _ (Keeps-gets _) λ b. Keeps-if b _ _ (Keeps-pure _) (Keeps-raise _ _)

  convert-Keeps :
      {A : Type 0} (n : ℕ) (message : String) (e : Exception)
      → Keeps (Since n) (convert serial settings {A = A} message e)
  convert-Keeps n message e = Keeps-if _ _ _ (Keeps-raise _ _) (Keeps-throw _)

  write-Keeps : (n : ℕ) (text : String) → Keeps (Since n) (write_raw serial settings text)
  unfolding write_raw
  write-Keeps n text = Keeps-bind _ _ (require-Keeps n) λ _.
      Keeps-try_except _ _
        (Keeps-bind _ _ (port-Keeps n _ (clock.write_keeps n text))
          λ _. port-Keeps n _ (clock.flush_keeps n))
        (convert-Keeps n _)

  pager-Keeps : (n : ℕ) (buffer : String) → Keeps (Since n) (answer_pager serial settings buffer)
  unfolding answer_pager
  pager-Keeps n buffer =
      Keeps-if _ _ _ (Keeps-bind _ _ (write-Keeps n " ") λ _. Keeps-pure _) (Keeps-pure _)

  never_ok :
      {A : Type 0} (message : String) (e : Exception) (s : ConsoleState W) (a : A)
      → (convert serial settings message e s).0 ≢ ok a
  unfolding raise throw
  never_ok message e s a = by (serial.is_serial_error e)
    where
      by :
          (b : Bool)
          → ((if b
                then raise ErrorKind.connection (message <> (" failed: " <> e.message))
                else throw e)
              s).0
            ≢ ok a
      by true = λ h. cc
      by false = λ h. cc

  -- A chunk is read later than `n`.
  chunk-moves : (n : ℕ) → Triple (Since n) (read_chunk serial settings) (λ _. Since (suc n))
  unfolding read_chunk on_port
  chunk-moves n = Triple-bind _ _ (Triple-Keeps _ (require-Keeps n) λ _ s p. p) λ _.
      Triple-bind _ _ (Triple-try_raise _ _ read_lem (never_ok _)) λ chunk. Triple-pure _ λ s p. p
    where
      read_lem : Triple (Since n) (on_port serial.read) (λ _. Since (suc n))
      read_lem = record { at = λ s since text h. omega (arith, since, clock.read_moves s.world) }

  -- A round takes at least a tick.
  abbrev Moves : (String → Exec (ConsoleState W) Round) → Type 0
  Moves round = (n : ℕ) (buffer : String) → Triple (Since n) (round buffer) (λ _. Since (suc n))

  read_round-Moves : (matcher : String → Bool) → Moves (read_round serial settings matcher)
  unfolding read_round
  read_round-Moves matcher n buffer = Triple-bind _ _ (chunk-moves n) λ chunk.
      Triple-if (truthy chunk) _ _
        (λ _.
          Triple-Keeps _
            (Keeps-bind _ _ (pager-Keeps (suc n) (buffer <> chunk)) λ kept. Keeps-pure _)
            λ _ s p. p)
        (λ _. Triple-pure _ λ s p. p)

  logout_round-Moves : Moves (logout_round serial settings)
  unfolding logout_round write_line
  logout_round-Moves n buffer = Triple-bind _ _ (chunk-moves n) λ chunk.
      Triple-if (truthy chunk) _ _
        (λ _.
          Triple-Keeps _
            (Keeps-bind _ _ (pager-Keeps (suc n) (buffer <> chunk)) λ kept.
              Keeps-if _ _ _ (Keeps-bind _ _ (write-Keeps (suc n) _) λ _. Keeps-pure _)
                (Keeps-pure _))
            λ _ s p. p)
        (λ _. Triple-pure _ λ s p. p)

  module _ (deadline : ℕ) (round : String → Exec (ConsoleState W) Round)
      (give_up : String → Exec (ConsoleState W) String) (moves : Moves round) where
    abbrev loop : ℕ → String → Exec (ConsoleState W) String
    loop fuel = read_loop serial settings fuel deadline round give_up

    abbrev next : (fuel : ℕ) → Round → Exec (ConsoleState W) String
    next fuel (found text) = pure text
    next fuel (again longer) = loop fuel longer

    -- Behind a round, more fuel for the rest does not matter if it does not matter from later on.
    after_round :
        (r : Result Round) (s : ConsoleState W) (fuel more n : ℕ)
        → ((a : Round) → r ≡ ok a → Since n s)
        → ((longer : String) → Since n s → loop more longer s ≡ loop fuel longer s)
        → continue r (next more) s ≡ continue r (next fuel) s
    after_round (raised e) s fuel more n since same = refl
    after_round (ok (found text)) s fuel more n since same = refl
    after_round (ok (again longer)) s fuel more n since same = same longer (since _ refl)

    -- One round, once the clock was read.
    round-enough :
        (fuel more t : ℕ) (buffer : String) (v : ConsoleState W) (b : Bool)
        → t ≤ time v.world
        → deadline ≤ t + suc fuel
        → ((longer : String) (s : ConsoleState W)
            → deadline ≤ time s.world + fuel
            → loop more longer s ≡ loop (suc fuel) longer s)
        → (if b then (round buffer >>= next more) else give_up buffer) v
          ≡ (if b then (round buffer >>= next (suc fuel)) else give_up buffer) v
    unfolding ◌>>=◌
    round-enough fuel more t buffer v true late le same =
        after_round (round buffer v).0 (round buffer v).1 (suc fuel) more (suc t)
          ((moves t buffer).at v late) λ longer since. same longer _ (omega (arith, since, le))
    round-enough fuel more t buffer v false late le same = refl

    -- Fuel that lasts to the deadline is as good as any more of it.
    pub enough :
        (fuel more : ℕ) (buffer : String) (s : ConsoleState W)
        → deadline ≤ time s.world + fuel
        → fuel ≤ more
        → loop (suc more) buffer s ≡ loop (suc fuel) buffer s
    unfolding read_loop on_port ◌>>=◌
    enough zero more buffer s le less = rw (clock.shows s.world, late) refl
      where
        late : ltb (time s.world) deadline ≡ false
        late = ground (arith, le)
    enough (suc fuel) zero buffer s le less = absurd (omega (arith, less))
    enough (suc fuel) (suc more) buffer s le less = rw (clock.shows s.world) (
        round-enough fuel (suc more) (time s.world) buffer
          (record s { world = (serial.monotonic s.world).1 }) _
          ((clock.monotonic_keeps (time s.world)).at s.world (omega arith)) le
          (λ longer v lv. enough fuel more longer v lv (omega (arith, less))))

  for-enough :
      (timeout more : ℕ) (round : String → Exec (ConsoleState W) Round)
      (give_up : String → Exec (ConsoleState W) String) (s : ConsoleState W)
      → Moves round
      → timeout * serial.ticks ≤ more
      → read_with serial settings (suc more) timeout round give_up s
        ≡ read_for serial settings timeout round give_up s
  unfolding read_for on_port ◌>>=◌
  for-enough timeout more round give_up s moves le = rw (clock.shows s.world) (
      enough (time s.world + timeout * serial.ticks) round give_up moves (timeout * serial.ticks)
        more "" (record s { world = (serial.monotonic s.world).1 })
        (omega (arith, (clock.monotonic_keeps (time s.world)).at s.world (omega arith))) le)

  -- `_read_until` ends by itself: with any fuel beyond that of the model, so with as many rounds as the loop may want,
  -- the outcome and the state behind it are the same. A read is taken to last at least a tick of the clock.
  pub read_until-ends :
      (matcher : String → Bool) (timeout more : ℕ) (expecting : String) (s : ConsoleState W)
      → timeout * serial.ticks ≤ more
      → read_with serial settings
          (suc more)
          timeout
          (read_round serial settings matcher)
          (timed_out serial settings timeout expecting)
          s
        ≡ read_until serial settings matcher timeout expecting s
  unfolding read_until
  read_until-ends matcher timeout more expecting s le =
      for-enough timeout more (read_round serial settings matcher) _ s (read_round-Moves matcher) le

  -- The loop of `_logout`, which answers a question and goes on, ends by itself in the same sense.
  pub logout-ends :
      (timeout more : ℕ) (give_up : String → Exec (ConsoleState W) String) (s : ConsoleState W)
      → timeout * serial.ticks ≤ more
      → read_with serial settings (suc more) timeout (logout_round serial settings) give_up s
        ≡ read_for serial settings timeout (logout_round serial settings) give_up s
  logout-ends timeout more give_up s le =
      for-enough timeout more (logout_round serial settings) give_up s logout_round-Moves le
