-- ===== src/Commission/Ends.antt =====
-- scripts/commission.py ends without an open serial port.
use omniswitch_ci_cd.Prelude.{ℕ, String, ◌≡◌, refl, Option, none, some, List, []}
use omniswitch_ci_cd.Errors.{Exception}
use omniswitch_ci_cd.Exec.{Result, ok, raised, Exec, continue, try_finally, ◌>>=◌}
use omniswitch_ci_cd.Exec.Laws.{
  Keeps, Keeps-bind, Keeps-pure, Keeps-throw, Keeps-gets, Keeps-if, Keeps-try_except, Reaches,
  Reaches-bind, Reaches-try_finally,
}
use omniswitch_ci_cd.Domain.Lab.{LabConfig}
use omniswitch_ci_cd.Commission.Stage.{CommissionArguments, Report, Outside}
use omniswitch_ci_cd.Commission.Run.{
  CommissionState, in_world, write_report, try_stages, finish, exit_of, run_planned, start_stages,
  with_lab, try_load, commission_main,
}

-- `Closed w`: the serial port is closed. `close` leaves it closed also if it raises, and so does an `open_port_only` that
-- raises. The clock, the loader and the writing of the report do not touch it. Nothing is asked of any other call.
pub record IsPort {W : Type 0} (outside : Outside W) (Closed : W → Type 0) : Type 0 where
  pub close_closes : (lab : LabConfig) (w : W) → Closed ((outside.open_console lab).close w).1
  pub open_raises :
      (lab : LabConfig) (w : W) (e : Exception)
      → Closed w
      → ((outside.open_console lab).open_port_only w).0 ≡ raised e
      → Closed ((outside.open_console lab).open_port_only w).1
  pub clock_keeps : Keeps Closed outside.utcnow
  pub load_keeps : (path : String) → Keeps Closed (outside.load_lab path)
  pub write_keeps :
      (path : String) (report : Report) → Keeps Closed (outside.write_json path report)

module _ {W : Type 0} (outside : Outside W) (Closed : W → Type 0)
    (port : IsPort outside Closed) where
  abbrev Shut : CommissionState W → Type 0
  Shut s = Closed s.world

  in_world-Keeps : {A : Type 0} (m : Exec W A) → Keeps Closed m → Keeps Shut (in_world m)
  unfolding in_world
  in_world-Keeps m kept = record { at = λ s. kept.at s.world }

  module _ (arguments : CommissionArguments) (lab : LabConfig) where
    report-Keeps : (started : String) → Keeps Shut (write_report outside arguments lab started)
    unfolding write_report
    report-Keeps started =
        Keeps-bind _ _ (in_world-Keeps _ port.clock_keeps)
          λ ended. Keeps-bind _ _ (Keeps-gets _) λ stages. in_world-Keeps _ (port.write_keeps _ _)

    -- Whatever ran before, the `finally` part shuts the port.
    finish-Shut : (started : String) → Reaches Shut (finish outside arguments lab started)
    unfolding in_world
    finish-Shut started =
        Reaches-bind _ _ (record { at = λ s. port.close_closes lab s.world })
          λ _. report-Keeps started

    exit_of-Keeps : (early : Option ℕ) → Keeps Shut (exit_of outside arguments lab early)
    exit_of-Keeps (some early) = Keeps-pure _
    exit_of-Keeps none = Keeps-gets _

    body-Shut :
        (planned : List String) (started : String)
        → Reaches Shut (
            try_finally
              (try_stages outside arguments lab planned)
              (finish outside arguments lab started)
            >>= exit_of outside arguments lab)
    body-Shut planned started =
        Reaches-bind _ _ (Reaches-try_finally _ _ (finish-Shut started)) exit_of-Keeps

    -- If the port does not open, nothing is left open; if it does, the `finally` part follows.
    open_lem :
        {A : Type 0} (next : Exec (CommissionState W) A) (s : CommissionState W)
        → Reaches Shut next
        → (r : Result Unit) → ((outside.open_console lab).open_port_only s.world).0 ≡ r
        → Shut s
        → Shut
            (continue r
              (λ _. next)
              (record s { world = ((outside.open_console lab).open_port_only s.world).1 })).1
    open_lem next s reached (ok _) h shut = reached.at _
    open_lem next s reached (raised e) h shut = port.open_raises lab s.world e shut h

    run_planned-Keeps :
        (planned : List String) (started : String)
        → Keeps Shut (run_planned outside arguments lab planned started)
    unfolding run_planned ◌>>=◌ in_world
    run_planned-Keeps planned started = record {
      at = λ s. open_lem _ s (body-Shut planned started) _ refl;
    }

  start-Keeps :
      {A : Type 0} (m : Exec (CommissionState W) A)
      → Keeps Shut m
      → Keeps Closed (start_stages outside m)
  unfolding start_stages
  start-Keeps m kept = record { at = λ w. kept.at (record { stages = []; world = w }) }

  with_lab-Keeps :
      (arguments : CommissionArguments) (lab : Option LabConfig)
      → Keeps Closed (with_lab outside arguments lab)
  with_lab-Keeps arguments none = Keeps-pure _
  with_lab-Keeps arguments (some lab) =
      Keeps-bind _ _ port.clock_keeps
        λ started. start-Keeps _ (run_planned-Keeps arguments lab _ started)

  load-Keeps : (path : String) → Keeps Closed (try_load outside path)
  load-Keeps path =
      Keeps-try_except _ _ (Keeps-bind _ _ (port.load_keeps path) λ lab. Keeps-pure _)
        λ e. Keeps-if _ _ _ (Keeps-pure _) (Keeps-throw _)

  -- A run of the script that starts with the serial port closed ends with it closed: with every stage, with a stage that
  -- fails or raises, without a login, and if the port does not open at all.
  pub commission_main-closes :
      (arguments : CommissionArguments) (w : W)
      → Closed w
      → Closed (commission_main outside arguments w).1
  unfolding commission_main
  commission_main-closes arguments w closed =
      (Keeps-if arguments.list_stages _ _ (Keeps-pure _)
          (Keeps-bind _ _ (load-Keeps arguments.lab) (with_lab-Keeps arguments))).at
        w closed
