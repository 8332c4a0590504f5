-- ===== src/Lib.antt =====
-- A verification library for switchtest, the framework in src/switchtest that runs declarative
-- testcases against network switches, and for the scripts that set up a switch and run all of its
-- checks.
--
-- A run goes through these parts. `run_application` (src/switchtest/app.py) loads the lab file,
-- picks a device and loads a suite, and turns what happens into an exit code. `run_suite`
-- (src/switchtest/orchestrator.py) opens the session, runs the selected tests in order, restores
-- the baseline and writes the reports. `run_test` (src/switchtest/services/execution_service.py)
-- runs the setup steps, the validations and the cleanup of one testcase, and keeps the safety state
-- of the device. `run_validation` (src/switchtest/services/validation_service.py) performs one
-- validation through the driver (src/switchtest/drivers/base.py) or through a probe of
-- src/switchtest/infrastructure.
--
-- Each part has its module: `Domain` the data of src/switchtest/domain, `Errors` the exceptions and
-- exit codes, `Driver` the interface of a driver, `Snmp` the requests of infrastructure/snmp.py,
-- `Validation` the handlers, `Execution` the testcase, `Orchestrator` the suite, `App` the run,
-- `Aos` the driver of drivers/aos.py with its functions on what a switch prints, `Reporting` the
-- JUnit tree and the summary of infrastructure/reporting, `Console` the serial console of
-- infrastructure/console/client.py, `Secfunc` scripts/run_secfunc.py and `Commission`
-- scripts/commission.py. `Prelude` has the shared names and the string functions, `Exec` the
-- statements that change a state and may raise, with `Exec.Laws` for what an action keeps and
-- `Exec.Triple` for what holds where it returns. `Tests` has benches on which every theorem is
-- applied.
--
-- The scripts stand beside the framework. `main` of scripts/run_secfunc.py makes the accounts
-- that the lab file provisions, runs the steps of its phases as processes, switchtest itself
-- among them, and removes the accounts. `main` of scripts/commission.py opens the serial console
-- of a factory-reset switch and runs its stages, from the first login to saving the
-- configuration, until one of them fails; `Commission.Client` gives it the client of `Console`,
-- of which `Transport` has the state and what its methods keep.
--
-- The code mutates objects and raises exceptions. An action is a function from a state to a
-- result, a value or an exception, and the state behind it; the state survives an exception, as
-- the objects do. `try` with `except` and `try` with `finally` are functions on actions. Each
-- service has a record for what it mutates: `Session` in `Execution.Steps` for `run_test`,
-- `SuiteState` in `Orchestrator.Services` for `run_suite`, `TrapState` in `Validation.Trap` for
-- the wait for a trap, `AosState` in `Aos.Wire` for the driver's transport, `ConsoleState` in
-- `Console.Port` for the connection of the console, `CommissionState` in `Commission.Run` for
-- the list of stages, `ObserverState` in `Snmp.Exchange` for the observer of SNMP requests.
-- Functions keep the names of the source; the methods of the AOS driver that share their name
-- with the interface are prefixed with `aos_`. All that lies outside the process is one type
-- `W`, of which nothing is known: the driver, the probes, the clock, `time.sleep`, the
-- environment, the loaders, the report writers and `re.search` for patterns of a testcase are
-- parameters over it, fields of the records `BaseSwitchDriver`, `Probes`, `Services`,
-- `Platform`, `Loading`, `Wire`, `Serial`, `Runner`, `Outside`, `SerialConsole` and `Pysnmp`.
-- What a theorem relies on of them stands in its hypotheses, such as `IsAgent` for an SNMP
-- agent.
--
-- Loops are over lists or over a number of attempts, so that they are structural recursion, but for
-- the two loops of the console that read until a deadline: their fuel is the timeout in ticks of
-- the clock and one round more, which is enough because a read takes at least a tick
-- (`Console.Fuel`). Strings are the native ones; the regular expressions of `Snmp` and `Execution`
-- are functions by clauses on code points, and those of `Aos`, `Console` and `Commission` are
-- passed to parameters. Numbers are natural numbers, and a duration is an integer.
--
-- Not modelled: what is printed for the user, which nothing reads; the parsing of files and of
-- arguments by pydantic, YAML and argparse; the SSH transport, the probes and the loaders
-- themselves, and the small scripts.
pub mod Prelude
pub mod Errors
pub mod Exec
pub mod Domain
pub mod Driver
pub mod Snmp
pub mod Validation
pub mod Execution
pub mod Orchestrator
pub mod App
pub mod Aos
pub mod Reporting
pub mod Secfunc
pub mod Commission
pub mod Console
pub mod Tests
