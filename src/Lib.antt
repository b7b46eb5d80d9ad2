-- ===== src/Lib.antt =====
-- The crate `relentless`: retries of a sync or an async operation.
--
-- Parts of the program, and the files that model them (paths from the repository's root):
--   src/engine/step.rs          Engine/Step      `step`, the decision after an attempt
--   src/engine/mod.rs           Engine/Sync      the blocking loop; Builder holds the setters
--   src/engine/async_engine.rs  Engine/Async     the polled state machine; Builder holds the setters
--   src/engine/{hooks,state,stats,error,op}.rs
--                               Engine/{Hooks,State,Stats,Error,Op}
--   src/decision.rs             Decision         verdicts and classifiers
--   src/predicate/mod.rs        Predicate        what `when` and `until` ask
--   src/stop/                   Stop             when to give up
--   src/wait/                   Wait             Strategies, Composition, Jitter and Math
--   src/clock.rs                Clock            the traits and their contract; Virtual, System,
--                                                Adapters for the runtimes
--   src/policy/mod.rs           Policy           reusable configuration
--   src/state.rs                State            what the strategies are asked with
--   examples/                   Examples         the eight programs that use the crate, a module each
-- An engine calls the operation, hands the outcome to `step`, which calls the hooks, the
-- classifier and the strategies, and then sleeps by its clock or ends. What the engines may rely on
-- in a clock is the record in Clock/Contract. The programs of examples/ configure the builders and call
-- them. Tests runs the engines on a virtual clock, and Tests/Units has the unit tests of
-- the two engines and of step, each under its name.
--
-- State. Closures, strategies, operations and clocks may hold cells (`&mut`, `Cell`, atomics), and
-- may share them: each call takes the whole world and returns it (`M World A` is
-- `World → A × World`, in Prelude/Effect). So the order of calls shows in every equation. A trait is
-- its one required method, or a record of them. A generic parameter of a Rust type that only says
-- which strategy, hook or clock stands in a field is that field.
--
-- Spelling. `Return` is `accept`, `Continue` of a step is `again`; a setter `stop` of a builder is
-- `with_stop`, and so on. A `Duration` is its number of nanoseconds, with the saturation written
-- out; a `u32` or `u64` is a number with its wrap-around or saturation written out. `none` stands
-- for a panic where a comment says so.
--
-- Fuel. The source's loops have no bound. `run` takes fuel for the rounds of its loop, and gives
-- `none` when it runs out. Fuel `n` is enough for a stop strategy that stops at the `n`th attempt at
-- the latest, since a round that goes on is an attempt before that one. A timeout on a coherent clock
-- bounds the rounds too, where the waits are not 0, since each of them uses up some of it. `poll`
-- takes fuel for the turns within one poll, and `block_on` a number of polls as well: an attempt
-- takes three turns at most, so that `3 * n + 4` is enough for one poll, and one poll more for each
-- time a future is pending. The powers of the exponential wait recurse on accessibility and need no
-- fuel.
--
-- Parameters. `f64` is a parameter (Float) with the documented behaviour of binary64 on scaled
-- powers of two; Float/Whole is an instance on whole numbers. The futures of an operation and of
-- a clock are their `poll` functions. The platform's monotonic clock and sleep (Clock/System) and the
-- instants and timers of the runtimes (Clock/Adapters) are parameters; Tests/Clocks has instances. Of
-- the programs of examples/, `eprintln!` and the `Display` of a `u32` are parameters too.
--
-- Proofs. They stand in modules below the component they are about: Laws, and under Engine/Step
-- Log (what the hooks see of a step), under Engine/Sync Spec (the abstract specification of the
-- loop, with Refinement, Stateless and Answers below it), Timeline (the specification with times,
-- waits and timeouts, on a virtual clock and with operations that take time; Step, Round and Run
-- below it show that the loop follows it, First and Clamped say what it comes to), Calls (which
-- calls a run makes, in order), Rules and Rounds (reasoning about the loop), Outcome, Frame,
-- Events, Waits, Deadline, Elapsed, Expiry, Endless, Failing, Failure, Shapes, Registration and
-- Defaults, under Engine/Async Reaches (executions over many polls), Parity, Converse,
-- Spec, Timeline, Logged and Events, Fuel, Panics, Eager, Wakers, Fused and
-- Baseline, under Engine/Error Texts, under Wait/Jitter Bounds, Seeds, Mixing and Distinct, under
-- Wait/Strategies Linear and Exponential, and under Clock/Adapters/Embassy Waits. Prelude/Bits
-- has the laws of `^` on words. Under Examples, Plain has what the programs without a timeout
-- share, Script the scripted operation of two of them, and the modules below a program (Calls,
-- Cancelled, Deadline, Budget, Schedule, Ready, Undisturbed) say what it comes to.
--
-- Not modelled: the `Debug` impls; the `Default` impls, which are `new`; the instants and timers of
-- the platform and of the Tokio, Embassy, futures-timer and Gloo runtimes, which are other code;
-- wakers, beyond which inner future was polled last; what a drop does beyond that no later poll comes;
-- the re-exports in src/lib.rs and src/compat.rs; of examples/, what the `main`s print and assert, and
-- Tokio's `timeout`, `select!`, token and channel; tests/, benches/ and the unit tests of
-- the other files of src/, which use the crate on fixed inputs.
pub mod Prelude
pub mod Duration
pub mod Float
pub mod State
pub mod Predicate
pub mod Decision
pub mod Stop
pub mod Wait
pub mod Clock
pub mod Engine
pub mod Policy
pub mod Examples
pub mod Tests
