-- ===== src/Worker/Loop.antt =====
-- `run_worker_once` and `run_worker` of src/pq/worker.py, on a thread where no KeyboardInterrupt
-- arrives: its handlers are installed, or it is not the main thread.
pub mod Stops
pub mod Idle
pub mod Defaults
pub mod Restored
use pq.Base.{
  ℕ, zero, suc, ltb, Bool, true, false, not, Option, none, some, List, [], ◌∷◌, Text, map,
  if◌then◌else◌,
}
use pq.Errors.{Result, ok, err, PyError, value_error, bad_drain_timeout}
use pq.Models.{Priority}
use pq.Database.{Db, Env}
use pq.Registry.{Import}
use pq.Serialization.{Codec}
use pq.Client.Schedule.{Cron}
use pq.Worker.Child.{ChildResult}
use pq.Worker.OneOff.{process_one_off_task}
use pq.Worker.Periodic.{process_periodic_task}
use pq.Worker.Shutdown.{
  ShutdownState, requested, reset, log_request, SignalTable, Previous, install_shutdown_handlers,
  restore_shutdown_handlers, handled,
}
use pq.Worker.Wait.{Poll}
use pq.Worker.Maintenance.{Tick, interruptible_sleep}
use pq.Worker.Slots.{Host}
use pq.Worker.Concurrent.{
  Loop, loop_start, Settings, Round, Flow, goes_on, and_then, signalled, slept, maintain, Ending,
  running, stopped, raised, waiting, after_turn, run_rounds,
}

-- What one call of `run_worker_once` meets: its sessions, what forking a child on a handler and
-- waiting for it comes to, and what others commit meanwhile. The child is waited for within the call:
-- the call's processes and descriptors are not followed, and a call is taken to end.
pub record Pass (c : Codec) (F : Type 0) : Type 0 where
  pub claim_env : Env
  pub fork : F → List c.Value → List (Text × c.Value) → (max_runtime : ℕ) → Result ChildResult
  pub elapsed : ℕ
  pub others : Db → Db
  pub finish_env : Env
  pub between : Db → Db
  pub periodic_env : Env
  pub periodic_others : Db → Db
  pub unlock_env : Env

-- What one turn of the loop meets. The sequential loop's own part of the round: the signals at its
-- start, those of the call (`after_events`), the chores and the sleep.
pub record Step (c : Codec) (F : Type 0) : Type 0 where
  pub pass : Pass c F
  pub round : Round

unfoldable pub handled_round : SignalTable → Round → Round
handled_round t r = record r {
  at_start = handled t r.at_start;
  before_attempt = λ i. handled t (r.before_attempt i);
  reaping = λ pid. record (r.reaping pid) {
    polls = map (λ (q : Poll). record q { arrivals = handled t q.arrivals }) (r.reaping pid).polls;
  };
  ticks = map (λ (q : Tick). record q { arrivals = handled t q.arrivals }) r.ticks;
  after_events = handled t r.after_events;
}

unfoldable pub handled_step : {c : Codec} {F : Type 0} → SignalTable → Step c F → Step c F
unfolding handled_round
handled_step t x = record x { round = handled_round t x.round }

-- A float, of the value if it is finite and not negative.
pub data DrainTimeout : Type 0 where
  not_a_number infinite negative : DrainTimeout
  finite : ℕ → DrainTimeout

unfoldable pub check_drain_timeout : DrainTimeout → Result ℕ
check_drain_timeout (finite n) = ok n
check_drain_timeout _ = err (value_error bad_drain_timeout)

-- The process that calls.
pub record Process : Type 0 where
  pub handlers : SignalTable
  pub shutdown : ShutdownState
  pub host : Host

-- Where the call stands after the steps that are given: in its loop, in a wait for an event beyond
-- them, or it has returned or raised.
pub data RunEnd : Type 0 where
  runs_on waits_on : RunEnd
  ends : Result (Unit {0}) → Process → RunEnd

-- The `finally` clause: where the handlers cannot be restored, the state is not reset.
unfoldable pub restored : ℕ → Result (Unit {0}) → Loop → Result (Unit {0}) × SignalTable → RunEnd
restored drain_timeout outcome st (err e, handlers) =
    ends (err e) (record { handlers = handlers; shutdown = st.shutdown; host = st.host })
restored drain_timeout outcome st (ok _, handlers) =
    ends outcome
      (record { handlers = handlers; shutdown = reset drain_timeout st.shutdown; host = st.host })

-- What the `try` statement makes of its block's end, under the handlers that the call installed.
unfoldable pub finish_run : ℕ → Previous × SignalTable → Ending → RunEnd
unfolding restored
finish_run drain_timeout (previous, handlers) (running st) = runs_on
finish_run drain_timeout (previous, handlers) waiting = waits_on
finish_run drain_timeout (previous, handlers) (stopped st) =
    restored drain_timeout (ok tt) st (restore_shutdown_handlers previous handlers)
finish_run drain_timeout (previous, handlers) (raised e st) =
    restored drain_timeout (err e) st (restore_shutdown_handlers previous handlers)

module _ (c : Codec) {F : Type 0} (importer : Text → Text → Import F) (cron : Cron)
    (settings : Settings) where
  unfoldable pub run_worker_once : Pass c F → Db → Bool × Db
  run_worker_once p db =
      let one_off =
        process_one_off_task c importer p.fork p.claim_env p.finish_env settings.priorities
          p.elapsed settings.max_runtime p.others db in
      let periodic =
        process_periodic_task cron p.periodic_env p.unlock_env settings.priorities
          settings.max_runtime p.periodic_others (p.between one_off.1) in
      if one_off.0 then one_off else periodic

  module _ (decode : List ℕ → Text) (is_darwin : Bool) where
    -- After the call: an idle worker does its chores and sleeps.
    unfoldable pub idle : Round → Loop → Flow
    idle r st = and_then (maintain settings r st) (λ u.
        slept decode is_darwin r u
          (interruptible_sleep settings.poll_interval r.sleep_start r.ticks u.shutdown))

    -- One turn of the sequential loop; the `break` is the test at the start of the next.
    unfoldable pub step : Step c F → Loop → Flow
    unfolding idle
    step x st =
        let once = run_worker_once x.pass st.host.db in
        let st' =
          signalled x.round.after_events (record st { host = record st.host { db = once.1 } }) in
        if once.0
        then goes_on st'
        else if requested st'.shutdown
        then goes_on st'
        else idle x.round st'

    -- The sequential loop and the line after it.
    unfoldable pub run_steps : List (Step c F) → Loop → Ending
    run_steps [] st = running st
    run_steps (x ∷ xs) st =
        let st' = signalled x.round.at_start st in
        let next = after_turn (step x st') (run_steps xs) in
        if requested st'.shutdown
        then stopped (record st' { shutdown = log_request st'.shutdown })
        else next

    -- The `try` block.
    unfoldable pub run_loops : List (Step c F) → Loop → Ending
    run_loops steps st =
        if ltb 1 settings.concurrency
        then run_rounds c importer cron settings decode is_darwin
            (map (λ (x : Step c F). x.round) steps) st
        else run_steps steps st

    -- The loops under the table of the process: a signal without the worker's handler requests
    -- nothing.
    unfoldable pub run_checked : ℕ → (in_main_thread : Bool) → List (Step c F) → Process → RunEnd
    unfolding run_loops
    run_checked drain_timeout in_main_thread steps p =
        let installed = install_shutdown_handlers in_main_thread p.handlers in
        finish_run drain_timeout installed (
          run_loops (map (handled_step installed.1) steps)
            (loop_start p.host (reset drain_timeout p.shutdown)))

    unfoldable pub run_worker :
        DrainTimeout → (in_main_thread : Bool) → List (Step c F) → Process → RunEnd
    unfolding run_checked
    run_worker drain_timeout in_main_thread steps p = elim (check_drain_timeout drain_timeout) [
      | err e ↦ ends (err e) p
      | ok n ↦ run_checked n in_main_thread steps p
    ]
