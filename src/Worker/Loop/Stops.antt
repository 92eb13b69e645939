-- ===== src/Worker/Loop/Stops.antt =====
-- How a signal ends the loops of `run_worker` of src/pq/worker.py.
use pq.Base.{
  if_either, ℕ, ltb, ◌≡◌, ◌⊎◌, Bool, true, false, select, arith, Bool-cases, List, [], ◌∷◌, All, In,
  inl, inr, map, sym, subst, Text,
}
use pq.Errors.{Result, ok, err}
use pq.Database.{Db}
use pq.Registry.{Import}
use pq.Serialization.{Codec}
use pq.Client.Schedule.{Cron}
use pq.Worker.Shutdown.{
  Arrivals, sigterm_number, sigint_number, drain_handler, is_handled, handled, requested,
  handle_all, SignalTable, Previous, install_shutdown_handlers,
}
use pq.Worker.Concurrent.{Loop, Settings, signalled, Ending, running, stopped, raised, waiting}
use pq.Worker.Concurrent.Lists.{All-map, In-map}
use pq.Worker.Concurrent.Ends.{HasSignal, signal-requested, run_rounds-HasEnded}
use pq.Worker.Concurrent.Complete.{
  IsComplete, HasRun, and_then-HasRun, sleep-HasRun, maintain-HasRun, HasEnded, after_turn-HasEnded,
}
use pq.Worker.Loop.{
  Step, DrainTimeout, check_drain_timeout, Process, RunEnd, ends, restored, finish_run,
  run_worker_once, idle, step, run_steps, run_loops, handled_round, handled_step, run_checked,
  run_worker,
}

module _ (c : Codec) {F : Type 0} (importer : Text → Text → Import F) (cron : Cron)
    (settings : Settings) (decode : List ℕ → Text) (is_darwin : Bool) where
  step-HasRun :
      (x : Step c F) (st : Loop)
      → IsComplete settings.poll_interval x.round
      → HasRun (step c importer cron settings decode is_darwin x st)
  unfolding step idle
  step-HasRun x st complete = if_either once.0 HasRun tt (
      if_either (requested st'.shutdown) HasRun tt (
        and_then-HasRun _ _ (maintain-HasRun settings x.round st')
          (sleep-HasRun decode is_darwin settings.poll_interval x.round complete)))
    where
      once : Bool × Db
      once = run_worker_once c importer cron settings x.pass st.host.db

      st' : Loop
      st' = signalled x.round.after_events (record st { host = record st.host { db = once.1 } })

  run_steps-HasEnded :
      (xs : List (Step c F)) (x : Step c F) (st : Loop)
      → All (λ (y : Step c F). IsComplete settings.poll_interval y.round) xs
      → In x xs
      → HasSignal x.round.at_start
      → HasEnded (run_steps c importer cron settings decode is_darwin xs st)
  unfolding run_steps
  run_steps-HasEnded [] x st complete i h = absurd i
  run_steps-HasEnded (y ∷ xs) x st complete (inl e) h =
      rw
        (signal-requested y.round.at_start st.shutdown
          (subst (λ (z : Step c F). HasSignal z.round.at_start) (sym e) h))
        tt
  run_steps-HasEnded (y ∷ xs) x st complete (inr i) h =
      if_either (requested (handle_all y.round.at_start st.shutdown)) HasEnded tt (
        after_turn-HasEnded
          (step c importer cron settings decode is_darwin y (signalled y.round.at_start st))
          (run_steps c importer cron settings decode is_darwin xs) (step-HasRun y _ complete.0)
          (λ u. run_steps-HasEnded xs x u complete.1 i h))

  run_loops-HasEnded :
      (xs : List (Step c F)) (x : Step c F) (st : Loop)
      → All (λ (y : Step c F). IsComplete settings.poll_interval y.round) xs
      → In x xs
      → HasSignal x.round.at_start
      → HasEnded (run_loops c importer cron settings decode is_darwin xs st)
  unfolding run_loops
  run_loops-HasEnded xs x st complete i h =
      if_either (ltb 1 settings.concurrency) HasEnded
        (run_rounds-HasEnded c importer cron settings decode is_darwin
          (map (λ (y : Step c F). y.round) xs) x.round st
          (All-map (λ (y : Step c F). y.round) (IsComplete settings.poll_interval) xs complete)
          (In-map (λ (y : Step c F). y.round) xs x i) h)
        (run_steps-HasEnded xs x st complete i h)

-- The call returned or raised.
abbrev pub IsOver : RunEnd → Type 0
IsOver (ends outcome p) = Unit
IsOver _ = ⊥

restored-IsOver :
    (drain_timeout : ℕ) (outcome : Result (Unit {0})) (st : Loop)
    (y : Result (Unit {0}) × SignalTable)
    → IsOver (restored drain_timeout outcome st y)
unfolding restored
restored-IsOver drain_timeout outcome st (ok u, t) = tt
restored-IsOver drain_timeout outcome st (err e, t) = tt

finish_run-IsOver :
    (drain_timeout : ℕ) (x : Previous × SignalTable) (e : Ending)
    → HasEnded e
    → IsOver (finish_run drain_timeout x e)
unfolding finish_run
finish_run-IsOver drain_timeout (previous, t) (running st) h = h
finish_run-IsOver drain_timeout (previous, t) waiting h = h
finish_run-IsOver drain_timeout (previous, t) (stopped st) h =
    restored-IsOver drain_timeout (ok tt) st _
finish_run-IsOver drain_timeout (previous, t) (raised e st) h =
    restored-IsOver drain_timeout (err e) st _

-- A SIGTERM or a SIGINT is among the signals.
abbrev pub HasShutdownSignal : Arrivals → Type 0
HasShutdownSignal arrivals =
    (a : ℕ × ℕ) × In a arrivals × ((a.1 ≡ sigterm_number) ⊎ (a.1 ≡ sigint_number))

-- The table that a run installs on the main thread.
abbrev pub worker_table : SignalTable
worker_table = record { sigterm = drain_handler; sigint = drain_handler }

handled-HasSignal :
    (arrivals : Arrivals) → HasShutdownSignal arrivals → HasSignal (handled worker_table arrivals)
unfolding handled is_handled select
handled-HasSignal [] (a, i, e) = absurd i
handled-HasSignal (x ∷ xs) (a, i, e) = elim (Bool-cases (is_handled worker_table x)) [
  | inl q ↦ rw q tt
  | inr q ↦ rw q (handled-HasSignal xs (a, elsewhere x q a e i, e))
]
  where
    reaches :
        (y : ℕ × ℕ)
        → (y.1 ≡ sigterm_number) ⊎ (y.1 ≡ sigint_number)
        → is_handled worker_table y ≡ false
        → ⊥
    reaches y (inl k) q = ground arith
    reaches y (inr k) q = ground arith

    elsewhere :
        (y : ℕ × ℕ)
        → is_handled worker_table y ≡ false
        → (a : ℕ × ℕ) → (a.1 ≡ sigterm_number) ⊎ (a.1 ≡ sigint_number)
        → In a (y ∷ xs)
        → In a xs
    elsewhere y q a e (inr j) = j
    elsewhere y q a e (inl same) = absurd (
        reaches y
          (subst (λ (z : ℕ × ℕ). (z.1 ≡ sigterm_number) ⊎ (z.1 ≡ sigint_number)) (sym same) e) q)

-- On the main thread, where a SIGTERM or SIGINT arrives before some turn, every child that is waited
-- for exits in the polls that are given, with reads after it that end, and the looks at the clock
-- reach the end of a sleep, the run is over within these turns: it returned or raised, with one
-- worker or several, whatever else happens.
pub run_worker-IsOver :
    (c : Codec) {F : Type 0} (importer : Text → Text → Import F) (cron : Cron) (settings : Settings)
    (decode : List ℕ → Text) (is_darwin : Bool) (drain_timeout : DrainTimeout)
    (steps : List (Step c F)) (x : Step c F) (p : Process)
    → All
        (λ (y : Step c F). IsComplete settings.poll_interval (handled_round worker_table y.round))
        steps
    → In x steps
    → HasShutdownSignal x.round.at_start
    → IsOver (run_worker c importer cron settings decode is_darwin drain_timeout true steps p)
unfolding run_worker run_checked install_shutdown_handlers handled_step handled_round
run_worker-IsOver c {F} importer cron settings decode is_darwin drain_timeout steps x p complete i
      h =
    checked (check_drain_timeout drain_timeout)
  where
    checked :
        (r : Result ℕ)
        → IsOver (elim r [
          | err e ↦ ends (err e) p
          | ok n ↦ run_checked c importer cron settings decode is_darwin n true steps p
        ])
    checked (err e) = tt
    checked (ok n) = finish_run-IsOver n (install_shutdown_handlers true p.handlers) _ (
        run_loops-HasEnded c importer cron settings decode is_darwin
          (map (handled_step worker_table) steps) (handled_step worker_table x) _
          (All-map (handled_step worker_table)
            (λ (y : Step c F). IsComplete settings.poll_interval y.round) steps complete)
          (In-map (handled_step worker_table) steps x i) (handled-HasSignal x.round.at_start h))
