-- ===== src/System/Keeps/Runs.antt =====
-- `run_worker` of src/pq/worker.py, and the task table's invariant.
use pq.Base.{ℕ, Bool, Option, none, some, List, [], ◌∷◌, All, Text, map, ltb, if_either}
use pq.Errors.{Result, ok, err}
use pq.Models.{Task, Periodic}
use pq.Database.{Db, Env}
use pq.Database.Consistent.{IsConsistent}
use pq.Registry.{Import}
use pq.Serialization.{Codec}
use pq.Client.Schedule.{Cron}
use pq.Lifecycle.Rows.{recorded-IsOutcome}
use pq.System.Keeps.Worker.{claim_one_off-IsConsistent, finish_one_off-IsConsistent}
use pq.System.Keeps.Slots.{KeepsTables, claim_periodic-IsConsistent, clear_lock-IsConsistent}
use pq.System.Keeps.Rounds.{
  RoundKeeps, LoopKeeps, FlowIsConsistent, and_then-FlowIsConsistent, slept-FlowIsConsistent,
}
use pq.System.Keeps.Loops.{
  EndingIsConsistent, after_turn-EndingIsConsistent, maintain-FlowIsConsistent,
  run_rounds-EndingIsConsistent,
}
use pq.Worker.Child.{ChildResult}
use pq.Worker.OneOff
use pq.Worker.OneOff.{process_one_off_task}
use pq.Worker.Periodic
use pq.Worker.Periodic.{process_periodic_task}
use pq.Worker.Shutdown.{
  requested, handle_all, reset, SignalTable, Previous, install_shutdown_handlers,
}
use pq.Worker.Maintenance.{interruptible_sleep}
use pq.Worker.Concurrent.{
  Loop, loop_start, Settings, signalled, Ending, running, stopped, raised, waiting,
}
use pq.Worker.Loop.{
  Pass, Step, DrainTimeout, check_drain_timeout, Process, RunEnd, ends, restored, finish_run,
  run_worker_once, idle, step, run_steps, run_loops, handled_round, handled_step, run_checked,
  run_worker,
}

-- What others commit during a call of `run_worker_once`, or a turn, keeps the tables consistent.
pub record PassKeeps {c : Codec} {F : Type 0} (p : Pass c F) : Type 0 where
  pub others : KeepsTables p.others
  pub between : KeepsTables p.between
  pub periodic_others : KeepsTables p.periodic_others

abbrev pub StepKeeps : {c : Codec} {F : Type 0} → Step c F → Type 0
StepKeeps x = PassKeeps x.pass × RoundKeeps x.round

handled_steps-keep :
    {c : Codec} {F : Type 0} (t : SignalTable) (xs : List (Step c F))
    → All StepKeeps xs
    → All StepKeeps (map (handled_step t) xs)
unfolding handled_step handled_round
handled_steps-keep t [] h = tt
handled_steps-keep t (x ∷ xs) h = ((h.0.0, round), handled_steps-keep t xs h.1)
  where
    round : RoundKeeps (handled_round t x.round)
    round = record {
      attempts = h.0.1.attempts;
      reapings = h.0.1.reapings;
      cleanups = h.0.1.cleanups;
    }

rounds-keep :
    {c : Codec} {F : Type 0} (xs : List (Step c F))
    → All StepKeeps xs
    → All RoundKeeps (map (λ (y : Step c F). y.round) xs)
rounds-keep [] h = tt
rounds-keep (x ∷ xs) h = (h.0.1, rounds-keep xs h.1)

module _ (c : Codec) {F : Type 0} (importer : Text → Text → Import F) where
  one_off-keeps :
      (fork : F → List c.Value → List (Text × c.Value) → ℕ → Result ChildResult) (env : Env)
      (elapsed max_runtime : ℕ) (others : Db → Db) (r : Result (Option Task) × Db)
      → KeepsTables others
      → IsConsistent r.1
      → IsConsistent (OneOff.after_claim c importer fork env elapsed max_runtime others r).1
  unfolding OneOff.after_claim
  one_off-keeps fork env elapsed max_runtime others (err e, db) keep k = k
  one_off-keeps fork env elapsed max_runtime others (ok none, db) keep k = k
  one_off-keeps fork env elapsed max_runtime others (ok (some t), db) keep k =
      finish_one_off-IsConsistent env t.id t.started_at _ _ (others db)
        (recorded-IsOutcome elapsed _) (keep db k)

  periodic-keeps :
      (env : Env) (others : Db → Db) (r : Result (Option Periodic) × Db)
      → KeepsTables others
      → IsConsistent r.1
      → IsConsistent (Periodic.after_claim env others r).1
  unfolding Periodic.after_claim
  periodic-keeps env others (err e, db) keep k = k
  periodic-keeps env others (ok none, db) keep k = k
  periodic-keeps env others (ok (some p), db) keep k =
      clear_lock-IsConsistent env p.id p.max_concurrent (others db) (keep db k)

  module _ (cron : Cron) (settings : Settings) where
    run_worker_once-keeps :
        (p : Pass c F) (db : Db)
        → PassKeeps p
        → IsConsistent db
        → IsConsistent (run_worker_once c importer cron settings p db).1
    unfolding run_worker_once process_one_off_task process_periodic_task
    run_worker_once-keeps p db keep k =
        if_either one_off.0 (λ (x : Bool × Db). IsConsistent x.1) after
          (periodic-keeps p.unlock_env p.periodic_others _ keep.periodic_others (
            claim_periodic-IsConsistent cron p.periodic_env settings.priorities settings.max_runtime
              (p.between one_off.1) (keep.between one_off.1 after)))
      where
        one_off : Bool × Db
        one_off =
            process_one_off_task c importer p.fork p.claim_env p.finish_env settings.priorities
              p.elapsed settings.max_runtime p.others db

        after : IsConsistent one_off.1
        after =
            one_off-keeps p.fork p.finish_env p.elapsed settings.max_runtime p.others _ keep.others
              (claim_one_off-IsConsistent p.claim_env settings.priorities db k)

    module _ (decode : List ℕ → Text) (is_darwin : Bool) where
      step-FlowIsConsistent :
          (x : Step c F) (st : Loop)
          → StepKeeps x
          → LoopKeeps st
          → FlowIsConsistent (step c importer cron settings decode is_darwin x st)
      unfolding step idle
      step-FlowIsConsistent x st keep k = if_either once.0 FlowIsConsistent after (
          if_either (requested st'.shutdown) FlowIsConsistent after (
            and_then-FlowIsConsistent _ _
              (maintain-FlowIsConsistent settings x.round keep.1 st' after)
              (λ u h.
                slept-FlowIsConsistent decode is_darwin x.round keep.1 u
                  (interruptible_sleep settings.poll_interval x.round.sleep_start x.round.ticks
                    u.shutdown)
                  h)))
        where
          once : Bool × Db
          once = run_worker_once c importer cron settings x.pass st.host.db

          after : IsConsistent once.1
          after = run_worker_once-keeps x.pass st.host.db keep.0 k

          st' : Loop
          st' = signalled x.round.after_events (record st { host = record st.host { db = once.1 } })

      run_steps-EndingIsConsistent :
          (xs : List (Step c F)) (st : Loop)
          → All StepKeeps xs
          → LoopKeeps st
          → EndingIsConsistent (run_steps c importer cron settings decode is_darwin xs st)
      unfolding run_steps
      run_steps-EndingIsConsistent [] st keep k = k
      run_steps-EndingIsConsistent (x ∷ xs) st keep k =
          if_either (requested (handle_all x.round.at_start st.shutdown)) EndingIsConsistent k (
            after_turn-EndingIsConsistent _ (run_steps c importer cron settings decode is_darwin xs)
              (step-FlowIsConsistent x (signalled x.round.at_start st) keep.0 k)
              (λ u. run_steps-EndingIsConsistent xs u keep.1))

      run_loops-EndingIsConsistent :
          (xs : List (Step c F)) (st : Loop)
          → All StepKeeps xs
          → LoopKeeps st
          → EndingIsConsistent (run_loops c importer cron settings decode is_darwin xs st)
      unfolding run_loops
      run_loops-EndingIsConsistent xs st keep k =
          if_either (ltb 1 settings.concurrency) EndingIsConsistent
            (run_rounds-EndingIsConsistent c importer cron settings decode is_darwin
              (map (λ (y : Step c F). y.round) xs) st (rounds-keep xs keep) k)
            (run_steps-EndingIsConsistent xs st keep k)

-- The tables when a run is over.
abbrev pub EndIsConsistent : RunEnd → Type 0
EndIsConsistent (ends outcome p) = IsConsistent p.host.db
EndIsConsistent _ = Unit

restored-EndIsConsistent :
    (drain_timeout : ℕ) (outcome : Result (Unit {0})) (st : Loop)
    (y : Result (Unit {0}) × SignalTable)
    → LoopKeeps st
    → EndIsConsistent (restored drain_timeout outcome st y)
unfolding restored
restored-EndIsConsistent drain_timeout outcome st (ok u, t) k = k
restored-EndIsConsistent drain_timeout outcome st (err e, t) k = k

finish_run-EndIsConsistent :
    (drain_timeout : ℕ) (x : Previous × SignalTable) (e : Ending)
    → EndingIsConsistent e
    → EndIsConsistent (finish_run drain_timeout x e)
unfolding finish_run
finish_run-EndIsConsistent drain_timeout (previous, t) (running st) k = tt
finish_run-EndIsConsistent drain_timeout (previous, t) waiting k = tt
finish_run-EndIsConsistent drain_timeout (previous, t) (stopped st) k =
    restored-EndIsConsistent drain_timeout (ok tt) st _ k
finish_run-EndIsConsistent drain_timeout (previous, t) (raised e st) k =
    restored-EndIsConsistent drain_timeout (err e) st _ k

-- Whatever a worker meets, whether it runs one child or several, returns or raises: from consistent
-- tables it leaves consistent tables, where what others commit meanwhile keeps them consistent.
pub run_worker-EndIsConsistent :
    (c : Codec) {F : Type 0} (importer : Text → Text → Import F) (cron : Cron) (settings : Settings)
    (decode : List ℕ → Text) (is_darwin : Bool) (drain_timeout : DrainTimeout)
    (in_main_thread : Bool) (steps : List (Step c F)) (p : Process)
    → All StepKeeps steps
    → IsConsistent p.host.db
    → EndIsConsistent
        (run_worker c importer cron settings decode is_darwin drain_timeout in_main_thread steps p)
unfolding run_worker run_checked
run_worker-EndIsConsistent c {F} importer cron settings decode is_darwin drain_timeout
      in_main_thread steps p keep k =
    checked (check_drain_timeout drain_timeout)
  where
    checked :
        (r : Result ℕ)
        → EndIsConsistent (elim r [
          | err e ↦ ends (err e) p
          | ok n ↦ run_checked c importer cron settings decode is_darwin n in_main_thread steps p
        ])
    checked (err e) = k
    checked (ok n) =
        finish_run-EndIsConsistent n (install_shutdown_handlers in_main_thread p.handlers) _ (
          run_loops-EndingIsConsistent c importer cron settings decode is_darwin
            (map (handled_step table) steps) (loop_start p.host (reset n p.shutdown))
            (handled_steps-keep table steps keep) k)
      where
        table : SignalTable
        table = (install_shutdown_handlers in_main_thread p.handlers).1
