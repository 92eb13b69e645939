-- ===== src/Tests/Runs.antt =====
-- Whole runs of a worker at small inputs.
use pq.Base.{select, ◌≡◌, refl, inl, inr, true, false, List, [], ◌∷◌, Text, is_some, arith}
use pq.Errors.{ok}
use pq.Worker.Child.{exited, child_result}
use pq.Worker.Shutdown.{ShutdownState, Arrivals, handle_all, handled}
use pq.Worker.Wait.{drain_pipe}
use pq.Worker.Maintenance.{sleep_until, interruptible_sleep}
use pq.Worker.Concurrent.Complete.{IsComplete}
use pq.Database.{Db, session}
use pq.Database.Consistent.{IsConsistent}
use pq.Worker.Query.{first_row}
use pq.Worker.OneOff.{process_one_off_task, claim_one_off, claim_body, pick_task}
use pq.Worker.Periodic.{process_periodic_task, claim_periodic, claim_periodic_body, pick_periodic}
use pq.Worker.Loop.Idle.{HasNothing, run_worker_once-HasNothing}
use pq.System.Keeps.Slots.{KeepsTables}
use pq.System.Keeps.Runs.{StepKeeps, EndIsConsistent, run_worker-EndIsConsistent}
use pq.Worker.Loop.{run_worker_once, Pass, Step, finite, handled_round, run_worker}
use pq.Worker.Loop.Restored.{LeavesRestored, run_worker-IsRestored}
use pq.Worker.Loop.Stops.{IsOver, worker_table, run_worker-IsOver}
use pq.Tests.Samples.{sample_codec, session_at, with_tasks}
use pq.Tests.Loops.{wakes_late, round_after, two_at_once, importer, no_cron, same_text, process}

abbrev pass : Pass sample_codec Text
pass = record {
  claim_env = session_at 10;
  fork = λ f args kwargs max_runtime. ok (child_result false 0 0 false (exited 0) []);
  elapsed = 1;
  others = λ db. db;
  finish_env = session_at 12;
  between = λ db. db;
  periodic_env = session_at 13;
  periodic_others = λ db. db;
  unlock_env = session_at 14;
}

abbrev step_after : Arrivals → Step sample_codec Text
step_after arrivals = record { pass = pass; round = round_after arrivals }

abbrev two_steps : List (Step sample_codec Text)
two_steps = step_after [] ∷ step_after ((16, 15) ∷ []) ∷ []

sleep_wakes : (s : ShutdownState) → is_some (interruptible_sleep 5 10 wakes_late s) ≡ true
unfolding interruptible_sleep sleep_until handle_all
sleep_wakes s = ground arith

round-IsComplete :
    (arrivals : Arrivals) → IsComplete 5 (handled_round worker_table (round_after arrivals))
unfolding handled_round handled drain_pipe select
round-IsComplete arrivals = record {
  exits = λ pid. refl;
  drains = λ pid. refl;
  wakes = sleep_wakes;
}

run_worker-IsRestored_example : LeavesRestored (finite 20) process (
    run_worker sample_codec importer no_cron two_at_once same_text false
      (finite 20)
      true
      two_steps
      process)
run_worker-IsRestored_example =
    run_worker-IsRestored sample_codec importer no_cron two_at_once same_text false (finite 20) true
      two_steps process (λ e. ground arith) (λ e. ground arith)

run_worker-IsOver_example : IsOver (
    run_worker sample_codec importer no_cron two_at_once same_text false
      (finite 20)
      true
      two_steps
      process)
run_worker-IsOver_example =
    run_worker-IsOver sample_codec importer no_cron two_at_once same_text false (finite 20)
      two_steps (step_after ((16, 15) ∷ [])) process
      (round-IsComplete [], (round-IsComplete ((16, 15) ∷ []), tt)) (inr (inl refl))
      ((16, 15), inl refl, inl refl)

abbrev empty_db : Db
empty_db = with_tasks []

empty_db-IsConsistent : IsConsistent empty_db
empty_db-IsConsistent = record { valid = tt; below = tt; apart = tt }

run_worker_once-HasNothing_example :
    HasNothing sample_codec importer no_cron two_at_once pass empty_db
    × ((run_worker_once sample_codec importer no_cron two_at_once pass empty_db).1 ≡ empty_db)
unfolding run_worker_once process_one_off_task process_periodic_task claim_one_off claim_periodic
    claim_body claim_periodic_body pick_task pick_periodic first_row session select
run_worker_once-HasNothing_example =
    run_worker_once-HasNothing sample_codec importer no_cron two_at_once pass empty_db refl refl
      empty_db-IsConsistent refl

same_tables : KeepsTables (λ db. db)
same_tables db k = k

step-StepKeeps : (arrivals : Arrivals) → StepKeeps (step_after arrivals)
step-StepKeeps arrivals = (
  record { others = same_tables; between = same_tables; periodic_others = same_tables },
  record {
    attempts = λ i. (same_tables, same_tables, same_tables);
    reapings = λ pid. same_tables;
    cleanups = same_tables;
  },
)

run_worker-EndIsConsistent_example : EndIsConsistent (
    run_worker sample_codec importer no_cron two_at_once same_text false
      (finite 20)
      true
      two_steps
      process)
run_worker-EndIsConsistent_example =
    run_worker-EndIsConsistent sample_codec importer no_cron two_at_once same_text false (finite 20)
      true two_steps process (step-StepKeeps [], (step-StepKeeps ((16, 15) ∷ []), tt))
      (ground arith)
