-- ===== src/Tests/Shutdown.antt =====
-- Signals, handlers, waits and chores of the worker at small inputs.
use pq.Base.{
  ℕ, ◌+◌, ◌*◌, ◌≤◌, ◌≡◌, ◌⊎◌, ◌↔◌, refl, inl, inr, true, false, none, some, List, [], ◌∷◌, Text,
  codes, In, arith,
}
use pq.Models.{Task, completed}
use pq.Worker.Child.{signaled, sigkill, child_result, shutdown}
use pq.Worker.Shutdown.{
  ShutdownState, requested, reset, deadline_passed, Arrivals, handle_all, handle_shutdown_signal,
  log_request, SignalTable, python_handler,
}
use pq.Worker.Shutdown.Signals.{deadline_passed-handle_all, drain_end, is_over, reset-Tracks}
use pq.Worker.Wait.{
  still_runs, has_exited, Poll, bytes, wait_for_child, wait_loop, wait_round, taken, after_loop,
  decode_error, drain_pipe, result_of, select_timeout, one_second, ten_milliseconds,
}
use pq.Worker.Wait.Outcome.{is_overdue}
use pq.Worker.Wait.Timeout.{select_timeout_bounds}
use pq.Worker.Wait.Interrupted.{wait_for_child-shutdown_iff}
use pq.Worker.Maintenance.{Cleaning, maybe_run_cleanup, Tick, nap, sleep_until, one_day}
use pq.Worker.Maintenance.Cleanup.{maybe_run_cleanup-In}
use pq.Worker.Maintenance.Sleep.{sleep_until_total}
use pq.Tests.Samples.{session_at, waiting_task, with_tasks}

abbrev pub calm : ShutdownState
calm = record { signum = none; deadline = none; drain_timeout = 20; logged = false }

-- SIGTERM at 10, and SIGINT at 12.
abbrev two_signals : Arrivals
two_signals = (10, 15) ∷ (12, 2) ∷ []

deadline_passed-handle_all_example :
    deadline_passed 31 (handle_all two_signals (reset 20 calm))
    ≡ is_over (drain_end 20 two_signals) 31
deadline_passed-handle_all_example = deadline_passed-handle_all 20 31 two_signals calm

-- The handlers of a process that runs no worker.
abbrev pub own_handlers : SignalTable
own_handlers = record { sigterm = python_handler 0; sigint = python_handler 1 }

abbrev plain_decode : List ℕ → Text
plain_decode bs = bs

-- Signals at 10 and 12, a round at 31, and the exit after a SIGKILL.
abbrev killed_polls : List Poll
killed_polls =
    record { arrivals = two_signals; answer = still_runs (some (bytes (codes "a"))); now = 31 }
    ∷ record { arrivals = []; answer = has_exited (signaled sigkill, 7); now = 32 }
    ∷ []

abbrev soon : ShutdownState
soon = record { signum = some 15; deadline = some 30; drain_timeout = 20; logged = false }

select_timeout_bounds_example :
    (ten_milliseconds ≤ select_timeout 12 soon)
    × (select_timeout 12 soon ≤ one_second)
    × ((12 + select_timeout 12 soon ≤ 30) ⊎ (select_timeout 12 soon ≡ ten_milliseconds))
unfolding requested
select_timeout_bounds_example = select_timeout_bounds 12 30 soon refl refl

abbrev closed_task : Task
closed_task = record waiting_task { status = completed; completed_at = some (10 * one_day) }

abbrev cleaning : Cleaning
cleaning = record {
  now = 5000;
  utc_now = 12 * one_day;
  completed_env = session_at 1;
  others = λ db. db;
  failed_env = session_at 2;
}

maybe_run_cleanup-In_example :
    In closed_task (maybe_run_cleanup 7 3600 cleaning 0 (with_tasks (closed_task ∷ []))).1.tasks
maybe_run_cleanup-In_example =
    maybe_run_cleanup-In 7 3600 cleaning 0 (with_tasks (closed_task ∷ [])) closed_task
      (inr (10 * one_day, refl, ground arith)) (λ d i. i) (inl refl)

-- A sleep until 150000 with looks at 0, 100000 and 150000.
abbrev looks : List Tick
looks =
    record { arrivals = []; now = 0 }
    ∷ record { arrivals = []; now = 100000 }
    ∷ record { arrivals = []; now = 150000 }
    ∷ []

sleep_until_total_example : (s' : ShutdownState) × (sleep_until 150000 looks calm ≡ some s')
unfolding nap
sleep_until_total_example =
    sleep_until_total 150000 2 looks calm (ground arith, (ground arith, tt)) (ground arith)
      (ground arith)

wait_for_child-shutdown_iff_example :
    ((child_result true 20 7 false (signaled sigkill) (codes "a")).exit_kind ≡ shutdown)
    ↔ ((signaled sigkill ≡ signaled sigkill) × (is_overdue 20 [] killed_polls ≡ true))
unfolding wait_for_child wait_loop wait_round taken after_loop result_of decode_error drain_pipe
    handle_all handle_shutdown_signal reset log_request requested deadline_passed
wait_for_child-shutdown_iff_example =
    wait_for_child-shutdown_iff plain_decode false 20 [] killed_polls (bytes [] ∷ [])
      (reset 20 calm)
      (record { signum = some 15; deadline = some 30; drain_timeout = 20; logged = true })
      (signaled sigkill) 7 (child_result true 20 7 false (signaled sigkill) (codes "a"))
      (reset-Tracks 20 calm) refl refl
