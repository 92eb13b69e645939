-- ===== src/Worker/Maintenance.antt =====
-- The chores of the worker loops of src/pq/worker.py: `_maybe_run_cleanup`, `_maybe_reap_stale` and
-- `_interruptible_sleep`. Instants count from the least `datetime`, so a cutoff before it is Python's
-- OverflowError. `others` is what other processes commit between two sessions.
pub mod Cleanup
pub mod Failures
pub mod Sleep
use pq.Base.{
  ℕ, ◌+◌, ◌-◌, ◌*◌, ltb, leb, ◌==◌, Bool, true, false, ◌||◌, Option, none, some, List, [], ◌∷◌,
  if◌then◌else◌,
}
use pq.Errors.{Result, ok, err, other_error}
use pq.Database.{Db, Env}
use pq.Client.Tasks.{clear_completed, clear_failed, succeeds_with}
use pq.Client.Reaper.{reap_stale_tasks}
use pq.Worker.Shutdown.{ShutdownState, requested, Arrivals, handle_all}

-- One day, in microseconds.
abbrev pub one_day : ℕ
one_day = 86400000000

-- What one call of `_maybe_run_cleanup` meets.
pub record Cleaning : Type 0 where
  -- `time.time()` and `datetime.now(UTC)`
  pub now : ℕ
  pub utc_now : ℕ
  pub completed_env : Env
  pub others : Db → Db
  pub failed_env : Env

-- The second deletion, after the first one's outcome; the counts are only logged.
unfoldable pub then_delete_failed : Cleaning → ℕ → Result ℕ × Db → Result (Unit {0}) × Db
then_delete_failed x cutoff (err e, db) = (err e, db)
then_delete_failed x cutoff (ok completed, db) =
    succeeds_with (λ failed. tt) (clear_failed x.failed_env (some cutoff) (x.others db))

unfoldable pub delete_old : Cleaning → ℕ → Db → Result (Unit {0}) × Db
delete_old x cutoff db =
    then_delete_failed x cutoff (clear_completed x.completed_env (some cutoff) db)

unfoldable pub stamped : ℕ → Result (Unit {0}) × Db → Result ℕ × Db
stamped now (err e, db) = (err e, db)
stamped now (ok _, db) = (ok now, db)

-- The result is the new `last_cleanup[0]`.
unfoldable pub maybe_run_cleanup :
    (retention_days cleanup_interval : ℕ) → Cleaning → (last_cleanup : ℕ) → Db → Result ℕ × Db
unfolding stamped
maybe_run_cleanup retention_days cleanup_interval x last_cleanup db =
    if retention_days == 0 || ltb x.now (last_cleanup + cleanup_interval)
    then (ok last_cleanup, db)
    else if ltb x.utc_now (retention_days * one_day)
    then (err (other_error 1), db)
    else stamped x.now (delete_old x (x.utc_now - retention_days * one_day) db)

-- `_maybe_reap_stale`: an error is logged, and retried an interval later.
unfoldable pub maybe_reap_stale :
    (stale_task_timeout : Option ℕ)
    → (reaper_interval : ℕ) → (now : ℕ) → Env
    → (last_reap : ℕ) → Db
    → ℕ × Db
maybe_reap_stale none reaper_interval now env last_reap db = (last_reap, db)
maybe_reap_stale (some threshold) reaper_interval now env last_reap db =
    if ltb now (last_reap + reaper_interval)
    then (last_reap, db)
    else (now, (reap_stale_tasks env threshold db).1)

-- One look of `_interruptible_sleep` at the clock, and the signals before it.
pub record Tick : Type 0 where
  pub arrivals : Arrivals
  pub now : ℕ

-- `time.sleep(min(0.1, remaining))`
unfoldable pub nap : ℕ → ℕ
nap remaining = if ltb remaining 100000 then remaining else 100000

-- `none` where the looks end before the sleep does.
unfoldable pub sleep_until : ℕ → List Tick → ShutdownState → Option ShutdownState
sleep_until deadline [] s = none
sleep_until deadline (t ∷ ts) s =
    let s' = handle_all t.arrivals s in
    let rest = sleep_until deadline ts s' in
    if requested s' then some s' else if leb deadline t.now then some s' else rest

unfoldable pub interruptible_sleep :
    (seconds started : ℕ) → List Tick → ShutdownState → Option ShutdownState
interruptible_sleep seconds started = sleep_until (started + seconds)
