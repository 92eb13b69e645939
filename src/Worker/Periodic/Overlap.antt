-- ===== src/Worker/Periodic/Overlap.antt =====
-- The lock of a schedule in src/pq/worker.py: how long it keeps other workers away, and how long the
-- child may live.
use pq.Base.{ℕ, ◌+◌, ◌<◌, ◌≡◌, true, false, Option, List, arith, get_or, is_some}
use pq.Errors.{ok}
use pq.Models.{Periodic, Priority}
use pq.Database.{Env}
use pq.Client.Schedule.{Cron}
use pq.Worker.Periodic.{is_due, lock_duration, advance_row}

-- A schedule under a limit that a claim advanced is due for no worker whose server clock stands
-- before the end of the lock, whatever its priorities.
pub advance_row-locks :
    (cron : Cron) (env env' : Env) (priorities : Option (List Priority)) (max_runtime : ℕ)
    (p p' : Periodic)
    → advance_row cron env max_runtime p ≡ ok p'
    → is_some p.max_concurrent ≡ true
    → env'.sql_now < env.sql_now + lock_duration (get_or p.max_runtime_seconds max_runtime)
    → is_due env' priorities p' ≡ false
unfolding advance_row is_due
advance_row-locks cron env env' priorities max_runtime p p' e limited early = ground arith
