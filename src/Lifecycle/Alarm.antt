-- ===== src/Lifecycle/Alarm.antt =====
-- The reaper of src/pq/client.py against the alarm of the child in src/pq/worker.py.
use pq.Base.{none, ℕ, ◌+◌, ◌*◌, ◌≤◌, ◌≡◌, false, some, arith}
use pq.Models.{Task}
use pq.Database.{Env}
use pq.Client.Reaper.{is_stale, effective_threshold}
use pq.Worker.Periodic.{second}
use pq.Worker.Runner.{alarm_seconds}
use pq.Worker.Loop.Defaults.{default_max_runtime, default_stale_task_timeout}

-- A row whose task has a limit of its own of at least a second is not stale, under any threshold,
-- while the server's clock shows no more than the time at which the alarm of a child that started
-- with the claim rings.
pub is_stale-alarm :
    (env : Env) (threshold : ℕ) (t : Task) (started limit : ℕ)
    → t.started_at ≡ some started
    → t.max_runtime_seconds ≡ some limit
    → second ≤ limit
    → env.sql_now ≤ started + alarm_seconds limit * second
    → is_stale env threshold t ≡ false
unfolding is_stale effective_threshold alarm_seconds
is_stale-alarm env threshold t started limit s m long early = ground arith

-- Under the worker's defaults, a row whose task has no limit of its own is not stale while the
-- server's clock shows no more than the time at which the alarm of a child that started with the
-- claim rings.
pub is_stale-default_max_runtime :
    (env : Env) (t : Task) (started : ℕ)
    → t.started_at ≡ some started
    → t.max_runtime_seconds ≡ none
    → env.sql_now ≤ started + alarm_seconds default_max_runtime * second
    → is_stale env default_stale_task_timeout t ≡ false
unfolding is_stale effective_threshold alarm_seconds
is_stale-default_max_runtime env t started s m early = ground arith
