-- ===== src/Worker/Loop/Defaults.antt =====
-- The defaults of src/pq/worker.py, and `PQ.run_worker` and `PQ.run_worker_once` of
-- src/pq/client.py, which leave the other arguments to them.
use pq.Base.{ℕ, ◌*◌, Bool, Option, some, List, Text}
use pq.Models.{Priority}
use pq.Database.{Db}
use pq.Registry.{Import}
use pq.Serialization.{Codec}
use pq.Client.Schedule.{Cron}
use pq.Worker.Periodic.{second}
use pq.Worker.Concurrent.{Settings}
use pq.Worker.Loop.{Pass, Step, DrainTimeout, Process, RunEnd, run_worker, run_worker_once}

abbrev pub default_max_runtime : ℕ
default_max_runtime = 30 * 60 * second

abbrev default_retention_days : ℕ
default_retention_days = 7

abbrev default_cleanup_interval : ℕ
default_cleanup_interval = 3600 * second

abbrev pub default_stale_task_timeout : ℕ
default_stale_task_timeout = 60 * 60 * second

abbrev default_reaper_interval : ℕ
default_reaper_interval = 300 * second

-- The arguments of `run_worker` that a client's call leaves out.
abbrev pub client_settings :
    (concurrency poll_interval max_runtime : ℕ) → Option (List Priority) → Settings
client_settings concurrency poll_interval max_runtime priorities = record {
  concurrency = concurrency;
  poll_interval = poll_interval;
  max_runtime = max_runtime;
  priorities = priorities;
  retention_days = default_retention_days;
  cleanup_interval = default_cleanup_interval;
  stale_task_timeout = some default_stale_task_timeout;
  reaper_interval = default_reaper_interval;
}

module _ (c : Codec) {F : Type 0} (importer : Text → Text → Import F) (cron : Cron) where
  abbrev pub client_run_worker :
      (decode : List ℕ → Text) (is_darwin : Bool) (concurrency poll_interval max_runtime : ℕ)
      (priorities : Option (List Priority))
      → DrainTimeout
      → (in_main_thread : Bool) → List (Step c F)
      → Process
      → RunEnd
  client_run_worker decode is_darwin concurrency poll_interval max_runtime priorities =
      run_worker c importer cron (client_settings concurrency poll_interval max_runtime priorities)
        decode is_darwin

  -- The default of `poll_interval` stands for what a single call does not use.
  abbrev pub client_run_worker_once :
      (max_runtime : ℕ) → Option (List Priority) → Pass c F → Db → Bool × Db
  client_run_worker_once max_runtime priorities =
      run_worker_once c importer cron (client_settings 1 second max_runtime priorities)
