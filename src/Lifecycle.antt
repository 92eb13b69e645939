-- ===== src/Lifecycle.antt =====
-- The life of a row of `pq_tasks`, apart from how its columns encode it: a version is queued, or it
-- is executing and a newer one may wait behind it, or it is closed. The code that moves a row is
-- `upsert` and `reap_stale_tasks` of src/pq/client.py, the claim and `_finish_one_off` of
-- src/pq/worker.py, and `Task.apply_requeue` of src/pq/models.py.
pub mod Rows
pub mod Upsert
pub mod Batch
pub mod Process
pub mod Alarm
pub mod Claim
pub mod Finish
pub mod Reap
use pq.Base.{Option, none, some, ◌≡◌}
use pq.Models.{Task, Version, TaskStatus, pending, running, completed, failed}

pub data Phase : Type 0 where
  queued : Version → Phase
  executing : (current : Version) (next : Option Version) → Phase
  closed : Version → TaskStatus → Phase

-- A client asks for a version: it replaces what waits, and never what executes.
unfoldable pub request : Version → Phase → Phase
request v (queued w) = queued v
request v (executing w next) = executing w (some v)
request v (closed w s) = queued v

-- A worker starts what is queued.
unfoldable pub begin : Phase → Phase
begin (queued v) = executing v none
begin other = other

-- An execution ends: the version behind it is queued, and without one the row is closed.
unfoldable pub conclude : TaskStatus → Phase → Phase
conclude s (executing w none) = closed w s
conclude s (executing w (some v)) = queued v
conclude s other = other

unfoldable pub version : Task → Version
version t = record {
  name = t.name;
  payload = t.payload;
  priority = t.priority;
  run_at = t.run_at;
  max_runtime_seconds = t.max_runtime_seconds;
}

phase_of : TaskStatus → Task → Phase
phase_of pending t = queued (version t)
phase_of running t = executing (version t) t.requeue
phase_of completed t = closed (version t) completed
phase_of failed t = closed (version t) failed

unfoldable pub phase : Task → Phase
unfolding phase_of version
phase t = phase_of t.status t
