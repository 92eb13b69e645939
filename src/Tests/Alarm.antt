-- ===== src/Tests/Alarm.antt =====
-- A run with a limit of two seconds, at the instant its child's alarm rings.
use pq.Base.{◌≡◌, refl, false, some, arith}
use pq.Client.Reaper.{is_stale}
use pq.Worker.Runner.{alarm_seconds}
use pq.Lifecycle.Alarm.{is_stale-alarm, is_stale-default_max_runtime}
use pq.Worker.Loop.Defaults.{default_stale_task_timeout}
use pq.Tests.Samples.{session_at, parked_task}

is_stale-alarm_example :
    is_stale (session_at 3000010) 0 (record parked_task { max_runtime_seconds = some 2000000 })
    ≡ false
unfolding alarm_seconds
is_stale-alarm_example =
    is_stale-alarm (session_at 3000010) 0
      (record parked_task { max_runtime_seconds = some 2000000 }) 10 2000000 refl refl (omega arith)
      (omega arith)

is_stale-default_max_runtime_example :
    is_stale (session_at 1801000010) default_stale_task_timeout parked_task ≡ false
unfolding alarm_seconds
is_stale-default_max_runtime_example =
    is_stale-default_max_runtime (session_at 1801000010) parked_task 10 refl refl (omega arith)
