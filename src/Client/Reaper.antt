-- ===== src/Client/Reaper.antt =====
-- `PQ.reap_stale_tasks` of src/pq/client.py.
use pq.Base.{
  ℕ, ◌+◌, ◌*◌, ltb, Bool, false, ◌&&◌, not, Option, none, some, List, [], ◌∷◌, update, select,
  length, get_or, is_some, if◌then◌else◌,
}
use pq.Errors.{Result, ok, ◌>>=◌}
use pq.Models.{Task, running, failed, status_eq, reaped, apply_requeue}
use pq.Database.{Db, Env, Session, session, put_task}

-- `greatest(threshold, coalesce(max_runtime_seconds * 2, threshold))`
abbrev greatest : ℕ → ℕ → ℕ
greatest a b = if ltb a b then b else a

abbrev doubled : Option ℕ → Option ℕ
doubled none = none
doubled (some n) = some (n * 2)

unfoldable pub effective_threshold : ℕ → Task → ℕ
effective_threshold threshold t =
    greatest threshold (get_or (doubled t.max_runtime_seconds) threshold)

-- `started_at < now() - interval`, with the interval on the other side, since `-` stops at 0 on ℕ.
abbrev pub started_before : Option ℕ → ℕ → ℕ → Bool
started_before none window now = false
started_before (some s) window now = ltb (s + window) now

unfoldable pub is_stale : Env → ℕ → Task → Bool
is_stale env threshold t =
    status_eq t.status running
    && started_before t.started_at (effective_threshold threshold t) env.sql_now

-- The `SET` clause for a stale row with nothing parked.
unfoldable pub reap_row : Env → ℕ → Task → Task
reap_row env threshold t = record t {
  status = failed;
  completed_at = some env.utc_now;
  error = some (reaped threshold t.max_runtime_seconds (effective_threshold threshold t));
}

-- The loop over the re-queued rows.
unfoldable pub requeue_all : List Task → Session (Unit {0})
requeue_all [] db = ok (tt, db)
requeue_all (t ∷ ts) db = do t' ← apply_requeue t; requeue_all ts (put_task t' db)

abbrev pub to_reap : Env → ℕ → Task → Bool
to_reap env threshold t = is_stale env threshold t && not (is_some t.requeue)

abbrev pub to_requeue : Env → ℕ → Task → Bool
to_requeue env threshold t = is_stale env threshold t && is_some t.requeue

unfoldable pub reap_body : Env → ℕ → Session ℕ
reap_body env threshold db = do
  let reaped_rows = select (to_reap env threshold) db.tasks
  let after_update = record db {
    tasks = update (to_reap env threshold) (reap_row env threshold) db.tasks;
  }
  let requeued = select (to_requeue env threshold) after_update.tasks
  (_, db') ← requeue_all requeued after_update
  ok (length reaped_rows + length requeued, db')

unfoldable pub reap_stale_tasks : Env → ℕ → Db → Result ℕ × Db
unfolding reap_body
reap_stale_tasks env threshold = session env (reap_body env threshold)
