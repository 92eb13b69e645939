-- ===== src/Client/Tasks.antt =====
-- `PQ.enqueue`, `cancel`, `clear_all`, the look-ups and the counts of src/pq/client.py.
use pq.Base.{
  ℕ, ltb, Bool, true, false, ◌&&◌, Option, none, some, List, [], Text, find, delete, select, length,
  get_or, text_opt_eq,
}
use pq.Errors.{Result, ok, err}
use pq.Models.{Task, Periodic, TaskStatus, pending, completed, failed, status_eq}
use pq.Database.{Db, Env, Session, session, insert_task, has_id, has_client}
use pq.Serialization.{Codec}
use pq.Client.{Call, Prepared, prepare, after_checks}

-- The row of an INSERT that leaves the other columns to their defaults.
unfoldable pub new_task : Env → Option Text → Prepared → ℕ → Task
new_task env client_id p id = record {
  id = id;
  client_id = client_id;
  name = p.name;
  payload = p.payload;
  priority = p.priority;
  status = pending;
  run_at = get_or p.run_at env.utc_now;
  created_at = env.sql_now;
  started_at = none;
  completed_at = none;
  error = none;
  attempts = 0;
  max_runtime_seconds = p.max_runtime_seconds;
  requeue = none;
}

unfoldable pub enqueue : (c : Codec) → Env → Call c → Option Text → Db → Result ℕ × Db
enqueue c env call client_id =
    after_checks (prepare c call) (λ p. session env (insert_task (new_task env client_id p)))

-- DELETE FROM pq_tasks WHERE p, and its row count
unfoldable pub delete_tasks : (Task → Bool) → Session ℕ
delete_tasks p db = ok (length (select p db.tasks), record db { tasks = delete p db.tasks })

abbrev pub succeeds_with : {A B : Type 0} → (A → B) → Result A × Db → Result B × Db
succeeds_with f (ok a, db) = (ok (f a), db)
succeeds_with f (err e, db) = (err e, db)

unfoldable pub cancel : Env → ℕ → Db → Result Bool × Db
cancel env task_id db =
    succeeds_with (λ rowcount. ltb 0 rowcount) (session env (delete_tasks (has_id task_id)) db)

unfoldable pub clear_all : Env → Db → Result (Unit {0}) × Db
clear_all env = session env (λ db. ok (tt, record db { tasks = []; periodics = [] }))

-- `completed_at < before`: NULL is below nothing.
abbrev is_before : Option ℕ → ℕ → Bool
is_before none b = false
is_before (some a) b = ltb a b

abbrev ends_before : Option ℕ → Task → Bool
ends_before none t = true
ends_before (some before) t = is_before t.completed_at before

abbrev pub expired : TaskStatus → Option ℕ → Task → Bool
expired status before t = status_eq t.status status && ends_before before t

unfoldable pub clear_completed : Env → Option ℕ → Db → Result ℕ × Db
clear_completed env before = session env (delete_tasks (expired completed before))

unfoldable pub clear_failed : Env → Option ℕ → Db → Result ℕ × Db
clear_failed env before = session env (delete_tasks (expired failed before))

unfoldable pub pending_count : Env → Db → Result ℕ × Db
pending_count env =
    session env (λ db. ok (length (select (λ t. status_eq t.status pending) db.tasks), db))

unfoldable pub periodic_count : Env → Db → Result ℕ × Db
periodic_count env = session env (λ db. ok (length db.periodics, db))

unfoldable pub get_task : Env → ℕ → Db → Result (Option Task) × Db
get_task env task_id = session env (λ db. ok (find (has_id task_id) db.tasks, db))

unfoldable pub get_task_by_client_id : Env → Text → Db → Result (Option Task) × Db
get_task_by_client_id env client_id =
    session env (λ db. ok (find (has_client client_id) db.tasks, db))

find_periodic : Text → List Periodic → Option Periodic
find_periodic c = find (λ p. text_opt_eq p.client_id c)

unfoldable pub get_periodic_by_client_id : Env → Text → Db → Result (Option Periodic) × Db
unfolding find_periodic
get_periodic_by_client_id env client_id =
    session env (λ db. ok (find_periodic client_id db.periodics, db))
