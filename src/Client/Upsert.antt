-- ===== src/Client/Upsert.antt =====
-- `_upsert_statement`, `PQ.upsert` and `PQ.upsert_many` of src/pq/client.py.
use pq.Base.{
  ℕ, zero, suc, none, some, List, [], ◌∷◌, Text, find, update, get_or, if◌then◌else◌, text_le,
  length,
}
use pq.Errors.{Result, ok, ◌>>=◌}
use pq.Models.{Task, pending, running, status_eq, Version}
use pq.Database.{Db, Env, Session, session, insert_task, has_client}
use pq.Serialization.{Codec}
use pq.Client.{Call, Prepared, prepare, after_checks}

-- One `Upsert` whose statement is built: `run_at` is fixed when it is.
pub record Statement : Type 0 where
  pub client_id : Text
  pub version : Version

-- `Upsert`, the arguments of `upsert()` as one value.
pub record Upsert (c : Codec) : Type 0 where
  pub call : Call c
  pub client_id : Text

to_statement : Env → Text → Prepared → Statement
to_statement env client_id p = record {
  client_id = client_id;
  version = record {
    name = p.name;
    payload = p.payload;
    priority = p.priority;
    run_at = get_or p.run_at env.utc_now;
    max_runtime_seconds = p.max_runtime_seconds;
  };
}

unfoldable pub upsert_statement : (c : Codec) → Env → Upsert c → Result Statement
unfolding to_statement
upsert_statement c env u = do p ← prepare c u.call; ok (to_statement env u.client_id p)

-- The `SET` clause. The session casts a naive `run_at` the same way on both paths: one instant.
unfoldable pub upsert_row : Version → Task → Task
upsert_row v t =
    let is_running = status_eq t.status running in
    record t {
      name = if is_running then t.name else v.name;
      payload = if is_running then t.payload else v.payload;
      priority = if is_running then t.priority else v.priority;
      status = if is_running then t.status else pending;
      run_at = if is_running then t.run_at else v.run_at;
      max_runtime_seconds = if is_running then t.max_runtime_seconds else v.max_runtime_seconds;
      attempts = if is_running then t.attempts else 0;
      started_at = if is_running then t.started_at else none;
      completed_at = if is_running then t.completed_at else none;
      error = if is_running then t.error else none;
      requeue = if is_running then some v else none;
    }

-- The row of the `INSERT`.
unfoldable pub upsert_new : Env → Statement → ℕ → Task
upsert_new env s id = record {
  id = id;
  client_id = some s.client_id;
  name = s.version.name;
  payload = s.version.payload;
  priority = s.version.priority;
  status = pending;
  run_at = s.version.run_at;
  created_at = env.sql_now;
  started_at = none;
  completed_at = none;
  error = none;
  attempts = 0;
  max_runtime_seconds = s.version.max_runtime_seconds;
  requeue = none;
}

-- INSERT … ON CONFLICT (client_id) DO UPDATE … RETURNING id, executed
unfoldable pub execute_upsert : Env → Statement → Session ℕ
execute_upsert env s db = elim (find (has_client s.client_id) db.tasks) [
  | none ↦ insert_task (upsert_new env s) db
  | some t ↦
      ok (
        t.id,
        record db { tasks = update (has_client s.client_id) (upsert_row s.version) db.tasks },
      )
]

unfoldable pub upsert : (c : Codec) → Env → Upsert c → Db → Result ℕ × Db
upsert c env u = after_checks (upsert_statement c env u) (λ s. session env (execute_upsert env s))

-- `stmts = [_upsert_statement(u) for u in upserts]`, with their indices.
unfoldable pub build_statements :
    (c : Codec) → Env → ℕ → List (Upsert c) → Result (List (ℕ × Statement))
build_statements c env i [] = ok []
build_statements c env i (u ∷ us) = do
  s ← upsert_statement c env u
  rest ← build_statements c env (suc i) us
  ok ((i, s) ∷ rest)

-- `sorted(…, key=client_id)` is stable: a statement goes before the later ones that equal it.
unfoldable pub insert_statement : ℕ × Statement → List (ℕ × Statement) → List (ℕ × Statement)
insert_statement s [] = s ∷ []
insert_statement s (t ∷ ts) =
    if text_le (s.1).client_id (t.1).client_id then s ∷ t ∷ ts else t ∷ insert_statement s ts

unfoldable pub in_client_order : List (ℕ × Statement) → List (ℕ × Statement)
unfolding insert_statement
in_client_order [] = []
in_client_order (s ∷ ss) = insert_statement s (in_client_order ss)

-- `ids[i] = …`
unfoldable pub set_id : ℕ → ℕ → List ℕ → List ℕ
set_id i v [] = []
set_id zero v (x ∷ xs) = v ∷ xs
set_id (suc i) v (x ∷ xs) = x ∷ set_id i v xs

-- The loop over `order`.
unfoldable pub execute_all : Env → List (ℕ × Statement) → List ℕ → Session (List ℕ)
unfolding set_id
execute_all env [] ids db = ok (ids, db)
execute_all env ((i, s) ∷ ss) ids db = do
  (id, db') ← execute_upsert env s db
  execute_all env ss (set_id i id ids) db'

-- `[0] * n`
unfoldable pub zeros : ℕ → List ℕ
zeros zero = []
zeros (suc n) = 0 ∷ zeros n

unfoldable pub upsert_many : (c : Codec) → Env → List (Upsert c) → Db → Result (List ℕ) × Db
unfolding zeros
upsert_many c env us =
    after_checks (build_statements c env 0 us)
      (λ ss. session env (execute_all env (in_client_order ss) (zeros (length us))))
