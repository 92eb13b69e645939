-- ===== src/Worker/OneOff.antt =====
-- The one-off tasks of src/pq/worker.py: `_finish_one_off` and `_process_one_off_task`.
-- What other processes commit while a child runs is the argument `others`.
use pq.Base.{
  ℕ, ◌+◌, leb, ◌==◌, Bool, true, false, ◌&&◌, not, Option, none, some, List, Text, find, select,
  get_or, is_some, opt_eq, if◌then◌else◌,
}
use pq.Errors.{Result, ok, err, ◌>>=◌}
use pq.Models.{
  Task, TaskStatus, pending, running, status_eq, ErrorMsg, raised, is_truthy, apply_requeue,
  Priority,
}
use pq.Database.{Db, Env, Session, session, put_task, elem}
use pq.Registry.{Import, resolve_function_path}
use pq.Serialization.{Codec, deserialize, of_column}
use pq.Worker.Query.{wanted, comes_before, first_row}
use pq.Worker.Child.{ChildResult, Raised, plain_error, raised_of, recorded}

-- The `WHERE` clauses of the claim, and SKIP LOCKED.
unfoldable pub is_claimable : Env → Option (List Priority) → Task → Bool
is_claimable env priorities t =
    status_eq t.status pending
    && leb t.run_at env.sql_now
    && wanted priorities t.priority
    && not (elem t.id env.locked)

-- ORDER BY priority DESC, run_at
unfoldable pub task_before : Task → Task → Bool
task_before = comes_before (λ t. t.priority) (λ t. t.run_at)

unfoldable pub pick_task : Env → Option (List Priority) → List Task → Option Task
pick_task env priorities ts =
    first_row (λ t. t.priority) (λ t. t.run_at) (select (is_claimable env priorities) ts)

-- `status = RUNNING`, `started_at = now`, `attempts += 1`
unfoldable pub start_run : ℕ → Task → Task
start_run now t = record t { status = running; started_at = some now; attempts = t.attempts + 1 }

-- Phase 1 of `_process_one_off_task`.
unfoldable pub claim_body : Env → Option (List Priority) → Session (Option Task)
claim_body env priorities db = elim (pick_task env priorities db.tasks) [
  | none ↦ ok (none, db)
  | some t ↦ let t' = start_run env.utc_now t in ok (some t', put_task t' db)
]

unfoldable pub claim_one_off : Env → Option (List Priority) → Db → Result (Option Task) × Db
claim_one_off env priorities = session env (claim_body env priorities)

-- The row is still this run's: `started_at` is the one that its claim wrote.
unfoldable pub is_this_run : ℕ → Option ℕ → Task → Bool
is_this_run task_id started_at t =
    t.id == task_id && status_eq t.status running && opt_eq t.started_at started_at

-- `if error_msg: task.error = error_msg`
abbrev error_after : Option ErrorMsg → Option ErrorMsg → Option ErrorMsg
error_after none old = old
error_after (some m) old = if is_truthy m then some m else old

unfoldable pub close_row : ℕ → TaskStatus → Option ErrorMsg → Task → Task
close_row now status error_msg t = record t {
  status = status;
  completed_at = some now;
  error = error_after error_msg t.error;
}

unfoldable pub end_row : ℕ → TaskStatus → Option ErrorMsg → Task → Result Task
end_row now status error_msg t =
    if is_some t.requeue then apply_requeue t else ok (close_row now status error_msg t)

unfoldable pub finish_body : Env → ℕ → Option ℕ → TaskStatus → Option ErrorMsg → Session (Unit {0})
unfolding end_row
finish_body env task_id started_at status error_msg db =
    elim (find (is_this_run task_id started_at) db.tasks) [
      | none ↦ ok (tt, db)
      | some t ↦ do t' ← end_row env.utc_now status error_msg t; ok (tt, put_task t' db)
    ]

-- `_finish_one_off`: an exception is logged, and nothing else comes of it.
unfoldable pub finish_one_off : Env → ℕ → Option ℕ → TaskStatus → Option ErrorMsg → Db → Db
finish_one_off env task_id started_at status error_msg db =
    (session env (finish_body env task_id started_at status error_msg) db).1

-- The worker's surroundings: the modules that it can import, and what forking a child on a handler
-- and waiting for it comes to: a call of the system that raises, or the child's result.
module _ (c : Codec) {F : Type 0} (importer : Text → Text → Import F)
    (fork : F → List c.Value → List (Text × c.Value) → (max_runtime : ℕ) → Result ChildResult) where
  unfoldable pub run_handler : Text → Task → ℕ → Result ChildResult
  run_handler name task max_runtime = do
    handler ← resolve_function_path importer name
    (args, kwargs) ← deserialize c (of_column c task.payload)
    fork handler args kwargs max_runtime

  -- Phase 2: what the `try` block raises.
  unfoldable pub execute : Task → ℕ → Option Raised
  unfolding run_handler
  execute task max_runtime = elim (run_handler task.name task max_runtime) [
    | err e ↦ some (plain_error (raised e))
    | ok r ↦ raised_of r
  ]

  unfoldable pub after_claim : Env → ℕ → ℕ → (Db → Db) → Result (Option Task) × Db → Bool × Db
  unfolding execute
  after_claim env elapsed max_runtime others (err e, db) = (false, db)
  after_claim env elapsed max_runtime others (ok none, db) = (false, db)
  after_claim env elapsed max_runtime others (ok (some t), db) =
      let r = recorded elapsed (execute t (get_or t.max_runtime_seconds max_runtime)) in
      (true, finish_one_off env t.id t.started_at r.0 r.1 (others db))

  -- `_process_one_off_task`: the claim under `env`, the result under `env'`.
  unfoldable pub process_one_off_task :
      Env → Env → Option (List Priority) → ℕ → ℕ → (Db → Db) → Db → Bool × Db
  unfolding after_claim
  process_one_off_task env env' priorities elapsed max_runtime others db =
      after_claim env' elapsed max_runtime others (claim_one_off env priorities db)
