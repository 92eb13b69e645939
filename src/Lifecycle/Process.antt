-- ===== src/Lifecycle/Process.antt =====
-- `_process_one_off_task` from the claim to the recorded result.
use pq.Base.{
  ℕ, ◌≡◌, refl, ap, ◌∙◌, ◌⊎◌, inl, inr, sym, subst, true, Option, none, some, List, In, Text,
  get_or, Option-cases,
}
use pq.Errors.{Result, PyError, ok, err, Result-cases}
use pq.Models.{Task, Priority, running, failed, raised, TaskStatus, ErrorMsg}
use pq.Database.{Db, Env}
use pq.Database.Consistent.{IsConsistent}
use pq.Registry.{Import, resolve_function_path}
use pq.Serialization.{Codec, deserialize, of_column}
use pq.Worker.Child.{ChildResult, Raised, plain_error, raised_of, recorded}
use pq.Worker.Child.Verdict.{RunVerdict, recorded-RunVerdict}
use pq.Worker.OneOff.{
  claim_one_off, finish_one_off, execute, run_handler, after_claim, process_one_off_task,
}
use pq.Lifecycle.Rows.{recorded-IsOutcome}
use pq.Lifecycle.Finish.{Finished, finish_one_off-Finished}

module _ (c : Codec) {F : Type 0} (importer : Text → Text → Import F)
    (fork : F → List c.Value → List (Text × c.Value) → (max_runtime : ℕ) → Result ChildResult) where
  -- The time limit of a task: its own, or the worker's where it has none.
  abbrev IsLimit : Task → ℕ → ℕ → Type 0
  IsLimit t max_runtime limit =
      (t.max_runtime_seconds ≡ some limit)
      ⊎ ((t.max_runtime_seconds ≡ none) × (limit ≡ max_runtime))

  -- What is to be recorded of a claimed task: the exception that its function's path or its arguments
  -- raise when they are loaded, or that the fork or the wait raises, or what is due to the end of its child.
  pub data TaskVerdict (elapsed max_runtime : ℕ) (t : Task)
      : TaskStatus × Option ErrorMsg → Type 0 where
    not_found :
        (e : PyError)
        → resolve_function_path importer t.name ≡ err e
        → TaskVerdict elapsed max_runtime t (failed, some (raised e))
    not_read :
        (handler : F) (e : PyError)
        → resolve_function_path importer t.name ≡ ok handler
        → deserialize c (of_column c t.payload) ≡ err e
        → TaskVerdict elapsed max_runtime t (failed, some (raised e))
    not_run :
        (handler : F) (args : List c.Value) (kwargs : List (Text × c.Value)) (limit : ℕ)
        (e : PyError)
        → resolve_function_path importer t.name ≡ ok handler
        → deserialize c (of_column c t.payload) ≡ ok (args, kwargs)
        → IsLimit t max_runtime limit
        → fork handler args kwargs limit ≡ err e
        → TaskVerdict elapsed max_runtime t (failed, some (raised e))
    ran :
        (handler : F) (args : List c.Value) (kwargs : List (Text × c.Value)) (limit : ℕ)
        (r : ChildResult) (out : TaskStatus × Option ErrorMsg)
        → resolve_function_path importer t.name ≡ ok handler
        → deserialize c (of_column c t.payload) ≡ ok (args, kwargs)
        → IsLimit t max_runtime limit
        → fork handler args kwargs limit ≡ ok r
        → RunVerdict elapsed r out
        → TaskVerdict elapsed max_runtime t out

  -- What the run of a claimed task came to.
  outcome_of : ℕ → Task → Option Raised
  outcome_of max_runtime t = execute c importer fork t (get_or t.max_runtime_seconds max_runtime)

  get_or-IsLimit :
      (t : Task) (max_runtime : ℕ)
      → IsLimit t max_runtime (get_or t.max_runtime_seconds max_runtime)
  get_or-IsLimit t max_runtime = elim (Option-cases t.max_runtime_seconds) [
    | inl q ↦ inr (q, rw q refl)
    | inr (n, q) ↦ inl (q ∙ ap some (rw q refl))
  ]

  module _ (t : Task) (limit : ℕ) where
    execute-not_found :
        (e : PyError)
        → resolve_function_path importer t.name ≡ err e
        → execute c importer fork t limit ≡ some (plain_error (raised e))
    unfolding execute run_handler
    execute-not_found e q = rw (q, execute, run_handler) refl

    execute-not_read :
        (handler : F) (e : PyError)
        → resolve_function_path importer t.name ≡ ok handler
        → deserialize c (of_column c t.payload) ≡ err e
        → execute c importer fork t limit ≡ some (plain_error (raised e))
    unfolding execute run_handler
    execute-not_read handler e q k = rw (q, k, execute, run_handler) refl

    execute-not_run :
        (handler : F) (args : List c.Value) (kwargs : List (Text × c.Value)) (e : PyError)
        → resolve_function_path importer t.name ≡ ok handler
        → deserialize c (of_column c t.payload) ≡ ok (args, kwargs)
        → fork handler args kwargs limit ≡ err e
        → execute c importer fork t limit ≡ some (plain_error (raised e))
    unfolding execute run_handler
    execute-not_run handler args kwargs e q k f = rw (q, k, execute, run_handler, f) refl

    execute-ran :
        (handler : F) (args : List c.Value) (kwargs : List (Text × c.Value)) (r : ChildResult)
        → resolve_function_path importer t.name ≡ ok handler
        → deserialize c (of_column c t.payload) ≡ ok (args, kwargs)
        → fork handler args kwargs limit ≡ ok r
        → execute c importer fork t limit ≡ raised_of r
    unfolding execute run_handler
    execute-ran handler args kwargs r q k f = rw (q, k, execute, run_handler, f) refl

  recorded-TaskVerdict :
      (elapsed max_runtime : ℕ) (t : Task)
      → TaskVerdict elapsed max_runtime t (recorded elapsed (outcome_of max_runtime t))
  unfolding outcome_of recorded
  recorded-TaskVerdict elapsed max_runtime t =
      elim (Result-cases (resolve_function_path importer t.name)) [
        | inl (e, q) ↦ concluded (execute-not_found t limit e q) (not_found e q)
        | inr (handler, q) ↦ elim (Result-cases (deserialize c (of_column c t.payload))) [
          | inl (e, k) ↦ concluded (execute-not_read t limit handler e q k) (not_read handler e q k)
          | inr ((args, kwargs), k) ↦ elim (Result-cases (fork handler args kwargs limit)) [
            | inl (e, f) ↦
                concluded (execute-not_run t limit handler args kwargs e q k f)
                  (not_run handler args kwargs limit e q k (get_or-IsLimit t max_runtime) f)
            | inr (r, f) ↦ concluded (execute-ran t limit handler args kwargs r q k f) (
                ran handler args kwargs limit r _ q k (get_or-IsLimit t max_runtime) f
                  (recorded-RunVerdict elapsed r))
          ]
        ]
      ]
    where
      limit : ℕ
      limit = get_or t.max_runtime_seconds max_runtime

      concluded :
          {x y : Option Raised}
          → x ≡ y
          → TaskVerdict elapsed max_runtime t (recorded elapsed y)
          → TaskVerdict elapsed max_runtime t (recorded elapsed x)
      concluded q v = subst (λ o. TaskVerdict elapsed max_runtime t (recorded elapsed o)) (sym q) v

  -- A claim that took a task is followed by one record. If the row is still in the run of the claim
  -- when the child is done, whatever others did to the tables and to the row's parked version
  -- meanwhile, the row's execution is concluded by the status and the message that are due: FAILED
  -- with the exception of a function or arguments that cannot be loaded or of a child that cannot
  -- be forked or waited for, COMPLETED for a success,
  -- FAILED with the elapsed time after a timeout, FAILED with the child's message, or a default one,
  -- after any other end, under the task's own time limit before the worker's; and a version parked
  -- behind it waits next.
  pub process_one_off_task-Finished :
      (env env' : Env) (priorities : Option (List Priority)) (elapsed max_runtime : ℕ)
      (others : Db → Db) (db db1 : Db) (t u : Task)
      → claim_one_off env priorities db ≡ (ok (some t), db1)
      → env'.up ≡ true
      → IsConsistent (others db1)
      → In u (others db1).tasks
      → u.id ≡ t.id
      → u.status ≡ running
      → u.started_at ≡ t.started_at
      → (db' : Db) × (out : TaskStatus × Option ErrorMsg) × (process_one_off_task c importer fork
            env env' priorities elapsed max_runtime others db
          ≡ (true, db'))
        × TaskVerdict elapsed max_runtime t out
        × Finished env' out.0 out.1 u (others db1) db'
  unfolding process_one_off_task after_claim outcome_of
  process_one_off_task-Finished env env' priorities elapsed max_runtime others db db1 t u e up good
        i same r began =
      let s = recorded elapsed (outcome_of max_runtime t) in
      (
        finish_one_off env' u.id u.started_at s.0 s.1 (others db1),
        s,
        rw (e, same, began) refl,
        recorded-TaskVerdict elapsed max_runtime t,
        finish_one_off-Finished env' (others db1) u s.0 s.1 up good i r
            (recorded-IsOutcome elapsed (outcome_of max_runtime t)),
      )
