-- ===== src/System.antt =====
-- The task table under any interleaving of the calls of src/pq/client.py and src/pq/worker.py:
-- each call is one transaction, so a run of the system is a sequence of them.
pub mod Keeps
pub mod Runs
use pq.Base.{ℕ, Bool, Option, none, some, List, [], Text}
use pq.Models.{Priority}
use pq.Database.{Db, Env}
use pq.Serialization.{Codec}
use pq.Client.{Call}
use pq.Client.Tasks.{enqueue, cancel, clear_all, clear_completed, clear_failed}
use pq.Client.Upsert.{Upsert, upsert, upsert_many}
use pq.Client.Reaper.{reap_stale_tasks}
use pq.Worker.Child.{Raised, recorded}
use pq.Worker.OneOff.{claim_one_off, finish_one_off}

-- The tables before the first call.
abbrev pub empty_db : Db
empty_db = record { tasks = []; periodics = []; next_task_id = 1; next_periodic_id = 1 }

module _ (c : Codec) where
  -- A call of a client that writes `pq_tasks`.
  pub data ClientCall (db : Db) : Db → Type 0 where
    enqueues :
        (env : Env) (call : Call c) (client_id : Option Text)
        → ClientCall db (enqueue c env call client_id db).1
    upserts : (env : Env) (u : Upsert c) → ClientCall db (upsert c env u db).1
    upserts_many : (env : Env) (us : List (Upsert c)) → ClientCall db (upsert_many c env us db).1
    cancels : (env : Env) (task_id : ℕ) → ClientCall db (cancel env task_id db).1
    clears_all : (env : Env) → ClientCall db (clear_all env db).1
    clears_completed :
        (env : Env) (before : Option ℕ) → ClientCall db (clear_completed env before db).1
    clears_failed : (env : Env) (before : Option ℕ) → ClientCall db (clear_failed env before db).1

  -- One transaction on `pq_tasks`. A `finishes` step may carry any task id and any `started_at`, as
  -- a worker's memory does.
  pub data Step (db : Db) : Db → Type 0 where
    calls : {db' : Db} → ClientCall db db' → Step db db'
    reaps : (env : Env) (threshold : ℕ) → Step db (reap_stale_tasks env threshold db).1
    claims :
        (env : Env) (priorities : Option (List Priority))
        → Step db (claim_one_off env priorities db).1
    finishes :
        (env : Env) (task_id : ℕ) (started_at : Option ℕ) (elapsed : ℕ) (r : Option Raised)
        → Step db
            (finish_one_off env task_id started_at (recorded elapsed r).0 (recorded elapsed r).1 db)

  pub data Reach (db : Db) : Db → Type 0 where
    here : Reach db db
    next : {db' db'' : Db} → Reach db db' → Step db' db'' → Reach db db''
