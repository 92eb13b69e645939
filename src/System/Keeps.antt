-- ===== src/System/Keeps.antt =====
-- The task table's invariant over sequences of calls of src/pq/client.py and src/pq/worker.py.
pub mod Client
pub mod Worker
pub mod Slots
pub mod Rounds
pub mod Loops
pub mod Runs
use pq.Base.{ℕ, Option, none, some, List}
use pq.Lifecycle.Rows.{recorded-IsOutcome}
use pq.Models.{completed, failed}
use pq.Database.{Db, Env}
use pq.Database.Consistent.{IsConsistent}
use pq.Serialization.{Codec}
use pq.Client.Tasks.{expired, clear_completed, clear_failed}
use pq.System.{
  ClientCall, Step, Reach, empty_db, calls, enqueues, upserts, upserts_many, cancels, clears_all,
  clears_completed, clears_failed, reaps, claims, finishes, here, next,
}
use Client.{
  enqueue-IsConsistent, upsert-IsConsistent, upsert_many-IsConsistent, cancel-IsConsistent,
  clear_all-IsConsistent, delete-keeps,
}
use Worker.{claim_one_off-IsConsistent, finish_one_off-IsConsistent, reap_stale_tasks-IsConsistent}

module _ (c : Codec) where
  pub ClientCall-IsConsistent :
      {db db' : Db} → ClientCall c db db' → IsConsistent db → IsConsistent db'
  unfolding clear_completed clear_failed
  ClientCall-IsConsistent {db} (enqueues env call client_id) h =
      enqueue-IsConsistent c env call client_id db h
  ClientCall-IsConsistent {db} (upserts env u) h = upsert-IsConsistent c env u db h
  ClientCall-IsConsistent {db} (upserts_many env us) h = upsert_many-IsConsistent c env us db h
  ClientCall-IsConsistent {db} (cancels env i) h = cancel-IsConsistent env i db h
  ClientCall-IsConsistent {db} (clears_all env) h = clear_all-IsConsistent env db h
  ClientCall-IsConsistent {db} (clears_completed env before) h =
      delete-keeps env (expired completed before) db h
  ClientCall-IsConsistent {db} (clears_failed env before) h =
      delete-keeps env (expired failed before) db h

  -- Every transaction, whether it commits or raises, keeps the rows valid for their status, the ids
  -- fresh and distinct, and the client ids distinct.
  pub Step-IsConsistent : {db db' : Db} → Step c db db' → IsConsistent db → IsConsistent db'
  Step-IsConsistent (calls s) h = ClientCall-IsConsistent s h
  Step-IsConsistent {db} (reaps env threshold) h = reap_stale_tasks-IsConsistent env threshold db h
  Step-IsConsistent {db} (claims env priorities) h = claim_one_off-IsConsistent env priorities db h
  Step-IsConsistent {db} (finishes env i started elapsed r) h =
      finish_one_off-IsConsistent env i started _ _ db (recorded-IsOutcome elapsed r) h

  -- After any sequence of calls of clients, workers and reapers on an empty table, in any order and
  -- with any of them failing, the rows are valid for their status, the ids fresh and distinct, and
  -- the client ids distinct.
  pub Reach-IsConsistent : {db : Db} → Reach c empty_db db → IsConsistent db
  Reach-IsConsistent here = record { valid = tt; below = tt; apart = tt }
  Reach-IsConsistent (next r s) = Step-IsConsistent s (Reach-IsConsistent r)
