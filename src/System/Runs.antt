-- ===== src/System/Runs.antt =====
-- The workers' live runs beside the task table. A run is what a worker remembers of a claim: the
-- task id and the `started_at` that the claim wrote. Workers may die; the reaper is assumed to leave
-- live runs alone, as the documentation of `stale_task_timeout` in src/pq/worker.py asks.
mod Held
mod Calls
mod Splits
pub mod Exclusive
use pq.Base.{ℕ, ◌≡◌, ◌≢◌, Option, none, some, List, [], ◌∷◌, ◌++◌, All, In, false}
use pq.Errors.{Result, ok}
use pq.Models.{Task, Priority}
use pq.Database.{Db, Env}
use pq.Serialization.{Codec}
use pq.Client.Reaper.{is_stale, reap_stale_tasks}
use pq.Worker.Child.{Raised, recorded}
use pq.Worker.OneOff.{claim_one_off, finish_one_off}
use pq.System.{ClientCall, empty_db}

pub record Run : Type 0 where
  pub task_id : ℕ
  pub started : ℕ

pub record World : Type 0 where
  pub db : Db
  pub runs : List Run

-- No row of a live run is past its stale window.
abbrev pub SparesRuns : Env → ℕ → World → Type 0
SparesRuns env threshold w =
    All (λ r. (t : Task) → In t w.db.tasks → t.id ≡ r.task_id → is_stale env threshold t ≡ false)
      w.runs

module _ (c : Codec) where
  pub data Move (w : World) : World → Type 0 where
    client : {db' : Db} → ClientCall c w.db db' → Move w (record { db = db'; runs = w.runs })
    reap :
        (env : Env) (threshold : ℕ)
        → SparesRuns env threshold w
        → Move w (record { db = (reap_stale_tasks env threshold w.db).1; runs = w.runs })
    -- a claim that found a row: its worker has a run more
    claim :
        (env : Env) (priorities : Option (List Priority)) (t : Task) (db' : Db) (started : ℕ)
        → claim_one_off env priorities w.db ≡ (ok (some t), db')
        → t.started_at ≡ some started
        → Move w (record { db = db'; runs = record { task_id = t.id; started = started } ∷ w.runs })
    -- a run ends, and its worker records the outcome
    finish :
        (env : Env) (before after : List Run) (r : Run) (elapsed : ℕ) (raised : Option Raised)
        → w.runs ≡ before ++ r ∷ after
        → Move w (record {
          db =
              finish_one_off env r.task_id
                (some r.started)
                (recorded elapsed raised).0
                (recorded elapsed raised).1
                w.db;
          runs = before ++ after;
        })
    -- a worker dies, and records nothing
    die :
        (before after : List Run) (r : Run)
        → w.runs ≡ before ++ r ∷ after
        → Move w (record { db = w.db; runs = before ++ after })

  pub data Reach (w : World) : World → Type 0 where
    here : Reach w w
    next : {w' w'' : World} → Reach w w' → Move w' w'' → Reach w w''

abbrev pub start : World
start = record { db = empty_db; runs = [] }
