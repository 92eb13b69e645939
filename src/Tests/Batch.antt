-- ===== src/Tests/Batch.antt =====
-- A batch with a repeated client id, on a table whose row of that client executes.
use pq.Base.{ℕ, ◌≡◌, refl, List, [], ◌∷◌, select, codes, text_eq, Text}
use pq.Errors.{ok}
use pq.Models.{priority_value, high}
use pq.Database.{Db}
use pq.Client.{prepare, validate_max_runtime}
use pq.Client.Upsert.{Upsert, Statement, build_statements, upsert_statement, upsert_many}
use pq.Registry.{get_function_path}
use pq.Serialization.{serialize, to_column}
use pq.Lifecycle.Batch.{client_phase, request_all, is_for, upsert_many_lem}
use pq.Tests.Samples.{
  sample_codec, session_at, sync_call, sync_upsert, sync_version, parked_task, with_tasks,
}

abbrev urgent_upsert : Upsert sample_codec
urgent_upsert = record sync_upsert { call = record sync_call { priority = high } }

abbrev batch_statements : List (ℕ × Statement)
batch_statements =
    (0, record { client_id = codes "nightly"; version = record sync_version { run_at = 20 } })
    ∷ (
      1,
      record {
        client_id = codes "nightly";
        version = record sync_version { run_at = 20; priority = 75 };
      },
    )
    ∷ []

upsert_many_example :
    (ids : List ℕ) × (db' : Db) × (upsert_many sample_codec
        (session_at 20)
        (sync_upsert ∷ urgent_upsert ∷ [])
        (with_tasks (parked_task ∷ []))
      ≡ (ok ids, db'))
    × ((k : Text)
        → client_phase k db'
          ≡ request_all
              (select (is_for k) batch_statements)
              (client_phase k (with_tasks (parked_task ∷ []))))
unfolding build_statements upsert_statement prepare validate_max_runtime get_function_path serialize
    to_column text_eq priority_value
upsert_many_example =
    upsert_many_lem sample_codec (session_at 20) (sync_upsert ∷ urgent_upsert ∷ []) batch_statements
      (with_tasks (parked_task ∷ [])) refl refl
