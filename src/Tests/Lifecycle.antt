-- ===== src/Tests/Lifecycle.antt =====
-- The lifecycle theorems on a table with one row of the client "nightly".
use pq.Base.{
  ℕ, ◌≡◌, ◌≢◌, refl, inl, inr, none, some, [], ◌∷◌, ◌⊎◌, select, length, In, arith, codes, text_eq,
}
use pq.Errors.{ok}
use pq.Models.{priority_value, Task, failed, running, message}
use pq.Database.{Db}
use pq.Database.Consistent.{IsConsistent}
use pq.Client.Reaper.{reap_stale_tasks, is_stale}
use pq.Client.Upsert.{upsert, upsert_statement}
use pq.Client.{prepare, validate_max_runtime}
use pq.Registry.{get_function_path}
use pq.Serialization.{serialize, to_column}
use pq.Worker.OneOff.{claim_one_off, finish_one_off, is_claimable}
use pq.Lifecycle.Upsert.{Upserted, upsert-Upserted}
use pq.Lifecycle.Claim.{Claimed, claim_one_off-Claimed}
use pq.Lifecycle.Finish.{
  Finished, finish_one_off-Finished, finish_one_off_superseded, finish_one_off-none,
}
use pq.Lifecycle.Reap.{Reaped, reap_stale_tasks-Reaped}
use pq.Tests.Samples.{
  sample_codec, session_at, sync_upsert, sync_version, waiting_task, parked_task, with_tasks,
}

waiting-IsConsistent : IsConsistent (with_tasks (waiting_task ∷ []))
waiting-IsConsistent = ground arith

parked-IsConsistent : IsConsistent (with_tasks (parked_task ∷ []))
parked-IsConsistent = ground arith

upsert-Upserted_example :
    (id : ℕ) × (db' : Db) × (upsert sample_codec
        (session_at 20)
        sync_upsert
        (with_tasks (parked_task ∷ []))
      ≡ (ok id, db'))
    × Upserted
        (record { client_id = codes "nightly"; version = record sync_version { run_at = 20 } })
        (with_tasks (parked_task ∷ []))
        db'
        id
unfolding upsert_statement prepare validate_max_runtime get_function_path serialize to_column
    text_eq priority_value
upsert-Upserted_example =
    upsert-Upserted sample_codec (session_at 20) sync_upsert
      (record { client_id = codes "nightly"; version = record sync_version { run_at = 20 } })
      (with_tasks (parked_task ∷ [])) refl refl

claim_one_off-Claimed_example :
    ((claim_one_off (session_at 20) none (with_tasks (waiting_task ∷ []))
        ≡ (ok none, with_tasks (waiting_task ∷ [])))
      × (select (is_claimable (session_at 20) none) (waiting_task ∷ []) ≡ []))
    ⊎ ((t' : Task) × (db' : Db) × (claim_one_off
            (session_at 20)
            none
            (with_tasks (waiting_task ∷ []))
          ≡ (ok (some t'), db'))
        × Claimed (session_at 20) none (with_tasks (waiting_task ∷ [])) db' t')
claim_one_off-Claimed_example =
    claim_one_off-Claimed (session_at 20) none (with_tasks (waiting_task ∷ [])) refl
      waiting-IsConsistent

finish_one_off-Finished_example :
    Finished
      (session_at 30)
      failed
      (some (message (codes "boom")))
      parked_task
      (with_tasks (parked_task ∷ []))
      (finish_one_off
        (session_at 30)
        1
        (some 10)
        failed
        (some (message (codes "boom")))
        (with_tasks (parked_task ∷ [])))
finish_one_off-Finished_example =
    finish_one_off-Finished (session_at 30) (with_tasks (parked_task ∷ [])) parked_task failed
      (some (message (codes "boom"))) refl parked-IsConsistent (inl refl) refl (inr refl)

finish_one_off_superseded_example :
    finish_one_off (session_at 30) 1 (some 7) failed none (with_tasks (parked_task ∷ []))
    ≡ with_tasks (parked_task ∷ [])
finish_one_off_superseded_example =
    finish_one_off_superseded (session_at 30) (with_tasks (parked_task ∷ [])) 1 (some 7) failed none
      other_run
  where
    other_run :
        (t : Task) → In t (parked_task ∷ []) → t.id ≡ 1 → t.status ≡ running → t.started_at ≢ some 7
    other_run t (inl e) i r s = ground arith
    other_run t (inr n) i r s = n

finish_one_off-none_example :
    finish_one_off (session_at 30) 1 none failed none (with_tasks (parked_task ∷ []))
    ≡ with_tasks (parked_task ∷ [])
finish_one_off-none_example =
    finish_one_off-none (session_at 30) (with_tasks (parked_task ∷ [])) 1 failed none
      parked-IsConsistent

reap_stale_tasks-Reaped_example :
    (db' : Db) × (reap_stale_tasks (session_at 100) 50 (with_tasks (parked_task ∷ []))
      ≡ (ok (length (select (is_stale (session_at 100) 50) (parked_task ∷ []))), db'))
    × Reaped (session_at 100) 50 (with_tasks (parked_task ∷ [])) db'
reap_stale_tasks-Reaped_example =
    reap_stale_tasks-Reaped (session_at 100) 50 (with_tasks (parked_task ∷ [])) refl
      parked-IsConsistent
