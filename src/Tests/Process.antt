-- ===== src/Tests/Process.antt =====
-- One task from its claim to its record, while a client parks a newer version behind it.
use pq.Base.{
  false, find, update, select, Bool, ℕ, ◌≡◌, refl, inl, true, Option, none, some, List, [], ◌∷◌,
  Text, codes, arith,
}
use pq.Errors.{Result, ok}
use pq.Models.{TaskStatus, ErrorMsg}
use pq.Database.{Db, elem, session, put_task}
use pq.Worker.Query.{wanted, first_row}
use pq.Registry.{Import, found}
use pq.Worker.Child.{ChildResult, exited, child_result}
use pq.Worker.OneOff.{process_one_off_task}
use pq.Lifecycle.Finish.{Finished}
use pq.Lifecycle.Process.{TaskVerdict, process_one_off_task-Finished}
use pq.Tests.Samples.{sample_codec, session_at, parked_task, waiting_task, with_tasks}
use pq.Worker.OneOff.{claim_one_off, claim_body, pick_task, is_claimable, start_run}

abbrev pub sample_importer : Text → Text → Import Text
sample_importer m n = found n

abbrev failing_fork :
    Text → List (Text × Bool) → List (Text × (Text × Bool)) → ℕ → Result ChildResult
failing_fork f args kwargs max_runtime =
    ok (child_result false 0 0 false (exited 1) (codes "KeyError: k"))

abbrev parks : Db → Db
parks db = with_tasks (parked_task ∷ [])

pub claim-waiting_task : claim_one_off (session_at 10) none (with_tasks (waiting_task ∷ [])) ≡ (
  ok (some (record parked_task { requeue = none })),
  with_tasks (record parked_task { requeue = none } ∷ []),
)
unfolding elem claim_one_off claim_body pick_task is_claimable wanted first_row start_run session
    put_task find update select
claim-waiting_task = refl

process_one_off_task-Finished_example :
    (db' : Db) × (out : TaskStatus × Option ErrorMsg) × (process_one_off_task sample_codec
        sample_importer failing_fork
        (session_at 10)
        (session_at 30)
        none
        20
        60
        parks
        (with_tasks (waiting_task ∷ []))
      ≡ (true, db'))
    × TaskVerdict sample_codec sample_importer failing_fork 20 60
        (record parked_task { requeue = none })
        out
    × Finished (session_at 30) out.0 out.1 parked_task (with_tasks (parked_task ∷ [])) db'
process_one_off_task-Finished_example =
    process_one_off_task-Finished sample_codec sample_importer failing_fork (session_at 10)
      (session_at 30) none 20 60 parks (with_tasks (waiting_task ∷ []))
      (with_tasks (record parked_task { requeue = none } ∷ []))
      (record parked_task { requeue = none }) parked_task claim-waiting_task refl (ground arith)
      (inl refl) refl refl refl
