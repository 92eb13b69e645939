-- ===== src/Tests/System.antt =====
-- The theorems about sequences of calls, on a short history of one client and one worker.
use pq.Base.{◌≡◌, refl, none, some, [], ◌∷◌, text_eq, find, update, select}
use pq.Errors.{ok}
use pq.Models.{running, Task, priority_value}
use pq.Database.{Db, session, insert_task, client_taken, put_task, elem}
use pq.Database.Consistent.{IsConsistent}
use pq.Client.{prepare, validate_max_runtime}
use pq.Registry.{get_function_path}
use pq.Serialization.{serialize, to_column}
use pq.Client.Upsert.{upsert, upsert_statement, execute_upsert, upsert_new}
use pq.Worker.OneOff.{claim_one_off, claim_body, pick_task, is_claimable, start_run}
use pq.Worker.Query.{wanted, first_row}
use pq.System
use pq.System.{empty_db, upserts}
use pq.System.Keeps.{Reach-IsConsistent}
use pq.System.Runs
use pq.System.Runs.{client, claim}
use pq.System.Runs.Exclusive.{IsExclusive, Reach-IsExclusive}
use pq.Tests.Samples.{sample_codec, session_at, sync_upsert, waiting_task}

abbrev after_upsert : Db
after_upsert = (upsert sample_codec (session_at 5) sync_upsert empty_db).1

Reach-IsConsistent_example : IsConsistent (claim_one_off (session_at 10) none after_upsert).1
Reach-IsConsistent_example = Reach-IsConsistent sample_codec (
    System.Reach.next
      (System.Reach.next System.Reach.here (System.Step.calls (upserts (session_at 5) sync_upsert)))
      (System.Step.claims (session_at 10) none))

abbrev claimed_task : Task
claimed_task = record waiting_task { status = running; started_at = some 10; attempts = 1 }

abbrev after_claim : Db
after_claim = record {
  tasks = claimed_task ∷ [];
  periodics = [];
  next_task_id = 2;
  next_periodic_id = 1;
}

claim-after_upsert :
    claim_one_off (session_at 10) none after_upsert ≡ (ok (some claimed_task), after_claim)
unfolding elem claim_one_off claim_body pick_task is_claimable wanted first_row start_run upsert
    upsert_statement execute_upsert upsert_new prepare validate_max_runtime get_function_path
    serialize to_column text_eq priority_value session insert_task client_taken put_task find update
    select
claim-after_upsert = refl

Reach-IsExclusive_example :
    IsExclusive (record { db = after_claim; runs = record { task_id = 1; started = 10 } ∷ [] })
Reach-IsExclusive_example = Reach-IsExclusive sample_codec (
    Runs.Reach.next (Runs.Reach.next Runs.Reach.here (client (upserts (session_at 5) sync_upsert)))
      (claim (session_at 10) none claimed_task after_claim 10 claim-after_upsert refl))
