-- ===== src/Client/Schedule/Existing.antt =====
-- `PQ.schedule` of src/pq/client.py on a name and a key that the table has.
use pq.Base.{◌≡◌, refl, true, some, find, update, delete, find-update-some, delete-update}
use pq.Errors.{ok}
use pq.Models.{Periodic}
use pq.Database.{Db, Env}
use pq.Database.Sessions.{session_ok}
use pq.Serialization.{Codec}
use pq.Client.Schedule.{
  Cron, ScheduleCall, ScheduleValues, prepare_schedule, has_name_key, reschedule_row,
  execute_schedule, schedule,
}

-- What became of the row `p`.
pub record Rescheduled (v : ScheduleValues) (p : Periodic) (db db' : Db) : Type 0 where
  pub row : Periodic
  pub found : find (has_name_key v.name v.key) db'.periodics ≡ some row
  pub same_id : row.id ≡ p.id
  pub same_client : row.client_id ≡ p.client_id
  pub same_lock : row.locked_until ≡ p.locked_until
  pub same_last_run : row.last_run ≡ p.last_run
  pub new_next_run : row.next_run ≡ v.next_run
  pub new_limit : row.max_concurrent ≡ v.max_concurrent
  pub new_active : row.active ≡ v.active
  pub others :
      delete (has_name_key v.name v.key) db'.periodics
      ≡ delete (has_name_key v.name v.key) db.periodics
  pub tasks_kept : db'.tasks ≡ db.tasks

-- While the database answers, a call of `schedule` whose checks pass on a name and a key that have a
-- row returns that row's id. The row takes the call's next run, limit and `active` flag; it keeps
-- its own client id, whatever the call's is, its last run and the lock of a run in progress. All
-- other schedules and the tasks stay.
pub schedule-Rescheduled :
    (cron : Cron) (c : Codec) (env : Env) (call : ScheduleCall c) (v : ScheduleValues) (db : Db)
    (p : Periodic)
    → env.up ≡ true
    → prepare_schedule cron c env call ≡ ok v
    → find (has_name_key v.name v.key) db.periodics ≡ some p
    → (db' : Db) × (schedule cron c env call db ≡ (ok p.id, db')) × Rescheduled v p db db'
unfolding schedule execute_schedule
schedule-Rescheduled cron c env call v db p up h e =
    let q = has_name_key v.name v.key in
    let db' : Db = record db { periodics = update q (reschedule_row v) db.periodics } in
    (
      db',
      rw h (session_ok env (execute_schedule env v) db up (runs e)),
      record {
        row = reschedule_row v p;
        found = find-update-some q (reschedule_row v) keep db.periodics e;
        same_id = unfold reschedule_row in refl;
        same_client = unfold reschedule_row in refl;
        same_lock = unfold reschedule_row in refl;
        same_last_run = unfold reschedule_row in refl;
        new_next_run = unfold reschedule_row in refl;
        new_limit = unfold reschedule_row in refl;
        new_active = unfold reschedule_row in refl;
        others = delete-update q (reschedule_row v) keep db.periodics;
        tasks_kept = refl;
      },
    )
  where
    keep :
        (r : Periodic)
        → has_name_key v.name v.key r ≡ true
        → has_name_key v.name v.key (reschedule_row v r) ≡ true
    keep r k = unfold reschedule_row in k

    runs :
        find (has_name_key v.name v.key) db.periodics ≡ some p
        → execute_schedule env v db
          ≡ ok (
            p.id,
            record db {
              periodics = update (has_name_key v.name v.key) (reschedule_row v) db.periodics;
            },
          )
    runs k = rw (execute_schedule, k) refl
