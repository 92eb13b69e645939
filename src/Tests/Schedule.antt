-- ===== src/Tests/Schedule.antt =====
-- A schedule of the client "billing" that another client sets to another interval.
use pq.Base.{find, ◌≡◌, refl, true, none, some, [], ◌∷◌, codes, text_eq}
use pq.Errors.{ok}
use pq.Models.{Periodic, normal, priority_value}
use pq.Database.{Db}
use pq.Client.{validate_max_runtime}
use pq.Client.Schedule.{ScheduleCall, ScheduleValues, prepare_schedule, schedule}
use pq.Client.Schedule.Existing.{Rescheduled, schedule-Rescheduled}
use pq.Registry.{get_function_path}
use pq.Serialization.{serialize, to_column}
use pq.Tests.Samples.{sample_codec, session_at, sync_function, no_payload}
use pq.Tests.Worker.{no_cron, advanced_schedule}

abbrev billing_schedule : Periodic
billing_schedule = record advanced_schedule { client_id = some (codes "billing") }

abbrev billing_db : Db
billing_db = record {
  tasks = [];
  periodics = billing_schedule ∷ [];
  next_task_id = 1;
  next_periodic_id = 2;
}

abbrev other_call : ScheduleCall sample_codec
other_call = record {
  task = sync_function;
  args = [];
  kwargs = [];
  run_every = some 7;
  cron = none;
  priority = normal;
  client_id = some (codes "audit");
  max_concurrent = some 1;
  key = [];
  active = true;
  max_runtime_seconds = none;
}

abbrev other_values : ScheduleValues
other_values = record {
  name = codes "app:sync";
  key = [];
  payload = no_payload;
  priority = 50;
  run_every = some 7;
  cron = none;
  next_run = 20;
  client_id = some (codes "audit");
  max_concurrent = some 1;
  active = true;
  max_runtime_seconds = none;
}

schedule-Rescheduled_example :
    (db' : Db) × (schedule no_cron sample_codec (session_at 20) other_call billing_db ≡ (ok 1, db'))
    × Rescheduled other_values billing_schedule billing_db db'
unfolding prepare_schedule validate_max_runtime get_function_path serialize to_column text_eq
    priority_value find
schedule-Rescheduled_example =
    schedule-Rescheduled no_cron sample_codec (session_at 20) other_call other_values billing_db
      billing_schedule refl refl refl
