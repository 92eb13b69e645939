-- ===== src/Tests/Samples.antt =====
-- Small inputs that the tests share: a codec, a function, sessions and tables.
use pq.Base.{ℕ, Bool, true, false, none, some, List, [], Text, codes}
use pq.Errors.{ok}
use pq.Models.{Json, str, Payload, Version, Task, pending, running, normal}
use pq.Database.{Db, Env}
use pq.Registry.{Function, text_value}
use pq.Serialization.{Codec}
use pq.Client.{Call}
use pq.Client.Upsert.{Upsert}

abbrev pub read_json : Json → Text × Bool
read_json (str t) = (t, true)
read_json _ = ([], true)

-- A value is a text that `json` takes or does not take; the others are pickled as they are.
abbrev pub sample_codec : Codec
sample_codec = record {
  Value = Text × Bool;
  Bytes = Text;
  model_dump = λ v. none;
  json_dumps = λ v. v.1;
  dill_dumps = λ v. ok v.0;
  dill_loads = λ b. ok (b, false);
  b64encode = λ b. b;
  b64decode = λ t. ok t;
  from_text = λ t. (t, true);
  as_text = λ v. some v.0;
  to_json = λ v. ok (str v.0);
  of_json = read_json;
  stored = λ fs. fs;
}

abbrev pub sync_function : Function
sync_function = record {
  name_attr = text_value (codes "sync");
  module_attr = text_value (codes "app");
  has_free_variables = false;
}

abbrev pub session_at : ℕ → Env
session_at now = record { up = true; utc_now = now; sql_now = now; locked = [] }

abbrev pub no_payload : Payload
no_payload = record { args = []; kwargs = []; pickled_args = []; pickled_kwargs = [] }

abbrev pub sync_version : Version
sync_version = record {
  name = codes "app:sync";
  payload = no_payload;
  priority = 50;
  run_at = 5;
  max_runtime_seconds = none;
}

abbrev pub next_version : Version
next_version = record sync_version { run_at = 9; priority = 75 }

abbrev pub sync_call : Call sample_codec
sync_call = record {
  task = sync_function;
  args = [];
  kwargs = [];
  run_at = none;
  priority = normal;
  max_runtime_seconds = none;
}

abbrev pub sync_upsert : Upsert sample_codec
sync_upsert = record { call = sync_call; client_id = codes "nightly" }

abbrev pub waiting_task : Task
waiting_task = record {
  id = 1;
  client_id = some (codes "nightly");
  name = codes "app:sync";
  payload = no_payload;
  priority = 50;
  status = pending;
  run_at = 5;
  created_at = 5;
  started_at = none;
  completed_at = none;
  error = none;
  attempts = 0;
  max_runtime_seconds = none;
  requeue = none;
}

-- The same row under execution since 10, with a newer version behind it.
abbrev pub parked_task : Task
parked_task = record waiting_task {
  status = running;
  started_at = some 10;
  attempts = 1;
  requeue = some next_version;
}

abbrev pub with_tasks : List Task → Db
with_tasks ts = record { tasks = ts; periodics = []; next_task_id = 4; next_periodic_id = 1 }
