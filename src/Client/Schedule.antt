-- ===== src/Client/Schedule.antt =====
-- `PQ.schedule` and `PQ.unschedule` of src/pq/client.py. `croniter` is a record of functions.
-- Intervals are numbers of microseconds: a negative `run_every` or `max_concurrent` is not modelled.
pub mod Existing
use pq.Base.{
  ℕ, suc, ltb, ◌&&◌, Bool, true, false, Option, none, some, List, [], ◌∷◌, ◌++◌, Text, find, update,
  delete, select, length, is_some, text_eq, text_opt_eq, if◌then◌else◌,
}
use pq.Errors.{
  Result, ok, err, integrity_error, value_error, no_timing, two_timings, max_concurrent_above_one,
  invalid_cron, raise_if, ◌>>=◌, ◌>>◌,
}
use pq.Models.{Payload, Periodic, Priority, priority_value}
use pq.Database.{Db, Env, Session, session}
use pq.Registry.{Function, get_function_path}
use pq.Serialization.{Codec, serialize, to_column}
use pq.Client.{Number, validate_max_runtime, after_checks}

pub record Cron : Type 0 where
  -- `croniter(expression)` raises none of KeyError, ValueError, CroniterBadCronError
  pub is_valid : Text → Bool
  -- `croniter(expression, now).get_next(datetime)`
  pub get_next : Text → ℕ → Result ℕ

-- A `croniter` object is known by its expressions, joined with spaces.
pub data CronArg : Type 0 where
  expression croniter_object : Text → CronArg

pub record ScheduleCall (c : Codec) : Type 0 where
  pub task : Function
  pub args : List c.Value
  pub kwargs : List (Text × c.Value)
  pub run_every : Option ℕ
  pub cron : Option CronArg
  pub priority : Priority
  pub client_id : Option Text
  pub max_concurrent : Option ℕ
  pub key : Text
  pub active : Bool
  pub max_runtime_seconds : Option Number

-- The values of the statement.
pub record ScheduleValues : Type 0 where
  pub name : Text
  pub key : Text
  pub payload : Payload
  pub priority : ℕ
  pub run_every : Option ℕ
  pub cron : Option Text
  pub next_run : ℕ
  pub client_id : Option Text
  pub max_concurrent : Option ℕ
  pub active : Bool
  pub max_runtime_seconds : Option ℕ

no_timing_given : Option ℕ → Option CronArg → Bool
no_timing_given none none = true
no_timing_given _ _ = false

above_one : Option ℕ → Bool
above_one none = false
above_one (some n) = ltb 1 n

module _ (cron : Cron) where
  normalize_cron : Option CronArg → Result (Option Text)
  normalize_cron none = ok none
  normalize_cron (some (croniter_object e)) = ok (some e)
  normalize_cron (some (expression e)) =
      if cron.is_valid e then ok (some e) else err (value_error invalid_cron)

  -- `if cron_expr:`: an empty expression counts as none.
  first_run : Option Text → ℕ → Result ℕ
  first_run none now = ok now
  first_run (some []) now = ok now
  first_run (some (x ∷ e)) now = cron.get_next (x ∷ e) now

  -- The lines of `schedule` before its session, in their order.
  unfoldable pub prepare_schedule : (c : Codec) → Env → ScheduleCall c → Result ScheduleValues
  unfolding no_timing_given above_one normalize_cron first_run
  prepare_schedule c env call = do
    raise_if (no_timing_given call.run_every call.cron) no_timing
    raise_if (is_some call.run_every && is_some call.cron) two_timings
    raise_if (above_one call.max_concurrent) max_concurrent_above_one
    max_runtime_seconds ← validate_max_runtime call.max_runtime_seconds
    cron_expr ← normalize_cron call.cron
    name ← get_function_path call.task
    serialized ← serialize c call.args call.kwargs
    payload ← to_column c serialized
    next_run ← first_run cron_expr env.utc_now
    ok (record {
      name = name;
      key = call.key;
      payload = payload;
      priority = priority_value call.priority;
      run_every = call.run_every;
      cron = cron_expr;
      next_run = next_run;
      client_id = call.client_id;
      max_concurrent = call.max_concurrent;
      active = call.active;
      max_runtime_seconds = max_runtime_seconds;
    })

abbrev pub has_name_key : Text → Text → Periodic → Bool
has_name_key name key p = text_eq p.name name && text_eq p.key key

-- The row of the `INSERT`.
unfoldable pub new_periodic : Env → ScheduleValues → ℕ → Periodic
new_periodic env v id = record {
  id = id;
  client_id = v.client_id;
  name = v.name;
  key = v.key;
  payload = v.payload;
  priority = v.priority;
  run_every = v.run_every;
  cron = v.cron;
  next_run = v.next_run;
  max_concurrent = v.max_concurrent;
  active = v.active;
  max_runtime_seconds = v.max_runtime_seconds;
  last_run = none;
  locked_until = none;
  created_at = env.sql_now;
}

-- The `SET` clause, which leaves `client_id`, `last_run` and `locked_until` as they are.
unfoldable pub reschedule_row : ScheduleValues → Periodic → Periodic
reschedule_row v p = record p {
  payload = v.payload;
  priority = v.priority;
  run_every = v.run_every;
  cron = v.cron;
  next_run = v.next_run;
  max_concurrent = v.max_concurrent;
  active = v.active;
  max_runtime_seconds = v.max_runtime_seconds;
}

schedule_client_taken : Option Text → List Periodic → Bool
schedule_client_taken none ps = false
schedule_client_taken (some c) ps = is_some (find (λ p. text_opt_eq p.client_id c) ps)

insert_periodic : Env → ScheduleValues → Session ℕ
unfolding schedule_client_taken
insert_periodic env v db =
    let p = new_periodic env v db.next_periodic_id in
    if schedule_client_taken v.client_id db.periodics
    then err integrity_error
    else ok (
      p.id,
      record db { periodics = db.periodics ++ p ∷ []; next_periodic_id = suc db.next_periodic_id },
    )

-- INSERT … ON CONFLICT (name, key) DO UPDATE … RETURNING id, executed
unfoldable pub execute_schedule : Env → ScheduleValues → Session ℕ
unfolding insert_periodic
execute_schedule env v db = elim (find (has_name_key v.name v.key) db.periodics) [
  | none ↦ insert_periodic env v db
  | some p ↦ ok (
    p.id,
    record db { periodics = update (has_name_key v.name v.key) (reschedule_row v) db.periodics },
  )
]

unfoldable pub schedule : Cron → (c : Codec) → Env → ScheduleCall c → Db → Result ℕ × Db
schedule cron c env call =
    after_checks (prepare_schedule cron c env call) (λ v. session env (execute_schedule env v))

-- `unschedule` of an import path, or of a function.
pub data Target : Type 0 where
  path_text : Text → Target
  callable : Function → Target

target_name : Target → Result Text
target_name (path_text t) = ok t
target_name (callable f) = get_function_path f

delete_periodics : (Periodic → Bool) → Session Bool
delete_periodics p db =
    ok (ltb 0 (length (select p db.periodics)), record db { periodics = delete p db.periodics })

unfoldable pub unschedule : Env → Target → Text → Db → Result Bool × Db
unfolding target_name delete_periodics
unschedule env task key =
    after_checks (target_name task) (λ name. session env (delete_periodics (has_name_key name key)))
