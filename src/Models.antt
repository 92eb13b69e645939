-- ===== src/Models.antt =====
-- src/pq/models.py and src/pq/priority.py: the rows of the two tables.
-- Instants and durations are numbers of microseconds, the resolution of the columns; a positive
-- number of seconds in a `max_runtime_seconds` column is one too. A text of the `error` column is a
-- value of `ErrorMsg`, with a constructor for each format string and what it interpolates.
pub mod Valid
use pq.Base.{ℕ, ◌≡◌, Bool, true, false, Option, none, some, List, [], ◌∷◌, Text, ◌==◌}
use pq.Errors.{Result, ok, err, PyError, value_error, no_parked_version}

pub data TaskStatus : Type 0 where
  pending running completed failed : TaskStatus

abbrev pub status_eq : TaskStatus → TaskStatus → Bool
status_eq pending pending = true
status_eq running running = true
status_eq completed completed = true
status_eq failed failed = true
status_eq _ _ = false

pub data Priority : Type 0 where
  batch low normal high critical : Priority

-- `int(priority)` and `p.value`
unfoldable pub priority_value : Priority → ℕ
priority_value batch = 0
priority_value low = 25
priority_value normal = 50
priority_value high = 75
priority_value critical = 100

-- What a JSONB column holds; a number is its literal.
mutual
  pub data Json : Type 0 where
    null : Json
    bool : Bool → Json
    number : Text → Json
    str : Text → Json
    arr : Items → Json
    obj : Members → Json

  pub data Items : Type 0 where
    nil : Items
    cons : Json → Items → Items

  pub data Members : Type 0 where
    end : Members
    member : Text → Json → Members → Members

-- The dictionary that `serialize` returns, stored in a `payload` column.
pub record Payload : Type 0 where
  pub args : List Json
  pub kwargs : List (Text × Json)
  pub pickled_args : List ℕ
  pub pickled_kwargs : List Text

pub data ErrorMsg : Type 0 where
  message : Text → ErrorMsg
  task_failed : ErrorMsg
  exceeded_max_runtime : ErrorMsg
  timed_out : (elapsed : ℕ) → ErrorMsg
  interrupted : (drain_timeout : ℕ) → ErrorMsg
  likely_oom : (max_rss_kb : ℕ) → ErrorMsg
  killed_by_signal : (signal_num : ℕ) → ErrorMsg
  failed_with_exit_code : (exit_code : ℕ) → ErrorMsg
  unknown_exit_status : ErrorMsg
  raised : PyError → ErrorMsg
  reaped : (threshold : ℕ) (max_runtime_seconds : Option ℕ) (effective : ℕ) → ErrorMsg

-- `if error_msg:` of a text: only the empty one is false.
abbrev pub is_truthy : ErrorMsg → Bool
is_truthy (message []) = false
is_truthy _ = true

-- The dictionary parked in `Task.requeue`.
pub record Version : Type 0 where
  pub name : Text
  pub payload : Payload
  pub priority : ℕ
  pub run_at : ℕ
  pub max_runtime_seconds : Option ℕ

pub record Task : Type 0 where
  pub id : ℕ
  pub client_id : Option Text
  pub name : Text
  pub payload : Payload
  pub priority : ℕ
  pub status : TaskStatus
  pub run_at : ℕ
  pub created_at : ℕ
  pub started_at : Option ℕ
  pub completed_at : Option ℕ
  pub error : Option ErrorMsg
  pub attempts : ℕ
  pub max_runtime_seconds : Option ℕ
  pub requeue : Option Version

abbrev pub with_version : Version → Task → Task
with_version spec t = record t {
  name = spec.name;
  payload = spec.payload;
  priority = spec.priority;
  run_at = spec.run_at;
  max_runtime_seconds = spec.max_runtime_seconds;
  status = pending;
  attempts = 0;
  started_at = none;
  completed_at = none;
  error = none;
  requeue = none;
}

-- `Task.apply_requeue`; `run_at` round-trips through ISO 8601, so it is kept as the instant.
unfoldable pub apply_requeue : Task → Result Task
apply_requeue t = elim t.requeue [
  | none ↦ err (value_error no_parked_version)
  | some spec ↦ ok (with_version spec t)
]

pub record Periodic : Type 0 where
  pub id : ℕ
  pub client_id : Option Text
  pub name : Text
  pub key : Text
  pub payload : Payload
  pub priority : ℕ
  pub run_every : Option ℕ
  pub cron : Option Text
  pub next_run : ℕ
  pub max_concurrent : Option ℕ
  pub active : Bool
  pub max_runtime_seconds : Option ℕ
  pub last_run : Option ℕ
  pub locked_until : Option ℕ
  pub created_at : ℕ
