-- ===== src/Client.antt =====
-- The parts of src/pq/client.py that every method shares: the checks before a statement is built.
pub mod Tasks
pub mod Listing
pub mod Upsert
pub mod Reaper
pub mod Schedule
use pq.Base.{ℕ, zero, suc, Bool, Option, none, some, Text, List}
use pq.Errors.{Result, ok, err, value_error, not_finite, not_positive, ◌>>=◌, PyError}
use pq.Models.{Payload, Priority, priority_value}
use pq.Registry.{Function, get_function_path}
use pq.Serialization.{Codec, Codec, serialize, to_column}
use pq.Database.{Db}

-- A Python number of seconds: finite ones to the microsecond, `negative n` is -(n + 1) µs.
pub data Number : Type 0 where
  nan : Number
  infinity : (is_negative : Bool) → Number
  negative : ℕ → Number
  micros : ℕ → Number

-- `_validate_max_runtime`. It returns what the caller goes on with: the accepted number.
unfoldable pub validate_max_runtime : Option Number → Result (Option ℕ)
validate_max_runtime none = ok none
validate_max_runtime (some nan) = err (value_error not_finite)
validate_max_runtime (some (infinity is_negative)) = err (value_error not_finite)
validate_max_runtime (some (negative n)) = err (value_error not_positive)
validate_max_runtime (some (micros zero)) = err (value_error not_positive)
validate_max_runtime (some (micros (suc n))) = ok (some (suc n))

-- A call's arguments: a function with what it is called on, and the keywords of the method.
pub record Call (c : Codec) : Type 0 where
  pub task : Function
  pub args : List c.Value
  pub kwargs : List (Text × c.Value)
  pub run_at : Option ℕ
  pub priority : Priority
  pub max_runtime_seconds : Option Number

-- A call after its checks.
pub record Prepared : Type 0 where
  pub name : Text
  pub payload : Payload
  pub run_at : Option ℕ
  pub priority : ℕ
  pub max_runtime_seconds : Option ℕ

-- The lines before the session that `enqueue` and `_upsert_statement` share, in their order. The
-- payload is written as its column holds it.
unfoldable pub prepare : (c : Codec) → Call c → Result Prepared
prepare c call = do
  max_runtime_seconds ← validate_max_runtime call.max_runtime_seconds
  name ← get_function_path call.task
  serialized ← serialize c call.args call.kwargs
  payload ← to_column c serialized
  ok (record {
    name = name;
    payload = payload;
    run_at = call.run_at;
    priority = priority_value call.priority;
    max_runtime_seconds = max_runtime_seconds;
  })

-- A check that raises ends the method before any session.
abbrev pub after_checks : {A B : Type 0} → Result A → (A → Db → Result B × Db) → Db → Result B × Db
after_checks (ok a) f db = f a db
after_checks (err e) f db = (err e, db)
