-- ===== src/Worker/Runner.antt =====
-- `_run_in_child` of src/pq/worker.py: what the forked child does with the handler and its hooks.
-- A child that its own alarm or another signal ends is seen by the parent alone (`WaitStatus`).
pub mod EndToEnd
use pq.Base.{
  ℕ, suc, ◌+◌, ◌*◌, ◌/◌, Bool, true, false, Option, none, some, List, [], ◌∷◌, ◌++◌, Text, codes,
}
use pq.Worker.Child.{exit_success, exit_failure, exit_timeout, WaitStatus, exited}
use pq.Worker.Periodic.{second}

-- What a hook or a handler raises. `asyncio.TimeoutError` is Python's `TimeoutError`. Under
-- `base_exception` stand the exceptions outside `Exception`: SystemExit, KeyboardInterrupt and
-- asyncio's CancelledError.
pub data Exn : Type 0 where
  timeout_exn : Exn
  exception : (type_name text traceback : Text) → Exn
  base_exception : Exn

-- `none` where a call returns.
abbrev pub Outcome : Type 0
Outcome = Option Exn

-- How the child's run of `_run_in_child` ends: by `os._exit` with what it wrote to the error pipe,
-- or by an exception that leaves the function; what becomes of the process then is not modelled.
pub data ChildEnd : Type 0 where
  exits : (exit_code : ℕ) (pipe : List ℕ) → ChildEnd
  escapes : ChildEnd

-- What the report of an exception comes to: formatting it raises, as a `__str__` of it may, or the
-- write does, or the bytes of the text are written.
pub data Report : Type 0 where
  format_raises write_raises written : Report

-- The `try` block: the hook, then the handler, unless the hook raises.
unfoldable pub try_block : Option Outcome → Outcome → Outcome
try_block none handler = handler
try_block (some none) handler = handler
try_block (some (some e)) handler = some e

-- `f"{type(error).__name__}: {error}\n{error_tb}"`
unfoldable pub error_text : Text → Text → Text → Text
error_text type_name text traceback = type_name ++ b':' ∷ b' ' ∷ (text ++ 10 ∷ traceback)

-- `encode` is `str.encode`, for UTF-8 with `errors="replace"`.
module _ (encode : Text → List ℕ) where
  -- The best effort to send the message: what of it reaches the pipe.
  unfoldable pub sent : Report → Text → List ℕ
  sent format_raises text = []
  sent write_raises text = []
  sent written text = encode text

  -- The exit code and the message of the lines after the `try` statement.
  unfoldable pub exit_with : Report → Outcome → ChildEnd
  unfolding sent
  exit_with report none = exits exit_success []
  exit_with report (some timeout_exn) = exits exit_timeout []
  exit_with report (some (exception n t tb)) = exits exit_failure (sent report (error_text n t tb))
  exit_with report (some base_exception) = escapes

  -- The `finally` clause: an `Exception` of the hook is dropped, any other leaves the function.
  unfoldable pub after_hook : Option Outcome → ChildEnd → ChildEnd
  after_hook (some (some base_exception)) end = escapes
  after_hook _ end = end

  -- `signal.alarm` raises, for a time limit that is no C integer, before the `try` statement.
  unfoldable pub run_in_child :
      (alarm_raises : Bool)
      → Report
      → (pre_execute : Option Outcome) (handler : Outcome) (post_execute : Option Outcome)
      → ChildEnd
  unfolding after_hook
  run_in_child true report pre_execute handler post_execute = escapes
  run_in_child false report pre_execute handler post_execute =
      after_hook post_execute (exit_with report (try_block pre_execute handler))

-- `signal.alarm(int(max_runtime) + 1)`, in seconds, for a `max_runtime` in microseconds.
unfoldable pub alarm_seconds : ℕ → ℕ
alarm_seconds max_runtime = max_runtime / second + 1
