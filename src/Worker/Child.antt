-- ===== src/Worker/Child.antt =====
-- `_ChildResult`, the last part of `_wait_for_child`, and `_execute_in_fork` of src/pq/worker.py:
-- what a child's exit status and error pipe come to.
pub mod Outcome
pub mod Verdict
use pq.Base.{
  ℕ, suc, ◌/◌, ltb, leb, ◌==◌, Bool, true, false, ◌&&◌, ◌||◌, Option, none, some, List, [], ◌∷◌,
  Text, codes, if◌then◌else◌,
}
use pq.Models.{
  TaskStatus, completed, failed, ErrorMsg, message, task_failed, exceeded_max_runtime, timed_out,
  interrupted, likely_oom, killed_by_signal, failed_with_exit_code, unknown_exit_status, is_truthy,
}

abbrev pub exit_success : ℕ
exit_success = 0

abbrev pub exit_failure : ℕ
exit_failure = 1

abbrev pub exit_timeout : ℕ
exit_timeout = 124

abbrev pub sigkill : ℕ
sigkill = 9

pub data ExitKind : Type 0 where
  success timeout oom killed shutdown error : ExitKind

pub record ChildResult : Type 0 where
  pub task_status : TaskStatus
  pub error_msg : Option ErrorMsg
  pub exit_kind : ExitKind

-- The status word of `os.wait4`.
pub data WaitStatus : Type 0 where
  signaled exited : ℕ → WaitStatus
  other_status : WaitStatus

-- The whitespace of `str.rstrip()`.
unfoldable pub is_space : ℕ → Bool
is_space c =
    (leb 9 c && leb c 13)
    || (leb 28 c && leb c 32)
    || c == 133
    || c == 160
    || c == 5760
    || (leb 8192 c && leb c 8202)
    || c == 8232
    || c == 8233
    || c == 8239
    || c == 8287
    || c == 12288

unfoldable pub strip_step : ℕ → Text → Text
unfolding is_space
strip_step c (d ∷ t) = c ∷ d ∷ t
strip_step c [] = if is_space c then [] else c ∷ []

unfoldable pub rstrip : Text → Text
unfolding strip_step
rstrip [] = []
rstrip (c ∷ t) = strip_step c (rstrip t)

module _ (killed_by_drain : Bool) (drain_timeout max_rss : ℕ) (is_darwin : Bool) where
  unfoldable pub signal_result : ℕ → ChildResult
  signal_result signal_num =
      if killed_by_drain && signal_num == sigkill
      then record {
        task_status = failed;
        error_msg = some (interrupted drain_timeout);
        exit_kind = shutdown;
      }
      else if signal_num == sigkill
      then record {
        task_status = failed;
        error_msg = some (likely_oom (if is_darwin then max_rss / 1024 else max_rss));
        exit_kind = oom;
      }
      else record {
        task_status = failed;
        error_msg = some (killed_by_signal signal_num);
        exit_kind = killed;
      }

  unfoldable pub error_result : ℕ → Text → ChildResult
  error_result exit_code [] = record {
    task_status = failed;
    error_msg = some (failed_with_exit_code exit_code);
    exit_kind = error;
  }
  error_result exit_code (c ∷ t) = record {
    task_status = failed;
    error_msg = some (message (rstrip (c ∷ t)));
    exit_kind = error;
  }

  unfoldable pub exit_result : ℕ → Text → ChildResult
  unfolding error_result
  exit_result exit_code error_msg =
      if exit_code == exit_success
      then record { task_status = completed; error_msg = none; exit_kind = success }
      else if exit_code == exit_timeout
      then record {
        task_status = failed;
        error_msg = some exceeded_max_runtime;
        exit_kind = timeout;
      }
      else error_result exit_code error_msg

  -- From the status word and the decoded text of the error pipe.
  unfoldable pub child_result : WaitStatus → Text → ChildResult
  unfolding signal_result exit_result
  child_result (signaled signal_num) error_msg = signal_result signal_num
  child_result (exited exit_code) error_msg = exit_result exit_code error_msg
  child_result other_status error_msg = record {
    task_status = failed;
    error_msg = some unknown_exit_status;
    exit_kind = error;
  }

-- The exceptions that `_execute_in_fork` raises, with `str(e)`; `plain_error` is any other.
pub data Raised : Type 0 where
  timeout_error oom_error killed_error interrupted_error plain_error : ErrorMsg → Raised

-- `error_msg or default`
unfoldable pub or_default : Option ErrorMsg → ErrorMsg → ErrorMsg
or_default none d = d
or_default (some m) d = if is_truthy m then m else d

unfoldable pub raise_kind : ExitKind → Option ErrorMsg → Option Raised
unfolding or_default
raise_kind success m = none
raise_kind timeout m = some (timeout_error (or_default m exceeded_max_runtime))
raise_kind oom m = some (oom_error (or_default m (message (codes "Task killed (likely OOM)"))))
raise_kind killed m = some (killed_error (or_default m (message (codes "Task killed by signal"))))
raise_kind shutdown m =
    some (interrupted_error (or_default m (message (codes "Task interrupted by worker shutdown"))))
raise_kind error m = some (plain_error (or_default m task_failed))

-- `_execute_in_fork` after the wait: `none` where it returns.
unfoldable pub raised_of : ChildResult → Option Raised
unfolding raise_kind
raised_of r = raise_kind r.exit_kind r.error_msg

-- The `except` clauses of `_process_one_off_task`: the status and the message to record.
unfoldable pub recorded : ℕ → Option Raised → TaskStatus × Option ErrorMsg
recorded elapsed none = (completed, none)
recorded elapsed (some (timeout_error m)) = (failed, some (timed_out elapsed))
recorded elapsed (some (oom_error m)) = (failed, some m)
recorded elapsed (some (killed_error m)) = (failed, some m)
recorded elapsed (some (interrupted_error m)) = (failed, some m)
recorded elapsed (some (plain_error m)) = (failed, some m)

-- The same in `_reap_and_update`, for a one-off slot.
slot_message : ℕ → ExitKind → Option ErrorMsg → Option ErrorMsg
slot_message elapsed timeout m = some (timed_out elapsed)
slot_message elapsed _ m = m

unfoldable pub slot_recorded : ℕ → ChildResult → TaskStatus × Option ErrorMsg
unfolding slot_message
slot_recorded elapsed r = (r.task_status, slot_message elapsed r.exit_kind r.error_msg)
