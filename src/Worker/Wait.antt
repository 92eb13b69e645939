-- ===== src/Worker/Wait.antt =====
-- `_wait_for_child` of src/pq/worker.py. What the system answers in one round of the loop is a
-- `Poll`: the loop runs over the rounds that happen.
pub mod Outcome
pub mod Timeout
pub mod Interrupted
pub mod Raises
use pq.Base.{
  ℕ, ◌+◌, ◌-◌, leb, ltb, Bool, true, false, ◌&&◌, ◌||◌, not, Option, none, some, List, [], ◌∷◌,
  ◌++◌, Text, is_some, if◌then◌else◌,
}
use mathlib.Core.Option
use pq.Errors.{PyError}
use pq.Worker.Child.{ChildResult, WaitStatus, child_result}
use pq.Worker.Shutdown.{
  ShutdownState, requested, deadline_passed, log_request, Arrivals, handle_all,
}

-- `os.read`: bytes, or an exception.
pub data Read : Type 0 where
  bytes : List ℕ → Read
  read_fails : Read

-- What one round of the loop gets: `os.wait4(child_pid, os.WNOHANG)` raises, or gives the status and
-- `ru_maxrss` of a child that has exited; or the child still runs and `select` raises, or it ends with
-- what `os.read` finds in the pipe, `none` where the pipe is not ready.
pub data Answer : Type 0 where
  wait4_raises select_raises : PyError → Answer
  has_exited : WaitStatus × ℕ → Answer
  still_runs : Option Read → Answer

pub record Poll : Type 0 where
  -- signals handled since the round before
  pub arrivals : Arrivals
  pub answer : Answer
  -- `time.monotonic()` of the deadline's test
  pub now : ℕ

-- Where a wait stands after the events that are given: it goes on beyond them, an exception left it
-- in a state, or it has ended.
pub data Waited (A : Type 0) : Type 0 where
  blocks : Waited A
  throws : PyError → ShutdownState → Waited A
  gives : A → Waited A

-- The variables of the loop, with the shutdown state that it reads.
pub record Waiting : Type 0 where
  pub killed_by_drain : Bool
  pub error_bytes : List ℕ
  pub shutdown : ShutdownState

-- `error_bytes += os.read(read_fd, 65536)`, if the pipe is ready; an OSError is dropped.
unfoldable pub taken : Option Read → List ℕ
taken none = []
taken (some read_fails) = []
taken (some (bytes bs)) = bs

-- One round in which the child has not exited.
unfoldable pub wait_round : ℕ → Option Read → Waiting → Waiting
unfolding taken
wait_round now ready w =
    let s = log_request w.shutdown in
    record {
      killed_by_drain = w.killed_by_drain || (not w.killed_by_drain && deadline_passed now s);
      error_bytes = w.error_bytes ++ taken ready;
      shutdown = s;
    }

abbrev pub see_signals : Poll → Waiting → Waiting
see_signals p w = record w { shutdown = handle_all p.arrivals w.shutdown }

-- The `while True` loop.
unfoldable pub wait_loop : List Poll → Waiting → Waited ((WaitStatus × ℕ) × Waiting)
wait_loop [] w = blocks
wait_loop (p ∷ ps) w = elim p.answer [
  | wait4_raises e ↦ throws e (see_signals p w).shutdown
  | has_exited status ↦ gives (status, see_signals p w)
  | select_raises e ↦ throws e (wait_round p.now none (see_signals p w)).shutdown
  | still_runs ready ↦ wait_loop ps (wait_round p.now ready (see_signals p w))
]

-- The reads after the loop, up to an empty one, which is the end of the pipe, or an exception: `none`
-- where a read waits, since a process has the pipe open for writing.
unfoldable pub drain_pipe : List Read → Option (List ℕ)
drain_pipe [] = none
drain_pipe (read_fails ∷ rs) = some []
drain_pipe (bytes [] ∷ rs) = some []
drain_pipe (bytes (b ∷ bs) ∷ rs) = Option.map (λ t. (b ∷ bs) ++ t) (drain_pipe rs)

-- `error_bytes.decode("utf-8", errors="replace") if error_bytes else ""`
unfoldable pub decode_error : (List ℕ → Text) → List ℕ → Text
decode_error decode [] = []
decode_error decode (b ∷ bs) = decode (b ∷ bs)

unfoldable pub result_of :
    (List ℕ → Text)
    → (is_darwin : Bool) → (WaitStatus × ℕ) × Waiting
    → Option (List ℕ)
    → Waited (ChildResult × ShutdownState)
result_of decode is_darwin ((status, max_rss), w) none = blocks
result_of decode is_darwin ((status, max_rss), w) (some bs) = gives (
  child_result w.killed_by_drain w.shutdown.drain_timeout max_rss is_darwin status
      (decode_error decode (w.error_bytes ++ bs)),
  w.shutdown,
)

-- After the loop.
unfoldable pub after_loop :
    (List ℕ → Text)
    → (is_darwin : Bool) → (rest : List Read) → Waited ((WaitStatus × ℕ) × Waiting)
    → Waited (ChildResult × ShutdownState)
unfolding result_of
after_loop decode is_darwin rest blocks = blocks
after_loop decode is_darwin rest (throws e s) = throws e s
after_loop decode is_darwin rest (gives r) = result_of decode is_darwin r (drain_pipe rest)

unfoldable pub wait_for_child :
    (List ℕ → Text)
    → (is_darwin : Bool) → List Poll
    → (rest : List Read) → ShutdownState
    → Waited (ChildResult × ShutdownState)
unfolding after_loop
wait_for_child decode is_darwin polls rest s =
    after_loop decode is_darwin rest
      (wait_loop polls (record { killed_by_drain = false; error_bytes = []; shutdown = s }))

-- The wait in `select`, in microseconds.
abbrev pub one_second : ℕ
one_second = 1000000

abbrev pub ten_milliseconds : ℕ
ten_milliseconds = 10000

abbrev min : ℕ → ℕ → ℕ
min a b = if ltb b a then b else a

abbrev max_of : ℕ → ℕ → ℕ
max_of a b = if ltb a b then b else a

-- `max(0.0, deadline - now)` is the difference on ℕ.
timeout_until : ℕ → Option ℕ → ℕ
timeout_until now none = one_second
timeout_until now (some deadline) = max_of (min one_second (deadline - now)) ten_milliseconds

unfoldable pub select_timeout : ℕ → ShutdownState → ℕ
unfolding timeout_until
select_timeout now s = if requested s then timeout_until now s.deadline else one_second
