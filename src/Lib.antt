-- ===== src/Lib.antt =====
-- PQ, a task queue on PostgreSQL (src/pq): clients write rows of `pq_tasks` and `pq_periodic`,
-- workers claim them, run each handler in a forked child and record how it ended, and a reaper ends
-- the executions whose worker died.
--
-- The files and the code that each models:
-- - Base and its children: tests, options, tables as lists of rows, texts. No code.
-- - Errors: the exceptions that the calls raise.
-- - Models (src/pq/models.py, src/pq/priority.py): the rows, `TaskStatus`, `Task.apply_requeue`.
--   Models/Valid: which columns a row of each status has.
-- - Database: the two tables, and `PQ.session` of src/pq/client.py. Its children have
--   the tables' invariant, the flush of one row and the outcomes of a session.
-- - Registry (src/pq/registry.py), Serialization (src/pq/serialization.py), with the import paths
--   (Registry/Paths) and the arguments (Serialization/RoundTrip) as they come back.
-- - Client (src/pq/client.py): `_validate_max_runtime` and the checks that calls share; Client/Tasks
--   (`enqueue`, `cancel`, `clear_*`, look-ups, counts), Client/Listing (`list_failed`,
--   `list_completed`), Client/Upsert (`upsert`, `upsert_many`),
--   Client/Reaper (`reap_stale_tasks`), Client/Schedule (`schedule`, `unschedule`).
-- - Worker (src/pq/worker.py): Worker/Query (the claim's order), Worker/OneOff
--   (`_process_one_off_task`, `_finish_one_off`), Worker/Periodic (`_process_periodic_task`),
--   Worker/Child (the end of `_wait_for_child`, `_execute_in_fork`), Worker/Runner
--   (`_run_in_child`), Worker/Shutdown (`_ShutdownState`, the signal handlers), Worker/Wait
--   (`_wait_for_child`), Worker/Maintenance (`_maybe_run_cleanup`, `_maybe_reap_stale`,
--   `_interruptible_sleep`), Worker/Slots (`_fork_child`, `_claim_and_fork_*`, `_try_claim_and_fork`,
--   `_reap_and_update`), Worker/Concurrent (`_run_concurrent`), Worker/Loop (`run_worker`,
--   `run_worker_once`, and the methods of `PQ` that call them).
-- - Lifecycle: the abstract view of a task, a version that is queued, executing (with at most one
--   newer version behind it) or closed. Its children hold against it upserts and batches of them,
--   claims, run ends, whole runs and reapings; Lifecycle/Alarm sets the reaper's window beside the
--   alarm of a child.
-- - System: any interleaving of the calls, each one transaction. System/Runs adds the live runs that
--   workers remember. System/Keeps has what each call, each step of the loops and a whole run of a
--   worker make of the task table's invariant.
-- - Tests: runs on small inputs, and each theorem at an input that meets its hypotheses.
--
-- How the state corresponds. A `Db` has both tables as lists of rows in the order of a scan, and the
-- next ids. A call takes an `Env`: whether the server answers, the client's clock, the server's
-- clock, and the rows that other transactions have locked (SKIP LOCKED). Instants and durations are
-- microseconds on ℕ. A call returns a `Result` and the tables after it: the new ones where the
-- session commits, the old ones where it rolls back. Texts are lists of code points. Integers are
-- unbounded, as in Python; the width of the id columns is not modelled.
--
-- Parameters: json, dill, base64 and pydantic (`Codec`), importlib (`Import`), croniter (`Cron`),
-- fork and wait (`fork` of Worker/OneOff, `Fork`, `Poll`, `Read`, `WaitStatus`), signals and clocks
-- (`Arrivals`, `Tick`, `Round`), what other processes commit between two sessions (`others`). JSONB
-- keeps the pairs of an object in an order of its own (`stored`).
--
-- A worker's loop runs over the list of the turns that happen, each with what the outside answers
-- in it; where a wait needs more events than are given, the result says so (`waits`, `waiting`,
-- `waits_on`, `blocks`): a read of the error pipe waits until its end. `select` and `os.wait4` may
-- raise in any wait. A signal requests a shutdown only where the process has the worker's handler
-- for it (`handled_round`). The attempts of one turn to claim (`fill`) have fuel, one more than
-- `concurrency`: each attempt that goes on takes a free slot. Other loops are over lists.
--
-- A transaction is one step: row locks keep two claims of one row apart, which the locked rows of
-- `Env` and the order of steps express. A signal is handled between two steps of a loop. In the
-- sequential loop what a child's run comes to is a parameter of the turn, so its processes and
-- descriptors are not followed and a call is taken to end; Worker/Wait and Worker/Runner say what
-- the run is made of.
--
-- Not modelled: the `except KeyboardInterrupt` clauses of the loops (a KeyboardInterrupt reaches
-- only a main thread without the worker's handlers), the group that a kill reaches, migrations,
-- connection pools, logging and settings. Of a child that an exception outside `Exception`, or
-- `signal.alarm`, takes out of `_run_in_child`, only that it does is said.
pub mod Base
pub mod Errors
pub mod Models
pub mod Database
pub mod Registry
pub mod Serialization
pub mod Client
pub mod Worker
pub mod Lifecycle
pub mod System
pub mod Tests
