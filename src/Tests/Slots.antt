-- ===== src/Tests/Slots.antt =====
-- One task of a concurrent worker, claimed, forked and reaped.
use pq.Base.{
  Option, find, update, select, true, ℕ, ◌≡◌, ◌-◌, refl, inl, false, none, some, List, [], ◌∷◌,
  Text, codes, arith,
}
use pq.Models.{TaskStatus, ErrorMsg, Task}
use pq.Registry.{resolve_function_path, rsplit}
use pq.Serialization.{deserialize, of_column, read_args, read_kwargs, restore_args, restore_kwargs}
use pq.Worker.Child.{exited}
use pq.Lifecycle.Finish.{Finished}
use pq.Worker.Shutdown.{ShutdownState, reset}
use pq.Worker.Shutdown.Signals.{reset-Tracks}
use pq.Worker.Slots.{
  ChildSlot, Host, Launch, fork_child, forked, load_handler, start_child, started_one_off,
  claimed_one_off, claim_and_fork_one_off, Reaping, reap_and_update,
}
use pq.Worker.Wait.{has_exited, bytes, gives, drain_pipe}
use pq.Worker.Slots.Recorded.{VerdictAt, reap_and_update-claimed}
use pq.Errors.{ok, PyError, other_error}
use pq.Models.{Periodic, failed, raised}
use pq.Worker.OneOff.{finish_one_off, finish_body, is_this_run, close_row, end_row}
use pq.Worker.Slots.Unstarted.{IsCause, claim_and_fork_one_off-Finished}
use pq.Database.{Db, session, elem, put_task}
use pq.Worker.Query.{wanted, first_row}
use pq.Worker.Periodic.{
  claim_periodic, claim_periodic_body, pick_periodic, is_due, is_free, advance_row, put_periodic,
  lock_duration, clear_lock,
}
use pq.Worker.Periodic.Unlock.{IsUnlocked}
use pq.Worker.Slots.{pipe_raises, started_periodic, claimed_periodic, claim_and_fork_periodic}
use pq.Worker.Slots.Unlocked.{claim_and_fork_periodic-IsUnlocked, reap_and_update-IsUnlocked}
use pq.Tests.Worker.{limited_schedule, no_cron}
use pq.Tests.Samples.{sample_codec, session_at, parked_task, waiting_task, with_tasks}
use pq.Tests.Process.{sample_importer, claim-waiting_task}
use pq.Tests.Shutdown.{calm}

-- The row as the claim left it.
abbrev claimed_task : Task
claimed_task = record parked_task { requeue = none }

abbrev launch_at_ten : Launch
launch_at_ten = record {
  claim_env = session_at 10;
  fork = forked (λ ns. 42) (λ ns. 7);
  now = 11;
  others = λ db. db;
  failure_env = session_at 11;
}

abbrev idle_host : Host
idle_host = record {
  db = with_tasks (waiting_task ∷ []);
  os = record { processes = []; open_fds = [] };
}

abbrev slot_42 : ChildSlot
slot_42 = record {
  pid = 42;
  read_fd = 7;
  task_id = 1;
  name = codes "app:sync";
  start_time = 11;
  is_periodic = false;
  started_at = some 10;
  periodic_max_concurrent = none;
}

abbrev busy_host : Host
busy_host = record {
  db = with_tasks (claimed_task ∷ []);
  os = record { processes = 42 ∷ []; open_fds = 7 ∷ [] };
}

forks-waiting_task :
    claim_and_fork_one_off sample_codec sample_importer none launch_at_ten idle_host
    ≡ (some slot_42, busy_host)
unfolding claim_and_fork_one_off claimed_one_off started_one_off start_child load_handler fork_child
    resolve_function_path rsplit deserialize of_column read_args read_kwargs restore_args
    restore_kwargs
forks-waiting_task = rw claim-waiting_task refl

-- A client parks a newer version while the child runs; the child exits with an error.
abbrev reaping_at_thirty : Reaping
reaping_at_thirty = record {
  polls = record { arrivals = []; answer = has_exited (exited 1, 7); now = 29 } ∷ [];
  rest = bytes [] ∷ [];
  now = 30;
  others = λ db. with_tasks (parked_task ∷ []);
  env = session_at 30;
}

abbrev plain_text : List ℕ → Text
plain_text bs = bs

reap_and_update-claimed_example :
    (h' : Host) × (s' : ShutdownState) × (out : TaskStatus × Option ErrorMsg) × (reap_and_update
        plain_text false reaping_at_thirty slot_42
        (busy_host, reset 20 calm)
      ≡ gives (h', s'))
    × VerdictAt plain_text false 20 [] reaping_at_thirty [] (exited 1, 7) (30 - 11) out
    × Finished (session_at 30) out.0 out.1 parked_task (with_tasks (parked_task ∷ [])) h'.db
unfolding drain_pipe
reap_and_update-claimed_example =
    reap_and_update-claimed sample_codec sample_importer none launch_at_ten idle_host busy_host
      claimed_task (with_tasks (claimed_task ∷ [])) slot_42 plain_text false 20 [] reaping_at_thirty
      [] busy_host (reset 20 calm) (exited 1, 7) parked_task claim-waiting_task forks-waiting_task
      (reset-Tracks 20 calm) refl refl refl (ground arith) (inl refl) refl refl refl

-- A schedule under a limit, and the tables that hold it alone.
abbrev one_schedule : Periodic → Db
one_schedule p = record { tasks = []; periodics = p ∷ []; next_task_id = 1; next_periodic_id = 2 }

abbrev taken_schedule : Periodic
taken_schedule = record limited_schedule {
  locked_until = some 5000005;
  last_run = some 5;
  next_run = 10000005;
}

abbrev launch_at_five : Launch
launch_at_five = record {
  claim_env = session_at 5;
  fork = pipe_raises (other_error 7);
  now = 6;
  others = λ db. db;
  failure_env = session_at 7;
}

abbrev scheduled_host : Host
scheduled_host = record {
  db = one_schedule limited_schedule;
  os = record { processes = []; open_fds = [] };
}

abbrev unlocked_host : Host
unlocked_host = record {
  db = one_schedule (record taken_schedule { locked_until = none });
  os = record { processes = []; open_fds = [] };
}

claim-limited_schedule :
    claim_periodic no_cron (session_at 5) none 60000000 (one_schedule limited_schedule)
    ≡ (ok (some taken_schedule), one_schedule taken_schedule)
unfolding claim_periodic claim_periodic_body pick_periodic is_due is_free advance_row put_periodic
    lock_duration session wanted first_row elem update select
claim-limited_schedule = refl

fork_fails :
    claim_and_fork_periodic sample_codec sample_importer no_cron none 60000000 launch_at_five
      scheduled_host
    ≡ (none, unlocked_host)
unfolding claim_and_fork_periodic claimed_periodic started_periodic start_child load_handler
    fork_child resolve_function_path rsplit deserialize of_column read_args read_kwargs restore_args
    restore_kwargs clear_lock session update
fork_fails = rw claim-limited_schedule refl

claim_and_fork_periodic-IsUnlocked_example :
    IsUnlocked 1
      (one_schedule taken_schedule)
      (one_schedule (record taken_schedule { locked_until = none }))
claim_and_fork_periodic-IsUnlocked_example =
    claim_and_fork_periodic-IsUnlocked sample_codec sample_importer no_cron none 60000000
      launch_at_five scheduled_host unlocked_host taken_schedule 1 (one_schedule taken_schedule)
      claim-limited_schedule fork_fails refl refl

abbrev schedule_slot : ChildSlot
schedule_slot = record slot_42 {
  is_periodic = true;
  started_at = none;
  periodic_max_concurrent = some 1;
}

abbrev reaping_schedule : Reaping
reaping_schedule = record reaping_at_thirty { others = λ db. one_schedule taken_schedule }

reap_and_update-IsUnlocked_example :
    (h' : Host) × (s' : ShutdownState) × (reap_and_update plain_text false reaping_schedule
        schedule_slot
        (busy_host, reset 20 calm)
      ≡ gives (h', s'))
    × IsUnlocked 1 (one_schedule taken_schedule) h'.db
unfolding drain_pipe
reap_and_update-IsUnlocked_example =
    reap_and_update-IsUnlocked plain_text false 20 [] reaping_schedule [] busy_host (reset 20 calm)
      (exited 1, 7) schedule_slot 1 (reset-Tracks 20 calm) refl refl refl refl refl

-- The same task where no pipe can be opened.
abbrev launch_without_pipe : Launch
launch_without_pipe = record launch_at_ten { fork = pipe_raises (other_error 7) }

abbrev failed_host : Host
failed_host = record {
  db = with_tasks (
      record claimed_task {
        status = failed;
        completed_at = some 11;
        error = some (raised (other_error 7));
      }
      ∷ []);
  os = record { processes = []; open_fds = [] };
}

pipe_fails :
    claim_and_fork_one_off sample_codec sample_importer none launch_without_pipe idle_host
    ≡ (none, failed_host)
unfolding claim_and_fork_one_off claimed_one_off started_one_off start_child load_handler fork_child
    resolve_function_path rsplit deserialize of_column read_args read_kwargs restore_args
    restore_kwargs finish_one_off finish_body is_this_run close_row end_row session put_task find
    update
pipe_fails = rw claim-waiting_task refl

claim_and_fork_one_off-Finished_example :
    (e : PyError) × IsCause sample_codec sample_importer launch_without_pipe claimed_task e
    × Finished
        (session_at 11)
        failed
        (some (raised e))
        claimed_task
        (with_tasks (claimed_task ∷ []))
        failed_host.db
claim_and_fork_one_off-Finished_example =
    claim_and_fork_one_off-Finished sample_codec sample_importer launch_without_pipe claimed_task
      claimed_task (with_tasks (claimed_task ∷ [])) refl (ground arith) (inl refl) refl refl refl
      none idle_host failed_host claim-waiting_task pipe_fails
