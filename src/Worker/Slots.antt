-- ===== src/Worker/Slots.antt =====
-- The children of a concurrent worker of src/pq/worker.py: `_ChildSlot`, `_fork_child`,
-- `_claim_and_fork_one_off`, `_claim_and_fork_periodic`, `_try_claim_and_fork`, `_reap_and_update`.
-- How long the child may run is for the child (`Runner`).
pub mod Launched
pub mod Recorded
pub mod Unstarted
pub mod Unlocked
use pq.Base.{
  ℕ, ◌+◌, ◌-◌, ◌==◌, Bool, true, false, Option, none, some, List, [], ◌∷◌, ◌++◌, Text, delete,
  get_or, if◌then◌else◌,
}
use pq.Errors.{Result, ok, err, PyError, ◌>>=◌}
use pq.Models.{Task, Periodic, TaskStatus, failed, Payload, Priority, raised}
use pq.Database.{Db, Env}
use pq.Registry.{Import, resolve_function_path}
use pq.Serialization.{Codec, deserialize, of_column}
use pq.Client.Schedule.{Cron}
use pq.Worker.Child.{ChildResult, slot_recorded}
use pq.Worker.OneOff.{claim_one_off, finish_one_off}
use pq.Worker.Periodic.{claim_periodic, clear_lock}
use pq.Worker.Shutdown.{ShutdownState}
use pq.Worker.Wait.{Poll, Read, Waited, blocks, throws, gives, wait_for_child}

pub record ChildSlot : Type 0 where
  pub pid : ℕ
  pub read_fd : ℕ
  pub task_id : ℕ
  pub name : Text
  pub start_time : ℕ
  pub is_periodic : Bool
  pub started_at : Option ℕ
  pub periodic_max_concurrent : Option ℕ

-- The worker's process: the pids that it has forked and not waited for, and the descriptors of error
-- pipes that it holds open.
pub record Os : Type 0 where
  pub processes : List ℕ
  pub open_fds : List ℕ

-- What a worker shares with the outside.
pub record Host : Type 0 where
  pub db : Db
  pub os : Os

-- What `os.pipe` and `os.fork` answer: the numbers that they choose beside those in use.
pub data Fork : Type 0 where
  forked : (pid read_fd : List ℕ → ℕ) → Fork
  pipe_raises : PyError → Fork
  fork_raises : (read_fd write_fd : List ℕ → ℕ) → PyError → Fork

-- `_fork_child`, in the parent: where `os.fork` raises, both ends of the pipe stay open.
unfoldable pub fork_child : Fork → Os → Result (ℕ × ℕ) × Os
fork_child (forked pid read_fd) os = (
  ok (pid os.processes, read_fd os.open_fds),
  record {
    processes = os.processes ++ pid os.processes ∷ [];
    open_fds = os.open_fds ++ read_fd os.open_fds ∷ [];
  },
)
fork_child (pipe_raises e) os = (err e, os)
fork_child (fork_raises read_fd write_fd e) os =
    let r = read_fd os.open_fds in
    (
      err e,
      record os { open_fds = (os.open_fds ++ r ∷ []) ++ write_fd (os.open_fds ++ r ∷ []) ∷ [] },
    )

-- What one call of a `_claim_and_fork_…` meets: the claim's session, the fork, the clock after it;
-- where the start fails, what others commit before the session that records it.
pub record Launch : Type 0 where
  pub claim_env : Env
  pub fork : Fork
  pub now : ℕ
  pub others : Db → Db
  pub failure_env : Env

-- What one call of `_try_claim_and_fork` meets.
pub record Attempt : Type 0 where
  pub one_off : Launch
  pub others : Db → Db
  pub periodic : Launch

module _ (c : Codec) {F : Type 0} (importer : Text → Text → Import F) where
  -- The lines of the `try` block before the fork.
  unfoldable pub load_handler : Text → Payload → Result (F × List c.Value × List (Text × c.Value))
  load_handler name payload = do
    handler ← resolve_function_path importer name
    (args, kwargs) ← deserialize c (of_column c payload)
    ok (handler, args, kwargs)

  -- The `try` block: a handler that cannot be loaded is not forked.
  unfoldable pub start_child : Text → Payload → Fork → Os → Result (ℕ × ℕ) × Os
  unfolding load_handler
  start_child name payload fork os = elim (load_handler name payload) [
    | err e ↦ (err e, os)
    | ok loaded ↦ fork_child fork os
  ]

  -- After the claim's session, for a one-off task.
  unfoldable pub started_one_off :
      Launch → Task → Db → Result (ℕ × ℕ) × Os → Option ChildSlot × Host
  started_one_off l t db (err e, os) = (
    none,
    record {
      db = finish_one_off l.failure_env t.id t.started_at failed (some (raised e)) (l.others db);
      os = os;
    },
  )
  started_one_off l t db (ok (pid, read_fd), os) = (
    some (record {
      pid = pid;
      read_fd = read_fd;
      task_id = t.id;
      name = t.name;
      start_time = l.now;
      is_periodic = false;
      started_at = t.started_at;
      periodic_max_concurrent = none;
    }),
    record { db = db; os = os },
  )

  unfoldable pub claimed_one_off : Launch → Os → Result (Option Task) × Db → Option ChildSlot × Host
  claimed_one_off l os (err e, db) = (none, record { db = db; os = os })
  claimed_one_off l os (ok none, db) = (none, record { db = db; os = os })
  claimed_one_off l os (ok (some t), db) =
      started_one_off l t db (start_child t.name t.payload l.fork os)

  unfoldable pub claim_and_fork_one_off :
      Option (List Priority) → Launch → Host → Option ChildSlot × Host
  claim_and_fork_one_off priorities l h =
      claimed_one_off l h.os (claim_one_off l.claim_env priorities h.db)

  -- The same for a schedule: a failed start clears the lock.
  unfoldable pub started_periodic :
      Launch → Periodic → Db → Result (ℕ × ℕ) × Os → Option ChildSlot × Host
  started_periodic l p db (err e, os) =
      (none, record { db = clear_lock l.failure_env p.id p.max_concurrent (l.others db); os = os })
  started_periodic l p db (ok (pid, read_fd), os) = (
    some (record {
      pid = pid;
      read_fd = read_fd;
      task_id = p.id;
      name = p.name;
      start_time = l.now;
      is_periodic = true;
      started_at = none;
      periodic_max_concurrent = p.max_concurrent;
    }),
    record { db = db; os = os },
  )

  unfoldable pub claimed_periodic :
      Launch → Os → Result (Option Periodic) × Db → Option ChildSlot × Host
  claimed_periodic l os (err e, db) = (none, record { db = db; os = os })
  claimed_periodic l os (ok none, db) = (none, record { db = db; os = os })
  claimed_periodic l os (ok (some p), db) =
      started_periodic l p db (start_child p.name p.payload l.fork os)

  unfoldable pub claim_and_fork_periodic :
      Cron → Option (List Priority) → ℕ → Launch → Host → Option ChildSlot × Host
  claim_and_fork_periodic cron priorities max_runtime l h =
      claimed_periodic l h.os (claim_periodic cron l.claim_env priorities max_runtime h.db)

  unfoldable pub or_periodic :
      Cron
      → Option (List Priority)
      → ℕ
      → Attempt
      → Option ChildSlot × Host
      → Option ChildSlot × Host
  or_periodic cron priorities max_runtime a (some slot, h) = (some slot, h)
  or_periodic cron priorities max_runtime a (none, h) =
      claim_and_fork_periodic cron priorities max_runtime a.periodic
        (record h { db = a.others h.db })

  unfoldable pub try_claim_and_fork :
      Cron → Option (List Priority) → ℕ → Attempt → Host → Option ChildSlot × Host
  unfolding or_periodic
  try_claim_and_fork cron priorities max_runtime a h =
      or_periodic cron priorities max_runtime a (claim_and_fork_one_off priorities a.one_off h)

-- What one call of `_reap_and_update` meets: the rounds of the wait, the reads after it, the clock,
-- and what others committed meanwhile.
pub record Reaping : Type 0 where
  pub polls : List Poll
  pub rest : List Read
  pub now : ℕ
  pub others : Db → Db
  pub env : Env

-- The tables after the wait: the lock is cleared, or the result recorded.
unfoldable pub record_result : Reaping → ChildSlot → ChildResult → Db → Db
record_result x slot r db =
    let recorded = slot_recorded (x.now - slot.start_time) r in
    if slot.is_periodic
    then clear_lock x.env slot.task_id slot.periodic_max_concurrent db
    else finish_one_off x.env slot.task_id slot.started_at recorded.0 recorded.1 db

-- After the wait: an exception leaves the child and the pipe as they are.
unfoldable pub after_wait :
    Reaping
    → ChildSlot
    → Host
    → Waited (ChildResult × ShutdownState)
    → Waited (Host × ShutdownState)
after_wait x slot h blocks = blocks
after_wait x slot h (throws e s) = throws e s
after_wait x slot h (gives (r, s)) = gives (
  record {
    db = record_result x slot r (x.others h.db);
    os = record {
      processes = delete (λ pid. pid == slot.pid) h.os.processes;
      open_fds = delete (λ fd. fd == slot.read_fd) h.os.open_fds;
    };
  },
  s,
)

unfoldable pub reap_and_update :
    (List ℕ → Text)
    → (is_darwin : Bool) → Reaping
    → ChildSlot
    → Host × ShutdownState
    → Waited (Host × ShutdownState)
reap_and_update decode is_darwin x slot (h, s) =
    after_wait x slot h (wait_for_child decode is_darwin x.polls x.rest s)
