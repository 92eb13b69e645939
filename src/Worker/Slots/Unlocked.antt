-- ===== src/Worker/Slots/Unlocked.antt =====
-- The lock of a schedule that a concurrent worker of src/pq/worker.py took.
use pq.Base.{ℕ, ◌≡◌, ap, Bool, true, Option, none, some, List, Text}
use pq.Errors.{Result, ok, err}
use pq.Models.{Periodic, Priority}
use pq.Database.{Db}
use pq.Registry.{Import}
use pq.Serialization.{Codec}
use pq.Client.Schedule.{Cron}
use pq.Worker.Child.{ChildResult, WaitStatus}
use pq.Worker.Periodic.{claim_periodic, clear_lock}
use pq.Worker.Periodic.Unlock.{IsUnlocked, clear_lock-IsUnlocked}
use pq.Worker.Shutdown.{ShutdownState, Arrivals}
use pq.Worker.Shutdown.Signals.{Tracks}
use pq.Worker.Wait.{drain_pipe, gives}
use pq.Worker.Wait.Outcome.{exit_of, wait_for_child_lem}
use pq.Worker.Slots.{
  ChildSlot, Os, Host, Launch, start_child, started_periodic, claimed_periodic,
  claim_and_fork_periodic, Reaping, record_result, after_wait, reap_and_update,
}
use pq.Worker.Slots.Recorded.{result_at}

module _ (c : Codec) {F : Type 0} (importer : Text → Text → Import F) where
  started_periodic-IsUnlocked :
      (l : Launch) (p : Periodic) (n : ℕ) (db : Db) (r : Result (ℕ × ℕ) × Os) (h : Host)
      → p.max_concurrent ≡ some n
      → l.failure_env.up ≡ true
      → started_periodic c importer l p db r ≡ (none, h)
      → IsUnlocked p.id (l.others db) h.db
  unfolding started_periodic
  started_periodic-IsUnlocked l p n db (ok (pid, fd), os) h limited up q = cc
  started_periodic-IsUnlocked l p n db (err e, os) h limited up q =
      rw (← left, limited) (clear_lock-IsUnlocked l.failure_env p.id n (l.others db) up)
    where
      left : clear_lock l.failure_env p.id p.max_concurrent (l.others db) ≡ h.db
      left = cc q

  -- Where a schedule under a limit was claimed and no child could be started for it, because its
  -- function or its arguments cannot be loaded or the fork fails, its lock is cleared at once, while
  -- the database answers; other schedules and the tasks stay as others left them.
  pub claim_and_fork_periodic-IsUnlocked :
      (cron : Cron) (priorities : Option (List Priority)) (max_runtime : ℕ) (l : Launch)
      (h h' : Host) (p : Periodic) (n : ℕ) (db : Db)
      → claim_periodic cron l.claim_env priorities max_runtime h.db ≡ (ok (some p), db)
      → claim_and_fork_periodic c importer cron priorities max_runtime l h ≡ (none, h')
      → p.max_concurrent ≡ some n
      → l.failure_env.up ≡ true
      → IsUnlocked p.id (l.others db) h'.db
  unfolding claim_and_fork_periodic claimed_periodic
  claim_and_fork_periodic-IsUnlocked cron priorities max_runtime l h h' p n db e q limited up =
      started_periodic-IsUnlocked l p n db (start_child c importer p.name p.payload l.fork h.os) h'
        limited up (rw e at q)

record_result-IsUnlocked :
    (x : Reaping) (slot : ChildSlot) (n : ℕ) (r : ChildResult) (db : Db)
    → slot.is_periodic ≡ true
    → slot.periodic_max_concurrent ≡ some n
    → x.env.up ≡ true
    → IsUnlocked slot.task_id db (record_result x slot r db)
unfolding record_result
record_result-IsUnlocked x slot n r db periodic limited up =
    rw (periodic, record_result, limited) (clear_lock-IsUnlocked x.env slot.task_id n db up)

-- Where the child of a slot of a schedule under a limit exits in one of the polls, no call of the
-- system raises before, and the reads after it end, however the child ends: the reaping clears the schedule's lock, while the database answers; other schedules and the tasks
-- stay as others left them.
pub reap_and_update-IsUnlocked :
    (decode : List ℕ → Text) (is_darwin : Bool) (drain_timeout : ℕ) (seen : Arrivals) (x : Reaping)
    (bs : List ℕ) (h : Host) (s : ShutdownState) (status : WaitStatus × ℕ) (slot : ChildSlot)
    (n : ℕ)
    → Tracks drain_timeout seen s
    → exit_of x.polls ≡ some status
    → drain_pipe x.rest ≡ some bs
    → slot.is_periodic ≡ true
    → slot.periodic_max_concurrent ≡ some n
    → x.env.up ≡ true
    → (h' : Host) × (s' : ShutdownState) × (reap_and_update decode is_darwin x slot (h, s)
        ≡ gives (h', s'))
      × IsUnlocked slot.task_id (x.others h.db) h'.db
unfolding reap_and_update after_wait
reap_and_update-IsUnlocked decode is_darwin drain_timeout seen x bs h s (status, max_rss) slot n
      tracks exit drains periodic limited up =
    let (s', ends, _) =
      wait_for_child_lem decode is_darwin drain_timeout seen x.polls x.rest bs s status max_rss
        tracks exit drains in
    (
      _,
      s',
      ap (after_wait x slot h) ends,
      record_result-IsUnlocked x slot n
          (result_at decode is_darwin drain_timeout seen x bs (status, max_rss)) (x.others h.db)
          periodic limited up,
    )
