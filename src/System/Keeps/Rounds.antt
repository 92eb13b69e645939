-- ===== src/System/Keeps/Rounds.antt =====
-- The loop of a concurrent worker of src/pq/worker.py, and the task table's invariant.
use pq.Base.{
  ℕ, ◌+◌, ◌-◌, ◌*◌, ◌==◌, ◌||◌, Bool, Option, none, some, List, [], ◌∷◌, Text, find, select, map,
  ltb, if_either,
}
use pq.Errors.{Result, ok, err}
use pq.Database.{Db}
use pq.Database.Consistent.{IsConsistent}
use pq.Client.Tasks.{clear_completed, clear_failed, expired, succeeds_with}
use pq.Models.{completed, failed}
use pq.System.Keeps.Client.{delete-keeps}
use pq.System.Keeps.Slots.{KeepsTables, AttemptKeeps, ReapingKeeps, reap_and_update-HostKeeps}
use pq.Worker.Wait.{Waited, blocks, throws, gives}
use pq.Worker.Shutdown.{ShutdownState, log_request}
use pq.Worker.Maintenance.{
  Cleaning, then_delete_failed, delete_old, stamped, maybe_run_cleanup, interruptible_sleep,
  one_day,
}
use pq.Worker.Slots.{ChildSlot, Host}
use pq.Worker.Concurrent.{
  Loop, Round, Flow, waits, raises, goes_on, and_then, has_pid, has_fd, after_reaping, reaped,
  popped, popped_fd, reap_ready, reap_all_ready, slept, events, wait_for_events, drain_slots, drain,
}

-- What others commit during a round keeps the tables consistent.
pub record RoundKeeps (r : Round) : Type 0 where
  pub attempts : (i : ℕ) → AttemptKeeps (r.attempt i)
  pub reapings : (pid : ℕ) → KeepsTables (r.reaping pid).others
  pub cleanups : KeepsTables r.cleaning.others

abbrev pub LoopKeeps : Loop → Type 0
LoopKeeps st = IsConsistent st.host.db

abbrev pub FlowIsConsistent : Flow → Type 0
FlowIsConsistent waits = Unit
FlowIsConsistent (raises e st) = LoopKeeps st
FlowIsConsistent (goes_on st) = LoopKeeps st

pub and_then-FlowIsConsistent :
    (x : Flow) (f : Loop → Flow)
    → FlowIsConsistent x
    → ((st : Loop) → LoopKeeps st → FlowIsConsistent (f st))
    → FlowIsConsistent (and_then x f)
unfolding and_then
and_then-FlowIsConsistent waits f h k = tt
and_then-FlowIsConsistent (raises e st) f h k = h
and_then-FlowIsConsistent (goes_on st) f h k = k st h

module _ (decode : List ℕ → Text) (is_darwin : Bool) (r : Round) (keep : RoundKeeps r) where
  after_reaping-FlowIsConsistent :
      (st : Loop) (slot : ChildSlot) (o : Waited (Host × ShutdownState))
      → LoopKeeps st
      → ReapingKeeps decode is_darwin (r.reaping slot.pid) (keep.reapings slot.pid) o
      → FlowIsConsistent (after_reaping decode is_darwin r st o)
  unfolding after_reaping
  after_reaping-FlowIsConsistent st slot blocks k h = tt
  after_reaping-FlowIsConsistent st slot (throws e s) k h = k
  after_reaping-FlowIsConsistent st slot (gives (h', s)) k h = h

  reaped-FlowIsConsistent :
      (slot : ChildSlot) (st : Loop)
      → LoopKeeps st
      → FlowIsConsistent (reaped decode is_darwin r slot st)
  unfolding reaped
  reaped-FlowIsConsistent slot st k = after_reaping-FlowIsConsistent st slot _ k (
      reap_and_update-HostKeeps decode is_darwin (r.reaping slot.pid) (keep.reapings slot.pid) slot
        st.host st.shutdown k)

  popped-FlowIsConsistent :
      (pid : ℕ) (st : Loop) (o : Option ChildSlot)
      → LoopKeeps st
      → FlowIsConsistent (popped decode is_darwin r pid st o)
  unfolding popped
  popped-FlowIsConsistent pid st none k = k
  popped-FlowIsConsistent pid st (some slot) k = reaped-FlowIsConsistent slot _ k

  popped_fd-FlowIsConsistent :
      (fd : ℕ) (st : Loop) (o : Option (ℕ × ℕ))
      → LoopKeeps st
      → FlowIsConsistent (popped_fd decode is_darwin r fd st o)
  unfolding popped_fd
  popped_fd-FlowIsConsistent fd st none k = k
  popped_fd-FlowIsConsistent fd st (some (n, pid)) k =
      popped-FlowIsConsistent pid _ (find (has_pid pid) st.children) k

  reap_all_ready-FlowIsConsistent :
      (fds : List ℕ) (st : Loop)
      → LoopKeeps st
      → FlowIsConsistent (reap_all_ready decode is_darwin r fds st)
  unfolding reap_all_ready reap_ready
  reap_all_ready-FlowIsConsistent [] st k = k
  reap_all_ready-FlowIsConsistent (fd ∷ fds) st k =
      and_then-FlowIsConsistent _ (reap_all_ready decode is_darwin r fds)
        (popped_fd-FlowIsConsistent fd st (find (has_fd fd) st.fd_to_pid) k)
        (reap_all_ready-FlowIsConsistent fds)

  pub slept-FlowIsConsistent :
      (st : Loop) (o : Option ShutdownState)
      → LoopKeeps st
      → FlowIsConsistent (slept decode is_darwin r st o)
  unfolding slept
  slept-FlowIsConsistent st none k = tt
  slept-FlowIsConsistent st (some s) k = k

  pub wait_for_events-FlowIsConsistent :
      (poll_interval : ℕ) (st : Loop)
      → LoopKeeps st
      → FlowIsConsistent (wait_for_events decode is_darwin r poll_interval st)
  unfolding wait_for_events events
  wait_for_events-FlowIsConsistent poll_interval st k = by_children st.children
    where
      by_select :
          (o : Result (ℕ → Bool))
          → FlowIsConsistent (elim o [
            | err e ↦ raises e st
            | ok is_ready ↦
                reap_all_ready decode is_darwin r
                  (select is_ready (map (λ (y : ℕ × ℕ). y.0) st.fd_to_pid))
                  st
          ])
      by_select (err e) = k
      by_select (ok is_ready) = reap_all_ready-FlowIsConsistent _ st k

      by_children :
          (xs : List ChildSlot) → FlowIsConsistent (events decode is_darwin r poll_interval st xs)
      by_children [] =
          slept-FlowIsConsistent st
            (interruptible_sleep poll_interval r.sleep_start r.ticks st.shutdown) k
      by_children (x ∷ xs) = by_select r.selected

  drain_slots-FlowIsConsistent :
      (slots : List ChildSlot) (st : Loop)
      → LoopKeeps st
      → FlowIsConsistent (drain_slots decode is_darwin r slots st)
  unfolding drain_slots
  drain_slots-FlowIsConsistent [] st k = k
  drain_slots-FlowIsConsistent (slot ∷ slots) st k =
      and_then-FlowIsConsistent _ (drain_slots decode is_darwin r slots)
        (reaped-FlowIsConsistent slot st k) (drain_slots-FlowIsConsistent slots)

  pub drain-FlowIsConsistent :
      (st : Loop) → LoopKeeps st → FlowIsConsistent (drain decode is_darwin r st)
  unfolding drain
  drain-FlowIsConsistent st k =
      drain_slots-FlowIsConsistent st.children (record st { shutdown = log_request st.shutdown }) k

-- The chores.
module _ (x : Cleaning) (keep : KeepsTables x.others) where
  succeeds_with-keeps :
      {A B : Type 0} (f : A → B) (r : Result A × Db)
      → IsConsistent r.1
      → IsConsistent (succeeds_with f r).1
  succeeds_with-keeps f (ok a, db) k = k
  succeeds_with-keeps f (err e, db) k = k

  then_delete_failed-keeps :
      (cutoff : ℕ) (r : Result ℕ × Db)
      → IsConsistent r.1
      → IsConsistent (then_delete_failed x cutoff r).1
  unfolding then_delete_failed clear_failed
  then_delete_failed-keeps cutoff (err e, db) k = k
  then_delete_failed-keeps cutoff (ok n, db) k =
      succeeds_with-keeps (λ (m : ℕ). tt) _
        (delete-keeps x.failed_env (expired failed (some cutoff)) (x.others db) (keep db k))

  stamped-keeps :
      (now : ℕ) (r : Result (Unit {0}) × Db) → IsConsistent r.1 → IsConsistent (stamped now r).1
  unfolding stamped
  stamped-keeps now (ok u, db) k = k
  stamped-keeps now (err e, db) k = k

  pub maybe_run_cleanup-keeps :
      (retention_days cleanup_interval last_cleanup : ℕ) (db : Db)
      → IsConsistent db
      → IsConsistent (maybe_run_cleanup retention_days cleanup_interval x last_cleanup db).1
  unfolding maybe_run_cleanup delete_old clear_completed
  maybe_run_cleanup-keeps retention_days cleanup_interval last_cleanup db k =
      if_either (retention_days == 0 || ltb x.now (last_cleanup + cleanup_interval))
        (λ (r : Result ℕ × Db). IsConsistent r.1) k
        (if_either (ltb x.utc_now (retention_days * one_day))
          (λ (r : Result ℕ × Db). IsConsistent r.1) k
          (stamped-keeps x.now _ (
            then_delete_failed-keeps (x.utc_now - retention_days * one_day) _ (
              delete-keeps x.completed_env
                (expired completed (some (x.utc_now - retention_days * one_day))) db k))))
