-- ===== src/System/Keeps/Slots.antt =====
-- The children of a concurrent worker of src/pq/worker.py, and the task table's invariant.
use pq.Base.{
  [], ℕ, ◌-◌, refl, inr, Bool, false, Option, none, some, List, subst, Text, if_either, ◌++◌,
}
use pq.Errors.{Result, ok, err, ◌>>=◌}
use pq.Models.{Task, Periodic, Priority, failed, raised}
use pq.Database.{Db, Env, session}
use pq.Database.Consistent.{IsConsistent, periodics-IsConsistent}
use pq.Database.Sessions.{session_keeps}
use pq.Registry.{Import}
use pq.Serialization.{Codec}
use pq.Client.Schedule.{Cron}
use pq.Worker.Child.{ChildResult, slot_recorded, WaitStatus}
use pq.Lifecycle.Rows.{IsOutcome}
use pq.System.Keeps.Worker.{claim_one_off-IsConsistent, finish_one_off-IsConsistent}
use pq.Worker.Periodic.{
  claim_periodic, claim_periodic_body, pick_periodic, advance_row, put_periodic, clear_lock,
  clear_body,
}
use pq.Worker.Shutdown.{ShutdownState}
use pq.Worker.Wait.{
  Waiting, Waited, blocks, throws, gives, wait_loop, after_loop, wait_for_child, result_of,
  decode_error, drain_pipe,
}
use pq.Worker.Slots.{
  ChildSlot, Os, Host, Launch, Attempt, started_one_off, claimed_one_off, claim_and_fork_one_off,
  started_periodic, claimed_periodic, claim_and_fork_periodic, or_periodic, try_claim_and_fork,
  Reaping, record_result, after_wait, reap_and_update,
}
use pq.Worker.Slots.Recorded.{slot_recorded-IsOutcome}

-- What others commit keeps the tables consistent.
abbrev pub KeepsTables : (Db → Db) → Type 0
KeepsTables f = (db : Db) → IsConsistent db → IsConsistent (f db)

abbrev BodyKeeps : {A : Type 0} → Result (A × Db) → Type 0
BodyKeeps (err e) = Unit
BodyKeeps (ok (a, db)) = IsConsistent db

session-IsConsistent :
    {A : Type 0} (env : Env) (body : Db → Result (A × Db)) (db : Db)
    → IsConsistent db
    → BodyKeeps (body db)
    → IsConsistent (session env body db).1
session-IsConsistent env body db k h =
    session_keeps IsConsistent env body db k (λ a d e. subst BodyKeeps e h)

pub claim_periodic-IsConsistent :
    (cron : Cron) (env : Env) (priorities : Option (List Priority)) (max_runtime : ℕ) (db : Db)
    → IsConsistent db
    → IsConsistent (claim_periodic cron env priorities max_runtime db).1
unfolding claim_periodic claim_periodic_body
claim_periodic-IsConsistent cron env priorities max_runtime db k =
    session-IsConsistent env (claim_periodic_body cron env priorities max_runtime) db k
      (of_pick (pick_periodic env priorities db.periodics))
  where
    of_row :
        (r : Result Periodic)
        → BodyKeeps {A = Option Periodic} (r >>= λ p'. ok (some p', put_periodic p' db))
    of_row (err e) = tt
    of_row (ok p') = unfold put_periodic in periodics-IsConsistent db _ k

    of_pick :
        (o : Option Periodic)
        → BodyKeeps {A = Option Periodic} (elim o [
          | none ↦ ok (none, db)
          | some p ↦ advance_row cron env max_runtime p >>= λ p'. ok (some p', put_periodic p' db)
        ])
    of_pick none = k
    of_pick (some p) = of_row (advance_row cron env max_runtime p)

pub clear_lock-IsConsistent :
    (env : Env) (id : ℕ) (limit : Option ℕ) → KeepsTables (clear_lock env id limit)
unfolding clear_lock
clear_lock-IsConsistent env id none db k = k
clear_lock-IsConsistent env id (some n) db k =
    session-IsConsistent env (clear_body id) db k
      (unfold clear_body in periodics-IsConsistent db _ k)

abbrev pub HostKeeps : Host → Type 0
HostKeeps h = IsConsistent h.db

abbrev pub AttemptKeeps : Attempt → Type 0
AttemptKeeps a = KeepsTables a.one_off.others × KeepsTables a.others × KeepsTables a.periodic.others

module _ (c : Codec) {F : Type 0} (importer : Text → Text → Import F) where
  started_one_off-HostKeeps :
      (l : Launch) (t : Task) (db : Db) (r : Result (ℕ × ℕ) × Os)
      → KeepsTables l.others
      → IsConsistent db
      → HostKeeps (started_one_off c importer l t db r).1
  unfolding started_one_off
  started_one_off-HostKeeps l t db (ok x, os) keep k = k
  started_one_off-HostKeeps l t db (err e, os) keep k =
      finish_one_off-IsConsistent l.failure_env t.id t.started_at failed (some (raised e))
        (l.others db) (inr refl) (keep db k)

  claimed_one_off-HostKeeps :
      (l : Launch) (os : Os) (r : Result (Option Task) × Db)
      → KeepsTables l.others
      → IsConsistent r.1
      → HostKeeps (claimed_one_off c importer l os r).1
  unfolding claimed_one_off
  claimed_one_off-HostKeeps l os (err e, db) keep k = k
  claimed_one_off-HostKeeps l os (ok none, db) keep k = k
  claimed_one_off-HostKeeps l os (ok (some t), db) keep k =
      started_one_off-HostKeeps l t db _ keep k

  started_periodic-HostKeeps :
      (l : Launch) (p : Periodic) (db : Db) (r : Result (ℕ × ℕ) × Os)
      → KeepsTables l.others
      → IsConsistent db
      → HostKeeps (started_periodic c importer l p db r).1
  unfolding started_periodic
  started_periodic-HostKeeps l p db (ok x, os) keep k = k
  started_periodic-HostKeeps l p db (err e, os) keep k =
      clear_lock-IsConsistent l.failure_env p.id p.max_concurrent (l.others db) (keep db k)

  claimed_periodic-HostKeeps :
      (l : Launch) (os : Os) (r : Result (Option Periodic) × Db)
      → KeepsTables l.others
      → IsConsistent r.1
      → HostKeeps (claimed_periodic c importer l os r).1
  unfolding claimed_periodic
  claimed_periodic-HostKeeps l os (err e, db) keep k = k
  claimed_periodic-HostKeeps l os (ok none, db) keep k = k
  claimed_periodic-HostKeeps l os (ok (some p), db) keep k =
      started_periodic-HostKeeps l p db _ keep k

  module _ (cron : Cron) (priorities : Option (List Priority)) (max_runtime : ℕ) (a : Attempt)
      (keep : AttemptKeeps a) where
    or_periodic-HostKeeps :
        (x : Option ChildSlot × Host)
        → HostKeeps x.1
        → HostKeeps (or_periodic c importer cron priorities max_runtime a x).1
    unfolding or_periodic claim_and_fork_periodic
    or_periodic-HostKeeps (some slot, h) k = k
    or_periodic-HostKeeps (none, h) k = claimed_periodic-HostKeeps a.periodic h.os _ keep.2 (
        claim_periodic-IsConsistent cron a.periodic.claim_env priorities max_runtime (a.others h.db)
          (keep.1 h.db k))

    pub try_claim_and_fork-HostKeeps :
        (h : Host)
        → HostKeeps h
        → HostKeeps (try_claim_and_fork c importer cron priorities max_runtime a h).1
    unfolding try_claim_and_fork claim_and_fork_one_off
    try_claim_and_fork-HostKeeps h k = or_periodic-HostKeeps _ (
        claimed_one_off-HostKeeps a.one_off h.os _ keep.0
          (claim_one_off-IsConsistent a.one_off.claim_env priorities h.db k))

module _ (decode : List ℕ → Text) (is_darwin : Bool) (x : Reaping)
    (keep : KeepsTables x.others) where
  record_result-HostKeeps :
      (slot : ChildSlot) (r : ChildResult) (db : Db)
      → IsOutcome
          (slot_recorded (x.now - slot.start_time) r).0
          (slot_recorded (x.now - slot.start_time) r).1
      → IsConsistent db
      → IsConsistent (record_result x slot r db)
  unfolding record_result
  record_result-HostKeeps slot r db o k =
      if_either slot.is_periodic IsConsistent
        (clear_lock-IsConsistent x.env slot.task_id slot.periodic_max_concurrent db k)
        (finish_one_off-IsConsistent x.env slot.task_id slot.started_at _ _ db o k)

  -- Where a wait is over, the tables stay consistent through the reaping.
  abbrev pub ReapingKeeps : Waited (Host × ShutdownState) → Type 0
  ReapingKeeps blocks = Unit
  ReapingKeeps (throws e s) = Unit
  ReapingKeeps (gives (h, s)) = HostKeeps h

  pub reap_and_update-HostKeeps :
      (slot : ChildSlot) (h : Host) (s : ShutdownState)
      → HostKeeps h
      → ReapingKeeps (reap_and_update decode is_darwin x slot (h, s))
  unfolding reap_and_update wait_for_child after_wait after_loop result_of
  reap_and_update-HostKeeps slot h s k =
      of_loop
        (wait_loop x.polls (record { killed_by_drain = false; error_bytes = []; shutdown = s }))
    where
      of_pipe :
          (status : WaitStatus) (max_rss : ℕ) (w : Waiting) (o : Option (List ℕ))
          → ReapingKeeps (after_wait x slot h (result_of decode is_darwin ((status, max_rss), w) o))
      of_pipe status max_rss w none = tt
      of_pipe status max_rss w (some bs) =
          record_result-HostKeeps slot _ (x.others h.db)
            (slot_recorded-IsOutcome w.killed_by_drain w.shutdown.drain_timeout max_rss is_darwin
              (x.now - slot.start_time) status (decode_error decode (w.error_bytes ++ bs)))
            (keep h.db k)

      of_loop :
          (o : Waited ((WaitStatus × ℕ) × Waiting))
          → ReapingKeeps (after_wait x slot h (after_loop decode is_darwin x.rest o))
      of_loop blocks = tt
      of_loop (throws e s') = tt
      of_loop (gives ((status, max_rss), w)) = of_pipe status max_rss w (drain_pipe x.rest)
