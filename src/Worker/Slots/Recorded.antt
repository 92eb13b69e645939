-- ===== src/Worker/Slots/Recorded.antt =====
-- A one-off task of a concurrent worker, from its claim to the record of its child's end.
use pq.Base.{
  ℕ, ◌-◌, ◌≡◌, refl, sym, ap, ◌∙◌, Bool, true, false, Option, some, List, ◌++◌, In, Text, arith, [],
  ◌∷◌,
}
use pq.Errors.{Result, ok, err}
use pq.Models.{Task, Priority, running, TaskStatus, ErrorMsg}
use pq.Database.{Db}
use pq.Database.Consistent.{IsConsistent}
use pq.Registry.{Import}
use pq.Serialization.{Codec}
use pq.Worker.Child.{
  ChildResult, WaitStatus, signaled, exited, other_status, child_result, signal_result, exit_result,
  error_result, slot_recorded,
}
use pq.Worker.OneOff.{claim_one_off, finish_one_off}
use pq.Lifecycle.Rows.{IsOutcome}
use pq.Lifecycle.Finish.{Finished, finish_one_off-Finished}
use pq.Worker.Shutdown.{ShutdownState, Arrivals}
use pq.Worker.Shutdown.Signals.{Tracks}
use pq.Worker.Child.Verdict.{SlotVerdict, slot_recorded-SlotVerdict}
use pq.Worker.Wait.{decode_error, drain_pipe, gives}
use pq.Worker.Wait.Outcome.{exit_of, is_overdue, bytes_until_exit, wait_for_child_lem}
use pq.Worker.Slots.{
  ChildSlot, Os, Host, Launch, start_child, started_one_off, claimed_one_off,
  claim_and_fork_one_off, Reaping, record_result, after_wait, reap_and_update,
}

module _ (killed : Bool) (drain_timeout max_rss : ℕ) (is_darwin : Bool) (elapsed : ℕ) where
  -- What a concurrent worker records of a child's end fits the status.
  pub slot_recorded-IsOutcome :
      (status : WaitStatus) (text : Text)
      → IsOutcome
          (slot_recorded elapsed
            (child_result killed drain_timeout max_rss is_darwin status text)).0
          (slot_recorded elapsed
            (child_result killed drain_timeout max_rss is_darwin status text)).1
  unfolding slot_recorded child_result signal_result exit_result error_result
  slot_recorded-IsOutcome (signaled n) text = ground arith
  slot_recorded-IsOutcome (exited n) [] = ground arith
  slot_recorded-IsOutcome (exited n) (c ∷ t) = ground arith
  slot_recorded-IsOutcome other_status text = ground arith

-- What the wait gives of a child that exits in one of its polls.
abbrev pub result_at :
    (List ℕ → Text) → Bool → ℕ → Arrivals → Reaping → List ℕ → WaitStatus × ℕ → ChildResult
result_at decode is_darwin drain_timeout seen x bs (status, max_rss) =
    child_result (is_overdue drain_timeout seen x.polls) drain_timeout max_rss is_darwin status
      (decode_error decode (bytes_until_exit x.polls ++ bs))

-- A slot of a claimed task.
record IsSlotOf (now : ℕ) (t : Task) (slot : ChildSlot) : Type 0 where
  id : slot.task_id ≡ t.id
  begun : slot.started_at ≡ t.started_at
  start : slot.start_time ≡ now
  one_off : slot.is_periodic ≡ false

module _ (c : Codec) {F : Type 0} (importer : Text → Text → Import F) where
  started_one_off-IsSlotOf :
      (l : Launch) (t : Task) (db : Db) (r : Result (ℕ × ℕ) × Os) (slot : ChildSlot) (h : Host)
      → started_one_off c importer l t db r ≡ (some slot, h)
      → IsSlotOf l.now t slot
  unfolding started_one_off
  started_one_off-IsSlotOf l t db (err e, os) slot h q = cc
  started_one_off-IsSlotOf l t db (ok (pid, fd), os) slot h q = record {
    id = cc;
    begun = cc;
    start = cc;
    one_off = cc;
  }

  claim_and_fork_one_off-IsSlotOf :
      (priorities : Option (List Priority)) (l : Launch) (h h' : Host) (t : Task) (db : Db)
      (slot : ChildSlot)
      → claim_one_off l.claim_env priorities h.db ≡ (ok (some t), db)
      → claim_and_fork_one_off c importer priorities l h ≡ (some slot, h')
      → IsSlotOf l.now t slot
  unfolding claim_and_fork_one_off claimed_one_off
  claim_and_fork_one_off-IsSlotOf priorities l h h' t db slot e q =
      started_one_off-IsSlotOf l t db (start_child c importer t.name t.payload l.fork h.os) slot h'
        (rw e at q)

-- The tables after the reaping of a one-off slot.
record_result-one_off :
    (x : Reaping) (slot : ChildSlot) (r : ChildResult) (db : Db)
    → slot.is_periodic ≡ false
    → record_result x slot r db
      ≡ finish_one_off x.env slot.task_id slot.started_at
          (slot_recorded (x.now - slot.start_time) r).0
          (slot_recorded (x.now - slot.start_time) r).1
          db
unfolding record_result
record_result-one_off x slot r db e = rw (e, record_result) refl

-- What is to be recorded of a child that exits in one of the polls, with these bytes after it.
abbrev pub VerdictAt :
    (List ℕ → Text)
    → Bool
    → ℕ
    → Arrivals
    → Reaping
    → List ℕ
    → WaitStatus × ℕ
    → (elapsed : ℕ) → TaskStatus × Option ErrorMsg
    → Type 0
VerdictAt decode is_darwin drain_timeout seen x bs (status, max_rss) elapsed out =
    SlotVerdict (is_overdue drain_timeout seen x.polls) drain_timeout max_rss is_darwin elapsed
      (decode_error decode (bytes_until_exit x.polls ++ bs)) status out

-- The wait for a one-off slot's child and the record after it.
reap_and_update-Finished :
    (decode : List ℕ → Text) (is_darwin : Bool) (drain_timeout : ℕ) (seen : Arrivals) (x : Reaping)
    (bs : List ℕ) (h : Host) (s : ShutdownState) (status : WaitStatus × ℕ) (slot : ChildSlot)
    (u : Task)
    → Tracks drain_timeout seen s
    → exit_of x.polls ≡ some status
    → drain_pipe x.rest ≡ some bs
    → slot.is_periodic ≡ false
    → x.env.up ≡ true
    → IsConsistent (x.others h.db)
    → In u (x.others h.db).tasks
    → u.id ≡ slot.task_id
    → u.status ≡ running
    → u.started_at ≡ slot.started_at
    → (h' : Host) × (s' : ShutdownState) × (out : TaskStatus × Option ErrorMsg) × (reap_and_update
          decode is_darwin x slot
          (h, s)
        ≡ gives (h', s'))
      × VerdictAt decode is_darwin drain_timeout seen x bs status (x.now - slot.start_time) out
      × Finished x.env out.0 out.1 u (x.others h.db) h'.db
unfolding reap_and_update after_wait
reap_and_update-Finished decode is_darwin drain_timeout seen x bs h s (status, max_rss) slot u
      tracks exit drains one_off up good i same r began =
    let (s', waits, _) =
      wait_for_child_lem decode is_darwin drain_timeout seen x.polls x.rest bs s status max_rss
        tracks exit drains in
    (
      _,
      s',
      out,
      ap (after_wait x slot h) waits,
      slot_recorded-SlotVerdict drain_timeout max_rss (x.now - slot.start_time)
          (is_overdue drain_timeout seen x.polls) is_darwin
          (decode_error decode (bytes_until_exit x.polls ++ bs)) status,
      recorded_end,
    )
  where
    result : ChildResult
    result = result_at decode is_darwin drain_timeout seen x bs (status, max_rss)

    out : TaskStatus × Option ErrorMsg
    out = slot_recorded (x.now - slot.start_time) result

    recorded_end :
        Finished x.env out.0 out.1 u (x.others h.db) (record_result x slot result (x.others h.db))
    recorded_end =
        rw (record_result-one_off x slot result (x.others h.db) one_off, ← same, ← began)
          (finish_one_off-Finished x.env (x.others h.db) u out.0 out.1 up good i r (
            slot_recorded-IsOutcome (is_overdue drain_timeout seen x.polls) drain_timeout max_rss
              is_darwin (x.now - slot.start_time) status
              (decode_error decode (bytes_until_exit x.polls ++ bs))))

-- The concurrent worker's claim, fork and reaping of a one-off task: where the claim took the task
-- and a child was forked for it, the child exits in one of the polls, no call of the system raises
-- before, the reads after it end, and the row is still in the run of the claim when the result is
-- recorded, in a consistent table and while the database answers, whatever others did to the tables
-- meanwhile: the row's execution is concluded by the status and the message that are due to the exit
-- code, the alarm, the signal, the drain or the memory, and a version parked behind it waits next.
pub reap_and_update-claimed :
    (c : Codec) {F : Type 0} (importer : Text → Text → Import F)
    (priorities : Option (List Priority)) (l : Launch) (h0 h1 : Host) (t : Task) (db : Db)
    (slot : ChildSlot) (decode : List ℕ → Text) (is_darwin : Bool) (drain_timeout : ℕ)
    (seen : Arrivals) (x : Reaping) (bs : List ℕ) (h : Host) (s : ShutdownState)
    (status : WaitStatus × ℕ) (u : Task)
    → claim_one_off l.claim_env priorities h0.db ≡ (ok (some t), db)
    → claim_and_fork_one_off c importer priorities l h0 ≡ (some slot, h1)
    → Tracks drain_timeout seen s
    → exit_of x.polls ≡ some status
    → drain_pipe x.rest ≡ some bs
    → x.env.up ≡ true
    → IsConsistent (x.others h.db)
    → In u (x.others h.db).tasks
    → u.id ≡ t.id
    → u.status ≡ running
    → u.started_at ≡ t.started_at
    → (h' : Host) × (s' : ShutdownState) × (out : TaskStatus × Option ErrorMsg) × (reap_and_update
          decode is_darwin x slot
          (h, s)
        ≡ gives (h', s'))
      × VerdictAt decode is_darwin drain_timeout seen x bs status (x.now - l.now) out
      × Finished x.env out.0 out.1 u (x.others h.db) h'.db
reap_and_update-claimed c importer priorities l h0 h1 t db slot decode is_darwin drain_timeout seen
      x bs h s status u claims forks tracks exit drains up good i same r began =
    let k = claim_and_fork_one_off-IsSlotOf c importer priorities l h0 h1 t db slot claims forks in
    rw (← k.start) (
      reap_and_update-Finished decode is_darwin drain_timeout seen x bs h s status slot u tracks
        exit drains k.one_off up good i (same ∙ sym k.id) r (began ∙ sym k.begun))
