-- ===== src/Lifecycle/Finish.antt =====
-- `_finish_one_off`: the end of a run as the end of an execution, and the runs that it ignores.
use pq.Base.{
  ℕ, ◌≡◌, ◌≢◌, refl, ap, ◌∙◌, inl, inr, true, false, Option, none, some, arith, find, delete, In,
  In-find, In-All, Option-cases, opt_eq→eq, opt_eq_refl, find-none-All,
}
use pq.Errors.{ok}
use pq.Models.{Task, TaskStatus, running, Version, ErrorMsg, is_truthy, apply_requeue, with_version}
use pq.Models.Valid.{IsValid}
use pq.Database.{Db, Env, has_id, put_task}
use pq.Database.Consistent.{IsConsistent, Key, key}
use pq.Database.Put.{put_task-found, put_task-others, In-unique}
use pq.Database.Sessions.{session_ok, session-cases}
use pq.Lifecycle.{phase, conclude}
use pq.Lifecycle.Rows.{IsOutcome, close_row-IsValid}
use pq.Worker.OneOff.{is_this_run, close_row, end_row, finish_body, finish_one_off}

-- What is known of a row that is a given run.
pub is_this_run-facts :
    (i : ℕ) (started : Option ℕ) (t : Task)
    → is_this_run i started t ≡ true
    → (t.id ≡ i) × (t.status ≡ running) × (t.started_at ≡ started)
unfolding is_this_run
is_this_run-facts i started t h =
    (ground arith, ground arith, opt_eq→eq t.started_at started (ground arith))

this_run : (t : Task) → t.status ≡ running → is_this_run t.id t.started_at t ≡ true
unfolding is_this_run
this_run t e = ground (arith, opt_eq_refl t.started_at)

-- The run at hand among the rows of a consistent table.
find-this_run :
    (db : Db) (t : Task)
    → IsConsistent db
    → In t db.tasks
    → t.status ≡ running
    → find (is_this_run t.id t.started_at) db.tasks ≡ some t
find-this_run db t c i r = elim (Option-cases (find (is_this_run t.id t.started_at) db.tasks)) [
  | inl e ↦
      let off : is_this_run t.id t.started_at t ≡ false =
        In-All _ db.tasks (find-none-All (is_this_run t.id t.started_at) db.tasks e) i in
      cc (this_run t r)
  | inr (u, e) ↦
      let (j, h) = In-find (is_this_run t.id t.started_at) db.tasks e in
      e ∙ ap some (In-unique db.tasks c.apart i j (is_this_run-facts t.id t.started_at u h).0)
]

-- The error that a closed row shows: the run's message, unless the message is empty.
pub shown_error : Option Version → Option ErrorMsg → Option ErrorMsg
shown_error (some v) m = none
shown_error none none = none
shown_error none (some m) = elim (is_truthy m) [ true ↦ some m | false ↦ none ]

-- The row that the end of a run leaves in place of `t`.
pub record Ended (now : ℕ) (s : TaskStatus) (m : Option ErrorMsg) (t t' : Task) : Type 0 where
  pub same_key : key t' ≡ key t
  pub valid : IsValid t'
  pub moved : phase t' ≡ conclude s (phase t)
  pub shown : t'.error ≡ shown_error t.requeue m

module _ (now : ℕ) (s : TaskStatus) (m : Option ErrorMsg) (t : Task)
    (running_row : t.status ≡ running) (outcome : IsOutcome s m) (valid : IsValid t) where
  closed_row-Ended : t.requeue ≡ none → Ended now s m t (close_row now s m t)
  closed_row-Ended e = record {
    same_key = unfold close_row in refl;
    valid = close_row-IsValid now s m t running_row e outcome valid;
    moved = unfold close_row phase conclude in ground arith;
    shown = unfold close_row shown_error in ground arith;
  }

  requeued_row-Ended : (v : Version) → t.requeue ≡ some v → Ended now s m t (with_version v t)
  requeued_row-Ended v e = record {
    same_key = refl;
    valid = ground arith;
    moved = unfold phase conclude in ground arith;
    shown = unfold shown_error in ground arith;
  }

  -- A run's row ends in one way, without an exception.
  pub end_row-Ended : (t' : Task) × (end_row now s m t ≡ ok t') × Ended now s m t t'
  end_row-Ended = elim (Option-cases t.requeue) [
    | inl e ↦ (close_row now s m t, unfold end_row in ground arith, closed_row-Ended e)
    | inr (v, e) ↦
        (with_version v t, unfold end_row apply_requeue in ground arith, requeued_row-Ended v e)
  ]

module _ (env : Env) (db : Db) where
  pub finish_body-found :
      (id : ℕ) (started : Option ℕ) (s : TaskStatus) (m : Option ErrorMsg) (t t' : Task)
      → find (is_this_run id started) db.tasks ≡ some t
      → end_row env.utc_now s m t ≡ ok t'
      → finish_body env id started s m db ≡ ok (tt, put_task t' db)
  unfolding finish_body
  finish_body-found id started s m t t' f e = rw (f, finish_body, e) refl

  pub finish_body-none :
      (id : ℕ) (started : Option ℕ) (s : TaskStatus) (m : Option ErrorMsg)
      → find (is_this_run id started) db.tasks ≡ none
      → finish_body env id started s m db ≡ ok (tt, db)
  unfolding finish_body
  finish_body-none id started s m e = rw (e, finish_body) refl

-- The end of a run, recorded.
pub record Finished (env : Env) (s : TaskStatus) (m : Option ErrorMsg) (t : Task) (db db' : Db)
    : Type 0 where
  pub row : Task
  pub found : find (has_id t.id) db'.tasks ≡ some row
  pub moved : phase row ≡ conclude s (phase t)
  pub shown : row.error ≡ shown_error t.requeue m
  pub others : delete (has_id t.id) db'.tasks ≡ delete (has_id t.id) db.tasks

-- While the database answers, the end of the run that a RUNNING row is in concludes its execution:
-- with nothing parked the row is closed with the run's status and message, and with a version
-- parked the row waits with that version and shows no error. All other rows are as they were.
pub finish_one_off-Finished :
    (env : Env) (db : Db) (t : Task) (s : TaskStatus) (m : Option ErrorMsg)
    → env.up ≡ true
    → IsConsistent db
    → In t db.tasks
    → t.status ≡ running
    → IsOutcome s m
    → Finished env s m t db (finish_one_off env t.id t.started_at s m db)
unfolding finish_one_off
finish_one_off-Finished env db t s m up c i r o =
    let (t', e, ended) = end_row-Ended env.utc_now s m t r o (In-All IsValid db.tasks c.valid i) in
    let id_kept : t'.id ≡ t.id = ap (λ (k : Key). k.0) ended.same_key in
    let committed =
      session_ok env (finish_body env t.id t.started_at s m) db up
        (finish_body-found env db t.id t.started_at s m t t' (find-this_run db t c i r) e) in
    rw (committed, finish_one_off)
      (record {
        row = t';
        found = put_task-found t t' db i id_kept c;
        moved = ended.moved;
        shown = ended.shown;
        others = put_task-others t.id t' db id_kept;
      })

-- The result of a run that no row is in any more is dropped: whoever reaped, re-queued, re-claimed
-- or cancelled the row keeps the last word.
pub finish_one_off_superseded :
    (env : Env) (db : Db) (id : ℕ) (started : Option ℕ) (s : TaskStatus) (m : Option ErrorMsg)
    → ((t : Task) → In t db.tasks → t.id ≡ id → t.status ≡ running → t.started_at ≢ started)
    → finish_one_off env id started s m db ≡ db
unfolding finish_one_off
finish_one_off_superseded env db id started s m gone =
    elim (session-cases env (finish_body env id started s m) db) [
      | inl (a, db', _, e, r) ↦ rw (r, finish_one_off) (unchanged a db' e)
      | inr (e, r) ↦ rw (r, finish_one_off) refl
    ]
  where
    no_run : find (is_this_run id started) db.tasks ≡ none
    no_run = elim (Option-cases (find (is_this_run id started) db.tasks)) [
      | inl e ↦ e
      | inr (t, e) ↦
          let (i, h) = In-find (is_this_run id started) db.tasks e in
          let (same, runs, begun) = is_this_run-facts id started t h in
          absurd (gone t i same runs begun)
    ]

    unchanged :
        (a : Unit {0}) (db' : Db) → finish_body env id started s m db ≡ ok (a, db') → db' ≡ db
    unchanged a db' e = let f = finish_body-none env db id started s m no_run in cc

-- A run without a `started_at` matches no row: a RUNNING row always has one.
pub finish_one_off-none :
    (env : Env) (db : Db) (id : ℕ) (s : TaskStatus) (m : Option ErrorMsg)
    → IsConsistent db
    → finish_one_off env id none s m db ≡ db
finish_one_off-none env db id s m c =
    finish_one_off_superseded env db id none s m
      λ t i _ r. has_start t r (In-All IsValid db.tasks c.valid i)
  where
    has_start : (t : Task) → t.status ≡ running → IsValid t → t.started_at ≢ none
    has_start t r v e = ground arith
