-- ===== src/Lifecycle/Reap.antt =====
-- `PQ.reap_stale_tasks` of src/pq/client.py: its two statements as the end of stale executions.
use pq.Base.{
  ℕ, ◌+◌, ◌==◌, ◌≡◌, refl, ap, ◌∙◌, inl, inr, Bool, true, false, Option, none, some, List, [], ◌∷◌,
  map, arith, update, select, length, All, All-select, is_some, Bool-cases, Option-cases,
  update_none, if◌then◌else◌, All-of_In,
}
use pq.Errors.{ok}
use pq.Models.{Task, failed, Version, with_version, apply_requeue}
use pq.Models.Valid.{IsValid}
use pq.Database.{Db, Env, has_id, put_task}
use pq.Database.Consistent.{IsConsistent, Key, key, IsApart, AllPairs, map-key-update}
use pq.Database.Sessions.{session_ok}
use pq.Client.Reaper.{
  is_stale, to_reap, to_requeue, reap_row, requeue_all, reap_body, reap_stale_tasks,
}
use pq.Lifecycle.{Phase, phase, conclude}

requeued : Option Version → Task → Task
requeued none t = t
requeued (some v) t = with_version v t

pub requeued_row : Task → Task
unfolding requeued
requeued_row t = requeued t.requeue t

requeued-IsValid : (o : Option Version) (t : Task) → IsValid t → IsValid (requeued o t)
unfolding requeued
requeued-IsValid none t v = v
requeued-IsValid (some w) t v = ground arith

pub requeued_row-IsValid : (t : Task) → IsValid t → IsValid (requeued_row t)
unfolding requeued_row
requeued_row-IsValid t v = requeued-IsValid t.requeue t v

pub requeued_row-key : (t : Task) → key (requeued_row t) ≡ key t
unfolding requeued_row
requeued_row-key t = ground arith

-- The loop of UPDATEs by primary key, on the rows alone.
put_rows : List Task → List Task → List Task
put_rows [] ts = ts
put_rows (u ∷ us) ts = put_rows us (update (has_id u.id) (λ _. requeued_row u) ts)

apply_requeue-requeued :
    (t : Task) (v : Version) → t.requeue ≡ some v → apply_requeue t ≡ ok (requeued_row t)
unfolding apply_requeue requeued_row
apply_requeue-requeued t v e = ground arith

put_requeued :
    (t : Task) (db : Db)
    → put_task (requeued_row t) db
      ≡ record db { tasks = update (has_id t.id) (λ _. requeued_row t) db.tasks }
unfolding put_task
put_requeued t db =
    ap (λ (i : ℕ). record db { tasks = update (has_id i) (λ _. requeued_row t) db.tasks })
      (ap (λ (k : Key). k.0) (requeued_row-key t))

requeue_all-put_rows :
    (us : List Task) (db : Db)
    → All (λ u. is_some u.requeue ≡ true) us
    → requeue_all us db ≡ ok (tt, record db { tasks = put_rows us db.tasks })
unfolding requeue_all put_rows
requeue_all-put_rows [] db h = refl
requeue_all-put_rows (u ∷ us) db h = elim (Option-cases u.requeue) [
  | inl e ↦ absurd (ground arith)
  | inr (v, e) ↦
      rw (apply_requeue-requeued u v e, put_requeued u db)
        (requeue_all-put_rows us
          (record db { tasks = update (has_id u.id) (λ _. requeued_row u) db.tasks }) h.1)
]

-- Rows of other ids do not touch the head.
put_rows-cons :
    (us : List Task) (y : Task) (ys : List Task)
    → All (λ u. (y.id == u.id) ≡ false) us
    → put_rows us (y ∷ ys) ≡ y ∷ put_rows us ys
unfolding put_rows update
put_rows-cons [] y ys h = refl
put_rows-cons (u ∷ us) y ys h =
    rw h.0 (put_rows-cons us y (update (has_id u.id) (λ _. requeued_row u) ys) h.1)

ids_differ :
    (x : Task) (ts : List Task)
    → All (IsApart (key x)) (map key ts)
    → All (λ u. (x.id == u.id) ≡ false) ts
ids_differ x [] h = tt
ids_differ x (y ∷ ts) h = (ground (arith, h.0.0), ids_differ x ts h.1)

ids_differ' :
    (x : Task) (ts : List Task)
    → All (IsApart (key x)) (map key ts)
    → All (λ u. has_id x.id u ≡ false) ts
ids_differ' x [] h = tt
ids_differ' x (y ∷ ts) h = (ground (arith, h.0.0), ids_differ' x ts h.1)

own_id : (x : Task) → (x.id == x.id) ≡ true
own_id x = ground arith

put_rows-head :
    (x : Task) (us ts : List Task)
    → All (λ u. has_id x.id u ≡ false) ts
    → put_rows (x ∷ us) (x ∷ ts) ≡ put_rows us (requeued_row x ∷ ts)
unfolding put_rows update
put_rows-head x us ts h =
    ap (put_rows us) (rw (own_id x, update_none (has_id x.id) (λ _. requeued_row x) ts h) refl)

-- With distinct ids the loop over the selected rows is one UPDATE of them.
put_rows-select :
    (p : Task → Bool) (ts : List Task)
    → AllPairs IsApart (map key ts)
    → put_rows (select p ts) ts ≡ update p requeued_row ts
unfolding put_rows select update
put_rows-select p [] a = refl
put_rows-select p (x ∷ ts) a = elim (Bool-cases (p x)) [
  | inl e ↦ rw e (
      put_rows-head x (select p ts) ts (ids_differ' x ts a.0)
      ∙ put_rows-cons (select p ts) (requeued_row x) ts (
          rw (ap (λ (k : Key). k.0) (requeued_row-key x)) (All-select _ p ts (ids_differ x ts a.0)))
      ∙ ap (◌∷◌ (requeued_row x)) (put_rows-select p ts a.1))
  | inr e ↦ rw e (
      put_rows-cons (select p ts) x ts (All-select _ p ts (ids_differ x ts a.0))
      ∙ ap (◌∷◌ x) (put_rows-select p ts a.1))
]

module _ (env : Env) (threshold : ℕ) where
  abbrev pub updated : List Task → List Task
  updated ts = update (to_reap env threshold) (reap_row env threshold) ts

  -- The spec of a row: a stale execution ends as failed, and any other row stays.
  pub reaped_phase : Task → Phase
  reaped_phase t = if is_stale env threshold t then conclude failed (phase t) else phase t

  pub not_stale_after : (t : Task) → is_stale env threshold (reap_row env threshold t) ≡ false
  unfolding is_stale reap_row
  not_stale_after t = refl

  phase-reap_row :
      (t : Task)
      → to_reap env threshold t ≡ true
      → phase (reap_row env threshold t) ≡ reaped_phase t
  unfolding reaped_phase is_stale reap_row phase conclude
  phase-reap_row t h = ground arith

  phase-requeued_row :
      (t : Task) → to_requeue env threshold t ≡ true → phase (requeued_row t) ≡ reaped_phase t
  unfolding reaped_phase is_stale requeued_row phase conclude
  phase-requeued_row t h = ground arith

  phase_kept :
      (t : Task)
      → to_reap env threshold t ≡ false
      → to_requeue env threshold t ≡ false
      → phase t ≡ reaped_phase t
  unfolding reaped_phase
  phase_kept t h k = ground arith

  reaped_row : Task → Task
  reaped_row t = if to_reap env threshold t then reap_row env threshold t else t

  phase-row :
      (t : Task)
      → phase (
          if to_requeue env threshold (reaped_row t)
          then requeued_row (reaped_row t)
          else reaped_row t)
        ≡ reaped_phase t
  unfolding reaped_row
  phase-row t = elim (Bool-cases (to_reap env threshold t)) [
    | inl e ↦ rw (e, not_stale_after t) (phase-reap_row t e)
    | inr e ↦ elim (Bool-cases (to_requeue env threshold t)) [
      | inl f ↦ rw (e, f) (phase-requeued_row t f)
      | inr f ↦ rw (e, f) (phase_kept t e f)
    ]
  ]

  phases :
      (ts : List Task)
      → map phase (update (to_requeue env threshold) requeued_row (updated ts))
        ≡ map reaped_phase ts
  unfolding update reaped_row
  phases [] = refl
  phases (t ∷ ts) = cc (phase-row t, phases ts)

  count :
      (ts : List Task)
      → length (select (to_reap env threshold) ts)
          + length (select (to_requeue env threshold) (updated ts))
        ≡ length (select (is_stale env threshold) ts)
  unfolding update select
  count [] = omega arith
  count (t ∷ ts) = ground (arith, count ts, not_stale_after t)

  requeued_are_parked :
      (ts : List Task) → All (λ u. is_some u.requeue ≡ true) (select (to_requeue env threshold) ts)
  unfolding select
  requeued_are_parked [] = tt
  requeued_are_parked (t ∷ ts) = elim (Bool-cases (to_requeue env threshold t)) [
    | inl e ↦ rw e (ground arith, requeued_are_parked ts)
    | inr e ↦ rw e (requeued_are_parked ts)
  ]

  pub reap_row-key : (t : Task) → key (reap_row env threshold t) ≡ key t
  unfolding reap_row
  reap_row-key t = refl

  updated-key : (ts : List Task) → map key (updated ts) ≡ map key ts
  updated-key ts = map-key-update _ _ ts (All-of_In ts (λ t _ _. reap_row-key t))

  abbrev pub reaped_tasks : List Task → List Task
  reaped_tasks ts = update (to_requeue env threshold) requeued_row (updated ts)

  reaped_tasks-key : (ts : List Task) → map key (reaped_tasks ts) ≡ map key ts
  reaped_tasks-key ts =
      map-key-update _ _ (updated ts) (All-of_In (updated ts) (λ t _ _. requeued_row-key t))
      ∙ updated-key ts

  pub reap_body_lem :
      (db : Db)
      → AllPairs IsApart (map key db.tasks)
      → reap_body env threshold db
        ≡ ok (
          length (select (is_stale env threshold) db.tasks),
          record db { tasks = reaped_tasks db.tasks },
        )
  unfolding reap_body
  reap_body_lem db a =
      let us = select (to_requeue env threshold) (updated db.tasks) in
      rw
        (
          requeue_all-put_rows us (record db { tasks = updated db.tasks })
              (requeued_are_parked (updated db.tasks)),
          put_rows-select (to_requeue env threshold) (updated db.tasks)
              (rw (updated-key db.tasks) a),
          count db.tasks,
        )
        refl

-- The tables after a reaping.
pub record Reaped (env : Env) (threshold : ℕ) (db db' : Db) : Type 0 where
  pub phases : map phase db'.tasks ≡ map (reaped_phase env threshold) db.tasks
  pub keys : map key db'.tasks ≡ map key db.tasks
  pub periodics_kept : db'.periodics ≡ db.periodics

-- While the database answers, a reaping of a consistent table raises nothing. It ends exactly the
-- stale executions, each as failed: a row with a version parked waits with that version, and any
-- other is closed. It returns how many executions were stale, and every other row keeps its phase.
pub reap_stale_tasks-Reaped :
    (env : Env) (threshold : ℕ) (db : Db)
    → env.up ≡ true
    → IsConsistent db
    → (db' : Db) × (reap_stale_tasks env threshold db
        ≡ (ok (length (select (is_stale env threshold) db.tasks)), db'))
      × Reaped env threshold db db'
unfolding reap_stale_tasks
reap_stale_tasks-Reaped env threshold db up c = (
  record db { tasks = reaped_tasks env threshold db.tasks },
  session_ok env (reap_body env threshold) db up (reap_body_lem env threshold db c.apart),
  record {
    phases = phases env threshold db.tasks;
    keys = reaped_tasks-key env threshold db.tasks;
    periodics_kept = refl;
  },
)
