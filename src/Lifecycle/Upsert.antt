-- ===== src/Lifecycle/Upsert.antt =====
-- `PQ.upsert` as a request for a version, and as an action on the table.
use pq.Base.{
  ℕ, suc, ◌≡◌, refl, inl, inr, true, Option, none, some, [], ◌∷◌, ◌++◌, arith, find, update, delete,
  Option-cases, find-update-some, delete-update, find-append_none, delete-append, Text,
  text_eq_refl,
}
use pq.Errors.{ok}
use pq.Models.{Task, Version}
use pq.Database.{Db, Env, insert_task, has_client, client_taken}
use pq.Database.Sessions.{session_ok}
use pq.Serialization.{Codec}
use pq.Client.Upsert.{
  Upsert, Statement, upsert, upsert_statement, upsert_row, upsert_new, execute_upsert,
}
use pq.Lifecycle.{Phase, queued, request, phase}

-- A request for a client id with no row makes one.
abbrev pub requested : Version → Option Task → Phase
requested v none = queued v
requested v (some t) = request v (phase t)

pub phase-upsert_row : (v : Version) (t : Task) → phase (upsert_row v t) ≡ request v (phase t)
unfolding phase upsert_row request
phase-upsert_row v t = ground arith

phase-upsert_new :
    (env : Env) (s : Statement) (n : ℕ) → phase (upsert_new env s n) ≡ queued s.version
unfolding phase upsert_new
phase-upsert_new env s n = refl

-- What a batch of one statement leaves behind.
pub record Upserted (s : Statement) (db db' : Db) (id : ℕ) : Type 0 where
  pub row : Task
  pub found : find (has_client s.client_id) db'.tasks ≡ some row
  pub identified : row.id ≡ id
  pub moved : phase row ≡ requested s.version (find (has_client s.client_id) db.tasks)
  pub others : delete (has_client s.client_id) db'.tasks ≡ delete (has_client s.client_id) db.tasks
  pub periodics_kept : db'.periodics ≡ db.periodics

abbrev IsExecuted : Env → Statement → Db → Type 0
IsExecuted env s db =
    (id : ℕ) × (db' : Db) × (execute_upsert env s db ≡ ok (id, db')) × Upserted s db db' id

keeps_client :
    (v : Version) (c : Text) (t : Task)
    → has_client c t ≡ true
    → has_client c (upsert_row v t) ≡ true
unfolding upsert_row
keeps_client v c t h = h

IsExecuted-new :
    (env : Env) (s : Statement) (db : Db)
    → find (has_client s.client_id) db.tasks ≡ none
    → IsExecuted env s db
unfolding execute_upsert insert_task client_taken
IsExecuted-new env s db e =
    let t = upsert_new env s db.next_task_id in
    (
      db.next_task_id,
      record db { tasks = db.tasks ++ t ∷ []; next_task_id = suc db.next_task_id },
      runs,
      record {
        row = t;
        found = find-append_none (has_client s.client_id) db.tasks t e own;
        identified = id_same;
        moved = rw e (phase-upsert_new env s db.next_task_id);
        others = delete-append (has_client s.client_id) db.tasks t own;
        periodics_kept = refl;
      },
    )
  where
    runs :
        execute_upsert env s db
        ≡ ok (
          db.next_task_id,
          record db {
            tasks = db.tasks ++ upsert_new env s db.next_task_id ∷ [];
            next_task_id = suc db.next_task_id;
          },
        )
    runs = unfold upsert_new in ground arith

    own : has_client s.client_id (upsert_new env s db.next_task_id) ≡ true
    own = unfold upsert_new in text_eq_refl s.client_id

    same : (upsert_new env s db.next_task_id).client_id ≡ some s.client_id
    same = unfold upsert_new in refl

    id_same : (upsert_new env s db.next_task_id).id ≡ db.next_task_id
    id_same = unfold upsert_new in refl

IsExecuted-old :
    (env : Env) (s : Statement) (db : Db) (t : Task)
    → find (has_client s.client_id) db.tasks ≡ some t
    → IsExecuted env s db
unfolding execute_upsert
IsExecuted-old env s db t e =
    let p = has_client s.client_id in
    let keep = keeps_client s.version s.client_id in
    (
      t.id,
      record db { tasks = update p (upsert_row s.version) db.tasks },
      rw (e, execute_upsert) refl,
      record {
        row = upsert_row s.version t;
        found = find-update-some p (upsert_row s.version) keep db.tasks e;
        identified = unfold upsert_row in refl;
        moved = rw e (phase-upsert_row s.version t);
        others = delete-update p (upsert_row s.version) keep db.tasks;
        periodics_kept = refl;
      },
    )

-- The statement never fails: where its client id has a row it updates that row.
pub execute_upsert-Upserted : (env : Env) (s : Statement) (db : Db) → IsExecuted env s db
execute_upsert-Upserted env s db = elim (Option-cases (find (has_client s.client_id) db.tasks)) [
  | inl e ↦ IsExecuted-new env s db e
  | inr (t, e) ↦ IsExecuted-old env s db t e
]

-- While the database answers, an upsert whose checks pass returns the id of the one row that its
-- client id then has; the version was requested of the row that was there, as the lifecycle says,
-- and all rows of other clients and all schedules are as they were.
pub upsert-Upserted :
    (c : Codec) (env : Env) (u : Upsert c) (s : Statement) (db : Db)
    → env.up ≡ true
    → upsert_statement c env u ≡ ok s
    → (id : ℕ) × (db' : Db) × (upsert c env u db ≡ (ok id, db')) × Upserted s db db' id
unfolding upsert
upsert-Upserted c env u s db up h =
    let (id, db', e, done) = execute_upsert-Upserted env s db in
    (id, db', rw h (session_ok env (execute_upsert env s) db up e), done)
