-- ===== src/System/Runs/Calls.antt =====
-- The calls of src/pq/client.py and the rows that live runs hold.
use pq.Base.{
  ℕ, ◌≡◌, refl, subst, sym, Bool, inl, inr, List, [], ◌∷◌, find, Option-cases, ltb, length, arith,
}
use pq.Errors.{Result, ok, err, >>=-eq-ok}
use pq.Models.{Task, Version, completed, failed}
use pq.Database.{Db, Env, session, has_client, has_id, insert_task}
use pq.Database.Consistent.{insert_task-eq-ok}
use pq.Database.Sessions.{session_keeps}
use pq.Serialization.{Codec}
use pq.Client.{prepare}
use pq.Client.Tasks.{
  new_task, enqueue, delete_tasks, succeeds_with, cancel, clear_all, expired, clear_completed,
  clear_failed,
}
use pq.Client.Upsert.{
  Statement, upsert_row, upsert_new, execute_upsert, execute_all, upsert, upsert_many,
  upsert_statement, build_statements, in_client_order, zeros,
}
use pq.System.{
  ClientCall, enqueues, upserts, upserts_many, cancels, clears_all, clears_completed, clears_failed,
}
use pq.System.Keeps.Client.{snd_of_ok, checks_keep}
use pq.System.Runs.Held.{ShowsRun, Held, update-Held, delete-Held, append-Held}

module _ (i started : ℕ) where
  abbrev Holds : Db → Type 0
  Holds = Held i started

  insert_task-Held :
      (row : ℕ → Task) (db : Db) {n : ℕ} {db' : Db}
      → ((n : ℕ) → (row n).id ≡ n)
      → insert_task row db ≡ ok (n, db')
      → Holds db
      → Holds db'
  insert_task-Held row db {n} {db'} ids e h =
      let (_, _, after) = insert_task-eq-ok row db {i = n} {db' = db'} e in
      subst Holds (sym after)
        (append-Held i started (row db.next_task_id) db (ids db.next_task_id) h)

  upsert_row-ShowsRun :
      (v : Version) (t : Task) → ShowsRun i started t → ShowsRun i started (upsert_row v t)
  unfolding upsert_row
  upsert_row-ShowsRun v t h same = let (r, s) = h same in (ground arith, ground arith)

  execute_upsert-Held :
      (env : Env) (s : Statement) (db : Db) {n : ℕ} {db' : Db}
      → execute_upsert env s db ≡ ok (n, db')
      → Holds db
      → Holds db'
  unfolding execute_upsert
  execute_upsert-Held env s db {n} {db'} e h =
      elim (Option-cases (find (has_client s.client_id) db.tasks)) [
        | inl gone ↦
            insert_task-Held (upsert_new env s) db {n = n} {db' = db'}
              (λ k. unfold upsert_new in refl) (rw (gone, execute_upsert) at e) h
        | inr (t, there) ↦ subst Holds (snd_of_ok (rw (there, execute_upsert) at e)) (
            update-Held i started (has_client s.client_id) (upsert_row s.version) db
              (λ u _ _ k. upsert_row-ShowsRun s.version u k) h)
      ]

  execute_all-Held :
      (env : Env) (ss : List (ℕ × Statement)) (ids : List ℕ) (db : Db) {out : List ℕ} {db' : Db}
      → execute_all env ss ids db ≡ ok (out, db')
      → Holds db
      → Holds db'
  unfolding execute_all
  execute_all-Held env [] ids db e h = subst Holds (snd_of_ok e) h
  execute_all-Held env ((j, s) ∷ ss) ids db {out} {db'} e h =
      let ((id, after), first, rest) = >>=-eq-ok (execute_upsert env s db) _ e in
      execute_all-Held env ss _ after {out = out} {db' = db'} rest
        (execute_upsert-Held env s db first h)

  deletes-Held :
      (env : Env) (p : Task → Bool) (db : Db) → Holds db → Holds (session env (delete_tasks p) db).1
  unfolding delete_tasks
  deletes-Held env p db h =
      session_keeps Holds env (delete_tasks p) db h
        λ n db' e. subst Holds (snd_of_ok e) (delete-Held i started p db h)

  cancel-Held : (env : Env) (n : ℕ) (db : Db) → Holds db → Holds (cancel env n db).1
  unfolding cancel
  cancel-Held env n db h =
      kept (session env (delete_tasks (has_id n)) db) (deletes-Held env (has_id n) db h)
    where
      kept : (r : Result ℕ × Db) → Holds r.1 → Holds (succeeds_with (λ k. ltb 0 k) r).1
      kept (ok k, d) q = q
      kept (err e, d) q = q

  pub ClientCall-Held : (c : Codec) {db db' : Db} → ClientCall c db db' → Holds db → Holds db'
  unfolding enqueue upsert upsert_many clear_all clear_completed clear_failed
  ClientCall-Held c {db} (enqueues env call client_id) h =
      checks_keep Holds (prepare c call) (λ p. session env (insert_task (new_task env client_id p)))
        db h
        λ p _. session_keeps Holds env (insert_task (new_task env client_id p)) db h λ n db' e.
          insert_task-Held (new_task env client_id p) db (λ k. unfold new_task in refl) e h
  ClientCall-Held c {db} (upserts env u) h =
      checks_keep Holds (upsert_statement c env u) (λ s. session env (execute_upsert env s)) db h
        λ s _.
          session_keeps Holds env (execute_upsert env s) db h
            λ n db' e. execute_upsert-Held env s db e h
  ClientCall-Held c {db} (upserts_many env us) h =
      checks_keep Holds (build_statements c env 0 us)
        (λ ss. session env (execute_all env (in_client_order ss) (zeros (length us)))) db h
        λ ss _.
          session_keeps Holds env (execute_all env (in_client_order ss) (zeros (length us))) db h
            λ ids db' e. execute_all-Held env (in_client_order ss) (zeros (length us)) db e h
  ClientCall-Held c {db} (cancels env n) h = cancel-Held env n db h
  ClientCall-Held c {db} (clears_all env) h =
      session_keeps Holds env _ db h
        λ u db' e. subst Holds (snd_of_ok e) (record { issued = h.issued; shows = tt })
  ClientCall-Held c {db} (clears_completed env before) h =
      deletes-Held env (expired completed before) db h
  ClientCall-Held c {db} (clears_failed env before) h =
      deletes-Held env (expired failed before) db h
