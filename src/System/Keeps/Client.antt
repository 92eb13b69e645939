-- ===== src/System/Keeps/Client.antt =====
-- The calls of src/pq/client.py and the task table's invariant.
use pq.Base.{
  ℕ, ◌≡◌, refl, subst, inl, inr, Bool, Option, List, [], ◌∷◌, Text, find, Option-cases, ltb, length,
}
use pq.Errors.{Result, ok, err, >>=-eq-ok}
use pq.Models.{Task}
use pq.Database.{Db, Env, session, has_client, has_id, insert_task}
use pq.Database.Consistent.{
  IsConsistent, update-IsConsistent, delete-IsConsistent, insert_task-IsConsistent,
}
use pq.Database.Sessions.{session_keeps}
use pq.Serialization.{Codec}
use pq.Client.{Call, prepare, after_checks}
use pq.Client.Tasks.{new_task, enqueue, delete_tasks, succeeds_with, cancel, clear_all}
use pq.Client.Upsert.{
  Statement, Upsert, upsert_row, upsert_new, execute_upsert, execute_all, upsert, upsert_many,
  upsert_statement, build_statements, in_client_order, zeros,
}
use pq.Lifecycle.Rows

pub snd_of_ok :
    {A : Type 0} {a b : A} {x y : Db} → ◌≡◌ {A = Result (A × Db)} (ok (a, x)) (ok (b, y)) → x ≡ y
snd_of_ok e = cc

pub checks_keep :
    {A B : Type 0} (P : Db → Type 0) (r : Result A) (f : A → Db → Result B × Db) (db : Db)
    → P db
    → ((a : A) → r ≡ ok a → P (f a db).1)
    → P (after_checks r f db).1
checks_keep P (ok a) f db h keep = keep a refl
checks_keep P (err e) f db h keep = h

pub enqueue-IsConsistent :
    (c : Codec) (env : Env) (call : Call c) (client_id : Option Text) (db : Db)
    → IsConsistent db
    → IsConsistent (enqueue c env call client_id db).1
unfolding enqueue
enqueue-IsConsistent c env call client_id db h =
    checks_keep IsConsistent (prepare c call) _ db h λ p _.
      session_keeps IsConsistent env (insert_task (new_task env client_id p)) db h λ id db' e.
        insert_task-IsConsistent (new_task env client_id p) (λ n. unfold new_task in refl)
          (Rows.new_task-IsValid env client_id p) db e h

execute_upsert-IsConsistent :
    (env : Env) (s : Statement) (db : Db) {id : ℕ} {db' : Db}
    → execute_upsert env s db ≡ ok (id, db')
    → IsConsistent db
    → IsConsistent db'
unfolding execute_upsert
execute_upsert-IsConsistent env s db {db' = db'} e h =
    elim (Option-cases (find (has_client s.client_id) db.tasks)) [
      | inl gone ↦
          insert_task-IsConsistent (upsert_new env s) (λ n. unfold upsert_new in refl)
            (Rows.upsert_new-IsValid env s) db (rw (gone, execute_upsert) at e) h
      | inr (t, there) ↦ subst IsConsistent (snd_of_ok (rw (there, execute_upsert) at e)) (
          update-IsConsistent (has_client s.client_id) (upsert_row s.version) db
            (λ u _ _ v. (Rows.upsert_row-key s.version u, Rows.upsert_row-IsValid s.version u v)) h)
    ]

pub delete-keeps :
    (env : Env) (p : Task → Bool) (db : Db)
    → IsConsistent db
    → IsConsistent (session env (delete_tasks p) db).1
unfolding delete_tasks
delete-keeps env p db h =
    session_keeps IsConsistent env (delete_tasks p) db h
      λ n db' e. subst IsConsistent (snd_of_ok e) (delete-IsConsistent p db h)

execute_all-IsConsistent :
    (env : Env) (ss : List (ℕ × Statement)) (ids : List ℕ) (db : Db) {out : List ℕ} {db' : Db}
    → execute_all env ss ids db ≡ ok (out, db')
    → IsConsistent db
    → IsConsistent db'
unfolding execute_all
execute_all-IsConsistent env [] ids db e h = subst IsConsistent (snd_of_ok e) h
execute_all-IsConsistent env ((i, s) ∷ ss) ids db {out} {db'} e h =
    let ((id, after), first, rest) = >>=-eq-ok (execute_upsert env s db) _ e in
    execute_all-IsConsistent env ss _ after {out = out} {db' = db'} rest
      (execute_upsert-IsConsistent env s db first h)

pub upsert-IsConsistent :
    (c : Codec) (env : Env) (u : Upsert c) (db : Db)
    → IsConsistent db
    → IsConsistent (upsert c env u db).1
unfolding upsert
upsert-IsConsistent c env u db h =
    checks_keep IsConsistent (upsert_statement c env u) (λ s. session env (execute_upsert env s)) db
      h
      λ s _.
        session_keeps IsConsistent env (execute_upsert env s) db h
          λ id db' e. execute_upsert-IsConsistent env s db e h

pub upsert_many-IsConsistent :
    (c : Codec) (env : Env) (us : List (Upsert c)) (db : Db)
    → IsConsistent db
    → IsConsistent (upsert_many c env us db).1
unfolding upsert_many
upsert_many-IsConsistent c env us db h =
    checks_keep IsConsistent (build_statements c env 0 us)
      (λ ss. session env (execute_all env (in_client_order ss) (zeros (length us)))) db h
      λ ss _.
        session_keeps IsConsistent env (execute_all env (in_client_order ss) (zeros (length us))) db
          h
          λ ids db' e. execute_all-IsConsistent env (in_client_order ss) (zeros (length us)) db e h

pub cancel-IsConsistent :
    (env : Env) (i : ℕ) (db : Db) → IsConsistent db → IsConsistent (cancel env i db).1
unfolding cancel
cancel-IsConsistent env i db h =
    kept (session env (delete_tasks (has_id i)) db) (delete-keeps env (has_id i) db h)
  where
    kept : (r : Result ℕ × Db) → IsConsistent r.1 → IsConsistent (succeeds_with (λ n. ltb 0 n) r).1
    kept (ok n, d) k = k
    kept (err e, d) k = k

pub clear_all-IsConsistent :
    (env : Env) (db : Db) → IsConsistent db → IsConsistent (clear_all env db).1
unfolding clear_all
clear_all-IsConsistent env db h =
    session_keeps IsConsistent env _ db h
      λ u db' e. subst IsConsistent (snd_of_ok e) (record { valid = tt; below = tt; apart = tt })
