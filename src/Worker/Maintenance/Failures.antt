-- ===== src/Worker/Maintenance/Failures.antt =====
-- What can leave `_maybe_run_cleanup` of src/pq/worker.py as an exception.
use pq.Base.{
  ℕ, ◌+◌, ◌*◌, ◌≡◌, refl, ◌⊎◌, inl, inr, ◌==◌, ◌||◌, ltb, Bool, true, false, some, Bool-cases,
}
use pq.Errors.{Result, ok, err, PyError, other_error, operational_error}
use pq.Models.{Task, failed}
use pq.Database.{Db, Env, session, commit}
use pq.Client.Tasks.{succeeds_with, clear_completed, clear_failed, delete_tasks, expired}
use pq.Worker.Maintenance.{
  then_delete_failed, stamped, Cleaning, delete_old, maybe_run_cleanup, one_day,
}

-- The database fails, or the cutoff is before the least `datetime`.
abbrev pub IsCleanupError : PyError → Type 0
IsCleanupError e = (e ≡ operational_error) ⊎ (e ≡ other_error 1)

abbrev pub FailsOnlyIn : {A : Type 0} → Result A × Db → Type 0
FailsOnlyIn (ok a, db) = Unit
FailsOnlyIn (err e, db) = IsCleanupError e

commit-FailsOnlyIn :
    {A : Type 0} (up : Bool) (db : Db) (a : A) (d : Db) → FailsOnlyIn (commit up db (ok (a, d)))
unfolding commit
commit-FailsOnlyIn true db a d = tt
commit-FailsOnlyIn false db a d = inl refl

delete_tasks-FailsOnlyIn :
    (env : Env) (p : Task → Bool) (db : Db) → FailsOnlyIn (session env (delete_tasks p) db)
unfolding session delete_tasks
delete_tasks-FailsOnlyIn env p db = commit-FailsOnlyIn env.up db _ _

succeeds_with-FailsOnlyIn :
    {A B : Type 0} (f : A → B) (r : Result A × Db) → FailsOnlyIn r → FailsOnlyIn (succeeds_with f r)
succeeds_with-FailsOnlyIn f (ok a, db) h = tt
succeeds_with-FailsOnlyIn f (err e, db) h = h

then_delete_failed-FailsOnlyIn :
    (x : Cleaning) (cutoff : ℕ) (r : Result ℕ × Db)
    → FailsOnlyIn r
    → FailsOnlyIn (then_delete_failed x cutoff r)
unfolding then_delete_failed clear_failed
then_delete_failed-FailsOnlyIn x cutoff (err e, db) h = h
then_delete_failed-FailsOnlyIn x cutoff (ok n, db) h =
    succeeds_with-FailsOnlyIn (λ (m : ℕ). tt) _
      (delete_tasks-FailsOnlyIn x.failed_env (expired failed (some cutoff)) (x.others db))

stamped-FailsOnlyIn :
    (now : ℕ) (r : Result (Unit {0}) × Db) → FailsOnlyIn r → FailsOnlyIn (stamped now r)
unfolding stamped
stamped-FailsOnlyIn now (ok u, db) h = tt
stamped-FailsOnlyIn now (err e, db) h = h

pub maybe_run_cleanup-FailsOnlyIn :
    (retention_days cleanup_interval : ℕ) (x : Cleaning) (last_cleanup : ℕ) (db : Db)
    → FailsOnlyIn (maybe_run_cleanup retention_days cleanup_interval x last_cleanup db)
unfolding maybe_run_cleanup delete_old clear_completed
maybe_run_cleanup-FailsOnlyIn retention_days cleanup_interval x last_cleanup db =
    elim (Bool-cases (retention_days == 0 || ltb x.now (last_cleanup + cleanup_interval))) [
      | inl e ↦ rw e tt
      | inr e ↦ elim (Bool-cases (ltb x.utc_now (retention_days * one_day))) [
        | inl f ↦ rw (e, f) (inr refl)
        | inr f ↦
            rw (e, f)
              (stamped-FailsOnlyIn x.now _ (
                then_delete_failed-FailsOnlyIn x _ _
                  (delete_tasks-FailsOnlyIn x.completed_env _ db)))
      ]
    ]
