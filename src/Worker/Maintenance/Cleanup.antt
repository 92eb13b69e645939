-- ===== src/Worker/Maintenance/Cleanup.antt =====
-- Which rows `_maybe_run_cleanup` of src/pq/worker.py deletes.
use pq.Base.{
  ℕ, ◌+◌, ◌-◌, ◌*◌, ◌≤◌, ◌≡◌, ◌≢◌, ◌⊎◌, refl, sym, ◌∙◌, inl, inr, ◌==◌, ◌||◌, ltb, Bool, true,
  false, some, List, [], ◌∷◌, arith, In, delete, Bool-cases, subst,
}
use pq.Errors.{Result, ok, err}
use pq.Lifecycle.Rows.{status_eq→eq}
use pq.Models.{status_eq, Task, TaskStatus, completed, failed}
use pq.Database.{Db, Env, session}
use pq.Database.Sessions.{session_keeps}
use pq.Client.Tasks.{succeeds_with, clear_completed, clear_failed, delete_tasks, expired}
use pq.Worker.Maintenance.{
  then_delete_failed, stamped, Cleaning, delete_old, maybe_run_cleanup, one_day,
}

-- A row that a retention keeps: it is not closed, or it was closed at the cutoff or after it.
abbrev pub IsKept : ℕ → Task → Type 0
IsKept cutoff t =
    ((t.status ≢ completed) × (t.status ≢ failed))
    ⊎ ((c : ℕ) × (t.completed_at ≡ some c) × (cutoff ≤ c))

In-delete :
    {A : Type 0} (p : A → Bool) (t : A) (ts : List A) → p t ≡ false → In t ts → In t (delete p ts)
unfolding delete
In-delete p t [] f i = absurd i
In-delete p t (x ∷ xs) f (inl e) = rw (subst (λ y. p y ≡ false) (sym e) f) (inl e)
In-delete p t (x ∷ xs) f (inr i) = elim (Bool-cases (p x)) [
  | inl d ↦ rw d (In-delete p t xs f i)
  | inr d ↦ rw d (inr (In-delete p t xs f i))
]

expired-IsKept :
    (status : TaskStatus) (cutoff : ℕ) (t : Task)
    → (status ≡ completed) ⊎ (status ≡ failed)
    → IsKept cutoff t
    → expired status (some cutoff) t ≡ false
expired-IsKept status cutoff t closed kept = elim (Bool-cases (status_eq t.status status)) [
  | inl e ↦ by_time (status_eq→eq t.status status e) e kept
  | inr e ↦ rw e refl
]
  where
    by_time :
        t.status ≡ status
        → status_eq t.status status ≡ true
        → IsKept cutoff t
        → expired status (some cutoff) t ≡ false
    by_time e b (inl (c, f)) = absurd (elim closed [ inl q ↦ c (e ∙ q) | inr q ↦ f (e ∙ q) ])
    by_time e b (inr (c, at, late)) = rw (b, at) (ground arith)

In-delete_tasks :
    (env : Env) (p : Task → Bool) (t : Task) (db : Db)
    → p t ≡ false
    → In t db.tasks
    → In t (session env (delete_tasks p) db).1.tasks
unfolding delete_tasks
In-delete_tasks env p t db f i =
    session_keeps (λ d. In t d.tasks) env (delete_tasks p) db i
      λ n d e. subst (λ (u : Db). In t u.tasks) (deleted n d e) (In-delete p t db.tasks f i)
  where
    deleted :
        (n : ℕ) (d : Db)
        → delete_tasks p db ≡ ok (n, d)
        → record db { tasks = delete p db.tasks } ≡ d
    deleted n d e = cc e

module _ (x : Cleaning) (cutoff : ℕ) (t : Task) (kept : IsKept cutoff t)
    (others_keep : (d : Db) → In t d.tasks → In t (x.others d).tasks) where
  succeeds_with-In :
      {A B : Type 0} (f : A → B) (r : Result A × Db)
      → In t r.1.tasks
      → In t (succeeds_with f r).1.tasks
  succeeds_with-In f (ok a, db) i = i
  succeeds_with-In f (err e, db) i = i

  then_delete_failed-In :
      (r : Result ℕ × Db) → In t r.1.tasks → In t (then_delete_failed x cutoff r).1.tasks
  unfolding then_delete_failed clear_failed
  then_delete_failed-In (err e, db) i = i
  then_delete_failed-In (ok n, db) i =
      succeeds_with-In (λ (m : ℕ). tt) _
        (In-delete_tasks x.failed_env (expired failed (some cutoff)) t (x.others db)
          (expired-IsKept failed cutoff t (inr refl) kept) (others_keep db i))

  delete_old-In : (db : Db) → In t db.tasks → In t (delete_old x cutoff db).1.tasks
  unfolding delete_old clear_completed
  delete_old-In db i = then_delete_failed-In _ (
      In-delete_tasks x.completed_env (expired completed (some cutoff)) t db
        (expired-IsKept completed cutoff t (inl refl) kept) i)

stamped-tables : (now : ℕ) (r : Result (Unit {0}) × Db) → (stamped now r).1 ≡ r.1
unfolding stamped
stamped-tables now (ok u, db) = refl
stamped-tables now (err e, db) = refl

-- A cleanup keeps every row that is not closed, and every row that was closed no longer ago than the
-- retention, whatever fails in it, where other processes keep the row too.
pub maybe_run_cleanup-In :
    (retention_days cleanup_interval : ℕ) (x : Cleaning) (last_cleanup : ℕ) (db : Db) (t : Task)
    → IsKept (x.utc_now - retention_days * one_day) t
    → ((d : Db) → In t d.tasks → In t (x.others d).tasks)
    → In t db.tasks
    → In t (maybe_run_cleanup retention_days cleanup_interval x last_cleanup db).1.tasks
unfolding maybe_run_cleanup
maybe_run_cleanup-In retention_days cleanup_interval x last_cleanup db t kept others_keep i =
    elim (Bool-cases (retention_days == 0 || ltb x.now (last_cleanup + cleanup_interval))) [
      | inl e ↦ rw e i
      | inr e ↦ elim (Bool-cases (ltb x.utc_now (retention_days * one_day))) [
        | inl f ↦ rw (e, f) i
        | inr f ↦
            rw (e, f, stamped-tables x.now (delete_old x (x.utc_now - retention_days * one_day) db))
              (delete_old-In x _ t kept others_keep db i)
      ]
    ]
