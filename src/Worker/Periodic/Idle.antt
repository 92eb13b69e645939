-- ===== src/Worker/Periodic/Idle.antt =====
-- When `_process_periodic_task` of src/pq/worker.py finds nothing to do.
use pq.Base.{
  ◌≡◌, refl, ◌⊎◌, inl, inr, Bool, true, false, Option, none, some, List, [], In, In-select, select,
  ℕ,
}
use pq.Errors.{Result, ok, err, PyError, ◌>>=◌}
use pq.Models.{Periodic, Priority}
use pq.Database.{Db, Env, session, commit}
use pq.Client.Schedule.{Cron}
use pq.Worker.Query.{IsFirst, first_row-IsFirst, first_row-none}
use pq.Worker.Periodic.{
  is_due, pick_periodic, advance_row, put_periodic, claim_periodic_body, claim_periodic,
  after_claim, process_periodic_task,
}

module _ (cron : Cron) (env : Env) (priorities : Option (List Priority)) (max_runtime : ℕ) where
  -- No schedule is due, or the first that is, by priority and then by its time, has no next run.
  abbrev pub IsIdle : Db → Type 0
  IsIdle db =
      (select (is_due env priorities) db.periodics ≡ [])
      ⊎ ((p : Periodic) × (e : PyError) × In p db.periodics
          × (is_due env priorities p ≡ true)
          × IsFirst (λ u. u.priority) (λ u. u.next_run)
              (select (is_due env priorities) db.periodics) p
          × (advance_row cron env max_runtime p ≡ err e))

  -- What a claim made of the tables, where it took no schedule.
  abbrev TookNothing : Db → Result (Option Periodic × Db) → Type 0
  TookNothing db (err e) = IsIdle db
  TookNothing db (ok (none, db')) = IsIdle db × (db' ≡ db)
  TookNothing db (ok (some p, db')) = Unit

  advanced-TookNothing :
      (db : Db) (p : Periodic) (r : Result Periodic)
      → In p db.periodics
      → is_due env priorities p ≡ true
      → IsFirst (λ u. u.priority) (λ u. u.next_run) (select (is_due env priorities) db.periodics) p
      → advance_row cron env max_runtime p ≡ r
      → TookNothing db (r >>= λ p'. ok (some p', put_periodic p' db))
  advanced-TookNothing db p (err e) i due first q = inr (p, e, i, due, first, q)
  advanced-TookNothing db p (ok p') i due first q = tt

  picked-TookNothing :
      (db : Db) (o : Option Periodic)
      → pick_periodic env priorities db.periodics ≡ o
      → TookNothing db (elim o [
        | none ↦ ok (none, db)
        | some p ↦ advance_row cron env max_runtime p >>= λ p'. ok (some p', put_periodic p' db)
      ])
  unfolding pick_periodic
  picked-TookNothing db none e = (
    inl (
        first_row-none (λ p. p.priority) (λ p. p.next_run)
          (select (is_due env priorities) db.periodics) e),
    refl,
  )
  picked-TookNothing db (some p) e =
      let first =
        first_row-IsFirst (λ p. p.priority) (λ p. p.next_run)
          (select (is_due env priorities) db.periodics) p e in
      let (j, due) = In-select (is_due env priorities) db.periodics first.0 in
      advanced-TookNothing db p (advance_row cron env max_runtime p) j due first refl

  claim_periodic_body-TookNothing :
      (db : Db) → TookNothing db (claim_periodic_body cron env priorities max_runtime db)
  unfolding claim_periodic_body
  claim_periodic_body-TookNothing db =
      picked-TookNothing db (pick_periodic env priorities db.periodics) refl

-- An answer that there was nothing to do.
abbrev pub IsIdleAnswer : (Db → Type 0) → Db → Bool × Db → Type 0
IsIdleAnswer P db (true, db') = Unit
IsIdleAnswer P db (false, db') = P db × (db' ≡ db)

pub IsIdleAnswer-false :
    (P : Db → Type 0) (db : Db) (x : Bool × Db)
    → IsIdleAnswer P db x
    → x.0 ≡ false
    → P db × (x.1 ≡ db)
IsIdleAnswer-false P db (true, db') h e = cc
IsIdleAnswer-false P db (false, db') h e = h

module _ (cron : Cron) (env env' : Env) (priorities : Option (List Priority)) (max_runtime : ℕ)
    (others : Db → Db) (up : env.up ≡ true) where
  after_claim-IsIdleAnswer :
      (db : Db) (answers : Bool) (r : Result (Option Periodic × Db))
      → answers ≡ true
      → TookNothing cron env priorities max_runtime db r
      → IsIdleAnswer
          (IsIdle cron env priorities max_runtime)
          db
          (after_claim env' others (commit answers db r))
  unfolding after_claim commit
  after_claim-IsIdleAnswer db answers (err e) u h = (h, refl)
  after_claim-IsIdleAnswer db true (ok (none, db')) u h = h
  after_claim-IsIdleAnswer db true (ok (some p, db')) u h = tt
  after_claim-IsIdleAnswer db false (ok r) u h = cc

  -- Where it answers that there was nothing to do, there was none, and the tables stay.
  pub process_periodic_task-IsIdleAnswer :
      (db : Db)
      → IsIdleAnswer
          (IsIdle cron env priorities max_runtime)
          db
          (process_periodic_task cron env env' priorities max_runtime others db)
  unfolding process_periodic_task claim_periodic session
  process_periodic_task-IsIdleAnswer db =
      after_claim-IsIdleAnswer db env.up (claim_periodic_body cron env priorities max_runtime db) up
        (claim_periodic_body-TookNothing cron env priorities max_runtime db)
