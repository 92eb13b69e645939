-- ===== src/Worker/Periodic.antt =====
-- The periodic tasks of src/pq/worker.py: `_process_periodic_task` and its twin for concurrent
-- workers, `_claim_and_fork_periodic`, share the claim and the clearing of the lock.
pub mod Overlap
pub mod Idle
pub mod Unlock
use pq.Base.{
  ℕ, ◌+◌, ◌*◌, ltb, leb, ◌==◌, Bool, true, false, ◌&&◌, ◌||◌, not, Option, none, some, List, [],
  ◌∷◌, Text, select, update, get_or, is_some, if◌then◌else◌,
}
use pq.Errors.{Result, ok, err, PyError, integrity_error, ◌>>=◌}
use pq.Models.{Periodic, Priority}
use pq.Database.{Db, Env, Session, session, elem}
use pq.Client.Schedule.{Cron}
use pq.Worker.Query.{wanted, comes_before, first_row}

-- `max_concurrent IS NULL OR locked_until IS NULL OR locked_until <= now()`
lock_open : ℕ → Option ℕ → Bool
lock_open now none = true
lock_open now (some l) = leb l now

unfoldable pub is_free : ℕ → Periodic → Bool
unfolding lock_open
is_free now p = not (is_some p.max_concurrent) || lock_open now p.locked_until

unfoldable pub is_due : Env → Option (List Priority) → Periodic → Bool
unfolding is_free
is_due env priorities p =
    p.active
    && leb p.next_run env.sql_now
    && is_free env.sql_now p
    && wanted priorities p.priority
    && not (elem p.id env.locked)

-- ORDER BY priority DESC, next_run
unfoldable pub periodic_before : Periodic → Periodic → Bool
periodic_before = comes_before (λ p. p.priority) (λ p. p.next_run)

unfoldable pub pick_periodic : Env → Option (List Priority) → List Periodic → Option Periodic
pick_periodic env priorities ps =
    first_row (λ p. p.priority) (λ p. p.next_run) (select (is_due env priorities) ps)

-- One second, in microseconds.
abbrev pub second : ℕ
second = 1000000

-- `effective_max_runtime if effective_max_runtime > 0 else 3600`
unfoldable pub lock_duration : ℕ → ℕ
lock_duration effective_max_runtime =
    if ltb 0 effective_max_runtime then effective_max_runtime else 3600 * second

-- `locked_until` is set only under a limit.
lock_from : ℕ → ℕ → Option ℕ → Option ℕ → Option ℕ
lock_from now effective none old = old
lock_from now effective (some n) old = some (now + lock_duration effective)

-- `next_run`: the expression's next instant, else now and the interval. Without an interval the
-- column is NULL, which the table refuses.
following_run : Cron → Env → Option Text → Option ℕ → Result ℕ
following_run cron env (some (x ∷ e)) every = cron.get_next (x ∷ e) env.utc_now
following_run cron env _ none = err integrity_error
following_run cron env _ (some every) = ok (env.sql_now + every)

unfoldable pub advance_row : Cron → Env → ℕ → Periodic → Result Periodic
unfolding lock_from following_run
advance_row cron env max_runtime p = do
  next_run ← following_run cron env p.cron p.run_every
  ok (record p {
    locked_until =
        lock_from env.sql_now (get_or p.max_runtime_seconds max_runtime) p.max_concurrent
          p.locked_until;
    last_run = some env.sql_now;
    next_run = next_run;
  })

abbrev pub periodic_has_id : ℕ → Periodic → Bool
periodic_has_id i p = p.id == i

unfoldable pub put_periodic : Periodic → Db → Db
put_periodic p db = record db { periodics = update (periodic_has_id p.id) (λ _. p) db.periodics }

-- Phase 1: the claim advances the schedule before the execution.
unfoldable pub claim_periodic_body :
    Cron → Env → Option (List Priority) → ℕ → Session (Option Periodic)
claim_periodic_body cron env priorities max_runtime db =
    elim (pick_periodic env priorities db.periodics) [
      | none ↦ ok (none, db)
      | some p ↦ do p' ← advance_row cron env max_runtime p; ok (some p', put_periodic p' db)
    ]

unfoldable pub claim_periodic :
    Cron → Env → Option (List Priority) → ℕ → Db → Result (Option Periodic) × Db
claim_periodic cron env priorities max_runtime =
    session env (claim_periodic_body cron env priorities max_runtime)

abbrev pub unlocked : Periodic → Periodic
unlocked p = record p { locked_until = none }

unfoldable pub clear_body : ℕ → Session (Unit {0})
clear_body i db =
    ok (tt, record db { periodics = update (periodic_has_id i) unlocked db.periodics })

-- `if periodic_max_concurrent is not None: … locked_until=None`; an exception is logged.
unfoldable pub clear_lock : Env → ℕ → Option ℕ → Db → Db
unfolding clear_body
clear_lock env i none db = db
clear_lock env i (some n) db = (session env (clear_body i) db).1

-- `_process_periodic_task`: whatever the execution comes to, the lock is cleared after it. `others`
-- is what other processes commit while the child runs.
unfoldable pub after_claim : Env → (Db → Db) → Result (Option Periodic) × Db → Bool × Db
after_claim env others (err e, db) = (false, db)
after_claim env others (ok none, db) = (false, db)
after_claim env others (ok (some p), db) = (true, clear_lock env p.id p.max_concurrent (others db))

unfoldable pub process_periodic_task :
    Cron → Env → Env → Option (List Priority) → ℕ → (Db → Db) → Db → Bool × Db
unfolding after_claim
process_periodic_task cron env env' priorities max_runtime others db =
    after_claim env' others (claim_periodic cron env priorities max_runtime db)
