-- ===== src/Worker/Loop/Idle.antt =====
-- What the answer of `run_worker_once` of src/pq/worker.py says of the tables.
use pq.Base.{◌≡◌, refl, inl, inr, Bool, true, false, some, [], select, ap, sym, ◌∙◌, Text}
use pq.Errors.{ok}
use pq.Models.{Task}
use pq.Database.{Db}
use pq.Database.Consistent.{IsConsistent}
use pq.Registry.{Import}
use pq.Serialization.{Codec}
use pq.Client.Schedule.{Cron}
use pq.Lifecycle.Claim.{claim_one_off-Claimed}
use pq.Worker.OneOff.{is_claimable, claim_one_off, after_claim, process_one_off_task}
use pq.Worker.Periodic.{process_periodic_task}
use pq.Worker.Periodic.Idle.{IsIdle, IsIdleAnswer-false, process_periodic_task-IsIdleAnswer}
use pq.Worker.Concurrent.{Settings}
use pq.Worker.Loop.{Pass, run_worker_once}

module _ (c : Codec) {F : Type 0} (importer : Text → Text → Import F) (cron : Cron)
    (settings : Settings) (p : Pass c F) where
  -- No task can be claimed, and then no schedule.
  abbrev pub HasNothing : Db → Type 0
  HasNothing db =
      (select (is_claimable p.claim_env settings.priorities) db.tasks ≡ [])
      × IsIdle cron p.periodic_env settings.priorities settings.max_runtime (p.between db)

  falls_through :
      (db db' : Db)
      → process_one_off_task c importer p.fork p.claim_env p.finish_env settings.priorities
          p.elapsed settings.max_runtime p.others db
        ≡ (false, db')
      → run_worker_once c importer cron settings p db
        ≡ process_periodic_task cron p.periodic_env p.unlock_env settings.priorities
            settings.max_runtime p.periodic_others
            (p.between db')
  unfolding run_worker_once
  falls_through db db' q = rw (q, run_worker_once) refl

  processed :
      (db db' : Db) (t : Task)
      → claim_one_off p.claim_env settings.priorities db ≡ (ok (some t), db')
      → (run_worker_once c importer cron settings p db).0 ≡ true
  unfolding run_worker_once process_one_off_task after_claim
  processed db db' t q = rw (q, run_worker_once, process_one_off_task) refl

  -- While the database answers both claims, a `false` of a call says that no task could be claimed
  -- when it looked, and after that no schedule was due, or one that was has no next run, of a
  -- priority that no due schedule exceeded and no later than any due schedule of that priority; the
  -- call changed nothing.
  pub run_worker_once-HasNothing :
      (db : Db)
      → p.claim_env.up ≡ true
      → p.periodic_env.up ≡ true
      → IsConsistent db
      → (run_worker_once c importer cron settings p db).0 ≡ false
      → HasNothing db × ((run_worker_once c importer cron settings p db).1 ≡ p.between db)
  unfolding process_one_off_task after_claim
  run_worker_once-HasNothing db up periodic_up good e =
      elim (claim_one_off-Claimed p.claim_env settings.priorities db up good) [
        | inl (q, nothing) ↦
            let same = falls_through db db (rw (q, process_one_off_task) refl) in
            let (idle, stays) =
              IsIdleAnswer-false
                (IsIdle cron p.periodic_env settings.priorities settings.max_runtime) (p.between db)
                _
                (process_periodic_task-IsIdleAnswer cron p.periodic_env p.unlock_env
                  settings.priorities settings.max_runtime p.periodic_others periodic_up
                  (p.between db))
                (ap (λ (x : Bool × Db). x.0) (sym same) ∙ e) in
            ((nothing, idle), ap (λ (x : Bool × Db). x.1) same ∙ stays)
        | inr (t, db', q, claimed) ↦ absurd (clash (sym (processed db db' t q) ∙ e))
      ]
    where
      clash : true ≡ false → ⊥
      clash b = cc
