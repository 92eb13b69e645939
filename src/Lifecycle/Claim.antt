-- ===== src/Lifecycle/Claim.antt =====
-- The claim of a one-off task: which row is taken, and what becomes of the table.
use pq.Base.{
  ◌≤◌, ◌≡◌, refl, sym, ap, ◌∙◌, ◌⊎◌, inl, inr, true, false, Option, none, some, List, [], arith,
  find, select, delete, All, In, In-select, In-All, Option-cases,
}
use pq.Errors.{ok}
use pq.Models.{Task, Priority, pending}
use pq.Models.Valid.{IsValid}
use pq.Database.{elem, Db, Env, has_id, put_task}
use pq.Database.Consistent.{IsConsistent}
use pq.Database.Put.{put_task-found, put_task-others}
use pq.Database.Sessions.{session_ok}
use pq.Lifecycle.{begin, phase, version, queued, executing}
use pq.Worker.Query.{wanted, first_row-Best, first_row-none}
use pq.Worker.OneOff.{is_claimable, task_before, pick_task, start_run, claim_body, claim_one_off}

-- A claim: the row that it took, and the table before and after.
pub record Claimed (env : Env) (priorities : Option (List Priority)) (db db' : Db) (t' : Task)
    : Type 0 where
  pub row : Task
  pub stored : In row db.tasks
  pub in_time : row.run_at ≤ env.sql_now
  pub asked_for : wanted priorities row.priority ≡ true
  pub unlocked : elem row.id env.locked ≡ false
  pub best : All (λ u. task_before u row ≡ false) (select (is_claimable env priorities) db.tasks)
  pub was_queued : phase row ≡ queued (version row)
  pub executes : phase t' ≡ begin (phase row)
  pub began : t'.started_at ≡ some env.utc_now
  pub found : find (has_id row.id) db'.tasks ≡ some t'
  pub others : delete (has_id row.id) db'.tasks ≡ delete (has_id row.id) db.tasks

module _ (env : Env) (priorities : Option (List Priority)) (db : Db) where
  pub claim_body-none :
      pick_task env priorities db.tasks ≡ none → claim_body env priorities db ≡ ok (none, db)
  unfolding claim_body
  claim_body-none e = rw (e, claim_body) refl

  pub claim_body-some :
      (t : Task)
      → pick_task env priorities db.tasks ≡ some t
      → claim_body env priorities db
        ≡ ok (some (start_run env.utc_now t), put_task (start_run env.utc_now t) db)
  unfolding claim_body
  claim_body-some t e = rw (e, claim_body) refl

  nothing_due :
      pick_task env priorities db.tasks ≡ none → select (is_claimable env priorities) db.tasks ≡ []
  unfolding pick_task task_before
  nothing_due e =
      first_row-none (λ t. t.priority) (λ t. t.run_at)
        (select (is_claimable env priorities) db.tasks) e

  pub is_claimable-pending : (t : Task) → is_claimable env priorities t ≡ true → t.status ≡ pending
  unfolding is_claimable
  is_claimable-pending t h = ground arith

  facts :
      (t : Task)
      → is_claimable env priorities t ≡ true
      → (t.run_at ≤ env.sql_now)
        × (wanted priorities t.priority ≡ true)
        × (elem t.id env.locked ≡ false)
  unfolding is_claimable
  facts t h = ground arith

  phase_queued : (t : Task) → t.status ≡ pending → phase t ≡ queued (version t)
  unfolding phase
  phase_queued t e = rw (e, phase) refl

  phase-start_run :
      (t : Task) → t.requeue ≡ none → phase (start_run env.utc_now t) ≡ executing (version t) none
  unfolding phase start_run
  phase-start_run t e = rw e refl

  not_parked : (t : Task) → t.status ≡ pending → IsValid t → t.requeue ≡ none
  not_parked t e v = ground arith

  taken :
      (t : Task)
      → IsConsistent db
      → pick_task env priorities db.tasks ≡ some t
      → Claimed env priorities db (put_task (start_run env.utc_now t) db) (start_run env.utc_now t)
  unfolding pick_task task_before begin
  taken t c e =
      let (i, best) =
        first_row-Best (λ t. t.priority) (λ t. t.run_at)
          (select (is_claimable env priorities) db.tasks) t e in
      let (stored, due) = In-select (is_claimable env priorities) db.tasks i in
      let waits = is_claimable-pending t due in
      record {
        row = t;
        stored = stored;
        in_time = (facts t due).0;
        asked_for = (facts t due).1;
        unlocked = (facts t due).2;
        best = best;
        was_queued = phase_queued t waits;
        executes =
            phase-start_run t (not_parked t waits (In-All IsValid db.tasks c.valid stored))
            ∙ sym (ap begin (phase_queued t waits));
        began = unfold start_run in refl;
        found = put_task-found t (start_run env.utc_now t) db stored (unfold start_run in refl) c;
        others = put_task-others t.id (start_run env.utc_now t) db (unfold start_run in refl);
      }

-- While the database answers, a claim takes a row exactly when a claimable one is there. No
-- claimable row comes before the row that it takes. That row was PENDING, its `run_at` had passed on
-- the server's clock, its priority was asked for and nobody else held its lock; it then executes its
-- own version, with nothing parked, from now on; all other rows are as they were.
pub claim_one_off-Claimed :
    (env : Env) (priorities : Option (List Priority)) (db : Db)
    → env.up ≡ true
    → IsConsistent db
    → ((claim_one_off env priorities db ≡ (ok none, db))
        × (select (is_claimable env priorities) db.tasks ≡ []))
      ⊎ ((t' : Task) × (db' : Db) × (claim_one_off env priorities db ≡ (ok (some t'), db'))
          × Claimed env priorities db db' t')
unfolding claim_one_off
claim_one_off-Claimed env priorities db up c =
    elim (Option-cases (pick_task env priorities db.tasks)) [
      | inl e ↦ inl (
        session_ok env (claim_body env priorities) db up (claim_body-none env priorities db e),
        nothing_due env priorities db e,
      )
      | inr (t, e) ↦
          let t' = start_run env.utc_now t in
          inr (
            t',
            put_task t' db,
            session_ok env (claim_body env priorities) db up
                (claim_body-some env priorities db t e),
            taken env priorities db t c e,
          )
    ]
