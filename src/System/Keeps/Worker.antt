-- ===== src/System/Keeps/Worker.antt =====
-- The transactions of src/pq/worker.py and the reaper, and the task table's invariant.
use pq.Base.{
  ℕ, ◌≡◌, refl, subst, sym, ◌∙◌, inl, inr, true, Option, none, some, List, find, In, In-All,
  In-find, In-select, Option-cases, select, arith,
}
use pq.Errors.{Result, ok}
use pq.Models.{Task, TaskStatus, running, ErrorMsg, Priority}
use pq.Models.Valid.{IsValid}
use pq.Database.{Db, Env}
use pq.Database.Consistent.{IsConsistent, update-IsConsistent}
use pq.Database.Put.{put_task-IsConsistent}
use pq.Database.Sessions.{session_keeps}
use pq.Client.Reaper.{to_reap, to_requeue, reap_row, reap_body, reap_stale_tasks, is_stale}
use pq.Worker.OneOff.{
  claim_body, claim_one_off, finish_body, finish_one_off, pick_task, start_run, is_this_run,
  is_claimable,
}
use pq.Worker.Query.{first_row-Best}
use pq.Lifecycle.Rows
use pq.Lifecycle.Rows.{IsOutcome}
use pq.Lifecycle.Claim.{claim_body-none, claim_body-some, is_claimable-pending}
use pq.Lifecycle.Finish.{is_this_run-facts, end_row-Ended, finish_body-found, finish_body-none}
use pq.Lifecycle.Reap.{
  reap_body_lem, reaped_tasks, updated, requeued_row, requeued_row-key, requeued_row-IsValid,
  reap_row-key,
}

snd_of_ok :
    {A : Type 0} {a b : A} {x y : Db} → ◌≡◌ {A = Result (A × Db)} (ok (a, x)) (ok (b, y)) → x ≡ y
snd_of_ok e = cc

-- The row that a claim takes.
pub picked :
    (env : Env) (priorities : Option (List Priority)) (ts : List Task) (t : Task)
    → pick_task env priorities ts ≡ some t
    → In t ts × (is_claimable env priorities t ≡ true)
unfolding pick_task
picked env priorities ts t e =
    In-select (is_claimable env priorities) ts
      (first_row-Best (λ t. t.priority) (λ t. t.run_at) (select (is_claimable env priorities) ts) t
        e).0

pub claim_one_off-IsConsistent :
    (env : Env) (priorities : Option (List Priority)) (db : Db)
    → IsConsistent db
    → IsConsistent (claim_one_off env priorities db).1
unfolding claim_one_off
claim_one_off-IsConsistent env priorities db h =
    session_keeps IsConsistent env (claim_body env priorities) db h λ o db' e.
      elim (Option-cases (pick_task env priorities db.tasks)) [
        | inl gone ↦
            subst IsConsistent (snd_of_ok (sym (claim_body-none env priorities db gone) ∙ e)) h
        | inr (t, there) ↦
            let (i, due) = picked env priorities db.tasks t there in
            let waits = is_claimable-pending env priorities db t due in
            subst IsConsistent (snd_of_ok (sym (claim_body-some env priorities db t there) ∙ e)) (
              put_task-IsConsistent t (start_run env.utc_now t) db i (unfold start_run in refl)
                (Rows.start_run-IsValid env.utc_now t waits (In-All IsValid db.tasks h.valid i)) h)
      ]

pub finish_one_off-IsConsistent :
    (env : Env) (i : ℕ) (started : Option ℕ) (s : TaskStatus) (m : Option ErrorMsg) (db : Db)
    → IsOutcome s m
    → IsConsistent db
    → IsConsistent (finish_one_off env i started s m db)
unfolding finish_one_off
finish_one_off-IsConsistent env i started s m db o h =
    session_keeps IsConsistent env (finish_body env i started s m) db h λ u db' e.
      elim (Option-cases (find (is_this_run i started) db.tasks)) [
        | inl gone ↦
            subst IsConsistent (snd_of_ok (sym (finish_body-none env db i started s m gone) ∙ e)) h
        | inr (t, there) ↦
            let (j, this) = In-find (is_this_run i started) db.tasks there in
            let (_, runs, _) = is_this_run-facts i started t this in
            let (t', ends, ended) =
              end_row-Ended env.utc_now s m t runs o (In-All IsValid db.tasks h.valid j) in
            subst IsConsistent
              (snd_of_ok (sym (finish_body-found env db i started s m t t' there ends) ∙ e))
              (put_task-IsConsistent t t' db j ended.same_key ended.valid h)
      ]

module _ (env : Env) (threshold : ℕ) where
  to_reap-facts :
      (t : Task) → to_reap env threshold t ≡ true → (t.status ≡ running) × (t.requeue ≡ none)
  unfolding is_stale
  to_reap-facts t e = ground arith

  reaped_tasks-IsConsistent :
      (db : Db)
      → IsConsistent db
      → IsConsistent (record db { tasks = reaped_tasks env threshold db.tasks })
  reaped_tasks-IsConsistent db h =
      update-IsConsistent (to_requeue env threshold) requeued_row
        (record db { tasks = updated env threshold db.tasks })
        (λ t _ _ v. (requeued_row-key t, requeued_row-IsValid t v))
        (update-IsConsistent (to_reap env threshold) (reap_row env threshold) db
          (λ t _ e v.
            let (r, q) = to_reap-facts t e in
            (reap_row-key env threshold t, Rows.reap_row-IsValid env threshold t r q v))
          h)

pub reap_stale_tasks-IsConsistent :
    (env : Env) (threshold : ℕ) (db : Db)
    → IsConsistent db
    → IsConsistent (reap_stale_tasks env threshold db).1
unfolding reap_stale_tasks
reap_stale_tasks-IsConsistent env threshold db h =
    session_keeps IsConsistent env (reap_body env threshold) db h λ n db' e.
      subst IsConsistent (snd_of_ok (sym (reap_body_lem env threshold db h.apart) ∙ e))
        (reaped_tasks-IsConsistent env threshold db h)
