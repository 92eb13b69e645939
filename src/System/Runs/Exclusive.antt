-- ===== src/System/Runs/Exclusive.antt =====
-- The live runs of src/pq/worker.py and their tasks: which moves could give a task two runs.
use pq.Base.{
  ℕ, ◌<◌, ◌≡◌, ◌≢◌, refl, subst, sym, ap, ◌∙◌, inl, inr, Bool, true, false, Option, none, some,
  List, [], ◌∷◌, ◌++◌, All, All-mono, In, In-All, In-find, find, arith, Option-cases, map, ◌&&◌,
  is_some, not, All-update_split,
}
use pq.Errors.{Result, ok, err, PyError}
use pq.Lifecycle.Rows.{recorded-IsOutcome}
use pq.Models.{Task, TaskStatus, ErrorMsg, pending, Priority}
use pq.Models.Valid.{IsValid}
use pq.Database.{Db, Env, put_task, has_id}
use pq.Database.Consistent.{AllPairs, IsConsistent, key, Key}
use pq.Database.Sessions.{session_keeps, session-cases}
use pq.Serialization.{Codec}
use pq.Client.Reaper.{is_stale, to_reap, to_requeue, reap_row, reap_stale_tasks, reap_body}
use pq.Worker.OneOff.{
  claim_one_off, claim_body, finish_one_off, finish_body, start_run, is_this_run, pick_task,
}
use pq.Lifecycle.Claim.{claim_body-none, claim_body-some, is_claimable-pending}
use pq.Lifecycle.Finish.{is_this_run-facts, end_row-Ended, finish_body-found, finish_body-none}
use pq.Lifecycle.Reap.{
  reap_body_lem, requeued_row, updated, reaped_tasks, not_stale_after, requeued_row-key,
  reap_row-key,
}
use pq.Lifecycle.Rows.{IsOutcome}
use pq.System.Keeps.{ClientCall-IsConsistent}
use pq.System.Keeps.Client.{snd_of_ok}
use pq.System.Keeps.Worker.{
  picked, claim_one_off-IsConsistent, finish_one_off-IsConsistent, reap_stale_tasks-IsConsistent,
}
use pq.System.Runs.{Run, World, Move, client, reap, claim, finish, die, Reach, here, next, start}
use pq.System.Runs.Held.{ShowsRun, Held, update-Held, put_task-Held}
use pq.System.Runs.Calls.{ClientCall-Held}
use pq.System.Runs.Splits.{All-drop, AllPairs-drop, AllPairs-at}

abbrev pub Holds : Db → Run → Type 0
Holds db r = Held r.task_id r.started db

abbrev pub OtherTask : Run → Run → Type 0
OtherTask r q = r.task_id ≢ q.task_id

-- Live runs are of distinct tasks, and each holds its row.
pub record IsExclusive (w : World) : Type 0 where
  pub consistent : IsConsistent w.db
  pub held : All (Holds w.db) w.runs
  pub distinct : AllPairs OtherTask w.runs

All-key : (P : Key → Type 0) (t : Task) (ts : List Task) → All P (map key ts) → In t ts → P (key t)
All-key P t [] h i = absurd i
All-key P t (x ∷ ts) h (inl e) = subst (λ u. P (key u)) e h.0
All-key P t (x ∷ ts) h (inr i) = All-key P t ts h.1 i

-- What a claim that found a row did.
claim_one_off-took :
    (env : Env) (priorities : Option (List Priority)) (db db' : Db) (t' : Task)
    → claim_one_off env priorities db ≡ (ok (some t'), db')
    → (t : Task) × (pick_task env priorities db.tasks ≡ some t)
      × (t' ≡ start_run env.utc_now t)
      × (db' ≡ put_task t' db)
unfolding claim_one_off
claim_one_off-took env priorities db db' t' e =
    elim (session-cases env (claim_body env priorities) db) [
      | inr (x, r) ↦ absurd (ok_ne_err (sym e ∙ r))
      | inl (o, d, _, b, r) ↦ elim (Option-cases (pick_task env priorities db.tasks)) [
        | inl gone ↦
            absurd (some_ne_none (sym e ∙ r) (sym (claim_body-none env priorities db gone) ∙ b))
        | inr (t, there) ↦
            took t there (sym e ∙ r) (sym (claim_body-some env priorities db t there) ∙ b)
      ]
    ]
  where
    ok_ne_err :
        {x : PyError} {o : Option Task} {d d' : Db}
        → ◌≡◌ {A = Result (Option Task) × Db} (ok o, d) (err x, d')
        → ⊥
    ok_ne_err p = cc (ap (λ (q : Result (Option Task) × Db). q.0) p)

    some_ne_none :
        {o : Option Task} {t : Task} {d d' d'' : Db}
        → ◌≡◌ {A = Result (Option Task) × Db} (ok (some t), d) (ok o, d')
        → ◌≡◌ {A = Result (Option Task × Db)} (ok (none, d'')) (ok (o, d'))
        → ⊥
    some_ne_none p q = cc (ap (λ (q : Result (Option Task) × Db). q.0) p)

    took :
        (t : Task) {o : Option Task} {d : Db}
        → pick_task env priorities db.tasks ≡ some t
        → ◌≡◌ {A = Result (Option Task) × Db} (ok (some t'), db') (ok o, d)
        → ◌≡◌ {A = Result (Option Task × Db)}
            (ok (some (start_run env.utc_now t), put_task (start_run env.utc_now t) db))
            (ok (o, d))
        → (u : Task) × (pick_task env priorities db.tasks ≡ some u)
          × (t' ≡ start_run env.utc_now u)
          × (db' ≡ put_task t' db)
    took t there p q = (
      t,
      there,
      cc (ap (λ (q : Result (Option Task) × Db). q.0) p),
      cc (
        ap (λ (q : Result (Option Task) × Db). q.0) p,
        ap (λ (q : Result (Option Task) × Db). q.1) p,
      ),
    )

-- A claim takes a row that no live run holds.
module _ (env : Env) (priorities : Option (List Priority)) (db : Db) (t : Task)
    (c : IsConsistent db) (there : pick_task env priorities db.tasks ≡ some t) where
  waiting_row : In t db.tasks × (t.status ≡ pending)
  waiting_row =
      let (i, due) = picked env priorities db.tasks t there in
      (i, is_claimable-pending env priorities db t due)

  other_task : (r : Run) → Holds db r → t.id ≢ r.task_id
  other_task r h same =
      let (i, waits) = waiting_row in
      let (runs, _) = In-All (ShowsRun r.task_id r.started) db.tasks h.shows i same in cc

  claimed-Held : (r : Run) → Holds db r → Holds (put_task (start_run env.utc_now t) db) r
  claimed-Held r h =
      put_task-Held r.task_id r.started (start_run env.utc_now t) db
        (λ e. other_task r h (unfold start_run in e)) h

  new_run-Held :
      (started : ℕ)
      → (start_run env.utc_now t).started_at ≡ some started
      → Held t.id started (put_task (start_run env.utc_now t) db)
  unfolding put_task start_run
  new_run-Held started e = record {
    issued = All-key (λ k. k.0 < db.next_task_id) t db.tasks c.below waiting_row.0;
    shows =
        All-update_split (ShowsRun t.id started) (has_id t.id) _ db.tasks (λ u _ _ _. (refl, e))
          (λ u _ other same. absurd (no_match u t.id same other));
  }
    where
      no_match : (u : Task) (n : ℕ) → u.id ≡ n → has_id n u ≡ false → ⊥
      no_match u n same other = ground arith

module _ (env : Env) (i : ℕ) (started : Option ℕ) (s : TaskStatus) (m : Option ErrorMsg) (db : Db)
    (o : IsOutcome s m) (c : IsConsistent db) where
  -- The end of another task's run.
  finished-Held :
      (r : Run) → i ≢ r.task_id → Holds db r → Holds (finish_one_off env i started s m db) r
  unfolding finish_one_off
  finished-Held r other h =
      session_keeps (λ d. Holds d r) env (finish_body env i started s m) db h
        λ u db' e. elim (Option-cases (find (is_this_run i started) db.tasks)) [
          | inl gone ↦
              subst (λ d. Holds d r)
                (snd_of_ok (sym (finish_body-none env db i started s m gone) ∙ e)) h
          | inr (t, there) ↦
              let (j, this) = In-find (is_this_run i started) db.tasks there in
              let (same, runs, _) = is_this_run-facts i started t this in
              let (t', ends, ended) =
                end_row-Ended env.utc_now s m t runs o (In-All IsValid db.tasks c.valid j) in
              subst (λ d. Holds d r)
                (snd_of_ok (sym (finish_body-found env db i started s m t t' there ends) ∙ e))
                (put_task-Held r.task_id r.started t' db
                  (λ q. other (sym same ∙ sym (ap (λ (k : Key). k.0) ended.same_key) ∙ q)) h)
        ]

-- A reaping that spares the run.
module _ (env : Env) (threshold : ℕ) (r : Run) where
  abbrev IsSpared : Task → Type 0
  IsSpared t = t.id ≡ r.task_id → is_stale env threshold t ≡ false

  reaped_tasks-Held :
      (db : Db)
      → ((t : Task) → In t db.tasks → IsSpared t)
      → Holds db r
      → Holds (record db { tasks = reaped_tasks env threshold db.tasks }) r
  reaped_tasks-Held db spared h =
      update-Held r.task_id r.started (to_requeue env threshold) requeued_row
        (record db { tasks = updated env threshold db.tasks })
        (λ t i e _ same. absurd (
          not_both (is_stale env threshold t) (is_some t.requeue) e (
            In-All IsSpared (updated env threshold db.tasks) after i
              (sym (ap (λ (k : Key). k.0) (requeued_row-key t)) ∙ same))))
        (update-Held r.task_id r.started (to_reap env threshold) (reap_row env threshold) db
          (λ t i e _ same. absurd (
            not_both (is_stale env threshold t) (not (is_some t.requeue)) e
              (spared t i (sym (ap (λ (k : Key). k.0) (reap_row-key env threshold t)) ∙ same))))
          h)
    where
      not_both : (a b : Bool) → a && b ≡ true → a ≡ false → ⊥
      not_both a b h k = ground arith

      after : All IsSpared (updated env threshold db.tasks)
      after =
          All-update_split IsSpared (to_reap env threshold) (reap_row env threshold) db.tasks
            (λ t _ _ _. not_stale_after env threshold t) (λ t i _. spared t i)

  reaped-Held :
      (db : Db)
      → IsConsistent db
      → ((t : Task) → In t db.tasks → IsSpared t)
      → Holds db r
      → Holds (reap_stale_tasks env threshold db).1 r
  unfolding reap_stale_tasks
  reaped-Held db c spared h =
      session_keeps (λ d. Holds d r) env (reap_body env threshold) db h
        λ n db' e.
          subst (λ d. Holds d r) (snd_of_ok (sym (reap_body_lem env threshold db c.apart) ∙ e))
            (reaped_tasks-Held db spared h)

All-both :
    {P Q R : Run → Type 0} (rs : List Run)
    → ((r : Run) → P r → Q r → R r)
    → All P rs
    → All Q rs
    → All R rs
All-both [] f h k = tt
All-both (r ∷ rs) f h k = (f r h.0 k.0, All-both rs f h.1 k.1)

abbrev after_claim : World → Task → Env → ℕ → Db → World
after_claim w t env started d = record {
  db = d;
  runs = record { task_id = (start_run env.utc_now t).id; started = started } ∷ w.runs;
}

began_too :
    (t t' : Task) (env : Env) (started : ℕ)
    → t' ≡ start_run env.utc_now t
    → t'.started_at ≡ some started
    → (start_run env.utc_now t).started_at ≡ some started
began_too t t' env started e began = ap (λ (u : Task). u.started_at) (sym e) ∙ began

claimed-IsExclusive :
    (env : Env) (priorities : Option (List Priority)) (w : World) (t : Task) (started : ℕ)
    → IsExclusive w
    → pick_task env priorities w.db.tasks ≡ some t
    → IsConsistent (put_task (start_run env.utc_now t) w.db)
    → (start_run env.utc_now t).started_at ≡ some started
    → IsExclusive (after_claim w t env started (put_task (start_run env.utc_now t) w.db))
unfolding start_run
claimed-IsExclusive env priorities w t started x there good began = record {
  consistent = good;
  held = (
    new_run-Held env priorities w.db t x.consistent there started began,
    All-mono (Holds w.db) _ (claimed-Held env priorities w.db t x.consistent there) w.runs x.held,
  );
  distinct = (
    All-mono (Holds w.db) _ (other_task env priorities w.db t x.consistent there) w.runs x.held,
    x.distinct,
  );
}

module _ (c : Codec) where
  -- Every move keeps the live runs exclusive: a claim, a run's end, a worker's death, any call of a
  -- client, and a reaping that finds no live run stale.
  pub Move-IsExclusive : {w w' : World} → Move c w w' → IsExclusive w → IsExclusive w'
  Move-IsExclusive {w} (client s) x = record {
    consistent = ClientCall-IsConsistent c s x.consistent;
    held = All-mono (Holds w.db) _ (λ r h. ClientCall-Held r.task_id r.started c s h) w.runs x.held;
    distinct = x.distinct;
  }
  Move-IsExclusive {w} (reap env threshold spares) x = record {
    consistent = reap_stale_tasks-IsConsistent env threshold w.db x.consistent;
    held =
        All-both w.runs (λ r s h. reaped-Held env threshold r w.db x.consistent s h) spares x.held;
    distinct = x.distinct;
  }
  Move-IsExclusive {w} (claim env priorities t' db' started e began) x =
      let (t, there, e1, e2) = claim_one_off-took env priorities w.db db' t' e in
      let e3 : db' ≡ put_task (start_run env.utc_now t) w.db =
        e2 ∙ ap (λ (u : Task). put_task u w.db) e1 in
      let good : IsConsistent db' =
        subst IsConsistent (ap (λ (q : Result (Option Task) × Db). q.1) e)
          (claim_one_off-IsConsistent env priorities w.db x.consistent) in
      let core : IsExclusive
          (after_claim w t env started (put_task (start_run env.utc_now t) w.db)) =
        claimed-IsExclusive env priorities w t started x there (subst IsConsistent e3 good)
          (began_too t t' env started e1 began) in
      subst
        (λ u.
          IsExclusive
            (record { db = db'; runs = record { task_id = u.id; started = started } ∷ w.runs }))
        (sym e1) (subst (λ d. IsExclusive (after_claim w t env started d)) (sym e3) core)
  Move-IsExclusive {w} (finish env before after r elapsed raised split) x =
      let outcome = recorded-IsOutcome elapsed raised in
      let held = subst (All (Holds w.db)) split x.held in
      let distinct = subst (AllPairs OtherTask) split x.distinct in
      record {
        consistent =
            finish_one_off-IsConsistent env r.task_id (some r.started) _ _ w.db outcome
              x.consistent;
        held =
            All-both (before ++ after)
              (λ q other h.
                finished-Held env r.task_id (some r.started) _ _ w.db outcome x.consistent q other
                  h)
              (AllPairs-at OtherTask (λ a b n e. n (sym e)) before after r distinct)
              (All-drop (Holds w.db) before after r held);
        distinct = AllPairs-drop OtherTask before after r distinct;
      }
  Move-IsExclusive {w} (die before after r split) x = record {
    consistent = x.consistent;
    held = All-drop (Holds w.db) before after r (subst (All (Holds w.db)) split x.held);
    distinct = AllPairs-drop OtherTask before after r (subst (AllPairs OtherTask) split x.distinct);
  }

  -- After any sequence of moves from an empty table, in which no reaping finds a live run stale: no
  -- two live runs are of one task, and the row of a live run, unless a client deleted it, is RUNNING
  -- with the run's own `started_at`. The table is consistent.
  pub Reach-IsExclusive : {w : World} → Reach c start w → IsExclusive w
  Reach-IsExclusive here = record {
    consistent = record { valid = tt; below = tt; apart = tt };
    held = tt;
    distinct = tt;
  }
  Reach-IsExclusive (next r m) = Move-IsExclusive m (Reach-IsExclusive r)
