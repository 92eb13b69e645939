-- ===== src/System/Runs/Held.antt =====
-- What it is for a live run to hold its row: the row, if it is there, is RUNNING since the run began.
use pq.Base.{
  ℕ, suc, ◌<◌, ◌≡◌, ◌≢◌, Bool, true, some, [], ◌∷◌, ◌++◌, arith, All, All-append, All-delete,
  All-update_on, All-of_In, In, update, delete,
}
use pq.Models.{Task, running}
use pq.Database.{Db, has_id, put_task}

-- What the row with a run's id shows.
abbrev pub ShowsRun : ℕ → ℕ → Task → Type 0
ShowsRun i started t = t.id ≡ i → (t.status ≡ running) × (t.started_at ≡ some started)

pub record Held (i started : ℕ) (db : Db) : Type 0 where
  pub issued : i < db.next_task_id
  pub shows : All (ShowsRun i started) db.tasks

module _ (i started : ℕ) where
  pub update-Held :
      (p : Task → Bool) (f : Task → Task) (db : Db)
      → ((t : Task) → In t db.tasks → p t ≡ true → ShowsRun i started t → ShowsRun i started (f t))
      → Held i started db
      → Held i started (record db { tasks = update p f db.tasks })
  update-Held p f db keep h = record {
    issued = h.issued;
    shows = All-update_on (ShowsRun i started) p f db.tasks (All-of_In db.tasks keep) h.shows;
  }

  pub delete-Held :
      (p : Task → Bool) (db : Db)
      → Held i started db
      → Held i started (record db { tasks = delete p db.tasks })
  delete-Held p db h = record {
    issued = h.issued;
    shows = All-delete (ShowsRun i started) p db.tasks h.shows;
  }

  -- A new row has an id that no run has.
  pub append-Held :
      (t : Task) (db : Db)
      → t.id ≡ db.next_task_id
      → Held i started db
      → Held i started
          (record db { tasks = db.tasks ++ t ∷ []; next_task_id = suc db.next_task_id })
  append-Held t db e h = record {
    issued = let k = h.issued in omega arith;
    shows = All-append (ShowsRun i started) db.tasks (t ∷ []) h.shows (fresh, tt);
  }
    where
      fresh : ShowsRun i started t
      fresh same = let k = h.issued in absurd (omega arith)

  pub put_task-Held :
      (t : Task) (db : Db) → (t.id ≢ i) → Held i started db → Held i started (put_task t db)
  unfolding put_task
  put_task-Held t db other h =
      update-Held (has_id t.id) (λ _. t) db (λ u _ _ _ same. absurd (other same)) h
