-- ===== src/Worker/Slots/Unstarted.antt =====
-- A one-off task of a concurrent worker of src/pq/worker.py for which no child could be started.
use pq.Base.{ℕ, ◌≡◌, ◌⊎◌, inl, inr, refl, ap, ◌∙◌, true, Option, none, some, List, In, Text}
use pq.Errors.{Result, ok, err, PyError, Result-cases}
use pq.Models.{Task, Priority, running, failed, raised}
use pq.Database.{Db}
use pq.Database.Consistent.{IsConsistent}
use pq.Registry.{Import}
use pq.Serialization.{Codec}
use pq.Lifecycle.Finish.{Finished, finish_one_off-Finished}
use pq.Worker.OneOff.{claim_one_off, finish_one_off}
use pq.Worker.Slots.{
  Os, Host, Fork, forked, pipe_raises, fork_raises, Launch, load_handler, fork_child, start_child,
  started_one_off, claimed_one_off, claim_and_fork_one_off,
}

module _ (c : Codec) {F : Type 0} (importer : Text → Text → Import F) (l : Launch) (t : Task) where
  -- Why no child could be started: the function or the arguments cannot be loaded, or they can and
  -- the pipe or the fork fails.
  abbrev pub IsCause : PyError → Type 0
  IsCause e =
      (load_handler c importer t.name t.payload ≡ err e)
      ⊎ ((loaded : F × List c.Value × List (Text × c.Value)) × (load_handler c importer t.name
              t.payload
            ≡ ok loaded)
          × ((l.fork ≡ pipe_raises e)
              ⊎ ((read_fd write_fd : List ℕ → ℕ) × (l.fork ≡ fork_raises read_fd write_fd e))))

  fork_child-IsCause :
      (loaded : F × List c.Value × List (Text × c.Value)) (f : Fork) (os os' : Os) (e : PyError)
      → load_handler c importer t.name t.payload ≡ ok loaded
      → l.fork ≡ f
      → fork_child f os ≡ (err e, os')
      → IsCause e
  unfolding fork_child
  fork_child-IsCause loaded (forked pid fd) os os' e k g q = cc
  fork_child-IsCause loaded (pipe_raises e') os os' e k g q =
      inr (loaded, k, inl (g ∙ ap pipe_raises (cc q)))
  fork_child-IsCause loaded (fork_raises read_fd write_fd e') os os' e k g q =
      inr (loaded, k, inr (read_fd, write_fd, g ∙ ap (fork_raises read_fd write_fd) (cc q)))

  start_child-IsCause :
      (os os' : Os) (e : PyError)
      → start_child c importer t.name t.payload l.fork os ≡ (err e, os')
      → IsCause e
  unfolding start_child
  start_child-IsCause os os' e q = elim (Result-cases (load_handler c importer t.name t.payload)) [
    | inl (e', k) ↦ inl (k ∙ ap err (raised_alike e' os os' e (rw (k, start_child) at q)))
    | inr (loaded, k) ↦ fork_child-IsCause loaded l.fork os os' e k refl (rw (k, start_child) at q)
  ]
    where
      raised_alike :
          (e' : PyError) (os os' : Os) (e : PyError)
          → ◌≡◌ {A = Result (ℕ × ℕ) × Os} (err e', os) (err e, os')
          → e' ≡ e
      raised_alike e' os os' e q = cc

module _ (c : Codec) {F : Type 0} (importer : Text → Text → Import F) (l : Launch) (t u : Task)
    (db : Db) (up : l.failure_env.up ≡ true) (good : IsConsistent (l.others db))
    (i : In u (l.others db).tasks) (same : u.id ≡ t.id) (runs : u.status ≡ running)
    (began : u.started_at ≡ t.started_at) where
  started_one_off-Finished :
      (r : Result (ℕ × ℕ) × Os) (h : Host)
      → started_one_off c importer l t db r ≡ (none, h)
      → ((e : PyError) (os : Os) → r ≡ (err e, os) → IsCause c importer l t e)
      → (e : PyError) × IsCause c importer l t e
        × Finished l.failure_env failed (some (raised e)) u (l.others db) h.db
  unfolding started_one_off
  started_one_off-Finished (ok (pid, fd), os) h q cause = cc
  started_one_off-Finished (err e, os) h q cause = (
    e,
    cause e os refl,
    rw (← left, ← same, ← began)
        (finish_one_off-Finished l.failure_env (l.others db) u failed (some (raised e)) up good i
          runs (inr refl)),
  )
    where
      left :
          finish_one_off l.failure_env t.id t.started_at failed (some (raised e)) (l.others db)
          ≡ h.db
      left = cc q

  -- Where a task was claimed and no child could be started for it, because its function or its
  -- arguments cannot be loaded or the fork fails, and the row is still in the run of the claim, in a
  -- consistent table and while the database answers: the row's execution ends as failed with the
  -- text of the exception that the loading raised or, after a loading without one, the pipe or the
  -- fork, and a version parked behind it waits next.
  pub claim_and_fork_one_off-Finished :
      (priorities : Option (List Priority)) (h h' : Host)
      → claim_one_off l.claim_env priorities h.db ≡ (ok (some t), db)
      → claim_and_fork_one_off c importer priorities l h ≡ (none, h')
      → (e : PyError) × IsCause c importer l t e
        × Finished l.failure_env failed (some (raised e)) u (l.others db) h'.db
  unfolding claim_and_fork_one_off claimed_one_off
  claim_and_fork_one_off-Finished priorities h h' e q =
      started_one_off-Finished (start_child c importer t.name t.payload l.fork h.os) h' (rw e at q)
        (λ x os. start_child-IsCause c importer l t h.os os x)
