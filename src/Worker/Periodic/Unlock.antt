-- ===== src/Worker/Periodic/Unlock.antt =====
-- What the clearing of a schedule's lock in src/pq/worker.py leaves.
use pq.Base.{
  none, ℕ, ◌≡◌, refl, inl, inr, true, false, some, List, [], ◌∷◌, All, arith, ap, update, delete,
  Bool-cases, ◌==◌,
}
use pq.Models.{Periodic}
use pq.Database.{Db, Env}
use pq.Database.Sessions.{session_ok}
use pq.Worker.Periodic.{periodic_has_id, unlocked, clear_body, clear_lock}

-- The schedule has no lock, and all else is as it was.
pub record IsUnlocked (id : ℕ) (db db' : Db) : Type 0 where
  pub free : All (λ p. p.id ≡ id → p.locked_until ≡ none) db'.periodics
  pub others : delete (periodic_has_id id) db'.periodics ≡ delete (periodic_has_id id) db.periodics
  pub tasks : db'.tasks ≡ db.tasks

module _ (id : ℕ) where
  update-free :
      (ps : List Periodic)
      → All (λ p. p.id ≡ id → p.locked_until ≡ none) (update (periodic_has_id id) unlocked ps)
  unfolding update
  update-free [] = tt
  update-free (p ∷ ps) = elim (Bool-cases (p.id == id)) [
    | inl e ↦ rw e (λ q. refl, update-free ps)
    | inr e ↦ rw e (λ q. absurd (differs q e), update-free ps)
  ]
    where
      differs : p.id ≡ id → (p.id == id) ≡ false → ⊥
      differs q e = ground arith

  update-others :
      (ps : List Periodic)
      → delete (periodic_has_id id) (update (periodic_has_id id) unlocked ps)
        ≡ delete (periodic_has_id id) ps
  unfolding update delete
  update-others [] = refl
  update-others (p ∷ ps) = elim (Bool-cases (p.id == id)) [
    | inl e ↦ rw (e, e) (update-others ps)
    | inr e ↦ rw (e, e) (ap (◌∷◌ p) (update-others ps))
  ]

pub clear_lock-IsUnlocked :
    (env : Env) (id n : ℕ) (db : Db)
    → env.up ≡ true
    → IsUnlocked id db (clear_lock env id (some n) db)
unfolding clear_lock clear_body
clear_lock-IsUnlocked env id n db up =
    rw (session_ok env (clear_body id) db up refl, clear_lock)
      (record {
        free = update-free id db.periodics;
        others = update-others id db.periodics;
        tasks = refl;
      })
