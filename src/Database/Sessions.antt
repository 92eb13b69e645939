-- ===== src/Database/Sessions.antt =====
-- `PQ.session` as a transaction: what a block commits, and what it leaves when it raises.
use pq.Base.{◌≡◌, refl, ◌⊎◌, inl, inr, Bool, true, false}
use pq.Errors.{Result, ok, err, PyError, operational_error}
use pq.Database.{Db, Env, Session, session, commit}

module _ {A : Type 0} where
  commit-cases :
      (up : Bool) (db : Db) (r : Result (A × Db))
      → ((a : A) × (db' : Db) × (up ≡ true) × (r ≡ ok (a, db')) × (commit up db r ≡ (ok a, db')))
        ⊎ ((e : PyError) × (commit up db r ≡ (err e, db)))
  unfolding commit
  commit-cases up db (err e) = inr (e, refl)
  commit-cases true db (ok (a, db')) = inl (a, db', refl, refl, refl)
  commit-cases false db (ok (a, db')) = inr (operational_error, refl)

  -- A session either commits what its block made of the tables, or raises and leaves them.
  pub session-cases :
      (env : Env) (body : Session A) (db : Db)
      → ((a : A) × (db' : Db) × (env.up ≡ true)
          × (body db ≡ ok (a, db'))
          × (session env body db ≡ (ok a, db')))
        ⊎ ((e : PyError) × (session env body db ≡ (err e, db)))
  unfolding session
  session-cases env body db = commit-cases env.up db (body db)

  commit_ok :
      (up : Bool) (db : Db) (r : Result (A × Db)) {a : A} {db' : Db}
      → up ≡ true
      → r ≡ ok (a, db')
      → commit up db r ≡ (ok a, db')
  unfolding commit
  commit_ok up db r u e = rw (u, e) refl

  pub session_ok :
      (env : Env) (body : Session A) (db : Db) {a : A} {db' : Db}
      → env.up ≡ true
      → body db ≡ ok (a, db')
      → session env body db ≡ (ok a, db')
  unfolding session
  session_ok env body db up e = commit_ok env.up db (body db) up e

  -- A property of the tables that the block keeps survives the session.
  pub session_keeps {κ} :
      (P : Db → Type κ) (env : Env) (body : Session A) (db : Db)
      → P db
      → ((a : A) (db' : Db) → body db ≡ ok (a, db') → P db')
      → P (session env body db).1
  session_keeps P env body db h keep = elim (session-cases env body db) [
    | inl (a, db', _, e, s) ↦ rw s (keep a db' e)
    | inr (e, s) ↦ rw s h
  ]
