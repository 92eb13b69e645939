-- ===== src/Database.antt =====
-- The two tables in Postgres and `PQ.session` of src/pq/client.py.
-- A statement is a function of the tables. Postgres itself is not under src/: what is used of it is
-- that a statement sees the committed rows, that unique columns are unique, and that a transaction
-- is atomic. Gaps that a conflict or a rollback leaves in an id sequence are not modelled.
pub mod Consistent
pub mod Put
pub mod Sessions
use pq.Base.{
  ℕ, suc, ◌==◌, ◌≡◌, Bool, true, false, Option, none, some, List, [], ◌∷◌, ◌++◌, Text, find, update,
  is_some, if◌then◌else◌, text_opt_eq,
}
use pq.Errors.{Result, ok, err, PyError, integrity_error, operational_error, ◌>>=◌}
use pq.Models.{Task, Periodic}

pub record Db : Type 0 where
  pub tasks : List Task
  pub periodics : List Periodic
  pub next_task_id : ℕ
  pub next_periodic_id : ℕ

-- What the outside answers during one session: whether the database can be reached through to the
-- commit, the clock of the process, the clock of the server at the start of the transaction, and
-- the ids of the rows that other transactions hold locked.
pub record Env : Type 0 where
  pub up : Bool
  pub utc_now : ℕ
  pub sql_now : ℕ
  pub locked : List ℕ

-- The body of a `with pq.session()` block.
abbrev pub Session : Type 0 → Type 0
Session A = Db → Result (A × Db)

-- `PQ.session`: commit on success; on an exception roll back and raise it again.
module _ {A : Type 0} where
  unfoldable pub commit : Bool → Db → Result (A × Db) → Result A × Db
  commit up db (err e) = (err e, db)
  commit true db (ok (a, db')) = (ok a, db')
  commit false db (ok (a, db')) = (err operational_error, db)

  unfoldable pub session : Env → Session A → Db → Result A × Db
  unfolding commit
  session env body db = commit env.up db (body db)

unfoldable pub elem : ℕ → List ℕ → Bool
elem a [] = false
elem a (x ∷ xs) = if a == x then true else elem a xs

abbrev pub has_id : ℕ → Task → Bool
has_id i t = t.id == i

abbrev pub has_client : Text → Task → Bool
has_client c t = text_opt_eq t.client_id c

-- The unique index on `client_id`: NULL conflicts with nothing.
unfoldable pub client_taken : Option Text → List Task → Bool
client_taken none ts = false
client_taken (some c) ts = is_some (find (has_client c) ts)

-- INSERT … RETURNING id
unfoldable pub insert_task : (ℕ → Task) → Session ℕ
insert_task row db =
    let t = row db.next_task_id in
    if client_taken t.client_id db.tasks
    then err integrity_error
    else ok (t.id, record db { tasks = db.tasks ++ t ∷ []; next_task_id = suc db.next_task_id })

-- The flush of a changed ORM object: an UPDATE by primary key.
unfoldable pub put_task : Task → Db → Db
put_task t db = record db { tasks = update (has_id t.id) (λ _. t) db.tasks }
