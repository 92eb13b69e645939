-- ===== src/Client/Listing.antt =====
-- `PQ.list_failed` and `PQ.list_completed` of src/pq/client.py, for a limit that is not negative.
-- Rows that were closed at one instant come in the order of the scan; the server may choose another.
pub mod Newest
use pq.Base.{
  ℕ, zero, suc, leb, Bool, true, false, Option, none, some, List, [], ◌∷◌, select, if◌then◌else◌,
}
use pq.Errors.{Result, ok}
use pq.Models.{Task, TaskStatus, completed, failed, status_eq}
use pq.Database.{Db, Env, session}

-- ORDER BY completed_at DESC, where NULL comes first.
unfoldable pub is_newer : Option ℕ → Option ℕ → Bool
is_newer none b = true
is_newer (some a) none = false
is_newer (some a) (some b) = leb b a

unfoldable pub insert_newest : Task → List Task → List Task
insert_newest t [] = t ∷ []
insert_newest t (u ∷ us) =
    if is_newer t.completed_at u.completed_at then t ∷ u ∷ us else u ∷ insert_newest t us

unfoldable pub newest_first : List Task → List Task
newest_first [] = []
newest_first (t ∷ ts) = insert_newest t (newest_first ts)

-- LIMIT
unfoldable pub take : ℕ → List Task → List Task
take zero ts = []
take (suc n) [] = []
take (suc n) (t ∷ ts) = t ∷ take n ts

abbrev pub has_status : TaskStatus → Task → Bool
has_status status t = status_eq t.status status

unfoldable pub list_failed : Env → (limit : ℕ) → Db → Result (List Task) × Db
list_failed env limit =
    session env (λ db. ok (take limit (newest_first (select (has_status failed) db.tasks)), db))

unfoldable pub list_completed : Env → (limit : ℕ) → Db → Result (List Task) × Db
list_completed env limit =
    session env (λ db. ok (take limit (newest_first (select (has_status completed) db.tasks)), db))
