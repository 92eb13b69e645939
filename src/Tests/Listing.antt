-- ===== src/Tests/Listing.antt =====
-- The rows that failed, at a limit of one.
use pq.Base.{◌≡◌, refl, some, List, [], ◌∷◌, select}
use pq.Errors.{ok}
use pq.Models.{Task, completed, failed}
use pq.Client.Listing.{list_failed, list_completed, newest_first, insert_newest, is_newer, take}
use pq.Client.Listing.Newest.{IsListing, list_closed-IsListing}
use pq.Tests.Samples.{session_at, waiting_task, with_tasks}
use pq.Database.{session}

abbrev failed_at_four : Task
failed_at_four = record waiting_task { id = 2; status = failed; completed_at = some 4 }

abbrev failed_at_nine : Task
failed_at_nine = record waiting_task { id = 3; status = failed; completed_at = some 9 }

abbrev some_tasks : List Task
some_tasks = waiting_task ∷ failed_at_four ∷ failed_at_nine ∷ []

-- The later one comes first, and alone at a limit of one.
list_failed_one :
    list_failed (session_at 10) 1 (with_tasks some_tasks)
    ≡ (ok (failed_at_nine ∷ []), with_tasks some_tasks)
unfolding list_failed session newest_first insert_newest is_newer take select
list_failed_one = refl

list_closed-IsListing_example :
    ((ts : List Task) × (list_failed (session_at 10) 1 (with_tasks some_tasks)
        ≡ (ok ts, with_tasks some_tasks))
      × IsListing failed 1 (with_tasks some_tasks) ts)
    × ((ts : List Task) × (list_completed (session_at 10) 1 (with_tasks some_tasks)
          ≡ (ok ts, with_tasks some_tasks))
        × IsListing completed 1 (with_tasks some_tasks) ts)
list_closed-IsListing_example = list_closed-IsListing (session_at 10) 1 (with_tasks some_tasks) refl
