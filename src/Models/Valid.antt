-- ===== src/Models/Valid.antt =====
-- Which rows of `pq_tasks` the program writes: the columns that each status of a row fixes.
use pq.Base.{◌≡◌, none, true, is_some}
use pq.Models.{Task, TaskStatus, pending, running, completed, failed}

-- A waiting row has no trace of a run.
pub record IsFresh (t : Task) : Type 0 where
  pub started : t.started_at ≡ none
  pub finished : t.completed_at ≡ none
  pub no_error : t.error ≡ none
  pub attempted : t.attempts ≡ 0
  pub not_parked : t.requeue ≡ none

-- A row under execution knows when its run began; only such a row holds a parked version.
pub record IsUnderWay (t : Task) : Type 0 where
  pub started : is_some t.started_at ≡ true
  pub finished : t.completed_at ≡ none
  pub no_error : t.error ≡ none
  pub attempted : t.attempts ≡ 1

-- A closed row was run once.
pub record IsClosed (t : Task) : Type 0 where
  pub started : is_some t.started_at ≡ true
  pub finished : is_some t.completed_at ≡ true
  pub attempted : t.attempts ≡ 1
  pub not_parked : t.requeue ≡ none

abbrev ForStatus : TaskStatus → Task → Type 0
ForStatus pending t = IsFresh t
ForStatus running t = IsUnderWay t
ForStatus completed t = IsClosed t × (t.error ≡ none)
ForStatus failed t = IsClosed t

abbrev pub IsValid : Task → Type 0
IsValid t = ForStatus t.status t
