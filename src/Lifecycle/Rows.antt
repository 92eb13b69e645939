-- ===== src/Lifecycle/Rows.antt =====
-- The changes of one row in src/pq/client.py and src/pq/worker.py, and what each status fixes.
use pq.Base.{ℕ, ◌≡◌, refl, ◌⊎◌, inl, inr, Option, none, some, true, arith}
use pq.Errors.{ok}
use pq.Worker.Child.{Raised, recorded, timeout_error}
use pq.Models.{
  Task, TaskStatus, pending, running, completed, failed, Version, apply_requeue, ErrorMsg,
  status_eq,
}
use pq.Models.Valid.{IsValid}
use pq.Database.{Env}
use pq.Database.Consistent.{key}
use pq.Client.{Prepared}
use pq.Client.Tasks.{new_task}
use pq.Client.Upsert.{Statement, upsert_row, upsert_new}
use pq.Client.Reaper.{reap_row}
use pq.Worker.OneOff.{start_run, close_row}

pub status_eq→eq : (s u : TaskStatus) → status_eq s u ≡ true → s ≡ u
status_eq→eq pending u h = ground arith
status_eq→eq running u h = ground arith
status_eq→eq completed u h = ground arith
status_eq→eq failed u h = ground arith

pub new_task-IsValid :
    (env : Env) (c : Option _) (p : Prepared) (n : ℕ) → IsValid (new_task env c p n)
unfolding new_task
new_task-IsValid env c p n = ground arith

pub upsert_new-IsValid : (env : Env) (s : Statement) (n : ℕ) → IsValid (upsert_new env s n)
unfolding upsert_new
upsert_new-IsValid env s n = ground arith

pub upsert_row-IsValid : (v : Version) (t : Task) → IsValid t → IsValid (upsert_row v t)
unfolding upsert_row
upsert_row-IsValid v t h = ground arith

pub upsert_row-key : (v : Version) (t : Task) → key (upsert_row v t) ≡ key t
unfolding upsert_row
upsert_row-key v t = refl

pub start_run-IsValid :
    (now : ℕ) (t : Task) → t.status ≡ pending → IsValid t → IsValid (start_run now t)
unfolding start_run
start_run-IsValid now t e h = ground arith

pub reap_row-IsValid :
    (env : Env) (threshold : ℕ) (t : Task)
    → t.status ≡ running
    → t.requeue ≡ none
    → IsValid t
    → IsValid (reap_row env threshold t)
unfolding reap_row
reap_row-IsValid env threshold t e q h = ground arith

-- A run ends well with no message, or it ends as failed.
abbrev pub IsOutcome : TaskStatus → Option ErrorMsg → Type 0
IsOutcome s m = ((s ≡ completed) × (m ≡ none)) ⊎ (s ≡ failed)

pub close_row-IsValid :
    (now : ℕ) (s : TaskStatus) (m : Option ErrorMsg) (t : Task)
    → t.status ≡ running
    → t.requeue ≡ none
    → IsOutcome s m
    → IsValid t
    → IsValid (close_row now s m t)
unfolding close_row
close_row-IsValid now s m t e q o h = ground arith

pub apply_requeue-IsValid : (t : Task) {t' : Task} → apply_requeue t ≡ ok t' → IsValid t'
unfolding apply_requeue
apply_requeue-IsValid t h = ground arith

pub apply_requeue-key : (t : Task) {t' : Task} → apply_requeue t ≡ ok t' → key t' ≡ key t
unfolding apply_requeue
apply_requeue-key t h = ground arith

-- What a worker records of a child's end fits the status.
pub recorded-IsOutcome :
    (elapsed : ℕ) (r : Option Raised) → IsOutcome (recorded elapsed r).0 (recorded elapsed r).1
unfolding recorded
recorded-IsOutcome elapsed none = inl (refl, refl)
recorded-IsOutcome elapsed (some (timeout_error m)) = inr refl
recorded-IsOutcome elapsed (some _) = inr refl
