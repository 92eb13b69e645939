-- ===== src/Client/Listing/Newest.antt =====
-- What `list_failed` and `list_completed` of src/pq/client.py return.
use mathlib.Core.List.{Perm}
use mathlib.Core.List.Perm
use pq.Base.{
  ℕ, zero, suc, ◌≤◌, ◌≡◌, refl, ◌⊎◌, inl, inr, true, false, Option, none, some, List, [], ◌∷◌, ◌++◌,
  All, arith, ap, select, length, Bool-cases,
}
use pq.Errors.{ok}
use pq.Models.{Task, TaskStatus, completed, failed}
use pq.Database.{Db, Env}
use pq.Database.Consistent.{AllPairs}
use pq.Database.Sessions.{session_ok}
use pq.Client.Listing.{
  is_newer, insert_newest, newest_first, take, has_status, list_failed, list_completed,
}

-- Closed no earlier, or not at all.
abbrev pub IsNewer : Task → Task → Type 0
IsNewer t u = is_newer t.completed_at u.completed_at ≡ true

is_newer_either : (a b : Option ℕ) → is_newer a b ≡ false → is_newer b a ≡ true
unfolding is_newer
is_newer_either none b e = cc
is_newer_either (some a) none e = refl
is_newer_either (some a) (some b) e = ground arith

is_newer_trans :
    (a b c : Option ℕ) → is_newer a b ≡ true → is_newer b c ≡ true → is_newer a c ≡ true
unfolding is_newer
is_newer_trans none b c e f = refl
is_newer_trans (some a) none c e f = cc
is_newer_trans (some a) (some b) none e f = cc
is_newer_trans (some a) (some b) (some c) e f = ground arith

All-insert_newest :
    (P : Task → Type 0) (t : Task) (ts : List Task) → P t → All P ts → All P (insert_newest t ts)
unfolding insert_newest
All-insert_newest P t [] p h = (p, tt)
All-insert_newest P t (u ∷ us) p h = elim (Bool-cases (is_newer t.completed_at u.completed_at)) [
  | inl e ↦ rw e (p, h)
  | inr e ↦ rw e (h.0, All-insert_newest P t us p h.1)
]

below_rest : (t u : Task) (us : List Task) → IsNewer t u → All (IsNewer u) us → All (IsNewer t) us
below_rest t u [] e h = tt
below_rest t u (v ∷ us) e h =
    (is_newer_trans t.completed_at u.completed_at v.completed_at e h.0, below_rest t u us e h.1)

insert_newest-AllPairs :
    (t : Task) (ts : List Task) → AllPairs IsNewer ts → AllPairs IsNewer (insert_newest t ts)
unfolding insert_newest
insert_newest-AllPairs t [] h = (tt, tt)
insert_newest-AllPairs t (u ∷ us) h = elim (Bool-cases (is_newer t.completed_at u.completed_at)) [
  | inl e ↦ rw e ((e, below_rest t u us e h.0), h)
  | inr e ↦ rw e (
    All-insert_newest (IsNewer u) t us (is_newer_either t.completed_at u.completed_at e) h.0,
    insert_newest-AllPairs t us h.1,
  )
]

newest_first-AllPairs : (ts : List Task) → AllPairs IsNewer (newest_first ts)
unfolding newest_first
newest_first-AllPairs [] = tt
newest_first-AllPairs (t ∷ ts) =
    insert_newest-AllPairs t (newest_first ts) (newest_first-AllPairs ts)

insert_newest-Perm : (t : Task) (ts : List Task) → Perm (insert_newest t ts) (t ∷ ts)
unfolding insert_newest
insert_newest-Perm t [] = Perm.refl (t ∷ [])
insert_newest-Perm t (u ∷ us) = elim (Bool-cases (is_newer t.completed_at u.completed_at)) [
  | inl e ↦ rw e (Perm.refl (t ∷ u ∷ us))
  | inr e ↦ rw e (Perm.trans (Perm.cons u (insert_newest-Perm t us)) (Perm.swap t u us))
]

newest_first-Perm : (ts : List Task) → Perm (newest_first ts) ts
unfolding newest_first
newest_first-Perm [] = Perm.nil
newest_first-Perm (t ∷ ts) =
    Perm.trans (insert_newest-Perm t (newest_first ts)) (Perm.cons t (newest_first-Perm ts))

-- A limit cuts a list in two.
take-rest :
    (n : ℕ) (ts : List Task)
    → (rest : List Task) × (take n ts ++ rest ≡ ts)
      × ((rest ≡ []) ⊎ (length (take n ts) ≡ n))
      × (length (take n ts) ≤ n)
unfolding take
take-rest zero ts = (ts, refl, inr refl, omega arith)
take-rest (suc n) [] = ([], refl, inl refl, omega arith)
take-rest (suc n) (t ∷ ts) =
    let (rest, e, full, few) = take-rest n ts in
    (
      rest,
      ap (◌∷◌ t) e,
      elim full [ inl q ↦ inl q | inr q ↦ inr (omega (arith, q)) ],
      omega (arith, few),
    )

-- The rows of a status as a call returns them: with the rest, they are the table's rows of the
-- status, each once, the newest first; only a limit that is reached leaves a rest.
pub record IsListing (status : TaskStatus) (limit : ℕ) (db : Db) (ts : List Task) : Type 0 where
  pub rest : List Task
  pub same : Perm (ts ++ rest) (select (has_status status) db.tasks)
  pub ordered : AllPairs IsNewer (ts ++ rest)
  pub whole : (rest ≡ []) ⊎ (length ts ≡ limit)
  pub few : length ts ≤ limit

take-IsListing :
    (status : TaskStatus) (limit : ℕ) (db : Db)
    → IsListing status limit db (take limit (newest_first (select (has_status status) db.tasks)))
take-IsListing status limit db =
    let (rest, e, full, few) =
      take-rest limit (newest_first (select (has_status status) db.tasks)) in
    record {
      rest = rest;
      same = rw e (newest_first-Perm (select (has_status status) db.tasks));
      ordered = rw e (newest_first-AllPairs (select (has_status status) db.tasks));
      whole = full;
      few = few;
    }

-- While the database answers, each call returns the rows of its status, newest first and at most
-- `limit` of them: the rows that it leaves out are no newer than any that it returns, and it leaves
-- none out unless the limit is reached. The tables stay.
pub list_closed-IsListing :
    (env : Env) (limit : ℕ) (db : Db)
    → env.up ≡ true
    → ((ts : List Task) × (list_failed env limit db ≡ (ok ts, db)) × IsListing failed limit db ts)
      × ((ts : List Task) × (list_completed env limit db ≡ (ok ts, db))
          × IsListing completed limit db ts)
unfolding list_failed list_completed
list_closed-IsListing env limit db up = (
  (_, session_ok env _ db up refl, take-IsListing failed limit db),
  (_, session_ok env _ db up refl, take-IsListing completed limit db),
)
