-- ===== src/Database/Put.antt =====
-- An UPDATE by primary key, `put_task`, and the rows that it finds and leaves.
use pq.Base.{
  ℕ, ◌≡◌, ◌≢◌, sym, ap, ◌∙◌, true, false, some, List, [], ◌∷◌, map, arith, All, In, In-All, inl,
  inr, ==_iff, find, delete, Option-cases, find-none-All, In-find, find-update-some, delete-update,
}
use pq.Models.{Task}
use pq.Models.Valid.{IsValid}
use pq.Database.{Db, put_task, has_id}
use pq.Database.Consistent.{Key, key, IsApart, AllPairs, IsConsistent, update-IsConsistent}

-- Rows with one id are one row.
key-ne_of_apart :
    (x u : Task) (us : List Task) → All (IsApart (key x)) (map key us) → In u us → x.id ≢ u.id
key-ne_of_apart x u [] b i = absurd i
key-ne_of_apart x u (y ∷ us) b (inl k) = λ e. b.0.0 (e ∙ ap (λ (t : Task). t.id) (sym k))
key-ne_of_apart x u (y ∷ us) b (inr k) = key-ne_of_apart x u us b.1 k

pub In-unique :
    (ts : List Task) {t u : Task}
    → AllPairs IsApart (map key ts)
    → In t ts
    → In u ts
    → u.id ≡ t.id
    → u ≡ t
In-unique [] a i j e = absurd i
In-unique (x ∷ ts) a (inl h) (inl k) e = cc
In-unique (x ∷ ts) a (inl h) (inr j) e =
    absurd (key-ne_of_apart x _ ts a.0 j (ap (λ (t : Task). t.id) h ∙ sym e))
In-unique (x ∷ ts) a (inr i) (inl k) e =
    absurd (key-ne_of_apart x _ ts a.0 i (ap (λ (t : Task). t.id) k ∙ e))
In-unique (x ∷ ts) a (inr i) (inr j) e = In-unique ts a.1 i j e

-- Replacing a row of the table by a valid one with the same key.
pub put_task-IsConsistent :
    (t t' : Task) (db : Db)
    → In t db.tasks
    → key t' ≡ key t
    → IsValid t'
    → IsConsistent db
    → IsConsistent (put_task t' db)
unfolding put_task
put_task-IsConsistent t t' db i same good c =
    update-IsConsistent (has_id t'.id) (λ _. t') db
      (λ u j e v. (same ∙ sym (ap key (row u j e)), good)) c
  where
    row : (u : Task) → In u db.tasks → has_id t'.id u ≡ true → u ≡ t
    row u j e =
        In-unique db.tasks c.apart i j
          (omega (arith, (==_iff u.id t'.id).0 e, ap (λ (k : Key). k.0) same))

pub find_id_of_In :
    (ts : List Task) (t : Task)
    → AllPairs IsApart (map key ts)
    → In t ts
    → find (has_id t.id) ts ≡ some t
find_id_of_In ts t a i = elim (Option-cases (find (has_id t.id) ts)) [
  | inl e ↦
      let off : has_id t.id t ≡ false = In-All _ ts (find-none-All (has_id t.id) ts e) i in
      absurd (ground arith)
  | inr (u, e) ↦
      let (j, h) = In-find (has_id t.id) ts e in
      e ∙ ap some (In-unique ts a i j ((==_iff u.id t.id).0 h))
]

has_own_id : (t : Task) → has_id t.id t ≡ true
has_own_id t = ground arith

-- The row that an UPDATE by primary key leaves, and the rows that it leaves alone.
pub put_task-found :
    (t t' : Task) (db : Db)
    → In t db.tasks
    → t'.id ≡ t.id
    → IsConsistent db
    → find (has_id t.id) (put_task t' db).tasks ≡ some t'
unfolding put_task
put_task-found t t' db i same c = rw (← same) (
    find-update-some (has_id t'.id) (λ _. t') (λ _ _. has_own_id t') db.tasks {x = t}
      (rw same (find_id_of_In db.tasks t c.apart i)))

pub put_task-others :
    (i : ℕ) (t' : Task) (db : Db)
    → t'.id ≡ i
    → delete (has_id i) (put_task t' db).tasks ≡ delete (has_id i) db.tasks
unfolding put_task
put_task-others i t' db same =
    rw (← same) (delete-update (has_id t'.id) (λ _. t') (λ _ _. has_own_id t') db.tasks)
