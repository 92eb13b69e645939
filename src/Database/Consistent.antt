-- ===== src/Database/Consistent.antt =====
-- The invariant of the task table: valid rows, fresh ids, distinct ids and distinct client ids.
use mathlib.Core.List.{map-append}
use pq.Base.{
  ℕ, suc, ◌<◌, ◌≡◌, ◌≢◌, refl, Bool, true, false, Option, none, some, List, [], ◌∷◌, ◌++◌, map,
  Text, arith, All, All-append, All-update_on, All-of_In, In, In-All, All-delete, update, delete,
  find, inl, inr, Bool-cases, text_eq_refl, text_opt_eq,
}
use pq.Errors.{ok}
use pq.Models.{Task, Periodic}
use pq.Models.Valid.{IsValid}
use pq.Database.{Db, insert_task, has_client, client_taken}

abbrev pub Key : Type 0
Key = ℕ × Option Text

abbrev pub key : Task → Key
key t = (t.id, t.client_id)

abbrev pub ClientsApart : Option Text → Option Text → Type 0
ClientsApart (some c) (some d) = c ≢ d
ClientsApart none _ = Unit {0}
ClientsApart _ _ = Unit {0}

abbrev pub IsApart : Key → Key → Type 0
IsApart k l = (k.0 ≢ l.0) × ClientsApart k.1 l.1

abbrev pub AllPairs {ℓ κ} : {A : Type ℓ} → (A → A → Type κ) → List A → Type κ
AllPairs R [] = Unit
AllPairs R (x ∷ xs) = All (R x) xs × AllPairs R xs

pub record IsConsistent (db : Db) : Type 0 where
  pub valid : All IsValid db.tasks
  pub below : All (λ k. k.0 < db.next_task_id) (map key db.tasks)
  pub apart : AllPairs IsApart (map key db.tasks)

pub AllPairs-snoc {ℓ κ} :
    {A : Type ℓ} (R : A → A → Type κ) (xs : List A) (y : A)
    → AllPairs R xs
    → All (λ x. R x y) xs
    → AllPairs R (xs ++ y ∷ [])
AllPairs-snoc R [] y h k = (tt, tt)
AllPairs-snoc R (x ∷ xs) y h k =
    (All-append (R x) xs (y ∷ []) h.0 (k.0, tt), AllPairs-snoc R xs y h.1 k.1)

-- A change of rows that keeps their keys.
pub map-key-update :
    (p : Task → Bool) (f : Task → Task) (ts : List Task)
    → All (λ t. p t ≡ true → key (f t) ≡ key t) ts
    → map key (update p f ts) ≡ map key ts
unfolding update
map-key-update p f [] keep = refl
map-key-update p f (t ∷ ts) keep = elim (Bool-cases (p t)) [
  | inl e ↦ rw e (cc (keep.0 e, map-key-update p f ts keep.1))
  | inr e ↦ rw e (cc (map-key-update p f ts keep.1))
]

All-map-delete {κ} :
    (P : Key → Type κ) (p : Task → Bool) (ts : List Task)
    → All P (map key ts)
    → All P (map key (delete p ts))
unfolding delete
All-map-delete P p [] h = tt
All-map-delete P p (t ∷ ts) h = elim (Bool-cases (p t)) [
  | inl e ↦ rw e (All-map-delete P p ts h.1)
  | inr e ↦ rw e (h.0, All-map-delete P p ts h.1)
]

AllPairs-delete :
    (p : Task → Bool) (ts : List Task)
    → AllPairs IsApart (map key ts)
    → AllPairs IsApart (map key (delete p ts))
unfolding delete
AllPairs-delete p [] h = tt
AllPairs-delete p (t ∷ ts) h = elim (Bool-cases (p t)) [
  | inl e ↦ rw e (AllPairs-delete p ts h.1)
  | inr e ↦ rw e (All-map-delete (IsApart (key t)) p ts h.0, AllPairs-delete p ts h.1)
]

-- An UPDATE that keeps keys and validity keeps the table consistent.
pub update-IsConsistent :
    (p : Task → Bool) (f : Task → Task) (db : Db)
    → ((t : Task) → In t db.tasks → p t ≡ true → IsValid t → (key (f t) ≡ key t) × IsValid (f t))
    → IsConsistent db
    → IsConsistent (record db { tasks = update p f db.tasks })
update-IsConsistent p f db keep c = record {
  valid =
      All-update_on IsValid p f db.tasks (All-of_In db.tasks (λ t i e v. (keep t i e v).1)) c.valid;
  below = rw keys c.below;
  apart = rw keys c.apart;
}
  where
    keys : map key (update p f db.tasks) ≡ map key db.tasks
    keys =
        map-key-update p f db.tasks
          (All-of_In db.tasks (λ t i e. (keep t i e (In-All IsValid db.tasks c.valid i)).0))

pub delete-IsConsistent :
    (p : Task → Bool) (db : Db)
    → IsConsistent db
    → IsConsistent (record db { tasks = delete p db.tasks })
delete-IsConsistent p db c = record {
  valid = All-delete IsValid p db.tasks c.valid;
  below = All-map-delete (λ k. k.0 < db.next_task_id) p db.tasks c.below;
  apart = AllPairs-delete p db.tasks c.apart;
}

-- No row conflicts with a client id that the index does not hold.
client_taken-ClientsApart :
    (c : Option Text) (ts : List Task)
    → client_taken c ts ≡ false
    → All (λ k. ClientsApart k.1 c) (map key ts)
unfolding client_taken find
client_taken-ClientsApart c [] h = tt
client_taken-ClientsApart none (t ∷ ts) h =
    (free t.client_id, client_taken-ClientsApart none ts refl)
  where
    free : (d : Option Text) → ClientsApart d none
    free none = tt
    free (some d) = tt
client_taken-ClientsApart (some c) (t ∷ ts) h = elim (Bool-cases (has_client c t)) [
  | inl e ↦ let x : ◌≡◌ {A = Bool} true false = rw e at h in absurd (cc)
  | inr e ↦ (other t.client_id e, client_taken-ClientsApart (some c) ts (rw e at h))
]
  where
    other : (d : Option Text) → text_opt_eq d c ≡ false → ClientsApart d (some c)
    other none e = tt
    other (some d) e = λ s. cc (text_eq_refl c)

All-fresh :
    (n : ℕ) (c : Option Text) (ks : List Key)
    → All (λ k. k.0 < n) ks
    → All (λ k. ClientsApart k.1 c) ks
    → All (λ k. IsApart k (n, c)) ks
All-fresh n c [] h a = tt
All-fresh n c (k ∷ ks) h a = ((λ e. absurd (omega arith), a.0), All-fresh n c ks h.1 a.1)

All-below-suc : (n : ℕ) (ks : List Key) → All (λ k. k.0 < n) ks → All (λ k. k.0 < suc n) ks
All-below-suc n [] h = tt
All-below-suc n (k ∷ ks) h = (omega arith, All-below-suc n ks h.1)

-- What a successful insert did.
pub insert_task-eq-ok :
    (row : ℕ → Task) (db : Db) {i : ℕ} {db' : Db}
    → insert_task row db ≡ ok (i, db')
    → (client_taken (row db.next_task_id).client_id db.tasks ≡ false)
      × (i ≡ (row db.next_task_id).id)
      × (db' ≡ record db {
        tasks = db.tasks ++ row db.next_task_id ∷ [];
        next_task_id = suc db.next_task_id;
      })
unfolding insert_task
insert_task-eq-ok row db h = ground arith

pub insert_task-IsConsistent :
    (row : ℕ → Task)
    → ((n : ℕ) → (row n).id ≡ n)
    → ((n : ℕ) → IsValid (row n))
    → (db : Db) {i : ℕ} {db' : Db} → insert_task row db ≡ ok (i, db')
    → IsConsistent db
    → IsConsistent db'
insert_task-IsConsistent row ids good db {db' = db'} h c =
    let t = row db.next_task_id in
    let n = db.next_task_id in
    let (free, same, e) = insert_task-eq-ok row db h in
    let keys = map-append key db.tasks (t ∷ []) in
    rw e (record {
      valid = All-append IsValid db.tasks (t ∷ []) c.valid (good n, tt);
      below =
          rw (keys, ids n)
            (All-append _ (map key db.tasks) _ (All-below-suc n _ c.below) (omega arith, tt));
      apart =
          rw (keys, ids n)
            (AllPairs-snoc IsApart _ _ c.apart
              (All-fresh n _ _ c.below (client_taken-ClientsApart t.client_id db.tasks free)));
    })

-- The invariant is one of the tasks alone.
pub periodics-IsConsistent :
    (db : Db) (ps : List Periodic) → IsConsistent db → IsConsistent (record db { periodics = ps })
periodics-IsConsistent db ps c = record { valid = c.valid; below = c.below; apart = c.apart }
