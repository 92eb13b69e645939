-- ===== src/Lifecycle/Batch.antt =====
-- `PQ.upsert_many` of src/pq/client.py as requests, client by client.
use pq.Base.{
  text_opt_eq, inl, inr, ℕ, ◌≡◌, refl, subst, sym, ap, ◌∙◌, Bool, true, false, Option, none, some,
  List, [], ◌∷◌, arith, find, select, delete, Text, text_eq, text_eq_refl, text_eq→eq, text_le,
  Bool-cases, if◌then◌else◌, length,
}
use pq.Errors.{ok}
use pq.Models.{Task, Version}
use pq.Database.{Db, Env, has_client}
use pq.Database.Sessions.{session_ok}
use pq.Serialization.{Codec}
use pq.Client.Upsert.{
  Upsert, Statement, build_statements, insert_statement, in_client_order, set_id, execute_all,
  zeros, upsert_many,
}
use pq.Lifecycle.{Phase, queued, request, phase}
use pq.Lifecycle.Upsert.{Upserted, requested, execute_upsert-Upserted}

-- What the table holds for a client id.
abbrev phase_option : Option Task → Option Phase
phase_option none = none
phase_option (some t) = some (phase t)

abbrev pub client_phase : Text → Db → Option Phase
client_phase k db = phase_option (find (has_client k) db.tasks)

-- Versions requested one after the other.
abbrev request_first : Version → Option Phase → Phase
request_first v none = queued v
request_first v (some p) = request v p

abbrev pub request_all : List (ℕ × Statement) → Option Phase → Option Phase
request_all [] p = p
request_all (s ∷ ss) p = request_all ss (some (request_first (s.1).version p))

abbrev pub is_for : Text → ℕ × Statement → Bool
is_for k s = text_eq (s.1).client_id k

-- Rows that `p` leaves alone are found as before.
find-delete_other :
    {A : Type 0} (p q : A → Bool)
    → ((x : A) → q x ≡ true → p x ≡ false)
    → (xs : List A) → find q (delete p xs) ≡ find q xs
unfolding find delete
find-delete_other p q apart [] = refl
find-delete_other p q apart (x ∷ xs) = elim (Bool-cases (q x)) [
  | inl t ↦ rw (apart x t, t) refl
  | inr f ↦ elim (Bool-cases (p x)) [
    | inl u ↦ rw (u, f) (find-delete_other p q apart xs)
    | inr u ↦ rw (u, f) (find-delete_other p q apart xs)
  ]
]

-- Stability: the statements of one client stay in their order.
text_le_refl : (s : Text) → text_le s s ≡ true
unfolding text_le
text_le_refl [] = refl
text_le_refl (a ∷ s) = ground (arith, text_le_refl s)

select-insert_statement :
    (k : Text) (s : ℕ × Statement) (ss : List (ℕ × Statement))
    → select (is_for k) (insert_statement s ss) ≡ select (is_for k) (s ∷ ss)
unfolding select insert_statement
select-insert_statement k s [] = refl
select-insert_statement k s (t ∷ ts) = elim (Bool-cases (text_le (s.1).client_id (t.1).client_id)) [
  | inl le ↦ rw le refl
  | inr gt ↦ elim (Bool-cases (is_for k s)) [
    | inl e ↦ rw (gt, e, later e gt) (select-insert_statement k s ts ∙ kept e)
    | inr e ↦
        rw (gt, e)
          (ap (λ z. if is_for k t then t ∷ z else z) (select-insert_statement k s ts ∙ dropped e))
  ]
]
  where
    kept : is_for k s ≡ true → select (is_for k) (s ∷ ts) ≡ s ∷ select (is_for k) ts
    kept e = rw e refl

    dropped : is_for k s ≡ false → select (is_for k) (s ∷ ts) ≡ select (is_for k) ts
    dropped e = rw e refl

    -- a statement passes no other of its client
    later : is_for k s ≡ true → text_le (s.1).client_id (t.1).client_id ≡ false → is_for k t ≡ false
    later e gt = elim (Bool-cases (is_for k t)) [
      | inl u ↦
          let a : (s.1).client_id ≡ k = text_eq→eq (s.1).client_id k e in
          let b : (t.1).client_id ≡ k = text_eq→eq (t.1).client_id k u in
          let le : text_le (s.1).client_id (t.1).client_id ≡ true = rw (a, b) (text_le_refl k) in
          ground (arith, gt, le)
      | inr f ↦ f
    ]

select-in_client_order :
    (k : Text) (ss : List (ℕ × Statement))
    → select (is_for k) (in_client_order ss) ≡ select (is_for k) ss
unfolding in_client_order select
select-in_client_order k [] = refl
select-in_client_order k (s ∷ ss) =
    select-insert_statement k s (in_client_order ss)
    ∙ ap (λ z. if is_for k s then s ∷ z else z) (select-in_client_order k ss)

requested-request_first :
    (v : Version) (t : Option Task) → requested v t ≡ request_first v (phase_option t)
requested-request_first v none = refl
requested-request_first v (some t) = refl

-- One statement of the batch.
module _ (s : Statement) (db db' : Db) (id : ℕ) (done : Upserted s db db' id) where
  client_phase_same :
      client_phase s.client_id db' ≡ some (request_first s.version (client_phase s.client_id db))
  client_phase_same =
      ap phase_option done.found ∙ ap some (done.moved ∙ requested-request_first s.version _)

  client_phase_other :
      (k : Text) → text_eq s.client_id k ≡ false → client_phase k db' ≡ client_phase k db
  client_phase_other k f = ap phase_option (
      sym (find-delete_other (has_client s.client_id) (has_client k) apart db'.tasks)
      ∙ ap (find (has_client k)) done.others
      ∙ find-delete_other (has_client s.client_id) (has_client k) apart db.tasks)
    where
      apart : (t : Task) → has_client k t ≡ true → has_client s.client_id t ≡ false
      apart t h = other t.client_id h
        where
          other : (o : Option Text) → text_opt_eq o k ≡ true → text_opt_eq o s.client_id ≡ false
          other none e = refl
          other (some x) e = elim (Bool-cases (text_eq x s.client_id)) [
            | inl u ↦
                let a : k ≡ s.client_id = sym (text_eq→eq x k e) ∙ text_eq→eq x s.client_id u in
                let same : text_eq s.client_id k ≡ true = rw a (text_eq_refl s.client_id) in
                ground (arith, f, same)
            | inr u ↦ u
          ]

  client_phase-requested :
      (k : Text) (i : ℕ) (ss : List (ℕ × Statement))
      → request_all (select (is_for k) ss) (client_phase k db')
        ≡ request_all (select (is_for k) ((i, s) ∷ ss)) (client_phase k db)
  unfolding select
  client_phase-requested k i ss = elim (Bool-cases (text_eq s.client_id k)) [
    | inl t ↦ rw t (ap (request_all (select (is_for k) ss)) (own (text_eq→eq s.client_id k t)))
    | inr f ↦ rw f (ap (request_all (select (is_for k) ss)) (client_phase_other k f))
  ]
    where
      own :
          s.client_id ≡ k → client_phase k db' ≡ some (request_first s.version (client_phase k db))
      own e =
          subst (λ z. client_phase z db' ≡ some (request_first s.version (client_phase z db))) e
            client_phase_same

-- The loop of the batch: it never fails, and each client's phase takes the requests for it.
module _ (env : Env) where
  pub IsExecutedAll : List (ℕ × Statement) → List ℕ → Db → Type 0
  IsExecutedAll ss ids db =
      (ids' : List ℕ) × (db' : Db) × (execute_all env ss ids db ≡ ok (ids', db'))
      × ((k : Text) → client_phase k db' ≡ request_all (select (is_for k) ss) (client_phase k db))

  execute_all-IsExecutedAll :
      (ss : List (ℕ × Statement)) (ids : List ℕ) (db : Db) → IsExecutedAll ss ids db
  unfolding IsExecutedAll execute_all select
  execute_all-IsExecutedAll [] ids db = (ids, db, refl, λ k. refl)
  execute_all-IsExecutedAll ((i, s) ∷ ss) ids db =
      let (id, db1, e, done) = execute_upsert-Upserted env s db in
      let (ids', db', es, phases) = execute_all-IsExecutedAll ss (set_id i id ids) db1 in
      (ids', db', rw (e, es) refl, λ k. phases k ∙ client_phase-requested s db db1 id done k i ss)

-- While the database answers, a batch whose checks pass is written as a whole. What a client's row
-- then holds is what its requests make of it one after the other, in the order of the call: as of
-- single upserts, a repeated client id ends with its last version. Other clients' rows stay.
pub upsert_many_lem :
    (c : Codec) (env : Env) (us : List (Upsert c)) (ss : List (ℕ × Statement)) (db : Db)
    → env.up ≡ true
    → build_statements c env 0 us ≡ ok ss
    → (ids : List ℕ) × (db' : Db) × (upsert_many c env us db ≡ (ok ids, db'))
      × ((k : Text) → client_phase k db' ≡ request_all (select (is_for k) ss) (client_phase k db))
unfolding upsert_many IsExecutedAll
upsert_many_lem c env us ss db up h =
    let (ids, db', e, phases) =
      execute_all-IsExecutedAll env (in_client_order ss) (zeros (length us)) db in
    (
      ids,
      db',
      rw h (session_ok env (execute_all env (in_client_order ss) (zeros (length us))) db up e),
      λ k. phases k ∙ ap (λ z. request_all z (client_phase k db)) (select-in_client_order k ss),
    )
