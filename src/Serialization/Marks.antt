-- ===== src/Serialization/Marks.antt =====
-- The marks that `serialize` of src/pq/serialization.py leaves for pickled values: their indices
-- and keys, which `deserialize` looks up.
use pq.Base.{
  map, text_eq_refl, text_eq→eq, ℕ, suc, ◌≤◌, ◌<◌, ◌≡◌, refl, ap, ◌∙◌, inl, inr, Bool, true, false,
  List, [], ◌∷◌, Text, text_eq, All, arith, All-mono, Bool-cases, if◌then◌else◌,
}
use pq.Errors.{Result, ok, >>=-eq-ok}
use pq.Serialization.{Codec, index_in, key_in, prepare_value, serialize_args, serialize_kwargs}

pub ok_pair :
    {A B : Type 0} {y x : A} {a b : B}
    → ◌≡◌ {A = Result (A × B)} (ok (y, a)) (ok (x, b))
    → (x ≡ y) × (b ≡ a)
ok_pair k = (cc k, cc k)

-- A mark is written for a pickled value alone.
unfoldable pub mark : {A : Type 0} → Bool → A → List A → List A
mark b x xs = if b then x ∷ xs else xs

-- The indices of pickled arguments, from `i` on.
pub indices_from :
    (c : Codec) (i : ℕ) (vs xs : List c.Value) (is : List ℕ)
    → serialize_args c i vs ≡ ok (xs, is)
    → All (λ k. i ≤ k) is
unfolding serialize_args
indices_from c i [] xs is e = rw (ok_pair e).1 tt
indices_from c i (v ∷ vs) xs is e =
    let ((x, b), p, e1) = >>=-eq-ok (prepare_value c v) _ e in
    let ((xs', is'), q, e2) = >>=-eq-ok (serialize_args c (suc i) vs) _ e1 in
    rw (ok_pair e2).1 (
      kept b is' (
        All-mono (λ k. suc i ≤ k) (λ k. i ≤ k) (λ k h. omega (arith, h)) is'
          (indices_from c (suc i) vs xs' is' q)))
  where
    kept :
        (b : Bool) (is : List ℕ) → All (λ k. i ≤ k) is → All (λ k. i ≤ k) (if b then i ∷ is else is)
    kept true is h = (omega arith, h)
    kept false is h = h

pub index_in_above : (i k : ℕ) (is : List ℕ) → k < i → All (λ k. i ≤ k) is → index_in k is ≡ false
unfolding index_in
index_in_above i k [] h a = refl
index_in_above i k (j ∷ is) h a = ground (arith, index_in_above i k is)

pub index_in-mark :
    (i : ℕ) (b : Bool) (is : List ℕ) → All (λ k. suc i ≤ k) is → index_in i (mark b i is) ≡ b
unfolding index_in mark
index_in-mark i true is h = ground arith
index_in-mark i false is h = index_in_above (suc i) i is (omega arith) h

pub index_in-mark_later :
    (i k : ℕ) (b : Bool) (is : List ℕ) → suc i ≤ k → index_in k (mark b i is) ≡ index_in k is
unfolding index_in mark
index_in-mark_later i k true is h = ground arith
index_in-mark_later i k false is h = refl

pub key_in-mark_here :
    (k : Text) (b : Bool) (ks : List Text) → key_in k ks ≡ false → key_in k (mark b k ks) ≡ b
unfolding key_in mark
key_in-mark_here k true ks h = rw (key_in, text_eq_refl k) refl
key_in-mark_here k false ks h = h

pub key_in-mark_apart :
    (j k : Text) (b : Bool) (ks : List Text)
    → text_eq j k ≡ false
    → key_in k (mark b j ks) ≡ key_in k ks
unfolding key_in mark
key_in-mark_apart j k true ks h = rw (h, key_in) refl
key_in-mark_apart j k false ks h = refl

pub key_in_cons : (i k : Text) (is : List Text) → key_in i is ≡ true → key_in i (k ∷ is) ≡ true
unfolding key_in
key_in_cons i k is h = ground arith

pub key_in-apart :
    (j k : Text) (ks : List Text) → key_in j ks ≡ false → key_in k ks ≡ true → text_eq j k ≡ false
key_in-apart j k ks h t = elim (Bool-cases (text_eq j k)) [
  | inl e ↦ let s : j ≡ k = text_eq→eq j k e in absurd (ground (arith, h, t, s))
  | inr f ↦ f
]

pub key_in-mark_other :
    (j k : Text) (b : Bool) (js ks : List Text)
    → key_in k (j ∷ js) ≡ false
    → (key_in k js ≡ false → key_in k ks ≡ false)
    → key_in k (mark b j ks) ≡ false
unfolding key_in mark
key_in-mark_other j k true js ks h rest = ground (arith, rest)
key_in-mark_other j k false js ks h rest = rest (ground arith)

-- Only keys of the dictionary are marked.
pub key_in-unmarked :
    (c : Codec) (k : Text) (kvs xs : List (Text × c.Value)) (ks : List Text)
    → serialize_kwargs c kvs ≡ ok (xs, ks)
    → key_in k (map (λ u. u.0) kvs) ≡ false
    → key_in k ks ≡ false
unfolding serialize_kwargs key_in mark
key_in-unmarked c k [] xs ks e h = rw (ok_pair e).1 refl
key_in-unmarked c k ((j, v) ∷ kvs) xs ks e h =
    let ((x, b), p, e1) = >>=-eq-ok (prepare_value c v) _ e in
    let ((xs', ks'), q, e2) = >>=-eq-ok (serialize_kwargs c kvs) _ e1 in
    ap (key_in k) (ok_pair e2).1
    ∙ key_in-mark_other j k b (map (λ u. u.0) kvs) ks' h (key_in-unmarked c k kvs xs' ks' q)
