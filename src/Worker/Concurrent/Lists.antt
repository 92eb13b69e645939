-- ===== src/Worker/Concurrent/Lists.antt =====
-- Lists of the slots and entries of `_run_concurrent` of src/pq/worker.py: lookups and deletions.
use pq.Base.{
  ◌≤◌, ◌≡◌, refl, ◌⊎◌, inl, inr, Bool, true, false, some, List, [], ◌∷◌, ◌++◌, All, In, arith, map,
  find, delete, length, sym, ap, ◌∙◌, subst, Bool-cases, In-All, All-delete,
}
use pq.Database.Consistent.{AllPairs}

pub All-of_map :
    {A B : Type 0} (f : A → B) (P : B → Type 0) (xs : List A)
    → All P (map f xs)
    → All (λ x. P (f x)) xs
All-of_map f P [] h = tt
All-of_map f P (x ∷ xs) h = (h.0, All-of_map f P xs h.1)

pub All-map :
    {A B : Type 0} (f : A → B) (P : B → Type 0) (xs : List A)
    → All (λ x. P (f x)) xs
    → All P (map f xs)
All-map f P [] h = tt
All-map f P (x ∷ xs) h = (h.0, All-map f P xs h.1)

pub map-snoc :
    {A B : Type 0} (f : A → B) (xs : List A) (x : A) → map f (xs ++ x ∷ []) ≡ map f xs ++ f x ∷ []
map-snoc f [] x = refl
map-snoc f (y ∷ xs) x = ap (◌∷◌ (f y)) (map-snoc f xs x)

pub delete-map :
    {A B : Type 0} (f : A → B) (p : A → Bool) (q : B → Bool) (xs : List A)
    → All (λ x. q (f x) ≡ p x) xs
    → delete q (map f xs) ≡ map f (delete p xs)
unfolding delete
delete-map f p q [] h = refl
delete-map f p q (x ∷ xs) h = elim (Bool-cases (p x)) [
  | inl t ↦ rw (h.0, t) (delete-map f p q xs h.1)
  | inr t ↦ rw (h.0, t) (ap (◌∷◌ (f x)) (delete-map f p q xs h.1))
]

pub AllPairs-delete :
    {A : Type 0} (R : A → A → Type 0) (p : A → Bool) (xs : List A)
    → AllPairs R xs
    → AllPairs R (delete p xs)
unfolding delete
AllPairs-delete R p [] h = tt
AllPairs-delete R p (x ∷ xs) h = elim (Bool-cases (p x)) [
  | inl t ↦ rw t (AllPairs-delete R p xs h.1)
  | inr t ↦ rw t (All-delete (R x) p xs h.0, AllPairs-delete R p xs h.1)
]

pub length-delete_le : {A : Type 0} (p : A → Bool) (xs : List A) → length (delete p xs) ≤ length xs
unfolding delete
length-delete_le p [] = omega arith
length-delete_le p (x ∷ xs) = elim (Bool-cases (p x)) [
  | inl t ↦ rw t (omega (arith, length-delete_le p xs))
  | inr t ↦ rw t (omega (arith, length-delete_le p xs))
]

pub In-delete_elim :
    {A : Type 0} (p : A → Bool) (xs : List A) (x : A) → In x (delete p xs) → In x xs × (p x ≡ false)
unfolding delete
In-delete_elim p [] x i = absurd i
In-delete_elim p (y ∷ xs) x i = elim (Bool-cases (p y)) [
  | inl t ↦ let (j, f) = In-delete_elim p xs x (rw t at i) in (inr j, f)
  | inr t ↦
      let j : (y ≡ x) ⊎ In x (delete p xs) = rw t at i in
      elim j [
        | inl e ↦ (inl e, ap p (sym e) ∙ t)
        | inr l ↦ let (m, f) = In-delete_elim p xs x l in (inr m, f)
      ]
]

pub In-delete :
    {A : Type 0} (p : A → Bool) (xs : List A) (x : A) → p x ≡ false → In x xs → In x (delete p xs)
unfolding delete
In-delete p [] x f i = absurd i
In-delete p (y ∷ xs) x f (inl e) = rw (ap p e ∙ f) (inl e)
In-delete p (y ∷ xs) x f (inr i) = elim (Bool-cases (p y)) [
  | inl t ↦ rw t (In-delete p xs x f i)
  | inr t ↦ rw t (inr (In-delete p xs x f i))
]

-- Two members of a list whose members are apart are one, or apart.
pub AllPairs-In :
    {A : Type 0} (R : A → A → Type 0)
    → ((x y : A) → R x y → R y x)
    → (xs : List A) (x y : A) → AllPairs R xs
    → In x xs
    → In y xs
    → (x ≡ y) ⊎ R x y
AllPairs-In R flip [] x y h i j = absurd i
AllPairs-In R flip (z ∷ xs) x y h (inl e) (inl f) = inl (sym e ∙ f)
AllPairs-In R flip (z ∷ xs) x y h (inl e) (inr j) =
    inr (subst (λ u. R u y) e (In-All (R z) xs h.0 j))
AllPairs-In R flip (z ∷ xs) x y h (inr i) (inl f) =
    inr (flip y x (subst (λ u. R u x) f (In-All (R z) xs h.0 i)))
AllPairs-In R flip (z ∷ xs) x y h (inr i) (inr j) = AllPairs-In R flip xs x y h.1 i j

pub In-map : {A B : Type 0} (f : A → B) (xs : List A) (x : A) → In x xs → In (f x) (map f xs)
In-map f [] x i = absurd i
In-map f (y ∷ xs) x (inl e) = inl (ap f e)
In-map f (y ∷ xs) x (inr i) = inr (In-map f xs x i)

pub In-map_elim :
    {A B : Type 0} (f : A → B) (xs : List A) (y : B)
    → In y (map f xs)
    → (x : A) × In x xs × (f x ≡ y)
In-map_elim f [] y i = absurd i
In-map_elim f (x ∷ xs) y (inl e) = (x, inl refl, e)
In-map_elim f (x ∷ xs) y (inr i) = let (z, j, e) = In-map_elim f xs y i in (z, inr j, e)

-- A lookup by a test that one member alone meets finds that member.
pub find_unique :
    {A : Type 0} (p : A → Bool) (xs : List A) (x : A)
    → In x xs
    → p x ≡ true
    → ((y : A) → In y xs → p y ≡ true → y ≡ x)
    → find p xs ≡ some x
unfolding find
find_unique p [] x i t u = absurd i
find_unique p (y ∷ xs) x i t u = elim (Bool-cases (p y)) [
  | inl s ↦ rw s (ap some (u y (inl refl) s))
  | inr s ↦ rw s (find_unique p xs x (later i s) t (λ z j. u z (inr j)))
]
  where
    later : In x (y ∷ xs) → p y ≡ false → In x xs
    later (inl e) s = absurd (clash (sym t ∙ ap p (sym e) ∙ s))
      where
        clash : true ≡ false → ⊥
        clash e = cc
    later (inr j) s = j
