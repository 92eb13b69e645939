-- ===== src/Base/Members.antt =====
-- Membership in a table, as a predicate by recursion, and how look-ups and updates meet it.
use mathlib.Core.Path.{◌≡◌, refl}
use mathlib.Core.Logic.{◌⊎◌, inl, inr}
use mathlib.Core.Bool.{Bool, true, false}
use mathlib.Core.List.{List, [], ◌∷◌}
use mathlib.Core.Option.{none, some}
use native.Mathlib.Omega.{arith}
use pq.Base.Tests.{Bool-cases}
use pq.Base.Lists.{All, update, select, find}

module _ {A : Type 0} where
  abbrev pub In : A → List A → Type 0
  In x [] = ⊥
  In x (y ∷ ys) = (y ≡ x) ⊎ In x ys

  pub In-find : (p : A → Bool) (xs : List A) {x : A} → find p xs ≡ some x → In x xs × (p x ≡ true)
  unfolding find
  In-find p [] e = cc
  In-find p (y ∷ xs) {x} e = elim (Bool-cases (p y)) [
    | inl t ↦ let s : y ≡ x = ground arith in (inl s, cc)
    | inr t ↦ let (i, h) = In-find p xs {x = x} (rw t at e) in (inr i, h)
  ]

  pub In-select : (p : A → Bool) (xs : List A) {x : A} → In x (select p xs) → In x xs × (p x ≡ true)
  unfolding select
  In-select p [] i = absurd i
  In-select p (y ∷ xs) {x} i = elim (Bool-cases (p y)) [
    | inl t ↦
        let j : (y ≡ x) ⊎ In x (select p xs) = rw t at i in
        elim j [ inl s ↦ (inl s, cc) | inr k ↦ let (l, h) = In-select p xs {x = x} k in (inr l, h) ]
    | inr t ↦ let (j, h) = In-select p xs {x = x} (rw t at i) in (inr j, h)
  ]

  pub All-of_In {κ} : {P : A → Type κ} (xs : List A) → ((x : A) → In x xs → P x) → All P xs
  All-of_In [] f = tt
  All-of_In (x ∷ xs) f = (f x (inl refl), All-of_In xs (λ y i. f y (inr i)))

  pub In-All {κ} : (P : A → Type κ) (xs : List A) {x : A} → All P xs → In x xs → P x
  In-All P [] h i = absurd i
  In-All P (y ∷ xs) h (inl e) = rw (← e) h.0
  In-All P (y ∷ xs) h (inr i) = In-All P xs h.1 i

  pub find-none-All : (p : A → Bool) (xs : List A) → find p xs ≡ none → All (λ x. p x ≡ false) xs
  unfolding find
  find-none-All p [] e = tt
  find-none-All p (y ∷ xs) e = elim (Bool-cases (p y)) [
    | inl t ↦ cc (rw t at e)
    | inr t ↦ (t, find-none-All p xs (rw t at e))
  ]

  -- An update whose test no row meets changes nothing.
  pub update_none :
      (p : A → Bool) (f : A → A) (xs : List A) → All (λ x. p x ≡ false) xs → update p f xs ≡ xs
  unfolding update
  update_none p f [] h = refl
  update_none p f (x ∷ xs) h = rw (h.0, update_none p f xs h.1)

  -- Two updates with one test that agree where it holds are the same.
  pub update-ext :
      (p q : A → Bool) (f g : A → A) (xs : List A)
      → All (λ x. (p x ≡ q x) × (p x ≡ true → f x ≡ g x)) xs
      → update p f xs ≡ update q g xs
  unfolding update
  update-ext p q f g [] h = refl
  update-ext p q f g (x ∷ xs) h = elim (Bool-cases (p x)) [
    | inl t ↦ rw (← h.0.0, t, h.0.1 t, update-ext p q f g xs h.1)
    | inr t ↦ rw (← h.0.0, t, update-ext p q f g xs h.1)
  ]

module _ {κ} {A : Type 0} (P : A → Type κ) where
  pub All-update_on :
      (p : A → Bool) (f : A → A) (xs : List A)
      → All (λ x. p x ≡ true → P x → P (f x)) xs
      → All P xs
      → All P (update p f xs)
  unfolding update
  All-update_on p f [] k h = tt
  All-update_on p f (x ∷ xs) k h = elim (Bool-cases (p x)) [
    | inl e ↦ rw e (k.0 e h.0, All-update_on p f xs k.1 h.1)
    | inr e ↦ rw e (h.0, All-update_on p f xs k.1 h.1)
  ]

  pub All-update_split :
      (p : A → Bool) (f : A → A) (xs : List A)
      → ((x : A) → In x xs → p x ≡ true → P (f x))
      → ((x : A) → In x xs → p x ≡ false → P x)
      → All P (update p f xs)
  unfolding update
  All-update_split p f [] k l = tt
  All-update_split p f (x ∷ xs) k l =
      let rest = All-update_split p f xs (λ y i. k y (inr i)) (λ y i. l y (inr i)) in
      elim (Bool-cases (p x)) [
        | inl e ↦ rw e (k x (inl refl) e, rest)
        | inr e ↦ rw e (l x (inl refl) e, rest)
      ]
