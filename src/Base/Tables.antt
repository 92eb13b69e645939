-- ===== src/Base/Tables.antt =====
-- How SELECT, UPDATE, INSERT and DELETE with one test meet one another.
use mathlib.Core.Path.{◌≡◌, refl, ap}
use mathlib.Core.Logic.{inl, inr}
use mathlib.Core.Bool.{Bool, true}
use mathlib.Core.List.{List, [], ◌∷◌, ◌++◌}
use mathlib.Core.Option.{none, some}
use native.Mathlib.Omega.{arith}
use pq.Base.Tests.{Bool-cases}
use pq.Base.Lists.{update, find, delete}

module _ {A : Type 0} (p : A → Bool) where
  -- An update that keeps its own test.
  module _ (f : A → A) (keep : (x : A) → p x ≡ true → p (f x) ≡ true) where
    pub find-update-some :
        (xs : List A) {x : A} → find p xs ≡ some x → find p (update p f xs) ≡ some (f x)
    unfolding find update
    find-update-some [] e = cc
    find-update-some (y ∷ xs) {x} e = elim (Bool-cases (p y)) [
      | inl t ↦ let s : y ≡ x = ground arith in rw (t, keep y t) (ap (λ z. some (f z)) s)
      | inr t ↦ rw (t, t) (find-update-some xs {x = x} (rw t at e))
    ]

    pub delete-update : (xs : List A) → delete p (update p f xs) ≡ delete p xs
    unfolding delete update
    delete-update [] = refl
    delete-update (y ∷ xs) = elim (Bool-cases (p y)) [
      | inl t ↦ rw (t, keep y t) (delete-update xs)
      | inr t ↦ rw (t, t) (ap (◌∷◌ y) (delete-update xs))
    ]

  pub find-append_none :
      (xs : List A) (y : A) → find p xs ≡ none → p y ≡ true → find p (xs ++ y ∷ []) ≡ some y
  unfolding find
  find-append_none [] y e t = rw t
  find-append_none (x ∷ xs) y e t = elim (Bool-cases (p x)) [
    | inl s ↦ cc (rw s at e)
    | inr s ↦ rw s (find-append_none xs y (rw s at e) t)
  ]

  pub delete-append : (xs : List A) (y : A) → p y ≡ true → delete p (xs ++ y ∷ []) ≡ delete p xs
  unfolding delete
  delete-append [] y t = rw t
  delete-append (x ∷ xs) y t = elim (Bool-cases (p x)) [
    | inl s ↦ rw s (delete-append xs y t)
    | inr s ↦ rw s (ap (◌∷◌ x) (delete-append xs y t))
  ]

  pub find-delete : (xs : List A) → find p (delete p xs) ≡ none
  unfolding find delete
  find-delete [] = refl
  find-delete (x ∷ xs) = elim (Bool-cases (p x)) [
    | inl s ↦ rw s (find-delete xs)
    | inr s ↦ rw (s, s) (find-delete xs)
  ]
