-- ===== src/Worker/Query.antt =====
-- `ORDER BY priority DESC, instant LIMIT 1 FOR UPDATE SKIP LOCKED` of the claims in
-- src/pq/worker.py, for either table, and the filter by priorities.
use pq.Base.{
  ℕ, ◌≤◌, ◌<◌, ◌⊎◌, ltb, ◌==◌, ◌≡◌, refl, inl, inr, Bool, true, false, ◌&&◌, ◌||◌, Option, none,
  some, List, [], ◌∷◌, map, arith, All, All-mono, In, Option-cases, Bool-cases, subst,
  if◌then◌else◌,
}
use pq.Models.{Priority, priority_value}
use pq.Database.{elem}

-- `if priorities: … in_([p.value for p in priorities])`: an empty set filters nothing.
unfoldable pub wanted : Option (List Priority) → ℕ → Bool
unfolding elem
wanted none n = true
wanted (some []) n = true
wanted (some (p ∷ ps)) n = elem n (map priority_value (p ∷ ps))

module _ {A : Type 0} (priority instant : A → ℕ) where
  unfoldable pub comes_before : A → A → Bool
  comes_before t u =
      ltb (priority u) (priority t) || (priority t == priority u && ltb (instant t) (instant u))

  -- Among equals, which the query leaves open, the first of the scan.
  first_of_two : A → Option A → A
  first_of_two t none = t
  first_of_two t (some u) = if comes_before u t then u else t

  unfoldable pub first_row : List A → Option A
  unfolding first_of_two
  first_row [] = none
  first_row (t ∷ ts) = some (first_of_two t (first_row ts))

  comes_before_irrefl : (t : A) → comes_before t t ≡ false
  unfolding comes_before
  comes_before_irrefl t = ground arith

  comes_before_asym : (t u : A) → comes_before t u ≡ true → comes_before u t ≡ false
  unfolding comes_before
  comes_before_asym t u h = ground arith

  not-comes_before_trans :
      (t u v : A) → comes_before t u ≡ false → comes_before u v ≡ false → comes_before t v ≡ false
  unfolding comes_before
  not-comes_before_trans t u v h k = ground arith

  pub first_row-none : (ts : List A) → first_row ts ≡ none → ts ≡ []
  unfolding first_row
  first_row-none [] e = refl
  first_row-none (x ∷ ts) e = cc

  abbrev pub Best : List A → A → Type 0
  Best ts t = In t ts × All (λ u. comes_before u t ≡ false) ts

  -- No row of the list comes before the one that is returned, which is one of them.
  pub first_row-Best : (ts : List A) (t : A) → first_row ts ≡ some t → Best ts t
  unfolding first_row
  first_row-Best [] t e = cc
  first_row-Best (x ∷ ts) t e = elim (Option-cases (first_row ts)) [
    | inl gone ↦
        let s : x ≡ t = ground arith in
        subst (Best (x ∷ ts)) s (inl refl, (comes_before_irrefl x, rw (first_row-none ts gone) tt))
    | inr (u, rest) ↦
        let (i, best) = first_row-Best ts u rest in
        elim (Bool-cases (comes_before u x)) [
          | inl later ↦
              let s : u ≡ t = ground arith in
              subst (Best (x ∷ ts)) s (inr i, (comes_before_asym u x later, best))
          | inr first ↦
              let s : x ≡ t = ground arith in
              subst (Best (x ∷ ts)) s (
                inl refl,
                (
                  comes_before_irrefl x,
                  All-mono _ _ (λ v h. not-comes_before_trans v u x h first) ts best,
                ),
              )
        ]
  ]

  -- One of the rows, none of which has a higher priority, and of the rows of its priority none an
  -- earlier instant.
  abbrev pub IsFirst : List A → A → Type 0
  IsFirst ts t =
      In t ts
      × All (λ u. (priority u < priority t) ⊎ ((priority u ≡ priority t) × (instant t ≤ instant u)))
          ts

  not-comes_before-order :
      (t u : A)
      → comes_before u t ≡ false
      → (priority u < priority t) ⊎ ((priority u ≡ priority t) × (instant t ≤ instant u))
  unfolding comes_before
  not-comes_before-order t u h = ground arith

  pub first_row-IsFirst : (ts : List A) (t : A) → first_row ts ≡ some t → IsFirst ts t
  first_row-IsFirst ts t e =
      let (i, best) = first_row-Best ts t e in
      (i, All-mono _ _ (λ u h. not-comes_before-order t u h) ts best)
