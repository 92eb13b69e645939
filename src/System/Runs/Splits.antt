-- ===== src/System/Runs/Splits.antt =====
-- Taking one run out of the list of runs.
use pq.Base.{List, [], ◌∷◌, ◌++◌, All}
use pq.Database.Consistent.{AllPairs}

module _ {A : Type 0} where
  pub All-drop {κ} :
      (P : A → Type κ) (before after : List A) (r : A)
      → All P (before ++ r ∷ after)
      → All P (before ++ after)
  All-drop P [] after r h = h.1
  All-drop P (x ∷ before) after r h = (h.0, All-drop P before after r h.1)

  pub All_at {κ} :
      (P : A → Type κ) (before after : List A) (r : A) → All P (before ++ r ∷ after) → P r
  All_at P [] after r h = h.0
  All_at P (x ∷ before) after r h = All_at P before after r h.1

  pub AllPairs-drop {κ} :
      (R : A → A → Type κ) (before after : List A) (r : A)
      → AllPairs R (before ++ r ∷ after)
      → AllPairs R (before ++ after)
  AllPairs-drop R [] after r h = h.1
  AllPairs-drop R (x ∷ before) after r h =
      (All-drop (R x) before after r h.0, AllPairs-drop R before after r h.1)

  -- In a symmetric relation the one that is taken out is related to all that stay.
  pub AllPairs-at {κ} :
      (R : A → A → Type κ)
      → ((x y : A) → R x y → R y x)
      → (before after : List A) (r : A) → AllPairs R (before ++ r ∷ after)
      → All (R r) (before ++ after)
  AllPairs-at R flip [] after r h = h.0
  AllPairs-at R flip (x ∷ before) after r h =
      (flip x r (All_at (R x) before after r h.0), AllPairs-at R flip before after r h.1)
