-- ===== src/Errors.antt =====
-- The exceptions of the package as values, and computations that may raise.
-- A `ValueError` is known by the check that raised it; the wording of its message is left out.
use pq.Base.{ℕ, ◌≡◌, refl, ◌⊎◌, inl, inr, Bool, true, false}

pub data Reason : Type 0 where
  not_finite not_positive : Reason
  lambda_function closure no_import_path : Reason
  no_timing two_timings max_concurrent_above_one invalid_cron : Reason
  no_parked_version bad_drain_timeout : Reason
  invalid_path not_callable no_module no_function : Reason

pub data PyError : Type 0 where
  value_error : Reason → PyError
  attribute_error : PyError
  -- a dictionary has no such key
  key_error : PyError
  -- raised by code outside the repository
  other_error : ℕ → PyError
  -- a unique column received a value that another row holds
  integrity_error : PyError
  -- the database cannot be reached, or an execute or a commit failed
  operational_error : PyError

-- What a call comes to: the exception that leaves it, or its value.
pub data Result {ℓ} (A : Type ℓ) : Type ℓ where
  err : PyError → Result A
  ok : A → Result A

-- `if test: raise ValueError(reason)`
abbrev pub raise_if : Bool → Reason → Result (Unit {0})
raise_if false why = ok tt
raise_if true why = err (value_error why)

-- The next statement runs on the value of this one, unless this one raises.
infixl 5 ◌>>=◌
abbrev pub ◌>>=◌ {ℓ κ} :
    {X : Type ℓ} {Y : Type κ} (call : Result X) (rest : X → Result Y) → Result Y
err raised >>= rest = err raised
ok value >>= rest = rest value

infixl 5 ◌>>◌
abbrev pub ◌>>◌ {κ} : {Y : Type κ} (test : Result (Unit {0})) (rest : Result Y) → Result Y
test >> rest = test >>= λ done. rest

-- Statements that return have each returned.
pub >>=-eq-ok {ℓ κ} :
    {X : Type ℓ} {Y : Type κ} (call : Result X) (rest : X → Result Y) {y : Y}
    → (call >>= rest) ≡ ok y
    → (x : X) × (call ≡ ok x) × (rest x ≡ ok y)
>>=-eq-ok (err raised) rest returned = cc
>>=-eq-ok (ok value) rest returned = (value, refl, returned)

pub Result-cases {ℓ} :
    {X : Type ℓ} (call : Result X) → ((e : PyError) × (call ≡ err e)) ⊎ ((x : X) × (call ≡ ok x))
Result-cases (err e) = inl (e, refl)
Result-cases (ok x) = inr (x, refl)
