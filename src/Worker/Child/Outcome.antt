-- ===== src/Worker/Child/Outcome.antt =====
-- The two readings of a child's end, by the sequential and by the concurrent worker of
-- src/pq/worker.py.
use pq.Base.{
  ℕ, ◌≡◌, ◌≢◌, ◌⊎◌, inl, inr, refl, Bool, true, false, some, [], ◌∷◌, ◌++◌, Text, arith, ◌&&◌,
  if◌then◌else◌, ◌==◌,
}
use pq.Models.{failed, message}
use pq.Worker.Child.{
  sigkill, exit_success, exit_timeout, ChildResult, error, signal_result, exit_result, raise_kind,
  or_default, WaitStatus, signaled, exited, other_status, child_result, raised_of, recorded,
  slot_recorded, rstrip, is_space, strip_step, error_result,
}

-- A text with a character that is no whitespace keeps it.
pub rstrip-append_ne_nil :
    (s : Text) (c : ℕ) (t : Text) → is_space c ≡ false → rstrip (s ++ c ∷ t) ≢ []
unfolding rstrip strip_step
rstrip-append_ne_nil [] c t h = keeps (rstrip t)
  where
    keeps : (r : Text) → strip_step c r ≢ []
    keeps [] e = ground arith
    keeps (d ∷ r) e = ground arith
rstrip-append_ne_nil (x ∷ s) c t h = keeps (rstrip (s ++ c ∷ t)) (rstrip-append_ne_nil s c t h)
  where
    keeps : (r : Text) → r ≢ [] → strip_step x r ≢ []
    keeps [] n e = absurd (n refl)
    keeps (d ∷ r) n e = ground arith

-- The text of the error pipe is empty, or has more than whitespace.
abbrev pub IsTelling : Text → Type 0
IsTelling t = (t ≡ []) ⊎ (rstrip t ≢ [])

module _ (elapsed : ℕ) where
  -- The two readings of one child's end agree.
  abbrev Agrees : ChildResult → Type 0
  Agrees r = slot_recorded elapsed r ≡ recorded elapsed (raised_of r)

  message-Agrees :
      (t : Text)
      → rstrip t ≢ []
      → Agrees
          record { task_status = failed; error_msg = some (message (rstrip t)); exit_kind = error }
  unfolding slot_recorded recorded raised_of raise_kind or_default
  message-Agrees t h = by_text (rstrip t) h
    where
      by_text :
          (r : Text)
          → r ≢ []
          → Agrees record { task_status = failed; error_msg = some (message r); exit_kind = error }
      by_text [] n = absurd (n refl)
      by_text (c ∷ r) n = refl

-- A property of both branches is one of the test.
if-either {ℓ ℓ'} :
    {A : Type ℓ} (P : A → Type ℓ') (b : Bool) {x y : A} → P x → P y → P (if b then x else y)
if-either P true px py = px
if-either P false px py = py

module _ (killed_by_drain : Bool) (drain_timeout max_rss : ℕ) (is_darwin : Bool) where
  signal-Agrees :
      (elapsed n : ℕ)
      → Agrees elapsed (signal_result killed_by_drain drain_timeout max_rss is_darwin n)
  unfolding signal_result slot_recorded recorded raised_of raise_kind or_default
  signal-Agrees elapsed n =
      if-either (Agrees elapsed) (killed_by_drain && n == sigkill) refl
        (if-either (Agrees elapsed) (n == sigkill) refl refl)

  exit-Agrees :
      (elapsed n : ℕ) (pipe : Text)
      → IsTelling pipe
      → Agrees elapsed (exit_result killed_by_drain drain_timeout max_rss is_darwin n pipe)
  unfolding exit_result error_result slot_recorded recorded raised_of raise_kind or_default
  exit-Agrees elapsed n pipe h =
      if-either (Agrees elapsed) (n == exit_success) refl
        (if-either (Agrees elapsed) (n == exit_timeout) refl (told pipe h))
    where
      told :
          (t : Text)
          → IsTelling t
          → Agrees elapsed (error_result killed_by_drain drain_timeout max_rss is_darwin n t)
      told [] k = refl
      told (c ∷ t) (inl e) = ground arith
      told (c ∷ t) (inr k) = message-Agrees elapsed (c ∷ t) k

  -- The worker records one status and one message of a child's end, whether it waits for the child
  -- at once or keeps it in a slot, where the error pipe is empty or has more than whitespace.
  pub slot_recorded-eq-recorded :
      (elapsed : ℕ) (status : WaitStatus) (pipe : Text)
      → IsTelling pipe
      → slot_recorded elapsed
          (child_result killed_by_drain drain_timeout max_rss is_darwin status pipe)
        ≡ recorded elapsed
            (raised_of (child_result killed_by_drain drain_timeout max_rss is_darwin status pipe))
  unfolding slot_recorded recorded raised_of raise_kind or_default child_result
  slot_recorded-eq-recorded elapsed (signaled n) pipe h = signal-Agrees elapsed n
  slot_recorded-eq-recorded elapsed (exited n) pipe h = exit-Agrees elapsed n pipe h
  slot_recorded-eq-recorded elapsed other_status pipe h = refl
