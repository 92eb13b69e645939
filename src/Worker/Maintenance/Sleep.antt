-- ===== src/Worker/Maintenance/Sleep.antt =====
-- How long `_interruptible_sleep` of src/pq/worker.py sleeps.
use pq.Base.{
  ℕ, zero, suc, ◌+◌, ◌-◌, ◌*◌, ◌≤◌, ◌<◌, ◌≡◌, refl, leb, some, List, [], ◌∷◌, arith, length,
  Bool-cases, inl, inr,
}
use pq.Worker.Shutdown.{ShutdownState, requested, handle_all}
use pq.Worker.Maintenance.{Tick, nap, sleep_until}

-- `time.sleep` sleeps no less than it is told: the looks at the clock are a nap apart.
abbrev pub SleepsEnough : ℕ → List Tick → Type 0
SleepsEnough deadline [] = Unit
SleepsEnough deadline (t ∷ []) = Unit
SleepsEnough deadline (t ∷ u ∷ ts) =
    (t.now + nap (deadline - t.now) ≤ u.now) × SleepsEnough deadline (u ∷ ts)

-- The clock of the first look is within so many naps of the deadline.
abbrev pub IsWithin : ℕ → ℕ → List Tick → Type 0
IsWithin deadline n [] = Unit
IsWithin deadline n (t ∷ ts) = deadline ≤ t.now + n * 100000

ends_now :
    (deadline : ℕ) (t : Tick) (ts : List Tick) (s : ShutdownState)
    → deadline ≤ t.now
    → (s' : ShutdownState) × (sleep_until deadline (t ∷ ts) s ≡ some s')
unfolding sleep_until
ends_now deadline t ts s d = (handle_all t.arrivals s, ground arith)

-- A look that does not end the sleep leaves the rest of it.
goes_on :
    (deadline : ℕ) (t : Tick) (ts : List Tick) (s : ShutdownState)
    → (s' : ShutdownState) × (sleep_until deadline ts (handle_all t.arrivals s) ≡ some s')
    → (s' : ShutdownState) × (sleep_until deadline (t ∷ ts) s ≡ some s')
unfolding sleep_until
goes_on deadline t ts s (s', e) = elim (Bool-cases (requested (handle_all t.arrivals s))) [
  | inl r ↦ (handle_all t.arrivals s, rw r refl)
  | inr q ↦ elim (Bool-cases (leb deadline t.now)) [
    | inl d ↦ (handle_all t.arrivals s, rw (q, d) refl)
    | inr d ↦ (s', rw (q, d) e)
  ]
]

nap_within :
    (deadline now later n : ℕ)
    → deadline ≤ now + suc n * 100000
    → now + nap (deadline - now) ≤ later
    → deadline ≤ later + n * 100000
unfolding nap
nap_within deadline now later n w h = ground arith

-- Where each nap takes its time, a sleep whose end is `n` naps of a tenth of a second away is over
-- after n + 1 looks at the clock, whatever signals arrive.
pub sleep_until_total :
    (deadline n : ℕ) (ts : List Tick) (s : ShutdownState)
    → SleepsEnough deadline ts
    → IsWithin deadline n ts
    → n < length ts
    → (s' : ShutdownState) × (sleep_until deadline ts s ≡ some s')
sleep_until_total deadline n [] s a w l = absurd (omega (arith, l))
sleep_until_total deadline n (t ∷ []) s a w l = ends_now deadline t [] s (omega (arith, w, l))
sleep_until_total deadline zero (t ∷ u ∷ us) s a w l =
    ends_now deadline t (u ∷ us) s (omega (arith, w))
sleep_until_total deadline (suc n) (t ∷ u ∷ us) s a w l = goes_on deadline t (u ∷ us) s (
    sleep_until_total deadline n (u ∷ us) (handle_all t.arrivals s) a.1
      (nap_within deadline t.now u.now n w a.0) (omega (arith, l)))
