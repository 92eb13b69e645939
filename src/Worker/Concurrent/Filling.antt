-- ===== src/Worker/Concurrent/Filling.antt =====
-- How many attempts a turn of `_run_concurrent` of src/pq/worker.py makes.
use pq.Base.{
  if_both, if_either, ℕ, zero, suc, ◌+◌, ◌≤◌, ◌<◌, ◌≡◌, refl, Bool, true, false, ◌&&◌, not, Option,
  none, some, arith, length, ltb, if◌then◌else◌, Text,
}
use pq.Registry.{Import}
use pq.Serialization.{Codec}
use pq.Client.Schedule.{Cron}
use pq.Worker.Shutdown.{ShutdownState, requested, handle_all}
use pq.Worker.Slots.{ChildSlot, Host}
use pq.Worker.Slots.Launched.{IsFreshAttempt, HasLaunched, try_claim_and_fork-HasLaunched}
use pq.Worker.Concurrent.{Loop, Settings, Round, signalled, attempted, attempt_at, fill}
use pq.Worker.Concurrent.Children.{
  unforked-IsTracked, register-IsTracked, IsTracked, register-length,
}
use pq.Worker.Concurrent.Rounds.{shutdown-IsTracked}

-- An attempt that took a slot left one slot fewer.
abbrev Takes : Loop → Bool × Loop → Type 0
Takes st (true, st') = length st'.children ≡ suc (length st.children)
Takes st (false, st') = Unit

module _ (c : Codec) {F : Type 0} (importer : Text → Text → Import F) (cron : Cron)
    (settings : Settings) where
  attempted-IsTracked :
      (st : Loop) (x : Option ChildSlot × Host)
      → HasLaunched st.host.os x
      → length st.children < settings.concurrency
      → IsTracked settings.concurrency st
      → IsTracked settings.concurrency (attempted x st).1
  unfolding attempted
  attempted-IsTracked st (none, h) u free k = unforked-IsTracked settings.concurrency st h k u
  attempted-IsTracked st (some slot, h) f free k =
      register-IsTracked settings.concurrency st h k slot f free

  pub attempt_at-IsTracked :
      (r : Round) (i : ℕ) (st : Loop)
      → IsFreshAttempt (r.attempt i)
      → length st.children < settings.concurrency
      → IsTracked settings.concurrency st
      → IsTracked settings.concurrency (attempt_at c importer cron settings r i st).1
  unfolding attempt_at
  attempt_at-IsTracked r i st fresh free k =
      attempted-IsTracked st _
        (try_claim_and_fork-HasLaunched c importer cron settings.priorities settings.max_runtime
          (r.attempt i) st.host fresh)
        free k

  pub fill-IsTracked :
      (fuel : ℕ) (r : Round) (i : ℕ) (st : Loop)
      → ((j : ℕ) → IsFreshAttempt (r.attempt j))
      → IsTracked settings.concurrency st
      → IsTracked settings.concurrency (fill c importer cron settings fuel r i st)
  unfolding fill
  fill-IsTracked zero r i st fresh k = k
  fill-IsTracked (suc fuel) r i st fresh k =
      if_both (ltb (length st.children) settings.concurrency) (not (requested s))
        (IsTracked settings.concurrency)
        (λ room.
          if_either next.0 (IsTracked settings.concurrency)
            (fill-IsTracked fuel r (suc i) next.1 fresh (after room)) (after room))
        k'
    where
      s : ShutdownState
      s = handle_all (r.before_attempt i) st.shutdown

      st' : Loop
      st' = signalled (r.before_attempt i) st

      k' : IsTracked settings.concurrency st'
      k' = shutdown-IsTracked settings.concurrency st s k

      next : Bool × Loop
      next = attempt_at c importer cron settings r i st'

      after :
          ltb (length st.children) settings.concurrency ≡ true
          → IsTracked settings.concurrency next.1
      after room = attempt_at-IsTracked r i st' (fresh i) (ground arith) k'

  attempted-Takes :
      (st : Loop) (x : Option ChildSlot × Host)
      → HasLaunched st.host.os x
      → IsTracked settings.concurrency st
      → Takes st (attempted x st)
  unfolding attempted
  attempted-Takes st (none, h) u k = tt
  attempted-Takes st (some slot, h) f k = register-length settings.concurrency st h k slot f

  attempt_at-Takes :
      (r : Round) (i : ℕ) (st : Loop)
      → IsFreshAttempt (r.attempt i)
      → IsTracked settings.concurrency st
      → Takes st (attempt_at c importer cron settings r i st)
  unfolding attempt_at
  attempt_at-Takes r i st fresh k =
      attempted-Takes st _
        (try_claim_and_fork-HasLaunched c importer cron settings.priorities settings.max_runtime
          (r.attempt i) st.host fresh)
        k

  -- The lines of `fill` after a signal, for a pair of continuations that agree where there is room.
  same_fill :
      (room going : Bool) (st : Loop) (next : Bool × Loop) (f g : Loop → Loop)
      → (room ≡ true → next.0 ≡ true → f next.1 ≡ g next.1)
      → ◌≡◌ {A = Loop}
          (if room && going then if next.0 then f next.1 else next.1 else st)
          (if room && going then if next.0 then g next.1 else next.1 else st)
  same_fill false going st next f g h = refl
  same_fill true false st next f g h = refl
  same_fill true true st (false, u) f g h = refl
  same_fill true true st (true, u) f g h = h refl refl

  -- With more fuel than free slots, the attempts of a turn come to an end: more fuel changes nothing.
  pub fill_enough :
      (fuel more : ℕ) (r : Round) (i : ℕ) (st : Loop)
      → ((j : ℕ) → IsFreshAttempt (r.attempt j))
      → IsTracked settings.concurrency st
      → settings.concurrency < length st.children + fuel
      → fill c importer cron settings (fuel + more) r i st
        ≡ fill c importer cron settings fuel r i st
  unfolding fill
  fill_enough zero more r i st fresh k enough = absurd (full k.few)
    where
      full : length st.children ≤ settings.concurrency → ⊥
      full few = omega (arith, few, enough)
  fill_enough (suc fuel) more r i st fresh k enough = rw shift (
      same_fill (ltb (length st.children) settings.concurrency) (not (requested s)) st' next
        (fill c importer cron settings (fuel + more) r (suc i))
        (fill c importer cron settings fuel r (suc i))
        λ room taken.
          fill_enough fuel more r (suc i) next.1 fresh
            (attempt_at-IsTracked r i st' (fresh i) (ground arith) k')
            (left next taken (attempt_at-Takes r i st' (fresh i) k')))
    where
      shift : suc fuel + more ≡ suc (fuel + more)
      shift = omega arith

      s : ShutdownState
      s = handle_all (r.before_attempt i) st.shutdown

      st' : Loop
      st' = signalled (r.before_attempt i) st

      k' : IsTracked settings.concurrency st'
      k' = shutdown-IsTracked settings.concurrency st s k

      next : Bool × Loop
      next = attempt_at c importer cron settings r i st'

      left :
          (x : Bool × Loop)
          → x.0 ≡ true
          → Takes st' x
          → settings.concurrency < length x.1.children + fuel
      left (true, u) e t = omega (arith, t, enough)
      left (false, u) e t = cc
