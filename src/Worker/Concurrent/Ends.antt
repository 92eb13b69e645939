-- ===== src/Worker/Concurrent/Ends.antt =====
-- The shutdown of `_run_concurrent` of src/pq/worker.py: what a signal makes of the loop.
use pq.Base.{
  if_either, All, ℕ, zero, suc, ◌≡◌, refl, Bool, true, false, ◌&&◌, not, List, [], ◌∷◌, In, inl,
  inr, Bool-cases, if◌then◌else◌, subst, sym, Text,
}
use pq.Registry.{Import}
use pq.Serialization.{Codec}
use pq.Client.Schedule.{Cron}
use pq.Worker.Shutdown.{ShutdownState, requested, Arrivals, handle_all, handle_shutdown_signal}
use pq.Worker.Concurrent.{
  finish_turn, Loop, Settings, Round, signalled, drain, ended, fill, turn, run_rounds,
}
use pq.Worker.Shutdown.Signals.{handle_all-requested, requested-handle_all}
use pq.Worker.Concurrent.Complete.{
  IsComplete, HasRun, and_then-HasRun, wait_for_events-HasRun, finish_turn-HasRun, drain-HasRun,
  HasEnded, ended-HasEnded, after_turn-HasEnded,
}

abbrev pub HasSignal : Arrivals → Type 0
HasSignal [] = ⊥
HasSignal (a ∷ later) = Unit

handle-requested :
    (now signum : ℕ) (s : ShutdownState) → requested (handle_shutdown_signal now signum s) ≡ true
unfolding handle_shutdown_signal requested
handle-requested now signum s = elim (Bool-cases (requested s)) [
  | inl e ↦ rw e e
  | inr e ↦ rw e refl
]

pub signal-requested :
    (arrivals : Arrivals) (s : ShutdownState)
    → HasSignal arrivals
    → requested (handle_all arrivals s) ≡ true
unfolding handle_all
signal-requested [] s h = absurd h
signal-requested (a ∷ later) s h =
    requested-handle_all later (handle_shutdown_signal a.0 a.1 s) (handle-requested a.0 a.1 s)

never : {A : Type 0} (b : Bool) (x y : A) → (if b && not true then x else y) ≡ y
never true x y = refl
never false x y = refl

module _ (c : Codec) {F : Type 0} (importer : Text → Text → Import F) (cron : Cron)
    (settings : Settings) where
  -- After a request the loop claims nothing more.
  pub fill-requested :
      (fuel : ℕ) (r : Round) (i : ℕ) (st : Loop)
      → requested st.shutdown ≡ true
      → fill c importer cron settings fuel r i st ≡ st
  unfolding fill
  fill-requested zero r i st q = refl
  fill-requested (suc fuel) r i st q =
      rw (handle_all-requested (r.before_attempt i) st.shutdown q, q) (never _ _ _)

  module _ (decode : List ℕ → Text) (is_darwin : Bool) where
    turn-HasRun :
        (r : Round) (st : Loop)
        → IsComplete settings.poll_interval r
        → HasRun (turn c importer cron settings decode is_darwin r st)
    unfolding turn
    turn-HasRun r st complete =
        and_then-HasRun _ (finish_turn settings r)
          (wait_for_events-HasRun decode is_darwin settings.poll_interval r complete _)
          (finish_turn-HasRun settings r)

    drained :
        (r : Round) (st : Loop)
        → IsComplete settings.poll_interval r
        → HasEnded (ended (drain decode is_darwin r (signalled r.at_start st)))
    drained r st complete =
        ended-HasEnded _ (
          drain-HasRun decode is_darwin settings.poll_interval r complete (signalled r.at_start st))

    pub run_rounds-HasEnded :
        (rs : List Round) (r : Round) (st : Loop)
        → All (IsComplete settings.poll_interval) rs
        → In r rs
        → HasSignal r.at_start
        → HasEnded (run_rounds c importer cron settings decode is_darwin rs st)
    unfolding run_rounds
    run_rounds-HasEnded [] r st complete i h = absurd i
    run_rounds-HasEnded (x ∷ rs) r st complete (inl e) h =
        rw
          (signal-requested x.at_start st.shutdown
            (subst (λ (y : Round). HasSignal y.at_start) (sym e) h))
          (drained x st complete.0)
    run_rounds-HasEnded (x ∷ rs) r st complete (inr i) h =
        if_either (requested (handle_all x.at_start st.shutdown)) HasEnded (drained x st complete.0)
          (after_turn-HasEnded
            (turn c importer cron settings decode is_darwin x (signalled x.at_start st))
            (run_rounds c importer cron settings decode is_darwin rs) (turn-HasRun x _ complete.0)
            (λ u. run_rounds-HasEnded rs r u complete.1 i h))
