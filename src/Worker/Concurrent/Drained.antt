-- ===== src/Worker/Concurrent/Drained.antt =====
-- How `_run_concurrent` of src/pq/worker.py ends.
use pq.Base.{
  if_either, ℕ, ◌≡◌, refl, inl, inr, Bool, false, List, [], ◌∷◌, All, arith, map, delete, sym, ap,
  subst, ◌==◌, Text,
}
use pq.Errors.{PyError}
use pq.Registry.{Import}
use pq.Serialization.{Codec}
use pq.Client.Schedule.{Cron}
use pq.Worker.Wait.{Waited, blocks, throws, gives, wait_for_child}
use pq.Worker.Shutdown.{ShutdownState, requested, log_request, handle_all}
use pq.Worker.Maintenance.Failures.{IsCleanupError}
use pq.Worker.Slots.{ChildSlot, Os, Host, after_wait, reap_and_update}
use pq.Worker.Slots.Launched.{IsFreshAttempt, Includes}
use pq.Worker.Concurrent.{
  Loop, Settings, Round, Flow, waits, raises, goes_on, signalled, after_reaping, reaped,
  drain_slots, drain, Ending, running, stopped, raised, waiting, ended, after_turn, run_rounds,
}
use pq.Worker.Concurrent.Children.{pid_of, IsTracked}
use pq.Worker.Concurrent.Lists.{In-delete_elim}
use pq.Worker.Concurrent.Rounds.{
  FlowKeeps, and_then-FlowKeeps, shutdown-IsTracked, after_wait-os, after_wait-answered,
  RoundIsAnswered,
}
use pq.Worker.Concurrent.Turns.{TurnKeeps, turn-TurnKeeps}

abbrev IsDrained : Loop → Type 0
IsDrained st = st.host.os.processes ≡ []

none_left : (ns : List ℕ) → Includes ns [] → ns ≡ []
none_left [] h = refl
none_left (n ∷ ns) h = absurd (h n (inl refl))

-- Waiting for the first slot's child leaves the children of the others.
others_left :
    (slot : ChildSlot) (slots : List ChildSlot) (ns : List ℕ)
    → Includes ns (map pid_of (slot ∷ slots))
    → Includes (delete (λ pid. pid == slot.pid) ns) (map pid_of slots)
others_left slot slots ns h n i =
    let (j, f) = In-delete_elim (λ pid. pid == slot.pid) ns n i in
    elim (h n j) [ inl e ↦ absurd (same (sym e) f) | inr k ↦ k ]
  where
    same : n ≡ slot.pid → (n == slot.pid) ≡ false → ⊥
    same e f = ground arith

module _ (decode : List ℕ → Text) (is_darwin : Bool) (r : Round) (quiet : RoundIsAnswered r) where
  reaped-left :
      (slot : ChildSlot) (slots : List ChildSlot) (st : Loop)
      → Includes st.host.os.processes (map pid_of (slot ∷ slots))
      → FlowKeeps
          (λ st'. Includes st'.host.os.processes (map pid_of slots))
          (reaped decode is_darwin r slot st)
  unfolding reaped reap_and_update
  reaped-left slot slots st h =
      after
        (after_wait (r.reaping slot.pid) slot st.host (
          wait_for_child decode is_darwin (r.reaping slot.pid).polls (r.reaping slot.pid).rest
            st.shutdown))
        (λ h s e.
          ap (λ (u : Os). u.processes)
            (after_wait-os decode is_darwin r 0 quiet (r.reaping slot.pid) slot st.host h s _ e))
        (λ e s.
          after_wait-answered decode is_darwin r 0 quiet (r.reaping slot.pid) slot st.host
            st.shutdown e s (quiet.reaps slot.pid))
    where
      after :
          (o : Waited (Host × ShutdownState))
          → ((h : Host) (s : ShutdownState)
              → o ≡ gives (h, s)
              → h.os.processes ≡ delete (λ pid. pid == slot.pid) st.host.os.processes)
          → ((e : PyError) (s : ShutdownState) → o ≡ throws e s → ⊥)
          → FlowKeeps
              (λ st'. Includes st'.host.os.processes (map pid_of slots))
              (after_reaping decode is_darwin r st o)
      after blocks f g = tt
      after (throws e s) f g = absurd (g e s refl)
      after (gives (h', s)) f g =
          subst (λ ns. Includes ns (map pid_of slots)) (sym (f h' s refl))
            (others_left slot slots st.host.os.processes h)

  drain_slots-FlowKeeps :
      (slots : List ChildSlot) (st : Loop)
      → Includes st.host.os.processes (map pid_of slots)
      → FlowKeeps IsDrained (drain_slots decode is_darwin r slots st)
  unfolding drain_slots
  drain_slots-FlowKeeps [] st h = none_left st.host.os.processes h
  drain_slots-FlowKeeps (slot ∷ slots) st h =
      and_then-FlowKeeps _ IsDrained (reaped decode is_darwin r slot st)
        (drain_slots decode is_darwin r slots) (reaped-left slot slots st h)
        (drain_slots-FlowKeeps slots)

  drain-FlowKeeps :
      (concurrency : ℕ) (st : Loop)
      → IsTracked concurrency st
      → FlowKeeps IsDrained (drain decode is_darwin r st)
  unfolding drain
  drain-FlowKeeps concurrency st k =
      drain_slots-FlowKeeps st.children (record st { shutdown = log_request st.shutdown })
        (subst (Includes st.host.os.processes) k.unwaited (λ n i. i))

-- Where the call ends or stands: the dictionaries hold the children that were not waited for, no
-- more of them than the limit; after the drain none is left; an exception is a failed cleanup's.
abbrev pub KeepsChildren : ℕ → Ending → Type 0
KeepsChildren concurrency (running st) = IsTracked concurrency st
KeepsChildren concurrency (stopped st) = IsDrained st
KeepsChildren concurrency (raised e st) = IsCleanupError e × IsTracked concurrency st
KeepsChildren concurrency waiting = Unit

ended-KeepsChildren :
    (concurrency : ℕ) (x : Flow) → FlowKeeps IsDrained x → KeepsChildren concurrency (ended x)
unfolding ended
ended-KeepsChildren concurrency waits h = tt
ended-KeepsChildren concurrency (raises e st) h = absurd h
ended-KeepsChildren concurrency (goes_on st) h = h

pub after_turn-KeepsChildren :
    (concurrency : ℕ) (x : Flow) (f : Loop → Ending)
    → TurnKeeps (IsTracked concurrency) x
    → ((st : Loop) → IsTracked concurrency st → KeepsChildren concurrency (f st))
    → KeepsChildren concurrency (after_turn x f)
unfolding after_turn
after_turn-KeepsChildren concurrency waits f h k = tt
after_turn-KeepsChildren concurrency (raises e st) f h k = h
after_turn-KeepsChildren concurrency (goes_on st) f h k = k st h

abbrev pub IsFreshRound : Round → Type 0
IsFreshRound r = (i : ℕ) → IsFreshAttempt (r.attempt i)

-- Where the kernel gives new pids and descriptors, and `select` and `os.wait4` do not raise, through
-- any rounds of signals, claims, forks, exits and failures: the dictionaries hold exactly the children that the worker forked and did not
-- wait for, at most `concurrency`, under different pids and open descriptors; no lookup in them
-- fails, and only a failed cleanup's exception leaves the loop; the drain leaves no child unwaited.
pub run_rounds-KeepsChildren :
    (c : Codec) {F : Type 0} (importer : Text → Text → Import F) (cron : Cron) (settings : Settings)
    (decode : List ℕ → Text) (is_darwin : Bool) (rs : List Round) (st : Loop)
    → All IsFreshRound rs
    → All RoundIsAnswered rs
    → IsTracked settings.concurrency st
    → KeepsChildren settings.concurrency
        (run_rounds c importer cron settings decode is_darwin rs st)
unfolding run_rounds
run_rounds-KeepsChildren c importer cron settings decode is_darwin [] st fresh quiet k = k
run_rounds-KeepsChildren c importer cron settings decode is_darwin (r ∷ rs) st fresh quiet k =
    if_either (requested s) (KeepsChildren settings.concurrency)
      (ended-KeepsChildren settings.concurrency _
        (drain-FlowKeeps decode is_darwin r quiet.0 settings.concurrency st' k'))
      (after_turn-KeepsChildren settings.concurrency _
        (run_rounds c importer cron settings decode is_darwin rs)
        (turn-TurnKeeps c importer cron settings decode is_darwin r st' fresh.0 quiet.0 k')
        (λ u.
          run_rounds-KeepsChildren c importer cron settings decode is_darwin rs u fresh.1 quiet.1))
  where
    s : ShutdownState
    s = handle_all r.at_start st.shutdown

    st' : Loop
    st' = signalled r.at_start st

    k' : IsTracked settings.concurrency st'
    k' = shutdown-IsTracked settings.concurrency st s k
