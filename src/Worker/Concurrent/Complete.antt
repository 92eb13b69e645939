-- ===== src/Worker/Concurrent/Complete.antt =====
-- The waits of `_run_concurrent` of src/pq/worker.py in rounds whose events are all given.
use pq.Base.{
  if_either, ℕ, ◌≡◌, refl, inl, inr, Bool, true, false, Option, none, some, is_some, List, [], ◌∷◌,
  find, sym, ap, ◌∙◌, select, map, Text,
}
use pq.Errors.{Result, ok, err}
use pq.Database.{Db}
use pq.Worker.Child.{ChildResult, WaitStatus}
use pq.Worker.Wait.{
  Poll, Read, Waiting, Waited, blocks, throws, gives, wait_loop, wait_round, see_signals,
  wait_for_child, after_loop, drain_pipe, result_of,
}
use pq.Worker.Wait.Outcome.{
  exit_of, Answer-cases, wait_loop-exit, wait_loop-round, exit_of-round, exit_of-raise,
}
use pq.Worker.Shutdown.{ShutdownState, requested, handle_all}
use pq.Worker.Maintenance.{interruptible_sleep}
use pq.Worker.Slots.{ChildSlot, after_wait, reap_and_update}
use pq.Worker.Concurrent.{
  Loop, Settings, Round, Flow, waits, raises, goes_on, and_then, signalled, has_pid, has_fd,
  after_reaping, reaped, popped, popped_fd, reap_ready, reap_all_ready, slept, events,
  wait_for_events, drain_slots, drain, cleaned, maintain, finish_turn, Ending, running, waiting,
  ended, after_turn,
}

-- Every child that the round waits for exits in one of its polls, with reads after it that end; and its looks at the clock reach
-- the end of a sleep.
pub record IsComplete (poll_interval : ℕ) (r : Round) : Type 0 where
  pub exits : (pid : ℕ) → is_some (exit_of (r.reaping pid).polls) ≡ true
  pub drains : (pid : ℕ) → is_some (drain_pipe (r.reaping pid).rest) ≡ true
  pub wakes :
      (s : ShutdownState)
      → is_some (interruptible_sleep poll_interval r.sleep_start r.ticks s) ≡ true

-- No wait goes beyond the round's events.
abbrev pub HasRun : Flow → Type 0
HasRun waits = ⊥
HasRun _ = Unit

pub and_then-HasRun :
    (x : Flow) (f : Loop → Flow) → HasRun x → ((st : Loop) → HasRun (f st)) → HasRun (and_then x f)
unfolding and_then
and_then-HasRun waits f h k = absurd h
and_then-HasRun (raises e st) f h k = tt
and_then-HasRun (goes_on st) f h k = k st

wait_loop-returns :
    (polls : List Poll) (w : Waiting)
    → is_some (exit_of polls) ≡ true
    → (x : (WaitStatus × ℕ) × Waiting) × (wait_loop polls w ≡ gives x)
wait_loop-returns [] w e = cc
wait_loop-returns (p ∷ ps) w e = elim (Answer-cases p.answer) [
  | inl (ready, q) ↦
      let (x, runs) =
        wait_loop-returns ps (wait_round p.now ready (see_signals p w))
          (sym (ap is_some (exit_of-round p ps ready q)) ∙ e) in
      (x, wait_loop-round p ps w ready q ∙ runs)
  | inr (inl (st, q)) ↦ (_, wait_loop-exit p ps w st q)
  | inr (inr (x, q)) ↦ absurd (clash (sym (ap is_some (exit_of-raise p ps x q)) ∙ e))
]
  where
    clash : false ≡ true → ⊥
    clash q = cc

module _ (decode : List ℕ → Text) (is_darwin : Bool) where
  wait_for_child-returns :
      (polls : List Poll) (rest : List Read) (s : ShutdownState)
      → is_some (exit_of polls) ≡ true
      → is_some (drain_pipe rest) ≡ true
      → (x : ChildResult × ShutdownState) × (wait_for_child decode is_darwin polls rest s ≡ gives x)
  unfolding wait_for_child after_loop
  wait_for_child-returns polls rest s e d =
      let (x, runs) =
        wait_loop-returns polls (record { killed_by_drain = false; error_bytes = []; shutdown = s })
          e in
      let (y, ends) = by_pipe x (drain_pipe rest) d in
      (y, ap (after_loop decode is_darwin rest) runs ∙ ends)
    where
      by_pipe :
          (x : (WaitStatus × ℕ) × Waiting) (o : Option (List ℕ))
          → is_some o ≡ true
          → (y : ChildResult × ShutdownState) × (result_of decode is_darwin x o ≡ gives y)
      by_pipe x none q = cc
      by_pipe ((status, max_rss), w) (some bs) q = (_, refl)

  module _ (poll_interval : ℕ) (r : Round) (complete : IsComplete poll_interval r) where
    after_reaping-HasRun :
        (slot : ChildSlot) (st st' : Loop) (o : Waited (ChildResult × ShutdownState))
        (x : ChildResult × ShutdownState)
        → o ≡ gives x
        → HasRun
            (after_reaping decode is_darwin r st (after_wait (r.reaping slot.pid) slot st'.host o))
    unfolding after_reaping after_wait
    after_reaping-HasRun slot st st' blocks x q = cc
    after_reaping-HasRun slot st st' (throws e s) x q = tt
    after_reaping-HasRun slot st st' (gives y) x q = tt

    reaped-HasRun : (slot : ChildSlot) (st : Loop) → HasRun (reaped decode is_darwin r slot st)
    unfolding reaped reap_and_update
    reaped-HasRun slot st =
        let (x, ends) =
          wait_for_child-returns (r.reaping slot.pid).polls (r.reaping slot.pid).rest st.shutdown
            (complete.exits slot.pid) (complete.drains slot.pid) in
        after_reaping-HasRun slot st st _ x ends

    popped-HasRun :
        (pid : ℕ) (st : Loop) (o : Option ChildSlot) → HasRun (popped decode is_darwin r pid st o)
    unfolding popped
    popped-HasRun pid st none = tt
    popped-HasRun pid st (some slot) = reaped-HasRun slot _

    popped_fd-HasRun :
        (fd : ℕ) (st : Loop) (o : Option (ℕ × ℕ)) → HasRun (popped_fd decode is_darwin r fd st o)
    unfolding popped_fd
    popped_fd-HasRun fd st none = tt
    popped_fd-HasRun fd st (some (n, pid)) = popped-HasRun pid _ (find (has_pid pid) st.children)

    reap_all_ready-HasRun :
        (fds : List ℕ) (st : Loop) → HasRun (reap_all_ready decode is_darwin r fds st)
    unfolding reap_all_ready reap_ready
    reap_all_ready-HasRun [] st = tt
    reap_all_ready-HasRun (fd ∷ fds) st =
        and_then-HasRun _ (reap_all_ready decode is_darwin r fds)
          (popped_fd-HasRun fd st (find (has_fd fd) st.fd_to_pid)) (reap_all_ready-HasRun fds)

    slept-HasRun :
        (st : Loop) (o : Option ShutdownState)
        → is_some o ≡ true
        → HasRun (slept decode is_darwin r st o)
    unfolding slept
    slept-HasRun st none q = absurd (clash q)
      where
        clash : false ≡ true → ⊥
        clash e = cc
    slept-HasRun st (some s) q = tt

    pub sleep-HasRun :
        (st : Loop)
        → HasRun (
            slept decode is_darwin r st
              (interruptible_sleep poll_interval r.sleep_start r.ticks st.shutdown))
    sleep-HasRun st = slept-HasRun st _ (complete.wakes st.shutdown)

    events-HasRun :
        (st : Loop) (xs : List ChildSlot) → HasRun (events decode is_darwin r poll_interval st xs)
    unfolding events
    events-HasRun st [] = sleep-HasRun st
    events-HasRun st (x ∷ xs) = by_select r.selected
      where
        by_select :
            (o : Result (ℕ → Bool))
            → HasRun (elim o [
              | err e ↦ raises e st
              | ok is_ready ↦
                  reap_all_ready decode is_darwin r
                    (select is_ready (map (λ (y : ℕ × ℕ). y.0) st.fd_to_pid))
                    st
            ])
        by_select (err e) = tt
        by_select (ok is_ready) = reap_all_ready-HasRun _ st

    drain_slots-HasRun :
        (slots : List ChildSlot) (st : Loop) → HasRun (drain_slots decode is_darwin r slots st)
    unfolding drain_slots
    drain_slots-HasRun [] st = tt
    drain_slots-HasRun (slot ∷ slots) st =
        and_then-HasRun _ (drain_slots decode is_darwin r slots) (reaped-HasRun slot st)
          (drain_slots-HasRun slots)

    pub drain-HasRun : (st : Loop) → HasRun (drain decode is_darwin r st)
    unfolding drain
    drain-HasRun st = drain_slots-HasRun st.children _

    pub wait_for_events-HasRun :
        (st : Loop) → HasRun (wait_for_events decode is_darwin r poll_interval st)
    unfolding wait_for_events
    wait_for_events-HasRun st = events-HasRun st st.children

module _ (settings : Settings) (r : Round) where
  cleaned-HasRun : (st : Loop) (x : Result ℕ × Db) → HasRun (cleaned settings r st x)
  unfolding cleaned
  cleaned-HasRun st (err e, db) = tt
  cleaned-HasRun st (ok last, db) = tt

  pub maintain-HasRun : (st : Loop) → HasRun (maintain settings r st)
  unfolding maintain
  maintain-HasRun st = cleaned-HasRun st _

  pub finish_turn-HasRun : (st : Loop) → HasRun (finish_turn settings r st)
  unfolding finish_turn
  finish_turn-HasRun st =
      if_either (requested (handle_all r.after_events st.shutdown)) HasRun tt
        (maintain-HasRun (signalled r.after_events st))

-- The call is past its loop: it returned or raised.
abbrev pub HasEnded : Ending → Type 0
HasEnded (running st) = ⊥
HasEnded waiting = ⊥
HasEnded _ = Unit

pub ended-HasEnded : (x : Flow) → HasRun x → HasEnded (ended x)
unfolding ended
ended-HasEnded waits h = h
ended-HasEnded (raises e st) h = tt
ended-HasEnded (goes_on st) h = tt

pub after_turn-HasEnded :
    (x : Flow) (f : Loop → Ending)
    → HasRun x
    → ((st : Loop) → HasEnded (f st))
    → HasEnded (after_turn x f)
unfolding after_turn
after_turn-HasEnded waits f h k = h
after_turn-HasEnded (raises e st) f h k = tt
after_turn-HasEnded (goes_on st) f h k = k st
