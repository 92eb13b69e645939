-- ===== src/Worker/Concurrent/Turns.antt =====
-- One turn of `_run_concurrent` of src/pq/worker.py, and what holds around it.
use pq.Base.{
  ℕ, suc, ◌≡◌, ◌≢◌, inl, inr, Bool, true, false, Option, none, some, List, [], ◌∷◌, All, In, arith,
  map, select, delete, sym, subst, Bool-cases, if◌then◌else◌, All-of_In, In-All, All-select,
  In-select, Text,
}
use pq.Errors.{Result, ok, err}
use pq.Database.{Db}
use pq.Database.Consistent.{AllPairs}
use pq.Registry.{Import}
use pq.Serialization.{Codec}
use pq.Client.Schedule.{Cron}
use pq.Worker.Shutdown.{ShutdownState, requested, handle_all}
use pq.Worker.Maintenance.{interruptible_sleep}
use pq.Worker.Maintenance.Failures.{IsCleanupError, FailsOnlyIn, maybe_run_cleanup-FailsOnlyIn}
use pq.Worker.Slots.{ChildSlot}
use pq.Worker.Slots.Launched.{IsFreshAttempt}
use pq.Worker.Concurrent.{
  Loop, Settings, Round, Flow, waits, raises, goes_on, and_then, signalled, has_fd, reap_ready,
  reaped, reap_all_ready, slept, events, wait_for_events, cleaned, maintain, finish_turn, fill,
  turn,
}
use pq.Worker.Concurrent.Children.{entry_of, AreApart, IsTracked}
use pq.Worker.Concurrent.Lists.{In-map_elim, In-map, In-delete}
use pq.Worker.Concurrent.Filling.{fill-IsTracked}
use pq.Worker.Concurrent.Rounds.{
  FlowKeeps, and_then-FlowKeeps, keys_of, reap_ready-FlowKeeps, shutdown-IsTracked, RoundIsAnswered,
  chores-IsTracked,
}

AllPairs-select :
    {A : Type 0} (R : A → A → Type 0) (p : A → Bool) (xs : List A)
    → AllPairs R xs
    → AllPairs R (select p xs)
unfolding select
AllPairs-select R p [] h = tt
AllPairs-select R p (x ∷ xs) h = elim (Bool-cases (p x)) [
  | inl t ↦ rw t (All-select (R x) p xs h.0, AllPairs-select R p xs h.1)
  | inr t ↦ rw t (AllPairs-select R p xs h.1)
]

-- The descriptors of slots that are apart differ.
fds_apart :
    (xs : List ChildSlot)
    → AllPairs AreApart xs
    → AllPairs ◌≢◌ (map (λ (x : ℕ × ℕ). x.0) (map entry_of xs))
fds_apart [] h = tt
fds_apart (x ∷ xs) h = (heads xs h.0, fds_apart xs h.1)
  where
    heads :
        (ys : List ChildSlot)
        → All (AreApart x) ys
        → All (◌≢◌ x.read_fd) (map (λ (y : ℕ × ℕ). y.0) (map entry_of ys))
    heads [] k = tt
    heads (y ∷ ys) k = (k.0.1, heads ys k.1)

-- The other descriptors stay keys.
key_stays :
    (fd other : ℕ) (st st' : Loop)
    → st'.fd_to_pid ≡ delete (has_fd fd) st.fd_to_pid
    → fd ≢ other
    → In other (keys_of st)
    → In other (keys_of st')
key_stays fd other st st' e differ i =
    let (x, j, q) = In-map_elim (λ (y : ℕ × ℕ). y.0) st.fd_to_pid other i in
    subst (λ (xs : List (ℕ × ℕ)). In other (map (λ (y : ℕ × ℕ). y.0) xs)) (sym e)
      (subst (λ n. In n (map (λ (y : ℕ × ℕ). y.0) (delete (has_fd fd) st.fd_to_pid))) q
        (In-map (λ (y : ℕ × ℕ). y.0) (delete (has_fd fd) st.fd_to_pid) x
          (In-delete (has_fd fd) st.fd_to_pid x (other_key x q) j)))
  where
    other_key : (x : ℕ × ℕ) → x.0 ≡ other → has_fd fd x ≡ false
    other_key x q = ground arith

module _ (decode : List ℕ → Text) (is_darwin : Bool) (r : Round) (concurrency : ℕ) where
  pub slept-FlowKeeps :
      (st : Loop) (o : Option ShutdownState)
      → IsTracked concurrency st
      → FlowKeeps (IsTracked concurrency) (slept decode is_darwin r st o)
  unfolding slept
  slept-FlowKeeps st none k = tt
  slept-FlowKeeps st (some s) k = shutdown-IsTracked concurrency st s k

module _ (decode : List ℕ → Text) (is_darwin : Bool) (r : Round) (concurrency : ℕ)
    (quiet : RoundIsAnswered r) where
  reap_all_ready-FlowKeeps :
      (fds : List ℕ) (st : Loop)
      → IsTracked concurrency st
      → AllPairs ◌≢◌ fds
      → All (λ fd. In fd (keys_of st)) fds
      → FlowKeeps (IsTracked concurrency) (reap_all_ready decode is_darwin r fds st)
  unfolding reap_all_ready
  reap_all_ready-FlowKeeps [] st k apart keys = k
  reap_all_ready-FlowKeeps (fd ∷ fds) st k apart keys =
      and_then-FlowKeeps _ (IsTracked concurrency) (reap_ready decode is_darwin r fd st)
        (reap_all_ready decode is_darwin r fds)
        (reap_ready-FlowKeeps decode is_darwin r concurrency quiet fd st k keys.0)
        λ st' (k', e). reap_all_ready-FlowKeeps fds st' k' apart.1 (
          All-of_In fds λ other i.
            key_stays fd other st st' e (In-All (◌≢◌ fd) fds apart.0 i)
              (In-All (λ n. In n (keys_of st)) fds keys.1 i))

  all_ready-FlowKeeps :
      (is_ready : ℕ → Bool) (st : Loop)
      → IsTracked concurrency st
      → FlowKeeps (IsTracked concurrency) (
          reap_all_ready decode is_darwin r
            (select is_ready (map (λ (x : ℕ × ℕ). x.0) st.fd_to_pid))
            st)
  all_ready-FlowKeeps is_ready st k =
      reap_all_ready-FlowKeeps (select is_ready fds) st k
        (AllPairs-select ◌≢◌ is_ready fds (
          subst (λ (xs : List (ℕ × ℕ)). AllPairs ◌≢◌ (map (λ (x : ℕ × ℕ). x.0) xs)) (sym k.entries)
            (fds_apart st.children k.apart)))
        (All-of_In (select is_ready fds) (λ fd i. (In-select is_ready fds i).0))
    where
      fds : List ℕ
      fds = map (λ (x : ℕ × ℕ). x.0) st.fd_to_pid

  -- Waiting for events keeps the dictionaries, and no lookup in them fails.
  pub wait_for_events-FlowKeeps :
      (poll_interval : ℕ) (st : Loop)
      → IsTracked concurrency st
      → FlowKeeps (IsTracked concurrency) (wait_for_events decode is_darwin r poll_interval st)
  unfolding wait_for_events events reap_all_ready reap_ready reaped
  wait_for_events-FlowKeeps poll_interval st k = by_children st.children
    where
      by_children :
          (xs : List ChildSlot)
          → FlowKeeps (IsTracked concurrency) (events decode is_darwin r poll_interval st xs)
      by_children [] =
          slept-FlowKeeps decode is_darwin r concurrency st
            (interruptible_sleep poll_interval r.sleep_start r.ticks st.shutdown) k
      by_children (x ∷ xs) =
          let (is_ready, answers) = quiet.selects in rw answers (all_ready-FlowKeeps is_ready st k)

-- The end of a turn.
abbrev pub TurnKeeps : (Loop → Type 0) → Flow → Type 0
TurnKeeps P waits = Unit
TurnKeeps P (raises e st) = IsCleanupError e × P st
TurnKeeps P (goes_on st) = P st

module _ (settings : Settings) (r : Round) (concurrency : ℕ) where
  cleaned-TurnKeeps :
      (st : Loop) (x : Result ℕ × Db)
      → FailsOnlyIn x
      → IsTracked concurrency st
      → TurnKeeps (IsTracked concurrency) (cleaned settings r st x)
  unfolding cleaned
  cleaned-TurnKeeps st (err e, db) h k =
      (h, chores-IsTracked concurrency st db st.last_cleanup st.last_reap k)
  cleaned-TurnKeeps st (ok last, db) h k = chores-IsTracked concurrency st _ last _ k

  pub maintain-TurnKeeps :
      (st : Loop)
      → IsTracked concurrency st
      → TurnKeeps (IsTracked concurrency) (maintain settings r st)
  unfolding maintain
  maintain-TurnKeeps st k =
      cleaned-TurnKeeps st _
        (maybe_run_cleanup-FailsOnlyIn settings.retention_days settings.cleanup_interval r.cleaning
          st.last_cleanup st.host.db)
        k

  finish_turn-TurnKeeps :
      (st : Loop)
      → IsTracked concurrency st
      → TurnKeeps (IsTracked concurrency) (finish_turn settings r st)
  unfolding finish_turn
  finish_turn-TurnKeeps st k = by_request (requested (handle_all r.after_events st.shutdown))
    where
      st' : Loop
      st' = signalled r.after_events st

      k' : IsTracked concurrency st'
      k' = shutdown-IsTracked concurrency st (handle_all r.after_events st.shutdown) k

      by_request :
          (b : Bool)
          → TurnKeeps (IsTracked concurrency) (if b then goes_on st' else maintain settings r st')
      by_request true = k'
      by_request false = maintain-TurnKeeps st' k'

module _ (c : Codec) {F : Type 0} (importer : Text → Text → Import F) (cron : Cron)
    (settings : Settings) where
  module _ (decode : List ℕ → Text) (is_darwin : Bool) where
    pub turn-TurnKeeps :
        (r : Round) (st : Loop)
        → ((j : ℕ) → IsFreshAttempt (r.attempt j))
        → RoundIsAnswered r
        → IsTracked settings.concurrency st
        → TurnKeeps
            (IsTracked settings.concurrency)
            (turn c importer cron settings decode is_darwin r st)
    unfolding turn and_then
    turn-TurnKeeps r st fresh quiet k =
        finished (wait_for_events decode is_darwin r settings.poll_interval filled) (
          wait_for_events-FlowKeeps decode is_darwin r settings.concurrency quiet
            settings.poll_interval filled
            (fill-IsTracked c importer cron settings (suc settings.concurrency) r 0 st fresh k))
      where
        filled : Loop
        filled = fill c importer cron settings (suc settings.concurrency) r 0 st

        finished :
            (x : Flow)
            → FlowKeeps (IsTracked settings.concurrency) x
            → TurnKeeps (IsTracked settings.concurrency) (and_then x (finish_turn settings r))
        finished waits h = tt
        finished (raises e st) h = absurd h
        finished (goes_on st) h = finish_turn-TurnKeeps settings r settings.concurrency st h
