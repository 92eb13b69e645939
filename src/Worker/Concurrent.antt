-- ===== src/Worker/Concurrent.antt =====
-- `_run_concurrent` of src/pq/worker.py, on the main thread: its handlers are installed, so no
-- KeyboardInterrupt reaches it. What happens around one turn of the loop is a `Round`.
pub mod Lists
pub mod Children
pub mod Rounds
pub mod Turns
pub mod Complete
pub mod Ends
pub mod Filling
pub mod Drained
use pq.Base.{
  ℕ, zero, suc, ◌+◌, ltb, ◌==◌, Bool, true, false, ◌&&◌, not, Option, none, some, List, [], ◌∷◌,
  ◌++◌, Text, map, find, select, delete, length, if◌then◌else◌,
}
use pq.Errors.{Result, ok, err, PyError, key_error}
use pq.Models.{Priority}
use pq.Database.{Db, Env}
use pq.Registry.{Import}
use pq.Serialization.{Codec}
use pq.Client.Schedule.{Cron}
use pq.Worker.Shutdown.{ShutdownState, requested, log_request, Arrivals, handle_all}
use pq.Worker.Maintenance.{Cleaning, maybe_run_cleanup, maybe_reap_stale, Tick, interruptible_sleep}
use pq.Worker.Wait.{Waited, blocks, throws, gives}
use pq.Worker.Slots.{ChildSlot, Host, Attempt, try_claim_and_fork, Reaping, reap_and_update}

-- The variables of the loop, with the shutdown state and what the worker shares. `children` and
-- `fd_to_pid` are dictionaries in the order of insertion.
pub record Loop : Type 0 where
  pub host : Host
  pub shutdown : ShutdownState
  pub children : List ChildSlot
  pub fd_to_pid : List (ℕ × ℕ)
  pub last_cleanup : ℕ
  pub last_reap : ℕ

-- The arguments of the call, without the hooks.
pub record Settings : Type 0 where
  pub concurrency : ℕ
  pub poll_interval : ℕ
  pub max_runtime : ℕ
  pub priorities : Option (List Priority)
  pub retention_days : ℕ
  pub cleanup_interval : ℕ
  pub stale_task_timeout : Option ℕ
  pub reaper_interval : ℕ

-- What one turn meets: signals before each test of `requested`, the attempts to claim, what `select`
-- raises or finds ready, the reapings by pid, an idle sleep, and the chores.
pub record Round : Type 0 where
  pub at_start : Arrivals
  pub before_attempt : ℕ → Arrivals
  pub attempt : ℕ → Attempt
  pub selected : Result (ℕ → Bool)
  pub reaping : ℕ → Reaping
  pub sleep_start : ℕ
  pub ticks : List Tick
  pub after_events : Arrivals
  pub cleaning : Cleaning
  pub reap_now : ℕ
  pub reap_env : Env

-- How a part of the loop ends: it waits for events beyond those given, an exception leaves the
-- loop, or it goes on.
pub data Flow : Type 0 where
  waits : Flow
  raises : PyError → Loop → Flow
  goes_on : Loop → Flow

unfoldable pub and_then : Flow → (Loop → Flow) → Flow
and_then waits f = waits
and_then (raises e st) f = raises e st
and_then (goes_on st) f = f st

abbrev pub signalled : Arrivals → Loop → Loop
signalled arrivals st = record st { shutdown = handle_all arrivals st.shutdown }

abbrev pub has_pid : ℕ → ChildSlot → Bool
has_pid pid slot = slot.pid == pid

abbrev pub has_fd : ℕ → ℕ × ℕ → Bool
has_fd fd x = x.0 == fd

-- `children[slot.pid] = slot`
unfoldable pub put_child : ChildSlot → List ChildSlot → List ChildSlot
put_child slot [] = slot ∷ []
put_child slot (x ∷ xs) = if x.pid == slot.pid then slot ∷ xs else x ∷ put_child slot xs

-- `fd_to_pid[slot.read_fd] = slot.pid`
unfoldable pub put_fd : ℕ → ℕ → List (ℕ × ℕ) → List (ℕ × ℕ)
put_fd fd pid [] = (fd, pid) ∷ []
put_fd fd pid (x ∷ xs) = if x.0 == fd then (fd, pid) ∷ xs else x ∷ put_fd fd pid xs

unfoldable pub register : ChildSlot → Loop → Loop
register slot st = record st {
  children = put_child slot st.children;
  fd_to_pid = put_fd slot.read_fd slot.pid st.fd_to_pid;
}

-- Where the call stands after the rounds that are given.
pub data Ending : Type 0 where
  running : Loop → Ending
  stopped : Loop → Ending
  raised : PyError → Loop → Ending
  waiting : Ending

unfoldable pub ended : Flow → Ending
ended waits = waiting
ended (raises e st) = raised e st
ended (goes_on st) = stopped st

unfoldable pub after_turn : Flow → (Loop → Ending) → Ending
after_turn waits f = waiting
after_turn (raises e st) f = raised e st
after_turn (goes_on st) f = f st

-- One attempt of step 1, and whether it took a slot.
unfoldable pub attempted : Option ChildSlot × Host → Loop → Bool × Loop
unfolding register
attempted (none, h) st = (false, record st { host = h })
attempted (some slot, h) st = (true, register slot (record st { host = h }))

module _ (decode : List ℕ → Text) (is_darwin : Bool) (r : Round) where
  unfoldable pub after_reaping : Loop → Waited (Host × ShutdownState) → Flow
  after_reaping st blocks = waits
  after_reaping st (throws e s) = raises e (record st { shutdown = s })
  after_reaping st (gives (h, s)) = goes_on (record st { host = h; shutdown = s })

  -- `_reap_and_update`
  unfoldable pub reaped : ChildSlot → Loop → Flow
  unfolding after_reaping
  reaped slot st =
      after_reaping st
        (reap_and_update decode is_darwin (r.reaping slot.pid) slot (st.host, st.shutdown))

  -- `slot = children.pop(pid)`, with its KeyError, and the reaping.
  unfoldable pub popped : ℕ → Loop → Option ChildSlot → Flow
  popped pid st none = raises key_error st
  popped pid st (some slot) =
      reaped slot (record st { children = delete (has_pid pid) st.children })

  -- `pid = fd_to_pid.pop(fd)`, with its KeyError.
  unfoldable pub popped_fd : ℕ → Loop → Option (ℕ × ℕ) → Flow
  unfolding popped
  popped_fd fd st none = raises key_error st
  popped_fd fd st (some (_, pid)) =
      popped pid (record st { fd_to_pid = delete (has_fd fd) st.fd_to_pid })
        (find (has_pid pid) st.children)

  unfoldable pub reap_ready : ℕ → Loop → Flow
  unfolding popped_fd
  reap_ready fd st = popped_fd fd st (find (has_fd fd) st.fd_to_pid)

  unfoldable pub reap_all_ready : List ℕ → Loop → Flow
  reap_all_ready [] st = goes_on st
  reap_all_ready (fd ∷ fds) st = and_then (reap_ready fd st) (reap_all_ready fds)

  unfoldable pub slept : Loop → Option ShutdownState → Flow
  slept st none = waits
  slept st (some s) = goes_on (record st { shutdown = s })

  -- Step 2. `select` raises, or returns those of the descriptors that are ready, in their order.
  unfoldable pub events : ℕ → Loop → List ChildSlot → Flow
  unfolding slept
  events poll_interval st [] =
      slept st (interruptible_sleep poll_interval r.sleep_start r.ticks st.shutdown)
  events poll_interval st (_ ∷ _) = elim r.selected [
    | err e ↦ raises e st
    | ok is_ready ↦ reap_all_ready (select is_ready (map (λ x. x.0) st.fd_to_pid)) st
  ]

  unfoldable pub wait_for_events : ℕ → Loop → Flow
  unfolding events
  wait_for_events poll_interval st = events poll_interval st st.children

  -- The drain: `for slot in list(children.values())`.
  unfoldable pub drain_slots : List ChildSlot → Loop → Flow
  drain_slots [] st = goes_on st
  drain_slots (slot ∷ slots) st = and_then (reaped slot st) (drain_slots slots)

  unfoldable pub drain : Loop → Flow
  drain st = drain_slots st.children (record st { shutdown = log_request st.shutdown })

module _ (settings : Settings) (r : Round) where
  -- The chores: a cleanup's exception leaves the loop.
  unfoldable pub cleaned : Loop → Result ℕ × Db → Flow
  cleaned st (err e, db) = raises e (record st { host = record st.host { db = db } })
  cleaned st (ok last, db) =
      let reap =
        maybe_reap_stale settings.stale_task_timeout settings.reaper_interval r.reap_now r.reap_env
          st.last_reap db in
      goes_on (record st {
        host = record st.host { db = reap.1 };
        last_cleanup = last;
        last_reap = reap.0;
      })

  unfoldable pub maintain : Loop → Flow
  unfolding cleaned
  maintain st = cleaned st (
      maybe_run_cleanup settings.retention_days settings.cleanup_interval r.cleaning st.last_cleanup
        st.host.db)

  -- The end of a turn: the second test of `requested`.
  unfoldable pub finish_turn : Loop → Flow
  finish_turn st =
      let st' = signalled r.after_events st in
      if requested st'.shutdown then goes_on st' else maintain st'

module _ (c : Codec) {F : Type 0} (importer : Text → Text → Import F) (cron : Cron)
    (settings : Settings) where
  -- The attempt `i` of a round.
  unfoldable pub attempt_at : Round → ℕ → Loop → Bool × Loop
  attempt_at r i st =
      attempted
        (try_claim_and_fork c importer cron settings.priorities settings.max_runtime (r.attempt i)
          st.host)
        st

  -- Step 1, from the attempt `i` on, with fuel: each attempt that goes on takes a free slot.
  unfoldable pub fill : ℕ → Round → ℕ → Loop → Loop
  fill zero r i st = st
  fill (suc fuel) r i st =
      let st' = signalled (r.before_attempt i) st in
      let next = attempt_at r i st' in
      let rest = fill fuel r (suc i) next.1 in
      if ltb (length st'.children) settings.concurrency && not (requested st'.shutdown)
      then if next.0 then rest else next.1
      else st'

  module _ (decode : List ℕ → Text) (is_darwin : Bool) where
    -- One turn of the loop.
    unfoldable pub turn : Round → Loop → Flow
    turn r st =
        and_then
          (wait_for_events decode is_darwin r settings.poll_interval
            (fill (suc settings.concurrency) r 0 st))
          (finish_turn settings r)

    -- The loop. A round in which a shutdown is requested has the drain's events, too.
    unfoldable pub run_rounds : List Round → Loop → Ending
    run_rounds [] st = running st
    run_rounds (r ∷ rs) st =
        let st' = signalled r.at_start st in
        let next = after_turn (turn r st') (run_rounds rs) in
        if requested st'.shutdown then ended (drain decode is_darwin r st') else next

-- The state before the loop.
abbrev pub loop_start : Host → ShutdownState → Loop
loop_start host s = record {
  host = host;
  shutdown = s;
  children = [];
  fd_to_pid = [];
  last_cleanup = 0;
  last_reap = 0;
}
