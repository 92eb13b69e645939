-- ===== src/Worker/Loop/Restored.antt =====
-- What `run_worker` of src/pq/worker.py leaves behind when it returns or raises.
use pq.Base.{ℕ, ◌≡◌, refl, Bool, List, Text}
use pq.Errors.{Result, ok, err, value_error, bad_drain_timeout}
use pq.Registry.{Import}
use pq.Serialization.{Codec}
use pq.Client.Schedule.{Cron}
use pq.Worker.Shutdown.{
  reset, SignalTable, Previous, install_shutdown_handlers, restore_shutdown_handlers,
}
use pq.Worker.Shutdown.Signals.{IsKnown, restore-install}
use pq.Worker.Concurrent.{Loop, Settings, Ending, running, stopped, raised, waiting}
use pq.Worker.Loop.{
  Step, DrainTimeout, not_a_number, infinite, negative, finite, check_drain_timeout, Process,
  RunEnd, ends, restored, finish_run, run_worker,
}

-- The signals' handlers are the caller's, and no shutdown is requested any more.
abbrev pub IsRestored : ℕ → Process → RunEnd → Type 0
IsRestored drain_timeout p (ends outcome p') =
    (p'.handlers ≡ p.handlers) × (p'.shutdown ≡ reset drain_timeout p.shutdown)
IsRestored drain_timeout p _ = Unit

module _ (drain_timeout : ℕ) (p : Process) where
  restored-IsRestored :
      (outcome : Result (Unit {0})) (st : Loop) (x : Result (Unit {0}) × SignalTable)
      → x ≡ (ok tt, p.handlers)
      → IsRestored drain_timeout p (restored drain_timeout outcome st x)
  unfolding restored reset
  restored-IsRestored outcome st (err e, t) q = cc
  restored-IsRestored outcome st (ok u, t) q = (cc, refl)

  finish_run-IsRestored :
      (x : Previous × SignalTable) (e : Ending)
      → restore_shutdown_handlers x.0 x.1 ≡ (ok tt, p.handlers)
      → IsRestored drain_timeout p (finish_run drain_timeout x e)
  unfolding finish_run
  finish_run-IsRestored (previous, t) (running st) q = tt
  finish_run-IsRestored (previous, t) waiting q = tt
  finish_run-IsRestored (previous, t) (stopped st) q = restored-IsRestored (ok tt) st _ q
  finish_run-IsRestored (previous, t) (raised e st) q = restored-IsRestored (err e) st _ q

-- What a run with this drain timeout leaves: a timeout that is not a finite number or is negative is
-- refused before anything changes.
abbrev pub LeavesRestored : DrainTimeout → Process → RunEnd → Type 0
LeavesRestored (finite n) p end = IsRestored n p end
LeavesRestored _ p end = end ≡ ends (err (value_error bad_drain_timeout)) p

-- With a drain timeout that is finite and not negative, sequential or concurrent, on any thread, when
-- a run returns or raises, the process has the handlers that it had, where Python knows them, and no
-- shutdown is requested; with any other timeout the run raises a ValueError and leaves the process as
-- it was, a requested shutdown included.
pub run_worker-IsRestored :
    (c : Codec) {F : Type 0} (importer : Text → Text → Import F) (cron : Cron) (settings : Settings)
    (decode : List ℕ → Text) (is_darwin : Bool) (drain_timeout : DrainTimeout)
    (in_main_thread : Bool) (steps : List (Step c F)) (p : Process)
    → IsKnown p.handlers.sigterm
    → IsKnown p.handlers.sigint
    → LeavesRestored drain_timeout p
        (run_worker c importer cron settings decode is_darwin drain_timeout in_main_thread steps p)
unfolding run_worker check_drain_timeout
run_worker-IsRestored c importer cron settings decode is_darwin (finite n) in_main_thread steps p
      term int =
    finish_run-IsRestored n p (install_shutdown_handlers in_main_thread p.handlers) _
      (restore-install in_main_thread p.handlers term int)
run_worker-IsRestored c importer cron settings decode is_darwin not_a_number in_main_thread steps p
      term int =
    refl
run_worker-IsRestored c importer cron settings decode is_darwin infinite in_main_thread steps p term
      int =
    refl
run_worker-IsRestored c importer cron settings decode is_darwin negative in_main_thread steps p term
      int =
    refl
