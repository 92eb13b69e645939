-- ===== src/Worker/Shutdown.antt =====
-- `_ShutdownState`, its signal handler, and the process's handlers for SIGTERM and SIGINT, of
-- src/pq/worker.py. Instants are readings of the monotonic clock.
pub mod Signals
use pq.Base.{
  ℕ, ◌+◌, leb, ◌==◌, Bool, true, false, ◌&&◌, ◌||◌, not, Option, none, some, List, [], ◌∷◌, is_some,
  select, if◌then◌else◌,
}
use pq.Errors.{Result, ok, err, other_error, ◌>>=◌}

pub record ShutdownState : Type 0 where
  -- the signal that requested the shutdown
  pub signum : Option ℕ
  pub deadline : Option ℕ
  pub drain_timeout : ℕ
  pub logged : Bool

unfoldable pub requested : ShutdownState → Bool
requested s = is_some s.signum

unfoldable pub reset : ℕ → ShutdownState → ShutdownState
reset drain_timeout s = record s {
  signum = none;
  deadline = none;
  drain_timeout = drain_timeout;
  logged = false;
}

-- `self.deadline is None or time.monotonic() >= self.deadline`
reached : Option ℕ → ℕ → Bool
reached none now = true
reached (some d) now = leb d now

unfoldable pub deadline_passed : ℕ → ShutdownState → Bool
unfolding requested reached
deadline_passed now s = if not (requested s) then false else reached s.deadline now

-- Logs at most one line for a shutdown.
unfoldable pub log_request : ShutdownState → ShutdownState
unfolding requested
log_request s = if not (requested s) || s.logged then s else record s { logged = true }

-- `_handle_shutdown_signal` at an instant.
unfoldable pub handle_shutdown_signal : ℕ → ℕ → ShutdownState → ShutdownState
unfolding requested
handle_shutdown_signal now signum s =
    if requested s
    then s
    else record s { deadline = some (now + s.drain_timeout); signum = some signum }

-- Signals that arrive between two steps of a loop, each with its instant.
abbrev pub Arrivals : Type 0
Arrivals = List (ℕ × ℕ)

unfoldable pub handle_all : Arrivals → ShutdownState → ShutdownState
handle_all [] s = s
handle_all (a ∷ later) s = handle_all later (handle_shutdown_signal a.0 a.1 s)

-- A signal's disposition: the worker's handler, another that Python knows, or one that was not
-- installed from Python, which `getsignal` shows as None and `signal.signal` refuses.
pub data Handler : Type 0 where
  drain_handler foreign_handler : Handler
  python_handler : ℕ → Handler

pub record SignalTable : Type 0 where
  pub sigterm : Handler
  pub sigint : Handler

-- `signal.signal`, with the TypeError for None
unfoldable pub set_sigterm : Handler → SignalTable → Result SignalTable
set_sigterm foreign_handler t = err (other_error 0)
set_sigterm h t = ok (record t { sigterm = h })

unfoldable pub set_sigint : Handler → SignalTable → Result SignalTable
set_sigint foreign_handler t = err (other_error 0)
set_sigint h t = ok (record t { sigint = h })

-- What `_install_shutdown_handlers` returns: the handlers before, `none` off the main thread.
abbrev pub Previous : Type 0
Previous = Option SignalTable

unfoldable pub install_shutdown_handlers :
    (in_main_thread : Bool) → SignalTable → Previous × SignalTable
install_shutdown_handlers false t = (none, t)
install_shutdown_handlers true t =
    (some t, record { sigterm = drain_handler; sigint = drain_handler })

abbrev pub sigterm_number : ℕ
sigterm_number = 15

abbrev pub sigint_number : ℕ
sigint_number = 2

is_drain : Handler → Bool
is_drain drain_handler = true
is_drain _ = false

-- A signal that the table gives to the worker's handler.
unfoldable pub is_handled : SignalTable → ℕ × ℕ → Bool
unfolding is_drain
is_handled t (now, signum) =
    (signum == sigterm_number && is_drain t.sigterm)
    || (signum == sigint_number && is_drain t.sigint)

-- Those of the arriving signals that reach the worker's handler.
unfoldable pub handled : SignalTable → Arrivals → Arrivals
handled t = select (is_handled t)

-- Handlers set before a refusal stay set.
unfoldable pub restore_shutdown_handlers : Previous → SignalTable → Result (Unit {0}) × SignalTable
unfolding set_sigterm set_sigint
restore_shutdown_handlers none t = (ok tt, t)
restore_shutdown_handlers (some p) t = elim (set_sigterm p.sigterm t) [
  | err e ↦ (err e, t)
  | ok t' ↦ elim (set_sigint p.sigint t') [ err e ↦ (err e, t') | ok t'' ↦ (ok tt, t'') ]
]
