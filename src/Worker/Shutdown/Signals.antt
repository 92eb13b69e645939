-- ===== src/Worker/Shutdown/Signals.antt =====
-- What signals make of the shutdown state of src/pq/worker.py, and the handlers it leaves.
use pq.Base.{
  ℕ, ◌+◌, ◌≡◌, ◌≢◌, refl, leb, Bool, true, false, Option, none, some, [], ◌∷◌, ◌++◌, arith, is_some,
  ap, ◌∙◌,
}
use mathlib.Core.List.{append-nil, append_assoc}
use pq.Errors.{ok}
use pq.Worker.Shutdown.{
  set_sigterm, set_sigint, ShutdownState, requested, reset, deadline_passed, log_request,
  handle_shutdown_signal, handle_all, Arrivals, Handler, foreign_handler, drain_handler,
  python_handler, SignalTable, install_shutdown_handlers, restore_shutdown_handlers,
}

-- Once a shutdown is requested, no signal changes its state.
pub handle_all-requested :
    (arrivals : Arrivals) (s : ShutdownState) → requested s ≡ true → handle_all arrivals s ≡ s
unfolding handle_all handle_shutdown_signal
handle_all-requested [] s h = refl
handle_all-requested (a ∷ later) s h = rw h (handle_all-requested later s h)

-- The instant at which the drain ends for arriving signals: the first one's, and the timeout.
abbrev pub drain_end : ℕ → Arrivals → Option ℕ
drain_end drain_timeout [] = none
drain_end drain_timeout (a ∷ later) = some (a.0 + drain_timeout)

abbrev pub is_over : Option ℕ → ℕ → Bool
is_over none now = false
is_over (some d) now = leb d now

-- After a reset, whatever signals arrive, the drain is over from the first signal's instant and the
-- drain timeout on, and never where none arrived: later signals neither extend nor shorten it.
pub deadline_passed-handle_all :
    (drain_timeout now : ℕ) (arrivals : Arrivals) (s : ShutdownState)
    → deadline_passed now (handle_all arrivals (reset drain_timeout s))
      ≡ is_over (drain_end drain_timeout arrivals) now
unfolding reset deadline_passed handle_all handle_shutdown_signal
deadline_passed-handle_all drain_timeout now [] s = refl
deadline_passed-handle_all drain_timeout now (a ∷ later) s =
    ap (deadline_passed now) (handle_all-requested later _ refl)

-- Logging does not touch what the loops test.
pub deadline_passed-log_request :
    (now : ℕ) (s : ShutdownState) → deadline_passed now (log_request s) ≡ deadline_passed now s
unfolding deadline_passed log_request
deadline_passed-log_request now s = ground arith

pub requested-log_request : (s : ShutdownState) → requested (log_request s) ≡ requested s
unfolding requested log_request
requested-log_request s = ground arith

pub requested-handle_all :
    (arrivals : Arrivals) (s : ShutdownState)
    → requested s ≡ true
    → requested (handle_all arrivals s) ≡ true
requested-handle_all arrivals s h = ap requested (handle_all-requested arrivals s h) ∙ h

drain_timeout-handle :
    (now n : ℕ) (s : ShutdownState)
    → (handle_shutdown_signal now n s).drain_timeout ≡ s.drain_timeout
unfolding handle_shutdown_signal
drain_timeout-handle now n s = ground arith

pub drain_timeout-handle_all :
    (arrivals : Arrivals) (s : ShutdownState)
    → (handle_all arrivals s).drain_timeout ≡ s.drain_timeout
unfolding handle_all
drain_timeout-handle_all [] s = refl
drain_timeout-handle_all (a ∷ later) s =
    drain_timeout-handle_all later (handle_shutdown_signal a.0 a.1 s)
    ∙ drain_timeout-handle a.0 a.1 s

pub drain_timeout-log_request :
    (s : ShutdownState) → (log_request s).drain_timeout ≡ s.drain_timeout
unfolding log_request
drain_timeout-log_request s = ground arith

-- A disposition that Python can set again.
abbrev pub IsKnown : Handler → Type 0
IsKnown h = h ≢ foreign_handler

set_sigterm-known :
    (h : Handler) (t : SignalTable) → IsKnown h → set_sigterm h t ≡ ok (record t { sigterm = h })
unfolding set_sigterm
set_sigterm-known drain_handler t k = refl
set_sigterm-known foreign_handler t k = absurd (k refl)
set_sigterm-known (python_handler n) t k = refl

set_sigint-known :
    (h : Handler) (t : SignalTable) → IsKnown h → set_sigint h t ≡ ok (record t { sigint = h })
unfolding set_sigint
set_sigint-known drain_handler t k = refl
set_sigint-known foreign_handler t k = absurd (k refl)
set_sigint-known (python_handler n) t k = refl

restore-known :
    (p t : SignalTable)
    → IsKnown p.sigterm
    → IsKnown p.sigint
    → restore_shutdown_handlers (some p) t ≡ (ok tt, p)
unfolding restore_shutdown_handlers
restore-known p t a b =
    rw
      (
        set_sigterm-known p.sigterm t a,
        set_sigint-known p.sigint (record t { sigterm = p.sigterm }) b,
        restore_shutdown_handlers,
      )
      refl

-- Installing the worker's handlers and restoring the previous ones leaves the process's table as it
-- was, on any thread, where Python knows what stood in it.
pub restore-install :
    (in_main_thread : Bool) (t : SignalTable)
    → IsKnown t.sigterm
    → IsKnown t.sigint
    → restore_shutdown_handlers
        (install_shutdown_handlers in_main_thread t).0
        (install_shutdown_handlers in_main_thread t).1
      ≡ (ok tt, t)
unfolding restore_shutdown_handlers install_shutdown_handlers
restore-install false t a b = refl
restore-install true t a b =
    restore-known t (record { sigterm = drain_handler; sigint = drain_handler }) a b

-- A state whose signals so far are `seen`, after a reset to the drain timeout.
pub record Tracks (drain_timeout : ℕ) (seen : Arrivals) (s : ShutdownState) : Type 0 where
  pub asked : requested s ≡ is_some (drain_end drain_timeout seen)
  pub ends : s.deadline ≡ drain_end drain_timeout seen
  pub budget : s.drain_timeout ≡ drain_timeout

module _ (drain_timeout : ℕ) where
  pub reset-Tracks : (s : ShutdownState) → Tracks drain_timeout [] (reset drain_timeout s)
  unfolding reset requested
  reset-Tracks s = record { asked = refl; ends = refl; budget = refl }

  pub log_request-Tracks :
      (seen : Arrivals) (s : ShutdownState)
      → Tracks drain_timeout seen s
      → Tracks drain_timeout seen (log_request s)
  unfolding log_request requested
  log_request-Tracks seen s t = ground arith

  handle-Tracks :
      (seen : Arrivals) (now n : ℕ) (s : ShutdownState)
      → Tracks drain_timeout seen s
      → Tracks drain_timeout (seen ++ (now, n) ∷ []) (handle_shutdown_signal now n s)
  unfolding handle_shutdown_signal requested
  handle-Tracks [] now n s t = ground arith
  handle-Tracks (a ∷ seen) now n s t = ground arith

  pub handle_all-Tracks :
      (seen arrivals : Arrivals) (s : ShutdownState)
      → Tracks drain_timeout seen s
      → Tracks drain_timeout (seen ++ arrivals) (handle_all arrivals s)
  unfolding handle_all
  handle_all-Tracks seen [] s t = rw (append-nil seen) t
  handle_all-Tracks seen (a ∷ later) s t = rw (← append_assoc seen (a ∷ []) later) (
      handle_all-Tracks (seen ++ a ∷ []) later (handle_shutdown_signal a.0 a.1 s)
        (handle-Tracks seen a.0 a.1 s t))

  pub deadline_passed-Tracks :
      (seen : Arrivals) (now : ℕ) (s : ShutdownState)
      → Tracks drain_timeout seen s
      → deadline_passed now s ≡ is_over (drain_end drain_timeout seen) now
  unfolding deadline_passed
  deadline_passed-Tracks [] now s t = ground arith
  deadline_passed-Tracks (a ∷ seen) now s t = ground arith
