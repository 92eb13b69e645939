-- ===== src/Worker/Wait/Interrupted.antt =====
-- Which children `_wait_for_child` of src/pq/worker.py reports as interrupted by the shutdown.
use pq.Base.{ℕ, ◌≡◌, ◌↔◌, sym, ◌∙◌, Bool, true, some, List, [], ◌∷◌, Text, arith}
use pq.Worker.Child.{
  ChildResult, shutdown, WaitStatus, signaled, exited, other_status, sigkill, child_result,
  signal_result, exit_result, error_result,
}
use pq.Worker.Shutdown.{ShutdownState, Arrivals}
use pq.Worker.Shutdown.Signals.{Tracks}
use pq.Worker.Wait.{Poll, Read, Waited, gives, wait_for_child}
use pq.Worker.Wait.Outcome.{exit_of, is_overdue, wait_for_child_lem, wait_for_child-drained}

module _ (killed : Bool) (drain_timeout max_rss : ℕ) (is_darwin : Bool) where
  exit_kind-child_result_iff :
      (status : WaitStatus) (text : Text)
      → ((child_result killed drain_timeout max_rss is_darwin status text).exit_kind ≡ shutdown)
        ↔ ((status ≡ signaled sigkill) × (killed ≡ true))
  unfolding child_result signal_result exit_result error_result
  exit_kind-child_result_iff (signaled n) text = (ground arith, ground arith)
  exit_kind-child_result_iff (exited n) [] = (ground arith, ground arith)
  exit_kind-child_result_iff (exited n) (c ∷ t) = (ground arith, ground arith)
  exit_kind-child_result_iff other_status text = (ground arith, ground arith)

-- A child whose exit is seen is reported as interrupted exactly when a SIGKILL ended it and in some
-- round before that the drain was over: never without a shutdown, and never for another end.
pub wait_for_child-shutdown_iff :
    (decode : List ℕ → Text) (is_darwin : Bool) (drain_timeout : ℕ) (seen : Arrivals)
    (polls : List Poll) (rest : List Read) (s s' : ShutdownState) (status : WaitStatus)
    (max_rss : ℕ) (r : ChildResult)
    → Tracks drain_timeout seen s
    → exit_of polls ≡ some (status, max_rss)
    → wait_for_child decode is_darwin polls rest s ≡ gives (r, s')
    → (r.exit_kind ≡ shutdown)
      ↔ ((status ≡ signaled sigkill) × (is_overdue drain_timeout seen polls ≡ true))
wait_for_child-shutdown_iff decode is_darwin drain_timeout seen polls rest s s' status max_rss r t e
      w =
    let (bs, drained) = wait_for_child-drained decode is_darwin polls rest s (r, s') w in
    let (s1, done, _) =
      wait_for_child_lem decode is_darwin drain_timeout seen polls rest bs s status max_rss t e
        drained in
    let same = sym done ∙ w in
    rw (← kind same) (
      exit_kind-child_result_iff (is_overdue drain_timeout seen polls) drain_timeout max_rss
        is_darwin status _)
  where
    kind :
        {x y : ChildResult} {u v : ShutdownState}
        → ◌≡◌ {A = Waited (ChildResult × ShutdownState)} (gives (x, u)) (gives (y, v))
        → x.exit_kind ≡ y.exit_kind
    kind q = cc
