-- ===== src/Worker/Wait/Timeout.antt =====
-- The length of one sleep of `_wait_for_child` of src/pq/worker.py.
use pq.Base.{ℕ, ◌+◌, ◌≤◌, ◌≡◌, true, some, ◌⊎◌, arith}
use pq.Worker.Shutdown.{ShutdownState, requested}
use pq.Worker.Wait.{select_timeout, one_second, ten_milliseconds}

-- Under a shutdown with a deadline, a wait sleeps ten milliseconds to a second at a time, and either
-- wakes by the deadline or sleeps the ten milliseconds.
pub select_timeout_bounds :
    (now deadline : ℕ) (s : ShutdownState)
    → requested s ≡ true
    → s.deadline ≡ some deadline
    → (ten_milliseconds ≤ select_timeout now s)
      × (select_timeout now s ≤ one_second)
      × ((now + select_timeout now s ≤ deadline) ⊎ (select_timeout now s ≡ ten_milliseconds))
unfolding select_timeout
select_timeout_bounds now deadline s r d = ground arith
