-- ===== src/Tests/Loops.antt =====
-- The turns of a concurrent worker at small inputs: two children at once, and a shutdown.
use pq.Base.{
  ℕ, suc, ◌+◌, ◌<◌, ◌≡◌, ◌≢◌, refl, true, false, none, some, List, [], ◌∷◌, Text, All, arith,
}
use pq.Errors.{ok}
use pq.Registry.{Import, found}
use pq.Client.Schedule.{Cron}
use pq.Worker.Child.{exited}
use pq.Worker.Shutdown.{ShutdownState, requested, Arrivals}
use pq.Worker.Maintenance.{Cleaning, Tick}
use pq.Worker.Slots.{Host, forked, Launch, Attempt, Reaping}
use pq.Worker.Slots.Launched.{IsFresh, IsFreshAttempt}
use pq.Worker.Concurrent.{Loop, loop_start, Settings, Round, fill, run_rounds}
use pq.Worker.Concurrent.Children.{IsTracked}
use pq.Worker.Concurrent.Rounds.{RoundIsAnswered}
use pq.Worker.Wait.{has_exited, bytes}
use pq.Worker.Concurrent.Drained.{KeepsChildren, run_rounds-KeepsChildren}
use pq.Worker.Concurrent.Filling.{fill_enough}
use pq.Worker.Concurrent.Ends.{fill-requested}
use pq.Worker.Loop.{Process}
use pq.Tests.Samples.{sample_codec, session_at, waiting_task, with_tasks}
use pq.Tests.Shutdown.{calm, own_handlers}

-- A number above those in use.
abbrev sum_of : List ℕ → ℕ
sum_of [] = 0
sum_of (n ∷ ns) = n + sum_of ns

abbrev next_number : List ℕ → ℕ
next_number ns = suc (sum_of ns)

sum_of-fresh : (m : ℕ) (ns : List ℕ) → sum_of ns < m → All (λ n. n ≢ m) ns
sum_of-fresh m [] h = tt
sum_of-fresh m (n ∷ ns) h = (λ e. ground arith, sum_of-fresh m ns (omega (arith, h)))

next_number-IsFresh : IsFresh next_number
next_number-IsFresh ns = sum_of-fresh (next_number ns) ns (omega arith)

abbrev launch : Launch
launch = record {
  claim_env = session_at 10;
  fork = forked next_number next_number;
  now = 10;
  others = λ db. db;
  failure_env = session_at 11;
}

abbrev attempt : Attempt
attempt = record { one_off = launch; others = λ db. db; periodic = launch }

abbrev exits_now : Reaping
exits_now = record {
  polls = record { arrivals = []; answer = has_exited (exited 0, 7); now = 12 } ∷ [];
  rest = bytes [] ∷ [];
  now = 13;
  others = λ db. db;
  env = session_at 13;
}

abbrev pub wakes_late : List Tick
wakes_late = record { arrivals = []; now = 20 } ∷ []

abbrev no_cleaning : Cleaning
no_cleaning = record {
  now = 0;
  utc_now = 0;
  completed_env = session_at 14;
  others = λ db. db;
  failed_env = session_at 14;
}

-- A round with these signals at its start; every child is ready at once.
abbrev pub round_after : Arrivals → Round
round_after arrivals = record {
  at_start = arrivals;
  before_attempt = λ i. [];
  attempt = λ i. attempt;
  selected = ok (λ fd. true);
  reaping = λ pid. exits_now;
  sleep_start = 10;
  ticks = wakes_late;
  after_events = [];
  cleaning = no_cleaning;
  reap_now = 0;
  reap_env = session_at 15;
}

abbrev two_rounds : List Round
two_rounds = round_after [] ∷ round_after ((16, 15) ∷ []) ∷ []

abbrev pub two_at_once : Settings
two_at_once = record {
  concurrency = 2;
  poll_interval = 5;
  max_runtime = 60;
  priorities = none;
  retention_days = 7;
  cleanup_interval = 3600;
  stale_task_timeout = none;
  reaper_interval = 300;
}

abbrev pub importer : Text → Text → Import Text
importer m n = found n

abbrev pub no_cron : Cron
no_cron = record { is_valid = λ e. false; get_next = λ e now. ok 0 }

abbrev pub same_text : List ℕ → Text
same_text bs = bs

abbrev host : Host
host = record { db = with_tasks (waiting_task ∷ []); os = record { processes = []; open_fds = [] } }

abbrev pub process : Process
process = record { handlers = own_handlers; shutdown = calm; host = host }

abbrev start : Loop
start = loop_start host calm

start-IsTracked : IsTracked 2 start
start-IsTracked = record {
  entries = refl;
  unwaited = refl;
  opened = tt;
  apart = tt;
  few = omega arith;
}

pub attempt-IsFresh : IsFreshAttempt attempt
attempt-IsFresh =
    ((next_number-IsFresh, next_number-IsFresh), (next_number-IsFresh, next_number-IsFresh))

round-IsAnswered : (arrivals : Arrivals) → RoundIsAnswered (round_after arrivals)
round-IsAnswered arrivals = record { selects = (_, refl); reaps = λ pid. (tt, tt) }

run_rounds-KeepsChildren_example :
    KeepsChildren 2
      (run_rounds sample_codec importer no_cron two_at_once same_text false two_rounds start)
run_rounds-KeepsChildren_example =
    run_rounds-KeepsChildren sample_codec importer no_cron two_at_once same_text false two_rounds
      start (λ i. attempt-IsFresh, (λ i. attempt-IsFresh, tt))
      (round-IsAnswered [], (round-IsAnswered ((16, 15) ∷ []), tt)) start-IsTracked

fill_enough_example :
    fill sample_codec importer no_cron two_at_once (3 + 4) (round_after []) 0 start
    ≡ fill sample_codec importer no_cron two_at_once 3 (round_after []) 0 start
fill_enough_example =
    fill_enough sample_codec importer no_cron two_at_once 3 4 (round_after []) 0 start
      (λ i. attempt-IsFresh) start-IsTracked (omega arith)

abbrev asked : ShutdownState
asked = record { signum = some 15; deadline = some 30; drain_timeout = 20; logged = false }

fill-requested_example :
    fill sample_codec importer no_cron two_at_once 3 (round_after []) 0 (loop_start host asked)
    ≡ loop_start host asked
unfolding requested
fill-requested_example =
    fill-requested sample_codec importer no_cron two_at_once 3 (round_after []) 0
      (loop_start host asked) refl
