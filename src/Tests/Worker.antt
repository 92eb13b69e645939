-- ===== src/Tests/Worker.antt =====
-- The worker's theorems at small inputs: a child that exits, a hook, a schedule under a limit.
use pq.Base.{ℕ, List, ◌≡◌, refl, inr, true, false, none, some, [], codes, arith}
use pq.Errors.{ok}
use pq.Models.{Periodic}
use pq.Client.Schedule.{Cron}
use pq.Worker.Child.{
  exited, child_result, raised_of, recorded, slot_recorded, rstrip, strip_step, is_space,
}
use pq.Worker.Child.Outcome.{slot_recorded-eq-recorded}
use pq.Worker.Periodic.{advance_row, is_due, lock_duration}
use pq.Worker.Periodic.Overlap.{advance_row-locks}
use pq.Worker.Runner.{exception, exits, written, run_in_child, try_block, error_text}
use pq.Worker.Runner.EndToEnd.{parent_records, Intended, parent_records-run_in_child}
use pq.Worker.Wait.{decode_error}
use pq.Tests.Samples.{session_at, no_payload}

slot_recorded-eq-recorded_example :
    slot_recorded 7 (child_result false 0 0 false (exited 1) (codes "E: x\n"))
    ≡ recorded 7 (raised_of (child_result false 0 0 false (exited 1) (codes "E: x\n")))
unfolding rstrip strip_step is_space
slot_recorded-eq-recorded_example =
    slot_recorded-eq-recorded false 0 0 false 7 (exited 1) (codes "E: x\n")
      (inr (λ e. ground arith))

abbrev same_codes : List ℕ → List ℕ
same_codes bs = bs

parent_records-run_in_child_example :
    (code : ℕ) × (pipe : List ℕ) × (run_in_child same_codes false written
        (some none)
        (some (exception (codes "KeyError") (codes "k") (codes "at f")))
        (some none)
      ≡ exits code pipe)
    × Intended 7 written
        (try_block (some none) (some (exception (codes "KeyError") (codes "k") (codes "at f"))))
        (parent_records same_codes same_codes 7 code pipe)
unfolding try_block error_text decode_error
parent_records-run_in_child_example =
    parent_records-run_in_child same_codes same_codes 7 written (some none) (some none)
      (some (exception (codes "KeyError") (codes "k") (codes "at f"))) (λ e. ground arith)
      (λ e. ground arith) refl

abbrev pub no_cron : Cron
no_cron = record { is_valid = λ e. false; get_next = λ e now. ok 0 }

-- Every ten seconds, at most one run, of at most five seconds.
abbrev pub limited_schedule : Periodic
limited_schedule = record {
  id = 1;
  client_id = none;
  name = codes "app:sync";
  key = [];
  payload = no_payload;
  priority = 50;
  run_every = some 10000000;
  cron = none;
  next_run = 0;
  max_concurrent = some 1;
  active = true;
  max_runtime_seconds = some 5000000;
  last_run = none;
  locked_until = none;
  created_at = 0;
}

-- The same after a claim at the first second.
abbrev pub advanced_schedule : Periodic
advanced_schedule = record limited_schedule {
  next_run = 11000000;
  last_run = some 1000000;
  locked_until = some 6000000;
}

advance-limited_schedule :
    advance_row no_cron (session_at 1000000) 60000000 limited_schedule ≡ ok advanced_schedule
unfolding advance_row lock_duration
advance-limited_schedule = refl

advance_row-locks_example : is_due (session_at 3000000) none advanced_schedule ≡ false
unfolding lock_duration
advance_row-locks_example =
    advance_row-locks no_cron (session_at 1000000) (session_at 3000000) none 60000000
      limited_schedule advanced_schedule advance-limited_schedule refl (omega arith)
