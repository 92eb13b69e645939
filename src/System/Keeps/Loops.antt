-- ===== src/System/Keeps/Loops.antt =====
-- A run of a worker of src/pq/worker.py, and the task table's invariant.
use pq.Base.{
  ℕ, zero, suc, ◌+◌, Bool, not, Option, none, some, List, [], ◌∷◌, All, Text, length, ltb,
  if_either, if_both,
}
use pq.Errors.{Result, ok, err}
use pq.Database.{Db, Env}
use pq.Database.Consistent.{IsConsistent}
use pq.Registry.{Import}
use pq.Serialization.{Codec}
use pq.Client.Schedule.{Cron}
use pq.System.Keeps.Worker.{reap_stale_tasks-IsConsistent}
use pq.System.Keeps.Slots.{HostKeeps, try_claim_and_fork-HostKeeps}
use pq.System.Keeps.Rounds.{
  RoundKeeps, LoopKeeps, FlowIsConsistent, and_then-FlowIsConsistent,
  wait_for_events-FlowIsConsistent, drain-FlowIsConsistent, maybe_run_cleanup-keeps,
}
use pq.Worker.Shutdown.{requested, handle_all}
use pq.Worker.Maintenance.{maybe_reap_stale}
use pq.Worker.Slots.{ChildSlot, Host, try_claim_and_fork}
use pq.Worker.Concurrent.{
  Loop, Settings, Round, Flow, waits, raises, goes_on, signalled, register, attempted, cleaned,
  maintain, finish_turn, attempt_at, fill, turn, Ending, running, stopped, raised, waiting, ended,
  after_turn, run_rounds,
}

maybe_reap_stale-keeps :
    (stale_task_timeout : Option ℕ) (reaper_interval now : ℕ) (env : Env) (last_reap : ℕ) (db : Db)
    → IsConsistent db
    → IsConsistent (maybe_reap_stale stale_task_timeout reaper_interval now env last_reap db).1
unfolding maybe_reap_stale
maybe_reap_stale-keeps none reaper_interval now env last_reap db k = k
maybe_reap_stale-keeps (some threshold) reaper_interval now env last_reap db k =
    if_either (ltb now (last_reap + reaper_interval)) (λ (x : ℕ × Db). IsConsistent x.1) k
      (reap_stale_tasks-IsConsistent env threshold db k)

module _ (settings : Settings) (r : Round) (keep : RoundKeeps r) where
  cleaned-FlowIsConsistent :
      (st : Loop) (x : Result ℕ × Db)
      → IsConsistent x.1
      → FlowIsConsistent (cleaned settings r st x)
  unfolding cleaned
  cleaned-FlowIsConsistent st (err e, db) k = k
  cleaned-FlowIsConsistent st (ok last, db) k =
      maybe_reap_stale-keeps settings.stale_task_timeout settings.reaper_interval r.reap_now
        r.reap_env st.last_reap db k

  pub maintain-FlowIsConsistent :
      (st : Loop) → LoopKeeps st → FlowIsConsistent (maintain settings r st)
  unfolding maintain
  maintain-FlowIsConsistent st k = cleaned-FlowIsConsistent st _ (
      maybe_run_cleanup-keeps r.cleaning keep.cleanups settings.retention_days
        settings.cleanup_interval st.last_cleanup st.host.db k)

  finish_turn-FlowIsConsistent :
      (st : Loop) → LoopKeeps st → FlowIsConsistent (finish_turn settings r st)
  unfolding finish_turn
  finish_turn-FlowIsConsistent st k =
      if_either (requested (handle_all r.after_events st.shutdown)) FlowIsConsistent k
        (maintain-FlowIsConsistent (signalled r.after_events st) k)

-- The tables at the end of a loop, or where it stands.
abbrev pub EndingIsConsistent : Ending → Type 0
EndingIsConsistent (running st) = LoopKeeps st
EndingIsConsistent (stopped st) = LoopKeeps st
EndingIsConsistent (raised e st) = LoopKeeps st
EndingIsConsistent waiting = Unit

ended-EndingIsConsistent : (x : Flow) → FlowIsConsistent x → EndingIsConsistent (ended x)
unfolding ended
ended-EndingIsConsistent waits h = tt
ended-EndingIsConsistent (raises e st) h = h
ended-EndingIsConsistent (goes_on st) h = h

pub after_turn-EndingIsConsistent :
    (x : Flow) (f : Loop → Ending)
    → FlowIsConsistent x
    → ((st : Loop) → LoopKeeps st → EndingIsConsistent (f st))
    → EndingIsConsistent (after_turn x f)
unfolding after_turn
after_turn-EndingIsConsistent waits f h k = tt
after_turn-EndingIsConsistent (raises e st) f h k = h
after_turn-EndingIsConsistent (goes_on st) f h k = k st h

attempted-LoopKeeps :
    (x : Option ChildSlot × Host) (st : Loop) → HostKeeps x.1 → LoopKeeps (attempted x st).1
unfolding attempted register
attempted-LoopKeeps (none, h) st k = k
attempted-LoopKeeps (some slot, h) st k = k

module _ (c : Codec) {F : Type 0} (importer : Text → Text → Import F) (cron : Cron)
    (settings : Settings) where
  fill-LoopKeeps :
      (fuel : ℕ) (r : Round) (i : ℕ) (st : Loop)
      → RoundKeeps r
      → LoopKeeps st
      → LoopKeeps (fill c importer cron settings fuel r i st)
  unfolding fill attempt_at
  fill-LoopKeeps zero r i st keep k = k
  fill-LoopKeeps (suc fuel) r i st keep k =
      if_both (ltb (length st.children) settings.concurrency) (not (requested st'.shutdown))
        LoopKeeps
        (λ room. if_either next.0 LoopKeeps (fill-LoopKeeps fuel r (suc i) next.1 keep after) after)
        k
    where
      st' : Loop
      st' = signalled (r.before_attempt i) st

      next : Bool × Loop
      next = attempt_at c importer cron settings r i st'

      after : LoopKeeps next.1
      after =
          attempted-LoopKeeps
            (try_claim_and_fork c importer cron settings.priorities settings.max_runtime
              (r.attempt i) st'.host)
            st'
            (try_claim_and_fork-HostKeeps c importer cron settings.priorities settings.max_runtime
              (r.attempt i) (keep.attempts i) st'.host k)

  module _ (decode : List ℕ → Text) (is_darwin : Bool) where
    turn-FlowIsConsistent :
        (r : Round) (st : Loop)
        → RoundKeeps r
        → LoopKeeps st
        → FlowIsConsistent (turn c importer cron settings decode is_darwin r st)
    unfolding turn
    turn-FlowIsConsistent r st keep k =
        and_then-FlowIsConsistent _ (finish_turn settings r)
          (wait_for_events-FlowIsConsistent decode is_darwin r keep settings.poll_interval _
            (fill-LoopKeeps (suc settings.concurrency) r 0 st keep k))
          (finish_turn-FlowIsConsistent settings r keep)

    pub run_rounds-EndingIsConsistent :
        (rs : List Round) (st : Loop)
        → All RoundKeeps rs
        → LoopKeeps st
        → EndingIsConsistent (run_rounds c importer cron settings decode is_darwin rs st)
    unfolding run_rounds
    run_rounds-EndingIsConsistent [] st keep k = k
    run_rounds-EndingIsConsistent (r ∷ rs) st keep k =
        if_either (requested (handle_all r.at_start st.shutdown)) EndingIsConsistent
          (ended-EndingIsConsistent _
            (drain-FlowIsConsistent decode is_darwin r keep.0 (signalled r.at_start st) k))
          (after_turn-EndingIsConsistent _ (run_rounds c importer cron settings decode is_darwin rs)
            (turn-FlowIsConsistent r (signalled r.at_start st) keep.0 k)
            (λ u. run_rounds-EndingIsConsistent rs u keep.1))
