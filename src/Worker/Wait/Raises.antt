-- ===== src/Worker/Wait/Raises.antt =====
-- The waits of src/pq/worker.py in which no call of the system raises.
use pq.Base.{ℕ, ◌≡◌, Bool, false, Option, none, some, List, [], ◌∷◌, All, Text}
use pq.Errors.{PyError}
use pq.Worker.Child.{ChildResult, WaitStatus}
use pq.Worker.Shutdown.{ShutdownState}
use pq.Worker.Wait.{
  Answer, wait4_raises, select_raises, has_exited, still_runs, Poll, Read, Waiting, Waited, blocks,
  throws, gives, wait_round, see_signals, wait_loop, drain_pipe, result_of, after_loop,
  wait_for_child,
}

-- `os.wait4` and `select` do not raise in the round.
abbrev pub IsAnswered : Answer → Type 0
IsAnswered (wait4_raises e) = ⊥
IsAnswered (select_raises e) = ⊥
IsAnswered _ = Unit

wait_loop-answered :
    (polls : List Poll) (w : Waiting) (e : PyError) (s : ShutdownState)
    → All (λ (p : Poll). IsAnswered p.answer) polls
    → wait_loop polls w ≡ throws e s
    → ⊥
unfolding wait_loop
wait_loop-answered [] w e s h q = cc
wait_loop-answered (p ∷ ps) w e s h q =
    by_answer p.answer h.0 (λ ready. wait_loop-answered ps _ e s h.1) q
  where
    by_answer :
        (a : Answer)
        → IsAnswered a
        → ((ready : Option Read)
            → wait_loop ps (wait_round p.now ready (see_signals p w)) ≡ throws e s
            → ⊥)
        → ◌≡◌ {A = Waited ((WaitStatus × ℕ) × Waiting)}
            (elim a [
              | wait4_raises e' ↦ throws e' (see_signals p w).shutdown
              | has_exited status ↦ gives (status, see_signals p w)
              | select_raises e' ↦ throws e' (wait_round p.now none (see_signals p w)).shutdown
              | still_runs ready ↦ wait_loop ps (wait_round p.now ready (see_signals p w))
            ])
            (throws e s)
        → ⊥
    by_answer (wait4_raises e') k g f = absurd k
    by_answer (select_raises e') k g f = absurd k
    by_answer (has_exited st) k g f = cc
    by_answer (still_runs ready) k g f = g ready f

pub wait_for_child-answered :
    (decode : List ℕ → Text) (is_darwin : Bool) (polls : List Poll) (rest : List Read)
    (st : ShutdownState) (e : PyError) (s : ShutdownState)
    → All (λ (p : Poll). IsAnswered p.answer) polls
    → wait_for_child decode is_darwin polls rest st ≡ throws e s
    → ⊥
unfolding wait_for_child after_loop result_of
wait_for_child-answered decode is_darwin polls rest st e s h q =
    by_loop (wait_loop polls (record { killed_by_drain = false; error_bytes = []; shutdown = st }))
      (λ f. wait_loop-answered polls _ e s h f) q
  where
    by_pipe :
        (r : (WaitStatus × ℕ) × Waiting) (o : Option (List ℕ))
        → result_of decode is_darwin r o ≡ throws e s
        → ⊥
    by_pipe r none f = cc
    by_pipe r (some bs) f = cc

    by_loop :
        (y : Waited ((WaitStatus × ℕ) × Waiting))
        → (y ≡ throws e s → ⊥)
        → after_loop decode is_darwin rest y ≡ throws e s
        → ⊥
    by_loop blocks k f = cc
    by_loop (throws e' s') k f = k (alike f)
      where
        alike :
            ◌≡◌ {A = Waited (ChildResult × ShutdownState)} (throws e' s') (throws e s)
            → ◌≡◌ {A = Waited ((WaitStatus × ℕ) × Waiting)} (throws e' s') (throws e s)
        alike g = cc
    by_loop (gives r) k f = by_pipe r (drain_pipe rest) f
