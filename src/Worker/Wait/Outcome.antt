-- ===== src/Worker/Wait/Outcome.antt =====
-- What `_wait_for_child` of src/pq/worker.py makes of the rounds of its loop.
use mathlib.Core.List.{append-nil, append_assoc}
use pq.Base.{
  ℕ, ◌≡◌, refl, sym, ap, ◌∙◌, Bool, true, false, ◌&&◌, ◌||◌, not, Option, none, some, List, [], ◌∷◌,
  ◌++◌, Text, ◌⊎◌, inl, inr,
}
use pq.Errors.{PyError}
use pq.Worker.Child.{ChildResult, WaitStatus, child_result}
use pq.Worker.Shutdown.{ShutdownState, deadline_passed, log_request, Arrivals, handle_all}
use pq.Worker.Shutdown.Signals.{
  drain_end, is_over, Tracks, log_request-Tracks, handle_all-Tracks, deadline_passed-Tracks,
}
use pq.Worker.Wait.{
  Answer, wait4_raises, select_raises, has_exited, still_runs, Waited, blocks, throws, gives,
  after_loop, Poll, Read, Waiting, taken, wait_round, see_signals, wait_loop, drain_pipe,
  decode_error, result_of, wait_for_child,
}

-- How and when the child exits: in the first round whose `wait4` has a status, where no call of the
-- system raises before.
abbrev pub exit_of : List Poll → Option (WaitStatus × ℕ)
exit_of [] = none
exit_of (p ∷ ps) = elim p.answer [
  | wait4_raises e ↦ none
  | has_exited status ↦ some status
  | select_raises e ↦ none
  | still_runs ready ↦ exit_of ps
]

-- The bytes that the rounds before it read.
abbrev pub bytes_until_exit : List Poll → List ℕ
bytes_until_exit [] = []
bytes_until_exit (p ∷ ps) = elim p.answer [
  | wait4_raises e ↦ []
  | has_exited status ↦ []
  | select_raises e ↦ []
  | still_runs ready ↦ taken ready ++ bytes_until_exit ps
]

-- In one of these rounds the drain of the signals so far was over.
abbrev pub is_overdue : ℕ → Arrivals → List Poll → Bool
is_overdue drain_timeout seen [] = false
is_overdue drain_timeout seen (p ∷ ps) = elim p.answer [
  | wait4_raises e ↦ false
  | has_exited status ↦ false
  | select_raises e ↦ false
  | still_runs ready ↦
      is_over (drain_end drain_timeout (seen ++ p.arrivals)) p.now
      || is_overdue drain_timeout (seen ++ p.arrivals) ps
]

abbrev pub arrivals_until_exit : List Poll → Arrivals
arrivals_until_exit [] = []
arrivals_until_exit (p ∷ ps) = elim p.answer [
  | wait4_raises e ↦ p.arrivals
  | has_exited status ↦ p.arrivals
  | select_raises e ↦ p.arrivals
  | still_runs ready ↦ p.arrivals ++ arrivals_until_exit ps
]

killed_once : (k o r : Bool) → ((k || (not k && o)) || r) ≡ (k || (o || r))
killed_once true o r = refl
killed_once false o r = refl

-- The rounds that end the loop, and the others.
pub Answer-cases :
    (a : Answer)
    → ((ready : Option Read) × (a ≡ still_runs ready))
      ⊎ ((st : WaitStatus × ℕ) × (a ≡ has_exited st))
      ⊎ ((e : PyError) × ((a ≡ wait4_raises e) ⊎ (a ≡ select_raises e)))
Answer-cases (still_runs ready) = inl (ready, refl)
Answer-cases (has_exited st) = inr (inl (st, refl))
Answer-cases (wait4_raises e) = inr (inr (e, inl refl))
Answer-cases (select_raises e) = inr (inr (e, inr refl))

module _ (p : Poll) (ps : List Poll) (w : Waiting) where
  pub wait_loop-exit :
      (st : WaitStatus × ℕ)
      → p.answer ≡ has_exited st
      → wait_loop (p ∷ ps) w ≡ gives (st, see_signals p w)
  unfolding wait_loop
  wait_loop-exit st q = rw q refl

  pub wait_loop-round :
      (ready : Option Read)
      → p.answer ≡ still_runs ready
      → wait_loop (p ∷ ps) w ≡ wait_loop ps (wait_round p.now ready (see_signals p w))
  unfolding wait_loop
  wait_loop-round ready q = simp q

pub exit_of-exit :
    (p : Poll) (ps : List Poll) (st : WaitStatus × ℕ)
    → p.answer ≡ has_exited st
    → exit_of (p ∷ ps) ≡ some st
exit_of-exit p ps st q = rw q refl

pub exit_of-round :
    (p : Poll) (ps : List Poll) (ready : Option Read)
    → p.answer ≡ still_runs ready
    → exit_of (p ∷ ps) ≡ exit_of ps
exit_of-round p ps ready q = rw q refl

pub exit_of-raise :
    (p : Poll) (ps : List Poll) (e : PyError)
    → (p.answer ≡ wait4_raises e) ⊎ (p.answer ≡ select_raises e)
    → exit_of (p ∷ ps) ≡ none
exit_of-raise p ps e (inl q) = rw q refl
exit_of-raise p ps e (inr q) = rw q refl

module _ (drain_timeout : ℕ) where
  -- The loop's variables, by these.
  pub record Looped (polls : List Poll) (seen : Arrivals) (w w' : Waiting) : Type 0 where
    pub killed : w'.killed_by_drain ≡ (w.killed_by_drain || is_overdue drain_timeout seen polls)
    pub read : w'.error_bytes ≡ w.error_bytes ++ bytes_until_exit polls
    pub tracked : Tracks drain_timeout (seen ++ arrivals_until_exit polls) w'.shutdown

  wait_round-Looped :
      (p : Poll) (ps : List Poll) (seen : Arrivals) (w w' : Waiting) (ready : Option Read)
      → p.answer ≡ still_runs ready
      → Tracks drain_timeout seen w.shutdown
      → Looped ps (seen ++ p.arrivals) (wait_round p.now ready (see_signals p w)) w'
      → Looped (p ∷ ps) seen w w'
  unfolding wait_round
  wait_round-Looped p ps seen w w' ready q t l = record {
    killed = rw q (l.killed ∙ kills);
    read = rw q (l.read ∙ append_assoc w.error_bytes (taken ready) (bytes_until_exit ps));
    tracked = rw (q, ← append_assoc seen p.arrivals (arrivals_until_exit ps)) l.tracked;
  }
    where
      over :
          deadline_passed p.now (log_request (handle_all p.arrivals w.shutdown))
          ≡ is_over (drain_end drain_timeout (seen ++ p.arrivals)) p.now
      over = deadline_passed-Tracks drain_timeout (seen ++ p.arrivals) p.now _ (
          log_request-Tracks drain_timeout (seen ++ p.arrivals) _
            (handle_all-Tracks drain_timeout seen p.arrivals w.shutdown t))

      kills :
          ((w.killed_by_drain
              || (not w.killed_by_drain
                  && deadline_passed p.now (log_request (handle_all p.arrivals w.shutdown))))
            || is_overdue drain_timeout (seen ++ p.arrivals) ps)
          ≡ (w.killed_by_drain
              || (is_over (drain_end drain_timeout (seen ++ p.arrivals)) p.now
                  || is_overdue drain_timeout (seen ++ p.arrivals) ps))
      kills =
          ap
            (λ o.
              (w.killed_by_drain || (not w.killed_by_drain && o))
              || is_overdue drain_timeout (seen ++ p.arrivals) ps)
            over
          ∙ killed_once w.killed_by_drain _ _

  exit-Looped :
      (p : Poll) (ps : List Poll) (seen : Arrivals) (w : Waiting) (st : WaitStatus × ℕ)
      → p.answer ≡ has_exited st
      → Tracks drain_timeout seen w.shutdown
      → Looped (p ∷ ps) seen w (see_signals p w)
  exit-Looped p ps seen w st q t = record {
    killed = rw q (never w.killed_by_drain);
    read = rw q (sym (append-nil w.error_bytes));
    tracked = rw q (handle_all-Tracks drain_timeout seen p.arrivals w.shutdown t);
  }
    where
      never : (k : Bool) → k ≡ (k || false)
      never true = refl
      never false = refl

  round-Tracks :
      (p : Poll) (seen : Arrivals) (w : Waiting) (ready : Option Read)
      → Tracks drain_timeout seen w.shutdown
      → Tracks drain_timeout
          (seen ++ p.arrivals)
          (wait_round p.now ready (see_signals p w)).shutdown
  unfolding wait_round
  round-Tracks p seen w ready t =
      log_request-Tracks drain_timeout (seen ++ p.arrivals) _
        (handle_all-Tracks drain_timeout seen p.arrivals w.shutdown t)

  wait_loop-Looped :
      (polls : List Poll) (seen : Arrivals) (w : Waiting) (status : WaitStatus × ℕ)
      → Tracks drain_timeout seen w.shutdown
      → exit_of polls ≡ some status
      → (w' : Waiting) × (wait_loop polls w ≡ gives (status, w')) × Looped polls seen w w'
  wait_loop-Looped [] seen w status t e = cc
  wait_loop-Looped (p ∷ ps) seen w status t e = elim (Answer-cases p.answer) [
    | inr (inl (st, q)) ↦
        let same : st ≡ status = cc (sym (exit_of-exit p ps st q) ∙ e) in
        (
          see_signals p w,
          wait_loop-exit p ps w st q ∙ ap (λ x. gives (x, see_signals p w)) same,
          exit-Looped p ps seen w st q t,
        )
    | inr (inr (x, q)) ↦ absurd (none_ne_some status (sym (exit_of-raise p ps x q) ∙ e))
    | inl (ready, q) ↦
        let (w', runs, l) =
          wait_loop-Looped ps (seen ++ p.arrivals) (wait_round p.now ready (see_signals p w)) status
            (round-Tracks p seen w ready t) (sym (exit_of-round p ps ready q) ∙ e) in
        (w', wait_loop-round p ps w ready q ∙ runs, wait_round-Looped p ps seen w w' ready q t l)
  ]
    where
      none_ne_some : (x : WaitStatus × ℕ) → ◌≡◌ {A = Option (WaitStatus × ℕ)} none (some x) → ⊥
      none_ne_some x e = cc

module _ (decode : List ℕ → Text) (is_darwin : Bool) (rest : List Read) where
  wait_for_child-loop :
      (polls : List Poll) (s : ShutdownState) (r : (WaitStatus × ℕ) × Waiting) (bs : List ℕ)
      → wait_loop polls (record { killed_by_drain = false; error_bytes = []; shutdown = s })
        ≡ gives r
      → drain_pipe rest ≡ some bs
      → wait_for_child decode is_darwin polls rest s ≡ result_of decode is_darwin r (some bs)
  unfolding wait_for_child after_loop
  wait_for_child-loop polls s r bs e q =
      ap (after_loop decode is_darwin rest) e ∙ ap (result_of decode is_darwin r) q

  result_of_lem :
      (status : WaitStatus) (max_rss drain_timeout : ℕ) (killed : Bool) (read bs : List ℕ)
      (w : Waiting)
      → w.killed_by_drain ≡ killed
      → w.error_bytes ≡ read
      → w.shutdown.drain_timeout ≡ drain_timeout
      → result_of decode is_darwin ((status, max_rss), w) (some bs)
        ≡ gives (
          child_result killed drain_timeout max_rss is_darwin status
              (decode_error decode (read ++ bs)),
          w.shutdown,
        )
  unfolding result_of
  result_of_lem status max_rss drain_timeout killed read bs w k b d = cc

pub wait_for_child_lem :
    (decode : List ℕ → Text) (is_darwin : Bool) (drain_timeout : ℕ) (seen : Arrivals)
    (polls : List Poll) (rest : List Read) (bs : List ℕ) (s : ShutdownState) (status : WaitStatus)
    (max_rss : ℕ)
    → Tracks drain_timeout seen s
    → exit_of polls ≡ some (status, max_rss)
    → drain_pipe rest ≡ some bs
    → (s' : ShutdownState) × (wait_for_child decode is_darwin polls rest s
        ≡ gives (
          child_result
              (is_overdue drain_timeout seen polls)
              drain_timeout
              max_rss
              is_darwin
              status
              (decode_error decode (bytes_until_exit polls ++ bs)),
          s',
        ))
      × Tracks drain_timeout (seen ++ arrivals_until_exit polls) s'
wait_for_child_lem decode is_darwin drain_timeout seen polls rest bs s status max_rss t e q =
    let (w, runs, l) =
      wait_loop-Looped drain_timeout polls seen
        (record { killed_by_drain = false; error_bytes = []; shutdown = s }) (status, max_rss) t
        e in
    (
      w.shutdown,
      wait_for_child-loop decode is_darwin rest polls s ((status, max_rss), w) bs runs q
          ∙ result_of_lem decode is_darwin rest status max_rss drain_timeout _ _ bs w l.killed
              l.read l.tracked.budget,
      l.tracked,
    )

-- A wait that ended, ended with its reads.
pub wait_for_child-drained :
    (decode : List ℕ → Text) (is_darwin : Bool) (polls : List Poll) (rest : List Read)
    (s : ShutdownState) (x : ChildResult × ShutdownState)
    → wait_for_child decode is_darwin polls rest s ≡ gives x
    → (bs : List ℕ) × (drain_pipe rest ≡ some bs)
unfolding wait_for_child after_loop result_of
wait_for_child-drained decode is_darwin polls rest s x e =
    by_loop (wait_loop polls (record { killed_by_drain = false; error_bytes = []; shutdown = s })) e
  where
    by_pipe :
        (r : (WaitStatus × ℕ) × Waiting) (o : Option (List ℕ))
        → drain_pipe rest ≡ o
        → result_of decode is_darwin r o ≡ gives x
        → (bs : List ℕ) × (drain_pipe rest ≡ some bs)
    by_pipe r none q f = cc
    by_pipe r (some bs) q f = (bs, q)

    by_loop :
        (y : Waited ((WaitStatus × ℕ) × Waiting))
        → after_loop decode is_darwin rest y ≡ gives x
        → (bs : List ℕ) × (drain_pipe rest ≡ some bs)
    by_loop blocks f = cc
    by_loop (throws e' s') f = cc
    by_loop (gives r) f = by_pipe r (drain_pipe rest) refl f
