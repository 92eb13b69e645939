-- ===== src/Worker/Child/Verdict.antt =====
-- What is to be recorded of a task, by how its child ended: the text of the error pipe counts for an
-- exit that is neither a success nor the alarm's.
use pq.Base.{
  ℕ, ◌/◌, ◌==◌, ◌≡◌, ◌≢◌, refl, Bool, true, false, Option, none, some, [], ◌∷◌, Text, arith, inl,
  inr, Bool-cases, codes, subst, sym, ◌∙◌, ◌⊎◌,
}
use pq.Models.{
  TaskStatus, completed, failed, ErrorMsg, message, timed_out, interrupted, likely_oom,
  killed_by_signal, failed_with_exit_code, unknown_exit_status, task_failed, is_truthy,
}
use pq.Worker.Child.{
  WaitStatus, signaled, exited, other_status, rstrip, child_result, signal_result, exit_result,
  error_result, slot_recorded, ExitKind, success, timeout, oom, killed, shutdown, error,
  ChildResult, recorded, raised_of, raise_kind, or_default,
}

module _ (was_killed : Bool) (drain_timeout max_rss : ℕ) (is_darwin : Bool) (elapsed : ℕ) where
  -- `ru_maxrss` is in bytes on Darwin and in kilobytes elsewhere.
  pub data SlotVerdict (text : Text) : WaitStatus → TaskStatus × Option ErrorMsg → Type 0 where
    succeeds : SlotVerdict text (exited 0) (completed, none)
    runs_out : SlotVerdict text (exited 124) (failed, some (timed_out elapsed))
    fails_silently :
        (n : ℕ)
        → n ≢ 0
        → n ≢ 124
        → text ≡ []
        → SlotVerdict text (exited n) (failed, some (failed_with_exit_code n))
    fails_with_text :
        (n : ℕ)
        → n ≢ 0
        → n ≢ 124
        → text ≢ []
        → SlotVerdict text (exited n) (failed, some (message (rstrip text)))
    killed_in_drain :
        was_killed ≡ true → SlotVerdict text (signaled 9) (failed, some (interrupted drain_timeout))
    out_of_memory :
        was_killed ≡ false
        → is_darwin ≡ false
        → SlotVerdict text (signaled 9) (failed, some (likely_oom max_rss))
    out_of_memory_on_darwin :
        was_killed ≡ false
        → is_darwin ≡ true
        → SlotVerdict text (signaled 9) (failed, some (likely_oom (max_rss / 1024)))
    ended_by_signal :
        (n : ℕ) → n ≢ 9 → SlotVerdict text (signaled n) (failed, some (killed_by_signal n))
    unknown_end : SlotVerdict text other_status (failed, some unknown_exit_status)

module _ (drain_timeout max_rss elapsed : ℕ) where
  nine-SlotVerdict :
      (was_killed is_darwin : Bool) (text : Text)
      → SlotVerdict was_killed drain_timeout max_rss is_darwin elapsed text (signaled 9) (
          slot_recorded elapsed
            (child_result was_killed drain_timeout max_rss is_darwin (signaled 9) text))
  unfolding slot_recorded child_result signal_result
  nine-SlotVerdict true is_darwin text = killed_in_drain refl
  nine-SlotVerdict false true text = out_of_memory_on_darwin refl refl
  nine-SlotVerdict false false text = out_of_memory refl refl

  module _ (was_killed : Bool) (is_darwin : Bool) (text : Text) where
    abbrev IsTold : WaitStatus → Type 0
    IsTold status = SlotVerdict was_killed drain_timeout max_rss is_darwin elapsed text status (
        slot_recorded elapsed (child_result was_killed drain_timeout max_rss is_darwin status text))

    signaled-SlotVerdict : (n : ℕ) → IsTold (signaled n)
    unfolding slot_recorded child_result signal_result
    signaled-SlotVerdict n = elim (Bool-cases (n == 9)) [
      | inl e ↦
          let q : 9 ≡ n = ground arith in
          subst (λ k. IsTold (signaled k)) q (nine-SlotVerdict was_killed is_darwin text)
      | inr e ↦
          subst (SlotVerdict was_killed drain_timeout max_rss is_darwin elapsed text (signaled n))
            (ground arith) (ended_by_signal n (λ q. ground arith))
    ]

    failing-SlotVerdict :
        (n : ℕ) (t : Text)
        → t ≡ text
        → n ≢ 0
        → n ≢ 124
        → SlotVerdict was_killed drain_timeout max_rss is_darwin elapsed text
            (exited n)
            (slot_recorded elapsed (error_result was_killed drain_timeout max_rss is_darwin n t))
    unfolding slot_recorded error_result
    failing-SlotVerdict n [] e ne ne' = fails_silently n ne ne' (sym e)
    failing-SlotVerdict n (c ∷ t) e ne ne' = rw e (fails_with_text n ne ne' (λ q. nothing (e ∙ q)))
      where
        nothing : c ∷ t ≢ []
        nothing q = cc

    exited-SlotVerdict : (n : ℕ) → IsTold (exited n)
    unfolding slot_recorded child_result exit_result error_result
    exited-SlotVerdict n = elim (Bool-cases (n == 0)) [
      | inl e ↦ let q : 0 ≡ n = ground arith in subst (λ k. IsTold (exited k)) q succeeds
      | inr e ↦ elim (Bool-cases (n == 124)) [
        | inl e' ↦ let q : 124 ≡ n = ground arith in subst (λ k. IsTold (exited k)) q runs_out
        | inr e' ↦
            subst
              (λ r.
                SlotVerdict was_killed drain_timeout max_rss is_darwin elapsed text (exited n)
                  (slot_recorded elapsed r))
              {x = error_result was_killed drain_timeout max_rss is_darwin n text}
              {y = child_result was_killed drain_timeout max_rss is_darwin (exited n) text}
              (rw (e, e') refl)
              (failing-SlotVerdict n text refl (λ q. ground arith) (λ q. ground arith))
      ]
    ]

    pub slot_recorded-SlotVerdict : (status : WaitStatus) → IsTold status
    unfolding slot_recorded child_result
    slot_recorded-SlotVerdict (signaled n) = signaled-SlotVerdict n
    slot_recorded-SlotVerdict (exited n) = exited-SlotVerdict n
    slot_recorded-SlotVerdict other_status = unknown_end

-- The text of a child's end where its own is missing or empty.
abbrev pub default_text : ExitKind → ErrorMsg
default_text oom = message (codes "Task killed (likely OOM)")
default_text killed = message (codes "Task killed by signal")
default_text shutdown = message (codes "Task interrupted by worker shutdown")
default_text _ = task_failed

-- The same where the worker waits for the child at once: by the result of the wait.
pub data RunVerdict (elapsed : ℕ) (r : ChildResult) : TaskStatus × Option ErrorMsg → Type 0 where
  returns : r.exit_kind ≡ success → RunVerdict elapsed r (completed, none)
  times_out : r.exit_kind ≡ timeout → RunVerdict elapsed r (failed, some (timed_out elapsed))
  tells :
      (m : ErrorMsg)
      → r.exit_kind ≢ success
      → r.exit_kind ≢ timeout
      → r.error_msg ≡ some m
      → is_truthy m ≡ true
      → RunVerdict elapsed r (failed, some m)
  says_nothing :
      r.exit_kind ≢ success
      → r.exit_kind ≢ timeout
      → (r.error_msg ≡ none) ⊎ ((m : ErrorMsg) × (r.error_msg ≡ some m) × (is_truthy m ≡ false))
      → RunVerdict elapsed r (failed, some (default_text r.exit_kind))

module _ (elapsed : ℕ) (r : ChildResult) where
  -- What `error_msg or default` gives.
  or_default-cases :
      (d : ErrorMsg) (o : Option ErrorMsg)
      → ((m : ErrorMsg) × (o ≡ some m) × (is_truthy m ≡ true) × (or_default o d ≡ m))
        ⊎ (((o ≡ none) ⊎ ((m : ErrorMsg) × (o ≡ some m) × (is_truthy m ≡ false)))
            × (or_default o d ≡ d))
  unfolding or_default
  or_default-cases d none = inr (inl refl, refl)
  or_default-cases d (some m) = elim (Bool-cases (is_truthy m)) [
    | inl e ↦ inl (m, refl, e, rw (e, or_default) refl)
    | inr e ↦ inr (inr (m, refl, e), rw (e, or_default) refl)
  ]

  failing-RunVerdict :
      (k : ExitKind)
      → r.exit_kind ≡ k
      → k ≢ success
      → k ≢ timeout
      → RunVerdict elapsed r (failed, some (or_default r.error_msg (default_text k)))
  failing-RunVerdict k e ne ne' =
      subst (λ k. RunVerdict elapsed r (failed, some (or_default r.error_msg (default_text k)))) e
        (elim (or_default-cases (default_text r.exit_kind) r.error_msg) [
          | inl (m, e', t, q) ↦ rw q (tells m (λ i. ne (sym e ∙ i)) (λ i. ne' (sym e ∙ i)) e' t)
          | inr (e', q) ↦ rw q (says_nothing (λ i. ne (sym e ∙ i)) (λ i. ne' (sym e ∙ i)) e')
        ])

by_kind-RunVerdict :
    (elapsed : ℕ) (r : ChildResult) (k : ExitKind)
    → r.exit_kind ≡ k
    → RunVerdict elapsed r (recorded elapsed (raise_kind k r.error_msg))
unfolding recorded raise_kind
by_kind-RunVerdict elapsed r success e = returns e
by_kind-RunVerdict elapsed r timeout e = times_out e
by_kind-RunVerdict elapsed r oom e = failing-RunVerdict elapsed r oom e (λ q. cc) (λ q. cc)
by_kind-RunVerdict elapsed r killed e = failing-RunVerdict elapsed r killed e (λ q. cc) (λ q. cc)
by_kind-RunVerdict elapsed r shutdown e =
    failing-RunVerdict elapsed r shutdown e (λ q. cc) (λ q. cc)
by_kind-RunVerdict elapsed r error e = failing-RunVerdict elapsed r error e (λ q. cc) (λ q. cc)

pub recorded-RunVerdict :
    (elapsed : ℕ) (r : ChildResult) → RunVerdict elapsed r (recorded elapsed (raised_of r))
unfolding raised_of
recorded-RunVerdict elapsed r = by_kind-RunVerdict elapsed r r.exit_kind refl
