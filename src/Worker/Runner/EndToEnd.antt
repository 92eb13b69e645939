-- ===== src/Worker/Runner/EndToEnd.antt =====
-- From what a handler does in the child to what the parent of src/pq/worker.py records on the row.
use pq.Base.{
  sym, subst, ap, ◌∙◌, ℕ, ◌≡◌, ◌≢◌, refl, false, Option, none, some, List, [], ◌∷◌, ◌++◌, Text,
}
use pq.Models.{
  task_failed, TaskStatus, completed, failed, ErrorMsg, message, timed_out, failed_with_exit_code,
}
use pq.Worker.Child.{
  plain_error, exited, child_result, raised_of, raise_kind, or_default, exit_result, error_result,
  is_space, recorded, rstrip,
}
use pq.Worker.Child.Outcome.{rstrip-append_ne_nil}
use pq.Worker.Wait.{decode_error}
use pq.Worker.Runner.{
  after_hook, timeout_exn, exception, base_exception, Outcome, exits, Report, format_raises,
  write_raises, written, sent, run_in_child, try_block, exit_with, error_text,
}

-- What is to be recorded of a task, by the end of the handler and of the report.
pub data Intended (elapsed : ℕ) (report : Report)
    : Outcome → TaskStatus × Option ErrorMsg → Type 0 where
  returned : Intended elapsed report none (completed, none)
  ran_out : Intended elapsed report (some timeout_exn) (failed, some (timed_out elapsed))
  told :
      (n t tb : Text)
      → report ≡ written
      → Intended elapsed report
          (some (exception n t tb))
          (failed, some (message (rstrip (n ++ b':' ∷ b' ' ∷ (t ++ 10 ∷ tb)))))
  untold :
      (n t tb : Text)
      → report ≢ written
      → Intended elapsed report (some (exception n t tb)) (failed, some (failed_with_exit_code 1))

-- A hook that returns, raises an `Exception`, or is not there.
abbrev pub IsHarmless : Option Outcome → Type 0
IsHarmless post = post ≢ some (some base_exception)

-- The text of an error has a colon, so the parent reads it.
error_text-rstrip_ne_nil : (n t tb : Text) → rstrip (error_text n t tb) ≢ []
unfolding error_text is_space
error_text-rstrip_ne_nil n t tb = rstrip-append_ne_nil n 58 (32 ∷ (t ++ 10 ∷ tb)) refl

error_recorded :
    (elapsed : ℕ) (x : Text)
    → rstrip x ≢ []
    → recorded elapsed (raised_of (error_result false 0 0 false 1 x))
      ≡ (failed, some (message (rstrip x)))
unfolding recorded raised_of raise_kind or_default error_result rstrip
error_recorded elapsed [] h = absurd (h refl)
error_recorded elapsed (c ∷ x) h = kept (rstrip (c ∷ x)) h
  where
    kept :
        (r : Text)
        → r ≢ []
        → recorded elapsed (some (plain_error (or_default (some (message r)) task_failed)))
          ≡ (failed, some (message r))
    kept [] k = absurd (k refl)
    kept (d ∷ r) k = refl

module _ (encode : Text → List ℕ) (decode : List ℕ → Text) where
  harmless_hook :
      (report : Report) (pre post : Option Outcome) (handler : Outcome)
      → IsHarmless post
      → run_in_child encode false report pre handler post
        ≡ exit_with encode report (try_block pre handler)
  unfolding run_in_child after_hook
  harmless_hook report pre none handler h = refl
  harmless_hook report pre (some none) handler h = refl
  harmless_hook report pre (some (some timeout_exn)) handler h = refl
  harmless_hook report pre (some (some (exception n t tb))) handler h = refl
  harmless_hook report pre (some (some base_exception)) handler h = absurd (h refl)

  -- What the parent records of a child that ended by `os._exit` with this code and error pipe.
  unfoldable pub parent_records : ℕ → ℕ → List ℕ → TaskStatus × Option ErrorMsg
  parent_records elapsed code pipe =
      recorded elapsed
        (raised_of (child_result false 0 0 false (exited code) (decode_error decode pipe)))

  -- The text of an exception comes out of its bytes as it was.
  abbrev pub IsReadBack : Outcome → Type 0
  IsReadBack (some (exception n t tb)) =
      decode_error decode (encode (error_text n t tb)) ≡ error_text n t tb
  IsReadBack _ = Unit

  recorded_end :
      (elapsed : ℕ) (report : Report) (o : Outcome)
      → IsReadBack o
      → o ≢ some base_exception
      → (code : ℕ) × (pipe : List ℕ) × (exit_with encode report o ≡ exits code pipe)
        × Intended elapsed report o (parent_records elapsed code pipe)
  unfolding parent_records exit_with sent recorded raised_of raise_kind or_default child_result
      exit_result error_result decode_error error_text
  recorded_end elapsed report none b h = (_, _, refl, returned)
  recorded_end elapsed report (some timeout_exn) b h = (_, _, refl, ran_out)
  recorded_end elapsed format_raises (some (exception n t tb)) b h =
      (_, _, refl, untold n t tb (λ e. cc))
  recorded_end elapsed write_raises (some (exception n t tb)) b h =
      (_, _, refl, untold n t tb (λ e. cc))
  recorded_end elapsed written (some (exception n t tb)) b h = (
    _,
    _,
    refl,
    subst (Intended elapsed written (some (exception n t tb)))
        (sym (
          ap (λ x. recorded elapsed (raised_of (error_result false 0 0 false 1 x))) b
          ∙ error_recorded elapsed (error_text n t tb) (error_text-rstrip_ne_nil n t tb)))
        (told n t tb refl),
  )
  recorded_end elapsed report (some base_exception) b h = absurd (h refl)

  -- Where the alarm is set, the handler and the hooks raise nothing outside `Exception`, and the text
  -- of an exception comes out of its bytes as it was: the child exits and the parent records COMPLETED without an error,
  -- FAILED for a TimeoutError, or FAILED with the type, the text and the traceback of the exception;
  -- with the exit code where that text cannot be formatted or written. `post_execute` changes nothing.
  pub parent_records-run_in_child :
      (elapsed : ℕ) (report : Report) (pre post : Option Outcome) (handler : Outcome)
      → IsHarmless post
      → try_block pre handler ≢ some base_exception
      → IsReadBack (try_block pre handler)
      → (code : ℕ) × (pipe : List ℕ) × (run_in_child encode false report pre handler post
          ≡ exits code pipe)
        × Intended elapsed report (try_block pre handler) (parent_records elapsed code pipe)
  parent_records-run_in_child elapsed report pre post handler harmless ordinary back =
      let (code, pipe, e, i) = recorded_end elapsed report (try_block pre handler) back ordinary in
      (code, pipe, harmless_hook report pre post handler harmless ∙ e, i)
