-- ===== src/Worker/Concurrent/Rounds.antt =====
-- The turns of `_run_concurrent` of src/pq/worker.py and its dictionaries.
use pq.Base.{ℕ, ◌≡◌, refl, Bool, List, All, In, map, delete, ap, ◌∙◌, subst, ◌==◌, Text}
use pq.Database.{Db}
use pq.Worker.Child.{ChildResult}
use pq.Errors.{PyError, ok}
use pq.Worker.Wait.{Poll, Waited, blocks, throws, gives, wait_for_child}
use pq.Worker.Wait.Raises.{IsAnswered, wait_for_child-answered}
use pq.Worker.Shutdown.{ShutdownState}
use pq.Worker.Slots.{ChildSlot, Host, Reaping, after_wait, reap_and_update}
use pq.Worker.Concurrent.{
  Loop, Round, Flow, waits, raises, goes_on, and_then, has_pid, has_fd, after_reaping, reaped,
  popped, popped_fd, reap_ready,
}
use pq.Worker.Concurrent.Children.{
  entry_of, IsTracked, find-has_pid, find-has_fd, waited_for, reaped-IsTracked,
}
use pq.Worker.Concurrent.Lists.{In-map_elim}

-- A part of the loop that does not raise, and ends in states of which `P` holds.
abbrev pub FlowKeeps : (Loop → Type 0) → Flow → Type 0
FlowKeeps P waits = Unit
FlowKeeps P (raises e st) = ⊥
FlowKeeps P (goes_on st) = P st

pub and_then-FlowKeeps :
    (P Q : Loop → Type 0) (x : Flow) (f : Loop → Flow)
    → FlowKeeps P x
    → ((st : Loop) → P st → FlowKeeps Q (f st))
    → FlowKeeps Q (and_then x f)
unfolding and_then
and_then-FlowKeeps P Q waits f h k = tt
and_then-FlowKeeps P Q (raises e st) f h k = absurd h
and_then-FlowKeeps P Q (goes_on st) f h k = k st h

abbrev pub keys_of : Loop → List ℕ
keys_of st = map (λ (x : ℕ × ℕ). x.0) st.fd_to_pid

module _ (concurrency : ℕ) where
  pub shutdown-IsTracked :
      (st : Loop) (s : ShutdownState)
      → IsTracked concurrency st
      → IsTracked concurrency (record st { shutdown = s })
  shutdown-IsTracked st s k = record {
    entries = k.entries;
    unwaited = k.unwaited;
    opened = k.opened;
    apart = k.apart;
    few = k.few;
  }

  pub chores-IsTracked :
      (st : Loop) (db : Db) (last_cleanup last_reap : ℕ)
      → IsTracked concurrency st
      → IsTracked concurrency (record st {
        host = record st.host { db = db };
        last_cleanup = last_cleanup;
        last_reap = last_reap;
      })
  chores-IsTracked st db last_cleanup last_reap k = record {
    entries = k.entries;
    unwaited = k.unwaited;
    opened = k.opened;
    apart = k.apart;
    few = k.few;
  }

-- In no wait of the round `select` or `os.wait4` raises.
pub record RoundIsAnswered (r : Round) : Type 0 where
  pub selects : (is_ready : ℕ → Bool) × (r.selected ≡ ok is_ready)
  pub reaps : (pid : ℕ) → All (λ (p : Poll). IsAnswered p.answer) (r.reaping pid).polls

module _ (decode : List ℕ → Text) (is_darwin : Bool) (r : Round) (concurrency : ℕ)
    (quiet : RoundIsAnswered r) where
  pub after_wait-os :
      (x : Reaping) (slot : ChildSlot) (h h' : Host) (s' : ShutdownState)
      (o : Waited (ChildResult × ShutdownState))
      → after_wait x slot h o ≡ gives (h', s')
      → h'.os ≡ record {
        processes = delete (λ pid. pid == slot.pid) h.os.processes;
        open_fds = delete (λ fd. fd == slot.read_fd) h.os.open_fds;
      }
  unfolding after_wait
  after_wait-os x slot h h' s' blocks e = cc
  after_wait-os x slot h h' s' (throws err s) e = cc
  after_wait-os x slot h h' s' (gives (res, t)) e = os_of e
    where
      os_of :
          {a b : Host} {u v : ShutdownState}
          → ◌≡◌ {A = Waited (Host × ShutdownState)} (gives (a, u)) (gives (b, v))
          → b.os ≡ a.os
      os_of q = cc

  pub after_wait-answered :
      (x : Reaping) (slot : ChildSlot) (h : Host) (st : ShutdownState) (e : PyError)
      (s : ShutdownState)
      → All (λ (p : Poll). IsAnswered p.answer) x.polls
      → after_wait x slot h (wait_for_child decode is_darwin x.polls x.rest st) ≡ throws e s
      → ⊥
  unfolding after_wait
  after_wait-answered x slot h st e s quiet =
      by_wait (wait_for_child decode is_darwin x.polls x.rest st)
        (λ f. wait_for_child-answered decode is_darwin x.polls x.rest st e s quiet f)
    where
      by_wait :
          (o : Waited (ChildResult × ShutdownState))
          → (o ≡ throws e s → ⊥)
          → after_wait x slot h o ≡ throws e s
          → ⊥
      by_wait blocks k f = cc
      by_wait (throws e' s') k f = k (alike f)
        where
          alike :
              ◌≡◌ {A = Waited (Host × ShutdownState)} (throws e' s') (throws e s)
              → ◌≡◌ {A = Waited (ChildResult × ShutdownState)} (throws e' s') (throws e s)
          alike g = cc
      by_wait (gives y) k f = cc

  -- The reaping of a slot that both dictionaries held.
  pub reaped-FlowKeeps :
      (st : Loop) (k : IsTracked concurrency st) (slot : ChildSlot) (there : In slot st.children)
      → FlowKeeps
          (λ st'.
            IsTracked concurrency st' × (st'.fd_to_pid ≡ delete (has_fd slot.read_fd) st.fd_to_pid))
          (reaped decode is_darwin r slot (record st {
            fd_to_pid = delete (has_fd slot.read_fd) st.fd_to_pid;
            children = delete (has_pid slot.pid) st.children;
          }))
  unfolding reaped reap_and_update waited_for
  reaped-FlowKeeps st k slot there =
      after
        (after_wait (r.reaping slot.pid) slot st.host (
          wait_for_child decode is_darwin (r.reaping slot.pid).polls (r.reaping slot.pid).rest
            st.shutdown))
        (λ h s e. after_wait-os (r.reaping slot.pid) slot st.host h s _ e)
        (λ e s.
          after_wait-answered (r.reaping slot.pid) slot st.host st.shutdown e s
            (quiet.reaps slot.pid))
    where
      after :
          (o : Waited (Host × ShutdownState))
          → ((h : Host) (s : ShutdownState)
              → o ≡ gives (h, s)
              → h.os ≡ waited_for concurrency st k slot there)
          → ((e : PyError) (s : ShutdownState) → o ≡ throws e s → ⊥)
          → FlowKeeps
              (λ st'.
                IsTracked concurrency st'
                × (st'.fd_to_pid ≡ delete (has_fd slot.read_fd) st.fd_to_pid))
              (after_reaping decode is_darwin r
                (record st {
                  fd_to_pid = delete (has_fd slot.read_fd) st.fd_to_pid;
                  children = delete (has_pid slot.pid) st.children;
                })
                o)
      after blocks f g = tt
      after (throws e s) f g = absurd (g e s refl)
      after (gives (h, s)) f g =
          (reaped-IsTracked concurrency st k slot there h s (f h s refl), refl)

  -- A ready descriptor is a slot's.
  reap_slot-FlowKeeps :
      (st : Loop) (k : IsTracked concurrency st) (slot : ChildSlot) (there : In slot st.children)
      → FlowKeeps
          (λ st'.
            IsTracked concurrency st' × (st'.fd_to_pid ≡ delete (has_fd slot.read_fd) st.fd_to_pid))
          (reap_ready decode is_darwin r slot.read_fd st)
  unfolding reap_ready popped_fd popped
  reap_slot-FlowKeeps st k slot there =
      rw (find-has_fd concurrency st k slot there, find-has_pid concurrency st k slot there)
        (reaped-FlowKeeps st k slot there)

  pub reap_ready-FlowKeeps :
      (fd : ℕ) (st : Loop)
      → IsTracked concurrency st
      → In fd (keys_of st)
      → FlowKeeps
          (λ st'. IsTracked concurrency st' × (st'.fd_to_pid ≡ delete (has_fd fd) st.fd_to_pid))
          (reap_ready decode is_darwin r fd st)
  reap_ready-FlowKeeps fd st k i =
      let (x, j, e) = In-map_elim (λ (y : ℕ × ℕ). y.0) st.fd_to_pid fd i in
      let (slot, there, q) = In-map_elim entry_of st.children x (subst (In x) k.entries j) in
      subst
        (λ n.
          FlowKeeps
            (λ st'. IsTracked concurrency st' × (st'.fd_to_pid ≡ delete (has_fd n) st.fd_to_pid))
            (reap_ready decode is_darwin r n st))
        (ap (λ (y : ℕ × ℕ). y.0) q ∙ e) (reap_slot-FlowKeeps st k slot there)
