-- ===== src/Worker/Slots/Launched.antt =====
-- What a `_try_claim_and_fork` of src/pq/worker.py leaves of the worker's process.
use pq.Base.{
  ℕ, ◌≡◌, ◌≢◌, refl, inl, inr, Option, none, some, List, [], ◌∷◌, ◌++◌, Text, All, In, subst,
}
use pq.Errors.{Result, ok, err}
use pq.Models.{Task, Periodic, Payload, Priority}
use pq.Database.{Db}
use pq.Registry.{Import}
use pq.Serialization.{Codec}
use pq.Client.Schedule.{Cron}
use pq.Worker.Slots.{
  ChildSlot, Os, Host, Fork, forked, pipe_raises, fork_raises, fork_child, Launch, Attempt,
  start_child, load_handler, started_one_off, claimed_one_off, claim_and_fork_one_off,
  started_periodic, claimed_periodic, claim_and_fork_periodic, or_periodic, try_claim_and_fork,
}

-- The kernel chooses a number that is not in use.
abbrev pub IsFresh : (List ℕ → ℕ) → Type 0
IsFresh choose = (used : List ℕ) → All (λ n. n ≢ choose used) used

abbrev pub IsFreshFork : Fork → Type 0
IsFreshFork (forked pid read_fd) = IsFresh pid × IsFresh read_fd
IsFreshFork _ = Unit

abbrev pub IsFreshAttempt : Attempt → Type 0
IsFreshAttempt a = IsFreshFork a.one_off.fork × IsFreshFork a.periodic.fork

abbrev pub Includes : List ℕ → List ℕ → Type 0
Includes ns ms = (n : ℕ) → In n ns → In n ms

pub In-append_left : {A : Type 0} (x : A) (xs ys : List A) → In x xs → In x (xs ++ ys)
In-append_left x [] ys i = absurd i
In-append_left x (y ∷ xs) ys (inl e) = inl e
In-append_left x (y ∷ xs) ys (inr i) = inr (In-append_left x xs ys i)

pub In-snoc : {A : Type 0} (x : A) (xs : List A) → In x (xs ++ x ∷ [])
In-snoc x [] = inl refl
In-snoc x (y ∷ xs) = inr (In-snoc x xs)

-- A new child: its numbers are new, and what was open stays open.
pub record IsForked (pid read_fd : ℕ) (os os' : Os) : Type 0 where
  pub listed : os'.processes ≡ os.processes ++ pid ∷ []
  pub new_pid : All (λ n. n ≢ pid) os.processes
  pub opened : In read_fd os'.open_fds
  pub new_fd : (n : ℕ) → In n os.open_fds → n ≢ read_fd
  pub kept : Includes os.open_fds os'.open_fds

-- No new child.
pub record IsUnforked (os os' : Os) : Type 0 where
  pub same : os'.processes ≡ os.processes
  pub kept : Includes os.open_fds os'.open_fds

abbrev pub HasStarted : Os → Result (ℕ × ℕ) × Os → Type 0
HasStarted os (ok (pid, read_fd), os') = IsForked pid read_fd os os'
HasStarted os (err e, os') = IsUnforked os os'

abbrev pub HasLaunched : Os → Option ChildSlot × Host → Type 0
HasLaunched os (some slot, h) = IsForked slot.pid slot.read_fd os h.os
HasLaunched os (none, h) = IsUnforked os h.os

unforked : (os : Os) → IsUnforked os os
unforked os = record { same = refl; kept = λ n i. i }

In-of_All : (P : ℕ → Type 0) (ns : List ℕ) → All P ns → (n : ℕ) → In n ns → P n
In-of_All P [] h n i = absurd i
In-of_All P (m ∷ ns) h n (inl e) = subst P e h.0
In-of_All P (m ∷ ns) h n (inr i) = In-of_All P ns h.1 n i

fork_child-HasStarted : (f : Fork) (os : Os) → IsFreshFork f → HasStarted os (fork_child f os)
unfolding fork_child
fork_child-HasStarted (forked pid read_fd) os fresh = record {
  listed = refl;
  new_pid = fresh.0 os.processes;
  opened = In-snoc (read_fd os.open_fds) os.open_fds;
  new_fd = In-of_All (λ n. n ≢ read_fd os.open_fds) os.open_fds (fresh.1 os.open_fds);
  kept = λ n i. In-append_left n os.open_fds (read_fd os.open_fds ∷ []) i;
}
fork_child-HasStarted (pipe_raises e) os fresh = unforked os
fork_child-HasStarted (fork_raises r w e) os fresh = record {
  same = refl;
  kept = λ n i.
      In-append_left n (os.open_fds ++ r os.open_fds ∷ []) _ (In-append_left n os.open_fds _ i);
}

module _ (c : Codec) {F : Type 0} (importer : Text → Text → Import F) where
  start_child-HasStarted :
      (name : Text) (payload : Payload) (f : Fork) (os : Os)
      → IsFreshFork f
      → HasStarted os (start_child c importer name payload f os)
  unfolding start_child
  start_child-HasStarted name payload f os fresh = loaded (load_handler c importer name payload)
    where
      loaded :
          (r : Result (F × List c.Value × List (Text × c.Value)))
          → HasStarted os (elim r [ err e ↦ (err e, os) | ok l ↦ fork_child f os ])
      loaded (err e) = unforked os
      loaded (ok l) = fork_child-HasStarted f os fresh

  started_one_off-HasLaunched :
      (l : Launch) (t : Task) (db : Db) (os : Os) (r : Result (ℕ × ℕ) × Os)
      → HasStarted os r
      → HasLaunched os (started_one_off c importer l t db r)
  unfolding started_one_off
  started_one_off-HasLaunched l t db os (err e, os') h = h
  started_one_off-HasLaunched l t db os (ok (pid, fd), os') h = h

  started_periodic-HasLaunched :
      (l : Launch) (p : Periodic) (db : Db) (os : Os) (r : Result (ℕ × ℕ) × Os)
      → HasStarted os r
      → HasLaunched os (started_periodic c importer l p db r)
  unfolding started_periodic
  started_periodic-HasLaunched l p db os (err e, os') h = h
  started_periodic-HasLaunched l p db os (ok (pid, fd), os') h = h

  claimed_one_off-HasLaunched :
      (l : Launch) (os : Os) (r : Result (Option Task) × Db)
      → IsFreshFork l.fork
      → HasLaunched os (claimed_one_off c importer l os r)
  unfolding claimed_one_off
  claimed_one_off-HasLaunched l os (err e, db) fresh = unforked os
  claimed_one_off-HasLaunched l os (ok none, db) fresh = unforked os
  claimed_one_off-HasLaunched l os (ok (some t), db) fresh =
      started_one_off-HasLaunched l t db os _
        (start_child-HasStarted t.name t.payload l.fork os fresh)

  claimed_periodic-HasLaunched :
      (l : Launch) (os : Os) (r : Result (Option Periodic) × Db)
      → IsFreshFork l.fork
      → HasLaunched os (claimed_periodic c importer l os r)
  unfolding claimed_periodic
  claimed_periodic-HasLaunched l os (err e, db) fresh = unforked os
  claimed_periodic-HasLaunched l os (ok none, db) fresh = unforked os
  claimed_periodic-HasLaunched l os (ok (some p), db) fresh =
      started_periodic-HasLaunched l p db os _
        (start_child-HasStarted p.name p.payload l.fork os fresh)

  -- A launch after one that forked nothing.
  HasLaunched-after :
      (os os' : Os) (r : Option ChildSlot × Host)
      → IsUnforked os os'
      → HasLaunched os' r
      → HasLaunched os r
  HasLaunched-after os os' (some slot, h) u l = record {
    listed = rw (← u.same) l.listed;
    new_pid = rw (← u.same) l.new_pid;
    opened = l.opened;
    new_fd = λ n i. l.new_fd n (u.kept n i);
    kept = λ n i. l.kept n (u.kept n i);
  }
  HasLaunched-after os os' (none, h) u l = record {
    same = rw (← u.same) l.same;
    kept = λ n i. l.kept n (u.kept n i);
  }

  or_periodic-HasLaunched :
      (cron : Cron) (priorities : Option (List Priority)) (max_runtime : ℕ) (a : Attempt) (os : Os)
      (r : Option ChildSlot × Host)
      → IsFreshFork a.periodic.fork
      → HasLaunched os r
      → HasLaunched os (or_periodic c importer cron priorities max_runtime a r)
  unfolding or_periodic claim_and_fork_periodic
  or_periodic-HasLaunched cron priorities max_runtime a os (some slot, h) fresh l = l
  or_periodic-HasLaunched cron priorities max_runtime a os (none, h) fresh l =
      HasLaunched-after os h.os _ l (claimed_periodic-HasLaunched a.periodic h.os _ fresh)

  -- Where the kernel gives new numbers, an attempt forks at most one child, the slot's.
  pub try_claim_and_fork-HasLaunched :
      (cron : Cron) (priorities : Option (List Priority)) (max_runtime : ℕ) (a : Attempt) (h : Host)
      → IsFreshAttempt a
      → HasLaunched h.os (try_claim_and_fork c importer cron priorities max_runtime a h)
  unfolding try_claim_and_fork claim_and_fork_one_off
  try_claim_and_fork-HasLaunched cron priorities max_runtime a h fresh =
      or_periodic-HasLaunched cron priorities max_runtime a h.os _ fresh.1
        (claimed_one_off-HasLaunched a.one_off h.os _ fresh.0)
