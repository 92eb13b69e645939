-- ===== src/Worker/Concurrent/Children.antt =====
-- The dictionaries of `_run_concurrent` of src/pq/worker.py, and what holds of them between its steps.
use pq.Base.{
  ℕ, suc, ◌+◌, ◌≤◌, ◌<◌, ◌≡◌, ◌≢◌, refl, ◌⊎◌, inl, inr, true, some, List, [], ◌∷◌, ◌++◌, All, In,
  arith, map, find, delete, length, sym, ap, ◌∙◌, subst, ◌==◌, ==_iff, All-of_In, In-All,
  length-append, All-append,
}
use pq.Database.Consistent.{AllPairs, AllPairs-snoc}
use pq.Worker.Shutdown.{ShutdownState}
use pq.Worker.Concurrent.Lists.{
  All-of_map, All-map, map-snoc, delete-map, AllPairs-delete, length-delete_le, In-delete_elim,
  In-delete, AllPairs-In, In-map, In-map_elim, find_unique,
}
use pq.Worker.Slots.{ChildSlot, Os, Host}
use pq.Worker.Slots.Launched.{IsForked, IsUnforked}
use pq.Worker.Concurrent.{Loop, has_pid, has_fd, put_child, put_fd, register}

abbrev pub pid_of : ChildSlot → ℕ
pid_of slot = slot.pid

abbrev pub entry_of : ChildSlot → ℕ × ℕ
entry_of slot = (slot.read_fd, slot.pid)

abbrev pub AreApart : ChildSlot → ChildSlot → Type 0
AreApart a b = (a.pid ≢ b.pid) × (a.read_fd ≢ b.read_fd)

-- The dictionaries agree, they hold the processes that were not waited for, in their order, and
-- there are no more than the limit.
pub record IsTracked (concurrency : ℕ) (st : Loop) : Type 0 where
  pub entries : st.fd_to_pid ≡ map entry_of st.children
  pub unwaited : st.host.os.processes ≡ map pid_of st.children
  pub opened : All (λ slot. In slot.read_fd st.host.os.open_fds) st.children
  pub apart : AllPairs AreApart st.children
  pub few : length st.children ≤ concurrency

-- Under the limit 0 there is none.
pub none_tracked : (st : Loop) → IsTracked 0 st → st.host.os.processes ≡ []
none_tracked st k = k.unwaited ∙ ap (map pid_of) (empty st.children k.few)
  where
    empty : (xs : List ChildSlot) → length xs ≤ 0 → xs ≡ []
    empty [] h = refl
    empty (x ∷ xs) h = absurd (full h)
      where
        full : length (x ∷ xs) ≤ 0 → ⊥
        full l = omega (arith, l)

-- New keys are put at the end.
put_child-new :
    (slot : ChildSlot) (xs : List ChildSlot)
    → All (λ x. x.pid ≢ slot.pid) xs
    → put_child slot xs ≡ xs ++ slot ∷ []
unfolding put_child
put_child-new slot [] h = refl
put_child-new slot (x ∷ xs) h = ground (arith, put_child-new slot xs h.1)

put_fd-new :
    (fd pid : ℕ) (xs : List (ℕ × ℕ))
    → All (λ x. x.0 ≢ fd) xs
    → put_fd fd pid xs ≡ xs ++ (fd, pid) ∷ []
unfolding put_fd
put_fd-new fd pid [] h = refl
put_fd-new fd pid (x ∷ xs) h = ground (arith, put_fd-new fd pid xs h.1)

module _ (concurrency : ℕ) (st : Loop) (h : Host) (k : IsTracked concurrency st) where
  -- The worker's process after an attempt that forked nothing.
  pub unforked-IsTracked :
      IsUnforked st.host.os h.os → IsTracked concurrency (record st { host = h })
  unforked-IsTracked u = record {
    entries = k.entries;
    unwaited = u.same ∙ k.unwaited;
    opened = All-of_In st.children λ slot i.
        u.kept slot.read_fd (In-All (λ s. In s.read_fd st.host.os.open_fds) st.children k.opened i);
    apart = k.apart;
    few = k.few;
  }

  old_pid : (pid : ℕ) → All (λ n. n ≢ pid) st.host.os.processes → All (λ x. x.pid ≢ pid) st.children
  old_pid pid fresh =
      All-of_map pid_of (λ n. n ≢ pid) st.children (subst (All (λ n. n ≢ pid)) k.unwaited fresh)

  pub register-length :
      (slot : ChildSlot)
      → IsForked slot.pid slot.read_fd st.host.os h.os
      → length (register slot (record st { host = h })).children ≡ suc (length st.children)
  unfolding register
  register-length slot f =
      ap length (put_child-new slot st.children (old_pid slot.pid f.new_pid))
      ∙ length-append st.children (slot ∷ [])
      ∙ one_more (length st.children)
    where
      one_more : (n : ℕ) → n + 1 ≡ suc n
      one_more n = omega arith

  -- A new child in a free slot.
  pub register-IsTracked :
      (slot : ChildSlot)
      → IsForked slot.pid slot.read_fd st.host.os h.os
      → length st.children < concurrency
      → IsTracked concurrency (register slot (record st { host = h }))
  unfolding register
  register-IsTracked slot f free = record {
    entries = rw (children, entries) (sym (map-snoc entry_of st.children slot));
    unwaited =
        rw (children, map-snoc pid_of st.children slot)
          (f.listed ∙ ap (λ ns. ns ++ slot.pid ∷ []) k.unwaited);
    opened = rw children (
        All-append _ st.children (slot ∷ [])
          (All-of_In st.children (λ x i. f.kept x.read_fd (was_open x i))) (f.opened, tt));
    apart = rw children (AllPairs-snoc AreApart st.children slot k.apart news);
    few = rw (children, length-append st.children (slot ∷ [])) (omega (arith, free));
  }
    where
      was_open : (x : ChildSlot) → In x st.children → In x.read_fd st.host.os.open_fds
      was_open x i = In-All (λ s. In s.read_fd st.host.os.open_fds) st.children k.opened i

      news : All (λ x. AreApart x slot) st.children
      news = All-of_In st.children λ x i. (
        In-All (λ s. s.pid ≢ slot.pid) st.children (old_pid slot.pid f.new_pid) i,
        f.new_fd x.read_fd (was_open x i),
      )

      children : put_child slot st.children ≡ st.children ++ slot ∷ []
      children = put_child-new slot st.children (old_pid slot.pid f.new_pid)

      entries :
          put_fd slot.read_fd slot.pid st.fd_to_pid ≡ map entry_of st.children ++ entry_of slot ∷ []
      entries =
          ap (put_fd slot.read_fd slot.pid) k.entries
          ∙ put_fd-new slot.read_fd slot.pid (map entry_of st.children) (
              All-map entry_of (λ x. x.0 ≢ slot.read_fd) st.children
                (All-of_In st.children (λ x i. f.new_fd x.read_fd (was_open x i))))

AreApart-flip : (a b : ChildSlot) → AreApart a b → AreApart b a
AreApart-flip a b h = (λ e. h.0 (sym e), λ e. h.1 (sym e))

-- Taking a child out.
module _ (concurrency : ℕ) (st : Loop) (k : IsTracked concurrency st) (slot : ChildSlot)
    (there : In slot st.children) where
  same_or_apart : (x : ChildSlot) → In x st.children → (x ≡ slot) ⊎ AreApart x slot
  same_or_apart x i = AllPairs-In AreApart AreApart-flip st.children x slot k.apart i there

  pub find-has_pid : find (has_pid slot.pid) st.children ≡ some slot
  find-has_pid = find_unique (has_pid slot.pid) st.children slot there (ground arith) alone
    where
      alone : (x : ChildSlot) → In x st.children → has_pid slot.pid x ≡ true → x ≡ slot
      alone x i t = elim (same_or_apart x i) [ inl e ↦ e | inr a ↦ absurd (a.0 (ground arith)) ]

  pub find-has_fd : find (has_fd slot.read_fd) st.fd_to_pid ≡ some (entry_of slot)
  find-has_fd =
      ap (find (has_fd slot.read_fd)) k.entries
      ∙ find_unique (has_fd slot.read_fd) (map entry_of st.children) (entry_of slot)
          (In-map entry_of st.children slot there) (ground arith) alone
    where
      alone :
          (y : ℕ × ℕ)
          → In y (map entry_of st.children)
          → has_fd slot.read_fd y ≡ true
          → y ≡ entry_of slot
      alone y i t =
          let (x, j, e) = In-map_elim entry_of st.children y i in
          elim (same_or_apart x j) [
            | inl q ↦ sym e ∙ ap entry_of q
            | inr a ↦ absurd (a.1 (ap (λ (z : ℕ × ℕ). z.0) e ∙ (==_iff y.0 slot.read_fd).0 t))
          ]

  -- The worker's process after the wait for the child.
  unfoldable pub waited_for : Os
  waited_for = record {
    processes = delete (λ pid. pid == slot.pid) st.host.os.processes;
    open_fds = delete (λ fd. fd == slot.read_fd) st.host.os.open_fds;
  }

  same_pid : All (λ x. (x.pid == slot.pid) ≡ has_pid slot.pid x) st.children
  same_pid = All-of_In st.children (λ x i. refl)

  same_fd : All (λ x. (x.read_fd == slot.read_fd) ≡ has_pid slot.pid x) st.children
  same_fd = All-of_In st.children λ x i. elim (same_or_apart x i) [
    | inl e ↦
        subst (λ (y : ChildSlot). (y.read_fd == slot.read_fd) ≡ (y.pid == slot.pid)) (sym e)
          (ground arith)
    | inr a ↦ let differ : AreApart x slot = a in ground arith
  ]

  In-delete_fd :
      (x : ChildSlot)
      → In x (delete (has_pid slot.pid) st.children)
      → In x.read_fd (delete (λ fd. fd == slot.read_fd) st.host.os.open_fds)
  In-delete_fd x i =
      let (j, f) = In-delete_elim (has_pid slot.pid) st.children x i in
      In-delete (λ fd. fd == slot.read_fd) st.host.os.open_fds x.read_fd
        (In-All (λ y. (y.read_fd == slot.read_fd) ≡ has_pid slot.pid y) st.children same_fd j ∙ f)
        (In-All (λ y. In y.read_fd st.host.os.open_fds) st.children k.opened j)

  -- The slot is taken out of both dictionaries and its child waited for.
  pub reaped-IsTracked :
      (h : Host) (s : ShutdownState)
      → h.os ≡ waited_for
      → IsTracked concurrency (record st {
        host = h;
        shutdown = s;
        children = delete (has_pid slot.pid) st.children;
        fd_to_pid = delete (has_fd slot.read_fd) st.fd_to_pid;
      })
  unfolding waited_for
  reaped-IsTracked h s o = record {
    entries =
        ap (delete (has_fd slot.read_fd)) k.entries
        ∙ delete-map entry_of (has_pid slot.pid) (has_fd slot.read_fd) st.children same_fd;
    unwaited =
        ap (λ (u : Os). u.processes) o
        ∙ ap (delete (λ pid. pid == slot.pid)) k.unwaited
        ∙ delete-map pid_of (has_pid slot.pid) (λ pid. pid == slot.pid) st.children same_pid;
    opened =
        All-of_In (delete (has_pid slot.pid) st.children)
          λ x i. subst (λ (u : Os). In x.read_fd u.open_fds) (sym o) (In-delete_fd x i);
    apart = AllPairs-delete AreApart (has_pid slot.pid) st.children k.apart;
    few = omega (arith, k.few, length-delete_le (has_pid slot.pid) st.children);
  }
