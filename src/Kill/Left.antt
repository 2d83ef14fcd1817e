-- ===== src/Kill/Left.antt =====
-- The parts of `kill` in system/kill.c, by the state of the thread.
use xinu.Base.{
  ℕ, ◌<◌, ◌≡◌, ◌≢◌, refl, ap, ◌∙◌, sym, subst, ℤ, pos, ◌+ℤ◌, ◌-ℤ◌, leb_ℤ, Bool, true, false, List,
  ◌∷◌, ◌++◌, arith, All, has, has-append, All-map, Bool-cases, inl, inr, ◌≤ℤ◌, ◌<ℤ◌, ◌==◌, length,
  length-append, some, ◌==ℤ◌,
}
use xinu.Kernel.{OK, nthread, ThreadState, Thrent, Kernel, K, ok, update, isbadtid, minkey}
use xinu.Kill.{kill, count_down, give_up, leave_by, leave_wait}
use xinu.Memory.{Memory, stkfree}
use xinu.Queue.Chain.{Table}
use xinu.Queue.Links.{isbadtid-lt}
use xinu.Semaphore.Release.{counted}
use xinu.Semaphore.Waiters.{
  IsSemaphore, IsSemaphore-frame, put_sement_in, IsScheduled-sem, All-same, neg_part-up,
}
use xinu.Thread.Create.Made.{on_heap-some}
use xinu.Thread.Message.{send}
use xinu.Thread.Ready.{InNone, with_thread, with_table, IsScheduled-thread}
use xinu.Thread.Removal.{All-without, getitem-IsScheduled_ready, getitem-IsScheduled_waiting}
use xinu.Thread.Resched.{IsTop}
use xinu.Thread.Scheduled.{IsScheduled, put_thrent_in, thrent_in, update_self}

-- A thread's entry given back.
abbrev pub freed : Kernel → ℕ → Thrent
freed k x = record (k.thrtab x) { state = ThreadState.free }

-- The count without this thread, which leaves more than the null thread.
abbrev pub fewer : Kernel → Kernel
fewer k = record k { thrcount = k.thrcount -ℤ pos 1 }

abbrev pub with_mem : Kernel → Memory → Kernel
with_mem k m = record k { mem = m }

pub kill_run :
    (k k1 k2 k3 k4 : Kernel) (others : ℕ → K (Unit {0})) (x : ℕ) (v : ℤ)
    → isbadtid k (pos x) ≡ false
    → (pos x ==ℤ pos 0) ≡ false
    → leb_ℤ (k.thrcount -ℤ pos 1) (pos 1) ≡ false
    → others 0 (fewer k) ≡ ok tt k1
    → send (k1.thrtab x).parent (pos x) k1 ≡ ok v k2
    → others 1 k2 ≡ ok tt k3
    → give_up others (pos x) k3 ≡ ok OK k4
    → kill others (pos x) k ≡ ok OK k4
unfolding kill count_down
kill_run k k1 k2 k3 k4 others x v live ne many first told run done =
    rw (live, ne, many, first, thrent_in x (isbadtid-lt k x live), told, run, done) refl

pub give_up_run :
    (k k2 k4 : Kernel) (others : ℕ → K (Unit {0})) (x : ℕ) (m : Memory) (b : Bool)
    → x < nthread
    → stkfree (k.thrtab x).stkbase (k.thrtab x).stklen k.mem ≡ some (b, m)
    → others 2 (with_mem k m) ≡ ok tt k2
    → leave_by (k2.thrtab x).state (k2.thrtab x).sem (pos x) k2 ≡ ok tt k4
    → give_up others (pos x) k ≡ ok OK k4
unfolding give_up
give_up_run k k2 k4 others x m b lt given run left =
    rw
      (
        thrent_in x lt,
        on_heap-some (stkfree (k.thrtab x).stkbase (k.thrtab x).stklen) k b m given,
        run,
        left,
      )
      refl

-- The memory does not matter to the scheduler.
IsScheduled-mem :
    (k : Kernel) (heads : ℕ → Bool) (Q : ℕ → List ℕ) (r : ℕ) (m : Memory)
    → IsScheduled k heads Q r
    → IsScheduled (with_mem k m) heads Q r
IsScheduled-mem k heads Q r m s = record {
  readylist = s.readylist;
  head = s.head;
  system = s.system;
  sorted = s.sorted;
  ready = s.ready;
  prios = s.prios;
}

-- What is left of the thread `x` after `kill`.
pub record Gone (k : Kernel) (heads : ℕ → Bool) (Q' : ℕ → List ℕ) (r c x : ℕ) (m : Memory)
    (k' : Kernel) : Type 0 where
  pub top : IsTop k' heads Q' r c
  pub state : (k'.thrtab x).state ≡ ThreadState.free
  pub apart : InNone heads Q' x
  pub others : (j : ℕ) → j ≢ x → k'.thrtab j ≡ k.thrtab j
  pub frame : k' ≡ record k { mem = m; quetab = k'.quetab; thrtab = k'.thrtab; semtab = k'.semtab }

has-not_without :
    (c x : ℕ) (ys zs : List ℕ) → has c (ys ++ x ∷ zs) ≡ false → has c (ys ++ zs) ≡ false
has-not_without c x ys zs h = ground (arith, has-append c ys zs, has-append c ys (x ∷ zs))

module _ (k : Kernel) (heads : ℕ → Bool) (Q : ℕ → List ℕ) (r q x c : ℕ) (ys zs : List ℕ)
    (t : IsTop k heads Q r c) (eq : heads q ≡ true) (e : Q q ≡ ys ++ x ∷ zs) where
  differs : (c == x) ≡ false
  differs =
      let out = subst (λ l. has c l ≡ false) e (t.apart q eq) in
      ground (arith, has-append c ys (x ∷ zs))

  still_apart : InNone heads (update Q q (ys ++ zs)) c
  still_apart h eh =
      let out = subst (λ l. has c l ≡ false) e (t.apart q eq) in
      ground (arith, has-not_without c x ys zs out, t.apart h eh)

  remaining : All (λ y. (k.thrtab y).prio ≤ℤ (k.thrtab c).prio) (update Q q (ys ++ zs) r)
  remaining = elim (Bool-cases (r == q)) [
    | inl same ↦ rw same (All-without _ ys zs x (subst (All _) (ap Q (ground arith) ∙ e) t.top))
    | inr other ↦ rw other t.top
  ]

  prio :
      (k1 : Kernel) (y : ℕ)
      → k1.thrtab y ≡ k.thrtab y
      → (update k1.thrtab x (freed k1 x) y).prio ≡ (k.thrtab y).prio
  prio k1 y same = ground (arith, same)

  -- The entry given back and the new queues make no difference to the running thread.
  IsTop-without :
      (k1 : Kernel) (T' : Table)
      → IsScheduled (with_table k1 T') heads (update Q q (ys ++ zs)) r
      → InNone heads (update Q q (ys ++ zs)) x
      → k1.thrtab ≡ k.thrtab
      → k1.thrcurrent ≡ k.thrcurrent
      → IsTop (with_thread (with_table k1 T') x (freed k1 x)) heads (update Q q (ys ++ zs)) r c
  IsTop-without k1 T' s free same cur =
      let ne = differs in
      let row : (j : ℕ) → k1.thrtab j ≡ k.thrtab j = λ j. ap (λ f. f j) same in
      record {
        sched =
            IsScheduled-thread (with_table k1 T') heads (update Q q (ys ++ zs)) r x (freed k1 x)
              (free r s.head) s;
        current = cur ∙ t.current;
        curr = ground (arith, row c, t.curr);
        c_in = t.c_in;
        apart = still_apart;
        top =
            All-map (λ y h. ground (arith, prio k1 y (row y), prio k1 c (row c), h))
              (update Q q (ys ++ zs) r) remaining;
      }

  pub Gone-of :
      (k1 : Kernel) (T' : Table) (m : Memory)
      → IsScheduled (with_table k1 T') heads (update Q q (ys ++ zs)) r
      → InNone heads (update Q q (ys ++ zs)) x
      → k1.thrtab ≡ k.thrtab
      → k1 ≡ record k { mem = m; semtab = k1.semtab; thrtab = k1.thrtab }
      → Gone k heads (update Q q (ys ++ zs)) r c x m (with_thread (with_table k1 T') x (freed k1 x))
  Gone-of k1 T' m s free same frame = record {
    top = IsTop-without k1 T' s free same (ap (λ a. a.thrcurrent) frame);
    state = ground arith;
    apart = free;
    others = λ j ne. ground (arith, ap (λ f. f j) same);
    frame = ap (λ a. with_thread (with_table a T') x (freed k1 x)) frame;
  }

-- The semaphore with one waiting thread less and one more in its count.
shorter-IsSemaphore :
    (k : Kernel) (heads : ℕ → Bool) (Q : ℕ → List ℕ) (r s q x : ℕ) (ys zs : List ℕ) (T' : Table)
    → IsSemaphore k heads Q r s q
    → Q q ≡ ys ++ x ∷ zs
    → has x (ys ++ zs) ≡ false
    → IsSemaphore
        (with_thread (with_table (counted k s) T') x (freed k x))
        heads
        (update Q q (ys ++ zs))
        r
        s
        q
shorter-IsSemaphore k heads Q r s q x ys zs T' i e out =
    let list = update_self Q q (ys ++ zs) in
    let same : (j : ℕ) → has j (ys ++ zs) ≡ true → update k.thrtab x (freed k x) j ≡ k.thrtab j =
      λ j h. ground arith in
    record {
      s_in = i.s_in;
      used = ground (arith, i.used);
      queue = ground (arith, i.queue);
      head = i.head;
      other = i.other;
      count = rw list (
          ground (
            arith,
            neg_part-up (k.semtab s).count,
            i.count ∙ ap length e,
            length-append ys zs,
            length-append ys (x ∷ zs),
          ));
      waiting = subst (All _) (sym list) (
          All-same (λ t. t.state ≡ ThreadState.wait) k.thrtab (update k.thrtab x (freed k x))
            (ys ++ zs) same (All-without _ ys zs x (subst (All _) e i.waiting)));
      prios = subst (All _) (sym list) (
          All-same (λ t. minkey <ℤ t.prio) k.thrtab (update k.thrtab x (freed k x)) (ys ++ zs) same
            (All-without _ ys zs x (subst (All _) e i.prios)));
    }

module _ (k : Kernel) (heads : ℕ → Bool) (Q : ℕ → List ℕ) (r x c : ℕ) (ys zs : List ℕ) (m : Memory)
    (t : IsTop k heads Q r c) where
  pub leave_ready :
      (sem : ℕ)
      → Q r ≡ ys ++ x ∷ zs
      → (k' : Kernel) × (leave_by ThreadState.ready sem (pos x) (with_mem k m) ≡ ok tt k')
        × Gone k heads (update Q r (ys ++ zs)) r c x m k'
        × (x < nthread)
  unfolding leave_by
  leave_ready sem e =
      let s = IsScheduled-mem k heads Q r m t.sched in
      let (T', run, s', free, x_in) =
        getitem-IsScheduled_ready (with_mem k m) heads Q r x ys zs s e in
      (
        with_thread (with_table (with_mem k m) T') x (freed k x),
        rw (run, put_thrent_in x _ x_in) refl,
        Gone-of k heads Q r r x c ys zs t t.sched.head e (with_mem k m) T' m s' free refl refl,
        x_in,
      )

  pub leave_waiting :
      (s q : ℕ)
      → IsSemaphore k heads Q r s q
      → Q q ≡ ys ++ x ∷ zs
      → (k' : Kernel) × (leave_by ThreadState.wait s (pos x) (with_mem k m) ≡ ok tt k')
        × Gone k heads (update Q q (ys ++ zs)) r c x m k'
        × IsSemaphore k' heads (update Q q (ys ++ zs)) r s q
        × ((k'.semtab s).count ≡ (k.semtab s).count +ℤ pos 1)
        × (x < nthread)
  unfolding leave_by leave_wait
  leave_waiting s q i e =
      let k1 = counted (with_mem k m) s in
      let sched =
        IsScheduled-sem (with_mem k m) heads Q r s _ (IsScheduled-mem k heads Q r m t.sched) in
      let (T', run, s', free, x_in) =
        getitem-IsScheduled_waiting k1 heads Q r q x ys zs sched i.head e i.other in
      (
        with_thread (with_table k1 T') x (freed k x),
        rw (put_sement_in s _ i.s_in, run, put_thrent_in x _ x_in) refl,
        Gone-of k heads Q r q x c ys zs t i.head e k1 T' m s' free refl refl,
        shorter-IsSemaphore (with_mem k m) heads Q r s q x ys zs T'
            (IsSemaphore-frame k (with_mem k m) heads Q Q r s q refl refl (λ j h. refl) i) e
            (subst (λ l. has x l ≡ false) (update_self Q q (ys ++ zs)) (free q i.head)),
        ground arith,
        x_in,
      )
