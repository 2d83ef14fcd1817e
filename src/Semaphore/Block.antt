-- ===== src/Semaphore/Block.antt =====
-- `wait` of system/wait.c on a semaphore that has nothing to give: the caller goes to sleep.
use xinu.Base.{
  refl, ℕ, ◌<◌, ◌≡◌, ◌≢◌, ◌∙◌, subst, sym, pos, ◌<ℤ◌, ltb_ℤ, true, false, Bool, List, [], ◌∷◌, ◌++◌,
  arith, All, All-append, has, ◌==◌,
}
use xinu.Kernel.{nthread, ThreadState, Kernel, update, minkey, isbadtid}
use xinu.Queue.Chain.{Table}
use xinu.Semaphore.Wait.{
  Waited, taken, marked, asleep, wait_block, block_run, neg_part-down, length-snoc,
}
use xinu.Semaphore.Waiters.{IsSemaphore, All-same, IsScheduled-sem}
use xinu.Thread.Ready.{with_table, with_thread, IsScheduled-thread}
use xinu.Thread.Resched.{IsTop, resched_leave, switch-IsTop}
use xinu.Thread.Scheduled.{IsScheduled, switched, in_no_other}
use xinu.Thread.Waiting.{enqueue-IsScheduled}

live_asleep : (k : Kernel) (c s : ℕ) → c < nthread → isbadtid (asleep k c s) (pos c) ≡ false
unfolding isbadtid
live_asleep k c s lt = ground arith

asleep-IsScheduled :
    (k : Kernel) (heads : ℕ → Bool) (Q : ℕ → List ℕ) (r s c : ℕ)
    → IsScheduled k heads Q r
    → has c (Q r) ≡ false
    → IsScheduled (asleep k c s) heads Q r
asleep-IsScheduled k heads Q r s c i out =
    let k1 = with_thread (taken k s) c (marked k c) in
    IsScheduled-thread k1 heads Q r c (record (k1.thrtab c) { sem = s }) out
      (IsScheduled-thread (taken k s) heads Q r c (marked k c) out
        (IsScheduled-sem k heads Q r s _ i))

module _ (k : Kernel) (heads : ℕ → Bool) (Q : ℕ → List ℕ) (r s q c x : ℕ) (ws : List ℕ)
    (T1 T2 : Table) where
  -- Thread `c` behind the others in the semaphore's queue.
  blocked-IsSemaphore :
      IsSemaphore k heads Q r s q
      → ltb_ℤ (pos 0) (k.semtab s).count ≡ false
      → has c (Q q) ≡ false
      → has x (Q q) ≡ false
      → (c == x) ≡ false
      → minkey <ℤ (k.thrtab c).prio
      → IsSemaphore
          (switched (with_table (asleep k c s) T1) x T2)
          heads
          (update (update Q q (Q q ++ c ∷ [])) r ws)
          r
          s
          q
  blocked-IsSemaphore i h out apart ne low =
      let list : update (update Q q (Q q ++ c ∷ [])) r ws q ≡ Q q ++ c ∷ [] =
        ground (arith, i.other) in
      let f = (switched (with_table (asleep k c s) T1) x T2).thrtab in
      let same : (j : ℕ) → has j (Q q) ≡ true → f j ≡ k.thrtab j = λ j m. kept j m in
      record {
        s_in = i.s_in;
        used = ground (arith, i.used);
        queue = ground (arith, i.queue);
        head = i.head;
        other = i.other;
        count =
            rw (list, length-snoc (Q q) c)
              (ground (arith, neg_part-down (k.semtab s).count h, i.count));
        waiting = subst (All _) (sym list) (
            All-append _ (Q q) (c ∷ [])
              (All-same (λ t. t.state ≡ ThreadState.wait) k.thrtab f (Q q) same i.waiting)
              (ground (arith, ne), tt));
        prios = subst (All _) (sym list) (
            All-append _ (Q q) (c ∷ [])
              (All-same (λ t. minkey <ℤ t.prio) k.thrtab f (Q q) same i.prios)
              (ground (arith, ne, low), tt));
      }
    where
      kept :
          (j : ℕ)
          → has j (Q q) ≡ true
          → (switched (with_table (asleep k c s) T1) x T2).thrtab j ≡ k.thrtab j
      kept j m =
          let a : (j == c) ≡ false = ground arith in
          let b : (j == x) ≡ false = ground arith in ground (arith, a, b)

-- The entries of the threads after a switch from `c`, which waits for semaphore `s`, to `x`.
pub record Blocked (k : Kernel) (s c x : ℕ) (k' : Kernel) : Type 0 where
  pub caller : k'.thrtab c ≡ record (k.thrtab c) { state = ThreadState.wait; sem = s }
  pub next : k'.thrtab x ≡ record (k.thrtab x) { state = ThreadState.curr }
  pub others : (j : ℕ) → j ≢ c → j ≢ x → k'.thrtab j ≡ k.thrtab j

-- `wait`, without a deferral, by the running thread, whose priority is above MINKEY, on a
-- semaphore with no positive count, while a thread is ready, puts the caller behind the waiting
-- threads and gives the processor to the first ready thread, which has the highest priority of
-- them. The caller is marked as waiting for this semaphore, the other one as current, and no other
-- thread changes. The invariants of the scheduler and of the semaphore are kept.
pub wait-blocks :
    (k : Kernel) (heads : ℕ → Bool) (Q : ℕ → List ℕ) (r s q c x : ℕ) (xs : List ℕ)
    → IsTop k heads Q r c
    → k.resdefer ≡ 0
    → minkey <ℤ (k.thrtab c).prio
    → IsSemaphore k heads Q r s q
    → ltb_ℤ (pos 0) (k.semtab s).count ≡ false
    → Q r ≡ x ∷ xs
    → (k' : Kernel) × Waited k heads Q r s q k' (update (update Q q (Q q ++ c ∷ [])) r xs) x
      × Blocked k s c x k'
wait-blocks k heads Q r s q c x xs t now low i h e =
    let (T1, run, sched) =
      enqueue-IsScheduled (asleep k c s) heads Q r q c
        (asleep-IsScheduled k heads Q r s c t.sched (t.apart r t.sched.head)) i.head i.other t.apart
        (live_asleep k c s t.c_in) in
    let k2 = with_table (asleep k c s) T1 in
    let e2 : update Q q (Q q ++ c ∷ []) r ≡ x ∷ xs = ground (arith, i.other, e) in
    let (T2, sw, top) = switch-IsTop k2 heads (update Q q (Q q ++ c ∷ [])) r x xs sched e2 in
    let leave =
      resched_leave k2 c (record { current = t.current; c_in = t.c_in; now = now })
        (ground arith) in
    let x_in : has x (Q r) ≡ true = subst (λ l. has x l ≡ true) (sym e) (ground arith) in
    let apart =
      in_no_other k.quetab heads Q r x t.sched.system t.sched.head x_in q i.head i.other in
    let ne : (c == x) ≡ false =
      (let o = subst (λ l. has c l ≡ false) e (t.apart r t.sched.head) in ground arith) in
    (
      switched k2 x T2,
      record {
        ran =
            wait_block k heads Q r s q c i h t.current
            ∙ block_run k heads Q r s q c t.c_in k2 _ run (leave ∙ sw);
        top = top;
        kept = blocked-IsSemaphore k heads Q r s q c x xs T1 T2 i h (t.apart q i.head) apart ne low;
        count = ground arith;
        frame = refl;
      },
      record {
        caller = ground (arith, ne);
        next = ground (arith, ne);
        others = λ j a b. ground arith;
      },
    )
