-- ===== src/Semaphore/Signal.antt =====
-- `signal` of system/signal.c, with the reschedule at its end.
use xinu.Base.{
  ℕ, ◌≡◌, ◌≢◌, refl, ap, ◌∙◌, subst, sym, pos, ◌+ℤ◌, ◌<ℤ◌, false, Bool, List, [], ◌∷◌, ◌++◌, arith,
  All, has, ◌==◌,
}
use xinu.Kernel.{OK, ThreadState, Kernel, ok, update, minkey}
use xinu.Semaphore.{release_one, signal}
use xinu.Semaphore.Waiters.{
  IsSemaphore, IsSemaphore-resched, IsSemaphore-frame, IsScheduled-sem, release_one-head,
}
use xinu.Thread.Preempt.{resched-Rescheduled}
use xinu.Thread.Ready.{with_table, made_ready}
use xinu.Thread.Resched.{IsTop}
use xinu.Semaphore.Release.{
  counted, rest, released, signal_free, signal_wakes, counted-IsSemaphore_nil, released-IsSemaphore,
  apart_released, waiter_stays, joined, only_state,
}

-- What `signal` leaves: the scheduler's invariant, the semaphore's, one more count, and the first
-- waiting thread moved from its queue to the threads that can run.
pub record Signalled (k : Kernel) (heads : ℕ → Bool) (Q : ℕ → List ℕ) (r s q c : ℕ) (k' : Kernel)
    (Q' : ℕ → List ℕ) (c' : ℕ) : Type 0 where
  pub ran : signal s k ≡ ok OK k'
  pub top : IsTop k' heads Q' r c'
  pub kept : IsSemaphore k' heads Q' r s q
  pub count : (k'.semtab s).count ≡ (k.semtab s).count +ℤ pos 1
  pub queue : Q' q ≡ rest (Q q)
  pub runnable : (y : ℕ) → has y (c' ∷ Q' r) ≡ has y (c ∷ released (Q q) (Q r))
  pub threads : (j : ℕ) → has j (c ∷ released (Q q) (Q r)) ≡ false → k'.thrtab j ≡ k.thrtab j
  pub fields : (j : ℕ) → k'.thrtab j ≡ record (k.thrtab j) { state = (k'.thrtab j).state }
  pub others : (h : ℕ) → h ≢ r → h ≢ q → Q' h ≡ Q h
  pub frame : k' ≡ record k {
    quetab = k'.quetab;
    thrtab = k'.thrtab;
    thrcurrent = k'.thrcurrent;
    semtab = k'.semtab;
  }
  pub sems : (j : ℕ) → j ≢ s → k'.semtab j ≡ k.semtab j
  pub other_kept :
      (s2 q2 : ℕ)
      → s2 ≢ s
      → q2 ≢ q
      → IsSemaphore k heads Q r s2 q2
      → IsSemaphore k' heads Q' r s2 q2

module _ (k : Kernel) (heads : ℕ → Bool) (Q : ℕ → List ℕ) (r s q c : ℕ) where
  -- No thread waits.
  free-Signalled :
      IsTop k heads Q r c
      → IsSemaphore k heads Q r s q
      → Q q ≡ []
      → (k' : Kernel) × (Q' : ℕ → List ℕ) × (c' : ℕ) × Signalled k heads Q r s q c k' Q' c'
  free-Signalled t i e = (
    counted k s,
    Q,
    c,
    record {
      ran = signal_free k heads Q r s q i e;
      top = record {
        sched = IsScheduled-sem k heads Q r s _ t.sched;
        current = t.current;
        curr = t.curr;
        c_in = t.c_in;
        apart = t.apart;
        top = t.top;
      };
      kept = counted-IsSemaphore_nil k heads Q r s q i e;
      count = ground arith;
      queue = e ∙ ap rest (sym e);
      runnable = λ y. ap (λ l. has y (c ∷ released l (Q r))) (sym e);
      threads = λ j h. refl;
      fields = λ j. refl;
      others = λ h a b. refl;
      frame = refl;
      sems = λ j ne. ground arith;
      other_kept = λ s2 q2 ne _ i2.
          IsSemaphore-frame k (counted k s) heads Q Q r s2 q2 (ground arith) refl (λ j h. refl) i2;
    },
  )

  -- Thread `x` waits first.
  wakes-Signalled :
      IsTop k heads Q r c
      → k.resdefer ≡ 0
      → minkey <ℤ (k.thrtab c).prio
      → IsSemaphore k heads Q r s q
      → (x : ℕ) (xs : List ℕ) → Q q ≡ x ∷ xs
      → (k' : Kernel) × (Q' : ℕ → List ℕ) × (c' : ℕ) × Signalled k heads Q r s q c k' Q' c'
  wakes-Signalled t now low i x xs e =
      let waits = subst (All (λ y. (k.thrtab y).state ≡ ThreadState.wait)) e i.waiting in
      let prios = subst (All (λ y. minkey <ℤ (k.thrtab y).prio)) e i.prios in
      let (T', ys, zs, run, e2, sched, free, x_in) =
        release_one-head (counted k s) heads Q r q x xs (IsScheduled-sem k heads Q r s _ t.sched)
          i.head i.other e waits.0 prios.0 in
      let k2 = with_table (made_ready (counted k s) x) T' in
      let Q2 = update (update Q q xs) r (ys ++ x ∷ zs) in
      let ne : (c == x) ≡ false =
        (let o = subst (λ l. has c l ≡ false) e (t.apart q i.head) in ground arith) in
      let same : k2.thrtab c ≡ k.thrtab c = ground (arith, ne) in
      let apart = apart_released heads Q r q c x xs ys zs t.apart i.head t.sched.head e e2 in
      let at_r : Q2 r ≡ ys ++ x ∷ zs = ground arith in
      let once : has x xs ≡ false = subst (λ l. has x l ≡ false) (ground arith) (free q i.head) in
      let (k3, Q3, done) =
        resched-Rescheduled k2 heads Q2 r c sched
          (record { current = t.current; c_in = t.c_in; now = now }) apart
          (subst (λ p. minkey <ℤ p.prio) (sym same) low) (ap (λ p. p.state) same ∙ t.curr) in
      let i2 = released-IsSemaphore k heads Q r s q i x xs (ys ++ x ∷ zs) T' e once in
      (
        k3,
        Q3,
        _,
        record {
          ran =
              signal_wakes k heads Q r s q i x xs e k2 k3
                (subst (λ l. release_one l (counted k s) ≡ ok tt k2) (sym i.queue) run) done.ran;
          top = done.top;
          kept = IsSemaphore-resched k2 k3 heads Q2 Q3 r c _ s q sched apart done i2;
          count = ap (λ m. (m.semtab s).count) done.frame ∙ ground arith;
          queue = done.others q i.other ∙ ground (arith, i.other) ∙ ap rest (sym e);
          runnable = λ y.
              done.same y
              ∙ ap (λ l. has y (c ∷ l)) at_r
              ∙ joined y c x (Q r) ys zs e2
              ∙ ap (λ l. has y (c ∷ released l (Q r))) (sym e);
          threads = λ j h.
              let out : has j (c ∷ x ∷ Q r) ≡ false =
                subst (λ l. has j (c ∷ released l (Q r)) ≡ false) e h in
              done.threads j (ap (λ l. has j (c ∷ l)) at_r ∙ joined j c x (Q r) ys zs e2 ∙ out)
              ∙ ground (arith, out);
          fields = λ j. done.fields j ∙ only_state k x j _;
          others = λ h a b. done.others h a ∙ ground arith;
          frame =
              done.frame
              ∙ ap
                  (λ t. record k {
                    quetab = k3.quetab;
                    thrtab = k3.thrtab;
                    thrcurrent = k3.thrcurrent;
                    semtab = t;
                  })
                  (sym (ap (λ m. m.semtab) done.frame));
          sems = λ j ne2. ap (λ m. m.semtab j) done.frame ∙ ground arith;
          other_kept = λ s2 q2 ne2 qne i2.
              IsSemaphore-resched k2 k3 heads Q2 Q3 r c _ s2 q2 sched apart done (
                IsSemaphore-frame k k2 heads Q Q2 r s2 q2 (ground arith) (ground (arith, i2.other))
                  (λ j h.
                    ground
                      (arith, waiter_stays k heads Q r q x xs s2 q2 j t.sched i.head e qne i2 h))
                  i2);
        },
      )

-- `signal` by the running thread, whose priority is above MINKEY, and without a deferral, keeps
-- the scheduler's invariant and the semaphore's. It adds one to the count, and the first waiting
-- thread, if there is one, leaves the queue and joins those that can run, before the processor is
-- given to one of them of the highest priority: the current thread and the ready ones are those of
-- before and the released one. No other thread's entry changes, and no entry but in its state. No queue but the semaphore's and the ready list changes, no other semaphore
-- does, and the invariants of the others that have queues of their own are kept.
pub signal-Signalled :
    (k : Kernel) (heads : ℕ → Bool) (Q : ℕ → List ℕ) (r s q c : ℕ)
    → IsTop k heads Q r c
    → k.resdefer ≡ 0
    → minkey <ℤ (k.thrtab c).prio
    → IsSemaphore k heads Q r s q
    → (k' : Kernel) × (Q' : ℕ → List ℕ) × (c' : ℕ) × Signalled k heads Q r s q c k' Q' c'
signal-Signalled k heads Q r s q c t now low i = go (Q q) refl
  where
    go :
        (l : List ℕ)
        → Q q ≡ l
        → (k' : Kernel) × (Q' : ℕ → List ℕ) × (c' : ℕ) × Signalled k heads Q r s q c k' Q' c'
    go [] e = free-Signalled k heads Q r s q c t i e
    go (x ∷ xs) e = wakes-Signalled k heads Q r s q c t now low i x xs e
