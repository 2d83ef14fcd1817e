-- ===== src/Semaphore/Waiters.antt =====
-- A semaphore and the threads that wait on it: system/wait.c, system/signal.c, system/signaln.c.
use xinu.Base.{
  ℕ, suc, ◌-◌, ◌<◌, ◌≡◌, ◌≢◌, refl, ap, ◌∙◌, subst, sym, ℤ, pos, negsuc, ◌+ℤ◌, ◌<ℤ◌, ltb_ℤ, true,
  false, Bool, List, [], ◌∷◌, ◌++◌, arith, All, has, ◌==◌, lt→ltb, length, neg_part, int_laws,
}
use xinu.Kernel.{
  nthread, nsem, ThreadState, Thrent, Sement, Kernel, ok, update, minkey, isbadtid, modify, gets,
}
use xinu.Queue.Chain.{Table}
use xinu.Semaphore.{isbadsem, sement, put_sement, release_one}
use xinu.Thread.Preempt.{Rescheduled}
use xinu.Thread.Ready.{InNone, with_table, made_ready, make_ready-IsScheduled}
use xinu.Thread.Scheduled.{IsScheduled, in_no_other}
use xinu.Thread.Waiting.{dequeue-IsScheduled}

-- While the count is negative, it is the number of waiting threads; otherwise nobody waits.
pub record IsSemaphore (k : Kernel) (heads : ℕ → Bool) (Q : ℕ → List ℕ) (r s q : ℕ) : Type 0 where
  pub s_in : s < nsem
  pub used : (k.semtab s).used ≡ true
  pub queue : (k.semtab s).queue ≡ pos q
  pub head : heads q ≡ true
  pub other : q ≢ r
  pub count : neg_part (k.semtab s).count ≡ length (Q q)
  pub waiting : All (λ x. (k.thrtab x).state ≡ ThreadState.wait) (Q q)
  pub prios : All (λ x. minkey <ℤ (k.thrtab x).prio) (Q q)

-- The sign of a count by the number of waiting threads, and how the two change together.
pub not_negative : (c : ℤ) → neg_part c ≡ 0 → ltb_ℤ c (pos 0) ≡ false
not_negative (pos n) h = ground arith
not_negative (negsuc n) h = absurd (ground arith)

pub negative : (c : ℤ) (n : ℕ) → neg_part c ≡ suc n → ltb_ℤ c (pos 0) ≡ true
negative (pos n) m h = absurd (ground arith)
negative (negsuc n) m h = ground arith

pub neg_part-up : (c : ℤ) → neg_part (c +ℤ pos 1) ≡ neg_part c - 1
neg_part-up c = grind int_laws

pub All-same {ℓ} :
    (P : Thrent → Type ℓ) (f g : ℕ → Thrent) (xs : List ℕ)
    → ((j : ℕ) → has j xs ≡ true → g j ≡ f j)
    → All (λ x. P (f x)) xs
    → All (λ x. P (g x)) xs
All-same P f g [] same a = tt
All-same P f g (x ∷ xs) same a = (
  subst P (sym (same x (ground arith))) a.0,
  All-same P f g xs (λ j h. same j (ground arith)) a.1,
)

-- The invariant depends on the entry, its queue and the threads in it only.
pub IsSemaphore-frame :
    (k k' : Kernel) (heads : ℕ → Bool) (Q Q' : ℕ → List ℕ) (r s q : ℕ)
    → k'.semtab s ≡ k.semtab s
    → Q' q ≡ Q q
    → ((j : ℕ) → has j (Q q) ≡ true → k'.thrtab j ≡ k.thrtab j)
    → IsSemaphore k heads Q r s q
    → IsSemaphore k' heads Q' r s q
IsSemaphore-frame k k' heads Q Q' r s q sem list thr i = record {
  s_in = i.s_in;
  used = ap (λ e. e.used) sem ∙ i.used;
  queue = ap (λ e. e.queue) sem ∙ i.queue;
  head = i.head;
  other = i.other;
  count = ap (λ e. neg_part e.count) sem ∙ i.count ∙ ap length (sym list);
  waiting =
      subst (All _) (sym list)
        (All-same (λ t. t.state ≡ ThreadState.wait) k.thrtab k'.thrtab (Q q) thr i.waiting);
  prios =
      subst (All _) (sym list)
        (All-same (λ t. minkey <ℤ t.prio) k.thrtab k'.thrtab (Q q) thr i.prios);
}

-- A reschedule leaves every semaphore as it is.
pub IsSemaphore-resched :
    (k k' : Kernel) (heads : ℕ → Bool) (Q Q' : ℕ → List ℕ) (r c c' s q : ℕ)
    → IsScheduled k heads Q r
    → InNone heads Q c
    → Rescheduled k heads Q r c k' Q' c'
    → IsSemaphore k heads Q r s q
    → IsSemaphore k' heads Q' r s q
IsSemaphore-resched k k' heads Q Q' r c c' s q sched apart done i =
    IsSemaphore-frame k k' heads Q Q' r s q (ap (λ m. m.semtab s) done.frame)
      (done.others q i.other) (λ j h. done.threads j (outside j h)) i
  where
    differs : (j : ℕ) → has j (Q q) ≡ true → has c (Q q) ≡ false → (j == c) ≡ false
    differs j a b = ground arith

    outside : (j : ℕ) → has j (Q q) ≡ true → has j (c ∷ Q r) ≡ false
    outside j h =
        let d = differs j h (apart q i.head) in
        let n =
          in_no_other k.quetab heads Q q j sched.system i.head h r sched.head
            (λ e. i.other (sym e)) in
        ground (arith, d, n)

pub sement_in : (s : ℕ) → s < nsem → sement s ≡ gets (λ k. k.semtab s)
unfolding sement
sement_in s h = rw (lt→ltb s nsem h)

pub put_sement_in :
    (s : ℕ) (f : Sement → Sement)
    → s < nsem
    → put_sement s f ≡ modify (λ k. record k { semtab = update k.semtab s (f (k.semtab s)) })
unfolding put_sement
put_sement_in s f h = rw (lt→ltb s nsem h)

pub isbadsem_in : (k : Kernel) (s : ℕ) → s < nsem → (k.semtab s).used ≡ true → isbadsem k s ≡ false
unfolding isbadsem
isbadsem_in k s h u = ground arith

abbrev pub with_sem : Kernel → ℕ → Sement → Kernel
with_sem k s e = record k { semtab = update k.semtab s e }

pub IsScheduled-sem :
    (k : Kernel) (heads : ℕ → Bool) (Q : ℕ → List ℕ) (r s : ℕ) (e : Sement)
    → IsScheduled k heads Q r
    → IsScheduled (with_sem k s e) heads Q r
IsScheduled-sem k heads Q r s e i = record {
  readylist = i.readylist;
  head = i.head;
  system = i.system;
  sorted = i.sorted;
  ready = i.ready;
  prios = i.prios;
}

live_waiting :
    (k : Kernel) (t : ℕ)
    → t < nthread
    → (k.thrtab t).state ≡ ThreadState.wait
    → isbadtid k (pos t) ≡ false
unfolding isbadtid
live_waiting k t lt h = ground arith

module _ (k : Kernel) (heads : ℕ → Bool) (Q : ℕ → List ℕ) (r q x : ℕ) (xs : List ℕ) where
  -- The first waiting thread moves to the ready list, behind those of its priority.
  pub release_one-head :
      IsScheduled k heads Q r
      → heads q ≡ true
      → q ≢ r
      → Q q ≡ x ∷ xs
      → (k.thrtab x).state ≡ ThreadState.wait
      → minkey <ℤ (k.thrtab x).prio
      → (T' : Table) × (ys : List ℕ) × (zs : List ℕ) × (release_one (pos q) k
          ≡ ok tt (with_table (made_ready k x) T'))
        × (Q r ≡ ys ++ zs)
        × IsScheduled
            (with_table (made_ready k x) T')
            heads
            (update (update Q q xs) r (ys ++ x ∷ zs))
            r
        × InNone heads (update Q q xs) x
        × (x < nthread)
  unfolding release_one
  release_one-head s eq ne e st low =
      let (T1, run1, sched1, free, x_in) = dequeue-IsScheduled k heads Q r q x xs s eq ne e in
      let (T2, ys, zs, run2, e2, sched2, ge, less, keys) =
        make_ready-IsScheduled (with_table k T1) heads (update Q q xs) r x sched1 free x_in low in
      (
        T2,
        ys,
        zs,
        rw (run1, live_waiting (with_table k T1) x x_in st, run2) refl,
        ground (arith, e2),
        sched2,
        free,
        x_in,
      )
