-- ===== src/Semaphore/Release.antt =====
-- The parts of `signal` of system/signal.c: its runs, and the semaphore after them.
use xinu.Base.{
  ℕ, suc, ◌≡◌, ◌≢◌, refl, ap, ◌∙◌, subst, sym, pos, ◌+ℤ◌, ◌<ℤ◌, ltb_ℤ, true, false, Bool, List, [],
  ◌∷◌, ◌++◌, arith, All, has, has-append, ◌==◌, length, neg_part,
}
use xinu.Kernel.{OK, ThreadState, Kernel, ok, update, minkey}
use xinu.Queue.Chain.{Table}
use xinu.Semaphore.{release_one, signal}
use xinu.Semaphore.Waiters.{
  IsSemaphore, All-same, negative, not_negative, neg_part-up, sement_in, put_sement_in, isbadsem_in,
  with_sem,
}
use xinu.Thread.{resched}
use xinu.Thread.Preempt.{has_part_eq}
use xinu.Thread.Ready.{InNone, with_table, made_ready}
use xinu.Thread.Scheduled.{IsScheduled, in_no_other}

abbrev pub counted : Kernel → ℕ → Kernel
counted k s = with_sem k s (record (k.semtab s) { count = (k.semtab s).count +ℤ pos 1 })

-- The waiting threads behind the first.
abbrev pub rest : List ℕ → List ℕ
rest [] = []
rest (x ∷ xs) = xs

-- The first waiting thread with the threads that can run, or these alone if none waits.
abbrev pub released : List ℕ → List ℕ → List ℕ
released [] ready = ready
released (x ∷ xs) ready = x ∷ ready

module _ (k : Kernel) (heads : ℕ → Bool) (Q : ℕ → List ℕ) (r s q : ℕ) where
  pub signal_free : IsSemaphore k heads Q r s q → Q q ≡ [] → signal s k ≡ ok OK (counted k s)
  unfolding signal
  signal_free i e =
      let c : neg_part (k.semtab s).count ≡ 0 = i.count ∙ ap length e in
      let n : ltb_ℤ (k.semtab s).count (pos 0) ≡ false = not_negative _ c in
      rw (isbadsem_in k s i.s_in i.used, sement_in s i.s_in, put_sement_in s _ i.s_in, n) refl

  pub signal_wakes :
      IsSemaphore k heads Q r s q
      → (x : ℕ) (xs : List ℕ) → Q q ≡ x ∷ xs
      → (k' k'' : Kernel) → release_one (k.semtab s).queue (counted k s) ≡ ok tt k'
      → resched k' ≡ ok OK k''
      → signal s k ≡ ok OK k''
  unfolding signal
  signal_wakes i x xs e k' k'' run done =
      let c : neg_part (k.semtab s).count ≡ suc (length xs) = i.count ∙ ap length e in
      let n : ltb_ℤ (k.semtab s).count (pos 0) ≡ true = negative _ (length xs) c in
      rw (isbadsem_in k s i.s_in i.used, sement_in s i.s_in, put_sement_in s _ i.s_in, n, run, done)
        refl

  pub counted-IsSemaphore_nil :
      IsSemaphore k heads Q r s q → Q q ≡ [] → IsSemaphore (counted k s) heads Q r s q
  counted-IsSemaphore_nil i e =
      let c : neg_part (k.semtab s).count ≡ 0 = i.count ∙ ap length e in
      record {
        s_in = i.s_in;
        used = ground (arith, i.used);
        queue = ground (arith, i.queue);
        head = i.head;
        other = i.other;
        count = rw e (ground (arith, neg_part-up (k.semtab s).count, c));
        waiting = i.waiting;
        prios = i.prios;
      }

  pub released-IsSemaphore :
      IsSemaphore k heads Q r s q
      → (x : ℕ) (xs ws : List ℕ) (T' : Table) → Q q ≡ x ∷ xs
      → has x xs ≡ false
      → IsSemaphore
          (with_table (made_ready (counted k s) x) T')
          heads
          (update (update Q q xs) r ws)
          r
          s
          q
  released-IsSemaphore i x xs ws T' e once =
      let c : neg_part (k.semtab s).count ≡ suc (length xs) = i.count ∙ ap length e in
      let list : update (update Q q xs) r ws q ≡ xs = ground (arith, i.other) in
      record {
        s_in = i.s_in;
        used = ground (arith, i.used);
        queue = ground (arith, i.queue);
        head = i.head;
        other = i.other;
        count = rw list (ground (arith, neg_part-up (k.semtab s).count, c));
        waiting = subst (All _) (sym list) (
            All-same (λ t. t.state ≡ ThreadState.wait) k.thrtab (made_ready k x).thrtab xs
              (λ j h. ground arith)
              (subst (All (λ y. (k.thrtab y).state ≡ ThreadState.wait)) e i.waiting).1);
        prios = subst (All _) (sym list) (
            All-same (λ t. minkey <ℤ t.prio) k.thrtab (made_ready k x).thrtab xs
              (λ j h. ground arith) (subst (All (λ y. minkey <ℤ (k.thrtab y).prio)) e i.prios).1);
      }

pub apart_released :
    (heads : ℕ → Bool) (Q : ℕ → List ℕ) (r q c x : ℕ) (xs ys zs : List ℕ)
    → InNone heads Q c
    → heads q ≡ true
    → heads r ≡ true
    → Q q ≡ x ∷ xs
    → Q r ≡ ys ++ zs
    → InNone heads (update (update Q q xs) r (ys ++ x ∷ zs)) c
apart_released heads Q r q c x xs ys zs out eq er e e2 h eh =
    let here : has c (x ∷ xs) ≡ false = subst (λ l. has c l ≡ false) e (out q eq) in
    let there : has c (ys ++ zs) ≡ false = subst (λ l. has c l ≡ false) e2 (out r er) in
    let usual = out h eh in ground (arith, has-append c ys zs, has-append c ys (x ∷ zs))

pub joined :
    (y c x : ℕ) (l ys zs : List ℕ) → l ≡ ys ++ zs → has y (c ∷ (ys ++ x ∷ zs)) ≡ has y (c ∷ x ∷ l)
joined y c x l ys zs e = ground (arith, has_part_eq y x ys zs) ∙ ap (λ m. has y (c ∷ x ∷ m)) (sym e)

pub only_state :
    (k : Kernel) (x j : ℕ) (st : ThreadState)
    → record ((made_ready k x).thrtab j) { state = st } ≡ record (k.thrtab j) { state = st }
only_state k x j st = ground arith

-- A thread that waits for another semaphore is not the one released.
pub waiter_stays :
    (k : Kernel) (heads : ℕ → Bool) (Q : ℕ → List ℕ) (r q x : ℕ) (xs : List ℕ) (s2 q2 j : ℕ)
    → IsScheduled k heads Q r
    → heads q ≡ true
    → Q q ≡ x ∷ xs
    → q2 ≢ q
    → IsSemaphore k heads Q r s2 q2
    → has j (Q q2) ≡ true
    → (j == x) ≡ false
waiter_stays k heads Q r q x xs s2 q2 j sched eq e ne i2 h =
    let out = in_no_other k.quetab heads Q q2 j sched.system i2.head h q eq (λ a. ne (sym a)) in
    let out' = subst (λ l. has j l ≡ false) e out in ground arith
