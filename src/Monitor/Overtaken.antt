-- ===== src/Monitor/Overtaken.antt =====
-- A monitor that is claimed between the release by its last owner and the turn of the thread that
-- waited: system/lock.c and system/unlock.c.
use xinu.Base.{
  ℕ, ◌+◌, ◌-◌, ◌%◌, ◌^◌, ◌<◌, ◌≡◌, refl, ap, ◌∙◌, sym, subst, ℤ, pos, ◌<ℤ◌, ltb_ℤ, leb, Bool, true,
  false, List, [], ◌∷◌, ◌++◌, arith, lt→ltb,
}
use xinu.Kernel.{
  OK, Kernel, Monent, K, ok, pure, update, update_at, update_over, minkey, modify, ◌>>◌,
}
use xinu.Monitor.{lock, take_free, claim, unlock, noowner, monent, put_monent, isbadmon, count_up}
use xinu.Monitor.Nested.{unlock_inner}
use xinu.Semaphore.Block.{wait-blocks}
use xinu.Semaphore.Waiters.{IsSemaphore, IsSemaphore-frame}
use xinu.Semaphore.{wait}
use xinu.Thread.{gettid}
use xinu.Thread.Resched.{IsTop}

abbrev with_monitor : Kernel → ℕ → Monent → Kernel
with_monitor k mon m = record k { montab = update k.montab mon m }

module _ (nmon : ℕ) (mon : ℕ) (lt : mon < nmon) where
  put_monent_in :
      (f : Monent → Monent)
      → put_monent nmon mon f ≡ modify (λ k. with_monitor k mon (f (k.montab mon)))
  unfolding put_monent
  put_monent_in f = rw (lt→ltb mon nmon lt)

  -- The owner's name and one more count.
  abbrev owned : Kernel → ℤ → Monent
  owned k cur = record (k.montab mon) { owner = cur; count = ((k.montab mon).count + 1) % 2 ^ 32 }

  owned_run :
      (k : Kernel) (cur : ℤ)
      → (put_monent nmon mon (λ m. record m { owner = cur }) >> count_up nmon mon) k
        ≡ ok tt (with_monitor k mon (owned k cur))
  owned_run k cur =
      rw
        (
          put_monent_in _,
          put_monent_in _,
          update_at k.montab mon (record (k.montab mon) { owner = cur }),
          update_over k.montab mon (record (k.montab mon) { owner = cur }) (owned k cur),
        )
        refl

  claim_run : (k : Kernel) → claim nmon mon k ≡ ok tt (with_monitor k mon (owned k k.thrcurrent))
  unfolding claim gettid
  claim_run k = owned_run k k.thrcurrent

  take_free_run :
      (k k1 : Kernel) (cur v : ℤ)
      → wait (k.montab mon).sem (with_monitor k mon (owned k cur)) ≡ ok v k1
      → take_free nmon mon cur k ≡ ok tt k1
  unfolding take_free monent
  take_free_run k k1 cur v waited =
      rw
        (
          put_monent_in _,
          put_monent_in _,
          update_at k.montab mon (record (k.montab mon) { owner = cur }),
          update_over k.montab mon (record (k.montab mon) { owner = cur }) (owned k cur),
          lt→ltb mon nmon lt,
          update_at k.montab mon (owned k cur),
          waited,
        )
        refl

  lock_free :
      (k k1 : Kernel) (others : K (Unit {0}))
      → (k.montab mon).used ≡ true
      → (k.montab mon).owner ≡ noowner
      → take_free nmon mon k.thrcurrent k ≡ ok tt k1
      → lock nmon others mon k ≡ (others >> pure OK) k1
  unfolding lock isbadmon monent gettid
  lock_free k k1 others used free ran =
      let inside : leb nmon mon ≡ false = ground arith in
      rw (inside, used, lt→ltb mon nmon lt, free, ran) refl

module _ (k : Kernel) (heads : ℕ → Bool) (Q : ℕ → List ℕ) (r mon : ℕ) (m : Monent) where
  -- The scheduler and the semaphores do not depend on the monitors.
  IsTop-monitor : (c : ℕ) → IsTop k heads Q r c → IsTop (with_monitor k mon m) heads Q r c
  IsTop-monitor c t = record {
    sched = record {
      readylist = t.sched.readylist;
      head = t.sched.head;
      system = t.sched.system;
      sorted = t.sched.sorted;
      ready = t.sched.ready;
      prios = t.sched.prios;
    };
    current = t.current;
    curr = t.curr;
    c_in = t.c_in;
    apart = t.apart;
    top = t.top;
  }

  IsSemaphore-monitor :
      (s q : ℕ) → IsSemaphore k heads Q r s q → IsSemaphore (with_monitor k mon m) heads Q r s q
  IsSemaphore-monitor s q i =
      IsSemaphore-frame k (with_monitor k mon m) heads Q Q r s q refl refl (λ j h. refl) i

-- The queues when thread `c` waits and thread `x` runs.
abbrev pub waiting : (ℕ → List ℕ) → ℕ → ℕ → ℕ → List ℕ → ℕ → List ℕ
waiting Q r q c xs = update (update Q q (Q q ++ c ∷ [])) r xs

-- A thread that locks a free monitor whose semaphore has no positive count, as it is after the last
-- `unlock` let the waiting thread `x` through, when `x` is the first ready thread: the caller is
-- entered as the owner and waits. Thread `x` goes on in its own `lock` and then unlocks once. The
-- monitor has then a count of 1 and `x` for its owner, and the caller waits on behind the others
-- of the semaphore. The caller has a priority above MINKEY and runs without a deferral.
pub lock-overtaken :
    (nmon : ℕ) (k : Kernel) (heads : ℕ → Bool) (Q : ℕ → List ℕ) (r mon q c x : ℕ) (xs : List ℕ)
    (others : K (Unit {0}))
    → mon < nmon
    → (k.montab mon).used ≡ true
    → (k.montab mon).owner ≡ noowner
    → (k.montab mon).count ≡ 0
    → IsTop k heads Q r c
    → k.resdefer ≡ 0
    → minkey <ℤ (k.thrtab c).prio
    → IsSemaphore k heads Q r (k.montab mon).sem q
    → ltb_ℤ (pos 0) (k.semtab (k.montab mon).sem).count ≡ false
    → Q r ≡ x ∷ xs
    → (k1 : Kernel) × (k2 : Kernel) × (k3 : Kernel) × (lock nmon others mon k
        ≡ (others >> pure OK) k1)
      × IsTop k1 heads (waiting Q r q c xs) r x
      × (claim nmon mon k1 ≡ ok tt k2)
      × (unlock nmon mon k2 ≡ ok OK k3)
      × ((k3.montab mon).count ≡ 1)
      × ((k3.montab mon).owner ≡ pos x)
      × IsTop k3 heads (waiting Q r q c xs) r x
      × IsSemaphore k3 heads (waiting Q r q c xs) r (k.montab mon).sem q
lock-overtaken nmon k heads Q r mon q c x xs others lt used free none_yet t now low i h e =
    let s = (k.montab mon).sem in
    let m0 = owned nmon mon lt k (pos c) in
    let k0 = with_monitor k mon m0 in
    let (k1, w, _) =
      wait-blocks k0 heads Q r s q c x xs (IsTop-monitor k heads Q r mon m0 c t) now low
        (IsSemaphore-monitor k heads Q r mon m0 s q i) h e in
    let claimed : k1.montab mon ≡ m0 = ap (λ a. a.montab mon) w.frame ∙ update_at k.montab mon m0 in
    let m2 = owned nmon mon lt k1 k1.thrcurrent in
    let k2 = with_monitor k1 mon m2 in
    let at : k2.montab mon ≡ m2 = update_at k1.montab mon m2 in
    let two : (k2.montab mon).count ≡ 2 =
      ap (λ a. a.count) at
      ∙ ap (λ a. (a.count + 1) % 2 ^ 32) claimed
      ∙ ap (λ n. ((n + 1) % 2 ^ 32 + 1) % 2 ^ 32) none_yet in
    let m3 = record (k2.montab mon) { count = (k2.montab mon).count - 1 } in
    let k3 = with_monitor k2 mon m3 in
    let at3 : k3.montab mon ≡ m3 = update_at k2.montab mon m3 in
    (
      k1,
      k2,
      k3,
      lock_free nmon mon lt k k1 others used free (
          subst (λ u. take_free nmon mon u k ≡ ok tt k1) (sym t.current)
            (take_free_run nmon mon lt k k1 (pos c) OK w.ran)),
      w.top,
      claim_run nmon mon lt k1,
      unlock_inner nmon k2 mon lt (ap (λ a. a.used) at ∙ ap (λ a. a.used) claimed ∙ used)
          (omega (arith, two)),
      ap (λ a. a.count) at3 ∙ omega (arith, two),
      ap (λ a. a.owner) at3 ∙ ap (λ a. a.owner) at ∙ w.top.current,
      IsTop-monitor k2 heads (waiting Q r q c xs) r mon m3 x
          (IsTop-monitor k1 heads (waiting Q r q c xs) r mon m2 x w.top),
      IsSemaphore-monitor k2 heads (waiting Q r q c xs) r mon m3 s q
          (IsSemaphore-monitor k1 heads (waiting Q r q c xs) r mon m2 s q w.kept),
    )
