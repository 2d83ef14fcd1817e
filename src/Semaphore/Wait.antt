-- ===== src/Semaphore/Wait.antt =====
-- `wait` of system/wait.c, on both branches.
use xinu.Base.{
  ℕ, ◌+◌, ◌<◌, ◌≡◌, refl, ap, ◌∙◌, ℤ, pos, ◌-ℤ◌, ltb_ℤ, true, false, Bool, List, [], ◌∷◌, ◌++◌,
  arith, length, neg_part, int_laws,
}
use xinu.Kernel.{
  nthread, OK, ThreadState, Thrent, Kernel, K, ok, update, set_state, put_thrent, pure, ◌>>◌,
}
use xinu.Queue.{enqueue}
use xinu.Semaphore.{sement, wait}
use xinu.Semaphore.Waiters.{
  IsSemaphore, sement_in, put_sement_in, isbadsem_in, with_sem, IsScheduled-sem,
}
use xinu.Thread.{resched, gettid}
use xinu.Thread.Ready.{with_thread}
use xinu.Thread.Resched.{IsTop}
use xinu.Thread.Scheduled.{put_thrent_in}

pub neg_part-down : (c : ℤ) → ltb_ℤ (pos 0) c ≡ false → neg_part (c -ℤ pos 1) ≡ neg_part c + 1
neg_part-down c h = grind int_laws

positive : (c : ℤ) → ltb_ℤ (pos 0) c ≡ true → ltb_ℤ (c -ℤ pos 1) (pos 0) ≡ false
positive c h = grind int_laws

neg_part-still : (c : ℤ) → ltb_ℤ (pos 0) c ≡ true → neg_part (c -ℤ pos 1) ≡ neg_part c
neg_part-still c h = grind int_laws

not_positive : (c : ℤ) → ltb_ℤ (pos 0) c ≡ false → ltb_ℤ (c -ℤ pos 1) (pos 0) ≡ true
not_positive c h = grind int_laws

pub length-snoc : (xs : List ℕ) (x : ℕ) → length (xs ++ x ∷ []) ≡ length xs + 1
length-snoc [] x = refl
length-snoc (y ∷ xs) x = ground (arith, length-snoc xs x)

abbrev pub taken : Kernel → ℕ → Kernel
taken k s = with_sem k s (record (k.semtab s) { count = (k.semtab s).count -ℤ pos 1 })

-- The kernel with thread `c` marked as waiting for semaphore `s`.
abbrev pub marked : Kernel → ℕ → Thrent
marked k c = record (k.thrtab c) { state = ThreadState.wait }

abbrev pub asleep : Kernel → ℕ → ℕ → Kernel
asleep k c s =
    let k1 = with_thread (taken k s) c (marked k c) in
    with_thread k1 c (record (k1.thrtab c) { sem = s })

-- What `wait` does with a thread that must wait.
abbrev pub block : ℕ → ℤ → ℤ → K ℤ
block sem cur queue = do
  set_state cur ThreadState.wait
  put_thrent cur (λ t. record t { sem = sem })
  enqueue cur queue
  resched
  pure OK

module _ (k : Kernel) (heads : ℕ → Bool) (Q : ℕ → List ℕ) (r s q c : ℕ) where
  wait_passes :
      IsSemaphore k heads Q r s q
      → ltb_ℤ (pos 0) (k.semtab s).count ≡ true
      → wait s k ≡ ok OK (taken k s)
  unfolding wait sement
  wait_passes i h = ground (
    arith,
    isbadsem_in k s i.s_in i.used,
    i.s_in,
    put_sement_in s (λ e. record e { count = e.count -ℤ pos 1 }) i.s_in,
    positive (k.semtab s).count h,
  )

  wait_run :
      IsSemaphore k heads Q r s q
      → ltb_ℤ (pos 0) (k.semtab s).count ≡ false
      → wait s k ≡ block s k.thrcurrent (k.semtab s).queue (taken k s)
  unfolding wait gettid
  wait_run i h =
      let self : update k.semtab s (record (k.semtab s) { count = (k.semtab s).count -ℤ pos 1 }) s
          ≡ record (k.semtab s) { count = (k.semtab s).count -ℤ pos 1 } =
        ground arith in
      rw
        (
          isbadsem_in k s i.s_in i.used,
          put_sement_in s _ i.s_in,
          sement_in s i.s_in,
          self,
          not_positive (k.semtab s).count h,
        )
        refl

  pub wait_block :
      IsSemaphore k heads Q r s q
      → ltb_ℤ (pos 0) (k.semtab s).count ≡ false
      → k.thrcurrent ≡ pos c
      → wait s k ≡ block s (pos c) (pos q) (taken k s)
  wait_block i h now =
      wait_run i h
      ∙ ap (λ v. block s v (k.semtab s).queue (taken k s)) now
      ∙ ap (λ v. block s (pos c) v (taken k s)) i.queue

  pub block_run :
      c < nthread
      → (k2 k3 : Kernel) → enqueue (pos c) (pos q) (asleep k c s) ≡ ok (pos c) k2
      → resched k2 ≡ ok OK k3
      → block s (pos c) (pos q) (taken k s) ≡ ok OK k3
  block_run c_in k2 k3 run done =
      rw (put_thrent_in c _ c_in, put_thrent_in c _ c_in, run, done) refl

-- What `wait` leaves on either branch.
pub record Waited (k : Kernel) (heads : ℕ → Bool) (Q : ℕ → List ℕ) (r s q : ℕ) (k' : Kernel)
    (Q' : ℕ → List ℕ) (c' : ℕ) : Type 0 where
  pub ran : wait s k ≡ ok OK k'
  pub top : IsTop k' heads Q' r c'
  pub kept : IsSemaphore k' heads Q' r s q
  pub count : (k'.semtab s).count ≡ (k.semtab s).count -ℤ pos 1
  pub frame : k' ≡ record k {
    quetab = k'.quetab;
    thrtab = k'.thrtab;
    thrcurrent = k'.thrcurrent;
    semtab = k'.semtab;
  }

-- `wait` by the running thread on a semaphore with a positive count only takes one from it: the
-- caller runs on, and the invariants of the scheduler and of the semaphore are kept.
pub wait-passes :
    (k : Kernel) (heads : ℕ → Bool) (Q : ℕ → List ℕ) (r s q c : ℕ)
    → IsTop k heads Q r c
    → IsSemaphore k heads Q r s q
    → ltb_ℤ (pos 0) (k.semtab s).count ≡ true
    → Waited k heads Q r s q (taken k s) Q c
wait-passes k heads Q r s q c t i h = record {
  ran = wait_passes k heads Q r s q c i h;
  top = record {
    sched = IsScheduled-sem k heads Q r s _ t.sched;
    current = t.current;
    curr = t.curr;
    c_in = t.c_in;
    apart = t.apart;
    top = t.top;
  };
  kept = record {
    s_in = i.s_in;
    used = ground (arith, i.used);
    queue = ground (arith, i.queue);
    head = i.head;
    other = i.other;
    count = ground (arith, neg_part-still (k.semtab s).count h, i.count);
    waiting = i.waiting;
    prios = i.prios;
  };
  count = ground arith;
  frame = refl;
}
