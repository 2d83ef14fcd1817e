-- ===== src/Kill/Ended.antt =====
-- What `kill` of system/kill.c leaves of a thread, by its state.
use xinu.Base.{
  ℕ, ◌≡◌, refl, subst, ℤ, pos, ◌+ℤ◌, ◌-ℤ◌, leb_ℤ, Bool, true, false, List, ◌∷◌, ◌++◌, arith, All,
  has, some, ◌==ℤ◌,
}
use xinu.Kernel.{OK, ThreadState, Kernel, K, ok, update, isbadtid}
use xinu.Kill.Left.{Gone, kill_run, give_up_run, leave_ready, leave_waiting, fewer, with_mem, freed}
use xinu.Queue.Contents.{IsQueue}
use xinu.Kill.{kill, leave_by}
use xinu.Memory.{Memory, stkfree}
use xinu.Queue.Links.{isbadtid-lt}
use xinu.Semaphore.Waiters.{IsSemaphore}
use xinu.Thread.Message.{send}
use xinu.Thread.Ready.{with_thread}
use xinu.Thread.Removal.{All-middle}
use xinu.Thread.Resched.{IsTop}
use xinu.Thread.Scheduled.{put_thrent_in}

-- `kill` of a thread that is ready when the caller comes to the switch at the end, while
-- more than the null thread and it are counted, and with a stack that can be given back: it
-- answers OK. The thread has left the ready list, the others stay there in their order, its entry
-- is free and in no queue, and no other thread changes in the switch. The scheduler's
-- invariant is kept.
pub kill_ready-Gone :
    (k k1 k2 k3 k5 : Kernel) (heads : ℕ → Bool) (Q : ℕ → List ℕ) (r x c : ℕ) (ys zs : List ℕ)
    (others : ℕ → K (Unit {0})) (v : ℤ) (b : Bool) (m : Memory)
    → isbadtid k (pos x) ≡ false
    → (pos x ==ℤ pos 0) ≡ false
    → leb_ℤ (k.thrcount -ℤ pos 1) (pos 1) ≡ false
    → others 0 (fewer k) ≡ ok tt k1
    → send (k1.thrtab x).parent (pos x) k1 ≡ ok v k2
    → others 1 k2 ≡ ok tt k3
    → stkfree (k3.thrtab x).stkbase (k3.thrtab x).stklen k3.mem ≡ some (b, m)
    → others 2 (with_mem k3 m) ≡ ok tt k5
    → IsTop k5 heads Q r c
    → Q r ≡ ys ++ x ∷ zs
    → (k' : Kernel) × (kill others (pos x) k ≡ ok OK k')
      × Gone k5 heads (update Q r (ys ++ zs)) r c x k5.mem k'
kill_ready-Gone k k1 k2 k3 k5 heads Q r x c ys zs others v b m live ne many first told run given
      last t e =
    let (k', left, gone, x_in) = leave_ready k5 heads Q r x c ys zs k5.mem t (k5.thrtab x).sem e in
    let st : (k5.thrtab x).state ≡ ThreadState.ready =
      All-middle _ ys zs x
        (subst (All (λ y. (k5.thrtab y).state ≡ ThreadState.ready)) e t.sched.ready) in
    (
      k',
      kill_run k k1 k2 k3 k' others x v live ne many first told run
          (give_up_run k3 k5 k' others x m b x_in given last (rw st left)),
      gone,
    )

-- `kill` of a thread that waits on a semaphore when the caller comes to the switch at the end,
-- while more than the null thread and it are counted, and with a stack that can be given
-- back: it answers OK. The thread has left the semaphore's queue, the others wait on in their
-- order, the count says so, its entry is free and in no queue, and no other thread changes in
-- the switch. The invariants of the scheduler and of the semaphore are kept.
pub kill_waiting-Gone :
    (k k1 k2 k3 k5 : Kernel) (heads : ℕ → Bool) (Q : ℕ → List ℕ) (r s q x c : ℕ) (ys zs : List ℕ)
    (others : ℕ → K (Unit {0})) (v : ℤ) (b : Bool) (m : Memory)
    → isbadtid k (pos x) ≡ false
    → (pos x ==ℤ pos 0) ≡ false
    → leb_ℤ (k.thrcount -ℤ pos 1) (pos 1) ≡ false
    → others 0 (fewer k) ≡ ok tt k1
    → send (k1.thrtab x).parent (pos x) k1 ≡ ok v k2
    → others 1 k2 ≡ ok tt k3
    → stkfree (k3.thrtab x).stkbase (k3.thrtab x).stklen k3.mem ≡ some (b, m)
    → others 2 (with_mem k3 m) ≡ ok tt k5
    → IsTop k5 heads Q r c
    → IsSemaphore k5 heads Q r s q
    → (k5.thrtab x).sem ≡ s
    → Q q ≡ ys ++ x ∷ zs
    → (k' : Kernel) × (kill others (pos x) k ≡ ok OK k')
      × Gone k5 heads (update Q q (ys ++ zs)) r c x k5.mem k'
      × IsSemaphore k' heads (update Q q (ys ++ zs)) r s q
      × ((k'.semtab s).count ≡ (k5.semtab s).count +ℤ pos 1)
kill_waiting-Gone k k1 k2 k3 k5 heads Q r s q x c ys zs others v b m live ne many first told run
      given last t i at e =
    let (k', left, gone, kept, count, x_in) =
      leave_waiting k5 heads Q r x c ys zs k5.mem t s q i e in
    let st : (k5.thrtab x).state ≡ ThreadState.wait =
      All-middle _ ys zs x
        (subst (All (λ y. (k5.thrtab y).state ≡ ThreadState.wait)) e i.waiting) in
    (
      k',
      kill_run k k1 k2 k3 k' others x v live ne many first told run
          (give_up_run k3 k5 k' others x m b x_in given last (rw (st, at) left)),
      gone,
      kept,
      count,
    )

-- `kill` of a thread that waits in `recvtime` when the caller comes to the switch at the end,
-- while more than the null thread and it are counted, and with a stack that can be given
-- back, answers OK and frees the entry, but leaves every queue as it is, and so the thread in the
-- sleep queue.
pub kill_tmout-stays :
    (k k1 k2 k3 k5 : Kernel) (x q : ℕ) (xs : List ℕ) (others : ℕ → K (Unit {0})) (v : ℤ) (b : Bool)
    (m : Memory)
    → isbadtid k (pos x) ≡ false
    → (pos x ==ℤ pos 0) ≡ false
    → leb_ℤ (k.thrcount -ℤ pos 1) (pos 1) ≡ false
    → others 0 (fewer k) ≡ ok tt k1
    → send (k1.thrtab x).parent (pos x) k1 ≡ ok v k2
    → others 1 k2 ≡ ok tt k3
    → stkfree (k3.thrtab x).stkbase (k3.thrtab x).stklen k3.mem ≡ some (b, m)
    → others 2 (with_mem k3 m) ≡ ok tt k5
    → (k5.thrtab x).state ≡ ThreadState.tmout
    → IsQueue k5.quetab q xs
    → has x xs ≡ true
    → (k' : Kernel) × (kill others (pos x) k ≡ ok OK k')
      × ((k'.thrtab x).state ≡ ThreadState.free)
      × IsQueue k'.quetab q xs
unfolding leave_by
kill_tmout-stays k k1 k2 k3 k5 x q xs others v b m live ne many first told run given last st holds
      member =
    let x_in = isbadtid-lt k x live in
    let k' = with_thread k5 x (freed k5 x) in
    (
      k',
      kill_run k k1 k2 k3 k' others x v live ne many first told run (
          give_up_run k3 k5 k' others x m b x_in given last (rw (st, put_thrent_in x _ x_in) refl)),
      ground arith,
      holds,
    )
