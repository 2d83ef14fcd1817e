-- ===== src/Semaphore/Free.antt =====
-- `semfree` of system/semfree.c: everybody who waits is released.
use xinu.Base.{
  ℕ, zero, suc, ◌+◌, ◌<◌, ◌≡◌, ◌≢◌, refl, ap, ◌∙◌, subst, sym, pos, ◌<ℤ◌, true, false, Bool, List,
  [], ◌∷◌, ◌++◌, arith, All, has, has-append, ◌||◌, length, length-le_of_Uniq,
}
use xinu.Kernel.{nthread, nsem, Sement, OK, ThreadState, Kernel, ok, update, minkey}
use xinu.Queue.{nonempty}
use xinu.Queue.Contents.{IsQueue}
use xinu.Queue.Ends.{nonempty_iff}
use xinu.Semaphore.{semfree_loop, semfree}
use xinu.Semaphore.Waiters.{
  IsSemaphore, All-same, sement_in, put_sement_in, isbadsem_in, with_sem, IsScheduled-sem,
  release_one-head,
}
use xinu.Thread.Ready.{made_ready, with_table}
use xinu.Thread.Scheduled.{IsScheduled, update_self}

-- The waiting threads have moved to the ready list, and nothing but their states and the queue
-- table has changed.
pub record Emptied (k : Kernel) (heads : ℕ → Bool) (Q : ℕ → List ℕ) (r q : ℕ) (k' : Kernel)
    (Q' : ℕ → List ℕ) : Type 0 where
  pub sched : IsScheduled k' heads Q' r
  pub empty : Q' q ≡ []
  pub moved : (y : ℕ) → has y (Q' r) ≡ (has y (Q q) || has y (Q r))
  pub others : (h : ℕ) → h ≢ r → h ≢ q → Q' h ≡ Q h
  pub frame : k' ≡ record k { quetab = k'.quetab; thrtab = k'.thrtab }

moved_step :
    (y x : ℕ) (xs ys zs : List ℕ)
    → (has y xs || has y (ys ++ x ∷ zs)) ≡ (has y (x ∷ xs) || has y (ys ++ zs))
moved_step y x xs ys zs = ground (arith, has-append y ys zs, has-append y ys (x ∷ zs))

module _ (heads : ℕ → Bool) (r q : ℕ) where
  semfree_loop-Emptied :
      (fuel : ℕ) (xs : List ℕ) (k : Kernel) (Q : ℕ → List ℕ)
      → IsScheduled k heads Q r
      → heads q ≡ true
      → q ≢ r
      → Q q ≡ xs
      → length xs < fuel
      → All (λ x. (k.thrtab x).state ≡ ThreadState.wait) xs
      → All (λ x. minkey <ℤ (k.thrtab x).prio) xs
      → (k' : Kernel) × (Q' : ℕ → List ℕ) × (semfree_loop fuel (pos q) k ≡ ok tt k')
        × Emptied k heads Q r q k' Q'
  unfolding semfree_loop
  semfree_loop-Emptied zero xs k Q s eq ne e lt waits low = absurd (omega arith)
  semfree_loop-Emptied (suc fuel) [] k Q s eq ne e lt waits low =
      let none_left : nonempty (pos q) k ≡ ok false k =
        nonempty_iff k q [] (subst (IsQueue k.quetab q) e (s.system.holds q eq)) in
      (
        k,
        Q,
        rw none_left refl,
        record {
          sched = s;
          empty = e;
          moved = λ y. ap (λ l. has y l || has y (Q r)) (sym e);
          others = λ h a b. refl;
          frame = refl;
        },
      )
  semfree_loop-Emptied (suc fuel) (x ∷ xs) k Q s eq ne e lt waits low =
      let more : nonempty (pos q) k ≡ ok true k =
        nonempty_iff k q (x ∷ xs) (subst (IsQueue k.quetab q) e (s.system.holds q eq)) in
      let (T', ys, zs, run, e2, sched, free, x_in) =
        release_one-head k heads Q r q x xs s eq ne e waits.0 low.0 in
      let k1 = with_table (made_ready k x) T' in
      let Q1 = update (update Q q xs) r (ys ++ x ∷ zs) in
      let once : has x xs ≡ false = subst (λ l. has x l ≡ false) (update_self Q q xs) (free q eq) in
      let kept : (j : ℕ) → has j xs ≡ true → k1.thrtab j ≡ k.thrtab j = λ j h. ground arith in
      let here : Q1 q ≡ xs = ground (arith, ne) in
      let there : Q1 r ≡ ys ++ x ∷ zs = update_self (update Q q xs) r (ys ++ x ∷ zs) in
      let (k2, Q2, rest, done) =
        semfree_loop-Emptied fuel xs k1 Q1 sched eq ne here (omega arith)
          (All-same (λ t. t.state ≡ ThreadState.wait) k.thrtab k1.thrtab xs kept waits.1)
          (All-same (λ t. minkey <ℤ t.prio) k.thrtab k1.thrtab xs kept low.1) in
      (
        k2,
        Q2,
        rw (more, run) rest,
        record {
          sched = done.sched;
          empty = done.empty;
          moved = λ y.
              done.moved y
              ∙ ap (λ l. has y l || has y (Q1 r)) here
              ∙ ap (λ l. has y xs || has y l) there
              ∙ moved_step y x xs ys zs
              ∙ ap (λ l. has y l || has y (ys ++ zs)) (sym e)
              ∙ ap (λ l. has y (Q q) || has y l) (sym e2);
          others = λ h a b. done.others h a b ∙ ground arith;
          frame = done.frame;
        },
      )

-- The kernel with semaphore `s` empty and free.
abbrev pub closed : Kernel → ℕ → Kernel
closed k s =
    let k1 = with_sem k s (record (k.semtab s) { count = pos 0 }) in
    with_sem k1 s (record (k1.semtab s) { used = false })

semfree_run :
    (k k' : Kernel) (s : ℕ)
    → s < nsem
    → (k.semtab s).used ≡ true
    → semfree_loop (nthread + 1) (k.semtab s).queue k ≡ ok tt k'
    → semfree s k ≡ ok OK (closed k' s)
unfolding semfree
semfree_run k k' s s_in used run =
    rw
      (
        isbadsem_in k s s_in used,
        sement_in s s_in,
        run,
        put_sement_in s _ s_in,
        put_sement_in s _ s_in,
      )
      refl

-- What `semfree` leaves.
pub record Freed (k : Kernel) (heads : ℕ → Bool) (Q : ℕ → List ℕ) (r s q : ℕ) (k' : Kernel)
    (Q' : ℕ → List ℕ) : Type 0 where
  pub ran : semfree s k ≡ ok OK k'
  pub sched : IsScheduled k' heads Q' r
  pub empty : Q' q ≡ []
  pub moved : (y : ℕ) → has y (Q' r) ≡ (has y (Q q) || has y (Q r))
  pub others : (h : ℕ) → h ≢ r → h ≢ q → Q' h ≡ Q h
  pub unused : (k'.semtab s).used ≡ false
  pub semaphores : (j : ℕ) → j ≢ s → k'.semtab j ≡ k.semtab j

-- `semfree` of a semaphore in use moves everybody who waits on it to the ready list, which stays in
-- order, and gives the entry back. No other queue and no other semaphore changes.
pub semfree-Freed :
    (k : Kernel) (heads : ℕ → Bool) (Q : ℕ → List ℕ) (r s q : ℕ)
    → IsScheduled k heads Q r
    → IsSemaphore k heads Q r s q
    → (k' : Kernel) × (Q' : ℕ → List ℕ) × Freed k heads Q r s q k' Q'
semfree-Freed k heads Q r s q sched i =
    let v = sched.system.holds q i.head in
    let (k2, Q2, run, done) =
      semfree_loop-Emptied heads r q (nthread + 1) (Q q) k Q sched i.head i.other refl
        (omega (arith, length-le_of_Uniq nthread (Q q) v.uniq v.members)) i.waiting i.prios in
    let run' : semfree_loop (nthread + 1) (k.semtab s).queue k ≡ ok tt k2 =
      subst (λ l. semfree_loop (nthread + 1) l k ≡ ok tt k2) (sym i.queue) run in
    let sems : k2.semtab ≡ k.semtab = ap (λ m. m.semtab) done.frame in
    (
      closed k2 s,
      Q2,
      record {
        ran = semfree_run k k2 s i.s_in i.used run';
        sched = IsScheduled-sem _ heads Q2 r s _ (IsScheduled-sem k2 heads Q2 r s _ done.sched);
        empty = done.empty;
        moved = done.moved;
        others = done.others;
        unused = ground arith;
        semaphores = λ j ne. unchanged k2.semtab s j ne ∙ ap (λ f. f j) sems;
      },
    )
  where
    unchanged :
        (f : ℕ → Sement) (s j : ℕ)
        → j ≢ s
        → update
            (update f s (record (f s) { count = pos 0 }))
            s
            (record (update f s (record (f s) { count = pos 0 }) s) { used = false })
            j
          ≡ f j
    unchanged f s j ne = ground arith
