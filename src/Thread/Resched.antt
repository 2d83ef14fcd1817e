-- ===== src/Thread/Resched.antt =====
-- `resched` of system/resched.c: the current thread has the highest priority of all that can run.
use xinu.Base.{
  ℕ, ◌<◌, ◌≡◌, refl, subst, sym, ℤ, pos, ◌≤ℤ◌, ltb_ℤ, true, false, Bool, List, [], ◌∷◌, ◌++◌, arith,
  All, All-map,
}
use xinu.Kernel.{nthread, OK, ThreadState, Thrent, Kernel, ok, update, thrent}
use xinu.Queue.{nonempty, firstkey}
use xinu.Queue.Chain.{Table}
use xinu.Queue.Contents.{IsQueue}
use xinu.Queue.Ends.{nonempty_iff, firstkey-head}
use xinu.Queue.Sorted.{Descending}
use xinu.Thread.{switch, resched, keeps, is_curr, gettid}
use xinu.Thread.Ready.{InNone}
use xinu.Thread.Scheduled.{IsScheduled, switched, switch-head, update_self, All-le-head}

module _ (k : Kernel) (heads : ℕ → Bool) (Q : ℕ → List ℕ) (r c : ℕ) where
  -- The current thread keeps the processor against a ready list only if its priority is larger
  -- than the first key.
  pub keeps_run :
      IsScheduled k heads Q r
      → (prio : ℤ)
      → keeps prio k ≡ ok (elim (Q r) [ [] ↦ false | x ∷ xs ↦ ltb_ℤ (k.quetab x).key prio ]) k
  unfolding keeps
  keeps_run s prio = go (Q r) refl
    where
      go :
          (l : List ℕ)
          → Q r ≡ l
          → keeps prio k ≡ ok (elim l [ [] ↦ false | x ∷ xs ↦ ltb_ℤ (k.quetab x).key prio ]) k
      go [] e =
          let v : IsQueue k.quetab r [] = subst (IsQueue k.quetab r) e (s.system.holds r s.head) in
          let f : nonempty k.readylist k ≡ ok false k =
            subst (λ q. nonempty q k ≡ ok false k) (sym s.readylist) (nonempty_iff k r [] v) in
          rw f
      go (x ∷ xs) e =
          let v : IsQueue k.quetab r (x ∷ xs) =
            subst (IsQueue k.quetab r) e (s.system.holds r s.head) in
          let f : nonempty k.readylist k ≡ ok true k =
            subst (λ q. nonempty q k ≡ ok true k) (sym s.readylist) (nonempty_iff k r (x ∷ xs) v) in
          let g : firstkey k.readylist k ≡ ok (k.quetab x).key k =
            subst (λ q. firstkey q k ≡ ok (k.quetab x).key k) (sym s.readylist)
              (firstkey-head k r x xs v) in
          rw (f, g)

-- What `resched` is called on: a current thread `c`, and no deferral.
pub record IsRunning (k : Kernel) (c : ℕ) : Type 0 where
  pub current : k.thrcurrent ≡ pos c
  pub c_in : c < nthread
  pub now : k.resdefer ≡ 0

module _ (k : Kernel) (c : ℕ) (run : IsRunning k c) where
  pub resched_leave : is_curr (k.thrtab c).state ≡ false → resched k ≡ switch k
  unfolding resched thrent gettid
  resched_leave away = ground (arith, run.now, run.current, run.c_in)

  pub resched_stay :
      is_curr (k.thrtab c).state ≡ true
      → keeps (k.thrtab c).prio k ≡ ok true k
      → resched k ≡ ok OK k
  unfolding resched thrent gettid
  resched_stay here stay = ground (arith, run.now, run.current, run.c_in)

-- The head of the ready list after a thread was put into it is that thread or the old head.
front_of_insert : (ys zs : List ℕ) (t : ℕ) → (x : ℕ) × (xs : List ℕ) × (ys ++ t ∷ zs ≡ x ∷ xs)
front_of_insert [] zs t = (t, zs, refl)
front_of_insert (y ∷ ys) zs t = (y, ys ++ t ∷ zs, refl)

prio_switched :
    (f : ℕ → Thrent) (x j : ℕ)
    → (update f x (record (f x) { state = ThreadState.curr }) j).prio ≡ (f j).prio
prio_switched f x j = ground arith

-- In a list in descending order the head has the largest priority.
pub All-le-prio :
    (T : Table) (f : ℕ → Thrent) (x : ℕ) (xs : List ℕ)
    → Descending T (x ∷ xs)
    → All (λ y. (T y).key ≡ (f y).prio) (x ∷ xs)
    → All (λ y. (f y).prio ≤ℤ (f x).prio) xs
All-le-prio T f x xs d same = go xs (All-le-head T x xs d) same.1
  where
    go :
        (ys : List ℕ)
        → All (λ y. (T y).key ≤ℤ (T x).key) ys
        → All (λ y. (T y).key ≡ (f y).prio) ys
        → All (λ y. (f y).prio ≤ℤ (f x).prio) ys
    go [] a b = tt
    go (y ∷ ys) a b =
        (subst (λ p. p ≤ℤ (f x).prio) b.0 (subst (λ p. (T y).key ≤ℤ p) same.0 a.0), go ys a.1 b.1)

-- Thread `c` has the processor, is in no queue, and nobody in the ready list comes before it.
pub record IsTop (k : Kernel) (heads : ℕ → Bool) (Q : ℕ → List ℕ) (r c : ℕ) : Type 0 where
  pub sched : IsScheduled k heads Q r
  pub current : k.thrcurrent ≡ pos c
  pub curr : (k.thrtab c).state ≡ ThreadState.curr
  pub c_in : c < nthread
  pub apart : InNone heads Q c
  pub top : All (λ y. (k.thrtab y).prio ≤ℤ (k.thrtab c).prio) (Q r)

module _ (k : Kernel) (heads : ℕ → Bool) (Q : ℕ → List ℕ) (r x : ℕ) (xs : List ℕ) where
  pub switch-IsTop :
      IsScheduled k heads Q r
      → Q r ≡ x ∷ xs
      → (T' : Table) × (switch k ≡ ok OK (switched k x T'))
        × IsTop (switched k x T') heads (update Q r xs) r x
  switch-IsTop s e =
      let (T', run, sched, keys, apart, x_in) = switch-head k heads Q r x xs s e in
      let before =
        All-le-prio k.quetab k.thrtab x xs (subst (Descending k.quetab) e s.sorted)
          (subst (All (λ y. (k.quetab y).key ≡ (k.thrtab y).prio)) e s.prios) in
      (
        T',
        run,
        record {
          sched = sched;
          current = refl;
          curr = ground arith;
          c_in = x_in;
          apart = apart;
          top =
              subst (All _) (sym (update_self Q r xs))
                (All-map (λ y h. ground (arith, prio_switched k.thrtab x, h)) xs before);
        },
      )
