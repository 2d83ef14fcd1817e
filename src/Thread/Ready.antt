-- ===== src/Thread/Ready.antt =====
-- Putting a thread into the ready list, as `ready`, `resume`, `resched`, `send` and `signal` do.
use xinu.Base.{
  ℕ, ◌<◌, ◌≡◌, refl, ap, subst, sym, ℤ, pos, ◌<ℤ◌, ◌≤ℤ◌, true, false, Bool, List, [], ◌∷◌, ◌++◌,
  arith, All, has, ◌==◌, if◌then◌else◌,
}
use xinu.Kernel.{nthread, OK, ThreadState, Thrent, Kernel, ok, update, isbadtid, minkey}
use xinu.Queue.{insert}
use xinu.Queue.Chain.{Table}
use xinu.Queue.Sorted.{Descending, insert-Descending}
use xinu.Queue.System.{System-update}
use xinu.Thread.{make_ready}
use xinu.Thread.Scheduled.{IsScheduled, put_thrent_in, thrent_in, update_self}

-- A thread outside of all queues.
abbrev pub InNone : (ℕ → Bool) → (ℕ → List ℕ) → ℕ → Type 0
InNone heads Q t = (h : ℕ) → heads h ≡ true → has t (Q h) ≡ false

abbrev pub with_thread : Kernel → ℕ → Thrent → Kernel
with_thread k t e = record k { thrtab = update k.thrtab t e }

abbrev pub with_table : Kernel → Table → Kernel
with_table k T = record k { quetab = T }

All-update_state :
    (f : ℕ → Thrent) (t : ℕ) (e : Thrent) (xs : List ℕ)
    → has t xs ≡ false
    → All (λ x. (f x).state ≡ ThreadState.ready) xs
    → All (λ x. (update f t e x).state ≡ ThreadState.ready) xs
All-update_state f t e [] out a = tt
All-update_state f t e (x ∷ xs) out a = (ground arith, All-update_state f t e xs (ground arith) a.1)

All-update_prio :
    (T : Table) (f : ℕ → Thrent) (t : ℕ) (e : Thrent) (xs : List ℕ)
    → has t xs ≡ false
    → All (λ x. (T x).key ≡ (f x).prio) xs
    → All (λ x. (T x).key ≡ (update f t e x).prio) xs
All-update_prio T f t e [] out a = tt
All-update_prio T f t e (x ∷ xs) out a =
    (ground arith, All-update_prio T f t e xs (ground arith) a.1)

-- A change to a thread outside of the ready list does not disturb the scheduler.
pub IsScheduled-thread :
    (k : Kernel) (heads : ℕ → Bool) (Q : ℕ → List ℕ) (r t : ℕ) (e : Thrent)
    → has t (Q r) ≡ false
    → IsScheduled k heads Q r
    → IsScheduled (with_thread k t e) heads Q r
IsScheduled-thread k heads Q r t e out s = record {
  readylist = s.readylist;
  head = s.head;
  system = s.system;
  sorted = s.sorted;
  ready = All-update_state k.thrtab t e (Q r) out s.ready;
  prios = All-update_prio k.quetab k.thrtab t e (Q r) out s.prios;
}

All-keys :
    (T T' : Table) (f : ℕ → Thrent) (t : ℕ) (key : ℤ) (xs : List ℕ)
    → ((j : ℕ) → (T' j).key ≡ (if j == t then key else (T j).key))
    → has t xs ≡ false
    → All (λ x. (T x).key ≡ (f x).prio) xs
    → All (λ x. (T' x).key ≡ (f x).prio) xs
All-keys T T' f t key [] keys out a = tt
All-keys T T' f t key (x ∷ xs) keys out a =
    (ground (arith, keys x), All-keys T T' f t key xs keys (ground arith) a.1)

All-part {ℓ} :
    (P : ℕ → Type ℓ) (ys zs : List ℕ) (t : ℕ) → All P (ys ++ zs) → P t → All P (ys ++ t ∷ zs)
All-part P [] zs t a p = (p, a)
All-part P (y ∷ ys) zs t a p = (a.0, All-part P ys zs t a.1 p)

has-part : (x t : ℕ) (ys zs : List ℕ) → has x (ys ++ t ∷ zs) ≡ true → has x (t ∷ (ys ++ zs)) ≡ true
has-part x t [] zs h = h
has-part x t (y ∷ ys) zs h = ground (arith, has-part x t ys zs)

live_of_ready :
    (k : Kernel) (t : ℕ)
    → t < nthread
    → (k.thrtab t).state ≡ ThreadState.ready
    → isbadtid k (pos t) ≡ false
unfolding isbadtid
live_of_ready k t lt h = ground arith

module _ (k : Kernel) (heads : ℕ → Bool) (Q : ℕ → List ℕ) (r t : ℕ) where
  -- A ready thread outside of all queues goes into the ready list behind those of its priority.
  pub insert-IsScheduled :
      IsScheduled k heads Q r
      → InNone heads Q t
      → t < nthread
      → (k.thrtab t).state ≡ ThreadState.ready
      → minkey <ℤ (k.thrtab t).prio
      → (T' : Table) × (ys : List ℕ) × (zs : List ℕ) × (insert
            (pos t)
            k.readylist
            (k.thrtab t).prio
            k
          ≡ ok OK (with_table k T'))
        × (Q r ≡ ys ++ zs)
        × IsScheduled (with_table k T') heads (update Q r (ys ++ t ∷ zs)) r
        × All (λ x. (k.thrtab t).prio ≤ℤ (k.quetab x).key) ys
        × All (λ x. (k.quetab x).key <ℤ (k.thrtab t).prio) zs
        × ((j : ℕ) → (T' j).key ≡ (if j == t then (k.thrtab t).prio else (k.quetab j).key))
  insert-IsScheduled s out lt st low =
      let prio = (k.thrtab t).prio in
      let free = out r s.head in
      let (T', ys, zs, run, e, holds, sorted, ge, less, spares) =
        insert-Descending k r t prio (Q r) (s.system.holds r s.head) (live_of_ready k t lt st) free
          low s.sorted in
      (
        T',
        ys,
        zs,
        subst (λ l. insert (pos t) l prio k ≡ ok OK (with_table k T')) (sym s.readylist) run,
        e,
        record {
          readylist = s.readylist;
          head = s.head;
          system =
              System-update k.quetab T' heads Q r t (ys ++ t ∷ zs) s.system s.head lt
                (λ h eh ne. out h eh) holds spares.cells
                (λ x h. subst (λ l. has x (t ∷ l) ≡ true) (sym e) (has-part x t ys zs h));
          sorted = subst (Descending T') (sym (update_self Q r (ys ++ t ∷ zs))) sorted;
          ready = subst (All _) (sym (update_self Q r (ys ++ t ∷ zs))) (
              All-part _ ys zs t
                (subst (All (λ x. (k.thrtab x).state ≡ ThreadState.ready)) e s.ready) st);
          prios = subst (All _) (sym (update_self Q r (ys ++ t ∷ zs))) (
              All-part _ ys zs t
                (subst (All (λ x. (T' x).key ≡ (k.thrtab x).prio)) e
                  (All-keys k.quetab T' k.thrtab t prio (Q r) spares.keys free s.prios))
                (ground (arith, spares.keys t)));
        },
        ge,
        less,
        spares.keys,
      )

-- The kernel with thread `t` made ready.
abbrev pub made_ready : Kernel → ℕ → Kernel
made_ready k t = with_thread k t (record (k.thrtab t) { state = ThreadState.ready })

-- `make_ready` leaves a scheduler in which the thread is ready, in its place in the list.
pub make_ready-IsScheduled :
    (k : Kernel) (heads : ℕ → Bool) (Q : ℕ → List ℕ) (r t : ℕ)
    → IsScheduled k heads Q r
    → InNone heads Q t
    → t < nthread
    → minkey <ℤ (k.thrtab t).prio
    → (T' : Table) × (ys : List ℕ) × (zs : List ℕ) × (make_ready (pos t) k
        ≡ ok tt (with_table (made_ready k t) T'))
      × (Q r ≡ ys ++ zs)
      × IsScheduled (with_table (made_ready k t) T') heads (update Q r (ys ++ t ∷ zs)) r
      × All (λ x. (k.thrtab t).prio ≤ℤ (k.quetab x).key) ys
      × All (λ x. (k.quetab x).key <ℤ (k.thrtab t).prio) zs
      × ((j : ℕ) → (T' j).key ≡ (if j == t then (k.thrtab t).prio else (k.quetab j).key))
unfolding make_ready
make_ready-IsScheduled k heads Q r t s out lt low =
    let k1 = made_ready k t in
    let same : (k1.thrtab t) ≡ record (k.thrtab t) { state = ThreadState.ready } = ground arith in
    let (T', ys, zs, run, e, sched, ge, less, keys) =
      insert-IsScheduled k1 heads Q r t (IsScheduled-thread k heads Q r t _ (out r s.head) s) out lt
        (ap (λ e. e.state) same) (subst (λ e. minkey <ℤ e.prio) (sym same) low) in
    (
      T',
      ys,
      zs,
      rw (put_thrent_in t _ lt, thrent_in t lt, run) refl,
      e,
      sched,
      subst (λ p. All (λ x. p ≤ℤ (k.quetab x).key) ys) (ap (λ e. e.prio) same) ge,
      subst (λ p. All (λ x. (k.quetab x).key <ℤ p) zs) (ap (λ e. e.prio) same) less,
      λ j. ground (arith, keys j, same),
    )
