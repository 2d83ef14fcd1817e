-- ===== src/Thread/Scheduled.antt =====
-- What holds of the scheduler between two operations, and the switch to the first ready thread.
use xinu.Base.{
  ℕ, ◌<◌, ◌≡◌, ◌≢◌, subst, sym, pos, ◌≤ℤ◌, true, false, Bool, List, [], ◌∷◌, arith, All, All-map,
  has, ◌==◌, Bool-cases, inl, inr, lt→ltb,
}
use xinu.Kernel.{
  nthread, OK, ThreadState, Thrent, Kernel, ok, update, put_thrent, thrent, modify, gets,
}
use xinu.Queue.{dequeue}
use xinu.Queue.Chain.{Table}
use xinu.Queue.Contents.{IsQueue, nodes}
use xinu.Queue.Ends.{dequeue-head}
use xinu.Queue.Sorted.{Descending}
use xinu.Queue.System.{System, System-update}
use xinu.Thread.{switch}

-- The queues are in order, the ready list by descending key; whoever is in it is ready and has
-- its priority for a key.
pub record IsScheduled (k : Kernel) (heads : ℕ → Bool) (Q : ℕ → List ℕ) (r : ℕ) : Type 0 where
  pub readylist : k.readylist ≡ pos r
  pub head : heads r ≡ true
  pub system : System k.quetab heads Q
  pub sorted : Descending k.quetab (Q r)
  pub ready : All (λ x. (k.thrtab x).state ≡ ThreadState.ready) (Q r)
  pub prios : All (λ x. (k.quetab x).key ≡ (k.thrtab x).prio) (Q r)

pub Descending-keys :
    (T T' : Table) (xs : List ℕ)
    → ((j : ℕ) → (T' j).key ≡ (T j).key)
    → Descending T xs
    → Descending T' xs
Descending-keys T T' [] same d = tt
Descending-keys T T' (x ∷ []) same d = (tt, tt)
Descending-keys T T' (x ∷ y ∷ xs) same d =
    (ground (arith, same x, same y), Descending-keys T T' (y ∷ xs) same d.1)

pub put_thrent_in :
    (i : ℕ) (f : Thrent → Thrent)
    → i < nthread
    → put_thrent (pos i) f ≡ modify (λ k. record k { thrtab = update k.thrtab i (f (k.thrtab i)) })
unfolding put_thrent
put_thrent_in i f h = rw (lt→ltb i nthread h)

pub thrent_in : (i : ℕ) → i < nthread → thrent (pos i) ≡ gets (λ k. k.thrtab i)
unfolding thrent
thrent_in i h = rw (lt→ltb i nthread h)

-- Nobody in the ready list has a larger key than its first thread.
pub All-le-head :
    (T : Table) (x : ℕ) (xs : List ℕ) → Descending T (x ∷ xs) → All (λ y. (T y).key ≤ℤ (T x).key) xs
All-le-head T x [] d = tt
All-le-head T x (y ∷ xs) d = (d.0, All-map (λ z h. omega arith) xs (All-le-head T y xs d.1))

-- The kernel after a switch to thread `x`.
abbrev pub switched : Kernel → ℕ → Table → Kernel
switched k x T' = record k {
  quetab = T';
  thrcurrent = pos x;
  thrtab = update k.thrtab x (record (k.thrtab x) { state = ThreadState.curr });
}

tail_false : (j x : ℕ) (l : List ℕ) → has j (x ∷ l) ≡ false → has j l ≡ false
tail_false j x l h = ground arith

pub update_self : (Q : ℕ → List ℕ) (r : ℕ) (xs : List ℕ) → update Q r xs r ≡ xs
update_self Q r xs = ground arith

-- A thread in one queue is in no other.
pub in_no_other :
    (T : Table) (heads : ℕ → Bool) (Q : ℕ → List ℕ) (r x : ℕ)
    → System T heads Q
    → heads r ≡ true
    → has x (Q r) ≡ true
    → (h : ℕ) → heads h ≡ true
    → h ≢ r
    → has x (Q h) ≡ false
in_no_other T heads Q r x s er member h eh ne = elim (Bool-cases (has x (Q h))) [
  | inl both ↦ absurd (ne (s.once x h r eh er both member))
  | inr apart ↦ apart
]

ready-update :
    (T : ℕ → Thrent) (x : ℕ) (t : Thrent) (xs : List ℕ)
    → has x xs ≡ false
    → All (λ y. (T y).state ≡ ThreadState.ready) xs
    → All (λ y. (update T x t y).state ≡ ThreadState.ready) xs
ready-update T x t [] out a = tt
ready-update T x t (y ∷ ys) out a = (ground arith, ready-update T x t ys (ground arith) a.1)

module _ (k : Kernel) (heads : ℕ → Bool) (Q : ℕ → List ℕ) (r x : ℕ) (xs : List ℕ) where
  -- The first ready thread becomes the current one, and the others stay ready in their order.
  pub switch-head :
      IsScheduled k heads Q r
      → Q r ≡ x ∷ xs
      → (T' : Table) × (switch k ≡ ok OK (switched k x T'))
        × IsScheduled (switched k x T') heads (update Q r xs) r
        × ((j : ℕ) → (T' j).key ≡ (k.quetab j).key)
        × ((h : ℕ) → heads h ≡ true → has x (update Q r xs h) ≡ false)
        × (x < nthread)
  unfolding switch
  switch-head s e =
      let v : IsQueue k.quetab r (x ∷ xs) =
        subst (IsQueue k.quetab r) e (s.system.holds r s.head) in
      let (T', run, holds, spares, _, _) = dequeue-head k r x xs v in
      let run' : dequeue k.readylist k ≡ ok (pos x) (record k { quetab = T' }) =
        subst (λ l. dequeue l k ≡ ok (pos x) (record k { quetab = T' })) (sym s.readylist) run in
      let member : has x (Q r) ≡ true = subst (λ l. has x l ≡ true) (sym e) (ground arith) in
      let free = in_no_other k.quetab heads Q r x s.system s.head member in
      (
        T',
        rw (run', put_thrent_in x _ v.members.0),
        record {
          readylist = s.readylist;
          head = s.head;
          system =
              System-update k.quetab T' heads Q r x xs s.system s.head v.members.0 free holds
                (λ j h. spares.cells j (
                  tail_false j x (nodes r (x ∷ xs))
                    (subst (λ l. has j (x ∷ nodes r l) ≡ false) e h)))
                (λ y h. rw e (ground arith));
          sorted = subst (Descending T') (sym (update_self Q r xs)) (
              Descending-keys k.quetab T' xs spares.keys
                (subst (Descending k.quetab) e s.sorted).1);
          ready = subst (All _) (sym (update_self Q r xs)) (
              ready-update k.thrtab x _ xs v.uniq.0
                (subst (All (λ y. (k.thrtab y).state ≡ ThreadState.ready)) e s.ready).1);
          prios = subst (All _) (sym (update_self Q r xs)) (
              All-map (λ y h. ground (arith, spares.keys y, h)) xs
                (subst (All (λ y. (k.quetab y).key ≡ (k.thrtab y).prio)) e s.prios).1);
        },
        spares.keys,
        λ h eh. elim (Bool-cases (h == r)) [
          | inl same ↦ rw same v.uniq.0
          | inr other ↦ rw other (free h eh (ground arith))
        ],
        v.members.0,
      )
