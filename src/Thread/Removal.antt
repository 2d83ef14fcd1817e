-- ===== src/Thread/Removal.antt =====
-- Taking a thread out of the middle of a queue with `getitem`, as `kill` and `suspend` do.
use xinu.Base.{
  ℕ, ◌<◌, ◌≡◌, ◌≢◌, subst, sym, ap, pos, true, false, Bool, List, [], ◌∷◌, ◌++◌, arith, All,
  All-map, Uniq, has, has-append, ◌==◌, Bool-cases, inl, inr, ◌≤ℤ◌,
}
use xinu.Kernel.{nthread, Kernel, ok, update}
use xinu.Queue.{getitem}
use xinu.Queue.Chain.{Table}
use xinu.Queue.Contents.{IsQueue, nodes}
use xinu.Queue.Fifo.{getitem-remove}
use xinu.Queue.Sorted.{Descending}
use xinu.Queue.System.{System, System-update}
use xinu.Thread.Ready.{InNone, with_table}
use xinu.Thread.Scheduled.{IsScheduled, in_no_other, Descending-keys, All-le-head, update_self}
use xinu.Thread.Waiting.{IsScheduled-other}

pub All-without {ℓ} :
    (P : ℕ → Type ℓ) (ys zs : List ℕ) (x : ℕ) → All P (ys ++ x ∷ zs) → All P (ys ++ zs)
All-without P [] zs x a = a.1
All-without P (y ∷ ys) zs x a = (a.0, All-without P ys zs x a.1)

pub All-middle {ℓ} : (P : ℕ → Type ℓ) (ys zs : List ℕ) (x : ℕ) → All P (ys ++ x ∷ zs) → P x
All-middle P [] zs x a = a.0
All-middle P (y ∷ ys) zs x a = All-middle P ys zs x a.1

Descending-cons :
    (T : Table) (y : ℕ) (zs : List ℕ)
    → All (λ z. (T z).key ≤ℤ (T y).key) zs
    → Descending T zs
    → Descending T (y ∷ zs)
Descending-cons T y [] a d = (tt, tt)
Descending-cons T y (z ∷ zs) a d = (a.0, d)

Descending-without :
    (T : Table) (ys zs : List ℕ) (x : ℕ) → Descending T (ys ++ x ∷ zs) → Descending T (ys ++ zs)
Descending-without T [] zs x d = d.1
Descending-without T (y ∷ ys) zs x d =
    Descending-cons T y (ys ++ zs)
      (All-without (λ z. (T z).key ≤ℤ (T y).key) ys zs x (All-le-head T y (ys ++ x ∷ zs) d))
      (Descending-without T ys zs x (tail_of y (ys ++ x ∷ zs) d))
  where
    tail_of : (y : ℕ) (l : List ℕ) → Descending T (y ∷ l) → Descending T l
    tail_of y [] d = tt
    tail_of y (z ∷ l) d = d.1

has-without : (x y : ℕ) (ys zs : List ℕ) → has y (ys ++ zs) ≡ true → has y (ys ++ x ∷ zs) ≡ true
has-without x y ys zs h = ground (arith, has-append y ys zs, has-append y ys (x ∷ zs))

Uniq-without : (x : ℕ) (ys zs : List ℕ) → Uniq (ys ++ x ∷ zs) → has x (ys ++ zs) ≡ false
Uniq-without x [] zs u = u.0
Uniq-without x (y ∷ ys) zs u = ground (arith, has-append y ys (x ∷ zs), Uniq-without x ys zs u.1)

module _ (k : Kernel) (heads : ℕ → Bool) (Q : ℕ → List ℕ) (r q x : ℕ) (ys zs : List ℕ)
    (s : IsScheduled k heads Q r) (eq : heads q ≡ true) (e : Q q ≡ ys ++ x ∷ zs) where
  member : has x (Q q) ≡ true
  member = subst (λ l. has x l ≡ true) (sym e) (ground (arith, has-append x ys (x ∷ zs)))

  -- The thread is in no queue any more, and the others are as they were.
  pub getitem-System :
      (T' : Table) × (getitem (pos x) k ≡ ok (pos x) (with_table k T'))
      × System T' heads (update Q q (ys ++ zs))
      × ((j : ℕ) → (T' j).key ≡ (k.quetab j).key)
      × InNone heads (update Q q (ys ++ zs)) x
      × (x < nthread)
  getitem-System =
      let v : IsQueue k.quetab q (ys ++ x ∷ zs) =
        subst (IsQueue k.quetab q) e (s.system.holds q eq) in
      let (T', run, holds, spares, _, _) = getitem-remove k q x ys zs v in
      let free = in_no_other k.quetab heads Q q x s.system eq member in
      let x_in = All-middle (λ y. y < nthread) ys zs x v.members in
      (
        T',
        run,
        System-update k.quetab T' heads Q q x (ys ++ zs) s.system eq x_in free holds
            (λ j h. spares.cells j (ground (arith, subst (λ l. has j (x ∷ nodes q l) ≡ false) e h)))
            (λ y h. ground (arith, ap (has y) e, has-without x y ys zs h)),
        spares.keys,
        λ h eh. elim (Bool-cases (h == q)) [
          | inl same ↦ rw same (Uniq-without x ys zs v.uniq)
          | inr other ↦ rw other (free h eh (ground arith))
        ],
        x_in,
      )

  pub getitem-IsScheduled_waiting :
      q ≢ r
      → (T' : Table) × (getitem (pos x) k ≡ ok (pos x) (with_table k T'))
        × IsScheduled (with_table k T') heads (update Q q (ys ++ zs)) r
        × InNone heads (update Q q (ys ++ zs)) x
        × (x < nthread)
  getitem-IsScheduled_waiting ne =
      let (T', run, system, keys, free, x_in) = getitem-System in
      (T', run, IsScheduled-other k heads Q r q T' (ys ++ zs) s ne keys system, free, x_in)

pub getitem-IsScheduled_ready :
    (k : Kernel) (heads : ℕ → Bool) (Q : ℕ → List ℕ) (r x : ℕ) (ys zs : List ℕ)
    → IsScheduled k heads Q r
    → Q r ≡ ys ++ x ∷ zs
    → (T' : Table) × (getitem (pos x) k ≡ ok (pos x) (with_table k T'))
      × IsScheduled (with_table k T') heads (update Q r (ys ++ zs)) r
      × InNone heads (update Q r (ys ++ zs)) x
      × (x < nthread)
getitem-IsScheduled_ready k heads Q r x ys zs s e =
    let (T', run, system, keys, free, x_in) = getitem-System k heads Q r r x ys zs s s.head e in
    let list = update_self Q r (ys ++ zs) in
    (
      T',
      run,
      record {
        readylist = s.readylist;
        head = s.head;
        system = system;
        sorted = subst (Descending T') (sym list) (
            Descending-keys k.quetab T' (ys ++ zs) keys
              (Descending-without k.quetab ys zs x (subst (Descending k.quetab) e s.sorted)));
        ready = subst (All _) (sym list) (All-without _ ys zs x (subst (All _) e s.ready));
        prios = subst (All _) (sym list) (
            All-map (λ y h. ground (arith, keys y, h)) (ys ++ zs)
              (All-without _ ys zs x (subst (All _) e s.prios)));
      },
      free,
      x_in,
    )
