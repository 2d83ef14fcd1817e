-- ===== src/Thread/Waiting.antt =====
-- Moving a thread into or out of a queue of waiting threads, beside the ready list.
use xinu.Base.{
  ℕ, ◌<◌, ◌≡◌, ◌≢◌, subst, sym, pos, true, false, Bool, List, [], ◌∷◌, ◌++◌, arith, All, All-map,
  has, has-append, ◌==◌, Bool-cases, inl, inr,
}
use xinu.Kernel.{nthread, Kernel, ok, update, isbadtid}
use xinu.Queue.{dequeue, enqueue}
use xinu.Queue.Chain.{Table}
use xinu.Queue.Contents.{IsQueue, nodes}
use xinu.Queue.Ends.{dequeue-head}
use xinu.Queue.Fifo.{enqueue-append}
use xinu.Queue.Links.{isbadtid-lt}
use xinu.Queue.Sorted.{Descending}
use xinu.Queue.System.{System, System-update}
use xinu.Thread.Ready.{InNone, with_table}
use xinu.Thread.Scheduled.{IsScheduled, in_no_other, Descending-keys}

module _ (k : Kernel) (heads : ℕ → Bool) (Q : ℕ → List ℕ) (r q : ℕ) where
  -- A change of another queue that keeps all keys does not disturb the ready list.
  pub IsScheduled-other :
      (T' : Table) (xs : List ℕ)
      → IsScheduled k heads Q r
      → q ≢ r
      → ((j : ℕ) → (T' j).key ≡ (k.quetab j).key)
      → System T' heads (update Q q xs)
      → IsScheduled (with_table k T') heads (update Q q xs) r
  IsScheduled-other T' xs s ne keys system =
      let same : update Q q xs r ≡ Q r = ground arith in
      record {
        readylist = s.readylist;
        head = s.head;
        system = system;
        sorted = subst (Descending T') (sym same) (Descending-keys k.quetab T' (Q r) keys s.sorted);
        ready = subst (All _) (sym same) s.ready;
        prios = subst (All _) (sym same) (All-map (λ y h. ground (arith, keys y, h)) (Q r) s.prios);
      }

  pub dequeue-IsScheduled :
      (x : ℕ) (xs : List ℕ)
      → IsScheduled k heads Q r
      → heads q ≡ true
      → q ≢ r
      → Q q ≡ x ∷ xs
      → (T' : Table) × (dequeue (pos q) k ≡ ok (pos x) (with_table k T'))
        × IsScheduled (with_table k T') heads (update Q q xs) r
        × InNone heads (update Q q xs) x
        × (x < nthread)
  dequeue-IsScheduled x xs s eq ne e =
      let v : IsQueue k.quetab q (x ∷ xs) = subst (IsQueue k.quetab q) e (s.system.holds q eq) in
      let (T', run, holds, spares, _, _) = dequeue-head k q x xs v in
      let member : has x (Q q) ≡ true = subst (λ l. has x l ≡ true) (sym e) (ground arith) in
      let free = in_no_other k.quetab heads Q q x s.system eq member in
      (
        T',
        run,
        IsScheduled-other T' xs s ne spares.keys (
            System-update k.quetab T' heads Q q x xs s.system eq v.members.0 free holds
              (λ j h. spares.cells j (cells x xs j e h)) (λ y h. rw e (ground arith))),
        λ h eh. elim (Bool-cases (h == q)) [
          | inl same ↦ rw same v.uniq.0
          | inr other ↦ rw other (free h eh (ground arith))
        ],
        v.members.0,
      )
    where
      cells :
          (x : ℕ) (xs : List ℕ) (j : ℕ)
          → Q q ≡ x ∷ xs
          → has j (x ∷ nodes q (Q q)) ≡ false
          → has j (nodes q (x ∷ xs)) ≡ false
      cells x xs j e h = let h' = subst (λ l. has j (x ∷ nodes q l) ≡ false) e h in ground arith

  pub enqueue-IsScheduled :
      (t : ℕ)
      → IsScheduled k heads Q r
      → heads q ≡ true
      → q ≢ r
      → InNone heads Q t
      → isbadtid k (pos t) ≡ false
      → (T' : Table) × (enqueue (pos t) (pos q) k ≡ ok (pos t) (with_table k T'))
        × IsScheduled (with_table k T') heads (update Q q (Q q ++ t ∷ [])) r
  enqueue-IsScheduled t s eq ne out live =
      let (T', run, holds, spares) =
        enqueue-append k q t (Q q) (s.system.holds q eq) live (out q eq) in
      (
        T',
        run,
        IsScheduled-other T' (Q q ++ t ∷ []) s ne spares.keys (
            System-update k.quetab T' heads Q q t (Q q ++ t ∷ []) s.system eq (isbadtid-lt k t live)
              (λ h eh ne'. out h eh) holds spares.cells
              (λ x h. ground (arith, has-append x (Q q) (t ∷ [])))),
      )
