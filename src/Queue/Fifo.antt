-- ===== src/Queue/Fifo.antt =====
-- `enqueue` and the removals of system/queue.c and system/getitem.c against the list of the
-- threads in the queue.
use mathlib.Core.List.{append-nil}
use xinu.Base.{
  ℕ, ◌+◌, ◌<◌, ◌≡◌, ◌∙◌, pos, true, false, List, [], ◌∷◌, ◌++◌, arith, has, last_of, first_of,
  subst, sym,
}
use xinu.Kernel.{nthread, empty, Kernel, ok, isbadtid}
use xinu.Queue.{enqueue, getitem}
use xinu.Queue.Chain.{Table}
use xinu.Queue.Contents.{
  IsQueue, splice-IsQueue, unlink-IsQueue, nodes, place, place_behind, nodes-not-has, ne_of_node,
}
use xinu.Queue.Links.{
  splice_table, unlink_table, enqueue_run, getitem_run, splice_table-IsSplice,
  unlink_table-IsUnlink, Spares, isbadtid-lt, splice_table-Spares, unlink_table-Spares,
}

module _ (k : Kernel) (q t : ℕ) where
  -- `enqueue` puts a live thread that is not in the queue behind the others, keeps every key, and
  -- writes to no cell but the thread's and the queue's.
  pub enqueue-append :
      (xs : List ℕ)
      → IsQueue k.quetab q xs
      → isbadtid k (pos t) ≡ false
      → has t xs ≡ false
      → (T' : Table) × (enqueue (pos t) (pos q) k ≡ ok (pos t) (record k { quetab = T' }))
        × IsQueue T' q (xs ++ t ∷ [])
        × Spares k.quetab T' (t ∷ nodes q xs)
  enqueue-append xs v live out =
      let p = last_of q xs in
      let lt : t < nthread = isbadtid-lt k t live in
      let vx : IsQueue k.quetab q (xs ++ []) = subst (IsQueue k.quetab q) (sym (append-nil xs)) v in
      let at = place xs [] vx in
      let p_node : has p (nodes q xs) ≡ true =
        subst (λ l. has p (nodes q l) ≡ true) (append-nil xs) at.p_node in
      let n_node : has (q + 1) (nodes q xs) ≡ true =
        subst (λ l. has (q + 1) (nodes q l) ≡ true) (append-nil xs) at.n_node in
      let s =
        splice_table-Spares k.quetab t p (q + 1) (t ∷ nodes q xs) (ground arith) (ground arith)
          (ground arith) in
      let fresh = nodes-not-has v t lt out in
      (
        splice_table k.quetab t p (q + 1),
        enqueue_run k q t p v.above v.below live at.p_in at.prev,
        splice-IsQueue xs [] (s.keys q ∙ v.head_key) (s.keys (q + 1) ∙ v.tail_key) vx lt
            (rw (append-nil xs) out)
            (splice_table-IsSplice k.quetab t p (q + 1) (ne_of_node t p (nodes q xs) fresh p_node)
              (ne_of_node t (q + 1) (nodes q xs) fresh n_node)),
        s,
      )

  -- `getitem` takes a thread out of the queue it is in, wherever it stands there, and keeps the
  -- order of the others; the thread's own links are empty afterwards.
  pub getitem-remove :
      (xs ys : List ℕ)
      → IsQueue k.quetab q (xs ++ t ∷ ys)
      → (T' : Table) × (getitem (pos t) k ≡ ok (pos t) (record k { quetab = T' }))
        × IsQueue T' q (xs ++ ys)
        × Spares k.quetab T' (nodes q (xs ++ t ∷ ys))
        × ((T' t).next ≡ empty)
        × ((T' t).prev ≡ empty)
  getitem-remove xs ys v =
      let p = last_of q xs in
      let n = first_of ys (q + 1) in
      let T' = unlink_table k.quetab t p n in
      let before = place xs (t ∷ ys) v in
      let behind = place_behind xs ys v in
      let s =
        unlink_table-Spares k.quetab t p n (nodes q (xs ++ t ∷ ys)) behind.p_node before.p_node
          behind.n_node in
      let gone = unlink_table-IsUnlink k.quetab t p n in
      (
        T',
        getitem_run k t p n behind.p_in before.p_in behind.n_in behind.next before.prev,
        unlink-IsQueue xs ys (s.keys q ∙ v.head_key) (s.keys (q + 1) ∙ v.tail_key) v gone,
        s,
        ground (arith, gone.next t),
        ground (arith, gone.prev t),
      )
