-- ===== src/Queue/Ends.antt =====
-- Looking at the ends of a queue and taking a thread from there: `isempty`, `nonempty`,
-- `firstid`, `firstkey`, `getfirst`, `getlast` and `dequeue`.
use mathlib.Core.Path.{fun_ext}
use mathlib.Core.List.{append-nil}
use xinu.Base.{
  ℕ, ◌+◌, ◌<◌, ◌≡◌, ap, pos, false, List, [], ◌∷◌, ◌++◌, arith, subst, lt→ltb, Bool-cases, inl, inr,
  is_nil-snoc, is_nil, not,
}
use xinu.Kernel.{
  nqent, empty, Kernel, Queent, ok, isbadtid, isbadqid, queent, put_queent, update, set_prev,
  set_next,
}
use xinu.Queue.{dequeue, getfirst, getlast, getitem, isempty, nonempty, firstkey}
use xinu.Queue.Chain.{Table}
use xinu.Queue.Contents.{IsQueue, nodes, place, place_behind}
use xinu.Queue.Links.{Spares}
use xinu.Queue.Fifo.{getitem-remove}

module _ (k : Kernel) (q : ℕ) where
  pub isbadqid-false : (xs : List ℕ) → IsQueue k.quetab q xs → isbadqid (pos q) ≡ false
  unfolding isbadqid
  isbadqid-false xs v = ground (arith, v.below)

  pub nonempty_iff :
      (xs : List ℕ) → IsQueue k.quetab q xs → nonempty (pos q) k ≡ ok (not (is_nil xs)) k
  unfolding nonempty queent
  nonempty_iff [] v = ground (arith, v.below, v.above, (place [] [] v).next)
  nonempty_iff (x ∷ xs) v = ground (arith, v.below, v.members.0, (place [] (x ∷ xs) v).next)

  pub isempty_iff : (xs : List ℕ) → IsQueue k.quetab q xs → isempty (pos q) k ≡ ok (is_nil xs) k
  unfolding isempty queent
  isempty_iff [] v = ground (arith, v.below, v.above, (place [] [] v).next)
  isempty_iff (x ∷ xs) v = ground (arith, v.below, v.members.0, (place [] (x ∷ xs) v).next)

  pub firstkey-head :
      (x : ℕ) (xs : List ℕ)
      → IsQueue k.quetab q (x ∷ xs)
      → firstkey (pos q) k ≡ ok (k.quetab x).key k
  unfolding firstkey queent
  firstkey-head x xs v = ground (arith, v.below, v.members.0, (place [] (x ∷ xs) v).next)

  -- On a queue with nobody in it `getfirst`, `getlast` and `dequeue` answer empty and change nothing.
  pub removals-nil :
      IsQueue k.quetab q []
      → (getfirst (pos q) k ≡ ok empty k)
        × (getlast (pos q) k ≡ ok empty k)
        × (dequeue (pos q) k ≡ ok empty k)
  unfolding getfirst getlast dequeue
  removals-nil v = (
    rw (isbadqid-false [] v, isempty_iff [] v),
    rw (isbadqid-false [] v, isempty_iff [] v),
    rw (isbadqid-false [] v, isempty_iff [] v),
  )

  getfirst_run :
      (x : ℕ) (xs : List ℕ) → IsQueue k.quetab q (x ∷ xs) → getfirst (pos q) k ≡ getitem (pos x) k
  unfolding getfirst queent
  getfirst_run x xs v =
      rw (isbadqid-false (x ∷ xs) v, isempty_iff (x ∷ xs) v)
        (ground (arith, v.below, (place [] (x ∷ xs) v).next))

-- Writing empty to links that hold it changes nothing.
update_same : (T : Table) (t : ℕ) (e : Queent) → e ≡ T t → update T t e ≡ T
update_same T t e h = fun_ext λ j. ground arith

set_prev_same :
    (k : Kernel) (t : ℕ)
    → t < nqent
    → (k.quetab t).prev ≡ empty
    → set_prev (pos t) empty k ≡ ok tt k
unfolding put_queent
set_prev_same k t lt e =
    rw (lt→ltb t nqent lt)
      (ap (λ T. ok tt (record k { quetab = T })) (update_same k.quetab t _ (ground arith)))

set_next_same :
    (k : Kernel) (t : ℕ)
    → t < nqent
    → (k.quetab t).next ≡ empty
    → set_next (pos t) empty k ≡ ok tt k
unfolding put_queent
set_next_same k t lt e =
    rw (lt→ltb t nqent lt)
      (ap (λ T. ok tt (record k { quetab = T })) (update_same k.quetab t _ (ground arith)))

module _ (k : Kernel) (q x : ℕ) where
  -- `dequeue` answers the first thread and leaves the others in their order. It keeps every key,
  -- writes to no cell outside of the queue, and leaves the thread's links empty.
  pub dequeue-head :
      (xs : List ℕ)
      → IsQueue k.quetab q (x ∷ xs)
      → (T' : Table) × (dequeue (pos q) k ≡ ok (pos x) (record k { quetab = T' }))
        × IsQueue T' q xs
        × Spares k.quetab T' (nodes q (x ∷ xs))
        × ((T' x).next ≡ empty)
        × ((T' x).prev ≡ empty)
  unfolding dequeue
  dequeue-head xs v =
      let got = getitem-remove k q x [] xs v in
      let k' : Kernel = record k { quetab = got.0 } in
      let lt : x < nqent = omega (arith, v.members.0) in
      (
        got.0,
        rw
            (
              isbadqid-false k q (x ∷ xs) v,
              isempty_iff k q (x ∷ xs) v,
              getfirst_run k q x xs v,
              got.1,
            )
            (elim (Bool-cases (isbadtid k' (pos x))) [
              | inl bad ↦ rw bad
              | inr live ↦ rw (live, set_prev_same k' x lt got.5, set_next_same k' x lt got.4)
            ]),
        got.2,
        got.3,
        got.4,
        got.5,
      )

  -- `getlast` answers the last thread.
  pub getlast-last :
      (xs : List ℕ)
      → IsQueue k.quetab q (xs ++ x ∷ [])
      → (T' : Table) × (getlast (pos q) k ≡ ok (pos x) (record k { quetab = T' }))
        × IsQueue T' q xs
        × Spares k.quetab T' (nodes q (xs ++ x ∷ []))
  unfolding getlast queent
  getlast-last xs v =
      let got = getitem-remove k q x xs [] v in
      let last : (k.quetab (q + 1)).prev ≡ pos x = (place_behind xs [] v).prev in
      (
        got.0,
        rw
            (
              isbadqid-false k q (xs ++ x ∷ []) v,
              isempty_iff k q (xs ++ x ∷ []) v,
              is_nil-snoc xs x,
              lt→ltb (q + 1) nqent v.below,
              last,
            )
            got.1,
        subst (IsQueue got.0 q) (append-nil xs) got.2,
        got.3,
      )
