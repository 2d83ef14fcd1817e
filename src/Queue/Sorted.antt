-- ===== src/Queue/Sorted.antt =====
-- `insert` of system/insert.c: the ready list's order by descending key, first come first served
-- among equal keys.
use xinu.Base.{
  ℕ, zero, suc, ◌+◌, ◌<◌, ◌≡◌, ◌≢◌, refl, ap, subst, sym, ℤ, pos, ◌<ℤ◌, ◌≤ℤ◌, leb_ℤ, true, false,
  List, [], ◌∷◌, ◌++◌, arith, if◌then◌else◌, All, has, length, first_of, last_of, inl, inr,
  Bool-cases, length-le_of_Uniq, ◌==◌,
}
use xinu.Kernel.{nthread, nqent, OK, minkey, Kernel, ok, isbadtid, queent}
use xinu.Queue.{insert, insert_loop}
use xinu.Queue.Chain.{Table, Linked}
use xinu.Queue.Contents.{IsQueue, splice-IsQueue, nodes, place, nodes-not-has, ne_of_node}
use xinu.Queue.Links.{
  splice_key_table, splice_key_table-IsSplice, SparesBut, splice_key_table-SparesBut, insert_run,
  isbadtid-lt,
}

-- The threads that go before a new key, and those behind it.
unfoldable pub above : Table → ℤ → List ℕ → List ℕ
above T key [] = []
above T key (x ∷ xs) = if leb_ℤ key (T x).key then x ∷ above T key xs else []

unfoldable pub behind : Table → ℤ → List ℕ → List ℕ
behind T key [] = []
behind T key (x ∷ xs) = let rest = behind T key xs in if leb_ℤ key (T x).key then rest else x ∷ xs

pub above-behind : (T : Table) (key : ℤ) (xs : List ℕ) → above T key xs ++ behind T key xs ≡ xs
unfolding above behind
above-behind T key [] = refl
above-behind T key (x ∷ xs) = elim (Bool-cases (leb_ℤ key (T x).key)) [
  | inl up ↦ rw up (ap (◌∷◌ x) (above-behind T key xs))
  | inr down ↦ rw down
]

-- The walk stops at the first thread with a smaller key, or at the tail.
insert_loop-behind :
    (k : Kernel) (d : ℕ) (key : ℤ) (fuel : ℕ) (xs : List ℕ)
    → Linked k.quetab (xs ++ d ∷ [])
    → All (λ x. x < nthread) xs
    → d < nqent
    → (k.quetab d).key <ℤ key
    → length xs < fuel
    → insert_loop fuel (pos (first_of xs d)) key k
      ≡ ok (pos (first_of (behind k.quetab key xs) d)) k
unfolding insert_loop behind queent
insert_loop-behind k d key zero xs h a din low lt = absurd (omega arith)
insert_loop-behind k d key (suc fuel) [] h a din low lt = ground arith
insert_loop-behind k d key (suc fuel) (x ∷ []) h a din low lt =
    ground (arith, insert_loop-behind k d key fuel [] h.1 tt din low)
insert_loop-behind k d key (suc fuel) (x ∷ y ∷ xs) h a din low lt =
    ground (arith, insert_loop-behind k d key fuel (y ∷ xs) h.1 a.1 din low)

module _ (k : Kernel) (q t : ℕ) (key : ℤ) (xs : List ℕ) where
  insert_walk :
      IsQueue k.quetab q xs
      → minkey <ℤ key
      → insert_loop (nthread + 1) (pos (first_of xs (q + 1))) key k
        ≡ ok (pos (first_of (behind k.quetab key xs) (q + 1))) k
  insert_walk v low =
      insert_loop-behind k (q + 1) key (nthread + 1) xs v.links.1 v.members v.below
        (subst (λ m. m <ℤ key) (sym v.tail_key) low)
        (omega (arith, length-le_of_Uniq nthread xs v.uniq v.members))

  -- `insert` puts a live thread that is not in the queue behind the threads whose keys are not
  -- smaller and before the first with a smaller one. It keeps the other keys, and writes to no
  -- cell but the thread's and the queue's.
  pub insert-above :
      IsQueue k.quetab q xs
      → isbadtid k (pos t) ≡ false
      → has t xs ≡ false
      → minkey <ℤ key
      → (T' : Table) × (insert (pos t) (pos q) key k ≡ ok OK (record k { quetab = T' }))
        × IsQueue T' q (above k.quetab key xs ++ t ∷ behind k.quetab key xs)
        × SparesBut k.quetab T' t key (t ∷ nodes q xs)
  insert-above v live out low =
      let T = k.quetab in
      let ys = above T key xs in
      let zs = behind T key xs in
      let p = last_of q ys in
      let n = first_of zs (q + 1) in
      let e : ys ++ zs ≡ xs = above-behind T key xs in
      let v' : IsQueue T q (ys ++ zs) = subst (IsQueue T q) (sym e) v in
      let at = place ys zs v' in
      let start = place [] xs v in
      let lt : t < nthread = isbadtid-lt k t live in
      let out' : has t (ys ++ zs) ≡ false = subst (λ l. has t l ≡ false) (sym e) out in
      let fresh = nodes-not-has v t lt out in
      let p_node : has p (nodes q xs) ≡ true = subst (λ l. has p (nodes q l) ≡ true) e at.p_node in
      let n_node : has n (nodes q xs) ≡ true = subst (λ l. has n (nodes q l) ≡ true) e at.n_node in
      let s =
        splice_key_table-SparesBut T t p n key (t ∷ nodes q xs) (ground arith) (ground arith)
          (ground arith) in
      let apart_head : t ≢ q = omega (arith, v.above) in
      let apart_tail : t ≢ q + 1 = omega (arith, v.above) in
      (
        splice_key_table T t p n key,
        insert_run k q t (first_of xs (q + 1)) p n key v.above v.below live at.p_in at.n_in
            start.next (insert_walk v low) at.prev,
        splice-IsQueue ys zs (ground (arith, s.keys q, v.head_key))
            (ground (arith, s.keys (q + 1), v.tail_key)) v' lt out'
            (splice_key_table-IsSplice T t p n key (ne_of_node t p (nodes q xs) fresh p_node)
              (ne_of_node t n (nodes q xs) fresh n_node)),
        s,
      )

-- Keys do not rise along the list.
abbrev pub HeadGe : Table → ℤ → List ℕ → Type 0
HeadGe T key [] = Unit
HeadGe T key (x ∷ xs) = (T x).key ≤ℤ key

abbrev pub Descending : Table → List ℕ → Type 0
Descending T [] = Unit
Descending T (x ∷ xs) = HeadGe T (T x).key xs × Descending T xs

module _ (T T' : Table) (t : ℕ) (key : ℤ)
    (keys : (j : ℕ) → (T' j).key ≡ (if j == t then key else (T j).key)) where
  Descending-same : (xs : List ℕ) → has t xs ≡ false → Descending T xs → Descending T' xs
  Descending-same [] out d = tt
  Descending-same (x ∷ []) out d = (tt, tt)
  Descending-same (x ∷ y ∷ xs) out d =
      (ground (arith, keys x, keys y), Descending-same (y ∷ xs) (ground arith) d.1)

  HeadGe-insert :
      (x : ℕ) (xs : List ℕ)
      → has t (x ∷ xs) ≡ false
      → HeadGe T (T x).key xs
      → leb_ℤ key (T x).key ≡ true
      → HeadGe T' (T' x).key (above T key xs ++ t ∷ behind T key xs)
  unfolding above behind
  HeadGe-insert x [] out h up = ground (arith, keys x, keys t)
  HeadGe-insert x (y ∷ ys) out h up = ground (arith, keys x, keys t, keys y)

  Descending-insert :
      (xs : List ℕ)
      → has t xs ≡ false
      → Descending T xs
      → Descending T' (above T key xs ++ t ∷ behind T key xs)
  unfolding above behind
  Descending-insert [] out d = (tt, tt)
  Descending-insert (x ∷ xs) out d = elim (Bool-cases (leb_ℤ key (T x).key)) [
    | inl up ↦ rw up (HeadGe-insert x xs out d.0 up, Descending-insert xs (ground arith) d.1)
    | inr down ↦ rw down (ground (arith, keys x, keys t), Descending-same (x ∷ xs) out d)
  ]

All-lt :
    (T : Table) (key : ℤ) (x : ℕ) (xs : List ℕ)
    → Descending T (x ∷ xs)
    → (T x).key <ℤ key
    → All (λ y. (T y).key <ℤ key) xs
All-lt T key x [] d h = tt
All-lt T key x (y ∷ xs) d h = (omega arith, All-lt T key y xs d.1 (omega arith))

-- In a list in descending order nobody behind the place has a key as large.
pub behind-lt :
    (T : Table) (key : ℤ) (xs : List ℕ)
    → Descending T xs
    → All (λ x. (T x).key <ℤ key) (behind T key xs)
unfolding behind
behind-lt T key [] d = tt
behind-lt T key (x ∷ xs) d = elim (Bool-cases (leb_ℤ key (T x).key)) [
  | inl up ↦ rw up (behind-lt T key xs d.1)
  | inr down ↦ rw down (ground arith, All-lt T key x xs d (ground arith))
]

pub above-ge : (T : Table) (key : ℤ) (xs : List ℕ) → All (λ x. key ≤ℤ (T x).key) (above T key xs)
unfolding above
above-ge T key [] = tt
above-ge T key (x ∷ xs) = elim (Bool-cases (leb_ℤ key (T x).key)) [
  | inl up ↦ rw up (ground arith, above-ge T key xs)
  | inr down ↦ rw down tt
]

-- `insert` on a queue in descending order, of a live thread that is not in it and with a key above
-- MINKEY, answers OK and keeps the order: the new thread comes behind all those whose key is not
-- smaller and before all those whose key is, and no other key and no cell outside of the queue
-- changes.
pub insert-Descending :
    (k : Kernel) (q t : ℕ) (key : ℤ) (xs : List ℕ)
    → IsQueue k.quetab q xs
    → isbadtid k (pos t) ≡ false
    → has t xs ≡ false
    → minkey <ℤ key
    → Descending k.quetab xs
    → (T' : Table) × (ys : List ℕ) × (zs : List ℕ) × (insert (pos t) (pos q) key k
        ≡ ok OK (record k { quetab = T' }))
      × (xs ≡ ys ++ zs)
      × IsQueue T' q (ys ++ t ∷ zs)
      × Descending T' (ys ++ t ∷ zs)
      × All (λ x. key ≤ℤ (k.quetab x).key) ys
      × All (λ x. (k.quetab x).key <ℤ key) zs
      × SparesBut k.quetab T' t key (t ∷ nodes q xs)
insert-Descending k q t key xs v live out low d =
    let T = k.quetab in
    let (T', run, holds, s) = insert-above k q t key xs v live out low in
    (
      T',
      above T key xs,
      behind T key xs,
      run,
      sym (above-behind T key xs),
      holds,
      Descending-insert T T' t key s.keys xs out d,
      above-ge T key xs,
      behind-lt T key xs d,
      s,
    )
