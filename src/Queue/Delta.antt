-- ===== src/Queue/Delta.antt =====
-- `insertd` of system/insertd.c: the delta queue of sleeping threads against their deadlines.
use xinu.Base.{
  ℕ, zero, suc, ◌+◌, ◌≤◌, ◌<◌, ◌≡◌, ◌≢◌, refl, ◌∙◌, ap, subst, sym, ℤ, pos, leb_ℤ, ◌+ℤ◌, ◌-ℤ◌, not,
  ◌&&◌, true, false, List, [], ◌∷◌, ◌++◌, arith, if◌then◌else◌, All, has, length, first_of, last_of,
  inl, inr, Bool-cases, length-le_of_Uniq, has-append, ◌==◌, Uniq, leb_ℤ-add, add-sub_cancel,
  zero-add_ℤ,
}
use xinu.Kernel.{nthread, nqent, OK, Kernel, ok, isbadtid, queent, update}
use xinu.Queue.{insertd, insertd_loop, Place}
use xinu.Queue.Chain.{Table, Linked, IsSplice}
use xinu.Queue.Contents.{
  IsQueue, splice-IsQueue, nodes, nodes-Uniq, place, nodes-not-has, ne_of_node,
}
use xinu.Queue.Links.{
  splice_key_table, splice_key_table-IsSplice, splice_key_table-SparesBut, isbadtid-lt, isbadqid_in,
  queent_in, put_queent_in,
}

-- The threads that wake no later than `key` ticks from now, the others, and what is left of `key`.
unfoldable pub upto : Table → ℤ → List ℕ → List ℕ
upto T key [] = []
upto T key (x ∷ xs) =
    let rest = upto T (key -ℤ (T x).key) xs in if leb_ℤ (T x).key key then x ∷ rest else []

unfoldable pub past : Table → ℤ → List ℕ → List ℕ
past T key [] = []
past T key (x ∷ xs) =
    let rest = past T (key -ℤ (T x).key) xs in if leb_ℤ (T x).key key then rest else x ∷ xs

unfoldable pub left : Table → ℤ → List ℕ → ℤ
left T key [] = key
left T key (x ∷ xs) =
    let rest = left T (key -ℤ (T x).key) xs in if leb_ℤ (T x).key key then rest else key

pub upto-past : (T : Table) (key : ℤ) (xs : List ℕ) → upto T key xs ++ past T key xs ≡ xs
unfolding upto past
upto-past T key [] = refl
upto-past T key (x ∷ xs) = elim (Bool-cases (leb_ℤ (T x).key key)) [
  | inl up ↦ rw up (ap (◌∷◌ x) (upto-past T (key -ℤ (T x).key) xs))
  | inr down ↦ rw down
]

abbrev spot : ℤ → ℕ → ℕ → Place
spot key p n = record { key = key; prev = pos p; next = pos n }

insertd_loop-past :
    (k : Kernel) (q p : ℕ) (key : ℤ) (fuel : ℕ) (xs : List ℕ)
    → Linked k.quetab (p ∷ xs ++ (q + 1) ∷ [])
    → All (λ x. x < nthread) xs
    → nthread ≤ q
    → q + 1 < nqent
    → length xs < fuel
    → insertd_loop fuel (pos q) (spot key p (first_of xs (q + 1))) k
      ≡ ok
          (spot
            (left k.quetab key xs)
            (last_of p (upto k.quetab key xs))
            (first_of (past k.quetab key xs) (q + 1)))
          k
unfolding insertd_loop upto past left queent
insertd_loop-past k q p key zero xs h a le din lt = absurd (omega arith)
insertd_loop-past k q p key (suc fuel) [] h a le din lt = ground arith
insertd_loop-past k q p key (suc fuel) (x ∷ []) h a le din lt =
    ground (arith, insertd_loop-past k q x (key -ℤ (k.quetab x).key) fuel [] h.1 tt le din)
insertd_loop-past k q p key (suc fuel) (x ∷ y ∷ xs) h a le din lt =
    ground (arith, insertd_loop-past k q x (key -ℤ (k.quetab x).key) fuel (y ∷ xs) h.1 a.1 le din)

-- The deadline of each sleeper: the sum of the keys up to its own.
abbrev pub due : Table → ℤ → List ℕ → List (ℕ × ℤ)
due T base [] = []
due T base (x ∷ xs) = (x, base +ℤ (T x).key) ∷ due T (base +ℤ (T x).key) xs

-- A list of deadlines takes a new one behind those that are not later.
unfoldable pub insert_due : ℕ → ℤ → List (ℕ × ℤ) → List (ℕ × ℤ)
insert_due t d [] = (t, d) ∷ []
insert_due t d ((x, e) ∷ l) = if leb_ℤ e d then (x, e) ∷ insert_due t d l else (t, d) ∷ (x, e) ∷ l

-- The keys after the insertion of `t` before `n`: what was left of the key is its own, and comes
-- off the key of the next sleeper; `d` is the tail.
pub record IsDelta (T T' : Table) (t n d : ℕ) (key : ℤ) : Type 0 where
  pub keys :
      (j : ℕ)
      → (T' j).key
        ≡ (if j == t then key else if (j == n) && not (n == d) then (T j).key -ℤ key else (T j).key)

has-past :
    (T : Table) (key : ℤ) (xs : List ℕ) (d : ℕ)
    → has (first_of (past T key xs) d) (xs ++ d ∷ []) ≡ true
unfolding past
has-past T key [] d = ground arith
has-past T key (x ∷ xs) d = ground (arith, has-past T (key -ℤ (T x).key) xs d)

module _ (T T' : Table) (t n d : ℕ) (rest : ℤ) (s : IsDelta T T' t n d rest) where
  due-same : (b : ℤ) (xs : List ℕ) → has t xs ≡ false → has n xs ≡ false → due T' b xs ≡ due T b xs
  due-same b [] h k = refl
  due-same b (x ∷ xs) h k =
      let same : (T' x).key ≡ (T x).key = ground (arith, s.keys x) in
      rw same
        (ap (◌∷◌ (x, b +ℤ (T x).key)) (due-same (b +ℤ (T x).key) xs (ground arith) (ground arith)))

  -- In terms of deadlines: `t` takes its place at `b + key`, and nobody else's deadline moves.
  due-insert :
      (b key : ℤ) (xs : List ℕ)
      → rest ≡ left T key xs
      → n ≡ first_of (past T key xs) d
      → Uniq (xs ++ d ∷ [])
      → has t xs ≡ false
      → due T' b (upto T key xs ++ t ∷ past T key xs) ≡ insert_due t (b +ℤ key) (due T b xs)
  unfolding upto past left insert_due
  due-insert b key [] er en u out = let own : (T' t).key ≡ key = ground (arith, s.keys t) in rw own
  due-insert b key (x ∷ xs) er en u out = elim (Bool-cases (leb_ℤ (T x).key key)) [
    | inl up ↦
        let more : leb_ℤ (b +ℤ (T x).key) (b +ℤ key) ≡ true = leb_ℤ-add b (T x).key key ∙ up in
        let en' : n ≡ first_of (past T (key -ℤ (T x).key) xs) d = rw up at en in
        let er' : rest ≡ left T (key -ℤ (T x).key) xs = rw up at er in
        let apart : x ≢ n = ground (arith, has-past T (key -ℤ (T x).key) xs d) in
        let same : (T' x).key ≡ (T x).key = ground (arith, s.keys x) in
        rw (up, more, same)
          (ap (◌∷◌ (x, b +ℤ (T x).key)) (
            due-insert (b +ℤ (T x).key) (key -ℤ (T x).key) xs er' en' u.1 (ground arith)
            ∙ ap (λ z. insert_due t z (due T (b +ℤ (T x).key) xs))
                (add-sub_cancel b (T x).key key)))
    | inr down ↦
        let more : leb_ℤ (b +ℤ (T x).key) (b +ℤ key) ≡ false = leb_ℤ-add b (T x).key key ∙ down in
        let en' : n ≡ x = rw down at en in
        let er' : rest ≡ key = rw down at er in
        let tail : (x == d) ≡ false = ground (arith, has-append x xs (d ∷ [])) in
        let own : (T' t).key ≡ key = ground (arith, s.keys t) in
        let next : (T' x).key ≡ (T x).key -ℤ key = ground (arith, s.keys x) in
        rw (down, more, own, next, add-sub_cancel b key (T x).key)
          (ap (λ l. (t, b +ℤ key) ∷ (x, b +ℤ (T x).key) ∷ l)
            (due-same (b +ℤ (T x).key) xs (ground arith)
              (ground (arith, has-append x xs (d ∷ [])))))
  ]

unfoldable pub delta_table : Table → ℕ → ℕ → ℕ → ℕ → ℤ → Table
delta_table T t p n d key =
    let S : Table = splice_key_table T t p n key in
    if n == d then S else update S n (record (S n) { key = (S n).key -ℤ key })

delta_table-IsDelta :
    (T : Table) (t p n d : ℕ) (key : ℤ) → t ≢ n → IsDelta T (delta_table T t p n d key) t n d key
unfolding delta_table splice_key_table
delta_table-IsDelta T t p n d key h = record { keys = λ j. ground arith }

delta_table-IsSplice :
    (T : Table) (t p n d : ℕ) (key : ℤ)
    → t ≢ p
    → t ≢ n
    → IsSplice T (delta_table T t p n d key) t p n
unfolding delta_table
delta_table-IsSplice T t p n d key a b =
    let s = splice_key_table-IsSplice T t p n key a b in
    record { next = λ j. ground (arith, s.next j); prev = λ j. ground (arith, s.prev j) }

delta_table-cells :
    (T : Table) (t p n d : ℕ) (key : ℤ) (l : List ℕ) (j : ℕ)
    → has t l ≡ true
    → has p l ≡ true
    → has n l ≡ true
    → has j l ≡ false
    → delta_table T t p n d key j ≡ T j
unfolding delta_table
delta_table-cells T t p n d key l j a b c e =
    let s = splice_key_table-SparesBut T t p n key l a b c in ground (arith, s.cells j)

insertd_run :
    (k : Kernel) (q t f p n : ℕ) (key rest : ℤ)
    → nthread ≤ q
    → q + 1 < nqent
    → isbadtid k (pos t) ≡ false
    → p < nqent
    → n < nqent
    → (k.quetab q).next ≡ pos f
    → insertd_loop (nthread + 1) (pos q) (spot key q f) k ≡ ok (spot rest p n) k
    → insertd (pos t) (pos q) key k
      ≡ ok OK (record k { quetab = delta_table k.quetab t p n (q + 1) rest })
unfolding insertd splice_key_table delta_table
insertd_run k q t f p n key rest a b live pin nin e walk =
    let t_in : t < nqent = omega (arith, isbadtid-lt k t live) in
    let q_in : q < nqent = omega arith in
    rw (isbadqid_in q b, live, queent_in q q_in, e, walk)
      (rw
        (
          put_queent_in t _ t_in,
          put_queent_in t _ t_in,
          put_queent_in t _ t_in,
          put_queent_in p _ pin,
          put_queent_in n _ nin,
        )
        (elim (Bool-cases (n == q + 1)) [
          | inl end ↦ rw end
          | inr more ↦ rw (more, put_queent_in n _ nin)
        ]))

-- `insertd` gives a live thread that is not in the queue the deadline `key` ticks from now, in its
-- place among the deadlines of the others, none of which moves. It writes to no cell but the
-- thread's and the queue's.
pub insertd-due :
    (k : Kernel) (q t : ℕ) (key : ℤ) (xs : List ℕ)
    → IsQueue k.quetab q xs
    → isbadtid k (pos t) ≡ false
    → has t xs ≡ false
    → (T' : Table) × (ys : List ℕ) × (insertd (pos t) (pos q) key k
        ≡ ok OK (record k { quetab = T' }))
      × IsQueue T' q ys
      × (due T' (pos 0) ys ≡ insert_due t key (due k.quetab (pos 0) xs))
      × ((j : ℕ) → has j (t ∷ nodes q xs) ≡ false → T' j ≡ k.quetab j)
insertd-due k q t key xs v live out =
    let T = k.quetab in
    let ys = upto T key xs in
    let zs = past T key xs in
    let p = last_of q ys in
    let n = first_of zs (q + 1) in
    let rest = left T key xs in
    let e : ys ++ zs ≡ xs = upto-past T key xs in
    let v' : IsQueue T q (ys ++ zs) = subst (IsQueue T q) (sym e) v in
    let at = place ys zs v' in
    let start = place [] xs v in
    let lt : t < nthread = isbadtid-lt k t live in
    let out' : has t (ys ++ zs) ≡ false = subst (λ l. has t l ≡ false) (sym e) out in
    let fresh = nodes-not-has v t lt out in
    let p_node : has p (nodes q xs) ≡ true = subst (λ l. has p (nodes q l) ≡ true) e at.p_node in
    let n_node : has n (nodes q xs) ≡ true = subst (λ l. has n (nodes q l) ≡ true) e at.n_node in
    let apart = ne_of_node t n (nodes q xs) fresh n_node in
    let s = delta_table-IsDelta T t p n (q + 1) rest apart in
    let u = nodes-Uniq v in
    let n_past : has n (xs ++ (q + 1) ∷ []) ≡ true = has-past T key xs (q + 1) in
    let apart_head : t ≢ q = omega (arith, v.above) in
    let apart_tail : t ≢ q + 1 = omega (arith, v.above) in
    (
      delta_table T t p n (q + 1) rest,
      ys ++ t ∷ zs,
      insertd_run k q t (first_of xs (q + 1)) p n key rest v.above v.below live at.p_in at.n_in
          start.next
          (insertd_loop-past k q q key (nthread + 1) xs v.links v.members v.above v.below
            (omega (arith, length-le_of_Uniq nthread xs v.uniq v.members))),
      splice-IsQueue ys zs (ground (arith, s.keys q, v.head_key, u.0))
          (ground (arith, s.keys (q + 1), v.tail_key)) v' lt out'
          (delta_table-IsSplice T t p n (q + 1) rest (ne_of_node t p (nodes q xs) fresh p_node)
            apart),
      due-insert T _ t n (q + 1) rest s (pos 0) key xs refl refl u.1 out
          ∙ ap (λ z. insert_due t z (due T (pos 0) xs)) (zero-add_ℤ key),
      λ j h.
          delta_table-cells T t p n (q + 1) rest (t ∷ nodes q xs) j (ground arith) (ground arith)
            (ground arith) h,
    )
