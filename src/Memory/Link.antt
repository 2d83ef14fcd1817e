-- ===== src/Memory/Link.antt =====
-- The writes of system/memfree.c: the block linked in or grown, and the next one joined to it.
use xinu.Base.{
  ℕ, suc, ◌+◌, ◌%◌, ◌≤◌, ◌<◌, ◌≡◌, ◌≢◌, refl, ◌∙◌, ap, subst, sym, [], ◌∷◌, ◌==◌, ltb, not, ◌&&◌,
  arith, Bool-cases, inl, inr, true, false,
}
use xinu.Memory.{
  Memory, u32, set_next, set_length, put_block, merge_prev, merge_next, top_of, memfree_at,
}
use xinu.Memory.Blocks.{Blocks, Chain, Ordered}
use xinu.Memory.Coalesce.{grow}
use xinu.Memory.Get.{Chain-frame}

-- What joining the block at `b` to the next one leaves: nothing below `b` changes.
pub record Joined (m m' : Memory) (b l : ℕ) (bs : Blocks) : Type 0 where
  pub chain : Chain m' b (grow b l bs)
  pub cells : (i : ℕ) → i < b → m'.block i ≡ m.block i
  pub memlist : m'.memlist ≡ m.memlist
  pub memheap : m'.memheap ≡ m.memheap
  pub maxaddr : m'.maxaddr ≡ m.maxaddr

pub merge_next-Joined :
    (m : Memory) (b l p hi : ℕ) (bs : Blocks)
    → (m.block b).length ≡ l
    → (m.block b).next ≡ p
    → Chain m p bs
    → Ordered (b + l) bs hi
    → 0 < l
    → b + l ≤ hi
    → hi < u32
    → Joined m (merge_next b p m) b l bs
unfolding merge_next grow
merge_next-Joined m b l p hi [] len next c o pos fit lt =
    let apart : ((b + (m.block b).length) % u32 == p) ≡ false = ground (arith, len, c) in
    rw apart (record {
      chain = (refl, len, next ∙ c);
      cells = λ i h. refl;
      memlist = refl;
      memheap = refl;
      maxaddr = refl;
    })
merge_next-Joined m b l p hi ((e, k) ∷ bs) len next c o pos fit lt =
    let end : (b + (m.block b).length) % u32 ≡ b + l = omega (arith, len) in
    elim (Bool-cases (b + l == e)) [
      | inl touch ↦
          let same : b + l ≡ e = ground arith in
          let meets : ((b + (m.block b).length) % u32 == p) ≡ true =
            ground (arith, end, c.0, same) in
          let m1 : Memory = set_length b (((m.block b).length + (m.block p).length) % u32) m in
          let m' : Memory = set_next b (m1.block p).next m1 in
          let next' : (m'.block b).next ≡ (m.block p).next = ground (arith, c.0) in
          let len' : (m'.block b).length ≡ l + k = ground (arith, len, c.0, c.1, o.4) in
          rw meets (record {
            chain = rw touch (
              refl,
              len',
              subst (λ q. Chain m' q bs) (sym (next' ∙ ap (λ q. (m.block q).next) c.0))
                  (Chain-frame m m' (m.block e).next (suc (e + k)) hi bs (λ i h. ground arith) o.5
                    c.2),
            );
            cells = λ i h. ground arith;
            memlist = refl;
            memheap = refl;
            maxaddr = refl;
          })
      | inr gap ↦
          let apart : ((b + (m.block b).length) % u32 == p) ≡ false =
            ground (arith, end, c.0, gap) in
          rw apart (record {
            chain = rw gap (refl, len, (next ∙ c.0, c.1, c.2));
            cells = λ i h. refl;
            memlist = refl;
            memheap = refl;
            maxaddr = refl;
          })
    ]

-- What giving `n` bytes back changed below `lo`: the link at `p` and the account in `memlist`.
pub record Gave (m m' : Memory) (p lo n : ℕ) : Type 0 where
  pub nexts : (i : ℕ) → i < lo → i ≢ p → (m'.block i).next ≡ (m.block i).next
  pub lengths : (i : ℕ) → i < lo → i ≢ m.memlist → (m'.block i).length ≡ (m.block i).length
  pub free : (m'.block m.memlist).length ≡ ((m.block m.memlist).length + n) % u32
  pub memlist : m'.memlist ≡ m.memlist
  pub memheap : m'.memheap ≡ m.memheap
  pub maxaddr : m'.maxaddr ≡ m.maxaddr

module _ (m : Memory) (p a n q hi : ℕ) (bs : Blocks) where
  -- The account, and the block between `p` and the blocks above.
  abbrev pub accounted : Memory
  accounted = set_length m.memlist (((m.block m.memlist).length + n) % u32) m

  abbrev pub linked : Memory
  linked = set_next p a (put_block a (record { next = q; length = n }) accounted)

  abbrev pub grown : Memory
  grown = set_length p (((accounted.block p).length + n) % u32) accounted

  pub memfree_at_link :
      ltb a (top_of p m) ≡ false
      → (top_of p accounted == a) ≡ false
      → (not (q == 0) && ltb q ((a + n) % u32)) ≡ false
      → memfree_at p q a n m ≡ (true, merge_next a q linked)
  unfolding memfree_at merge_prev
  memfree_at_link low apart free = ground (arith, low, apart, free)

  pub memfree_at_grow :
      ltb a (top_of p m) ≡ false
      → (top_of p accounted == a) ≡ true
      → (not (q == 0) && ltb q ((a + n) % u32)) ≡ false
      → memfree_at p q a n m ≡ (true, merge_next p q grown)
  unfolding memfree_at merge_prev
  memfree_at_grow low touch free = ground (arith, low, touch, free)

  pub above_free :
      Chain m q bs
      → Ordered (a + n) bs hi
      → a + n < u32
      → (not (q == 0) && ltb q ((a + n) % u32)) ≡ false
  above_free c o lt = elim (Bool-cases (q == 0)) [ inl null ↦ rw null | inr block ↦ go bs c o ]
    where
      go :
          (bs : Blocks)
          → Chain m q bs
          → Ordered (a + n) bs hi
          → (not (q == 0) && ltb q ((a + n) % u32)) ≡ false
      go [] c o = ground (arith, c)
      go ((e, k) ∷ bs) c o =
          let small : (a + n) % u32 ≡ a + n = omega arith in ground (arith, c.0, o.0, small)

  pub linked-Gave :
      p < a
      → m.memlist < a
      → Chain m q bs
      → Ordered (a + n) bs hi
      → 0 < n
      → a + n ≤ hi
      → hi < u32
      → (m' : Memory) × (merge_next a q linked ≡ m')
        × Chain m' (m'.block p).next (grow a n bs)
        × Gave m m' p a n
  linked-Gave below list c o pos fit lt =
      let len : (linked.block a).length ≡ n = ground arith in
      let next : (linked.block a).next ≡ q = ground arith in
      let at : (linked.block p).next ≡ a = ground arith in
      let c' = Chain-frame m linked q (a + n) hi bs (λ i h. ground arith) o c in
      let j = merge_next-Joined linked a n q hi bs len next c' o pos fit lt in
      (
        merge_next a q linked,
        refl,
        subst (λ e. Chain (merge_next a q linked) e (grow a n bs))
            (sym (ap (λ b. b.next) (j.cells p below) ∙ at)) j.chain,
        record {
          nexts = λ i h ne. ap (λ b. b.next) (j.cells i h) ∙ ground arith;
          lengths = λ i h ne. ap (λ b. b.length) (j.cells i h) ∙ ground arith;
          free = ap (λ b. b.length) (j.cells m.memlist list) ∙ ground arith;
          memlist = j.memlist;
          memheap = j.memheap;
          maxaddr = j.maxaddr;
        },
      )

  pub grown-Gave :
      (l : ℕ)
      → m.memlist < p
      → (m.block p).length ≡ l
      → (m.block p).next ≡ q
      → Chain m q bs
      → Ordered (p + (l + n)) bs hi
      → 0 < n
      → p + (l + n) ≤ hi
      → hi < u32
      → (m' : Memory) × (merge_next p q grown ≡ m')
        × Chain m' p (grow p (l + n) bs)
        × Gave m m' p p n
  grown-Gave l list len next c o pos fit lt =
      let len' : (grown.block p).length ≡ l + n = ground (arith, len) in
      let next' : (grown.block p).next ≡ q = ground (arith, next) in
      let c' = Chain-frame m grown q (p + (l + n)) hi bs (λ i h. ground arith) o c in
      let j = merge_next-Joined grown p (l + n) q hi bs len' next' c' o (omega arith) fit lt in
      (
        merge_next p q grown,
        refl,
        j.chain,
        record {
          nexts = λ i h ne. ap (λ b. b.next) (j.cells i h) ∙ ground arith;
          lengths = λ i h ne. ap (λ b. b.length) (j.cells i h) ∙ ground arith;
          free = ap (λ b. b.length) (j.cells m.memlist list) ∙ ground arith;
          memlist = j.memlist;
          memheap = j.memheap;
          maxaddr = j.maxaddr;
        },
      )
