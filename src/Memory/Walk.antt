-- ===== src/Memory/Walk.antt =====
-- The walk of `memfree` of system/memfree.c and the writes where it stops.
use xinu.Base.{
  ℕ, zero, suc, ◌+◌, ◌%◌, ◌≤◌, ◌<◌, ◌≡◌, refl, ◌∙◌, ap, subst, sym, [], ◌∷◌, some, ◌==◌, ltb, not,
  ◌&&◌, arith, Bool-cases, inl, inr, true, false, length,
}
use xinu.Memory.{Memory, u32, memfree_loop, top_of, memfree_at}
use xinu.Memory.Blocks.{Blocks, Chain, Ordered}
use xinu.Memory.Coalesce.{grow, give_back, Ordered-above}
use xinu.Memory.FirstFit.{Apart}
use xinu.Memory.Link.{
  Gave, accounted, memfree_at_link, memfree_at_grow, above_free, linked-Gave, grown-Gave,
}

pub give_back-grow :
    (a n hi : ℕ) (bs : Blocks) → 0 < n → Ordered (a + n) bs hi → give_back a n bs ≡ grow a n bs
unfolding give_back grow
give_back-grow a n hi [] pos o = refl
give_back-grow a n hi ((b, l) ∷ bs) pos o = ground (arith, o.0)

-- Where the walk stops, and what the writes there leave for the chain from block `b` on.
pub record Returned (m : Memory) (a n fuel b q : ℕ) (bs : Blocks) : Type 0 where
  pub prev : ℕ
  pub next : ℕ
  pub after : Memory
  pub stop : memfree_loop fuel b q a m ≡ some (prev, next)
  pub done : memfree_at prev next a n m ≡ (true, after)
  pub chain : Chain after b bs
  pub gave : Gave m after b b n

module _ (m : Memory) (a n hi : ℕ) (pos : 0 < n) (fit : a + n ≤ hi) (lt : hi < u32) where
  stop_at :
      (fuel b l q : ℕ) (bs : Blocks)
      → memfree_loop fuel b q a m ≡ some (b, q)
      → m.memlist < b
      → b < a
      → 0 < l
      → b + l ≤ a
      → (m.block b).length ≡ l
      → (m.block b).next ≡ q
      → Chain m q bs
      → Ordered (a + n) bs hi
      → Returned m a n fuel b q (give_back a n ((b, l) ∷ bs))
  unfolding give_back top_of
  stop_at fuel b l q bs stop list low some_l end len next c o =
      let other : (b == m.memlist) ≡ false = ground arith in
      let top : (b + (m.block b).length) % u32 ≡ b + l = omega (arith, len) in
      let len1 : ((accounted m b a n q hi bs).block b).length ≡ l = ground (arith, len) in
      let top1 : (b + ((accounted m b a n q hi bs).block b).length) % u32 ≡ b + l =
        omega (arith, len1) in
      let up : ltb a b ≡ false = ground arith in
      let below : ltb a (top_of b m) ≡ false = ground (arith, other, top) in
      let free = above_free m b a n q hi bs c o (omega arith) in
      elim (Bool-cases (b + l == a)) [
        | inl touch ↦
            let same : a + n ≡ b + (l + n) = ground arith in
            let (m', e, chain, gave) =
              grown-Gave m b a n q hi bs l list len next c (subst (λ x. Ordered x bs hi) same o) pos
                (omega arith) lt in
            record {
              prev = b;
              next = q;
              after = m';
              stop = stop;
              done =
                  memfree_at_grow m b a n q hi bs below (ground (arith, other, top1, touch)) free
                  ∙ ap (λ x. (true, x)) e;
              chain = rw (up, touch) chain;
              gave = gave;
            }
        | inr gap ↦
            let (m', e, chain, gave) =
              linked-Gave m b a n q hi bs low (omega arith) c o pos fit lt in
            record {
              prev = b;
              next = q;
              after = m';
              stop = stop;
              done =
                  memfree_at_link m b a n q hi bs below (ground (arith, other, top1, gap)) free
                  ∙ ap (λ x. (true, x)) e;
              chain =
                  rw (up, gap)
                    (
                      refl,
                      gave.lengths b low (omega arith) ∙ len,
                      subst (Chain m' (m'.block b).next) (sym (give_back-grow a n hi bs pos o))
                          chain,
                    );
              gave = record {
                nexts = λ i h ne. gave.nexts i (omega arith) ne;
                lengths = λ i h ne. gave.lengths i (omega arith) ne;
                free = gave.free;
                memlist = gave.memlist;
                memheap = gave.memheap;
                maxaddr = gave.maxaddr;
              };
            }
      ]

  walk_on :
      (fuel b l q e : ℕ) (bs : Blocks) (k : ℕ)
      → m.memlist < b
      → b + l < e
      → e < a
      → (m.block b).length ≡ l
      → (m.block b).next ≡ q
      → q ≡ e
      → Returned m a n fuel e (m.block e).next (give_back a n ((e, k) ∷ bs))
      → Returned m a n (suc fuel) b q (give_back a n ((b, l) ∷ (e, k) ∷ bs))
  unfolding memfree_loop give_back
  walk_on fuel b l q e bs k list after low len next at r =
      let go : (not (e == 0) && ltb e a) ≡ true = ground arith in
      let up : ltb a b ≡ false = ground arith in
      let gap : (b + l == a) ≡ false = ground arith in
      record {
        prev = r.prev;
        next = r.next;
        after = r.after;
        stop = rw (at, go) r.stop;
        done = r.done;
        chain = subst (Chain r.after b) (sym (unchanged up gap)) (
          refl,
          r.gave.lengths b (omega arith) (omega arith) ∙ len,
          subst (λ x. Chain r.after x (give_back a n ((e, k) ∷ bs)))
              (sym (r.gave.nexts b (omega arith) (omega arith) ∙ next ∙ at)) r.chain,
        );
        gave = record {
          nexts = λ i h ne. r.gave.nexts i (omega arith) (omega arith);
          lengths = λ i h ne. r.gave.lengths i (omega arith) ne;
          free = r.gave.free;
          memlist = r.gave.memlist;
          memheap = r.gave.memheap;
          maxaddr = r.gave.maxaddr;
        };
      }
    where
      unchanged :
          ltb a b ≡ false
          → (b + l == a) ≡ false
          → give_back a n ((b, l) ∷ (e, k) ∷ bs) ≡ (b, l) ∷ give_back a n ((e, k) ∷ bs)
      unchanged up gap = rw (up, gap, give_back)

  pub memfree_walk :
      (fuel b l q : ℕ) (bs : Blocks)
      → length bs < fuel
      → m.memlist < b
      → b < a
      → 0 < l
      → (m.block b).length ≡ l
      → (m.block b).next ≡ q
      → Chain m q bs
      → Ordered (suc (b + l)) bs hi
      → Apart a n ((b, l) ∷ bs)
      → Returned m a n fuel b q (give_back a n ((b, l) ∷ bs))
  unfolding memfree_loop
  memfree_walk zero b l q bs enough list low some_l len next c o apart = absurd (omega arith)
  memfree_walk (suc fuel) b l q [] enough list low some_l len next c o apart =
      stop_at (suc fuel) b l q [] (ground (arith, c)) list low some_l (ground (arith, apart.0)) len
        next c tt
  memfree_walk (suc fuel) b l q ((e, k) ∷ bs) enough list low some_l len next c o apart =
      elim (Bool-cases (ltb e a)) [
        | inl more ↦
            walk_on fuel b l q e bs k list (omega (arith, o.0)) (ground arith) len next c.0 (
              memfree_walk fuel e k (m.block e).next bs (omega arith) (omega (arith, o.0))
                (ground arith) o.2 c.1 refl c.2 o.5 apart.1)
        | inr far ↦
            stop_at (suc fuel) b l q ((e, k) ∷ bs) (ground (arith, c.0, far)) list low some_l
              (ground (arith, apart.0)) len next c
              (Ordered-above a a n hi ((e, k) ∷ bs) (omega arith) pos apart.1
                (ground (arith, far), o.1, o.2, o.3, o.4, o.5))
      ]
