-- ===== src/Memory/Free.antt =====
-- `memfree` of system/memfree.c against giving bytes back to the list of free blocks.
use xinu.Base.{
  ℕ, suc, ◌+◌, ◌*◌, ◌/◌, ◌%◌, ◌≤◌, ◌<◌, ◌≡◌, refl, ◌∙◌, ap, subst, sym, [], ◌∷◌, some, ◌==◌, ltb,
  leb, not, ◌&&◌, ◌||◌, arith, Bool-cases, inl, inr, true, false, length,
}
use xinu.Memory.{Memory, u32, roundmb, rounds, memget, memfree_loop, top_of, memfree_at, memfree}
use xinu.Memory.Blocks.{Blocks, Chain, Ordered, IsHeap, total-le, length-le, first_fit}
use xinu.Memory.Walk.{give_back-grow, memfree_walk}
use xinu.Memory.Coalesce.{
  covers, covers-give_back, give_back, Restores, give_back-first_fit, give_back-Ordered,
  total-give_back, Ordered-above,
}
use xinu.Memory.FirstFit.{Apart}
use xinu.Memory.Get.{units, Granted, memget-first_fit}
use xinu.Memory.Link.{Gave, memfree_at_link, above_free, linked-Gave}

-- What a call of `memfree` promises.
pub record Freed (m : Memory) (bs : Blocks) (a nbytes : ℕ) (m' : Memory) : Type 0 where
  pub ran : memfree a nbytes m ≡ some (true, m')
  pub heap : IsHeap m' (give_back a (units nbytes) bs)
  pub memheap : m'.memheap ≡ m.memheap
  pub maxaddr : m'.maxaddr ≡ m.maxaddr

module _ (m : Memory) (bs : Blocks) (a nbytes : ℕ) (v : IsHeap m bs) (aligned : a % 8 ≡ 0)
    (low : m.memheap ≤ a) (some_bytes : 0 < nbytes) (fit : a + units nbytes ≤ m.maxaddr)
    (apart : Apart a (units nbytes) bs) where
  memfree_run :
      (p q : ℕ) (m' : Memory)
      → memfree_loop (rounds m) m.memlist (m.block m.memlist).next a m ≡ some (p, q)
      → memfree_at p q a (units nbytes) m ≡ (true, m')
      → memfree a nbytes m ≡ some (true, m')
  unfolding memfree roundmb
  memfree_run p q m' stop done =
      let rounded : (7 + nbytes) % u32 / 8 * 8 ≡ units nbytes = omega (arith, fit, v.inside) in
      let inside : (nbytes == 0 || ltb a m.memheap || ltb m.maxaddr a) ≡ false =
        ground (arith, fit, some_bytes, low) in
      rw (inside, stop, rounded, done) refl

  Gave-IsHeap :
      (m' : Memory) (p lo : ℕ)
      → Chain m' (m'.block m.memlist).next (give_back a (units nbytes) bs)
      → Gave m m' p lo (units nbytes)
      → IsHeap m' (give_back a (units nbytes) bs)
  Gave-IsHeap m' p lo chain g =
      let un : units nbytes % 8 ≡ 0 = omega arith in
      let up : 0 < units nbytes = omega (arith, some_bytes) in
      let o : Ordered m.memheap (give_back a (units nbytes) bs) m.maxaddr =
        give_back-Ordered a (units nbytes) m.maxaddr aligned up un fit m.memheap bs low apart
          v.ordered in
      let sum =
        total-le m.memheap m.maxaddr (give_back a (units nbytes) bs) o (omega (arith, low, fit)) in
      let all = total-give_back a (units nbytes) bs in
      record {
        null = omega (arith, v.null, g.memlist);
        outside = omega (arith, v.outside, g.memlist, g.memheap);
        inside = omega (arith, v.inside, g.maxaddr);
        chain = rw g.memlist chain;
        ordered = rw (g.memheap, g.maxaddr) o;
        free = rw g.memlist (g.free ∙ omega (arith, v.free, sum, all, v.inside));
      }

  front :
      (ltb (m.block m.memlist).next a && not ((m.block m.memlist).next == 0)) ≡ false
      → Ordered (a + units nbytes) bs m.maxaddr
      → (m' : Memory) × Freed m bs a nbytes m'
  unfolding memfree_loop top_of
  front stays o =
      let n = units nbytes in
      let q = (m.block m.memlist).next in
      let up : 0 < n = omega (arith, some_bytes) in
      let null : (m.memlist == m.memlist) ≡ true = ground arith in
      let nonzero : (0 == a) ≡ false = ground (arith, v.null, v.outside, low) in
      let (m', e, chain, gave) =
        linked-Gave m m.memlist a n q m.maxaddr bs (omega (arith, v.outside, low))
          (omega (arith, v.outside, low)) v.chain o up fit v.inside in
      (
        m',
        record {
          ran = memfree_run m.memlist q m' (ground (arith, stays)) (
              memfree_at_link m m.memlist a n q m.maxaddr bs (ground (arith, null))
                (ground (arith, null, nonzero))
                (above_free m m.memlist a n q m.maxaddr bs v.chain o (omega (arith, fit, v.inside)))
              ∙ ap (λ x. (true, x)) e);
          heap =
              Gave-IsHeap m' m.memlist a
                (subst (Chain m' (m'.block m.memlist).next)
                  (sym (give_back-grow a n m.maxaddr bs up o)) chain)
                gave;
          memheap = gave.memheap;
          maxaddr = gave.maxaddr;
        },
      )

  behind :
      (f e k : ℕ) (cs : Blocks)
      → m.maxaddr ≡ f
      → bs ≡ (e, k) ∷ cs
      → e < a
      → (m' : Memory) × Freed m bs a nbytes m'
  unfolding memfree_loop
  behind f e k cs fuel shape more =
      let n = units nbytes in
      let c = subst (Chain m (m.block m.memlist).next) shape v.chain in
      let o = subst (λ l. Ordered m.memheap l m.maxaddr) shape v.ordered in
      let ap' = subst (Apart a n) shape apart in
      let up : 0 < n = omega (arith, some_bytes) in
      let r =
        memfree_walk m a n m.maxaddr up fit v.inside m.maxaddr e k (m.block e).next cs (enough cs o)
          (omega (arith, v.outside, o.0)) more o.2 c.1 refl c.2 o.5 ap' in
      let go : (not (e == 0) && ltb e a) ≡ true = ground (arith, o.0, v.outside) in
      (
        r.after,
        record {
          ran = memfree_run r.prev r.next r.after (rw (c.0, go) r.stop) r.done;
          heap =
              Gave-IsHeap r.after e e
                (subst (λ q. Chain r.after q (give_back a n bs))
                  (sym (
                    r.gave.nexts m.memlist (omega (arith, v.outside, o.0))
                      (omega (arith, v.outside, o.0))
                    ∙ c.0))
                  (subst (λ l. Chain r.after e (give_back a n l)) (sym shape) r.chain))
                r.gave;
          memheap = r.gave.memheap;
          maxaddr = r.gave.maxaddr;
        },
      )
    where
      enough : (cs : Blocks) → Ordered m.memheap ((e, k) ∷ cs) m.maxaddr → length cs < m.maxaddr
      enough [] o = omega (arith, o.2, o.4)
      enough ((c, j) ∷ cs) o = omega (
        arith,
        length-le (suc (e + k)) m.maxaddr ((c, j) ∷ cs) o.5 (omega (arith, o.5.0, o.5.4)),
        o.2,
      )

-- `memfree` of bytes of the heap that are in whole units and in no free block answers OK. The free
-- list is then that of before with these bytes given back: still in order, joined with the
-- neighbours they touch, and the account of free bytes is right. Exactly these bytes are free
-- beside those that were.
pub memfree-Freed :
    (m : Memory) (bs : Blocks) (a nbytes : ℕ)
    → IsHeap m bs
    → a % 8 ≡ 0
    → m.memheap ≤ a
    → 0 < nbytes
    → a + units nbytes ≤ m.maxaddr
    → Apart a (units nbytes) bs
    → (m' : Memory) × Freed m bs a nbytes m'
      × ((x : ℕ)
          → covers x (give_back a (units nbytes) bs)
            ≡ ((leb a x && ltb x (a + units nbytes)) || covers x bs))
memfree-Freed m bs a nbytes v aligned low pos fit apart =
    let (m', freed) = go bs refl in (m', freed, λ x. covers-give_back x a (units nbytes) bs)
  where
    go : (l : Blocks) → bs ≡ l → (m' : Memory) × Freed m bs a nbytes m'
    go [] e =
        front m bs a nbytes v aligned low pos fit apart
          (ground (arith, subst (Chain m (m.block m.memlist).next) e v.chain))
          (subst (λ l. Ordered (a + units nbytes) l m.maxaddr) (sym e) tt)
    go ((b, l) ∷ cs) e = elim (Bool-cases (ltb b a)) [
      | inl more ↦
          behind m bs a nbytes v aligned low pos fit apart m.maxaddr b l cs refl e (ground arith)
      | inr far ↦
          let c = subst (Chain m (m.block m.memlist).next) e v.chain in
          let o = subst (λ l. Ordered m.memheap l m.maxaddr) e v.ordered in
          front m bs a nbytes v aligned low pos fit apart (ground (arith, c.0, far)) (
            Ordered-above a a (units nbytes) m.maxaddr bs (omega arith) (omega (arith, pos)) apart (
              subst (λ l. Ordered a l m.maxaddr) (sym e)
                (ground (arith, far), o.1, o.2, o.3, o.4, o.5)))
    ]

-- Taking bytes and giving them back restores the list of free blocks: `memget` of a request that
-- does not wrap around, when it finds a block, and `memfree` of what it answered, leave a heap with
-- the same blocks as before.
pub memget-memfree :
    (m : Memory) (bs : Blocks) (nbytes a : ℕ) (bs' : Blocks)
    → IsHeap m bs
    → 0 < nbytes
    → nbytes + 7 < u32
    → first_fit (units nbytes) bs ≡ some (a, bs')
    → (m1 : Memory) × (m2 : Memory) × (memget nbytes m ≡ some (a, m1))
      × (memfree a nbytes m1 ≡ some (true, m2))
      × IsHeap m2 bs
memget-memfree m bs nbytes a bs' v pos small e =
    let n = units nbytes in
    let un : n % 8 ≡ 0 = omega arith in
    let up : 0 < n = omega (arith, pos) in
    let (m1, ran, heap, gives, low, high) =
      subst (λ o. Granted m n bs o (memget nbytes m)) e
        (memget-first_fit m bs nbytes v pos small) in
    let back =
      subst (λ o. Restores n bs o) e
        (give_back-first_fit n un up m.memheap m.maxaddr bs v.ordered) in
    let (m2, freed, _) =
      memfree-Freed m1 bs' a nbytes heap gives.aligned (omega (arith, low, gives.from)) pos
        (omega (arith, high, gives.fits)) gives.apart in
    (m1, m2, ran, freed.ran, subst (IsHeap m2) back freed.heap)
