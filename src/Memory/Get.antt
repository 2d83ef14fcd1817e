-- ===== src/Memory/Get.antt =====
-- `memget` of system/memget.c against first fit on the list of free blocks.
use xinu.Base.{
  All, ℕ, zero, suc, ◌+◌, ◌-◌, ◌*◌, ◌/◌, ◌%◌, ◌≤◌, ◌<◌, ◌≡◌, ◌≢◌, refl, ◌∙◌, ap, subst, sym, [],
  ◌∷◌, Option, none, some, ◌==◌, ltb, arith, length, Bool-cases, inl, inr, false, lt→ltb,
}
use xinu.Memory.{
  Memory, u32, nowhere, roundmb, rounds, memget, memget_loop, take_block, split_block,
}
use mathlib.Core.Path.{fun_ext}
use xinu.Memory.FirstFit.{Gives, Served, first_fit-Served}
use xinu.Memory.Blocks.{Blocks, Chain, Ordered, IsHeap, first_fit, rounds_enough, total-le}

-- The chain does not see writes below its blocks.
pub Chain-frame :
    (m m' : Memory) (p lo hi : ℕ) (bs : Blocks)
    → ((i : ℕ) → lo ≤ i → m'.block i ≡ m.block i)
    → Ordered lo bs hi
    → Chain m p bs
    → Chain m' p bs
Chain-frame m m' p lo hi [] same o c = c
Chain-frame m m' p lo hi ((a, l) ∷ bs) same o c = (
  c.0,
  ground (arith, same a),
  ground (
    arith,
    same a,
    Chain-frame m m' (m.block a).next (suc (a + l)) hi bs (λ i h. same i (omega arith)) o.5 c.2,
  ),
)

-- What a walk that took `n` bytes changed: the link at `prev`, the account in `memlist`, and
-- nothing else below `lo`.
pub record Took (m m' : Memory) (prev lo n : ℕ) (bs : Blocks) : Type 0 where
  pub chain : Chain m' (m'.block prev).next bs
  pub nexts : (i : ℕ) → i < lo → i ≢ prev → (m'.block i).next ≡ (m.block i).next
  pub lengths : (i : ℕ) → i < lo → i ≢ m.memlist → (m'.block i).length ≡ (m.block i).length
  pub free : (m'.block m.memlist).length ≡ ((m.block m.memlist).length + u32 - n) % u32
  pub memlist : m'.memlist ≡ m.memlist
  pub memheap : m'.memheap ≡ m.memheap
  pub maxaddr : m'.maxaddr ≡ m.maxaddr

module _ (m : Memory) (prev lo hi n : ℕ) where
  pub take_block-Took :
      (a l : ℕ) (bs : Blocks)
      → prev < lo
      → m.memlist < lo
      → Chain m a ((a, l) ∷ bs)
      → Ordered lo ((a, l) ∷ bs) hi
      → Took m (take_block prev a n m) prev lo n bs
  unfolding take_block
  take_block-Took a l bs pl ml c o = record {
    chain =
        subst (λ p. Chain (take_block prev a n m) p bs) (sym next_prev)
          (Chain-frame m (take_block prev a n m) (m.block a).next (suc (a + l)) hi bs
            (λ i h. ground arith) o.5 c.2);
    nexts = λ i h ne. ground arith;
    lengths = λ i h ne. ground arith;
    free = ground arith;
    memlist = refl;
    memheap = refl;
    maxaddr = refl;
  }
    where
      next_prev : ((take_block prev a n m).block prev).next ≡ (m.block a).next
      next_prev = ground arith

  split_block-Took :
      (a l : ℕ) (bs : Blocks)
      → prev < lo
      → m.memlist < lo
      → 0 < n
      → n < l
      → hi < u32
      → Chain m a ((a, l) ∷ bs)
      → Ordered lo ((a, l) ∷ bs) hi
      → Took m (split_block prev a n m) prev lo n ((a + n, l - n) ∷ bs)
  unfolding split_block
  split_block-Took a l bs pl ml pos lt hi_lt c o = record {
    chain = (
      next_prev,
      length_left,
      subst (λ p. Chain (split_block prev a n m) p bs) (sym next_left)
          (Chain-frame m (split_block prev a n m) (m.block a).next (suc (a + l)) hi bs
            (λ i h. ground arith) o.5 c.2),
    );
    nexts = λ i h ne. ground arith;
    lengths = λ i h ne. ground arith;
    free = ground arith;
    memlist = refl;
    memheap = refl;
    maxaddr = refl;
  }
    where
      next_prev : ((split_block prev a n m).block prev).next ≡ a + n
      next_prev = ground arith

      next_left : ((split_block prev a n m).block (a + n)).next ≡ (m.block a).next
      next_left = ground arith

      length_left : ((split_block prev a n m).block (a + n)).length ≡ l - n
      length_left = ground arith

-- The outcome of a walk over blocks of which `o` is the first fit.
abbrev Fits : Memory → ℕ → ℕ → ℕ → Option (ℕ × Blocks) → Option (ℕ × Memory) → Type 0
Fits m prev lo n none r = r ≡ some (nowhere, m)
Fits m prev lo n (some (a, bs)) r = (m' : Memory) × (r ≡ some (a, m')) × Took m m' prev lo n bs

module _ (m : Memory) (hi n : ℕ) where
  pub Took-behind :
      (m' : Memory) (prev lo a l : ℕ) (rest : Blocks)
      → prev < lo
      → m.memlist < lo
      → lo ≤ a
      → (m.block prev).next ≡ a
      → (m.block a).length ≡ l
      → Took m m' a (suc (a + l)) n rest
      → Took m m' prev lo n ((a, l) ∷ rest)
  Took-behind m' prev lo a l rest pl ml la link len t = record {
    chain = (
      t.nexts prev (omega arith) (omega arith) ∙ link,
      t.lengths a (omega arith) (omega arith) ∙ len,
      t.chain,
    );
    nexts = λ i h ne. t.nexts i (omega arith) (omega arith);
    lengths = λ i h ne. t.lengths i (omega arith) ne;
    free = t.free;
    memlist = t.memlist;
    memheap = t.memheap;
    maxaddr = t.maxaddr;
  }

  Fits-behind :
      (prev lo a l : ℕ) (o : Option (ℕ × Blocks)) (r : Option (ℕ × Memory))
      → prev < lo
      → m.memlist < lo
      → lo ≤ a
      → (m.block prev).next ≡ a
      → (m.block a).length ≡ l
      → Fits m a (suc (a + l)) n o r
      → Fits m prev lo n (elim o [ none ↦ none | some (r, rest) ↦ some (r, (a, l) ∷ rest) ]) r
  Fits-behind prev lo a l none r pl ml la link len f = f
  Fits-behind prev lo a l (some (b, rest)) r pl ml la link len (m', e, t) =
      (m', e, Took-behind m' prev lo a l rest pl ml la link len t)

  memget_loop-Fits :
      (fuel prev lo p : ℕ) (bs : Blocks)
      → length bs < fuel
      → prev < lo
      → m.memlist < lo
      → 0 < n
      → hi < u32
      → (m.block prev).next ≡ p
      → Chain m p bs
      → Ordered lo bs hi
      → Fits m prev lo n (first_fit n bs) (memget_loop fuel prev p n m)
  unfolding memget_loop first_fit
  memget_loop-Fits zero prev lo p bs lt pl ml pos hu link c o = absurd (omega arith)
  memget_loop-Fits (suc fuel) prev lo p [] lt pl ml pos hu link c o = rw c
  memget_loop-Fits (suc fuel) prev lo p ((a, l) ∷ bs) lt pl ml pos hu link c o =
      let nonnull : (a == 0) ≡ false = ground arith in
      let link' : (m.block prev).next ≡ a = link ∙ c.0 in
      elim (Bool-cases (l == n)) [
        | inl same ↦
            rw (c.0, nonnull, c.1, same)
              (
                take_block prev a n m,
                refl,
                take_block-Took m prev lo hi n a l bs pl ml (refl, c.1, c.2) o,
              )
        | inr other ↦ elim (Bool-cases (ltb n l)) [
          | inl more ↦
              rw (c.0, nonnull, c.1, other, more)
                (
                  split_block prev a n m,
                  refl,
                  split_block-Took m prev lo hi n a l bs pl ml pos (ground arith) hu
                      (refl, c.1, c.2) o,
                )
          | inr less ↦
              rw (c.0, nonnull, c.1, other, less)
                (Fits-behind prev lo a l (first_fit n bs) _ pl ml o.0 link' c.1 (
                  memget_loop-Fits fuel a (suc (a + l)) (m.block a).next bs (omega arith)
                    (omega arith) (omega arith) pos hu refl c.2 o.5))
        ]
      ]

-- The request in whole units of eight bytes.
abbrev pub units : ℕ → ℕ
units nbytes = (7 + nbytes) / 8 * 8

abbrev pub Granted : Memory → ℕ → Blocks → Option (ℕ × Blocks) → Option (ℕ × Memory) → Type 0
Granted m n bs none r = (r ≡ some (nowhere, m)) × All (λ b. b.1 < n) bs
Granted m n bs (some (a, bs')) r =
    (m' : Memory) × (r ≡ some (a, m'))
    × IsHeap m' bs'
    × Gives m.memheap m.maxaddr n bs a bs'
    × (m'.memheap ≡ m.memheap)
    × (m'.maxaddr ≡ m.maxaddr)

-- The heap after a walk took bytes that the blocks give out.
pub Took-IsHeap :
    (m m' : Memory) (n a : ℕ) (bs bs' : Blocks)
    → IsHeap m bs
    → Gives m.memheap m.maxaddr n bs a bs'
    → Took m m' m.memlist m.memheap n bs'
    → IsHeap m' bs'
Took-IsHeap m m' n a bs bs' v s t = record {
  null = omega (arith, v.null, t.memlist);
  outside = omega (arith, v.outside, t.memlist, t.memheap);
  inside = omega (arith, v.inside, t.maxaddr);
  chain = rw t.memlist t.chain;
  ordered = rw (t.memheap, t.maxaddr) s.rest;
  free = rw t.memlist (
      t.free
      ∙ omega (
        arith,
        v.free,
        s.sum,
        v.inside,
        s.fits,
        total-le m.memheap m.maxaddr bs v.ordered (omega (arith, s.from, s.fits)),
      ));
}

Granted-of-Fits :
    (m : Memory) (n : ℕ) (bs : Blocks) (o : Option (ℕ × Blocks)) (r : Option (ℕ × Memory))
    → IsHeap m bs
    → Served m.memheap m.maxaddr n bs o
    → Fits m m.memlist m.memheap n o r
    → Granted m n bs o r
Granted-of-Fits m n bs none r v s f = (f, s)
Granted-of-Fits m n bs (some (a, bs')) r v s (m', e, t) =
    (m', e, Took-IsHeap m m' n a bs bs' v s t, s, t.memheap, t.maxaddr)

-- `memget` is first fit, for a request of at least one byte that rounding up does not carry beyond
-- 32 bits. When a free block is large enough it answers the lowest address that first fit gives:
-- the bytes were free, are aligned, and lie in no block that is left free, and the account of free
-- bytes is less by what was taken. Otherwise it answers SYSERR and changes nothing.
pub memget-first_fit :
    (m : Memory) (bs : Blocks) (nbytes : ℕ)
    → IsHeap m bs
    → 0 < nbytes
    → nbytes + 7 < u32
    → Granted m (units nbytes) bs (first_fit (units nbytes) bs) (memget nbytes m)
unfolding memget roundmb
memget-first_fit m bs nbytes v pos small =
    let n = units nbytes in
    let un : n % 8 ≡ 0 = omega arith in
    let np : 0 < n = omega arith in
    let nz : (nbytes == 0) ≡ false = ground arith in
    let rounded : (7 + nbytes) % u32 / 8 * 8 ≡ n = omega arith in
    rw (nz, rounded)
      (Granted-of-Fits m n bs (first_fit n bs) _ v
        (first_fit-Served n un np m.memheap m.maxaddr bs v.ordered)
        (memget_loop-Fits m m.maxaddr n (rounds m) m.memlist m.memheap (m.block m.memlist).next bs
          (rounds_enough m.memheap m.maxaddr bs v.ordered) v.outside v.outside np v.inside refl
          v.chain v.ordered))

split_block_zero :
    (m : Memory) (p a l : ℕ)
    → a < u32
    → l < u32
    → (m.block m.memlist).length < u32
    → (m.block p).next ≡ a
    → (m.block a).length ≡ l
    → split_block p a 0 m ≡ m
unfolding split_block
split_block_zero m p a l au lu fu link len =
    ap (λ b. record m { block = b }) (fun_ext λ i. ground arith)

-- A request within seven bytes of 2^32 is rounded to 0: while a block is free, it is answered with
-- the address of the first one, and nothing changes.
pub memget_wraps :
    (m : Memory) (a l : ℕ) (bs : Blocks) (nbytes : ℕ)
    → IsHeap m ((a, l) ∷ bs)
    → u32 ≤ nbytes + 7
    → nbytes < u32
    → memget nbytes m ≡ some (a, m)
unfolding memget roundmb memget_loop
memget_wraps m a l bs nbytes v big lt =
    let o = v.ordered in
    let nz : (nbytes == 0) ≡ false = ground arith in
    let rounded : (7 + nbytes) % u32 / 8 * 8 ≡ 0 = omega arith in
    let nonnull : (a == 0) ≡ false = ground (arith, v.null, v.outside, o.0) in
    let other : (l == 0) ≡ false = ground (arith, o.2) in
    let sum = total-le m.memheap m.maxaddr ((a, l) ∷ bs) o (omega (arith, o.0, o.4)) in
    rw (nz, rounded, v.chain.0, nonnull, v.chain.1, other, lt→ltb 0 l o.2)
      (ap (λ k. some (a, k))
        (split_block_zero m m.memlist a l (omega (arith, o.4, v.inside))
          (omega (arith, o.4, v.inside)) (omega (arith, v.free, sum, v.inside)) v.chain.0
          v.chain.1))
