-- ===== src/Memory/Stack.antt =====
-- `stkget` and `stkfree` of system/stkget.c and include/memory.h against last fit on the list of
-- free blocks.
use xinu.Base.{
  All, ℕ, ◌+◌, ◌-◌, ◌%◌, ◌≤◌, ◌<◌, ◌≡◌, refl, ◌∙◌, ap, subst, sym, Option, none, some, ◌==◌, arith,
  true, false,
}
use xinu.Memory.{Memory, u32, nowhere, roundmb, rounds, stkget, stkget_loop, stkget_at, stkfree}
use xinu.Memory.Blocks.{Blocks, IsHeap, rounds_enough}
use xinu.Memory.Coalesce.{Restores, give_back}
use xinu.Memory.FirstFit.{Gives, Served}
use xinu.Memory.Free.{memfree-Freed}
use xinu.Memory.Get.{Took-IsHeap, units}
use xinu.Memory.Highest.{walked, stkget_loop-walked, last_word, Stacked, walked-Stacked}
use xinu.Memory.LastFit.{last_fit, last_fit-Served, give_back-last_fit}

pub roundmb-units : (x : ℕ) → x + 7 < u32 → roundmb x ≡ units x
unfolding roundmb
roundmb-units x h = omega arith

-- What `stkget` does where the walk ended.
abbrev taken_at : Memory → ℕ → Option (ℕ × ℕ) → Option (ℕ × Memory)
taken_at m n none = some (nowhere, m)
taken_at m n (some (prev, fits)) = some (stkget_at prev fits n m)

stkget_run :
    (m : Memory) (nbytes n : ℕ) (o : Option (ℕ × ℕ))
    → 0 < nbytes
    → roundmb nbytes ≡ n
    → stkget_loop (rounds m) m.memlist (m.block m.memlist).next n none m ≡ some o
    → stkget nbytes m ≡ taken_at m n o
unfolding stkget
stkget_run m nbytes n o pos rounded walk =
    let nz : (nbytes == 0) ≡ false = ground arith in
    subst (λ k. stkget nbytes m ≡ taken_at m k o) rounded
      (rw
        (
          nz,
          subst (λ k. stkget_loop (rounds m) m.memlist (m.block m.memlist).next k none m ≡ some o)
              (sym rounded) walk,
        )
        (each o))
  where
    each :
        (o : Option (ℕ × ℕ))
        → elim o [
          | none ↦ some (nowhere, m)
          | some (prev, fits) ↦ some (stkget_at prev fits (roundmb nbytes) m)
        ]
          ≡ taken_at m (roundmb nbytes) o
    each none = refl
    each (some (prev, fits)) = refl

abbrev pub Stack : Memory → ℕ → Blocks → Option (ℕ × Blocks) → Option (ℕ × Memory) → Type 0
Stack m n bs none r = (r ≡ some (nowhere, m)) × All (λ b. b.1 < n) bs
Stack m n bs (some (a, bs')) r =
    (m' : Memory) × (r ≡ some (last_word a n, m'))
    × IsHeap m' bs'
    × Gives m.memheap m.maxaddr n bs a bs'
    × (m'.memheap ≡ m.memheap)
    × (m'.maxaddr ≡ m.maxaddr)
    × (m'.memlist ≡ m.memlist)

-- `stkget` is last fit, for a request of at least one byte that rounding up does not carry beyond
-- 32 bits. When a free block is large enough it answers the last word of the bytes that last fit
-- gives: they were free, are aligned, and lie in no block that is left free, and the account of
-- free bytes is less by what was taken. Otherwise it answers SYSERR and changes nothing.
pub stkget-last_fit :
    (m : Memory) (bs : Blocks) (nbytes : ℕ)
    → IsHeap m bs
    → 0 < nbytes
    → nbytes + 7 < u32
    → Stack m (units nbytes) bs (last_fit (units nbytes) bs) (stkget nbytes m)
stkget-last_fit m bs nbytes v pos small =
    let n = units nbytes in
    let un : n % 8 ≡ 0 = omega arith in
    let np : 4 ≤ n = omega (arith, pos) in
    let rounded = roundmb-units nbytes small in
    let walk =
      stkget_loop-walked m m.memheap m.maxaddr n (rounds m) m.memlist (m.block m.memlist).next bs
        none (rounds_enough m.memheap m.maxaddr bs v.ordered) (omega (arith, v.outside)) v.chain
        v.ordered in
    subst (Stack m n bs (last_fit n bs))
      (sym (stkget_run m nbytes n (walked n m.memlist bs none) pos rounded walk))
      (go n (last_fit n bs) (last_fit-Served n un (omega arith) m.memheap m.maxaddr bs v.ordered) (
        walked-Stacked m m.maxaddr n v.inside np m.memlist m.memheap bs none v.outside v.outside
          v.chain v.ordered))
  where
    go :
        (n : ℕ) (o : Option (ℕ × Blocks))
        → Served m.memheap m.maxaddr n bs o
        → Stacked m m.memlist m.memheap n bs none o
        → Stack m n bs o (taken_at m n (walked n m.memlist bs none))
    go n none s e = (ap (taken_at m n) e, s)
    go n (some (a, bs')) s (p, f, m', e, done, took) = (
      m',
      ap (taken_at m n) e ∙ ap some done,
      Took-IsHeap m m' n a bs bs' v s took,
      s,
      took.memheap,
      took.maxaddr,
      took.memlist,
    )

-- Taking a stack and giving it back restores the list of free blocks: `stkget` of a request that
-- does not wrap around, when it finds a block, and `stkfree` of what it answered, leave a heap with
-- the same blocks as before.
pub stkget-stkfree :
    (m : Memory) (bs : Blocks) (nbytes a : ℕ) (bs' : Blocks)
    → IsHeap m bs
    → 0 < nbytes
    → nbytes + 7 < u32
    → last_fit (units nbytes) bs ≡ some (a, bs')
    → (m1 : Memory) × (m2 : Memory) × (stkget nbytes m ≡ some (last_word a (units nbytes), m1))
      × (stkfree (last_word a (units nbytes)) nbytes m1 ≡ some (true, m2))
      × IsHeap m2 bs
unfolding stkfree
stkget-stkfree m bs nbytes a bs' v pos small e =
    let n = units nbytes in
    let un : n % 8 ≡ 0 = omega arith in
    let up : 0 < n = omega (arith, pos) in
    let (m1, ran, heap, gives, low, high, _) =
      subst (λ o. Stack m n bs o (stkget nbytes m)) e (stkget-last_fit m bs nbytes v pos small) in
    let back =
      subst (λ o. Restores n bs o) e
        (give_back-last_fit n un up m.memheap m.maxaddr bs v.ordered) in
    let twice : units n ≡ n = omega arith in
    let (m2, freed, _) =
      memfree-Freed m1 bs' a n heap gives.aligned (omega (arith, low, gives.from)) up
        (omega (arith, high, gives.fits)) (rw twice gives.apart) in
    let rounded = roundmb-units nbytes small in
    let first : (last_word a n + u32 - n + 4) % u32 ≡ a = omega (arith, gives.fits, v.inside, up) in
    (
      m1,
      m2,
      ran,
      rw (rounded, first) freed.ran,
      subst (IsHeap m2) (ap (λ k. give_back a k bs') twice ∙ back) freed.heap,
    )
