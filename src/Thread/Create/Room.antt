-- ===== src/Thread/Create/Room.antt =====
-- `create` of system/create.c in a build without floating point, by the room in the stack.
use xinu.Base.{
  ℕ, suc, ◌+◌, ◌-◌, ◌*◌, ◌≤◌, ◌<◌, ◌≡◌, inl, ℤ, pos, true, List, [], ◌∷◌, All, length, some, arith,
  subst,
}
use xinu.Kernel.{nthread, Kernel, ok, is_free}
use xinu.Memory.{u32}
use xinu.Memory.Blocks.{Blocks, Ordered, IsHeap}
use xinu.Memory.FirstFit.{Apart, Served}
use xinu.Memory.Get.{units}
use xinu.Memory.Highest.{last_word}
use xinu.Memory.LastFit.{last_fit, last_fit-Served}
use xinu.Strings.{Bytes}
use xinu.Strings.Length.{Ends}
use xinu.Thread.Context.{Fpu, context_at, context_words, max_reg_args}
use xinu.Thread.Context.Bounds.{written_words}
use xinu.Thread.Context.Layout.{context_at-Placed}
use xinu.Thread.Create.{create, stack_size}
use xinu.Thread.Create.Created.{Created, Clear, create-Created}

Clear-Apart :
    (a n low words lo hi : ℕ) (bs : Blocks)
    → a ≤ low
    → low + 4 * words ≤ a + n
    → Ordered lo bs hi
    → Apart a n bs
    → All (Clear low words) bs
Clear-Apart a n low words lo hi [] above inside o apart = tt
Clear-Apart a n low words lo hi ((b, k) ∷ bs) above inside o apart = (
  ground (arith, apart.0, o.2, o.3),
  Clear-Apart a n low words (suc (b + k)) hi bs above inside o.5 apart.1,
)

-- `create` as in Created, in a build without floating point: in place of the condition on the headers it
-- is enough that the stack has room for the context, four words more, and the arguments that do not
-- fit in registers.
create_soft-Created :
    (procaddr : ℤ) (ssize : ℕ) (priority : ℤ) (fuel len : ℕ) (name : Bytes) (args : List ℤ)
    (initret : ℤ) (k : Kernel) (bs : Blocks) (a : ℕ) (bs' : Blocks) (x : ℕ)
    → IsHeap k.mem bs
    → ssize + 7 < u32
    → last_fit (units (stack_size ssize)) bs ≡ some (a, bs')
    → Ends name len
    → len < fuel
    → x < nthread
    → is_free (k.thrtab x).state ≡ true
    → 4 * (context_words + 4 + (length args - max_reg_args)) ≤ stack_size ssize
    → (tid : ℕ) × (k' : Kernel) × (create Fpu.soft procaddr ssize priority fuel name args initret k
        ≡ ok (pos tid) k')
      × Created k Fpu.soft procaddr ssize priority len name args initret bs'
          (last_word a (units (stack_size ssize)))
          tid
          k'
create_soft-Created procaddr ssize priority fuel len name args initret k bs a bs' x v small e ends
      enough lt vac room =
    let n = units (stack_size ssize) in
    let nargs = length args in
    let pos_size : 0 < stack_size ssize = omega (arith, room) in
    let gives = subst (Served k.mem.memheap k.mem.maxaddr n bs) e (
      last_fit-Served n (omega arith) (omega (arith, pos_size)) k.mem.memheap k.mem.maxaddr bs
        v.ordered) in
    let p =
      context_at-Placed Fpu.soft (last_word a n) nargs (omega (arith, gives.aligned, room))
        (omega (arith, gives.fits, v.inside)) (omega (arith, room)) in
    let low = context_at Fpu.soft (last_word a n) nargs in
    let above : a + 8 ≤ low = omega (arith, p.close, room) in
    let inside : low + 4 * written_words Fpu.soft nargs ≤ a + n = omega (arith, p.below, room) in
    create-Created Fpu.soft procaddr ssize priority fuel len name args initret k bs a bs' x v small
      e ends enough lt vac
      (
        inl (omega (arith, above, gives.from, v.outside)),
        Clear-Apart a n low (written_words Fpu.soft nargs) k.mem.memheap k.mem.maxaddr bs'
            (omega (arith, above)) inside gives.rest gives.apart,
      )
