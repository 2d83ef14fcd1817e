-- ===== src/Memory.antt =====
-- The kernel's heap: system/memget.c, system/memfree.c, system/stkget.c and include/memory.h. The
-- free blocks form a list through the memory itself, by address; NULL is address 0.
pub mod Blocks
pub mod Coalesce
pub mod FirstFit
pub mod Free
pub mod Get
pub mod Highest
pub mod LastFit
pub mod Link
pub mod Stack
pub mod Walk
use xinu.Base.{
  ℕ, zero, suc, ◌+◌, ◌-◌, ◌*◌, ◌/◌, ◌%◌, ◌^◌, Bool, true, false, ◌&&◌, ◌||◌, not, Option, none,
  some, ltb, leb, ◌==◌, if◌then◌else◌,
}

-- struct memblock
pub record Block : Type 0 where
  pub next : ℕ
  pub length : ℕ

-- The memory by address, the address of the variable `memlist`, and the bounds of the heap.
pub record Memory : Type 0 where
  pub block : ℕ → Block
  pub memlist : ℕ
  pub memheap : ℕ
  pub maxaddr : ℕ

abbrev pub u32 : ℕ
u32 = 2 ^ 32

-- (void *)SYSERR
abbrev pub nowhere : ℕ
nowhere = u32 - 1

unfoldable pub roundmb : ℕ → ℕ
roundmb x = (7 + x) % u32 / 8 * 8

unfoldable pub truncmb : ℕ → ℕ
truncmb x = x % u32 / 8 * 8

abbrev pub put_block : ℕ → Block → Memory → Memory
put_block a b m = record m { block = λ i. if i == a then b else m.block i }

abbrev pub set_next : ℕ → ℕ → Memory → Memory
set_next a n m = put_block a (record (m.block a) { next = n }) m

abbrev pub set_length : ℕ → ℕ → Memory → Memory
set_length a n m = put_block a (record (m.block a) { length = n }) m

-- `memlist.length -= nbytes`
abbrev pub less_free : ℕ → Memory → Memory
less_free nbytes m = set_length m.memlist (((m.block m.memlist).length + u32 - nbytes) % u32) m

-- A walk is given one round for each address and one more.
abbrev pub rounds : Memory → ℕ
rounds m = suc m.maxaddr

-- The upper part of a block that is larger than the request stays free.
unfoldable pub split_block : ℕ → ℕ → ℕ → Memory → Memory
split_block prev curr nbytes m =
    let leftover : ℕ = (curr + nbytes) % u32 in
    let m1 : Memory = set_next prev leftover m in
    let m2 : Memory = set_next leftover (m1.block curr).next m1 in
    less_free nbytes (set_length leftover (((m2.block curr).length + u32 - nbytes) % u32) m2)

unfoldable pub take_block : ℕ → ℕ → ℕ → Memory → Memory
take_block prev curr nbytes m = less_free nbytes (set_next prev (m.block curr).next m)

-- `none` is a walk without rounds left.
unfoldable pub memget_loop : ℕ → ℕ → ℕ → ℕ → Memory → Option (ℕ × Memory)
memget_loop zero prev curr nbytes m = none
memget_loop (suc fuel) prev curr nbytes m =
    let rest = memget_loop fuel curr (m.block curr).next nbytes m in
    if curr == 0
    then some (nowhere, m)
    else if (m.block curr).length == nbytes
    then some (curr, take_block prev curr nbytes m)
    else if ltb nbytes (m.block curr).length
    then some (curr, split_block prev curr nbytes m)
    else rest

unfoldable pub memget : ℕ → Memory → Option (ℕ × Memory)
memget nbytes m =
    if nbytes == 0
    then some (nowhere, m)
    else memget_loop (rounds m) m.memlist (m.block m.memlist).next (roundmb nbytes) m

-- The walk of `memfree`: the last free block below `block`, and the first that is not.
unfoldable pub memfree_loop : ℕ → ℕ → ℕ → ℕ → Memory → Option (ℕ × ℕ)
memfree_loop zero prev next block m = none
memfree_loop (suc fuel) prev next block m =
    let rest = memfree_loop fuel next (m.block next).next block m in
    if not (next == 0) && ltb next block then rest else some (prev, next)

-- The end of the block below, or NULL.
unfoldable pub top_of : ℕ → Memory → ℕ
top_of prev m = if prev == m.memlist then 0 else (prev + (m.block prev).length) % u32

-- Coalescing with the block below, or linking the block in; the block that results.
unfoldable pub merge_prev : ℕ → ℕ → ℕ → ℕ → Memory → ℕ × Memory
merge_prev prev next block nbytes m =
    if top_of prev m == block
    then (prev, set_length prev (((m.block prev).length + nbytes) % u32) m)
    else (block, set_next prev block (put_block block (record { next = next; length = nbytes }) m))

-- Coalescing with the block above.
unfoldable pub merge_next : ℕ → ℕ → Memory → Memory
merge_next block next m =
    if (block + (m.block block).length) % u32 == next
    then (let m1 : Memory =
          set_length block (((m.block block).length + (m.block next).length) % u32) m in
        set_next block (m1.block next).next m1)
    else m

-- `true` is OK, `false` SYSERR.
unfoldable pub memfree_at : ℕ → ℕ → ℕ → ℕ → Memory → Bool × Memory
memfree_at prev next block nbytes m =
    if ltb block (top_of prev m) || (not (next == 0) && ltb next ((block + nbytes) % u32))
    then (false, m)
    else let m1 : Memory = set_length m.memlist (((m.block m.memlist).length + nbytes) % u32) m in
      let (block', m2) = merge_prev prev next block nbytes m1 in (true, merge_next block' next m2)

unfoldable pub memfree : ℕ → ℕ → Memory → Option (Bool × Memory)
memfree memptr nbytes m =
    if nbytes == 0 || ltb memptr m.memheap || ltb m.maxaddr memptr
    then some (false, m)
    else elim (memfree_loop (rounds m) m.memlist (m.block m.memlist).next memptr m) [
      | none ↦ none
      | some (prev, next) ↦ some (memfree_at prev next memptr (roundmb nbytes) m)
    ]

-- The walk of `stkget`: the highest block that fits, and the one before it.
unfoldable pub stkget_loop : ℕ → ℕ → ℕ → ℕ → Option (ℕ × ℕ) → Memory → Option (Option (ℕ × ℕ))
stkget_loop zero prev next nbytes fits m = none
stkget_loop (suc fuel) prev next nbytes fits m =
    let fits' : Option (ℕ × ℕ) =
      if leb nbytes (m.block next).length then some (prev, next) else fits in
    let rest = stkget_loop fuel next (m.block next).next nbytes fits' m in
    if next == 0 then some fits else rest

-- The block's top portion, as the address of its last word.
unfoldable pub stkget_at : ℕ → ℕ → ℕ → Memory → ℕ × Memory
stkget_at prev fits nbytes m =
    if nbytes == (m.block fits).length
    then ((fits + nbytes + u32 - 4) % u32, less_free nbytes (set_next prev (m.block fits).next m))
    else let m1 : Memory = set_length fits (((m.block fits).length + u32 - nbytes) % u32) m in
      ((fits + (m1.block fits).length + nbytes + u32 - 4) % u32, less_free nbytes m1)

unfoldable pub stkget : ℕ → Memory → Option (ℕ × Memory)
stkget nbytes m =
    if nbytes == 0
    then some (nowhere, m)
    else elim (stkget_loop (rounds m) m.memlist (m.block m.memlist).next (roundmb nbytes) none m) [
      | none ↦ none
      | some none ↦ some (nowhere, m)
      | some (some (prev, fits)) ↦ some (stkget_at prev fits (roundmb nbytes) m)
    ]

-- stkfree(p, len) of include/memory.h
unfoldable pub stkfree : ℕ → ℕ → Memory → Option (Bool × Memory)
stkfree p len m = memfree ((p + u32 - roundmb len + 4) % u32) (roundmb len) m
