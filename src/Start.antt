-- ===== src/Start.antt =====
-- The start of the kernel: `sysinit` of system/initialize.c up to the clock, with `clkinit` of
-- system/platforms/arm-rpi/dispatch.c. The mailboxes and the devices come later in it.
pub mod Empty
pub mod Started
use xinu.Base.{ℕ, zero, suc, ◌+◌, ◌-◌, ◌%◌, pos, Bool, true, false, if◌then◌else◌, ◌==◌}
use xinu.Kernel.{
  nthread, nsem, ThreadState, Kernel, K, pure, ◌>>=◌, ◌>>◌, gets, modify, put_thrent, set_state,
}
use xinu.Memory.{Memory, u32, roundmb, truncmb, put_block, set_next, set_length}
use xinu.Monitor.{put_monent}
use xinu.Pool.{npool, put_pool}
use xinu.Queue.{queinit}
use xinu.Semaphore.{put_sement}
use xinu.Strings.{Bytes}
use xinu.Thread.Create.{set_name}

-- The heap is one free block between the bounds, in whole units.
unfoldable pub init_heap : Memory → Memory
init_heap m =
    let m1 : Memory = record m { memheap = roundmb m.memheap; maxaddr = truncmb m.maxaddr } in
    let size : ℕ = (m1.maxaddr + u32 - m1.memheap) % u32 in
    let m2 : Memory = set_length m.memlist size (set_next m.memlist m1.memheap m1) in
    put_block m1.memheap (record { next = 0; length = size }) m2

unfoldable pub init_threads : ℕ → K (Unit {0})
init_threads zero = pure tt
init_threads (suc i) = do init_threads i; set_state (pos i) ThreadState.free

-- "prnull"
abbrev pub prnull : Bytes
prnull i =
    if i == 0
    then 112
    else if i == 1
    then 114
    else if i == 2
    then 110
    else if i == 3
    then 117
    else if i == 4
    then 108
    else if i == 5
    then 108
    else 0

-- `end` is the address of the symbol `_end`.
unfoldable pub null_thread : ℕ → K (Unit {0})
null_thread end = do
  put_thrent (pos 0) (λ t. record t { state = ThreadState.curr; prio = pos 0 })
  set_name 7 prnull (pos 0)
  heap ← gets (λ k. k.mem.memheap)
  put_thrent (pos 0)
      (λ t. record t { stkbase = end; stklen = (heap + u32 - end) % u32; stkptr = 0 })
  modify (λ k. record k { thrcurrent = pos 0 })

unfoldable pub init_semaphores : ℕ → K (Unit {0})
init_semaphores zero = pure tt
init_semaphores (suc i) = do
  init_semaphores i
  put_sement i (λ s. record s { used = false })
  queue ← queinit
  put_sement i (λ s. record s { queue = queue })

unfoldable pub init_monitors : ℕ → ℕ → K (Unit {0})
init_monitors nmon zero = pure tt
init_monitors nmon (suc i) = do
  init_monitors nmon i
  put_monent nmon i (λ m. record m { used = false })

unfoldable pub init_pools : ℕ → K (Unit {0})
init_pools zero = pure tt
init_pools (suc i) = do init_pools i; put_pool i (λ b. record b { used = false })

-- The sleep queue and the ticks; the timer and its interrupt are not modelled.
unfoldable pub clkinit : K (Unit {0})
clkinit = do
  queue ← queinit
  modify (λ k. record k { sleepq = queue })
  modify (λ k. record k { clkticks = 0 })

unfoldable pub sysinit : ℕ → ℕ → K (Unit {0})
sysinit nmon end = do
  modify (λ k. record k { thrcount = pos 1 })
  modify (λ k. record k { mem = init_heap k.mem })
  init_threads nthread
  null_thread end
  init_semaphores nsem
  init_monitors nmon nmon
  init_pools npool
  queue ← queinit
  modify (λ k. record k { readylist = queue })
  clkinit
