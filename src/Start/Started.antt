-- ===== src/Start/Started.antt =====
-- `sysinit` of system/initialize.c: the state in which the null thread runs.
use xinu.Base.{ℕ, ◌+◌, ◌-◌, ◌%◌, ◌<◌, ◌≡◌, refl, pos, false, [], ◌∷◌, arith, ◌==◌}
use xinu.Kernel.{nthread, nsem, nqent, ThreadState, Kernel, ok, update}
use xinu.Memory.{Memory, u32, roundmb, truncmb}
use xinu.Memory.Blocks.{IsHeap}
use xinu.Pool.{npool}
use xinu.Start.{init_heap, clkinit, sysinit}
use xinu.Start.Empty.{
  Free, init_threads_run, init_semaphores_run, init_monitors_run, init_pools_run, null_thread_run,
  queinit-Queues, start-System, start_heads, nobody,
}
use xinu.Thread.Resched.{IsTop}

-- The bounds of the heap in whole units.
init_heap-IsHeap :
    (m : Memory)
    → 0 < m.memlist
    → m.memlist < roundmb m.memheap
    → roundmb m.memheap < truncmb m.maxaddr
    → IsHeap (init_heap m) ((roundmb m.memheap, truncmb m.maxaddr - roundmb m.memheap) ∷ [])
unfolding init_heap roundmb truncmb
init_heap-IsHeap m null outside room =
    let size : (truncmb m.maxaddr + u32 - roundmb m.memheap) % u32
        ≡ truncmb m.maxaddr - roundmb m.memheap =
      omega (arith, room) in
    let apart : (roundmb m.memheap == m.memlist) ≡ false = ground (arith, outside) in
    let apart' : (m.memlist == roundmb m.memheap) ≡ false = ground (arith, outside) in
    record {
      null = null;
      outside = outside;
      inside = omega arith;
      chain = (ground (arith, apart, apart'), ground (arith, size), ground arith);
      ordered =
          (omega arith, omega arith, omega (arith, room), omega arith, omega (arith, room), tt);
      free = ground (arith, size, apart, apart');
    }

-- What the start promises.
pub record Started (nmon : ℕ) (k : Kernel) (k' : Kernel) : Type 0 where
  pub top : IsTop k' start_heads nobody 300 0
  pub sleepq : k'.sleepq ≡ pos 302
  pub others : (j : ℕ) → 0 < j → j < nthread → (k'.thrtab j).state ≡ ThreadState.free
  pub semaphores : Free k'.semtab nsem
  pub monitors : (j : ℕ) → j < nmon → (k'.montab j).used ≡ false
  pub pools : (j : ℕ) → j < npool → (k'.bfptab j).used ≡ false
  pub count : k'.thrcount ≡ pos 1
  pub room : k'.nextqid ≡ nqent
  pub heap :
      IsHeap k'.mem ((roundmb k.mem.memheap, truncmb k.mem.maxaddr - roundmb k.mem.memheap) ∷ [])

-- `sysinit` up to the clock, on tables that no queue was made in and a heap of at least one unit
-- above the variable `memlist`: the null thread is the current one and the scheduler's invariant
-- holds with empty queues, which fill the queue table. Every other thread, every semaphore, every
-- monitor and every pool is free, one thread is counted, and the heap is one free block.
pub sysinit-Started :
    (nmon end : ℕ) (k : Kernel)
    → k.nextqid ≡ nthread
    → 0 < k.mem.memlist
    → k.mem.memlist < roundmb k.mem.memheap
    → roundmb k.mem.memheap < truncmb k.mem.maxaddr
    → (k' : Kernel) × (sysinit nmon end k ≡ ok tt k') × Started nmon k k'
unfolding sysinit clkinit
sysinit-Started nmon end k fresh null outside room =
    let k1 = record k { thrcount = pos 1; mem = init_heap k.mem } in
    let (f, ran1, free) = init_threads_run nthread k1 (omega arith) in
    let k2 = record k1 { thrtab = f } in
    let (t, ran2, st, prio) = null_thread_run end k2 in
    let k3 = record k2 { thrtab = update f 0 t; thrcurrent = pos 0 } in
    let (T, S, ran3, queues, sems) = init_semaphores_run nsem k3 (omega arith) fresh in
    let k4 = record k3 { quetab = T; semtab = S; nextqid = 300 } in
    let (M, ran4, mons) = init_monitors_run nmon nmon k4 (omega arith) in
    let k4' = record k4 { montab = M } in
    let (B, ran4', pools) = init_pools_run npool k4' (omega arith) in
    let k5 = record k4' { bfptab = B } in
    let (T5, ran5, queues5) = queinit-Queues 100 k5 (omega arith) refl queues in
    let k6 = record k5 { quetab = T5; nextqid = 302; readylist = pos 300 } in
    let (T6, ran6, queues6) = queinit-Queues 101 k6 (omega arith) refl queues5 in
    (
      record k6 { quetab = T6; nextqid = 304; sleepq = pos 302; clkticks = 0 },
      rw (ran1, ran2, ran3, ran4, ran4', ran5, ran6) refl,
      record {
        top = record {
          sched = record {
            readylist = refl;
            head = refl;
            system = start-System T6 queues6;
            sorted = tt;
            ready = tt;
            prios = tt;
          };
          current = refl;
          curr = st;
          c_in = omega arith;
          apart = λ h e. refl;
          top = tt;
        };
        sleepq = refl;
        others = λ j low h. ground (arith, free j);
        semaphores = sems;
        monitors = mons;
        pools = pools;
        count = refl;
        room = refl;
        heap = init_heap-IsHeap k.mem null outside room;
      },
    )
