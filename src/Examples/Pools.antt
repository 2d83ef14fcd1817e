-- ===== src/Examples/Pools.antt =====
-- A pool of buffers of twelve bytes, two of them free.
use xinu.Base.{◌+◌, ◌%◌, ◌≡◌, refl, pos, true, [], ◌∷◌, arith, ◌==◌, if◌then◌else◌}
use xinu.Examples.Threads.{busy, heads, contents, busy_System, apart_7}
use xinu.Kernel.{Kernel, ok, pure}
use xinu.Memory.{u32}
use xinu.Pool.{bufget, poolbuf_size}
use xinu.Pool.Buffers.{Buffers, bufget-first}
use xinu.Semaphore.Waiters.{IsSemaphore}
use xinu.Thread.Resched.{IsTop}

abbrev pooled : Kernel
pooled = record busy {
  words = λ a. if a == 4096 then pos 4108 else if a == 4108 then pos 4120 else pos 0;
  bfptab =
      λ j. record { used = true; bufsize = 12; nbuf = 2; head = 4096; next = 4096; freebuf = 5 };
}

pooled-IsTop : IsTop pooled heads contents 300 7
pooled-IsTop = record {
  sched = record {
    readylist = refl;
    head = refl;
    system = busy_System;
    sorted = ground arith;
    ready = (refl, (refl, tt));
    prios = (refl, (refl, tt));
  };
  current = refl;
  curr = refl;
  c_in = omega arith;
  apart = apart_7;
  top = ground arith;
}

pooled-IsSemaphore : IsSemaphore pooled heads contents 300 5 202
pooled-IsSemaphore = record {
  s_in = omega arith;
  used = refl;
  queue = refl;
  head = refl;
  other = ground arith;
  count = refl;
  waiting = tt;
  prios = tt;
}

bufget-first_example :
    (k' : Kernel) × (bufget (pure tt) (pos 3) pooled ≡ ok ((4096 + poolbuf_size) % u32) k')
    × Buffers k'.words (k'.bfptab 3).next (4108 ∷ [])
    × (k'.words 4096 ≡ pos 4096)
bufget-first_example =
    bufget-first pooled heads contents 300 202 7 3 4096 (4108 ∷ []) pooled-IsTop (omega arith) refl
      pooled-IsSemaphore refl (refl, (refl, tt)) refl
