-- ===== src/Examples/Monitors.antt =====
-- The theorems on monitors, at one that the running thread owns and at one that nobody owns.
use xinu.Base.{ℕ, ◌≡◌, refl, pos, true, [], ◌∷◌, arith}
use xinu.Kernel.{OK, Kernel, ok, pure, ◌>>◌}
use xinu.Examples.Threads.{busy, heads, contents, busy_System, apart_7}
use xinu.Examples.Queues.{sample}
use xinu.Monitor.{lock, unlock, claim, noowner}
use xinu.Monitor.Overtaken.{waiting, lock-overtaken}
use xinu.Semaphore.Waiters.{IsSemaphore}
use xinu.Thread.Resched.{IsTop}
use xinu.Monitor.Nested.{lock-unlock_nested}

abbrev owned : Kernel
owned = record sample { montab = λ j. record { used = true; owner = pos 7; count = 2; sem = 5 } }

lock-unlock_nested_example :
    (k1 : Kernel) × (k2 : Kernel) × (lock 10 (pure tt) 4 owned ≡ ok OK k1)
    × ((k1.montab 4).count ≡ 3)
    × (unlock 10 4 k1 ≡ ok OK k2)
    × ((j : ℕ) → k2.montab j ≡ owned.montab j)
    × (k2 ≡ record owned { montab = k2.montab })
lock-unlock_nested_example =
    lock-unlock_nested 10 (pure tt) owned 4 7 (omega arith) refl refl refl (omega arith)
      (omega arith)

-- Monitor 4 is free, and its semaphore, on which thread 12 waits, has a negative count.
abbrev released : Kernel
released = record busy { montab = λ j. record { used = true; owner = noowner; count = 0; sem = 4 } }

released-IsTop : IsTop released heads contents 300 7
released-IsTop = record {
  sched = record {
    readylist = refl;
    head = refl;
    system = busy_System;
    sorted = ground arith;
    ready = (refl, (refl, tt));
    prios = (refl, (refl, tt));
  };
  current = refl;
  curr = refl;
  c_in = omega arith;
  apart = apart_7;
  top = ground arith;
}

released-IsSemaphore : IsSemaphore released heads contents 300 4 200
released-IsSemaphore = record {
  s_in = omega arith;
  used = refl;
  queue = refl;
  head = refl;
  other = ground arith;
  count = refl;
  waiting = (refl, tt);
  prios = ground arith;
}

lock-overtaken_example :
    (k1 : Kernel) × (k2 : Kernel) × (k3 : Kernel) × (lock 10 (pure tt) 4 released
      ≡ (pure tt >> pure OK) k1)
    × IsTop k1 heads (waiting contents 300 200 7 (5 ∷ [])) 300 3
    × (claim 10 4 k1 ≡ ok tt k2)
    × (unlock 10 4 k2 ≡ ok OK k3)
    × ((k3.montab 4).count ≡ 1)
    × ((k3.montab 4).owner ≡ pos 3)
    × IsTop k3 heads (waiting contents 300 200 7 (5 ∷ [])) 300 3
    × IsSemaphore k3 heads (waiting contents 300 200 7 (5 ∷ [])) 300 4 200
lock-overtaken_example =
    lock-overtaken 10 released heads contents 300 4 200 7 3 (5 ∷ []) (pure tt) (omega arith) refl
      refl refl released-IsTop refl (omega arith) released-IsSemaphore refl refl
