-- ===== src/Examples/Queues.antt =====
-- A ready list of two threads, a sleep queue of two, and the theorems on queues at them.
use xinu.Base.{
  ℕ, ◌≡◌, refl, ℤ, pos, negsuc, negsuc, false, List, [], ◌∷◌, ◌++◌, arith, ◌==◌, if◌then◌else◌,
  ◌||◌, All, has, ◌≤ℤ◌, ◌<ℤ◌,
}
use xinu.Kernel.{
  OK, empty, maxkey, minkey, Kernel, Queent, Thrent, ThreadState, ok, fault, isbadtid,
}
use xinu.Memory.{Memory}
use xinu.Queue.{insert, insertd, queinit}
use xinu.Queue.Chain.{Table}
use xinu.Queue.Contents.{IsQueue, nodes}
use xinu.Queue.Delta.{due, insert_due, insertd-due}
use xinu.Queue.Init.{queinit_overrun}
use xinu.Queue.Links.{SparesBut}
use xinu.Queue.Sorted.{Descending, insert-Descending}

abbrev pub ent : ℤ → ℤ → ℤ → Queent
ent key next prev = record { key = key; next = next; prev = prev }

-- Queue 300 holds threads 3 and 5, queue 302 threads 8 and 9.
abbrev pub sample_table : Table
sample_table j =
    if j == 300
    then ent maxkey (pos 3) empty
    else if j == 3
    then ent (pos 20) (pos 5) (pos 300)
    else if j == 5
    then ent (pos 10) (pos 301) (pos 3)
    else if j == 301
    then ent minkey empty (pos 5)
    else if j == 302
    then ent maxkey (pos 8) empty
    else if j == 8
    then ent (pos 4) (pos 9) (pos 302)
    else if j == 9
    then ent (pos 6) (pos 303) (pos 8)
    else if j == 303
    then ent minkey empty (pos 9)
    else ent (pos 0) empty empty

abbrev pub thread_in : ThreadState → ℤ → Thrent
thread_in st prio = record {
  state = st;
  prio = prio;
  stkbase = 0;
  stklen = 0;
  stkptr = 0;
  name = λ i. 0;
  sem = 0;
  parent = pos 0;
  msg = pos 0;
  hasmsg = false;
  fdesc = [];
}

abbrev pub sample_threads : ℕ → Thrent
sample_threads j =
    if j == 3
    then thread_in ThreadState.ready (pos 20)
    else if j == 5
    then thread_in ThreadState.ready (pos 10)
    else if j == 7
    then thread_in ThreadState.curr (pos 10)
    else if (j == 8) || (j == 9)
    then thread_in ThreadState.sleep (pos 10)
    else thread_in ThreadState.free (pos 0)

-- One free block, 4096 … 8191.
abbrev pub sample_heap : Memory
sample_heap = record {
  block = λ a.
      if a == 1024
      then record { next = 4096; length = 4096 }
      else record { next = 0; length = 4096 };
  memlist = 1024;
  memheap = 4096;
  maxaddr = 8192;
}

abbrev pub sample : Kernel
sample = record {
  quetab = sample_table;
  nextqid = 304;
  thrtab = sample_threads;
  nexttid = 0;
  thrcount = pos 5;
  thrcurrent = pos 7;
  resdefer = 0;
  semtab = λ j. record { used = false; count = pos 0; queue = pos 100 };
  nextsem = 0;
  montab = λ j. record { used = false; owner = negsuc 0; count = 0; sem = 0 };
  nextmon = 0;
  mboxtab = λ j. record {
    alloc = false;
    sender = 0;
    receiver = 0;
    max = 0;
    count = 0;
    start = 0;
    msgs = 0;
  };
  nextmbx = 0;
  mboxtabsem = 0;
  words = λ a. pos 0;
  bfptab = λ j. record { used = false; bufsize = 0; nbuf = 0; head = 0; next = 0; freebuf = 0 };
  readylist = pos 300;
  sleepq = pos 302;
  clkticks = 0;
  clktime = 0;
  mem = sample_heap;
}

ready_IsQueue : IsQueue sample_table 300 (3 ∷ 5 ∷ [])
ready_IsQueue = ground arith

sleep_IsQueue : IsQueue sample_table 302 (8 ∷ 9 ∷ [])
sleep_IsQueue = ground arith

live_7 : isbadtid sample (pos 7) ≡ false
unfolding isbadtid
live_7 = refl

insert-Descending_example :
    (T' : Table) × (ys : List ℕ) × (zs : List ℕ) × (insert (pos 7) (pos 300) (pos 20) sample
      ≡ ok OK (record sample { quetab = T' }))
    × (3 ∷ 5 ∷ [] ≡ ys ++ zs)
    × IsQueue T' 300 (ys ++ 7 ∷ zs)
    × Descending T' (ys ++ 7 ∷ zs)
    × All (λ x. pos 20 ≤ℤ (sample_table x).key) ys
    × All (λ x. (sample_table x).key <ℤ pos 20) zs
    × SparesBut sample_table T' 7 (pos 20) (7 ∷ nodes 300 (3 ∷ 5 ∷ []))
insert-Descending_example =
    insert-Descending sample 300 7 (pos 20) (3 ∷ 5 ∷ []) ready_IsQueue live_7 refl (omega arith)
      (omega arith)

insertd-due_example :
    (T' : Table) × (ys : List ℕ) × (insertd (pos 7) (pos 302) (pos 7) sample
      ≡ ok OK (record sample { quetab = T' }))
    × IsQueue T' 302 ys
    × (due T' (pos 0) ys ≡ insert_due 7 (pos 7) (due sample_table (pos 0) (8 ∷ 9 ∷ [])))
    × ((j : ℕ) → has j (7 ∷ nodes 302 (8 ∷ 9 ∷ [])) ≡ false → T' j ≡ sample_table j)
insertd-due_example = insertd-due sample 302 7 (pos 7) (8 ∷ 9 ∷ []) sleep_IsQueue live_7 refl

queinit_overrun_example : queinit sample ≡ fault
queinit_overrun_example = queinit_overrun sample refl
