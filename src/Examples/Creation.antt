-- ===== src/Examples/Creation.antt =====
-- The theorems on new threads and on threads that end.
use xinu.Base.{
  ℕ, ◌+◌, ◌*◌, ◌≡◌, ◌⊎◌, inl, inr, refl, ℤ, pos, ◌+ℤ◌, true, false, List, [], ◌∷◌, arith, ◌==◌,
  if◌then◌else◌, some, length, ◌-◌,
}
use xinu.Examples.Queues.{sample, sample_heap, thread_in}
use xinu.Examples.Threads.{busy, busy_threads, heads, contents, busy_System, apart_7, sleep_holds}
use xinu.Kernel.{OK, syserr, Kernel, Thrent, ThreadState, ok, pure, update, isbadtid}
use xinu.Kill.{kill}
use xinu.Kill.Ended.{kill_ready-Gone, kill_waiting-Gone, kill_tmout-stays}
use xinu.Kill.Left.{Gone, fewer}
use xinu.Memory.{
  Memory, stkfree, memfree, memfree_loop, memfree_at, merge_prev, merge_next, top_of, roundmb,
}
use xinu.Memory.Blocks.{IsHeap}
use xinu.Memory.Get.{units}
use xinu.Memory.Highest.{last_word}
use xinu.Memory.LastFit.{last_fit}
use xinu.Queue.Contents.{IsQueue}
use xinu.Semaphore.Waiters.{IsSemaphore}
use xinu.Strings.{Bytes}
use xinu.Strings.Length.{Ends}
use xinu.Thread.Context.{Fpu, Words, context_at, setup_stack}
use xinu.Thread.Context.Bounds.{setup_stack-bounded, setup_stack_overrun}
use xinu.Thread.Context.Layout.{HasContext, Placed, setup_stack-HasContext}
use xinu.Thread.Create.{create, stack_size}
use xinu.Thread.Create.Created.{Created, create-Created, create_full}
use xinu.Thread.Message.{send}
use xinu.Thread.Resched.{IsTop}

abbrev five : List ℤ
five = pos 1 ∷ pos 2 ∷ pos 3 ∷ pos 4 ∷ pos 5 ∷ []

abbrev blank : Words
blank a = pos a

setup_stack-HasContext_example :
    (saddr : ℕ) × (w' : Words) × (setup_stack
        (Fpu.hard (pos 8) (pos 9))
        8188
        (pos 77)
        (pos 88)
        five
        blank
      ≡ (saddr, w'))
    × Placed saddr 8188 49 1
    × HasContext (Fpu.hard (pos 8) (pos 9)) (pos 77) (pos 88) five saddr w'
setup_stack-HasContext_example =
    setup_stack-HasContext (Fpu.hard (pos 8) (pos 9)) 8188 (pos 77) (pos 88) five blank refl
      (omega arith) (omega arith)

setup_stack-bounded_example :
    (setup_stack Fpu.soft 8188 (pos 77) (pos 88) five blank).1 8188 ≡ pos 8188
setup_stack-bounded_example =
    setup_stack-bounded 8188 (pos 77) (pos 88) five blank 8188 refl (omega arith) (omega arith)
      (inr (omega arith))

setup_stack_overrun_example :
    (setup_stack (Fpu.hard (pos 8) (pos 9)) 8188 (pos 77) (pos 88) [] blank).1 (8188 + 4 * 29)
    ≡ pos 0
setup_stack_overrun_example =
    setup_stack_overrun (pos 8) (pos 9) 8188 (pos 77) (pos 88) [] blank 29 refl (omega arith)
      (omega arith) (omega arith) (omega arith) (omega arith)

-- "MA"
abbrev title : Bytes
title i = if i == 0 then 77 else if i == 1 then 65 else 0

title-Ends : Ends title 2
title-Ends = record { terminator = refl; before = λ i h. ground arith }

sample_heap-IsHeap : IsHeap sample_heap ((4096, 4096) ∷ [])
sample_heap-IsHeap = ground arith

create-Created_example :
    (tid : ℕ) × (k' : Kernel) × (create
        (Fpu.hard (pos 8) (pos 9))
        (pos 77)
        1000
        (pos 30)
        20
        title
        five
        (pos 88)
        sample
      ≡ ok (pos tid) k')
    × Created sample
        (Fpu.hard (pos 8) (pos 9))
        (pos 77)
        1000
        (pos 30)
        2
        title
        five
        (pos 88)
        ((4096, 3096) ∷ [])
        (last_word 7192 (units (stack_size 1000)))
        tid
        k'
unfolding last_fit context_at
create-Created_example =
    create-Created (Fpu.hard (pos 8) (pos 9)) (pos 77) 1000 (pos 30) 20 2 title five (pos 88) sample
      ((4096, 4096) ∷ []) 7192 ((4096, 3096) ∷ []) 0 sample_heap-IsHeap (omega arith) refl
      title-Ends (omega arith) (omega arith) refl (inl (omega arith), (inl (omega arith), tt))

-- Every entry in use.
abbrev crowded : Kernel
crowded = record sample { thrtab = λ j. thread_in ThreadState.susp (pos 10) }

create_full_example :
    (k' : Kernel) × (create Fpu.soft (pos 77) 100 (pos 30) 20 title five (pos 88) crowded
      ≡ ok syserr k')
    × IsHeap k'.mem ((4096, 4096) ∷ [])
    × (k' ≡ record crowded { mem = k'.mem; nexttid = k'.nexttid })
unfolding last_fit
create_full_example =
    create_full Fpu.soft (pos 77) 100 (pos 30) 20 title five (pos 88) crowded ((4096, 4096) ∷ [])
      8064 ((4096, 3968) ∷ []) sample_heap-IsHeap (omega arith) refl (λ x h. refl)

-- Threads 5, 12 and 9 have the stack of the bytes 8096 … 8191; thread 9 waits with a time limit.
abbrev with_stack : Thrent → Thrent
with_stack t = record t { stkbase = 8188; stklen = 96; sem = 4 }

abbrev staffed : Kernel
staffed = record busy {
  thrtab = λ j.
      if j == 5
      then with_stack (busy_threads 5)
      else if j == 12
      then with_stack (busy_threads 12)
      else if j == 9
      then with_stack (thread_in ThreadState.tmout (pos 10))
      else busy_threads j;
  mem = record {
    block = λ a.
        if a == 1024
        then record { next = 4096; length = 4000 }
        else record { next = 0; length = 4000 };
    memlist = 1024;
    memheap = 4096;
    maxaddr = 8192;
  };
}

abbrev dismissed : Kernel
dismissed = fewer staffed

given_back : (m : Memory) × (stkfree 8188 96 dismissed.mem ≡ some (true, m))
unfolding stkfree memfree memfree_loop memfree_at merge_prev merge_next top_of roundmb
given_back = (_, refl)

abbrev after_free : Kernel
after_free = record dismissed { mem = given_back.0 }

dismissed-IsTop : IsTop after_free heads contents 300 7
dismissed-IsTop = record {
  sched = record {
    readylist = refl;
    head = refl;
    system = busy_System;
    sorted = ground arith;
    ready = (refl, (refl, tt));
    prios = (refl, (refl, tt));
  };
  current = refl;
  curr = refl;
  c_in = omega arith;
  apart = apart_7;
  top = ground arith;
}

dismissed-IsSemaphore : IsSemaphore after_free heads contents 300 4 200
dismissed-IsSemaphore = record {
  s_in = omega arith;
  used = refl;
  queue = refl;
  head = refl;
  other = ground arith;
  count = refl;
  waiting = (refl, tt);
  prios = ground arith;
}

refused_5 : send (pos 0) (pos 5) dismissed ≡ ok syserr dismissed
unfolding send isbadtid
refused_5 = refl

refused_12 : send (pos 0) (pos 12) dismissed ≡ ok syserr dismissed
unfolding send isbadtid
refused_12 = refl

refused_9 : send (pos 0) (pos 9) dismissed ≡ ok syserr dismissed
unfolding send isbadtid
refused_9 = refl

kill_ready-Gone_example :
    (k' : Kernel) × (kill (λ i. pure tt) (pos 5) staffed ≡ ok OK k')
    × Gone after_free heads (update contents 300 (3 ∷ [])) 300 7 5 given_back.0 k'
unfolding isbadtid xinu.Base.Int.◌-ℤ◌
kill_ready-Gone_example =
    kill_ready-Gone staffed dismissed dismissed dismissed after_free heads contents 300 5 7 (3 ∷ [])
      [] (λ i. pure tt) syserr true given_back.0 refl refl refl refl refused_5 refl given_back.1
      refl dismissed-IsTop refl

kill_waiting-Gone_example :
    (k' : Kernel) × (kill (λ i. pure tt) (pos 12) staffed ≡ ok OK k')
    × Gone after_free heads (update contents 200 []) 300 7 12 given_back.0 k'
    × IsSemaphore k' heads (update contents 200 []) 300 4 200
    × ((k'.semtab 4).count ≡ (after_free.semtab 4).count +ℤ pos 1)
unfolding isbadtid xinu.Base.Int.◌-ℤ◌
kill_waiting-Gone_example =
    kill_waiting-Gone staffed dismissed dismissed dismissed after_free heads contents 300 4 200 12 7
      [] [] (λ i. pure tt) syserr true given_back.0 refl refl refl refl refused_12 refl given_back.1
      refl dismissed-IsTop dismissed-IsSemaphore refl refl

kill_tmout-stays_example :
    (k' : Kernel) × (kill (λ i. pure tt) (pos 9) staffed ≡ ok OK k')
    × ((k'.thrtab 9).state ≡ ThreadState.free)
    × IsQueue k'.quetab 302 (8 ∷ 9 ∷ [])
unfolding isbadtid xinu.Base.Int.◌-ℤ◌
kill_tmout-stays_example =
    kill_tmout-stays staffed dismissed dismissed dismissed after_free 9 302 (8 ∷ 9 ∷ [])
      (λ i. pure tt) syserr true given_back.0 refl refl refl refl refused_9 refl given_back.1 refl
      refl sleep_holds refl
