-- ===== src/Examples/Heap.antt =====
-- The theorems on the heap at a heap of one free block.
use xinu.Base.{
  ℕ, ◌-◌, ◌+◌, ◌≡◌, refl, [], ◌∷◌, some, true, arith, leb, ltb, ◌&&◌, ◌||◌, ◌==◌, if◌then◌else◌,
}
use xinu.Examples.Queues.{sample_heap}
use xinu.Memory.{Memory, memget, memfree, stkget, stkfree, u32}
use xinu.Memory.Blocks.{IsHeap, first_fit}
use xinu.Memory.Coalesce.{covers, give_back}
use xinu.Memory.Free.{Freed, memfree-Freed, memget-memfree}
use xinu.Memory.Highest.{last_word}
use xinu.Memory.LastFit.{last_fit}
use xinu.Memory.Stack.{Stack, stkget-last_fit, stkget-stkfree}
use xinu.Memory.Get.{Granted, units, memget-first_fit, memget_wraps}

sample_IsHeap : IsHeap sample_heap ((4096, 4096) ∷ [])
sample_IsHeap = ground arith

memget-first_fit_example :
    Granted sample_heap
      (units 100)
      ((4096, 4096) ∷ [])
      (first_fit (units 100) ((4096, 4096) ∷ []))
      (memget 100 sample_heap)
memget-first_fit_example =
    memget-first_fit sample_heap ((4096, 4096) ∷ []) 100 sample_IsHeap (omega arith) (omega arith)

memget_wraps_example : memget (u32 - 7) sample_heap ≡ some (4096, sample_heap)
memget_wraps_example =
    memget_wraps sample_heap 4096 4096 [] (u32 - 7) sample_IsHeap (omega arith) (omega arith)

-- The heap after a request of 100 bytes, and a second one whose free blocks are 4096 … 4199 and
-- 4600 … 8191.
abbrev split_heap : Memory
split_heap = record sample_heap {
  block = λ a.
      if a == 1024
      then record { next = 4096; length = 3696 }
      else if a == 4096
      then record { next = 4600; length = 104 }
      else record { next = 0; length = 3592 };
}

split_IsHeap : IsHeap split_heap ((4096, 104) ∷ (4600, 3592) ∷ [])
split_IsHeap = ground arith

memfree-Freed_example :
    (m' : Memory) × Freed split_heap ((4096, 104) ∷ (4600, 3592) ∷ []) 4200 397 m'
    × ((x : ℕ)
        → covers x (give_back 4200 (units 397) ((4096, 104) ∷ (4600, 3592) ∷ [])) ≡ (
            (leb 4200 x && ltb x (4200 + units 397)) || covers x ((4096, 104) ∷ (4600, 3592) ∷ [])))
memfree-Freed_example =
    memfree-Freed split_heap ((4096, 104) ∷ (4600, 3592) ∷ []) 4200 397 split_IsHeap refl
      (omega arith) (omega arith) (omega arith) (ground arith)

memget-memfree_example :
    (m1 : Memory) × (m2 : Memory) × (memget 100 sample_heap ≡ some (4096, m1))
    × (memfree 4096 100 m1 ≡ some (true, m2))
    × IsHeap m2 ((4096, 4096) ∷ [])
unfolding first_fit
memget-memfree_example =
    memget-memfree sample_heap ((4096, 4096) ∷ []) 100 4096 ((4200, 3992) ∷ []) sample_IsHeap
      (omega arith) (omega arith) refl

stkget-last_fit_example :
    Stack split_heap
      (units 397)
      ((4096, 104) ∷ (4600, 3592) ∷ [])
      (last_fit (units 397) ((4096, 104) ∷ (4600, 3592) ∷ []))
      (stkget 397 split_heap)
stkget-last_fit_example =
    stkget-last_fit split_heap ((4096, 104) ∷ (4600, 3592) ∷ []) 397 split_IsHeap (omega arith)
      (omega arith)

stkget-stkfree_example :
    (m1 : Memory) × (m2 : Memory) × (stkget 397 split_heap ≡ some (last_word 7792 (units 397), m1))
    × (stkfree (last_word 7792 (units 397)) 397 m1 ≡ some (true, m2))
    × IsHeap m2 ((4096, 104) ∷ (4600, 3592) ∷ [])
unfolding last_fit
stkget-stkfree_example =
    stkget-stkfree split_heap ((4096, 104) ∷ (4600, 3592) ∷ []) 397 7792
      ((4096, 104) ∷ (4600, 3192) ∷ []) split_IsHeap (omega arith) (omega arith) refl
