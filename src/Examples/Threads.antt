-- ===== src/Examples/Threads.antt =====
-- A kernel with a ready list, a sleep queue and a semaphore that a thread waits on, and the
-- theorems on the scheduler and on semaphores at it.
use xinu.Base.{
  ℕ, ◌≡◌, ◌⊎◌, ◌∙◌, refl, subst, sym, pos, negsuc, true, false, Bool, List, [], ◌∷◌, arith, ◌==◌,
  if◌then◌else◌, ◌||◌, has, Bool-cases, inl, inr,
}
use xinu.Kernel.{ok, empty, maxkey, minkey, Kernel, Thrent, Sement, ThreadState, update}
use xinu.Examples.Queues.{sample, sample_table, sample_threads, ent, thread_in}
use xinu.Queue.Chain.{Table}
use xinu.Queue.Contents.{IsQueue}
use xinu.Queue.System.{System}
use xinu.Semaphore.Block.{Blocked, wait-blocks}
use xinu.Semaphore.Free.{Freed, semfree-Freed}
use xinu.Semaphore.Signal.{Signalled, signal-Signalled}
use xinu.Semaphore.Wait.{Waited, wait-passes, taken}
use xinu.Semaphore.Waiters.{IsSemaphore}
use xinu.Thread.{resume}
use xinu.Thread.Deliver.{Delivered, send-Delivered}
use xinu.Thread.Preempt.{Rescheduled, resched-Rescheduled}
use xinu.Thread.Ready.{InNone}
use xinu.Thread.Resched.{IsTop}
use xinu.Thread.Wake.{Woken, resume-Woken}
use xinu.Thread.Scheduled.{IsScheduled}

-- Queue 200 holds thread 12.
abbrev busy_table : Table
busy_table j =
    if j == 200
    then ent maxkey (pos 12) empty
    else if j == 12
    then ent (pos 0) (pos 201) (pos 200)
    else if j == 201
    then ent minkey empty (pos 12)
    else sample_table j

abbrev pub busy_threads : ℕ → Thrent
busy_threads j =
    if j == 12
    then thread_in ThreadState.wait (pos 30)
    else if j == 7
    then thread_in ThreadState.curr (pos 25)
    else if j == 20
    then thread_in ThreadState.susp (pos 40)
    else if j == 21
    then thread_in ThreadState.recv (pos 12)
    else sample_threads j

-- Semaphore 4 has a thread waiting, semaphore 5 a count of two and an empty queue.
abbrev busy_semaphores : ℕ → Sement
busy_semaphores s =
    if s == 4
    then record { used = true; count = negsuc 0; queue = pos 200 }
    else if s == 5
    then record { used = true; count = pos 2; queue = pos 202 }
    else record { used = false; count = pos 0; queue = pos 204 }

abbrev pub busy : Kernel
busy = record sample {
  quetab = λ j.
      if j == 202
      then ent maxkey (pos 203) empty
      else if j == 203
      then ent minkey empty (pos 202)
      else busy_table j;
  thrtab = busy_threads;
  semtab = busy_semaphores;
}

abbrev pub heads : ℕ → Bool
heads h = (h == 300) || ((h == 302) || ((h == 200) || (h == 202)))

abbrev pub contents : ℕ → List ℕ
contents h =
    if h == 300
    then 3 ∷ 5 ∷ []
    else if h == 302
    then 8 ∷ 9 ∷ []
    else if h == 200
    then 12 ∷ []
    else []

ready_holds : IsQueue busy.quetab 300 (contents 300)
ready_holds = ground arith

pub sleep_holds : IsQueue busy.quetab 302 (contents 302)
sleep_holds = ground arith

semaphore_holds : IsQueue busy.quetab 200 (contents 200)
semaphore_holds = ground arith

free_holds : IsQueue busy.quetab 202 (contents 202)
free_holds = ground arith

is_head : (h : ℕ) → heads h ≡ true → (h ≡ 300) ⊎ ((h ≡ 302) ⊎ ((h ≡ 200) ⊎ (h ≡ 202)))
is_head h e = ground arith

busy_holds : (h : ℕ) → heads h ≡ true → IsQueue busy.quetab h (contents h)
busy_holds h e = elim (is_head h e) [
  | inl a ↦ subst (λ i. IsQueue busy.quetab i (contents i)) (sym a) ready_holds
  | inr (inl a) ↦ subst (λ i. IsQueue busy.quetab i (contents i)) (sym a) sleep_holds
  | inr (inr (inl a)) ↦ subst (λ i. IsQueue busy.quetab i (contents i)) (sym a) semaphore_holds
  | inr (inr (inr a)) ↦ subst (λ i. IsQueue busy.quetab i (contents i)) (sym a) free_holds
]

-- The queue that a thread is in.
abbrev home : ℕ → ℕ
home x = if (x == 3) || (x == 5) then 300 else if (x == 8) || (x == 9) then 302 else 200

in_home : (x h : ℕ) → heads h ≡ true → has x (contents h) ≡ true → h ≡ home x
in_home x h e m = elim (is_head h e) [
  | inl a ↦ (let m' = subst (λ i. has x (contents i) ≡ true) a m in ground arith)
  | inr (inl a) ↦ (let m' = subst (λ i. has x (contents i) ≡ true) a m in ground arith)
  | inr (inr (inl a)) ↦ (let m' = subst (λ i. has x (contents i) ≡ true) a m in ground arith)
  | inr (inr (inr a)) ↦ absurd (let m' = subst (λ i. has x (contents i) ≡ true) a m in ground arith)
]

pub busy_System : System busy.quetab heads contents
busy_System = record {
  holds = busy_holds;
  tails = λ h e. ground (arith, is_head h e);
  once = λ x h h' e e' m m'. in_home x h e m ∙ sym (in_home x h' e' m');
}

pub busy-IsScheduled : IsScheduled busy heads contents 300
busy-IsScheduled = record {
  readylist = refl;
  head = refl;
  system = busy_System;
  sorted = ground arith;
  ready = (refl, (refl, tt));
  prios = (refl, (refl, tt));
}

apart : (x : ℕ) → has x (contents (home x)) ≡ false → InNone heads contents x
apart x out h e = elim (Bool-cases (has x (contents h))) [
  | inl m ↦
      absurd (let m' = subst (λ i. has x (contents i) ≡ true) (in_home x h e m) m in ground arith)
  | inr free ↦ free
]

pub apart_7 : InNone heads contents 7
apart_7 = apart 7 refl

pub busy-IsTop : IsTop busy heads contents 300 7
busy-IsTop = record {
  sched = busy-IsScheduled;
  current = refl;
  curr = refl;
  c_in = omega arith;
  apart = apart_7;
  top = ground arith;
}

pub IsSemaphore-4 : IsSemaphore busy heads contents 300 4 200
IsSemaphore-4 = record {
  s_in = omega arith;
  used = refl;
  queue = refl;
  head = refl;
  other = ground arith;
  count = refl;
  waiting = (refl, tt);
  prios = ground arith;
}

pub IsSemaphore-5 : IsSemaphore busy heads contents 300 5 202
IsSemaphore-5 = record {
  s_in = omega arith;
  used = refl;
  queue = refl;
  head = refl;
  other = ground arith;
  count = refl;
  waiting = tt;
  prios = tt;
}

resched-Rescheduled_example :
    (k' : Kernel) × (Q' : ℕ → List ℕ) × Rescheduled busy heads contents 300 7 k' Q' 7
resched-Rescheduled_example =
    resched-Rescheduled busy heads contents 300 7 busy-IsScheduled
      (record { current = refl; c_in = omega arith; now = refl }) apart_7 (omega arith) refl

signal-Signalled_example :
    (k' : Kernel) × (Q' : ℕ → List ℕ) × (c' : ℕ) × Signalled busy heads contents 300 4 200 7 k' Q'
      c'
signal-Signalled_example =
    signal-Signalled busy heads contents 300 4 200 7 busy-IsTop refl (omega arith) IsSemaphore-4

wait-passes_example : Waited busy heads contents 300 5 202 (taken busy 5) contents 7
wait-passes_example = wait-passes busy heads contents 300 5 202 7 busy-IsTop IsSemaphore-5 refl

wait-blocks_example :
    (k' : Kernel) × Waited busy heads contents 300 4 200 k'
      (update (update contents 200 (12 ∷ 7 ∷ [])) 300 (5 ∷ []))
      3
    × Blocked busy 4 7 3 k'
wait-blocks_example =
    wait-blocks busy heads contents 300 4 200 7 3 (5 ∷ []) busy-IsTop refl (omega arith)
      IsSemaphore-4 refl refl

resume-Woken_example :
    (k' : Kernel) × (Q' : ℕ → List ℕ) × (c' : ℕ) × (resume (pos 20) busy ≡ ok (pos 40) k')
    × Woken busy heads contents 300 7 20 k' Q' c'
resume-Woken_example =
    resume-Woken busy heads contents 300 7 20 busy-IsTop refl (omega arith) (apart 20 refl)
      (omega arith) refl (omega arith)

send-Delivered_example :
    (k' : Kernel) × (Q' : ℕ → List ℕ) × (c' : ℕ) × Delivered busy heads contents 300 7 21
      (pos 99)
      k'
      Q'
      c'
send-Delivered_example =
    send-Delivered busy heads contents 300 7 21 (pos 99) busy-IsTop refl (omega arith)
      (apart 21 refl) (omega arith) refl refl (omega arith)

semfree-Freed_example :
    (k' : Kernel) × (Q' : ℕ → List ℕ) × Freed busy heads contents 300 4 200 k' Q'
semfree-Freed_example = semfree-Freed busy heads contents 300 4 200 busy-IsScheduled IsSemaphore-4
