-- ===== src/Thread.antt =====
-- The scheduler and the operations that move one thread: system/ready.c, system/resched.c,
-- system/resume.c, system/suspend.c, system/chprio.c, system/getprio.c, system/gettid.c and
-- system/yield.c.
pub mod Clock
pub mod Context
pub mod Create
pub mod Deliver
pub mod Message
pub mod Preempt
pub mod Ready
pub mod Removal
pub mod Resched
pub mod Scheduled
pub mod Sleep
pub mod Waiting
pub mod Wake
use xinu.Base.{
  ℕ, zero, suc, ◌+◌, ℤ, pos, negsuc, Bool, true, false, ◌||◌, ltb, ltb_ℤ, ◌==ℤ◌, if◌then◌else◌,
}
use xinu.Kernel.{
  nthread, OK, syserr, ThreadState, Kernel, K, pure, ◌>>=◌, ◌>>◌, gets, modify, isbadtid, thrent,
  put_thrent, set_state,
}
use xinu.Queue.{insert, dequeue, getitem, nonempty, firstkey}

abbrev pub is_curr : ThreadState → Bool
is_curr ThreadState.curr = true
is_curr _ = false

abbrev pub is_ready : ThreadState → Bool
is_ready ThreadState.ready = true
is_ready _ = false

abbrev pub is_susp : ThreadState → Bool
is_susp ThreadState.susp = true
is_susp _ = false

unfoldable pub gettid : K ℤ
gettid = gets (λ k. k.thrcurrent)

-- The part of `ready` that `resume`, `send`, `signal`, `signaln` and `semfree` repeat.
unfoldable pub make_ready : ℤ → K (Unit {0})
make_ready tid = do
  set_state tid ThreadState.ready
  thr ← thrent tid
  list ← gets (λ k. k.readylist)
  insert tid list thr.prio
  pure tt

unfoldable pub ready : ℤ → K ℤ
ready tid = do
  bad ← gets (λ k. isbadtid k tid)
  if bad then pure syserr else do make_ready tid; pure OK

-- `ctxsw` hands the processor to the first thread of the ready list.
unfoldable pub switch : K ℤ
switch = do
  list ← gets (λ k. k.readylist)
  tid ← dequeue list
  modify (λ k. record k { thrcurrent = tid })
  set_state tid ThreadState.curr
  pure OK

-- Whether the current thread keeps the processor.
unfoldable pub keeps : ℤ → K Bool
keeps prio = do
  list ← gets (λ k. k.readylist)
  others ← nonempty list
  if others then (do key ← firstkey list; pure (ltb_ℤ key prio)) else pure false

unfoldable pub resched : K ℤ
resched = do
  resdefer ← gets (λ k. k.resdefer)
  if ltb 0 resdefer then (do modify (λ k. record k { resdefer = k.resdefer + 1 }); pure OK) else do
    cur ← gettid
    old ← thrent cur
    if is_curr old.state
        then (do
          stay ← keeps old.prio
          if stay then pure OK else do
            set_state cur ThreadState.ready
            list ← gets (λ k. k.readylist)
            insert cur list old.prio
            switch)
        else switch

unfoldable pub yield : K ℤ
yield = do resched; pure OK

unfoldable pub resume : ℤ → K ℤ
resume tid = do
  bad ← gets (λ k. isbadtid k tid)
  if bad then pure syserr else do
    thr ← thrent tid
    if is_susp thr.state
        then (do
          set_state tid ThreadState.ready
          list ← gets (λ k. k.readylist)
          insert tid list thr.prio
          resched
          pure thr.prio)
        else pure syserr

-- The priority that `suspend` answers is read when the thread runs again.
unfoldable pub suspend : K (Unit {0}) → ℤ → K ℤ
suspend others tid = do
  bad ← gets (λ k. isbadtid k tid)
  if bad || (tid ==ℤ pos 0) then pure syserr else do
    thr ← thrent tid
    if is_ready thr.state
        then (do getitem tid; set_state tid ThreadState.susp; after ← thrent tid; pure after.prio)
        else if is_curr thr.state
        then (do
          set_state tid ThreadState.susp
          resched
          others
          after ← thrent tid
          pure after.prio)
        else pure syserr

unfoldable pub chprio : ℤ → ℤ → K ℤ
chprio tid newprio = do
  bad ← gets (λ k. isbadtid k tid)
  if bad
      then pure syserr
      else do thr ← thrent tid; put_thrent tid (λ t. record t { prio = newprio }); pure thr.prio

unfoldable pub getprio : ℤ → K ℤ
getprio tid = do
  bad ← gets (λ k. isbadtid k tid)
  if bad then pure syserr else do thr ← thrent tid; pure thr.prio
