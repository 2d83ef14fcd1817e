-- ===== src/Kill.antt =====
-- The end of a thread: system/kill.c, system/userret.c and system/xdone.c. Only the count is inside
-- of the critical section of `kill`, so that other threads can run between its steps: `others 0` is
-- what they do before the message to the parent, `others 1` behind it, and `others 2` after the
-- stack is given back. The switch at the end is one step.
pub mod Ended
pub mod Left
use xinu.Base.{
  ℕ, ◌+◌, ℤ, pos, negsuc, Bool, true, false, ◌||◌, ◌==ℤ◌, ◌+ℤ◌, ◌-ℤ◌, leb_ℤ, ltb, if◌then◌else◌,
}
use xinu.Kernel.{
  OK, syserr, ThreadState, Thrent, K, halted, pure, ◌>>=◌, ◌>>◌, gets, modify, isbadtid, thrent,
  set_state, on_heap,
}
use xinu.Memory.{stkfree}
use xinu.Queue.{getitem}
use xinu.Semaphore.{put_sement}
use xinu.Thread.{gettid, resched}
use xinu.Thread.Message.{send, unsleep}

-- The machine is halted.
unfoldable pub xdone : K (Unit {0})
xdone = λ _. halted

-- The case of a waiting thread, which falls through to leaving its queue.
unfoldable pub leave_wait : ℕ → ℤ → K (Unit {0})
leave_wait sem tid = do
  put_sement sem (λ s. record s { count = s.count +ℤ pos 1 })
  getitem tid
  set_state tid ThreadState.free

-- What the thread's state asks for. The current thread is switched away from for good; only where
-- `resched` is deferred it comes back, and falls through to the case of a waiting thread.
unfoldable pub leave_by : ThreadState → ℕ → ℤ → K (Unit {0})
leave_by ThreadState.sleep sem tid = do unsleep tid; set_state tid ThreadState.free
leave_by ThreadState.curr sem tid = do
  set_state tid ThreadState.free
  deferred ← gets (λ k. ltb 0 k.resdefer)
  resched
  if deferred then leave_wait sem tid else pure tt
leave_by ThreadState.wait sem tid = leave_wait sem tid
leave_by ThreadState.ready sem tid = do getitem tid; set_state tid ThreadState.free
leave_by ThreadState.free sem tid = set_state tid ThreadState.free
leave_by ThreadState.recv sem tid = set_state tid ThreadState.free
leave_by ThreadState.susp sem tid = set_state tid ThreadState.free
leave_by ThreadState.tmout sem tid = set_state tid ThreadState.free
leave_by ThreadState.migrate sem tid = set_state tid ThreadState.free

-- `--thrcount <= 1`
unfoldable pub count_down : K (Unit {0})
count_down = do
  modify (λ k. record k { thrcount = k.thrcount -ℤ pos 1 })
  last ← gets (λ k. leb_ℤ k.thrcount (pos 1))
  if last then xdone else pure tt

-- After the parent was told: the stack, the queues and the entry are given back.
unfoldable pub give_up : (ℕ → K (Unit {0})) → ℤ → K ℤ
give_up others tid = do
  thr ← thrent tid
  on_heap (stkfree thr.stkbase thr.stklen)
  others 2
  left ← thrent tid
  leave_by left.state left.sem tid
  pure OK

unfoldable pub kill : (ℕ → K (Unit {0})) → ℤ → K ℤ
kill others tid = do
  bad ← gets (λ k. isbadtid k tid)
  if bad || (tid ==ℤ pos 0) then pure syserr else do
    count_down
    others 0
    thr ← thrent tid
    send thr.parent tid
    others 1
    give_up others tid

unfoldable pub userret : (ℕ → K (Unit {0})) → K (Unit {0})
userret others = do tid ← gettid; kill others tid; pure tt
