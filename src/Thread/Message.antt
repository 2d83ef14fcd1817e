-- ===== src/Thread/Message.antt =====
-- Messages between threads: system/send.c, system/receive.c, system/recvclr.c, system/recvtime.c,
-- and `unsleep` of system/unsleep.c. `others` is what the other threads do while this one is off
-- the processor, from the switch in `resched` until it is current again.
use xinu.Base.{ℤ, pos, negsuc, Bool, true, false, ◌||◌, ltb_ℤ, ◌==ℤ◌, ◌+ℤ◌, if◌then◌else◌}
use xinu.Kernel.{
  nthread, OK, syserr, is_free, ThreadState, K, pure, ◌>>=◌, ◌>>◌, gets, isbadtid, thrent,
  put_thrent, set_state, queent, put_queent,
}
use xinu.Queue.{insertd, getitem}
use xinu.Thread.{gettid, make_ready, resched}

-- TIMEOUT and NOMSG of include/stddef.h
abbrev pub timeout : ℤ
timeout = negsuc 2

abbrev pub nomsg : ℤ
nomsg = negsuc 3

abbrev pub is_recv : ThreadState → Bool
is_recv ThreadState.recv = true
is_recv _ = false

abbrev pub is_tmout : ThreadState → Bool
is_tmout ThreadState.tmout = true
is_tmout _ = false

abbrev pub is_sleep : ThreadState → Bool
is_sleep ThreadState.sleep = true
is_sleep _ = false

-- The next sleeper takes over what the thread had left.
unfoldable pub leave_sleepq : ℤ → K (Unit {0})
leave_sleepq tid = do
  entry ← queent tid
  if ltb_ℤ entry.next (pos nthread)
      then put_queent entry.next (λ e. record e { key = e.key +ℤ entry.key })
      else pure tt
  getitem tid
  pure tt

unfoldable pub unsleep : ℤ → K ℤ
unsleep tid = do
  bad ← gets (λ k. isbadtid k tid)
  if bad then pure syserr else do
    thr ← thrent tid
    if is_sleep thr.state || is_tmout thr.state then (do leave_sleepq tid; pure OK) else pure syserr

unfoldable pub send : ℤ → ℤ → K ℤ
send tid msg = do
  bad ← gets (λ k. isbadtid k tid)
  if bad then pure syserr else do
    thr ← thrent tid
    if is_free thr.state || thr.hasmsg then pure syserr else do
      put_thrent tid (λ t. record t { msg = msg })
      put_thrent tid (λ t. record t { hasmsg = true })
      if is_recv thr.state
          then (do make_ready tid; resched; pure OK)
          else if is_tmout thr.state
          then (do leave_sleepq tid; make_ready tid; resched; pure OK)
          else pure OK

unfoldable pub receive : K (Unit {0}) → K ℤ
receive others = do
  cur ← gettid
  thr ← thrent cur
  if thr.hasmsg then pure tt else do set_state cur ThreadState.recv; resched; others
  after ← thrent cur
  put_thrent cur (λ t. record t { hasmsg = false })
  pure after.msg

unfoldable pub recvclr : K ℤ
recvclr = do
  cur ← gettid
  thr ← thrent cur
  put_thrent cur (λ t. record t { hasmsg = false })
  pure (if thr.hasmsg then thr.msg else nomsg)

-- The end of `recvtime`, once the thread has a message or is current again.
unfoldable pub take_message : ℤ → K ℤ
take_message cur = do
  thr ← thrent cur
  if thr.hasmsg
      then (do put_thrent cur (λ t. record t { hasmsg = false }); pure thr.msg)
      else pure timeout

unfoldable pub recvtime : K (Unit {0}) → ℤ → K ℤ
recvtime others maxwait = if ltb_ℤ maxwait (pos 0) then pure syserr else do
  cur ← gettid
  thr ← thrent cur
  if thr.hasmsg then take_message cur else do
    list ← gets (λ k. k.sleepq)
    done ← insertd cur list maxwait
    if done ==ℤ syserr
        then pure syserr
        else do now ← gettid; set_state now ThreadState.tmout; resched; others; take_message cur
