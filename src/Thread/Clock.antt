-- ===== src/Thread/Clock.antt =====
-- Sleeping and the clock: system/sleep.c, system/wakeup.c and system/clkhandler.c.
use xinu.Base.{
  ℕ, zero, suc, ◌+◌, ◌*◌, ◌/◌, ◌%◌, ◌^◌, ℤ, pos, ltb, leb_ℤ, ◌==ℤ◌, ◌==◌, ◌-ℤ◌, if◌then◌else◌,
}
use xinu.Kernel.{
  nthread, OK, syserr, ThreadState, Kernel, K, out_of_fuel, pure, ◌>>=◌, ◌>>◌, gets, modify,
  put_queent, set_state,
}
use xinu.Queue.{insertd, dequeue, nonempty, firstid, firstkey}
use xinu.Thread.{gettid, ready, resched}

-- CLKTICKS_PER_SEC of include/clock.h
abbrev pub ticks_per_sec : ℕ
ticks_per_sec = 1000

-- The product is of `unsigned int`.
unfoldable pub sleep_ticks : ℕ → ℕ
sleep_ticks ms = ms * ticks_per_sec % 2 ^ 32 / 1000

unfoldable pub sleep : ℕ → K ℤ
sleep ms =
    if ltb 0 (sleep_ticks ms)
    then (do
      cur ← gettid
      list ← gets (λ k. k.sleepq)
      done ← insertd cur list (pos (sleep_ticks ms))
      if done ==ℤ syserr
          then pure syserr
          else do now ← gettid; set_state now ThreadState.sleep; resched; pure OK)
    else (do resched; pure OK)

-- Readies every thread at the front of the sleep queue that has no time left.
unfoldable pub wakeup_loop : ℕ → K (Unit {0})
wakeup_loop zero = λ _. out_of_fuel
wakeup_loop (suc fuel) = do
  list ← gets (λ k. k.sleepq)
  more ← nonempty list
  if more
      then (do
        key ← firstkey list
        if leb_ℤ key (pos 0) then (do tid ← dequeue list; ready tid; wakeup_loop fuel) else pure tt)
      else pure tt

unfoldable pub wakeup : K (Unit {0})
wakeup = do wakeup_loop (nthread + 1); resched; pure tt

-- One second has passed after `ticks_per_sec` ticks.
unfoldable pub count_tick : Kernel → Kernel
count_tick k =
    if k.clkticks + 1 == ticks_per_sec
    then record k { clkticks = 0; clktime = (k.clktime + 1) % 2 ^ 32 }
    else record k { clkticks = k.clkticks + 1 }

-- Less the call that programs the timer.
unfoldable pub clkhandler : K (Unit {0})
clkhandler = do
  modify count_tick
  list ← gets (λ k. k.sleepq)
  more ← nonempty list
  if more
      then (do
        first ← firstid list
        put_queent first (λ e. record e { key = e.key -ℤ pos 1 })
        key ← firstkey list
        if leb_ℤ key (pos 0) then wakeup else (do resched; pure tt))
      else do resched; pure tt
