-- ===== src/Thread/Sleep.antt =====
-- The number of ticks that `sleep` of system/sleep.c computes.
use xinu.Base.{ℕ, ◌≤◌, ◌<◌, arith}
use xinu.Thread.Clock.{sleep_ticks}

-- A request of 4294968 milliseconds or more is given fewer than 4294968 ticks of a millisecond,
-- and fewer than it asks for.
pub sleep_ticks-overflow : (ms : ℕ) → 4294968 ≤ ms → sleep_ticks ms < 4294968 × sleep_ticks ms < ms
unfolding sleep_ticks
sleep_ticks-overflow ms large = (omega arith, omega arith)
