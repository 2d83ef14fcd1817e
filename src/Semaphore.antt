-- ===== src/Semaphore.antt =====
-- Counting semaphores: system/wait.c, system/signal.c, system/signaln.c, system/semcreate.c,
-- system/semfree.c and system/semcount.c.
pub mod Block
pub mod Free
pub mod Release
pub mod Signal
pub mod Wait
pub mod Waiters
use xinu.Base.{
  ℕ, zero, suc, ◌+◌, ◌-◌, ◌^◌, ℤ, pos, negsuc, Bool, true, false, ◌||◌, not, leb, ltb, ltb_ℤ, leb_ℤ,
  ◌==◌, ◌==ℤ◌, ◌+ℤ◌, ◌-ℤ◌, if◌then◌else◌, Option, none, some,
}
use xinu.Kernel.{
  nsem, nthread, OK, syserr, ThreadState, Kernel, Sement, K, fault, out_of_fuel, pure, ◌>>=◌, ◌>>◌,
  gets, modify, update, isbadtid, put_thrent, set_state,
}
use xinu.Queue.{enqueue, dequeue, nonempty}
use xinu.Thread.{gettid, make_ready, resched}

-- A semaphore is an `unsigned int`; SYSERR as one.
abbrev pub syserr_u : ℕ
syserr_u = 2 ^ 32 - 1

unfoldable pub isbadsem : Kernel → ℕ → Bool
isbadsem k s = leb nsem s || not (k.semtab s).used

unfoldable pub sement : ℕ → K Sement
sement s = if ltb s nsem then gets (λ k. k.semtab s) else λ _. fault

unfoldable pub put_sement : ℕ → (Sement → Sement) → K (Unit {0})
put_sement s f =
    if ltb s nsem
    then modify (λ k. record k { semtab = update k.semtab s (f (k.semtab s)) })
    else λ _. fault

unfoldable pub wait : ℕ → K ℤ
wait sem = do
  bad ← gets (λ k. isbadsem k sem)
  if bad then pure syserr else do
    put_sement sem (λ s. record s { count = s.count -ℤ pos 1 })
    s ← sement sem
    if ltb_ℤ s.count (pos 0)
        then (do
          cur ← gettid
          set_state cur ThreadState.wait
          put_thrent cur (λ t. record t { sem = sem })
          enqueue cur s.queue
          resched
          pure OK)
        else pure OK

-- The first waiting thread, if there is one, becomes ready: what `signal`, `signaln` and
-- `semfree` have in common.
unfoldable pub release_one : ℤ → K (Unit {0})
release_one queue = do
  tid ← dequeue queue
  bad ← gets (λ k. isbadtid k tid)
  if bad then pure tt else make_ready tid

unfoldable pub signal : ℕ → K ℤ
signal sem = do
  bad ← gets (λ k. isbadsem k sem)
  if bad then pure syserr else do
    s ← sement sem
    put_sement sem (λ s'. record s' { count = s'.count +ℤ pos 1 })
    if ltb_ℤ s.count (pos 0) then (do release_one s.queue; resched; pure OK) else pure OK

unfoldable pub signaln_loop : ℕ → ℕ → K (Unit {0})
signaln_loop sem zero = pure tt
signaln_loop sem (suc count) = do
  s ← sement sem
  put_sement sem (λ s'. record s' { count = s'.count +ℤ pos 1 })
  if ltb_ℤ s.count (pos 0) then release_one s.queue else pure tt
  signaln_loop sem count

abbrev magnitude : ℤ → ℕ
magnitude (pos n) = n
magnitude (negsuc n) = 0

unfoldable pub signaln : ℕ → ℤ → K ℤ
signaln sem count = do
  bad ← gets (λ k. isbadsem k sem || leb_ℤ count (pos 0))
  if bad then pure syserr else do signaln_loop sem (magnitude count); resched; pure OK

unfoldable pub semfree_loop : ℕ → ℤ → K (Unit {0})
semfree_loop zero queue = λ _. out_of_fuel
semfree_loop (suc fuel) queue = do
  more ← nonempty queue
  if more then (do release_one queue; semfree_loop fuel queue) else pure tt

unfoldable pub semfree : ℕ → K ℤ
semfree sem = do
  bad ← gets (λ k. isbadsem k sem)
  if bad then pure syserr else do
    s ← sement sem
    semfree_loop (nthread + 1) s.queue
    put_sement sem (λ s'. record s' { count = pos 0 })
    put_sement sem (λ s'. record s' { used = false })
    pure OK

-- The search for a free entry begins behind the last one that was given out.
unfoldable pub semalloc_loop : ℕ → K ℕ
semalloc_loop zero = pure syserr_u
semalloc_loop (suc left) = do
  modify (λ k. record k { nextsem = if leb nsem (k.nextsem + 1) then 0 else k.nextsem + 1 })
  nextsem ← gets (λ k. k.nextsem)
  s ← sement nextsem
  if s.used
      then semalloc_loop left
      else do put_sement nextsem (λ s'. record s' { used = true }); pure nextsem

unfoldable pub semalloc : K ℕ
semalloc = semalloc_loop nsem

unfoldable pub semcreate : ℤ → K ℕ
semcreate count = if ltb_ℤ count (pos 0) then pure syserr_u else do
  sem ← semalloc
  if sem == syserr_u
      then pure sem
      else do put_sement sem (λ s. record s { count = count }); pure sem

unfoldable pub semcount : ℕ → K ℤ
semcount sem = do
  bad ← gets (λ k. isbadsem k sem)
  if bad then pure syserr else do s ← sement sem; pure s.count
