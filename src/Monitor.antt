-- ===== src/Monitor.antt =====
-- Monitors: system/moncreate.c, system/monfree.c, system/lock.c, system/unlock.c,
-- system/moncount.c and include/monitor.h. NMON is a setting of the build.
pub mod Nested
pub mod Overtaken
use xinu.Base.{
  ℕ, zero, suc, ◌+◌, ◌-◌, ◌%◌, ◌^◌, ℤ, pos, negsuc, Bool, true, false, ◌||◌, not, leb, ltb, ◌==◌,
  ◌==ℤ◌, if◌then◌else◌,
}
use xinu.Kernel.{OK, syserr, Kernel, Monent, K, fault, pure, ◌>>=◌, ◌>>◌, gets, modify, update}
use xinu.Semaphore.{wait, signal, semcreate, semfree, syserr_u}
use xinu.Thread.{gettid}

-- NOOWNER
abbrev pub noowner : ℤ
noowner = negsuc 0

module _ (nmon : ℕ) where
  unfoldable pub isbadmon : Kernel → ℕ → Bool
  isbadmon k m = leb nmon m || not (k.montab m).used

  unfoldable pub monent : ℕ → K Monent
  monent m = if ltb m nmon then gets (λ k. k.montab m) else λ _. fault

  unfoldable pub put_monent : ℕ → (Monent → Monent) → K (Unit {0})
  put_monent m f =
      if ltb m nmon
      then modify (λ k. record k { montab = update k.montab m (f (k.montab m)) })
      else λ _. fault

  abbrev pub count_up : ℕ → K (Unit {0})
  count_up mon = put_monent mon (λ m. record m { count = (m.count + 1) % 2 ^ 32 })

  -- Claiming a monitor that nobody owns, and one after its semaphore let the caller through.
  unfoldable pub take_free : ℕ → ℤ → K (Unit {0})
  take_free mon cur = do
    put_monent mon (λ m. record m { owner = cur })
    count_up mon
    m ← monent mon
    wait m.sem
    pure tt

  unfoldable pub claim : ℕ → K (Unit {0})
  claim mon = do now ← gettid; put_monent mon (λ m. record m { owner = now }); count_up mon

  -- `others` is what the other threads do while this one waits.
  unfoldable pub lock : K (Unit {0}) → ℕ → K ℤ
  lock others mon = do
    bad ← gets (λ k. isbadmon k mon)
    if bad then pure syserr else do
      m ← monent mon
      cur ← gettid
      if noowner ==ℤ m.owner
          then (do take_free mon cur; others; pure OK)
          else if cur ==ℤ m.owner
          then (do count_up mon; pure OK)
          else do wait m.sem; others; claim mon; pure OK

  unfoldable pub unlock : ℕ → K ℤ
  unlock mon = do
    bad ← gets (λ k. isbadmon k mon)
    if bad then pure syserr else do
      m ← monent mon
      if m.count == 0 then pure syserr else do
        put_monent mon (λ m. record m { count = m.count - 1 })
        m' ← monent mon
        if m'.count == 0
            then (do put_monent mon (λ m. record m { owner = noowner }); signal m'.sem; pure OK)
            else pure OK

  unfoldable pub monalloc_loop : ℕ → K ℕ
  monalloc_loop zero = pure syserr_u
  monalloc_loop (suc left) = do
    modify (λ k. record k { nextmon = if leb nmon (k.nextmon + 1) then 0 else k.nextmon + 1 })
    nextmon ← gets (λ k. k.nextmon)
    m ← monent nextmon
    if m.used
        then monalloc_loop left
        else do put_monent nextmon (λ m. record m { used = true }); pure nextmon

  unfoldable pub moncreate : K ℕ
  moncreate = do
    mon ← monalloc_loop nmon
    if mon == syserr_u then pure mon else do
      put_monent mon (λ m. record m { owner = noowner })
      put_monent mon (λ m. record m { count = 0 })
      sem ← semcreate (pos 1)
      put_monent mon (λ m. record m { sem = sem })
      if sem == syserr_u
          then (do put_monent mon (λ m. record m { used = false }); pure syserr_u)
          else pure mon

  -- A semaphore with the index 0 is not freed.
  unfoldable pub monfree : ℕ → K ℤ
  monfree mon = do
    bad ← gets (λ k. isbadmon k mon)
    if bad then pure syserr else do
      m ← monent mon
      if m.sem == 0 then pure syserr else semfree m.sem
      put_monent mon (λ m. record m { used = false })
      pure OK

  unfoldable pub moncount : ℕ → K ℤ
  moncount mon = do
    bad ← gets (λ k. isbadmon k mon)
    if bad then pure syserr else do m ← monent mon; pure (pos m.count)
