-- ===== src/Monitor/Nested.antt =====
-- `lock` of system/lock.c by the owner, and the `unlock` of system/unlock.c that takes it back.
use xinu.Base.{ℕ, ◌+◌, ◌-◌, ◌<◌, ◌≡◌, ◌∙◌, refl, ap, pos, true, arith}
use xinu.Kernel.{OK, Kernel, K, ok, update}
use xinu.Monitor.{isbadmon, monent, put_monent, lock, unlock}
use xinu.Thread.{gettid}

module _ (nmon : ℕ) (others : K (Unit {0})) (k : Kernel) (mon c : ℕ) where
  -- The kernel in which the monitor's count is `n`.
  abbrev counted : ℕ → Kernel
  counted n = record k { montab = update k.montab mon (record (k.montab mon) { count = n }) }

  lock_owned :
      mon < nmon
      → (k.montab mon).used ≡ true
      → k.thrcurrent ≡ pos c
      → (k.montab mon).owner ≡ pos c
      → (k.montab mon).count + 1 < 4294967296
      → lock nmon others mon k ≡ ok OK (counted ((k.montab mon).count + 1))
  unfolding lock isbadmon monent put_monent gettid
  lock_owned lt used cur own small = ground (arith, lt, used, cur, own, small)

module _ (nmon : ℕ) (k : Kernel) (mon : ℕ) where
  pub unlock_inner :
      mon < nmon
      → (k.montab mon).used ≡ true
      → 1 < (k.montab mon).count
      → unlock nmon mon k
        ≡ ok OK (record k {
          montab = update k.montab mon (record (k.montab mon) { count = (k.montab mon).count - 1 });
        })
  unfolding unlock isbadmon monent put_monent
  unlock_inner lt used many = ground (arith, lt, used, many)

-- A thread that owns a monitor locks it again without waiting, which adds one to the count, and
-- the next `unlock` restores the monitor: the lock is held as often as before and nothing else has
-- changed. The count is positive and below its largest value.
pub lock-unlock_nested :
    (nmon : ℕ) (others : K (Unit {0})) (k : Kernel) (mon c : ℕ)
    → mon < nmon
    → (k.montab mon).used ≡ true
    → k.thrcurrent ≡ pos c
    → (k.montab mon).owner ≡ pos c
    → 0 < (k.montab mon).count
    → (k.montab mon).count + 1 < 4294967296
    → (k1 : Kernel) × (k2 : Kernel) × (lock nmon others mon k ≡ ok OK k1)
      × ((k1.montab mon).count ≡ (k.montab mon).count + 1)
      × (unlock nmon mon k1 ≡ ok OK k2)
      × ((j : ℕ) → k2.montab j ≡ k.montab j)
      × (k2 ≡ record k { montab = k2.montab })
lock-unlock_nested nmon others k mon c lt used cur own held small =
    let k1 = counted nmon others k mon c ((k.montab mon).count + 1) in
    let at : k1.montab mon ≡ record (k.montab mon) { count = (k.montab mon).count + 1 } =
      ground arith in
    let many : 1 < (k1.montab mon).count = ground (arith, at, held) in
    (
      k1,
      _,
      lock_owned nmon others k mon c lt used cur own small,
      ap (λ m. m.count) at,
      unlock_inner nmon k1 mon lt (ap (λ m. m.used) at ∙ used) many,
      λ j. ground arith,
      refl,
    )
