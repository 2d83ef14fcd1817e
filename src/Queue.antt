-- ===== src/Queue.antt =====
-- The thread queues: system/queue.c, system/getitem.c, system/insert.c, system/insertd.c and
-- system/queinit.c. A queue is named by the index of its head; its tail is the next entry.
pub mod Chain
pub mod Contents
pub mod Delta
pub mod Ends
pub mod Fifo
pub mod Init
pub mod Links
pub mod Sorted
pub mod System
use xinu.Base.{
  ℕ, zero, suc, ◌+◌, ℤ, pos, negsuc, Bool, ◌&&◌, ◌||◌, not, ◌-ℤ◌, ltb_ℤ, leb_ℤ, ◌==ℤ◌, ltb,
  if◌then◌else◌,
}
use xinu.Kernel.{
  nthread, nqent, OK, syserr, empty, maxkey, minkey, K, out_of_fuel, pure, ◌>>=◌, ◌>>◌, gets,
  modify, isbadtid, isbadqid, queent, put_queent, set_next, set_prev, set_key,
}

abbrev pub quehead : ℤ → ℤ
quehead q = q

abbrev pub quetail : ℤ → ℤ
quetail (pos n) = pos (n + 1)
quetail (negsuc zero) = pos 0
quetail (negsuc (suc n)) = negsuc n

-- `isempty` and `nonempty` of include/queue.h
unfoldable pub isempty : ℤ → K Bool
isempty q = do head ← queent (quehead q); pure (leb_ℤ (pos nthread) head.next)

unfoldable pub nonempty : ℤ → K Bool
nonempty q = do head ← queent (quehead q); pure (ltb_ℤ head.next (pos nthread))

unfoldable pub firstid : ℤ → K ℤ
firstid q = do head ← queent (quehead q); pure head.next

unfoldable pub firstkey : ℤ → K ℤ
firstkey q = do head ← queent (quehead q); first ← queent head.next; pure first.key

unfoldable pub lastkey : ℤ → K ℤ
lastkey q = do tail ← queent (quetail q); last ← queent tail.prev; pure last.key

unfoldable pub getitem : ℤ → K ℤ
getitem tid = do
  entry ← queent tid
  set_next entry.prev entry.next
  set_prev entry.next entry.prev
  set_next tid empty
  set_prev tid empty
  pure tid

unfoldable pub getfirst : ℤ → K ℤ
getfirst q = if isbadqid q then pure syserr else do
  none_left ← isempty q
  if none_left then pure empty else do head ← queent (quehead q); getitem head.next

unfoldable pub getlast : ℤ → K ℤ
getlast q = if isbadqid q then pure syserr else do
  none_left ← isempty q
  if none_left then pure empty else do tail ← queent (quetail q); getitem tail.prev

unfoldable pub enqueue : ℤ → ℤ → K ℤ
enqueue tid q = do
  bad ← gets (λ k. isbadqid q || isbadtid k tid)
  if bad then pure syserr else do
    tail ← queent (quetail q)
    set_next tid (quetail q)
    set_prev tid tail.prev
    set_next tail.prev tid
    set_prev (quetail q) tid
    pure tid

unfoldable pub dequeue : ℤ → K ℤ
dequeue q = if isbadqid q then pure syserr else do
  none_left ← isempty q
  if none_left then pure empty else do
    tid ← getfirst q
    bad ← gets (λ k. isbadtid k tid)
    if bad then pure tid else do set_prev tid empty; set_next tid empty; pure tid

-- The walk of `insert`: the first entry whose key is below `key`.
unfoldable pub insert_loop : ℕ → ℤ → ℤ → K ℤ
insert_loop zero next key = λ _. out_of_fuel
insert_loop (suc fuel) next key = do
  entry ← queent next
  if leb_ℤ key entry.key then insert_loop fuel entry.next key else pure next

unfoldable pub insert : ℤ → ℤ → ℤ → K ℤ
insert tid q key = do
  bad ← gets (λ k. isbadqid q || isbadtid k tid)
  if bad then pure syserr else do
    head ← queent (quehead q)
    next ← insert_loop (nthread + 1) head.next key
    set_next tid next
    entry ← queent next
    set_prev tid entry.prev
    set_key tid key
    set_next entry.prev tid
    set_prev next tid
    pure OK

-- The walk of `insertd`: what is left of `key`, and the two entries to stand between.
pub record Place : Type 0 where
  pub key : ℤ
  pub prev : ℤ
  pub next : ℤ

unfoldable pub insertd_loop : ℕ → ℤ → Place → K Place
insertd_loop zero q p = λ _. out_of_fuel
insertd_loop (suc fuel) q p = do
  entry ← queent p.next
  if leb_ℤ entry.key p.key && not (p.next ==ℤ quetail q)
      then insertd_loop fuel q
          (record { key = p.key -ℤ entry.key; prev = p.next; next = entry.next })
      else pure p

unfoldable pub insertd : ℤ → ℤ → ℤ → K ℤ
insertd tid q key = do
  bad ← gets (λ k. isbadqid q || isbadtid k tid)
  if bad then pure syserr else do
    head ← queent (quehead q)
    p ← insertd_loop (nthread + 1) q (record { key = key; prev = quehead q; next = head.next })
    set_next tid p.next
    set_prev tid p.prev
    set_key tid p.key
    set_next p.prev tid
    set_prev p.next tid
    if p.next ==ℤ quetail q
        then pure OK
        else do put_queent p.next (λ e. record e { key = e.key -ℤ p.key }); pure OK

-- A new queue takes the next two entries.
unfoldable pub queinit : K ℤ
queinit = do
  nextqid ← gets (λ k. k.nextqid)
  if ltb nqent nextqid then pure syserr else do
    let q = pos nextqid
    modify (λ k. record k { nextqid = nextqid + 2 })
    set_next (quehead q) (quetail q)
    set_prev (quehead q) empty
    set_key (quehead q) maxkey
    set_next (quetail q) empty
    set_prev (quetail q) (quehead q)
    set_key (quetail q) minkey
    pure q
