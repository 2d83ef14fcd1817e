-- ===== src/Mailbox.antt =====
-- Mailboxes: mailbox/mailboxInit.c, mailbox/mailboxAlloc.c, mailbox/mailboxFree.c,
-- mailbox/mailboxSend.c, mailbox/mailboxReceive.c, mailbox/mailboxCount.c and include/mailbox.h.
-- `others` is what the other threads do while a call waits on a semaphore.
pub mod Hold
pub mod Receive
pub mod Ring
pub mod Send
use xinu.Base.{
  ℕ, zero, suc, ◌+◌, ◌-◌, ◌*◌, ◌%◌, ◌^◌, ℤ, pos, negsuc, Bool, true, false, ◌||◌, not, leb, ltb,
  ◌==◌, if◌then◌else◌,
}
use xinu.Kernel.{
  OK, syserr, Kernel, Mbox, K, fault, pure, ◌>>=◌, ◌>>◌, gets, modify, update, on_heap,
}
use xinu.Memory.{memget, memfree, nowhere}
use xinu.Semaphore.{wait, signal, semcreate, semfree, syserr_u}

-- NMAILBOX of include/conf.h
abbrev pub nmailbox : ℕ
nmailbox = 15

unfoldable pub mbox : ℕ → K Mbox
mbox box = if ltb box nmailbox then gets (λ k. k.mboxtab box) else λ _. fault

unfoldable pub put_mbox : ℕ → (Mbox → Mbox) → K (Unit {0})
put_mbox box f =
    if ltb box nmailbox
    then modify (λ k. record k { mboxtab = update k.mboxtab box (f (k.mboxtab box)) })
    else λ _. fault

-- The address of `msgs[i]`.
abbrev pub slot_of : Mbox → ℕ → ℕ
slot_of m i = m.msgs + 4 * i

-- An `unsigned int` as an `int`.
abbrev pub to_int : ℕ → ℤ
to_int n = if ltb n (2 ^ 31) then pos n else negsuc (2 ^ 32 - 1 - n)

unfoldable pub init_loop : ℕ → K (Unit {0})
init_loop zero = pure tt
init_loop (suc n) = do init_loop n; put_mbox n (λ m. record m { alloc = false })

unfoldable pub mailbox_init : K ℤ
mailbox_init = do
  init_loop nmailbox
  sem ← semcreate (pos 1)
  modify (λ k. record k { mboxtabsem = sem })
  if sem == syserr_u then pure syserr else pure OK

-- Setting up the free mailbox `box`; the value answered is it, or SYSERR.
unfoldable pub set_up : ℕ → ℕ → K ℤ
set_up count box = do
  msgs ← on_heap (memget (4 * count % 2 ^ 32))
  put_mbox box (λ m. record m { msgs = msgs })
  if msgs == nowhere then pure syserr else do
    put_mbox box (λ m. record m { count = 0 })
    put_mbox box (λ m. record m { start = 0 })
    put_mbox box (λ m. record m { max = count })
    sender ← semcreate (to_int count)
    put_mbox box (λ m. record m { sender = sender })
    receiver ← semcreate (pos 0)
    put_mbox box (λ m. record m { receiver = receiver })
    if (sender == syserr_u) || (receiver == syserr_u)
        then (do
          on_heap (memfree msgs (4 * count % 2 ^ 32))
          semfree sender
          semfree receiver
          pure syserr)
        else do put_mbox box (λ m. record m { alloc = true }); pure (pos box)

unfoldable pub alloc_box : ℕ → ℕ → K ℤ
alloc_box zero count = pure syserr
alloc_box (suc left) count = do
  modify (λ k. record k { nextmbx = (k.nextmbx + 1) % nmailbox })
  box ← gets (λ k. k.nextmbx)
  m ← mbox box
  if m.alloc then alloc_box left count else set_up count box

unfoldable pub mailbox_alloc : K (Unit {0}) → ℕ → K ℤ
mailbox_alloc others count = do
  table ← gets (λ k. k.mboxtabsem)
  wait table
  others
  retval ← alloc_box nmailbox count
  table' ← gets (λ k. k.mboxtabsem)
  signal table'
  pure retval

-- Writing the message behind the others; `%` by a maximum of 0 is a fault.
unfoldable pub store : ℕ → ℤ → K (Unit {0})
store box mailmsg = do
  m ← mbox box
  if m.max == 0 then (λ _. fault) else do
    modify (λ k. record k {
      words = update k.words (slot_of m ((m.start + m.count) % 2 ^ 32 % m.max)) mailmsg;
    })
    put_mbox box (λ m. record m { count = (m.count + 1) % 2 ^ 32 })

unfoldable pub mailbox_send : K (Unit {0}) → ℕ → ℤ → K ℤ
mailbox_send others box mailmsg = if leb nmailbox box then pure syserr else do
  m ← mbox box
  if not m.alloc then pure syserr else do
    wait m.sender
    others
    m' ← mbox box
    if not m'.alloc
        then pure syserr
        else do store box mailmsg; m'' ← mbox box; signal m''.receiver; pure OK

-- Taking the first message.
unfoldable pub fetch : ℕ → K ℤ
fetch box = do
  m ← mbox box
  retval ← gets (λ k. k.words (slot_of m m.start))
  if m.max == 0 then (λ _. fault) else do
    put_mbox box (λ m. record m { start = (m.start + 1) % 2 ^ 32 % m.max })
    put_mbox box (λ m. record m { count = (m.count + 2 ^ 32 - 1) % 2 ^ 32 })
    pure retval

unfoldable pub mailbox_receive : K (Unit {0}) → ℕ → K ℤ
mailbox_receive others box = if leb nmailbox box then pure syserr else do
  m ← mbox box
  if not m.alloc then pure syserr else do
    wait m.receiver
    others
    m' ← mbox box
    if not m'.alloc
        then pure syserr
        else do retval ← fetch box; m'' ← mbox box; signal m''.sender; pure retval

unfoldable pub mailbox_count : ℕ → K ℤ
mailbox_count box =
    if leb nmailbox box
    then pure syserr
    else do m ← mbox box; if m.alloc then pure (pos m.count) else pure syserr

-- Freeing the mailbox `box`, the table locked.
unfoldable pub free_box : ℕ → K ℤ
free_box box = do
  m ← mbox box
  if m.alloc
      then (do
        put_mbox box (λ m. record m { alloc = false })
        semfree m.sender
        semfree m.receiver
        on_heap (memfree m.msgs (4 * m.max % 2 ^ 32))
        pure OK)
      else pure syserr

unfoldable pub mailbox_free : K (Unit {0}) → ℕ → K ℤ
mailbox_free others box = if leb nmailbox box then pure syserr else do
  table ← gets (λ k. k.mboxtabsem)
  wait table
  others
  retval ← free_box box
  table' ← gets (λ k. k.mboxtabsem)
  signal table'
  pure retval
