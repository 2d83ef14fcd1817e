-- ===== src/Examples/Mailboxes.antt =====
-- Two mailboxes, one that a receiver waits for and one that a sender waits for, and the theorems at
-- them.
use xinu.Base.{ℕ, ◌+◌, ◌≡◌, refl, ℤ, pos, true, List, [], ◌∷◌, arith, ◌==◌, if◌then◌else◌}
use xinu.Examples.Threads.{busy, heads, contents, busy-IsTop, IsSemaphore-4, IsSemaphore-5}
use xinu.Kernel.{OK, Kernel, Mbox, ok, pure}
use xinu.Mailbox.{mailbox_send, mailbox_receive}
use xinu.Mailbox.Hold.{IsMailbox, with_boxes, IsTop-boxes, IsSemaphore-boxes}
use xinu.Mailbox.Receive.{Received, mailbox_receive-Received}
use xinu.Mailbox.Send.{Sent, mailbox_send-Sent, mailbox_send-late}
use xinu.Semaphore.Block.{wait-blocks}
use xinu.Semaphore.Waiters.{IsSemaphore}
use xinu.Thread.Resched.{IsTop}

abbrev boxes : ℕ → Mbox
boxes j =
    if j == 1
    then record {
      alloc = true;
      sender = 5;
      receiver = 4;
      max = 2;
      count = 0;
      start = 1;
      msgs = 4096;
    }
    else record {
      alloc = true;
      sender = 4;
      receiver = 5;
      max = 3;
      count = 2;
      start = 2;
      msgs = 4112;
    }

abbrev cells : ℕ → ℤ
cells a = pos (a + 1)

abbrev posted : Kernel
posted = with_boxes busy boxes cells

posted-IsTop : IsTop posted heads contents 300 7
posted-IsTop = IsTop-boxes busy heads contents 300 boxes cells 7 busy-IsTop

IsSemaphore-posted_4 : IsSemaphore posted heads contents 300 4 200
IsSemaphore-posted_4 = IsSemaphore-boxes busy heads contents 300 boxes cells 4 200 IsSemaphore-4

IsSemaphore-posted_5 : IsSemaphore posted heads contents 300 5 202
IsSemaphore-posted_5 = IsSemaphore-boxes busy heads contents 300 boxes cells 5 202 IsSemaphore-5

IsMailbox-1 : IsMailbox posted heads contents 300 1 202 200 0 0
IsMailbox-1 = record {
  box_in = omega arith;
  alloc = refl;
  ring = ground arith;
  sender = IsSemaphore-posted_5;
  receiver = IsSemaphore-posted_4;
  two = ground arith;
  queues = ground arith;
  room = omega arith;
  held = omega arith;
}

IsMailbox-2 : IsMailbox posted heads contents 300 2 200 202 1 0
IsMailbox-2 = record {
  box_in = omega arith;
  alloc = refl;
  ring = ground arith;
  sender = IsSemaphore-posted_4;
  receiver = IsSemaphore-posted_5;
  two = ground arith;
  queues = ground arith;
  room = omega arith;
  held = omega arith;
}

mailbox_send-Sent_example :
    (k' : Kernel) × (Q' : ℕ → List ℕ) × (c' : ℕ) × (mailbox_send (pure tt) 1 (pos 99) posted
      ≡ ok OK k')
    × Sent posted heads contents 300 1 202 200 0 0 (pos 99) k' Q' c'
mailbox_send-Sent_example =
    mailbox_send-Sent posted heads contents 300 1 202 200 0 0 7 (pos 99) posted-IsTop refl
      (omega arith) IsMailbox-1 refl

mailbox_receive-Received_example :
    (k' : Kernel) × (Q' : ℕ → List ℕ) × (c' : ℕ) × (x : ℤ) × (mailbox_receive (pure tt) 2 posted
      ≡ ok x k')
    × Received posted heads contents 300 2 200 202 1 0 x k' Q' c'
mailbox_receive-Received_example =
    mailbox_receive-Received posted heads contents 300 2 200 202 1 0 7 posted-IsTop refl
      (omega arith) IsMailbox-2 refl

-- The caller waits, and meanwhile the others bring back the state it started from.
mailbox_send-late_example :
    (k' : Kernel) × (Q' : ℕ → List ℕ) × (c' : ℕ) × (mailbox_send
        (λ k. ok tt posted)
        2
        (pos 99)
        posted
      ≡ ok OK k')
    × Sent posted heads contents 300 2 200 202 0 0 (pos 99) k' Q' c'
mailbox_send-late_example =
    mailbox_send-late posted
      (wait-blocks posted heads contents 300 4 200 7 3 (5 ∷ []) posted-IsTop refl (omega arith)
        IsSemaphore-posted_4 refl refl).0
      posted heads contents 300 2 200 202 0 0 7 (pos 99) OK (λ k. ok tt posted) refl
      (wait-blocks posted heads contents 300 4 200 7 3 (5 ∷ []) posted-IsTop refl (omega arith)
        IsSemaphore-posted_4 refl refl).1.ran
      refl posted-IsTop refl (omega arith) IsMailbox-2
