-- ===== src/Mailbox/Hold.antt =====
-- What holds of a mailbox of include/mailbox.h between two operations on it.
use xinu.Base.{
  ℕ, suc, ◌+◌, ◌≤◌, ◌<◌, ◌≡◌, ◌≢◌, refl, subst, sym, ℤ, pos, pos_part, neg_part, length, [], ◌∷◌,
  ◌+ℤ◌, ◌-ℤ◌, ltb_ℤ, Bool, true, List, arith, lt→ltb, int_laws,
}
use xinu.Kernel.{Kernel, Mbox, ok, update, modify, gets}
use xinu.Mailbox.{nmailbox, mbox, put_mbox}
use xinu.Mailbox.Ring.{IsRing}
use xinu.Semaphore.Wait.{taken}
use xinu.Semaphore.Waiters.{IsSemaphore, IsSemaphore-frame}
use xinu.Thread.Resched.{IsTop}

-- The mailbox `box` with its two semaphores on the queues `qs` and `qr`. `ws` senders have passed
-- their semaphore and not yet written, `rs` receivers have passed theirs and not yet read: there is
-- room for the former and for everyone the count still lets pass, and a message for the latter.
pub record IsMailbox (k : Kernel) (heads : ℕ → Bool) (Q : ℕ → List ℕ) (r box qs qr ws rs : ℕ)
    : Type 0 where
  pub box_in : box < nmailbox
  pub alloc : (k.mboxtab box).alloc ≡ true
  pub ring : IsRing (k.mboxtab box)
  pub sender : IsSemaphore k heads Q r (k.mboxtab box).sender qs
  pub receiver : IsSemaphore k heads Q r (k.mboxtab box).receiver qr
  pub two : (k.mboxtab box).sender ≢ (k.mboxtab box).receiver
  pub queues : qs ≢ qr
  pub room :
      pos_part (k.semtab (k.mboxtab box).sender).count + ws + (k.mboxtab box).count
      ≤ (k.mboxtab box).max
  pub held : pos_part (k.semtab (k.mboxtab box).receiver).count + rs ≤ (k.mboxtab box).count

pub mbox_in : (box : ℕ) → box < nmailbox → mbox box ≡ gets (λ k. k.mboxtab box)
unfolding mbox
mbox_in box h = rw (lt→ltb box nmailbox h)

pub mbox_at : (k : Kernel) (box : ℕ) → box < nmailbox → mbox box k ≡ ok (k.mboxtab box) k
mbox_at k box h = rw (mbox_in box h)

pub put_mbox_in :
    (box : ℕ) (f : Mbox → Mbox)
    → box < nmailbox
    → put_mbox box f ≡ modify (λ k. record k { mboxtab = update k.mboxtab box (f (k.mboxtab box)) })
unfolding put_mbox
put_mbox_in box f h = rw (lt→ltb box nmailbox h)

-- The kernel with other words and another mailbox table.
abbrev pub with_boxes : Kernel → (ℕ → Mbox) → (ℕ → ℤ) → Kernel
with_boxes k boxes words = record k { mboxtab = boxes; words = words }

module _ (k : Kernel) (heads : ℕ → Bool) (Q : ℕ → List ℕ) (r : ℕ) (boxes : ℕ → Mbox)
    (words : ℕ → ℤ) where
  -- The scheduler and the semaphores do not depend on the mailboxes.
  pub IsTop-boxes : (c : ℕ) → IsTop k heads Q r c → IsTop (with_boxes k boxes words) heads Q r c
  IsTop-boxes c t = record {
    sched = record {
      readylist = t.sched.readylist;
      head = t.sched.head;
      system = t.sched.system;
      sorted = t.sched.sorted;
      ready = t.sched.ready;
      prios = t.sched.prios;
    };
    current = t.current;
    curr = t.curr;
    c_in = t.c_in;
    apart = t.apart;
    top = t.top;
  }

  pub IsSemaphore-boxes :
      (s q : ℕ) → IsSemaphore k heads Q r s q → IsSemaphore (with_boxes k boxes words) heads Q r s q
  IsSemaphore-boxes s q i =
      IsSemaphore-frame k (with_boxes k boxes words) heads Q Q r s q refl refl (λ j h. refl) i

-- A signal on a semaphore lets one more through at once if somebody waits.
abbrev pub woken : List ℕ → ℕ → ℕ
woken [] n = n
woken (x ∷ xs) n = suc n

pub pos_part-woken :
    (c : ℤ) (l : List ℕ) (n : ℕ)
    → neg_part c ≡ length l
    → pos_part (c +ℤ pos 1) + woken l n ≤ suc (pos_part c + n)
pos_part-woken c [] n h = grind int_laws
pos_part-woken c (x ∷ xs) n h = grind int_laws

-- The invariant from what the entry is known to be.
pub entry-IsMailbox :
    (k : Kernel) (heads : ℕ → Bool) (Q : ℕ → List ℕ) (r box qs qr ws rs : ℕ) (m : Mbox)
    → k.mboxtab box ≡ m
    → box < nmailbox
    → m.alloc ≡ true
    → IsRing m
    → IsSemaphore k heads Q r m.sender qs
    → IsSemaphore k heads Q r m.receiver qr
    → m.sender ≢ m.receiver
    → qs ≢ qr
    → pos_part (k.semtab m.sender).count + ws + m.count ≤ m.max
    → pos_part (k.semtab m.receiver).count + rs ≤ m.count
    → IsMailbox k heads Q r box qs qr ws rs
entry-IsMailbox k heads Q r box qs qr ws rs m e box_in alloc ring send recv two queues room held =
    record {
      box_in = box_in;
      alloc = rw e alloc;
      ring = subst IsRing (sym e) ring;
      sender = rw e send;
      receiver = rw e recv;
      two = rw e two;
      queues = queues;
      room = rw e room;
      held = rw e held;
    }

-- A thread that passes a semaphore with a positive count takes a place, and leaves other
-- semaphores alone.
pub pos_part-down :
    (c : ℤ) (n : ℕ) → ltb_ℤ (pos 0) c ≡ true → pos_part (c -ℤ pos 1) + suc n ≡ pos_part c + n
pos_part-down c n h = grind int_laws

pub IsSemaphore-taken :
    (k : Kernel) (heads : ℕ → Bool) (Q : ℕ → List ℕ) (r s s2 q2 : ℕ)
    → s2 ≢ s
    → IsSemaphore k heads Q r s2 q2
    → IsSemaphore (taken k s) heads Q r s2 q2
IsSemaphore-taken k heads Q r s s2 q2 ne i =
    IsSemaphore-frame k (taken k s) heads Q Q r s2 q2 (ground arith) refl (λ j h. refl) i
