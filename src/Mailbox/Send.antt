-- ===== src/Mailbox/Send.antt =====
-- `mailboxSend` of mailbox/mailboxSend.c.
use native.Mathlib.Nat.{mod-eq_of_lt}
use xinu.Base.{
  ℕ, suc, ◌+◌, ◌%◌, ◌^◌, ◌<◌, ◌≡◌, refl, ap, ◌∙◌, sym, ℤ, pos, ◌<ℤ◌, ltb_ℤ, false, true, Bool, List,
  [], ◌∷◌, ◌++◌, arith, leb, ◌==◌,
}
use xinu.Kernel.{OK, syserr, Kernel, K, ok, update, minkey, pure, ◌>>=◌, ◌>>◌}
use xinu.Mailbox.{slot_of, mbox, store, mailbox_send, nmailbox}
use xinu.Mailbox.Hold.{
  IsMailbox, mbox_in, mbox_at, put_mbox_in, with_boxes, IsTop-boxes, IsSemaphore-boxes, woken,
  pos_part-woken, entry-IsMailbox, pos_part-down, IsSemaphore-taken,
}
use xinu.Mailbox.Ring.{messages, messages-store}
use xinu.Semaphore.{wait, signal}
use xinu.Semaphore.Signal.{signal-Signalled}
use xinu.Semaphore.Wait.{taken, wait-passes}
use xinu.Thread.Resched.{IsTop}

-- The kernel with a message written behind the others.
abbrev pub written : Kernel → ℕ → ℤ → Kernel
written k box x =
    let m = k.mboxtab box in
    with_boxes k (update k.mboxtab box (record m { count = suc m.count }))
      (update k.words (slot_of m ((m.start + m.count) % m.max)) x)

module _ (k : Kernel) (heads : ℕ → Bool) (Q : ℕ → List ℕ) (r box qs qr ws rs : ℕ) (x : ℤ)
    (b : IsMailbox k heads Q r box qs qr (suc ws) rs) where
  store_run : store box x k ≡ ok tt (written k box x)
  unfolding store
  store_run =
      let nonzero : ((k.mboxtab box).max == 0) ≡ false = ground (arith, b.ring.start_in) in
      let sum : ((k.mboxtab box).start + (k.mboxtab box).count) % 2 ^ 32
          ≡ (k.mboxtab box).start + (k.mboxtab box).count =
        mod-eq_of_lt (omega (arith, b.ring.start_in, b.ring.count_in, b.ring.small)) in
      let up : ((k.mboxtab box).count + 1) % 2 ^ 32 ≡ suc (k.mboxtab box).count =
        omega (arith, b.ring.count_in, b.ring.small) in
      rw (mbox_in box b.box_in, put_mbox_in box _ b.box_in, nonzero, sum, up) refl

  entry :
      (written k box x).mboxtab box ≡ record (k.mboxtab box) { count = suc (k.mboxtab box).count }
  entry = ground arith

  written-messages :
      messages (written k box x).words ((written k box x).mboxtab box)
      ≡ messages k.words (k.mboxtab box) ++ x ∷ []
  written-messages =
      ap (messages (written k box x).words) entry
      ∙ messages-store k.words (k.mboxtab box) b.ring x (omega (arith, b.room))

-- What writing a message and signalling the receivers leaves.
pub record Sent (k : Kernel) (heads : ℕ → Bool) (Q : ℕ → List ℕ) (r box qs qr ws rs : ℕ) (x : ℤ)
    (k' : Kernel) (Q' : ℕ → List ℕ) (c' : ℕ) : Type 0 where
  pub top : IsTop k' heads Q' r c'
  pub kept : IsMailbox k' heads Q' r box qs qr ws (woken (Q qr) rs)
  pub list : messages k'.words (k'.mboxtab box) ≡ messages k.words (k.mboxtab box) ++ x ∷ []

-- The end of `mailboxSend`, once there is room.
abbrev pub deliver : ℕ → ℤ → K ℤ
deliver box x = do store box x; m ← mbox box; signal m.receiver; pure OK

module _ (k : Kernel) (heads : ℕ → Bool) (Q : ℕ → List ℕ) (r box qs qr ws rs c : ℕ) (x : ℤ)
    (t : IsTop k heads Q r c) (now : k.resdefer ≡ 0) (low : minkey <ℤ (k.thrtab c).prio)
    (b : IsMailbox k heads Q r box qs qr (suc ws) rs) where
  deliver-Sent :
      (k' : Kernel) × (Q' : ℕ → List ℕ) × (c' : ℕ) × (deliver box x k ≡ ok OK k')
      × Sent k heads Q r box qs qr ws rs x k' Q' c'
  deliver-Sent =
      let k1 = written k box x in
      let m = k.mboxtab box in
      let (k2, Q2, c2, done) =
        signal-Signalled k1 heads Q r m.receiver qr c
          (IsTop-boxes k heads Q r k1.mboxtab k1.words c t) now low
          (IsSemaphore-boxes k heads Q r k1.mboxtab k1.words m.receiver qr b.receiver) in
      let boxes : k2.mboxtab box ≡ record m { count = suc m.count } =
        ap (λ a. a.mboxtab box) done.frame ∙ entry k heads Q r box qs qr ws rs x b in
      let same : k2.semtab m.sender ≡ k.semtab m.sender = done.sems m.sender b.two in
      (
        k2,
        Q2,
        c2,
        rw
            (
              store_run k heads Q r box qs qr ws rs x b,
              mbox_in box b.box_in,
              entry k heads Q r box qs qr ws rs x b,
              done.ran,
            )
            refl,
        record {
          top = done.top;
          kept =
              entry-IsMailbox k2 heads Q2 r box qs qr ws (woken (Q qr) rs)
                (record m { count = suc m.count }) boxes b.box_in b.alloc
                (record {
                  start_in = b.ring.start_in;
                  count_in = omega (arith, b.room);
                  small = b.ring.small;
                })
                (done.other_kept m.sender qs b.two b.queues
                  (IsSemaphore-boxes k heads Q r k1.mboxtab k1.words m.sender qs b.sender))
                done.kept b.two b.queues (rw same omega (arith, b.room))
                (rw done.count omega (
                  arith,
                  pos_part-woken (k.semtab m.receiver).count (Q qr) rs b.receiver.count,
                  b.held,
                ));
          list =
              ap (λ w. messages w (k2.mboxtab box)) (ap (λ a. a.words) done.frame)
              ∙ ap (λ e. messages k1.words e) (boxes ∙ sym (entry k heads Q r box qs qr ws rs x b))
              ∙ written-messages k heads Q r box qs qr ws rs x b;
        },
      )

-- The part of `mailboxSend` after the wait.
send_run :
    (k k1 k2 k3 : Kernel) (others : K (Unit {0})) (box : ℕ) (x v : ℤ)
    → box < nmailbox
    → (k.mboxtab box).alloc ≡ true
    → wait (k.mboxtab box).sender k ≡ ok v k1
    → others k1 ≡ ok tt k2
    → (k2.mboxtab box).alloc ≡ true
    → deliver box x k2 ≡ ok OK k3
    → mailbox_send others box x k ≡ ok OK k3
unfolding mailbox_send
send_run k k1 k2 k3 others box x v box_in alloc waited run there done =
    let inside : leb nmailbox box ≡ false = ground arith in
    rw (inside, mbox_at k box box_in, alloc, waited, run, mbox_at k2 box box_in, there) done

passed-IsMailbox :
    (k : Kernel) (heads : ℕ → Bool) (Q : ℕ → List ℕ) (r box qs qr ws rs c : ℕ)
    → IsTop k heads Q r c
    → IsMailbox k heads Q r box qs qr ws rs
    → ltb_ℤ (pos 0) (k.semtab (k.mboxtab box).sender).count ≡ true
    → IsMailbox (taken k (k.mboxtab box).sender) heads Q r box qs qr (suc ws) rs
passed-IsMailbox k heads Q r box qs qr ws rs c t b h =
    let m = k.mboxtab box in
    let w = wait-passes k heads Q r m.sender qs c t b.sender h in
    let other =
      IsSemaphore-taken k heads Q r m.sender m.receiver qr (λ e. b.two (sym e)) b.receiver in
    let still : (taken k m.sender).semtab m.receiver ≡ k.semtab m.receiver =
      ground (arith, b.two) in
    let down = pos_part-down (k.semtab m.sender).count ws h in
    entry-IsMailbox (taken k m.sender) heads Q r box qs qr (suc ws) rs m refl b.box_in b.alloc
      b.ring w.kept other b.two b.queues (rw w.count (omega (arith, down, b.room)))
      (rw still b.held)

-- `mailboxSend` by the running thread, whose priority is above MINKEY, without a deferral and while
-- the count of the senders' semaphore is positive: it answers OK, the message is behind the others
-- in the queue, and the invariants of the scheduler and of the mailbox are kept. Every sender and
-- receiver that has passed its semaphore still has its place, and so has the receiver it wakes.
pub mailbox_send-Sent :
    (k : Kernel) (heads : ℕ → Bool) (Q : ℕ → List ℕ) (r box qs qr ws rs c : ℕ) (x : ℤ)
    → IsTop k heads Q r c
    → k.resdefer ≡ 0
    → minkey <ℤ (k.thrtab c).prio
    → IsMailbox k heads Q r box qs qr ws rs
    → ltb_ℤ (pos 0) (k.semtab (k.mboxtab box).sender).count ≡ true
    → (k' : Kernel) × (Q' : ℕ → List ℕ) × (c' : ℕ) × (mailbox_send (pure tt) box x k ≡ ok OK k')
      × Sent k heads Q r box qs qr ws rs x k' Q' c'
mailbox_send-Sent k heads Q r box qs qr ws rs c x t now low b h =
    let m = k.mboxtab box in
    let w = wait-passes k heads Q r m.sender qs c t b.sender h in
    let (k', Q', c', run, sent) =
      deliver-Sent (taken k m.sender) heads Q r box qs qr ws rs c x w.top now low
        (passed-IsMailbox k heads Q r box qs qr ws rs c t b h) in
    (
      k',
      Q',
      c',
      send_run k (taken k m.sender) (taken k m.sender) k' (pure tt) box x OK b.box_in b.alloc w.ran
          refl b.alloc run,
      record { top = sent.top; kept = sent.kept; list = sent.list },
    )

-- `mailboxSend` by a thread that has to wait, whatever the other threads do meanwhile: when the
-- caller is on top again, without a deferral, with a priority above MINKEY, and with a place kept
-- for it in a mailbox that is still allocated, it answers OK, the message is behind the others of
-- then, and the invariants of the scheduler and of the mailbox are kept.
pub mailbox_send-late :
    (k k1 k2 : Kernel) (heads : ℕ → Bool) (Q : ℕ → List ℕ) (r box qs qr ws rs c : ℕ) (x v : ℤ)
    (others : K (Unit {0}))
    → (k.mboxtab box).alloc ≡ true
    → wait (k.mboxtab box).sender k ≡ ok v k1
    → others k1 ≡ ok tt k2
    → IsTop k2 heads Q r c
    → k2.resdefer ≡ 0
    → minkey <ℤ (k2.thrtab c).prio
    → IsMailbox k2 heads Q r box qs qr (suc ws) rs
    → (k' : Kernel) × (Q' : ℕ → List ℕ) × (c' : ℕ) × (mailbox_send others box x k ≡ ok OK k')
      × Sent k2 heads Q r box qs qr ws rs x k' Q' c'
mailbox_send-late k k1 k2 heads Q r box qs qr ws rs c x v others alloc waited run t now low b =
    let (k', Q', c', done, sent) = deliver-Sent k2 heads Q r box qs qr ws rs c x t now low b in
    (k', Q', c', send_run k k1 k2 k' others box x v b.box_in alloc waited run b.alloc done, sent)

-- `mailboxSend` by a thread that has to wait while another frees the mailbox answers SYSERR and
-- changes nothing more.
pub mailbox_send_freed :
    (k k1 k2 : Kernel) (box : ℕ) (x v : ℤ) (others : K (Unit {0}))
    → box < nmailbox
    → (k.mboxtab box).alloc ≡ true
    → wait (k.mboxtab box).sender k ≡ ok v k1
    → others k1 ≡ ok tt k2
    → (k2.mboxtab box).alloc ≡ false
    → mailbox_send others box x k ≡ ok syserr k2
unfolding mailbox_send
mailbox_send_freed k k1 k2 box x v others box_in alloc waited run freed =
    let inside : leb nmailbox box ≡ false = ground arith in
    rw (inside, mbox_at k box box_in, alloc, waited, run, mbox_at k2 box box_in, freed) refl
