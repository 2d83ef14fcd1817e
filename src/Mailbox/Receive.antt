-- ===== src/Mailbox/Receive.antt =====
-- `mailboxReceive` of mailbox/mailboxReceive.c.
use native.Mathlib.Nat.{mod-eq_of_lt}
use xinu.Base.{
  ℕ, suc, ◌+◌, ◌-◌, ◌%◌, ◌^◌, ◌<◌, ◌≡◌, ◌≢◌, refl, ap, ◌∙◌, sym, ℤ, pos, ◌<ℤ◌, ltb_ℤ, false, true,
  Bool, List, ◌∷◌, arith, leb, ◌==◌,
}
use xinu.Kernel.{OK, Kernel, K, ok, update, update_at, update_over, minkey, pure, ◌>>=◌, ◌>>◌}
use xinu.Mailbox.{slot_of, mbox, fetch, mailbox_receive, nmailbox}
use xinu.Mailbox.Hold.{
  IsMailbox, mbox_in, mbox_at, put_mbox_in, with_boxes, IsTop-boxes, IsSemaphore-boxes, woken,
  pos_part-woken, entry-IsMailbox, pos_part-down, IsSemaphore-taken,
}
use xinu.Mailbox.Ring.{mod_turn, messages, messages-fetch}
use xinu.Semaphore.{wait, signal}
use xinu.Semaphore.Signal.{signal-Signalled}
use xinu.Semaphore.Wait.{taken, wait-passes}
use xinu.Thread.Resched.{IsTop}

-- The first message, and the kernel without it.
abbrev pub first : Kernel → ℕ → ℤ
first k box = k.words (slot_of (k.mboxtab box) (k.mboxtab box).start)

abbrev pub drained : Kernel → ℕ → ℕ → Kernel
drained k box n =
    let m = k.mboxtab box in
    with_boxes k (update k.mboxtab box (record m { start = (m.start + 1) % m.max; count = n }))
      k.words

module _ (k : Kernel) (heads : ℕ → Bool) (Q : ℕ → List ℕ) (r box qs qr ws rs n : ℕ)
    (b : IsMailbox k heads Q r box qs qr ws (suc rs))
    (some_left : (k.mboxtab box).count ≡ suc n) where
  entry : (drained k box n).mboxtab box ≡ record (k.mboxtab box) {
    start = ((k.mboxtab box).start + 1) % (k.mboxtab box).max;
    count = n;
  }
  entry = ground arith

  fetch_run : fetch box k ≡ ok (first k box) (drained k box n)
  unfolding fetch
  fetch_run =
      let nonzero : ((k.mboxtab box).max == 0) ≡ false = ground (arith, b.ring.start_in) in
      let up : ((k.mboxtab box).start + 1) % 2 ^ 32 ≡ (k.mboxtab box).start + 1 =
        mod-eq_of_lt (omega (arith, b.ring.start_in, b.ring.small)) in
      let down : ((k.mboxtab box).count + 2 ^ 32 - 1) % 2 ^ 32 ≡ n =
        omega (arith, b.ring.count_in, b.ring.small, some_left) in
      let m = k.mboxtab box in
      rw
        (
          mbox_in box b.box_in,
          put_mbox_in box _ b.box_in,
          nonzero,
          up,
          put_mbox_in box _ b.box_in,
          update_at k.mboxtab box (record m { start = (m.start + 1) % m.max }),
          down,
          update_over k.mboxtab box (record m { start = (m.start + 1) % m.max })
              (record m { start = (m.start + 1) % m.max; count = n }),
        )
        refl

  drained-messages :
      messages k.words (k.mboxtab box)
      ≡ first k box ∷ messages (drained k box n).words ((drained k box n).mboxtab box)
  drained-messages =
      messages-fetch k.words (k.mboxtab box) b.ring n some_left
      ∙ ap (λ e. first k box ∷ messages k.words e) (sym entry)

-- What reading a message and signalling the senders leaves.
pub record Received (k : Kernel) (heads : ℕ → Bool) (Q : ℕ → List ℕ) (r box qs qr ws rs : ℕ) (x : ℤ)
    (k' : Kernel) (Q' : ℕ → List ℕ) (c' : ℕ) : Type 0 where
  pub top : IsTop k' heads Q' r c'
  pub kept : IsMailbox k' heads Q' r box qs qr (woken (Q qs) ws) rs
  pub list : messages k.words (k.mboxtab box) ≡ x ∷ messages k'.words (k'.mboxtab box)

-- The end of `mailboxReceive`, once there is a message.
abbrev pub collect : ℕ → K ℤ
collect box = do retval ← fetch box; m ← mbox box; signal m.sender; pure retval

module _ (k : Kernel) (heads : ℕ → Bool) (Q : ℕ → List ℕ) (r box qs qr ws rs c n : ℕ)
    (t : IsTop k heads Q r c) (now : k.resdefer ≡ 0) (low : minkey <ℤ (k.thrtab c).prio)
    (b : IsMailbox k heads Q r box qs qr ws (suc rs))
    (some_left : (k.mboxtab box).count ≡ suc n) where
  collect-Received :
      (k' : Kernel) × (Q' : ℕ → List ℕ) × (c' : ℕ) × (collect box k ≡ ok (first k box) k')
      × Received k heads Q r box qs qr ws rs (first k box) k' Q' c'
  collect-Received =
      let k1 = drained k box n in
      let m = k.mboxtab box in
      let here = entry k heads Q r box qs qr ws rs n b some_left in
      let (k2, Q2, c2, done) =
        signal-Signalled k1 heads Q r m.sender qs c
          (IsTop-boxes k heads Q r k1.mboxtab k1.words c t) now low
          (IsSemaphore-boxes k heads Q r k1.mboxtab k1.words m.sender qs b.sender) in
      let boxes : k2.mboxtab box ≡ record m { start = (m.start + 1) % m.max; count = n } =
        ap (λ a. a.mboxtab box) done.frame ∙ here in
      let ne : m.receiver ≢ m.sender = λ e. b.two (sym e) in
      let same : k2.semtab m.receiver ≡ k.semtab m.receiver = done.sems m.receiver ne in
      (
        k2,
        Q2,
        c2,
        rw
            (
              fetch_run k heads Q r box qs qr ws rs n b some_left,
              mbox_in box b.box_in,
              here,
              done.ran,
            )
            refl,
        record {
          top = done.top;
          kept =
              entry-IsMailbox k2 heads Q2 r box qs qr (woken (Q qs) ws) rs
                (record m { start = (m.start + 1) % m.max; count = n }) boxes b.box_in b.alloc
                (record {
                  start_in = ground (arith, mod_turn (m.start + 1) m.max, b.ring.start_in);
                  count_in = omega (arith, b.ring.count_in, some_left);
                  small = b.ring.small;
                })
                done.kept
                (done.other_kept m.receiver qr ne (λ e. b.queues (sym e))
                  (IsSemaphore-boxes k heads Q r k1.mboxtab k1.words m.receiver qr b.receiver))
                b.two b.queues
                (rw done.count (
                  omega (
                    arith,
                    pos_part-woken (k.semtab m.sender).count (Q qs) ws b.sender.count,
                    b.room,
                    some_left,
                  )))
                (rw same (omega (arith, b.held, some_left)));
          list =
              drained-messages k heads Q r box qs qr ws rs n b some_left
              ∙ ap (λ e. first k box ∷ messages k1.words e) (here ∙ sym boxes)
              ∙ ap (λ w. first k box ∷ messages w (k2.mboxtab box))
                  (sym (ap (λ a. a.words) done.frame));
        },
      )

-- The part of `mailboxReceive` after the wait.
receive_run :
    (k k1 k2 k3 : Kernel) (others : K (Unit {0})) (box : ℕ) (x v : ℤ)
    → box < nmailbox
    → (k.mboxtab box).alloc ≡ true
    → wait (k.mboxtab box).receiver k ≡ ok v k1
    → others k1 ≡ ok tt k2
    → (k2.mboxtab box).alloc ≡ true
    → collect box k2 ≡ ok x k3
    → mailbox_receive others box k ≡ ok x k3
unfolding mailbox_receive
receive_run k k1 k2 k3 others box x v box_in alloc waited run there done =
    let inside : leb nmailbox box ≡ false = ground arith in
    rw (inside, mbox_at k box box_in, alloc, waited, run, mbox_at k2 box box_in, there) done

passed-IsMailbox :
    (k : Kernel) (heads : ℕ → Bool) (Q : ℕ → List ℕ) (r box qs qr ws rs c : ℕ)
    → IsTop k heads Q r c
    → IsMailbox k heads Q r box qs qr ws rs
    → ltb_ℤ (pos 0) (k.semtab (k.mboxtab box).receiver).count ≡ true
    → IsMailbox (taken k (k.mboxtab box).receiver) heads Q r box qs qr ws (suc rs)
passed-IsMailbox k heads Q r box qs qr ws rs c t b h =
    let m = k.mboxtab box in
    let w = wait-passes k heads Q r m.receiver qr c t b.receiver h in
    let other = IsSemaphore-taken k heads Q r m.receiver m.sender qs b.two b.sender in
    let still : (taken k m.receiver).semtab m.sender ≡ k.semtab m.sender = ground (arith, b.two) in
    let down = pos_part-down (k.semtab m.receiver).count rs h in
    entry-IsMailbox (taken k m.receiver) heads Q r box qs qr ws (suc rs) m refl b.box_in b.alloc
      b.ring other w.kept b.two b.queues (rw still b.room)
      (rw w.count (omega (arith, down, b.held)))

-- A mailbox that keeps a message for a receiver has one.
has_message :
    (k : Kernel) (heads : ℕ → Bool) (Q : ℕ → List ℕ) (r box qs qr ws rs : ℕ)
    → IsMailbox k heads Q r box qs qr ws (suc rs)
    → (n : ℕ) × ((k.mboxtab box).count ≡ suc n)
has_message k heads Q r box qs qr ws rs b = ((k.mboxtab box).count - 1, omega (arith, b.held))

-- `mailboxReceive` by the running thread, whose priority is above MINKEY, without a deferral and
-- while the count of the receivers' semaphore is positive: it answers the first message of the
-- queue, the others stay in order, and the invariants of the scheduler and of the mailbox are kept.
-- Every sender and receiver that has passed its semaphore still has its place, and so has the
-- sender it wakes.
pub mailbox_receive-Received :
    (k : Kernel) (heads : ℕ → Bool) (Q : ℕ → List ℕ) (r box qs qr ws rs c : ℕ)
    → IsTop k heads Q r c
    → k.resdefer ≡ 0
    → minkey <ℤ (k.thrtab c).prio
    → IsMailbox k heads Q r box qs qr ws rs
    → ltb_ℤ (pos 0) (k.semtab (k.mboxtab box).receiver).count ≡ true
    → (k' : Kernel) × (Q' : ℕ → List ℕ) × (c' : ℕ) × (x : ℤ) × (mailbox_receive (pure tt) box k
        ≡ ok x k')
      × Received k heads Q r box qs qr ws rs x k' Q' c'
mailbox_receive-Received k heads Q r box qs qr ws rs c t now low b h =
    let m = k.mboxtab box in
    let w = wait-passes k heads Q r m.receiver qr c t b.receiver h in
    let b' = passed-IsMailbox k heads Q r box qs qr ws rs c t b h in
    let (n, left) = has_message (taken k m.receiver) heads Q r box qs qr ws rs b' in
    let (k', Q', c', run, got) =
      collect-Received (taken k m.receiver) heads Q r box qs qr ws rs c n w.top now low b' left in
    (
      k',
      Q',
      c',
      first k box,
      receive_run k (taken k m.receiver) (taken k m.receiver) k' (pure tt) box (first k box) OK
          b.box_in b.alloc w.ran refl b.alloc run,
      record { top = got.top; kept = got.kept; list = got.list },
    )

-- `mailboxReceive` by a thread that has to wait, whatever the other threads do meanwhile: when the
-- caller is on top again, without a deferral, with a priority above MINKEY, and with a message kept
-- for it in a mailbox that is still allocated, it answers the first message of then, and the
-- invariants of the scheduler and of the mailbox are kept.
pub mailbox_receive-late :
    (k k1 k2 : Kernel) (heads : ℕ → Bool) (Q : ℕ → List ℕ) (r box qs qr ws rs c : ℕ) (v : ℤ)
    (others : K (Unit {0}))
    → (k.mboxtab box).alloc ≡ true
    → wait (k.mboxtab box).receiver k ≡ ok v k1
    → others k1 ≡ ok tt k2
    → IsTop k2 heads Q r c
    → k2.resdefer ≡ 0
    → minkey <ℤ (k2.thrtab c).prio
    → IsMailbox k2 heads Q r box qs qr ws (suc rs)
    → (k' : Kernel) × (Q' : ℕ → List ℕ) × (c' : ℕ) × (x : ℤ) × (mailbox_receive others box k
        ≡ ok x k')
      × Received k2 heads Q r box qs qr ws rs x k' Q' c'
mailbox_receive-late k k1 k2 heads Q r box qs qr ws rs c v others alloc waited run t now low b =
    let (n, left) = has_message k2 heads Q r box qs qr ws rs b in
    let (k', Q', c', done, got) =
      collect-Received k2 heads Q r box qs qr ws rs c n t now low b left in
    (
      k',
      Q',
      c',
      first k2 box,
      receive_run k k1 k2 k' others box (first k2 box) v b.box_in alloc waited run b.alloc done,
      got,
    )
