-- ===== src/Thread/Deliver.antt =====
-- `send` of system/send.c: to a thread that waits for a message, to one that does not, and to one
-- that has a message already.
use xinu.Base.{
  ℕ, ◌<◌, ◌≡◌, ◌≢◌, refl, ap, ◌∙◌, subst, sym, ℤ, pos, ◌<ℤ◌, true, false, Bool, List, [], ◌∷◌,
  arith, has, ◌==◌, ◌||◌, Bool-cases, inl, inr, ◌≤ℤ◌, All,
}
use xinu.Kernel.{
  nthread, OK, syserr, is_free, ThreadState, Thrent, Kernel, ok, update, minkey, isbadtid,
}
use xinu.Queue.{insert}
use xinu.Thread.{resched, make_ready}
use xinu.Thread.Message.{send, is_recv}
use xinu.Thread.Ready.{InNone, with_thread, made_ready, IsScheduled-thread}
use xinu.Thread.Resched.{IsTop}
use xinu.Thread.Scheduled.{put_thrent_in, thrent_in}
use xinu.Thread.Wake.{insert-Woken}

-- The kernel with a message for thread `t`.
abbrev pub with_message : Kernel → ℕ → ℤ → Kernel
with_message k t msg =
    let k1 = with_thread k t (record (k.thrtab t) { msg = msg }) in
    with_thread k1 t (record (k1.thrtab t) { hasmsg = true })

live_used :
    (k : Kernel) (t : ℕ)
    → t < nthread
    → is_free (k.thrtab t).state ≡ false
    → isbadtid k (pos t) ≡ false
unfolding isbadtid
live_used k t lt h = ground arith

-- `send` to a thread that has a message already answers SYSERR, and nothing changes.
pub send-full :
    (k : Kernel) (t : ℕ) (msg : ℤ)
    → (k.thrtab t).hasmsg ≡ true
    → t < nthread
    → send (pos t) msg k ≡ ok syserr k
unfolding send
send-full k t msg full lt = elim (Bool-cases (isbadtid k (pos t))) [
  | inl bad ↦ rw bad refl
  | inr live ↦
      let taken : (is_free (k.thrtab t).state || (k.thrtab t).hasmsg) ≡ true = ground arith in
      rw (live, thrent_in t lt, taken) refl
]

make_ready_run :
    (k k2 : Kernel) (t : ℕ)
    → t < nthread
    → insert (pos t) k.readylist (k.thrtab t).prio (made_ready k t) ≡ ok OK k2
    → make_ready (pos t) k ≡ ok tt k2
unfolding make_ready
make_ready_run k k2 t lt ins =
    let same : (made_ready k t).thrtab t ≡ record (k.thrtab t) { state = ThreadState.ready } =
      ground arith in
    rw (put_thrent_in t _ lt, thrent_in t lt, same, ins) refl

send_run :
    (k k2 k3 : Kernel) (t : ℕ) (msg : ℤ)
    → t < nthread
    → isbadtid k (pos t) ≡ false
    → (is_free (k.thrtab t).state || (k.thrtab t).hasmsg) ≡ false
    → is_recv (k.thrtab t).state ≡ true
    → make_ready (pos t) (with_message k t msg) ≡ ok tt k2
    → resched k2 ≡ ok OK k3
    → send (pos t) msg k ≡ ok OK k3
unfolding send
send_run k k2 k3 t msg lt live free st ready done =
    rw (live, thrent_in t lt, free, put_thrent_in t _ lt, put_thrent_in t _ lt, st, ready, done)
      refl

All-unchanged :
    (f : ℕ → Thrent) (t : ℕ) (e : Thrent) (p : ℤ) (xs : List ℕ)
    → has t xs ≡ false
    → All (λ y. (f y).prio ≤ℤ p) xs
    → All (λ y. (update f t e y).prio ≤ℤ p) xs
All-unchanged f t e p [] out a = tt
All-unchanged f t e p (x ∷ xs) out a = (ground arith, All-unchanged f t e p xs (ground arith) a.1)

-- A change to a thread outside of all queues that is not the current one.
IsTop-thread :
    (k : Kernel) (heads : ℕ → Bool) (Q : ℕ → List ℕ) (r c t : ℕ) (e : Thrent)
    → InNone heads Q t
    → (c == t) ≡ false
    → IsTop k heads Q r c
    → IsTop (with_thread k t e) heads Q r c
IsTop-thread k heads Q r c t e out ne top =
    let same : (with_thread k t e).thrtab c ≡ k.thrtab c = ground (arith, ne) in
    record {
      sched = IsScheduled-thread k heads Q r t e (out r top.sched.head) top.sched;
      current = top.current;
      curr = ap (λ p. p.state) same ∙ top.curr;
      c_in = top.c_in;
      apart = top.apart;
      top =
          subst (λ p. All (λ y. (update k.thrtab t e y).prio ≤ℤ p.prio) (Q r)) (sym same)
            (All-unchanged k.thrtab t e (k.thrtab c).prio (Q r) (out r top.sched.head) top.top);
    }

-- What `send` to a waiting thread leaves.
pub record Delivered (k : Kernel) (heads : ℕ → Bool) (Q : ℕ → List ℕ) (r c t : ℕ) (msg : ℤ)
    (k' : Kernel) (Q' : ℕ → List ℕ) (c' : ℕ) : Type 0 where
  pub ran : send (pos t) msg k ≡ ok OK k'
  pub top : IsTop k' heads Q' r c'
  pub same : (y : ℕ) → has y (c' ∷ Q' r) ≡ has y (c ∷ t ∷ Q r)
  pub others : (h : ℕ) → h ≢ r → Q' h ≡ Q h
  pub message : (k'.thrtab t).msg ≡ msg
  pub hasmsg : (k'.thrtab t).hasmsg ≡ true

-- `send` by the running thread, without a deferral, to a thread that waits in `receive`, has no
-- message and is in no queue, stores the message, makes the thread ready, and gives the processor
-- to a thread of the highest priority. Both priorities are above MINKEY. No queue but the ready
-- list changes.
pub send-Delivered :
    (k : Kernel) (heads : ℕ → Bool) (Q : ℕ → List ℕ) (r c t : ℕ) (msg : ℤ)
    → IsTop k heads Q r c
    → k.resdefer ≡ 0
    → minkey <ℤ (k.thrtab c).prio
    → InNone heads Q t
    → t < nthread
    → (k.thrtab t).state ≡ ThreadState.recv
    → (k.thrtab t).hasmsg ≡ false
    → minkey <ℤ (k.thrtab t).prio
    → (k' : Kernel) × (Q' : ℕ → List ℕ) × (c' : ℕ) × Delivered k heads Q r c t msg k' Q' c'
send-Delivered k heads Q r c t msg top now low out lt st free low_t =
    let k1 = with_message k t msg in
    let ne = different k c t top.curr st in
    let idle : is_free (k.thrtab t).state ≡ false = ap is_free st in
    let written : k1.thrtab t ≡ record (k.thrtab t) { msg = msg; hasmsg = true } = ground arith in
    let kept : k1.thrtab c ≡ k.thrtab c = ground (arith, ne) in
    let top1 =
      IsTop-thread (with_thread k t (record (k.thrtab t) { msg = msg })) heads Q r c t _ out ne
        (IsTop-thread k heads Q r c t _ out ne top) in
    let (k2, k3, Q3, c', ins, done, woken) =
      insert-Woken k1 heads Q r c t top1 now (subst (λ p. minkey <ℤ p.prio) (sym kept) low) out ne
        lt (subst (λ p. minkey <ℤ p.prio) (sym written) low_t) in
    (
      k3,
      Q3,
      c',
      record {
        ran =
            send_run k k2 k3 t msg lt (live_used k t lt idle) (rw (idle, free) refl) (ap is_recv st)
              (make_ready_run k1 k2 t lt ins) done;
        top = woken.top;
        same = woken.same;
        others = woken.others;
        message = ap (λ p. p.msg) (woken.fields t) ∙ ap (λ p. p.msg) written;
        hasmsg = ap (λ p. p.hasmsg) (woken.fields t) ∙ ap (λ p. p.hasmsg) written;
      },
    )
  where
    different :
        (k : Kernel) (c t : ℕ)
        → (k.thrtab c).state ≡ ThreadState.curr
        → (k.thrtab t).state ≡ ThreadState.recv
        → (c == t) ≡ false
    different k c t a b = ground arith
