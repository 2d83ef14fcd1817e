-- ===== src/Thread/Wake.antt =====
-- `resume` of system/resume.c and `send` of system/send.c, which make one thread ready and
-- reschedule.
use xinu.Base.{
  ℕ, ◌<◌, ◌≡◌, ◌≢◌, refl, ap, ◌∙◌, subst, sym, pos, ◌<ℤ◌, true, false, Bool, List, [], ◌∷◌, ◌++◌,
  arith, has, has-append, ◌==◌,
}
use xinu.Kernel.{nthread, OK, ThreadState, Thrent, Kernel, ok, update, minkey, isbadtid}
use xinu.Queue.{insert}
use xinu.Thread.{resched, resume, is_susp}
use xinu.Thread.Preempt.{resched-Rescheduled}
use xinu.Thread.Ready.{InNone, with_table, made_ready, insert-IsScheduled, IsScheduled-thread}
use xinu.Thread.Resched.{IsTop}
use xinu.Thread.Scheduled.{update_self, put_thrent_in, thrent_in}

-- What making thread `t` ready and rescheduling leaves.
pub record Woken (k : Kernel) (heads : ℕ → Bool) (Q : ℕ → List ℕ) (r c t : ℕ) (k' : Kernel)
    (Q' : ℕ → List ℕ) (c' : ℕ) : Type 0 where
  pub top : IsTop k' heads Q' r c'
  pub same : (y : ℕ) → has y (c' ∷ Q' r) ≡ has y (c ∷ t ∷ Q r)
  pub others : (h : ℕ) → h ≢ r → Q' h ≡ Q h
  pub fields : (j : ℕ) → k'.thrtab j ≡ record (k.thrtab j) { state = (k'.thrtab j).state }

has_swap : (y c t : ℕ) (ys zs : List ℕ) → has y (c ∷ (ys ++ t ∷ zs)) ≡ has y (c ∷ t ∷ (ys ++ zs))
has_swap y c t [] zs = refl
has_swap y c t (x ∷ ys) zs = ground (arith, has_swap y c t ys zs)

apart_ready :
    (heads : ℕ → Bool) (Q : ℕ → List ℕ) (r c t : ℕ) (ys zs : List ℕ)
    → InNone heads Q c
    → heads r ≡ true
    → (c == t) ≡ false
    → Q r ≡ ys ++ zs
    → InNone heads (update Q r (ys ++ t ∷ zs)) c
apart_ready heads Q r c t ys zs out er ne e h eh =
    let there : has c (ys ++ zs) ≡ false = subst (λ l. has c l ≡ false) e (out r er) in
    let usual = out h eh in ground (arith, has-append c ys zs, has-append c ys (t ∷ zs))

state_only :
    (f : ℕ → Thrent) (t j : ℕ) (e : Thrent)
    → e ≡ record (update f t (record (f t) { state = ThreadState.ready }) j) { state = e.state }
    → e ≡ record (f j) { state = e.state }
state_only f t j e h = h ∙ ground arith

module _ (k : Kernel) (heads : ℕ → Bool) (Q : ℕ → List ℕ) (r c t : ℕ) where
  pub insert-Woken :
      IsTop k heads Q r c
      → k.resdefer ≡ 0
      → minkey <ℤ (k.thrtab c).prio
      → InNone heads Q t
      → (c == t) ≡ false
      → t < nthread
      → minkey <ℤ (k.thrtab t).prio
      → (k2 : Kernel) × (k' : Kernel) × (Q' : ℕ → List ℕ) × (c' : ℕ) × (insert
            (pos t)
            k.readylist
            (k.thrtab t).prio
            (made_ready k t)
          ≡ ok OK k2)
        × (resched k2 ≡ ok OK k')
        × Woken k heads Q r c t k' Q' c'
  insert-Woken top now low out ne lt low_t =
      let k1 = made_ready k t in
      let same : (k1.thrtab t) ≡ record (k.thrtab t) { state = ThreadState.ready } = ground arith in
      let (T', ys, zs, ins, e, sched, ge, less, keys) =
        insert-IsScheduled k1 heads Q r t
          (IsScheduled-thread k heads Q r t _ (out r top.sched.head) top.sched) out lt
          (ap (λ p. p.state) same) (subst (λ p. minkey <ℤ p.prio) (sym same) low_t) in
      let k2 = with_table k1 T' in
      let kept : k2.thrtab c ≡ k.thrtab c = ground (arith, ne) in
      let (k3, Q3, done) =
        resched-Rescheduled k2 heads (update Q r (ys ++ t ∷ zs)) r c sched
          (record { current = top.current; c_in = top.c_in; now = now })
          (apart_ready heads Q r c t ys zs top.apart top.sched.head ne e)
          (subst (λ p. minkey <ℤ p.prio) (sym kept) low) (ap (λ p. p.state) kept ∙ top.curr) in
      (
        k2,
        k3,
        Q3,
        _,
        subst (λ p. insert (pos t) k.readylist p k1 ≡ ok OK k2) (ap (λ p. p.prio) same) ins,
        done.ran,
        record {
          top = done.top;
          same = λ y.
              done.same y
              ∙ ap (λ l. has y (c ∷ l)) (update_self Q r (ys ++ t ∷ zs))
              ∙ has_swap y c t ys zs
              ∙ ap (λ l. has y (c ∷ t ∷ l)) (sym e);
          others = λ h o. done.others h o ∙ ground arith;
          fields = λ j. state_only k.thrtab t j (k3.thrtab j) (done.fields j);
        },
      )

live_susp :
    (k : Kernel) (t : ℕ)
    → t < nthread
    → (k.thrtab t).state ≡ ThreadState.susp
    → isbadtid k (pos t) ≡ false
unfolding isbadtid
live_susp k t lt h = ground arith

resume_run :
    (k k2 k3 : Kernel) (t : ℕ)
    → t < nthread
    → isbadtid k (pos t) ≡ false
    → is_susp (k.thrtab t).state ≡ true
    → insert (pos t) k.readylist (k.thrtab t).prio (made_ready k t) ≡ ok OK k2
    → resched k2 ≡ ok OK k3
    → resume (pos t) k ≡ ok (k.thrtab t).prio k3
unfolding resume
resume_run k k2 k3 t lt live st ins done =
    rw (live, thrent_in t lt, st, put_thrent_in t _ lt, ins, done) refl

-- `resume` by the running thread, without a deferral, of a suspended thread that is in no queue
-- answers its priority. The thread joins the ready ones, and the processor goes to a thread of the
-- highest priority; no queue but the ready list changes, and of the threads only their states.
-- Both priorities are above MINKEY.
pub resume-Woken :
    (k : Kernel) (heads : ℕ → Bool) (Q : ℕ → List ℕ) (r c t : ℕ)
    → IsTop k heads Q r c
    → k.resdefer ≡ 0
    → minkey <ℤ (k.thrtab c).prio
    → InNone heads Q t
    → t < nthread
    → (k.thrtab t).state ≡ ThreadState.susp
    → minkey <ℤ (k.thrtab t).prio
    → (k' : Kernel) × (Q' : ℕ → List ℕ) × (c' : ℕ) × (resume (pos t) k ≡ ok (k.thrtab t).prio k')
      × Woken k heads Q r c t k' Q' c'
resume-Woken k heads Q r c t top now low out lt st low_t =
    let ne : (c == t) ≡ false = different k c t top.curr st in
    let (k2, k3, Q3, c', ins, done, woken) =
      insert-Woken k heads Q r c t top now low out ne lt low_t in
    (k3, Q3, c', resume_run k k2 k3 t lt (live_susp k t lt st) (ap is_susp st) ins done, woken)
  where
    different :
        (k : Kernel) (c t : ℕ)
        → (k.thrtab c).state ≡ ThreadState.curr
        → (k.thrtab t).state ≡ ThreadState.susp
        → (c == t) ≡ false
    different k c t a b = ground arith
