-- ===== src/Thread/Preempt.antt =====
-- `resched` of system/resched.c as a whole: whom it gives the processor to.
use xinu.Base.{
  ℕ, ◌≡◌, ◌≢◌, refl, ap, ◌∙◌, subst, sym, ℤ, pos, ◌<ℤ◌, ◌≤ℤ◌, ltb_ℤ, true, false, Bool, List, [],
  ◌∷◌, ◌++◌, arith, All, All-map, has, Bool-cases, inl, inr, if◌then◌else◌,
}
use xinu.Kernel.{
  OK, ThreadState, Thrent, Kernel, ok, update, minkey, thrent, K, set_state, gets, ◌>>=◌, ◌>>◌,
}
use xinu.Queue.{insert}
use xinu.Queue.Sorted.{Descending}
use xinu.Thread.{switch, resched, keeps, is_curr, gettid}
use xinu.Thread.Ready.{InNone, insert-IsScheduled, IsScheduled-thread, with_table, made_ready}
use xinu.Thread.Resched.{IsRunning, IsTop, switch-IsTop, keeps_run, All-le-prio, resched_stay}
use xinu.Thread.Scheduled.{IsScheduled, put_thrent_in, update_self}

-- What `resched` does with a thread that must give way.
abbrev give_way : ℤ → ℤ → K ℤ
give_way cur prio = do
  set_state cur ThreadState.ready
  list ← gets (λ k. k.readylist)
  insert cur list prio
  switch

module _ (k : Kernel) (c : ℕ) (run : IsRunning k c) where
  resched_away :
      is_curr (k.thrtab c).state ≡ true
      → keeps (k.thrtab c).prio k ≡ ok false k
      → resched k ≡ give_way (pos c) (k.thrtab c).prio k
  unfolding resched thrent gettid
  resched_away here away = ground (arith, run.now, run.current, run.c_in)

  give_way_run :
      (k' : Kernel)
      → insert (pos c) k.readylist (k.thrtab c).prio (made_ready k c) ≡ ok OK k'
      → give_way (pos c) (k.thrtab c).prio k ≡ switch k'
  give_way_run k' ins = rw (put_thrent_in c _ run.c_in, ins) refl

  resched_preempt :
      is_curr (k.thrtab c).state ≡ true
      → keeps (k.thrtab c).prio k ≡ ok false k
      → (k' : Kernel) → insert (pos c) k.readylist (k.thrtab c).prio (made_ready k c) ≡ ok OK k'
      → resched k ≡ switch k'
  resched_preempt here away k' ins = resched_away here away ∙ give_way_run k' ins

-- Whom `resched` chooses when the current thread can run on.
abbrev pub chosen : Kernel → ℕ → List ℕ → ℕ
chosen k c [] = c
chosen k c (x ∷ xs) = if ltb_ℤ (k.thrtab x).prio (k.thrtab c).prio then c else x

pub has_part_eq : (y t : ℕ) (ys zs : List ℕ) → has y (ys ++ t ∷ zs) ≡ has y (t ∷ (ys ++ zs))
has_part_eq y t [] zs = refl
has_part_eq y t (x ∷ ys) zs = ground (arith, has_part_eq y t ys zs)

update_twice : (Q : ℕ → List ℕ) (r h : ℕ) (a b : List ℕ) → h ≢ r → update (update Q r a) r b h ≡ Q h
update_twice Q r h a b ne = ground arith

-- Making one thread ready and one current changes nothing but states.
states_only :
    (f : ℕ → Thrent) (c x j : ℕ)
    → update
        (update f c (record (f c) { state = ThreadState.ready }))
        x
        (record (update f c (record (f c) { state = ThreadState.ready }) x) {
          state = ThreadState.curr;
        })
        j
      ≡ record (f j) {
        state =
            (update
              (update f c (record (f c) { state = ThreadState.ready }))
              x
              (record (update f c (record (f c) { state = ThreadState.ready }) x) {
                state = ThreadState.curr;
              })
              j).state;
      }
states_only f c x j = ground arith

-- What `resched` promises.
pub record Rescheduled (k : Kernel) (heads : ℕ → Bool) (Q : ℕ → List ℕ) (r c : ℕ) (k' : Kernel)
    (Q' : ℕ → List ℕ) (c' : ℕ) : Type 0 where
  pub ran : resched k ≡ ok OK k'
  pub top : IsTop k' heads Q' r c'
  pub same : (y : ℕ) → has y (c' ∷ Q' r) ≡ has y (c ∷ Q r)
  pub others : (h : ℕ) → h ≢ r → Q' h ≡ Q h
  pub frame : k' ≡ record k { quetab = k'.quetab; thrtab = k'.thrtab; thrcurrent = k'.thrcurrent }
  pub threads : (j : ℕ) → has j (c ∷ Q r) ≡ false → k'.thrtab j ≡ k.thrtab j
  pub fields : (j : ℕ) → k'.thrtab j ≡ record (k.thrtab j) { state = (k'.thrtab j).state }

module _ (k : Kernel) (heads : ℕ → Bool) (Q : ℕ → List ℕ) (r c : ℕ) where
  preempted :
      IsScheduled k heads Q r
      → IsRunning k c
      → InNone heads Q c
      → minkey <ℤ (k.thrtab c).prio
      → is_curr (k.thrtab c).state ≡ true
      → keeps (k.thrtab c).prio k ≡ ok false k
      → (x : ℕ) (xs : List ℕ) → Q r ≡ x ∷ xs
      → (k.thrtab c).prio ≤ℤ (k.quetab x).key
      → (k' : Kernel) × (Q' : ℕ → List ℕ) × Rescheduled k heads Q r c k' Q' x
  preempted s run apart low here away x xs e large =
      let k1 = made_ready k c in
      let same : (k1.thrtab c) ≡ record (k.thrtab c) { state = ThreadState.ready } = ground arith in
      let (T', ys, zs, ins, e2, sched, ge, less, keys) =
        insert-IsScheduled k1 heads Q r c (IsScheduled-thread k heads Q r c _ (apart r s.head) s)
          apart run.c_in (ap (λ t. t.state) same) (subst (λ t. minkey <ℤ t.prio) (sym same) low) in
      let ins' =
        subst (λ p. insert (pos c) k.readylist p k1 ≡ ok OK (with_table k1 T'))
          (ap (λ t. t.prio) same) ins in
      let less' = subst (λ p. All (λ y. (k.quetab y).key <ℤ p) zs) (ap (λ t. t.prio) same) less in
      go T' ins' ys zs (sym e ∙ e2) e2 sched less'
    where
      moved :
          (j y : ℕ) (ys zs : List ℕ)
          → x ≡ y
          → has j (x ∷ (ys ++ c ∷ zs)) ≡ has j (c ∷ y ∷ (ys ++ zs))
      moved j y ys zs e = ground (arith, has_part_eq j c ys zs)

      untouched :
          (j : ℕ)
          → has j (c ∷ x ∷ xs) ≡ false
          → update
              (made_ready k c).thrtab
              x
              (record ((made_ready k c).thrtab x) { state = ThreadState.curr })
              j
            ≡ k.thrtab j
      untouched j out = ground arith

      go :
          (T' : _)
          → insert (pos c) k.readylist (k.thrtab c).prio (made_ready k c)
            ≡ ok OK (with_table (made_ready k c) T')
          → (ys zs : List ℕ) → x ∷ xs ≡ ys ++ zs
          → Q r ≡ ys ++ zs
          → IsScheduled (with_table (made_ready k c) T') heads (update Q r (ys ++ c ∷ zs)) r
          → All (λ y. (k.quetab y).key <ℤ (k.thrtab c).prio) zs
          → (k' : Kernel) × (Q' : ℕ → List ℕ) × Rescheduled k heads Q r c k' Q' x
      go T' ins [] [] split whole sched less = absurd (ground arith)
      go T' ins [] (z ∷ zs) split whole sched less = absurd (ground arith)
      go T' ins (y ∷ ys) zs split whole sched less =
          let y_x : x ≡ y = ground arith in
          let (T2, sw, top) =
            switch-IsTop (with_table (made_ready k c) T') heads (update Q r (y ∷ ys ++ c ∷ zs)) r x
              (ys ++ c ∷ zs) sched
              (update_self Q r (y ∷ ys ++ c ∷ zs) ∙ ap (λ i. i ∷ ys ++ c ∷ zs) (sym y_x)) in
          (
            _,
            _,
            record {
              ran = resched_preempt k c run here away (with_table (made_ready k c) T') ins ∙ sw;
              top = top;
              same = λ j.
                  ap (λ l. has j (x ∷ l))
                    (update_self (update Q r (y ∷ ys ++ c ∷ zs)) r (ys ++ c ∷ zs))
                  ∙ moved j y ys zs y_x
                  ∙ ap (λ l. has j (c ∷ l)) (sym whole);
              others = λ h ne. update_twice Q r h (y ∷ ys ++ c ∷ zs) (ys ++ c ∷ zs) ne;
              frame = refl;
              threads = λ j out. untouched j (subst (λ l. has j (c ∷ l) ≡ false) e out);
              fields = λ j. states_only k.thrtab c x j;
            },
          )

  alone :
      IsScheduled k heads Q r
      → IsRunning k c
      → InNone heads Q c
      → minkey <ℤ (k.thrtab c).prio
      → is_curr (k.thrtab c).state ≡ true
      → keeps (k.thrtab c).prio k ≡ ok false k
      → Q r ≡ []
      → (k' : Kernel) × (Q' : ℕ → List ℕ) × Rescheduled k heads Q r c k' Q' c
  alone s run apart low here away e =
      let k1 = made_ready k c in
      let same : (k1.thrtab c) ≡ record (k.thrtab c) { state = ThreadState.ready } = ground arith in
      let (T', ys, zs, ins, e2, sched, ge, less, keys) =
        insert-IsScheduled k1 heads Q r c (IsScheduled-thread k heads Q r c _ (apart r s.head) s)
          apart run.c_in (ap (λ t. t.state) same) (subst (λ t. minkey <ℤ t.prio) (sym same) low) in
      let ins' =
        subst (λ p. insert (pos c) k.readylist p k1 ≡ ok OK (with_table k1 T'))
          (ap (λ t. t.prio) same) ins in
      go T' ins' ys zs (sym e ∙ e2) sched
    where
      go :
          (T' : _)
          → insert (pos c) k.readylist (k.thrtab c).prio (made_ready k c)
            ≡ ok OK (with_table (made_ready k c) T')
          → (ys zs : List ℕ) → [] ≡ ys ++ zs
          → IsScheduled (with_table (made_ready k c) T') heads (update Q r (ys ++ c ∷ zs)) r
          → (k' : Kernel) × (Q' : ℕ → List ℕ) × Rescheduled k heads Q r c k' Q' c
      go T' ins (y ∷ ys) zs split sched = absurd (ground arith)
      go T' ins [] (z ∷ zs) split sched = absurd (ground arith)
      go T' ins [] [] split sched =
          let (T2, sw, top) =
            switch-IsTop (with_table (made_ready k c) T') heads (update Q r (c ∷ [])) r c [] sched
              (update_self Q r (c ∷ [])) in
          (
            _,
            _,
            record {
              ran = resched_preempt k c run here away (with_table (made_ready k c) T') ins ∙ sw;
              top = top;
              same = λ j. ap (λ l. has j (c ∷ l)) (update_self (update Q r (c ∷ [])) r [] ∙ sym e);
              others = λ h ne. update_twice Q r h (c ∷ []) [] ne;
              frame = refl;
              threads = λ j out. ground arith;
              fields = λ j. states_only k.thrtab c c j;
            },
          )

  stays :
      IsScheduled k heads Q r
      → IsRunning k c
      → InNone heads Q c
      → (k.thrtab c).state ≡ ThreadState.curr
      → keeps (k.thrtab c).prio k ≡ ok true k
      → All (λ y. (k.thrtab y).prio ≤ℤ (k.thrtab c).prio) (Q r)
      → (k' : Kernel) × (Q' : ℕ → List ℕ) × Rescheduled k heads Q r c k' Q' c
  stays s run apart st keep top = (
    k,
    Q,
    record {
      ran = resched_stay k c run (ap is_curr st) keep;
      top = record {
        sched = s;
        current = run.current;
        curr = st;
        c_in = run.c_in;
        apart = apart;
        top = top;
      };
      same = λ y. refl;
      others = λ h ne. refl;
      frame = refl;
      threads = λ j out. refl;
      fields = λ j. refl;
    },
  )

All-le-trans :
    (f : ℕ → Thrent) (p q : ℤ) (xs : List ℕ)
    → p ≤ℤ q
    → All (λ y. (f y).prio ≤ℤ p) xs
    → All (λ y. (f y).prio ≤ℤ q) xs
All-le-trans f p q xs le a = All-map (λ y h. omega arith) xs a

-- `resched`, without a deferral, by a current thread that can run on, is in no queue and has a
-- priority above MINKEY, gives the processor to a thread of the highest priority among it and the
-- ready ones, and to a ready one rather than to the caller when their priorities are equal. The
-- caller and the ready threads together are the same as before, no other queue changes, and of the
-- threads only the states of these.
pub resched-Rescheduled :
    (k : Kernel) (heads : ℕ → Bool) (Q : ℕ → List ℕ) (r c : ℕ)
    → IsScheduled k heads Q r
    → IsRunning k c
    → InNone heads Q c
    → minkey <ℤ (k.thrtab c).prio
    → (k.thrtab c).state ≡ ThreadState.curr
    → (k' : Kernel) × (Q' : ℕ → List ℕ) × Rescheduled k heads Q r c k' Q' (chosen k c (Q r))
resched-Rescheduled k heads Q r c s run apart low st = go (Q r) refl
  where
    Result : List ℕ → Type 0
    Result l = (k' : Kernel) × (Q' : ℕ → List ℕ) × Rescheduled k heads Q r c k' Q' (chosen k c l)

    kept : List ℕ → Bool
    kept l = elim l [ [] ↦ false | x ∷ xs ↦ ltb_ℤ (k.quetab x).key (k.thrtab c).prio ]

    keep : (l : List ℕ) (b : Bool) → Q r ≡ l → kept l ≡ b → keeps (k.thrtab c).prio k ≡ ok b k
    keep l b e f = keeps_run k heads Q r c s (k.thrtab c).prio ∙ ap (λ v. ok v k) (ap kept e ∙ f)

    go : (l : List ℕ) → Q r ≡ l → Result l
    go [] e = alone k heads Q r c s run apart low (ap is_curr st) (keep [] false e refl) e
    go (x ∷ xs) e =
        let key : (k.quetab x).key ≡ (k.thrtab x).prio =
          (subst (All (λ y. (k.quetab y).key ≡ (k.thrtab y).prio)) e s.prios).0 in
        let sorted = subst (Descending k.quetab) e s.sorted in
        let prios = subst (All (λ y. (k.quetab y).key ≡ (k.thrtab y).prio)) e s.prios in
        elim (Bool-cases (ltb_ℤ (k.thrtab x).prio (k.thrtab c).prio)) [
          | inl less ↦ rw less (
              stays k heads Q r c s run apart st (keep (x ∷ xs) true e (rw key less)) (
                subst (All _) (sym e) (
                  ground (arith, less),
                  All-le-trans k.thrtab (k.thrtab x).prio (k.thrtab c).prio xs
                      (ground (arith, less)) (All-le-prio k.quetab k.thrtab x xs sorted prios),
                )))
          | inr more ↦ rw more (
              preempted k heads Q r c s run apart low (ap is_curr st)
                (keep (x ∷ xs) false e (rw key more)) x xs e (rw key (ground (arith, more))))
        ]
