-- ===== src/Start/Empty.antt =====
-- What the start leaves: system/initialize.c.
use xinu.Base.{
  ℕ, zero, suc, ◌+◌, ◌-◌, ◌*◌, ◌/◌, ◌%◌, ◌≤◌, ◌<◌, ◌≡◌, refl, ap, ◌∙◌, subst, pos, Bool, false,
  List, [], arith, ◌==◌, leb, ltb, ◌&&◌, false≢true, Bool-cases, inl, inr, lt→ltb,
}
use xinu.Kernel.{
  nthread, nsem, nqent, ThreadState, Thrent, Sement, Monent, Bfpentry, Kernel, ok, update,
  update_at, update_over,
}
use xinu.Memory.{u32}
use xinu.Monitor.{put_monent}
use xinu.Pool.{npool, put_pool}
use xinu.Queue.{queinit}
use xinu.Queue.Chain.{Table}
use xinu.Queue.Contents.{IsQueue}
use xinu.Queue.Init.{queinit-IsQueue}
use xinu.Queue.System.{System, IsQueue-frame}
use xinu.Semaphore.Waiters.{put_sement_in}
use xinu.Start.{init_threads, null_thread, init_semaphores, init_monitors, init_pools, prnull}
use xinu.Strings.Copy.{strlcpy-Copied}
use xinu.Strings.Length.{Ends}
use xinu.Thread.Create.Made.{put_again, set_name_again}
use xinu.Thread.Scheduled.{put_thrent_in}

pub init_threads_run :
    (i : ℕ) (k : Kernel)
    → i ≤ nthread
    → (f : ℕ → Thrent) × (init_threads i k ≡ ok tt (record k { thrtab = f }))
      × ((j : ℕ) → j < i → (f j).state ≡ ThreadState.free)
unfolding init_threads
init_threads_run zero k le = (k.thrtab, refl, λ j h. absurd (omega arith))
init_threads_run (suc i) k le =
    let (f, ran, free) = init_threads_run i k (omega arith) in
    (
      update f i (record (f i) { state = ThreadState.free }),
      rw (ran, put_thrent_in i _ (omega arith)) refl,
      λ j h. ground (arith, free j),
    )

-- The first `n` queues, with nobody in them.
abbrev pub Queues : Table → ℕ → Type 0
Queues T n = (j : ℕ) → j < n → IsQueue T (nthread + 2 * j) []

-- `queinit` makes one more.
pub queinit-Queues :
    (n : ℕ) (k : Kernel)
    → n < nsem + 2
    → k.nextqid ≡ nthread + 2 * n
    → Queues k.quetab n
    → (T' : Table) × (queinit k
        ≡ ok (pos (nthread + 2 * n)) (record k { nextqid = nthread + 2 * suc n; quetab = T' }))
      × Queues T' (suc n)
queinit-Queues n k lt e queues =
    let (T', made, empty_one, same) = queinit-IsQueue k (omega (arith, e)) (omega (arith, e)) in
    let more : k.nextqid + 2 ≡ nthread + 2 * suc n = omega (arith, e) in
    (
      T',
      made
          ∙ ap (λ q. ok (pos q) (record k { nextqid = k.nextqid + 2; quetab = T' })) e
          ∙ ap (λ q. ok (pos (nthread + 2 * n)) (record k { nextqid = q; quetab = T' })) more,
      λ j h. elim (Bool-cases (j == n)) [
        | inl last ↦
            let at : k.nextqid ≡ nthread + 2 * j = ground (arith, e, last) in
            subst (λ q. IsQueue T' q []) at empty_one
        | inr before ↦
            let small : j < n = ground arith in
            IsQueue-frame k.quetab T' (nthread + 2 * j) [] (λ x m. same x (ground (arith, e, m)))
              (queues j small)
      ],
    )

-- The `i` first semaphores free, each with its queue.
abbrev pub Free : (ℕ → Sement) → ℕ → Type 0
Free S i = (j : ℕ) → j < i → ((S j).used ≡ false) × ((S j).queue ≡ pos (nthread + 2 * j))

pub init_semaphores_run :
    (i : ℕ) (k : Kernel)
    → i ≤ nsem
    → k.nextqid ≡ nthread
    → (T : Table) × (S : ℕ → Sement) × (init_semaphores i k
        ≡ ok tt (record k { quetab = T; semtab = S; nextqid = nthread + 2 * i }))
      × Queues T i
      × Free S i
unfolding init_semaphores
init_semaphores_run zero k le e = (
  k.quetab,
  k.semtab,
  ap (λ n. ok tt (record k { nextqid = n })) e,
  (λ j h. absurd (omega arith)),
  λ j h. absurd (omega arith),
)
init_semaphores_run (suc i) k le e =
    let (T, S, ran, queues, free) = init_semaphores_run i k (omega arith) e in
    let v = record (S i) { used = false } in
    let v' = record v { queue = pos (nthread + 2 * i) } in
    let k1 = record k { quetab = T; semtab = update S i v; nextqid = nthread + 2 * i } in
    let (T', made, queues') = queinit-Queues i k1 (omega arith) refl queues in
    (
      T',
      update S i v',
      rw
          (
            ran,
            put_sement_in i _ (omega arith),
            made,
            put_sement_in i _ (omega arith),
            update_at S i v,
            update_over S i v v',
          )
          refl,
      queues',
      λ j h. elim (Bool-cases (j == i)) [
        | inl last ↦ (ground (arith, last), ground (arith, last))
        | inr before ↦
            let old = free j (ground arith) in
            (ground (arith, before, old.0), ground (arith, before, old.1))
      ],
    )

put_monent_in :
    (nmon i : ℕ) (f : Monent → Monent) (k : Kernel)
    → i < nmon
    → put_monent nmon i f k ≡ ok tt (record k { montab = update k.montab i (f (k.montab i)) })
unfolding put_monent
put_monent_in nmon i f k lt = rw (lt→ltb i nmon lt) refl

pub init_monitors_run :
    (nmon i : ℕ) (k : Kernel)
    → i ≤ nmon
    → (M : ℕ → Monent) × (init_monitors nmon i k ≡ ok tt (record k { montab = M }))
      × ((j : ℕ) → j < i → (M j).used ≡ false)
unfolding init_monitors
init_monitors_run nmon zero k le = (k.montab, refl, λ j h. absurd (omega arith))
init_monitors_run nmon (suc i) k le =
    let (M, ran, free) = init_monitors_run nmon i k (omega arith) in
    (
      update M i (record (M i) { used = false }),
      rw (ran, put_monent_in nmon i _ (record k { montab = M }) (omega arith)) refl,
      λ j h. ground (arith, free j),
    )

put_pool_in :
    (i : ℕ) (f : Bfpentry → Bfpentry) (k : Kernel)
    → i < npool
    → put_pool i f k ≡ ok tt (record k { bfptab = update k.bfptab i (f (k.bfptab i)) })
unfolding put_pool
put_pool_in i f k lt = rw (lt→ltb i npool lt) refl

pub init_pools_run :
    (i : ℕ) (k : Kernel)
    → i ≤ npool
    → (B : ℕ → Bfpentry) × (init_pools i k ≡ ok tt (record k { bfptab = B }))
      × ((j : ℕ) → j < i → (B j).used ≡ false)
unfolding init_pools
init_pools_run zero k le = (k.bfptab, refl, λ j h. absurd (omega arith))
init_pools_run (suc i) k le =
    let (B, ran, free) = init_pools_run i k (omega arith) in
    (
      update B i (record (B i) { used = false }),
      rw (ran, put_pool_in i _ (record k { bfptab = B }) (omega arith)) refl,
      λ j h. ground (arith, free j),
    )

prnull-Ends : Ends prnull 6
prnull-Ends = record { terminator = refl; before = λ i h. ground arith }

pub null_thread_run :
    (end : ℕ) (k : Kernel)
    → (t : Thrent) × (null_thread end k
        ≡ ok tt (record k { thrtab = update k.thrtab 0 t; thrcurrent = pos 0 }))
      × (t.state ≡ ThreadState.curr)
      × (t.prio ≡ pos 0)
unfolding null_thread
null_thread_run end k =
    let v = record (k.thrtab 0) { state = ThreadState.curr; prio = pos 0 } in
    let (copied, ran, _) =
      strlcpy-Copied 6 7 v.name prnull 16 prnull-Ends (omega arith) (omega arith) in
    let v' = record v { name = copied } in
    (
      record v' { stkbase = end; stklen = (k.mem.memheap + u32 - end) % u32; stkptr = 0 },
      rw
          (
            put_thrent_in 0 _ (omega arith),
            set_name_again k k.thrtab 7 6 0 v prnull copied (omega arith) ran,
            put_again k k.thrtab 0 v'
                (λ t. record t {
                  stkbase = end;
                  stklen = (k.mem.memheap + u32 - end) % u32;
                  stkptr = 0;
                })
                (omega arith),
          )
          refl,
      refl,
      refl,
    )

-- The heads of the queues: of each semaphore's, of the ready list and of the sleep queue.
abbrev pub start_heads : ℕ → Bool
start_heads h = leb nthread h && (ltb h nqent && (h % 2 == 0))

abbrev pub nobody : ℕ → List ℕ
nobody h = []

pub start-System : (T : Table) → Queues T (nsem + 2) → System T start_heads nobody
start-System T queues = record {
  holds = λ h e.
      let half : nthread + 2 * ((h - nthread) / 2) ≡ h = ground arith in
      subst (λ i. IsQueue T i []) half (queues ((h - nthread) / 2) (ground arith));
  tails = λ h e. ground arith;
  once = λ x h h' e e' m m'. absurd (false≢true m);
}
