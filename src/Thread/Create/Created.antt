-- ===== src/Thread/Create/Created.antt =====
-- `create` of system/create.c: what it makes, and what it refuses.
use xinu.Base.{
  ℕ, ◌+◌, ◌<◌, ◌≡◌, ◌≢◌, refl, ap, sym, subst, ◌-◌, ◌*◌, ◌≤◌, ◌⊎◌, All, All-map, ◌∷◌, length, ℤ,
  pos, ◌+ℤ◌, true, false, List, ◌==◌, arith, some, inl, inr,
}
use xinu.Kernel.{nthread, syserr, ThreadState, Kernel, ok, is_free, update_at}
use xinu.Memory.{Memory, u32, nowhere, stkget, stkfree}
use xinu.Memory.Blocks.{Blocks, IsHeap, SameBlock, IsHeap-same}
use xinu.Memory.FirstFit.{Served}
use xinu.Memory.Get.{units}
use xinu.Memory.Highest.{last_word}
use xinu.Memory.LastFit.{last_fit, last_fit-Served}
use xinu.Memory.Stack.{Stack, stkget-last_fit, stkget-stkfree}
use xinu.Strings.{Bytes}
use xinu.Strings.Copy.{Copied, strlcpy-Copied}
use xinu.Strings.Length.{Ends}
use xinu.Thread.Context.{Fpu, Words, context_at, setup_stack}
use xinu.Thread.Context.Bounds.{written_words, setup_stack-Outside}
use xinu.Thread.Context.Words.{Outside}
use xinu.Thread.Context.Layout.{HasContext, setup_stack_context}
use xinu.Thread.Create.{create, write_words, stack_size, thrnew, tnmlen, default_fdesc}
use xinu.Thread.Create.Made.{create_run, after, on_heap-some, entry}
use xinu.Thread.Create.Search.{
  candidate, vacant, turned, first_true, thrnew_loop_found, thrnew_loop_full, turn_of,
}

-- What `create` promises of the thread `tid`, with a stack that ends with the word `saddr`.
pub record Created (k : Kernel) (fpu : Fpu) (procaddr : ℤ) (ssize : ℕ) (priority : ℤ) (len : ℕ)
    (name : Bytes) (args : List ℤ) (initret : ℤ) (bs' : Blocks) (saddr tid : ℕ) (k' : Kernel)
    : Type 0 where
  pub tid_in : tid < nthread
  pub fresh : is_free (k.thrtab tid).state ≡ true
  pub state : (k'.thrtab tid).state ≡ ThreadState.susp
  pub prio : (k'.thrtab tid).prio ≡ priority
  pub stkbase : (k'.thrtab tid).stkbase ≡ saddr
  pub stklen : (k'.thrtab tid).stklen ≡ stack_size ssize
  pub parent : (k'.thrtab tid).parent ≡ k.thrcurrent
  pub hasmsg : (k'.thrtab tid).hasmsg ≡ false
  pub fdesc : (k'.thrtab tid).fdesc ≡ default_fdesc
  pub name_copied : Copied (k.thrtab tid).name name len tnmlen (k'.thrtab tid).name
  pub context : HasContext fpu procaddr initret args (k'.thrtab tid).stkptr k'.words
  pub others : (j : ℕ) → j ≢ tid → k'.thrtab j ≡ k.thrtab j
  pub count : k'.thrcount ≡ k.thrcount +ℤ pos 1
  pub heap : IsHeap k'.mem bs'
  pub words :
      (a : ℕ)
      → Outside (context_at fpu saddr (length args)) 0 (written_words fpu (length args)) a
      → k'.words a ≡ k.words a
  pub frame : k' ≡ record k {
    mem = k'.mem;
    nexttid = k'.nexttid;
    thrcount = k'.thrcount;
    thrtab = k'.thrtab;
    words = k'.words;
  }

-- The address of a stack is not SYSERR.
a_stack :
    (m : Memory) (bs : Blocks) (size a : ℕ) (bs' : Blocks)
    → IsHeap m bs
    → 0 < size
    → last_fit (units size) bs ≡ some (a, bs')
    → (last_word a (units size) == nowhere) ≡ false
a_stack m bs size a bs' v pos_size e =
    let gives = subst (Served m.memheap m.maxaddr (units size) bs) e (
      last_fit-Served (units size) (omega arith) (omega (arith, pos_size)) m.memheap m.maxaddr bs
        v.ordered) in
    ground (arith, gives.fits, v.inside)

-- While an entry is free, `thrnew` answers a free one.
thrnew_found :
    (k : Kernel) (x : ℕ)
    → x < nthread
    → is_free (k.thrtab x).state ≡ true
    → (tid : ℕ) × (tid < nthread)
      × (is_free (k.thrtab tid).state ≡ true)
      × (thrnew k ≡ ok (pos tid) (turned k tid))
unfolding thrnew
thrnew_found k x lt vac = elim (first_true (vacant k) nthread) [
  | inl (i, i_lt, holds, before) ↦
      (candidate k i, omega arith, holds, thrnew_loop_found nthread k i i_lt holds before)
  | inr full ↦
      let (i, i_lt, here) = turn_of k x lt in
      absurd (ground (arith, full i i_lt, ap (λ c. is_free (k.thrtab c).state) here, vac))
]

-- A header that lies in none of the `n` words from `low` on.
abbrev pub Clear : ℕ → ℕ → ℕ × ℕ → Type 0
Clear low n (a, l) = (a + 8 ≤ low) ⊎ (low + 4 * n ≤ a)

module _ (fpu : Fpu) (saddr : ℕ) (procaddr initret : ℤ) (args : List ℤ) where
  abbrev low : ℕ
  low = context_at fpu saddr (length args)

  abbrev writes : Words → Words
  writes w = (setup_stack fpu saddr procaddr initret args w).1

  Clear-SameBlock :
      (k : Kernel) (b : ℕ × ℕ)
      → Clear low (written_words fpu (length args)) b
      → SameBlock k.mem (write_words writes k).mem b.0
  Clear-SameBlock k (a, l) c =
      let next =
        setup_stack-Outside fpu saddr procaddr initret args (λ a. pos (k.mem.block a).next) a
          (ground (arith, c)) in
      let len =
        setup_stack-Outside fpu saddr procaddr initret args (λ a. pos (k.mem.block (a - 4)).length)
          (a + 4) (ground (arith, c)) in
      let back : a + 4 - 4 ≡ a = omega arith in (rw next refl, rw (len, back) refl)

  -- Writes to the words of a context leave the heap alone when no header lies there.
  write_words-IsHeap :
      (k : Kernel) (bs : Blocks)
      → IsHeap k.mem bs
      → All (Clear low (written_words fpu (length args))) ((k.mem.memlist, 0) ∷ bs)
      → IsHeap (write_words writes k).mem bs
  write_words-IsHeap k bs v clear =
      IsHeap-same k.mem (write_words writes k).mem.block bs v
        (Clear-SameBlock k (k.mem.memlist, 0) clear.0) (All-map (Clear-SameBlock k) bs clear.1)

-- `create` with an ended name, a stack that the heap has room for and a free entry in the table
-- answers a thread that was free, in a build with or without hard floats, provided that no header of
-- a free block lies in the words that `setupStack` writes, be they in the stack or behind it. The
-- thread is suspended, with the priority, the stack, the name (as much of it as fits), the caller as
-- its parent, no message and the default devices, and its context holds the arguments and the
-- procedure. One thread more is counted, the stack is taken from the heap by last fit, no word
-- outside of those that `setupStack` writes changes, and no other thread, queue or semaphore does.
pub create-Created :
    (fpu : Fpu) (procaddr : ℤ) (ssize : ℕ) (priority : ℤ) (fuel len : ℕ) (name : Bytes)
    (args : List ℤ) (initret : ℤ) (k : Kernel) (bs : Blocks) (a : ℕ) (bs' : Blocks) (x : ℕ)
    → IsHeap k.mem bs
    → ssize + 7 < u32
    → last_fit (units (stack_size ssize)) bs ≡ some (a, bs')
    → Ends name len
    → len < fuel
    → x < nthread
    → is_free (k.thrtab x).state ≡ true
    → All
        (Clear
          (context_at fpu (last_word a (units (stack_size ssize))) (length args))
          (written_words fpu (length args)))
        ((k.mem.memlist, 0) ∷ bs')
    → (tid : ℕ) × (k' : Kernel) × (create fpu procaddr ssize priority fuel name args initret k
        ≡ ok (pos tid) k')
      × Created k fpu procaddr ssize priority len name args initret bs'
          (last_word a (units (stack_size ssize)))
          tid
          k'
create-Created fpu procaddr ssize priority fuel len name args initret k bs a bs' x v small e ends
      enough lt vac clear =
    let size = stack_size ssize in
    let pos_size : 0 < size = ground arith in
    let fits_size : size + 7 < u32 = ground (arith, small) in
    let (m, got, heap, gives, _, _, same_list) =
      subst (λ o. Stack k.mem (units size) bs o (stkget size k.mem)) e
        (stkget-last_fit k.mem bs size v pos_size fits_size) in
    let saddr = last_word a (units size) in
    let there = a_stack k.mem bs size a bs' v pos_size e in
    let k1 = record k { mem = m } in
    let (tid, tid_in, fresh, found) = thrnew_found k1 x lt vac in
    let (copied, run, is_copied) =
      strlcpy-Copied len fuel (k.thrtab tid).name name tnmlen ends enough (omega arith) in
    let t =
      entry fpu procaddr saddr size priority fuel name args initret tid len copied (turned k1 tid)
        tid_in run in
    let at = update_at k.thrtab tid t in
    (
      tid,
      after fpu procaddr saddr size priority fuel name args initret tid len copied (turned k1 tid)
          tid_in run,
      create_run fpu procaddr ssize priority fuel name args initret k saddr tid len copied m got
          there found tid_in run,
      record {
        tid_in = tid_in;
        fresh = fresh;
        state = ap (λ t. t.state) at;
        prio = ap (λ t. t.prio) at;
        stkbase = ap (λ t. t.stkbase) at;
        stklen = ap (λ t. t.stklen) at;
        parent = ap (λ t. t.parent) at;
        hasmsg = ap (λ t. t.hasmsg) at;
        fdesc = ap (λ t. t.fdesc) at;
        name_copied =
            subst (λ t. Copied (k.thrtab tid).name name len tnmlen t.name) (sym at) is_copied;
        context =
            subst
              (λ t.
                HasContext fpu procaddr initret args t.stkptr
                  (setup_stack fpu saddr procaddr initret args k.words).1)
              (sym at) (setup_stack_context fpu saddr procaddr initret args k.words);
        others = λ j ne. ground arith;
        count = refl;
        heap = write_words-IsHeap fpu saddr procaddr initret args k1 bs' heap (
            subst
              (λ p.
                All (Clear (context_at fpu saddr (length args)) (written_words fpu (length args)))
                  ((p, 0) ∷ bs'))
              (sym same_list) clear);
        words = λ a out. setup_stack-Outside fpu saddr procaddr initret args k.words a out;
        frame = refl;
      },
    )

-- `create` without a free entry in the table answers SYSERR. The stack that the heap had room for
-- is given back, so that the same blocks are free, and but for the heap and the turn nothing
-- changes.
pub create_full :
    (fpu : Fpu) (procaddr : ℤ) (ssize : ℕ) (priority : ℤ) (fuel : ℕ) (name : Bytes) (args : List ℤ)
    (initret : ℤ) (k : Kernel) (bs : Blocks) (a : ℕ) (bs' : Blocks)
    → IsHeap k.mem bs
    → ssize + 7 < u32
    → last_fit (units (stack_size ssize)) bs ≡ some (a, bs')
    → ((x : ℕ) → x < nthread → is_free (k.thrtab x).state ≡ false)
    → (k' : Kernel) × (create fpu procaddr ssize priority fuel name args initret k ≡ ok syserr k')
      × IsHeap k'.mem bs
      × (k' ≡ record k { mem = k'.mem; nexttid = k'.nexttid })
unfolding create thrnew
create_full fpu procaddr ssize priority fuel name args initret k bs a bs' v small e full =
    let size = stack_size ssize in
    let pos_size : 0 < size = ground arith in
    let fits_size : size + 7 < u32 = ground (arith, small) in
    let (m, m2, got, given, heap) = stkget-stkfree k.mem bs size a bs' v pos_size fits_size e in
    let saddr = last_word a (units size) in
    let k1 = record k { mem = m } in
    let there = a_stack k.mem bs size a bs' v pos_size e in
    let (t, none_free) = thrnew_loop_full nthread k1 (λ j h. full (candidate k1 j) (omega arith)) in
    (
      record k { mem = m2; nexttid = t },
      rw
          (
            on_heap-some (stkget size) k saddr m got,
            there,
            none_free,
            on_heap-some (stkfree saddr size) (turned k1 t) true m2 given,
          )
          refl,
      heap,
      refl,
    )
