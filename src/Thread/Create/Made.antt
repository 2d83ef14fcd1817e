-- ===== src/Thread/Create/Made.antt =====
-- `create` of system/create.c as a whole.
use xinu.Base.{ℕ, ◌<◌, ◌≡◌, refl, ℤ, pos, ◌+ℤ◌, false, List, ◌==◌, Option, some}
use xinu.Kernel.{
  nthread, ThreadState, Thrent, Kernel, ok, update, update_at, update_over, put_thrent, on_heap,
}
use xinu.Memory.{Memory, nowhere, stkget}
use xinu.Strings.{Bytes, strlcpy}
use xinu.Thread.{gettid}
use xinu.Thread.Context.{Fpu, setup_stack}
use xinu.Thread.Create.{
  create, new_thread, write_words, set_name, stack_size, thrnew, tnmlen, default_fdesc,
}
use xinu.Thread.Create.Search.{turned}
use xinu.Thread.Scheduled.{put_thrent_in, thrent_in}

-- Writes to an entry that was just written.
pub put_again :
    (k : Kernel) (t : ℕ → Thrent) (tid : ℕ) (v : Thrent) (f : Thrent → Thrent)
    → tid < nthread
    → put_thrent (pos tid) f (record k { thrtab = update t tid v })
      ≡ ok tt (record k { thrtab = update t tid (f v) })
put_again k t tid v f lt =
    rw (put_thrent_in tid f lt, update_at t tid v, update_over t tid v (f v)) refl

pub set_name_again :
    (k : Kernel) (t : ℕ → Thrent) (fuel len tid : ℕ) (v : Thrent) (name copied : Bytes)
    → tid < nthread
    → strlcpy fuel v.name name tnmlen ≡ some (len, copied)
    → set_name fuel name (pos tid) (record k { thrtab = update t tid v })
      ≡ ok tt (record k { thrtab = update t tid (record v { name = copied }) })
unfolding set_name
set_name_again k t fuel len tid v name copied lt e =
    rw (thrent_in tid lt, update_at t tid v, e) (put_again k t tid v _ lt)

-- The entry of the new thread before it has its name, and at the end.
abbrev unnamed : Thrent → ℤ → ℕ → ℕ → Thrent
unnamed t priority saddr ssize = record t {
  state = ThreadState.susp;
  prio = priority;
  stkbase = saddr;
  stklen = ssize;
}

module _ (fpu : Fpu) (procaddr : ℤ) (saddr ssize : ℕ) (priority : ℤ) (fuel : ℕ) (name : Bytes)
    (args : List ℤ) (initret : ℤ) (tid len : ℕ) (copied : Bytes) (k : Kernel) (lt : tid < nthread)
    (e : strlcpy fuel (k.thrtab tid).name name tnmlen ≡ some (len, copied)) where
  abbrev stack : ℕ × (ℕ → ℤ)
  stack = setup_stack fpu saddr procaddr initret args k.words

  abbrev pub entry : Thrent
  entry = record (unnamed (k.thrtab tid) priority saddr ssize) {
    name = copied;
    parent = k.thrcurrent;
    hasmsg = false;
    fdesc = default_fdesc;
    stkptr = stack.0;
  }

  abbrev pub after : Kernel
  after =
      write_words (λ w. (setup_stack fpu saddr procaddr initret args w).1)
        (record k { thrcount = k.thrcount +ℤ pos 1; thrtab = update k.thrtab tid entry })

  new_thread_run :
      new_thread fpu procaddr saddr ssize priority fuel name args initret (pos tid) k ≡ ok tt after
  unfolding new_thread gettid
  new_thread_run =
      let k1 = record k { thrcount = k.thrcount +ℤ pos 1 } in
      let v1 = unnamed (k.thrtab tid) priority saddr ssize in
      let v2 = record v1 { name = copied } in
      let v3 = record v2 { parent = k.thrcurrent; hasmsg = false; fdesc = default_fdesc } in
      rw
        (
          put_thrent_in tid _ lt,
          set_name_again k1 k.thrtab fuel len tid v1 name copied lt e,
          put_again k1 k.thrtab tid v2
              (λ t. record t { parent = k.thrcurrent; hasmsg = false; fdesc = default_fdesc }) lt,
          put_again k1 k.thrtab tid v3 (λ t. record t { stkptr = stack.0 }) lt,
        )
        refl

pub on_heap-some :
    {A : Type 0} (f : Memory → Option (A × Memory)) (k : Kernel) (x : A) (m : Memory)
    → f k.mem ≡ some (x, m)
    → on_heap f k ≡ ok x (record k { mem = m })
on_heap-some f k x m e = rw (e, on_heap) refl

module _ (fpu : Fpu) (procaddr : ℤ) (ssize : ℕ) (priority : ℤ) (fuel : ℕ) (name : Bytes)
    (args : List ℤ) (initret : ℤ) (k : Kernel) where
  pub create_run :
      (saddr tid len : ℕ) (copied : Bytes) (m : Memory)
      → stkget (stack_size ssize) k.mem ≡ some (saddr, m)
      → (saddr == nowhere) ≡ false
      → thrnew (record k { mem = m }) ≡ ok (pos tid) (turned (record k { mem = m }) tid)
      → (lt : tid < nthread)
      → (e : strlcpy fuel (k.thrtab tid).name name tnmlen ≡ some (len, copied))
      → create fpu procaddr ssize priority fuel name args initret k
        ≡ ok (pos tid) (
            after fpu procaddr saddr
              (stack_size ssize)
              priority
              fuel
              name
              args
              initret
              tid
              len
              copied
              (turned (record k { mem = m }) tid)
              lt
              e)
  unfolding create
  create_run saddr tid len copied m got there found lt e =
      rw
        (
          on_heap-some (stkget (stack_size ssize)) k saddr m got,
          there,
          found,
          new_thread_run fpu procaddr saddr (stack_size ssize) priority fuel name args initret tid
              len copied (turned (record k { mem = m }) tid) lt e,
        )
        refl
