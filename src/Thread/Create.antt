-- ===== src/Thread/Create.antt =====
-- New threads: system/create.c.
pub mod Created
pub mod Made
pub mod Room
pub mod Search
use xinu.Base.{
  ℕ, zero, suc, ◌+◌, ◌-◌, ◌%◌, ℤ, pos, negsuc, Bool, true, false, List, [], ◌∷◌, ltb, ◌==◌, ◌==ℤ◌,
  ◌+ℤ◌, if◌then◌else◌, Option, none, some,
}
use xinu.Kernel.{
  nthread, OK, syserr, is_free, ThreadState, Kernel, K, out_of_fuel, pure, ◌>>=◌, ◌>>◌, gets,
  modify, thrent, put_thrent, on_heap,
}
use xinu.Memory.{stkget, stkfree, nowhere, u32}
use xinu.Strings.{Bytes, strlcpy}
use xinu.Thread.{gettid}
use xinu.Thread.Context.{Fpu, Words, setup_stack}

-- MINSTK and TNMLEN of include/thread.h, and the devices CONSOLE and SERIAL0 of include/conf.h.
abbrev pub minstk : ℕ
minstk = 128

abbrev pub tnmlen : ℕ
tnmlen = 16

abbrev pub default_fdesc : List ℕ
default_fdesc = 6 ∷ 6 ∷ 6 ∷ 0 ∷ 0 ∷ []

abbrev pub stack_size : ℕ → ℕ
stack_size ssize = if ltb ssize minstk then minstk else ssize

unfoldable pub thrnew_loop : ℕ → K ℤ
thrnew_loop zero = pure syserr
thrnew_loop (suc left) = do
  modify (λ k. record k { nexttid = (k.nexttid + 1) % nthread })
  tid ← gets (λ k. k.nexttid)
  thr ← thrent (pos tid)
  if is_free thr.state then pure (pos tid) else thrnew_loop left

unfoldable pub thrnew : K ℤ
thrnew = thrnew_loop nthread

abbrev pub put_name : ℤ → Option (ℕ × Bytes) → K (Unit {0})
put_name tid none = λ _. out_of_fuel
put_name tid (some (len, copied)) = put_thrent tid (λ t. record t { name = copied })

-- `strlcpy` into the name of the thread; `fuel` bounds the walk along the argument.
unfoldable pub set_name : ℕ → Bytes → ℤ → K (Unit {0})
set_name fuel name tid = do thr ← thrent tid; put_name tid (strlcpy fuel thr.name name tnmlen)

abbrev of_word : ℤ → ℕ
of_word (pos n) = n
of_word (negsuc n) = u32 - 1 - n % u32

-- Writes to words of the memory reach the headers of free blocks too, where these lie: the word at
-- an address is the link of the block there, and the word behind it its length.
abbrev pub write_words : (Words → Words) → Kernel → Kernel
write_words f k = record k {
  words = f k.words;
  mem = record k.mem {
    block = λ i. record {
      next = of_word (f (λ a. pos (k.mem.block a).next) i);
      length = of_word (f (λ a. pos (k.mem.block (a - 4)).length) (i + 4));
    };
  };
}

-- Filling in the entry of the new thread.
unfoldable pub new_thread : Fpu → ℤ → ℕ → ℕ → ℤ → ℕ → Bytes → List ℤ → ℤ → ℤ → K (Unit {0})
new_thread fpu procaddr saddr ssize priority fuel name args initret tid = do
  modify (λ k. record k { thrcount = k.thrcount +ℤ pos 1 })
  put_thrent tid
      (λ t. record t { state = ThreadState.susp; prio = priority; stkbase = saddr; stklen = ssize })
  set_name fuel name tid
  parent ← gettid
  put_thrent tid (λ t. record t { parent = parent; hasmsg = false; fdesc = default_fdesc })
  words ← gets (λ k. k.words)
  put_thrent tid (λ t. record t { stkptr = (setup_stack fpu saddr procaddr initret args words).0 })
  modify (write_words (λ w. (setup_stack fpu saddr procaddr initret args w).1))

-- `initret` is the address of INITRET, and the arguments are given as a list.
unfoldable pub create : Fpu → ℤ → ℕ → ℤ → ℕ → Bytes → List ℤ → ℤ → K ℤ
create fpu procaddr ssize priority fuel name args initret = do
  saddr ← on_heap (stkget (stack_size ssize))
  if saddr == nowhere then pure syserr else do
    tid ← thrnew
    if tid ==ℤ syserr then (do on_heap (stkfree saddr (stack_size ssize)); pure syserr) else do
      new_thread fpu procaddr saddr (stack_size ssize) priority fuel name args initret tid
      pure tid
