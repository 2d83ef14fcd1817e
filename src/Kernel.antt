-- ===== src/Kernel.antt =====
-- The tables of the kernel and the monad that its functions run in: include/thread.h,
-- include/queue.h, include/semaphore.h, include/monitor.h, include/mailbox.h, include/bufpool.h and
-- the variables of system/initialize.c.
use xinu.Memory.{Memory}
use xinu.Base.{
  ℕ, ◌≡◌, arith, ◌+◌, ◌-◌, ℤ, pos, negsuc, Bool, true, false, not, ◌||◌, List, Option, none, some,
  leb, ltb, ◌==◌, if◌then◌else◌,
}

-- include/conf.h of the Raspberry Pi build.
abbrev pub nthread : ℕ
nthread = 100

abbrev pub nsem : ℕ
nsem = 100

abbrev pub nqent : ℕ
nqent = nthread + 4 + nsem + nsem

abbrev pub OK : ℤ
OK = pos 1

abbrev pub syserr : ℤ
syserr = negsuc 0

abbrev pub empty : ℤ
empty = negsuc 1

abbrev pub maxkey : ℤ
maxkey = pos 0x7FFFFFFF

-- 0x80000000, stored in an `int`.
abbrev pub minkey : ℤ
minkey = negsuc 0x7FFFFFFF

pub data ThreadState : Type 0 where
  curr free ready recv sleep susp wait tmout migrate : ThreadState

abbrev pub is_free : ThreadState → Bool
is_free ThreadState.free = true
is_free _ = false

-- struct queent
pub record Queent : Type 0 where
  pub key : ℤ
  pub next : ℤ
  pub prev : ℤ

-- struct thrent, less the saved interrupt mask of the context switch and the free list that nothing
-- uses. `name` is the array of characters.
pub record Thrent : Type 0 where
  pub state : ThreadState
  pub prio : ℤ
  pub stkbase : ℕ
  pub stklen : ℕ
  pub stkptr : ℕ
  pub name : ℕ → ℕ
  pub sem : ℕ
  pub parent : ℤ
  pub msg : ℤ
  pub hasmsg : Bool
  pub fdesc : List ℕ

-- struct sement; `used` is SUSED.
pub record Sement : Type 0 where
  pub used : Bool
  pub count : ℤ
  pub queue : ℤ

-- struct monent; `used` is MUSED.
pub record Monent : Type 0 where
  pub used : Bool
  pub owner : ℤ
  pub count : ℕ
  pub sem : ℕ

-- struct mbox; `alloc` is MAILBOX_ALLOC, and `msgs` the address of the message queue.
pub record Mbox : Type 0 where
  pub alloc : Bool
  pub sender : ℕ
  pub receiver : ℕ
  pub max : ℕ
  pub count : ℕ
  pub start : ℕ
  pub msgs : ℕ

-- struct bfpentry; `used` is BFPUSED.
pub record Bfpentry : Type 0 where
  pub used : Bool
  pub bufsize : ℕ
  pub nbuf : ℕ
  pub head : ℕ
  pub next : ℕ
  pub freebuf : ℕ

-- `words` is what the allocated blocks of the heap hold, by address, apart from the headers of the
-- free blocks in `mem`; `write_words` writes to both.
pub record Kernel : Type 0 where
  pub quetab : ℕ → Queent
  pub nextqid : ℕ
  pub thrtab : ℕ → Thrent
  pub nexttid : ℕ
  pub thrcount : ℤ
  pub thrcurrent : ℤ
  pub resdefer : ℕ
  pub semtab : ℕ → Sement
  pub nextsem : ℕ
  pub montab : ℕ → Monent
  pub nextmon : ℕ
  pub mboxtab : ℕ → Mbox
  pub nextmbx : ℕ
  pub mboxtabsem : ℕ
  pub words : ℕ → ℤ
  pub bfptab : ℕ → Bfpentry
  pub readylist : ℤ
  pub sleepq : ℤ
  pub clkticks : ℕ
  pub clktime : ℕ
  pub mem : Memory

-- A run ends with a value, with an access outside of a table, with the machine halted by `xdone`,
-- or without fuel.
pub data Run (A : Type 0) : Type 0 where
  ok : A → Kernel → Run A
  fault : Run A
  halted : Run A
  out_of_fuel : Run A

abbrev pub K : Type 0 → Type 0
K A = Kernel → Run A

abbrev pub pure : {A : Type 0} → A → K A
pure = ok

module _ {A B : Type 0} where
  abbrev pub chain : Run A → (A → K B) → Run B
  chain (ok a k) f = f a k
  chain fault f = fault
  chain halted f = halted
  chain out_of_fuel f = out_of_fuel

  infixl 5 ◌>>=◌ ◌>>◌
  abbrev pub ◌>>=◌ : K A → (A → K B) → K B
  m >>= f = λ k. chain (m k) f

  abbrev pub ◌>>◌ : K A → K B → K B
  m >> n = m >>= λ _. n

-- What a test reads of the kernel.
abbrev pub gets : {A : Type 0} → (Kernel → A) → K A
gets f k = ok (f k) k

abbrev pub modify : (Kernel → Kernel) → K (Unit {0})
modify f k = ok tt (f k)

abbrev pub update {ℓ} : {A : Type ℓ} → (ℕ → A) → ℕ → A → ℕ → A
update t i v j = if j == i then v else t j

-- An index into an array of `n` entries.
abbrev pub slot : ℕ → ℤ → Option ℕ
slot n (pos i) = if ltb i n then some i else none
slot n (negsuc i) = none

-- A step on the heap; a walk without rounds left is a run without fuel.
abbrev pub on_heap : {A : Type 0} → (Memory → Option (A × Memory)) → K A
on_heap f k = elim (f k.mem) [ none ↦ out_of_fuel | some (a, m) ↦ ok a (record k { mem = m }) ]

-- `isbadtid` and `isbadqid`. The macros stop at the first test that holds.
unfoldable pub isbadtid : Kernel → ℤ → Bool
isbadtid k (negsuc n) = true
isbadtid k (pos n) = leb nthread n || is_free (k.thrtab n).state

unfoldable pub isbadqid : ℤ → Bool
isbadqid (negsuc n) = true
isbadqid (pos n) = not (n == n + 1 - 1) || leb nqent (n + 1)

-- The value of an access, or a fault.
abbrev pub at : {A : Type 0} → Option ℕ → (ℕ → K A) → K A
at none f = λ _. fault
at (some i) f = f i

unfoldable pub queent : ℤ → K Queent
queent i = at (slot nqent i) (λ n. gets (λ k. k.quetab n))

unfoldable pub put_queent : ℤ → (Queent → Queent) → K (Unit {0})
put_queent i f =
    at (slot nqent i) (λ n. modify (λ k. record k { quetab = update k.quetab n (f (k.quetab n)) }))

unfoldable pub thrent : ℤ → K Thrent
thrent i = at (slot nthread i) (λ n. gets (λ k. k.thrtab n))

unfoldable pub put_thrent : ℤ → (Thrent → Thrent) → K (Unit {0})
put_thrent i f =
    at (slot nthread i)
      (λ n. modify (λ k. record k { thrtab = update k.thrtab n (f (k.thrtab n)) }))

abbrev pub set_next : ℤ → ℤ → K (Unit {0})
set_next i v = put_queent i (λ e. record e { next = v })

abbrev pub set_prev : ℤ → ℤ → K (Unit {0})
set_prev i v = put_queent i (λ e. record e { prev = v })

abbrev pub set_key : ℤ → ℤ → K (Unit {0})
set_key i v = put_queent i (λ e. record e { key = v })

abbrev pub set_state : ℤ → ThreadState → K (Unit {0})
set_state i v = put_thrent i (λ t. record t { state = v })

-- Of two writes to the same entry the second one stays.
pub update_over {ℓ} :
    {A : Type ℓ} (t : ℕ → A) (i : ℕ) (v w : A) → update (update t i v) i w ≡ update t i w
update_over {A} t i v w p j = each j p
  where
    each : (j : ℕ) → update (update t i v) i w j ≡ update t i w j
    each j = ground arith

pub update_at {ℓ} : {A : Type ℓ} (t : ℕ → A) (i : ℕ) (v : A) → update t i v i ≡ v
update_at t i v = ground arith
