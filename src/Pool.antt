-- ===== src/Pool.antt =====
-- Buffer pools: system/bufpool.c and include/bufpool.h. The two words in front of a buffer, struct
-- poolbuf, are the address of the next one and the pool's number. `others` is what the other
-- threads do while a call waits for a buffer.
pub mod Buffers
use xinu.Base.{
  ℕ, zero, suc, ◌+◌, ◌-◌, ◌*◌, ◌/◌, ◌%◌, ◌^◌, ℤ, pos, negsuc, pos_part, Bool, true, false, ◌||◌,
  not, leb, ltb, ◌==◌, ◌==ℤ◌, if◌then◌else◌, Option, none, some,
}
use xinu.Kernel.{
  OK, syserr, Kernel, Bfpentry, K, fault, pure, ◌>>=◌, ◌>>◌, gets, modify, update, on_heap,
}
use xinu.Mailbox.{to_int}
use xinu.Memory.{u32, memget, memfree, nowhere}
use xinu.Semaphore.{wait, signaln, semcreate, semfree, syserr_u}

-- NPOOL, POOL_MAX_BUFSIZE, POOL_MIN_BUFSIZE and POOL_MAX_NBUFS of include/conf.h, and the size of
-- struct poolbuf.
abbrev pub npool : ℕ
npool = 8

abbrev pub max_bufsize : ℕ
max_bufsize = 2048

abbrev pub min_bufsize : ℕ
min_bufsize = 8

abbrev pub max_nbufs : ℕ
max_nbufs = 8192

abbrev pub poolbuf_size : ℕ
poolbuf_size = 8

unfoldable pub roundword : ℕ → ℕ
roundword b = (3 + b) % u32 / 4 * 4

unfoldable pub isbadpool : Kernel → ℤ → Bool
isbadpool k (negsuc n) = true
isbadpool k (pos p) = leb npool p || not (k.bfptab p).used

unfoldable pub pool : ℕ → K Bfpentry
pool id = if ltb id npool then gets (λ k. k.bfptab id) else λ _. fault

unfoldable pub put_pool : ℕ → (Bfpentry → Bfpentry) → K (Unit {0})
put_pool id f =
    if ltb id npool
    then modify (λ k. record k { bfptab = update k.bfptab id (f (k.bfptab id)) })
    else λ _. fault

-- A write to a word of memory.
abbrev pub poke : ℕ → ℤ → K (Unit {0})
poke a v = modify (λ k. record k { words = update k.words a v })

-- The first free entry from `id` on, `left` of them to go.
unfoldable pub find_pool : ℕ → ℕ → K (Option ℕ)
find_pool zero id = pure none
find_pool (suc left) id = do
  b ← pool id
  if not b.used then pure (some id) else find_pool left (suc id)

-- Chaining `left` buffers from `bufptr` on.
unfoldable pub chain_buffers : ℕ → ℕ → ℕ → ℕ → K (Unit {0})
chain_buffers zero id bufsize bufptr = pure tt
chain_buffers (suc left) id bufsize bufptr = do
  poke (bufptr + 4) (pos id)
  poke bufptr (pos ((bufptr + bufsize) % u32))
  chain_buffers left id bufsize ((bufptr + bufsize) % u32)

-- Filling in the entry `id`.
unfoldable pub new_pool : ℕ → ℕ → ℕ → K ℤ
new_pool id bufsize nbuf = do
  put_pool id (λ b. record b { used = true })
  put_pool id (λ b. record b { nbuf = nbuf; bufsize = bufsize })
  bufptr ← on_heap (memget (nbuf * bufsize % u32))
  if bufptr == nowhere then (do put_pool id (λ b. record b { used = false }); pure syserr) else do
    put_pool id (λ b. record b { next = bufptr; head = bufptr })
    chain_buffers nbuf id bufsize bufptr
    freebuf ← semcreate (to_int nbuf)
    put_pool id (λ b. record b { freebuf = freebuf })
    if freebuf == syserr_u
        then (do
          put_pool id (λ b. record b { used = false })
          on_heap (memfree bufptr (nbuf * bufsize % u32))
          pure syserr)
        else pure (pos id)

-- The size of a buffer with the words in front of it.
abbrev pub whole_size : ℕ → ℕ
whole_size bufsize = (roundword bufsize + poolbuf_size) % u32

unfoldable pub bfpalloc : ℕ → ℕ → K ℤ
bfpalloc bufsize nbuf =
    if ltb max_bufsize (whole_size bufsize)
      || (ltb (whole_size bufsize) min_bufsize || (ltb max_nbufs nbuf || ltb nbuf 1))
    then pure syserr
    else do
      found ← find_pool npool 0
      elim found [ none ↦ pure syserr | some id ↦ new_pool id (whole_size bufsize) nbuf ]

unfoldable pub bfpfree : ℤ → K ℤ
bfpfree poolid = do
  bad ← gets (λ k. isbadpool k poolid)
  if bad then pure syserr else do
    b ← pool (pos_part poolid)
    put_pool (pos_part poolid) (λ b. record b { used = false })
    mem_res ← on_heap (memfree b.head (b.nbuf * b.bufsize % u32))
    sem_res ← semfree b.freebuf
    if not mem_res || (sem_res ==ℤ syserr) then pure syserr else pure OK

-- The words in front of a buffer.
abbrev pub header_of : ℕ → ℕ
header_of buffer = (buffer + u32 - poolbuf_size) % u32

-- The address answered, or SYSERR.
unfoldable pub bufget : K (Unit {0}) → ℤ → K ℕ
bufget others poolid = do
  bad ← gets (λ k. isbadpool k poolid)
  if bad then pure nowhere else do
    b ← pool (pos_part poolid)
    wait b.freebuf
    others
    b' ← pool (pos_part poolid)
    after ← gets (λ k. k.words b'.next)
    put_pool (pos_part poolid) (λ b. record b { next = pos_part after })
    poke b'.next (pos b'.next)
    pure ((b'.next + poolbuf_size) % u32)

unfoldable pub buffree : ℕ → K ℤ
buffree buffer = do
  poolid ← gets (λ k. k.words ((header_of buffer + 4) % u32))
  self ← gets (λ k. k.words (header_of buffer))
  bad ← gets (λ k. isbadpool k poolid)
  if bad || not (self ==ℤ pos (header_of buffer)) then pure syserr else do
    b ← pool (pos_part poolid)
    poke (header_of buffer) (pos b.next)
    put_pool (pos_part poolid) (λ b. record b { next = header_of buffer })
    signaln b.freebuf (pos 1)
    pure OK
