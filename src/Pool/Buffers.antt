-- ===== src/Pool/Buffers.antt =====
-- The free buffers of a pool as a list: system/bufpool.c.
use xinu.Base.{
  ℕ, ◌+◌, ◌%◌, ◌<◌, ◌≡◌, refl, sym, subst, ℤ, pos, pos_part, ltb_ℤ, Bool, true, false, List, [],
  ◌∷◌, arith, has, ◌==ℤ◌, leb, lt→ltb,
}
use xinu.Kernel.{syserr, Kernel, Bfpentry, ok, pure, update, update_at}
use xinu.Memory.{u32}
use xinu.Pool.{npool, isbadpool, pool, put_pool, poolbuf_size, bufget, buffree, header_of}
use xinu.Semaphore.{wait}
use xinu.Semaphore.Wait.{taken, wait-passes}
use xinu.Semaphore.Waiters.{IsSemaphore}
use xinu.Thread.Resched.{IsTop}

-- The buffers that are chained from address `p`; the last one's link is not followed.
abbrev pub Buffers : (ℕ → ℤ) → ℕ → List ℕ → Type 0
Buffers words p [] = Unit
Buffers words p (a ∷ rest) = (p ≡ a) × Buffers words (pos_part (words a)) rest

Buffers-frame :
    (words : ℕ → ℤ) (b : ℕ) (v : ℤ) (p : ℕ) (rest : List ℕ)
    → has b rest ≡ false
    → Buffers words p rest
    → Buffers (update words b v) p rest
Buffers-frame words b v p [] out l = tt
Buffers-frame words b v p (a ∷ rest) out l =
    let same : update words b v a ≡ words a = ground arith in
    (l.0, rw same (Buffers-frame words b v (pos_part (words a)) rest (ground arith) l.1))

bufget_run :
    (k k1 : Kernel) (id a : ℕ) (v : ℤ)
    → id < npool
    → (k.bfptab id).used ≡ true
    → wait (k.bfptab id).freebuf k ≡ ok v k1
    → (k1.bfptab id).next ≡ a
    → bufget (pure tt) (pos id) k
      ≡ ok ((a + poolbuf_size) % u32) (record k1 {
        bfptab = update k1.bfptab id (record (k1.bfptab id) { next = pos_part (k1.words a) });
        words = update k1.words a (pos a);
      })
unfolding bufget isbadpool pool put_pool
bufget_run k k1 id a v lt used waited here =
    let inside : leb npool id ≡ false = ground arith in
    rw (inside, used, lt→ltb id npool lt, waited, here) refl

-- `bufget` by the running thread on a pool with a free buffer, whose semaphore has a positive
-- count, answers the address behind the words in front of the first one. The others stay free in
-- their order, the buffer is marked as taken by a link to itself.
pub bufget-first :
    (k : Kernel) (heads : ℕ → Bool) (Q : ℕ → List ℕ) (r q c id a : ℕ) (rest : List ℕ)
    → IsTop k heads Q r c
    → id < npool
    → (k.bfptab id).used ≡ true
    → IsSemaphore k heads Q r (k.bfptab id).freebuf q
    → ltb_ℤ (pos 0) (k.semtab (k.bfptab id).freebuf).count ≡ true
    → Buffers k.words (k.bfptab id).next (a ∷ rest)
    → has a rest ≡ false
    → (k' : Kernel) × (bufget (pure tt) (pos id) k ≡ ok ((a + poolbuf_size) % u32) k')
      × Buffers k'.words (k'.bfptab id).next rest
      × (k'.words a ≡ pos a)
bufget-first k heads Q r q c id a rest t lt used i h l once =
    let s = (k.bfptab id).freebuf in
    let w = wait-passes k heads Q r s q c t i h in
    let k1 = taken k s in
    let e = record (k.bfptab id) { next = pos_part (k.words a) } in
    (
      _,
      bufget_run k k1 id a _ lt used w.ran l.0,
      subst (λ (b : Bfpentry). Buffers (update k.words a (pos a)) b.next rest)
          (sym (update_at k.bfptab id e))
          (Buffers-frame k.words a (pos a) (pos_part (k.words a)) rest once l.1),
      update_at k.words a (pos a),
    )

-- A buffer that is not taken, because its link leads elsewhere, is refused by `buffree`, and
-- nothing changes.
pub buffree_twice :
    (k : Kernel) (buffer : ℕ)
    → (k.words (header_of buffer) ==ℤ pos (header_of buffer)) ≡ false
    → buffree buffer k ≡ ok syserr k
unfolding buffree
buffree_twice k buffer other = ground (arith, other)
