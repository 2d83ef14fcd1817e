-- ===== src/Queue/Init.antt =====
-- `queinit` of system/queinit.c: the allocation of queues in the table.
use xinu.Base.{ℕ, ◌+◌, ◌≤◌, ◌<◌, ◌≡◌, pos, [], arith, le→ltb, has, false}
use xinu.Kernel.{
  nthread, nqent, empty, maxkey, minkey, Kernel, Queent, ok, fault, update, put_queent,
}
use xinu.Queue.{queinit}
use xinu.Queue.Chain.{Table}
use xinu.Queue.Contents.{IsQueue, nodes}
use xinu.Queue.Links.{put_queent_in}

abbrev empty_table : Table → ℕ → Table
empty_table T q =
    let T1 : Table = update T q (record (T q) { next = pos (q + 1) }) in
    let T2 : Table = update T1 q (record (T1 q) { prev = empty }) in
    let T3 : Table = update T2 q (record (T2 q) { key = maxkey }) in
    let T4 : Table = update T3 (q + 1) (record (T3 (q + 1)) { next = empty }) in
    let T5 : Table = update T4 (q + 1) (record (T4 (q + 1)) { prev = pos q }) in
    update T5 (q + 1) (record (T5 (q + 1)) { key = minkey })

module _ (k : Kernel) (threads_below : nthread ≤ k.nextqid) where
  -- While the table has room for a head and a tail, `queinit` answers a queue with nobody in it, and
  -- takes the next two entries: the cells of the queues made before are not written.
  pub queinit-IsQueue :
      k.nextqid + 1 < nqent
      → (T' : Table) × (queinit k
          ≡ ok (pos k.nextqid) (record k { nextqid = k.nextqid + 2; quetab = T' }))
        × IsQueue T' k.nextqid []
        × ((j : ℕ) → has j (nodes k.nextqid []) ≡ false → T' j ≡ k.quetab j)
  unfolding queinit
  queinit-IsQueue room =
      let q = k.nextqid in
      let q_in : q < nqent = omega arith in
      (
        empty_table k.quetab q,
        rw (
          le→ltb nqent q (omega arith),
          put_queent_in q _ q_in,
          put_queent_in q _ q_in,
          put_queent_in q _ q_in,
          put_queent_in (q + 1) _ room,
          put_queent_in (q + 1) _ room,
          put_queent_in (q + 1) _ room,
        ),
        record {
          above = threads_below;
          below = room;
          members = tt;
          uniq = tt;
          links = ((ground arith, ground arith), (tt, tt));
          head_key = ground arith;
          tail_key = ground arith;
        },
        λ j h. ground arith,
      )

put_queent_out :
    (i : ℕ) (f : Queent → Queent) (k : Kernel) → nqent ≤ i → put_queent (pos i) f k ≡ fault
unfolding put_queent
put_queent_out i f k h = rw (le→ltb i nqent h)

-- Once the table is full the guard `nextqid > NQENT` still lets one call through, which writes
-- behind the end of the table.
pub queinit_overrun : (k : Kernel) → k.nextqid ≡ nqent → queinit k ≡ fault
unfolding queinit
queinit_overrun k h =
    rw (le→ltb nqent k.nextqid (omega arith), put_queent_out k.nextqid _ _ (omega arith))
