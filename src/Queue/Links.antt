-- ===== src/Queue/Links.antt =====
-- The writes that link an entry in and out, as functions on the table.
use xinu.Base.{
  ℕ, ◌+◌, ◌≤◌, ◌<◌, ◌≡◌, ◌≢◌, ℤ, pos, true, false, List, arith, has, ◌==◌, lt→ltb, if◌then◌else◌,
}
use xinu.Kernel.{
  OK, gets, modify, Queent, nthread, nqent, empty, Kernel, ok, isbadtid, isbadqid, queent,
  put_queent, update,
}
use xinu.Queue.{enqueue, getitem, insert, insert_loop}
use xinu.Queue.Chain.{Table, IsSplice, IsUnlink}

-- The table with `t` linked in between `p` and `n`.
unfoldable pub splice_table : Table → ℕ → ℕ → ℕ → Table
splice_table T t p n =
    let T1 : Table = update T t (record (T t) { next = pos n }) in
    let T2 : Table = update T1 t (record (T1 t) { prev = pos p }) in
    let T3 : Table = update T2 p (record (T2 p) { next = pos t }) in
    update T3 n (record (T3 n) { prev = pos t })

pub enqueue_run :
    (k : Kernel) (q t p : ℕ)
    → nthread ≤ q
    → q + 1 < nqent
    → isbadtid k (pos t) ≡ false
    → p < nqent
    → (k.quetab (q + 1)).prev ≡ pos p
    → enqueue (pos t) (pos q) k
      ≡ ok (pos t) (record k { quetab = splice_table k.quetab t p (q + 1) })
unfolding enqueue splice_table queent put_queent isbadtid isbadqid
enqueue_run k q t p a b live pin e = ground arith

unfoldable pub unlink_table : Table → ℕ → ℕ → ℕ → Table
unlink_table T t p n =
    let T1 : Table = update T p (record (T p) { next = pos n }) in
    let T2 : Table = update T1 n (record (T1 n) { prev = pos p }) in
    let T3 : Table = update T2 t (record (T2 t) { next = empty }) in
    update T3 t (record (T3 t) { prev = empty })

pub getitem_run :
    (k : Kernel) (t p n : ℕ)
    → t < nqent
    → p < nqent
    → n < nqent
    → (k.quetab t).next ≡ pos n
    → (k.quetab t).prev ≡ pos p
    → getitem (pos t) k ≡ ok (pos t) (record k { quetab = unlink_table k.quetab t p n })
unfolding getitem unlink_table queent put_queent
getitem_run k t p n a b c e f = ground arith

pub splice_table-IsSplice :
    (T : Table) (t p n : ℕ) → t ≢ p → t ≢ n → IsSplice T (splice_table T t p n) t p n
unfolding splice_table
splice_table-IsSplice T t p n a b = record { next = λ j. ground arith; prev = λ j. ground arith }

pub unlink_table-IsUnlink : (T : Table) (t p n : ℕ) → IsUnlink T (unlink_table T t p n) t p n
unfolding unlink_table
unlink_table-IsUnlink T t p n = record { next = λ j. ground arith; prev = λ j. ground arith }

-- What an operation on a queue leaves alone: the keys, and every cell that is not one of the nodes.
pub record Spares (T T' : Table) (nodes : List ℕ) : Type 0 where
  pub keys : (j : ℕ) → (T' j).key ≡ (T j).key
  pub cells : (j : ℕ) → has j nodes ≡ false → T' j ≡ T j

pub isbadtid-lt : (k : Kernel) (t : ℕ) → isbadtid k (pos t) ≡ false → t < nthread
unfolding isbadtid
isbadtid-lt k t h = ground arith

pub splice_table-Spares :
    (T : Table) (t p n : ℕ) (nodes : List ℕ)
    → has t nodes ≡ true
    → has p nodes ≡ true
    → has n nodes ≡ true
    → Spares T (splice_table T t p n) nodes
unfolding splice_table
splice_table-Spares T t p n nodes a b c = record {
  keys = λ j. ground arith;
  cells = λ j e. ground arith;
}

pub unlink_table-Spares :
    (T : Table) (t p n : ℕ) (nodes : List ℕ)
    → has t nodes ≡ true
    → has p nodes ≡ true
    → has n nodes ≡ true
    → Spares T (unlink_table T t p n) nodes
unfolding unlink_table
unlink_table-Spares T t p n nodes a b c = record {
  keys = λ j. ground arith;
  cells = λ j e. ground arith;
}

pub isbadqid_in : (q : ℕ) → q + 1 < nqent → isbadqid (pos q) ≡ false
unfolding isbadqid
isbadqid_in q h = ground arith

pub queent_in : (i : ℕ) → i < nqent → queent (pos i) ≡ gets (λ k. k.quetab i)
unfolding queent
queent_in i h = rw (lt→ltb i nqent h)

pub put_queent_in :
    (i : ℕ) (f : Queent → Queent)
    → i < nqent
    → put_queent (pos i) f ≡ modify (λ k. record k { quetab = update k.quetab i (f (k.quetab i)) })
unfolding put_queent
put_queent_in i f h = rw (lt→ltb i nqent h)

-- Linking in with a key, as `insert` and `insertd` do.
unfoldable pub splice_key_table : Table → ℕ → ℕ → ℕ → ℤ → Table
splice_key_table T t p n key =
    let T1 : Table = update T t (record (T t) { next = pos n }) in
    let T2 : Table = update T1 t (record (T1 t) { prev = pos p }) in
    let T3 : Table = update T2 t (record (T2 t) { key = key }) in
    let T4 : Table = update T3 p (record (T3 p) { next = pos t }) in
    update T4 n (record (T4 n) { prev = pos t })

pub splice_key_table-IsSplice :
    (T : Table) (t p n : ℕ) (key : ℤ)
    → t ≢ p
    → t ≢ n
    → IsSplice T (splice_key_table T t p n key) t p n
unfolding splice_key_table
splice_key_table-IsSplice T t p n key a b = record {
  next = λ j. ground arith;
  prev = λ j. ground arith;
}

-- Every key but that of `t` is kept, and every cell that is not one of the nodes.
pub record SparesBut (T T' : Table) (t : ℕ) (key : ℤ) (nodes : List ℕ) : Type 0 where
  pub keys : (j : ℕ) → (T' j).key ≡ (if j == t then key else (T j).key)
  pub cells : (j : ℕ) → has j nodes ≡ false → T' j ≡ T j

pub splice_key_table-SparesBut :
    (T : Table) (t p n : ℕ) (key : ℤ) (nodes : List ℕ)
    → has t nodes ≡ true
    → has p nodes ≡ true
    → has n nodes ≡ true
    → SparesBut T (splice_key_table T t p n key) t key nodes
unfolding splice_key_table
splice_key_table-SparesBut T t p n key nodes a b c = record {
  keys = λ j. ground arith;
  cells = λ j e. ground arith;
}

pub insert_run :
    (k : Kernel) (q t f p n : ℕ) (key : ℤ)
    → nthread ≤ q
    → q + 1 < nqent
    → isbadtid k (pos t) ≡ false
    → p < nqent
    → n < nqent
    → (k.quetab q).next ≡ pos f
    → insert_loop (nthread + 1) (pos f) key k ≡ ok (pos n) k
    → (k.quetab n).prev ≡ pos p
    → insert (pos t) (pos q) key k
      ≡ ok OK (record k { quetab = splice_key_table k.quetab t p n key })
unfolding insert splice_key_table
insert_run k q t f p n key a b live pin nin e walk back =
    let t_in : t < nqent = omega (arith, isbadtid-lt k t live) in
    let q_in : q < nqent = omega arith in
    let back' : (update k.quetab t (record (k.quetab t) { next = pos n }) n).prev ≡ pos p =
      ground arith in
    rw (isbadqid_in q b, live, queent_in q q_in, e, walk, put_queent_in t _ t_in, queent_in n nin)
      (rw (
        back',
        put_queent_in t _ t_in,
        put_queent_in t _ t_in,
        put_queent_in p _ pin,
        put_queent_in n _ nin,
      ))
