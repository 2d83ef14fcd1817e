-- ===== src/Queue/Contents.antt =====
-- What a queue holds, as a list of threads, and how its links carry an insertion and a removal.
use mathlib.Core.List.{append_assoc}
use xinu.Base.{
  ℕ, ◌+◌, ◌≤◌, ◌<◌, ◌≡◌, refl, sym, ap, ◌∙◌, subst, pos, false, List, [], ◌∷◌, ◌++◌, arith, All,
  has, has-append, Uniq, last_of, first_of, front_of, rest_of, front-last, first-rest, Uniq-snoc,
  Uniq-insert, Uniq-remove, All-insert, All-remove, All-append, All-has, All-map, last_of-snoc,
  true, ◌≢◌,
}
use xinu.Kernel.{nthread, nqent, maxkey, minkey}
use xinu.Queue.Chain.{
  Table, Linked, IsSplice, IsUnlink, Linked-splice, Linked-unlink, Linked-middle,
}

-- Every entry of a queue, with its head and its tail.
abbrev pub nodes : ℕ → List ℕ → List ℕ
nodes q xs = q ∷ xs ++ (q + 1) ∷ []

-- The queue whose head is entry `q` holds the threads `xs`, first to last.
pub record IsQueue (T : Table) (q : ℕ) (xs : List ℕ) : Type 0 where
  pub above : nthread ≤ q
  pub below : q + 1 < nqent
  pub members : All (λ x. x < nthread) xs
  pub uniq : Uniq xs
  pub links : Linked T (q ∷ xs ++ (q + 1) ∷ [])
  pub head_key : (T q).key ≡ maxkey
  pub tail_key : (T (q + 1)).key ≡ minkey

pub not-has_of_le :
    (a : ℕ) (xs : List ℕ) → All (λ x. x < nthread) xs → nthread ≤ a → has a xs ≡ false
not-has_of_le a [] h le = refl
not-has_of_le a (x ∷ xs) h le = ground (arith, not-has_of_le a xs h.1 le)

module _ {T : Table} {q : ℕ} {xs : List ℕ} (v : IsQueue T q xs) where
  pub nodes-Uniq : Uniq (q ∷ xs ++ (q + 1) ∷ [])
  nodes-Uniq = (
    ground (arith, has-append q xs ((q + 1) ∷ []), not-has_of_le q xs v.members v.above),
    Uniq-snoc xs (q + 1) v.uniq (not-has_of_le (q + 1) xs v.members (omega arith)),
  )

  pub nodes-not-has :
      (t : ℕ) → t < nthread → has t xs ≡ false → has t (q ∷ xs ++ (q + 1) ∷ []) ≡ false
  nodes-not-has t lt h = ground (arith, has-append t xs ((q + 1) ∷ []))

-- The nodes round the place between `xs` and `ys`, and round an entry that stands there.
pub nodes-split :
    (q d : ℕ) (xs ys : List ℕ)
    → q ∷ (xs ++ ys) ++ d ∷ [] ≡ front_of q xs ++ last_of q xs ∷ first_of ys d ∷ rest_of ys d
nodes-split q d xs ys =
    ap (◌∷◌ q) (append_assoc xs ys (d ∷ []) ∙ ap (◌++◌ xs) (first-rest ys d))
    ∙ sym (front-last q xs (first_of ys d ∷ rest_of ys d))

pub nodes-around :
    (q d t : ℕ) (xs ys : List ℕ)
    → q ∷ (xs ++ t ∷ ys) ++ d ∷ []
      ≡ front_of q xs ++ last_of q xs ∷ t ∷ first_of ys d ∷ rest_of ys d
nodes-around q d t xs ys =
    ap (◌∷◌ q) (append_assoc xs (t ∷ ys) (d ∷ []) ∙ ap (λ l. xs ++ t ∷ l) (first-rest ys d))
    ∙ sym (front-last q xs (t ∷ first_of ys d ∷ rest_of ys d))

module _ {T : Table} {q : ℕ} where
  -- The links that lead to and from a place.
  pub place_links :
      (xs ys : List ℕ)
      → IsQueue T q (xs ++ ys)
      → ((T (last_of q xs)).next ≡ pos (first_of ys (q + 1)))
        × ((T (first_of ys (q + 1))).prev ≡ pos (last_of q xs))
  place_links xs ys v =
      Linked-middle T (front_of q xs) (rest_of ys (q + 1))
        (subst (Linked T) (nodes-split q (q + 1) xs ys) v.links)

  module _ {T' : Table} {t : ℕ} (xs ys : List ℕ) (head : (T' q).key ≡ maxkey)
      (tail : (T' (q + 1)).key ≡ minkey) where
    pub splice-IsQueue :
        IsQueue T q (xs ++ ys)
        → t < nthread
        → has t (xs ++ ys) ≡ false
        → IsSplice T T' t (last_of q xs) (first_of ys (q + 1))
        → IsQueue T' q (xs ++ t ∷ ys)
    splice-IsQueue v lt out s = record {
      above = v.above;
      below = v.below;
      members = All-insert _ xs ys t v.members lt;
      uniq = Uniq-insert xs ys t v.uniq out;
      links = subst (Linked T') (sym (nodes-around q (q + 1) t xs ys)) (
          Linked-splice s (front_of q xs) (rest_of ys (q + 1))
            (subst Uniq (nodes-split q (q + 1) xs ys) (nodes-Uniq v))
            (subst (λ l. has t l ≡ false) (nodes-split q (q + 1) xs ys) (nodes-not-has v t lt out))
            (subst (Linked T) (nodes-split q (q + 1) xs ys) v.links));
      head_key = head;
      tail_key = tail;
    }

    pub unlink-IsQueue :
        IsQueue T q (xs ++ t ∷ ys)
        → IsUnlink T T' t (last_of q xs) (first_of ys (q + 1))
        → IsQueue T' q (xs ++ ys)
    unlink-IsQueue v s = record {
      above = v.above;
      below = v.below;
      members = All-remove _ xs ys t v.members;
      uniq = Uniq-remove xs ys t v.uniq;
      links = subst (Linked T') (sym (nodes-split q (q + 1) xs ys)) (
          Linked-unlink s (front_of q xs) (rest_of ys (q + 1))
            (subst Uniq (nodes-around q (q + 1) t xs ys) (nodes-Uniq v))
            (subst (Linked T) (nodes-around q (q + 1) t xs ys) v.links));
      head_key = head;
      tail_key = tail;
    }

-- What the code reads at the place between `xs` and `ys`, and that it lies inside the table.
pub record Around (T : Table) (q p n : ℕ) (xs : List ℕ) : Type 0 where
  pub next : (T p).next ≡ pos n
  pub prev : (T n).prev ≡ pos p
  pub p_in : p < nqent
  pub n_in : n < nqent
  pub p_node : has p (nodes q xs) ≡ true
  pub n_node : has n (nodes q xs) ≡ true

module _ {T : Table} {q : ℕ} where
  pub nodes-below : {xs : List ℕ} → IsQueue T q xs → All (λ x. x < nqent) (nodes q xs)
  nodes-below {xs} v = (
    omega (arith, v.below),
    All-append _ xs ((q + 1) ∷ []) (All-map (λ x h. omega arith) xs v.members) (v.below, tt),
  )

  pub place :
      (xs ys : List ℕ)
      → IsQueue T q (xs ++ ys)
      → Around T q (last_of q xs) (first_of ys (q + 1)) (xs ++ ys)
  place xs ys v = record {
    next = (place_links xs ys v).0;
    prev = (place_links xs ys v).1;
    p_in = All-has _ p (nodes q (xs ++ ys)) (nodes-below v) has_p;
    n_in = All-has _ n (nodes q (xs ++ ys)) (nodes-below v) has_n;
    p_node = has_p;
    n_node = has_n;
  }
    where
      p : ℕ
      p = last_of q xs

      n : ℕ
      n = first_of ys (q + 1)

      split : has p (front_of q xs ++ p ∷ n ∷ rest_of ys (q + 1)) ≡ true
      split = rw (has-append p (front_of q xs) (p ∷ n ∷ rest_of ys (q + 1))) (ground arith)

      split' : has n (front_of q xs ++ p ∷ n ∷ rest_of ys (q + 1)) ≡ true
      split' = rw (has-append n (front_of q xs) (p ∷ n ∷ rest_of ys (q + 1))) (ground arith)

      has_p : has p (nodes q (xs ++ ys)) ≡ true
      has_p = subst (λ l. has p l ≡ true) (sym (nodes-split q (q + 1) xs ys)) split

      has_n : has n (nodes q (xs ++ ys)) ≡ true
      has_n = subst (λ l. has n l ≡ true) (sym (nodes-split q (q + 1) xs ys)) split'

-- A thread that is in no queue is no node.
pub ne_of_node : (t p : ℕ) (l : List ℕ) → has t l ≡ false → has p l ≡ true → t ≢ p
ne_of_node t p l h e = ground arith

module _ {T : Table} {q t : ℕ} where
  -- The place behind an entry of the queue.
  pub place_behind :
      (xs ys : List ℕ)
      → IsQueue T q (xs ++ t ∷ ys)
      → Around T q t (first_of ys (q + 1)) (xs ++ t ∷ ys)
  place_behind xs ys v =
      subst (λ l. Around T q t (first_of ys (q + 1)) l) (append_assoc xs (t ∷ []) ys)
        (subst (λ p. Around T q p (first_of ys (q + 1)) ((xs ++ t ∷ []) ++ ys))
          (last_of-snoc q t xs)
          (place (xs ++ t ∷ []) ys (subst (IsQueue T q) (sym (append_assoc xs (t ∷ []) ys)) v)))
