-- ===== src/Queue/Chain.antt =====
-- The links of a queue as a doubly linked list, and what inserting and removing an entry does to
-- them.
use xinu.Base.{
  ℕ, ◌≡◌, pos, true, false, List, [], ◌∷◌, ◌++◌, ◌==◌, arith, if◌then◌else◌, has, has-append, Uniq,
}
use xinu.Kernel.{empty, Queent}

abbrev pub Table : Type 0
Table = ℕ → Queent

-- Each entry points to the one behind it and is pointed back at.
abbrev pub LinksTo : Table → ℕ → List ℕ → Type 0
LinksTo T x [] = Unit
LinksTo T x (y ∷ l) = ((T x).next ≡ pos y) × ((T y).prev ≡ pos x)

abbrev pub Linked : Table → List ℕ → Type 0
Linked T [] = Unit
Linked T (x ∷ l) = LinksTo T x l × Linked T l

-- `t` has come to stand between `p` and `n`.
pub record IsSplice (T T' : Table) (t p n : ℕ) : Type 0 where
  pub next :
      (j : ℕ) → (T' j).next ≡ (if j == p then pos t else if j == t then pos n else (T j).next)
  pub prev :
      (j : ℕ) → (T' j).prev ≡ (if j == n then pos t else if j == t then pos p else (T j).prev)

-- `t` has gone from between `p` and `n`.
pub record IsUnlink (T T' : Table) (t p n : ℕ) : Type 0 where
  pub next :
      (j : ℕ) → (T' j).next ≡ (if j == t then empty else if j == p then pos n else (T j).next)
  pub prev :
      (j : ℕ) → (T' j).prev ≡ (if j == t then empty else if j == n then pos p else (T j).prev)

module _ (T T' : Table) where
  pub Linked-frame :
      (x : ℕ) (l : List ℕ)
      → ((j : ℕ) → has j (x ∷ l) ≡ true → (T' j).next ≡ (T j).next)
      → ((j : ℕ) → has j l ≡ true → (T' j).prev ≡ (T j).prev)
      → Linked T (x ∷ l)
      → Linked T' (x ∷ l)
  Linked-frame x [] nexts prevs h = h
  Linked-frame x (y ∷ l) nexts prevs h = (
    (ground (arith, nexts x), ground (arith, prevs y)),
    Linked-frame y l (λ j e. nexts j (ground arith)) (λ j e. prevs j (ground arith)) h.1,
  )

module _ {T T' : Table} where
  module _ {t p n : ℕ} (s : IsSplice T T' t p n) where
    pub Linked-splice :
        (xs ys : List ℕ)
        → Uniq (xs ++ p ∷ n ∷ ys)
        → has t (xs ++ p ∷ n ∷ ys) ≡ false
        → Linked T (xs ++ p ∷ n ∷ ys)
        → Linked T' (xs ++ p ∷ t ∷ n ∷ ys)
    Linked-splice [] ys u out h = (
      (ground (arith, s.next p), ground (arith, s.prev t)),
      (
        (ground (arith, s.next t), ground (arith, s.prev n)),
        Linked-frame T T' n ys (λ j e. ground (arith, s.next j)) (λ j e. ground (arith, s.prev j))
            h.1,
      ),
    )
    Linked-splice (a ∷ []) ys u out h = (
      (ground (arith, s.next a), ground (arith, s.prev p)),
      Linked-splice [] ys u.1 (ground arith) h.1,
    )
    Linked-splice (a ∷ b ∷ xs) ys u out h = (
      (
        ground (arith, s.next a, has-append a xs (p ∷ n ∷ ys)),
        ground (arith, s.prev b, has-append b xs (p ∷ n ∷ ys)),
      ),
      Linked-splice (b ∷ xs) ys u.1 (ground arith) h.1,
    )

  module _ {t p n : ℕ} (s : IsUnlink T T' t p n) where
    pub Linked-unlink :
        (xs ys : List ℕ)
        → Uniq (xs ++ p ∷ t ∷ n ∷ ys)
        → Linked T (xs ++ p ∷ t ∷ n ∷ ys)
        → Linked T' (xs ++ p ∷ n ∷ ys)
    Linked-unlink [] ys u h = (
      (ground (arith, s.next p), ground (arith, s.prev n)),
      Linked-frame T T' n ys (λ j e. ground (arith, s.next j)) (λ j e. ground (arith, s.prev j))
          h.1.1,
    )
    Linked-unlink (a ∷ []) ys u h =
        ((ground (arith, s.next a), ground (arith, s.prev p)), Linked-unlink [] ys u.1 h.1)
    Linked-unlink (a ∷ b ∷ xs) ys u h = (
      (
        ground (arith, s.next a, has-append a xs (p ∷ t ∷ n ∷ ys)),
        ground (arith, s.prev b, has-append b xs (p ∷ t ∷ n ∷ ys)),
      ),
      Linked-unlink (b ∷ xs) ys u.1 h.1,
    )

-- The two entries on each side of a place in a linked list.
pub Linked-middle :
    (T : Table) (xs : List ℕ) {p n : ℕ} (ys : List ℕ)
    → Linked T (xs ++ p ∷ n ∷ ys)
    → ((T p).next ≡ pos n) × ((T n).prev ≡ pos p)
Linked-middle T [] ys h = h.0
Linked-middle T (a ∷ xs) ys h = Linked-middle T xs ys h.1
