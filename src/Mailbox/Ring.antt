-- ===== src/Mailbox/Ring.antt =====
-- The message queue of a mailbox, as the list of its messages.
use native.Mathlib.Nat.{mod-eq_of_lt, mod-eq-sub-mod}
use xinu.Base.{
  ℕ, zero, suc, ◌+◌, ◌-◌, ◌%◌, ◌^◌, ◌≤◌, ◌<◌, ◌≡◌, refl, ap, ◌∙◌, ℤ, List, [], ◌∷◌, ◌++◌, ltb,
  if◌then◌else◌, arith, Bool-cases, inl, inr,
}
use xinu.Kernel.{Mbox, update}
use xinu.Mailbox.{slot_of}

-- The first `n` values of a function.
abbrev pub tabulate : (ℕ → ℤ) → ℕ → List ℤ
tabulate f zero = []
tabulate f (suc n) = tabulate f n ++ f n ∷ []

tabulate-same : (f g : ℕ → ℤ) (n : ℕ) → ((j : ℕ) → j < n → g j ≡ f j) → tabulate g n ≡ tabulate f n
tabulate-same f g zero same = refl
tabulate-same f g (suc n) same =
    rw (tabulate-same f g n (λ j h. same j (omega arith)), same n (omega arith)) refl

tabulate-front : (f : ℕ → ℤ) (n : ℕ) → tabulate f (suc n) ≡ f 0 ∷ tabulate (λ j. f (suc j)) n
tabulate-front f zero = refl
tabulate-front f (suc n) = ap (λ l. l ++ f (suc n) ∷ []) (tabulate-front f n)

-- The message at place `j` of the queue.
abbrev pub message : (ℕ → ℤ) → Mbox → ℕ → ℤ
message words m j = words (slot_of m ((m.start + j) % m.max))

abbrev pub messages : (ℕ → ℤ) → Mbox → List ℤ
messages words m = tabulate (message words m) m.count

-- A remainder of a number that is less than two turns.
pub mod_turn : (x max : ℕ) → x < max + max → x % max ≡ (if ltb x max then x else x - max)
mod_turn x max h = elim (Bool-cases (ltb x max)) [
  | inl small ↦ rw small (mod-eq_of_lt (ground arith))
  | inr large ↦
      rw large (mod-eq-sub-mod {n = x} {m = max} (ground arith) ∙ mod-eq_of_lt (ground arith))
]

-- What holds of a mailbox's fields.
pub record IsRing (m : Mbox) : Type 0 where
  pub start_in : m.start < m.max
  pub count_in : m.count ≤ m.max
  pub small : m.max < 2 ^ 31

module _ (words : ℕ → ℤ) (m : Mbox) (ring : IsRing m) where
  abbrev pub tail : ℕ
  tail = slot_of m ((m.start + m.count) % m.max)

  -- A message written at the end is behind the others, which stay.
  pub messages-store :
      (x : ℤ)
      → m.count < m.max
      → messages (update words tail x) (record m { count = suc m.count })
        ≡ messages words m ++ x ∷ []
  messages-store x room =
      ap (λ l. l ++ message (update words tail x) (record m { count = suc m.count }) m.count ∷ [])
        (tabulate-same (message words m)
          (message (update words tail x) (record m { count = suc m.count })) m.count
          (λ j h. ground (
            arith,
            mod_turn (m.start + j) m.max,
            mod_turn (m.start + m.count) m.max,
            ring.start_in,
          )))
      ∙ ap (λ y. messages words m ++ y ∷ []) (ground arith)

  -- The first message taken off leaves the others.
  pub messages-fetch :
      (n : ℕ)
      → m.count ≡ suc n
      → messages words m
        ≡ words (slot_of m m.start)
          ∷ messages words (record m { start = (m.start + 1) % m.max; count = n })
  messages-fetch n e =
      ap (tabulate (message words m)) e
      ∙ tabulate-front (message words m) n
      ∙ ap (λ y. y ∷ tabulate (λ j. message words m (suc j)) n) first
      ∙ ap (◌∷◌ (words (slot_of m m.start))) (
          tabulate-same (message words (record m { start = (m.start + 1) % m.max; count = n }))
            (λ j. message words m (suc j)) n (λ j h. ap (λ i. words (slot_of m i)) (turn j h)))
    where
      first : message words m 0 ≡ words (slot_of m m.start)
      first =
          ap (λ i. words (slot_of m i))
            (ground (arith, mod_turn (m.start + 0) m.max, ring.start_in))

      turn : (j : ℕ) → j < n → (m.start + suc j) % m.max ≡ ((m.start + 1) % m.max + j) % m.max
      turn j h = ground (
        arith,
        mod_turn (m.start + suc j) m.max,
        mod_turn (m.start + 1) m.max,
        mod_turn ((m.start + 1) % m.max + j) m.max,
        ring.start_in,
        ring.count_in,
        e,
      )
