-- ===== src/Memory/Blocks.antt =====
-- The free list as a list of blocks, each an address with a length.
use xinu.Base.{
  ℕ, suc, ◌+◌, ◌-◌, ◌%◌, ◌≤◌, ◌<◌, ◌≡◌, List, [], ◌∷◌, Option, none, some, ◌==◌, ltb, if◌then◌else◌,
  arith, length, All, subst, sym, ◌∙◌,
}
use xinu.Memory.{Memory, Block, u32}

abbrev pub Blocks : Type 0
Blocks = List (ℕ × ℕ)

-- The blocks that are linked from address `p`.
abbrev pub Chain : Memory → ℕ → Blocks → Type 0
Chain m p [] = p ≡ 0
Chain m p ((a, l) ∷ bs) = (p ≡ a) × ((m.block a).length ≡ l) × Chain m (m.block a).next bs

-- Blocks of whole units of eight bytes between `lo` and `hi`, by rising address. Between two of
-- them there is a gap, since neighbours are coalesced.
abbrev pub Ordered : ℕ → Blocks → ℕ → Type 0
Ordered lo [] hi = Unit
Ordered lo ((a, l) ∷ bs) hi =
    (lo ≤ a) × (a % 8 ≡ 0) × (0 < l) × (l % 8 ≡ 0) × (a + l ≤ hi) × Ordered (suc (a + l)) bs hi

abbrev pub total : Blocks → ℕ
total [] = 0
total ((a, l) ∷ bs) = l + total bs

pub record IsHeap (m : Memory) (bs : Blocks) : Type 0 where
  pub null : 0 < m.memlist
  pub outside : m.memlist < m.memheap
  pub inside : m.maxaddr < u32
  pub chain : Chain m (m.block m.memlist).next bs
  pub ordered : Ordered m.memheap bs m.maxaddr
  pub free : (m.block m.memlist).length ≡ total bs

-- First fit: the lowest block that is large enough gives its lower part.
unfoldable pub first_fit : ℕ → Blocks → Option (ℕ × Blocks)
first_fit n [] = none
first_fit n ((a, l) ∷ bs) =
    if l == n
    then some (a, bs)
    else if ltb n l
    then some (a, (a + n, l - n) ∷ bs)
    else elim (first_fit n bs) [ none ↦ none | some (r, rest) ↦ some (r, (a, l) ∷ rest) ]

pub total-le : (lo hi : ℕ) (bs : Blocks) → Ordered lo bs hi → lo ≤ hi → lo + total bs ≤ hi
total-le lo hi [] o h = omega arith
total-le lo hi ((a, l) ∷ []) o h = omega arith
total-le lo hi ((a, l) ∷ (b, k) ∷ bs) o h =
    omega (arith, total-le (suc (a + l)) hi ((b, k) ∷ bs) o.5)

pub length-le : (lo hi : ℕ) (bs : Blocks) → Ordered lo bs hi → lo ≤ hi → length bs + lo ≤ hi
length-le lo hi [] o h = omega arith
length-le lo hi ((a, l) ∷ []) o h = omega arith
length-le lo hi ((a, l) ∷ (b, k) ∷ bs) o h =
    omega (arith, length-le (suc (a + l)) hi ((b, k) ∷ bs) o.5)

pub rounds_enough : (lo hi : ℕ) (bs : Blocks) → Ordered lo bs hi → length bs < suc hi
rounds_enough lo hi [] o = omega arith
rounds_enough lo hi ((a, l) ∷ bs) o =
    omega (arith, length-le lo hi ((a, l) ∷ bs) o (omega (arith, o.0, o.4)))

-- Whether the header at an address is the same in two memories.
abbrev pub SameBlock : Memory → Memory → ℕ → Type 0
SameBlock m m' a =
    ((m'.block a).next ≡ (m.block a).next) × ((m'.block a).length ≡ (m.block a).length)

Chain-same :
    (m m' : Memory) (p : ℕ) (bs : Blocks)
    → Chain m p bs
    → All (λ b. SameBlock m m' b.0) bs
    → Chain m' p bs
Chain-same m m' p [] c same = c
Chain-same m m' p ((a, l) ∷ bs) c same = (
  c.0,
  same.0.1 ∙ c.1,
  subst (λ n. Chain m' n bs) (sym same.0.0) (Chain-same m m' (m.block a).next bs c.2 same.1),
)

-- A heap does not see what happens behind the headers of its free blocks.
pub IsHeap-same :
    (m : Memory) (f : ℕ → Block) (bs : Blocks)
    → IsHeap m bs
    → SameBlock m (record m { block = f }) m.memlist
    → All (λ b. SameBlock m (record m { block = f }) b.0) bs
    → IsHeap (record m { block = f }) bs
IsHeap-same m f bs v head same = record {
  null = v.null;
  outside = v.outside;
  inside = v.inside;
  chain =
      subst (λ n. Chain (record m { block = f }) n bs) (sym head.0)
        (Chain-same m (record m { block = f }) (m.block m.memlist).next bs v.chain same);
  ordered = v.ordered;
  free = head.1 ∙ v.free;
}
