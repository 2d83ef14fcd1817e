-- ===== src/Memory/FirstFit.antt =====
-- What first fit promises: the bytes it gives out were free, and are free no more.
use xinu.Base.{
  ℕ, suc, ◌+◌, ◌%◌, ◌≤◌, ◌<◌, ◌≡◌, ◌⊎◌, inl, inr, [], ◌∷◌, Option, none, some, ltb, ◌==◌, arith,
  true, All, Bool-cases,
}
use xinu.Memory.Blocks.{Blocks, Ordered, total, first_fit}

-- No byte of `a … a + n - 1` lies in one of the blocks.
abbrev pub Apart : ℕ → ℕ → Blocks → Type 0
Apart a n [] = Unit
Apart a n ((b, k) ∷ bs) = ((b + k ≤ a) ⊎ (a + n ≤ b)) × Apart a n bs

-- The bytes `a … a + n - 1` lie in one of the blocks.
abbrev pub Within : ℕ → ℕ → Blocks → Type 0
Within a n [] = ⊥
Within a n ((b, k) ∷ bs) = ((b ≤ a) × (a + n ≤ b + k)) ⊎ Within a n bs

pub record Gives (lo hi n : ℕ) (bs : Blocks) (a : ℕ) (bs' : Blocks) : Type 0 where
  pub aligned : a % 8 ≡ 0
  pub from : lo ≤ a
  pub fits : a + n ≤ hi
  pub was_free : Within a n bs
  pub apart : Apart a n bs'
  pub rest : Ordered lo bs' hi
  pub sum : total bs ≡ n + total bs'

abbrev pub Served : ℕ → ℕ → ℕ → Blocks → Option (ℕ × Blocks) → Type 0
Served lo hi n bs none = All (λ b. b.1 < n) bs
Served lo hi n bs (some (a, bs')) = Gives lo hi n bs a bs'

pub Ordered-weaken : (lo lo' hi : ℕ) (bs : Blocks) → lo ≤ lo' → Ordered lo' bs hi → Ordered lo bs hi
Ordered-weaken lo lo' hi [] h o = tt
Ordered-weaken lo lo' hi ((a, l) ∷ bs) h o = (omega arith, o.1, o.2, o.3, o.4, o.5)

pub Apart-above : (lo hi a n : ℕ) (bs : Blocks) → a + n ≤ lo → Ordered lo bs hi → Apart a n bs
Apart-above lo hi a n [] h o = tt
Apart-above lo hi a n ((b, k) ∷ bs) h o =
    (inr (omega arith), Apart-above (suc (b + k)) hi a n bs (omega arith) o.5)

module _ (n : ℕ) (units : n % 8 ≡ 0) (some_bytes : 0 < n) where
  -- What the blocks behind give out, the list with a block in front gives out too.
  pub Gives-behind :
      (lo hi a l : ℕ) (bs : Blocks) (b : ℕ) (rest : Blocks)
      → Ordered lo ((a, l) ∷ bs) hi
      → Gives (suc (a + l)) hi n bs b rest
      → Gives lo hi n ((a, l) ∷ bs) b ((a, l) ∷ rest)
  Gives-behind lo hi a l bs b rest o s = record {
    aligned = s.aligned;
    from = omega (arith, o.0, s.from);
    fits = s.fits;
    was_free = inr s.was_free;
    apart = (inl (omega (arith, s.from)), s.apart);
    rest = (o.0, o.1, o.2, o.3, o.4, s.rest);
    sum = omega (arith, s.sum);
  }

  Served-behind :
      (lo hi a l : ℕ) (bs : Blocks) (o : Option (ℕ × Blocks))
      → Ordered lo ((a, l) ∷ bs) hi
      → l < n
      → Served (suc (a + l)) hi n bs o
      → Served lo hi n
          ((a, l) ∷ bs)
          (elim o [ none ↦ none | some (r, rest) ↦ some (r, (a, l) ∷ rest) ])
  Served-behind lo hi a l bs none o small s = (small, s)
  Served-behind lo hi a l bs (some (b, rest)) o small s = Gives-behind lo hi a l bs b rest o s

  -- A block that fits exactly is given out whole.
  pub Gives-whole :
      (lo hi a l : ℕ) (bs : Blocks)
      → Ordered lo ((a, l) ∷ bs) hi
      → (l == n) ≡ true
      → Gives lo hi n ((a, l) ∷ bs) a bs
  Gives-whole lo hi a l bs o same = record {
    aligned = o.1;
    from = o.0;
    fits = ground (arith, o.4);
    was_free = inl (ground arith, ground arith);
    apart = Apart-above (suc (a + l)) hi a n bs (ground arith) o.5;
    rest = Ordered-weaken lo (suc (a + l)) hi bs (omega (arith, o.0)) o.5;
    sum = ground arith;
  }

  -- First fit refuses only if every block is too small. What it gives out was free, is aligned and
  -- lies in no block that is left, and the blocks left are in order and short of just these bytes.
  pub first_fit-Served :
      (lo hi : ℕ) (bs : Blocks) → Ordered lo bs hi → Served lo hi n bs (first_fit n bs)
  unfolding first_fit
  first_fit-Served lo hi [] o = tt
  first_fit-Served lo hi ((a, l) ∷ bs) o = elim (Bool-cases (l == n)) [
    | inl same ↦ rw same (Gives-whole lo hi a l bs o same)
    | inr other ↦ elim (Bool-cases (ltb n l)) [
      | inl more ↦
          let lt : n < l = ground arith in
          rw (other, more)
            (record {
              aligned = o.1;
              from = o.0;
              fits = omega (arith, o.4);
              was_free = inl (omega arith, omega arith);
              apart = (inr (omega arith), Apart-above (suc (a + l)) hi a n bs (omega arith) o.5);
              rest = (
                omega (arith, o.0),
                omega (arith, o.1),
                omega arith,
                omega (arith, o.3),
                omega (arith, o.4),
                Ordered-weaken _ (suc (a + l)) hi bs (omega arith) o.5,
              );
              sum = omega arith;
            })
      | inr less ↦
          rw (other, less)
            (Served-behind lo hi a l bs (first_fit n bs) o (ground arith)
              (first_fit-Served (suc (a + l)) hi bs o.5))
    ]
  ]
