-- ===== src/Memory/LastFit.antt =====
-- Last fit on the list of free blocks, what `stkget` of system/stkget.c computes: the highest block
-- that is large enough gives its upper part.
use xinu.Base.{
  ℕ, suc, ◌+◌, ◌-◌, ◌%◌, ◌<◌, ◌≡◌, refl, inl, inr, [], ◌∷◌, Option, none, some, ltb, leb, ◌==◌,
  arith, true, Bool-cases, if◌then◌else◌,
}
use xinu.Memory.Blocks.{Blocks, Ordered}
use xinu.Memory.Coalesce.{give_back, grow, Restores, Restores-behind, give_back-alone}
use xinu.Memory.FirstFit.{Gives, Served, Gives-behind, Gives-whole, Apart-above, Ordered-weaken}

-- What the block `a` of `l` bytes gives when none behind it is large enough.
abbrev pub from_top : ℕ → ℕ → ℕ → Blocks → Option (ℕ × Blocks)
from_top n a l bs =
    if leb n l then (if n == l then some (a, bs) else some (a + (l - n), (a, l - n) ∷ bs)) else none

unfoldable pub last_fit : ℕ → Blocks → Option (ℕ × Blocks)
last_fit n [] = none
last_fit n ((a, l) ∷ bs) = elim (last_fit n bs) [
  | none ↦ from_top n a l bs
  | some (r, rest) ↦ some (r, (a, l) ∷ rest)
]

module _ (n : ℕ) (units : n % 8 ≡ 0) (some_bytes : 0 < n) (lo hi a l : ℕ) (bs : Blocks)
    (o : Ordered lo ((a, l) ∷ bs) hi) where
  Gives-top : ltb n l ≡ true → Gives lo hi n ((a, l) ∷ bs) (a + (l - n)) ((a, l - n) ∷ bs)
  Gives-top more =
      let lt : n < l = ground arith in
      record {
        aligned = omega (arith, o.1, o.3);
        from = omega (arith, o.0);
        fits = omega (arith, o.4);
        was_free = inl (omega arith, omega arith);
        apart =
            (inl (omega arith), Apart-above (suc (a + l)) hi (a + (l - n)) n bs (omega arith) o.5);
        rest = (
          o.0,
          o.1,
          omega arith,
          omega (arith, o.3),
          omega (arith, o.4),
          Ordered-weaken (suc (a + (l - n))) (suc (a + l)) hi bs (omega arith) o.5,
        );
        sum = omega arith;
      }

  Served-top :
      (r : Option (ℕ × Blocks))
      → Served (suc (a + l)) hi n bs r
      → last_fit n bs ≡ r
      → Served lo hi n ((a, l) ∷ bs) (last_fit n ((a, l) ∷ bs))
  unfolding last_fit
  Served-top none s e = rw e (elim (Bool-cases (leb n l)) [
    | inl fits ↦ elim (Bool-cases (n == l)) [
      | inl same ↦ rw (fits, same) (Gives-whole n units some_bytes lo hi a l bs o (ground arith))
      | inr other ↦ rw (fits, other) (Gives-top (ground arith))
    ]
    | inr small ↦ rw small (ground arith, s)
  ])
  Served-top (some (b, rest)) s e = rw e (Gives-behind n units some_bytes lo hi a l bs b rest o s)

  -- The rest of a block and the upper part given back are the block.
  rejoin :
      (cs : Blocks)
      → Ordered lo ((a, l) ∷ cs) hi
      → n < l
      → give_back (a + (l - n)) n ((a, l - n) ∷ cs) ≡ (a, l) ∷ cs
  unfolding give_back grow
  rejoin [] p more = ground arith
  rejoin ((c, k) ∷ cs) p more = ground (arith, p.5.0)

  Restores-top :
      (r : Option (ℕ × Blocks))
      → Served (suc (a + l)) hi n bs r
      → Restores n bs r
      → last_fit n bs ≡ r
      → Restores n ((a, l) ∷ bs) (last_fit n ((a, l) ∷ bs))
  unfolding last_fit
  Restores-top none s r e = rw e (elim (Bool-cases (leb n l)) [
    | inl fits ↦ elim (Bool-cases (n == l)) [
      | inl same ↦
          rw (fits, same) (give_back-alone n units some_bytes lo hi a l bs (ground arith) o)
      | inr other ↦ rw (fits, other) (rejoin bs o (ground arith))
    ]
    | inr small ↦ rw small tt
  ])
  Restores-top (some (b, rest)) s r e =
      rw e (Restores-behind n units some_bytes (suc (a + l)) hi a l bs (some (b, rest)) s r)

module _ (n : ℕ) (units : n % 8 ≡ 0) (some_bytes : 0 < n) where
  -- Last fit refuses only if every block is too small, and gives out free bytes otherwise.
  pub last_fit-Served :
      (lo hi : ℕ) (bs : Blocks) → Ordered lo bs hi → Served lo hi n bs (last_fit n bs)
  unfolding last_fit
  last_fit-Served lo hi [] o = tt
  last_fit-Served lo hi ((a, l) ∷ bs) o =
      Served-top n units some_bytes lo hi a l bs o (last_fit n bs)
        (last_fit-Served (suc (a + l)) hi bs o.5) refl

  pub give_back-last_fit :
      (lo hi : ℕ) (bs : Blocks) → Ordered lo bs hi → Restores n bs (last_fit n bs)
  unfolding last_fit
  give_back-last_fit lo hi [] o = tt
  give_back-last_fit lo hi ((a, l) ∷ bs) o =
      Restores-top n units some_bytes lo hi a l bs o (last_fit n bs)
        (last_fit-Served (suc (a + l)) hi bs o.5) (give_back-last_fit (suc (a + l)) hi bs o.5) refl
