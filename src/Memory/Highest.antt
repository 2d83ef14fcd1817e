-- ===== src/Memory/Highest.antt =====
-- The walk of `stkget` in system/stkget.c and what it takes from the highest block that fits.
use xinu.Base.{
  ℕ, zero, suc, ◌+◌, ◌-◌, ◌%◌, ◌≤◌, ◌<◌, ◌≡◌, refl, ◌∙◌, ap, subst, sym, [], ◌∷◌, Option, none,
  some, ◌==◌, leb, arith, length, Bool-cases, inl, inr, true, false, if◌then◌else◌,
}
use xinu.Memory.{Memory, u32, stkget_loop, stkget_at, take_block, less_free, set_length}
use xinu.Memory.Blocks.{Blocks, Chain, Ordered}
use xinu.Memory.Get.{Chain-frame, Took, Took-behind, take_block-Took}
use xinu.Memory.LastFit.{last_fit, from_top}

-- Where the walk of `stkget` along the blocks ends, with the choice it came with.
abbrev pub walked : ℕ → ℕ → Blocks → Option (ℕ × ℕ) → Option (ℕ × ℕ)
walked n prev [] fits = fits
walked n prev ((a, l) ∷ bs) fits = walked n a bs (if leb n l then some (prev, a) else fits)

pub stkget_loop-walked :
    (m : Memory) (lo hi n fuel prev p : ℕ) (bs : Blocks) (fits : Option (ℕ × ℕ))
    → length bs < fuel
    → 0 < lo
    → Chain m p bs
    → Ordered lo bs hi
    → stkget_loop fuel prev p n fits m ≡ some (walked n prev bs fits)
unfolding stkget_loop
stkget_loop-walked m lo hi n zero prev p bs fits lt pos c o = absurd (omega arith)
stkget_loop-walked m lo hi n (suc fuel) prev p [] fits lt pos c o = ground (arith, c)
stkget_loop-walked m lo hi n (suc fuel) prev p ((a, l) ∷ bs) fits lt pos c o =
    let nonnull : (a == 0) ≡ false = ground (arith, o.0) in
    rw (c.0, nonnull, c.1)
      (stkget_loop-walked m (suc (a + l)) hi n fuel a (m.block a).next bs _ (omega arith)
        (omega arith) c.2 o.5)

-- The kernel's answer for the bytes `a … a + n - 1`: the address of their last word.
abbrev pub last_word : ℕ → ℕ → ℕ
last_word a n = a + n - 4

-- The memory after block `a` lost its upper `n` bytes.
abbrev shrunk : Memory → ℕ → ℕ → Memory
shrunk m a n = less_free n (set_length a (((m.block a).length + u32 - n) % u32) m)

module _ (m : Memory) (hi n : ℕ) (hu : hi < u32) (some_bytes : 4 ≤ n) where
  stkget_at_whole :
      (prev lo a l : ℕ) (bs : Blocks)
      → Chain m a ((a, l) ∷ bs)
      → Ordered lo ((a, l) ∷ bs) hi
      → (n == l) ≡ true
      → stkget_at prev a n m ≡ (last_word a n, take_block prev a n m)
  unfolding stkget_at take_block
  stkget_at_whole prev lo a l bs c o same =
      let top : (a + n + u32 - 4) % u32 ≡ last_word a n = ground (arith, same, o.4) in
      rw (c.1, same, top) refl

  stkget_at_top :
      (prev lo a l : ℕ) (bs : Blocks)
      → Chain m a ((a, l) ∷ bs)
      → Ordered lo ((a, l) ∷ bs) hi
      → n < l
      → stkget_at prev a n m ≡ (last_word (a + (l - n)) n, shrunk m a n)
  unfolding stkget_at
  stkget_at_top prev lo a l bs c o less =
      let other : (n == (m.block a).length) ≡ false = ground (arith, c.1) in
      let self : (a == a) ≡ true = ground arith in
      let left : ((m.block a).length + u32 - n) % u32 ≡ l - n = omega (arith, c.1, o.4) in
      let top : (a + (l - n) + n + u32 - 4) % u32 ≡ last_word (a + (l - n)) n =
        omega (arith, o.4) in
      rw (other, self, left, top) refl

  shrunk-Took :
      (prev lo a l : ℕ) (bs : Blocks)
      → prev < lo
      → m.memlist < lo
      → (m.block prev).next ≡ a
      → Chain m a ((a, l) ∷ bs)
      → Ordered lo ((a, l) ∷ bs) hi
      → n < l
      → Took m (shrunk m a n) prev lo n ((a, l - n) ∷ bs)
  shrunk-Took prev lo a l bs pl ml link c o less = record {
    chain = (
      link',
      len,
      subst (λ p. Chain (shrunk m a n) p bs) (sym next)
          (Chain-frame m (shrunk m a n) (m.block a).next (suc (a + l)) hi bs (λ i h. ground arith)
            o.5 c.2),
    );
    nexts = λ i h ne. ground arith;
    lengths = λ i h ne. ground arith;
    free = ground arith;
    memlist = refl;
    memheap = refl;
    maxaddr = refl;
  }
    where
      link' : ((shrunk m a n).block prev).next ≡ a
      link' = ground arith

      next : ((shrunk m a n).block a).next ≡ (m.block a).next
      next = ground arith

      len : ((shrunk m a n).block a).length ≡ l - n
      len = ground arith

-- The outcome of the walk and the taking, where `o` is the last fit.
abbrev pub Stacked : Memory → ℕ → ℕ → ℕ → Blocks → Option (ℕ × ℕ) → Option (ℕ × Blocks) → Type 0
Stacked m prev lo n bs fits none = walked n prev bs fits ≡ fits
Stacked m prev lo n bs fits (some (r, rest)) =
    (p : ℕ) × (f : ℕ) × (m' : Memory) × (walked n prev bs fits ≡ some (p, f))
    × (stkget_at p f n m ≡ (last_word r n, m'))
    × Took m m' prev lo n rest

module _ (m : Memory) (hi n : ℕ) (hu : hi < u32) (some_bytes : 4 ≤ n) where
  pub walked-Stacked :
      (prev lo : ℕ) (bs : Blocks) (fits : Option (ℕ × ℕ))
      → prev < lo
      → m.memlist < lo
      → Chain m (m.block prev).next bs
      → Ordered lo bs hi
      → Stacked m prev lo n bs fits (last_fit n bs)
  unfolding last_fit
  walked-Stacked prev lo [] fits pl ml c o = refl
  walked-Stacked prev lo ((a, l) ∷ bs) fits pl ml c o = go (last_fit n bs) (
      walked-Stacked a (suc (a + l)) bs (if leb n l then some (prev, a) else fits) (omega arith)
        (omega (arith, o.0)) c.2 o.5)
    where
      c' : Chain m a ((a, l) ∷ bs)
      c' = (refl, c.1, c.2)

      go :
          (r : Option (ℕ × Blocks))
          → Stacked m a (suc (a + l)) n bs (if leb n l then some (prev, a) else fits) r
          → Stacked m prev lo n
              ((a, l) ∷ bs)
              fits
              (elim r [ none ↦ from_top n a l bs | some (b, rest) ↦ some (b, (a, l) ∷ rest) ])
      go none s = elim (Bool-cases (leb n l)) [
        | inl large ↦ elim (Bool-cases (n == l)) [
          | inl same ↦
              rw (large, same)
                (
                  prev,
                  a,
                  take_block prev a n m,
                  s ∙ ap (λ b. if b then some (prev, a) else fits) large,
                  stkget_at_whole m hi n hu some_bytes prev lo a l bs c' o same,
                  take_block-Took m prev lo hi n a l bs pl ml c' o,
                )
          | inr other ↦
              rw (large, other)
                (
                  prev,
                  a,
                  shrunk m a n,
                  s ∙ ap (λ b. if b then some (prev, a) else fits) large,
                  stkget_at_top m hi n hu some_bytes prev lo a l bs c' o (ground arith),
                  shrunk-Took m hi n hu some_bytes prev lo a l bs pl ml c.0 c' o (ground arith),
                )
        ]
        | inr small ↦ rw small (s ∙ ap (λ b. if b then some (prev, a) else fits) small)
      ]
      go (some (b, rest)) (p, f, m', e, done, took) =
          (p, f, m', e, done, Took-behind m hi n m' prev lo a l rest pl ml o.0 c.0 c.1 took)
