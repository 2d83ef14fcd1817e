-- ===== src/Memory/Coalesce.antt =====
-- What giving bytes back means for the list of free blocks: neighbours grow together.
use xinu.Base.{
  ℕ, suc, ◌+◌, ◌-◌, ◌%◌, ◌≤◌, ◌<◌, ◌≡◌, refl, ap, [], ◌∷◌, Option, none, some, ltb, leb, ◌==◌, ◌&&◌,
  ◌||◌, arith, Bool, true, false, Bool-cases, inl, inr, if◌then◌else◌, sym, subst,
}
use xinu.Memory.Blocks.{Blocks, Ordered, total, first_fit}
use xinu.Memory.FirstFit.{Apart, Served, first_fit-Served}

-- Block `b` with `l` bytes in front of the blocks above it, one with the next if they touch.
unfoldable pub grow : ℕ → ℕ → Blocks → Blocks
grow b l [] = (b, l) ∷ []
grow b l ((c, k) ∷ bs) = if b + l == c then (b, l + k) ∷ bs else (b, l) ∷ (c, k) ∷ bs

unfoldable pub give_back : ℕ → ℕ → Blocks → Blocks
give_back a n [] = (a, n) ∷ []
give_back a n ((b, l) ∷ bs) =
    if ltb a b
    then grow a n ((b, l) ∷ bs)
    else if b + l == a
    then grow b (l + n) bs
    else (b, l) ∷ give_back a n bs

pub total-grow : (b l : ℕ) (bs : Blocks) → total (grow b l bs) ≡ l + total bs
unfolding grow
total-grow b l [] = refl
total-grow b l ((c, k) ∷ bs) = ground arith

pub total-give_back : (a n : ℕ) (bs : Blocks) → total (give_back a n bs) ≡ n + total bs
unfolding give_back
total-give_back a n [] = refl
total-give_back a n ((b, l) ∷ bs) =
    ground (arith, total-grow a n ((b, l) ∷ bs), total-grow b (l + n) bs, total-give_back a n bs)

-- Whether a byte is in a free block.
abbrev pub covers : ℕ → Blocks → Bool
covers x [] = false
covers x ((b, l) ∷ bs) = (leb b x && ltb x (b + l)) || covers x bs

covers-grow :
    (x b l : ℕ) (bs : Blocks) → covers x (grow b l bs) ≡ ((leb b x && ltb x (b + l)) || covers x bs)
unfolding grow
covers-grow x b l [] = refl
covers-grow x b l ((c, k) ∷ bs) = ground arith

-- Exactly the bytes given back are free beside those that were.
pub covers-give_back :
    (x a n : ℕ) (bs : Blocks)
    → covers x (give_back a n bs) ≡ ((leb a x && ltb x (a + n)) || covers x bs)
unfolding give_back
covers-give_back x a n [] = refl
covers-give_back x a n ((b, l) ∷ bs) =
    ground (
      arith,
      covers-grow x a n ((b, l) ∷ bs),
      covers-grow x b (l + n) bs,
      covers-give_back x a n bs,
    )

grow-Ordered :
    (lo hi b l : ℕ) (bs : Blocks)
    → lo ≤ b
    → b % 8 ≡ 0
    → 0 < l
    → l % 8 ≡ 0
    → b + l ≤ hi
    → Ordered (b + l) bs hi
    → Ordered lo (grow b l bs) hi
unfolding grow
grow-Ordered lo hi b l [] h1 h2 h3 h4 h5 o = (h1, h2, h3, h4, h5, tt)
grow-Ordered lo hi b l ((c, k) ∷ bs) h1 h2 h3 h4 h5 o = elim (Bool-cases (b + l == c)) [
  | inl touch ↦
      let same : b + l ≡ c = ground arith in
      let end : b + (l + k) ≡ c + k = omega arith in
      rw touch (
        h1,
        h2,
        omega arith,
        omega (arith, o.3),
        omega (arith, o.4),
        subst (λ e. Ordered (suc e) bs hi) (sym end) o.5,
      )
  | inr gap ↦ rw gap (h1, h2, h3, h4, h5, (ground (arith, o.0), o.1, o.2, o.3, o.4, o.5))
]

-- Blocks above `e` that are apart from `a … a + n - 1` are at or above its end.
pub Ordered-above :
    (e a n hi : ℕ) (bs : Blocks)
    → a ≤ e
    → 0 < n
    → Apart a n bs
    → Ordered e bs hi
    → Ordered (a + n) bs hi
Ordered-above e a n hi [] h pos ap o = tt
Ordered-above e a n hi ((c, k) ∷ bs) h pos ap o =
    (ground (arith, ap.0, o.0, o.2), o.1, o.2, o.3, o.4, o.5)

module _ (a n hi : ℕ) (aligned : a % 8 ≡ 0) (some_bytes : 0 < n) (units : n % 8 ≡ 0)
    (fits : a + n ≤ hi) where
  -- The blocks stay in order.
  pub give_back-Ordered :
      (lo : ℕ) (bs : Blocks)
      → lo ≤ a
      → Apart a n bs
      → Ordered lo bs hi
      → Ordered lo (give_back a n bs) hi
  unfolding give_back
  give_back-Ordered lo [] h apart o = (h, aligned, some_bytes, units, fits, tt)
  give_back-Ordered lo ((b, l) ∷ bs) h apart o = elim (Bool-cases (ltb a b)) [
    | inl below ↦ rw below (
        grow-Ordered lo hi a n ((b, l) ∷ bs) h aligned some_bytes units fits (
          Ordered-above b a n hi ((b, l) ∷ bs) (ground arith) some_bytes apart
            (omega arith, o.1, o.2, o.3, o.4, o.5)))
    | inr above ↦
        let end : b + l ≤ a = ground (arith, apart.0) in
        elim (Bool-cases (b + l == a)) [
          | inl touch ↦
              let same : b + l ≡ a = ground arith in
              let whole : a + n ≡ b + (l + n) = omega arith in
              rw (above, touch)
                (grow-Ordered lo hi b (l + n) bs o.0 o.1 (omega (arith, o.2)) (omega (arith, o.3))
                  (omega arith)
                  (subst (λ e. Ordered e bs hi) whole
                    (Ordered-above (suc (b + l)) a n hi bs (omega arith) some_bytes apart.1 o.5)))
          | inr gap ↦
              rw (above, gap)
                (
                  o.0,
                  o.1,
                  o.2,
                  o.3,
                  o.4,
                  give_back-Ordered (suc (b + l)) bs (ground arith) apart.1 o.5,
                )
        ]
  ]

-- Giving back what first fit took restores the list of blocks.
abbrev pub Restores : ℕ → Blocks → Option (ℕ × Blocks) → Type 0
Restores n bs none = Unit
Restores n bs (some (a, rest)) = give_back a n rest ≡ bs

module _ (n : ℕ) (units : n % 8 ≡ 0) (some_bytes : 0 < n) where
  pub Restores-behind :
      (lo hi b l : ℕ) (bs : Blocks) (o : Option (ℕ × Blocks))
      → Served (suc (b + l)) hi n bs o
      → Restores n bs o
      → Restores n ((b, l) ∷ bs) (elim o [ none ↦ none | some (r, rest) ↦ some (r, (b, l) ∷ rest) ])
  unfolding give_back
  Restores-behind lo hi b l bs none s r = tt
  Restores-behind lo hi b l bs (some (a, rest)) s r =
      let up : ltb a b ≡ false = ground (arith, s.from) in
      let gap : (b + l == a) ≡ false = ground (arith, s.from) in rw (up, gap) (ap (◌∷◌ (b, l)) r)

  pub give_back-alone :
      (lo hi b l : ℕ) (bs : Blocks)
      → (l == n) ≡ true
      → Ordered lo ((b, l) ∷ bs) hi
      → give_back b n bs ≡ (b, l) ∷ bs
  unfolding give_back grow
  give_back-alone lo hi b l [] same o = ground arith
  give_back-alone lo hi b l ((c, k) ∷ bs) same o =
      let up : ltb b c ≡ true = ground (arith, o.5.0) in
      let gap : (b + n == c) ≡ false = ground (arith, o.5.0, same) in
      let e : n ≡ l = ground arith in rw (up, gap) (ap (λ x. (b, x) ∷ (c, k) ∷ bs) e)

  pub give_back-first_fit :
      (lo hi : ℕ) (bs : Blocks) → Ordered lo bs hi → Restores n bs (first_fit n bs)
  unfolding first_fit give_back grow
  give_back-first_fit lo hi [] o = tt
  give_back-first_fit lo hi ((b, l) ∷ bs) o = elim (Bool-cases (l == n)) [
    | inl same ↦ rw same (give_back-alone lo hi b l bs same o)
    | inr other ↦ elim (Bool-cases (ltb n l)) [
      | inl more ↦ rw (other, more) (rejoin b l bs more)
      | inr less ↦
          rw (other, less)
            (Restores-behind lo hi b l bs (first_fit n bs)
              (first_fit-Served n units some_bytes (suc (b + l)) hi bs o.5)
              (give_back-first_fit (suc (b + l)) hi bs o.5))
    ]
  ]
    where
      rejoin :
          (b l : ℕ) (bs : Blocks)
          → ltb n l ≡ true
          → give_back b n ((b + n, l - n) ∷ bs) ≡ (b, l) ∷ bs
      rejoin b l bs more =
          let up : ltb b (b + n) ≡ true = ground (arith, some_bytes) in
          let meet : (b + n == b + n) ≡ true = ground arith in
          let e : n + (l - n) ≡ l = ground arith in rw (up, meet) (ap (λ x. (b, x) ∷ bs) e)
