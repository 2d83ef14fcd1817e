-- ===== src/Route/Mask.antt =====
-- The count of the bits of a mask in network/route/rtAdd.c.
use xinu.Base.{
  ℕ, zero, suc, ◌+◌, ◌*◌, ◌/◌, ◌%◌, ◌^◌, ◌≤◌, ◌<◌, ◌≡◌, ◌∙◌, ap, refl, ltb, arith, Bool-cases, inl,
  inr,
}
use xinu.Route.{ones_loop, mask_length}

ones_loop-zero : (fuel length : ℕ) → ones_loop fuel 0 length ≡ length
unfolding ones_loop
ones_loop-zero zero length = refl
ones_loop-zero (suc fuel) length = refl

-- The number of bits that are set, by the digits of a number below 2^n.
abbrev ones : ℕ → ℕ → ℕ
ones zero octet = 0
ones (suc n) octet = octet % 2 + ones n (octet / 2)

ones-zero : (n : ℕ) → ones n 0 ≡ 0
ones-zero zero = refl
ones-zero (suc n) = omega (arith, ones-zero n)

-- With as many rounds as the octet's value the loop counts all bits of an octet of `n` digits.
ones_loop-ones :
    (n fuel octet length : ℕ)
    → octet < 2 ^ n
    → octet ≤ fuel
    → ones_loop fuel octet length ≡ length + ones n octet
unfolding ones_loop
ones_loop-ones zero fuel octet length lt enough =
    let none_set : octet ≡ 0 = omega arith in rw none_set (ones_loop-zero fuel length ∙ omega arith)
ones_loop-ones (suc n) zero octet length lt enough =
    let none_set : octet ≡ 0 = omega arith in rw none_set (omega (arith, ones-zero (suc n)))
ones_loop-ones (suc n) (suc fuel) octet length lt enough = elim (Bool-cases (ltb 0 octet)) [
  | inl more ↦ rw more (
      ones_loop-ones n fuel (octet / 2) (length + octet % 2) (omega arith) (ground (arith, more))
      ∙ omega arith)
  | inr less ↦
      let none_set : octet ≡ 0 = ground (arith, less) in
      rw none_set (omega (arith, ones-zero (suc n)))
]

-- The number of bits that are set in an octet, by the places 0 to 7.
abbrev bits_set : ℕ → ℕ
bits_set octet =
    octet % 2
    + octet / 2 % 2
    + octet / 4 % 2
    + octet / 8 % 2
    + octet / 16 % 2
    + octet / 32 % 2
    + octet / 64 % 2
    + octet / 128 % 2

-- The number of bits that are set in the first `n` octets of an address.
abbrev pub total_bits : ℕ → (ℕ → ℕ) → ℕ
total_bits zero addr = 0
total_bits (suc n) addr = total_bits n addr + bits_set (addr n)

ones-bits_set : (octet : ℕ) → ones 8 octet ≡ bits_set octet
ones-bits_set octet = omega arith

pub total_bits-le : (n : ℕ) (addr : ℕ → ℕ) → total_bits n addr ≤ 8 * n
total_bits-le zero addr = omega arith
total_bits-le (suc n) addr = omega (arith, total_bits-le n addr)

-- The length that `rtAdd` computes of a mask of octets is the number of the bits at all places of
-- all its octets that are set.
pub mask_length-total_bits :
    (n : ℕ) (addr : ℕ → ℕ)
    → ((i : ℕ) → i < n → addr i < 256)
    → mask_length n addr ≡ total_bits n addr
unfolding mask_length
mask_length-total_bits zero addr octets = refl
mask_length-total_bits (suc n) addr octets =
    let before = mask_length-total_bits n addr (λ i h. octets i (omega arith)) in
    ones_loop-ones 8 (addr n) (addr n) (mask_length n addr) (octets n (omega arith)) (omega arith)
    ∙ ap (λ l. l + ones 8 (addr n)) before
    ∙ ap (λ b. total_bits n addr + b) (ones-bits_set (addr n))
