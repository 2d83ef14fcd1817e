-- ===== src/Route/Lookup.antt =====
-- `rtLookup` of network/route/rtLookup.c: the longest prefix.
use xinu.Base.{
  ℕ, zero, suc, ◌+◌, ◌≤◌, ◌<◌, ◌≡◌, true, false, ◌&&◌, if◌then◌else◌, Option, none, some, ltb,
  arith, Bool-cases, inl, inr, subst,
}
use xinu.Netaddr.{Netaddr, netaddrmask, netaddrequal}
use xinu.Route.{RtTable, RtEntry, is_used, nentry, matches, better, lookup_loop, rt_lookup}

-- The best of the first `n` entries: a matching one with the longest mask, and the first of those.
pub record IsBest (t : RtTable) (a : Netaddr) (n j : ℕ) : Type 0 where
  pub in_range : j < n
  pub matching : matches t a j ≡ true
  pub longest : (i : ℕ) → i < n → matches t a i ≡ true → (t i).masklen ≤ (t j).masklen
  pub first : (i : ℕ) → i < j → matches t a i ≡ true → (t i).masklen < (t j).masklen

abbrev pub Best : RtTable → Netaddr → ℕ → Option ℕ → Type 0
Best t a n none = (i : ℕ) → i < n → matches t a i ≡ false
Best t a n (some j) = IsBest t a n j

module _ (t : RtTable) (a : Netaddr) where
  better_or_not :
      (n : ℕ) (best : Option ℕ)
      → Best t a n best
      → Best t a (suc n) (if matches t a n && better t n best then some n else best)
  unfolding better
  better_or_not n none b = elim (Bool-cases (matches t a n)) [
    | inl m ↦ rw m (record {
      in_range = omega arith;
      matching = m;
      longest = λ i h e. ground (arith, b i);
      first = λ i h e. absurd (ground (arith, b i));
    })
    | inr m ↦ rw m (λ i h. elim (Bool-cases (matches t a i)) [
      | inl e ↦ absurd (ground (arith, b i))
      | inr e ↦ e
    ])
  ]
  better_or_not n (some j) b =
      elim (Bool-cases (matches t a n && ltb (t j).masklen (t n).masklen)) [
        | inl m ↦ rw m (record {
          in_range = omega arith;
          matching = ground arith;
          longest = λ i h e. ground (arith, b.longest i);
          first = λ i h e. ground (arith, b.longest i);
        })
        | inr m ↦ rw m (record {
          in_range = omega (arith, b.in_range);
          matching = b.matching;
          longest = λ i h e. ground (arith, b.longest i);
          first = b.first;
        })
      ]

  lookup_loop-Best :
      (left n : ℕ) (best : Option ℕ)
      → Best t a n best
      → Best t a (n + left) (lookup_loop left n t a best)
  unfolding lookup_loop
  lookup_loop-Best zero n best b = subst (λ m. Best t a m best) (omega arith) b
  lookup_loop-Best (suc left) n best b =
      subst (λ m. Best t a m (lookup_loop (suc left) n t a best)) (omega arith)
        (lookup_loop-Best left (suc n) (if matches t a n && better t n best then some n else best)
          (better_or_not n best b))

  -- `rtLookup` answers NULL only if no entry in use is about the address. Otherwise it answers an
  -- entry that is, with the longest mask of all those that are, and the first one of that length.
  pub rt_lookup-Best : Best t a nentry (rt_lookup t a)
  unfolding rt_lookup
  rt_lookup-Best = lookup_loop-Best nentry 0 none (λ i h. absurd (omega arith))

-- An entry in use that is about the address.
abbrev pub IsRoute : RtEntry → Netaddr → Type 0
IsRoute e a = (is_used e.state ≡ true) × (netaddrequal (netaddrmask a e.mask).1 e.dst ≡ true)

pub matches-IsRoute : (t : RtTable) (a : Netaddr) (j : ℕ) → matches t a j ≡ true → IsRoute (t j) a
unfolding matches
matches-IsRoute t a j m = (ground (arith, m), ground (arith, m))
