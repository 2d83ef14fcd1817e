-- ===== src/Route/Add.antt =====
-- `rtAdd` and `rtAlloc` of network/route/rtAdd.c and network/route/rtAlloc.c, and a lookup behind them.
use xinu.Base.{
  ℕ, zero, suc, ◌+◌, ◌%◌, ◌^◌, ◌≤◌, ◌<◌, ◌≡◌, ◌≢◌, ◌∙◌, ap, refl, true, false, ◌&&◌, Option, none,
  some, ◌==◌, arith, Bool-cases, inl, inr, subst, sym,
}
use xinu.Kernel.{OK, update}
use xinu.Netaddr.{Netaddr, netaddrmask, netaddrequal}
use xinu.Route.{
  RtTable, RtEntry, RtState, is_used, is_free, nentry, set_state, alloc_loop, rt_alloc, new_entry,
  rt_add, matches, rt_lookup, max_alen,
}
use xinu.Route.Lookup.{Best, rt_lookup-Best, IsRoute, matches-IsRoute}
use xinu.Route.Mask.{total_bits, total_bits-le, mask_length-total_bits}

-- The first free entry at or behind `i`, marked as pending; or none is free, and nothing changes.
abbrev pub Allocated : RtTable → ℕ → ℕ → Option ℕ × RtTable → Type 0
Allocated t i left (none, t') =
    ((j : ℕ) → i ≤ j → j < i + left → is_free (t j).state ≡ false) × (t' ≡ t)
Allocated t i left (some n, t') =
    (i ≤ n)
    × (n < i + left)
    × (is_free (t n).state ≡ true)
    × ((j : ℕ) → i ≤ j → j < n → is_free (t j).state ≡ false)
    × (t' ≡ set_state n RtState.pend t)

Allocated-behind :
    (t : RtTable) (i left : ℕ) (a : Option ℕ × RtTable)
    → is_free (t i).state ≡ false
    → Allocated t (suc i) left a
    → Allocated t i (suc left) a
Allocated-behind t i left (none, t') used b = (
  λ j h l. elim (Bool-cases (i == j)) [
    | inl same ↦ (let ij : i ≡ j = ground arith in subst (λ n. is_free (t n).state ≡ false) ij used)
    | inr other ↦ b.0 j (ground arith) (omega arith)
  ],
  b.1,
)
Allocated-behind t i left (some n, t') used b = (
  omega (arith, b.0),
  omega (arith, b.1),
  b.2,
  (λ j h l. elim (Bool-cases (i == j)) [
    | inl same ↦ (let ij : i ≡ j = ground arith in subst (λ n. is_free (t n).state ≡ false) ij used)
    | inr other ↦ b.3 j (ground arith) l
  ]),
  b.4,
)

alloc_loop-Allocated : (left i : ℕ) (t : RtTable) → Allocated t i left (alloc_loop left i t)
unfolding alloc_loop
alloc_loop-Allocated zero i t = ((λ j h l. absurd (omega arith)), refl)
alloc_loop-Allocated (suc left) i t = elim (Bool-cases (is_free (t i).state)) [
  | inl free ↦ rw free (omega arith, omega arith, free, (λ j h l. absurd (omega arith)), refl)
  | inr used ↦ rw used (
      Allocated-behind t i left (alloc_loop left (suc i) t) used
        (alloc_loop-Allocated left (suc i) t))
]

rt_alloc-Allocated : (t : RtTable) → Allocated t 0 nentry (rt_alloc t)
unfolding rt_alloc
rt_alloc-Allocated t = alloc_loop-Allocated nentry 0 t

-- Whether a lookup answers an entry in use that is about the address, with at least this mask
-- length.
abbrev Reaching : RtTable → Netaddr → ℕ → Option ℕ → Type 0
Reaching t a length none = ⊥
Reaching t a length (some j) = IsRoute (t j) a × (length ≤ (t j).masklen)

abbrev pub Reaches : RtTable → Netaddr → ℕ → Type 0
Reaches t a length = Reaching t a length (rt_lookup t a)

Reaches-of :
    (t : RtTable) (a : Netaddr) (i : ℕ)
    → i < nentry
    → matches t a i ≡ true
    → Reaches t a (t i).masklen
Reaches-of t a i lt m = go (rt_lookup t a) (rt_lookup-Best t a)
  where
    go : (o : Option ℕ) → Best t a nentry o → Reaching t a (t i).masklen o
    go none b = absurd (ground (arith, b i))
    go (some j) b = (matches-IsRoute t a j b.matching, b.longest i lt m)

matches-new :
    (t : RtTable) (e : RtEntry) (a : Netaddr) (i : ℕ)
    → is_used e.state ≡ true
    → netaddrequal (netaddrmask a e.mask).1 e.dst ≡ true
    → matches (update t i e) a i ≡ true
unfolding matches
matches-new t e a i used same =
    let at : update t i e i ≡ e = ground arith in
    subst (λ d. (is_used d.state && netaddrequal (netaddrmask a d.mask).1 d.dst) ≡ true) (sym at)
      (rw (used, same))

-- The gateway of a new entry; without one, the old one loses its type.
abbrev gateway_of : Option Netaddr → Netaddr → Netaddr
gateway_of none old = record old { type = 0 }
gateway_of (some g) old = g

-- A new route, with all bits of the mask counted.
pub record Entered (to : Netaddr) (gate : Option Netaddr) (under : Netaddr) (interface : ℕ)
    (old e : RtEntry) : Type 0 where
  pub used : is_used e.state ≡ true
  pub masklen : e.masklen ≡ total_bits under.len under.addr
  pub dst : e.dst ≡ (netaddrmask to under).1
  pub gateway : e.gateway ≡ gateway_of gate old.gateway
  pub mask : e.mask ≡ under
  pub nif : e.nif ≡ interface

new_entry-Entered :
    (dst : Netaddr) (gate : Option Netaddr) (mask : Netaddr) (nif : ℕ) (e : RtEntry)
    → mask.len ≤ max_alen
    → ((i : ℕ) → i < mask.len → mask.addr i < 256)
    → Entered dst gate mask nif e (new_entry dst gate mask nif e)
unfolding new_entry
new_entry-Entered dst gate mask nif e short octets = record {
  used = refl;
  masklen =
      ap (λ n. n % 2 ^ 16) (mask_length-total_bits mask.len mask.addr octets)
      ∙ omega (arith, total_bits-le mask.len mask.addr);
  dst = refl;
  gateway = each gate;
  mask = refl;
  nif = refl;
}
  where
    each : (g : Option Netaddr) → (new_entry dst g mask nif e).gateway ≡ gateway_of g e.gateway
    each none = refl
    each (some g) = refl

-- What `rtAdd` leaves when an entry is free.
pub record Added (dst : Netaddr) (gate : Option Netaddr) (mask : Netaddr) (nif : ℕ) (t : RtTable)
    (n : ℕ) (t' : RtTable) : Type 0 where
  pub ran : rt_add (some dst) gate (some mask) nif t ≡ (OK, t')
  pub in_range : n < nentry
  pub was_free : is_free (t n).state ≡ true
  pub entry : Entered dst gate mask nif (t n) (t' n)
  pub others : (j : ℕ) → j ≢ n → t' j ≡ t j
  pub reach :
      (a : Netaddr)
      → netaddrequal (netaddrmask a mask).1 (netaddrmask dst mask).1 ≡ true
      → Reaches t' a (total_bits mask.len mask.addr)

-- `rtAdd` with an interface, and a mask of at most NET_MAX_ALEN octets, fills in a free entry and
-- changes no other, as long as there is one. The entry is in use, with the destination under the
-- mask, the gateway, the mask, the number of bits that are set in the mask as its length, and the
-- interface. After that a lookup of an address that agrees with the destination under the mask
-- answers an entry in use that is about the address, with a mask length at least as large.
pub rt_add-Added :
    (dst : Netaddr) (gate : Option Netaddr) (mask : Netaddr) (nif : ℕ) (t : RtTable) (i : ℕ)
    → nif ≢ 0
    → i < nentry
    → is_free (t i).state ≡ true
    → mask.len ≤ max_alen
    → ((j : ℕ) → j < mask.len → mask.addr j < 256)
    → (n : ℕ) × (t' : RtTable) × Added dst gate mask nif t n t'
unfolding rt_add new_entry
rt_add-Added dst gate mask nif t i ne lt free short octets =
    go (rt_alloc t).0 refl (rt_alloc-Allocated t)
  where
    go :
        (o : Option ℕ)
        → (rt_alloc t).0 ≡ o
        → Allocated t 0 nentry (o, (rt_alloc t).1)
        → (n : ℕ) × (t' : RtTable) × Added dst gate mask nif t n t'
    go none e b = absurd (ground (arith, b.0 i))
    go (some n) e b =
        let t1 = (rt_alloc t).1 in
        let nz : (nif == 0) ≡ false = ground arith in
        let at : t1 n ≡ set_state n RtState.pend t n = ap (λ f. f n) b.4 in
        let fill = new_entry dst gate mask nif (t1 n) in
        let self : update t1 n fill n ≡ fill = ground arith in
        let there : set_state n RtState.pend t n ≡ record (t n) { state = RtState.pend } =
          ground arith in
        let new =
          new_entry-Entered dst gate mask nif (record (t n) { state = RtState.pend }) short
            octets in
        let entered : Entered dst gate mask nif (t n)
            (new_entry dst gate mask nif (set_state n RtState.pend t n)) =
          subst (λ e. Entered dst gate mask nif (t n) (new_entry dst gate mask nif e)) (sym there)
            (record {
              used = new.used;
              masklen = new.masklen;
              dst = new.dst;
              gateway = new.gateway;
              mask = new.mask;
              nif = new.nif;
            }) in
        let filled : Entered dst gate mask nif (t n) (update t1 n fill n) =
          subst (Entered dst gate mask nif (t n)) (sym self) (
            subst (λ e. Entered dst gate mask nif (t n) (new_entry dst gate mask nif e)) (sym at)
              entered) in
        (
          n,
          update t1 n fill,
          record {
            ran = rw (nz, e) refl;
            in_range = b.1;
            was_free = b.2;
            entry = filled;
            others = λ j o. ground (arith, ap (λ f. f j) b.4);
            reach = λ a same.
                subst (Reaches (update t1 n fill) a) filled.masklen
                  (Reaches-of _ a n b.1 (matches-new t1 fill a n refl same));
          },
        )
