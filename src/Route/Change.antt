-- ===== src/Route/Change.antt =====
-- The changes of the routing table: network/route/rtAdd.c, network/route/rtAlloc.c,
-- network/route/rtRemove.c and network/route/rtClear.c.
use xinu.Base.{
  ℕ, zero, suc, ◌+◌, ◌≡◌, ◌≢◌, ◌∙◌, refl, true, false, Bool, ◌&&◌, if◌then◌else◌, Option, none,
  some, ltb, leb, ◌==◌, arith, Bool-cases, inl, inr, subst, sym,
}
use xinu.Kernel.{OK}
use xinu.Netaddr.{Netaddr, netaddrequal}
use xinu.Route.{
  RtTable, RtEntry, RtState, is_used, nentry, release, clear_loop, rt_clear, rt_lookup,
}
use xinu.Route.Lookup.{Best, rt_lookup-Best, IsRoute, matches-IsRoute}

-- What becomes of a table when every entry that passes a test is released.
abbrev pub Releases : (RtEntry → Bool) → ℕ → ℕ → RtTable → RtTable → Type 0
Releases test from left t t' =
    (j : ℕ)
    → t' j ≡ (
        if leb from j && (ltb j (from + left) && test (t j))
        then record (t j) { state = RtState.free; nif = 0 }
        else t j)

Releases-step :
    (test : RtEntry → Bool) (left i : ℕ) (t t' : RtTable)
    → Releases test (suc i) left (if test (t i) then release i t else t) t'
    → Releases test i (suc left) t t'
Releases-step test left i t t' behind j =
    let at : (if test (t i) then release i t else t) j
        ≡ (if (i == j) && test (t i) then record (t i) { state = RtState.free; nif = 0 } else t j) =
      ground arith in
    elim (Bool-cases (i == j)) [
      | inl same ↦ (let ij : i ≡ j = ground arith in behind j ∙ ground (arith, ij))
      | inr other ↦
          let keep : (if test (t i) then release i t else t) j ≡ t j = ground (arith, at, other) in
          behind j ∙ rw keep (ground (arith, other))
    ]

Releases-none : (test : RtEntry → Bool) (i : ℕ) (t : RtTable) → Releases test i 0 t t
Releases-none test i t j = ground arith

-- Whether `rtRemove` and `rtClear` release an entry.
abbrev pub removes : Netaddr → RtEntry → Bool
removes dst e = is_used e.state && netaddrequal dst e.dst

abbrev pub clears : ℕ → RtEntry → Bool
clears nif e = is_used e.state && (nif == e.nif)

clear_loop-Releases :
    (left i nif : ℕ) (t : RtTable) → Releases (clears nif) i left t (clear_loop left i nif t)
unfolding clear_loop
clear_loop-Releases zero i nif t = Releases-none (clears nif) i t
clear_loop-Releases (suc left) i nif t =
    Releases-step (clears nif) left i t _
      (clear_loop-Releases left (suc i) nif (if clears nif (t i) then release i t else t))

-- What a lookup answers after a change of `t` to `t'` that releases all entries in use that pass a
-- test: an entry in use that is about the address and does not pass it, as it was before.
abbrev Avoiding : (RtEntry → Bool) → RtTable → RtTable → Netaddr → Option ℕ → Type 0
Avoiding test t t' a none = Unit
Avoiding test t t' a (some j) = IsRoute (t' j) a × (test (t' j) ≡ false) × (t' j ≡ t j)

abbrev pub Avoids : (RtEntry → Bool) → RtTable → RtTable → Netaddr → Type 0
Avoids test t t' a = Avoiding test t t' a (rt_lookup t' a)

in_use :
    (e : RtEntry) (test : RtEntry → Bool)
    → is_used e.state ≡ true
    → (is_used e.state && test e) ≡ false
    → test e ≡ false
in_use e test used h = ground (arith, used, h)

Avoids-of :
    (test : RtEntry → Bool) (t t' : RtTable) (a : Netaddr)
    → Releases (λ e. is_used e.state && test e) 0 nentry t t'
    → Avoids test t t' a
Avoids-of test t t' a rel = go (rt_lookup t' a) (rt_lookup-Best t' a)
  where
    go : (o : Option ℕ) → Best t' a nentry o → Avoiding test t t' a o
    go none b = tt
    go (some j) b =
        let route = matches-IsRoute t' a j b.matching in
        elim (Bool-cases (is_used (t j).state && test (t j))) [
          | inl hit ↦ absurd (ground (arith, rel j, hit, route.0, b.in_range))
          | inr miss ↦
              let same : t' j ≡ t j = ground (arith, rel j, miss) in
              let used = subst (λ e. is_used e.state ≡ true) same route.0 in
              (route, subst (λ e. test e ≡ false) (sym same) (in_use (t j) test used miss), same)
        ]

-- `rtClear` of an interface releases every entry in use that leads to it and changes no other. What
-- a lookup answers afterwards is in use, about the address, leads to another interface, and is as
-- it was before.
pub rt_clear-Avoids :
    (nif : ℕ) (t : RtTable)
    → nif ≢ 0
    → (t' : RtTable) × (rt_clear nif t ≡ (OK, t'))
      × Releases (clears nif) 0 nentry t t'
      × ((a : Netaddr) → Avoids (λ e. nif == e.nif) t t' a)
unfolding rt_clear
rt_clear-Avoids nif t ne =
    let rel = clear_loop-Releases nentry 0 nif t in
    let nz : (nif == 0) ≡ false = ground arith in
    (clear_loop nentry 0 nif t, rw nz refl, rel, λ a. Avoids-of (λ e. nif == e.nif) t _ a rel)
