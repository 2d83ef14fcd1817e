-- ===== src/Route.antt =====
-- The routing table: include/route.h, network/route/rtAdd.c, network/route/rtAlloc.c,
-- network/route/rtLookup.c, network/route/rtRemove.c, network/route/rtClear.c,
-- network/route/rtDefault.c, and the table's part of network/route/rtInit.c.
pub mod Add
pub mod Change
pub mod Lookup
pub mod Mask
use xinu.Base.{
  ℕ, zero, suc, ◌+◌, ◌*◌, ◌/◌, ◌%◌, ◌^◌, ℤ, Bool, true, false, ◌&&◌, ◌||◌, not, ltb, ◌==◌,
  if◌then◌else◌, Option, none, some,
}
use xinu.Kernel.{OK, syserr, update}
use xinu.Netaddr.{Netaddr, netaddrmask, netaddrequal}

-- RT_NENTRY
abbrev pub nentry : ℕ
nentry = 32

-- RT_FREE, RT_USED, RT_PEND
pub data RtState : Type 0 where
  free used pend : RtState

abbrev pub is_used : RtState → Bool
is_used RtState.used = true
is_used _ = false

abbrev pub is_free : RtState → Bool
is_free RtState.free = true
is_free _ = false

-- struct rtEntry; an interface is its address, and NULL is 0.
pub record RtEntry : Type 0 where
  pub state : RtState
  pub masklen : ℕ
  pub dst : Netaddr
  pub gateway : Netaddr
  pub mask : Netaddr
  pub nif : ℕ

abbrev pub RtTable : Type 0
RtTable = ℕ → RtEntry

abbrev pub set_state : ℕ → RtState → RtTable → RtTable
set_state i st t = update t i (record (t i) { state = st })

-- NET_MAX_ALEN of include/network.h
abbrev pub max_alen : ℕ
max_alen = 6

abbrev blank_addr : Netaddr
blank_addr = record { type = 0; len = 0; addr = λ i. 0 }

abbrev blank : RtEntry
blank = record {
  state = RtState.free;
  masklen = 0;
  dst = blank_addr;
  gateway = blank_addr;
  mask = blank_addr;
  nif = 0;
}

-- The first free entry, which is then pending.
unfoldable pub alloc_loop : ℕ → ℕ → RtTable → Option ℕ × RtTable
alloc_loop zero i t = (none, t)
alloc_loop (suc left) i t =
    let rest = alloc_loop left (suc i) t in
    if is_free (t i).state then (some i, set_state i RtState.pend t) else rest

unfoldable pub rt_alloc : RtTable → Option ℕ × RtTable
rt_alloc t = alloc_loop nentry 0 t

-- The number of bits that are set in an octet, added to `length`. An octet is used up after as
-- many rounds as its value.
unfoldable pub ones_loop : ℕ → ℕ → ℕ → ℕ
ones_loop zero octet length = length
ones_loop (suc fuel) octet length =
    let rest = ones_loop fuel (octet / 2) (length + octet % 2) in
    if ltb 0 octet then rest else length

unfoldable pub mask_length : ℕ → (ℕ → ℕ) → ℕ
mask_length zero addr = 0
mask_length (suc n) addr = ones_loop (addr n) (addr n) (mask_length n addr)

-- The entry that `rtAdd` fills in.
unfoldable pub new_entry : Netaddr → Option Netaddr → Netaddr → ℕ → RtEntry → RtEntry
new_entry dst gate mask nif e = record {
  state = RtState.used;
  masklen = mask_length mask.len mask.addr % 2 ^ 16;
  dst = (netaddrmask dst mask).1;
  gateway = elim gate [ none ↦ record (e.gateway) { type = 0 } | some g ↦ g ];
  mask = mask;
  nif = nif;
}

-- A pointer that may be NULL is an option.
unfoldable pub rt_add : Option Netaddr → Option Netaddr → Option Netaddr → ℕ → RtTable → ℤ × RtTable
rt_add none gate mask nif t = (syserr, t)
rt_add (some dst) gate none nif t = (syserr, t)
rt_add (some dst) gate (some mask) nif t =
    if nif == 0
    then (syserr, t)
    else let (entry, t') = rt_alloc t in
      elim entry [
        | none ↦ (syserr, t')
        | some i ↦ (OK, update t' i (new_entry dst gate mask nif (t' i)))
      ]

-- Whether entry `i` is better than what was found so far.
unfoldable pub better : RtTable → ℕ → Option ℕ → Bool
better t i none = true
better t i (some j) = ltb (t j).masklen (t i).masklen

-- Whether entry `i` is in use and is about the address.
unfoldable pub matches : RtTable → Netaddr → ℕ → Bool
matches t a i = is_used (t i).state && netaddrequal (netaddrmask a (t i).mask).1 (t i).dst

unfoldable pub lookup_loop : ℕ → ℕ → RtTable → Netaddr → Option ℕ → Option ℕ
lookup_loop zero i t a best = best
lookup_loop (suc left) i t a best =
    lookup_loop left (suc i) t a (if matches t a i && better t i best then some i else best)

-- The index of the entry, or NULL.
unfoldable pub rt_lookup : RtTable → Netaddr → Option ℕ
rt_lookup t a = lookup_loop nentry 0 t a none

abbrev pub release : ℕ → RtTable → RtTable
release i t = update t i (record (t i) { state = RtState.free; nif = 0 })

unfoldable pub remove_loop : ℕ → ℕ → Netaddr → RtTable → RtTable
remove_loop zero i dst t = t
remove_loop (suc left) i dst t =
    remove_loop left (suc i) dst
      (if is_used (t i).state && netaddrequal dst (t i).dst then release i t else t)

unfoldable pub rt_remove : Option Netaddr → RtTable → ℤ × RtTable
rt_remove none t = (syserr, t)
rt_remove (some dst) t = (OK, remove_loop nentry 0 dst t)

unfoldable pub clear_loop : ℕ → ℕ → ℕ → RtTable → RtTable
clear_loop zero i nif t = t
clear_loop (suc left) i nif t =
    clear_loop left (suc i) nif
      (if is_used (t i).state && (nif == (t i).nif) then release i t else t)

unfoldable pub rt_clear : ℕ → RtTable → ℤ × RtTable
rt_clear nif t = if nif == 0 then (syserr, t) else (OK, clear_loop nentry 0 nif t)

-- The mask of no bits of the gateway's kind. What `bzero` does not reach of it is `unset`.
unfoldable pub no_mask : (ℕ → ℕ) → Netaddr → Netaddr
no_mask unset gate = record {
  type = gate.type;
  len = gate.len;
  addr = λ i. if ltb i gate.len then 0 else unset i;
}

unfoldable pub has_mask : ℕ → ℕ → Netaddr → RtTable → Bool
has_mask zero i mask t = false
has_mask (suc left) i mask t =
    let rest = has_mask left (suc i) mask t in
    if is_used (t i).state && netaddrequal (t i).mask mask then true else rest

unfoldable pub rt_default : (ℕ → ℕ) → Option Netaddr → ℕ → RtTable → ℤ × RtTable
rt_default unset none nif t = (syserr, t)
rt_default unset (some gate) nif t =
    if (nif == 0) || ltb max_alen gate.len
    then (syserr, t)
    else if has_mask nentry 0 (no_mask unset gate) t
    then (OK, t)
    else let (entry, t') = rt_alloc t in
      elim entry [
        | none ↦ (syserr, t')
        | some i ↦ (
          OK,
          update t' i (record {
            state = RtState.used;
            masklen = 0;
            dst = no_mask unset gate;
            gateway = gate;
            mask = no_mask unset gate;
            nif = nif;
          }),
        )
      ]

-- The loop of `rtInit` over the table.
unfoldable pub rt_init : RtTable → RtTable
rt_init t i = if ltb i nentry then blank else t i
