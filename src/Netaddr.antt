-- ===== src/Netaddr.antt =====
-- Network addresses: include/network.h, network/netaddr/netaddrmask.c,
-- network/netaddr/netaddrhost.c, network/netaddr/netaddrequal.c and lib/libxc/memcmp.c.
use xinu.Base.{
  ℕ, zero, suc, ◌+◌, ◌-◌, ◌*◌, ◌/◌, ◌%◌, ℤ, pos, Bool, ◌&&◌, ◌||◌, not, ◌==◌, ◌==ℤ◌, ◌-ℤ◌,
  if◌then◌else◌,
}
use xinu.Kernel.{OK, syserr, update}

-- struct netaddr; an octet is a number below 256.
pub record Netaddr : Type 0 where
  pub type : ℕ
  pub len : ℕ
  pub addr : ℕ → ℕ

-- The bits that two numbers of `n` bits share.
unfoldable pub and_bits : ℕ → ℕ → ℕ → ℕ
and_bits zero x y = 0
and_bits (suc n) x y = x % 2 * (y % 2) + 2 * and_bits n (x / 2) (y / 2)

abbrev pub and_octet : ℕ → ℕ → ℕ
and_octet = and_bits 8

-- The loops over the first `n` octets.
unfoldable pub mask_octets : ℕ → (ℕ → ℕ) → (ℕ → ℕ) → ℕ → ℕ
mask_octets zero a mask = a
mask_octets (suc n) a mask =
    let a' = mask_octets n a mask in update a' n (and_octet (a' n) (mask n))

unfoldable pub host_octets : ℕ → (ℕ → ℕ) → (ℕ → ℕ) → ℕ → ℕ
host_octets zero a mask = a
host_octets (suc n) a mask =
    let a' = host_octets n a mask in update a' n (and_octet (a' n) (255 - mask n))

abbrev pub differ_in_kind : Netaddr → Netaddr → Bool
differ_in_kind a mask = not (a.type == mask.type) || not (a.len == mask.len)

-- The value answered, and the address afterwards.
unfoldable pub netaddrmask : Netaddr → Netaddr → ℤ × Netaddr
netaddrmask a mask =
    if differ_in_kind a mask
    then (syserr, a)
    else (OK, record a { addr = mask_octets a.len a.addr mask.addr })

unfoldable pub netaddrhost : Netaddr → Netaddr → ℤ × Netaddr
netaddrhost a mask =
    if differ_in_kind a mask
    then (syserr, a)
    else (OK, record a { addr = host_octets a.len a.addr mask.addr })

unfoldable pub memcmp_loop : ℕ → ℕ → (ℕ → ℕ) → (ℕ → ℕ) → ℤ
memcmp_loop zero i p1 p2 = pos 0
memcmp_loop (suc left) i p1 p2 =
    let rest = memcmp_loop left (suc i) p1 p2 in
    if p1 i == p2 i then rest else pos (p1 i) -ℤ pos (p2 i)

unfoldable pub memcmp : (ℕ → ℕ) → (ℕ → ℕ) → ℕ → ℤ
memcmp s1 s2 n = memcmp_loop n 0 s1 s2

unfoldable pub netaddrequal : Netaddr → Netaddr → Bool
netaddrequal a b =
    (a.type == b.type) && ((a.len == b.len) && (pos 0 ==ℤ memcmp a.addr b.addr a.len))
