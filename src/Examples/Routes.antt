-- ===== src/Examples/Routes.antt =====
-- A routing table with one route and the theorems on routing at it.
use xinu.Base.{ℕ, ◌≡◌, refl, none, some, ◌==◌, if◌then◌else◌, arith}
use xinu.Kernel.{OK}
use xinu.Netaddr.{Netaddr, netaddrequal}
use xinu.Route.{RtTable, RtEntry, RtState, nentry, rt_lookup, rt_clear}
use xinu.Route.Add.{Added, rt_add-Added}
use xinu.Route.Change.{Releases, Avoids, clears, rt_clear-Avoids}
use xinu.Route.Mask.{total_bits, mask_length-total_bits}
use xinu.Route.{mask_length}
use xinu.Route.Lookup.{Best, rt_lookup-Best}

abbrev ipv4 : ℕ → ℕ → ℕ → ℕ → Netaddr
ipv4 a b c d = record {
  type = 1;
  len = 4;
  addr = λ i.
      if i == 0 then a else if i == 1 then b else if i == 2 then c else if i == 3 then d else 0;
}

-- 10.0.0.0 with eight bits by way of interface 512.
abbrev one_route : RtTable
one_route i = record {
  state = if i == 0 then RtState.used else RtState.free;
  masklen = 8;
  dst = ipv4 10 0 0 0;
  gateway = ipv4 10 0 0 1;
  mask = ipv4 255 0 0 0;
  nif = 512;
}

rt_lookup-Best_example : Best one_route (ipv4 10 1 2 3) nentry (rt_lookup one_route (ipv4 10 1 2 3))
rt_lookup-Best_example = rt_lookup-Best one_route (ipv4 10 1 2 3)

rt_add-Added_example :
    (n : ℕ) × (t' : RtTable) × Added (ipv4 10 1 0 7) none (ipv4 255 255 0 0) 640 one_route n t'
rt_add-Added_example =
    rt_add-Added (ipv4 10 1 0 7) none (ipv4 255 255 0 0) 640 one_route 3 (ground arith)
      (omega arith) refl (omega arith) (λ j h. ground arith)

rt_clear-Avoids_example :
    (t' : RtTable) × (rt_clear 512 one_route ≡ (OK, t'))
    × Releases (clears 512) 0 nentry one_route t'
    × ((a : Netaddr) → Avoids (λ e. 512 == e.nif) one_route t' a)
rt_clear-Avoids_example = rt_clear-Avoids 512 one_route (ground arith)

found_test : rt_lookup one_route (ipv4 10 1 2 3) ≡ some 0
unfolding rt_lookup xinu.Route.lookup_loop xinu.Route.matches xinu.Route.better
    xinu.Netaddr.netaddrequal xinu.Netaddr.netaddrmask xinu.Netaddr.memcmp xinu.Netaddr.memcmp_loop
    xinu.Netaddr.mask_octets xinu.Netaddr.and_bits
found_test = refl

mask_length-total_bits_example :
    mask_length 4 (ipv4 255 240 0 0).addr ≡ total_bits 4 (ipv4 255 240 0 0).addr
mask_length-total_bits_example =
    mask_length-total_bits 4 (ipv4 255 240 0 0).addr (λ i h. ground arith)
