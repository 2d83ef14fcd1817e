-- ===== src/Checksum.antt =====
-- The Internet checksum: network/net/netChksum.c, as compiled for a little-endian processor.
pub mod Sum
use xinu.Base.{ℕ, zero, suc, ◌+◌, ◌-◌, ◌*◌, ◌/◌, ◌%◌, ◌^◌, ◌==◌, if◌then◌else◌, Option, none, some}
use xinu.Strings.{Bytes}

-- `net2hs(b << 8)` of include/network.h, for an octet.
unfoldable pub left_over : ℕ → ℕ
left_over b = b * 256 / 256 % 256 + b * 256 % 256 * 256

-- The sum of the words and of a left-over octet, in an `unsigned int`.
unfoldable pub sum_loop : ℕ → ℕ → Bytes → ℕ → ℕ
sum_loop zero i bytes sum = sum
sum_loop (suc zero) i bytes sum = (sum + left_over (bytes i)) % 2 ^ 32
sum_loop (suc (suc len)) i bytes sum =
    sum_loop len (i + 2) bytes ((sum + (bytes i + 256 * bytes (i + 1))) % 2 ^ 32)

unfoldable pub fold_loop : ℕ → ℕ → Option ℕ
fold_loop zero sum = none
fold_loop (suc fuel) sum =
    let rest = fold_loop fuel (sum / 2 ^ 16 + sum % 2 ^ 16) in
    if sum / 2 ^ 16 == 0 then some sum else rest

-- `(unsigned short)~sum`
abbrev pub complement : ℕ → ℕ
complement sum = 2 ^ 16 - 1 - sum % 2 ^ 16

unfoldable pub net_chksum : Bytes → ℕ → Option ℕ
net_chksum bytes len = elim (fold_loop 3 (sum_loop len 0 bytes 0)) [
  | none ↦ none
  | some sum ↦ some (complement sum)
]
