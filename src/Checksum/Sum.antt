-- ===== src/Checksum/Sum.antt =====
-- What the Internet checksum of network/net/netChksum.c adds up to.
use xinu.Base.{
  ℕ, zero, suc, ◌+◌, ◌*◌, ◌/◌, ◌%◌, ◌≤◌, ◌<◌, ◌≡◌, refl, true, ◌==◌, some, arith, Bool-cases, inl,
  inr, ap, ◌∙◌,
}
use xinu.Checksum.{left_over, sum_loop, fold_loop, complement, net_chksum}
use xinu.Strings.{Bytes}

-- The sum of the 16-bit words, the last of which may be a lone octet.
abbrev pub words : ℕ → ℕ → Bytes → ℕ
words zero i bytes = 0
words (suc zero) i bytes = bytes i
words (suc (suc len)) i bytes = bytes i + 256 * bytes (i + 1) + words len (i + 2) bytes

words-le : (len i : ℕ) (bytes : Bytes) → ((j : ℕ) → bytes j < 256) → words len i bytes ≤ 65535 * len
words-le zero i bytes oct = omega arith
words-le (suc zero) i bytes oct = omega (arith, oct i)
words-le (suc (suc len)) i bytes oct =
    omega (arith, oct i, oct (i + 1), words-le len (i + 2) bytes oct)

sum_loop-words :
    (len i sum : ℕ) (bytes : Bytes)
    → ((j : ℕ) → bytes j < 256)
    → sum + words len i bytes < 4294967296
    → sum_loop len i bytes sum ≡ sum + words len i bytes
unfolding sum_loop left_over
sum_loop-words zero i sum bytes oct lt = omega arith
sum_loop-words (suc zero) i sum bytes oct lt = omega (arith, oct i)
sum_loop-words (suc (suc len)) i sum bytes oct lt =
    let small : (sum + (bytes i + 256 * bytes (i + 1))) % 4294967296
        ≡ sum + (bytes i + 256 * bytes (i + 1)) =
      omega arith in
    rw small (
      sum_loop-words len (i + 2) (sum + (bytes i + 256 * bytes (i + 1))) bytes oct (omega arith)
      ∙ omega arith)

-- Folding keeps the sum modulo 65535 and ends below 65536.
fold_loop-mod :
    (sum : ℕ)
    → sum < 4294967296
    → (s : ℕ) × (fold_loop 3 sum ≡ some s) × (s < 65536) × (s % 65535 ≡ sum % 65535)
unfolding fold_loop
fold_loop-mod sum lt =
    let s1 = sum / 65536 + sum % 65536 in
    let s2 = s1 / 65536 + s1 % 65536 in
    elim (Bool-cases (sum / 65536 == 0)) [
      | inl low ↦ (sum, rw low refl, ground (arith, low), refl)
      | inr high ↦ elim (Bool-cases (s1 / 65536 == 0)) [
        | inl low ↦ (s1, rw (high, low) refl, ground (arith, low), omega arith)
        | inr more ↦
            let done : (s2 / 65536 == 0) ≡ true = ground (arith, more) in
            (s2, rw (high, more, done) refl, omega arith, omega arith)
      ]
    ]

net_chksum_run :
    (bytes : Bytes) (len s : ℕ)
    → fold_loop 3 (sum_loop len 0 bytes 0) ≡ some s
    → net_chksum bytes len ≡ some (complement s)
unfolding net_chksum
net_chksum_run bytes len s e = rw (e, net_chksum) refl

-- The checksum of up to 65536 octets is a 16-bit number, and the sum of the words and the checksum
-- is a multiple of 65535.
pub net_chksum-words :
    (bytes : Bytes) (len : ℕ)
    → ((j : ℕ) → bytes j < 256)
    → len ≤ 65536
    → (c : ℕ) × (net_chksum bytes len ≡ some c)
      × (c < 65536)
      × ((words len 0 bytes + c) % 65535 ≡ 0)
net_chksum-words bytes len oct small =
    let total = words len 0 bytes in
    let bound : total < 4294967296 = omega (arith, words-le len 0 bytes oct) in
    let zero-add : 0 + total ≡ total = omega arith in
    let (s, run, low, same) = fold_loop-mod total bound in
    (
      complement s,
      net_chksum_run bytes len s (
          ap (fold_loop 3) (sum_loop-words len 0 0 bytes oct (omega (arith, bound)) ∙ zero-add)
          ∙ run),
      omega arith,
      omega (arith, same, low),
    )
