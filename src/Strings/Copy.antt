-- ===== src/Strings/Copy.antt =====
-- `strlcpy` of lib/libxc/strlcpy.c: what fits is copied, and the result is always terminated.
use xinu.Base.{
  ℕ, zero, suc, ◌-◌, ◌≤◌, ◌<◌, ◌≡◌, refl, false, ltb, ◌==◌, if◌then◌else◌, some, arith, sym, ◌∙◌,
}
use xinu.Kernel.{update}
use xinu.Strings.{Bytes, strlen, memcpy, strlcpy}
use xinu.Strings.Length.{Ends, strlen-Ends}

memcpy-at : (dest src : Bytes) (n j : ℕ) → memcpy dest src n j ≡ (if ltb j n then src j else dest j)
unfolding memcpy
memcpy-at dest src zero j = ground arith
memcpy-at dest src (suc n) j = ground (arith, memcpy-at dest src n j)

-- The number of characters that fit into `size` bytes with a terminator.
abbrev pub fitting : ℕ → ℕ → ℕ
fitting len size = if ltb (size - 1) len then size - 1 else len

strlcpy_run :
    (n fuel : ℕ) (dest src : Bytes) (size : ℕ)
    → strlen fuel src ≡ some n
    → (size == 0) ≡ false
    → strlcpy fuel dest src size
      ≡ some (n, update (memcpy dest src (fitting n size)) (fitting n size) 0)
unfolding strlcpy
strlcpy_run n fuel dest src size e nz = rw (e, strlcpy, nz) refl

pub record Copied (dest src : Bytes) (len size : ℕ) (dest' : Bytes) : Type 0 where
  pub bounded : fitting len size < size
  pub ends : Ends dest' (fitting len size)
  pub prefix : (i : ℕ) → i < fitting len size → dest' i ≡ src i
  pub rest : (i : ℕ) → size ≤ i → dest' i ≡ dest i

-- `strlcpy` from a terminated source, into a size that is not 0, answers the length of the source.
-- The destination then holds as much of it as fits into its size, terminated inside, and nothing
-- beyond the size is written.
pub strlcpy-Copied :
    (n fuel : ℕ) (dest src : Bytes) (size : ℕ)
    → Ends src n
    → n < fuel
    → 0 < size
    → (dest' : Bytes) × (strlcpy fuel dest src size ≡ some (n, dest'))
      × Copied dest src n size dest'
unfolding strlcpy
strlcpy-Copied n fuel dest src size e lt room =
    let m = fitting n size in
    let dest' : Bytes = update (memcpy dest src m) m 0 in
    let small : m < size = ground arith in
    let short : m ≤ n = ground arith in
    let at : (i : ℕ) → i < m → dest' i ≡ src i = λ i h. ground (arith, memcpy-at dest src m i) in
    let nz : (size == 0) ≡ false = ground arith in
    (
      dest',
      strlcpy_run n fuel dest src size (strlen-Ends n fuel src e lt) nz,
      record {
        bounded = small;
        ends = record {
          terminator = ground arith;
          before = λ i h. (λ z. e.before i (omega arith) (sym (at i h) ∙ z));
        };
        prefix = at;
        rest = λ i h. ground (arith, memcpy-at dest src m i);
      },
    )
