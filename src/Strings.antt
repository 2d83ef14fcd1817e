-- ===== src/Strings.antt =====
-- The string functions of lib/libxc. A pointer to characters is the function that gives the byte at
-- each distance from it; the two pointers of a copy lead to different objects. A search for the
-- terminator has a bound on its rounds and answers `none` without rounds left.
pub mod Copy
pub mod Length
use xinu.Base.{
  ℕ, zero, suc, ◌+◌, ◌-◌, ◌%◌, ℤ, pos, Bool, true, false, ◌&&◌, ◌||◌, not, ltb, ◌==◌, ◌==ℤ◌, ◌-ℤ◌,
  if◌then◌else◌, Option, none, some,
}
use xinu.Kernel.{update}

abbrev pub Bytes : Type 0
Bytes = ℕ → ℕ

unfoldable pub strlen_loop : ℕ → ℕ → Bytes → Option ℕ
strlen_loop zero n s = none
strlen_loop (suc fuel) n s =
    let rest = strlen_loop fuel (suc n) s in if not (s n == 0) then rest else some n

unfoldable pub strlen : ℕ → Bytes → Option ℕ
strlen fuel s = strlen_loop fuel 0 s

unfoldable pub strnlen_loop : ℕ → ℕ → Bytes → ℕ
strnlen_loop zero n s = n
strnlen_loop (suc left) n s =
    let rest = strnlen_loop left (suc n) s in if not (s n == 0) then rest else n

unfoldable pub strnlen : Bytes → ℕ → ℕ
strnlen s maxlen = strnlen_loop maxlen 0 s

unfoldable pub strcmp_loop : ℕ → ℕ → Bytes → Bytes → Option ℤ
strcmp_loop zero i s1 s2 = none
strcmp_loop (suc fuel) i s1 s2 =
    let rest = strcmp_loop fuel (suc i) s1 s2 in
    if (s1 i == s2 i) && not (s1 i == 0) then rest else some (pos (s1 i) -ℤ pos (s2 i))

unfoldable pub strcmp : ℕ → Bytes → Bytes → Option ℤ
strcmp fuel s1 s2 = strcmp_loop fuel 0 s1 s2

unfoldable pub strncmp_loop : ℕ → ℕ → Bytes → Bytes → ℤ
strncmp_loop zero i s1 s2 = pos 0
strncmp_loop (suc left) i s1 s2 =
    let rest = strncmp_loop left (suc i) s1 s2 in
    if (s1 i == 0) || not (s1 i == s2 i) then pos (s1 i) -ℤ pos (s2 i) else rest

unfoldable pub strncmp : Bytes → Bytes → ℕ → ℤ
strncmp s1 s2 n = strncmp_loop n 0 s1 s2

-- The inner option is the pointer: its distance, or NULL.
unfoldable pub strchr_loop : ℕ → ℕ → Bytes → ℕ → Option (Option ℕ)
strchr_loop zero i s ch = none
strchr_loop (suc fuel) i s ch =
    let rest = strchr_loop fuel (suc i) s ch in
    if s i == ch then some (some i) else if not (s i == 0) then rest else some none

unfoldable pub strchr : ℕ → Bytes → ℕ → Option (Option ℕ)
strchr fuel s c = strchr_loop fuel 0 s (c % 256)

unfoldable pub strrchr_loop : ℕ → ℕ → Bytes → ℕ → Option ℕ → Option (Option ℕ)
strrchr_loop zero i s ch r = none
strrchr_loop (suc fuel) i s ch r =
    let r' : Option ℕ = if s i == ch then some i else r in
    let rest = strrchr_loop fuel (suc i) s ch r' in if not (s i == 0) then rest else some r'

unfoldable pub strrchr : ℕ → Bytes → ℕ → Option (Option ℕ)
strrchr fuel s c = strrchr_loop fuel 0 s (c % 256) none

unfoldable pub memchr_loop : ℕ → ℕ → Bytes → ℕ → Option ℕ
memchr_loop zero i s byte = none
memchr_loop (suc left) i s byte =
    let rest = memchr_loop left (suc i) s byte in if s i == byte then some i else rest

unfoldable pub memchr : Bytes → ℕ → ℕ → Option ℕ
memchr s c n = memchr_loop n 0 s (c % 256)

-- What the destination holds afterwards.
unfoldable pub memcpy : Bytes → Bytes → ℕ → Bytes
memcpy dest src zero = dest
memcpy dest src (suc n) = update (memcpy dest src n) n (src n)

unfoldable pub memset : Bytes → ℕ → ℕ → Bytes
memset s c zero = s
memset s c (suc n) = update (memset s c n) n (c % 256)

unfoldable pub bzero : Bytes → ℕ → Bytes
bzero s n = memset s 0 n

unfoldable pub strcpy_loop : ℕ → ℕ → Bytes → Bytes → Option Bytes
strcpy_loop zero i dest src = none
strcpy_loop (suc fuel) i dest src =
    let dest' : Bytes = update dest i (src i) in
    let rest = strcpy_loop fuel (suc i) dest' src in if not (src i == 0) then rest else some dest'

unfoldable pub strcpy : ℕ → Bytes → Bytes → Option Bytes
strcpy fuel dest src = strcpy_loop fuel 0 dest src

unfoldable pub pad_loop : ℕ → ℕ → Bytes → Bytes
pad_loop zero i dest = dest
pad_loop (suc left) i dest = pad_loop left (suc i) (update dest i 0)

unfoldable pub strncpy_loop : ℕ → ℕ → Bytes → Bytes → Bytes
strncpy_loop zero i dest src = dest
strncpy_loop (suc left) i dest src =
    let rest = strncpy_loop left (suc i) (update dest i (src i)) src in
    if not (src i == 0) then rest else pad_loop (suc left) i dest

unfoldable pub strncpy : Bytes → Bytes → ℕ → Bytes
strncpy dest src n = strncpy_loop n 0 dest src

-- The number answered, and the destination.
unfoldable pub strlcpy : ℕ → Bytes → Bytes → ℕ → Option (ℕ × Bytes)
strlcpy fuel dest src destsize = elim (strlen fuel src) [
  | none ↦ none
  | some srclen ↦
      if not (destsize == 0)
      then (let copylen : ℕ = if ltb (destsize - 1) srclen then destsize - 1 else srclen in
          some (srclen, update (memcpy dest src copylen) copylen 0))
      else some (srclen, dest)
]

-- The haystack is advanced, so that it is read from `i` on.
unfoldable pub strstr_loop : ℕ → ℕ → Bytes → Bytes → ℕ → Option (Option ℕ)
strstr_loop zero i haystack needle needle_len = none
strstr_loop (suc fuel) i haystack needle needle_len =
    let rest = strstr_loop fuel (suc i) haystack needle needle_len in
    if not (haystack i == 0)
    then if pos 0 ==ℤ strncmp (λ j. haystack (i + j)) needle needle_len then some (some i) else rest
    else some none

unfoldable pub strstr : ℕ → Bytes → Bytes → Option (Option ℕ)
strstr fuel haystack needle = elim (strlen fuel needle) [
  | none ↦ none
  | some needle_len ↦ strstr_loop fuel 0 haystack needle needle_len
]

unfoldable pub strncat_loop : ℕ → ℕ → ℕ → Bytes → Bytes → Bytes
strncat_loop zero i end dest src = update dest (end + i) 0
strncat_loop (suc left) i end dest src =
    let rest = strncat_loop left (suc i) end (update dest (end + i) (src i)) src in
    if not (src i == 0) then rest else update dest (end + i) 0

-- `strchr(dest, '\0')` is the terminator, which is always found.
unfoldable pub strncat : ℕ → Bytes → Bytes → ℕ → Option Bytes
strncat fuel dest src n = elim (strchr fuel dest 0) [
  | none ↦ none
  | some none ↦ none
  | some (some end) ↦ some (strncat_loop n 0 end dest src)
]
