-- ===== src/Strings/Length.antt =====
-- `strlen`, `strcmp` and `strchr` of lib/libxc against the terminated strings they read.
use xinu.Base.{
  ℕ, zero, suc, ◌+◌, ◌≤◌, ◌<◌, ◌≡◌, ◌≢◌, refl, pos, ◌-ℤ◌, true, false, not, ◌&&◌, ◌==◌, some, arith,
  Bool-cases, inl, inr, subst,
}
use xinu.Strings.{Bytes, strlen_loop, strlen, strcmp_loop, strcmp}

-- The string ends after `n` characters.
pub record Ends (s : Bytes) (n : ℕ) : Type 0 where
  pub terminator : s n ≡ 0
  pub before : (i : ℕ) → i < n → s i ≢ 0

strlen_loop-Ends :
    (fuel i n : ℕ) (s : Bytes) → Ends s n → i ≤ n → n < i + fuel → strlen_loop fuel i s ≡ some n
unfolding strlen_loop
strlen_loop-Ends zero i n s e h lt = absurd (omega arith)
strlen_loop-Ends (suc fuel) i n s e h lt = elim (Bool-cases (i == n)) [
  | inl same ↦ (let ij : i ≡ n = ground arith in ground (arith, ij, e.terminator))
  | inr other ↦
      let more : i < n = ground arith in
      let nz : (s i == 0) ≡ false = ground (arith, e.before i more) in
      rw nz (strlen_loop-Ends fuel (suc i) n s e (omega arith) (omega arith))
]

-- `strlen` answers the number of characters before the terminator.
pub strlen-Ends : (n fuel : ℕ) (s : Bytes) → Ends s n → n < fuel → strlen fuel s ≡ some n
unfolding strlen
strlen-Ends n fuel s e lt = strlen_loop-Ends fuel 0 n s e (omega arith) (omega arith)

-- The first place where two strings differ or the first of them ends.
pub record Differ (s1 s2 : Bytes) (n : ℕ) : Type 0 where
  pub same : (i : ℕ) → i < n → s1 i ≡ s2 i
  pub inside : (i : ℕ) → i < n → s1 i ≢ 0
  pub stop : ((s1 n == s2 n) && not (s1 n == 0)) ≡ false

strcmp_loop-Differ :
    (fuel i n : ℕ) (s1 s2 : Bytes)
    → Differ s1 s2 n
    → i ≤ n
    → n < i + fuel
    → strcmp_loop fuel i s1 s2 ≡ some (pos (s1 n) -ℤ pos (s2 n))
unfolding strcmp_loop
strcmp_loop-Differ zero i n s1 s2 d h lt = absurd (omega arith)
strcmp_loop-Differ (suc fuel) i n s1 s2 d h lt = elim (Bool-cases (i == n)) [
  | inl same ↦
      let ij : n ≡ i = ground arith in
      let stop : ((s1 i == s2 i) && not (s1 i == 0)) ≡ false =
        subst (λ m. ((s1 m == s2 m) && not (s1 m == 0)) ≡ false) ij d.stop in
      rw (ij, stop) refl
  | inr other ↦
      let more : i < n = ground arith in
      let go : ((s1 i == s2 i) && not (s1 i == 0)) ≡ true =
        ground (arith, d.same i more, d.inside i more) in
      rw go (strcmp_loop-Differ fuel (suc i) n s1 s2 d (omega arith) (omega arith))
]

-- `strcmp` answers the difference of the characters at the first place where the strings differ or
-- both end.
pub strcmp-Differ :
    (n fuel : ℕ) (s1 s2 : Bytes)
    → Differ s1 s2 n
    → n < fuel
    → strcmp fuel s1 s2 ≡ some (pos (s1 n) -ℤ pos (s2 n))
unfolding strcmp
strcmp-Differ n fuel s1 s2 d lt = strcmp_loop-Differ fuel 0 n s1 s2 d (omega arith) (omega arith)
