-- ===== src/Thread/Context/Words.antt =====
-- What the writes of system/platforms/arm-rpi/setupStack.c leave in the words of a stack.
use xinu.Base.{
  ℕ, zero, suc, ◌+◌, ◌*◌, ◌≤◌, ◌<◌, ◌≡◌, ◌⊎◌, inl, inr, refl, ◌∙◌, ℤ, pos, List, [], ◌∷◌, ◌==◌,
  length, arith, Bool-cases,
}
use xinu.Thread.Context.{Fpu, Words, put_word, put_fpu, put_args, put_zeros, fpu_words}

-- The `n` words from index `i` on.
abbrev pub words_at : Words → ℕ → ℕ → ℕ → List ℤ
words_at w saddr i zero = []
words_at w saddr i (suc n) = w (saddr + 4 * i) ∷ words_at w saddr (suc i) n

-- An address that is no word of index `i … i + n - 1`.
abbrev pub Outside : ℕ → ℕ → ℕ → ℕ → Type 0
Outside saddr i n a = (a < saddr + 4 * i) ⊎ (saddr + 4 * (i + n) ≤ a)

pub put_args-Outside :
    (saddr i : ℕ) (args : List ℤ) (w : Words) (a : ℕ)
    → Outside saddr i (length args) a
    → put_args saddr i args w a ≡ w a
unfolding put_args
put_args-Outside saddr i [] w a out = refl
put_args-Outside saddr i (arg ∷ args) w a out =
    put_args-Outside saddr (suc i) args (put_word saddr i arg w) a (ground (arith, out))
    ∙ ground (arith, out)

pub put_zeros-Outside :
    (saddr i left : ℕ) (w : Words) (a : ℕ)
    → Outside saddr i left a
    → put_zeros saddr i left w a ≡ w a
unfolding put_zeros
put_zeros-Outside saddr i zero w a out = refl
put_zeros-Outside saddr i (suc left) w a out =
    put_zeros-Outside saddr (suc i) left (put_word saddr i (pos 0) w) a (ground (arith, out))
    ∙ ground (arith, out)

pub put_zeros-zero :
    (saddr i left : ℕ) (w : Words) (j : ℕ)
    → i ≤ j
    → j < i + left
    → put_zeros saddr i left w (saddr + 4 * j) ≡ pos 0
unfolding put_zeros
put_zeros-zero saddr i zero w j h lt = absurd (omega arith)
put_zeros-zero saddr i (suc left) w j h lt = elim (Bool-cases (i == j)) [
  | inl same ↦
      put_zeros-Outside saddr (suc i) left (put_word saddr i (pos 0) w) (saddr + 4 * j)
        (inl (ground arith))
      ∙ ground arith
  | inr other ↦
      put_zeros-zero saddr (suc i) left (put_word saddr i (pos 0) w) j (ground arith) (omega arith)
]

pub words_at-same :
    (w w' : Words) (saddr i n : ℕ)
    → ((j : ℕ) → i ≤ j → j < i + n → w' (saddr + 4 * j) ≡ w (saddr + 4 * j))
    → words_at w' saddr i n ≡ words_at w saddr i n
words_at-same w w' saddr i zero same = refl
words_at-same w w' saddr i (suc n) same =
    rw
      (
        same i (omega arith) (omega arith),
        words_at-same w w' saddr (suc i) n (λ j h lt. same j (omega arith) (omega arith)),
      )
      refl

pub words_at-put_args :
    (saddr i : ℕ) (args : List ℤ) (w : Words)
    → words_at (put_args saddr i args w) saddr i (length args) ≡ args
unfolding put_args
words_at-put_args saddr i [] w = refl
words_at-put_args saddr i (arg ∷ args) w =
    let first : put_args saddr (suc i) args (put_word saddr i arg w) (saddr + 4 * i) ≡ arg =
      put_args-Outside saddr (suc i) args (put_word saddr i arg w) (saddr + 4 * i)
        (inl (omega arith))
      ∙ ground arith in
    rw (first, words_at-put_args saddr (suc i) args (put_word saddr i arg w)) refl

pub put_fpu-Outside :
    (fpu : Fpu) (saddr : ℕ) (w : Words) (a : ℕ)
    → Outside saddr 0 (fpu_words fpu) a
    → put_fpu fpu saddr w a ≡ w a
unfolding put_fpu
put_fpu-Outside Fpu.soft saddr w a out = refl
put_fpu-Outside (Fpu.hard fpexc fpscr) saddr w a out = ground (arith, out)
