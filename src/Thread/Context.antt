-- ===== src/Thread/Context.antt =====
-- The first context of a thread: system/platforms/arm-rpi/setupStack.c.
pub mod Bounds
pub mod Layout
pub mod Words
use xinu.Base.{
  ℕ, zero, suc, ◌+◌, ◌-◌, ◌*◌, ◌/◌, ◌%◌, ℤ, pos, Bool, List, [], ◌∷◌, ltb, ◌==◌, if◌then◌else◌,
  length,
}
use xinu.Kernel.{update}
use xinu.Memory.{u32}

-- The processor's floating point: none, or what `get_fpexc` and `get_fpscr` of start.S answer in a
-- build with hard floats (__ARM_FP == 12).
pub data Fpu : Type 0 where
  soft : Fpu
  hard : ℤ → ℤ → Fpu

-- FPU_WORDS, CONTEXT_WORDS and MAX_REG_ARGS
abbrev pub fpu_words : Fpu → ℕ
fpu_words Fpu.soft = 0
fpu_words (Fpu.hard fpexc fpscr) = 34

abbrev pub context_words : ℕ
context_words = 15

abbrev pub max_reg_args : ℕ
max_reg_args = 4

-- ARM_MODE_SYS | ARM_F_BIT
abbrev pub start_mode : ℤ
start_mode = pos 0x5F

abbrev pub Words : Type 0
Words = ℕ → ℤ

-- `saddr[i] = v`
abbrev pub put_word : ℕ → ℕ → ℤ → Words → Words
put_word saddr i v w = update w (saddr + 4 * i) v

-- A pointer to words less `n`.
abbrev pub back : ℕ → ℕ → ℕ
back saddr n = (saddr + u32 - 4 * n) % u32

unfoldable pub put_fpu : Fpu → ℕ → Words → Words
put_fpu Fpu.soft saddr w = w
put_fpu (Fpu.hard fpexc fpscr) saddr w = put_word saddr 1 fpscr (put_word saddr 0 fpexc w)

-- The words from index `i` on take the arguments.
unfoldable pub put_args : ℕ → ℕ → List ℤ → Words → Words
put_args saddr i [] w = w
put_args saddr i (arg ∷ args) w = put_args saddr (suc i) args (put_word saddr i arg w)

-- `left` words from index `i` on become 0.
unfoldable pub put_zeros : ℕ → ℕ → ℕ → Words → Words
put_zeros saddr i zero w = w
put_zeros saddr i (suc left) w = put_zeros saddr (suc i) left (put_word saddr i (pos 0) w)

-- The arguments in registers, and those that do not fit there.
abbrev pub take {ℓ} : {A : Type ℓ} → ℕ → List A → List A
take zero xs = []
take (suc n) [] = []
take (suc n) (x ∷ xs) = x ∷ take n xs

abbrev pub drop {ℓ} : {A : Type ℓ} → ℕ → List A → List A
drop zero xs = xs
drop (suc n) [] = []
drop (suc n) (x ∷ xs) = drop n xs

-- The address of the context: below the arguments on the stack, with an end that is aligned to
-- eight bytes.
unfoldable pub context_at : Fpu → ℕ → ℕ → ℕ
context_at fpu stackaddr nargs =
    let saddr : ℕ = back stackaddr (nargs - max_reg_args) in
    let saddr' : ℕ = if saddr / 4 % 2 == 1 then back saddr 1 else saddr in
    back saddr' (context_words + fpu_words fpu)

-- The stack pointer of the thread, and the words of its stack.
unfoldable pub setup_stack : Fpu → ℕ → ℤ → ℤ → List ℤ → Words → ℕ × Words
setup_stack fpu stackaddr procaddr retaddr args w =
    let n : ℕ = fpu_words fpu in
    let saddr : ℕ = context_at fpu stackaddr (length args) in
    let regs : List ℤ = take max_reg_args args in
    let w1 : Words = put_args saddr n regs (put_fpu fpu saddr w) in
    let w2 : Words = put_zeros saddr (length regs + n) (context_words + n - 3 - length regs) w1 in
    let w3 : Words = put_word saddr (context_words + n - 3) start_mode w2 in
    let w4 : Words = put_word saddr (context_words + n - 2) retaddr w3 in
    let w5 : Words = put_word saddr (context_words + n - 1) procaddr w4 in
    (saddr, put_args saddr (context_words + n) (drop max_reg_args args) w5)
