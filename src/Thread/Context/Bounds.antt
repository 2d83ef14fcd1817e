-- ===== src/Thread/Context/Bounds.antt =====
-- Where system/platforms/arm-rpi/setupStack.c writes.
use xinu.Base.{ℕ, ◌+◌, ◌-◌, ◌*◌, ◌%◌, ◌≤◌, ◌<◌, ◌≡◌, ◌⊎◌, inr, ◌∙◌, ℤ, pos, List, length, arith}
use xinu.Memory.{u32}
use xinu.Thread.Context.{
  Fpu, Words, fpu_words, put_fpu, put_args, take, drop, context_at, context_words, max_reg_args,
  setup_stack,
}
use xinu.Thread.Context.Words.{
  Outside, put_args-Outside, put_zeros-Outside, put_zeros-zero, put_fpu-Outside,
}
use xinu.Thread.Context.Layout.{placed, context_at-Placed, length-take, length-drop}

-- The words that `setupStack` may write in either build, from the stack pointer that it answers on.
abbrev pub written_words : Fpu → ℕ → ℕ
written_words fpu nargs = context_words + 2 * fpu_words fpu + (nargs - max_reg_args)

pub setup_stack-Outside :
    (fpu : Fpu) (stackaddr : ℕ) (procaddr retaddr : ℤ) (args : List ℤ) (w : Words) (a : ℕ)
    → Outside (context_at fpu stackaddr (length args)) 0 (written_words fpu (length args)) a
    → (setup_stack fpu stackaddr procaddr retaddr args w).1 a ≡ w a
unfolding setup_stack
setup_stack-Outside fpu stackaddr procaddr retaddr args w a out =
    let n = fpu_words fpu in
    let saddr = context_at fpu stackaddr (length args) in
    let many = length-drop args in
    let few = length-take args in
    put_args-Outside saddr (context_words + n) (drop max_reg_args args)
      (placed fpu saddr procaddr retaddr args w) a (ground (arith, out, many))
    ∙ ground (arith, out)
    ∙ put_zeros-Outside saddr (length (take max_reg_args args) + n)
        (context_words + n - 3 - length (take max_reg_args args))
        (put_args saddr n (take max_reg_args args) (put_fpu fpu saddr w)) a
        (ground (arith, out, few))
    ∙ put_args-Outside saddr n (take max_reg_args args) (put_fpu fpu saddr w) a
        (ground (arith, out, few))
    ∙ put_fpu-Outside fpu saddr w a (ground (arith, out))

-- In a build without floating point `setupStack` writes between the stack pointer that it answers
-- and the word that was passed, and nowhere else.
pub setup_stack-bounded :
    (stackaddr : ℕ) (procaddr retaddr : ℤ) (args : List ℤ) (w : Words) (a : ℕ)
    → stackaddr % 4 ≡ 0
    → stackaddr < u32
    → 4 * (context_words + 1 + (length args - max_reg_args)) ≤ stackaddr
    → (a < (setup_stack Fpu.soft stackaddr procaddr retaddr args w).0) ⊎ (stackaddr ≤ a)
    → (setup_stack Fpu.soft stackaddr procaddr retaddr args w).1 a ≡ w a
unfolding setup_stack put_fpu
setup_stack-bounded stackaddr procaddr retaddr args w a al lt room out =
    let saddr = context_at Fpu.soft stackaddr (length args) in
    let p = context_at-Placed Fpu.soft stackaddr (length args) al lt room in
    let many = length-drop args in
    let few = length-take args in
    put_args-Outside saddr 15 (drop max_reg_args args)
      (placed Fpu.soft saddr procaddr retaddr args w) a (ground (arith, out, p.below, many))
    ∙ ground (arith, out, p.below)
    ∙ put_zeros-Outside saddr (length (take max_reg_args args) + 0)
        (12 - length (take max_reg_args args)) (put_args saddr 0 (take max_reg_args args) w) a
        (ground (arith, out, p.below, few))
    ∙ put_args-Outside saddr 0 (take max_reg_args args) w a (ground (arith, out, p.below, few))

-- In a build with hard floats `setupStack`, given at most four arguments and the last word of a
-- stack that ends at a multiple of eight, sets the 29 words behind the end of the stack to 0.
pub setup_stack_overrun :
    (fpexc fpscr : ℤ) (stackaddr : ℕ) (procaddr retaddr : ℤ) (args : List ℤ) (w : Words) (j : ℕ)
    → stackaddr % 8 ≡ 4
    → stackaddr < u32
    → 200 ≤ stackaddr
    → length args ≤ max_reg_args
    → 1 ≤ j
    → j ≤ 29
    → (setup_stack (Fpu.hard fpexc fpscr) stackaddr procaddr retaddr args w).1 (stackaddr + 4 * j)
      ≡ pos 0
unfolding setup_stack
setup_stack_overrun fpexc fpscr stackaddr procaddr retaddr args w j al lt room few low high =
    let fpu = Fpu.hard fpexc fpscr in
    let saddr = context_at fpu stackaddr (length args) in
    let p =
      context_at-Placed fpu stackaddr (length args) (omega (arith, al)) lt
        (omega (arith, few, room)) in
    let at : stackaddr + 4 * j ≡ saddr + 4 * (50 + j) =
      omega (arith, al, few, p.aligned, p.below, p.close) in
    let none_left : length (drop max_reg_args args) ≡ 0 = omega (arith, length-drop args, few) in
    let regs = length-take args in
    rw at (
      put_args-Outside saddr 49 (drop max_reg_args args) (placed fpu saddr procaddr retaddr args w)
        (saddr + 4 * (50 + j)) (inr (omega (arith, none_left)))
      ∙ ground arith
      ∙ put_zeros-zero saddr (length (take max_reg_args args) + 34)
          (46 - length (take max_reg_args args))
          (put_args saddr 34 (take max_reg_args args) (put_fpu fpu saddr w)) (50 + j)
          (omega (arith, regs)) (omega (arith, regs, high)))
