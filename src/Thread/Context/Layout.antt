-- ===== src/Thread/Context/Layout.antt =====
-- The context that system/platforms/arm-rpi/setupStack.c builds, and what it writes besides.
use xinu.Base.{
  ℕ, ◌+◌, ◌-◌, ◌*◌, ◌/◌, ◌%◌, ◌≤◌, ◌<◌, ◌≡◌, inl, inr, refl, ◌∙◌, ℤ, true, false, List, [], ◌∷◌,
  ◌==◌, length, arith, Bool-cases,
}
use xinu.Memory.{u32}
use xinu.Thread.Context.{
  Fpu, Words, put_word, put_fpu, put_args, put_zeros, take, drop, back, context_at, context_words,
  fpu_words, max_reg_args, setup_stack, start_mode,
}
use xinu.Thread.Context.Words.{
  words_at, put_args-Outside, put_zeros-Outside, words_at-same, words_at-put_args,
}

pub length-take : (xs : List ℤ) → length (take max_reg_args xs) ≤ max_reg_args
length-take [] = omega arith
length-take (a ∷ []) = omega arith
length-take (a ∷ b ∷ []) = omega arith
length-take (a ∷ b ∷ c ∷ []) = omega arith
length-take (a ∷ b ∷ c ∷ d ∷ xs) = omega arith

pub length-drop : (xs : List ℤ) → length (drop max_reg_args xs) ≡ length xs - max_reg_args
length-drop [] = refl
length-drop (a ∷ []) = refl
length-drop (a ∷ b ∷ []) = refl
length-drop (a ∷ b ∷ c ∷ []) = refl
length-drop (a ∷ b ∷ c ∷ d ∷ xs) = omega arith

-- Where the context lies: it ends at a multiple of eight, the arguments on the stack fit between
-- its end and the word that was passed, and at most one word is skipped.
pub record Placed (saddr stackaddr size extra : ℕ) : Type 0 where
  pub aligned : (saddr + 4 * size) % 8 ≡ 0
  pub below : saddr + 4 * (size + extra) ≤ stackaddr
  pub close : stackaddr ≤ saddr + 4 * (size + extra) + 4

back-sub : (s n : ℕ) → s < u32 → 4 * n ≤ s → back s n ≡ s - 4 * n
back-sub s n lt room = omega arith

module _ (fpu : Fpu) (stackaddr nargs : ℕ) (al : stackaddr % 4 ≡ 0) (lt : stackaddr < u32)
    (room : 4 * (context_words + fpu_words fpu + 1 + (nargs - max_reg_args)) ≤ stackaddr) where
  abbrev top : ℕ
  top = stackaddr - 4 * (nargs - max_reg_args)

  at_top : back stackaddr (nargs - max_reg_args) ≡ top
  at_top = back-sub stackaddr (nargs - max_reg_args) lt (omega (arith, room))

  at_odd :
      (top / 4 % 2 == 1) ≡ true
      → context_at fpu stackaddr nargs ≡ top - 4 - 4 * (context_words + fpu_words fpu)
  unfolding context_at
  at_odd odd =
      rw (at_top, odd, back-sub top 1 (omega (arith, lt)) (omega (arith, room)))
        (back-sub (top - 4) (context_words + fpu_words fpu) (omega (arith, lt))
          (omega (arith, room)))

  at_even :
      (top / 4 % 2 == 1) ≡ false
      → context_at fpu stackaddr nargs ≡ top - 4 * (context_words + fpu_words fpu)
  unfolding context_at
  at_even even =
      rw (at_top, even)
        (back-sub top (context_words + fpu_words fpu) (omega (arith, lt)) (omega (arith, room)))

  pub context_at-Placed :
      Placed
        (context_at fpu stackaddr nargs)
        stackaddr
        (context_words + fpu_words fpu)
        (nargs - max_reg_args)
  context_at-Placed = elim (Bool-cases (top / 4 % 2 == 1)) [
    | inl odd ↦ rw (at_odd odd) (record {
      aligned = ground (arith, odd, al, room);
      below = omega (arith, room);
      close = omega (arith, room);
    })
    | inr even ↦ rw (at_even even) (record {
      aligned = ground (arith, even, al, room);
      below = omega (arith, room);
      close = omega (arith, room);
    })
  ]

-- What the context of a new thread holds: its arguments in registers and on the stack, the mode it
-- starts in, and where it returns to and starts.
pub record HasContext (fpu : Fpu) (procaddr retaddr : ℤ) (args : List ℤ) (saddr : ℕ) (w : Words)
    : Type 0 where
  pub regs :
      words_at w saddr (fpu_words fpu) (length (take max_reg_args args)) ≡ take max_reg_args args
  pub mode : w (saddr + 4 * (context_words + fpu_words fpu - 3)) ≡ start_mode
  pub lr : w (saddr + 4 * (context_words + fpu_words fpu - 2)) ≡ retaddr
  pub pc : w (saddr + 4 * (context_words + fpu_words fpu - 1)) ≡ procaddr
  pub spilled :
      words_at w saddr (context_words + fpu_words fpu) (length (drop max_reg_args args))
      ≡ drop max_reg_args args

module _ (fpu : Fpu) (saddr : ℕ) (procaddr retaddr : ℤ) (args : List ℤ) (w : Words) where
  abbrev size : ℕ
  size = context_words + fpu_words fpu

  abbrev regs : List ℤ
  regs = take max_reg_args args

  abbrev zeroed : Words
  zeroed =
      put_zeros saddr (length regs + fpu_words fpu) (size - 3 - length regs)
        (put_args saddr (fpu_words fpu) regs (put_fpu fpu saddr w))

  abbrev pub placed : Words
  placed =
      put_word saddr (size - 1) procaddr
        (put_word saddr (size - 2) retaddr (put_word saddr (size - 3) start_mode zeroed))

  abbrev pub built : Words
  built = put_args saddr size (drop max_reg_args args) placed

  inside : (j : ℕ) → j < size → built (saddr + 4 * j) ≡ placed (saddr + 4 * j)
  inside j lt =
      put_args-Outside saddr size (drop max_reg_args args) placed (saddr + 4 * j)
        (inl (omega arith))

  built-HasContext : HasContext fpu procaddr retaddr args saddr built
  built-HasContext =
      let few = length-take args in
      record {
        regs =
            words_at-same (put_args saddr (fpu_words fpu) regs (put_fpu fpu saddr w)) built saddr
              (fpu_words fpu) (length regs)
              (λ j h lt.
                inside j (omega arith)
                ∙ ground (arith, few)
                ∙ put_zeros-Outside saddr (length regs + fpu_words fpu) (size - 3 - length regs)
                    (put_args saddr (fpu_words fpu) regs (put_fpu fpu saddr w)) (saddr + 4 * j)
                    (inl (omega arith)))
            ∙ words_at-put_args saddr (fpu_words fpu) regs (put_fpu fpu saddr w);
        mode = inside (size - 3) (omega arith) ∙ ground arith;
        lr = inside (size - 2) (omega arith) ∙ ground arith;
        pc = inside (size - 1) (omega arith) ∙ ground arith;
        spilled = words_at-put_args saddr size (drop max_reg_args args) placed;
      }

setup_stack-built :
    (fpu : Fpu) (stackaddr : ℕ) (procaddr retaddr : ℤ) (args : List ℤ) (w : Words)
    → setup_stack fpu stackaddr procaddr retaddr args w ≡ (
      context_at fpu stackaddr (length args),
      built fpu (context_at fpu stackaddr (length args)) procaddr retaddr args w,
    )
unfolding setup_stack
setup_stack-built fpu stackaddr procaddr retaddr args w = refl

pub setup_stack_context :
    (fpu : Fpu) (stackaddr : ℕ) (procaddr retaddr : ℤ) (args : List ℤ) (w : Words)
    → HasContext fpu procaddr retaddr args
        (setup_stack fpu stackaddr procaddr retaddr args w).0
        (setup_stack fpu stackaddr procaddr retaddr args w).1
unfolding setup_stack
setup_stack_context fpu stackaddr procaddr retaddr args w =
    built-HasContext fpu (context_at fpu stackaddr (length args)) procaddr retaddr args w

-- The stack that `setupStack` prepares below a word whose address is a multiple of four, and that
-- has room for the context and the arguments: the context ends at a multiple of eight, at most one
-- word below the arguments on the stack, and holds the arguments, the mode, and the addresses to
-- return to and to start at.
pub setup_stack-HasContext :
    (fpu : Fpu) (stackaddr : ℕ) (procaddr retaddr : ℤ) (args : List ℤ) (w : Words)
    → stackaddr % 4 ≡ 0
    → stackaddr < u32
    → 4 * (context_words + fpu_words fpu + 1 + (length args - max_reg_args)) ≤ stackaddr
    → (saddr : ℕ) × (w' : Words) × (setup_stack fpu stackaddr procaddr retaddr args w ≡ (saddr, w'))
      × Placed saddr stackaddr (context_words + fpu_words fpu) (length args - max_reg_args)
      × HasContext fpu procaddr retaddr args saddr w'
setup_stack-HasContext fpu stackaddr procaddr retaddr args w al lt room =
    let saddr = context_at fpu stackaddr (length args) in
    (
      saddr,
      built fpu saddr procaddr retaddr args w,
      setup_stack-built fpu stackaddr procaddr retaddr args w,
      context_at-Placed fpu stackaddr (length args) al lt room,
      built-HasContext fpu saddr procaddr retaddr args w,
    )
