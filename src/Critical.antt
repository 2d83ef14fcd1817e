-- ===== src/Critical.antt =====
-- Critical sections: system/platforms/arm-rpi/CriticalSection.c, with `disable` and `restore` of
-- system/platforms/arm-rpi/intutils.S.
pub mod Nested
use xinu.Base.{
  ℕ, ◌+◌, ◌-◌, ◌*◌, ◌/◌, ◌%◌, Bool, true, false, not, ◌==◌, if◌then◌else◌, Option, none, some,
}

-- The status register of the processor, and the two variables of CriticalSection.c.
pub record Cpu : Type 0 where
  pub cpsr : ℕ
  pub in_crit : Bool
  pub intmask : ℕ

-- Whether the I bit, bit 7 of the status register, is set.
abbrev pub is_masked : ℕ → Bool
is_masked cpsr = cpsr / 128 % 2 == 1

-- `cpsid i`
unfoldable pub masked : ℕ → ℕ
masked cpsr = if is_masked cpsr then cpsr else cpsr + 128

unfoldable pub disable : Cpu → ℕ × Cpu
disable c = (c.cpsr, record c { cpsr = masked c.cpsr })

-- `msr cpsr_c` writes the control bits, the low byte.
unfoldable pub restore : ℕ → Cpu → Cpu
restore mask c = record c { cpsr = c.cpsr - c.cpsr % 256 + mask % 256 }

-- `none` is the endless loop after the complaint.
unfoldable pub enter : Cpu → Option Cpu
enter c =
    if not c.in_crit
    then none
    else let (mask, c1) = disable c in some (record c1 { intmask = mask; in_crit = true })

unfoldable pub leave : Cpu → Option Cpu
leave c = if not c.in_crit then none else some (restore c.intmask c)
