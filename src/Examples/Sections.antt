-- ===== src/Examples/Sections.antt =====
-- A critical section inside of another one.
use xinu.Base.{◌≡◌, refl, true, false, some, [], ◌∷◌}
use xinu.Critical.{Cpu, masked, is_masked}
use xinu.Critical.Nested.{Code, Machine, run, section-masked}

-- System mode with interrupts on.
abbrev system_mode : Cpu
system_mode = record { cpsr = 0x5F; in_crit = true; intmask = 0 }

-- A section inside of a section, and another one behind.
abbrev behind : Code
behind = Code.section (Code.work Code.done) (Code.work Code.done)

abbrev nested : Code
nested = Code.section (Code.work (Code.section (Code.work Code.done) (Code.work Code.done))) behind

section-masked_example :
    (m' : Machine) × (run false nested (record { cpu = system_mode; seen = [] }) ≡ some m')
    × (m'.cpu.cpsr ≡ masked 0x5F)
    × (is_masked (masked 0x5F) ≡ true)
    × (m'.seen ≡ true ∷ true ∷ true ∷ true ∷ [])
section-masked_example = section-masked nested (record { cpu = system_mode; seen = [] }) refl
