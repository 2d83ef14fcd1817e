-- ===== src/Critical/Nested.antt =====
-- Critical sections inside of critical sections.
use xinu.Base.{
  ℕ, ◌+◌, ◌-◌, ◌%◌, ◌≡◌, refl, ap, ◌∙◌, Bool, true, false, ◌||◌, List, ◌∷◌, if◌then◌else◌, Option,
  none, some, arith,
}
use xinu.Critical.{Cpu, is_masked, masked, disable, restore, enter, leave}

-- What a thread runs: its own code, seen at each place of `work`, and its critical sections, each
-- with what is inside, and what follows.
pub data Code : Type 0 where
  done : Code
  work : Code → Code
  section : Code → Code → Code

-- The processor, and what the thread's own code saw inside of sections: whether interrupts were off,
-- the last first.
pub record Machine : Type 0 where
  pub cpu : Cpu
  pub seen : List Bool

abbrev pub then_run : {A : Type 0} → Option A → (A → Option Machine) → Option Machine
then_run none f = none
then_run (some c) f = f c

abbrev looked : Bool → Machine → Machine
looked inside m = if inside then record m { seen = is_masked m.cpu.cpsr ∷ m.seen } else m

-- The code of a thread that is inside of a section or not.
unfoldable pub run : Bool → Code → Machine → Option Machine
run inside Code.done m = some m
run inside (Code.work rest) m = run inside rest (looked inside m)
run inside (Code.section body rest) m = then_run (enter m.cpu) (λ c1.
    then_run (run true body (record m { cpu = c1 }))
      (λ m2. then_run (leave m2.cpu) (λ c3. run inside rest (record m2 { cpu = c3 }))))

-- Whether there is a section in the code, and whether there is one inside of another.
abbrev pub has_section : Code → Bool
has_section Code.done = false
has_section (Code.work rest) = has_section rest
has_section (Code.section body rest) = true

abbrev pub nests : Code → Bool
nests Code.done = false
nests (Code.work rest) = nests rest
nests (Code.section body rest) = has_section body || nests rest

-- What the code sees when interrupts are off at every place inside of a section.
abbrev pub all_off : Bool → Code → List Bool → List Bool
all_off inside Code.done seen = seen
all_off inside (Code.work rest) seen = all_off inside rest (if inside then true ∷ seen else seen)
all_off inside (Code.section body rest) seen = all_off inside rest (all_off true body seen)

abbrev entered : Cpu → Cpu
entered c = record c { cpsr = masked c.cpsr; intmask = c.cpsr; in_crit = true }

enter_run : (c : Cpu) → c.in_crit ≡ true → enter c ≡ some (entered c)
unfolding enter disable
enter_run c crit = rw crit refl

leave_run : (c : Cpu) → c.in_crit ≡ true → leave c ≡ some (restore c.intmask c)
unfolding leave
leave_run c crit = rw crit refl

-- The processor when a section ends.
abbrev left : Machine → Machine
left m = record m { cpu = restore m.cpu.intmask m.cpu }

section_run :
    (inside : Bool) (body rest : Code) (m m2 : Machine)
    → m.cpu.in_crit ≡ true
    → run true body (record m { cpu = entered m.cpu }) ≡ some m2
    → m2.cpu.in_crit ≡ true
    → run inside (Code.section body rest) m ≡ run inside rest (left m2)
unfolding run
section_run inside body rest m m2 crit ran crit2 =
    rw (enter_run m.cpu crit, ran, leave_run m2.cpu crit2) refl

restored : (a : ℕ) → a - a % 256 + a % 256 ≡ a
restored a = omega arith

either : (b : Bool) (a : ℕ) → (if b then a else a) ≡ a
either true a = refl
either false a = refl

-- A run from a state with interrupts off leaves them off.
run-masked :
    (inside : Bool) (code : Code) (m : Machine)
    → m.cpu.in_crit ≡ true
    → is_masked m.cpu.cpsr ≡ true
    → (m' : Machine) × (run inside code m ≡ some m')
      × (m'.cpu.cpsr ≡ m.cpu.cpsr)
      × (m'.cpu.in_crit ≡ true)
      × (m'.cpu.intmask ≡ (if has_section code then m.cpu.cpsr else m.cpu.intmask))
      × (m'.seen ≡ all_off inside code m.seen)
unfolding run masked restore
run-masked inside Code.done m crit off = (m, refl, refl, crit, refl, refl)
run-masked true (Code.work rest) m crit off =
    let (m', ran, cpsr, crit', mask, seen) = run-masked true rest (looked true m) crit off in
    (m', ran, cpsr, crit', mask, seen ∙ ap (λ b. all_off true rest (b ∷ m.seen)) off)
run-masked false (Code.work rest) m crit off = run-masked false rest m crit off
run-masked inside (Code.section body rest) m crit off =
    let still : masked m.cpu.cpsr ≡ m.cpu.cpsr = rw off refl in
    let (m2, ran, cpsr2, crit2, mask2, seen2) =
      run-masked true body (record m { cpu = entered m.cpu }) refl (rw still off) in
    let mask : m2.cpu.intmask ≡ m.cpu.cpsr =
      mask2
      ∙ ap (λ a. if has_section body then a else m.cpu.cpsr) still
      ∙ either (has_section body) m.cpu.cpsr in
    let back : (left m2).cpu.cpsr ≡ m.cpu.cpsr = rw (cpsr2, mask, still) (restored m.cpu.cpsr) in
    let (m4, ran4, cpsr4, crit4, mask4, seen4) =
      run-masked inside rest (left m2) crit2 (rw back off) in
    (
      m4,
      section_run inside body rest m m2 crit ran crit2 ∙ ran4,
      cpsr4 ∙ back,
      crit4,
      mask4
          ∙ ap (λ a. if has_section rest then a else m2.cpu.intmask) back
          ∙ ap (λ a. if has_section rest then m.cpu.cpsr else a) mask
          ∙ either (has_section rest) m.cpu.cpsr,
      seen4 ∙ ap (all_off inside rest) seen2,
    )

after :
    (b : Bool) (a : ℕ)
    → masked a - masked a % 256 + (if b then masked a else a) % 256 ≡ (if b then masked a else a)
unfolding masked
after true a = restored (masked a)
after false a = ground arith

masked-is_masked : (a : ℕ) → is_masked (masked a) ≡ true
unfolding masked
masked-is_masked a = ground arith

masked-masked : (a : ℕ) → masked (masked a) ≡ masked a
unfolding masked
masked-masked a = ground arith

-- The mask after a section with sections inside or none, and code that nests or not behind it.
outcome :
    (b r : Bool) (a d : ℕ)
    → d ≡ (if b then masked a else a)
    → (if r then masked d else d) ≡ (if b || r then masked a else a)
outcome true r a d e =
    let twice : masked (masked a) ≡ masked a = masked-masked a in
    rw e (ap (λ v. if r then v else masked a) twice ∙ either r (masked a))
outcome false r a d e = rw e refl

-- The code of a thread that starts outside of its critical sections, with `in_crit` as at the start
-- of the system, runs to its end without a complaint. Interrupts are off at every place of its own
-- code that is inside of a section. At the end they are as they were at the start if no section was
-- inside of another one; once there was one they are off, whatever sections come behind.
pub section-masked :
    (code : Code) (m : Machine)
    → m.cpu.in_crit ≡ true
    → (m' : Machine) × (run false code m ≡ some m')
      × (m'.cpu.cpsr ≡ (if nests code then masked m.cpu.cpsr else m.cpu.cpsr))
      × (is_masked (masked m.cpu.cpsr) ≡ true)
      × (m'.seen ≡ all_off false code m.seen)
unfolding run restore
section-masked Code.done m crit = (m, refl, refl, masked-is_masked m.cpu.cpsr, refl)
section-masked (Code.work rest) m crit = section-masked rest m crit
section-masked (Code.section body rest) m crit =
    let off = masked-is_masked m.cpu.cpsr in
    let (m2, ran, cpsr2, crit2, mask2, seen2) =
      run-masked true body (record m { cpu = entered m.cpu }) refl off in
    let back : (left m2).cpu.cpsr ≡ (if has_section body then masked m.cpu.cpsr else m.cpu.cpsr) =
      rw (cpsr2, mask2) (after (has_section body) m.cpu.cpsr) in
    let (m4, ran4, cpsr4, _, seen4) = section-masked rest (left m2) crit2 in
    (
      m4,
      section_run false body rest m m2 crit ran crit2 ∙ ran4,
      cpsr4 ∙ outcome (has_section body) (nests rest) m.cpu.cpsr _ back,
      off,
      seen4 ∙ ap (all_off false rest) seen2,
    )
