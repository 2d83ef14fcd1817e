-- ===== src/Thread/Create/Search.antt =====
-- The search for a free entry in `thrnew` of system/create.c.
use xinu.Base.{
  ℕ, zero, suc, ◌+◌, ◌-◌, ◌*◌, ◌%◌, ◌<◌, ◌≡◌, ◌⊎◌, inl, inr, refl, ap, ◌∙◌, pos, Bool, true, false,
  arith, Bool-cases, if◌then◌else◌,
}
use xinu.Kernel.{nthread, syserr, Kernel, ok, is_free}
use xinu.Thread.Create.{thrnew_loop}
use xinu.Thread.Scheduled.{thrent_in}

-- The entry that is looked at after `i` others.
abbrev pub candidate : Kernel → ℕ → ℕ
candidate k i = (k.nexttid + suc i) % nthread

abbrev pub vacant : Kernel → ℕ → Bool
vacant k i = is_free (k.thrtab (candidate k i)).state

-- The first index at which a test holds.
pub first_true :
    (f : ℕ → Bool) (n : ℕ)
    → ((i : ℕ) × (i < n) × (f i ≡ true) × ((j : ℕ) → j < i → f j ≡ false))
      ⊎ ((j : ℕ) → j < n → f j ≡ false)
first_true f zero = inr (λ j h. absurd (omega arith))
first_true f (suc n) = elim (first_true f n) [
  | inl (i, lt, holds, before) ↦ inl (i, omega arith, holds, before)
  | inr none_yet ↦ elim (Bool-cases (f n)) [
    | inl holds ↦ inl (n, omega arith, holds, none_yet)
    | inr not_here ↦ inr (λ j h. ground (arith, none_yet j, not_here))
  ]
]

-- The table with the turn at another entry.
abbrev pub turned : Kernel → ℕ → Kernel
turned k tid = record k { nexttid = tid }

next_candidate : (k : Kernel) (i : ℕ) → candidate (turned k (candidate k 0)) i ≡ candidate k (suc i)
next_candidate k i = omega arith

below : (n : ℕ) → n % nthread < nthread
below n = omega arith

step :
    (left : ℕ) (k : Kernel)
    → thrnew_loop (suc left) k ≡ (
        if vacant k 0
        then ok (pos (candidate k 0)) (turned k (candidate k 0))
        else thrnew_loop left (turned k (candidate k 0)))
unfolding thrnew_loop
step left k = elim (Bool-cases (vacant k 0)) [
  | inl here ↦ rw (thrent_in (candidate k 0) (below (k.nexttid + 1)), here) refl
  | inr away ↦ rw (thrent_in (candidate k 0) (below (k.nexttid + 1)), away) refl
]

later : (k : Kernel) (i : ℕ) → vacant (turned k (candidate k 0)) i ≡ vacant k (suc i)
later k i = ap (λ c. is_free (k.thrtab c).state) (next_candidate k i)

pub thrnew_loop_found :
    (left : ℕ) (k : Kernel) (i : ℕ)
    → i < left
    → vacant k i ≡ true
    → ((j : ℕ) → j < i → vacant k j ≡ false)
    → thrnew_loop left k ≡ ok (pos (candidate k i)) (turned k (candidate k i))
thrnew_loop_found zero k i lt here before = absurd (omega arith)
thrnew_loop_found (suc left) k zero lt here before = step left k ∙ rw here refl
thrnew_loop_found (suc left) k (suc i) lt here before =
    step left k
    ∙ rw (before 0 (omega arith)) refl
    ∙ thrnew_loop_found left (turned k (candidate k 0)) i (omega arith) (later k i ∙ here)
        (λ j h. later k j ∙ before (suc j) (omega arith))
    ∙ ap (λ c. ok (pos c) (turned k c)) (next_candidate k i)

pub thrnew_loop_full :
    (left : ℕ) (k : Kernel)
    → ((j : ℕ) → j < left → vacant k j ≡ false)
    → (t : ℕ) × (thrnew_loop left k ≡ ok syserr (turned k t))
unfolding thrnew_loop
thrnew_loop_full zero k none_free = (k.nexttid, refl)
thrnew_loop_full (suc left) k none_free =
    let (t, e) =
      thrnew_loop_full left (turned k (candidate k 0))
        (λ j h. later k j ∙ none_free (suc j) (omega arith)) in
    (t, step left k ∙ rw (none_free 0 (omega arith)) refl ∙ e)

-- Every entry has its turn within NTHREAD.
pub turn_of : (k : Kernel) (x : ℕ) → x < nthread → (i : ℕ) × (i < nthread) × (candidate k i ≡ x)
turn_of k x lt =
    ((x + 2 * nthread - 1 - k.nexttid % nthread) % nthread, omega arith, omega (arith, lt))
