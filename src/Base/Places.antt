-- ===== src/Base/Places.antt =====
-- Places in a list of indices: the entries beside one, and what an insertion or a removal keeps.
use mathlib.Core.Path.{◌≡◌, refl, ap, subst}
use mathlib.Core.Logic.{inl, inr}
use mathlib.Core.Bool.{true, false, false≢true}
use mathlib.Core.List.{List, [], ◌∷◌, ◌++◌}
use Prim.Native.Nat.{ℕ, zero, suc, ◌≤◌, ◌<◌}
use native.Mathlib.Omega.{arith}
use xinu.Base.Lists.{All, has, has-append, Uniq, length, length-append}
use xinu.Base.Tests.{◌==◌, Bool-cases}

-- The last of `x ∷ xs`, and the first of `xs` with `d` behind it.
abbrev pub last_of : ℕ → List ℕ → ℕ
last_of x [] = x
last_of x (y ∷ xs) = last_of y xs

abbrev pub first_of : List ℕ → ℕ → ℕ
first_of [] d = d
first_of (x ∷ xs) d = x

abbrev pub rest_of : List ℕ → ℕ → List ℕ
rest_of [] d = []
rest_of (x ∷ xs) d = xs ++ d ∷ []

abbrev pub front_of : ℕ → List ℕ → List ℕ
front_of x [] = []
front_of x (y ∷ xs) = x ∷ front_of y xs

pub front-last : (x : ℕ) (xs ys : List ℕ) → front_of x xs ++ last_of x xs ∷ ys ≡ x ∷ xs ++ ys
front-last x [] ys = refl
front-last x (y ∷ xs) ys = ap (◌∷◌ x) (front-last y xs ys)

pub first-rest : (xs : List ℕ) (d : ℕ) → xs ++ d ∷ [] ≡ first_of xs d ∷ rest_of xs d
first-rest [] d = refl
first-rest (x ∷ xs) d = refl

pub Uniq-snoc : (xs : List ℕ) (d : ℕ) → Uniq xs → has d xs ≡ false → Uniq (xs ++ d ∷ [])
Uniq-snoc [] d u h = (refl, tt)
Uniq-snoc (x ∷ xs) d u h =
    (ground (arith, has-append x xs (d ∷ [])), Uniq-snoc xs d u.1 (ground arith))

pub Uniq-insert :
    (xs ys : List ℕ) (t : ℕ) → Uniq (xs ++ ys) → has t (xs ++ ys) ≡ false → Uniq (xs ++ t ∷ ys)
Uniq-insert [] ys t u h = (h, u)
Uniq-insert (x ∷ xs) ys t u h = (
  ground (arith, has-append x xs (t ∷ ys), has-append x xs ys),
  Uniq-insert xs ys t u.1 (ground arith),
)

pub Uniq-remove : (xs ys : List ℕ) (t : ℕ) → Uniq (xs ++ t ∷ ys) → Uniq (xs ++ ys)
Uniq-remove [] ys t u = u.1
Uniq-remove (x ∷ xs) ys t u =
    (ground (arith, has-append x xs (t ∷ ys), has-append x xs ys), Uniq-remove xs ys t u.1)

pub All-remove {ℓ} :
    (P : ℕ → Type ℓ) (xs ys : List ℕ) (t : ℕ) → All P (xs ++ t ∷ ys) → All P (xs ++ ys)
All-remove P [] ys t a = a.1
All-remove P (x ∷ xs) ys t a = (a.0, All-remove P xs ys t a.1)

pub All-insert {ℓ} :
    (P : ℕ → Type ℓ) (xs ys : List ℕ) (t : ℕ) → All P (xs ++ ys) → P t → All P (xs ++ t ∷ ys)
All-insert P [] ys t a h = (h, a)
All-insert P (x ∷ xs) ys t a h = (a.0, All-insert P xs ys t a.1 h)

pub has-last_of : (q : ℕ) (xs : List ℕ) → has (last_of q xs) (q ∷ xs) ≡ true
has-last_of q [] = ground arith
has-last_of q (x ∷ xs) = ground (arith, has-last_of x xs)

pub has-first_of : (xs : List ℕ) (d : ℕ) → has (first_of xs d) (xs ++ d ∷ []) ≡ true
has-first_of [] d = ground arith
has-first_of (x ∷ xs) d = ground arith

pub All-last_of : (n q : ℕ) (xs : List ℕ) → q < n → All (λ x. x < n) xs → last_of q xs < n
All-last_of n q [] h a = h
All-last_of n q (x ∷ xs) h a = All-last_of n x xs a.0 a.1

pub last_of-snoc : (q t : ℕ) (xs : List ℕ) → last_of q (xs ++ t ∷ []) ≡ t
last_of-snoc q t [] = refl
last_of-snoc q t (x ∷ xs) = last_of-snoc x t xs

pub has-split :
    (a : ℕ) (xs : List ℕ) → has a xs ≡ true → (ys : List ℕ) × (zs : List ℕ) × (xs ≡ ys ++ a ∷ zs)
has-split a [] h = absurd (false≢true h)
has-split a (x ∷ xs) h = elim (Bool-cases (a == x)) [
  | inl hit ↦ ([], xs, ground arith)
  | inr miss ↦ let (ys, zs, e) = has-split a xs (ground arith) in (x ∷ ys, zs, ap (◌∷◌ x) e)
]

All-lt_of_not_has :
    (n : ℕ) (xs : List ℕ) → All (λ x. x < suc n) xs → has n xs ≡ false → All (λ x. x < n) xs
All-lt_of_not_has n [] a h = tt
All-lt_of_not_has n (x ∷ xs) a h = (ground arith, All-lt_of_not_has n xs a.1 (ground arith))

pub Uniq-not_has : (t : ℕ) (xs ys : List ℕ) → Uniq (xs ++ t ∷ ys) → has t (xs ++ ys) ≡ false
Uniq-not_has t [] ys u = u.0
Uniq-not_has t (x ∷ xs) ys u = ground (arith, Uniq-not_has t xs ys u.1, has-append x xs (t ∷ ys))

-- Numbers below `n` without repetition are at most `n`.
pub length-le_of_Uniq : (n : ℕ) (xs : List ℕ) → Uniq xs → All (λ x. x < n) xs → length xs ≤ n
length-le_of_Uniq zero [] u a = omega arith
length-le_of_Uniq zero (x ∷ xs) u a = absurd (omega (arith, a.0))
length-le_of_Uniq (suc n) xs u a = elim (Bool-cases (has n xs)) [
  | inl hit ↦
      let (ys, zs, e) = has-split n xs hit in
      let u' : Uniq (ys ++ n ∷ zs) = subst Uniq e u in
      let a' : All (λ x. x < suc n) (ys ++ n ∷ zs) = subst (All (λ x. x < suc n)) e a in
      let rest =
        length-le_of_Uniq n (ys ++ zs) (Uniq-remove ys zs n u')
          (All-lt_of_not_has n (ys ++ zs) (All-remove _ ys zs n a') (Uniq-not_has n ys zs u')) in
      omega (arith, ap length e, length-append ys (n ∷ zs), length-append ys zs, rest)
  | inr miss ↦ omega (arith, length-le_of_Uniq n xs u (All-lt_of_not_has n xs a miss))
]
