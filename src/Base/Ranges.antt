-- ===== src/Base/Ranges.antt =====
-- Lists of different numbers, and how many there are in a range.
use Prim.Native.Nat.{ℕ, zero, suc, ◌+◌, ◌≤◌, ◌<◌}
use mathlib.Core.Path.{◌≡◌, refl}
use mathlib.Core.Logic.{inl, inr}
use mathlib.Core.Bool.{false, not}
use mathlib.Core.List.{List, [], ◌∷◌}
use native.Mathlib.Omega.{arith}
use faethon_system.Base.Bools.{◌==◌, Bool-cases}
use faethon_system.Base.Lists.{All, contains, filter, length}

abbrev without : ℕ → List ℕ → List ℕ
without x xs = filter (λ y. not (y == x)) xs

abbrev pub Distinct : List ℕ → Type 0
Distinct [] = Unit
Distinct (x ∷ xs) = (contains x xs ≡ false) × Distinct xs

-- among the numbers from i on, so many
abbrev pub Within : ℕ → ℕ → List ℕ → Type 0
Within i n xs = All (λ x. (i ≤ x) × (x < i + n)) xs

without_absent : (x : ℕ) (xs : List ℕ) → contains x xs ≡ false → without x xs ≡ xs
without_absent x [] h = refl
without_absent x (y ∷ ys) h = ground (arith, without_absent x ys)

length-without : (x : ℕ) (xs : List ℕ) → Distinct xs → length xs ≤ length (without x xs) + 1
length-without x [] d = omega arith
length-without x (y ∷ ys) d = elim (Bool-cases (y == x)) [
  | inl e ↦
      let absent : contains x ys ≡ false = ground (arith, d.0) in
      rw (e, without_absent x ys absent) (omega arith)
  | inr e ↦ let rest = length-without x ys d.1 in rw e (omega arith)
]

contains-without :
    (z x : ℕ) (xs : List ℕ) → contains z xs ≡ false → contains z (without x xs) ≡ false
contains-without z x [] h = refl
contains-without z x (y ∷ ys) h = ground (arith, contains-without z x ys)

without-Distinct : (x : ℕ) (xs : List ℕ) → Distinct xs → Distinct (without x xs)
without-Distinct x [] d = tt
without-Distinct x (y ∷ ys) d = elim (Bool-cases (y == x)) [
  | inl e ↦ rw e (without-Distinct x ys d.1)
  | inr e ↦ rw e (contains-without y x ys d.0, without-Distinct x ys d.1)
]

without-Within : (i n : ℕ) (xs : List ℕ) → Within i (suc n) xs → Within (i + 1) n (without i xs)
without-Within i n [] w = tt
without-Within i n (y ∷ ys) w = elim (Bool-cases (y == i)) [
  | inl e ↦ rw e (without-Within i n ys w.1)
  | inr e ↦ rw e ((ground arith, omega arith), without-Within i n ys w.1)
]

-- Different numbers of a range are no more than the range has.
pub length-Within : (i n : ℕ) (xs : List ℕ) → Distinct xs → Within i n xs → length xs ≤ n
length-Within i n [] d w = omega arith
length-Within i zero (x ∷ xs) d w = absurd (omega arith)
length-Within i (suc n) (x ∷ xs) d w =
    let rest =
      length-Within (i + 1) n (without i (x ∷ xs)) (without-Distinct i (x ∷ xs) d)
        (without-Within i n (x ∷ xs) w) in
    let one = length-without i (x ∷ xs) d in omega arith
