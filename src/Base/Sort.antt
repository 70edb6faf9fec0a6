-- ===== src/Base/Sort.antt =====
-- Python's `sort` with a key, as a stable insertion sort: items with equal keys keep their order.
use faethon_system.Base.Lists.{All}
use faethon_system.Base.Bools.{if◌then◌else◌, Bool-cases}
use faethon_system.Base.Int.{ℤ, pos, ◌+ℤ◌, int_laws}
use mathlib.Core.Path.{◌≡◌, refl, ap, ◌∙◌}
use mathlib.Core.Logic.{inl, inr}
use mathlib.Core.Bool.{Bool, true, false}
use mathlib.Core.List.{List, [], ◌∷◌, ◌++◌}

module _ {ℓ} {A : Type ℓ} (before : A → A → Bool) where
  abbrev pub insert_sorted : A → List A → List A
  insert_sorted x [] = x ∷ []
  insert_sorted x (y ∷ ys) = if before x y then x ∷ y ∷ ys else y ∷ insert_sorted x ys

  abbrev pub sort : List A → List A
  sort [] = []
  sort (x ∷ xs) = insert_sorted x (sort xs)

-- Every item stands before all that follow it.
abbrev pub Sorted {ℓ} : {A : Type ℓ} → (A → A → Bool) → List A → Type 0
Sorted before [] = Unit
Sorted before (x ∷ xs) = All (λ y. before x y ≡ true) xs × Sorted before xs

module _ {ℓ} {A : Type ℓ} (before : A → A → Bool)
    (total : (a b : A) → before a b ≡ false → before b a ≡ true)
    (trans : (a b c : A) → before a b ≡ true → before b c ≡ true → before a c ≡ true) where
  All-insert_sorted :
      (x y : A) (ys : List A)
      → before x y ≡ true
      → All (λ z. before x z ≡ true) ys
      → All (λ z. before x z ≡ true) (insert_sorted before y ys)
  All-insert_sorted x y [] h hs = (h, tt)
  All-insert_sorted x y (z ∷ zs) h hs = elim (Bool-cases (before y z)) [
    | inl e ↦ rw e (h, hs)
    | inr e ↦ rw e (hs.0, All-insert_sorted x y zs h hs.1)
  ]

  All-trans :
      (x y : A) (ys : List A)
      → before x y ≡ true
      → All (λ z. before y z ≡ true) ys
      → All (λ z. before x z ≡ true) ys
  All-trans x y [] h hs = tt
  All-trans x y (z ∷ zs) h hs = (trans x y z h hs.0, All-trans x y zs h hs.1)

  insert_sorted-Sorted :
      (x : A) (ys : List A) → Sorted before ys → Sorted before (insert_sorted before x ys)
  insert_sorted-Sorted x [] s = (tt, tt)
  insert_sorted-Sorted x (y ∷ ys) s = elim (Bool-cases (before x y)) [
    | inl e ↦ rw e ((e, All-trans x y ys e s.0), s)
    | inr e ↦ rw e (All-insert_sorted y x ys (total x y e) s.0, insert_sorted-Sorted x ys s.1)
  ]

  pub sort-Sorted : (xs : List A) → Sorted before (sort before xs)
  sort-Sorted [] = tt
  sort-Sorted (x ∷ xs) = insert_sorted-Sorted x (sort before xs) (sort-Sorted xs)

-- The sum of a measure over the items that pass a test.
abbrev pub total_where {ℓ} : {A : Type ℓ} → (A → ℤ) → (A → Bool) → List A → ℤ
total_where f p [] = pos 0
total_where f p (x ∷ xs) = (if p x then f x else pos 0) +ℤ total_where f p xs

module _ {ℓ} {A : Type ℓ} (f : A → ℤ) (p : A → Bool) where
  pub total_where-append :
      (xs ys : List A) → total_where f p (xs ++ ys) ≡ total_where f p xs +ℤ total_where f p ys
  total_where-append [] ys = omega int_laws
  total_where-append (x ∷ xs) ys = rw (total_where-append xs ys) (omega int_laws)

  total_where-insert_sorted :
      (before : A → A → Bool) (x : A) (ys : List A)
      → total_where f p (insert_sorted before x ys) ≡ total_where f p (x ∷ ys)
  total_where-insert_sorted before x [] = refl
  total_where-insert_sorted before x (y ∷ ys) = elim (Bool-cases (before x y)) [
    | inl e ↦ rw e
    | inr e ↦ rw (e, total_where-insert_sorted before x ys) (omega int_laws)
  ]

  -- Sorting moves no item in or out, so it keeps every such sum.
  pub total_where-sort :
      (before : A → A → Bool) (xs : List A) → total_where f p (sort before xs) ≡ total_where f p xs
  total_where-sort before [] = refl
  total_where-sort before (x ∷ xs) =
      total_where-insert_sorted before x (sort before xs)
      ∙ ap (λ t. (if p x then f x else pos 0) +ℤ t) (total_where-sort before xs)

  pub total_where_none : (xs : List A) → All (λ x. p x ≡ false) xs → total_where f p xs ≡ pos 0
  total_where_none [] h = refl
  total_where_none (x ∷ xs) h = rw (h.0, total_where_none xs h.1) (omega int_laws)
