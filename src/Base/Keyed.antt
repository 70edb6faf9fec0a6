-- ===== src/Base/Keyed.antt =====
-- Rows with a numeric key: keys that are all different, rows found and overwritten by key.
use Prim.Native.Nat.{ℕ}
use mathlib.Core.Path.{◌≡◌, refl, subst}
use mathlib.Core.Logic.{inl, inr}
use mathlib.Core.Bool.{Bool, false}
use mathlib.Core.Option.{some}
use mathlib.Core.List.{List, [], ◌∷◌}
use native.Mathlib.Omega.{arith}
use faethon_system.Base.Bools.{◌==◌, ==→eq, ==-refl, Bool-cases, if◌then◌else◌}
use faethon_system.Base.Lists.{All, find, update_where}

module _ {ℓ κ} {A : Type ℓ} (P : A → Type κ) where
  -- A row that a query finds has what all rows have.
  pub All_find : (f : A → Bool) (xs : List A) (x : A) → All P xs → find f xs ≡ some x → P x
  All_find f [] x h e = absurd (cc e)
  All_find f (y ∷ ys) x h e = elim (Bool-cases (f y)) [
    | inl b ↦ subst P (cc (rw b at e)) h.0
    | inr b ↦ All_find f ys x h.1 (rw b at e)
  ]

module _ {ℓ} {A : Type ℓ} (key : A → ℕ) where
  abbrev pub OtherKey : ℕ → A → Type 0
  OtherKey k x = (key x == k) ≡ false

  abbrev pub DistinctBy : List A → Type 0
  DistinctBy [] = Unit
  DistinctBy (x ∷ xs) = All (OtherKey (key x)) xs × DistinctBy xs

  abbrev pub overwrite : A → List A → List A
  overwrite x' xs = update_where (λ y. key y == key x') (λ _. x') xs

  pub overwrite_absent : (x' : A) (xs : List A) → All (OtherKey (key x')) xs → overwrite x' xs ≡ xs
  overwrite_absent x' [] h = refl
  overwrite_absent x' (y ∷ ys) h = rw (h.0, overwrite_absent x' ys h.1)

  OtherKey-overwrite :
      (k : ℕ) (x' : A) (xs : List A) → All (OtherKey k) xs → All (OtherKey k) (overwrite x' xs)
  OtherKey-overwrite k x' [] h = tt
  OtherKey-overwrite k x' (y ∷ ys) h = (ground arith, OtherKey-overwrite k x' ys h.1)

  pub DistinctBy-overwrite : (x' : A) (xs : List A) → DistinctBy xs → DistinctBy (overwrite x' xs)
  DistinctBy-overwrite x' [] h = tt
  DistinctBy-overwrite x' (y ∷ ys) h = elim (Bool-cases (key y == key x')) [
    | inl e ↦ rw e (
      subst (λ i. All (OtherKey i) (overwrite x' ys)) (==→eq (key y) (key x') e)
          (OtherKey-overwrite (key y) x' ys h.0),
      DistinctBy-overwrite x' ys h.1,
    )
    | inr e ↦ rw e (OtherKey-overwrite (key y) x' ys h.0, DistinctBy-overwrite x' ys h.1)
  ]

  other_way : (a b : ℕ) → (a == b) ≡ false → (b == a) ≡ false
  other_way a b h = ground arith

  -- Where the keys are distinct, a row that any query finds is found by its key.
  pub find-own :
      (f : A → Bool) (xs : List A) (x : A)
      → DistinctBy xs
      → find f xs ≡ some x
      → find (λ y. key y == key x) xs ≡ some x
  find-own f [] x u h = absurd (cc h)
  find-own f (y ∷ ys) x u h = elim (Bool-cases (f y)) [
    | inl b ↦
        let same : y ≡ x = cc (rw b at h) in
        subst (λ z. (if key y == key z then some y else find (λ w. key w == key z) ys) ≡ some z)
          same (rw (==-refl (key y)))
    | inr b ↦
        let later = rw b at h in
        let other = other_way (key x) (key y) (All_find (OtherKey (key y)) f ys x u.0 later) in
        rw other (find-own f ys x u.1 later)
  ]
