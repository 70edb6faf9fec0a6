-- ===== src/Base/Ensures.antt =====
-- Calls whose value, where they return one, has a property.
use mathlib.Core.Path.{◌≡◌, refl, subst}
use mathlib.Core.Bool.{Bool, true, false}
use faethon_system.Base.Bools.{if◌then◌else◌}
use faethon_system.Base.Http.{Result, ok, err, ◌>>=◌}

abbrev pub Ensures {ℓ} : {A : Type ℓ} → (A → Type 0) → Result A → Type 0
Ensures P (ok value) = P value
Ensures P (err _) = Unit

module _ {ℓ κ} {A : Type ℓ} {B : Type κ} (Q : B → Type 0) where
  pub Ensures-bind :
      (m : Result A) (f : A → Result B)
      → ((a : A) → m ≡ ok a → Ensures Q (f a))
      → Ensures Q (m >>= f)
  Ensures-bind (ok a) f q = q a refl
  Ensures-bind (err _) f q = tt

module _ {ℓ} {A : Type ℓ} (P : A → Type 0) where
  pub Ensures-if :
      (c : Bool) (m n : Result A)
      → (c ≡ true → Ensures P m)
      → (c ≡ false → Ensures P n)
      → Ensures P (if c then m else n)
  Ensures-if true m n p q = p refl
  Ensures-if false m n p q = q refl

  pub value-Ensures : (m : Result A) (value : A) → Ensures P m → m ≡ ok value → P value
  value-Ensures m value p e = subst (Ensures P) e p
