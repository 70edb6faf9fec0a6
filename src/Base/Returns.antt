-- ===== src/Base/Returns.antt =====
-- Calls that return a value with a property, and the do blocks of such calls.
use mathlib.Core.Path.{◌≡◌, refl}
use mathlib.Core.Bool.{Bool, true, false}
use faethon_system.Base.Bools.{if◌then◌else◌}
use faethon_system.Base.Http.{Result, ok, err, ◌>>=◌}

-- The call raises nothing, and its value has the property.
abbrev pub Returns {ℓ} : {A : Type ℓ} → (A → Type 0) → Result A → Type 0
Returns P (ok value) = P value
Returns P (err _) = ⊥

-- any value
abbrev pub Any {ℓ} : {A : Type ℓ} → A → Type 0
Any value = Unit

module _ {ℓ κ} {A : Type ℓ} {B : Type κ} (P : A → Type 0) (Q : B → Type 0) where
  pub Returns-bind :
      (m : Result A) (f : A → Result B)
      → Returns P m
      → ((a : A) → P a → Returns Q (f a))
      → Returns Q (m >>= f)
  Returns-bind (ok a) f p q = q a p
  Returns-bind (err _) f p q = absurd p

module _ {ℓ} {A : Type ℓ} (P : A → Type 0) where
  pub Returns-if :
      (c : Bool) (m n : Result A)
      → (c ≡ true → Returns P m)
      → (c ≡ false → Returns P n)
      → Returns P (if c then m else n)
  Returns-if true m n p q = p refl
  Returns-if false m n p q = q refl

  pub Returns-branch :
      (c : Bool) (m n : Result A)
      → (c ≡ true → Returns P m)
      → (c ≡ false → Returns P n)
      → Returns P (elim c [ true ↦ m | false ↦ n ])
  Returns-branch true m n p q = p refl
  Returns-branch false m n p q = q refl

  -- the value that a call returns
  pub Returns-value : (m : Result A) → Returns P m → (value : A) × (m ≡ ok value) × P value
  Returns-value (ok a) p = (a, refl, p)
  Returns-value (err _) p = absurd p

  pub weakened-Returns :
      (Q : A → Type 0) (m : Result A) → Returns P m → ((a : A) → P a → Q a) → Returns Q m
  weakened-Returns Q (ok a) p q = q a p
  weakened-Returns Q (err _) p q = absurd p

-- A value that is returned is the value of its call.
pub own-Returns : {A : Type 0} (m : Result A) → Returns Any m → Returns (λ value. m ≡ ok value) m
own-Returns (ok a) p = refl
own-Returns (err _) p = p
