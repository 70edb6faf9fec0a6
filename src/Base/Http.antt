-- ===== src/Base/Http.antt =====
-- What a service call returns: a value, or the exception that ends the request. FastAPI turns
-- `HTTPException` into a response with this status and detail.
use Prim.Native.Nat.{ℕ}
use Prim.Native.String.{String}
use mathlib.Core.Path.{◌≡◌, refl, ap}
use mathlib.Core.Bool.{Bool, true, false}
use mathlib.Core.Option.{Option, none, some}

pub data Error : Type 0 where
  http : ℕ → String → Error
  -- `DocumentRulesError`, caught inside the documents service
  rules : String → Error
  -- any other Python exception, such as a `KeyError`
  crash : String → Error

-- the value comes second: a call is read as "raises, or else returns"
pub data Result {ℓ} (Value : Type ℓ) : Type ℓ where
  err : (raised : Error) → Result Value
  ok : (returned : Value) → Result Value

-- `if test: raise HTTPException(status, detail)`
abbrev pub raise_if : Bool → ℕ → String → Result (Unit {0})
raise_if true status detail = err (http status detail)
raise_if false status detail = ok tt

-- `if value is None: raise HTTPException(status, detail)`
abbrev pub or_raise {ℓ} : {A : Type ℓ} → Option A → ℕ → String → Result A
or_raise none status detail = err (http status detail)
or_raise (some a) status detail = ok a

-- `except DocumentRulesError as exc: raise HTTPException(409, str(exc))`
abbrev pub rules_as_conflict {ℓ} : {A : Type ℓ} → Result A → Result A
rules_as_conflict (ok a) = ok a
rules_as_conflict (err (http s d)) = err (http s d)
rules_as_conflict (err (rules d)) = err (http 409 d)
rules_as_conflict (err (crash d)) = err (crash d)

abbrev pub value_or {ℓ} : {A : Type ℓ} → A → Result A → A
value_or d (err _) = d
value_or d (ok a) = a

pub ok-injective {ℓ} : {A : Type ℓ} {a b : A} → ok a ≡ ok b → a ≡ b
ok-injective {a = a} h = ap (value_or a) h

-- A statement after a call: it runs with the call's value, unless the call raises.
infixl 5 ◌>>=◌
abbrev pub ◌>>=◌ {ℓ κ} :
    {First : Type ℓ} {Next : Type κ} → Result First → (First → Result Next) → Result Next
err raised >>= next = err raised
ok returned >>= next = next returned

-- A statement after a check, whose value says nothing.
infixl 5 ◌>>◌
abbrev pub ◌>>◌ {κ} : {Next : Type κ} → Result (Unit {0}) → Result Next → Result Next
err raised >> next = err raised
ok _ >> next = next

-- A block that returns went through each of its calls.
module _ {κ} {Next : Type κ} {value : Next} where
  pub >>-eq-ok :
      (check : Result (Unit {0})) (next : Result Next)
      → (check >> next) ≡ ok value
      → (check ≡ ok tt) × (next ≡ ok value)
  >>-eq-ok (err _) next h = cc
  >>-eq-ok (ok _) next h = (refl, h)

  pub >>=-eq-ok {ℓ} :
      {First : Type ℓ} (call : Result First) (next : First → Result Next)
      → (call >>= next) ≡ ok value
      → (returned : First) × (call ≡ ok returned) × (next returned ≡ ok value)
  >>=-eq-ok (err _) next h = cc
  >>=-eq-ok (ok returned) next h = (returned, refl, h)

pub raise_if-eq-ok : (c : Bool) (s : ℕ) (d : String) → raise_if c s d ≡ ok tt → c ≡ false
raise_if-eq-ok true s d h = cc
raise_if-eq-ok false s d h = refl

pub or_raise-eq-ok {ℓ} :
    {A : Type ℓ} (o : Option A) (s : ℕ) (d : String) {a : A} → or_raise o s d ≡ ok a → o ≡ some a
or_raise-eq-ok none s d h = cc
or_raise-eq-ok (some a) s d h = cc

pub rules_as_conflict-eq-ok {ℓ} :
    {A : Type ℓ} (r : Result A) {a : A} → rules_as_conflict r ≡ ok a → r ≡ ok a
rules_as_conflict-eq-ok (ok a) h = h
rules_as_conflict-eq-ok (err (http s d)) h = cc
rules_as_conflict-eq-ok (err (rules d)) h = cc
rules_as_conflict-eq-ok (err (crash d)) h = cc
