-- ===== src/Base/Crashes.antt =====
-- Calls that end in a value or in an HTTPException, and the do blocks of such calls; inside the
-- documents service also calls that raise DocumentRulesError.
use Prim.Native.Nat.{ℕ}
use Prim.Native.String.{String}
use mathlib.Core.Path.{◌≡◌, refl}
use mathlib.Core.Bool.{Bool, true, false}
use mathlib.Core.Option.{Option, none, some}
use faethon_system.Base.Http.{
  Result, ok, err, http, rules, crash, ◌>>=◌, ◌>>◌, raise_if, or_raise, rules_as_conflict,
}

-- The call ends in a value or in an HTTPException, and in no other exception.
abbrev pub NoCrash {ℓ} : {A : Type ℓ} → Result A → Type 0
NoCrash (ok _) = Unit
NoCrash (err (http _ _)) = Unit
NoCrash (err (rules _)) = ⊥
NoCrash (err (crash _)) = ⊥

pub NoCrash-bind {ℓ κ} :
    {A : Type ℓ} {B : Type κ} (m : Result A) (f : A → Result B)
    → NoCrash m
    → ((a : A) → m ≡ ok a → NoCrash (f a))
    → NoCrash (m >>= f)
NoCrash-bind (ok a) f p q = q a refl
NoCrash-bind (err (http _ _)) f p q = tt
NoCrash-bind (err (rules _)) f p q = p
NoCrash-bind (err (crash _)) f p q = p

pub NoCrash-raise_if {κ} :
    {B : Type κ} (c : Bool) (s : ℕ) (d : String) (next : Result B)
    → (c ≡ false → NoCrash next)
    → NoCrash (raise_if c s d >> next)
NoCrash-raise_if true s d next p = tt
NoCrash-raise_if false s d next p = p refl

pub NoCrash-or_raise {ℓ} :
    {A : Type ℓ} (o : Option A) (s : ℕ) (d : String) → NoCrash (or_raise o s d)
NoCrash-or_raise none s d = tt
NoCrash-or_raise (some a) s d = tt

pub bind_twice {ℓ} :
    {A B C : Type ℓ} (m : Result A) (f : A → Result B) (g : A → B → Result C)
    → NoCrash (m >>= f)
    → ((a : A) (b : B) → NoCrash (g a b))
    → NoCrash (m >>= λ a. f a >>= g a)
bind_twice (ok a) f g p q = NoCrash-bind (f a) (g a) p (λ b _. q a b)
bind_twice (err (http _ _)) f g p q = tt
bind_twice (err (rules _)) f g p q = p
bind_twice (err (crash _)) f g p q = p

pub NoCrash-test : (c : Bool) (s : ℕ) (d : String) → NoCrash (raise_if c s d)
NoCrash-test true s d = tt
NoCrash-test false s d = tt

pub NoCrash-seq {κ} :
    {B : Type κ} (check : Result (Unit {0})) (next : Result B)
    → NoCrash check
    → NoCrash next
    → NoCrash (check >> next)
NoCrash-seq (ok _) next p q = q
NoCrash-seq (err (http _ _)) next p q = tt
NoCrash-seq (err (rules _)) next p q = p
NoCrash-seq (err (crash _)) next p q = p

-- The call ends in a value, an HTTPException or a DocumentRulesError, and in no other exception.
abbrev pub RulesOnly {ℓ} : {A : Type ℓ} → Result A → Type 0
RulesOnly (ok _) = Unit
RulesOnly (err (http _ _)) = Unit
RulesOnly (err (rules _)) = Unit
RulesOnly (err (crash _)) = ⊥

pub RulesOnly-bind {ℓ κ} :
    {A : Type ℓ} {B : Type κ} (m : Result A) (f : A → Result B)
    → RulesOnly m
    → ((a : A) → m ≡ ok a → RulesOnly (f a))
    → RulesOnly (m >>= f)
RulesOnly-bind (ok a) f p q = q a refl
RulesOnly-bind (err (http _ _)) f p q = tt
RulesOnly-bind (err (rules _)) f p q = tt
RulesOnly-bind (err (crash _)) f p q = p

pub RulesOnly-or_raise {ℓ} :
    {A : Type ℓ} (o : Option A) (s : ℕ) (d : String) → RulesOnly (or_raise o s d)
RulesOnly-or_raise none s d = tt
RulesOnly-or_raise (some a) s d = tt

-- `except DocumentRulesError` leaves no such error.
pub rules_as_conflict-NoCrash {ℓ} :
    {A : Type ℓ} (r : Result A) → RulesOnly r → NoCrash (rules_as_conflict r)
rules_as_conflict-NoCrash (ok a) h = tt
rules_as_conflict-NoCrash (err (http s d)) h = tt
rules_as_conflict-NoCrash (err (rules d)) h = tt
rules_as_conflict-NoCrash (err (crash d)) h = h
