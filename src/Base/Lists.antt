-- ===== src/Base/Lists.antt =====
-- Lists by native numbers, and the Boolean list functions of the source's comprehensions.
use Prim.Native.Nat.{ℕ, zero, suc}
use mathlib.Core.Path.{◌≡◌, refl}
use mathlib.Core.Bool.{Bool, true, false, ◌||◌, ◌&&◌}
use mathlib.Core.Option.{Option, none, some}
use mathlib.Core.List.{List, [], ◌∷◌, ◌++◌}
use native.Mathlib.Omega.{arith}
use mathlib.Core.Logic.{inl, inr}
use faethon_system.Base.Bools.{if◌then◌else◌, ◌==◌, Bool-cases}

-- A property of every item, by recursion: it computes to tuples.
abbrev pub All {ℓ κ} : {A : Type ℓ} → (A → Type κ) → List A → Type κ
All P [] = Unit
All P (x ∷ xs) = P x × All P xs

module _ {ℓ} {A : Type ℓ} where
  abbrev pub length : List A → ℕ
  length [] = 0
  length (x ∷ xs) = suc (length xs)

  abbrev pub take : ℕ → List A → List A
  take zero xs = []
  take (suc n) [] = []
  take (suc n) (x ∷ xs) = x ∷ take n xs

  abbrev pub drop : ℕ → List A → List A
  drop zero xs = xs
  drop (suc n) [] = []
  drop (suc n) (x ∷ xs) = drop n xs

  -- `[x for x in xs if p(x)]`
  abbrev pub filter : (A → Bool) → List A → List A
  filter p [] = []
  filter p (x ∷ xs) = if p x then x ∷ filter p xs else filter p xs

  -- `next((x for x in xs if p(x)), None)`, and a query for one row
  abbrev pub find : (A → Bool) → List A → Option A
  find p [] = none
  find p (x ∷ xs) = if p x then some x else find p xs

  abbrev pub any : (A → Bool) → List A → Bool
  any p [] = false
  any p (x ∷ xs) = p x || any p xs

  abbrev pub all : (A → Bool) → List A → Bool
  all p [] = true
  all p (x ∷ xs) = p x && all p xs

  -- an assignment to each row that passes the test
  abbrev pub update_where : (A → Bool) → (A → A) → List A → List A
  update_where p f [] = []
  update_where p f (x ∷ xs) = (if p x then f x else x) ∷ update_where p f xs

  pub ++-nil : (xs : List A) → xs ++ [] ≡ xs
  ++-nil [] = refl
  ++-nil (x ∷ xs) = rw (++-nil xs)

  pub ++-assoc : (xs ys zs : List A) → (xs ++ ys) ++ zs ≡ xs ++ (ys ++ zs)
  ++-assoc [] ys zs = refl
  ++-assoc (x ∷ xs) ys zs = rw (++-assoc xs ys zs)

  pub filter-append :
      (p : A → Bool) (xs ys : List A) → filter p (xs ++ ys) ≡ filter p xs ++ filter p ys
  filter-append p [] ys = refl
  filter-append p (x ∷ xs) ys = ground (arith, filter-append p xs ys)

  pub find-satisfies : (p : A → Bool) (xs : List A) {x : A} → find p xs ≡ some x → p x ≡ true
  find-satisfies p (y ∷ ys) {x} h = ground (arith, find-satisfies p ys {x = x})
  find-satisfies p [] h = ground arith

module _ {ℓ κ} {A : Type ℓ} (P : A → Type κ) where
  pub All-append : (xs ys : List A) → All P xs → All P ys → All P (xs ++ ys)
  All-append [] ys h k = k
  All-append (x ∷ xs) ys h k = (h.0, All-append xs ys h.1 k)

-- `k in ks`
abbrev pub contains : ℕ → List ℕ → Bool
contains k [] = false
contains k (j ∷ ks) = k == j || contains k ks

-- `len(ks) == len(set(ks))`
abbrev pub distinct : List ℕ → Bool
distinct [] = true
distinct (k ∷ ks) = if contains k ks then false else distinct ks

-- A row that is overwritten under its key is found under it.
pub find-update_where {ℓ} :
    {A : Type ℓ} (key : A → ℕ) (k : ℕ) (x x' : A) (xs : List A)
    → find (λ y. key y == k) xs ≡ some x
    → (key x' == k) ≡ true
    → find (λ y. key y == k) (update_where (λ y. key y == k) (λ _. x') xs) ≡ some x'
find-update_where key k x x' [] h e = cc
find-update_where key k x x' (y ∷ ys) h e = elim (Bool-cases (key y == k)) [
  | inl b ↦ rw (b, e)
  | inr b ↦ rw (b, b) (find-update_where key k x x' ys (rw b at h) e)
]

module _ {ℓ} {A : Type ℓ} where
  abbrev pub reverse : List A → List A
  reverse [] = []
  reverse (x ∷ xs) = reverse xs ++ x ∷ []
