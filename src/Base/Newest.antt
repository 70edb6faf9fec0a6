-- ===== src/Base/Newest.antt =====
-- `ORDER BY ... LIMIT 1`: the first row of a sort, and that no other row goes before it.
use faethon_system.Base.Lists.{All, filter, ++-assoc}
use faethon_system.Base.Bools.{Bool-cases}
use faethon_system.Base.Sort.{sort, insert_sorted, Sorted, sort-Sorted}
use mathlib.Core.Path.{◌≡◌, refl, sym, subst}
use mathlib.Core.Logic.{◌⊎◌, inl, inr}
use mathlib.Core.Bool.{Bool, true, false}
use mathlib.Core.Option.{Option, none, some}
use mathlib.Core.List.{List, [], ◌∷◌, ◌++◌}

module _ {A : Type 0} where
  -- the first row of a query, or None
  abbrev pub first : List A → Option A
  first [] = none
  first (x ∷ xs) = some x

  -- The row is one of the rows.
  abbrev pub Among : A → List A → Type 0
  Among x xs = (front : List A) × (back : List A) × (xs ≡ front ++ x ∷ back)

module _ {A : Type 0} (before : A → A → Bool) (P : A → Type 0) where
  All-insert : (x : A) (ys : List A) → P x → All P ys → All P (insert_sorted before x ys)
  All-insert x [] p h = (p, tt)
  All-insert x (y ∷ ys) p h = elim (Bool-cases (before x y)) [
    | inl e ↦ rw e (p, h)
    | inr e ↦ rw e (h.0, All-insert x ys p h.1)
  ]

  All-sort : (xs : List A) → All P xs → All P (sort before xs)
  All-sort [] h = tt
  All-sort (x ∷ xs) h = All-insert x (sort before xs) h.0 (All-sort xs h.1)

  inserted-All : (x : A) (ys : List A) → All P (insert_sorted before x ys) → P x × All P ys
  inserted-All x [] h = (h.0, tt)
  inserted-All x (y ∷ ys) h = elim (Bool-cases (before x y)) [
    | inl e ↦ rw e at h
    | inr e ↦ let h' = rw e at h in let rest = inserted-All x ys h'.1 in (rest.0, (h'.0, rest.1))
  ]

  sorted-All : (xs : List A) → All P (sort before xs) → All P xs
  sorted-All [] h = tt
  sorted-All (x ∷ xs) h =
      let both = inserted-All x (sort before xs) h in (both.0, sorted-All xs both.1)

All-Among : {A : Type 0} (front xs : List A) → All (λ x. Among x (front ++ xs)) xs
All-Among front [] = tt
All-Among front (x ∷ xs) = (
  (front, xs, refl),
  subst (λ l. All (λ y. Among y l) xs) (++-assoc front (x ∷ []) xs)
      (All-Among (front ++ x ∷ []) xs),
)

module _ {A : Type 0} (before : A → A → Bool)
    (total : (a b : A) → before a b ≡ false → before b a ≡ true)
    (trans : (a b c : A) → before a b ≡ true → before b c ≡ true → before a c ≡ true) where
  -- The first row is one of the rows, and goes before all of them.
  pub first-sort :
      (xs : List A) (x : A)
      → first (sort before xs) ≡ some x
      → Among x xs × All (λ y. before x y ≡ true) xs
  first-sort xs x h = by_sorted (sort before xs) refl h
    where
      before_self : (y : A) → before y y ≡ true
      before_self y = elim (Bool-cases (before y y)) [ inl e ↦ e | inr e ↦ total y y e ]

      by_sorted :
          (rows : List A)
          → sort before xs ≡ rows
          → first rows ≡ some x
          → Among x xs × All (λ y. before x y ≡ true) xs
      by_sorted [] e k = absurd (cc k)
      by_sorted (y ∷ ys) e k =
          let sorted = subst (Sorted before) e (sort-Sorted before total trans xs) in
          let among =
            subst (All (λ z. Among z xs)) e
              (All-sort before (λ z. Among z xs) xs (All-Among [] xs)) in
          let same : y ≡ x = cc k in
          let goes_before : A → Type 0 = λ z. before y z ≡ true in
          let all_later =
            sorted-All before goes_before xs
              (subst (All goes_before) (sym e) (before_self y, sorted.0)) in
          subst (λ w. Among w xs × All (λ z. before w z ≡ true) xs) same (among.0, all_later)

module _ {A : Type 0} (P : A → Type 0) where
  Among-All : (x : A) (xs : List A) → Among x xs → All P xs → P x
  Among-All x xs (front, back, e) h = found front (subst (All P) e h)
    where
      found : (front : List A) → All P (front ++ x ∷ back) → P x
      found [] k = k.0
      found (y ∷ ys) k = found ys k.1

  -- What holds of the kept rows holds of every row that the test keeps.
  pub kept-All :
      (keep : A → Bool) (xs : List A)
      → All P (filter keep xs)
      → All (λ x. (keep x ≡ false) ⊎ P x) xs
  kept-All keep [] h = tt
  kept-All keep (x ∷ xs) h = elim (Bool-cases (keep x)) [
    | inl e ↦ let h' = rw e at h in (inr h'.0, kept-All keep xs h'.1)
    | inr e ↦ (inl e, kept-All keep xs (rw e at h))
  ]

module _ {A : Type 0} (keep : A → Bool) where
  Kept : List A → A → Type 0
  Kept rows x = Among x rows × (keep x ≡ true)

  filter-Kept : (front xs : List A) → All (Kept (front ++ xs)) (filter keep xs)
  unfolding Kept
  filter-Kept front [] = tt
  filter-Kept front (x ∷ xs) =
      let rest =
        subst (λ l. All (Kept l) (filter keep xs)) (++-assoc front (x ∷ []) xs)
          (filter-Kept (front ++ x ∷ []) xs) in
      elim (Bool-cases (keep x)) [ inl e ↦ rw e (((front, xs, refl), e), rest) | inr e ↦ rw e rest ]

  -- A kept row is one of the rows, and is one that the test keeps.
  pub Among-filter : (x : A) (xs : List A) → Among x (filter keep xs) → Among x xs × (keep x ≡ true)
  unfolding Kept
  Among-filter x xs h = Among-All (Kept xs) x (filter keep xs) h (filter-Kept [] xs)
