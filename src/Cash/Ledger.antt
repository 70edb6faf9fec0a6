-- ===== src/Cash/Ledger.antt =====
-- The balance at a point of the ledger's order, and `_assert_nonnegative_ledger` in its terms.
use faethon_system.Base.{
  ℕ, ℤ, pos, ◌+ℤ◌, ◌≤ℤ◌, int_laws, ltb_ℤ, ltb_ℤ_false→le, Bool, true, false, ◌&&◌, ◌||◌, ltb, leb,
  ◌==◌, Bool-cases, inl, inr, List, [], ◌∷◌, All, ok, ◌≡◌, arith,
}
use faethon_system.Base.Sort.{
  Sorted, sort, sort-Sorted, total_where, total_where-sort, total_where_none,
}
use faethon_system.Models.{CashOperation}
use faethon_system.Cash.{balance_effect, before, order_id, check_running}

-- Whether an operation comes no later than the point `(date, id)`.
abbrev pub until : ℕ → ℕ → CashOperation → Bool
until date id o = ltb o.operation_date date || (o.operation_date == date && leb (order_id o) id)

-- The balance at that point: the effects of all operations up to it, in no particular order.
abbrev pub balance_until : ℕ → ℕ → List CashOperation → ℤ
balance_until date id = total_where balance_effect (until date id)

before_total : (a b : CashOperation) → before a b ≡ false → before b a ≡ true
before_total a b h = ground arith

before_trans : (a b c : CashOperation) → before a b ≡ true → before b c ≡ true → before a c ≡ true
before_trans a b c h k = ground arith

until_closed :
    (date id : ℕ) (a b : CashOperation)
    → before a b ≡ true
    → until date id a ≡ false
    → until date id b ≡ false
until_closed date id a b h k = ground arith

All-until_closed :
    (date id : ℕ) (a : CashOperation) (os : List CashOperation)
    → All (λ b. before a b ≡ true) os
    → until date id a ≡ false
    → All (λ b. until date id b ≡ false) os
All-until_closed date id a [] h k = tt
All-until_closed date id a (b ∷ os) h k =
    (until_closed date id a b h.0 k, All-until_closed date id a os h.1 k)

check_running-step :
    (s : ℤ) (o : CashOperation) (os : List CashOperation)
    → check_running s (o ∷ os) ≡ ok tt
    → (pos 0 ≤ℤ s +ℤ balance_effect o) × (check_running (s +ℤ balance_effect o) os ≡ ok tt)
unfolding check_running
check_running-step s o os h = elim (Bool-cases (ltb_ℤ (s +ℤ balance_effect o) (pos 0))) [
  | inl e ↦ absurd (cc (rw e at h))
  | inr e ↦ (ltb_ℤ_false→le (s +ℤ balance_effect o) (pos 0) e, rw e at h)
]

running_nonneg :
    (date id : ℕ) (s : ℤ) (os : List CashOperation)
    → Sorted before os
    → pos 0 ≤ℤ s
    → check_running s os ≡ ok tt
    → pos 0 ≤ℤ s +ℤ balance_until date id os
running_nonneg date id s [] sorted nonneg h = omega int_laws
running_nonneg date id s (o ∷ os) sorted nonneg h =
    let step = check_running-step s o os h in
    elim (Bool-cases (until date id o)) [
      | inl e ↦ rw e (
          let later = running_nonneg date id (s +ℤ balance_effect o) os sorted.1 step.0 step.1 in
          omega int_laws)
      | inr e ↦
          rw
            (
              e,
              total_where_none balance_effect (until date id) os
                  (All-until_closed date id o os sorted.0 e),
            )
            (omega int_laws)
    ]

-- A ledger that passes the check is nonnegative at every point.
pub check-sound :
    (date id : ℕ) (os : List CashOperation)
    → check_running (pos 0) (sort before os) ≡ ok tt
    → pos 0 ≤ℤ balance_until date id os
check-sound date id os h =
    let sorted = sort-Sorted before before_total before_trans os in
    let bound = running_nonneg date id (pos 0) (sort before os) sorted (omega arith) h in
    let same = total_where-sort balance_effect (until date id) before os in
    rw (← same) (omega int_laws)
