-- ===== src/Cash/Cancel.antt =====
-- `cancel_cash_operation` and `cancel_payment_cash_operations`: the rows that they change and the
-- rows that their checks add up.
use faethon_system.Base.{
  ℕ, pos, ◌≤ℤ◌, int_laws, Bool, true, false, not, ◌&&◌, if◌then◌else◌, Bool-cases, Option-cases,
  same_option, inl, inr, Option, none, some, List, [], ◌∷◌, All, contains, update_where, ok,
  raise_if, >>=-eq-ok, >>-eq-ok, ◌≡◌, refl, subst, arith, ++-nil,
}
use faethon_system.Models.{Db, CashOperation, write_audit}
use faethon_system.Cash.{
  balance_effect, live, is_posted, excluded, assert_nonnegative_ledger, load_operation, cancel_row,
  cancel_cash_operation, cancel_payment_cash_operations, of_payment, posted_of, posted_ids,
  audit_cancelled,
}
use faethon_system.Cash.Ledger.{balance_until, until, check-sound}

-- A row that the update `p` cancels is a posted row that `ids` excludes, and the other way round.
abbrev Agrees : (CashOperation → Bool) → List ℕ → CashOperation → Type 0
Agrees p ids o = (is_posted o.status && p o) ≡ (is_posted o.status && excluded ids o)

-- One row after the update, and the rows that the check adds up for it.
cancel_step :
    (date id : ℕ) (p : CashOperation → Bool) (ids : List ℕ) (o : CashOperation)
    → Agrees p ids o
    → (let o' = if p o then cancel_row o else o in
        if until date id o' then balance_effect o' else pos 0)
      ≡ (if not (excluded ids o) && is_posted o.status
          then (if until date id o then balance_effect o else pos 0)
          else pos 0)
unfolding balance_effect
cancel_step date id p ids o h = ground arith

-- After the update the balance is that of the rows that the check added up.
balance_until-cancel :
    (date id : ℕ) (p : CashOperation → Bool) (ids : List ℕ) (os : List CashOperation)
    → All (Agrees p ids) os
    → balance_until date id (update_where p cancel_row os) ≡ balance_until date id (live ids os)
balance_until-cancel date id p ids [] h = refl
balance_until-cancel date id p ids (o ∷ os) h =
    elim (Bool-cases (not (excluded ids o) && is_posted o.status)) [
      | inl e ↦ rw (balance_until-cancel date id p ids os h.1, cancel_step date id p ids o h.0, e)
      | inr e ↦
          rw (balance_until-cancel date id p ids os h.1, cancel_step date id p ids o h.0, e)
            (omega int_laws)
    ]

check_live-sound :
    (date id : ℕ) (db : Db) (ids : List ℕ)
    → assert_nonnegative_ledger db ids [] ≡ ok tt
    → pos 0 ≤ℤ balance_until date id (live ids db.cash_operations)
unfolding assert_nonnegative_ledger
check_live-sound date id db ids h =
    check-sound date id (live ids db.cash_operations) (rw ++-nil at h)

Agrees-by_key :
    (id : ℕ) (os : List CashOperation) → All (Agrees (λ o. same_option o.id (some id)) (id ∷ [])) os
Agrees-by_key id [] = tt
Agrees-by_key id (o ∷ os) = (ground arith, Agrees-by_key id os)

-- A successful cancel_cash_operation leaves a ledger whose balance up to any date and key is
-- not below zero.
pub cancel_cash_operation_nonnegative :
    (db : Db) (id : ℕ) (o : CashOperation) (db' : Db) (date at : ℕ)
    → cancel_cash_operation db id ≡ ok (o, db')
    → pos 0 ≤ℤ balance_until date at db'.cash_operations
unfolding cancel_cash_operation write_audit
cancel_cash_operation_nonnegative db id o db' date at h =
    let (found, e0, h1) = >>=-eq-ok (load_operation db id) _ h in
    let (posted, h2) =
      >>-eq-ok
        (raise_if (not (is_posted found.status)) 409 "Only posted cash operations can be cancelled")
        _ h1 in
    let (checked, h3) = >>-eq-ok (assert_nonnegative_ledger db (id ∷ []) []) _ h2 in
    let rows : db'.cash_operations
        ≡ update_where (λ (r : CashOperation). same_option r.id (some id)) cancel_row
            db.cash_operations =
      ground arith in
    rw
      (
        rows,
        balance_until-cancel date at (λ r. same_option r.id (some id)) (id ∷ []) db.cash_operations
            (Agrees-by_key id db.cash_operations),
      )
      (check_live-sound date at db (id ∷ []) checked)

-- No two stored operations share a key.
abbrev pub DistinctKeys : List CashOperation → Type 0
DistinctKeys [] = Unit
DistinctKeys (o ∷ os) =
    All (λ (q : CashOperation). same_option q.id o.id ≡ false) os × DistinctKeys os

-- Keys that no row of the list has are not collected from it.
posted_ids-fresh :
    (pid i : ℕ) (os : List CashOperation)
    → All (λ (q : CashOperation). same_option q.id (some i) ≡ false) os
    → contains i (posted_ids pid os) ≡ false
posted_ids-fresh pid i [] h = refl
posted_ids-fresh pid i (q ∷ os) h = ground (arith, posted_ids-fresh pid i os h.1)

Agrees-later_head :
    (pid : ℕ) (o : CashOperation) (os : List CashOperation) (q : CashOperation)
    → same_option q.id o.id ≡ false
    → Agrees (posted_of pid) (posted_ids pid os) q
    → Agrees (posted_of pid) (posted_ids pid (o ∷ os)) q
Agrees-later_head pid o os q h k = ground arith

-- A collected key of another row does not exclude a row.
Agrees-later :
    (pid : ℕ) (o : CashOperation) (os qs : List CashOperation)
    → All (λ (q : CashOperation). same_option q.id o.id ≡ false) qs
    → All (Agrees (posted_of pid) (posted_ids pid os)) qs
    → All (Agrees (posted_of pid) (posted_ids pid (o ∷ os))) qs
Agrees-later pid o os [] h k = tt
Agrees-later pid o os (q ∷ qs) h k =
    (Agrees-later_head pid o os q h.0 k.0, Agrees-later pid o os qs h.1 k.1)

abbrev pub HasKeyOf : Option ℕ → Type 0
HasKeyOf none = ⊥
HasKeyOf (some _) = Unit

abbrev pub HasKey : CashOperation → Type 0
HasKey o = HasKeyOf o.id

Agrees-head_of :
    (pid : ℕ) (o : CashOperation) (i : ℕ) (os : List CashOperation)
    → o.id ≡ some i
    → contains i (posted_ids pid os) ≡ false
    → Agrees (posted_of pid) (posted_ids pid (o ∷ os)) o
Agrees-head_of pid o i os e fresh = ground arith

Agrees-head :
    (pid : ℕ) (o : CashOperation) (os : List CashOperation)
    → HasKey o
    → All (λ (q : CashOperation). same_option q.id o.id ≡ false) os
    → Agrees (posted_of pid) (posted_ids pid (o ∷ os)) o
Agrees-head pid o os key d = elim (Option-cases o.id) [
  | inl e ↦ absurd (subst HasKeyOf e key)
  | inr (i, e) ↦ Agrees-head_of pid o i os e (
      posted_ids-fresh pid i os
        (subst (λ k. All (λ (q : CashOperation). same_option q.id k ≡ false) os) e d))
]

Agrees-by_payment :
    (pid : ℕ) (os : List CashOperation)
    → All (HasKey) os
    → DistinctKeys os
    → All (Agrees (posted_of pid) (posted_ids pid os)) os
Agrees-by_payment pid [] keys d = tt
Agrees-by_payment pid (o ∷ os) keys d = (
  Agrees-head pid o os keys.0 d.0,
  Agrees-later pid o os os d.0 (Agrees-by_payment pid os keys.1 d.1),
)

cash-audit_cancelled :
    (is : List ℕ) (db : Db) → (audit_cancelled is db).cash_operations ≡ db.cash_operations
unfolding write_audit
cash-audit_cancelled [] db = refl
cash-audit_cancelled (i ∷ is) db = cash-audit_cancelled is _

payments-audit_cancelled :
    (is : List ℕ) (db : Db)
    → ((audit_cancelled is db).payments ≡ db.payments)
      × ((audit_cancelled is db).documents ≡ db.documents)
unfolding write_audit
payments-audit_cancelled [] db = (refl, refl)
payments-audit_cancelled (i ∷ is) db = payments-audit_cancelled is _

-- Cancelling a payment's cash operations touches no payment and no document.
pub cancel_payment_cash_operations-kept :
    (db : Db) (pid : ℕ) (db' : Db)
    → cancel_payment_cash_operations db pid ≡ ok db'
    → (db'.payments ≡ db.payments) × (db'.documents ≡ db.documents)
unfolding cancel_payment_cash_operations
cancel_payment_cash_operations-kept db pid db' h =
    let ids = posted_ids pid db.cash_operations in
    let (checked, h1) = >>-eq-ok (assert_nonnegative_ledger db ids []) _ h in
    let kept = payments-audit_cancelled ids (record db {
      cash_operations = update_where (posted_of pid) cancel_row db.cash_operations;
    }) in
    (ground (arith, kept.0), ground (arith, kept.1))

none_posted :
    (pid : ℕ) (os : List CashOperation)
    → All
        (λ o. of_payment pid o ≡ true → is_posted o.status ≡ false)
        (update_where (posted_of pid) cancel_row os)
none_posted pid [] = tt
none_posted pid (o ∷ os) = (λ h. ground arith, none_posted pid os)

-- In a session whose cash operations have keys, all different, a successful
-- cancel_payment_cash_operations leaves no posted operation of the payment, and a ledger whose
-- balance up to any date and key is not below zero.
pub cancel_payment_cash_operations_nonnegative :
    (db : Db) (pid : ℕ) (db' : Db) (date at : ℕ)
    → All HasKey db.cash_operations
    → DistinctKeys db.cash_operations
    → cancel_payment_cash_operations db pid ≡ ok db'
    → (pos 0 ≤ℤ balance_until date at db'.cash_operations)
      × All (λ o. of_payment pid o ≡ true → is_posted o.status ≡ false) db'.cash_operations
unfolding cancel_payment_cash_operations
cancel_payment_cash_operations_nonnegative db pid db' date at keys d h =
    let ids = posted_ids pid db.cash_operations in
    let (checked, h1) = >>-eq-ok (assert_nonnegative_ledger db ids []) _ h in
    let rows : db'.cash_operations ≡ update_where (posted_of pid) cancel_row db.cash_operations =
      ground (
        arith,
        cash-audit_cancelled ids (record db {
          cash_operations = update_where (posted_of pid) cancel_row db.cash_operations;
        }),
      ) in
    let agrees = Agrees-by_payment pid db.cash_operations keys d in
    let same = balance_until-cancel date at (posted_of pid) ids db.cash_operations agrees in
    (
      rw (rows, same) (check_live-sound date at db ids checked),
      rw rows (none_posted pid db.cash_operations),
    )
