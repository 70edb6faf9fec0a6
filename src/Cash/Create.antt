-- ===== src/Cash/Create.antt =====
-- `create_cash_operation`: the stored operation, the balance and the ledger check.
use faethon_system.Base.{
  ℕ, ◌-◌, ◌^◌, ◌≤◌, ◌<◌, ℤ, pos, ◌+ℤ◌, ◌-ℤ◌, ◌≤ℤ◌, int_laws, abs, Bool, true, false, leb,
  if◌then◌else◌, Bool-cases, inl, inr, none, some, List, [], ◌∷◌, ◌++◌, All, ok, >>=-eq-ok,
  -ℤ-eq-+ℤ-neg, +ℤ-zero, >>-eq-ok, ◌≡◌, refl, sym, ◌∙◌, leb→le, arith,
}
use faethon_system.Base.Sort.{total_where, total_where-append}
use faethon_system.Models.{Db, CashOperation, CashType, cash_in, cash_out, correction, write_audit}
use faethon_system.Cash.{
  CashPayload, Resolved, balance_effect, effect_expression, live, is_posted, check_references,
  resolve_amount, pending_operation, add_operation, assert_nonnegative_ledger,
  create_cash_operation, get_cash_balance, cash_balance_scalar, direction_for_type, direction_of,
  typed_effect,
}
use faethon_system.Cash.Ledger.{balance_until, until, check-sound}

-- On every cash operation the SQL expression of the effect and the Python function agree.
pub effect_expression-eq-balance_effect :
    (o : CashOperation) → effect_expression o ≡ balance_effect o
unfolding effect_expression balance_effect
effect_expression-eq-balance_effect o = ground arith

-- What a successful call has done, step by step.
pub record Created (db : Db) (payload : CashPayload) (o : CashOperation) (db' : Db) : Type 0 where
  pub resolved : Resolved
  pub resolves : resolve_amount db payload ≡ ok resolved
  pub checked : assert_nonnegative_ledger db [] (pending_operation payload resolved ∷ []) ≡ ok tt
  pub stored : o ≡ (add_operation (pending_operation payload resolved) db).0
  pub rows : db'.cash_operations ≡ db.cash_operations ++ o ∷ []
  pub payments_kept : db'.payments ≡ db.payments
  pub documents_kept : db'.documents ≡ db.documents

pub create-Created :
    (db : Db) (payload : CashPayload) (o : CashOperation) (db' : Db)
    → create_cash_operation db payload ≡ ok (o, db')
    → Created db payload o db'
unfolding create_cash_operation add_operation write_audit
create-Created db payload o db' h =
    let (refs, h1) = >>-eq-ok (check_references db payload) _ h in
    let (r, e, h2) = >>=-eq-ok (resolve_amount db payload) _ h1 in
    let (checked, h3) =
      >>-eq-ok (assert_nonnegative_ledger db [] (pending_operation payload r ∷ [])) _ h2 in
    record {
      resolved = r;
      resolves = e;
      checked = checked;
      stored = cc h3;
      rows = ground arith;
      payments_kept = ground arith;
      documents_kept = ground arith;
    }

-- The SQL sum with a filter is the plain total over the rows that pass it.
pub cash_balance_scalar-eq-total_where :
    (rows : List CashOperation) (p : CashOperation → Bool)
    → cash_balance_scalar rows p ≡ total_where balance_effect p rows
unfolding cash_balance_scalar
cash_balance_scalar-eq-total_where [] p = refl
cash_balance_scalar-eq-total_where (o ∷ os) p = elim (Bool-cases (p o)) [
  | inl e ↦ rw (e, effect_expression-eq-balance_effect o, cash_balance_scalar-eq-total_where os p)
  | inr e ↦ rw (e, cash_balance_scalar-eq-total_where os p) (omega int_laws)
]

abbrev pub everything : CashOperation → Bool
everything _ = true

pub get_cash_balance-eq-total_where :
    (db : Db) → get_cash_balance db ≡ total_where balance_effect everything db.cash_operations
unfolding get_cash_balance
get_cash_balance-eq-total_where db =
    cash_balance_scalar-eq-total_where db.cash_operations everything

-- What the balance becomes.
abbrev pub balance_after : CashPayload → ℤ → ℤ
balance_after payload old = elim payload.operation_type [
  | cash_in ↦ old +ℤ payload.amount
  | cash_out ↦ old -ℤ payload.amount
  | correction ↦ payload.amount
  | CashType.other ↦ old
]

difference_effect :
    (target old : ℤ)
    → old +ℤ typed_effect correction (direction_of (target -ℤ old)) (abs (target -ℤ old)) ≡ target
difference_effect target old = grind int_laws

effect_resolved :
    (db : Db) (payload : CashPayload) (r : Resolved)
    → resolve_amount db payload ≡ ok r
    → get_cash_balance db +ℤ balance_effect (add_operation (pending_operation payload r) db).0
      ≡ balance_after payload (get_cash_balance db)
unfolding resolve_amount pending_operation add_operation balance_effect direction_for_type
effect_resolved db payload r h = ground (
  arith,
  difference_effect payload.amount (get_cash_balance db),
  -ℤ-eq-+ℤ-neg (get_cash_balance db) payload.amount,
)

-- After a successful create_cash_operation the cash balance is the old one plus the amount for
-- cash in, the old one minus the amount for cash out, and the amount itself for a correction.
pub create_cash_operation-balance :
    (db : Db) (payload : CashPayload) (o : CashOperation) (db' : Db)
    → create_cash_operation db payload ≡ ok (o, db')
    → get_cash_balance db' ≡ balance_after payload (get_cash_balance db)
create_cash_operation-balance db payload o db' h =
    let c = create-Created db payload o db' h in
    let old = get_cash_balance-eq-total_where db in
    let sums = total_where-append balance_effect everything db.cash_operations (o ∷ []) in
    let effect = effect_resolved db payload c.resolved c.resolves in
    rw (get_cash_balance-eq-total_where db', c.rows, sums, +ℤ-zero, ← old, c.stored) effect

-- Every stored operation has a key below the counter, and the counter fits a 64-bit key.
abbrev pub HasKeyBelow : ℕ → CashOperation → Type 0
HasKeyBelow n o = elim o.id [ none ↦ ⊥ | some i ↦ i < n ]

abbrev pub HasKeys : Db → Type 0
HasKeys db = All (HasKeyBelow db.next_id) db.cash_operations × (db.next_id ≤ 2 ^ 63 - 1)

-- `live` drops the cancelled rows, which have no effect anyway.
cancelled-balance_effect :
    (o : CashOperation) → is_posted o.status ≡ false → balance_effect o ≡ pos 0
unfolding balance_effect
cancelled-balance_effect o h = rw h

live_step :
    (o : CashOperation) (os : List CashOperation)
    → live [] (o ∷ os) ≡ (if is_posted o.status then o ∷ live [] os else live [] os)
live_step o os = ground arith

if_same {ℓ} : {A : Type ℓ} (b : Bool) (x : A) → (if b then x else x) ≡ x
if_same true x = refl
if_same false x = refl

balance_until-live :
    (date id : ℕ) (os : List CashOperation)
    → balance_until date id (live [] os) ≡ balance_until date id os
balance_until-live date id [] = refl
balance_until-live date id (o ∷ os) = rw (live_step o os) (elim (Bool-cases (is_posted o.status)) [
  | inl e ↦ rw (e, balance_until-live date id os)
  | inr e ↦
      rw
        (
          e,
          balance_until-live date id os,
          cancelled-balance_effect o e,
          if_same (until date id o) (pos 0),
        )
        (omega int_laws)
])

until-keys :
    (date i j n : ℕ) (o : CashOperation)
    → HasKeyBelow n o
    → n ≤ i
    → n ≤ j
    → until date i o ≡ until date j o
until-keys date i j n o key h k = ground arith

-- All keys lie below `n`, so from `n` on the cut at a date takes the whole day.
balance_until-keys :
    (date i j n : ℕ) (os : List CashOperation)
    → All (HasKeyBelow n) os
    → n ≤ i
    → n ≤ j
    → balance_until date i os ≡ balance_until date j os
balance_until-keys date i j n [] keys h k = refl
balance_until-keys date i j n (o ∷ os) keys h k =
    rw (until-keys date i j n o keys.0 h k, balance_until-keys date i j n os keys.1 h k)

-- Two ledgers have the same balance at two cuts if their parts have.
balance_until_parts :
    (date i j : ℕ) (os ps : List CashOperation) (o p : CashOperation)
    → balance_until date i os ≡ balance_until date j ps
    → (until date i o ≡ until date j p)
    → (balance_effect o ≡ balance_effect p)
    → balance_until date i (os ++ o ∷ []) ≡ balance_until date j (ps ++ p ∷ [])
balance_until_parts date i j os ps o p same cut effect =
    total_where-append balance_effect (until date i) os (o ∷ [])
    ∙ rw (same, cut, effect) (sym (total_where-append balance_effect (until date j) ps (p ∷ [])))

-- The stored operation has its key, so it may come earlier in its day than the pending one did;
-- moved to the end of the day, the cut takes both.
stored_cut :
    (db : Db) (payload : CashPayload) (r : Resolved) (date i : ℕ)
    → HasKeys db
    → let p = pending_operation payload r in
      let o = (add_operation p db).0 in
      (j : ℕ) × (balance_until date i (db.cash_operations ++ o ∷ [])
        ≡ balance_until date j (live [] db.cash_operations ++ p ∷ []))
unfolding pending_operation add_operation balance_effect
stored_cut db payload r date i (keys, fits) =
    let rows = db.cash_operations in
    let p = pending_operation payload r in
    let o = (add_operation p db).0 in
    elim (Bool-cases (leb db.next_id i)) [
      | inl e ↦ (
        2 ^ 63 - 1,
        balance_until_parts date i (2 ^ 63 - 1) rows (live [] rows) o p
            (balance_until-keys date i (2 ^ 63 - 1) db.next_id rows keys (leb→le db.next_id i e)
                fits
              ∙ sym (balance_until-live date (2 ^ 63 - 1) rows))
            (ground arith) refl,
      )
      | inr e ↦ (
        i,
        balance_until_parts date i i rows (live [] rows) o p (sym (balance_until-live date i rows))
            (ground arith) refl,
      )
    ]

-- In a session whose cash operations have keys below the counter, and whose counter fits 63
-- bits, a successful create_cash_operation leaves a ledger whose balance up to any date and key
-- is not below zero.
pub create_cash_operation_nonnegative :
    (db : Db) (payload : CashPayload) (o : CashOperation) (db' : Db) (date id : ℕ)
    → HasKeys db
    → create_cash_operation db payload ≡ ok (o, db')
    → pos 0 ≤ℤ balance_until date id db'.cash_operations
unfolding assert_nonnegative_ledger
create_cash_operation_nonnegative db payload o db' date id keys h =
    let c = create-Created db payload o db' h in
    let (j, same) = stored_cut db payload c.resolved date id keys in
    rw (c.rows, c.stored, same)
      (check-sound date j (live [] db.cash_operations ++ pending_operation payload c.resolved ∷ [])
        c.checked)
