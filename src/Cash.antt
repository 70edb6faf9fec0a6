-- ===== src/Cash.antt =====
-- backend/app/services/cash_service.py: the cash ledger.
--
-- The advisory lock of `_lock_cash` and the loaded relations have no effect on the rows. A query
-- with `order_by(operation_date, id)` is the stable sort below; `id` is `None` only while an
-- operation is pending, and sorts as 2 ** 63 - 1 then.
pub mod Book
pub mod Cancel
pub mod Create
pub mod Ledger
use faethon_system.Base.{
  ℕ, ℤ, pos, ◌+◌, ◌-◌, ◌^◌, ◌+ℤ◌, ◌-ℤ◌, neg, abs, ltb_ℤ, leb_ℤ, sum_ℤ, String, Bool, true, false,
  not, ◌&&◌, ◌||◌, Text, strip, is_empty, ltb, leb, ◌==◌, if◌then◌else◌, same_option, is_some,
  get_or, Option, none, some, List, [], ◌∷◌, ◌++◌, map, filter, find, contains, length, take, drop,
  update_where, Result, ok, err, http, ◌>>=◌, ◌>>◌, raise_if, or_raise,
}
use faethon_system.Base.Sort.{sort}
use faethon_system.Models.{
  Db, CashOperation, CashType, cash_in, cash_out, correction, Direction, inward, outward, neutral,
  CashStatus, get_partner, get_document, get_payment, write_audit,
}

abbrev pub is_correction : CashType → Bool
is_correction correction = true
is_correction _ = false

abbrev pub is_posted : CashStatus → Bool
is_posted CashStatus.posted = true
is_posted CashStatus.cancelled = false

-- `_direction_for_type`
unfoldable pub direction_for_type : CashType → Result Direction
direction_for_type cash_in = ok inward
direction_for_type cash_out = ok outward
direction_for_type _ = err (http 422 "Invalid cash operation type")

-- the part of `_balance_effect` after its test of the status; a correction that is neither in nor
-- out counts as in
abbrev typed_effect : CashType → Direction → ℤ → ℤ
typed_effect cash_in _ amount = amount
typed_effect cash_out _ amount = neg amount
typed_effect correction outward amount = neg amount
typed_effect correction _ amount = amount
typed_effect CashType.other _ amount = pos 0

-- `_balance_effect`
unfoldable pub balance_effect : CashOperation → ℤ
balance_effect o =
    if is_posted o.status then typed_effect o.operation_type o.direction o.amount else pos 0

-- `operation.id or 2**63 - 1`; keys start at 1
abbrev pub order_id : CashOperation → ℕ
order_id o = elim o.id [ none ↦ 2 ^ 63 - 1 | some i ↦ i ]

-- the order of the key `(operation_date, id)`
abbrev pub before : CashOperation → CashOperation → Bool
before a b =
    ltb a.operation_date b.operation_date
    || (a.operation_date == b.operation_date && leb (order_id a) (order_id b))

-- the loop of `_assert_nonnegative_ledger`
unfoldable pub check_running : ℤ → List CashOperation → Result (Unit {0})
check_running balance [] = ok tt
check_running balance (o ∷ os) =
    let rest = check_running (balance +ℤ balance_effect o) os in
    if ltb_ℤ (balance +ℤ balance_effect o) (pos 0)
    then err (http 409 "Cash balance cannot be negative")
    else rest

abbrev pub excluded : List ℕ → CashOperation → Bool
excluded ids o = elim o.id [ none ↦ false | some i ↦ contains i ids ]

-- the rows that `_assert_nonnegative_ledger` adds up, before the pending one
abbrev pub live : List ℕ → List CashOperation → List CashOperation
live ids = filter (λ o. not (excluded ids o) && is_posted o.status)

-- `_assert_nonnegative_ledger`; `pending` is empty or one operation
unfoldable pub assert_nonnegative_ledger : Db → List ℕ → List CashOperation → Result (Unit {0})
assert_nonnegative_ledger db ids pending =
    check_running (pos 0) (sort before (live ids db.cash_operations ++ pending))

-- `_load_operation`
unfoldable pub load_operation : Db → ℕ → Result CashOperation
load_operation db id =
    or_raise (find (λ (o : CashOperation). same_option o.id (some id)) db.cash_operations) 404
      "Cash operation not found"

-- `_cash_effect_expression`, row by row: the SQL twin of `_balance_effect`
unfoldable pub effect_expression : CashOperation → ℤ
effect_expression o = elim o.status [
  | CashStatus.cancelled ↦ pos 0
  | CashStatus.posted ↦ elim o.operation_type [
    | cash_in ↦ o.amount
    | cash_out ↦ neg o.amount
    | correction ↦ elim o.direction [ outward ↦ neg o.amount | _ ↦ o.amount ]
    | CashType.other ↦ pos 0
  ]
]

-- `_cash_balance_scalar` with a filter
unfoldable pub cash_balance_scalar : List CashOperation → (CashOperation → Bool) → ℤ
cash_balance_scalar rows test = sum_ℤ (map effect_expression (filter test rows))

unfoldable pub get_cash_balance : Db → ℤ
get_cash_balance db = cash_balance_scalar db.cash_operations (λ _. true)

-- `CashOperationCreate` and `CashOperationInternalCreate`, the former with no `payment_id`
pub record CashPayload : Type 0 where
  pub operation_date : ℕ
  pub operation_type : CashType
  pub amount : ℤ
  pub partner_id : Option ℕ
  pub document_id : Option ℕ
  pub payment_id : Option ℕ
  pub note : Option Text

-- `x is not None and db.get(Model, x) is None`
abbrev pub dangling : {A : Type 0} → (ℕ → Option A) → Option ℕ → Bool
dangling get none = false
dangling get (some id) = not (is_some (get id))

-- "in" if difference > 0 else "out" if difference < 0 else "correction"
abbrev pub direction_of : ℤ → Direction
direction_of d = if ltb_ℤ (pos 0) d then inward else if ltb_ℤ d (pos 0) then outward else neutral

-- `not payload.note or not payload.note.strip()`
abbrev pub is_blank : Option Text → Bool
is_blank none = true
is_blank (some s) = is_empty (strip s)

abbrev pub Resolved : Type 0
Resolved = Option ℤ × ℤ × Direction

-- the branch of `create_cash_operation` that finds target balance, amount and direction
unfoldable pub resolve_amount : Db → CashPayload → Result Resolved
resolve_amount db payload =
    if is_correction payload.operation_type
    then (do
      raise_if (is_blank payload.note) 422 "Cash correction requires a reason"
      let difference = payload.amount -ℤ get_cash_balance db
      ok (some payload.amount, abs difference, direction_of difference))
    else (do
      raise_if (leb_ℤ payload.amount (pos 0)) 422 "Cash operation amount must be greater than zero"
      direction ← direction_for_type payload.operation_type
      ok (none, payload.amount, direction))

unfoldable pub pending_operation : CashPayload → Resolved → CashOperation
pending_operation payload (target_balance, amount, direction) = record {
  id = none;
  operation_date = payload.operation_date;
  operation_type = payload.operation_type;
  direction = direction;
  status = CashStatus.posted;
  amount = amount;
  target_balance = target_balance;
  partner_id = payload.partner_id;
  document_id = payload.document_id;
  payment_id = payload.payment_id;
  note = payload.note;
}

-- `db.add(operation); db.flush()` gives the operation its key
unfoldable pub add_operation : CashOperation → Db → CashOperation × Db
add_operation o db =
    let stored = record o { id = some db.next_id } in
    (
      stored,
      record db { next_id = db.next_id + 1; cash_operations = db.cash_operations ++ stored ∷ [] },
    )

-- The payload's references, checked in the source's order.
unfoldable pub check_references : Db → CashPayload → Result (Unit {0})
check_references db payload = do
  raise_if (dangling (get_partner db) payload.partner_id) 404 "Partner not found"
  raise_if (dangling (get_document db) payload.document_id) 404 "Document not found"
  raise_if (dangling (get_payment db) payload.payment_id) 404 "Payment not found"

unfoldable pub create_cash_operation : Db → CashPayload → Result (CashOperation × Db)
create_cash_operation db payload = do
  check_references db payload
  resolved ← resolve_amount db payload
  let operation = pending_operation payload resolved
  assert_nonnegative_ledger db [] (operation ∷ [])
  let (stored, db') = add_operation operation db
  ok (stored, write_audit db' "cash_operation" db.next_id "create")

abbrev pub cancel_row : CashOperation → CashOperation
cancel_row o = record o { status = CashStatus.cancelled }

unfoldable pub cancel_cash_operation : Db → ℕ → Result (CashOperation × Db)
cancel_cash_operation db id = do
  operation ← load_operation db id
  raise_if (not (is_posted operation.status)) 409 "Only posted cash operations can be cancelled"
  assert_nonnegative_ledger db (id ∷ []) []
  let db' = record db {
    cash_operations =
        update_where (λ (o : CashOperation). same_option o.id (some id)) cancel_row
          db.cash_operations;
  }
  ok (cancel_row operation, write_audit db' "cash_operation" id "cancel")

abbrev pub of_payment : ℕ → CashOperation → Bool
of_payment payment_id o = same_option o.payment_id (some payment_id)

abbrev pub some_ids : List (Option ℕ) → List ℕ
some_ids [] = []
some_ids (none ∷ os) = some_ids os
some_ids (some i ∷ os) = i ∷ some_ids os

-- a posted operation of the payment
abbrev pub posted_of : ℕ → CashOperation → Bool
posted_of payment_id o = of_payment payment_id o && is_posted o.status

-- the keys of the posted operations of a payment
abbrev pub posted_ids : ℕ → List CashOperation → List ℕ
posted_ids payment_id rows =
    some_ids (map (λ (o : CashOperation). o.id) (filter (posted_of payment_id) rows))

abbrev audit_cancelled : List ℕ → Db → Db
audit_cancelled [] db = db
audit_cancelled (i ∷ is) db = audit_cancelled is (write_audit db "cash_operation" i "cancel")

unfoldable pub cancel_payment_cash_operations : Db → ℕ → Result Db
cancel_payment_cash_operations db payment_id = do
  let ids = posted_ids payment_id db.cash_operations
  assert_nonnegative_ledger db ids []
  let db' = record db {
    cash_operations = update_where (posted_of payment_id) cancel_row db.cash_operations;
  }
  ok (audit_cancelled ids db')
