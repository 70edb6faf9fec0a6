-- ===== src/Payments.antt =====
-- backend/app/services/payments_service.py: payments and their allocations to documents.
--
-- In an update payload `none` is a field that the request does not set. The texts of errors that
-- name a document's number leave it out.
pub mod Validation
pub mod Allocations
pub mod Amounts
pub mod Effects
pub mod Histories
pub mod Drafts
pub mod Keeps
pub mod Posting
pub mod Reposting
pub mod Statement
unfoldable pub use Validation.*
use faethon_system.Base.{
  ℕ, ◌+◌, ℤ, pos, ◌+ℤ◌, ◌-ℤ◌, neg, max_ℤ, ltb_ℤ, leb_ℤ, sum_ℤ, String, Text, text, Bool, true,
  false, not, ◌&&◌, ◌||◌, ◌==◌, if◌then◌else◌, same_option, is_some, get_or, Option, none, some,
  List, [], ◌∷◌, ◌++◌, map, filter, find, distinct, update_where, Result, ok, err, http, ◌>>=◌,
  ◌>>◌, raise_if, or_raise,
}
use faethon_system.Models.{
  Db, Document, DocumentType, incoming, outgoing, Status, draft, Payment, PaymentAllocation,
  PaymentType, customer_payment, supplier_payment, refund, CashOperation, CashType, cash_in,
  cash_out, Partner, get_partner, get_document, get_payment, put_payment, write_audit,
}
use faethon_system.Documents.Rules.{is_draft, is_supplier, is_customer, same_text, same_type}
use faethon_system.Logistics.{is_posted}
use faethon_system.Documents.Posting.{is_empty_list}
use faethon_system.Cash.{
  CashPayload, create_cash_operation, cancel_payment_cash_operations, of_payment,
}

pub record PaymentCreate : Type 0 where
  pub partner_id : ℕ
  pub document_id : Option ℕ
  pub payment_date : ℕ
  pub payment_type : PaymentType
  pub amount : ℤ
  pub method : Option Text
  pub note : Option Text
  pub allocations : List PaymentAllocation

-- `[PaymentAllocationInput(document_id, amount)]` for a document that is given
abbrev pub one_allocation : Option ℕ → ℤ → List PaymentAllocation
one_allocation none amount = []
one_allocation (some d) amount = record { document_id = d; amount = amount } ∷ []

abbrev pub allocation_inputs : PaymentCreate → List PaymentAllocation
allocation_inputs payload =
    if is_empty_list payload.allocations
    then one_allocation payload.document_id payload.amount
    else payload.allocations

unfoldable pub new_payment : ℕ → PaymentCreate → Payment
new_payment id payload = record {
  id = id;
  partner_id = some payload.partner_id;
  document_id = none;
  payment_date = payload.payment_date;
  payment_type = payload.payment_type;
  status = draft;
  amount = payload.amount;
  method = payload.method;
  note = payload.note;
  allocations = [];
}

unfoldable pub create_payment : Db → PaymentCreate → Result (Payment × Db)
create_payment db payload = do
  validate_supported_payment payload.payment_type payload.method
  validate_payment_partner db payload.payment_type payload.partner_id
  validated ←
      validate_allocations db payload.payment_type payload.partner_id payload.amount
        (allocation_inputs payload) none
  let payment = replace_allocations (new_payment db.next_id payload) validated
  let db' = record db { next_id = db.next_id + 1; payments = db.payments ++ payment ∷ [] }
  ok (payment, write_audit db' "payment" payment.id "create")

pub record PaymentUpdate : Type 0 where
  pub partner_id : Option (Option ℕ)
  pub document_id : Option (Option ℕ)
  pub payment_date : Option ℕ
  pub payment_type : Option (Option PaymentType)
  pub amount : Option (Option ℤ)
  pub method : Option (Option Text)
  pub note : Option (Option Text)
  pub allocations : Option (List PaymentAllocation)

-- the allocations that `update_payment` validates
abbrev pub updated_inputs : Payment → PaymentUpdate → ℤ → List PaymentAllocation
updated_inputs p payload amount = elim payload.allocations [
  | some given ↦ given
  | none ↦ elim payload.document_id [
    | some document_id ↦ one_allocation document_id amount
    | none ↦ p.allocations
  ]
]

unfoldable pub update_payment : Db → ℕ → PaymentUpdate → Result (Payment × Db)
update_payment db payment_id payload = do
  p ← load_payment db payment_id
  raise_if (not (is_draft p.status)) 409 "Only draft payments can be edited"
  type ← or_raise (get_or payload.payment_type (some p.payment_type)) 422 "Payment type is required"
  partner_id ← required_partner_id (get_or payload.partner_id p.partner_id)
  let method = get_or payload.method p.method
  validate_supported_payment type method
  validate_payment_partner db type partner_id
  amount ← or_raise (get_or payload.amount (some p.amount)) 422 "Payment amount is required"
  validated ← validate_allocations db type partner_id amount (updated_inputs p payload amount) none
  let changed = record p {
    partner_id = some partner_id;
    payment_date = get_or payload.payment_date p.payment_date;
    payment_type = type;
    amount = amount;
    method = method;
    note = get_or payload.note p.note;
  }
  let payment = replace_allocations changed validated
  ok (payment, write_audit (put_payment payment db) "payment" p.id "update")

unfoldable pub delete_draft_payment : Db → ℕ → Result Db
delete_draft_payment db payment_id = do
  p ← load_payment db payment_id
  raise_if (not (is_draft p.status)) 409 "Only draft payments can be deleted"
  let db' = write_audit db "payment" p.id "delete_draft"
  ok (record db' { payments = filter (λ (q : Payment). not (q.id == p.id)) db'.payments })

abbrev pub cash_type_for : PaymentType → CashType
cash_type_for supplier_payment = cash_out
cash_type_for refund = cash_out
cash_type_for _ = cash_in

-- the note f"payment:{payment_type}"
abbrev pub cash_note : PaymentType → Text
cash_note customer_payment = text "payment:customer_payment"
cash_note supplier_payment = text "payment:supplier_payment"
cash_note refund = text "payment:refund"
cash_note PaymentType.other = text "payment:"

-- `CashOperationInternalCreate` of a posted payment
unfoldable pub cash_payload_for : Payment → CashPayload
cash_payload_for p = record {
  operation_date = p.payment_date;
  operation_type = cash_type_for p.payment_type;
  amount = p.amount;
  partner_id = p.partner_id;
  document_id = p.document_id;
  payment_id = some p.id;
  note = some (cash_note p.payment_type);
}

abbrev pub as_posted : Payment → Validated → Payment
as_posted p validated = record p { document_id = single_document validated; status = Status.posted }

unfoldable pub post_payment : Db → ℕ → Result (Payment × Db)
post_payment db payment_id = do
  p ← load_payment db payment_id
  raise_if (not (is_draft p.status)) 409 "Only draft payments can be posted"
  partner_id ← required_partner_id p.partner_id
  validate_supported_payment p.payment_type p.method
  validate_payment_partner db p.payment_type partner_id
  validated ← validate_allocations db p.payment_type partner_id p.amount p.allocations none
  let payment = as_posted p validated
  operation ← create_cash_operation (put_payment payment db) (cash_payload_for payment)
  ok (payment, write_audit operation.1 "payment" p.id "post")

unfoldable pub replace_posted_payment_allocations :
    Db → ℕ → List PaymentAllocation → Result (Payment × Db)
replace_posted_payment_allocations db payment_id allocations = do
  p ← load_payment db payment_id
  raise_if (not (is_posted p.status)) 409 "Only posted payments can be reallocated"
  partner_id ← required_partner_id p.partner_id
  validated ← validate_allocations db p.payment_type partner_id p.amount allocations (some p.id)
  let payment = replace_allocations p validated
  let db' = put_payment payment db
  let db'' = record db' {
    cash_operations =
        update_where (of_payment p.id)
          (λ (o : CashOperation). record o { document_id = payment.document_id })
          db'.cash_operations;
  }
  ok (payment, write_audit db'' "payment" p.id "allocate")

unfoldable pub cancel_payment : Db → ℕ → Result (Payment × Db)
cancel_payment db payment_id = do
  p ← load_payment db payment_id
  raise_if (not (is_posted p.status)) 409 "Only posted payments can be cancelled"
  db' ← cancel_payment_cash_operations db p.id
  let payment = record p { status = Status.cancelled }
  ok (payment, write_audit (put_payment payment db') "payment" p.id "cancel")
