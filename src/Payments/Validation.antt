-- ===== src/Payments/Validation.antt =====
-- The validation of payments and of their allocations in payments_service.py.
use faethon_system.Base.{
  ℕ, ℤ, pos, ◌+ℤ◌, ◌-ℤ◌, max_ℤ, ltb_ℤ, sum_ℤ, Text, text, Bool, true, false, not, ◌&&◌, ◌==◌,
  if◌then◌else◌, same_option, Option, none, some, List, [], ◌∷◌, map, distinct, Result, ok, ◌>>=◌,
  ◌>>◌, raise_if, or_raise,
}
use faethon_system.Models.{
  Db, Document, DocumentType, incoming, outgoing, Payment, PaymentAllocation, PaymentType,
  customer_payment, supplier_payment, refund, Partner, get_partner, get_document, get_payment,
}
use faethon_system.Documents.Rules.{is_supplier, is_customer, same_text, same_type}
use faethon_system.Logistics.{is_posted}
use faethon_system.Documents.Posting.{is_empty_list}

abbrev pub is_refund : PaymentType → Bool
is_refund refund = true
is_refund _ = false

-- `payment_type in _valid_payment_types()`
abbrev pub is_valid_payment_type : PaymentType → Bool
is_valid_payment_type customer_payment = true
is_valid_payment_type supplier_payment = true
is_valid_payment_type _ = false

-- `_load_payment`
unfoldable pub load_payment : Db → ℕ → Result Payment
load_payment db id = or_raise (get_payment db id) 404 "Payment not found"

abbrev pub check_payment_partner : PaymentType → Partner → Result (Unit {0})
check_payment_partner customer_payment p =
    raise_if (not (is_customer p.partner_type)) 409 "Customer payment requires customer partner"
check_payment_partner supplier_payment p =
    raise_if (not (is_supplier p.partner_type)) 409 "Supplier payment requires supplier partner"
check_payment_partner _ p = ok tt

-- `_validate_payment_partner`
unfoldable pub validate_payment_partner : Db → PaymentType → ℕ → Result (Unit {0})
validate_payment_partner db type partner_id = do
  partner ← or_raise (get_partner db partner_id) 404 "Partner not found"
  check_payment_partner type partner

-- `_required_partner_id`
abbrev pub required_partner_id : Option ℕ → Result ℕ
required_partner_id id = or_raise id 422 "Payment partner is required"

abbrev pub is_cash : Option Text → Bool
is_cash none = false
is_cash (some m) = same_text m (text "cash")

-- `_validate_supported_payment`
unfoldable pub validate_supported_payment : PaymentType → Option Text → Result (Unit {0})
validate_supported_payment type method = do
  raise_if (not (is_valid_payment_type type)) 422
      "Payment type is not enabled for the first release"
  raise_if (not (is_cash method)) 422 "Only cash payments are enabled for the first release"

-- `expected_document_type and document.document_type != expected_document_type`
abbrev pub wrong_document_type : PaymentType → DocumentType → Bool
wrong_document_type customer_payment t = not (same_type t outgoing)
wrong_document_type supplier_payment t = not (same_type t incoming)
wrong_document_type _ t = false

-- `_validate_payment_document`, of a document that is there
unfoldable pub check_payment_document : PaymentType → ℕ → Document → Result (Unit {0})
check_payment_document type partner_id d = do
  raise_if (not (is_posted d.status)) 409 "Payment requires posted document"
  raise_if (not (same_option d.partner_id (some partner_id))) 409
      "Payment partner must match document partner"
  raise_if (wrong_document_type type d.document_type) 409
      "Document type does not match payment type"

abbrev pub is_excluded : Option ℕ → ℕ → Bool
is_excluded excluded id = same_option excluded (some id)

-- what one payment's allocations to a document add up to
abbrev pub amount_to : ℕ → List PaymentAllocation → ℤ
amount_to document_id [] = pos 0
amount_to document_id (a ∷ rest) =
    (if a.document_id == document_id then a.amount else pos 0) +ℤ amount_to document_id rest

abbrev pub counted : Option ℕ → Payment → Bool
counted excluded p = is_posted p.status && not (is_excluded excluded p.id)

-- `_posted_allocated_amount`: the sum over the posted payments but the excluded one
abbrev pub posted_amount : ℕ → Option ℕ → List Payment → ℤ
posted_amount document_id excluded [] = pos 0
posted_amount document_id excluded (p ∷ ps) =
    (if counted excluded p then amount_to document_id p.allocations else pos 0)
    +ℤ posted_amount document_id excluded ps

abbrev pub Validated : Type 0
Validated = List (Document × ℤ)

-- `max(document.total_amount - already_allocated, Decimal("0"))`
abbrev pub outstanding : Db → Option ℕ → Document → ℤ
outstanding db excluded d =
    max_ℤ (d.total_amount -ℤ posted_amount d.id excluded db.payments) (pos 0)

-- the loop of `_validate_allocations`
unfoldable pub validate_each :
    Db → PaymentType → ℕ → Option ℕ → List PaymentAllocation → Result Validated
validate_each db type partner_id excluded [] = ok []
validate_each db type partner_id excluded (a ∷ rest) = do
  document ← or_raise (get_document db a.document_id) 404 "Document not found"
  check_payment_document type partner_id document
  raise_if (ltb_ℤ (outstanding db excluded document) a.amount) 409
      "Allocation exceeds outstanding amount for document"
  others ← validate_each db type partner_id excluded rest
  ok ((document, a.amount) ∷ others)

abbrev pub total_of : List PaymentAllocation → ℤ
total_of allocations = sum_ℤ (map (λ (a : PaymentAllocation). a.amount) allocations)

-- `_validate_allocations`; the row locks have no effect on the rows
unfoldable pub validate_allocations :
    Db → PaymentType → ℕ → ℤ → List PaymentAllocation → Option ℕ → Result Validated
validate_allocations db type partner_id amount allocations excluded = do
  raise_if (is_refund type && not (is_empty_list allocations)) 422
      "Refund cannot be allocated to documents"
  raise_if (not (distinct (map (λ (a : PaymentAllocation). a.document_id) allocations))) 422
      "Payment document can be allocated only once"
  raise_if (ltb_ℤ amount (total_of allocations)) 409 "Allocated amount exceeds payment amount"
  validate_each db type partner_id excluded allocations

abbrev pub to_allocation : Document × ℤ → PaymentAllocation
to_allocation (d, amount) = record { document_id = d.id; amount = amount }

-- `validated[0][0].id if len(validated) == 1 else None`
abbrev pub single_document : Validated → Option ℕ
single_document ((d, _) ∷ []) = some d.id
single_document _ = none

-- `_replace_allocations`
unfoldable pub replace_allocations : Payment → Validated → Payment
replace_allocations p validated = record p {
  allocations = map to_allocation validated;
  document_id = single_document validated;
}
