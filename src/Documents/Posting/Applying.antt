-- ===== src/Documents/Posting/Applying.antt =====
-- `post_document`, and the allocations that stand in the way of a correction.
use faethon_system.Base.{
  ℕ, ◌+◌, ℤ, pos, ◌+ℤ◌, ltb_ℤ, String, Text, text, Bool, true, false, not, ◌&&◌, ◌||◌, ◌==◌,
  if◌then◌else◌, same_option, List, [], ◌∷◌, ◌++◌, map, filter, any, Result, ok, err, rules, ◌>>=◌,
  ◌>>◌, raise_if, rules_as_conflict,
}
use faethon_system.Models.{
  Db, Document, DocumentType, incoming, outgoing, Status, apply, Payment, PaymentAllocation,
  PaymentType, customer_payment, supplier_payment, put_document, write_audit,
}
use faethon_system.Logistics.{is_posted, create_tasks_for_document}
use faethon_system.Documents.Rules.{
  is_draft, validate_document_partner, validate_document_warehouses,
}
use faethon_system.Documents.Stock.{
  Quantities, Movement, document_stock_keys, load_balance_quantities, plan_document_movements,
  write_stock_movements, apply_balance_quantities,
}
use faethon_system.Documents.Drafts.{load_document, validate_lines}

-- `if test: raise DocumentRulesError(detail)`
abbrev pub rules_if : Bool → String → Result (Unit {0})
rules_if true detail = err (rules detail)
rules_if false detail = ok tt

abbrev pub is_empty_list {ℓ} : {A : Type ℓ} → List A → Bool
is_empty_list [] = true
is_empty_list (_ ∷ _) = false

-- `_store_revision`: a version that is stored already stays
unfoldable pub store_revision : Document → ℕ → Text → Db → Db
store_revision d version reason db =
    if any (λ r. r.document_id == d.id && r.version == version) db.revisions
    then db
    else record db {
      revisions =
          db.revisions
          ++ record { document_id = d.id; version = version; reason = reason; snapshot = d } ∷ [];
    }

-- the checks of `post_document` before its transaction
unfoldable pub check_postable : Db → Document → Result (Unit {0})
check_postable db d = do
  raise_if (not (is_draft d.status)) 409 "Only draft documents can be posted"
  validate_document_warehouses db d.document_type d.warehouse_id d.destination_warehouse_id
  raise_if (is_empty_list d.lines) 422 "Document has no lines"
  validate_document_partner db d.document_type d.partner_id
  validate_lines db d.document_type d.lines

abbrev pub Planned : Type 0
Planned = List Movement × Quantities

-- the reason of the first revision
unfoldable pub first_reason : Text
first_reason = text "Первичное проведение"

abbrev pub as_posted : Document → Document
as_posted d = record d { status = Status.posted; posting_version = d.posting_version + 1 }

-- the posted document, its movements, revision, audit entry and warehouse tasks
unfoldable pub finish_post : Document → Planned → Db → Document × Db
finish_post d (movements, final) db =
    let version = d.posting_version + 1 in
    let d' = as_posted d in
    let db1 = apply_balance_quantities final db in
    let db2 = write_stock_movements d version apply movements "post" db1 in
    let db3 = store_revision d' version first_reason (put_document d' db2) in
    (d', create_tasks_for_document d' (write_audit db3 "document" d.id "post"))

unfoldable pub post_document : Db → ℕ → Result (Document × Db)
post_document db document_id = do
  d ← load_document db document_id
  check_postable db d
  keys ← document_stock_keys d.document_type d.warehouse_id d.destination_warehouse_id d.lines
  let (starting, db') = load_balance_quantities db keys
  planned ← rules_as_conflict (
      plan_document_movements d.document_type d.warehouse_id d.destination_warehouse_id d.lines
        starting)
  ok (finish_post d planned db')

-- `_active_document_allocations`: the posted payments' allocations to a document, each with the
-- type of its payment
abbrev pub allocations_to : ℕ → Payment → List (PaymentType × ℤ)
allocations_to document_id p =
    if is_posted p.status
    then map (λ (a : PaymentAllocation). (p.payment_type, a.amount))
        (filter (λ (a : PaymentAllocation). a.document_id == document_id) p.allocations)
    else []

abbrev pub active_allocations : ℕ → List Payment → List (PaymentType × ℤ)
active_allocations document_id [] = []
active_allocations document_id (p ∷ ps) =
    allocations_to document_id p ++ active_allocations document_id ps

abbrev pub allocated_total : List (PaymentType × ℤ) → ℤ
allocated_total [] = pos 0
allocated_total ((_, amount) ∷ rest) = amount +ℤ allocated_total rest

abbrev pub is_customer_payment : PaymentType → Bool
is_customer_payment customer_payment = true
is_customer_payment _ = false

abbrev pub is_supplier_payment : PaymentType → Bool
is_supplier_payment supplier_payment = true
is_supplier_payment _ = false

-- whether a payment's type is the one that the document's type expects
abbrev pub expects : DocumentType → PaymentType → Bool
expects outgoing t = is_customer_payment t
expects incoming t = is_supplier_payment t
expects _ t = false

abbrev pub expects_payments : DocumentType → Bool
expects_payments outgoing = true
expects_payments incoming = true
expects_payments _ = false

-- `_validate_repost_allocations`
unfoldable pub validate_repost_allocations : Db → Document → Document → Result (Unit {0})
validate_repost_allocations db d candidate =
    let allocations = active_allocations d.id db.payments in
    if is_empty_list allocations then ok tt else (do
      raise_if
          (not (same_option candidate.partner_id d.partner_id)
            || not (expects_payments candidate.document_type))
          409 "Reallocate posted payments before changing document partner or type"
      raise_if (any (λ a. not (expects candidate.document_type a.0)) allocations) 409
          "Reallocate posted payments before changing document type"
      raise_if (ltb_ℤ candidate.total_amount (allocated_total allocations)) 409
          "Reallocate posted payments before reducing document total")
