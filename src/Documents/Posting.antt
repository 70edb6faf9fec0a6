-- ===== src/Documents/Posting.antt =====
-- `post_document`, `repost_document` and `cancel_document`.
--
-- Each call ends in one commit or in an exception; the service turns its own `DocumentRulesError`
-- and a violated constraint into a 409. `now` is the clock's value.
pub mod Applying
pub mod Ledger
pub mod Post
pub mod Frame
pub mod Crashes
pub mod Totality
pub mod Postable
pub mod Lifecycle
pub mod Undo
pub mod Repost
unfoldable pub use Applying.*
use faethon_system.Base.{
  ℕ, ◌+◌, ℤ, pos, ◌+ℤ◌, ◌-ℤ◌, neg, ltb_ℤ, sum_ℤ, eqb_ℤ, String, Text, text, strip, length, Bool,
  true, false, not, ◌&&◌, ◌||◌, ltb, ◌==◌, if◌then◌else◌, same_option, is_some, get_or, Option,
  none, some, List, [], ◌∷◌, ◌++◌, map, filter, find, any, Result, ok, err, http, rules, crash,
  ◌>>=◌, ◌>>◌, raise_if, or_raise, rules_as_conflict,
}
use faethon_system.Models.{
  Db, Document, DocumentLine, DocumentType, incoming, outgoing, Status, draft, StockMovement,
  MovementKind, apply, Payment, PaymentAllocation, PaymentType, customer_payment, supplier_payment,
  put_document, write_audit,
}
use faethon_system.Logistics.{
  is_posted, create_tasks_for_document, cancel_active_tasks_for_document_version,
}
use faethon_system.Documents.Rules.{
  is_valid_type, is_draft, lines_total, lines_foreign_total, validate_document_partner,
  validate_document_warehouse_references, validate_document_warehouses, validate_document_line,
  normalize_document_currency,
}
use faethon_system.Documents.Numbers.{normalize_document_number, number_taken}
use faethon_system.Documents.Stock.{
  Key, Quantities, Movement, movement_key, add_keys, document_stock_keys, load_balance_quantities,
  add_to_key, read_key, set_key, plan_document_movements, write_stock_movements,
  active_posting_movements, apply_balance_quantities,
}
use faethon_system.Documents.Drafts.{load_document, LineCreate, make_line, validate_lines}

-- `DocumentRepost`
pub record DocumentRepost : Type 0 where
  pub document_type : DocumentType
  pub number : Option Text
  pub document_date : ℕ
  pub partner_id : Option ℕ
  pub warehouse_id : Option ℕ
  pub destination_warehouse_id : Option ℕ
  pub currency_code : Text
  pub exchange_rate : ℤ
  pub note : Option Text
  pub reason : Text
  pub lines : List LineCreate

-- the loop over the payload's lines; the new lines get the keys from `id` on
unfoldable pub make_lines : Db → ℕ → DocumentType → ℤ → List LineCreate → Result (List DocumentLine)
make_lines db id type rate [] = ok []
make_lines db id type rate (l ∷ ls) = do
  product ← validate_document_line db type l.product_id l.quantity
  rest ← make_lines db (id + 1) type rate ls
  ok (make_line id type rate l ∷ rest)

-- `_build_repost_candidate`: what `document` is to become
unfoldable pub build_repost_candidate : Db → Document → DocumentRepost → Result (Document × Db)
build_repost_candidate db d payload = do
  raise_if (not (is_valid_type payload.document_type)) 422 "Invalid document type"
  validate_document_partner db payload.document_type payload.partner_id
  validate_document_warehouse_references db payload.document_type payload.warehouse_id
      payload.destination_warehouse_id
  currency ←
      normalize_document_currency db payload.document_type (some payload.currency_code)
        (some payload.exchange_rate)
  numbered ← normalize_document_number currency.2 payload.document_type payload.number
  let db' = numbered.1
  validate_document_warehouses db' payload.document_type payload.warehouse_id
      payload.destination_warehouse_id
  lines ← make_lines db' db'.next_id payload.document_type currency.1 payload.lines
  let candidate = record d {
    document_type = payload.document_type;
    number = numbered.0;
    document_date = payload.document_date;
    partner_id = payload.partner_id;
    warehouse_id = payload.warehouse_id;
    destination_warehouse_id = payload.destination_warehouse_id;
    total_amount = lines_total lines;
    currency_code = currency.0;
    exchange_rate = currency.1;
    foreign_total_amount = lines_foreign_total lines;
    note = payload.note;
    lines = lines;
  }
  ok (candidate, record db' { next_id = db'.next_id + length lines })

abbrev pub movement_of : StockMovement → Movement
movement_of m = (m.product_id, m.warehouse_id, m.quantity_delta)

abbrev pub reversed : Movement → Movement
reversed (p, w, delta) = (p, w, neg delta)

-- `quantities[key] -= movement.quantity_delta`, movement by movement
unfoldable pub take_back : List Movement → Quantities → Result Quantities
take_back [] qs = ok qs
take_back (m ∷ ms) qs = do
  q ← read_key (movement_key m) qs
  take_back ms (set_key (movement_key m) (q -ℤ m.2) qs)

-- the reason of the cancelled tasks
unfoldable pub repost_reason : Text
repost_reason = text "Документ исправлен и перепроведён"

-- the reverse movements, the new version, its movements, revision, audit entry and tasks
unfoldable pub finish_repost :
    Document → Document → Text → List Movement → Planned → ℕ → Db → Document × Db
finish_repost d candidate reason old (movements, final) now db =
    let version = d.posting_version + 1 in
    let d' : Document = record candidate { posting_version = version } in
    let db1 = apply_balance_quantities final db in
    let db2 =
      write_stock_movements d d.posting_version MovementKind.reverse (map reversed old)
        "repost_reverse" db1 in
    let db3 =
      write_stock_movements d' version apply movements "repost_apply" (put_document d' db2) in
    let db4 = write_audit (store_revision d' version reason db3) "document" d.id "repost" in
    let db5 =
      cancel_active_tasks_for_document_version d.id d.posting_version repost_reason now db4 in
    (d', create_tasks_for_document d' db5)

-- the reason of a version that was missing
unfoldable pub recovered_reason : Text
recovered_reason = text "Recovered posted version"

-- the transaction of `repost_document`; a number that another document has violates
-- `uq_documents_number`, and the 409 carries the database's message
unfoldable pub repost_transaction : Db → Document → DocumentRepost → ℕ → Result (Document × Db)
repost_transaction db d payload now = do
  let db1 = store_revision d d.posting_version recovered_reason db
  built ← build_repost_candidate db1 d payload
  let candidate = built.0
  validate_repost_allocations built.1 d candidate
  let old = map movement_of (active_posting_movements built.1 d)
  rules_if (is_empty_list old) "Posted document has no active stock movements"
  new_keys ←
      document_stock_keys candidate.document_type candidate.warehouse_id
        candidate.destination_warehouse_id candidate.lines
  let (current, db2) =
      load_balance_quantities built.1 (add_keys new_keys (add_keys (map movement_key old) []))
  baseline ← take_back old current
  planned ←
      plan_document_movements candidate.document_type candidate.warehouse_id
        candidate.destination_warehouse_id candidate.lines baseline
  raise_if (number_taken db2 d.id candidate.number) 409 "uq_documents_number"
  ok (finish_repost d candidate (strip payload.reason) old planned now db2)

unfoldable pub repost_document : Db → ℕ → DocumentRepost → ℕ → Result (Document × Db)
repost_document db document_id payload now = do
  d ← load_document db document_id
  raise_if (not (is_posted d.status)) 409 "Only posted documents can be corrected"
  raise_if (ltb (length (strip payload.reason)) 3) 422
      "Correction reason must contain at least 3 characters"
  rules_as_conflict (repost_transaction db d payload now)

-- the loop of `cancel_document`, with its test after each movement
unfoldable pub take_back_checked : List Movement → Quantities → Result Quantities
take_back_checked [] qs = ok qs
take_back_checked (m ∷ ms) qs = do
  q ← read_key (movement_key m) qs
  rules_if (ltb_ℤ (q -ℤ m.2) (pos 0)) "Cancellation would make stock negative"
  take_back_checked ms (set_key (movement_key m) (q -ℤ m.2) qs)

-- the reason of the cancelled tasks
unfoldable pub cancel_reason : Text
cancel_reason = text "Документ отменён"

unfoldable pub finish_cancel : Document → List Movement → Quantities → ℕ → Db → Document × Db
finish_cancel d movements final now db =
    let d' : Document = record d { status = Status.cancelled } in
    let db1 = apply_balance_quantities final db in
    let db2 =
      write_stock_movements d d.posting_version MovementKind.reverse (map reversed movements)
        "cancel" db1 in
    let db3 =
      cancel_active_tasks_for_document_version d.id d.posting_version cancel_reason now
        (put_document d' db2) in
    (d', write_audit db3 "document" d.id "cancel")

unfoldable pub cancel_document : Db → ℕ → ℕ → Result (Document × Db)
cancel_document db document_id now = do
  d ← load_document db document_id
  raise_if (not (is_posted d.status)) 409 "Only posted documents can be cancelled"
  raise_if (not (is_empty_list (active_allocations d.id db.payments))) 409
      "Reallocate posted payments before cancelling document"
  validate_document_warehouses db d.document_type d.warehouse_id d.destination_warehouse_id
  let movements = map movement_of (active_posting_movements db d)
  raise_if (is_empty_list movements) 409 "Posted document has no active stock movements"
  let (starting, db') = load_balance_quantities db (add_keys (map movement_key movements) [])
  final ← rules_as_conflict (take_back_checked movements starting)
  ok (finish_cancel d movements final now db')
