-- ===== src/Documents/Drafts.antt =====
-- Draft documents: `create_document`, `add_document_line`, `update_document_line`,
-- `update_document_header`, `delete_document_line` and `delete_draft_document`.
--
-- In an update payload `none` is a field that the request does not set. An explicit null for a
-- column that is not nullable is not modelled.
use faethon_system.Base.{
  ℕ, ◌+◌, ℤ, pos, Text, not, ◌&&◌, ◌||◌, ◌==◌, if◌then◌else◌, is_some, get_or, Option, none, some,
  List, [], ◌∷◌, ◌++◌, map, filter, find, update_where, Result, ok, ◌>>=◌, ◌>>◌, raise_if, or_raise,
}
use faethon_system.Base.Decimal.{quantize}
use faethon_system.Models.{
  Db, Document, DocumentLine, DocumentType, draft, get_document, put_document, write_audit,
}
use faethon_system.Documents.Rules.{
  is_incoming, same_type, is_valid_type, is_draft, line_total, base_price, recalculate_total,
  ensure_draft, validate_document_partner, validate_document_warehouse_references,
  validate_document_line, normalize_document_currency,
}
use faethon_system.Documents.Numbers.{
  normalize_document_number, generate_document_number, number_taken,
}

-- `_load_document`
unfoldable pub load_document : Db → ℕ → Result Document
load_document db id = or_raise (get_document db id) 404 "Document not found"

pub record DocumentCreate : Type 0 where
  pub document_type : DocumentType
  pub number : Option Text
  pub document_date : ℕ
  pub partner_id : Option ℕ
  pub warehouse_id : Option ℕ
  pub destination_warehouse_id : Option ℕ
  pub currency_code : Text
  pub exchange_rate : ℤ
  pub note : Option Text

unfoldable pub new_document : ℕ → DocumentCreate → Text → Text → ℤ → Document
new_document id payload number currency_code exchange_rate = record {
  id = id;
  document_type = payload.document_type;
  number = number;
  document_date = payload.document_date;
  status = draft;
  partner_id = payload.partner_id;
  warehouse_id = payload.warehouse_id;
  destination_warehouse_id = payload.destination_warehouse_id;
  total_amount = pos 0;
  currency_code = currency_code;
  exchange_rate = exchange_rate;
  foreign_total_amount = pos 0;
  posting_version = 0;
  note = payload.note;
  lines = [];
}

unfoldable pub create_document : Db → DocumentCreate → Result (Document × Db)
create_document db payload = do
  raise_if (not (is_valid_type payload.document_type)) 422 "Invalid document type"
  validate_document_partner db payload.document_type payload.partner_id
  validate_document_warehouse_references db payload.document_type payload.warehouse_id
      payload.destination_warehouse_id
  currency ←
      normalize_document_currency db payload.document_type (some payload.currency_code)
        (some payload.exchange_rate)
  numbered ← normalize_document_number currency.2 payload.document_type payload.number
  let db' = numbered.1
  raise_if (number_taken db' db'.next_id numbered.0) 409 "Document number already exists"
  let document = new_document db'.next_id payload numbered.0 currency.0 currency.1
  let db'' = record db' { next_id = db'.next_id + 1; documents = db'.documents ++ document ∷ [] }
  ok (document, write_audit db'' "document" document.id "create")

-- `DocumentLineCreate`
pub record LineCreate : Type 0 where
  pub product_id : ℕ
  pub quantity : ℤ
  pub price : ℤ
  pub foreign_price : Option ℤ

-- the line that `add_document_line` and `_build_repost_candidate` make from a payload
unfoldable pub make_line : ℕ → DocumentType → ℤ → LineCreate → DocumentLine
make_line id type rate payload =
    let price = base_price type rate payload.price payload.foreign_price in
    let foreign_price : Option ℤ = if is_incoming type then payload.foreign_price else none in
    record {
      id = id;
      product_id = payload.product_id;
      quantity = payload.quantity;
      price = price;
      line_total = line_total payload.quantity price;
      foreign_price = foreign_price;
      foreign_line_total = elim foreign_price [
        | none ↦ none
        | some f ↦ some (line_total payload.quantity f)
      ];
    }

unfoldable pub add_document_line : Db → ℕ → LineCreate → Result (DocumentLine × Db)
add_document_line db document_id payload = do
  document ← load_document db document_id
  ensure_draft document
  product ← validate_document_line db document.document_type payload.product_id payload.quantity
  let line = make_line db.next_id document.document_type document.exchange_rate payload
  let document' = recalculate_total (record document { lines = document.lines ++ line ∷ [] })
  let db' = put_document document' (record db { next_id = db.next_id + 1 })
  ok (line, write_audit db' "document" document.id "add_line")

-- `DocumentLineUpdate`
pub record LineUpdate : Type 0 where
  pub product_id : Option ℕ
  pub quantity : Option ℤ
  pub price : Option ℤ
  pub foreign_price : Option (Option ℤ)

-- `for key, value in values.items(): setattr(line, key, value)`
unfoldable pub set_fields : LineUpdate → DocumentLine → DocumentLine
set_fields values l = record l {
  product_id = get_or values.product_id l.product_id;
  quantity = get_or values.quantity l.quantity;
  price = get_or values.price l.price;
  foreign_price = get_or values.foreign_price l.foreign_price;
}

-- the prices and totals of a line anew, as `update_document_line` and `update_document_header` do
unfoldable pub reprice : DocumentType → ℤ → DocumentLine → DocumentLine
reprice type rate l =
    if is_incoming type
    then (let foreign = get_or l.foreign_price l.price in
        let price = base_price type rate l.price (some foreign) in
        record l {
          price = price;
          line_total = line_total l.quantity price;
          foreign_price = some foreign;
          foreign_line_total = some (line_total l.quantity foreign);
        })
    else (let price = quantize 1 l.price in
        record l {
          price = price;
          line_total = line_total l.quantity price;
          foreign_price = none;
          foreign_line_total = none;
        })

abbrev pub find_line : ℕ → List DocumentLine → Option DocumentLine
find_line id lines = find (λ (l : DocumentLine). l.id == id) lines

-- `line.id == line_id`
abbrev pub put_line : DocumentLine → List DocumentLine → List DocumentLine
put_line line lines = update_where (λ (l : DocumentLine). l.id == line.id) (λ _. line) lines

unfoldable pub update_document_line : Db → ℕ → ℕ → LineUpdate → Result (DocumentLine × Db)
update_document_line db document_id line_id values = do
  document ← load_document db document_id
  ensure_draft document
  line ← or_raise (find_line line_id document.lines) 404 "Document line not found"
  product ←
      validate_document_line db document.document_type (get_or values.product_id line.product_id)
        (get_or values.quantity line.quantity)
  let line' = reprice document.document_type document.exchange_rate (set_fields values line)
  let document' = recalculate_total (record document { lines = put_line line' document.lines })
  ok (line', write_audit (put_document document' db) "document" document.id "update_line")

-- `DocumentUpdate`, without the fields that the service excludes
pub record DocumentUpdate : Type 0 where
  pub document_type : Option DocumentType
  pub number : Option (Option Text)
  pub document_date : Option ℕ
  pub partner_id : Option (Option ℕ)
  pub warehouse_id : Option (Option ℕ)
  pub destination_warehouse_id : Option (Option ℕ)
  pub currency_code : Option (Option Text)
  pub exchange_rate : Option (Option ℤ)
  pub note : Option (Option Text)

-- `values["number"]`
abbrev pub next_number : Db → Document → DocumentType → DocumentUpdate → Result (Text × Db)
next_number db document next_type values = elim values.number [
  | some number ↦ normalize_document_number db next_type number
  | none ↦
      if same_type next_type document.document_type
      then ok (document.number, db)
      else generate_document_number db next_type
]

-- `values["currency_code"], values["exchange_rate"]`
abbrev pub next_currency : Db → Document → DocumentType → DocumentUpdate → Result (Text × ℤ × Db)
next_currency db document next_type values =
    if is_some values.document_type || is_some values.currency_code || is_some values.exchange_rate
    then normalize_document_currency db next_type
        (get_or values.currency_code (some document.currency_code))
        (get_or values.exchange_rate (some document.exchange_rate))
    else ok (document.currency_code, document.exchange_rate, db)

-- the loop that validates the lines
unfoldable pub validate_lines : Db → DocumentType → List DocumentLine → Result (Unit {0})
validate_lines db type [] = ok tt
validate_lines db type (l ∷ ls) = do
  product ← validate_document_line db type l.product_id l.quantity
  validate_lines db type ls

unfoldable pub update_document_header : Db → ℕ → DocumentUpdate → Result (Document × Db)
update_document_header db document_id values = do
  document ← load_document db document_id
  ensure_draft document
  let next_type = get_or values.document_type document.document_type
  raise_if (not (is_valid_type next_type) && is_some values.document_type) 422
      "Invalid document type"
  let partner_id = get_or values.partner_id document.partner_id
  validate_document_partner db next_type partner_id
  let warehouse_id = get_or values.warehouse_id document.warehouse_id
  let destination_id = get_or values.destination_warehouse_id document.destination_warehouse_id
  validate_document_warehouse_references db next_type warehouse_id destination_id
  numbered ← next_number db document next_type values
  currency ← next_currency numbered.1 document next_type values
  let db' = currency.2
  validate_lines db' next_type document.lines
  let document' = recalculate_total (record document {
    document_type = next_type;
    number = numbered.0;
    document_date = get_or values.document_date document.document_date;
    partner_id = partner_id;
    warehouse_id = warehouse_id;
    destination_warehouse_id = destination_id;
    currency_code = currency.0;
    exchange_rate = currency.1;
    note = get_or values.note document.note;
    lines = map (reprice next_type currency.1) document.lines;
  })
  raise_if (number_taken db' document.id numbered.0) 409 "Document number already exists"
  ok (document', write_audit (put_document document' db') "document" document.id "update_header")

unfoldable pub delete_document_line : Db → ℕ → ℕ → Result Db
delete_document_line db document_id line_id = do
  document ← load_document db document_id
  ensure_draft document
  line ← or_raise (find_line line_id document.lines) 404 "Document line not found"
  let document' = recalculate_total (record document {
    lines = filter (λ (l : DocumentLine). not (l.id == line_id)) document.lines;
  })
  ok (write_audit (put_document document' db) "document" document.id "delete_line")

unfoldable pub delete_draft_document : Db → ℕ → Result Db
delete_draft_document db document_id = do
  document ← load_document db document_id
  raise_if (not (is_draft document.status)) 409 "Only draft documents can be deleted"
  let db' = write_audit db "document" document.id "delete_draft"
  ok (record db' { documents = filter (λ (d : Document). not (d.id == document.id)) db'.documents })
