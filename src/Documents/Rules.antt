-- ===== src/Documents/Rules.antt =====
-- The validation and price helpers of documents_service.py, with `get_currency` and
-- `seed_default_currencies` of currency_service.py.
use faethon_system.Base.{
  ℕ, ℤ, pos, ◌*ℤ◌, leb_ℤ, ltb_ℤ, eqb_ℤ, sum_ℤ, Text, text, is_empty, Bool, true, false, not, ◌&&◌,
  ◌==◌, if◌then◌else◌, same_option, is_some, get_or, Option, none, some, List, [], ◌∷◌, ◌++◌, map,
  find, any, update_where, Result, ok, err, http, ◌>>=◌, ◌>>◌, raise_if, or_raise,
}
use faethon_system.Base.Decimal.{quantize}
use faethon_system.Models.{
  Db, Document, DocumentLine, DocumentType, incoming, outgoing, adjustment, transfer, Status, draft,
  Partner, PartnerType, supplier, customer, both, Product, Currency, get_partner, get_product,
  has_warehouse,
}

abbrev pub is_incoming : DocumentType → Bool
is_incoming incoming = true
is_incoming _ = false

abbrev pub is_transfer : DocumentType → Bool
is_transfer transfer = true
is_transfer _ = false

abbrev pub is_adjustment : DocumentType → Bool
is_adjustment adjustment = true
is_adjustment _ = false

abbrev pub same_type : DocumentType → DocumentType → Bool
same_type incoming incoming = true
same_type outgoing outgoing = true
same_type adjustment adjustment = true
same_type transfer transfer = true
same_type DocumentType.other DocumentType.other = true
same_type _ _ = false

-- `document_type in _valid_document_types()`
abbrev pub is_valid_type : DocumentType → Bool
is_valid_type DocumentType.other = false
is_valid_type _ = true

abbrev pub is_draft : Status → Bool
is_draft draft = true
is_draft _ = false

-- A quantity in thousandths times a price in hundredths, quantized to hundredths.
unfoldable pub line_total : ℤ → ℤ → ℤ
line_total quantity price = quantize 1000 (quantity *ℤ price)

-- 1 in millionths, the scale of exchange rates
abbrev pub one_rate : ℤ
one_rate = pos 1000000

-- `_normalize_rate`: a rate of zero is falsy, and counts as missing
unfoldable pub normalize_rate : Option ℤ → Result ℤ
normalize_rate value =
    let rate : ℤ = elim value [
      | none ↦ one_rate
      | some r ↦ if eqb_ℤ r (pos 0) then one_rate else r
    ] in
    raise_if (leb_ℤ rate (pos 0)) 422 "Exchange rate must be greater than zero" >> ok rate

-- `_base_price`; a document and a `_RepostCandidate` pass their type and rate
unfoldable pub base_price : DocumentType → ℤ → ℤ → Option ℤ → ℤ
base_price type rate price foreign_price =
    if is_incoming type
    then quantize 1000000 (get_or foreign_price price *ℤ rate)
    else quantize 1 price

-- `line.foreign_line_total or line.line_total`: a foreign total of zero is falsy
unfoldable pub foreign_or_line_total : DocumentLine → ℤ
foreign_or_line_total l = elim l.foreign_line_total [
  | none ↦ l.line_total
  | some t ↦ if eqb_ℤ t (pos 0) then l.line_total else t
]

unfoldable pub lines_total : List DocumentLine → ℤ
lines_total lines = sum_ℤ (map (λ (l : DocumentLine). l.line_total) lines)

unfoldable pub lines_foreign_total : List DocumentLine → ℤ
lines_foreign_total lines = sum_ℤ (map foreign_or_line_total lines)

-- `_recalculate_total`
unfoldable pub recalculate_total : Document → Document
recalculate_total d = record d {
  total_amount = lines_total d.lines;
  foreign_total_amount = lines_foreign_total d.lines;
}

-- `_ensure_draft`
unfoldable pub ensure_draft : Document → Result (Unit {0})
ensure_draft d = raise_if (not (is_draft d.status)) 409 "Only draft documents can be edited"

abbrev pub is_supplier : PartnerType → Bool
is_supplier supplier = true
is_supplier both = true
is_supplier _ = false

abbrev pub is_customer : PartnerType → Bool
is_customer customer = true
is_customer both = true
is_customer _ = false

-- the part of `_validate_document_partner` for an incoming or outgoing document, and for a type
-- that the callers have ruled out
abbrev pub check_partner : DocumentType → Partner → Result (Unit {0})
check_partner incoming p =
    raise_if (not (is_supplier p.partner_type)) 409 "Incoming document requires supplier partner"
check_partner outgoing p =
    raise_if (not (is_customer p.partner_type)) 409 "Outgoing document requires customer partner"
check_partner _ p = ok tt

unfoldable pub validate_document_partner : Db → DocumentType → Option ℕ → Result (Unit {0})
validate_document_partner db transfer partner_id =
    raise_if (is_some partner_id) 422 "Transfer document must not have partner"
validate_document_partner db adjustment partner_id = ok tt
validate_document_partner db incoming none =
    err (http 422 "Incoming document requires supplier partner")
validate_document_partner db outgoing none =
    err (http 422 "Outgoing document requires customer partner")
validate_document_partner db DocumentType.other none = err (http 404 "Partner not found")
validate_document_partner db type (some id) = do
  partner ← or_raise (get_partner db id) 404 "Partner not found"
  check_partner type partner

-- `id is not None and db.get(Warehouse, id) is None`
abbrev pub unknown_warehouse : Db → Option ℕ → Bool
unknown_warehouse db none = false
unknown_warehouse db (some w) = not (has_warehouse db w)

unfoldable pub validate_document_warehouse_references :
    Db → DocumentType → Option ℕ → Option ℕ → Result (Unit {0})
validate_document_warehouse_references db type warehouse_id destination_id = do
  raise_if (unknown_warehouse db warehouse_id) 404 "Warehouse not found"
  raise_if (unknown_warehouse db destination_id) 404 "Destination warehouse not found"
  raise_if (not (is_transfer type) && is_some destination_id) 422
      "Destination warehouse is only valid for transfer documents"
  raise_if (is_some warehouse_id && same_option destination_id warehouse_id) 422
      "Transfer warehouses must be different"

-- `_validate_document_warehouses`, of a document's type and warehouses
unfoldable pub validate_document_warehouses :
    Db → DocumentType → Option ℕ → Option ℕ → Result (Unit {0})
validate_document_warehouses db type warehouse_id destination_id = do
  raise_if (not (is_some warehouse_id)) 422 "Document warehouse is required"
  validate_document_warehouse_references db type warehouse_id destination_id
  raise_if (is_transfer type && not (is_some destination_id)) 422
      "Transfer document destination warehouse is required"
  raise_if (is_transfer type && same_option destination_id warehouse_id) 422
      "Transfer warehouses must be different"
  raise_if (not (is_transfer type) && is_some destination_id) 422
      "Destination warehouse is only valid for transfer documents"

unfoldable pub validate_document_line : Db → DocumentType → ℕ → ℤ → Result Product
validate_document_line db type product_id quantity = do
  product ← or_raise (get_product db product_id) 404 "Product not found"
  raise_if (not product.is_active) 409 "Inactive product cannot be used in a document"
  raise_if (not (is_adjustment type) && leb_ℤ quantity (pos 0)) 422
      "Document line quantity must be greater than zero"
  raise_if (ltb_ℤ quantity (pos 0)) 422 "Document line quantity cannot be negative"
  ok product

abbrev pub same_text : Text → Text → Bool
same_text [] [] = true
same_text (c ∷ cs) (d ∷ ds) = c == d && same_text cs ds
same_text _ _ = false

abbrev pub base_currency_code : Text
base_currency_code = text "RUB_PMR"

-- `DEFAULT_CURRENCIES`, without the names and symbols
abbrev pub default_currencies : List (Text × Bool)
default_currencies =
    (base_currency_code, true)
    ∷ (text "MDL", false)
    ∷ (text "USD", false)
    ∷ (text "EUR", false)
    ∷ []

unfoldable pub seed_currency : Text × Bool → List Currency → List Currency
seed_currency (code, is_base) rows =
    if any (λ (c : Currency). same_text c.code code) rows
    then update_where (λ (c : Currency). same_text c.code code)
        (λ c. record c { is_base = is_base }) rows
    else rows ++ record { code = code; is_base = is_base } ∷ []

unfoldable pub seed_currencies : List (Text × Bool) → List Currency → List Currency
seed_currencies [] rows = rows
seed_currencies (d ∷ ds) rows = seed_currencies ds (seed_currency d rows)

unfoldable pub seed_default_currencies : Db → Db
seed_default_currencies db = record db {
  currencies = seed_currencies default_currencies db.currencies;
}

unfoldable pub get_currency : Db → Text → Result (Currency × Db)
get_currency db code = do
  let db' = seed_default_currencies db
  currency ←
      or_raise (find (λ (c : Currency). same_text c.code code) db'.currencies) 404
        "Currency not found"
  ok (currency, db')

abbrev pub rate_for : Currency → Option ℤ → Result ℤ
rate_for c exchange_rate = if c.is_base then ok one_rate else normalize_rate exchange_rate

-- `exchange_rate not in {None, Decimal("1")}`
abbrev pub is_foreign_rate : Option ℤ → Bool
is_foreign_rate none = false
is_foreign_rate (some r) = not (eqb_ℤ r one_rate)

-- `_normalize_document_currency`: the currency code, the rate, and the session with its currencies
unfoldable pub normalize_document_currency :
    Db → DocumentType → Option Text → Option ℤ → Result (Text × ℤ × Db)
normalize_document_currency db type currency_code exchange_rate =
    if not (is_incoming type) then ok (base_currency_code, one_rate, db) else (do
      let given = get_or currency_code []
      let code = if is_empty given then base_currency_code else given
      found ← get_currency db code
      rate ← rate_for found.0 exchange_rate
      raise_if (found.0.is_base && is_foreign_rate exchange_rate) 422 "Base currency rate must be 1"
      ok (found.0.code, rate, found.1))
