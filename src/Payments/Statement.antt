-- ===== src/Payments/Statement.antt =====
-- Partner balances and statements of payments_service.py. The `source_number` of a row, which takes
-- no part in its order or its balance, is not modelled.
use faethon_system.Base.{
  ℕ, ℤ, pos, ◌+ℤ◌, ◌-ℤ◌, neg, ltb_ℤ, Bool, true, false, ◌&&◌, ◌||◌, ltb, leb, ◌==◌, if◌then◌else◌,
  same_option, some, List, [], ◌∷◌, ◌++◌, map, filter, Result, ok, ◌>>=◌, or_raise,
}
use faethon_system.Base.Sort.{sort}
use faethon_system.Models.{
  Db, Document, DocumentType, incoming, outgoing, Status, Payment, PaymentType, customer_payment,
  supplier_payment, refund, get_partner,
}
use faethon_system.Logistics.{is_posted}

-- `_document_balance_effect`: positive where the partner owes
unfoldable pub document_balance_effect : Document → ℤ
document_balance_effect d =
    if is_posted d.status
    then elim d.document_type [
      | outgoing ↦ d.total_amount
      | incoming ↦ neg d.total_amount
      | _ ↦ pos 0
    ]
    else pos 0

-- `_payment_balance_effect`
unfoldable pub payment_balance_effect : Payment → ℤ
payment_balance_effect p =
    if is_posted p.status
    then elim p.payment_type [
      | customer_payment ↦ neg p.amount
      | supplier_payment ↦ p.amount
      | refund ↦ p.amount
      | PaymentType.other ↦ pos 0
    ]
    else pos 0

abbrev pub document_of : ℕ → Document → Bool
document_of partner_id d = same_option d.partner_id (some partner_id)

abbrev pub payment_by : ℕ → Payment → Bool
payment_by partner_id p = same_option p.partner_id (some partner_id)

abbrev pub sum_effects {ℓ} : {A : Type ℓ} → (A → ℤ) → List A → ℤ
sum_effects f [] = pos 0
sum_effects f (x ∷ xs) = f x +ℤ sum_effects f xs

abbrev pub is_outgoing_type : DocumentType → Bool
is_outgoing_type outgoing = true
is_outgoing_type _ = false

abbrev pub is_incoming_type : DocumentType → Bool
is_incoming_type incoming = true
is_incoming_type _ = false

abbrev pub is_customer_payment : PaymentType → Bool
is_customer_payment customer_payment = true
is_customer_payment _ = false

-- `payment_type.in_((TYPE_SUPPLIER_PAYMENT, TYPE_REFUND))`
abbrev pub is_supplier_payment_or_refund : PaymentType → Bool
is_supplier_payment_or_refund supplier_payment = true
is_supplier_payment_or_refund refund = true
is_supplier_payment_or_refund _ = false

-- the SQL expression `document_effect`
unfoldable pub document_effect : Document → ℤ
document_effect d =
    if is_posted d.status && is_outgoing_type d.document_type
    then d.total_amount
    else if is_posted d.status && is_incoming_type d.document_type
    then neg d.total_amount
    else pos 0

-- the SQL expression `payment_effect`
unfoldable pub payment_effect : Payment → ℤ
payment_effect p =
    if is_posted p.status && is_customer_payment p.payment_type
    then neg p.amount
    else if is_posted p.status && is_supplier_payment_or_refund p.payment_type
    then p.amount
    else pos 0

-- `get_partner_balance_values` at one partner: the two grouped sums of the SQL expressions
unfoldable pub partner_balance : Db → ℕ → ℤ
partner_balance db partner_id =
    sum_effects document_effect (filter (document_of partner_id) db.documents)
    +ℤ sum_effects payment_effect (filter (payment_by partner_id) db.payments)

-- `get_partner_balance`
unfoldable pub get_partner_balance : Db → ℕ → Result ℤ
get_partner_balance db partner_id = do
  partner ← or_raise (get_partner db partner_id) 404 "Partner not found"
  ok (partner_balance db partner_id)

pub data Source : Type 0 where
  document payment : Source

-- a row before its balance is known
pub record RawRow : Type 0 where
  pub date : ℕ
  pub source_type : Source
  pub source_id : ℕ
  pub debit : ℤ
  pub credit : ℤ
  pub status : Status

abbrev pub debit_of : ℤ → ℤ
debit_of effect = if ltb_ℤ (pos 0) effect then effect else pos 0

abbrev pub credit_of : ℤ → ℤ
credit_of effect = if ltb_ℤ effect (pos 0) then neg effect else pos 0

unfoldable pub document_row : Document → RawRow
document_row d = record {
  date = d.document_date;
  source_type = document;
  source_id = d.id;
  debit = debit_of (document_balance_effect d);
  credit = credit_of (document_balance_effect d);
  status = d.status;
}

unfoldable pub payment_row : Payment → RawRow
payment_row p = record {
  date = p.payment_date;
  source_type = payment;
  source_id = p.id;
  debit = debit_of (payment_balance_effect p);
  credit = credit_of (payment_balance_effect p);
  status = p.status;
}

-- "document" comes before "payment"
abbrev pub source_rank : Source → ℕ
source_rank document = 0
source_rank payment = 1

-- the order of the key (date, source type, source id)
abbrev pub row_before : RawRow → RawRow → Bool
row_before a b =
    ltb a.date b.date
    || (a.date == b.date
        && (ltb (source_rank a.source_type) (source_rank b.source_type)
            || (source_rank a.source_type == source_rank b.source_type
                && leb a.source_id b.source_id)))

-- `PartnerStatementRow`
abbrev pub StatementRow : Type 0
StatementRow = RawRow × ℤ

-- the loop that adds the running balance
unfoldable pub running_rows : ℤ → List RawRow → List StatementRow
running_rows balance [] = []
running_rows balance (r ∷ rs) =
    (r, balance +ℤ (r.debit -ℤ r.credit)) ∷ running_rows (balance +ℤ (r.debit -ℤ r.credit)) rs

unfoldable pub raw_rows : Db → ℕ → List RawRow
raw_rows db partner_id =
    map document_row (filter (document_of partner_id) db.documents)
    ++ map payment_row (filter (payment_by partner_id) db.payments)

unfoldable pub get_partner_statement : Db → ℕ → Result (List StatementRow)
get_partner_statement db partner_id = do
  partner ← or_raise (get_partner db partner_id) 404 "Partner not found"
  ok (running_rows (pos 0) (sort row_before (raw_rows db partner_id)))
