-- ===== src/Documents/Posting/Frame.antt =====
-- What currencies, document numbers and the building of a repost candidate change.
use faethon_system.Base.{
  ℤ, Bool, true, false, not, if◌then◌else◌, Bool-cases, inl, inr, Option, some, [], Text, strip,
  is_empty, get_or, ok, raise_if, or_raise, >>=-eq-ok, >>-eq-ok, ok-injective, ◌≡◌, refl, subst,
  find, ◌&&◌,
}
use faethon_system.Models.{Db, Document, DocumentType, Currency}
use faethon_system.Logistics.Frame.{SameBooks, SameBooks-refl, SameBooks-trans}
use faethon_system.Documents.Rules.{
  is_incoming, get_currency, seed_default_currencies, normalize_document_currency,
  base_currency_code, same_text, rate_for, is_foreign_rate, is_valid_type,
  validate_document_partner, validate_document_warehouse_references, validate_document_warehouses,
}
use faethon_system.Documents.Numbers.{
  document_prefix, generate_document_number, reserve_document_number, normalize_document_number,
  starts_with, dashed, isdigit, after_last_dash,
}
use faethon_system.Documents.Posting.{DocumentRepost, build_repost_candidate, make_lines}

-- A session that differs at most in its currencies, sequences and counter.
same_books :
    (db db' : Db)
    → db'.documents ≡ db.documents
    → db'.stock_balances ≡ db.stock_balances
    → db'.stock_movements ≡ db.stock_movements
    → db'.payments ≡ db.payments
    → db'.cash_operations ≡ db.cash_operations
    → SameBooks db db'
same_books db db' a b c d e = record {
  documents = a;
  stock_balances = b;
  stock_movements = c;
  payments = d;
  cash_operations = e;
}

seed-SameBooks : (db : Db) → SameBooks db (seed_default_currencies db)
unfolding seed_default_currencies
seed-SameBooks db = same_books db _ refl refl refl refl refl

get_currency-SameBooks :
    (db : Db) (code : Text) (r : Currency × Db) → get_currency db code ≡ ok r → SameBooks db r.1
unfolding get_currency
get_currency-SameBooks db code r h =
    let (c, e0, h0) =
      >>=-eq-ok
        (or_raise
          (find (λ (c : Currency). same_text c.code code) (seed_default_currencies db).currencies)
          404 "Currency not found")
        _ h in
    subst (λ (r : Currency × Db). SameBooks db r.1) (ok-injective h0) (seed-SameBooks db)

pub normalize_document_currency-SameBooks :
    (db : Db) (type : DocumentType) (code : Option Text) (rate : Option ℤ) (r : Text × ℤ × Db)
    → normalize_document_currency db type code rate ≡ ok r
    → SameBooks db r.2
unfolding normalize_document_currency
normalize_document_currency-SameBooks db type code rate r h = elim (Bool-cases (is_incoming type)) [
  | inr e ↦
      subst (λ (r : Text × ℤ × Db). SameBooks db r.2) (ok-injective (rw e at h)) (SameBooks-refl db)
  | inl e ↦
      let h' = rw e at h in
      let given = get_or code [] in
      let (found, e0, h0) =
        >>=-eq-ok (get_currency db (if is_empty given then base_currency_code else given)) _ h' in
      let (rate', e1, h1) = >>=-eq-ok (rate_for found.0 rate) _ h0 in
      let (e2, h2) =
        >>-eq-ok
          (raise_if (found.0.is_base && is_foreign_rate rate) 422 "Base currency rate must be 1") _
          h1 in
      subst (λ (r : Text × ℤ × Db). SameBooks db r.2) (ok-injective h2)
        (get_currency-SameBooks db (if is_empty given then base_currency_code else given) found e0)
]

generate-SameBooks :
    (db : Db) (type : DocumentType) (r : Text × Db)
    → generate_document_number db type ≡ ok r
    → SameBooks db r.1
unfolding generate_document_number
generate-SameBooks db type r h =
    let (prefix, e0, h0) = >>=-eq-ok (document_prefix type) _ h in
    subst (λ (r : Text × Db). SameBooks db r.1) (ok-injective h0)
      (same_books db _ refl refl refl refl refl)

if-SameBooks :
    (b : Bool) (db x y : Db) → SameBooks db x → SameBooks db y → SameBooks db (if b then x else y)
if-SameBooks true db x y p q = p
if-SameBooks false db x y p q = q

reserve-SameBooks :
    (db : Db) (type : DocumentType) (number : Text) (db' : Db)
    → reserve_document_number db type number ≡ ok db'
    → SameBooks db db'
unfolding reserve_document_number
reserve-SameBooks db type number db' h =
    let (prefix, e0, h0) = >>=-eq-ok (document_prefix type) _ h in
    subst (SameBooks db) (ok-injective h0) (
      if-SameBooks (starts_with (dashed prefix) number && isdigit (after_last_dash number)) db _ db
        (same_books db _ refl refl refl refl refl) (SameBooks-refl db))

pub normalize_document_number-SameBooks :
    (db : Db) (type : DocumentType) (number : Option Text) (r : Text × Db)
    → normalize_document_number db type number ≡ ok r
    → SameBooks db r.1
unfolding normalize_document_number
normalize_document_number-SameBooks db type number r h =
    elim (Bool-cases (is_empty (strip (get_or number [])))) [
      | inl e ↦ generate-SameBooks db type r (rw e at h)
      | inr e ↦
          let h' = rw e at h in
          let (db', e0, h0) =
            >>=-eq-ok (reserve_document_number db type (strip (get_or number []))) _ h' in
          subst (λ (r : Text × Db). SameBooks db r.1) (ok-injective h0)
            (reserve-SameBooks db type (strip (get_or number [])) db' e0)
    ]

-- A candidate keeps the document's key and version, and its status.
pub record Candidate (db : Db) (d : Document) (r : Document × Db) : Type 0 where
  pub books : SameBooks db r.1
  pub same_id : r.0.id ≡ d.id
  pub same_version : r.0.posting_version ≡ d.posting_version
  pub same_status : r.0.status ≡ d.status

pub build-Candidate :
    (db : Db) (d : Document) (payload : DocumentRepost) (r : Document × Db)
    → build_repost_candidate db d payload ≡ ok r
    → Candidate db d r
unfolding build_repost_candidate
build-Candidate db d payload r h =
    let (e0, h0) =
      >>-eq-ok (raise_if (not (is_valid_type payload.document_type)) 422 "Invalid document type") _
        h in
    let (e1, h1) =
      >>-eq-ok (validate_document_partner db payload.document_type payload.partner_id) _ h0 in
    let (e2, h2) =
      >>-eq-ok
        (validate_document_warehouse_references db payload.document_type payload.warehouse_id
          payload.destination_warehouse_id)
        _ h1 in
    let (currency, e3, h3) =
      >>=-eq-ok
        (normalize_document_currency db payload.document_type (some payload.currency_code)
          (some payload.exchange_rate))
        _ h2 in
    let (numbered, e4, h4) =
      >>=-eq-ok (normalize_document_number currency.2 payload.document_type payload.number) _ h3 in
    let (e5, h5) =
      >>-eq-ok
        (validate_document_warehouses numbered.1 payload.document_type payload.warehouse_id
          payload.destination_warehouse_id)
        _ h4 in
    let (lines, e6, h6) =
      >>=-eq-ok
        (make_lines numbered.1 numbered.1.next_id payload.document_type currency.1 payload.lines) _
        h5 in
    let books =
      SameBooks-trans db currency.2 numbered.1
        (normalize_document_currency-SameBooks db payload.document_type (some payload.currency_code)
          (some payload.exchange_rate) currency e3)
        (normalize_document_number-SameBooks currency.2 payload.document_type payload.number
          numbered e4) in
    subst (Candidate db d) (ok-injective h6) (record {
      books =
          same_books db _ books.documents books.stock_balances books.stock_movements books.payments
            books.cash_operations;
      same_id = refl;
      same_version = refl;
      same_status = refl;
    })
