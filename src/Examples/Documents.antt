-- ===== src/Examples/Documents.antt =====
-- documents_service.py on the sample shop.
use faethon_system.Base.{
  ℕ, ◌≤ℤ◌, pos, ◌-ℤ◌, ◌+ℤ◌, ◌*ℤ◌, none, some, ok, ◌≡◌, refl, text, arith, [], ◌∷◌, value_or,
}
use faethon_system.Base.Decimal.{quantize}
use faethon_system.Models.{Db, Document, incoming}
use faethon_system.Documents.Rules.{
  validate_document_warehouses, validate_document_warehouse_references, validate_document_partner,
  validate_document_line, normalize_document_currency, line_total, base_price, lines_total,
  lines_foreign_total, foreign_or_line_total, get_currency, seed_default_currencies,
  seed_currencies, seed_currency, normalize_rate, base_currency_code, one_rate,
}
use faethon_system.Documents.Numbers.{
  normalize_document_number, reserve_document_number, document_prefix, number_taken, isdigit,
}
use faethon_system.Documents.Stock.{
  document_stock_keys, load_balance_quantities, load_quantities, get_balance,
  plan_document_movements, plan_lines, plan_line, line_delta, add_to_key, receive_line,
  check_nonnegative, active_posting_movements,
}
use faethon_system.Documents.Drafts.{load_document, validate_lines, make_line}
use faethon_system.Documents.Posting.{
  post_document, check_postable, finish_post, store_revision, cancel_document, take_back_checked,
  finish_cancel, DocumentRepost, repost_document, repost_transaction, finish_repost,
  build_repost_candidate, make_lines, take_back, recovered_reason, validate_repost_allocations,
}
use faethon_system.Documents.Posting.Ledger.{StockValid}
use faethon_system.Documents.Posting.Post.{post_document-StockValid}
use faethon_system.Documents.Posting.Undo.{cancel_document-StockValid}
use faethon_system.Documents.Posting.Repost.{repost_document-StockValid}
use faethon_system.Documents.Totals.{line_total-near}
use faethon_system.Documents.Rules.{line_total}
use faethon_system.Base.{◌+◌, ◌*◌, ◌≤◌}
use faethon_system.Examples.Sample.{shop, draft_sale}

pub shop-StockValid : StockValid shop
unfolding ◌+ℤ◌
shop-StockValid = record { balanced = λ (p, w). ground arith; nonnegative = omega arith }

abbrev pub sold : Document × Db
sold = value_or (draft_sale, shop) (post_document shop 1)

pub post_succeeds : post_document shop 1 ≡ ok sold
unfolding post_document load_document check_postable validate_document_warehouses
    validate_document_warehouse_references validate_document_partner validate_document_line
    validate_lines document_stock_keys load_balance_quantities load_quantities get_balance
    plan_document_movements plan_lines plan_line line_delta add_to_key receive_line
    check_nonnegative finish_post ◌+ℤ◌ ◌-ℤ◌
post_succeeds = refl

post_document-StockValid_example : StockValid sold.1
post_document-StockValid_example =
    post_document-StockValid shop 1 sold post_succeeds shop-StockValid

-- the same shop before any payment was entered
abbrev pub unpaid : Db
unpaid = record shop { payments = [] }

unpaid-StockValid : StockValid unpaid
unpaid-StockValid = record {
  balanced = shop-StockValid.balanced;
  nonnegative = shop-StockValid.nonnegative;
}

abbrev pub returned : Document × Db
returned = value_or (draft_sale, shop) (cancel_document unpaid 3 50)

pub cancel_succeeds : cancel_document unpaid 3 50 ≡ ok returned
unfolding cancel_document load_document validate_document_warehouses
    validate_document_warehouse_references active_posting_movements load_balance_quantities
    load_quantities get_balance take_back_checked finish_cancel ◌+ℤ◌ ◌-ℤ◌
cancel_succeeds = refl

cancel_document-StockValid_example : StockValid returned.1
cancel_document-StockValid_example =
    cancel_document-StockValid unpaid 3 50 returned cancel_succeeds unpaid-StockValid

-- the purchase is corrected from 7 to 8 pieces, at 12.50
abbrev pub correction : DocumentRepost
correction = record {
  document_type = incoming;
  number = some (text "IN-000001");
  document_date = 20;
  partner_id = some 1;
  warehouse_id = some 1;
  destination_warehouse_id = none;
  currency_code = base_currency_code;
  exchange_rate = one_rate;
  note = none;
  reason = text "recount";
  lines =
      record { product_id = 1; quantity = pos 8000; price = pos 1250; foreign_price = none } ∷ [];
}

abbrev pub corrected : Document × Db
corrected = value_or (draft_sale, shop) (repost_document shop 2 correction 50)

pub repost_succeeds : repost_document shop 2 correction 50 ≡ ok corrected
unfolding repost_document repost_transaction load_document store_revision recovered_reason
    build_repost_candidate validate_document_partner validate_document_warehouses
    validate_document_warehouse_references normalize_document_currency get_currency
    seed_default_currencies seed_currencies seed_currency normalize_rate normalize_document_number
    reserve_document_number document_prefix isdigit make_lines validate_document_line make_line
    base_price line_total quantize lines_total lines_foreign_total foreign_or_line_total
    validate_repost_allocations active_posting_movements document_stock_keys load_balance_quantities
    load_quantities get_balance take_back plan_document_movements plan_lines plan_line line_delta
    add_to_key receive_line check_nonnegative number_taken ◌+ℤ◌ ◌-ℤ◌ ◌*ℤ◌
repost_succeeds = refl

pub corrected_total_nonneg : pos 0 ≤ℤ corrected.0.total_amount
unfolding repost_document repost_transaction load_document store_revision recovered_reason
    build_repost_candidate validate_document_partner validate_document_warehouses
    validate_document_warehouse_references normalize_document_currency get_currency
    seed_default_currencies seed_currencies seed_currency normalize_rate normalize_document_number
    reserve_document_number document_prefix isdigit make_lines validate_document_line make_line
    base_price line_total quantize lines_total lines_foreign_total foreign_or_line_total
    validate_repost_allocations active_posting_movements document_stock_keys load_balance_quantities
    load_quantities get_balance take_back plan_document_movements plan_lines plan_line line_delta
    add_to_key receive_line check_nonnegative number_taken ◌+ℤ◌ ◌-ℤ◌ ◌*ℤ◌ finish_repost
corrected_total_nonneg = omega arith

repost_document-StockValid_example : StockValid corrected.1
repost_document-StockValid_example =
    repost_document-StockValid shop 2 correction 50 corrected repost_succeeds shop-StockValid

-- 1.005 pieces at 3.33
line_total-near_example :
    (n : ℕ) × (line_total (pos 1005) (pos 333) ≡ pos n)
    × (2000 * n ≤ 2 * (1005 * 333) + 1000)
    × (2 * (1005 * 333) ≤ 2000 * n + 1000)
line_total-near_example = line_total-near 1005 333
