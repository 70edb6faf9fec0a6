-- ===== src/Examples/Sample.antt =====
-- A small shop: one partner, two warehouses, one product; document 1 is a draft sale, document 2 a
-- posted purchase, document 3 a posted sale; payment 4 is a draft and payment 5 is posted.
use faethon_system.Base.{ℕ, ℤ, pos, negsuc, true, none, some, [], ◌∷◌, text}
use faethon_system.Models.{
  Db, both, Document, DocumentLine, incoming, outgoing, Status, draft, StockMovement, apply,
  Payment, customer_payment, CashOperation, cash_in, inward, CashStatus,
}
use faethon_system.Documents.Rules.{base_currency_code, one_rate}

abbrev pub sale_line : DocumentLine
sale_line = record {
  id = 10;
  product_id = 1;
  quantity = pos 2000;
  price = pos 5000;
  line_total = pos 10000;
  foreign_price = none;
  foreign_line_total = none;
}

abbrev pub draft_sale : Document
draft_sale = record {
  id = 1;
  document_type = outgoing;
  number = text "OUT-000002";
  document_date = 20;
  status = draft;
  partner_id = some 1;
  warehouse_id = some 1;
  destination_warehouse_id = none;
  total_amount = pos 10000;
  currency_code = base_currency_code;
  exchange_rate = one_rate;
  foreign_total_amount = pos 10000;
  posting_version = 0;
  note = none;
  lines = sale_line ∷ [];
}

abbrev pub purchase : Document
purchase = record draft_sale {
  id = 2;
  document_type = incoming;
  number = text "IN-000001";
  status = Status.posted;
  posting_version = 1;
  lines = record sale_line { id = 11; quantity = pos 7000; line_total = pos 35000 } ∷ [];
  total_amount = pos 35000;
  foreign_total_amount = pos 35000;
}

abbrev pub posted_sale : Document
posted_sale = record draft_sale {
  id = 3;
  number = text "OUT-000001";
  status = Status.posted;
  posting_version = 1;
  lines = record sale_line { id = 12 } ∷ [];
}

abbrev pub movement : ℕ → ℤ → StockMovement
movement document_id delta = record {
  product_id = 1;
  warehouse_id = 1;
  document_id = some document_id;
  posting_version = some 1;
  movement_kind = some apply;
  quantity_delta = delta;
  reason = some ("post", incoming, 1);
}

abbrev pub draft_payment : Payment
draft_payment = record {
  id = 4;
  partner_id = some 1;
  document_id = some 3;
  payment_date = 21;
  payment_type = customer_payment;
  status = draft;
  amount = pos 6000;
  method = some (text "cash");
  note = none;
  allocations = record { document_id = 3; amount = pos 6000 } ∷ [];
}

abbrev pub posted_payment : Payment
posted_payment = record draft_payment {
  id = 5;
  status = Status.posted;
  amount = pos 4000;
  allocations = record { document_id = 3; amount = pos 4000 } ∷ [];
}

abbrev pub cash_row : CashOperation
cash_row = record {
  id = some 6;
  operation_date = 21;
  operation_type = cash_in;
  direction = inward;
  status = CashStatus.posted;
  amount = pos 4000;
  target_balance = none;
  partner_id = some 1;
  document_id = some 3;
  payment_id = some 5;
  note = none;
}

abbrev pub shop : Db
shop = record {
  next_id = 100;
  partners = record { id = 1; name = "Partner"; partner_type = both } ∷ [];
  products =
      record { id = 1; name = "Product"; base_price = some (pos 5000); is_active = true } ∷ [];
  warehouses = 1 ∷ 2 ∷ [];
  currencies = [];
  documents = draft_sale ∷ purchase ∷ posted_sale ∷ [];
  sequences = (incoming, 1) ∷ (outgoing, 2) ∷ [];
  revisions = [];
  stock_balances = record { product_id = 1; warehouse_id = 1; quantity = pos 5000 } ∷ [];
  stock_movements = movement 2 (pos 7000) ∷ movement 3 (negsuc 1999) ∷ [];
  payments = draft_payment ∷ posted_payment ∷ [];
  cash_operations = cash_row ∷ [];
  tasks = [];
  task_events = [];
  audit_log = [];
}
