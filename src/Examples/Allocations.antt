-- ===== src/Examples/Allocations.antt =====
-- A history of payments, on the sample shop: a payment is entered, and another one is posted.
use faethon_system.Base.{pos, none, some, [], value_or, text}
use faethon_system.Models.{Db, Payment, customer_payment}
use faethon_system.Payments.{PaymentCreate, create_payment, post_payment}
use faethon_system.Examples.Sample.{shop, draft_payment}

abbrev entry : PaymentCreate
entry = record {
  partner_id = 1;
  document_id = some 3;
  payment_date = 25;
  payment_type = customer_payment;
  amount = pos 2500;
  method = some (text "cash");
  note = none;
  allocations = [];
}

abbrev entered : Payment × Db
entered = value_or (draft_payment, shop) (create_payment shop entry)

abbrev paid : Payment × Db
paid = value_or (draft_payment, shop) (post_payment entered.1 4)
