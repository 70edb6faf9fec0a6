-- ===== src/Examples/Payments.antt =====
-- payments_service.py on the sample shop.
use faethon_system.Base.{pos, ◌+ℤ◌, ◌-ℤ◌, none, ok, List, [], ◌∷◌, ◌≡◌, refl, arith, value_or}
use faethon_system.Models.{Db, Payment, customer_payment, write_audit}
use faethon_system.Cash.{
  create_cash_operation, check_references, resolve_amount, direction_for_type, get_cash_balance,
  cash_balance_scalar, effect_expression, pending_operation, assert_nonnegative_ledger,
  check_running, balance_effect, add_operation,
}
use faethon_system.Payments.{
  Validated, load_payment, validate_payment_partner, validate_supported_payment,
  check_payment_document, validate_each, validate_allocations, replace_allocations,
  cash_payload_for, post_payment, replace_posted_payment_allocations,
}
use faethon_system.Payments.Statement.{
  get_partner_balance, document_balance_effect, payment_balance_effect, get_partner_statement,
  document_row, payment_row, running_rows, raw_rows, StatementRow,
}
use faethon_system.Payments.Allocations.{AllocationsValid}
use faethon_system.Payments.Keeps.{
  post_payment-AllocationsValid, replace_posted_payment_allocations-AllocationsValid,
}
use faethon_system.Payments.Effects.{
  post_payment-cash_balance, get_partner_statement-balance, final_balance, cash_change,
}
use faethon_system.Examples.Sample.{shop, draft_payment}

pub shop-AllocationsValid : AllocationsValid shop
unfolding ◌+ℤ◌
shop-AllocationsValid = record {
  distinct = ((refl, tt), (tt, tt));
  nonnegative = omega arith;
  fits = λ id d e. ground arith;
}

abbrev paid : Payment × Db
paid = value_or (draft_payment, shop) (post_payment shop 4)

post_succeeds : post_payment shop 4 ≡ ok paid
unfolding post_payment load_payment validate_payment_partner validate_supported_payment
    check_payment_document validate_each validate_allocations cash_payload_for create_cash_operation
    check_references resolve_amount direction_for_type get_cash_balance cash_balance_scalar
    effect_expression pending_operation assert_nonnegative_ledger check_running balance_effect
    add_operation write_audit ◌+ℤ◌ ◌-ℤ◌
post_succeeds = refl

post_payment-AllocationsValid_example : AllocationsValid paid.1
post_payment-AllocationsValid_example =
    post_payment-AllocationsValid shop 4 paid post_succeeds shop-AllocationsValid

post_payment-cash_balance_example :
    get_cash_balance paid.1 ≡ get_cash_balance shop +ℤ cash_change paid.0
post_payment-cash_balance_example = post_payment-cash_balance shop 4 paid post_succeeds

abbrev moved : Payment × Db
moved =
    value_or (draft_payment, shop)
      (replace_posted_payment_allocations shop 5
        (record { document_id = 3; amount = pos 3000 } ∷ []))

replace_succeeds :
    replace_posted_payment_allocations shop 5 (record { document_id = 3; amount = pos 3000 } ∷ [])
    ≡ ok moved
unfolding replace_posted_payment_allocations replace_allocations load_payment check_payment_document
    validate_each validate_allocations write_audit ◌+ℤ◌ ◌-ℤ◌
replace_succeeds = refl

replace_posted_payment_allocations-AllocationsValid_example : AllocationsValid moved.1
replace_posted_payment_allocations-AllocationsValid_example =
    replace_posted_payment_allocations-AllocationsValid shop 5
      (record { document_id = 3; amount = pos 3000 } ∷ []) moved (omega arith) replace_succeeds
      shop-AllocationsValid

abbrev statement : List StatementRow
statement = value_or [] (get_partner_statement shop 1)

statement_succeeds : get_partner_statement shop 1 ≡ ok statement
unfolding get_partner_statement running_rows raw_rows document_row payment_row
    document_balance_effect payment_balance_effect ◌+ℤ◌ ◌-ℤ◌
statement_succeeds = refl

get_partner_statement-balance_example :
    get_partner_balance shop 1 ≡ ok (final_balance (pos 0) statement)
get_partner_statement-balance_example =
    get_partner_statement-balance shop 1 statement statement_succeeds

abbrev checked : Validated
checked =
    value_or []
      (validate_allocations shop customer_payment 1 (pos 6000) draft_payment.allocations none)

validation_succeeds :
    validate_allocations shop customer_payment 1 (pos 6000) draft_payment.allocations none
    ≡ ok checked
unfolding check_payment_document validate_each validate_allocations ◌+ℤ◌ ◌-ℤ◌
validation_succeeds = refl
