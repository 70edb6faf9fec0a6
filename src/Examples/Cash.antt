-- ===== src/Examples/Cash.antt =====
-- cash_service.py on the sample shop.
use faethon_system.Base.{
  pos, ◌-ℤ◌, ◌+ℤ◌, ◌≤ℤ◌, none, some, ok, ◌≡◌, refl, text, arith, All, true, false, value_or,
}
use faethon_system.Models.{Db, CashOperation, correction, write_audit}
use faethon_system.Cash.{
  CashPayload, create_cash_operation, check_references, resolve_amount, direction_for_type,
  get_cash_balance, cash_balance_scalar, effect_expression, pending_operation,
  assert_nonnegative_ledger, check_running, balance_effect, add_operation, cancel_cash_operation,
  load_operation, cancel_payment_cash_operations, of_payment, is_posted,
}
use faethon_system.Cash.Ledger.{balance_until}
use faethon_system.Cash.Create.{create_cash_operation-balance, create_cash_operation_nonnegative}
use faethon_system.Cash.Cancel.{
  cancel_cash_operation_nonnegative, cancel_payment_cash_operations_nonnegative,
}
use faethon_system.Cash.Book.{get_cash_book, get_cash_book_page, get_cash_book_page-eq-take}
use faethon_system.Base.{take, reverse}
use faethon_system.Examples.Sample.{shop, cash_row}

-- the till holds 40.00 and is counted at 15.00
abbrev recount : CashPayload
recount = record {
  operation_date = 22;
  operation_type = correction;
  amount = pos 1500;
  partner_id = none;
  document_id = none;
  payment_id = none;
  note = some (text "recount");
}

abbrev recounted : CashOperation × Db
recounted = value_or (cash_row, shop) (create_cash_operation shop recount)

recount_succeeds : create_cash_operation shop recount ≡ ok recounted
unfolding create_cash_operation check_references resolve_amount direction_for_type get_cash_balance
    cash_balance_scalar effect_expression pending_operation assert_nonnegative_ledger check_running
    balance_effect add_operation write_audit ◌+ℤ◌ ◌-ℤ◌
recount_succeeds = refl

create_cash_operation-balance_example : get_cash_balance recounted.1 ≡ pos 1500
create_cash_operation-balance_example =
    create_cash_operation-balance shop recount recounted.0 recounted.1 recount_succeeds

create_cash_operation_nonnegative_example :
    pos 0 ≤ℤ balance_until 22 100 recounted.1.cash_operations
create_cash_operation_nonnegative_example =
    create_cash_operation_nonnegative shop recount recounted.0 recounted.1 22 100 (omega arith)
      recount_succeeds

abbrev cancelled : CashOperation × Db
cancelled = value_or (cash_row, shop) (cancel_cash_operation shop 6)

cancel_succeeds : cancel_cash_operation shop 6 ≡ ok cancelled
unfolding cancel_cash_operation load_operation assert_nonnegative_ledger check_running
    balance_effect write_audit ◌+ℤ◌ ◌-ℤ◌
cancel_succeeds = refl

cancel_cash_operation_nonnegative_example :
    pos 0 ≤ℤ balance_until 22 100 cancelled.1.cash_operations
cancel_cash_operation_nonnegative_example =
    cancel_cash_operation_nonnegative shop 6 cancelled.0 cancelled.1 22 100 cancel_succeeds

abbrev withdrawn : Db
withdrawn = value_or shop (cancel_payment_cash_operations shop 5)

withdraw_succeeds : cancel_payment_cash_operations shop 5 ≡ ok withdrawn
unfolding cancel_payment_cash_operations assert_nonnegative_ledger check_running balance_effect
    write_audit ◌+ℤ◌ ◌-ℤ◌
withdraw_succeeds = refl

cancel_payment_cash_operations_nonnegative_example :
    (pos 0 ≤ℤ balance_until 22 100 withdrawn.cash_operations)
    × All (λ o. of_payment 5 o ≡ true → is_posted o.status ≡ false) withdrawn.cash_operations
cancel_payment_cash_operations_nonnegative_example =
    cancel_payment_cash_operations_nonnegative shop 5 withdrawn 22 100 (tt, tt) (tt, tt)
      withdraw_succeeds

get_cash_book_page-eq-take_example :
    (get_cash_book_page recounted.1 0 1).items ≡ take 1 (reverse (get_cash_book recounted.1))
get_cash_book_page-eq-take_example = get_cash_book_page-eq-take recounted.1 1
