-- ===== src/Examples/Lifecycle.antt =====
-- Sequences of document operations on the sample shop.
use faethon_system.Documents.Posting.Postable.{post_document-NoCrash}
use faethon_system.Base.Crashes.{NoCrash}
use faethon_system.Base.{◌-ℤ◌, ◌+ℤ◌, ok, ◌≡◌, refl, value_or}
use faethon_system.Models.{Db, Document}
use faethon_system.Documents.Rules.{
  validate_document_warehouses, validate_document_warehouse_references, validate_document_partner,
  validate_document_line,
}
use faethon_system.Documents.Stock.{
  document_stock_keys, load_balance_quantities, load_quantities, get_balance,
  plan_document_movements, plan_lines, plan_line, line_delta, add_to_key, receive_line,
  check_nonnegative, active_posting_movements,
}
use faethon_system.Documents.Drafts.{load_document, validate_lines}
use faethon_system.Documents.Posting.{
  post_document, check_postable, finish_post, store_revision, cancel_document, take_back_checked,
  finish_cancel,
}
use faethon_system.Examples.Sample.{shop, draft_sale}
use faethon_system.Documents.Posting.Lifecycle.{
  post_document-once, cancel_document-once, cancel_document-post_document, NextVersionUnused,
}
use faethon_system.Documents.Stock.Balances.{on_hand}
use faethon_system.Documents.Stock.{
  stock_movement, write_stock_movements, apply_quantities, apply_balance_quantities,
}
use faethon_system.Documents.Posting.{first_reason, cancel_reason}
use faethon_system.Logistics.{
  create_tasks_for_document, create_tasks, create_task, new_task, task_lines, task_specs, event,
  cancel_active_tasks_for_document_version,
}
use faethon_system.Models.{write_audit}
use faethon_system.Base.{err, http}
use faethon_system.Examples.Documents.{
  shop-StockValid, sold, post_succeeds, unpaid, returned, cancel_succeeds,
}

post_document-once_example :
    post_document sold.1 1 ≡ err (http 409 "Only draft documents can be posted")
post_document-once_example = post_document-once shop 1 sold post_succeeds

cancel_document-once_example :
    (cancel_document returned.1 3 60 ≡ err (http 409 "Only posted documents can be cancelled"))
    × (post_document returned.1 3 ≡ err (http 409 "Only draft documents can be posted"))
cancel_document-once_example = cancel_document-once unpaid 3 50 60 returned cancel_succeeds

abbrev undone : Document × Db
undone = value_or (draft_sale, shop) (cancel_document sold.1 1 50)

undo_succeeds : cancel_document sold.1 1 50 ≡ ok undone
unfolding post_document load_document check_postable validate_document_warehouses
    validate_document_warehouse_references validate_document_partner validate_document_line
    validate_lines document_stock_keys load_balance_quantities load_quantities get_balance
    plan_document_movements plan_lines plan_line line_delta add_to_key receive_line
    check_nonnegative finish_post ◌+ℤ◌ ◌-ℤ◌ cancel_document active_posting_movements
    take_back_checked finish_cancel stock_movement write_stock_movements apply_quantities
    apply_balance_quantities store_revision first_reason cancel_reason create_tasks_for_document
    create_tasks create_task new_task task_lines task_specs event
    cancel_active_tasks_for_document_version write_audit
undo_succeeds = refl

shop_loaded : load_document shop 1 ≡ ok draft_sale
unfolding load_document
shop_loaded = refl

version_unused : NextVersionUnused shop draft_sale
unfolding active_posting_movements
version_unused = refl

cancel_document-post_document_example :
    on_hand (1, 1) undone.1.stock_balances ≡ on_hand (1, 1) shop.stock_balances
cancel_document-post_document_example =
    cancel_document-post_document shop 1 50 sold undone draft_sale (1, 1) shop-StockValid
      shop_loaded version_unused post_succeeds undo_succeeds

post_document-NoCrash_example : NoCrash (post_document shop 1)
post_document-NoCrash_example = post_document-NoCrash shop 1
