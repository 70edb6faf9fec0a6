-- ===== src/Models/Session.antt =====
-- The database session: every table that the services read or write, and `write_audit`.
use faethon_system.Base.{
  ℕ, String, Bool, Option, List, [], ◌∷◌, ◌++◌, ◌==◌, find, contains, update_where,
}
use faethon_system.Models.Documents.{
  Document, DocumentType, DocumentRevision, StockMovement, StockBalance,
}
use faethon_system.Models.Accounting.{Payment, CashOperation, AuditLog}
use faethon_system.Models.Logistics.{WarehouseTask, WarehouseTaskEvent}
use faethon_system.Models.Parties.{Partner, Product, Currency}

pub record Db : Type 0 where
  pub next_id : ℕ
  pub partners : List Partner
  pub products : List Product
  pub warehouses : List ℕ
  pub currencies : List Currency
  pub documents : List Document
  pub sequences : List (DocumentType × ℕ)
  pub revisions : List DocumentRevision
  pub stock_balances : List StockBalance
  pub stock_movements : List StockMovement
  pub payments : List Payment
  pub cash_operations : List CashOperation
  pub tasks : List WarehouseTask
  pub task_events : List WarehouseTaskEvent
  pub audit_log : List AuditLog

-- `db.get(Model, id)`
abbrev pub get_partner : Db → ℕ → Option Partner
get_partner db id = find (λ p. p.id == id) db.partners

abbrev pub get_product : Db → ℕ → Option Product
get_product db id = find (λ p. p.id == id) db.products

abbrev pub get_document : Db → ℕ → Option Document
get_document db id = find (λ d. d.id == id) db.documents

abbrev pub get_payment : Db → ℕ → Option Payment
get_payment db id = find (λ p. p.id == id) db.payments

abbrev pub has_warehouse : Db → ℕ → Bool
has_warehouse db id = contains id db.warehouses

-- An object that the session tracks is written back under its key.
abbrev pub put_document : Document → Db → Db
put_document d db = record db {
  documents = update_where (λ (e : Document). e.id == d.id) (λ _. d) db.documents;
}

abbrev pub put_payment : Payment → Db → Db
put_payment p db = record db {
  payments = update_where (λ (e : Payment). e.id == p.id) (λ _. p) db.payments;
}

unfoldable pub write_audit : Db → String → ℕ → String → Db
write_audit db entity_type entity_id action = record db {
  audit_log =
      db.audit_log
      ++ record { entity_type = entity_type; entity_id = entity_id; action = action } ∷ [];
}
