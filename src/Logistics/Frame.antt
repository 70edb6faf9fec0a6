-- ===== src/Logistics/Frame.antt =====
-- What the operations on warehouse tasks change in the session.
use faethon_system.Base.{
  ℕ, Text, not, ◌||◌, ◌==◌, Bool-cases, inl, inr, Option, some, any, List, [], ◌∷◌, ◌≡◌, refl, ◌∙◌,
  String, update_where,
}
use faethon_system.Models.{Db, Document, WarehouseTask, TaskStatus, write_audit}
use faethon_system.Logistics.{
  Spec, event, create_task, create_tasks, create_tasks_for_document, task_specs, active_for,
  cancel_events, is_posted, task_for, cancel_active_tasks_for_document_version,
}

-- Two sessions differ at most in their tasks, events, audit log and counter.
pub record SameBooks (db db' : Db) : Type 0 where
  pub documents : db'.documents ≡ db.documents
  pub stock_balances : db'.stock_balances ≡ db.stock_balances
  pub stock_movements : db'.stock_movements ≡ db.stock_movements
  pub payments : db'.payments ≡ db.payments
  pub cash_operations : db'.cash_operations ≡ db.cash_operations

pub SameBooks-refl : (db : Db) → SameBooks db db
SameBooks-refl db = record {
  documents = refl;
  stock_balances = refl;
  stock_movements = refl;
  payments = refl;
  cash_operations = refl;
}

pub SameBooks-trans : (a b c : Db) → SameBooks a b → SameBooks b c → SameBooks a c
SameBooks-trans a b c p q = record {
  documents = q.documents ∙ p.documents;
  stock_balances = q.stock_balances ∙ p.stock_balances;
  stock_movements = q.stock_movements ∙ p.stock_movements;
  payments = q.payments ∙ p.payments;
  cash_operations = q.cash_operations ∙ p.cash_operations;
}

pub write_audit-SameBooks :
    (db : Db) (entity : String) (id : ℕ) (action : String)
    → SameBooks db (write_audit db entity id action)
unfolding write_audit
write_audit-SameBooks db entity id action = record {
  documents = refl;
  stock_balances = refl;
  stock_movements = refl;
  payments = refl;
  cash_operations = refl;
}

pub event-SameBooks :
    (t : WarehouseTask) (type : String) (from to : Option TaskStatus) (remark : Option Text)
    (db : Db)
    → SameBooks db (event t type from to remark db)
unfolding event
event-SameBooks t type from to remark db = record {
  documents = refl;
  stock_balances = refl;
  stock_movements = refl;
  payments = refl;
  cash_operations = refl;
}

create_task-SameBooks :
    (d : Document) (spec : Spec) (db : Db) → SameBooks db (create_task d spec db)
unfolding create_task event
create_task-SameBooks d (w, type, status) db =
    elim (Bool-cases (any (task_for d.id d.posting_version w type) db.tasks)) [
      | inl e ↦ rw (e, create_task) (SameBooks-refl db)
      | inr e ↦
          rw (e, create_task)
            (record {
              documents = refl;
              stock_balances = refl;
              stock_movements = refl;
              payments = refl;
              cash_operations = refl;
            })
    ]

create_tasks-SameBooks :
    (d : Document) (specs : List Spec) (db : Db) → SameBooks db (create_tasks d specs db)
unfolding create_tasks
create_tasks-SameBooks d [] db = SameBooks-refl db
create_tasks-SameBooks d (spec ∷ specs) db =
    SameBooks-trans db (create_task d spec db) (create_tasks d specs (create_task d spec db))
      (create_task-SameBooks d spec db) (create_tasks-SameBooks d specs (create_task d spec db))

pub create_tasks_for_document-SameBooks :
    (d : Document) (db : Db) → SameBooks db (create_tasks_for_document d db)
unfolding create_tasks_for_document
create_tasks_for_document-SameBooks d db =
    elim (Bool-cases (not (is_posted d.status) || (d.posting_version == 0))) [
      | inl e ↦ rw (e, create_tasks_for_document) (SameBooks-refl db)
      | inr e ↦ rw (e, create_tasks_for_document) (create_tasks-SameBooks d (task_specs d) db)
    ]

cancel_events-SameBooks :
    (id version : ℕ) (reason : Text) (ts : List WarehouseTask) (db : Db)
    → SameBooks db (cancel_events id version reason ts db)
cancel_events-SameBooks id version reason [] db = SameBooks-refl db
cancel_events-SameBooks id version reason (t ∷ ts) db =
    elim (Bool-cases (active_for id version t)) [
      | inl e ↦ rw e (
          let db' =
            event t "cancelled" (some t.status) (some TaskStatus.cancelled) (some reason) db in
          SameBooks-trans db db' (cancel_events id version reason ts db')
            (event-SameBooks t "cancelled" (some t.status) (some TaskStatus.cancelled) (some reason)
              db)
            (cancel_events-SameBooks id version reason ts db'))
      | inr e ↦ rw e (cancel_events-SameBooks id version reason ts db)
    ]

pub cancel_active_tasks-SameBooks :
    (id version : ℕ) (reason : Text) (now : ℕ) (db : Db)
    → SameBooks db (cancel_active_tasks_for_document_version id version reason now db)
unfolding cancel_active_tasks_for_document_version
cancel_active_tasks-SameBooks id version reason now db =
    let db' : Db = record db {
      tasks =
          update_where (active_for id version)
            (λ (t : WarehouseTask). record t {
              status = TaskStatus.cancelled;
              completed_at = some now;
            })
            db.tasks;
    } in
    let rest = cancel_events-SameBooks id version reason db.tasks db' in
    record {
      documents = rest.documents;
      stock_balances = rest.stock_balances;
      stock_movements = rest.stock_movements;
      payments = rest.payments;
      cash_operations = rest.cash_operations;
    }
