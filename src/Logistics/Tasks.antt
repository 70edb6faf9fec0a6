-- ===== src/Logistics/Tasks.antt =====
-- Warehouse tasks of logistics_service.py: their statuses, access, events, generation and
-- cancellation.
use faethon_system.Base.{
  ℕ, ◌+◌, ℤ, pos, String, Text, Bool, true, false, not, ◌&&◌, ◌||◌, ◌==◌, if◌then◌else◌, get_or,
  Option, none, some, List, [], ◌∷◌, ◌++◌, find, any, contains, update_where, Result, ok, ◌>>=◌,
  ◌>>◌, raise_if, or_raise,
}
use faethon_system.Models.{
  Db, Document, DocumentLine, DocumentType, incoming, outgoing, transfer, Status, User,
  WarehouseTask, WarehouseTaskLine, TaskType, incoming_receive, outgoing_dispatch,
  transfer_dispatch, transfer_receive, TaskStatus, blocked, in_transit, in_progress, needs_review,
  completed, LineStatus, get_product,
}

abbrev pub same_task_type : TaskType → TaskType → Bool
same_task_type incoming_receive incoming_receive = true
same_task_type outgoing_dispatch outgoing_dispatch = true
same_task_type transfer_dispatch transfer_dispatch = true
same_task_type transfer_receive transfer_receive = true
same_task_type _ _ = false

abbrev pub is_blocked : TaskStatus → Bool
is_blocked blocked = true
is_blocked _ = false

abbrev pub is_in_progress : TaskStatus → Bool
is_in_progress in_progress = true
is_in_progress _ = false

abbrev pub is_needs_review : TaskStatus → Bool
is_needs_review needs_review = true
is_needs_review _ = false

-- the statuses that `start_task` accepts
abbrev pub can_start : TaskStatus → Bool
can_start TaskStatus.pending = true
can_start in_transit = true
can_start _ = false

-- `ACTIVE_TASK_STATUSES`
abbrev pub is_active_status : TaskStatus → Bool
is_active_status completed = false
is_active_status TaskStatus.cancelled = false
is_active_status _ = true

abbrev pub put_task : WarehouseTask → Db → Db
put_task t db = record db {
  tasks = update_where (λ (e : WarehouseTask). e.id == t.id) (λ _. t) db.tasks;
}

-- `_ensure_task_access`, `_load_task`, `_lock_task`
unfoldable pub lock_task : Db → ℕ → User → Result WarehouseTask
lock_task db task_id user = do
  task ←
      or_raise (find (λ (t : WarehouseTask). t.id == task_id) db.tasks) 404
        "Warehouse task not found"
  raise_if (not user.can_review && not (contains task.warehouse_id user.warehouse_ids)) 404
      "Warehouse task not found"
  ok task

-- `_event`
unfoldable pub event :
    WarehouseTask → String → Option TaskStatus → Option TaskStatus → Option Text → Db → Db
event task event_type from_status to_status note db = record db {
  task_events =
      db.task_events
      ++ record {
        task_id = task.id;
        event_type = event_type;
        from_status = from_status;
        to_status = to_status;
        note = note;
      }
        ∷ [];
}

abbrev pub Spec : Type 0
Spec = ℕ × TaskType × TaskStatus

abbrev pub specs_for : DocumentType → Option ℕ → Option ℕ → List Spec
specs_for incoming (some w) _ = (w, incoming_receive, TaskStatus.pending) ∷ []
specs_for outgoing (some w) _ = (w, outgoing_dispatch, TaskStatus.pending) ∷ []
specs_for transfer (some w) (some d) =
    (w, transfer_dispatch, TaskStatus.pending) ∷ (d, transfer_receive, blocked) ∷ []
specs_for _ _ _ = []

-- `_task_specs`
unfoldable pub task_specs : Document → List Spec
task_specs d = specs_for d.document_type d.warehouse_id d.destination_warehouse_id

-- `document_line.product.base_price or Decimal("0")`
abbrev pub catalogue_price : Db → ℕ → ℤ
catalogue_price db product_id = elim (get_product db product_id) [
  | none ↦ pos 0
  | some p ↦ get_or p.base_price (pos 0)
]

abbrev pub sale_price_of : Db → DocumentType → DocumentLine → ℤ
sale_price_of db outgoing line = line.price
sale_price_of db _ line = catalogue_price db line.product_id

-- the `WarehouseTaskLine`s of a new task, with their keys
unfoldable pub task_lines : Db → DocumentType → ℕ → List DocumentLine → List WarehouseTaskLine
task_lines db type key [] = []
task_lines db type key (line ∷ rest) =
    record {
      id = key;
      product_id = line.product_id;
      expected_quantity = line.quantity;
      actual_quantity = none;
      sale_price = sale_price_of db type line;
      status = LineStatus.pending;
      comment = none;
    }
    ∷ task_lines db type (key + 1) rest

abbrev pub line_count : List DocumentLine → ℕ
line_count [] = 0
line_count (_ ∷ ls) = line_count ls + 1

abbrev pub task_for : ℕ → ℕ → ℕ → TaskType → WarehouseTask → Bool
task_for document_id version warehouse_id type t =
    t.document_id == document_id
    && t.posting_version == version
    && t.warehouse_id == warehouse_id
    && same_task_type t.task_type type

unfoldable pub new_task : Db → Document → Spec → WarehouseTask
new_task db d (warehouse_id, task_type, status) = record {
  id = db.next_id;
  document_id = d.id;
  posting_version = d.posting_version;
  warehouse_id = warehouse_id;
  task_type = task_type;
  status = status;
  assigned_to_id = none;
  started_at = none;
  completed_at = none;
  lines = task_lines db d.document_type (db.next_id + 1) d.lines;
}

-- the body of the loop of `create_tasks_for_document`
unfoldable pub create_task : Document → Spec → Db → Db
create_task d (warehouse_id, task_type, status) db =
    if any (task_for d.id d.posting_version warehouse_id task_type) db.tasks
    then db
    else (let task = new_task db d (warehouse_id, task_type, status) in
        event task "generated" none (some status) none (record db {
          next_id = db.next_id + 1 + line_count d.lines;
          tasks = db.tasks ++ task ∷ [];
        }))

unfoldable pub create_tasks : Document → List Spec → Db → Db
create_tasks d [] db = db
create_tasks d (spec ∷ specs) db = create_tasks d specs (create_task d spec db)

abbrev pub is_posted : Status → Bool
is_posted Status.posted = true
is_posted _ = false

unfoldable pub create_tasks_for_document : Document → Db → Db
create_tasks_for_document d db =
    if not (is_posted d.status) || (d.posting_version == 0)
    then db
    else create_tasks d (task_specs d) db

abbrev pub active_for : ℕ → ℕ → WarehouseTask → Bool
active_for document_id version t =
    t.document_id == document_id && t.posting_version == version && is_active_status t.status

abbrev pub cancel_events : ℕ → ℕ → Text → List WarehouseTask → Db → Db
cancel_events document_id version reason [] db = db
cancel_events document_id version reason (t ∷ ts) db = cancel_events document_id version reason ts (
    if active_for document_id version t
    then event t "cancelled" (some t.status) (some TaskStatus.cancelled) (some reason) db
    else db)

unfoldable pub cancel_active_tasks_for_document_version : ℕ → ℕ → Text → ℕ → Db → Db
cancel_active_tasks_for_document_version document_id version reason now db =
    cancel_events document_id version reason db.tasks (record db {
      tasks =
          update_where (active_for document_id version)
            (λ t. record t { status = TaskStatus.cancelled; completed_at = some now }) db.tasks;
    })
