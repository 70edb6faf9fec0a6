-- ===== src/Logistics.antt =====
-- backend/app/services/logistics_service.py: warehouse tasks of posted documents.
--
-- Row locks and loaded relations have no effect on the rows; `now` is the clock's value. A task
-- line's reference to its document line is not modelled.
pub mod Tasks
pub mod Frame
pub mod Transitions
pub mod Confirmation
pub mod Generation
pub mod Crashes
pub mod Operations
pub mod Histories
unfoldable pub use Tasks.*
use faethon_system.Base.{
  ℕ, ◌+◌, ℤ, pos, eqb_ℤ, String, Text, text, strip, is_empty, Bool, true, false, not, ◌&&◌, ◌||◌,
  ltb, ◌==◌, if◌then◌else◌, same_option, is_some, get_or, Option, none, some, List, [], ◌∷◌, ◌++◌,
  map, filter, find, any, all, contains, distinct, update_where, Result, ok, err, http, crash,
  ◌>>=◌, ◌>>◌, raise_if, or_raise,
}
use faethon_system.Models.{
  Db, Document, DocumentLine, DocumentType, incoming, outgoing, transfer, Status, User, Product,
  WarehouseTask, WarehouseTaskLine, WarehouseTaskEvent, TaskType, incoming_receive,
  outgoing_dispatch, transfer_dispatch, transfer_receive, TaskStatus, blocked, pending, in_transit,
  in_progress, needs_review, completed, LineStatus, confirmed, discrepancy, get_product,
  write_audit,
}

unfoldable pub start_task : Db → ℕ → User → ℕ → Result (WarehouseTask × Db)
start_task db task_id user now = do
  task ← lock_task db task_id user
  raise_if (not (can_start task.status)) 409 "Only pending warehouse task can be started"
  let started = record task {
    status = in_progress;
    assigned_to_id = some user.id;
    started_at = some now;
    completed_at = none;
  }
  let db' = event task "started" (some task.status) (some in_progress) none (put_task started db)
  ok (started, write_audit db' "warehouse_task" task.id "started")

-- `WarehouseTaskConfirmation`
pub record ConfirmedLine : Type 0 where
  pub line_id : ℕ
  pub actual_quantity : ℤ
  pub comment : Option Text

-- `item.comment.strip() if item.comment else None`
abbrev pub stripped : Option Text → Option Text
stripped none = none
stripped (some s) = if is_empty s then none else some (strip s)

-- `not comment`
abbrev pub lacks_text : Option Text → Bool
lacks_text none = true
lacks_text (some s) = is_empty s

abbrev pub Values : Type 0
Values = List (ℕ × ℤ × Option Text)

abbrev pub lookup_value : ℕ → Values → Option (ℤ × Option Text)
lookup_value k [] = none
lookup_value k ((j, actual, comment) ∷ vs) =
    if j == k then some (actual, comment) else lookup_value k vs

-- the loop of `_validate_confirmation`
unfoldable pub confirm_lines : List WarehouseTaskLine → List ConfirmedLine → Result Values
confirm_lines lines [] = ok []
confirm_lines lines (item ∷ items) = do
  line ← elim (find (λ (l : WarehouseTaskLine). l.id == item.line_id) lines) [
    | none ↦ err (crash "KeyError")
    | some l ↦ ok l
  ]
  raise_if
      (not (eqb_ℤ item.actual_quantity line.expected_quantity)
        && lacks_text (stripped item.comment))
      422 "Discrepancy comment is required"
  rest ← confirm_lines lines items
  ok ((item.line_id, item.actual_quantity, stripped item.comment) ∷ rest)

unfoldable pub validate_confirmation : WarehouseTask → List ConfirmedLine → Result Values
validate_confirmation task items = do
  let submitted = map (λ (i : ConfirmedLine). i.line_id) items
  let expected = map (λ (l : WarehouseTaskLine). l.id) task.lines
  raise_if
      (not (distinct submitted)
        || not
            (all (λ k. contains k expected) submitted && all (λ k. contains k submitted) expected))
      422 "Every warehouse task line must be confirmed exactly once"
  confirm_lines task.lines items

-- the loop of `confirm_task` over the task's lines
unfoldable pub confirm_line : ℤ → Option Text → WarehouseTaskLine → WarehouseTaskLine
confirm_line actual comment l = record l {
  actual_quantity = some actual;
  comment = comment;
  status = if eqb_ℤ actual l.expected_quantity then confirmed else discrepancy;
}

unfoldable pub record_lines :
    Values → List WarehouseTaskLine → Result (List WarehouseTaskLine × Bool)
record_lines values [] = ok ([], false)
record_lines values (l ∷ ls) = do
  value ← elim (lookup_value l.id values) [ none ↦ err (crash "KeyError") | some v ↦ ok v ]
  rest ← record_lines values ls
  ok (confirm_line value.0 value.1 l ∷ rest.0, not (eqb_ℤ value.0 l.expected_quantity) || rest.1)

abbrev pub blocked_receive_of : WarehouseTask → WarehouseTask → Bool
blocked_receive_of task t =
    t.document_id == task.document_id
    && t.posting_version == task.posting_version
    && same_task_type t.task_type transfer_receive
    && is_blocked t.status

-- `_activate_transfer_receive`
unfoldable pub activate_transfer_receive : WarehouseTask → Db → Db
activate_transfer_receive task db =
    if same_task_type task.task_type transfer_dispatch
    then elim (find (blocked_receive_of task) db.tasks) [
      | none ↦ db
      | some r ↦
          event r "unblocked" (some blocked) (some in_transit)
            (some (text "Отправка перемещения завершена"))
            (put_task (record r { status = in_transit }) db)
    ]
    else db

unfoldable pub confirm_task : Db → ℕ → List ConfirmedLine → User → ℕ → Result (WarehouseTask × Db)
confirm_task db task_id items user now = do
  task ← lock_task db task_id user
  raise_if (not (is_in_progress task.status)) 409 "Only active warehouse task can be confirmed"
  raise_if (not (same_option task.assigned_to_id (some user.id)) && not user.can_review) 409
      "Warehouse task is assigned to another user"
  values ← validate_confirmation task items
  recorded ← record_lines values task.lines
  let has_discrepancy = recorded.1
  let done = record task {
    lines = recorded.0;
    status = if has_discrepancy then needs_review else completed;
    completed_at = if has_discrepancy then none else some now;
  }
  let event_type = if has_discrepancy then "discrepancy_reported" else "completed"
  let db' = event task event_type (some task.status) (some done.status) none (put_task done db)
  let db'' = if has_discrepancy then db' else activate_transfer_receive done db'
  ok (done, write_audit db'' "warehouse_task" task.id event_type)

unfoldable pub return_task : Db → ℕ → Text → User → Result (WarehouseTask × Db)
return_task db task_id note user = do
  task ← lock_task db task_id user
  raise_if (not user.can_review) 403 "Permission denied"
  raise_if (not (is_needs_review task.status)) 409 "Only task with discrepancies can be returned"
  let returned = record task {
    status = TaskStatus.pending;
    assigned_to_id = none;
    started_at = none;
    completed_at = none;
    lines = map (λ (l : WarehouseTaskLine). record l { status = LineStatus.pending }) task.lines;
  }
  let db' =
      event task "returned" (some task.status) (some TaskStatus.pending) (some (strip note))
        (put_task returned db)
  ok (returned, write_audit db' "warehouse_task" task.id "returned")
