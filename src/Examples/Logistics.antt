-- ===== src/Examples/Logistics.antt =====
-- logistics_service.py on the sample shop, where a transfer is being dispatched.
use faethon_system.Logistics.Crashes.{confirm_task-NoCrash}
use faethon_system.Base.Crashes.{NoCrash}
use faethon_system.Base.{
  pos, true, if◌then◌else◌, all, none, some, ok, List, [], ◌∷◌, ◌==◌, find, ◌≡◌, refl, text,
  value_or,
}
use faethon_system.Models.{
  write_audit, Db, User, WarehouseTask, WarehouseTaskLine, LineStatus, TaskStatus, blocked,
  in_progress, needs_review, completed, transfer_dispatch, transfer_receive,
}
use faethon_system.Logistics.{
  lock_task, event, start_task, return_task, ConfirmedLine, confirm_task, validate_confirmation,
  confirm_lines, record_lines, confirm_line, activate_transfer_receive, create_tasks_for_document,
}
use faethon_system.Logistics.Transitions.{Advances}
use faethon_system.Logistics.Confirmation.{line_confirmed}
use faethon_system.Logistics.Operations.{DistinctTasks, confirm_task-Advances, confirm_task-status}
use faethon_system.Logistics.Histories.{
  History, begins, goes_on, starts_task, confirms_task, creates_tasks, History-finished,
}
use faethon_system.Examples.Sample.{shop, posted_sale}

abbrev line : WarehouseTaskLine
line = record {
  id = 31;
  product_id = 1;
  expected_quantity = pos 2000;
  actual_quantity = none;
  sale_price = pos 5000;
  status = LineStatus.pending;
  comment = none;
}

abbrev dispatch : WarehouseTask
dispatch = record {
  id = 30;
  document_id = 9;
  posting_version = 1;
  warehouse_id = 1;
  task_type = transfer_dispatch;
  status = in_progress;
  assigned_to_id = some 7;
  started_at = some 40;
  completed_at = none;
  lines = line ∷ [];
}

abbrev waiting : WarehouseTask
waiting = record dispatch {
  id = 32;
  status = TaskStatus.pending;
  task_type = transfer_receive;
  document_id = 8;
}

abbrev receive : WarehouseTask
receive = record dispatch {
  id = 33;
  warehouse_id = 2;
  task_type = transfer_receive;
  status = blocked;
}

abbrev reviewed : WarehouseTask
reviewed = record dispatch { id = 34; document_id = 8; status = needs_review }

abbrev finished : WarehouseTask
finished = record dispatch { id = 35; document_id = 8; status = completed }

abbrev depot : Db
depot = record shop { tasks = dispatch ∷ waiting ∷ receive ∷ reviewed ∷ finished ∷ [] }

abbrev clerk : User
clerk = record { id = 7; can_review = true; warehouse_ids = 1 ∷ [] }

depot-DistinctTasks : DistinctTasks depot
depot-DistinctTasks = (
  (refl, (refl, (refl, (refl, tt)))),
  ((refl, (refl, (refl, tt))), ((refl, (refl, tt)), ((refl, tt), (tt, tt)))),
)

abbrev started : WarehouseTask × Db
started = value_or (dispatch, depot) (start_task depot 32 clerk 50)

start_succeeds : start_task depot 32 clerk 50 ≡ ok started
unfolding start_task lock_task event
start_succeeds = refl

abbrev returned : WarehouseTask × Db
returned = value_or (dispatch, depot) (return_task depot 34 (text "count again") clerk)

return_succeeds : return_task depot 34 (text "count again") clerk ≡ ok returned
unfolding return_task lock_task event
return_succeeds = refl

abbrev counted : List ConfirmedLine
counted = record { line_id = 31; actual_quantity = pos 2000; comment = none } ∷ []

abbrev sent : WarehouseTask × Db
sent = value_or (dispatch, depot) (confirm_task depot 30 counted clerk 50)

confirm_succeeds : confirm_task depot 30 counted clerk 50 ≡ ok sent
unfolding confirm_task lock_task validate_confirmation confirm_lines record_lines confirm_line
    activate_transfer_receive event
confirm_succeeds = refl

confirm_task-Advances_example : Advances depot.tasks sent.1.tasks
confirm_task-Advances_example =
    confirm_task-Advances depot 30 counted clerk 50 sent depot-DistinctTasks confirm_succeeds

confirm_task-status_example :
    sent.0.status ≡ (if all line_confirmed sent.0.lines then completed else needs_review)
confirm_task-status_example = confirm_task-status depot 30 counted clerk 50 sent confirm_succeeds

-- a line that the task does not have
abbrev stray : List ConfirmedLine
stray = record { line_id = 99; actual_quantity = pos 1; comment = none } ∷ counted

confirm_task-NoCrash_example : NoCrash (confirm_task depot 30 stray clerk 50)
confirm_task-NoCrash_example = confirm_task-NoCrash depot 30 stray clerk 50

abbrev confirmed_too : WarehouseTask × Db
confirmed_too = value_or (dispatch, depot) (confirm_task started.1 30 counted clerk 51)

confirm_too_succeeds : confirm_task started.1 30 counted clerk 51 ≡ ok confirmed_too
unfolding start_task confirm_task lock_task validate_confirmation confirm_lines record_lines
    confirm_line activate_transfer_receive event write_audit
confirm_too_succeeds = refl

started-DistinctTasks : DistinctTasks started.1
unfolding start_task lock_task event write_audit
started-DistinctTasks = (
  (refl, (refl, (refl, (refl, tt)))),
  ((refl, (refl, (refl, tt))), ((refl, (refl, tt)), ((refl, tt), (tt, tt)))),
)

three_calls : History depot (create_tasks_for_document posted_sale confirmed_too.1)
three_calls =
    goes_on
      (goes_on
        (goes_on begins (starts_task 32 clerk 50 started.0 depot-DistinctTasks start_succeeds))
        (confirms_task 30 counted clerk 51 confirmed_too.0 started-DistinctTasks
          confirm_too_succeeds))
      (creates_tasks posted_sale)

History-finished_example :
    (t' : WarehouseTask) × (find
        (λ (x : WarehouseTask). x.id == 35)
        (create_tasks_for_document posted_sale confirmed_too.1).tasks
      ≡ some t')
    × (t'.status ≡ completed)
History-finished_example =
    History-finished depot (create_tasks_for_document posted_sale confirmed_too.1) 35 finished
      three_calls refl refl
