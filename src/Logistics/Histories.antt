-- ===== src/Logistics/Histories.antt =====
-- Sequences of calls of the logistics service, as a step relation on sessions.
use faethon_system.Base.{ℕ, Text, List, ok, ◌≡◌, ◌==◌, find, some, false}
use faethon_system.Models.{Db, Document, User, WarehouseTask}
use faethon_system.Logistics.{
  is_active_status, ConfirmedLine, start_task, confirm_task, return_task,
  cancel_active_tasks_for_document_version, create_tasks_for_document,
}
use faethon_system.Logistics.Transitions.{
  Advances, Advances-refl, Advances-trans, Advances-finished,
}
use faethon_system.Logistics.Operations.{
  DistinctTasks, start_task-Advances, confirm_task-Advances, return_task-Advances,
}
use faethon_system.Logistics.Generation.{
  cancel_active_tasks-Advances, create_tasks_for_document-Advances,
}

-- A call that returns, where the keys of the tasks are distinct.
pub data Step (before : Db) : Db → Type 0 where
  starts_task :
      {after : Db} (id : ℕ) (user : User) (now : ℕ) (t : WarehouseTask)
      → DistinctTasks before
      → start_task before id user now ≡ ok (t, after)
      → Step before after
  confirms_task :
      {after : Db} (id : ℕ) (items : List ConfirmedLine) (user : User) (now : ℕ) (t : WarehouseTask)
      → DistinctTasks before
      → confirm_task before id items user now ≡ ok (t, after)
      → Step before after
  returns_task :
      {after : Db} (id : ℕ) (remark : Text) (user : User) (t : WarehouseTask)
      → DistinctTasks before
      → return_task before id remark user ≡ ok (t, after)
      → Step before after
  cancels_tasks :
      (id version : ℕ) (reason : Text) (now : ℕ)
      → Step before (cancel_active_tasks_for_document_version id version reason now before)
  creates_tasks : (d : Document) → Step before (create_tasks_for_document d before)

-- Any number of calls, one after the other.
pub data History (start : Db) : Db → Type 0 where
  begins : History start start
  goes_on : {before after : Db} → History start before → Step before after → History start after

Step-Advances : {before after : Db} → Step before after → Advances before.tasks after.tasks
Step-Advances {before} (starts_task {after} id user now t u e) =
    start_task-Advances before id user now (t, after) u e
Step-Advances {before} (confirms_task {after} id items user now t u e) =
    confirm_task-Advances before id items user now (t, after) u e
Step-Advances {before} (returns_task {after} id remark user t u e) =
    return_task-Advances before id remark user (t, after) u e
Step-Advances {before} (cancels_tasks id version reason now) =
    cancel_active_tasks-Advances id version reason now before
Step-Advances {before} (creates_tasks d) = create_tasks_for_document-Advances d before

History-Advances : {start db : Db} → History start db → Advances start.tasks db.tasks
History-Advances {start} begins = Advances-refl start.tasks
History-Advances {start} {db} (goes_on {before} history step) =
    Advances-trans start.tasks before.tasks db.tasks (History-Advances history) (Step-Advances step)

-- Through any sequence of successful calls that start, confirm, return, cancel or create tasks,
-- with distinct keys of the tasks, a task that has finished (completed or cancelled) is found by
-- its key with the same status.
pub History-finished :
    (start db : Db) (id : ℕ) (t : WarehouseTask)
    → History start db
    → find (λ (x : WarehouseTask). x.id == id) start.tasks ≡ some t
    → is_active_status t.status ≡ false
    → (t' : WarehouseTask) × (find (λ (x : WarehouseTask). x.id == id) db.tasks ≡ some t')
      × (t'.status ≡ t.status)
History-finished start db id t history found finished =
    Advances-finished start.tasks db.tasks id t (History-Advances history) found finished
