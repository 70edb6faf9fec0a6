-- ===== src/Logistics/Generation.antt =====
-- `create_tasks_for_document` and `cancel_active_tasks_for_document_version` as steps of the life
-- cycle.
use faethon_system.Base.{
  ℕ, Text, not, ◌==◌, ◌||◌, Bool-cases, inl, inr, any, some, List, [], ◌∷◌, update_where, ◌≡◌, refl,
  sym, subst, arith,
}
use faethon_system.Models.{Db, Document, WarehouseTask, TaskStatus}
use faethon_system.Logistics.{
  event, active_for, cancel_events, cancel_active_tasks_for_document_version, Spec, task_for,
  create_task, create_tasks, create_tasks_for_document, task_specs, is_posted,
}
use faethon_system.Logistics.Transitions.{
  cancels, stay, one_step, Advances, Advances-refl, Advances-trans, Advances-append,
}
use faethon_system.Logistics.Operations.{if-Advances}

tasks-cancel_events :
    (id version : ℕ) (reason : Text) (ts : List WarehouseTask) (db : Db)
    → (cancel_events id version reason ts db).tasks ≡ db.tasks
unfolding event
tasks-cancel_events id version reason [] db = refl
tasks-cancel_events id version reason (t ∷ ts) db = elim (Bool-cases (active_for id version t)) [
  | inl e ↦ rw (e, cancel_events) (tasks-cancel_events id version reason ts _)
  | inr e ↦ rw (e, cancel_events) (tasks-cancel_events id version reason ts db)
]

cancelled_rows :
    (id version now : ℕ) (ts : List WarehouseTask)
    → Advances ts (
        update_where
          (active_for id version)
          (λ (t : WarehouseTask). record t {
            status = TaskStatus.cancelled;
            completed_at = some now;
          })
          ts)
cancelled_rows id version now [] = tt
cancelled_rows id version now (t ∷ ts) = elim (Bool-cases (active_for id version t)) [
  | inl e ↦
      rw e (refl, one_step (cancels t.status (ground arith)), cancelled_rows id version now ts)
  | inr e ↦ rw e (refl, stay, cancelled_rows id version now ts)
]

-- cancel_active_tasks_for_document_version leaves every task in its place, under its key and
-- after a run of steps of the life cycle.
pub cancel_active_tasks-Advances :
    (id version : ℕ) (reason : Text) (now : ℕ) (db : Db)
    → Advances db.tasks (cancel_active_tasks_for_document_version id version reason now db).tasks
unfolding cancel_active_tasks_for_document_version
cancel_active_tasks-Advances id version reason now db =
    subst (Advances db.tasks) (sym (tasks-cancel_events id version reason db.tasks _))
      (cancelled_rows id version now db.tasks)

create_task-Advances :
    (d : Document) (spec : Spec) (db : Db) → Advances db.tasks (create_task d spec db).tasks
unfolding create_task event
create_task-Advances d (w, type, status) db =
    elim (Bool-cases (any (task_for d.id d.posting_version w type) db.tasks)) [
      | inl e ↦ rw (e, create_task) (Advances-refl db.tasks)
      | inr e ↦ rw (e, create_task) (Advances-append db.tasks _)
    ]

create_tasks-Advances :
    (d : Document) (specs : List Spec) (db : Db) → Advances db.tasks (create_tasks d specs db).tasks
unfolding create_tasks
create_tasks-Advances d [] db = Advances-refl db.tasks
create_tasks-Advances d (spec ∷ specs) db =
    Advances-trans db.tasks (create_task d spec db).tasks
      (create_tasks d specs (create_task d spec db)).tasks (create_task-Advances d spec db)
      (create_tasks-Advances d specs (create_task d spec db))

-- create_tasks_for_document leaves every task in its place, under its key and after a run of
-- steps of the life cycle; new tasks stand after them.
pub create_tasks_for_document-Advances :
    (d : Document) (db : Db) → Advances db.tasks (create_tasks_for_document d db).tasks
unfolding create_tasks_for_document
create_tasks_for_document-Advances d db =
    if-Advances (not (is_posted d.status) || (d.posting_version == 0)) db.tasks db
      (create_tasks d (task_specs d) db) (Advances-refl db.tasks)
      (create_tasks-Advances d (task_specs d) db)
