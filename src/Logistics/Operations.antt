-- ===== src/Logistics/Operations.antt =====
-- `start_task`, `confirm_task` and `return_task` as steps of the life cycle.
use faethon_system.Base.{
  not-false, ℕ, Text, Bool, true, false, not, ◌==◌, ==→eq, ◌&&◌, if◌then◌else◌, same_option,
  Bool-cases, Option-cases, inl, inr, all, contains, some, List, find, find-satisfies, DistinctBy,
  overwrite, DistinctBy-overwrite, find-own, ok, raise_if, raise_if-eq-ok, or_raise, or_raise-eq-ok,
  >>=-eq-ok, >>-eq-ok, ok-injective, ◌≡◌, refl, sym, ap, subst, ◌∙◌, arith,
}
use faethon_system.Models.{
  Db, User, WarehouseTask, WarehouseTaskLine, TaskStatus, blocked, in_transit, in_progress,
  needs_review, completed, write_audit,
}
use faethon_system.Logistics.{
  is_blocked, can_start, is_in_progress, is_needs_review, lock_task, event, start_task, return_task,
  ConfirmedLine, blocked_receive_of, activate_transfer_receive, confirm_task, validate_confirmation,
  record_lines, Values, same_task_type, transfer_dispatch,
}
use faethon_system.Logistics.Transitions.{
  TaskRun, starts, starts_receiving, completes, reports, returns, unblocks, stay, one_step,
  task_key, Advances, Advances-refl, Advances-trans, Advances-put,
}
use faethon_system.Logistics.Confirmation.{line_confirmed, record_lines-flag}

abbrev pub DistinctTasks : Db → Type 0
DistinctTasks db = DistinctBy task_key db.tasks

lock-found :
    (db : Db) (id : ℕ) (user : User) (t : WarehouseTask)
    → lock_task db id user ≡ ok t
    → find (λ (x : WarehouseTask). x.id == t.id) db.tasks ≡ some t
unfolding lock_task
lock-found db id user t h =
    let (t', e0, h0) =
      >>=-eq-ok
        (or_raise (find (λ (x : WarehouseTask). x.id == id) db.tasks) 404
          "Warehouse task not found")
        _ h in
    let (e1, h1) =
      >>-eq-ok
        (raise_if (not user.can_review && not (contains t'.warehouse_id user.warehouse_ids)) 404
          "Warehouse task not found")
        _ h0 in
    let found =
      or_raise-eq-ok (find (λ (x : WarehouseTask). x.id == id) db.tasks) 404
        "Warehouse task not found" e0 in
    let same : t' ≡ t = ok-injective h1 in
    let found' =
      subst (λ w. find (λ (x : WarehouseTask). x.id == id) db.tasks ≡ some w) same found in
    let key : t.id ≡ id =
      ==→eq t.id id (find-satisfies (λ (x : WarehouseTask). x.id == id) db.tasks found') in
    subst (λ i. find (λ (x : WarehouseTask). x.id == i) db.tasks ≡ some t) (sym key) found'

can_start-run : (s : TaskStatus) → can_start s ≡ true → TaskRun s in_progress
can_start-run TaskStatus.pending h = one_step starts
can_start-run in_transit h = one_step starts_receiving
can_start-run blocked h = absurd (cc h)
can_start-run in_progress h = stay
can_start-run needs_review h = absurd (cc h)
can_start-run completed h = absurd (cc h)
can_start-run TaskStatus.cancelled h = absurd (cc h)

in_progress-eq : (s : TaskStatus) → is_in_progress s ≡ true → s ≡ in_progress
in_progress-eq s h = ground arith

needs_review-eq : (s : TaskStatus) → is_needs_review s ≡ true → s ≡ needs_review
needs_review-eq s h = ground arith

blocked-eq : (s : TaskStatus) → is_blocked s ≡ true → s ≡ blocked
blocked-eq s h = ground arith

-- In a session whose tasks have distinct keys, a successful start_task leaves every task in its
-- place, under its key and after a run of steps of the life cycle.
pub start_task-Advances :
    (db : Db) (id : ℕ) (user : User) (now : ℕ) (r : WarehouseTask × Db)
    → DistinctTasks db
    → start_task db id user now ≡ ok r
    → Advances db.tasks r.1.tasks
unfolding start_task event write_audit
start_task-Advances db id user now r u h =
    let (t, e0, h0) = >>=-eq-ok (lock_task db id user) _ h in
    let (e1, h1) =
      >>-eq-ok
        (raise_if (not (can_start t.status)) 409 "Only pending warehouse task can be started") _
        h0 in
    let startable =
      not-false (can_start t.status)
        (raise_if-eq-ok _ 409 "Only pending warehouse task can be started" e1) in
    subst (λ (r : WarehouseTask × Db). Advances db.tasks r.1.tasks) (ok-injective h1)
      (Advances-put db.tasks t _ u (lock-found db id user t e0) (can_start-run t.status startable))

-- In a session whose tasks have distinct keys, a successful return_task leaves every task in
-- its place, under its key and after a run of steps of the life cycle.
pub return_task-Advances :
    (db : Db) (id : ℕ) (remark : Text) (user : User) (r : WarehouseTask × Db)
    → DistinctTasks db
    → return_task db id remark user ≡ ok r
    → Advances db.tasks r.1.tasks
unfolding return_task event write_audit
return_task-Advances db id remark user r u h =
    let (t, e0, h0) = >>=-eq-ok (lock_task db id user) _ h in
    let (e1, h1) = >>-eq-ok (raise_if (not user.can_review) 403 "Permission denied") _ h0 in
    let (e2, h2) =
      >>-eq-ok
        (raise_if (not (is_needs_review t.status)) 409
          "Only task with discrepancies can be returned")
        _ h1 in
    let reviewed =
      not-false (is_needs_review t.status)
        (raise_if-eq-ok _ 409 "Only task with discrepancies can be returned" e2) in
    subst (λ (r : WarehouseTask × Db). Advances db.tasks r.1.tasks) (ok-injective h2)
      (Advances-put db.tasks t _ u (lock-found db id user t e0) (
        subst (λ s. TaskRun s TaskStatus.pending) (sym (needs_review-eq t.status reviewed))
          (one_step returns)))

-- the tasks of a session in which the receiving task may be unblocked
activate-Advances :
    (t : WarehouseTask) (db : Db)
    → DistinctTasks db
    → Advances db.tasks (activate_transfer_receive t db).tasks
unfolding activate_transfer_receive event
activate-Advances t db u = elim (Bool-cases (same_task_type t.task_type transfer_dispatch)) [
  | inr e ↦ rw e (Advances-refl db.tasks)
  | inl e ↦ elim (Option-cases (find (blocked_receive_of t) db.tasks)) [
    | inl f ↦ rw (e, f) (Advances-refl db.tasks)
    | inr (r, f) ↦
        let test = find-satisfies (blocked_receive_of t) db.tasks f in
        let was : is_blocked r.status ≡ true = ground arith in
        rw (e, f)
          (Advances-put db.tasks r (record r { status = in_transit }) u
            (find-own task_key (blocked_receive_of t) db.tasks r u f)
            (subst (λ s. TaskRun s in_transit) (sym (blocked-eq r.status was)) (one_step unblocks)))
  ]
]

confirmed-run :
    (s : TaskStatus) (flag : Bool)
    → s ≡ in_progress
    → TaskRun s (if flag then needs_review else completed)
confirmed-run s true h = subst (λ s. TaskRun s needs_review) (sym h) (one_step reports)
confirmed-run s false h = subst (λ s. TaskRun s completed) (sym h) (one_step completes)

pub if-Advances :
    (flag : Bool) (ts : List WarehouseTask) (x y : Db)
    → Advances ts x.tasks
    → Advances ts y.tasks
    → Advances ts (if flag then x else y).tasks
if-Advances true ts x y p q = p
if-Advances false ts x y p q = q

-- What a successful `confirm_task` has found and recorded.
pub record Confirmed (db : Db) (id : ℕ) (r : WarehouseTask × Db) : Type 0 where
  pub t : WarehouseTask
  pub found : find (λ (x : WarehouseTask). x.id == t.id) db.tasks ≡ some t
  pub was : t.status ≡ in_progress
  pub values : Values
  pub lines : List WarehouseTaskLine × Bool
  pub records : record_lines values t.lines ≡ ok lines
  pub same_id : r.0.id ≡ t.id
  pub status : r.0.status ≡ (if lines.1 then needs_review else completed)
  pub recorded : r.0.lines ≡ lines.0
  pub tasks :
      r.1.tasks
      ≡ (if lines.1
          then record db { tasks = overwrite task_key r.0 db.tasks }
          else activate_transfer_receive r.0
              (record db { tasks = overwrite task_key r.0 db.tasks })).tasks

if-tasks :
    (flag : Bool) (t : WarehouseTask) (x y : Db)
    → x.tasks ≡ y.tasks
    → (if flag then x else activate_transfer_receive t x).tasks
      ≡ (if flag then y else activate_transfer_receive t y).tasks
unfolding activate_transfer_receive event
if-tasks true t x y h = h
if-tasks false t x y h = elim (Bool-cases (same_task_type t.task_type transfer_dispatch)) [
  | inr e ↦ rw e h
  | inl e ↦ elim (Option-cases (find (blocked_receive_of t) y.tasks)) [
    | inl f ↦ rw (e, ap (find (blocked_receive_of t)) h, f) h
    | inr (r, f) ↦
        rw (e, ap (find (blocked_receive_of t)) h, f)
          (ap (overwrite task_key (record r { status = in_transit })) h)
  ]
]

pub confirm-Confirmed :
    (db : Db) (id : ℕ) (items : List ConfirmedLine) (user : User) (now : ℕ) (r : WarehouseTask × Db)
    → confirm_task db id items user now ≡ ok r
    → Confirmed db id r
unfolding confirm_task event write_audit
confirm-Confirmed db id items user now r h =
    let (t, e0, h0) = >>=-eq-ok (lock_task db id user) _ h in
    let (e1, h1) =
      >>-eq-ok
        (raise_if (not (is_in_progress t.status)) 409 "Only active warehouse task can be confirmed")
        _ h0 in
    let (e2, h2) =
      >>-eq-ok
        (raise_if (not (same_option t.assigned_to_id (some user.id)) && not user.can_review) 409
          "Warehouse task is assigned to another user")
        _ h1 in
    let (values, e3, h3) = >>=-eq-ok (validate_confirmation t items) _ h2 in
    let (lines, e4, h4) = >>=-eq-ok (record_lines values t.lines) _ h3 in
    let active =
      not-false (is_in_progress t.status)
        (raise_if-eq-ok _ 409 "Only active warehouse task can be confirmed" e1) in
    let task = lock-found db id user t e0 in
    subst (Confirmed db id) (ok-injective h4) (record {
      t = t;
      found = task;
      was = in_progress-eq t.status active;
      values = values;
      lines = lines;
      records = e4;
      same_id = refl;
      status = refl;
      recorded = refl;
      tasks = if-tasks lines.1 _ _ _ refl;
    })

-- In a session whose tasks have distinct keys, a successful confirm_task leaves every task in
-- its place, under its key and after a run of steps of the life cycle.
pub confirm_task-Advances :
    (db : Db) (id : ℕ) (items : List ConfirmedLine) (user : User) (now : ℕ) (r : WarehouseTask × Db)
    → DistinctTasks db
    → confirm_task db id items user now ≡ ok r
    → Advances db.tasks r.1.tasks
confirm_task-Advances db id items user now r u h =
    let c = confirm-Confirmed db id items user now r h in
    let db' : Db = record db { tasks = overwrite task_key r.0 db.tasks } in
    let found =
      subst (λ i. find (λ (x : WarehouseTask). x.id == i) db.tasks ≡ some c.t) (sym c.same_id)
        c.found in
    let run =
      subst (TaskRun c.t.status) (sym c.status) (confirmed-run c.t.status c.lines.1 c.was) in
    let put = Advances-put db.tasks c.t r.0 u found run in
    let later = activate-Advances r.0 db' (DistinctBy-overwrite task_key r.0 db.tasks u) in
    let both =
      Advances-trans db.tasks db'.tasks (activate_transfer_receive r.0 db').tasks put later in
    subst (Advances db.tasks) (sym c.tasks)
      (if-Advances c.lines.1 db.tasks db' (activate_transfer_receive r.0 db') put both)

if_not :
    (b : Bool)
    → (if not b then needs_review else completed) ≡ (if b then completed else needs_review)
if_not true = refl
if_not false = refl

-- After a successful confirm_task the task is completed if all its lines are confirmed, and
-- needs review otherwise.
pub confirm_task-status :
    (db : Db) (id : ℕ) (items : List ConfirmedLine) (user : User) (now : ℕ) (r : WarehouseTask × Db)
    → confirm_task db id items user now ≡ ok r
    → r.0.status ≡ (if all line_confirmed r.0.lines then completed else needs_review)
confirm_task-status db id items user now r h =
    let c = confirm-Confirmed db id items user now r h in
    let flag = record_lines-flag c.values c.t.lines c.lines c.records in
    c.status
    ∙ ap (λ (b : Bool). if b then needs_review else completed)
        (flag ∙ ap (λ ls. not (all line_confirmed ls)) (sym c.recorded))
    ∙ if_not (all line_confirmed r.0.lines)
