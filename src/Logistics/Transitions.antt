-- ===== src/Logistics/Transitions.antt =====
-- The life cycle of a warehouse task as a step relation.
use faethon_system.Base.{
  ℕ, true, false, ◌==◌, ==→eq, Bool-cases, inl, inr, All, some, List, [], ◌∷◌, ◌++◌, find,
  DistinctBy, OtherKey, overwrite, overwrite_absent, ◌≡◌, refl, sym, ap, subst, ◌∙◌,
}
use faethon_system.Models.{
  WarehouseTask, TaskStatus, blocked, in_transit, in_progress, needs_review, completed,
}
use faethon_system.Logistics.{is_active_status}

-- One step of a task.
pub data TaskStep : TaskStatus → TaskStatus → Type 0 where
  starts : TaskStep TaskStatus.pending in_progress
  starts_receiving : TaskStep in_transit in_progress
  completes : TaskStep in_progress completed
  reports : TaskStep in_progress needs_review
  returns : TaskStep needs_review TaskStatus.pending
  unblocks : TaskStep blocked in_transit
  cancels : (s : TaskStatus) → is_active_status s ≡ true → TaskStep s TaskStatus.cancelled

-- Any number of steps.
pub data TaskRun : TaskStatus → TaskStatus → Type 0 where
  stay : {s : TaskStatus} → TaskRun s s
  go : {s t u : TaskStatus} → TaskStep s t → TaskRun t u → TaskRun s u

pub one_step : {s t : TaskStatus} → TaskStep s t → TaskRun s t
one_step step = go step stay

pub run_trans : {s t u : TaskStatus} → TaskRun s t → TaskRun t u → TaskRun s u
run_trans stay q = q
run_trans (go step p) q = go step (run_trans p q)

step_active : {s t : TaskStatus} → TaskStep s t → is_active_status s ≡ true
step_active starts = refl
step_active starts_receiving = refl
step_active completes = refl
step_active reports = refl
step_active returns = refl
step_active unblocks = refl
step_active (cancels s h) = h

-- A finished task takes no step.
pub run_finished : {s t : TaskStatus} → TaskRun s t → is_active_status s ≡ false → t ≡ s
run_finished stay h = refl
run_finished (go step p) h = absurd (cc (step_active step, h))

abbrev pub task_key : WarehouseTask → ℕ
task_key t = t.id

-- Every task of the first list stands in the second, under its key and after a run of steps; the
-- second may have more.
abbrev pub Advances : List WarehouseTask → List WarehouseTask → Type 0
Advances [] _ = Unit
Advances (t ∷ ts) [] = ⊥
Advances (t ∷ ts) (t' ∷ ts') = (t'.id ≡ t.id) × TaskRun t.status t'.status × Advances ts ts'

pub Advances-refl : (ts : List WarehouseTask) → Advances ts ts
Advances-refl [] = tt
Advances-refl (t ∷ ts) = (refl, stay, Advances-refl ts)

pub Advances-trans :
    (xs ys zs : List WarehouseTask) → Advances xs ys → Advances ys zs → Advances xs zs
Advances-trans [] ys zs p q = tt
Advances-trans (x ∷ xs) (y ∷ ys) (z ∷ zs) p q =
    (q.0 ∙ p.0, run_trans p.1 q.1, Advances-trans xs ys zs p.2 q.2)
Advances-trans (x ∷ xs) (y ∷ ys) [] p q = absurd q
Advances-trans (x ∷ xs) [] zs p q = absurd p

pub Advances-append : (ts more : List WarehouseTask) → Advances ts (ts ++ more)
Advances-append [] more = tt
Advances-append (t ∷ ts) more = (refl, stay, Advances-append ts more)

-- Where every task of a list stands in another after a run of steps, a task that is found by
-- its key and has finished (completed or cancelled) is found there by its key with the same
-- status.
pub Advances-finished :
    (ts ts' : List WarehouseTask) (id : ℕ) (t : WarehouseTask)
    → Advances ts ts'
    → find (λ (x : WarehouseTask). x.id == id) ts ≡ some t
    → is_active_status t.status ≡ false
    → (t' : WarehouseTask) × (find (λ (x : WarehouseTask). x.id == id) ts' ≡ some t')
      × (t'.status ≡ t.status)
Advances-finished [] ts' id t a h f = absurd (cc h)
Advances-finished (x ∷ xs) [] id t a h f = absurd a
Advances-finished (x ∷ xs) (y ∷ ys) id t a h f = elim (Bool-cases (x.id == id)) [
  | inl e ↦
      let same : x ≡ t = cc (rw e at h) in
      (y, rw (a.0, e), run_finished a.1 (rw same f) ∙ ap (λ (w : WarehouseTask). w.status) same)
  | inr e ↦
      let (t', found, s) = Advances-finished xs ys id t a.2 (rw e at h) f in
      (t', rw (a.0, e) found, s)
]

-- Storing a new version of a task is a step of that task alone.
pub Advances-put :
    (ts : List WarehouseTask) (t t' : WarehouseTask)
    → DistinctBy task_key ts
    → find (λ (x : WarehouseTask). x.id == t'.id) ts ≡ some t
    → TaskRun t.status t'.status
    → Advances ts (overwrite task_key t' ts)
Advances-put [] t t' u h r = tt
Advances-put (x ∷ xs) t t' u h r = elim (Bool-cases (x.id == t'.id)) [
  | inl e ↦
      let same : x ≡ t = cc (rw e at h) in
      let key : x.id ≡ t'.id = ==→eq x.id t'.id e in
      let rest =
        overwrite_absent task_key t' xs (subst (λ i. All (OtherKey task_key i) xs) key u.0) in
      rw (e, rest)
        (
          sym key,
          subst (λ (w : WarehouseTask). TaskRun w.status t'.status) (sym same) r,
          Advances-refl xs,
        )
  | inr e ↦ rw e (refl, stay, Advances-put xs t t' u.1 (rw e at h) r)
]
