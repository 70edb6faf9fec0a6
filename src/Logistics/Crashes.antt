-- ===== src/Logistics/Crashes.antt =====
-- `confirm_task` looks every line up by its key: `values[line.id]` and `task.lines[line_id]`.
use faethon_system.Base.Crashes.{
  NoCrash, NoCrash-bind, NoCrash-raise_if, NoCrash-or_raise, bind_twice,
}
use faethon_system.Base.{
  ℕ, ℤ, eqb_ℤ, Bool, true, false, not, ◌&&◌, ◌||◌, ◌==◌, same_option, Bool-cases, inl, inr, all,
  contains, distinct, find, Text, Option, none, some, List, [], ◌∷◌, map, ok, err, crash, ◌>>=◌,
  raise_if, or_raise, >>=-eq-ok, >>-eq-ok, ok-injective, ◌≡◌, sym, ap, subst, ◌∙◌, arith,
}
use faethon_system.Models.{Db, User, WarehouseTask, WarehouseTaskLine}
use faethon_system.Logistics.{
  lock_task, is_in_progress, ConfirmedLine, Values, lookup_value, lacks_text, stripped,
  confirm_lines, validate_confirmation, record_lines, confirm_task,
}

abbrev line_ids : List WarehouseTaskLine → List ℕ
line_ids ls = map (λ (l : WarehouseTaskLine). l.id) ls

abbrev item_ids : List ConfirmedLine → List ℕ
item_ids items = map (λ (i : ConfirmedLine). i.line_id) items

abbrev value_ids : Values → List ℕ
value_ids values = map (λ (v : ℕ × ℤ × Option Text). v.0) values

all-head :
    (p : ℕ → Bool) (k : ℕ) (ks : List ℕ) → all p (k ∷ ks) ≡ true → (p k ≡ true) × (all p ks ≡ true)
all-head p k ks h = ground arith

find-contains :
    (k : ℕ) (ls : List WarehouseTaskLine)
    → contains k (line_ids ls) ≡ true
    → (l : WarehouseTaskLine) × (find (λ (l : WarehouseTaskLine). l.id == k) ls ≡ some l)
find-contains k [] h = absurd (cc h)
find-contains k (l ∷ ls) h = elim (Bool-cases (l.id == k)) [
  | inl e ↦ (l, rw e)
  | inr e ↦ let (found, f) = find-contains k ls (ground arith) in (found, rw e f)
]

lookup-contains :
    (k : ℕ) (vs : Values)
    → contains k (value_ids vs) ≡ true
    → (v : ℤ × Option Text) × (lookup_value k vs ≡ some v)
lookup-contains k [] h = absurd (cc h)
lookup-contains k ((j, actual, comment) ∷ vs) h = elim (Bool-cases (j == k)) [
  | inl e ↦ ((actual, comment), rw e)
  | inr e ↦ let (found, f) = lookup-contains k vs (ground arith) in (found, rw e f)
]

confirm_lines-NoCrash :
    (ls : List WarehouseTaskLine) (items : List ConfirmedLine)
    → all (λ k. contains k (line_ids ls)) (item_ids items) ≡ true
    → NoCrash (confirm_lines ls items)
unfolding confirm_lines
confirm_lines-NoCrash ls [] h = tt
confirm_lines-NoCrash ls (item ∷ items) h =
    let (here, there) = all-head (λ k. contains k (line_ids ls)) item.line_id (item_ids items) h in
    let (l, found) = find-contains item.line_id ls here in
    rw found (
      NoCrash-raise_if
        (not (eqb_ℤ item.actual_quantity l.expected_quantity) && lacks_text (stripped item.comment))
        422 "Discrepancy comment is required" _
        (λ _.
          NoCrash-bind (confirm_lines ls items) _ (confirm_lines-NoCrash ls items there)
            (λ _ _. tt)))

-- The values are those of the submitted lines.
confirm_lines-ids :
    (ls : List WarehouseTaskLine) (items : List ConfirmedLine) (vs : Values)
    → confirm_lines ls items ≡ ok vs
    → value_ids vs ≡ item_ids items
unfolding confirm_lines
confirm_lines-ids ls [] vs h = ap value_ids (sym (ok-injective h))
confirm_lines-ids ls (item ∷ items) vs h =
    let (l, e0, h0) =
      >>=-eq-ok
        (elim (find (λ (l : WarehouseTaskLine). l.id == item.line_id) ls) [
          | none ↦ err (crash "KeyError")
          | some l ↦ ok l
        ])
        _ h in
    let (e1, h1) =
      >>-eq-ok
        (raise_if
          (not (eqb_ℤ item.actual_quantity l.expected_quantity)
            && lacks_text (stripped item.comment))
          422 "Discrepancy comment is required")
        _ h0 in
    let (rest, e2, h2) = >>=-eq-ok (confirm_lines ls items) _ h1 in
    ap value_ids (sym (ok-injective h2))
    ∙ ap (λ ks. item.line_id ∷ ks) (confirm_lines-ids ls items rest e2)

record_lines-NoCrash :
    (vs : Values) (ls : List WarehouseTaskLine)
    → all (λ k. contains k (value_ids vs)) (line_ids ls) ≡ true
    → NoCrash (record_lines vs ls)
unfolding record_lines
record_lines-NoCrash vs [] h = tt
record_lines-NoCrash vs (l ∷ ls) h =
    let (here, there) = all-head (λ k. contains k (value_ids vs)) l.id (line_ids ls) h in
    let (v, found) = lookup-contains l.id vs here in
    rw found (NoCrash-bind (record_lines vs ls) _ (record_lines-NoCrash vs ls there) (λ _ _. tt))

both_sets : (a b c : Bool) → (not a || not (b && c)) ≡ false → (b ≡ true) × (c ≡ true)
both_sets a b c h = ground arith

lock_task-NoCrash : (db : Db) (id : ℕ) (user : User) → NoCrash (lock_task db id user)
unfolding lock_task
lock_task-NoCrash db id user =
    NoCrash-bind
      (or_raise (find (λ (t : WarehouseTask). t.id == id) db.tasks) 404 "Warehouse task not found")
      _
      (NoCrash-or_raise (find (λ (t : WarehouseTask). t.id == id) db.tasks) 404
        "Warehouse task not found")
      (λ t _.
        NoCrash-raise_if (not user.can_review && not (contains t.warehouse_id user.warehouse_ids))
          404 "Warehouse task not found" (ok t) (λ _. tt))

validated_lines :
    (t : WarehouseTask) (items : List ConfirmedLine)
    → NoCrash (validate_confirmation t items >>= λ vs. record_lines vs t.lines)
unfolding validate_confirmation
validated_lines t items =
    let submitted = item_ids items in
    let expected = line_ids t.lines in
    let sets =
      all (λ k. contains k expected) submitted && all (λ k. contains k submitted) expected in
    let refused = not (distinct submitted) || not sets in
    elim (Bool-cases refused) [
      | inl e ↦ rw e tt
      | inr e ↦
          let (known, complete) =
            both_sets (distinct submitted) (all (λ k. contains k expected) submitted)
              (all (λ k. contains k submitted) expected) e in
          rw e (
            NoCrash-bind (confirm_lines t.lines items) (λ vs. record_lines vs t.lines)
              (confirm_lines-NoCrash t.lines items known)
              (λ vs h. record_lines-NoCrash vs t.lines (
                subst (λ ks. all (λ k. contains k ks) expected ≡ true)
                  (sym (confirm_lines-ids t.lines items vs h)) complete)))
    ]

-- confirm_task returns or raises an HTTPException, and no KeyError or other exception, whatever
-- lines are submitted.
pub confirm_task-NoCrash :
    (db : Db) (id : ℕ) (items : List ConfirmedLine) (user : User) (now : ℕ)
    → NoCrash (confirm_task db id items user now)
unfolding confirm_task
confirm_task-NoCrash db id items user now =
    NoCrash-bind (lock_task db id user) _ (lock_task-NoCrash db id user) (λ t _.
      NoCrash-raise_if (not (is_in_progress t.status)) 409
        "Only active warehouse task can be confirmed" _
        (λ _.
          NoCrash-raise_if
            (not (same_option t.assigned_to_id (some user.id)) && not user.can_review) 409
            "Warehouse task is assigned to another user" _
            (λ _.
              bind_twice (validate_confirmation t items) (λ vs. record_lines vs t.lines) _
                (validated_lines t items) (λ _ _. tt))))
