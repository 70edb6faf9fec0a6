-- ===== src/Accounts/Assignments.antt =====
-- The warehouses of logistics users.
use faethon_system.Base.{
  ℕ, ◌==◌, Bool, true, false, not, ◌&&◌, ◌||◌, List, [], ◌∷◌, length, find, All, All-append, Text,
  ok, ◌>>◌, raise_if, or_raise, >>=-eq-ok, >>-eq-ok, ok-injective, ◌≡◌, refl, subst, if◌then◌else◌,
}
use faethon_system.Accounts.{Platform, Account, Directory, put_account}
use faethon_system.Accounts.Users.{
  is_nil, is_logist, validate_logistics_assignment, load_roles, load_warehouses, UserCreate,
  UserUpdate, is_taken, new_account, create_user, deactivates, next_roles, next_warehouses,
  with_values, is_refused, update_user,
}

-- A logistics user has no other role, and at least one warehouse.
abbrev pub is_assigned : List Text → List ℕ → Bool
is_assigned roles warehouses =
    not (is_logist roles) || (length roles == 1 && not (is_nil warehouses))

abbrev pub Assigned : Account → Type 0
Assigned a = is_assigned a.role_names a.warehouse_ids ≡ true

abbrev pub AllAssigned : Directory → Type 0
AllAssigned s = All Assigned s.accounts

passed_tests :
    (logist single unplaced : Bool)
    → (if not logist
        then ok tt
        else (raise_if (not single) 422 "Logistics role cannot be combined with other roles"
            >> raise_if unplaced 422 "Logistics user requires at least one warehouse"))
      ≡ ok tt
    → (not logist || (single && not unplaced)) ≡ true
passed_tests false single unplaced h = refl
passed_tests true true false h = refl
passed_tests true true true h = absurd (cc h)
passed_tests true false unplaced h = absurd (cc h)

validated_assigned :
    (roles : List Text) (warehouses : List ℕ)
    → validate_logistics_assignment roles warehouses ≡ ok tt
    → is_assigned roles warehouses ≡ true
unfolding validate_logistics_assignment
validated_assigned roles warehouses h =
    passed_tests (is_logist roles) (length roles == 1) (is_nil warehouses) h

All-put_account :
    (P : Account → Type 0) (a : Account) (accounts : List Account)
    → P a
    → All P accounts
    → All P (put_account a accounts)
All-put_account P a [] p h = tt
All-put_account P a (b ∷ accounts) p h = (keep (b.id == a.id), All-put_account P a accounts p h.1)
  where
    keep : (same : Bool) → P (if same then a else b)
    keep true = p
    keep false = h.0

-- In a session where every logistics user has no other role and at least one warehouse, a successful
-- create_user leaves every logistics user so.
pub create_user-AllAssigned :
    (platform : Platform) (s : Directory) (payload : UserCreate) (salt : Text)
    (r : Account × Directory)
    → create_user platform s payload salt ≡ ok r
    → AllAssigned s
    → AllAssigned r.1
unfolding create_user
create_user-AllAssigned platform s payload salt r h v =
    let (roles, e0, h0) = >>=-eq-ok (load_roles s payload.role_names) _ h in
    let (warehouses, e1, h1) = >>=-eq-ok (load_warehouses s payload.warehouse_ids) _ h0 in
    let (e2, h2) = >>-eq-ok (validate_logistics_assignment roles warehouses) _ h1 in
    let (e3, h3) =
      >>-eq-ok
        (raise_if (is_taken s.db.next_id payload.email s.accounts) 409 "User email already exists")
        _ h2 in
    let user = new_account platform s payload salt roles warehouses in
    subst (λ (w : Account × Directory). AllAssigned w.1) (ok-injective h3)
      (All-append Assigned s.accounts (user ∷ []) v (validated_assigned roles warehouses e2, tt))

-- In a session where every logistics user has no other role and at least one warehouse, a successful
-- update_user leaves every logistics user so.
pub update_user-AllAssigned :
    (platform : Platform) (s : Directory) (user_id : ℕ) (payload : UserUpdate) (current_user_id : ℕ)
    (salt : Text) (r : Account × Directory)
    → update_user platform s user_id payload current_user_id salt ≡ ok r
    → AllAssigned s
    → AllAssigned r.1
unfolding update_user
update_user-AllAssigned platform s user_id payload current_user_id salt r h v =
    let (found, e0, h0) =
      >>=-eq-ok (or_raise (find (λ (a : Account). a.id == user_id) s.accounts) 404 "User not found")
        _ h in
    let (e1, h1) =
      >>-eq-ok
        (raise_if (deactivates platform payload.is_active && found.id == current_user_id) 409
          "Current user cannot deactivate own account")
        _ h0 in
    let (roles, e2, h2) = >>=-eq-ok (next_roles platform s found payload.role_names) _ h1 in
    let (warehouses, e3, h3) =
      >>=-eq-ok (next_warehouses platform s found payload.warehouse_ids) _ h2 in
    let (e4, h4) = >>-eq-ok (validate_logistics_assignment roles warehouses) _ h3 in
    let user = record (with_values platform payload salt found) {
      role_names = roles;
      warehouse_ids = warehouses;
    } in
    let (e5, h5) =
      >>-eq-ok (raise_if (is_refused platform s payload user) 409 "User email already exists") _
        h4 in
    subst (λ (w : Account × Directory). AllAssigned w.1) (ok-injective h5)
      (All-put_account Assigned user s.accounts (validated_assigned roles warehouses e4) v)
