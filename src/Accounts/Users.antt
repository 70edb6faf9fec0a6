-- ===== src/Accounts/Users.antt =====
-- `create_user` and `update_user` of backend/app/services/users_service.py.
use faethon_system.Base.{
  ℕ, ◌+◌, ◌==◌, Bool, true, false, not, ◌&&◌, ◌||◌, Option, none, some, is_some, List, [], ◌∷◌,
  ◌++◌, find, any, all, filter, contains, length, Text, text, Result, ok, ◌>>=◌, ◌>>◌, raise_if,
  or_raise, if◌then◌else◌,
}
use faethon_system.Models.{write_audit}
use faethon_system.Documents.Rules.{same_text}
use faethon_system.Accounts.{Platform, Account, Directory, put_account, hash_password}

abbrev pub has_name : Text → List Text → Bool
has_name name names = any (λ other. same_text other name) names

-- `_load_roles`; the error leaves out the names.
unfoldable pub load_roles : Directory → List Text → Result (List Text)
load_roles s role_names =
    let roles = filter (λ name. has_name name role_names) s.roles in
    raise_if (not (all (λ name. has_name name roles) role_names)) 422 "Unknown roles" >> ok roles

-- `_load_warehouses`; the error leaves out the keys.
unfoldable pub load_warehouses : Directory → List ℕ → Result (List ℕ)
load_warehouses s warehouse_ids =
    let warehouses = filter (λ id. contains id warehouse_ids) s.db.warehouses in
    raise_if (not (all (λ id. contains id warehouses) warehouse_ids)) 422 "Unknown warehouses"
    >> ok warehouses

abbrev pub is_nil {ℓ} : {A : Type ℓ} → List A → Bool
is_nil [] = true
is_nil (_ ∷ _) = false

-- `any(role.name == "logist" for role in roles)`
abbrev pub is_logist : List Text → Bool
is_logist roles = has_name (text "logist") roles

unfoldable pub validate_logistics_assignment : List Text → List ℕ → Result (Unit {0})
validate_logistics_assignment roles warehouses = if not (is_logist roles) then ok tt else (do
  raise_if (not (length roles == 1)) 422 "Logistics role cannot be combined with other roles"
  raise_if (is_nil warehouses) 422 "Logistics user requires at least one warehouse")

pub record UserCreate : Type 0 where
  pub email : Text
  pub password : Text
  pub full_name : Option Text
  pub is_active : Bool
  pub role_names : List Text
  pub warehouse_ids : List ℕ

-- `none` is a field that the request does not set, `some none` one that it sets to null.
pub record UserUpdate : Type 0 where
  pub email : Option (Option Text)
  pub password : Option (Option Text)
  pub full_name : Option (Option Text)
  pub is_active : Option (Option Bool)
  pub role_names : Option (Option (List Text))
  pub warehouse_ids : Option (Option (List ℕ))

-- the field's value, and what was there where it sets none
abbrev pub given_or {ℓ} : {A : Type ℓ} → A → Option (Option A) → A
given_or old (some (some value)) = value
given_or old _ = old

abbrev pub sets_null {ℓ} : {A : Type ℓ} → Option (Option A) → Bool
sets_null (some none) = true
sets_null _ = false

-- Another account has this name, which the unique column refuses.
abbrev pub is_taken : ℕ → Text → List Account → Bool
is_taken id username accounts =
    any (λ (a : Account). not (a.id == id) && same_text a.username username) accounts

module _ (platform : Platform) where
  abbrev pub new_account : Directory → UserCreate → Text → List Text → List ℕ → Account
  new_account s payload salt roles warehouses = record {
    id = s.db.next_id;
    username = payload.email;
    full_name = payload.full_name;
    hashed_password = hash_password platform salt payload.password;
    is_active = payload.is_active;
    must_change_password = true;
    failed_login_attempts = 0;
    locked_until = none;
    token_version = 0;
    role_names = roles;
    warehouse_ids = warehouses;
  }

  abbrev pub added : Directory → Account → Directory
  added s user = record s {
    accounts = s.accounts ++ user ∷ [];
    db = write_audit (record s.db { next_id = s.db.next_id + 1 }) "user" user.id "create";
  }

  -- The salt is what `os.urandom` gives.
  unfoldable pub create_user : Directory → UserCreate → Text → Result (Account × Directory)
  create_user s payload salt = do
    roles ← load_roles s payload.role_names
    warehouses ← load_warehouses s payload.warehouse_ids
    validate_logistics_assignment roles warehouses
    raise_if (is_taken s.db.next_id payload.email s.accounts) 409 "User email already exists"
    let user = new_account s payload salt roles warehouses
    ok (user, added s user)

  -- `if values.get("password")`
  abbrev pub with_password : Option (Option Text) → Text → Account → Account
  with_password (some (some (c ∷ cs))) salt a = record a {
    hashed_password = hash_password platform salt (c ∷ cs);
    must_change_password = true;
    failed_login_attempts = 0;
    locked_until = none;
    token_version = a.token_version + 1;
  }
  with_password _ salt a = a

  -- The assignments up to the password.
  abbrev pub with_values : UserUpdate → Text → Account → Account
  with_values payload salt a = with_password payload.password salt (record a {
    username = given_or a.username payload.email;
    full_name = (elim payload.full_name [ none ↦ a.full_name | some value ↦ value ]);
    is_active = given_or a.is_active payload.is_active;
  })

  -- `values.get("is_active") is False`
  abbrev pub deactivates : Option (Option Bool) → Bool
  deactivates (some (some false)) = true
  deactivates _ = false

  abbrev pub next_roles : Directory → Account → Option (Option (List Text)) → Result (List Text)
  next_roles s a (some (some names)) = load_roles s names
  next_roles s a _ = ok a.role_names

  abbrev pub next_warehouses : Directory → Account → Option (Option (List ℕ)) → Result (List ℕ)
  next_warehouses s a (some (some ids)) = load_warehouses s ids
  next_warehouses s a _ = ok a.warehouse_ids

  -- `if values`
  abbrev pub sets_any : UserUpdate → Bool
  sets_any payload =
      is_some payload.email
      || is_some payload.password
      || is_some payload.full_name
      || is_some payload.is_active
      || is_some payload.role_names
      || is_some payload.warehouse_ids

  -- What the database refuses at the commit: a name in use, and a null in a column that has none.
  abbrev pub is_refused : Directory → UserUpdate → Account → Bool
  is_refused s payload user =
      sets_null payload.email
      || sets_null payload.is_active
      || is_taken user.id user.username s.accounts

  abbrev pub stored : Directory → UserUpdate → Account → Directory
  stored s payload user = record s {
    accounts = put_account user s.accounts;
    db = if sets_any payload then write_audit s.db "user" user.id "update" else s.db;
  }

  unfoldable pub update_user : Directory → ℕ → UserUpdate → ℕ → Text → Result (Account × Directory)
  update_user s user_id payload current_user_id salt = do
    found ← or_raise (find (λ (a : Account). a.id == user_id) s.accounts) 404 "User not found"
    raise_if (deactivates payload.is_active && found.id == current_user_id) 409
        "Current user cannot deactivate own account"
    roles ← next_roles s found payload.role_names
    warehouses ← next_warehouses s found payload.warehouse_ids
    validate_logistics_assignment roles warehouses
    let user = record (with_values payload salt found) {
      role_names = roles;
      warehouse_ids = warehouses;
    }
    raise_if (is_refused s payload user) 409 "User email already exists"
    ok (user, stored s payload user)
