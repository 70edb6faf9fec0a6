-- ===== src/Examples/Accounts.antt =====
-- users_service.py and the login of api/routes/auth.py on the sample shop.
use faethon_system.Base.{
  ℕ, ◌+◌, ◌-◌, ◌==◌, true, false, none, some, ok, List, [], ◌∷◌, ◌≡◌, refl, ap, ap₂, contains,
  arith, value_or, text, Text,
}
use faethon_system.Accounts.{
  Platform, Account, Directory, Settings, hash_password, verify_password, attempt,
}
use faethon_system.Accounts.Passwords.{IsLawful, verify_password-hash_password}
use faethon_system.Accounts.Lockout.{locked_account, attempt_locked}
use faethon_system.Accounts.Users.{
  load_roles, load_warehouses, validate_logistics_assignment, UserCreate, create_user, UserUpdate,
  update_user,
}
use faethon_system.Accounts.Assignments.{
  AllAssigned, create_user-AllAssigned, update_user-AllAssigned,
}
use faethon_system.Examples.Sample.{shop}

-- An alphabet without "$": each byte moved past it.
abbrev shift : Text → Text
shift [] = []
shift (c ∷ cs) = (c + 37) ∷ shift cs

abbrev unshift : Text → Text
unshift [] = []
unshift (c ∷ cs) = (c - 37) ∷ unshift cs

unshift-shift : (t : Text) → unshift (shift t) ≡ t
unshift-shift [] = refl
unshift-shift (c ∷ cs) = ap₂ (λ a b. a ∷ b) (omega arith) (unshift-shift cs)

shift_no_dollar : (t : Text) → contains b'$' (shift t) ≡ false
shift_no_dollar [] = refl
shift_no_dollar (c ∷ cs) =
    let other : (b'$' == c + 37) ≡ false = ground arith in rw (other, shift_no_dollar cs)

abbrev platform : Platform
platform = record {
  pbkdf2 = λ password salt. 7 ∷ password;
  encode = shift;
  decode = λ encoded. some (unshift encoded);
  lower = λ t. t;
}

platform-IsLawful : IsLawful platform
platform-IsLawful = record {
  decode-encode = λ bytes. ap some (unshift-shift bytes);
  no_dollar = shift_no_dollar;
}

verify_password-hash_password_example :
    verify_password platform
      (text "storage-7")
      (hash_password platform (text "salt") (text "storage-7"))
    ≡ true
verify_password-hash_password_example =
    verify_password-hash_password platform (text "salt") (text "storage-7") platform-IsLawful

abbrev settings : Settings
settings = record { login_max_attempts = 3; login_lock = 15 }

abbrev clerk : Account
clerk = record {
  id = 40;
  username = text "clerk";
  full_name = none;
  hashed_password = text "pbkdf2_sha256$IIII$LMMM";
  is_active = true;
  must_change_password = false;
  failed_login_attempts = 0;
  locked_until = none;
  token_version = 0;
  role_names = text "admin" ∷ [];
  warehouse_ids = [];
}

abbrev wrong_attempts : List (ℕ × Text)
wrong_attempts = (100, text "a") ∷ (101, text "b") ∷ []

wrong_a : verify_password platform (text "a") clerk.hashed_password ≡ false
unfolding verify_password
wrong_a = refl

wrong_b : verify_password platform (text "b") clerk.hashed_password ≡ false
unfolding verify_password
wrong_b = refl

attempt_locked_example :
    ((locked_account platform settings clerk wrong_attempts (102, text "a")).locked_until
      ≡ some 117)
    × (attempt platform settings
          (locked_account platform settings clerk wrong_attempts (102, text "a"))
          110
          (text "right")
        ≡ (locked_account platform settings clerk wrong_attempts (102, text "a"), false))
attempt_locked_example =
    attempt_locked platform settings clerk wrong_attempts (102, text "a") 110 (text "right") refl
      (wrong_a, (wrong_b, tt)) wrong_a refl (omega arith)

abbrev office : Directory
office = record { db = shop; accounts = clerk ∷ []; roles = text "admin" ∷ text "logist" ∷ [] }

abbrev new_driver : UserCreate
new_driver = record {
  email = text "driver";
  password = text "storage-7";
  full_name = none;
  is_active = true;
  role_names = text "logist" ∷ [];
  warehouse_ids = 1 ∷ [];
}

abbrev created : Account × Directory
created = value_or (clerk, office) (create_user platform office new_driver (text "salt"))

create_succeeds : create_user platform office new_driver (text "salt") ≡ ok created
unfolding create_user load_roles load_warehouses validate_logistics_assignment
create_succeeds = refl

create_user-AllAssigned_example : AllAssigned created.1
create_user-AllAssigned_example =
    create_user-AllAssigned platform office new_driver (text "salt") created create_succeeds
      (refl, tt)

-- The clerk becomes a logistics user.
abbrev moved_clerk : UserUpdate
moved_clerk = record {
  email = none;
  password = none;
  full_name = none;
  is_active = none;
  role_names = some (some (text "logist" ∷ []));
  warehouse_ids = some (some (1 ∷ 2 ∷ []));
}

abbrev updated : Account × Directory
updated = value_or (clerk, office) (update_user platform office 40 moved_clerk 41 (text "salt"))

update_succeeds : update_user platform office 40 moved_clerk 41 (text "salt") ≡ ok updated
unfolding update_user load_roles load_warehouses validate_logistics_assignment
update_succeeds = refl

update_user-AllAssigned_example : AllAssigned updated.1
update_user-AllAssigned_example =
    update_user-AllAssigned platform office 40 moved_clerk 41 (text "salt") updated update_succeeds
      (refl, tt)
