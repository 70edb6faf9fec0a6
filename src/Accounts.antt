-- ===== src/Accounts.antt =====
-- backend/app/services/users_service.py, api/routes/auth.py and the passwords of core/security.py:
-- accounts of users and their logins.
--
-- Roles are their names, and an account has no time stamps. The audit entry of an update has no
-- list of the fields. The two checks for an email in use stand for the unique column.
pub mod Users
pub mod Passwords
pub mod Lockout
pub mod Assignments
use faethon_system.Base.{
  ℕ, zero, suc, ◌+◌, ltb, leb, ◌==◌, Bool, true, false, not, ◌&&◌, ◌||◌, Option, none, some,
  is_some, get_or, List, [], ◌∷◌, ◌++◌, find, any, all, filter, contains, overwrite, Text, text,
  strip, String, Result, ok, err, http, ◌>>=◌, ◌>>◌, raise_if, or_raise, if◌then◌else◌,
}
use faethon_system.Models.{Db, write_audit}
use faethon_system.Documents.Rules.{same_text}

-- What the code calls of Python: `hashlib.pbkdf2_hmac` with its 120,000 rounds, the URL-safe
-- alphabet of `base64` and `str.lower`.
pub record Platform : Type 0 where
  pub pbkdf2 : Text → Text → Text
  pub encode : Text → Text
  pub decode : Text → Option Text
  pub lower : Text → Text

pub record Account : Type 0 where
  pub id : ℕ
  pub username : Text
  pub full_name : Option Text
  pub hashed_password : Text
  pub is_active : Bool
  pub must_change_password : Bool
  pub failed_login_attempts : ℕ
  pub locked_until : Option ℕ
  pub token_version : ℕ
  pub role_names : List Text
  pub warehouse_ids : List ℕ

-- The session with the accounts and the names of the roles.
pub record Directory : Type 0 where
  pub db : Db
  pub accounts : List Account
  pub roles : List Text

-- `settings.login_max_attempts`, and `login_lock_minutes` in the unit of the clock
pub record Settings : Type 0 where
  pub login_max_attempts : ℕ
  pub login_lock : ℕ

abbrev pub put_account : Account → List Account → List Account
put_account a accounts = overwrite (λ b. b.id) a accounts

-- The text before the first such character, and the text after it.
abbrev pub split_once : ℕ → Text → Option (Text × Text)
split_once sep [] = none
split_once sep (c ∷ cs) =
    if c == sep
    then some ([], cs)
    else (elim (split_once sep cs) [ none ↦ none | some parts ↦ some (c ∷ parts.0, parts.1) ])

abbrev pub algorithm : Text
algorithm = text "pbkdf2_sha256"

module _ (platform : Platform) where
  unfoldable pub hash_password : Text → Text → Text
  hash_password salt password =
      algorithm
      ++ b'$' ∷ (platform.encode salt ++ b'$' ∷ platform.encode (platform.pbkdf2 password salt))

  -- The tests of `verify_password` on the three parts.
  abbrev pub verify_parts : Text → Text → Text → Text → Bool
  verify_parts password name salt_raw digest_raw =
      if not (same_text name algorithm) then false else (elim (platform.decode salt_raw) [
        | none ↦ false
        | some salt ↦ elim (platform.decode digest_raw) [
          | none ↦ false
          | some expected ↦ same_text (platform.pbkdf2 password salt) expected
        ]
      ])

  unfoldable pub verify_password : Text → Text → Bool
  verify_password password stored_hash = elim (split_once b'$' stored_hash) [
    | none ↦ false
    | some (name, rest) ↦ elim (split_once b'$' rest) [
      | none ↦ false
      | some (salt_raw, digest_raw) ↦ verify_parts password name salt_raw digest_raw
    ]
  ]

  module _ (settings : Settings) where
    -- `locked_until is not None and locked_until > now`
    abbrev pub is_locked : Option ℕ → ℕ → Bool
    is_locked none now = false
    is_locked (some until) now = ltb now until

    abbrev pub unlocked : Account → Account
    unlocked a = record a { failed_login_attempts = 0; locked_until = none }

    -- An expired lock is taken off.
    abbrev pub expire_lock : Account → Account
    expire_lock a = if is_some a.locked_until then unlocked a else a

    -- A wrong password is counted, and the last attempt locks the account.
    abbrev pub count_failure : Account → ℕ → Account
    count_failure a now =
        let failures = a.failed_login_attempts + 1 in
        if leb settings.login_max_attempts failures
        then record a {
          failed_login_attempts = failures;
          locked_until = some (now + settings.login_lock);
        }
        else record a { failed_login_attempts = failures }

    -- `login` from the found account on: the account that is committed, and whether a token is given.
    unfoldable pub attempt : Account → ℕ → Text → Account × Bool
    attempt a now password =
        if is_locked a.locked_until now
        then (a, false)
        else if verify_password password (expire_lock a).hashed_password
        then (unlocked a, true)
        else (count_failure (expire_lock a) now, false)

    -- The account of the email, if it is active.
    unfoldable pub login_account : Directory → Text → Option Account
    login_account s email =
        elim (find (λ a. same_text a.username (platform.lower (strip email))) s.accounts) [
          | none ↦ none
          | some a ↦ if a.is_active then some a else none
        ]

    -- `login`: what is committed stays, also where the call ends in a 401. The token is made of the
    -- key and the version.
    unfoldable pub login : Directory → ℕ → Text → Text → Directory × Result (ℕ × ℕ)
    login s now email password = elim (login_account s email) [
      | none ↦ (s, err (http 401 "Invalid credentials"))
      | some a ↦
          let tried = attempt a now password in
          (
            record s { accounts = put_account tried.0 s.accounts },
            if tried.1 then ok (a.id, a.token_version) else err (http 401 "Invalid credentials"),
          )
    ]

  unfoldable pub change_password :
      Directory → Account → Text → Text → Text → Result (Account × Directory)
  change_password s user salt current_password new_password = do
    raise_if (not (verify_password current_password user.hashed_password)) 400
        "Current password is incorrect"
    raise_if (verify_password new_password user.hashed_password) 400
        "New password must be different"
    let user' = record user {
      hashed_password = hash_password salt new_password;
      must_change_password = false;
      failed_login_attempts = 0;
      locked_until = none;
      token_version = user.token_version + 1;
    }
    ok (
      user',
      record s {
        accounts = put_account user' s.accounts;
        db = write_audit s.db "user" user.id "password_change";
      },
    )

unfoldable pub logout : Directory → Account → Directory
logout s user = record s {
  accounts = put_account (record user { token_version = user.token_version + 1 }) s.accounts;
}
