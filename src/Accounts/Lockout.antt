-- ===== src/Accounts/Lockout.antt =====
-- The lock of an account after too many wrong passwords, in `login` of api/routes/auth.py.
use faethon_system.Base.{
  ℕ, ◌+◌, ◌<◌, ltb, leb, Bool, true, false, none, some, List, [], ◌∷◌, length, All, Text, ◌≡◌, refl,
  ap, ◌∙◌, arith,
}
use faethon_system.Accounts.{Platform, Account, Settings, verify_password, count_failure, attempt}

module _ (platform : Platform) (settings : Settings) where
  -- The account after some attempts, each with its time and its password.
  abbrev pub after_attempts : Account → List (ℕ × Text) → Account
  after_attempts a [] = a
  after_attempts a ((now, password) ∷ attempts) =
      after_attempts (attempt platform settings a now password).0 attempts

  abbrev pub IsWrong : Text → ℕ × Text → Type 0
  IsWrong hashed (now, password) = verify_password platform password hashed ≡ false

  wrong_attempt :
      (a : Account) (now : ℕ) (password : Text)
      → a.locked_until ≡ none
      → verify_password platform password a.hashed_password ≡ false
      → attempt platform settings a now password ≡ (count_failure platform settings a now, false)
  unfolding attempt
  wrong_attempt a now password free wrong = rw (free, wrong)

  -- Wrong attempts below the limit are counted.
  counted :
      (a : Account) (attempts : List (ℕ × Text))
      → a.locked_until ≡ none
      → All (IsWrong a.hashed_password) attempts
      → a.failed_login_attempts + length attempts < settings.login_max_attempts
      → after_attempts a attempts
        ≡ record a { failed_login_attempts = a.failed_login_attempts + length attempts }
  counted a [] free wrong below = ap (λ n. record a { failed_login_attempts = n }) (omega arith)
  counted a ((now, password) ∷ attempts) free wrong below =
      let open_still : leb settings.login_max_attempts (a.failed_login_attempts + 1) ≡ false =
        ground arith in
      let next = record a { failed_login_attempts = a.failed_login_attempts + 1 } in
      rw (wrong_attempt a now password free wrong.0, open_still)
        (counted next attempts free wrong.1 (omega arith)
          ∙ ap (λ n. record a { failed_login_attempts = n }) (omega arith))

  locked_attempt :
      (a : Account) (until now : ℕ) (password : Text)
      → a.locked_until ≡ some until
      → now < until
      → attempt platform settings a now password ≡ (a, false)
  unfolding attempt
  locked_attempt a until now password locked soon =
      let early : ltb now until ≡ true = ground arith in rw (locked, early)

  -- The account that the last of so many wrong attempts leaves.
  abbrev pub locked_account : Account → List (ℕ × Text) → ℕ × Text → Account
  locked_account a attempts last =
      (attempt platform settings (after_attempts a attempts) last.0 last.1).0

  -- After as many wrong passwords in a row as the settings allow, the account is locked from the last
  -- of them for the time of the settings: until then every attempt fails, also one with the right
  -- password, and changes nothing.
  pub attempt_locked :
      (a : Account) (attempts : List (ℕ × Text)) (last : ℕ × Text) (now : ℕ) (password : Text)
      → a.locked_until ≡ none
      → All (IsWrong a.hashed_password) attempts
      → IsWrong a.hashed_password last
      → a.failed_login_attempts + length attempts + 1 ≡ settings.login_max_attempts
      → now < last.0 + settings.login_lock
      → (locked_account a attempts last).locked_until ≡ some (last.0 + settings.login_lock)
        × (attempt platform settings (locked_account a attempts last) now password
            ≡ (locked_account a attempts last, false))
  attempt_locked a attempts last now password free wrong wrong_last limit soon =
      let before = record a { failed_login_attempts = a.failed_login_attempts + length attempts } in
      let until = last.0 + settings.login_lock in
      let locked : Account = record before {
        failed_login_attempts = a.failed_login_attempts + length attempts + 1;
        locked_until = some until;
      } in
      let reached : leb settings.login_max_attempts (a.failed_login_attempts + length attempts + 1)
          ≡ true =
        ground arith in
      let result : locked_account a attempts last ≡ locked =
        ap (λ (b : Account). (attempt platform settings b last.0 last.1).0)
          (counted a attempts free wrong (omega arith))
        ∙ ap (λ (w : Account × Bool). w.0) (wrong_attempt before last.0 last.1 free wrong_last)
        ∙ rw reached in
      rw result (refl, locked_attempt locked until now password refl soon)
