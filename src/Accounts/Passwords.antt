-- ===== src/Accounts/Passwords.antt =====
-- The passwords of core/security.py: a stored hash and the test of a password against it.
use faethon_system.Base.{
  ℕ, ◌==◌, true, false, some, [], ◌∷◌, ◌++◌, contains, Text, ◌≡◌, refl, ◌∙◌, arith, ==-refl,
}
use faethon_system.Documents.Rules.{same_text}
use faethon_system.Accounts.{
  Platform, split_once, algorithm, hash_password, verify_parts, verify_password,
}

-- What base64 documents: decoding gives back what was encoded, and "$" is not in the alphabet.
pub record IsLawful (platform : Platform) : Type 0 where
  pub decode-encode : (bytes : Text) → platform.decode (platform.encode bytes) ≡ some bytes
  pub no_dollar : (bytes : Text) → contains b'$' (platform.encode bytes) ≡ false

same_text_refl : (t : Text) → same_text t t ≡ true
same_text_refl [] = refl
same_text_refl (c ∷ cs) = rw (==-refl c, same_text_refl cs)

split_once-append :
    (sep : ℕ) (front back : Text)
    → contains sep front ≡ false
    → split_once sep (front ++ sep ∷ back) ≡ some (front, back)
split_once-append sep [] back h = rw (==-refl sep)
split_once-append sep (c ∷ front) back h =
    let other : (c == sep) ≡ false = ground arith in
    rw (other, split_once-append sep front back (ground arith))

verify_split :
    (platform : Platform) (password stored name rest salt_raw digest_raw : Text)
    → split_once b'$' stored ≡ some (name, rest)
    → split_once b'$' rest ≡ some (salt_raw, digest_raw)
    → verify_password platform password stored
      ≡ verify_parts platform password name salt_raw digest_raw
unfolding verify_password
verify_split platform password stored name rest salt_raw digest_raw e f =
    rw (verify_password, e) (rw f refl)

verify_decoded :
    (platform : Platform) (password salt_raw digest_raw salt digest : Text)
    → platform.decode salt_raw ≡ some salt
    → platform.decode digest_raw ≡ some digest
    → verify_parts platform password algorithm salt_raw digest_raw
      ≡ same_text (platform.pbkdf2 password salt) digest
verify_decoded platform password salt_raw digest_raw salt digest e f = rw e (rw f refl)

-- Where base64 decodes what it encodes and has no "$" in its alphabet, verify_password accepts a
-- password against its own hash, with any salt.
pub verify_password-hash_password :
    (platform : Platform) (salt password : Text)
    → IsLawful platform
    → verify_password platform password (hash_password platform salt password) ≡ true
unfolding hash_password
verify_password-hash_password platform salt password lawful =
    let salt_raw = platform.encode salt in
    let digest = platform.pbkdf2 password salt in
    let digest_raw = platform.encode digest in
    verify_split platform password _ algorithm _ salt_raw digest_raw
      (split_once-append b'$' algorithm (salt_raw ++ b'$' ∷ digest_raw) refl)
      (split_once-append b'$' salt_raw digest_raw (lawful.no_dollar salt))
    ∙ verify_decoded platform password salt_raw digest_raw salt digest (lawful.decode-encode salt)
        (lawful.decode-encode digest)
    ∙ same_text_refl digest
