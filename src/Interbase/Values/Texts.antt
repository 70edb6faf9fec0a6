-- ===== src/Interbase/Values/Texts.antt =====
-- The padding of the texts that `decode_text` reads.
use faethon_system.Base.{
  ℕ, zero, suc, ◌≡◌, refl, ap, [], ◌∷◌, ◌++◌, map, ◌==◌, Bool-cases, inl, inr,
}
use faethon_system.Interbase.Bytes.{Bytes}
use faethon_system.Interbase.Rle.{replicate}
use faethon_system.Interbase.Values.{until_nul, rstrip_spaces, cp1251, decode_text}

until_nul-append_nul : (raw rest : Bytes) → until_nul (raw ++ 0 ∷ rest) ≡ until_nul raw
until_nul-append_nul [] rest = refl
until_nul-append_nul (b ∷ raw) rest = rw (until_nul-append_nul raw rest)

rstrip_spaces-replicate : (n : ℕ) → rstrip_spaces (replicate n 32) ≡ []
rstrip_spaces-replicate zero = refl
rstrip_spaces-replicate (suc n) = rw (rstrip_spaces-replicate n)

rstrip_spaces-append :
    (raw : Bytes) (n : ℕ) → rstrip_spaces (raw ++ replicate n 32) ≡ rstrip_spaces raw
rstrip_spaces-append [] n = rstrip_spaces-replicate n
rstrip_spaces-append (b ∷ raw) n = rw (rstrip_spaces-append raw n)

until_nul-replicate : (n : ℕ) → until_nul (replicate n 32) ≡ replicate n 32
until_nul-replicate zero = refl
until_nul-replicate (suc n) = rw (until_nul-replicate n)

strip-append :
    (raw : Bytes) (n : ℕ)
    → rstrip_spaces (until_nul (raw ++ replicate n 32)) ≡ rstrip_spaces (until_nul raw)
strip-append [] n = rw (until_nul-replicate n, rstrip_spaces-replicate n)
strip-append (b ∷ raw) n = elim (Bool-cases (b == 0)) [
  | inl e ↦ rw e
  | inr e ↦ rw (e, strip-append raw n)
]

-- decode_text reads the same text whether the bytes are padded with spaces, are followed by a NUL
-- and anything else, or are not padded.
pub decode_text_padding :
    (raw rest : Bytes) (n : ℕ)
    → (decode_text (raw ++ replicate n 32) ≡ decode_text raw)
      × (decode_text (raw ++ 0 ∷ rest) ≡ decode_text raw)
unfolding decode_text
decode_text_padding raw rest n =
    (ap (map cp1251) (strip-append raw n), rw (until_nul-append_nul raw rest))
