-- ===== src/Interbase/Rle.antt =====
-- `rle_decompress` of tools/interbase/gdb_reader.py.
pub mod Decode
pub mod RoundTrip
use faethon_system.Base.{
  ℕ, zero, suc, ◌+◌, ◌-◌, ◌*◌, ◌≤◌, ◌<◌, ◌≡◌, refl, ◌∙◌, ap, Bool, true, false, List, [], ◌∷◌, ◌++◌,
  Option, none, some, All, length, take, drop, get_or, if◌then◌else◌, ltb, ◌==◌, arith, ++-nil,
  ++-assoc, Bool-cases, inl, inr,
}
use faethon_system.Interbase.Bytes.{
  Bytes, IsByte, length-take, length-take-bound, length-drop, length-append, take-append,
  drop-append, All-drop,
}

-- `bytes([b]) * n`
abbrev pub replicate : ℕ → ℕ → Bytes
replicate zero b = []
replicate (suc n) b = b ∷ replicate n b

-- What a round appends to `out`, and `data[pos:]` after it; `none` where the loop breaks. A length
-- byte below 128 is positive, one from 128 on stands for `length - 256`.
unfoldable pub rle_round : ℕ → Bytes → Option (Bytes × Bytes)
rle_round length_byte rest =
    if length_byte == 0
    then none
    else if ltb length_byte 128
    then some (take length_byte rest, drop length_byte rest)
    else (elim rest [ [] ↦ none | b ∷ more ↦ some (replicate (256 - length_byte) b, more) ])

-- The loop, whose list is `data[pos:]`. Its `none` is no Python value: the fuel ran out.
unfoldable pub rle_loop : ℕ → Bytes → Bytes → Option Bytes
rle_loop fuel [] out = some out
rle_loop zero (length_byte ∷ rest) out = none
rle_loop (suc fuel) (length_byte ∷ rest) out = elim (rle_round length_byte rest) [
  | none ↦ some out
  | some (chunk, more) ↦ rle_loop fuel more (out ++ chunk)
]

unfoldable pub rle_decompress : Bytes → Bytes
rle_decompress bytes = get_or (rle_loop (length bytes) bytes []) []
