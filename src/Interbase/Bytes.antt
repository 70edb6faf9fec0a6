-- ===== src/Interbase/Bytes.antt =====
-- Bytes of the file, with what tools/interbase/gdb_reader.py uses of slices, of `struct` in
-- little-endian order and of the code page 1251.
use faethon_system.Base.{
  ℕ, zero, suc, ◌+◌, ◌-◌, ◌*◌, ◌^◌, ◌≤◌, ◌<◌, ◌≡◌, refl, Bool, true, false, List, [], ◌∷◌, ◌++◌,
  All, length, take, drop, if◌then◌else◌, ltb, leb, ◌==◌, ℤ, pos, negsuc, arith,
}
use faethon_system.Base.{Result, ok, err, crash}
use faethon_system.Base.Returns.{Returns, Any}
use Prim.Native.Nat.{bit_and}

abbrev pub Bytes : Type 0
Bytes = List ℕ

abbrev pub IsByte : ℕ → Type 0
IsByte b = b < 256

-- `data[first:last]`
abbrev pub slice : Bytes → ℕ → ℕ → Bytes
slice bytes first last = take (last - first) (drop first bytes)

-- the number that little-endian bytes stand for
abbrev pub little_endian : Bytes → ℕ
little_endian [] = 0
little_endian (b ∷ bs) = b + 256 * little_endian bs

-- `struct.unpack_from` of an unsigned number of `width` bytes
unfoldable pub unpack : ℕ → Bytes → ℕ → Result ℕ
unpack width bytes at =
    if leb (at + width) (length bytes)
    then ok (little_endian (take width (drop at bytes)))
    else err (crash "struct.error")

-- the signed number with this bit pattern
abbrev pub signed : ℕ → ℕ → ℤ
signed bits v = if ltb v (2 ^ (bits - 1)) then pos v else negsuc (2 ^ bits - v - 1)

-- `data[at]`
unfoldable pub byte_at : Bytes → ℕ → Result ℕ
byte_at bytes at = elim (drop at bytes) [ [] ↦ err (crash "IndexError") | b ∷ _ ↦ ok b ]

-- `flags & mask` as a test
abbrev pub has : ℕ → ℕ → Bool
has flags mask = if bit_and flags mask == 0 then false else true

pub unpack-Returns :
    (width : ℕ) (bytes : Bytes) (at : ℕ)
    → at + width ≤ length bytes
    → Returns Any (unpack width bytes at)
unfolding unpack
unpack-Returns width bytes at h = ground arith

pub length-take : (n : ℕ) (xs : Bytes) → n ≤ length xs → length (take n xs) ≡ n
length-take zero xs h = refl
length-take (suc n) [] h = absurd (omega arith)
length-take (suc n) (x ∷ xs) h = omega (arith, length-take n xs (omega arith))

pub length-take-le : (n : ℕ) (xs : Bytes) → length (take n xs) ≤ length xs
length-take-le zero xs = omega arith
length-take-le (suc n) [] = omega arith
length-take-le (suc n) (x ∷ xs) = omega (arith, length-take-le n xs)

pub length-take-bound : (n : ℕ) (xs : Bytes) → length (take n xs) ≤ n
length-take-bound zero xs = omega arith
length-take-bound (suc n) [] = omega arith
length-take-bound (suc n) (x ∷ xs) = omega (arith, length-take-bound n xs)

pub length-drop : (n : ℕ) (xs : Bytes) → length (drop n xs) ≡ length xs - n
length-drop zero xs = omega arith
length-drop (suc n) [] = omega arith
length-drop (suc n) (x ∷ xs) = omega (arith, length-drop n xs)

pub length-append : (xs ys : Bytes) → length (xs ++ ys) ≡ length xs + length ys
length-append [] ys = omega arith
length-append (x ∷ xs) ys = omega (arith, length-append xs ys)

pub take-append : (xs ys : Bytes) → take (length xs) (xs ++ ys) ≡ xs
take-append [] ys = refl
take-append (x ∷ xs) ys = rw (take-append xs ys)

pub drop-append : (xs ys : Bytes) → drop (length xs) (xs ++ ys) ≡ ys
drop-append [] ys = refl
drop-append (x ∷ xs) ys = drop-append xs ys

pub byte_at-Returns : (bytes : Bytes) (at : ℕ) → at < length bytes → Returns Any (byte_at bytes at)
unfolding byte_at
byte_at-Returns [] zero h = absurd (omega arith)
byte_at-Returns [] (suc at) h = absurd (omega arith)
byte_at-Returns (x ∷ xs) zero h = tt
byte_at-Returns (x ∷ xs) (suc at) h = byte_at-Returns xs at (omega arith)

pub length-slice :
    (bytes : Bytes) (first last : ℕ)
    → first ≤ last
    → last ≤ length bytes
    → length (slice bytes first last) ≡ last - first
length-slice bytes first last h k =
    length-take (last - first) (drop first bytes) (omega (arith, length-drop first bytes))

pub All-take : (P : ℕ → Type 0) (n : ℕ) (xs : Bytes) → All P xs → All P (take n xs)
All-take P zero xs h = tt
All-take P (suc n) [] h = tt
All-take P (suc n) (x ∷ xs) h = (h.0, All-take P n xs h.1)

pub All-drop : (P : ℕ → Type 0) (n : ℕ) (xs : Bytes) → All P xs → All P (drop n xs)
All-drop P zero xs h = h
All-drop P (suc n) [] h = tt
All-drop P (suc n) (x ∷ xs) h = All-drop P n xs h.1
