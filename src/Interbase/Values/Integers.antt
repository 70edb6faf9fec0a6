-- ===== src/Interbase/Values/Integers.antt =====
-- Integer columns: the bytes of a signed number, and what `_read_field` makes of them.
use faethon_system.Base.{
  ℕ, zero, suc, ◌+◌, ◌-◌, ◌*◌, ◌/◌, ◌%◌, ◌^◌, ◌<◌, ◌≡◌, refl, ◌∙◌, ap, true, false, [], ◌∷◌, ◌++◌,
  length, take, ltb, leb, arith, inl, inr, ℤ, pos, negsuc, ◌⊎◌,
}
use faethon_system.Base.{ok}
use faethon_system.Interbase.Bytes.{
  Bytes, unpack, little_endian, signed, length-append, take-append, drop-append,
}
use faethon_system.Interbase.Tables.{Field, Cell, dtype_short, dtype_long, dtype_int64}
use faethon_system.Interbase.Values.{scale_value, read_number, read_field, wide_integer}

-- The bytes of a number, lowest first.
abbrev pub to_bytes : ℕ → ℕ → Bytes
to_bytes zero v = []
to_bytes (suc n) v = v % 256 ∷ to_bytes n (v / 256)

-- The bit pattern of a signed number of so many bits.
abbrev pub pattern_of : ℕ → ℤ → ℕ
pattern_of bits (pos n) = n
pattern_of bits (negsuc n) = 2 ^ bits - n - 1

length-to_bytes : (n v : ℕ) → length (to_bytes n v) ≡ n
length-to_bytes zero v = refl
length-to_bytes (suc n) v = omega (arith, length-to_bytes n (v / 256))

little_endian-to_bytes_2 : (v : ℕ) → v < 2 ^ 16 → little_endian (to_bytes 2 v) ≡ v
little_endian-to_bytes_2 v h = omega arith

little_endian-to_bytes_4 : (v : ℕ) → v < 2 ^ 32 → little_endian (to_bytes 4 v) ≡ v
little_endian-to_bytes_4 v h = omega arith

little_endian-to_bytes_8 : (v : ℕ) → v < 2 ^ 64 → little_endian (to_bytes 8 v) ≡ v
little_endian-to_bytes_8 v h = omega arith

-- The number fits so many bits.
abbrev pub FitsBits : ℕ → ℤ → Type 0
FitsBits bits (pos n) = n < 2 ^ (bits - 1)
FitsBits bits (negsuc n) = n < 2 ^ (bits - 1)

-- The types of integer columns, with their widths in bytes.
abbrev pub HasWidth : Field → ℕ → Type 0
HasWidth column width =
    ((column.dtype ≡ dtype_short) × (width ≡ 2))
    ⊎ (((column.dtype ≡ dtype_long) × (width ≡ 4)) ⊎ ((column.dtype ≡ dtype_int64) × (width ≡ 8)))

signed-pattern_16 : (v : ℤ) → FitsBits 16 v → signed 16 (pattern_of 16 v) ≡ v
signed-pattern_16 (pos n) h = ground arith
signed-pattern_16 (negsuc n) h = ground arith

signed-pattern_32 : (v : ℤ) → FitsBits 32 v → signed 32 (pattern_of 32 v) ≡ v
signed-pattern_32 (pos n) h = ground arith
signed-pattern_32 (negsuc n) h = ground arith

signed-pattern_64 : (v : ℤ) → FitsBits 64 v → signed 64 (pattern_of 64 v) ≡ v
signed-pattern_64 (pos n) h = ground arith
signed-pattern_64 (negsuc n) h = ground arith

pattern_bound_16 : (v : ℤ) → FitsBits 16 v → pattern_of 16 v < 2 ^ 16
pattern_bound_16 (pos n) h = omega arith
pattern_bound_16 (negsuc n) h = omega arith

pattern_bound_32 : (v : ℤ) → FitsBits 32 v → pattern_of 32 v < 2 ^ 32
pattern_bound_32 (pos n) h = omega arith
pattern_bound_32 (negsuc n) h = omega arith

pattern_bound_64 : (v : ℤ) → FitsBits 64 v → pattern_of 64 v < 2 ^ 64
pattern_bound_64 (pos n) h = omega arith
pattern_bound_64 (negsuc n) h = omega arith

module _ (front back : Bytes) where
  -- a record with these bytes between the front and the back
  abbrev stored : Bytes → Bytes
  stored middle = front ++ (middle ++ back)

  length-stored :
      (middle : Bytes) → length (stored middle) ≡ length front + length middle + length back
  length-stored middle =
      omega (arith, length-append front (middle ++ back), length-append middle back)

  unpack-stored :
      (width : ℕ) (middle : Bytes)
      → length middle ≡ width
      → unpack width (stored middle) (length front) ≡ ok (little_endian middle)
  unfolding unpack
  unpack-stored width middle e =
      let fits : leb (length front + width) (length (stored middle)) ≡ true =
        ground (arith, length-stored middle) in
      let same : take width (middle ++ back) ≡ middle = rw (← e) (take-append middle back) in
      rw (fits, drop-append front (middle ++ back), same)

  read_number-stored :
      (width : ℕ) (middle : Bytes) (cell : ℕ → Cell)
      → length middle ≡ width
      → read_number width (stored middle) (length front) cell ≡ ok (cell (little_endian middle))
  read_number-stored width middle cell e =
      let inside : ltb (length (stored middle)) (length front + width) ≡ false =
        ground (arith, length-stored middle) in
      rw (inside, unpack-stored width middle e)

short_field :
    (bytes : Bytes) (column : Field)
    → column.dtype ≡ dtype_short
    → leb (length bytes) column.offset ≡ false
    → read_field bytes column
      ≡ read_number 2 bytes column.offset (λ bits. scale_value (signed 16 bits) column.scale)
unfolding read_field
short_field bytes column d e = rw (e, d)

long_field :
    (bytes : Bytes) (column : Field)
    → column.dtype ≡ dtype_long
    → leb (length bytes) column.offset ≡ false
    → read_field bytes column
      ≡ read_number 4 bytes column.offset (λ bits. scale_value (signed 32 bits) column.scale)
unfolding read_field
long_field bytes column d e = rw (e, d)

wide_field :
    (bytes : Bytes) (column : Field)
    → column.dtype ≡ dtype_int64
    → leb (length bytes) column.offset ≡ false
    → read_field bytes column
      ≡ read_number 8 bytes column.offset (λ bits. wide_integer column (signed 64 bits))
unfolding read_field
wide_field bytes column d e = rw (e, d)

plain_wide_integer :
    (column : Field) (value : ℤ)
    → column.subtype ≡ 0
    → wide_integer column value ≡ scale_value value column.scale
unfolding scale_value
plain_wide_integer column value s = ground arith

-- A column that reads a number of so many bytes reads the number that stands at its offset.
stored_number :
    (front back : Bytes) (column : Field) (width v : ℕ) (cell : ℕ → Cell)
    → column.offset ≡ length front
    → 0 < width
    → little_endian (to_bytes width v) ≡ v
    → ((bytes : Bytes)
        → leb (length bytes) column.offset ≡ false
        → read_field bytes column ≡ read_number width bytes column.offset cell)
    → read_field (front ++ (to_bytes width v ++ back)) column ≡ ok (cell v)
stored_number front back column width v cell o h e reads =
    let middle = to_bytes width v in
    let inside : leb (length (front ++ (middle ++ back))) column.offset ≡ false =
      ground (arith, length-stored front back middle, length-to_bytes width v) in
    reads _ inside
    ∙ rw o (read_number-stored front back width middle cell (length-to_bytes width v))
    ∙ ap (λ n. ok (cell n)) e

-- What _read_field reads of an integer column is the number that was stored there in so many
-- bytes, scaled by the column's scale, whatever stands before and after it in the record.
pub read_field-to_bytes :
    (front back : Bytes) (column : Field) (width : ℕ) (value : ℤ)
    → column.offset ≡ length front
    → HasWidth column width
    → column.subtype ≡ 0
    → FitsBits (8 * width) value
    → read_field (front ++ (to_bytes width (pattern_of (8 * width) value) ++ back)) column
      ≡ ok (scale_value value column.scale)
read_field-to_bytes front back column width value o (inl (d, w)) s f = rw w (
    stored_number front back column 2 (pattern_of 16 value) _ o (omega arith)
      (little_endian-to_bytes_2 _ (pattern_bound_16 value (rw w at f)))
      (λ bytes. short_field bytes column d)
    ∙ ap (λ v. ok (scale_value v column.scale)) (signed-pattern_16 value (rw w at f)))
read_field-to_bytes front back column width value o (inr (inl (d, w))) s f = rw w (
    stored_number front back column 4 (pattern_of 32 value) _ o (omega arith)
      (little_endian-to_bytes_4 _ (pattern_bound_32 value (rw w at f)))
      (λ bytes. long_field bytes column d)
    ∙ ap (λ v. ok (scale_value v column.scale)) (signed-pattern_32 value (rw w at f)))
read_field-to_bytes front back column width value o (inr (inr (d, w))) s f = rw w (
    stored_number front back column 8 (pattern_of 64 value) _ o (omega arith)
      (little_endian-to_bytes_8 _ (pattern_bound_64 value (rw w at f)))
      (λ bytes. wide_field bytes column d)
    ∙ ap ok (plain_wide_integer column _ s)
    ∙ ap (λ v. ok (scale_value v column.scale)) (signed-pattern_64 value (rw w at f)))
