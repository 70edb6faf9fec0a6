-- ===== src/Interbase/Values.antt =====
-- The values of a record, in tools/interbase/gdb_reader.py: `decode_text`, `_decode`, `_is_null` and
-- `_read_field` with what it calls.
pub mod Fields
pub mod Integers
pub mod Texts
use faethon_system.Base.{
  ℕ, zero, suc, ◌+◌, ◌-◌, ◌*◌, ◌/◌, ◌%◌, ◌^◌, ◌≡◌, Bool, true, false, ◌&&◌, ◌||◌, not, List, [],
  ◌∷◌, ◌++◌, Option, none, some, map, length, drop, if◌then◌else◌, ltb, leb, ◌==◌, ℤ, pos, negsuc,
  ◌+ℤ◌, ◌*ℤ◌, ltb_ℤ, leb_ℤ, eqb_ℤ, Text,
}
use faethon_system.Base.{Result, ok, err, crash, ◌>>=◌}
use faethon_system.Interbase.Bytes.{Bytes, slice, unpack, byte_at, has, signed}
use faethon_system.Interbase.Tables.{
  Field, Cell, null, string, integer, decimal, real, double, moment, time_of_day, blob_pointer,
  dtype_text, dtype_cstring, dtype_varying, dtype_byte, dtype_short, dtype_long, dtype_quad,
  dtype_real, dtype_double, dtype_date, dtype_time, dtype_timestamp, dtype_blob, dtype_int64,
}

-- `raw.split(b"\x00", 1)[0]`
abbrev pub until_nul : Bytes → Bytes
until_nul [] = []
until_nul (b ∷ bytes) = if b == 0 then [] else b ∷ until_nul bytes

abbrev pub keep_before : ℕ → Bytes → Bytes
keep_before b [] = if b == 32 then [] else b ∷ []
keep_before b (c ∷ bytes) = b ∷ c ∷ bytes

-- `raw.rstrip(b" ")`
abbrev pub rstrip_spaces : Bytes → Bytes
rstrip_spaces [] = []
rstrip_spaces (b ∷ bytes) = keep_before b (rstrip_spaces bytes)

-- The code points of the bytes 128 to 191 in cp1251; byte 152 has none, and gives U+FFFD.
abbrev pub cp1251_upper : List ℕ
cp1251_upper =
    1026 ∷ 1027 ∷ 8218 ∷ 1107 ∷ 8222 ∷ 8230 ∷ 8224 ∷ 8225 ∷ 8364 ∷ 8240 ∷ 1033 ∷ 8249 ∷ 1034 ∷ 1036
    ∷ 1035 ∷ 1039 ∷ 1106 ∷ 8216 ∷ 8217 ∷ 8220 ∷ 8221 ∷ 8226 ∷ 8211 ∷ 8212 ∷ 65533 ∷ 8482 ∷ 1113
    ∷ 8250 ∷ 1114 ∷ 1116 ∷ 1115 ∷ 1119 ∷ 160 ∷ 1038 ∷ 1118 ∷ 1032 ∷ 164 ∷ 1168 ∷ 166 ∷ 167 ∷ 1025
    ∷ 169 ∷ 1028 ∷ 171 ∷ 172 ∷ 173 ∷ 174 ∷ 1031 ∷ 176 ∷ 177 ∷ 1030 ∷ 1110 ∷ 1169 ∷ 181 ∷ 182 ∷ 183
    ∷ 1105 ∷ 8470 ∷ 1108 ∷ 187 ∷ 1112 ∷ 1029 ∷ 1109 ∷ 1111 ∷ []

abbrev pub code_at : List ℕ → ℕ → ℕ
code_at [] n = 65533
code_at (c ∷ cs) zero = c
code_at (c ∷ cs) (suc n) = code_at cs n

-- `decode(CHARSET, errors="replace")` of one byte
unfoldable pub cp1251 : ℕ → ℕ
cp1251 b = if ltb b 128 then b else if ltb b 192 then code_at cp1251_upper (b - 128) else 848 + b

unfoldable pub decode_text : Bytes → Text
decode_text raw = map cp1251 (rstrip_spaces (until_nul raw))

-- `(data[flag_index] & (1 << (index % 8))) != 0`, where there is such a byte
unfoldable pub is_null : Bytes → ℕ → Bool
is_null bytes index = elim (drop (index / 8) bytes) [
  | [] ↦ false
  | flags ∷ _ ↦ has flags (2 ^ (index % 8))
]

-- `_scale`: `Decimal(value).scaleb(scale)` where the scale is negative
unfoldable pub scale_value : ℤ → ℤ → Cell
scale_value value scale = if leb_ℤ (pos 0) scale then integer value else decimal value scale

abbrev pub day_microseconds : ℕ
day_microseconds = 86_400_000_000

-- The days from 1858-11-17 back to 0001-01-01, and those on to 9999-12-31.
abbrev pub days_back : ℕ
days_back = 678_575

abbrev pub days_on : ℕ
days_on = 2_973_483

-- `EPOCH + timedelta(...)`, or None on an OverflowError
abbrev pub moment_at : ℤ → Cell
moment_at microseconds =
    if leb_ℤ (pos 0) (pos (days_back * day_microseconds) +ℤ microseconds)
      && ltb_ℤ microseconds (pos ((days_on + 1) * day_microseconds))
    then moment microseconds
    else null

unfoldable pub read_date : Bytes → ℕ → Bool → Result Cell
read_date bytes at with_time =
    if ltb (length bytes) (at + (if with_time then 8 else 4)) then ok null else (do
      day_bits ← unpack 4 bytes at
      part_bits ← if with_time then unpack 4 bytes (at + 4) else ok 0
      let days = signed 32 day_bits
      let part = signed 32 part_bits
      if eqb_ℤ days (pos 0) && eqb_ℤ part (pos 0)
          then ok null
          else ok (moment_at (days *ℤ pos day_microseconds +ℤ part *ℤ pos 100)))

unfoldable pub read_time : Bytes → ℕ → Result Cell
read_time bytes at = if ltb (length bytes) (at + 4) then ok null else (do
  part ← unpack 4 bytes at
  if part == 0 then ok null else ok (time_of_day (part * 100 % day_microseconds)))

unfoldable pub read_blob_pointer : Bytes → ℕ → Field → Result Cell
read_blob_pointer bytes at column = if ltb (length bytes) (at + 8) then ok null else (do
  blob_relation ← unpack 4 bytes at
  row_id ← unpack 4 bytes (at + 4)
  if row_id == 0 && blob_relation == 0 then ok null else ok (blob_pointer row_id column.subtype))

-- `if pos + width > len(data): return None`, and else what is made of the number there
abbrev pub read_number : ℕ → Bytes → ℕ → (ℕ → Cell) → Result Cell
read_number width bytes at cell =
    if ltb (length bytes) (at + width)
    then ok null
    else (do value ← unpack width bytes at; ok (cell value))

-- An eight-byte integer, whose subtype 1 stands for four decimal places.
abbrev pub wide_integer : Field → ℤ → Cell
wide_integer column value =
    if column.subtype == 1 || ltb_ℤ column.scale (pos 0)
    then scale_value value (
        if ltb_ℤ column.scale (pos 0)
        then column.scale
        else if column.subtype == 1
        then negsuc 3
        else pos 0)
    else integer value

abbrev pub read_varying : Bytes → ℕ → Field → Result Cell
read_varying bytes at column = if ltb (length bytes) (at + 2) then ok null else (do
  stored ← unpack 2 bytes at
  let limit = if column.length_bytes == 0 then stored else column.length_bytes
  let size = if ltb limit stored then limit else stored
  ok (string (decode_text (slice bytes (at + 2) (at + 2 + size)))))

unfoldable pub read_field : Bytes → Field → Result Cell
read_field bytes column =
    let at = column.offset in
    let dtype = column.dtype in
    if leb (length bytes) at
    then ok null
    else if dtype == dtype_text || dtype == dtype_cstring
    then (if not (column.subtype == 0 || column.subtype == 3) && dtype == dtype_text
        then read_blob_pointer bytes at column
        else ok (string (decode_text (slice bytes at (at + column.length_bytes)))))
    else if dtype == dtype_varying
    then read_varying bytes at column
    else if dtype == dtype_byte
    then (do value ← byte_at bytes at; ok (integer (pos value)))
    else if dtype == dtype_short
    then read_number 2 bytes at (λ bits. scale_value (signed 16 bits) column.scale)
    else if dtype == dtype_long
    then read_number 4 bytes at (λ bits. scale_value (signed 32 bits) column.scale)
    else if dtype == dtype_quad || dtype == dtype_int64
    then read_number 8 bytes at (λ bits. wide_integer column (signed 64 bits))
    else if dtype == dtype_real
    then read_number 4 bytes at real
    else if dtype == dtype_double
    then read_number 8 bytes at double
    else if dtype == dtype_date
    then read_date bytes at false
    else if dtype == dtype_time
    then read_time bytes at
    else if dtype == dtype_timestamp
    then read_date bytes at true
    else if dtype == dtype_blob
    then read_blob_pointer bytes at column
    else ok null

-- The loop of `_decode`, from a column's index on.
unfoldable pub decode_from : Bytes → ℕ → List Field → Result (List Cell)
decode_from bytes index [] = ok []
decode_from bytes index (column ∷ columns) = do
  value ← read_field bytes column
  values ← decode_from bytes (index + 1) columns
  ok ((if is_null bytes index then null else value) ∷ values)

unfoldable pub decode : Bytes → List Field → Result (List Cell)
decode bytes fields = decode_from bytes 0 fields
