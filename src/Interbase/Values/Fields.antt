-- ===== src/Interbase/Values/Fields.antt =====
-- The fields of a record: what `_read_field` reads of an integer column, and what `_decode` returns.
use faethon_system.Base.{
  ℕ, ◌+◌, ◌≡◌, refl, Bool, true, false, ◌&&◌, ◌||◌, not, List, [], ◌∷◌, length, ltb, leb, ◌==◌,
  arith, pos, eqb_ℤ,
}
use faethon_system.Base.Returns.{Returns, Any, Returns-bind, Returns-if}
use faethon_system.Interbase.Bytes.{Bytes, unpack-Returns, byte_at-Returns, signed}
use faethon_system.Interbase.Tables.{
  Field, Cell, dtype_text, dtype_cstring, dtype_varying, dtype_byte, dtype_short, dtype_long,
  dtype_quad, dtype_real, dtype_double, dtype_date, dtype_time, dtype_timestamp, dtype_blob,
  dtype_int64,
}
use faethon_system.Interbase.Values.{
  read_date, read_time, read_blob_pointer, read_number, read_varying, read_field, decode_from,
  decode,
}

read_number-Returns :
    (width : ℕ) (bytes : Bytes) (at : ℕ) (cell : ℕ → Cell)
    → Returns Any (read_number width bytes at cell)
read_number-Returns width bytes at cell =
    Returns-if Any (ltb (length bytes) (at + width)) _ _ (λ _. tt)
      λ e. Returns-bind Any Any _ _ (unpack-Returns width bytes at (ground arith)) λ value _. tt

read_date-Returns :
    (bytes : Bytes) (at : ℕ) (with_time : Bool) → Returns Any (read_date bytes at with_time)
unfolding read_date
read_date-Returns bytes at true =
    Returns-if Any (ltb (length bytes) (at + 8)) _ _ (λ _. tt)
      λ e. Returns-bind Any Any _ _ (unpack-Returns 4 bytes at (ground arith)) λ days _.
        Returns-bind Any Any _ _ (unpack-Returns 4 bytes (at + 4) (ground arith)) λ part _.
          Returns-if Any (eqb_ℤ (signed 32 days) (pos 0) && eqb_ℤ (signed 32 part) (pos 0)) _ _
            (λ _. tt) (λ _. tt)
read_date-Returns bytes at false =
    Returns-if Any (ltb (length bytes) (at + 4)) _ _ (λ _. tt)
      λ e.
        Returns-bind Any Any _ _ (unpack-Returns 4 bytes at (ground arith))
          λ days _. Returns-if Any (eqb_ℤ (signed 32 days) (pos 0) && true) _ _ (λ _. tt) (λ _. tt)

read_time-Returns : (bytes : Bytes) (at : ℕ) → Returns Any (read_time bytes at)
unfolding read_time
read_time-Returns bytes at =
    Returns-if Any (ltb (length bytes) (at + 4)) _ _ (λ _. tt)
      λ e.
        Returns-bind Any Any _ _ (unpack-Returns 4 bytes at (ground arith))
          λ part _. Returns-if Any (part == 0) _ _ (λ _. tt) (λ _. tt)

read_blob_pointer-Returns :
    (bytes : Bytes) (at : ℕ) (column : Field) → Returns Any (read_blob_pointer bytes at column)
unfolding read_blob_pointer
read_blob_pointer-Returns bytes at column =
    Returns-if Any (ltb (length bytes) (at + 8)) _ _ (λ _. tt)
      λ e. Returns-bind Any Any _ _ (unpack-Returns 4 bytes at (ground arith)) λ relation _.
        Returns-bind Any Any _ _ (unpack-Returns 4 bytes (at + 4) (ground arith))
          λ row_id _. Returns-if Any (row_id == 0 && relation == 0) _ _ (λ _. tt) (λ _. tt)

read_varying-Returns :
    (bytes : Bytes) (at : ℕ) (column : Field) → Returns Any (read_varying bytes at column)
read_varying-Returns bytes at column =
    Returns-if Any (ltb (length bytes) (at + 2)) _ _ (λ _. tt)
      λ e. Returns-bind Any Any _ _ (unpack-Returns 2 bytes at (ground arith)) λ stored _. tt

-- Each reader of a field, in the order of the tests on its type.
read_field-Returns : (bytes : Bytes) (column : Field) → Returns Any (read_field bytes column)
unfolding read_field
read_field-Returns bytes column =
    let at = column.offset in
    let dtype = column.dtype in
    Returns-if Any (leb (length bytes) at) _ _ (λ _. tt)
      λ e.
        Returns-if Any (dtype == dtype_text || dtype == dtype_cstring) _ _
          (λ _.
            Returns-if Any (not (column.subtype == 0 || column.subtype == 3) && dtype == dtype_text)
              _ _ (λ _. read_blob_pointer-Returns bytes at column) (λ _. tt))
          λ _.
            Returns-if Any (dtype == dtype_varying) _ _ (λ _. read_varying-Returns bytes at column)
              λ _.
                Returns-if Any (dtype == dtype_byte) _ _
                  (λ _.
                    Returns-bind Any Any _ _ (byte_at-Returns bytes at (ground arith))
                      λ value _. tt)
                  λ _.
                    Returns-if Any (dtype == dtype_short) _ _
                      (λ _. read_number-Returns 2 bytes at _)
                      λ _.
                        Returns-if Any (dtype == dtype_long) _ _
                          (λ _. read_number-Returns 4 bytes at _)
                          λ _.
                            Returns-if Any (dtype == dtype_quad || dtype == dtype_int64) _ _
                              (λ _. read_number-Returns 8 bytes at _)
                              λ _.
                                Returns-if Any (dtype == dtype_real) _ _
                                  (λ _. read_number-Returns 4 bytes at _)
                                  λ _.
                                    Returns-if Any (dtype == dtype_double) _ _
                                      (λ _. read_number-Returns 8 bytes at _)
                                      λ _.
                                        Returns-if Any (dtype == dtype_date) _ _
                                          (λ _. read_date-Returns bytes at false)
                                          λ _.
                                            Returns-if Any (dtype == dtype_time) _ _
                                              (λ _. read_time-Returns bytes at)
                                              λ _.
                                                Returns-if Any (dtype == dtype_timestamp) _ _
                                                  (λ _. read_date-Returns bytes at true)
                                                  λ _.
                                                    Returns-if Any (dtype == dtype_blob) _ _
                                                      (λ _.
                                                        read_blob_pointer-Returns bytes at column)
                                                      (λ _. tt)

decode_from-length :
    (bytes : Bytes) (index : ℕ) (fields : List Field)
    → Returns (λ values. length values ≡ length fields) (decode_from bytes index fields)
unfolding decode_from
decode_from-length bytes index [] = refl
decode_from-length bytes index (column ∷ columns) =
    Returns-bind Any _ _ _ (read_field-Returns bytes column) λ value _.
      Returns-bind (λ values. length values ≡ length columns) _ _ _
        (decode_from-length bytes (index + 1) columns) λ values e. omega arith

-- _decode raises nothing, whatever the bytes of the record are, and returns a value for each column.
pub decode-length :
    (bytes : Bytes) (fields : List Field)
    → Returns (λ values. length values ≡ length fields) (decode bytes fields)
unfolding decode
decode-length bytes fields = decode_from-length bytes 0 fields
