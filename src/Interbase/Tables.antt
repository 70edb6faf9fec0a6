-- ===== src/Interbase/Tables.antt =====
-- The constants, fields and tables of tools/interbase/gdb_reader.py, the open file, and the layout
-- of the system tables.
pub mod System
pub mod Layout
use faethon_system.Base.{
  ℕ, zero, suc, ◌+◌, ◌-◌, ◌*◌, ◌/◌, ◌≤◌, ◌<◌, ◌≡◌, Bool, true, false, ◌&&◌, ◌||◌, not, List, [],
  ◌∷◌, ◌++◌, Option, none, some, map, length, if◌then◌else◌, ltb, leb, ◌==◌, ℤ, pos, Text, text,
  String, is_some,
}
use faethon_system.Base.{Result, ok, err, crash}
use faethon_system.Interbase.Bytes.{Bytes}

abbrev pub data_header : ℕ
data_header = 24

abbrev pub record_header : ℕ
record_header = 13

abbrev pub fragment_header : ℕ
fragment_header = 22

-- `struct.calcsize("<IIHHBIIHBB")`
abbrev pub blob_header : ℕ
blob_header = 25

abbrev pub page_data : ℕ
page_data = 5

abbrev pub rec_fragment : ℕ
rec_fragment = 4

abbrev pub rec_incomplete : ℕ
rec_incomplete = 8

abbrev pub rec_blob : ℕ
rec_blob = 16

-- `REC_DELETED | REC_CHAIN | REC_FRAGMENT | REC_BLOB | REC_DAMAGED`
abbrev pub skip_record : ℕ
skip_record = 1 + 2 + 4 + 16 + 128

abbrev pub sys_pages : ℕ
sys_pages = 0

abbrev pub sys_fields : ℕ
sys_fields = 2

abbrev pub sys_relation_fields : ℕ
sys_relation_fields = 5

abbrev pub sys_relations : ℕ
sys_relations = 6

abbrev pub sys_formats : ℕ
sys_formats = 8

abbrev pub dtype_text : ℕ
dtype_text = 1

abbrev pub dtype_cstring : ℕ
dtype_cstring = 2

abbrev pub dtype_varying : ℕ
dtype_varying = 3

abbrev pub dtype_byte : ℕ
dtype_byte = 7

abbrev pub dtype_short : ℕ
dtype_short = 8

abbrev pub dtype_long : ℕ
dtype_long = 9

abbrev pub dtype_quad : ℕ
dtype_quad = 10

abbrev pub dtype_real : ℕ
dtype_real = 11

abbrev pub dtype_double : ℕ
dtype_double = 12

abbrev pub dtype_date : ℕ
dtype_date = 14

abbrev pub dtype_time : ℕ
dtype_time = 15

abbrev pub dtype_timestamp : ℕ
dtype_timestamp = 16

abbrev pub dtype_blob : ℕ
dtype_blob = 17

abbrev pub dtype_array : ℕ
dtype_array = 18

abbrev pub dtype_int64 : ℕ
dtype_int64 = 19

-- `Field`. A descriptor's numbers are unsigned but for the scale; the schema's rows have signed ones.
pub record Field : Type 0 where
  pub name : Text
  pub dtype : ℕ
  pub length_bytes : ℕ
  pub subtype : ℕ
  pub scale : ℤ
  pub offset : ℕ
  pub sql_type : ℤ
  pub sql_length : ℤ
  pub sql_subtype : ℤ

-- What a field of a record reads as. `real` and `double` have the bit pattern of the float,
-- `moment` the microseconds since the `EPOCH`, `time_of_day` those since midnight, and
-- `decimal m s` is the number m * 10^s.
pub data Cell : Type 0 where
  null : Cell
  string : Text → Cell
  integer : ℤ → Cell
  decimal : ℤ → ℤ → Cell
  real : ℕ → Cell
  double : ℕ → Cell
  moment : ℤ → Cell
  time_of_day : ℕ → Cell
  blob_pointer : ℕ → ℕ → Cell

-- `Table`; a page has its sequence first.
pub record Table : Type 0 where
  pub relation_id : ℕ
  pub table_name : Text
  pub format_id : ℤ
  pub fields : List Field
  pub pages : List (ℕ × ℕ)
  pub row_count : ℕ
  pub rows : List (List Cell)

-- `Database` with the bytes of its file. `tables` is in the order of the insertions; in
-- `page_index` the newest entry of a key is the first.
pub record Database : Type 0 where
  pub file : Bytes
  pub page_size : ℕ
  pub ods_major : ℕ
  pub ods_minor : ℕ
  pub implementation : ℕ
  pub page_count : ℕ
  pub max_records : ℕ
  pub tables : List Table
  pub page_index : List ((ℕ × ℕ) × ℕ)

abbrev pub column : String → ℕ → ℕ → ℕ → Field
column name dtype length_bytes subtype = record {
  name = text name;
  dtype = dtype;
  length_bytes = length_bytes;
  subtype = subtype;
  scale = pos 0;
  offset = 0;
  sql_type = pos 0;
  sql_length = pos 0;
  sql_subtype = pos 0;
}

abbrev pub new_table : ℕ → Text → List Field → Table
new_table relation_id name fields = record {
  relation_id = relation_id;
  table_name = name;
  format_id = pos 0;
  fields = fields;
  pages = [];
  row_count = 0;
  rows = [];
}

unfoldable pub field_size : Field → ℕ
field_size field =
    let dtype = field.dtype in
    let size = field.length_bytes in
    if dtype == dtype_text
    then (if field.subtype == 0 || field.subtype == 3 then size else if size == 0 then 8 else size)
    else if dtype == dtype_cstring
    then size
    else if dtype == dtype_varying
    then 2 + size
    else if dtype == dtype_byte
    then 1
    else if dtype == dtype_short
    then 2
    else if dtype == dtype_long
    then 4
    else if dtype == dtype_quad
        || dtype == dtype_double
        || dtype == dtype_timestamp
        || dtype == dtype_int64
    then 8
    else if dtype == dtype_real
    then 4
    else if dtype == dtype_date || dtype == dtype_time
    then 4
    else if dtype == dtype_blob
    then (if not (size == 0) then size else if field.subtype == 2 then 4 else 8)
    else if dtype == dtype_array
    then 8
    else size

-- `table.relation_id == SYS_FIELDS and index == 8 and force_pos is not None`
abbrev pub is_forced : Table → ℕ → Option ℕ → Option ℕ
is_forced table index none = none
is_forced table index (some forced) =
    if table.relation_id == sys_fields && index == 8 then some forced else none

abbrev place_at : Option ℕ → ℕ → ℕ
place_at none at = at
place_at (some forced) at = forced

-- The loop over the columns, from a column's index and position on, with `forced`.
unfoldable pub place_columns : Table → Option ℕ → ℕ → ℕ → Bool → List Field → List Field × Bool
place_columns table force_pos index at forced [] = ([], forced)
place_columns table force_pos index at forced (current ∷ columns) =
    let anchor = is_forced table index force_pos in
    let here = place_at anchor at in
    let now = forced || is_some anchor in
    let rest = place_columns table force_pos (index + 1) (here + field_size current) now columns in
    (record current { offset = here } ∷ rest.0, rest.1)

-- `((max(len(table.fields) - 1, 0) // 32) + 1) * 4`
abbrev pub null_bitmap_size : List Field → ℕ
null_bitmap_size fields = ((length fields - 1) / 32 + 1) * 4

unfoldable pub place_system_fields : Table → Option ℕ → Result Table
place_system_fields table force_pos =
    let placed =
      place_columns table force_pos 0 (null_bitmap_size table.fields) false table.fields in
    if table.relation_id == sys_fields && not placed.1
    then err (crash "RuntimeError: RDB$FIELDS layout was not anchored")
    else ok (record table { fields = placed.0 })
