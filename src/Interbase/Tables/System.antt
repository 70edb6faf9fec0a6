-- ===== src/Interbase/Tables/System.antt =====
-- `_init_system_tables` of tools/interbase/gdb_reader.py.
use faethon_system.Base.{ℕ, ◌==◌, if◌then◌else◌, [], ◌∷◌, ◌++◌, none, some, text}
use faethon_system.Base.{Result, ok, ◌>>=◌}
use faethon_system.Interbase.Tables.{
  Database, Table, new_table, column, place_system_fields, sys_pages, sys_fields,
  sys_relation_fields, sys_relations, sys_formats, dtype_text, dtype_cstring, dtype_varying,
  dtype_short, dtype_long, dtype_blob,
}

abbrev pub system_pages : Table
system_pages = new_table sys_pages (text "RDB$PAGES") (
    column "PAGE_NUMBER" dtype_long 4 0
    ∷ column "RELATION_ID" dtype_short 2 0
    ∷ column "PAGE_SEQUENCE" dtype_long 4 0
    ∷ column "PAGE_TYPE" dtype_short 2 0
    ∷ [])

abbrev pub system_fields : ℕ → Table
system_fields name_len = new_table sys_fields (text "RDB$FIELDS") (
    column "FIELD_NAME" dtype_cstring name_len 0
    ∷ column "QUERY_NAME" dtype_cstring name_len 0
    ∷ column "VALIDATION_BLR" dtype_blob 8 2
    ∷ column "VALIDATION_SOURCE" dtype_text 8 1
    ∷ column "COMPUTED_BLR" dtype_blob 8 2
    ∷ column "COMPUTED_SOURCE" dtype_text 8 1
    ∷ column "DEFAULT_VALUE" dtype_blob 8 2
    ∷ column "DEFAULT_SOURCE" dtype_text 8 1
    ∷ column "FIELD_LENGTH" dtype_short 2 0
    ∷ column "FIELD_SCALE" dtype_short 2 0
    ∷ column "FIELD_TYPE" dtype_short 2 0
    ∷ column "FIELD_SUB_TYPE" dtype_short 2 0
    ∷ column "MISSING_VALUE" dtype_blob 4 2
    ∷ column "MISSING_SOURCE" dtype_blob 10 1
    ∷ column "DESCRIPTION" dtype_blob 10 1
    ∷ column "SYSTEM_FLAG" dtype_short 2 0
    ∷ column "QUERY_HEADER" dtype_text 14 1
    ∷ column "SEGMENT_LENGTH" dtype_short 2 0
    ∷ column "EDIT_STRING" dtype_varying 126 0
    ∷ column "EXTERNAL_LENGTH" dtype_short 2 0
    ∷ column "EXTERNAL_SCALE" dtype_short 2 0
    ∷ column "EXTERNAL_TYPE" dtype_short 2 0
    ∷ column "DIMENSIONS" dtype_short 2 0
    ∷ column "NULL_FLAG" dtype_short 2 0
    ∷ column "CHARACTER_LENGTH" dtype_short 2 0
    ∷ column "COLLATION_ID" dtype_short 2 0
    ∷ column "CHARACTER_SET_ID" dtype_short 2 0
    ∷ column "FIELD_PRECISION" dtype_short 2 0
    ∷ [])

abbrev pub system_relation_fields : Table
system_relation_fields = new_table sys_relation_fields (text "RDB$RELATION_FIELDS") (
    column "FIELD_NAME" dtype_cstring 67 0
    ∷ column "RELATION_NAME" dtype_cstring 67 0
    ∷ column "FIELD_SOURCE" dtype_cstring 67 0
    ∷ column "QUERY_NAME" dtype_cstring 67 0
    ∷ column "BASE_FIELD" dtype_cstring 67 0
    ∷ column "EDIT_STRING" dtype_varying 127 0
    ∷ column "FIELD_POSITION" dtype_short 2 0
    ∷ column "QUERY_HEADER" dtype_text 10 1
    ∷ column "UPDATE_FLAG" dtype_short 2 0
    ∷ column "FIELD_ID" dtype_short 2 0
    ∷ column "VIEW_CONTEXT" dtype_short 2 0
    ∷ column "DESCRIPTION" dtype_text 14 1
    ∷ column "DEFAULT_VALUE" dtype_blob 4 2
    ∷ column "SYSTEM_FLAG" dtype_short 2 0
    ∷ column "SECURITY_CLASS" dtype_cstring 31 0
    ∷ column "COMPLEX_NAME" dtype_cstring 31 0
    ∷ column "NULL_FLAG" dtype_short 2 0
    ∷ column "DEFAULT_SOURCE" dtype_text 14 1
    ∷ column "COLLATION_ID" dtype_short 2 0
    ∷ [])

abbrev pub system_relations : Table
system_relations = new_table sys_relations (text "RDB$RELATIONS") (
    column "VIEW_BLR" dtype_blob 8 1
    ∷ column "VIEW_SOURCE" dtype_blob 8 1
    ∷ column "DESCRIPTION" dtype_blob 8 1
    ∷ column "RELATION_ID" dtype_short 2 0
    ∷ column "SYSTEM_FLAG" dtype_short 2 0
    ∷ column "DBKEY_LENGTH" dtype_short 2 0
    ∷ column "FORMAT" dtype_short 2 0
    ∷ column "FIELD_ID" dtype_short 2 0
    ∷ column "RELATION_NAME" dtype_cstring 31 0
    ∷ column "SECURITY_CLASS" dtype_cstring 31 0
    ∷ column "EXTERNAL_FILE" dtype_varying 257 0
    ∷ column "RUNTIME" dtype_blob 8 5
    ∷ column "EXTERNAL_DESCRIPTION" dtype_blob 8 8
    ∷ column "OWNER_NAME" dtype_cstring 31 0
    ∷ column "DEFAULT_CLASS" dtype_cstring 31 0
    ∷ column "FLAGS" dtype_short 2 0
    ∷ column "RELATION_TYPE" dtype_short 2 0
    ∷ [])

abbrev pub system_formats : Table
system_formats = new_table sys_formats (text "RDB$FORMATS") (
    column "RELATION_ID" dtype_short 2 0
    ∷ column "FORMAT" dtype_short 2 0
    ∷ column "DESCRIPTOR" dtype_blob 8 6
    ∷ [])

-- The length of the names in RDB$FIELDS, and where the columns after them start.
abbrev pub name_length : ℕ → ℕ
name_length ods_major = if ods_major == 10 then 32 else 68

abbrev pub after_names : ℕ → ℕ
after_names ods_major = if ods_major == 10 then 116 else 188

unfoldable pub init_system_tables : Database → Result Database
init_system_tables db = do
  pages ← place_system_fields system_pages none
  fields ←
      place_system_fields (system_fields (name_length db.ods_major))
        (some (after_names db.ods_major))
  relation_fields ← place_system_fields system_relation_fields none
  relations ← place_system_fields system_relations none
  formats ← place_system_fields system_formats none
  ok (record db {
    tables = db.tables ++ (pages ∷ fields ∷ relation_fields ∷ relations ∷ formats ∷ []);
  })
