-- ===== src/Interbase/Opening.antt =====
-- The first steps of opening the file, in tools/interbase/gdb_reader.py: `_read_header` and
-- `_scan_pages`.
pub mod Header
pub mod Scan
use faethon_system.Base.{
  ℕ, zero, suc, ◌+◌, ◌-◌, ◌*◌, ◌/◌, ◌%◌, ◌≡◌, Bool, true, false, ◌&&◌, ◌||◌, not, List, [], ◌∷◌,
  ◌++◌, Option, none, some, length, take, find, if◌then◌else◌, ltb, leb, ◌==◌, Text, text, contains,
  overwrite,
}
use faethon_system.Base.{Result, ok, err, crash, ◌>>=◌}
use faethon_system.Documents.Numbers.{print_number}
use faethon_system.Interbase.Bytes.{Bytes, unpack, byte_at, has}
use faethon_system.Interbase.Tables.{
  Database, Table, Cell, Field, new_table, data_header, record_header, page_data,
}
use faethon_system.Interbase.Pages.{page_of, count_live, live_records}
use faethon_system.Interbase.Values.{decode}

abbrev pub page_sizes : List ℕ
page_sizes = 1024 ∷ 2048 ∷ 4096 ∷ 8192 ∷ 16384 ∷ []

-- `_read_header`, from the bytes of the file.
unfoldable pub read_header : Bytes → Result Database
read_header file = do
  let page = take 4096 file
  page_type ← byte_at page 0
  if not (page_type == 1) then err (crash "ValueError: not an InterBase/Firebird database") else (do
    page_size ← unpack 2 page 16
    ods_word ← unpack 2 page 18
    ods_minor ← unpack 2 page 62
    implementation ← unpack 2 page 60
    let ods_major = ods_word % 16
    if not (contains page_size page_sizes)
        then err (crash "ValueError: Unexpected page size")
        else if has ods_word 32768
        then err (crash "ValueError: This file is Firebird")
        else if not (ods_major == 11)
        then err (crash "ValueError: Unsupported ODS")
        else ok (record {
          file = file;
          page_size = page_size;
          ods_major = ods_major;
          ods_minor = ods_minor;
          implementation = implementation;
          page_count = length file / page_size;
          max_records = (page_size - data_header) / (4 + record_header);
          tables = [];
          page_index = [];
        }))

abbrev pub find_table : ℕ → List Table → Option Table
find_table relation_id tables = find (λ t. t.relation_id == relation_id) tables

-- `if table is None`: a new table is named after the relation.
abbrev pub known_or_new : ℕ → List Table → Option Table → Table × List Table
known_or_new relation_id tables (some table) = (table, tables)
known_or_new relation_id tables none =
    let table = new_table relation_id (text "RelationID=" ++ print_number relation_id) [] in
    (table, tables ++ table ∷ [])

-- The table of a relation, and the tables with it.
abbrev pub table_for : ℕ → List Table → Table × List Table
table_for relation_id tables = known_or_new relation_id tables (find_table relation_id tables)

abbrev pub is_nil : List Field → Bool
is_nil [] = true
is_nil (_ ∷ _) = false

-- `[self._decode(record, fields, relation_id) for record in records]`
unfoldable pub decode_all : List Field → List Bytes → Result (List (List Cell))
decode_all fields [] = ok []
decode_all fields (bytes ∷ rest) = do
  row ← decode bytes fields
  rows ← decode_all fields rest
  ok (row ∷ rows)

-- What a page adds to the rows and to the row count of its table.
unfoldable pub read_rows : Database → Bytes → ℕ → Table → Result Table
read_rows db page count table =
    if leb 40 table.relation_id || is_nil table.fields
    then (do
      live ← count_live db page count
      ok (record table { row_count = table.row_count + live }))
    else (do
      records ← live_records db page count
      rows ← decode_all table.fields records
      ok (record table { rows = table.rows ++ rows; row_count = table.row_count + length rows }))

-- The body of the loop of `_scan_pages` for a data page with its header read.
unfoldable pub add_page : Database → Bytes → ℕ → ℕ → ℕ → ℕ → Result Database
add_page db page number relation_id count sequence = do
  let known = table_for relation_id db.tables
  let listed = record known.0 { pages = known.0.pages ++ (sequence, number) ∷ [] }
  table ← read_rows db page count listed
  ok (record db {
    tables = overwrite (λ t. t.relation_id) table known.1;
    page_index = ((relation_id, sequence), number) ∷ db.page_index;
  })

-- The body of the loop of `_scan_pages`.
unfoldable pub scan_page : Database → ℕ → Result Database
scan_page db number = do
  let page = page_of db number
  kind ← byte_at page 0
  if not (kind == page_data) then ok db else (do
    flags ← byte_at page 1
    if has flags 1 then ok db else (do
      relation_id ← unpack 2 page 20
      count ← unpack 2 page 22
      sequence ← unpack 4 page 16
      if ltb 2000 count then ok db else add_page db page number relation_id count sequence))

-- The pages from a number on, as many as there are rounds left.
unfoldable pub scan_from : Database → ℕ → ℕ → Result Database
scan_from db zero number = ok db
scan_from db (suc rounds) number = do
  after ← scan_page db number
  scan_from after rounds (number + 1)

-- `_scan_pages`: `range(1, self.page_count)`
unfoldable pub scan_pages : Database → Result Database
scan_pages db = scan_from db (db.page_count - 1) 1
