-- ===== src/Interbase/Rows.antt =====
-- A page of the rows of a table, in tools/interbase/gdb_reader.py: `rows` and `_present`.
pub mod Paging
pub mod Reading
use faethon_system.Base.{
  ℕ, zero, suc, ◌+◌, ◌≡◌, Bool, true, false, ◌&&◌, ◌||◌, not, List, [], ◌∷◌, ◌++◌, Option, none,
  some, length, take, any, filter, if◌then◌else◌, ltb, leb, ◌==◌, ℤ, pos, eqb_ℤ, Text, text, strip,
  is_empty,
}
use faethon_system.Base.{Result, ok, err, ◌>>=◌}
use faethon_system.Documents.Numbers.{print_number, starts_with}
use faethon_system.Interbase.Bytes.{Bytes, unpack, byte_at}
use faethon_system.Interbase.Tables.{
  Database, Table, Field, Cell, null, string, integer, decimal, real, double, moment, time_of_day,
  blob_pointer, page_data,
}
use faethon_system.Interbase.Pages.{Slot, page_of, slots, live_record}
use faethon_system.Interbase.Blobs.{read_blob}
use faethon_system.Interbase.Values.{decode, decode_text}

-- What the reader calls of Python to show a value: `isoformat`, `round`, `format` and `casefold`.
pub record Python : Type 0 where
  pub isoformat : ℤ → Text
  pub round_real : ℕ → Cell
  pub round_double : ℕ → Cell
  pub format_decimal : ℤ → ℤ → Text
  pub casefold : Text → Text

abbrev pub Row : Type 0
Row = List Cell

-- `needle in s`
abbrev pub occurs_in : Text → Text → Bool
occurs_in needle [] = is_empty needle
occurs_in needle (c ∷ cs) = starts_with needle (c ∷ cs) || occurs_in needle cs

-- What `_present` shows of a blob that was read.
abbrev pub shown_blob : Field → Option Bytes → Cell
shown_blob column none = null
shown_blob column (some blob) =
    if column.subtype == 1 || eqb_ℤ column.sql_subtype (pos 1)
    then string (take 4000 (decode_text blob))
    else string (b'(' ∷ (print_number (length blob) ++ text " bytes)"))

-- Where the loops of `rows` stand: the counters and the rows found, or what was returned.
pub data Progress : Type 0 where
  going : (skipped scanned : ℕ) (found : List Row) → Progress
  returned : (found : List Row) (more : Bool) → Progress

-- The number of records after which a search stops
abbrev pub scan_limit : ℕ
scan_limit = 200_000

-- What `rows` returns when the loops are over.
abbrev pub answer : Progress → List Row × Bool
answer (going skipped scanned found) = (found, false)
answer (returned found more) = (found, more)

module _ (python : Python) where
  -- What `_present` shows of one value.
  unfoldable pub present_cell : Database → Table → Field → Cell → Result Cell
  present_cell db table column (blob_pointer row_id subtype) = do
    blob ← read_blob db table.relation_id row_id
    ok (shown_blob column blob)
  present_cell db table column (moment t) = ok (string (python.isoformat t))
  present_cell db table column (real bits) = ok (python.round_real bits)
  present_cell db table column (double bits) = ok (python.round_double bits)
  present_cell db table column (decimal m s) = ok (string (python.format_decimal m s))
  present_cell db table column value = ok value

  -- The loop of `_present`, over `zip(table.fields, values)`.
  unfoldable pub present_from : Database → Table → List Field → List Cell → Result Row
  present_from db table [] values = ok []
  present_from db table (column ∷ columns) [] = ok []
  present_from db table (column ∷ columns) (value ∷ values) = do
    first ← present_cell db table column value
    rest ← present_from db table columns values
    ok (first ∷ rest)

  unfoldable pub present : Database → Table → List Cell → Result Row
  present db table values = present_from db table table.fields values

  -- `isinstance(cell, str)` and `query in cell.casefold()`
  abbrev pub cell_has : Text → Cell → Bool
  cell_has query (string s) = occurs_in query (python.casefold s)
  cell_has query _ = false

  -- `not query or any(...)`
  unfoldable pub matches : Text → Row → Bool
  matches query row = is_empty query || any (cell_has query) row

  -- The body of the loop for a record whose row is shown.
  unfoldable pub add_row : ℕ → ℕ → Text → Progress → Row → Progress
  add_row offset limit query (returned found more) row = returned found more
  add_row offset limit query (going skipped scanned found) row =
      let scanned' = scanned + 1 in
      let found' = found ++ row ∷ [] in
      if not (matches query row)
      then (if leb scan_limit scanned' then returned found true else going skipped scanned' found)
      else if ltb skipped offset
      then going (skipped + 1) scanned' found
      else if ltb limit (length found')
      then returned (take limit found') true
      else if leb scan_limit scanned'
      then returned found' true
      else going skipped scanned' found'

  -- The row of a record.
  unfoldable pub shown_row : Database → Table → Bytes → Result Row
  shown_row db table bytes = do values ← decode bytes table.fields; present db table values

  -- The loop over the slots of a page: a record is read when the loop comes to it.
  unfoldable pub rows_of_slots :
      Database → Table → ℕ → ℕ → Text → Bytes → List Slot → Progress → Result Progress
  rows_of_slots db table offset limit query page [] state = ok state
  rows_of_slots db table offset limit query page (slot ∷ rest) (returned found more) =
      ok (returned found more)
  rows_of_slots db table offset limit query page (slot ∷ rest) (going skipped scanned found) = do
    record_bytes ← live_record db page slot
    elim record_bytes [
      | none ↦ rows_of_slots db table offset limit query page rest (going skipped scanned found)
      | some bytes ↦ do
        row ← shown_row db table bytes
        rows_of_slots db table offset limit query page rest
            (add_row offset limit query (going skipped scanned found) row)
    ]

  -- The body of the loop over the pages; it goes on where the page is no data page.
  unfoldable pub rows_of_page : Database → Table → ℕ → ℕ → Text → Bytes → Progress → Result Progress
  rows_of_page db table offset limit query page state = do
    kind ← byte_at page 0
    if kind == page_data
        then (do
          count ← unpack 2 page 22
          found_slots ← slots db page count
          rows_of_slots db table offset limit query page found_slots state)
        else ok state

  -- The loop over the pages of the table.
  unfoldable pub rows_of_pages :
      Database → Table → ℕ → ℕ → Text → List (ℕ × ℕ) → Progress → Result Progress
  rows_of_pages db table offset limit query [] state = ok state
  rows_of_pages db table offset limit query (place ∷ rest) (returned found more) =
      ok (returned found more)
  rows_of_pages db table offset limit query ((sequence, number) ∷ rest)
        (going skipped scanned found) =
      do
        state ←
            rows_of_page db table offset limit query (page_of db number)
              (going skipped scanned found)
        rows_of_pages db table offset limit query rest state

  unfoldable pub rows : Database → Table → ℕ → ℕ → Text → Result (List Row × Bool)
  rows db table offset limit query = do
    state ←
        rows_of_pages db table offset limit (python.casefold (strip query)) table.pages
          (going 0 0 [])
    ok (answer state)
