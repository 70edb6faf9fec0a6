-- ===== src/Examples/Legacy.antt =====
-- gdb_reader.py on a small file: two pages of 64 bytes, of which the second has one record.
use faethon_system.Base.{
  zero, suc, true, ◌≡◌, refl, ◌++◌, List, [], ◌∷◌, some, arith, inl, inr, pos, negsuc, text, ok,
  ok-injective, strip,
}
use faethon_system.Base.Returns.{Returns, Any}
use faethon_system.Interbase.Bytes.{Bytes, unpack, byte_at}
use faethon_system.Interbase.Rle.{replicate, rle_round, rle_loop, rle_decompress}
use faethon_system.Interbase.Rle.Decode.{rle_decompress_ends}
use faethon_system.Interbase.Rle.RoundTrip.{
  Run, literal, repeated, encode, expand, rle_decompress-encode,
}
use faethon_system.Interbase.Tables.{
  Database, Table, Field, column, new_table, dtype_short, integer,
}
use faethon_system.Interbase.Pages.{
  page_of, slots, slots_from, live_record, records_of, live_records,
}
use faethon_system.Interbase.Pages.Slots.{IsWhole}
use faethon_system.Interbase.Pages.Records.{CountsFit, RecordsIn, live_records-RecordsIn}
use faethon_system.Interbase.Blobs.{read_blob}
use faethon_system.Interbase.Blobs.Reads.{read_blob-Returns}
use faethon_system.Interbase.Values.{decode_from, decode, read_field, scale_value, is_null}
use faethon_system.Interbase.Values.Integers.{to_bytes, pattern_of, read_field-to_bytes}
use faethon_system.Interbase.Opening.{read_header, scan_pages}
use faethon_system.Interbase.Opening.Header.{has_header, Answered, read_header-Accepted}
use faethon_system.Interbase.Opening.Scan.{Scanned, scan_pages-Scanned}
use faethon_system.Interbase.Rows.{
  Python, Row, present_cell, present_from, present, shown_row, rows,
}
use faethon_system.Interbase.Rows.Paging.{all_rows, page_of_rows}
use faethon_system.Interbase.Rows.Reading.{rows-eq-page_of_rows}

-- A data page of relation 130 with one slot: a record of 17 bytes at offset 40, whose payload is a
-- run of three bytes written out, with a null bitmap byte and a SMALLINT of 7.
abbrev data_page : Bytes
data_page =
    5
    ∷ 0
    ∷ (replicate 18 0
        ++ (130
            ∷ 0
            ∷ 1
            ∷ 0
            ∷ 40
            ∷ 0
            ∷ 17
            ∷ 0
            ∷ (replicate 25 0 ++ (3 ∷ 0 ∷ 7 ∷ 0 ∷ replicate 7 0))))

abbrev quantity : Field
quantity = record (column "QTY" dtype_short 2 0) { offset = 1 }

abbrev goods : Table
goods = record (new_table 130 (text "GOODS") (quantity ∷ [])) { pages = (0, 1) ∷ [] }

abbrev small : Database
small = record {
  file = replicate 64 0 ++ data_page;
  page_size = 64;
  ods_major = 11;
  ods_minor = 0;
  implementation = 0;
  page_count = 2;
  max_records = 2;
  tables = goods ∷ [];
  page_index = ((130, 0), 1) ∷ [];
}

small-IsWhole : IsWhole small
small-IsWhole = record {
  in_file = omega arith;
  has_header = omega arith;
  has_records = omega arith;
  index_fits = (omega arith, tt);
}

small-CountsFit : CountsFit small
unfolding page_of unpack
small-CountsFit zero count h e = omega (arith, ok-injective e)
small-CountsFit (suc zero) count h e = omega (arith, ok-injective e)
small-CountsFit (suc (suc n)) count h e = absurd (omega arith)

abbrev plain : Python
plain = record {
  isoformat = λ t. [];
  round_real = λ bits. integer (pos bits);
  round_double = λ bits. integer (pos bits);
  format_decimal = λ m s. [];
  casefold = λ s. s;
}

abbrev small_rows : List Row
small_rows = (integer (pos 7) ∷ []) ∷ []

small_shown : all_rows plain small goods goods.pages ≡ ok small_rows
unfolding unpack byte_at page_of live_records slots slots_from records_of live_record rle_decompress
    rle_loop rle_round shown_row decode decode_from read_field is_null present present_from
    present_cell scale_value
small_shown = refl

rows-eq-page_of_rows_example :
    rows plain small goods 0 10 (text "")
    ≡ ok (page_of_rows plain 0 10 (strip (text "")) small_rows)
rows-eq-page_of_rows_example =
    rows-eq-page_of_rows plain small goods 0 10 (text "") small_rows small_shown (omega arith)

-- the run of the reader on the record
small_records : live_records small data_page 1 ≡ ok ((0 ∷ 7 ∷ 0 ∷ []) ∷ [])
unfolding unpack live_records slots slots_from records_of live_record rle_decompress rle_loop
    rle_round
small_records = refl

abbrev two_runs : List Run
two_runs = literal (7 ∷ 8 ∷ []) ∷ repeated 100 9 ∷ []

rle_decompress-encode_example : rle_decompress (encode two_runs ++ 0 ∷ 55 ∷ []) ≡ expand two_runs
rle_decompress-encode_example = rle_decompress-encode two_runs (0 ∷ 55 ∷ []) (omega arith) refl

rle_decompress_ends_example :
    rle_loop 9 (2 ∷ 7 ∷ 8 ∷ 254 ∷ 5 ∷ []) [] ≡ some (rle_decompress (2 ∷ 7 ∷ 8 ∷ 254 ∷ 5 ∷ []))
rle_decompress_ends_example = rle_decompress_ends 9 (2 ∷ 7 ∷ 8 ∷ 254 ∷ 5 ∷ []) (omega arith)

live_records-RecordsIn_example : Returns (RecordsIn small 1) (live_records small data_page 1)
live_records-RecordsIn_example =
    live_records-RecordsIn small data_page 1 small-IsWhole small-CountsFit (omega arith)

read_blob-Returns_example : Returns Any (read_blob small 130 0)
read_blob-Returns_example = read_blob-Returns small 130 0 small-IsWhole

read_field-to_bytes_example :
    read_field
      (0 ∷ (to_bytes 2 (pattern_of 16 (negsuc 4)) ++ (9 ∷ [])))
      (record quantity { scale = negsuc 1 })
    ≡ ok (scale_value (negsuc 4) (negsuc 1))
read_field-to_bytes_example =
    read_field-to_bytes (0 ∷ []) (9 ∷ []) (record quantity { scale = negsuc 1 }) 2 (negsuc 4) refl
      (inl (refl, refl)) refl (omega arith)

-- the header page of a file without other pages: pages of 1024 bytes, structure 11
abbrev header_page : Bytes
header_page = 1 ∷ (replicate 16 0 ++ (4 ∷ 11 ∷ replicate 45 0))

header_opens : has_header header_page ≡ true
header_opens = refl

read_header-Accepted_example :
    Answered header_page (has_header header_page) (read_header header_page)
read_header-Accepted_example = read_header-Accepted header_page

scan_pages-Scanned_example : Returns Scanned (scan_pages small)
scan_pages-Scanned_example =
    scan_pages-Scanned small (small-IsWhole, small-CountsFit, (((omega arith, tt), inr refl), tt))
