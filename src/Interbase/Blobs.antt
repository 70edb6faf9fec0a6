-- ===== src/Interbase/Blobs.antt =====
-- Blobs, in tools/interbase/gdb_reader.py: `read_blob` and `_read_blob_pages`.
pub mod Reads
use faethon_system.Base.{
  ℕ, zero, suc, ◌+◌, ◌-◌, ◌*◌, ◌/◌, ◌%◌, ◌≡◌, Bool, true, false, ◌&&◌, ◌||◌, not, List, [], ◌∷◌,
  ◌++◌, Option, none, some, length, drop, find, if◌then◌else◌, ltb, leb, ◌==◌,
}
use faethon_system.Base.{Result, ok, err, crash, ◌>>=◌}
use faethon_system.Interbase.Bytes.{Bytes, slice, unpack, byte_at, has, little_endian}
use faethon_system.Interbase.Tables.{Database, data_header, blob_header, rec_blob}
use faethon_system.Interbase.Pages.{Slot, page_of, unpack_slot}

-- the page numbers in the body of a blob page: `range(0, len(body) - 3, 4)`
abbrev pub page_numbers : Bytes → List ℕ
page_numbers (a ∷ b ∷ c ∷ d ∷ rest) = little_endian (a ∷ b ∷ c ∷ d ∷ []) ∷ page_numbers rest
page_numbers _ = []

-- `for number in pages: if number: out += read(number)`
unfoldable pub gather : (ℕ → Result Bytes) → List ℕ → Result Bytes
gather read [] = ok []
gather read (number ∷ numbers) = do
  chunk ← if number == 0 then ok [] else read number
  rest ← gather read numbers
  ok (chunk ++ rest)

-- `_read_blob_pages`, where `calls` is `7 - depth`: it returns at once where `depth > 6`.
unfoldable pub read_blob_pages : Database → ℕ → ℕ → ℕ → Result Bytes
read_blob_pages db zero lead level = ok []
read_blob_pages db (suc calls) lead level = elim (lead == 0 || leb db.page_count lead) [
  | true ↦ ok []
  | false ↦
      let page = page_of db lead in
      do
        kind ← byte_at page 0
        elim (kind == 8) [
          | false ↦ ok []
          | true ↦ do
            size ← unpack 2 page 24
            flags ← byte_at page 1
            let body = if leb (28 + size) db.page_size then slice page 28 (28 + size) else []
            elim (has flags 1 || ltb 0 level) [
              | true ↦
                  gather (λ number. read_blob_pages db calls number (level - 1)) (page_numbers body)
              | false ↦ ok body
            ]
        ]
]

-- What `read_blob` uses of the header of a blob.
pub record BlobHeader : Type 0 where
  pub lead : ℕ
  pub flags : ℕ
  pub level : ℕ
  pub subtype : ℕ

-- `struct.unpack_from("<IIHHBIIHBB", page, offset)`
unfoldable pub unpack_blob_header : Bytes → ℕ → Result BlobHeader
unpack_blob_header page offset = do
  lead ← unpack 4 page offset
  max_seq ← unpack 4 page (offset + 4)
  max_seg ← unpack 2 page (offset + 8)
  flags ← unpack 2 page (offset + 10)
  level ← unpack 1 page (offset + 12)
  count ← unpack 4 page (offset + 13)
  blob_len ← unpack 4 page (offset + 17)
  subtype ← unpack 2 page (offset + 21)
  charset ← unpack 1 page (offset + 23)
  unused ← unpack 1 page (offset + 24)
  ok (record { lead = lead; flags = flags; level = level; subtype = subtype })

-- `self._page_index.get((relation_id, sequence))`
abbrev pub page_at : List ((ℕ × ℕ) × ℕ) → ℕ → ℕ → Option ℕ
page_at [] relation_id sequence = none
page_at (((relation, seq), number) ∷ index) relation_id sequence =
    if relation == relation_id && seq == sequence
    then some number
    else page_at index relation_id sequence

-- The blob in a slot of its page.
unfoldable pub blob_in_slot : Database → Bytes → Slot → Result (Option Bytes)
blob_in_slot db page (offset, size) =
    if ltb size blob_header || ltb db.page_size (offset + size) then ok none else (do
      header ← unpack_blob_header page offset
      if not (has header.flags rec_blob) then ok none else (do
        chunks ←
            if header.lead == 0
            then ok (slice page (offset + blob_header) (offset + size))
            else read_blob_pages db 7 header.lead header.level
        ok (some (if header.subtype == 1 && leb 2 (length chunks) then drop 2 chunks else chunks))))

-- `divmod(row_id, self.max_records)`
abbrev pub divmod : ℕ → ℕ → Result (ℕ × ℕ)
divmod n zero = err (crash "ZeroDivisionError")
divmod n (suc d) = ok (n / suc d, n % suc d)

-- A row id is an unsigned number of the file, so `row_id < 0` does not occur.
unfoldable pub read_blob : Database → ℕ → ℕ → Result (Option Bytes)
read_blob db relation_id row_id = do
  place ← divmod row_id db.max_records
  elim (page_at db.page_index relation_id place.0) [
    | none ↦ ok none
    | some number ↦
        let page = page_of db number in
        do
          count ← unpack 2 page 22
          if ltb db.page_size (data_header + place.1 * 4 + 4) then ok none else (do
            slot ← unpack_slot page (data_header + place.1 * 4)
            blob_in_slot db page slot)
  ]
