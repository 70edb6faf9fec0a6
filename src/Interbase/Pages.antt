-- ===== src/Interbase/Pages.antt =====
-- The pages of the file and the records on them, in tools/interbase/gdb_reader.py: `_page`,
-- `_count_live`, `_slots`, `_live_records` and `_fragment`.
pub mod Slots
pub mod Records
use faethon_system.Base.{
  ℕ, zero, suc, ◌+◌, ◌*◌, ◌≤◌, ◌<◌, ◌≡◌, Bool, true, false, ◌&&◌, ◌||◌, not, List, [], ◌∷◌, ◌++◌,
  Option, none, some, length, drop, if◌then◌else◌, ltb, leb, ◌==◌,
}
use faethon_system.Base.{Result, ok, err, crash, ◌>>=◌, or_raise}
use faethon_system.Interbase.Bytes.{Bytes, slice, unpack, byte_at, has}
use faethon_system.Interbase.Rle.{rle_decompress}
use faethon_system.Interbase.Tables.{
  Database, data_header, record_header, fragment_header, page_data, rec_fragment, rec_incomplete,
  skip_record,
}

-- A slot: the offset of a record on its page, and its length.
abbrev pub Slot : Type 0
Slot = ℕ × ℕ

unfoldable pub page_of : Database → ℕ → Bytes
page_of db number = slice db.file (number * db.page_size) (number * db.page_size + db.page_size)

-- `struct.unpack_from("<HH", page, at)`
abbrev pub unpack_slot : Bytes → ℕ → Result Slot
unpack_slot page at = do offset ← unpack 2 page at; size ← unpack 2 page (at + 2); ok (offset, size)

abbrev pub is_empty_slot : ℕ → Slot → Bool
is_empty_slot page_size slot = slot.1 == 0 || slot.0 == 0 || ltb page_size (slot.0 + slot.1)

-- The loop of `_slots` from an index on, over the rounds left of `range(count)`.
unfoldable pub slots_from : ℕ → Bytes → ℕ → ℕ → Result (List Slot)
slots_from page_size page zero index = ok []
slots_from page_size page (suc rounds) index =
    let at = data_header + index * 4 in
    elim (ltb page_size (at + 4)) [
      | true ↦ ok []
      | false ↦ do
        slot ← unpack_slot page at
        rest ← slots_from page_size page rounds (index + 1)
        ok (if is_empty_slot page_size slot then rest else slot ∷ rest)
    ]

-- The slots that `_slots` yields, as a list.
unfoldable pub slots : Database → Bytes → ℕ → Result (List Slot)
slots db page count = slots_from db.page_size page count 0

-- The loop of `_count_live`.
unfoldable pub count_slots : ℕ → Bytes → List Slot → Result ℕ
count_slots page_size page [] = ok 0
count_slots page_size page ((offset, size) ∷ rest) = do
  live ←
      if ltb size record_header || ltb page_size (offset + 12)
      then ok 0
      else (do flags ← unpack 2 page (offset + 10); ok (if has flags skip_record then 0 else 1))
  more ← count_slots page_size page rest
  ok (live + more)

unfoldable pub count_live : Database → Bytes → ℕ → Result ℕ
count_live db page count = do found ← slots db page count; count_slots db.page_size page found

-- `raw_slots` of `_fragment`
unfoldable pub raw_slots : Bytes → ℕ → ℕ → Result (List Slot)
raw_slots page zero index = ok []
raw_slots page (suc rounds) index = do
  slot ← unpack_slot page (data_header + index * 4)
  rest ← raw_slots page rounds (index + 1)
  ok (slot ∷ rest)

abbrev pub get_elem? {ℓ} : {A : Type ℓ} → List A → ℕ → Option A
get_elem? [] n = none
get_elem? (x ∷ xs) zero = some x
get_elem? (x ∷ xs) (suc n) = get_elem? xs n

-- The slot of a fragment's line, where `_fragment` does not return before.
unfoldable pub fragment_slot : Database → Bytes → ℕ → ℕ → Result (Option Slot)
fragment_slot db page count line = do
  live ← slots db page count
  elim (leb (length live) line) [
    | true ↦ do raw ← raw_slots page count 0; ok (get_elem? raw line)
    | false ↦
        let at = data_header + line * 4 in
        if ltb db.page_size (at + 4)
        then ok none
        else (do slot ← unpack_slot page at; ok (some slot))
  ]

-- What `_fragment` returns for a slot.
unfoldable pub fragment_record : Database → Bytes → Option Slot → Result Bytes
fragment_record db page none = ok []
fragment_record db page (some (offset, size)) =
    if ltb size record_header || ltb db.page_size (offset + size) then ok [] else (do
      flags ← unpack 2 page (offset + 10)
      ok (
          if not (has flags rec_fragment)
          then []
          else rle_decompress (slice page (offset + record_header) (offset + size))))

-- `_fragment`, which does not call itself: its callers leave `depth` at 0.
unfoldable pub fragment : Database → ℕ → ℕ → ℕ → Result Bytes
fragment db page_number line depth =
    if ltb 8 depth || page_number == 0 || leb db.page_count page_number
    then ok []
    else (let page = page_of db page_number in
        do
          kind ← byte_at page 0
          if not (kind == page_data) then ok [] else (do
            count ← unpack 2 page 22
            slot ← fragment_slot db page count line
            fragment_record db page slot))

-- `if payload: yield payload`
abbrev pub yield_payload : Bytes → Option Bytes
yield_payload [] = none
yield_payload (b ∷ bytes) = some (b ∷ bytes)

-- What `_live_records` yields for a slot.
unfoldable pub live_record : Database → Bytes → Slot → Result (Option Bytes)
live_record db page (offset, size) = if ltb size record_header then ok none else (do
  flags ← unpack 2 page (offset + 10)
  if has flags rec_incomplete
      then (if ltb size fragment_header then ok none else (do
        frag_page ← unpack 4 page (offset + 16)
        frag_line ← unpack 2 page (offset + 20)
        more ← fragment db frag_page frag_line 0
        ok (
            yield_payload
              (rle_decompress (slice page (offset + fragment_header) (offset + size)) ++ more))))
      else if has flags skip_record || not (flags == 0)
      then ok none
      else ok
          (yield_payload (rle_decompress (slice page (offset + record_header) (offset + size)))))

-- The records that `_live_records` yields, as a list.
unfoldable pub records_of : Database → Bytes → List Slot → Result (List Bytes)
records_of db page [] = ok []
records_of db page (slot ∷ rest) = do
  found ← live_record db page slot
  more ← records_of db page rest
  ok (elim found [ none ↦ more | some bytes ↦ bytes ∷ more ])

unfoldable pub live_records : Database → Bytes → ℕ → Result (List Bytes)
live_records db page count = do found ← slots db page count; records_of db page found
