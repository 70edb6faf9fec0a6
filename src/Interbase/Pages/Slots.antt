-- ===== src/Interbase/Pages/Slots.antt =====
-- The slots of a page: where `_slots`, `_count_live` and `raw_slots` read.
use faethon_system.Base.{
  ℕ, zero, suc, ◌+◌, ◌*◌, ◌≤◌, ◌<◌, ◌≡◌, ◌||◌, List, [], ◌∷◌, All, length, if◌then◌else◌, ltb,
  arith, Bool-cases, inl, inr,
}
use faethon_system.Base.Returns.{Returns, Any, Returns-bind, Returns-if, weakened-Returns}
use faethon_system.Interbase.Bytes.{Bytes, unpack, unpack-Returns, length-slice}
use faethon_system.Interbase.Tables.{Database, data_header, record_header}
use faethon_system.Interbase.Pages.{
  Slot, page_of, unpack_slot, is_empty_slot, slots_from, slots, count_slots, count_live, raw_slots,
}

-- The pages that the reader counts and those in its index lie in the file, a page holds at least
-- the header of a blob page, and at least one record.
pub record IsWhole (db : Database) : Type 0 where
  pub in_file : db.page_count * db.page_size ≤ length db.file
  pub has_header : 28 ≤ db.page_size
  pub has_records : 0 < db.max_records
  pub index_fits : All (λ entry. entry.1 < db.page_count) db.page_index

pub length-page_of :
    (db : Database) (number : ℕ)
    → IsWhole db
    → number < db.page_count
    → length (page_of db number) ≡ db.page_size
unfolding page_of
length-page_of db number w h =
    let size = db.page_size in
    let start = number * size in
    let below : start + size ≤ length db.file = grind (arith, w.in_file) in
    rw (length-slice db.file start (start + size) (omega arith) below) (omega arith)

-- The slot has a record, and it ends on the page.
abbrev pub InPage : ℕ → Slot → Type 0
InPage page_size slot = (0 < slot.0) × (0 < slot.1) × (slot.0 + slot.1 ≤ page_size)

pub unpack_slot-Returns :
    (page : Bytes) (at : ℕ) → at + 4 ≤ length page → Returns Any (unpack_slot page at)
unpack_slot-Returns page at h =
    Returns-bind Any Any (unpack 2 page at) _ (unpack-Returns 2 page at (omega arith)) λ offset _.
      Returns-bind Any Any (unpack 2 page (at + 2)) _ (unpack-Returns 2 page (at + 2) (omega arith))
        λ size _. tt

-- Slots of which each has a record on the page, as many at most.
abbrev pub SlotsIn : ℕ → ℕ → List Slot → Type 0
SlotsIn page_size count found = All (InPage page_size) found × (length found ≤ count)

keep_slot :
    (page_size count : ℕ) (slot : Slot) (rest : List Slot)
    → SlotsIn page_size count rest
    → SlotsIn page_size (suc count) (if is_empty_slot page_size slot then rest else slot ∷ rest)
keep_slot page_size count (offset, size) rest h = ground arith

slots_from-InPage :
    (page_size : ℕ) (page : Bytes) (rounds index : ℕ)
    → page_size ≤ length page
    → Returns (SlotsIn page_size rounds) (slots_from page_size page rounds index)
unfolding slots_from
slots_from-InPage page_size page zero index h = (tt, omega arith)
slots_from-InPage page_size page (suc rounds) index h =
    let at = data_header + index * 4 in
    elim (Bool-cases (ltb page_size (at + 4))) [
      | inl e ↦ rw (slots_from, e) (tt, omega arith)
      | inr e ↦
          rw (slots_from, e)
            (Returns-bind Any _ (unpack_slot page at) _ (unpack_slot-Returns page at (ground arith))
              λ slot _.
                Returns-bind (SlotsIn page_size rounds) _
                  (slots_from page_size page rounds (index + 1)) _
                  (slots_from-InPage page_size page rounds (index + 1) h)
                  λ rest k. keep_slot page_size rounds slot rest k)
    ]

-- _slots raises nothing on a whole page; each slot that it yields has a record that ends on the
-- page, and it yields at most as many as it is told to read.
pub slots-InPage :
    (db : Database) (page : Bytes) (count : ℕ)
    → db.page_size ≤ length page
    → Returns (SlotsIn db.page_size count) (slots db page count)
unfolding slots
slots-InPage db page count h = slots_from-InPage db.page_size page count 0 h

count_slots-le :
    (page_size : ℕ) (page : Bytes) (found : List Slot)
    → page_size ≤ length page
    → Returns (λ live. live ≤ length found) (count_slots page_size page found)
unfolding count_slots
count_slots-le page_size page [] h = omega arith
count_slots-le page_size page ((offset, size) ∷ rest) h =
    Returns-bind (λ live. live ≤ 1) _ _ _
      (Returns-if (λ live. live ≤ 1) (ltb size record_header || ltb page_size (offset + 12)) _ _
        (λ _. omega arith)
        λ e.
          Returns-bind Any _ (unpack 2 page (offset + 10)) _
            (unpack-Returns 2 page (offset + 10) (ground arith)) λ flags _. ground arith)
      λ live k.
        Returns-bind (λ more. more ≤ length rest) _ _ _ (count_slots-le page_size page rest h)
          λ more l. omega arith

-- _count_live raises nothing on a whole page, and counts at most as many rows as it is told to read.
pub count_live-le :
    (db : Database) (page : Bytes) (count : ℕ)
    → db.page_size ≤ length page
    → Returns (λ live. live ≤ count) (count_live db page count)
unfolding count_live
count_live-le db page count h =
    Returns-bind (SlotsIn db.page_size count) _ _ _ (slots-InPage db page count h) λ found k.
      weakened-Returns (λ live. live ≤ length found) _ _ (count_slots-le db.page_size page found h)
        λ live l. omega arith

pub raw_slots-Returns :
    (page : Bytes) (rounds index : ℕ)
    → data_header + (index + rounds) * 4 ≤ length page
    → Returns Any (raw_slots page rounds index)
unfolding raw_slots
raw_slots-Returns page zero index h = tt
raw_slots-Returns page (suc rounds) index h =
    let at = data_header + index * 4 in
    Returns-bind Any Any (unpack_slot page at) _ (unpack_slot-Returns page at (omega arith))
      λ slot _.
        Returns-bind Any Any (raw_slots page rounds (index + 1)) _
          (raw_slots-Returns page rounds (index + 1) (omega arith)) λ rest _. tt
