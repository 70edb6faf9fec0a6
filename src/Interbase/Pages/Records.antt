-- ===== src/Interbase/Pages/Records.antt =====
-- The records of a page: where `_live_records` and `_fragment` read, and how much they return.
use faethon_system.Base.{
  ℕ, suc, ◌+◌, ◌*◌, ◌≤◌, ◌<◌, ◌≡◌, ◌||◌, not, List, [], ◌∷◌, ◌++◌, Option, none, some, All, length,
  ltb, leb, ◌==◌, arith, Bool-cases, inl, inr,
}
use faethon_system.Base.{ok}
use faethon_system.Base.Returns.{
  Returns, Any, Returns-bind, Returns-if, own-Returns, weakened-Returns,
}
use faethon_system.Interbase.Bytes.{
  Bytes, slice, unpack, unpack-Returns, byte_at-Returns, length-slice, has, length-append,
}
use faethon_system.Interbase.Rle.{rle_decompress}
use faethon_system.Interbase.Rle.Decode.{length-rle_decompress}
use faethon_system.Interbase.Tables.{
  Database, data_header, record_header, fragment_header, rec_incomplete, skip_record, page_data,
}
use faethon_system.Interbase.Pages.{
  Slot, page_of, fragment_slot, fragment_record, fragment, yield_payload, live_record, records_of,
  live_records,
}
use faethon_system.Interbase.Pages.Slots.{
  IsWhole, length-page_of, InPage, SlotsIn, slots-InPage, unpack_slot-Returns, raw_slots-Returns,
}

-- The slots that a page counts are on the page.
abbrev pub CountsFit : Database → Type 0
CountsFit db =
    (number count : ℕ)
    → number < db.page_count
    → unpack 2 (page_of db number) 22 ≡ ok count
    → data_header + count * 4 ≤ db.page_size

abbrev pub AtMost : ℕ → Bytes → Type 0
AtMost n bytes = length bytes ≤ n

-- A record that `_live_records` yields: it is not empty, and not longer than two slots can make it.
abbrev pub IsPayload : Database → Bytes → Type 0
IsPayload db bytes = (0 < length bytes) × (length bytes ≤ 256 * db.page_size)

decompressed :
    (page_size : ℕ) (page : Bytes) (first last : ℕ)
    → first ≤ last
    → last ≤ page_size
    → page_size ≤ length page
    → AtMost (128 * page_size) (rle_decompress (slice page first last))
decompressed page_size page first last h k l = omega (
  arith,
  length-rle_decompress (slice page first last),
  length-slice page first last h (omega arith),
)

module _ (db : Database) (page : Bytes) (whole : db.page_size ≤ length page) where
  fragment_slot-Returns :
      (count line : ℕ)
      → data_header + count * 4 ≤ db.page_size
      → Returns Any (fragment_slot db page count line)
  unfolding fragment_slot
  fragment_slot-Returns count line h =
      Returns-bind (SlotsIn db.page_size count) Any _ _ (slots-InPage db page count whole) λ live k.
        elim (Bool-cases (leb (length live) line)) [
          | inl e ↦
              rw e (
                Returns-bind Any Any _ _ (raw_slots-Returns page count 0 (omega arith)) λ raw _. tt)
          | inr e ↦ rw e (
              Returns-if Any (ltb db.page_size (data_header + line * 4 + 4)) _ _ (λ _. tt)
                λ f.
                  Returns-bind Any Any _ _
                    (unpack_slot-Returns page (data_header + line * 4) (ground arith)) λ slot _. tt)
        ]

  fragment_record-AtMost :
      (slot : Option Slot) → Returns (AtMost (128 * db.page_size)) (fragment_record db page slot)
  unfolding fragment_record
  fragment_record-AtMost none = omega arith
  fragment_record-AtMost (some (offset, size)) =
      Returns-if _ (ltb size record_header || ltb db.page_size (offset + size)) _ _
        (λ _. omega arith)
        λ e. Returns-bind Any _ _ _ (unpack-Returns 2 page (offset + 10) (ground arith)) λ flags _.
          ground (
            arith,
            decompressed db.page_size page (offset + record_header) (offset + size) (ground arith)
                (ground arith) whole,
          )

-- _fragment raises nothing where the slots of every page fit on it.
pub fragment-AtMost :
    (db : Database) (page_number line depth : ℕ)
    → IsWhole db
    → CountsFit db
    → Returns (AtMost (128 * db.page_size)) (fragment db page_number line depth)
unfolding fragment
fragment-AtMost db page_number line depth w c =
    Returns-if _ (ltb 8 depth || page_number == 0 || leb db.page_count page_number) _ _
      (λ _. omega arith)
      λ e.
        let inside : page_number < db.page_count = ground arith in
        let page = page_of db page_number in
        let size = length-page_of db page_number w inside in
        Returns-bind Any _ _ _ (byte_at-Returns page 0 (omega (arith, w.has_header))) λ kind _.
          Returns-if _ (not (kind == page_data)) _ _ (λ _. omega arith)
            λ _.
              Returns-bind (λ count. unpack 2 page 22 ≡ ok count) _ _ _
                (own-Returns _ (unpack-Returns 2 page 22 (omega (arith, w.has_header))))
                λ count counted.
                  Returns-bind Any _ _ _
                    (fragment_slot-Returns db page (omega arith) count line
                      (c page_number count inside counted))
                    λ slot _. fragment_record-AtMost db page (omega arith) slot

-- Nothing, or a record.
abbrev pub MaybePayload : Database → Option Bytes → Type 0
MaybePayload db none = Unit
MaybePayload db (some bytes) = IsPayload db bytes

MaybePayload-yield :
    (db : Database) (bytes : Bytes)
    → AtMost (256 * db.page_size) bytes
    → MaybePayload db (yield_payload bytes)
MaybePayload-yield db [] h = tt
MaybePayload-yield db (b ∷ bytes) h = (omega arith, h)

-- The records of a page, at most as many as the page has slots.
abbrev pub RecordsIn : Database → ℕ → List Bytes → Type 0
RecordsIn db count records = All (IsPayload db) records × (length records ≤ count)

module _ (db : Database) (page : Bytes) (w : IsWhole db) (c : CountsFit db)
    (whole : db.page_size ≤ length page) where
  pub live_record-IsPayload :
      (slot : Slot)
      → InPage db.page_size slot
      → Returns (MaybePayload db) (live_record db page slot)
  unfolding live_record
  live_record-IsPayload (offset, size) h =
      Returns-if _ (ltb size record_header) _ _ (λ _. tt)
        λ e. Returns-bind Any _ _ _ (unpack-Returns 2 page (offset + 10) (ground arith)) λ flags _.
          Returns-if _ (has flags rec_incomplete) _ _
            (λ _.
              Returns-if _ (ltb size fragment_header) _ _ (λ _. tt)
                λ f.
                  Returns-bind Any _ _ _ (unpack-Returns 4 page (offset + 16) (ground arith))
                    λ frag_page _.
                      Returns-bind Any _ _ _ (unpack-Returns 2 page (offset + 20) (ground arith))
                        λ frag_line _.
                          Returns-bind (AtMost (128 * db.page_size)) _ _ _
                            (fragment-AtMost db frag_page frag_line 0 w c)
                            λ more l.
                              let own =
                                rle_decompress
                                  (slice page (offset + fragment_header) (offset + size)) in
                              MaybePayload-yield db (own ++ more) (
                                omega (
                                  arith,
                                  length-append own more,
                                  decompressed db.page_size page (offset + fragment_header)
                                      (offset + size) (ground arith) h.2 whole,
                                )))
            λ _.
              Returns-if _ (has flags skip_record || not (flags == 0)) _ _ (λ _. tt)
                λ _. MaybePayload-yield db _ (
                  omega (
                    arith,
                    decompressed db.page_size page (offset + record_header) (offset + size)
                        (ground arith) h.2 whole,
                  ))

  records_of-RecordsIn :
      (found : List Slot)
      → All (InPage db.page_size) found
      → Returns (RecordsIn db (length found)) (records_of db page found)
  unfolding records_of
  records_of-RecordsIn [] h = (tt, omega arith)
  records_of-RecordsIn (slot ∷ rest) h =
      Returns-bind (MaybePayload db) _ _ _ (live_record-IsPayload slot h.0) λ first p.
        Returns-bind (RecordsIn db (length rest)) _ _ _ (records_of-RecordsIn rest h.1)
          λ more q. with_first first more p q
    where
      with_first :
          (first : Option Bytes) (more : List Bytes)
          → MaybePayload db first
          → RecordsIn db (length rest) more
          → RecordsIn db
              (suc (length rest))
              (elim first [ none ↦ more | some bytes ↦ bytes ∷ more ])
      with_first none more p q = (q.0, omega arith)
      with_first (some bytes) more p q = ((p, q.0), omega arith)

-- _live_records raises nothing on a whole page, where the slots of every page fit on it; the
-- records that it yields are not empty and at most 256 times as long as a page, and it yields at
-- most as many as it is told to read.
pub live_records-RecordsIn :
    (db : Database) (page : Bytes) (count : ℕ)
    → IsWhole db
    → CountsFit db
    → db.page_size ≤ length page
    → Returns (RecordsIn db count) (live_records db page count)
unfolding live_records
live_records-RecordsIn db page count w c whole =
    Returns-bind (SlotsIn db.page_size count) _ _ _ (slots-InPage db page count whole) λ found k.
      weakened-Returns (RecordsIn db (length found)) _ _
        (records_of-RecordsIn db page w c whole found k.0) λ records l. (l.0, omega arith)
