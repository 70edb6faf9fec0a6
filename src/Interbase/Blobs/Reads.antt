-- ===== src/Interbase/Blobs/Reads.antt =====
-- Where `read_blob` reads.
use faethon_system.Base.{
  ℕ, zero, suc, ◌+◌, ◌-◌, ◌*◌, ◌≤◌, ◌<◌, ◌≡◌, ◌||◌, not, List, [], ◌∷◌, some, All, length, ltb, leb,
  ◌==◌, arith, Bool-cases, inl, inr, Option-cases,
}
use faethon_system.Base.{Result, ◌>>=◌}
use faethon_system.Base.Returns.{Returns, Any, Returns-bind, Returns-if, Returns-branch}
use faethon_system.Interbase.Bytes.{Bytes, unpack, has, unpack-Returns, byte_at-Returns}
use faethon_system.Interbase.Tables.{Database, data_header, blob_header, rec_blob}
use faethon_system.Interbase.Pages.{Slot, page_of}
use faethon_system.Interbase.Pages.Slots.{IsWhole, length-page_of, unpack_slot-Returns}
use faethon_system.Interbase.Blobs.{
  gather, read_blob_pages, BlobHeader, unpack_blob_header, page_at, blob_in_slot, divmod, read_blob,
}

gather-Returns :
    (read : ℕ → Result Bytes) (numbers : List ℕ)
    → ((number : ℕ) → Returns Any (read number))
    → Returns Any (gather read numbers)
unfolding gather
gather-Returns read [] h = tt
gather-Returns read (number ∷ numbers) h =
    Returns-bind Any Any _ _ (Returns-if Any (number == 0) _ _ (λ _. tt) (λ _. h number))
      λ chunk _. Returns-bind Any Any _ _ (gather-Returns read numbers h) λ rest _. tt

read_blob_pages-Returns :
    (db : Database) (calls lead level : ℕ)
    → IsWhole db
    → Returns Any (read_blob_pages db calls lead level)
unfolding read_blob_pages
read_blob_pages-Returns db zero lead level w = tt
read_blob_pages-Returns db (suc calls) lead level w =
    elim (Bool-cases (lead == 0 || leb db.page_count lead)) [
      | inl e ↦ rw (read_blob_pages, e) tt
      | inr e ↦
          let page = page_of db lead in
          let size = length-page_of db lead w (ground arith) in
          rw (read_blob_pages, e)
            (Returns-bind Any Any _ _ (byte_at-Returns page 0 (omega (arith, w.has_header)))
              λ kind _.
                Returns-branch Any (kind == 8) _ _
                  (λ _.
                    Returns-bind Any Any _ _
                      (unpack-Returns 2 page 24 (omega (arith, w.has_header)))
                      λ length_bytes _.
                        Returns-bind Any Any _ _
                          (byte_at-Returns page 1 (omega (arith, w.has_header)))
                          λ flags _.
                            Returns-branch Any (has flags 1 || ltb 0 level) _ _
                              (λ _.
                                gather-Returns _ _
                                  λ number. read_blob_pages-Returns db calls number (level - 1) w)
                              λ _. tt)
                  λ _. tt)
    ]

unpack_blob_header-Returns :
    (page : Bytes) (offset : ℕ)
    → offset + blob_header ≤ length page
    → Returns Any (unpack_blob_header page offset)
unfolding unpack_blob_header
unpack_blob_header-Returns page offset h = read 4 offset _ (omega arith) λ lead.
    read 4 (offset + 4) _ (omega arith) λ max_seq. read 2 (offset + 8) _ (omega arith) λ max_seg.
      read 2 (offset + 10) _ (omega arith) λ flags. read 1 (offset + 12) _ (omega arith) λ level.
        read 4 (offset + 13) _ (omega arith) λ count.
          read 4 (offset + 17) _ (omega arith) λ blob_len.
            read 2 (offset + 21) _ (omega arith) λ subtype.
              read 1 (offset + 23) _ (omega arith)
                λ charset. read 1 (offset + 24) _ (omega arith) λ unused. tt
  where
    read :
        (width at : ℕ) (next : ℕ → Result BlobHeader)
        → at + width ≤ length page
        → ((value : ℕ) → Returns Any (next value))
        → Returns Any (unpack width page at >>= next)
    read width at next k q =
        Returns-bind Any Any _ _ (unpack-Returns width page at k) λ value _. q value

blob_in_slot-Returns :
    (db : Database) (page : Bytes) (slot : Slot)
    → IsWhole db
    → db.page_size ≤ length page
    → Returns Any (blob_in_slot db page slot)
unfolding blob_in_slot
blob_in_slot-Returns db page (offset, size) w whole =
    Returns-if Any (ltb size blob_header || ltb db.page_size (offset + size)) _ _ (λ _. tt)
      λ e.
        Returns-bind Any Any _ _ (unpack_blob_header-Returns page offset (ground arith)) λ header _.
          Returns-if Any (not (has header.flags rec_blob)) _ _ (λ _. tt)
            λ _.
              Returns-bind Any Any _ _
                (Returns-if Any (header.lead == 0) _ _ (λ _. tt)
                  (λ _. read_blob_pages-Returns db 7 header.lead header.level w))
                λ chunks _. tt

-- A page that the index gives lies in the file.
page_at-lt :
    (index : List ((ℕ × ℕ) × ℕ)) (relation_id sequence bound number : ℕ)
    → All (λ entry. entry.1 < bound) index
    → page_at index relation_id sequence ≡ some number
    → number < bound
page_at-lt [] relation_id sequence bound number h e = absurd (cc e)
page_at-lt (((relation, seq), first) ∷ index) relation_id sequence bound number h e =
    ground (arith, page_at-lt index relation_id sequence bound number h.1)

divmod-Returns : (n d : ℕ) → 0 < d → Returns Any (divmod n d)
divmod-Returns n zero h = absurd (omega arith)
divmod-Returns n (suc d) h = tt

-- read_blob raises nothing and ends, whatever the blob pages of the file point at.
pub read_blob-Returns :
    (db : Database) (relation_id row_id : ℕ)
    → IsWhole db
    → Returns Any (read_blob db relation_id row_id)
unfolding read_blob
read_blob-Returns db relation_id row_id w =
    Returns-bind Any Any _ _ (divmod-Returns row_id db.max_records w.has_records) λ place _.
      elim (Option-cases (page_at db.page_index relation_id place.0)) [
        | inl e ↦ rw e tt
        | inr (number, e) ↦
            let inside =
              page_at-lt db.page_index relation_id place.0 db.page_count number w.index_fits e in
            let page = page_of db number in
            let size = length-page_of db number w inside in
            rw e (
              Returns-bind Any Any _ _ (unpack-Returns 2 page 22 (omega (arith, w.has_header)))
                λ count _.
                  Returns-if Any (ltb db.page_size (data_header + place.1 * 4 + 4)) _ _ (λ _. tt)
                    λ f.
                      Returns-bind Any Any _ _
                        (unpack_slot-Returns page (data_header + place.1 * 4) (ground arith))
                        λ slot _. blob_in_slot-Returns db page slot w (omega arith))
      ]
