-- ===== src/Interbase/Rows/Reading.antt =====
-- What `rows` reads of the pages of a table.
use faethon_system.Base.{
  ℕ, ◌-◌, ◌≤◌, ◌<◌, ◌≡◌, sym, ◌∙◌, ap, Bool, List, [], ◌∷◌, All, length, ◌==◌, arith, Bool-cases,
  inl, inr, Text, strip,
}
use faethon_system.Base.{ok, >>=-eq-ok, ok-injective}
use faethon_system.Base.Returns.{Returns, Any, Returns-bind, Returns-if, Returns-value}
use faethon_system.Interbase.Bytes.{Bytes, unpack, byte_at, unpack-Returns, byte_at-Returns}
use faethon_system.Interbase.Tables.{
  Database, Table, Field, Cell, page_data, null, string, integer, decimal, real, double, moment,
  time_of_day, blob_pointer,
}
use faethon_system.Interbase.Pages.{page_of, slots, live_records}
use faethon_system.Interbase.Pages.Slots.{IsWhole, length-page_of}
use faethon_system.Interbase.Pages.Records.{CountsFit, RecordsIn, live_records-RecordsIn}
use faethon_system.Interbase.Blobs.Reads.{read_blob-Returns}
use faethon_system.Interbase.Values.Fields.{decode-length}
use faethon_system.Interbase.Rows.{
  Python, Row, scan_limit, Progress, going, returned, present_cell, present_from, present,
  shown_row, rows_of_page, rows_of_pages, rows,
}
use faethon_system.Interbase.Rows.Paging.{
  show_all, kind_rows, all_rows, page_of_rows, add_rows, add_rows-returned, add_rows-append,
  answer-add_rows, add_rows-le, slots-add_rows,
}

module _ (python : Python) (db : Database) (table : Table) where
  module _ (offset limit : ℕ) (query : Text) where
    page_step :
        (page : Bytes) (state : Progress) (own : List Row) (kind : ℕ)
        → byte_at page 0 ≡ ok kind
        → kind_rows python db table page kind ≡ ok own
        → rows_of_page python db table offset limit query page state
          ≡ ok (add_rows python offset limit query state own)
    unfolding rows_of_page live_records
    page_step page state own kind e h = elim (Bool-cases (kind == page_data)) [
      | inr c ↦ rw e (
          rw c
            (ap (λ l. ok (add_rows python offset limit query state l)) (ok-injective (rw c at h))))
      | inl c ↦
          let (count, d, h') = >>=-eq-ok (unpack 2 page 22) _ (rw c at h) in
          let (records, f, shown) = >>=-eq-ok (live_records db page count) _ h' in
          let (found, g, read) = >>=-eq-ok (slots db page count) _ f in
          rw e (
            rw c (
              rw (d, g)
                (slots-add_rows python offset limit query db table page found state records own read
                  shown)))
    ]

    pages-add_rows :
        (pages : List (ℕ × ℕ)) (state : Progress) (shown : List Row)
        → all_rows python db table pages ≡ ok shown
        → rows_of_pages python db table offset limit query pages state
          ≡ ok (add_rows python offset limit query state shown)
    unfolding rows_of_pages
    pages-add_rows [] state shown h =
        ap (λ l. ok (add_rows python offset limit query state l)) (ok-injective h)
    pages-add_rows (place ∷ rest) (returned found more) shown h =
        rw (add_rows-returned python offset limit query found more shown)
    pages-add_rows ((sequence, number) ∷ rest) (going skipped scanned found) shown h =
        let state = going skipped scanned found in
        let (kind, e, h') = >>=-eq-ok (byte_at (page_of db number) 0) _ h in
        let (own, e', h'') = >>=-eq-ok (kind_rows python db table (page_of db number) kind) _ h' in
        let (later, f, same) = >>=-eq-ok (all_rows python db table rest) _ h'' in
        rw (page_step (page_of db number) state own kind e e') (
          pages-add_rows rest (add_rows python offset limit query state own) later f
          ∙ ap ok (
              sym (add_rows-append python offset limit query state own later)
              ∙ ap (add_rows python offset limit query state) (ok-injective same)))

  present_cell-Returns :
      (column : Field) (value : Cell)
      → IsWhole db
      → Returns Any (present_cell python db table column value)
  unfolding present_cell
  present_cell-Returns column (blob_pointer row_id subtype) w =
      Returns-bind Any Any _ _ (read_blob-Returns db table.relation_id row_id w) λ blob _. tt
  present_cell-Returns column null w = tt
  present_cell-Returns column (string s) w = tt
  present_cell-Returns column (integer v) w = tt
  present_cell-Returns column (decimal m s) w = tt
  present_cell-Returns column (real bits) w = tt
  present_cell-Returns column (double bits) w = tt
  present_cell-Returns column (moment t) w = tt
  present_cell-Returns column (time_of_day t) w = tt

  present_from-Returns :
      (columns : List Field) (values : List Cell)
      → IsWhole db
      → Returns Any (present_from python db table columns values)
  unfolding present_from
  present_from-Returns [] values w = tt
  present_from-Returns (column ∷ columns) [] w = tt
  present_from-Returns (column ∷ columns) (value ∷ values) w =
      Returns-bind Any Any _ _ (present_cell-Returns column value w)
        λ first _. Returns-bind Any Any _ _ (present_from-Returns columns values w) λ rest _. tt

  show_all-Returns :
      (records : List Bytes) → IsWhole db → Returns Any (show_all python db table records)
  unfolding shown_row present
  show_all-Returns [] w = tt
  show_all-Returns (bytes ∷ rest) w =
      Returns-bind Any Any _ _
        (Returns-bind (λ values. length values ≡ length table.fields) Any _ _
          (decode-length bytes table.fields) λ values _. present_from-Returns table.fields values w)
        λ row _. Returns-bind Any Any _ _ (show_all-Returns rest w) λ more _. tt

  all_rows-Returns :
      (pages : List (ℕ × ℕ))
      → IsWhole db
      → CountsFit db
      → All (λ place. place.1 < db.page_count) pages
      → Returns Any (all_rows python db table pages)
  all_rows-Returns [] w c h = tt
  all_rows-Returns ((sequence, number) ∷ rest) w c h =
      let page = page_of db number in
      let size = length-page_of db number w h.0 in
      Returns-bind Any Any _ _ (byte_at-Returns page 0 (omega (arith, w.has_header))) λ kind _.
        Returns-bind Any Any _ _
          (Returns-if Any (kind == page_data) _ _
            (λ _.
              Returns-bind Any Any _ _ (unpack-Returns 2 page 22 (omega (arith, w.has_header)))
                λ count _.
                  Returns-bind (RecordsIn db count) Any _ _
                    (live_records-RecordsIn db page count w c (omega arith))
                    λ records _. show_all-Returns records w)
            (λ _. tt))
          λ own _. Returns-bind Any Any _ _ (all_rows-Returns rest w c h.1) λ more _. tt

-- If all rows of the table can be shown and are fewer than the scan limit, rows returns what stands
-- at the offset among those that match the query, as many as the limit allows, and tells whether
-- there are more.
pub rows-eq-page_of_rows :
    (python : Python) (db : Database) (table : Table) (offset limit : ℕ) (query : Text)
    (shown : List Row)
    → all_rows python db table table.pages ≡ ok shown
    → length shown < scan_limit
    → rows python db table offset limit query
      ≡ ok (page_of_rows python offset limit (python.casefold (strip query)) shown)
unfolding rows
rows-eq-page_of_rows python db table offset limit query shown e few =
    let needle = python.casefold (strip query) in
    let minus : offset - 0 ≡ offset = omega arith in
    rw (pages-add_rows python db table offset limit needle table.pages (going 0 0 []) shown e) (
      ap ok (
        rw minus at
          (answer-add_rows python offset limit needle 0 0 [] shown (omega arith) (omega arith))))

-- Where the slots of every page fit on it and the pages of the table lie in the file, rows raises
-- nothing and returns at most as many rows as the limit says.
pub rows-le-limit :
    (python : Python) (db : Database) (table : Table) (offset limit : ℕ) (query : Text)
    → IsWhole db
    → CountsFit db
    → All (λ place. place.1 < db.page_count) table.pages
    → Returns
        (λ (r : List Row × Bool). length r.0 ≤ limit)
        (rows python db table offset limit query)
unfolding rows
rows-le-limit python db table offset limit query w c h =
    let (shown, e, _) =
      Returns-value Any (all_rows python db table table.pages)
        (all_rows-Returns python db table table.pages w c h) in
    let needle = python.casefold (strip query) in
    rw (pages-add_rows python db table offset limit needle table.pages (going 0 0 []) shown e)
      (add_rows-le python offset limit needle shown (going 0 0 []) (omega arith))
