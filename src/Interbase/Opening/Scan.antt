-- ===== src/Interbase/Opening/Scan.antt =====
-- What `_scan_pages` keeps of the open file.
use faethon_system.Base.{
  ℕ, zero, suc, ◌+◌, ◌-◌, ◌≤◌, ◌<◌, ◌≡◌, refl, ◌∙◌, Bool, true, false, ◌||◌, not, List, [], ◌∷◌,
  ◌++◌, All, All-append, Option, none, some, ◌⊎◌, inl, inr, length, if◌then◌else◌, ltb, leb, ◌==◌,
  arith, overwrite, All_find,
}
use faethon_system.Base.Returns.{Returns, Any, Returns-bind, Returns-if, weakened-Returns}
use faethon_system.Interbase.Bytes.{Bytes, has, unpack-Returns, byte_at-Returns}
use faethon_system.Interbase.Tables.{Database, Table, Cell, Field, page_data}
use faethon_system.Interbase.Pages.{page_of}
use faethon_system.Interbase.Pages.Slots.{IsWhole, length-page_of, count_live-le}
use faethon_system.Interbase.Pages.Records.{CountsFit, RecordsIn, live_records-RecordsIn}
use faethon_system.Interbase.Values.Fields.{decode-length}
use faethon_system.Interbase.Opening.{
  find_table, table_for, known_or_new, is_nil, decode_all, read_rows, add_page, scan_page,
  scan_from, scan_pages,
}

-- The pages of the table are below `bound`, and a table whose rows are read has as many as it counts.
abbrev pub TableFits : ℕ → Table → Type 0
TableFits bound table =
    All (λ page. page.1 < bound) table.pages
    × (((leb 40 table.relation_id || is_nil table.fields) ≡ true)
        ⊎ (table.row_count ≡ length table.rows))

-- The open file before, between and after the steps of the scan.
abbrev pub Scanned : Database → Type 0
Scanned db = IsWhole db × CountsFit db × All (TableFits db.page_count) db.tables

decode_all-Returns :
    (fields : List Field) (records : List Bytes) → Returns Any (decode_all fields records)
unfolding decode_all
decode_all-Returns fields [] = tt
decode_all-Returns fields (bytes ∷ rest) =
    Returns-bind (λ values. length values ≡ length fields) Any _ _ (decode-length bytes fields)
      λ row _. Returns-bind Any Any _ _ (decode_all-Returns fields rest) λ rows _. tt

length-append_rows : (xs ys : List (List Cell)) → length (xs ++ ys) ≡ length xs + length ys
length-append_rows [] ys = omega arith
length-append_rows (x ∷ xs) ys = omega (arith, length-append_rows xs ys)

more_rows :
    (table : Table) (rows : List (List Cell))
    → (leb 40 table.relation_id || is_nil table.fields) ≡ false
    → ((leb 40 table.relation_id || is_nil table.fields) ≡ true)
      ⊎ (table.row_count ≡ length table.rows)
    → ((leb 40 table.relation_id || is_nil table.fields) ≡ true)
      ⊎ (table.row_count + length rows ≡ length (table.rows ++ rows))
more_rows table rows e (inl f) = inl f
more_rows table rows e (inr f) = inr (omega (arith, f, length-append_rows table.rows rows))

read_rows-TableFits :
    (db : Database) (page : Bytes) (count : ℕ) (table : Table)
    → IsWhole db
    → CountsFit db
    → db.page_size ≤ length page
    → TableFits db.page_count table
    → Returns (TableFits db.page_count) (read_rows db page count table)
unfolding read_rows
read_rows-TableFits db page count table w c whole f =
    Returns-if _ (leb 40 table.relation_id || is_nil table.fields) _ _
      (λ e.
        Returns-bind (λ live. live ≤ count) _ _ _ (count_live-le db page count whole)
          λ live _. (f.0, inl e))
      λ e.
        Returns-bind (RecordsIn db count) _ _ _ (live_records-RecordsIn db page count w c whole)
          λ records _.
            Returns-bind Any _ _ _ (decode_all-Returns table.fields records)
              λ rows _. (f.0, more_rows table rows e f.1)

All-overwrite :
    (P : Table → Type 0) (table : Table) (tables : List Table)
    → P table
    → All P tables
    → All P (overwrite (λ t. t.relation_id) table tables)
All-overwrite P table [] p h = tt
All-overwrite P table (t ∷ tables) p h =
    (keep (t.relation_id == table.relation_id), All-overwrite P table tables p h.1)
  where
    keep : (same : Bool) → P (if same then table else t)
    keep true = p
    keep false = h.0

known_or_new-TableFits :
    (bound relation_id : ℕ) (tables : List Table) (found : Option Table)
    → find_table relation_id tables ≡ found
    → All (TableFits bound) tables
    → TableFits bound (known_or_new relation_id tables found).0
      × All (TableFits bound) (known_or_new relation_id tables found).1
known_or_new-TableFits bound relation_id tables none e h =
    ((tt, inr refl), All-append (TableFits bound) tables _ h ((tt, inr refl), tt))
known_or_new-TableFits bound relation_id tables (some table) e h =
    (All_find (TableFits bound) (λ t. t.relation_id == relation_id) tables table h e, h)

-- One step of the scan keeps the number of pages.
abbrev SameCount : Database → Database → Type 0
SameCount before after = Scanned after × (after.page_count ≡ before.page_count)

add_page-Scanned :
    (db : Database) (page : Bytes) (number relation_id count sequence : ℕ)
    → Scanned db
    → number < db.page_count
    → db.page_size ≤ length page
    → Returns (SameCount db) (add_page db page number relation_id count sequence)
unfolding add_page page_of
add_page-Scanned db page number relation_id count sequence (w, c, t) inside whole =
    let known = table_for relation_id db.tables in
    let fits = known_or_new-TableFits db.page_count relation_id db.tables _ refl t in
    let listed = record known.0 { pages = known.0.pages ++ (sequence, number) ∷ [] } in
    Returns-bind (TableFits db.page_count) (SameCount db) (read_rows db page count listed) _
      (read_rows-TableFits db page count listed w c whole
        (All-append _ known.0.pages _ fits.0.0 (inside, tt), fits.0.1))
      λ table f. (
        (
          record {
            in_file = w.in_file;
            has_header = w.has_header;
            has_records = w.has_records;
            index_fits = (inside, w.index_fits);
          },
          c,
          All-overwrite (TableFits db.page_count) table known.1 f fits.1,
        ),
        refl,
      )

scan_page-Scanned :
    (db : Database) (number : ℕ)
    → Scanned db
    → number < db.page_count
    → Returns (SameCount db) (scan_page db number)
unfolding scan_page
scan_page-Scanned db number s inside =
    let page = page_of db number in
    let size = length-page_of db number s.0 inside in
    let big : 28 ≤ length page = omega (arith, s.0.has_header) in
    Returns-bind Any (SameCount db) _ _ (byte_at-Returns page 0 (omega arith)) λ kind _.
      Returns-if (SameCount db) (not (kind == page_data)) _ _ (λ _. (s, refl))
        λ _. Returns-bind Any (SameCount db) _ _ (byte_at-Returns page 1 (omega arith)) λ flags _.
          Returns-if (SameCount db) (has flags 1) _ _ (λ _. (s, refl))
            λ _.
              Returns-bind Any (SameCount db) _ _ (unpack-Returns 2 page 20 (omega arith))
                λ relation_id _.
                  Returns-bind Any (SameCount db) _ _ (unpack-Returns 2 page 22 (omega arith))
                    λ count _.
                      Returns-bind Any (SameCount db) _ _ (unpack-Returns 4 page 16 (omega arith))
                        λ sequence _.
                          Returns-if (SameCount db) (ltb 2000 count) _ _ (λ _. (s, refl))
                            λ _.
                              add_page-Scanned db page number relation_id count sequence s inside
                                (omega arith)

scan_from-Scanned :
    (db : Database) (rounds number : ℕ)
    → Scanned db
    → rounds ≤ db.page_count - number
    → Returns (SameCount db) (scan_from db rounds number)
unfolding scan_from
scan_from-Scanned db zero number s h = (s, refl)
scan_from-Scanned db (suc rounds) number s h =
    Returns-bind (SameCount db) (SameCount db) _ _ (scan_page-Scanned db number s (omega arith))
      λ after k.
        weakened-Returns (SameCount after) (SameCount db) _
          (scan_from-Scanned after rounds (number + 1) k.0 (omega (arith, k.1)))
          λ last l. (l.0, l.1 ∙ k.1)

-- _scan_pages raises nothing where the slots of every page fit on it. Afterwards the pages of the
-- index and of every table lie in the file, and a table whose rows are read has as many as it
-- counts.
pub scan_pages-Scanned : (db : Database) → Scanned db → Returns Scanned (scan_pages db)
unfolding scan_pages
scan_pages-Scanned db s =
    weakened-Returns (SameCount db) Scanned _
      (scan_from-Scanned db (db.page_count - 1) 1 s (omega arith)) λ after k. k.0
