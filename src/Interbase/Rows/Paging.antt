-- ===== src/Interbase/Rows/Paging.antt =====
-- The pages of rows that `rows` returns, against the list of all rows of the table.
use faethon_system.Base.{
  ℕ, zero, suc, ◌+◌, ◌-◌, ◌≤◌, ◌<◌, ◌≡◌, refl, sym, subst, ◌∙◌, ap, Bool, true, false, List, [],
  ◌∷◌, ◌++◌, ++-nil, ++-assoc, Option, none, some, length, take, drop, filter, if◌then◌else◌, ltb,
  leb, ◌==◌, arith, Bool-cases, inl, inr, Text,
}
use faethon_system.Base.{Result, ok, ◌>>=◌, >>=-eq-ok, ok-injective}
use faethon_system.Interbase.Bytes.{Bytes, unpack, byte_at}
use faethon_system.Interbase.Tables.{Database, Table, page_data}
use faethon_system.Interbase.Pages.{Slot, page_of, live_record, records_of, live_records}
use faethon_system.Interbase.Rows.{
  Python, Row, scan_limit, Progress, going, returned, matches, add_row, shown_row, rows_of_slots,
  answer,
}

length-append_rows : (xs ys : List Row) → length (xs ++ ys) ≡ length xs + length ys
length-append_rows [] ys = omega arith
length-append_rows (x ∷ xs) ys = omega (arith, length-append_rows xs ys)

take_all : (n : ℕ) (xs : List Row) → length xs ≤ n → take n xs ≡ xs
take_all zero [] h = refl
take_all zero (x ∷ xs) h = absurd (omega arith)
take_all (suc n) [] h = refl
take_all (suc n) (x ∷ xs) h = rw (take_all n xs (omega arith))

take-append_le : (n : ℕ) (xs ys : List Row) → n ≤ length xs → take n (xs ++ ys) ≡ take n xs
take-append_le zero xs ys h = refl
take-append_le (suc n) [] ys h = absurd (omega arith)
take-append_le (suc n) (x ∷ xs) ys h = rw (take-append_le n xs ys (omega arith))

length-take_bound : (n : ℕ) (xs : List Row) → length (take n xs) ≤ n
length-take_bound zero xs = omega arith
length-take_bound (suc n) [] = omega arith
length-take_bound (suc n) (x ∷ xs) = omega (arith, length-take_bound n xs)

drop_nil : (n : ℕ) → drop {A = Row} n [] ≡ []
drop_nil zero = refl
drop_nil (suc n) = refl

module _ (python : Python) where
  -- The rows of some records, in their order.
  abbrev pub show_all : Database → Table → List Bytes → Result (List Row)
  show_all db table [] = ok []
  show_all db table (bytes ∷ rest) = do
    row ← shown_row python db table bytes
    more ← show_all db table rest
    ok (row ∷ more)

  -- The rows of a data page.
  abbrev pub data_rows : Database → Table → Bytes → Result (List Row)
  data_rows db table page = do
    count ← unpack 2 page 22
    records ← live_records db page count
    show_all db table records

  -- The rows of a page of this kind.
  abbrev pub kind_rows : Database → Table → Bytes → ℕ → Result (List Row)
  kind_rows db table page kind = if kind == page_data then data_rows db table page else ok []

  -- All rows that stand on some pages of a table, in their order.
  abbrev pub all_rows : Database → Table → List (ℕ × ℕ) → Result (List Row)
  all_rows db table [] = ok []
  all_rows db table ((sequence, number) ∷ rest) = do
    kind ← byte_at (page_of db number) 0
    own ← kind_rows db table (page_of db number) kind
    more ← all_rows db table rest
    ok (own ++ more)

  -- The page of rows with this offset and limit, and whether there are more.
  abbrev pub page_of_rows : ℕ → ℕ → Text → List Row → List Row × Bool
  page_of_rows offset limit query shown =
      let hits = drop offset (filter (matches python query) shown) in
      (take limit hits, ltb limit (length hits))

  abbrev pub add_rows : ℕ → ℕ → Text → Progress → List Row → Progress
  add_rows offset limit query state [] = state
  add_rows offset limit query state (row ∷ shown) =
      add_rows offset limit query (add_row python offset limit query state row) shown

  module _ (offset limit : ℕ) (query : Text) where
    pub add_rows-returned :
        (found : List Row) (more : Bool) (shown : List Row)
        → add_rows offset limit query (returned found more) shown ≡ returned found more
    unfolding add_row
    add_rows-returned found more [] = refl
    add_rows-returned found more (row ∷ shown) = add_rows-returned found more shown

    pub add_rows-append :
        (state : Progress) (xs ys : List Row)
        → add_rows offset limit query state (xs ++ ys)
          ≡ add_rows offset limit query (add_rows offset limit query state xs) ys
    add_rows-append state [] ys = refl
    add_rows-append state (x ∷ xs) ys =
        add_rows-append (add_row python offset limit query state x) xs ys

    add_row-le :
        (state : Progress) (row : Row)
        → length (answer state).0 ≤ limit
        → length (answer (add_row python offset limit query state row)).0 ≤ limit
    unfolding add_row
    add_row-le (returned found more) row h = h
    add_row-le (going skipped scanned found) row h =
        ground (arith, length-take_bound limit (found ++ row ∷ []))

    pub add_rows-le :
        (shown : List Row) (state : Progress)
        → length (answer state).0 ≤ limit
        → length (answer (add_rows offset limit query state shown)).0 ≤ limit
    add_rows-le [] state h = h
    add_rows-le (row ∷ shown) state h =
        add_rows-le shown (add_row python offset limit query state row) (add_row-le state row h)

    -- The rows found so far, and the hits among those to come that are not skipped.
    abbrev still : ℕ → List Row → List Row → List Row
    still skipped found shown =
        found ++ drop (offset - skipped) (filter (matches python query) shown)

    pub answer-add_rows :
        (skipped scanned : ℕ) (found shown : List Row)
        → length found ≤ limit
        → scanned + length shown < scan_limit
        → answer (add_rows offset limit query (going skipped scanned found) shown)
          ≡ (take limit (still skipped found shown), ltb limit (length (still skipped found shown)))
    unfolding add_row
    answer-add_rows skipped scanned found [] h k =
        let none_left : still skipped found [] ≡ found =
          rw (drop_nil (offset - skipped), ++-nil found) in
        let no_more : ltb limit (length found) ≡ false = ground arith in
        rw (none_left, take_all limit found h, no_more)
    answer-add_rows skipped scanned found (row ∷ shown) h k =
        let within : leb scan_limit (scanned + 1) ≡ false = ground arith in
        elim (Bool-cases (matches python query row)) [
          | inr e ↦
              rw (add_row, e, within)
                (answer-add_rows skipped (scanned + 1) found shown h (omega arith))
          | inl e ↦ elim (Bool-cases (ltb skipped offset)) [
            | inl s ↦
                let next : offset - skipped ≡ suc (offset - (skipped + 1)) = ground arith in
                rw (add_row, e, s, next)
                  (answer-add_rows (skipped + 1) (scanned + 1) found shown h (omega arith))
            | inr s ↦
                let over : offset - skipped ≡ 0 = ground arith in
                let found' = found ++ row ∷ [] in
                let hits = filter (matches python query) shown in
                let longer = length-append_rows found (row ∷ []) in
                elim (Bool-cases (ltb limit (length found'))) [
                  | inl l ↦
                      let enough : limit ≤ length found' = ground arith in
                      let longer_still = length-append_rows found' hits in
                      let more_left : ltb limit (length (found' ++ hits)) ≡ true = ground arith in
                      rw (
                        add_row,
                        e,
                        s,
                        over,
                        sym (++-assoc found (row ∷ []) hits),
                        l,
                        add_rows-returned (take limit found') true shown,
                        take-append_le limit found' hits enough,
                        more_left,
                      )
                  | inr l ↦
                      rw (add_row, e, s, over, sym (++-assoc found (row ∷ []) hits), l, within)
                        (rw over at (
                          answer-add_rows skipped (scanned + 1) found' shown (ground arith)
                            (omega arith)))
                ]
          ]
        ]

    module _ (db : Database) (table : Table) where
      abbrev pub after_rows : Progress → List Row → Result Progress
      after_rows state shown = ok (add_rows offset limit query state shown)

      pub slots-add_rows :
          (page : Bytes) (found : List Slot) (state : Progress) (records : List Bytes)
          (shown : List Row)
          → records_of db page found ≡ ok records
          → show_all db table records ≡ ok shown
          → rows_of_slots python db table offset limit query page found state
            ≡ after_rows state shown
      unfolding records_of rows_of_slots
      slots-add_rows page [] state records shown h k =
          ap (after_rows state)
            (ok-injective (subst (λ r. show_all db table r ≡ ok shown) (sym (ok-injective h)) k))
      slots-add_rows page (slot ∷ rest) (returned found more) records shown h k =
          rw (add_rows-returned found more shown)
      slots-add_rows page (slot ∷ rest) (going skipped scanned found) records shown h k =
          let (first, e, h') = >>=-eq-ok (live_record db page slot) _ h in
          let (more, e', h'') = >>=-eq-ok (records_of db page rest) _ h' in
          by_record (slots-add_rows page rest) first more e e'
            (subst (λ r. show_all db table r ≡ ok shown) (sym (ok-injective h'')) k)
        where
          state : Progress
          state = going skipped scanned found

          by_record :
              ((next : Progress) (more : List Bytes) (later : List Row)
                → records_of db page rest ≡ ok more
                → show_all db table more ≡ ok later
                → rows_of_slots python db table offset limit query page rest next
                  ≡ after_rows next later)
              → (first : Option Bytes) (more : List Bytes) → live_record db page slot ≡ ok first
              → records_of db page rest ≡ ok more
              → show_all db table (elim first [ none ↦ more | some bytes ↦ bytes ∷ more ])
                ≡ ok shown
              → rows_of_slots python db table offset limit query page (slot ∷ rest) state
                ≡ after_rows state shown
          by_record the_rest none more e e' k' = rw e (the_rest state more shown e' k')
          by_record the_rest (some bytes) more e e' k' =
              let (row, f, k'') = >>=-eq-ok (shown_row python db table bytes) _ k' in
              let (later, g, same) = >>=-eq-ok (show_all db table more) _ k'' in
              rw (e, f)
                (the_rest (add_row python offset limit query state row) more later e' g
                  ∙ ap (after_rows state) (ok-injective same))
