-- ===== src/Imports/Books.antt =====
-- The stock ledger after an import of opening stock.
use faethon_system.Base.{
  ℕ, ℤ, pos, ◌+ℤ◌, ◌-ℤ◌, ◌≤ℤ◌, int_laws, Bool, true, false, not, List, [], ◌∷◌, All, text, ok,
  ◌>>=◌, >>=-eq-ok, ok-injective, if◌then◌else◌, ◌⊎◌, length, ◌≡◌, refl, sym, ap, subst, ◌∙◌,
  Bool-cases, inl, inr,
}
use faethon_system.Models.{Db}
use faethon_system.Documents.Stock.{Key, get_balance, same_key}
use faethon_system.Documents.Stock.Balances.{
  on_hand, get_balance-Got, on_hand-set_quantity, set_quantity-IsNonNegative,
  get_balance-IsNonNegative,
}
use faethon_system.Documents.Stock.Keys.{same_key→eq}
use faethon_system.Documents.Posting.Ledger.{StockValid, ledger_total, ledger_total-append}
use faethon_system.Imports.Clean.{or_crash-eq-ok, Opens, clean_import}
use faethon_system.Imports.Quantities.{counted, apply_opening_stock-counted}
use faethon_system.Imports.{
  Row, value_of, ImportIssue, Table, parse_file, opening_stock, Python, Summary, summarize,
}
use faethon_system.Imports.Stock.{
  Catalog, product_of, warehouse_of, or_crash, open_balance, is_clean, import_errors,
  validate_import, apply_opening_row, apply_opening_stock, import_opening_stock,
}

balance_step :
    (same : Bool) (quantity old here ledger : ℤ)
    → (same ≡ true → old ≡ here)
    → here ≡ ledger
    → (if same then quantity else here)
      ≡ ledger +ℤ ((if same then quantity -ℤ old else pos 0) +ℤ pos 0)
balance_step true quantity old here ledger eq e = rw (eq refl ∙ e) (omega int_laws)
balance_step false quantity old here ledger eq e = e ∙ omega int_laws

-- The balance and the ledger of a key move together.
open_balance-StockValid :
    (p w : ℕ) (quantity : ℤ) (db : Db)
    → pos 0 ≤ℤ quantity
    → StockValid db
    → StockValid (open_balance p w quantity db)
open_balance-StockValid p w quantity db q v =
    let got = get_balance-Got (p, w) db.stock_balances in
    record {
      balanced = λ k.
          on_hand-set_quantity k (p, w) quantity (get_balance (p, w) db.stock_balances).1 got.row
          ∙ balance_step (same_key (p, w) k) quantity
              (get_balance (p, w) db.stock_balances).0.quantity
              (on_hand k (get_balance (p, w) db.stock_balances).1)
              (ledger_total k db.stock_movements)
              (λ e.
                got.quantity
                ∙ ap (λ j. on_hand j db.stock_balances) (same_key→eq (p, w) k e)
                ∙ sym (got.same k))
              (got.same k ∙ v.balanced k)
          ∙ sym (ledger_total-append k db.stock_movements _);
      nonnegative =
          set_quantity-IsNonNegative (p, w) quantity (get_balance (p, w) db.stock_balances).1 q
            (get_balance-IsNonNegative (p, w) db.stock_balances v.nonnegative);
    }

module _ (python : Python) (s : Catalog) where
  apply_opening_row-StockValid :
      (row : Row) (db db' : Db)
      → Opens python row
      → apply_opening_row python s row db ≡ ok db'
      → StockValid db
      → StockValid db'
  unfolding apply_opening_row Opens
  apply_opening_row-StockValid row db db' opens h v =
      let (product, e0, h0) = >>=-eq-ok (or_crash (product_of s row)) _ h in
      let (warehouse, e1, h1) = >>=-eq-ok (or_crash (warehouse_of s row)) _ h0 in
      let (quantity, e2, h2) =
        >>=-eq-ok (or_crash (python.decimal 3 (value_of (text "quantity") row))) _ h1 in
      subst StockValid (ok-injective h2) (
        open_balance-StockValid product.id warehouse.id quantity db
          (opens quantity (or_crash-eq-ok (python.decimal 3 (value_of (text "quantity") row)) e2))
          v)

  apply_opening_stock-StockValid :
      (rows : List Row) (db db' : Db)
      → All (Opens python) rows
      → apply_opening_stock python s rows db ≡ ok db'
      → StockValid db
      → StockValid db'
  unfolding apply_opening_stock
  apply_opening_stock-StockValid [] db db' opens h v = subst StockValid (ok-injective h) v
  apply_opening_stock-StockValid (row ∷ rows) db db' opens h v =
      let (next, e, h') =
        >>=-eq-ok (apply_opening_row python s row db)
          (λ (next : Db). apply_opening_stock python s rows next) h in
      apply_opening_stock-StockValid rows next db' opens.1 h'
        (apply_opening_row-StockValid row db next opens.0 e v)

module _ (python : Python) (s : Catalog) where
  is_clean→nil : (es : List ImportIssue) → is_clean es ≡ true → es ≡ []
  is_clean→nil [] h = refl
  is_clean→nil (e ∷ es) h = absurd (cc h)

  -- An error is found, and nothing is written.
  abbrev pub Unwritten : Summary × Db → Type 0
  Unwritten r = (r.0.applied ≡ false) × (is_clean r.0.errors ≡ false) × (r.1 ≡ s.db)

  -- No error is found, and every row is written: each key has the quantity of its last row.
  abbrev pub Written : List Row → Summary × Db → Type 0
  Written rows r =
      (r.0.applied ≡ true)
      × (r.0.errors ≡ [])
      × (r.0.created ≡ length rows)
      × ((k : Key)
          → on_hand k r.1.stock_balances ≡ counted python s k rows (on_hand k s.db.stock_balances))

  Outcome : List Row → Summary × Db → Type 0
  Outcome rows r = (Unwritten r ⊎ Written rows r) × StockValid r.1

  applied_import :
      (parsed : List Row × List ImportIssue) (r : Summary × Db)
      → (if not (is_clean (import_errors python s opening_stock parsed.0 parsed.1))
          then ok
              (summarize parsed.0 (import_errors python s opening_stock parsed.0 parsed.1) [], s.db)
          else apply_opening_stock python s parsed.0 s.db >>= (λ (db : Db). ok (
            record (summarize parsed.0
                (import_errors python s opening_stock parsed.0 parsed.1)
                []) { applied = true; created = length parsed.0 },
            db,
          )))
        ≡ ok r
      → StockValid s.db
      → Outcome parsed.0 r
  unfolding Outcome summarize
  applied_import parsed r h v =
      let errors = import_errors python s opening_stock parsed.0 parsed.1 in
      elim (Bool-cases (is_clean errors)) [
        | inl e ↦
            let (db, e0, h0) =
              >>=-eq-ok (apply_opening_stock python s parsed.0 s.db) _ (rw e at h) in
            subst (Outcome parsed.0) (ok-injective h0) (
              inr (
                refl,
                is_clean→nil errors e,
                refl,
                λ k. apply_opening_stock-counted python s parsed.0 s.db db k e0,
              ),
              apply_opening_stock-StockValid python s parsed.0 s.db db
                  (clean_import python s parsed.0 parsed.1 (is_clean→nil errors e)) e0 v,
            )
        | inr e ↦ subst (Outcome parsed.0) (ok-injective (rw e at h)) (inl (refl, e, refl), v)
      ]

  -- In a session with valid stock, an import of opening stock that returns has either found an error
  -- and written nothing, or found none, counted every row as created and left every key that rows of
  -- the file name with the quantity of the last of them, and every other key as it was; in both
  -- cases the stock is still valid.
  pub import_opening_stock-StockValid :
      (max_rows : ℕ) (table : Table) (r : Summary × Db)
      → import_opening_stock python s max_rows table ≡ ok r
      → StockValid s.db
      → (parsed : List Row × List ImportIssue) × (parse_file max_rows table ≡ ok parsed)
        × (Unwritten r ⊎ Written parsed.0 r)
        × StockValid r.1
  unfolding import_opening_stock validate_import Outcome summarize
  import_opening_stock-StockValid max_rows table r h v =
      let (validated, e0, h0) =
        >>=-eq-ok (validate_import python s max_rows opening_stock table) _ h in
      let (parsed, e1, h1) = >>=-eq-ok (parse_file max_rows table) _ e0 in
      let result =
        applied_import parsed r
          (subst
            (λ (w : Summary × List Row).
              (if not (is_clean w.0.errors)
                then ok (w.0, s.db)
                else apply_opening_stock python s w.1 s.db
                  >>= (λ (db : Db). ok (record w.0 { applied = true; created = length w.1 }, db)))
              ≡ ok r)
            (sym (ok-injective h1)) h0)
          v in
      (parsed, e1, result.0, result.1)
