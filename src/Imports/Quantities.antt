-- ===== src/Imports/Quantities.antt =====
-- The quantities on hand after an import of opening stock.
use faethon_system.Base.{
  ℕ, ℤ, none, some, get_or, List, [], ◌∷◌, text, ok, >>=-eq-ok, ok-injective, if◌then◌else◌, ◌≡◌,
  refl, sym, ap, ◌∙◌,
}
use faethon_system.Models.{Db}
use faethon_system.Documents.Stock.{Key, same_key, get_balance}
use faethon_system.Documents.Stock.Balances.{on_hand, get_balance-Got, on_hand-set_quantity}
use faethon_system.Imports.{Row, value_of, Python}
use faethon_system.Imports.Stock.{
  Catalog, Named, NamedProduct, product_of, warehouse_of, or_crash, open_balance, apply_opening_row,
  apply_opening_stock,
}
use faethon_system.Imports.Clean.{or_crash-eq-ok}

module _ (python : Python) (s : Catalog) where
  -- The quantity of a key after a row: that of the row, if it names the key.
  abbrev pub counted_row : Key → Row → ℤ → ℤ
  counted_row k row old = elim (product_of s row) [
    | none ↦ old
    | some product ↦ elim (warehouse_of s row) [
      | none ↦ old
      | some warehouse ↦
          if same_key (product.id, warehouse.id) k
          then get_or (python.decimal 3 (value_of (text "quantity") row)) old
          else old
    ]
  ]

  -- The quantity of a key after some rows: that of the last row that names it.
  abbrev pub counted : Key → List Row → ℤ → ℤ
  counted k [] old = old
  counted k (row ∷ rows) old = counted k rows (counted_row k row old)

  counted_found :
      (k : Key) (row : Row) (old quantity : ℤ) (product : NamedProduct) (warehouse : Named)
      → product_of s row ≡ some product
      → warehouse_of s row ≡ some warehouse
      → python.decimal 3 (value_of (text "quantity") row) ≡ some quantity
      → counted_row k row old ≡ (if same_key (product.id, warehouse.id) k then quantity else old)
  counted_found k row old quantity product warehouse e f g = rw (counted_row, e) (rw f (rw g refl))

  open_balance-on_hand :
      (p w : ℕ) (quantity : ℤ) (db : Db) (k : Key)
      → on_hand k (open_balance p w quantity db).stock_balances
        ≡ (if same_key (p, w) k then quantity else on_hand k db.stock_balances)
  open_balance-on_hand p w quantity db k =
      let got = get_balance-Got (p, w) db.stock_balances in
      on_hand-set_quantity k (p, w) quantity (get_balance (p, w) db.stock_balances).1 got.row
      ∙ ap (λ old. if same_key (p, w) k then quantity else old) (got.same k)

  apply_opening_row-counted :
      (row : Row) (db db' : Db) (k : Key)
      → apply_opening_row python s row db ≡ ok db'
      → on_hand k db'.stock_balances ≡ counted_row k row (on_hand k db.stock_balances)
  unfolding apply_opening_row
  apply_opening_row-counted row db db' k h =
      let (product, e0, h0) = >>=-eq-ok (or_crash (product_of s row)) _ h in
      let (warehouse, e1, h1) = >>=-eq-ok (or_crash (warehouse_of s row)) _ h0 in
      let (quantity, e2, h2) =
        >>=-eq-ok (or_crash (python.decimal 3 (value_of (text "quantity") row))) _ h1 in
      ap (λ (x : Db). on_hand k x.stock_balances) (sym (ok-injective h2))
      ∙ open_balance-on_hand product.id warehouse.id quantity db k
      ∙ sym (
          counted_found k row (on_hand k db.stock_balances) quantity product warehouse
            (or_crash-eq-ok (product_of s row) e0) (or_crash-eq-ok (warehouse_of s row) e1)
            (or_crash-eq-ok (python.decimal 3 (value_of (text "quantity") row)) e2))

  -- After the import of rows, every key has the quantity of its last row, and a key without a row
  -- has what it had.
  pub apply_opening_stock-counted :
      (rows : List Row) (db db' : Db) (k : Key)
      → apply_opening_stock python s rows db ≡ ok db'
      → on_hand k db'.stock_balances ≡ counted k rows (on_hand k db.stock_balances)
  unfolding apply_opening_stock
  apply_opening_stock-counted [] db db' k h =
      ap (λ (x : Db). on_hand k x.stock_balances) (sym (ok-injective h))
  apply_opening_stock-counted (row ∷ rows) db db' k h =
      let (next, e, h') =
        >>=-eq-ok (apply_opening_row python s row db)
          (λ (next : Db). apply_opening_stock python s rows next) h in
      apply_opening_stock-counted rows next db' k h'
      ∙ ap (counted k rows) (apply_opening_row-counted row db next k e)
