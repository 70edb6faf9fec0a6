-- ===== src/Imports/Stock.antt =====
-- `validate_import`, and `apply_import` for opening stock, in backend/app/services/import_service.py.
-- The audit entry of the import, whose key is a text, is left out.
use faethon_system.Base.{
  ℕ, ℤ, ◌-ℤ◌, Bool, true, false, not, ◌&&◌, ◌||◌, Option, none, some, is_some, List, [], ◌∷◌, ◌++◌,
  find, length, Text, text, is_empty, Result, ok, err, crash, ◌>>=◌, if◌then◌else◌,
}
use faethon_system.Models.{Db}
use faethon_system.Documents.Rules.{same_text}
use faethon_system.Documents.Stock.{get_balance}
use faethon_system.Documents.Stock.Balances.{set_quantity}
use faethon_system.Imports.{
  Row, value_of, is_given, ImportIssue, Table, parse_file, each_row, issue_if, ImportType, products,
  partners, warehouses, opening_stock, opening_partner_balances, validate_common, Python, Summary,
  summarize, decimal_issues, duplicate_warnings,
}

-- The names that rows refer to.
pub record NamedProduct : Type 0 where
  pub id : ℕ
  pub sku : Option Text
  pub name : Text

pub record Named : Type 0 where
  pub id : ℕ
  pub name : Text

pub record Catalog : Type 0 where
  pub db : Db
  pub named_products : List NamedProduct
  pub named_partners : List Named
  pub named_warehouses : List Named

abbrev pub has_sku : Text → NamedProduct → Bool
has_sku wanted p = elim p.sku [ none ↦ false | some sku ↦ same_text sku wanted ]

abbrev pub product_named : Text → List NamedProduct → Option NamedProduct
product_named name rows =
    if is_empty name then none else find (λ (p : NamedProduct). same_text p.name name) rows

-- `_find_product`: by its sku, and else by its name; an empty text is as good as none
unfoldable pub find_product : Catalog → Text → Text → Option NamedProduct
find_product s sku name =
    if is_empty sku
    then product_named name s.named_products
    else (elim (find (has_sku sku) s.named_products) [
      | none ↦ product_named name s.named_products
      | some p ↦ some p
    ])

-- `_find_partner` and `_find_warehouse`
abbrev pub find_named : List Named → Text → Option Named
find_named rows name =
    if is_empty name then none else find (λ (n : Named). same_text n.name name) rows

abbrev pub product_of : Catalog → Row → Option NamedProduct
product_of s row =
    find_product s (value_of (text "product_sku") row) (value_of (text "product_name") row)

abbrev pub warehouse_of : Catalog → Row → Option Named
warehouse_of s row = find_named s.named_warehouses (value_of (text "warehouse_name") row)

abbrev pub is_partner_type : Text → Bool
is_partner_type t =
    same_text t (text "customer") || same_text t (text "supplier") || same_text t (text "both")

-- `assert product is not None`, and what `Decimal` raises
abbrev pub or_crash {ℓ} : {A : Type ℓ} → Option A → Result A
or_crash none = err (crash "AssertionError")
or_crash (some a) = ok a

-- The balance of the key gets the quantity, and the movement the difference.
abbrev pub open_balance : ℕ → ℕ → ℤ → Db → Db
open_balance product_id warehouse_id quantity db =
    let found = get_balance (product_id, warehouse_id) db.stock_balances in
    record db {
      stock_balances = set_quantity (product_id, warehouse_id) quantity found.1;
      stock_movements =
          db.stock_movements
          ++ record {
            product_id = product_id;
            warehouse_id = warehouse_id;
            document_id = none;
            posting_version = none;
            movement_kind = none;
            quantity_delta = quantity -ℤ found.0.quantity;
            reason = none;
          }
            ∷ [];
    }

abbrev pub is_clean : List ImportIssue → Bool
is_clean [] = true
is_clean (_ ∷ _) = false

module _ (python : Python) (s : Catalog) where
  abbrev pub opening_stock_issues : ℕ → Row → List ImportIssue
  opening_stock_issues i row =
      issue_if (not (is_some (product_of s row))) i "product_sku" "Product not found by sku/name"
      ++ (issue_if (not (is_some (warehouse_of s row))) i "warehouse_name" "Warehouse not found"
          ++ decimal_issues python 3 false "quantity" i row)

  abbrev pub partner_issues : ℕ → Row → List ImportIssue
  partner_issues i row =
      issue_if
        (is_given "partner_type" row && not (is_partner_type (value_of (text "partner_type") row)))
        i "partner_type" "Invalid partner_type. Use customer, supplier, or both"

  abbrev pub partner_balance_issues : ℕ → Row → List ImportIssue
  partner_balance_issues i row =
      issue_if (not (is_some (find_named s.named_partners (value_of (text "partner_name") row)))) i
        "partner_name" "Partner not found"
      ++ decimal_issues python 2 true "balance" i row

  -- The errors that only rows of this type have.
  abbrev pub row_issues : ImportType → ℕ → Row → List ImportIssue
  row_issues products = decimal_issues python 2 false "base_price"
  row_issues partners = partner_issues
  row_issues warehouses = λ i row. []
  row_issues opening_stock = opening_stock_issues
  row_issues opening_partner_balances = partner_balance_issues

  abbrev pub type_warnings : ImportType → List Row → List ImportIssue
  type_warnings products rows =
      duplicate_warnings python "sku" rows ++ duplicate_warnings python "name" rows
  type_warnings partners rows = duplicate_warnings python "name" rows
  type_warnings warehouses rows = duplicate_warnings python "name" rows
  type_warnings opening_stock rows = []
  type_warnings opening_partner_balances rows = duplicate_warnings python "partner_name" rows

  abbrev pub import_errors : ImportType → List Row → List ImportIssue → List ImportIssue
  import_errors type rows parse_errors =
      parse_errors ++ (validate_common type rows ++ each_row 2 (row_issues type) rows)

  unfoldable pub validate_import : ℕ → ImportType → Table → Result (Summary × List Row)
  validate_import max_rows type table = do
    parsed ← parse_file max_rows table
    ok (
      summarize parsed.0 (import_errors type parsed.0 parsed.1) (type_warnings type parsed.0),
      parsed.0,
    )

  unfoldable pub apply_opening_row : Row → Db → Result Db
  apply_opening_row row db = do
    product ← or_crash (product_of s row)
    warehouse ← or_crash (warehouse_of s row)
    quantity ← or_crash (python.decimal 3 (value_of (text "quantity") row))
    ok (open_balance product.id warehouse.id quantity db)

  unfoldable pub apply_opening_stock : List Row → Db → Result Db
  apply_opening_stock [] db = ok db
  apply_opening_stock (row ∷ rows) db =
      apply_opening_row row db >>= (λ (next : Db). apply_opening_stock rows next)

  -- `apply_import` of opening stock: nothing is written where a row has an error.
  unfoldable pub import_opening_stock : ℕ → Table → Result (Summary × Db)
  import_opening_stock max_rows table = do
    validated ← validate_import max_rows opening_stock table
    if not (is_clean validated.0.errors) then ok (validated.0, s.db) else (do
      db ← apply_opening_stock validated.1 s.db
      ok (record validated.0 { applied = true; created = length validated.1 }, db))
