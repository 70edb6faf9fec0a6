-- ===== src/Examples/Imports.antt =====
-- import_service.py on the sample shop.
use faethon_system.Base.{
  ℕ, ◌+ℤ◌, ◌+◌, ◌-◌, ◌*◌, ◌^◌, leb, ℤ, pos, false, none, some, ok, Option, List, [], ◌∷◌, length,
  ◌⊎◌, ◌≡◌, refl, value_or, Text, text, if◌then◌else◌,
}
use faethon_system.Models.{Db}
use faethon_system.Documents.Stock.{get_balance}
use faethon_system.Documents.Stock.Balances.{set_quantity}
use faethon_system.Documents.Posting.Ledger.{StockValid}
use faethon_system.Imports.{
  Row, ImportIssue, Table, xlsx, parse_file, keep_rows, compact_row, opening_stock, validate_common,
  Python, Summary, decimal_issues, summarize,
}
use faethon_system.Imports.Stock.{
  Catalog, find_product, validate_import, apply_opening_row, apply_opening_stock,
  import_opening_stock,
}
use faethon_system.Documents.Numbers.{print_number}
use faethon_system.Payments.Statement.{partner_balance}
use faethon_system.Imports.Debts.{
  apply_balance_row, apply_opening_partner_balances, total_share,
  apply_opening_partner_balances-balance,
}
use faethon_system.Imports.Books.{Unwritten, Written, import_opening_stock-StockValid}
use faethon_system.Imports.Counts.{validate_import-counts}
use faethon_system.Examples.Documents.{shop-StockValid}
use faethon_system.Examples.Sample.{shop}

-- One digit is read as a whole number of units, and no other text is a number.
abbrev digit : ℕ → Text → Option ℤ
digit places [] = none
digit places (c ∷ []) = if leb 48 c then some (pos ((c - 48) * 10 ^ places)) else none
digit places (c ∷ _ ∷ _) = none

abbrev python : Python
python = record { decimal = digit; lower = λ t. t }

abbrev catalog : Catalog
catalog = record {
  db = shop;
  named_products = record { id = 1; sku = some (text "A-1"); name = text "Rope" } ∷ [];
  named_partners = record { id = 1; name = text "Ada" } ∷ [];
  named_warehouses =
      record { id = 1; name = text "Main" } ∷ record { id = 2; name = text "Yard" } ∷ [];
}

abbrev headers : List (Option Text)
headers =
    some (text "product_sku")
    ∷ some (text "product_name")
    ∷ some (text "warehouse_name")
    ∷ some (text " quantity ")
    ∷ []

abbrev counted_stock : Table
counted_stock = xlsx (
    headers
    ∷ (some (text "A-1") ∷ none ∷ some (text "Main") ∷ some (text "5 ") ∷ [])
    ∷ (none ∷ none ∷ none ∷ none ∷ [])
    ∷ (none ∷ some (text "Rope") ∷ some (text "Yard") ∷ some (text "3") ∷ [])
    ∷ [])

-- The first row names no warehouse and has no number.
abbrev faulty_stock : Table
faulty_stock = xlsx (
    headers
    ∷ (some (text "A-1") ∷ none ∷ some (text "Roof") ∷ some (text "five") ∷ [])
    ∷ (none ∷ some (text "Rope") ∷ some (text "Yard") ∷ some (text "3") ∷ [])
    ∷ [])

abbrev empty_summary : Summary
empty_summary = record {
  rows_total = 0;
  rows_valid = 0;
  rows_invalid = 0;
  errors = [];
  warnings = [];
  applied = false;
  created = 0;
  skipped = 0;
}

abbrev imported : Summary × Db
imported = value_or (empty_summary, shop) (import_opening_stock python catalog 100 counted_stock)

import_succeeds : import_opening_stock python catalog 100 counted_stock ≡ ok imported
unfolding import_opening_stock validate_import parse_file keep_rows compact_row validate_common
    decimal_issues summarize find_product apply_opening_row apply_opening_stock get_balance
    set_quantity
import_succeeds = refl

import_opening_stock-StockValid_example :
    (parsed : List Row × List ImportIssue) × (parse_file 100 counted_stock ≡ ok parsed)
    × (Unwritten python catalog imported ⊎ Written python catalog parsed.0 imported)
    × StockValid imported.1
import_opening_stock-StockValid_example =
    import_opening_stock-StockValid python catalog 100 counted_stock imported import_succeeds
      shop-StockValid

abbrev checked : Summary × List Row
checked =
    value_or (empty_summary, []) (validate_import python catalog 100 opening_stock faulty_stock)

check_succeeds : validate_import python catalog 100 opening_stock faulty_stock ≡ ok checked
unfolding validate_import parse_file keep_rows compact_row validate_common decimal_issues summarize
    find_product
check_succeeds = refl

-- One of the two rows is valid.
one_valid : checked.0.rows_valid ≡ 1
unfolding validate_import parse_file keep_rows compact_row validate_common decimal_issues summarize
    find_product
one_valid = refl

validate_import-counts_example :
    (faulty_stock ≡ xlsx []) ⊎ (checked.0.rows_valid + checked.0.rows_invalid ≡ length checked.1)
validate_import-counts_example =
    validate_import-counts python catalog 100 opening_stock faulty_stock checked check_succeeds

abbrev debts : List Row
debts = ((text "partner_name", text "Ada") ∷ (text "balance", text "7") ∷ []) ∷ []

abbrev opened : Db × ℕ
opened = value_or (shop, 0) (apply_opening_partner_balances python catalog 30 debts (shop, 0))

opening_succeeds : apply_opening_partner_balances python catalog 30 debts (shop, 0) ≡ ok opened
unfolding apply_opening_partner_balances apply_balance_row print_number
opening_succeeds = refl

apply_opening_partner_balances-balance_example :
    partner_balance opened.0 1 ≡ partner_balance shop 1 +ℤ total_share python catalog 30 1 debts
apply_opening_partner_balances-balance_example =
    apply_opening_partner_balances-balance python catalog 30 1 debts (shop, 0) opened
      opening_succeeds
