-- ===== src/Imports/Clean.antt =====
-- What the validation of opening stock says of its rows.
use faethon_system.Base.{
  ℕ, ◌+◌, ℤ, pos, ◌≤ℤ◌, ltb_ℤ, Bool, true, false, not, Option, none, some, is_some, List, [], ◌∷◌,
  ◌++◌, All, text, String, ok, ok-injective, ◌≡◌, refl, ap, arith,
}
use faethon_system.Imports.{
  Row, value_of, is_given, ImportIssue, each_row, issue_if, opening_stock, validate_common,
  missing_fields, required_fields, Python, decimal_issues,
}
use faethon_system.Imports.Stock.{
  Catalog, or_crash, product_of, warehouse_of, opening_stock_issues, import_errors,
}

pub or_crash-eq-ok {ℓ} : {A : Type ℓ} (o : Option A) {a : A} → or_crash o ≡ ok a → o ≡ some a
or_crash-eq-ok none h = absurd (cc h)
or_crash-eq-ok (some a) h = ap some (ok-injective h)

-- The quantity of a row is not negative where it is a number.
unfoldable pub Opens : Python → Row → Type 0
Opens python row = (q : ℤ) → python.decimal 3 (value_of (text "quantity") row) ≡ some q → pos 0 ≤ℤ q

nil_parts {ℓ} : {A : Type ℓ} (xs ys : List A) → xs ++ ys ≡ [] → (xs ≡ []) × (ys ≡ [])
nil_parts [] ys h = (refl, h)
nil_parts (x ∷ xs) ys h = absurd (cc h)

issue_if-nil :
    (c : Bool) (i : ℕ) (field message : String) → issue_if c i field message ≡ [] → c ≡ false
issue_if-nil true i field message h = absurd (cc h)
issue_if-nil false i field message h = refl

not-false : (c : Bool) → not c ≡ false → c ≡ true
not-false true h = refl
not-false false h = absurd (cc h)

module _ (python : Python) (s : Catalog) where
  clean_number :
      (i : ℕ) (row : Row) (q : ℤ)
      → is_given "quantity" row ≡ true
      → decimal_issues python 3 false "quantity" i row ≡ []
      → python.decimal 3 (value_of (text "quantity") row) ≡ some q
      → pos 0 ≤ℤ q
  unfolding decimal_issues
  clean_number i row q given clean e =
      let signed : ltb_ℤ q (pos 0) ≡ false =
        issue_if-nil (ltb_ℤ q (pos 0)) i "quantity" "Number must be zero or greater"
          (rw (given, e) at clean) in
      ground arith

  clean_row :
      (i : ℕ) (row : Row)
      → missing_fields (required_fields opening_stock) i row ≡ []
      → opening_stock_issues python s i row ≡ []
      → Opens python row
  unfolding Opens
  clean_row i row complete clean = λ q.
      let given =
        issue_if-nil (not (is_given "quantity" row)) i "quantity" "Required field is missing"
          (nil_parts _ []
            (nil_parts
              (issue_if (not (is_given "warehouse_name" row)) i "warehouse_name"
                "Required field is missing")
              _ complete).1).0 in
      clean_number i row q (not-false (is_given "quantity" row) given)
        (nil_parts
          (issue_if (not (is_some (warehouse_of s row))) i "warehouse_name" "Warehouse not found") _
          (nil_parts
            (issue_if (not (is_some (product_of s row))) i "product_sku"
              "Product not found by sku/name")
            _ clean).1).1

  clean_rows :
      (i : ℕ) (rows : List Row)
      → each_row i (missing_fields (required_fields opening_stock)) rows ≡ []
      → each_row i (opening_stock_issues python s) rows ≡ []
      → All (Opens python) rows
  clean_rows i [] complete clean = tt
  clean_rows i (row ∷ rows) complete clean =
      let (c, cs) = nil_parts (missing_fields (required_fields opening_stock) i row) _ complete in
      let (d, ds) = nil_parts (opening_stock_issues python s i row) _ clean in
      (clean_row i row c d, clean_rows (i + 1) rows cs ds)

  -- The rows of an import without errors have no negative quantity.
  pub clean_import :
      (rows : List Row) (parse_errors : List ImportIssue)
      → import_errors python s opening_stock rows parse_errors ≡ []
      → All (Opens python) rows
  unfolding validate_common
  clean_import rows parse_errors h =
      let rest = (nil_parts parse_errors _ h).1 in
      let parts =
        nil_parts (each_row 2 (missing_fields (required_fields opening_stock)) rows) _ rest in
      clean_rows 2 rows parts.0 parts.1
