-- ===== src/Imports/Counts.antt =====
-- The counts of valid and invalid rows of `validate_import`.
use faethon_system.Base.{
  ℕ, suc, ◌+◌, ◌≤◌, ◌<◌, pos, ltb_ℤ, Bool, true, false, not, ◌&&◌, is_some, List, [], ◌∷◌, ◌++◌,
  All, All-append, Bool-cases, Option-cases, contains, length, text, String, ok, >>=-eq-ok,
  ok-injective, ◌⊎◌, ◌≡◌, refl, sym, ap, subst, arith, inl, inr,
}
use faethon_system.Base.Ranges.{Distinct, Within, length-Within}
use faethon_system.Imports.{
  Row, value_of, is_given, ImportIssue, Table, xlsx, csv, keep_rows, csv_rows, parse_file, each_row,
  issue_if, ImportType, products, partners, warehouses, opening_stock, opening_partner_balances,
  validate_common, missing_fields, required_fields, Python, Summary, summarize, issue_rows,
  decimal_issues,
}
use faethon_system.Imports.Stock.{
  Catalog, product_of, warehouse_of, find_named, is_partner_type, import_errors, row_issues,
  validate_import,
}

abbrev InRows : ℕ → ℕ → ImportIssue → Type 0
InRows i n e = (i ≤ e.row) × (e.row < i + n)

issue_rows-Distinct : (es : List ImportIssue) → Distinct (issue_rows es)
issue_rows-Distinct [] = tt
issue_rows-Distinct (e ∷ es) = elim (Bool-cases (contains e.row (issue_rows es))) [
  | inl c ↦ rw c (issue_rows-Distinct es)
  | inr c ↦ rw c (c, issue_rows-Distinct es)
]

issue_rows-Within :
    (i n : ℕ) (es : List ImportIssue) → All (InRows i n) es → Within i n (issue_rows es)
issue_rows-Within i n [] h = tt
issue_rows-Within i n (e ∷ es) h = elim (Bool-cases (contains e.row (issue_rows es))) [
  | inl c ↦ rw c (issue_rows-Within i n es h.1)
  | inr c ↦ rw c (h.0, issue_rows-Within i n es h.1)
]

abbrev At : ℕ → ImportIssue → Type 0
At i e = e.row ≡ i

issue_if-At : (c : Bool) (i : ℕ) (field message : String) → All (At i) (issue_if c i field message)
issue_if-At true i field message = (refl, tt)
issue_if-At false i field message = tt

append_issue-At :
    (c : Bool) (i : ℕ) (field message : String) (es : List ImportIssue)
    → All (At i) es
    → All (At i) (issue_if c i field message ++ es)
append_issue-At true i field message es a = (refl, a)
append_issue-At false i field message es a = a

missing_fields-At :
    (fields : List String) (i : ℕ) (row : Row) → All (At i) (missing_fields fields i row)
missing_fields-At [] i row = tt
missing_fields-At (field ∷ fields) i row =
    append_issue-At (not (is_given field row)) i field "Required field is missing" _
      (missing_fields-At fields i row)

At-InRows : (i n : ℕ) (es : List ImportIssue) → 0 < n → All (At i) es → All (InRows i n) es
At-InRows i n [] h a = tt
At-InRows i n (e ∷ es) h a = ((omega (arith, a.0), omega (arith, a.0)), At-InRows i n es h a.1)

later-InRows :
    (i n : ℕ) (es : List ImportIssue) → All (InRows (i + 1) n) es → All (InRows i (suc n)) es
later-InRows i n [] a = tt
later-InRows i n (e ∷ es) a = ((omega (arith, a.0), omega (arith, a.0)), later-InRows i n es a.1)

each_row-InRows :
    (issues : ℕ → Row → List ImportIssue) (i : ℕ) (rows : List Row)
    → ((j : ℕ) (row : Row) → All (At j) (issues j row))
    → All (InRows i (length rows)) (each_row i issues rows)
each_row-InRows issues i [] at = tt
each_row-InRows issues i (row ∷ rows) at =
    All-append (InRows i (length (row ∷ rows))) (issues i row) (each_row (i + 1) issues rows)
      (At-InRows i (length (row ∷ rows)) (issues i row) (omega arith) (at i row))
      (later-InRows i (length rows) _ (each_row-InRows issues (i + 1) rows at))

module _ (python : Python) (s : Catalog) where
  decimal_issues-At :
      (places : ℕ) (signed : Bool) (field : String) (i : ℕ) (row : Row)
      → All (At i) (decimal_issues python places signed field i row)
  unfolding decimal_issues
  decimal_issues-At places signed field i row = elim (Bool-cases (is_given field row)) [
    | inl given ↦ elim (Option-cases (python.decimal places (value_of (text field) row))) [
      | inl e ↦ rw (given, e) (issue_if-At true i field "Invalid number")
      | inr (q, e) ↦
          rw (given, e)
            (issue_if-At (not signed && ltb_ℤ q (pos 0)) i field "Number must be zero or greater")
    ]
    | inr missing ↦ rw missing tt
  ]

  row_issues-At :
      (type : ImportType) (i : ℕ) (row : Row) → All (At i) (row_issues python s type i row)
  row_issues-At products i row = decimal_issues-At 2 false "base_price" i row
  row_issues-At partners i row =
      issue_if-At
        (is_given "partner_type" row && not (is_partner_type (value_of (text "partner_type") row)))
        i "partner_type" "Invalid partner_type. Use customer, supplier, or both"
  row_issues-At warehouses i row = tt
  row_issues-At opening_stock i row =
      append_issue-At (not (is_some (product_of s row))) i "product_sku"
        "Product not found by sku/name" _
        (append_issue-At (not (is_some (warehouse_of s row))) i "warehouse_name"
          "Warehouse not found" (decimal_issues python 3 false "quantity" i row)
          (decimal_issues-At 3 false "quantity" i row))
  row_issues-At opening_partner_balances i row =
      append_issue-At
        (not (is_some (find_named s.named_partners (value_of (text "partner_name") row)))) i
        "partner_name" "Partner not found" (decimal_issues python 2 true "balance" i row)
        (decimal_issues-At 2 true "balance" i row)

  import_errors-InRows :
      (type : ImportType) (rows : List Row)
      → All (InRows 2 (length rows)) (import_errors python s type rows [])
  unfolding validate_common
  import_errors-InRows type rows =
      All-append (InRows 2 (length rows)) (each_row 2 (missing_fields (required_fields type)) rows)
        (each_row 2 (row_issues python s type) rows)
        (each_row-InRows (missing_fields (required_fields type)) 2 rows
          (missing_fields-At (required_fields type)))
        (each_row-InRows (row_issues python s type) 2 rows (row_issues-At type))

parse_file-issues :
    (max_rows : ℕ) (table : Table) (r : List Row × List ImportIssue)
    → parse_file max_rows table ≡ ok r
    → (table ≡ xlsx []) ⊎ (r.1 ≡ [])
unfolding parse_file
parse_file-issues max_rows (xlsx []) r h = inl refl
parse_file-issues max_rows (xlsx (first_row ∷ sheet)) r h =
    let (rows, e, h0) = >>=-eq-ok (keep_rows max_rows _ 0) _ h in
    inr (sym (ap (λ (w : List Row × List ImportIssue). w.1) (ok-injective h0)))
parse_file-issues max_rows (csv records) r h =
    let (rows, e, h0) = >>=-eq-ok (csv_rows max_rows records 0) _ h in
    inr (sym (ap (λ (w : List Row × List ImportIssue). w.1) (ok-injective h0)))

-- validate_import counts every row once, as valid or as invalid, unless the sheet has no header.
pub validate_import-counts :
    (python : Python) (s : Catalog) (max_rows : ℕ) (type : ImportType) (table : Table)
    (r : Summary × List Row)
    → validate_import python s max_rows type table ≡ ok r
    → (table ≡ xlsx []) ⊎ (r.0.rows_valid + r.0.rows_invalid ≡ length r.1)
unfolding validate_import summarize
validate_import-counts python s max_rows type table r h =
    let (parsed, e, h0) = >>=-eq-ok (parse_file max_rows table) _ h in
    elim (parse_file-issues max_rows table parsed e) [
      | inl empty ↦ inl empty
      | inr none_found ↦
          let errors = import_errors python s type parsed.0 parsed.1 in
          let inside : All (InRows 2 (length parsed.0)) errors =
            rw none_found (import_errors-InRows python s type parsed.0) in
          let few : length (issue_rows errors) ≤ length parsed.0 =
            length-Within 2 (length parsed.0) (issue_rows errors) (issue_rows-Distinct errors)
              (issue_rows-Within 2 (length parsed.0) errors inside) in
          inr (
            subst (λ (w : Summary × List Row). w.0.rows_valid + w.0.rows_invalid ≡ length w.1)
              (ok-injective h0) (omega arith))
    ]
