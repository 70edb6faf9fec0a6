-- ===== src/Imports.antt =====
-- backend/app/services/import_service.py: the rows of an imported table, their validation and the
-- import of opening stock.
--
-- A row is a dict as an association list. What openpyxl, the csv module and `Decimal` read is a
-- parameter: the cells, the records and the number of a text in units of ten to the minus places,
-- for texts of finite numbers that the columns hold exactly.
pub mod Stock
pub mod Counts
pub mod Clean
pub mod Quantities
pub mod Books
pub mod Debts
use faethon_system.Base.{
  ℕ, ◌+◌, ◌-◌, ltb, ◌==◌, ℤ, pos, ltb_ℤ, Bool, true, false, not, ◌&&◌, ◌||◌, Option, none, some,
  get_or, List, [], ◌∷◌, ◌++◌, map, filter, any, find, contains, length, Text, text, strip,
  is_empty, String, Result, ok, err, crash, ◌>>=◌, if◌then◌else◌,
}
use faethon_system.Documents.Rules.{same_text}

abbrev pub Row : Type 0
Row = List (Text × Text)

-- `row.get(key, "")`
abbrev pub value_of : Text → Row → Text
value_of key [] = []
value_of key ((k, v) ∷ row) = if same_text k key then v else value_of key row

-- `row[key] = value`
abbrev pub set_value : Text → Text → Row → Row
set_value key v [] = (key, v) ∷ []
set_value key v ((k, w) ∷ row) =
    let rest = set_value key v row in if same_text k key then (k, v) ∷ row else (k, w) ∷ rest

-- `if row.get(key)`
abbrev pub is_given : String → Row → Bool
is_given key row = not (is_empty (value_of (text key) row))

-- `_compact_row`
unfoldable pub compact_row : Row → Row
compact_row row = filter (λ (cell : Text × Text). not (is_empty cell.0)) row

abbrev pub has_values : Row → Bool
has_values row = any (λ (cell : Text × Text). not (is_empty cell.1)) row

-- `field` is `none` for an issue of the whole file.
pub record ImportIssue : Type 0 where
  pub row : ℕ
  pub field : Option String
  pub message : String

-- A record of `csv.DictReader`: its fields, and the values beyond the header.
pub record CsvRecord : Type 0 where
  pub fields : List (Text × Option Text)
  pub beyond : List Text

-- What the libraries read of a file: the cells of an XLSX sheet as texts, where an empty cell and a
-- header of zero are none, or the records of a CSV file.
pub data Table : Type 0 where
  xlsx : List (List (Option Text)) → Table
  csv : List CsvRecord → Table

-- the dict of the headers and the values, as far as both go
abbrev pub zip_row : List Text → List (Option Text) → Row → Row
zip_row (header ∷ headers) (value ∷ values) row =
    zip_row headers values (set_value header (strip (get_or value [])) row)
zip_row _ _ row = row

-- Rows without values are left out, and the rows that are kept are counted.
unfoldable pub keep_rows : ℕ → List Row → ℕ → Result (List Row)
keep_rows max_rows [] kept = ok []
keep_rows max_rows (row ∷ rows) kept =
    if not (has_values row)
    then keep_rows max_rows rows kept
    else if ltb max_rows (kept + 1)
    then err (crash "ImportLimitError")
    else (do rest ← keep_rows max_rows rows (kept + 1); ok (row ∷ rest))

-- The row of a record; the list of the values beyond the header has no `strip`.
abbrev pub csv_row : CsvRecord → Result Row
csv_row r = elim r.beyond [
  | [] ↦ ok (
      compact_row
        (map (λ (cell : Text × Option Text). (cell.0, strip (get_or cell.1 []))) r.fields))
  | _ ∷ _ ↦ err (crash "AttributeError")
]

-- The CSV loop, which reads one record after the other.
unfoldable pub csv_rows : ℕ → List CsvRecord → ℕ → Result (List Row)
csv_rows max_rows [] kept = ok []
csv_rows max_rows (r ∷ records) kept = do
  row ← csv_row r
  if not (has_values row)
      then csv_rows max_rows records kept
      else if ltb max_rows (kept + 1)
      then err (crash "ImportLimitError")
      else (do rest ← csv_rows max_rows records (kept + 1); ok (row ∷ rest))

-- `_parse_file` from the libraries on
unfoldable pub parse_file : ℕ → Table → Result (List Row × List ImportIssue)
parse_file max_rows (xlsx []) =
    ok ([], record { row = 1; field = none; message = "File is empty" } ∷ [])
parse_file max_rows (xlsx (first_row ∷ sheet)) = do
  let headers = map (λ (value : Option Text). strip (get_or value [])) first_row
  rows ←
      keep_rows max_rows
        (map (λ (values : List (Option Text)). compact_row (zip_row headers values [])) sheet) 0
  ok (rows, [])
parse_file max_rows (csv records) = do rows ← csv_rows max_rows records 0; ok (rows, [])

-- The issues of all rows, which are numbered from the first number.
abbrev pub each_row : ℕ → (ℕ → Row → List ImportIssue) → List Row → List ImportIssue
each_row i issues [] = []
each_row i issues (row ∷ rows) = issues i row ++ each_row (i + 1) issues rows

abbrev pub issue_if : Bool → ℕ → String → String → List ImportIssue
issue_if false i field message = []
issue_if true i field message = record { row = i; field = some field; message = message } ∷ []

pub data ImportType : Type 0 where
  products partners warehouses opening_stock opening_partner_balances : ImportType

-- `REQUIRED`
abbrev pub required_fields : ImportType → List String
required_fields products = "name" ∷ []
required_fields partners = "name" ∷ "partner_type" ∷ []
required_fields warehouses = "name" ∷ []
required_fields opening_stock = "warehouse_name" ∷ "quantity" ∷ []
required_fields opening_partner_balances = "partner_name" ∷ "balance" ∷ []

abbrev pub missing_fields : List String → ℕ → Row → List ImportIssue
missing_fields [] i row = []
missing_fields (field ∷ fields) i row =
    issue_if (not (is_given field row)) i field "Required field is missing"
    ++ missing_fields fields i row

unfoldable pub validate_common : ImportType → List Row → List ImportIssue
validate_common type rows = each_row 2 (missing_fields (required_fields type)) rows

-- What the code calls of Python: `Decimal`, in units of ten to the minus places, and `str.lower`.
pub record Python : Type 0 where
  pub decimal : ℕ → Text → Option ℤ
  pub lower : Text → Text

pub record Summary : Type 0 where
  pub rows_total : ℕ
  pub rows_valid : ℕ
  pub rows_invalid : ℕ
  pub errors : List ImportIssue
  pub warnings : List ImportIssue
  pub applied : Bool
  pub created : ℕ
  pub skipped : ℕ

-- the set of the rows of the issues
abbrev pub issue_rows : List ImportIssue → List ℕ
issue_rows [] = []
issue_rows (e ∷ es) = let rest = issue_rows es in if contains e.row rest then rest else e.row ∷ rest

unfoldable pub summarize : List Row → List ImportIssue → List ImportIssue → Summary
summarize rows errors warnings = record {
  rows_total = length rows;
  rows_valid = length rows - length (issue_rows errors);
  rows_invalid = length (issue_rows errors);
  errors = errors;
  warnings = warnings;
  applied = false;
  created = 0;
  skipped = 0;
}

module _ (python : Python) where
  -- the issues of `_decimal`
  unfoldable pub decimal_issues : ℕ → Bool → String → ℕ → Row → List ImportIssue
  decimal_issues places allow_negative field i row =
      if not (is_given field row)
      then []
      else (elim (python.decimal places (value_of (text field) row)) [
        | none ↦ issue_if true i field "Invalid number"
        | some number ↦
            issue_if (not allow_negative && ltb_ℤ number (pos 0)) i field
              "Number must be zero or greater"
      ])

  -- `row[key].strip().lower()`
  abbrev pub normal_value : String → Row → Text
  normal_value key row = python.lower (strip (value_of (text key) row))

  -- `counter[...] > 1`
  abbrev pub is_repeated : String → Row → List Row → Bool
  is_repeated key row rows = ltb 1 (
      length (
        filter
          (λ other. is_given key other && same_text (normal_value key other) (normal_value key row))
          rows))

  -- The message leaves out the key.
  unfoldable pub duplicate_warnings : String → List Row → List ImportIssue
  duplicate_warnings key rows =
      each_row 2
        (λ i row. issue_if (is_given key row && is_repeated key row rows) i key "Duplicate in file")
        rows
