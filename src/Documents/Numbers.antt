-- ===== src/Documents/Numbers.antt =====
-- Document numbers: `_generate_document_number`, `_reserve_document_number` and
-- `_normalize_document_number`. The three dialects of the source write the same row, by an upsert.
--
-- `int` and `isdigit` are modelled on ASCII; other Unicode digits are not.
use faethon_system.Base.{
  ℕ, zero, suc, ◌+◌, ◌-◌, ◌*◌, ◌/◌, ◌%◌, Text, text, strip, is_empty, Bool, true, false, not, ◌&&◌,
  ◌||◌, ltb, leb, ◌==◌, if◌then◌else◌, get_or, Option, none, some, List, [], ◌∷◌, ◌++◌, map, filter,
  any, length, Result, ok, err, http, ◌>>=◌,
}
use faethon_system.Models.{Db, Document, DocumentType, incoming, outgoing, adjustment, transfer}
use faethon_system.Documents.Rules.{same_type, same_text}

-- `_document_prefix`
unfoldable pub document_prefix : DocumentType → Result Text
document_prefix incoming = ok (text "IN")
document_prefix outgoing = ok (text "OUT")
document_prefix adjustment = ok (text "ADJ")
document_prefix transfer = ok (text "TR")
document_prefix DocumentType.other = err (http 422 "Invalid document type")

abbrev pub starts_with : Text → Text → Bool
starts_with [] s = true
starts_with (c ∷ cs) [] = false
starts_with (c ∷ cs) (d ∷ ds) = c == d && starts_with cs ds

-- whether a text contains "-"
abbrev pub has_dash : Text → Bool
has_dash s = any (λ c. c == b'-') s

-- `s.rsplit("-", 1)[1]` for a text that contains "-"
abbrev pub after_last_dash : Text → Text
after_last_dash [] = []
after_last_dash (c ∷ cs) =
    let rest = after_last_dash cs in if has_dash cs then rest else if c == b'-' then cs else rest

abbrev pub is_digit : ℕ → Bool
is_digit c = leb b'0' c && leb c b'9'

abbrev pub all_digits : Text → Bool
all_digits [] = true
all_digits (c ∷ cs) = is_digit c && all_digits cs

-- `s.isdigit()`
unfoldable pub isdigit : Text → Bool
isdigit s = not (is_empty s) && all_digits s

-- the digits of a number, most significant first
abbrev pub digits_value : ℕ → Text → ℕ
digits_value acc [] = acc
digits_value acc (c ∷ cs) = digits_value (acc * 10 + (c - b'0')) cs

-- digits, with single underscores between them
abbrev pub underscored : Text → Bool
underscored [] = false
underscored (c ∷ []) = is_digit c
underscored (c ∷ d ∷ cs) = is_digit c && (underscored (d ∷ cs) || (d == b'_' && underscored cs))

abbrev pub without_sign : Text → Text
without_sign [] = []
without_sign (c ∷ cs) = if c == b'+' then cs else c ∷ cs

-- `int(s)` for a text with no "-": `none` is the `ValueError`
unfoldable pub int_of : Text → Option ℕ
int_of s =
    let body = without_sign (strip s) in
    if underscored body then some (digits_value 0 (filter is_digit body)) else none

-- the decimal digits of a number, in front of `acc`
abbrev print_digits : ℕ → ℕ → Text → Text
print_digits zero n acc = acc
print_digits (suc f) n acc =
    let rest = print_digits f (n / 10) ((b'0' + n % 10) ∷ acc) in
    if ltb n 10 then (b'0' + n) ∷ acc else rest

-- `n + 1` rounds are enough for `n`
unfoldable pub print_number : ℕ → Text
print_number n = print_digits (n + 1) n []

abbrev pub zeros : ℕ → Text
zeros zero = []
zeros (suc k) = b'0' ∷ zeros k

-- `f"{n:06d}"`
unfoldable pub print_padded : ℕ → Text
print_padded n = zeros (6 - length (print_number n)) ++ print_number n

abbrev pub dashed : Text → Text
dashed prefix = prefix ++ b'-' ∷ []

-- `f"{prefix}-{next_value:06d}"`
unfoldable pub number_text : Text → ℕ → Text
number_text prefix n = dashed prefix ++ print_padded n

-- the largest number in use, in the loop of `_generate_document_number`
unfoldable pub max_value : ℕ → List Text → ℕ
max_value acc [] = acc
max_value acc (number ∷ rest) =
    max_value
      (elim (int_of (after_last_dash number)) [
        | none ↦ acc
        | some v ↦ if ltb acc v then v else acc
      ])
      rest

-- the numbers of a type that are LIKE "<prefix>-%"
unfoldable pub existing_numbers : DocumentType → Text → List Document → List Text
existing_numbers type prefix documents =
    map (λ (d : Document). d.number)
      (filter
        (λ (d : Document). same_type d.document_type type && starts_with (dashed prefix) d.number)
        documents)

abbrev pub lookup_sequence : DocumentType → List (DocumentType × ℕ) → Option ℕ
lookup_sequence type [] = none
lookup_sequence type ((t, v) ∷ rest) =
    if same_type t type then some v else lookup_sequence type rest

-- `insert ... on conflict do update set last_value = update(last_value)`
abbrev pub upsert : DocumentType → ℕ → (ℕ → ℕ) → List (DocumentType × ℕ) → List (DocumentType × ℕ)
upsert type value update [] = (type, value) ∷ []
upsert type value update ((t, v) ∷ rest) =
    if same_type t type then (t, update v) ∷ rest else (t, v) ∷ upsert type value update rest

-- the value of the row after the upsert of `_generate_document_number`
unfoldable pub next_value : Db → DocumentType → Text → ℕ
next_value db type prefix = elim (lookup_sequence type db.sequences) [
  | none ↦ max_value 0 (existing_numbers type prefix db.documents) + 1
  | some v ↦ v + 1
]

unfoldable pub generate_document_number : Db → DocumentType → Result (Text × Db)
generate_document_number db type = do
  prefix ← document_prefix type
  let value = next_value db type prefix
  ok (
    number_text prefix value,
    record db { sequences = upsert type value (λ _. value) db.sequences },
  )

unfoldable pub reserve_document_number : Db → DocumentType → Text → Result Db
reserve_document_number db type number = do
  prefix ← document_prefix type
  let suffix = after_last_dash number
  let value = digits_value 0 suffix
  ok (
      if starts_with (dashed prefix) number && isdigit suffix
      then record db {
        sequences = upsert type value (λ v. if ltb v value then value else v) db.sequences;
      }
      else db)

unfoldable pub normalize_document_number : Db → DocumentType → Option Text → Result (Text × Db)
normalize_document_number db type number =
    let normalized = strip (get_or number []) in
    if is_empty normalized
    then generate_document_number db type
    else (do db' ← reserve_document_number db type normalized; ok (normalized, db'))

-- whether the unique constraint on `documents.number` refuses a number
unfoldable pub number_taken : Db → ℕ → Text → Bool
number_taken db id number =
    any (λ (d : Document). not (d.id == id) && same_text d.number number) db.documents
