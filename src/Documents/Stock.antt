-- ===== src/Documents/Stock.antt =====
-- Stock quantities and movements: `_document_stock_keys` up to `_apply_balance_quantities`.
--
-- A dict keyed by (product, warehouse) is an association list, and a set of such keys is a list
-- without repetition. The advisory locks of `_lock_stock_keys` have no effect on the rows.
pub mod Keys
pub mod Plan
pub mod Balances
use faethon_system.Base.{
  ℕ, ◌+◌, ℤ, pos, ◌+ℤ◌, ◌-ℤ◌, neg, ltb_ℤ, String, Bool, true, false, not, ◌&&◌, ◌||◌, ltb, leb,
  ◌==◌, if◌then◌else◌, same_option, is_some, get_or, Option, none, some, List, [], ◌∷◌, ◌++◌, map,
  filter, find, any, update_where, Result, ok, err, http, rules, crash, ◌>>=◌, ◌>>◌, raise_if,
  or_raise,
}
use faethon_system.Base.Sort.{sort}
use faethon_system.Models.{
  Db, Document, DocumentLine, DocumentType, incoming, outgoing, adjustment, transfer, StockBalance,
  StockMovement, MovementKind, apply,
}
use faethon_system.Documents.Rules.{is_transfer}

abbrev pub Key : Type 0
Key = ℕ × ℕ

abbrev pub same_key : Key → Key → Bool
same_key (p, w) (q, v) = p == q && w == v

-- the order of tuples
abbrev pub key_before : Key → Key → Bool
key_before (p, w) (q, v) = ltb p q || (p == q && leb w v)

-- `keys.add(key)`
abbrev pub add_key : Key → List Key → List Key
add_key k ks = if any (same_key k) ks then ks else k ∷ ks

abbrev pub add_keys : List Key → List Key → List Key
add_keys [] ks = ks
add_keys (j ∷ js) ks = add_key j (add_keys js ks)

abbrev pub Quantities : Type 0
Quantities = List (Key × ℤ)

abbrev pub lookup_key : Key → Quantities → Option ℤ
lookup_key k [] = none
lookup_key k ((j, q) ∷ qs) = if same_key j k then some q else lookup_key k qs

abbrev pub set_key : Key → ℤ → Quantities → Quantities
set_key k v [] = (k, v) ∷ []
set_key k v ((j, q) ∷ qs) = if same_key j k then (j, v) ∷ qs else (j, q) ∷ set_key k v qs

-- `quantities[key]`
abbrev pub read_key : Key → Quantities → Result ℤ
read_key k qs = elim (lookup_key k qs) [ none ↦ err (crash "KeyError") | some q ↦ ok q ]

-- `quantities[key] += delta`
unfoldable pub add_to_key : Key → ℤ → Quantities → Result Quantities
add_to_key k delta qs = do q ← read_key k qs; ok (set_key k (q +ℤ delta) qs)

-- (product, warehouse, delta)
abbrev pub Movement : Type 0
Movement = ℕ × ℕ × ℤ

abbrev pub movement_key : Movement → Key
movement_key (p, w, _) = (p, w)

-- `_required_warehouse_id`
abbrev pub required_warehouse_id : Option ℕ → Result ℕ
required_warehouse_id w = or_raise w 422 "Document warehouse is required"

abbrev pub required_destination_id : Option ℕ → Result ℕ
required_destination_id w = or_raise w 422 "Transfer document destination warehouse is required"

abbrev pub line_keys : ℕ → List DocumentLine → List Key
line_keys w lines = map (λ (l : DocumentLine). (l.product_id, w)) lines

-- `_document_stock_keys`, of a document's type, warehouses and lines
unfoldable pub document_stock_keys :
    DocumentType → Option ℕ → Option ℕ → List DocumentLine → Result (List Key)
document_stock_keys transfer warehouse_id destination_id lines = do
  w ← required_warehouse_id warehouse_id
  d ← required_destination_id destination_id
  ok (add_keys (line_keys d lines) (add_keys (line_keys w lines) []))
document_stock_keys type warehouse_id destination_id lines = do
  w ← required_warehouse_id warehouse_id
  ok (add_keys (line_keys w lines) [])

abbrev pub balance_at : Key → StockBalance → Bool
balance_at (p, w) b = b.product_id == p && b.warehouse_id == w

-- `_get_balance`: a missing row is added with quantity 0
unfoldable pub get_balance : Key → List StockBalance → StockBalance × List StockBalance
get_balance (p, w) rows = elim (find (balance_at (p, w)) rows) [
  | some b ↦ (b, rows)
  | none ↦
      let b : StockBalance = record { product_id = p; warehouse_id = w; quantity = pos 0 } in
      (b, rows ++ b ∷ [])
]

-- the loop of `_load_balance_quantities`
unfoldable pub load_quantities : List Key → List StockBalance → Quantities × List StockBalance
load_quantities [] rows = ([], rows)
load_quantities (k ∷ ks) rows =
    let (b, rows') = get_balance k rows in
    let (qs, rows'') = load_quantities ks rows' in ((k, b.quantity) ∷ qs, rows'')

unfoldable pub load_balance_quantities : Db → List Key → Quantities × Db
load_balance_quantities db keys =
    let (qs, rows) = load_quantities (sort key_before keys) db.stock_balances in
    (qs, record db { stock_balances = rows })

-- the signed change that a line makes at its own warehouse
unfoldable pub line_delta : DocumentType → ℤ → ℤ → Result ℤ
line_delta incoming current quantity = ok quantity
line_delta outgoing current quantity =
    if ltb_ℤ current quantity
    then err (rules "Not enough stock for outgoing document")
    else ok (neg quantity)
line_delta adjustment current quantity = ok (quantity -ℤ current)
line_delta transfer current quantity =
    if ltb_ℤ current quantity
    then err (rules "Not enough stock for transfer document")
    else ok (neg quantity)
line_delta DocumentType.other current quantity = err (rules "Unsupported document type")

-- the second movement of a transfer's line; `destination_id` is `None` for other types
unfoldable pub receive_line :
    DocumentType → Option ℕ → DocumentLine → Quantities → Result (List Movement × Quantities)
receive_line transfer destination_id line qs = do
  d ← elim destination_id [
    | none ↦ err (rules "Transfer document destination warehouse is required")
    | some d ↦ ok d
  ]
  qs' ← add_to_key (line.product_id, d) line.quantity qs
  ok ((line.product_id, d, line.quantity) ∷ [], qs')
receive_line type destination_id line qs = ok ([], qs)

-- the body of the loop of `_plan_document_movements`
unfoldable pub plan_line :
    DocumentType → ℕ → Option ℕ → DocumentLine → Quantities → Result (List Movement × Quantities)
plan_line type warehouse_id destination_id line qs = do
  current ← read_key (line.product_id, warehouse_id) qs
  delta ← line_delta type current line.quantity
  qs' ← add_to_key (line.product_id, warehouse_id) delta qs
  received ← receive_line type destination_id line qs'
  ok ((line.product_id, warehouse_id, delta) ∷ received.0, received.1)

unfoldable pub plan_lines :
    DocumentType
    → ℕ
    → Option ℕ
    → List DocumentLine
    → Quantities
    → Result (List Movement × Quantities)
plan_lines type w d [] qs = ok ([], qs)
plan_lines type w d (line ∷ lines) qs = do
  first ← plan_line type w d line qs
  rest ← plan_lines type w d lines first.1
  ok (first.0 ++ rest.0, rest.1)

abbrev pub negative_entry : Key × ℤ → Bool
negative_entry (_, q) = ltb_ℤ q (pos 0)

-- `destination_id` in `_plan_document_movements`
abbrev pub plan_destination : DocumentType → Option ℕ → Result (Option ℕ)
plan_destination type destination_id =
    if is_transfer type
    then (do d ← required_destination_id destination_id; ok (some d))
    else ok none

-- the test after the loop of `_plan_document_movements`
unfoldable pub check_nonnegative : List Movement × Quantities → Result (List Movement × Quantities)
check_nonnegative planned =
    if any negative_entry planned.1
    then err (rules "Stock operation would make stock negative")
    else ok planned

-- `_plan_document_movements`, of a document's type, warehouses and lines
unfoldable pub plan_document_movements :
    DocumentType
    → Option ℕ
    → Option ℕ
    → List DocumentLine
    → Quantities
    → Result (List Movement × Quantities)
plan_document_movements type warehouse_id destination_id lines starting = do
  w ← required_warehouse_id warehouse_id
  d ← plan_destination type destination_id
  planned ← plan_lines type w d lines starting
  check_nonnegative planned

-- `_write_stock_movements`
unfoldable pub stock_movement :
    ℕ → ℕ → MovementKind → String → DocumentType → Movement → StockMovement
stock_movement document_id version kind prefix type (p, w, delta) = record {
  product_id = p;
  warehouse_id = w;
  document_id = some document_id;
  posting_version = some version;
  movement_kind = some kind;
  quantity_delta = delta;
  reason = some (prefix, type, version);
}

unfoldable pub write_stock_movements :
    Document → ℕ → MovementKind → List Movement → String → Db → Db
write_stock_movements d version kind movements prefix db = record db {
  stock_movements =
      db.stock_movements ++ map (stock_movement d.id version kind prefix d.document_type) movements;
}

abbrev pub is_apply : Option MovementKind → Bool
is_apply none = false
is_apply (some apply) = true
is_apply (some MovementKind.reverse) = false

abbrev pub active_movement : Document → StockMovement → Bool
active_movement d m =
    same_option m.document_id (some d.id)
    && same_option m.posting_version (some d.posting_version)
    && is_apply m.movement_kind

-- `_active_posting_movements`
unfoldable pub active_posting_movements : Db → Document → List StockMovement
active_posting_movements db d = filter (active_movement d) db.stock_movements

-- `_apply_balance_quantities`
unfoldable pub apply_quantities : Quantities → List StockBalance → List StockBalance
apply_quantities [] rows = rows
apply_quantities ((k, q) ∷ qs) rows =
    apply_quantities qs
      (update_where (balance_at k) (λ (b : StockBalance). record b { quantity = q }) rows)

unfoldable pub apply_balance_quantities : Quantities → Db → Db
apply_balance_quantities qs db = record db {
  stock_balances = apply_quantities qs db.stock_balances;
}
