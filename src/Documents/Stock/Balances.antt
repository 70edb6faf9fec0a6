-- ===== src/Documents/Stock/Balances.antt =====
-- The stock balance rows: loading quantities from them and writing quantities back.
use faethon_system.Base.{
  ℤ, pos, ◌+ℤ◌, ◌≤ℤ◌, +ℤ-zero, Bool, true, false, ◌||◌, if◌then◌else◌, Bool-cases, Option-cases,
  inl, inr, get_or, Option, none, some, List, [], ◌∷◌, ◌++◌, any, find, update_where, All,
  All-append, ◌≡◌, refl, sym, ap, subst, ◌∙◌, arith,
}
use faethon_system.Models.{StockBalance}
use faethon_system.Documents.Stock.{
  Key, same_key, Quantities, lookup_key, Movement, balance_at, get_balance, load_quantities,
  apply_quantities,
}
use faethon_system.Documents.Stock.Keys.{
  keys_of, in_keys, Fresh, Distinct, same_key-sym, same_key_refl, same_key→eq,
}
use faethon_system.Documents.Stock.Plan.{moved, Moves, NonNegative}

-- The quantity of a key: that of its row, or zero.
abbrev pub quantity_of : Option StockBalance → ℤ
quantity_of none = pos 0
quantity_of (some b) = b.quantity

abbrev pub on_hand : Key → List StockBalance → ℤ
on_hand k rows = quantity_of (find (balance_at k) rows)

abbrev pub has_row : Key → List StockBalance → Bool
has_row k rows = any (balance_at k) rows

abbrev pub row_key : StockBalance → Key
row_key b = (b.product_id, b.warehouse_id)

balance_at-eq-same_key : (k : Key) (b : StockBalance) → balance_at k b ≡ same_key (row_key b) k
balance_at-eq-same_key (p, w) b = refl

-- a row with quantity zero at the end changes no quantity
on_hand-append_zero :
    (j : Key) (rows : List StockBalance) (b : StockBalance)
    → b.quantity ≡ pos 0
    → on_hand j (rows ++ b ∷ []) ≡ on_hand j rows
on_hand-append_zero (p, w) [] b h = ground arith
on_hand-append_zero (p, w) (r ∷ rows) b h = ground (arith, on_hand-append_zero (p, w) rows b h)

has_row-append :
    (j : Key) (rows rest : List StockBalance)
    → has_row j (rows ++ rest) ≡ (has_row j rows || has_row j rest)
has_row-append (p, w) [] rest = refl
has_row-append (p, w) (r ∷ rows) rest = ground (arith, has_row-append (p, w) rows rest)

find-has_row :
    (k : Key) (rows : List StockBalance) {b : StockBalance}
    → find (balance_at k) rows ≡ some b
    → has_row k rows ≡ true
find-has_row k [] h = ground arith
find-has_row k (r ∷ rows) {b} h = elim (Bool-cases (balance_at k r)) [
  | inl e ↦ rw e
  | inr e ↦ rw e (find-has_row k rows {b = b} (rw e at h))
]

-- What loading one key gives: its quantity, and rows that show the same quantities.
pub record Got (k : Key) (rows : List StockBalance) (r : StockBalance × List StockBalance)
    : Type 0 where
  pub quantity : r.0.quantity ≡ on_hand k rows
  pub same : (j : Key) → on_hand j r.1 ≡ on_hand j rows
  pub row : has_row k r.1 ≡ true
  pub keeps : (j : Key) → has_row j rows ≡ true → has_row j r.1 ≡ true

pub get_balance-Got : (k : Key) (rows : List StockBalance) → Got k rows (get_balance k rows)
unfolding get_balance
get_balance-Got (p, w) rows = elim (Option-cases (find (balance_at (p, w)) rows)) [
  | inl e ↦
      let b : StockBalance = record { product_id = p; warehouse_id = w; quantity = pos 0 } in
      rw (e, get_balance)
        (record {
          quantity = rw e;
          same = λ j. on_hand-append_zero j rows b refl;
          row = rw (has_row-append (p, w) rows (b ∷ [])) (ground arith);
          keeps = λ j h. rw (has_row-append j rows (b ∷ []), h);
        })
  | inr (b, e) ↦
      rw (e, get_balance)
        (record {
          quantity = rw e;
          same = λ j. refl;
          row = find-has_row (p, w) rows e;
          keeps = λ j h. h;
        })
]

-- What loading the keys gives: their quantities, and rows that show the same quantities.
pub record Loaded (ks : List Key) (rows : List StockBalance) (r : Quantities × List StockBalance)
    : Type 0 where
  pub keys : keys_of r.0 ≡ ks
  pub at : (j : Key) → lookup_key j r.0 ≡ (if in_keys j ks then some (on_hand j rows) else none)
  pub same : (j : Key) → on_hand j r.1 ≡ on_hand j rows
  pub rows_there : (j : Key) → in_keys j ks ≡ true → has_row j r.1 ≡ true
  pub keeps : (j : Key) → has_row j rows ≡ true → has_row j r.1 ≡ true

pub load_quantities-Loaded :
    (ks : List Key) (rows : List StockBalance) → Loaded ks rows (load_quantities ks rows)
unfolding load_quantities
load_quantities-Loaded [] rows = record {
  keys = refl;
  at = λ j. refl;
  same = λ j. refl;
  rows_there = λ j h. absurd (cc h);
  keeps = λ j h. h;
}
load_quantities-Loaded (k ∷ ks) rows =
    let got = get_balance-Got k rows in
    let rest = load_quantities-Loaded ks (get_balance k rows).1 in
    record {
      keys = ap (λ js. k ∷ js) rest.keys;
      at = λ j. elim (Bool-cases (same_key k j)) [
        | inl e ↦ rw (same_key-sym j k, e, got.quantity, same_key→eq k j e)
        | inr e ↦ rw (same_key-sym j k, e) (rest.at j ∙ rw (got.same j))
      ];
      same = λ j. rest.same j ∙ got.same j;
      rows_there = λ j h. elim (Bool-cases (same_key j k)) [
        | inl e ↦
            rest.keeps j (
              subst (λ i. has_row i (get_balance k rows).1 ≡ true) (sym (same_key→eq j k e))
                got.row)
        | inr e ↦ rest.rows_there j (rw e at h)
      ];
      keeps = λ j h. rest.keeps j (got.keeps j h);
    }

unfoldable pub set_quantity : Key → ℤ → List StockBalance → List StockBalance
set_quantity k q = update_where (balance_at k) (λ (b : StockBalance). record b { quantity = q })

on_hand-set_quantity_ne :
    (j k : Key) (q : ℤ) (rows : List StockBalance)
    → same_key k j ≡ false
    → on_hand j (set_quantity k q rows) ≡ on_hand j rows
unfolding set_quantity
on_hand-set_quantity_ne j k q [] h = refl
on_hand-set_quantity_ne (jp, jw) (kp, kw) q (b ∷ rows) h =
    ground (arith, on_hand-set_quantity_ne (jp, jw) (kp, kw) q rows h)

on_hand-set_quantity_self :
    (k : Key) (q : ℤ) (rows : List StockBalance)
    → has_row k rows ≡ true
    → on_hand k (set_quantity k q rows) ≡ q
unfolding set_quantity
on_hand-set_quantity_self k q [] h = absurd (cc h)
on_hand-set_quantity_self (kp, kw) q (b ∷ rows) h =
    ground (arith, on_hand-set_quantity_self (kp, kw) q rows)

pub on_hand-set_quantity :
    (j k : Key) (q : ℤ) (rows : List StockBalance)
    → has_row k rows ≡ true
    → on_hand j (set_quantity k q rows) ≡ (if same_key k j then q else on_hand j rows)
on_hand-set_quantity j k q rows h = elim (Bool-cases (same_key k j)) [
  | inl e ↦ rw (e, ← same_key→eq k j e, on_hand-set_quantity_self k q rows h)
  | inr e ↦ rw (e, on_hand-set_quantity_ne j k q rows e)
]

pub has_row-set_quantity :
    (j k : Key) (q : ℤ) (rows : List StockBalance)
    → has_row j (set_quantity k q rows) ≡ has_row j rows
unfolding set_quantity
has_row-set_quantity j k q [] = refl
has_row-set_quantity (jp, jw) (kp, kw) q (b ∷ rows) =
    ground (arith, has_row-set_quantity (jp, jw) (kp, kw) q rows)

lookup_key-Fresh : (k : Key) (qs : Quantities) → Fresh k (keys_of qs) → lookup_key k qs ≡ none
lookup_key-Fresh k [] h = refl
lookup_key-Fresh k ((j, q) ∷ qs) h = rw (same_key-sym j k, h.0, lookup_key-Fresh k qs h.1)

or_right : (a b : Bool) → b ≡ true → (a || b) ≡ true
or_right a b h = ground arith

-- Writing a dict of quantities back, where each of its keys has a row.
pub on_hand-apply_quantities :
    (j : Key) (qs : Quantities) (rows : List StockBalance)
    → Distinct (keys_of qs)
    → ((k : Key) → in_keys k (keys_of qs) ≡ true → has_row k rows ≡ true)
    → on_hand j (apply_quantities qs rows) ≡ get_or (lookup_key j qs) (on_hand j rows)
unfolding apply_quantities set_quantity
on_hand-apply_quantities j [] rows d there = refl
on_hand-apply_quantities j ((k, q) ∷ qs) rows d there =
    let here : has_row k rows ≡ true = there k (rw (same_key_refl k) refl) in
    let later = on_hand-apply_quantities j qs (set_quantity k q rows) d.1 (λ i h.
      has_row-set_quantity i k q rows
      ∙ there i (or_right (same_key i k) (in_keys i (keys_of qs)) h)) in
    later ∙ elim (Bool-cases (same_key k j)) [
      | inl e ↦
          rw (e, ← same_key→eq k j e, lookup_key-Fresh k qs d.0)
            (on_hand-set_quantity_self k q rows here)
      | inr e ↦ rw (e, on_hand-set_quantity_ne j k q rows e)
    ]

abbrev pub IsNonNegative : List StockBalance → Type 0
IsNonNegative rows = All (λ (b : StockBalance). pos 0 ≤ℤ b.quantity) rows

pub set_quantity-IsNonNegative :
    (k : Key) (q : ℤ) (rows : List StockBalance)
    → pos 0 ≤ℤ q
    → IsNonNegative rows
    → IsNonNegative (set_quantity k q rows)
unfolding set_quantity
set_quantity-IsNonNegative k q [] h hs = tt
set_quantity-IsNonNegative k q (b ∷ rows) h hs =
    (ground arith, set_quantity-IsNonNegative k q rows h hs.1)

pub apply_quantities-IsNonNegative :
    (qs : Quantities) (rows : List StockBalance)
    → NonNegative qs
    → IsNonNegative rows
    → IsNonNegative (apply_quantities qs rows)
unfolding apply_quantities set_quantity
apply_quantities-IsNonNegative [] rows n hs = hs
apply_quantities-IsNonNegative ((k, q) ∷ qs) rows n hs =
    apply_quantities-IsNonNegative qs (set_quantity k q rows) n.1
      (set_quantity-IsNonNegative k q rows n.0 hs)

pub get_balance-IsNonNegative :
    (k : Key) (rows : List StockBalance) → IsNonNegative rows → IsNonNegative (get_balance k rows).1
unfolding get_balance
get_balance-IsNonNegative (p, w) rows hs = elim (Option-cases (find (balance_at (p, w)) rows)) [
  | inl e ↦
      rw (e, get_balance)
        (All-append (λ (b : StockBalance). pos 0 ≤ℤ b.quantity) rows _ hs (omega arith, tt))
  | inr (b, e) ↦ rw (e, get_balance) hs
]

pub load_quantities-IsNonNegative :
    (ks : List Key) (rows : List StockBalance)
    → IsNonNegative rows
    → IsNonNegative (load_quantities ks rows).1
unfolding load_quantities
load_quantities-IsNonNegative [] rows hs = hs
load_quantities-IsNonNegative ((p, w) ∷ ks) rows hs =
    load_quantities-IsNonNegative ks (get_balance (p, w) rows).1
      (get_balance-IsNonNegative (p, w) rows hs)

-- Load the quantities of some keys, move them, and write them back: what is on hand changes by the
-- movements, at every key.
pub write_back :
    (j : Key) (ks : List Key) (rows : List StockBalance) (ms : List Movement) (final : Quantities)
    → Distinct ks
    → Moves (load_quantities ks rows).0 ms final
    → on_hand j (apply_quantities final (load_quantities ks rows).1) ≡ on_hand j rows +ℤ moved j ms
write_back j ks rows ms final d m =
    let l = load_quantities-Loaded ks rows in
    let keys : keys_of final ≡ ks = m.keys ∙ l.keys in
    on_hand-apply_quantities j final (load_quantities ks rows).1 (subst Distinct (sym keys) d)
      (λ k h. l.rows_there k (subst (λ js. in_keys k js ≡ true) keys h))
    ∙ rw (m.at j, l.same j)
        (elim (Bool-cases (in_keys j ks)) [
          | inl e ↦ rw (l.at j, e)
          | inr e ↦
              let absent : lookup_key j (load_quantities ks rows).0 ≡ none = l.at j ∙ rw e in
              rw (absent, m.only j absent) (sym (+ℤ-zero (on_hand j rows)))
        ])

on_hand_nonneg : (k : Key) (rows : List StockBalance) → IsNonNegative rows → pos 0 ≤ℤ on_hand k rows
on_hand_nonneg k [] hs = omega arith
on_hand_nonneg k (b ∷ rows) hs = elim (Bool-cases (balance_at k b)) [
  | inl e ↦ rw e (hs.0)
  | inr e ↦ rw e (on_hand_nonneg k rows hs.1)
]

pub load_quantities-NonNegative :
    (ks : List Key) (rows : List StockBalance)
    → IsNonNegative rows
    → NonNegative (load_quantities ks rows).0
unfolding load_quantities
load_quantities-NonNegative [] rows hs = tt
load_quantities-NonNegative (k ∷ ks) rows hs = (
  rw (get_balance-Got k rows).quantity (on_hand_nonneg k rows hs),
  load_quantities-NonNegative ks (get_balance k rows).1 (get_balance-IsNonNegative k rows hs),
)
