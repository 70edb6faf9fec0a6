-- ===== src/Documents/Posting/Ledger.antt =====
-- The stock ledger: quantities on hand and sums of stock movements.
use faethon_system.Base.{
  ℕ, ℤ, pos, ◌+ℤ◌, int_laws, neg, Bool, true, false, if◌then◌else◌, String, List, [], ◌∷◌, ◌++◌,
  map, ◌≡◌, refl, ap,
}
use faethon_system.Models.{Db, DocumentType, StockMovement, MovementKind}
use faethon_system.Documents.Stock.{Key, same_key, Movement, stock_movement}
use faethon_system.Documents.Stock.Plan.{moved}
use faethon_system.Documents.Stock.Balances.{on_hand, IsNonNegative}
use faethon_system.Documents.Posting.{movement_of, reversed}

-- The sum of a key's stock movements.
abbrev pub ledger_total : Key → List StockMovement → ℤ
ledger_total k ms = moved k (map movement_of ms)

-- What is on hand is the sum of all movements, and never negative.
pub record StockValid (db : Db) : Type 0 where
  pub balanced : (k : Key) → on_hand k db.stock_balances ≡ ledger_total k db.stock_movements
  pub nonnegative : IsNonNegative db.stock_balances

pub ledger_total-append :
    (k : Key) (ms ns : List StockMovement)
    → ledger_total k (ms ++ ns) ≡ ledger_total k ms +ℤ ledger_total k ns
ledger_total-append k [] ns = omega int_laws
ledger_total-append k (m ∷ ms) ns = rw (ledger_total-append k ms ns) (omega int_laws)

-- Stored movements are the planned ones.
pub ledger_total-written :
    (k : Key) (id version : ℕ) (kind : MovementKind) (prefix : String) (type : DocumentType)
    (ms : List Movement)
    → ledger_total k (map (stock_movement id version kind prefix type) ms) ≡ moved k ms
unfolding stock_movement
ledger_total-written k id version kind prefix type [] = refl
ledger_total-written k id version kind prefix type ((p, w, delta) ∷ ms) =
    ap (λ t. (if same_key (p, w) k then delta else pos 0) +ℤ t)
      (ledger_total-written k id version kind prefix type ms)

reverse_step :
    (b : Bool) (delta rest : ℤ)
    → (if b then neg delta else pos 0) +ℤ neg rest ≡ neg ((if b then delta else pos 0) +ℤ rest)
reverse_step true delta rest = omega int_laws
reverse_step false delta rest = omega int_laws

pub moved-reversed : (k : Key) (ms : List Movement) → moved k (map reversed ms) ≡ neg (moved k ms)
moved-reversed k [] = omega int_laws
moved-reversed k ((p, w, delta) ∷ ms) =
    rw (moved-reversed k ms) (reverse_step (same_key (p, w) k) delta (moved k ms))
