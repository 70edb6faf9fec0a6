-- ===== src/Documents/Posting/Undo.antt =====
-- `cancel_document` and `repost_document`: what a successful call does to the stock.
use faethon_system.Base.{
  not-false, ℕ, ℤ, pos, ◌-ℤ◌, neg, ◌≤ℤ◌, ltb_ℤ, ltb_ℤ_false→le, -ℤ-eq-+ℤ-neg, Bool, true, false,
  not, List, [], ◌∷◌, ◌++◌, map, some, ok, raise_if, raise_if-eq-ok, >>=-eq-ok, >>-eq-ok,
  ok-injective, rules_as_conflict, rules_as_conflict-eq-ok, ◌≡◌, refl, subst, Bool-cases, inl, inr,
  String,
}
use faethon_system.Base.Sort.{sort}
use faethon_system.Models.{Db, Document, Status, MovementKind, put_document, write_audit}
use faethon_system.Logistics.{is_posted, cancel_active_tasks_for_document_version}
use faethon_system.Logistics.Frame.{
  SameBooks, SameBooks-trans, write_audit-SameBooks, cancel_active_tasks-SameBooks,
}
use faethon_system.Documents.Rules.{validate_document_warehouses}
use faethon_system.Documents.Stock.{
  Key, same_key, key_before, Quantities, lookup_key, set_key, read_key, Movement, movement_key,
  load_balance_quantities, add_keys, stock_movement, write_stock_movements, apply_quantities,
  apply_balance_quantities, active_posting_movements,
}
use faethon_system.Documents.Stock.Keys.{add_keys-Distinct, read_key-eq-ok}
use faethon_system.Documents.Stock.Plan.{Moves, Moves-refl, Moves-trans, Moves-set_key, NonNegative}
use faethon_system.Documents.Stock.Balances.{load_quantities-NonNegative}
use faethon_system.Documents.Posting.{
  is_empty_list, active_allocations, movement_of, reversed, rules_if, take_back, take_back_checked,
  finish_cancel, cancel_reason, cancel_document,
}
use faethon_system.Documents.Drafts.{load_document}
use faethon_system.Documents.Posting.Ledger.{StockValid, ledger_total-written}
use faethon_system.Documents.Posting.Post.{Restocked, Restocked-StockValid, restock}

-- taking one movement back is moving by its reverse
take_back_step :
    (m : Movement) (q : ℤ) (qs : Quantities)
    → lookup_key (movement_key m) qs ≡ some q
    → Moves qs (reversed m ∷ []) (set_key (movement_key m) (q -ℤ m.2) qs)
take_back_step (p, w, delta) q qs h =
    rw (-ℤ-eq-+ℤ-neg q delta) (Moves-set_key p w q (neg delta) qs h)

pub take_back-Moves :
    (ms : List Movement) (qs qs' : Quantities)
    → take_back ms qs ≡ ok qs'
    → Moves qs (map reversed ms) qs'
unfolding take_back
take_back-Moves [] qs qs' h = subst (Moves qs []) (ok-injective h) (Moves-refl qs)
take_back-Moves (m ∷ ms) qs qs' h =
    let (q, e, h0) = >>=-eq-ok (read_key (movement_key m) qs) _ h in
    let next = set_key (movement_key m) (q -ℤ m.2) qs in
    Moves-trans qs (reversed m ∷ []) next (map reversed ms) qs'
      (take_back_step m q qs (read_key-eq-ok (movement_key m) qs e))
      (take_back-Moves ms next qs' h0)

set_key-NonNegative :
    (k : Key) (v : ℤ) (qs : Quantities) → pos 0 ≤ℤ v → NonNegative qs → NonNegative (set_key k v qs)
set_key-NonNegative k v [] h hs = (h, tt)
set_key-NonNegative k v ((j, q) ∷ qs) h hs = elim (Bool-cases (same_key j k)) [
  | inl e ↦ rw e (h, hs.1)
  | inr e ↦ rw e (hs.0, set_key-NonNegative k v qs h hs.1)
]

rules_if-eq-ok : (c : Bool) (d : String) → rules_if c d ≡ ok tt → c ≡ false
rules_if-eq-ok true d h = absurd (cc h)
rules_if-eq-ok false d h = refl

-- With the test after each movement the quantities stay nonnegative too.
pub take_back_checked-Moves :
    (ms : List Movement) (qs qs' : Quantities)
    → take_back_checked ms qs ≡ ok qs'
    → NonNegative qs
    → Moves qs (map reversed ms) qs' × NonNegative qs'
unfolding take_back_checked
take_back_checked-Moves [] qs qs' h n =
    subst (λ r. Moves qs [] r × NonNegative r) (ok-injective h) (Moves-refl qs, n)
take_back_checked-Moves (m ∷ ms) qs qs' h n =
    let (q, e, h0) = >>=-eq-ok (read_key (movement_key m) qs) _ h in
    let (e1, h1) =
      >>-eq-ok (rules_if (ltb_ℤ (q -ℤ m.2) (pos 0)) "Cancellation would make stock negative") _
        h0 in
    let next = set_key (movement_key m) (q -ℤ m.2) qs in
    let (moves, nonneg) = take_back_checked-Moves ms next qs' h1 (
      set_key-NonNegative (movement_key m) (q -ℤ m.2) qs
        (ltb_ℤ_false→le (q -ℤ m.2) (pos 0)
          (rules_if-eq-ok (ltb_ℤ (q -ℤ m.2) (pos 0)) "Cancellation would make stock negative" e1))
        n) in
    (
      Moves-trans qs (reversed m ∷ []) next (map reversed ms) qs'
          (take_back_step m q qs (read_key-eq-ok (movement_key m) qs e)) moves,
      nonneg,
    )

abbrev pub as_cancelled : Document → Document
as_cancelled d = record d { status = Status.cancelled }

-- the session before the tasks and the audit entry of a cancellation
abbrev with_cancel : Document → List Movement → Quantities → Db → Db
with_cancel d ms final db = put_document (as_cancelled d) (
    write_stock_movements d d.posting_version MovementKind.reverse (map reversed ms) "cancel"
      (apply_balance_quantities final db))

finish_cancel-SameBooks :
    (d : Document) (ms : List Movement) (final : Quantities) (now : ℕ) (db : Db)
    → SameBooks (with_cancel d ms final db) (finish_cancel d ms final now db).1
unfolding finish_cancel
finish_cancel-SameBooks d ms final now db =
    let db2 = with_cancel d ms final db in
    let db3 =
      cancel_active_tasks_for_document_version d.id d.posting_version cancel_reason now db2 in
    SameBooks-trans db2 db3 (write_audit db3 "document" d.id "cancel")
      (cancel_active_tasks-SameBooks d.id d.posting_version cancel_reason now db2)
      (write_audit-SameBooks db3 "document" d.id "cancel")

finish_cancel-books :
    (d : Document) (ms : List Movement) (final : Quantities) (now : ℕ) (db : Db)
    → let db' = (finish_cancel d ms final now db).1 in
      (db'.stock_balances ≡ apply_quantities final db.stock_balances)
      × (db'.stock_movements
          ≡ db.stock_movements
            ++ map
                (stock_movement d.id d.posting_version MovementKind.reverse "cancel"
                  d.document_type)
                (map reversed ms))
unfolding apply_balance_quantities write_stock_movements
finish_cancel-books d ms final now db =
    let books = finish_cancel-SameBooks d ms final now db in
    (books.stock_balances, books.stock_movements)

-- A cancellation touches one document and no payment.
pub finish_cancel-kept :
    (d : Document) (ms : List Movement) (final : Quantities) (now : ℕ) (db : Db)
    → let db' = (finish_cancel d ms final now db).1 in
      (db'.documents ≡ (put_document (as_cancelled d) db).documents) × (db'.payments ≡ db.payments)
unfolding apply_balance_quantities write_stock_movements
finish_cancel-kept d ms final now db =
    let books = finish_cancel-SameBooks d ms final now db in (books.documents, books.payments)

-- the active movements of a document
abbrev pub active_of : Db → Document → List Movement
active_of db d = map movement_of (active_posting_movements db d)

-- What a successful `cancel_document` has done, step by step.
pub record Cancelled (db : Db) (id now : ℕ) (r : Document × Db) : Type 0 where
  pub d : Document
  pub loaded : load_document db id ≡ ok d
  pub posted : is_posted d.status ≡ true
  pub unallocated : is_empty_list (active_allocations d.id db.payments) ≡ true
  pub final : Quantities
  pub takes_back :
      take_back_checked
        (active_of db d)
        (load_balance_quantities db (add_keys (map movement_key (active_of db d)) [])).0
      ≡ ok final
  pub result :
      finish_cancel d
        (active_of db d)
        final
        now
        (load_balance_quantities db (add_keys (map movement_key (active_of db d)) [])).1
      ≡ r

pub cancel-Cancelled :
    (db : Db) (id now : ℕ) (r : Document × Db)
    → cancel_document db id now ≡ ok r
    → Cancelled db id now r
unfolding cancel_document
cancel-Cancelled db id now r h =
    let (d, e0, h0) = >>=-eq-ok (load_document db id) _ h in
    let (e1, h1) =
      >>-eq-ok (raise_if (not (is_posted d.status)) 409 "Only posted documents can be cancelled") _
        h0 in
    let (e2, h2) =
      >>-eq-ok
        (raise_if (not (is_empty_list (active_allocations d.id db.payments))) 409
          "Reallocate posted payments before cancelling document")
        _ h1 in
    let (e3, h3) =
      >>-eq-ok
        (validate_document_warehouses db d.document_type d.warehouse_id d.destination_warehouse_id)
        _ h2 in
    let (e4, h4) =
      >>-eq-ok
        (raise_if (is_empty_list (active_of db d)) 409
          "Posted document has no active stock movements")
        _ h3 in
    let back =
      take_back_checked (active_of db d)
        (load_balance_quantities db (add_keys (map movement_key (active_of db d)) [])).0 in
    let (final, e5, h5) = >>=-eq-ok (rules_as_conflict back) _ h4 in
    record {
      d = d;
      loaded = e0;
      posted = not-false (is_posted d.status) (
          raise_if-eq-ok (not (is_posted d.status)) 409 "Only posted documents can be cancelled"
            e1);
      unallocated =
          not-false (is_empty_list (active_allocations d.id db.payments))
            (raise_if-eq-ok _ 409 "Reallocate posted payments before cancelling document" e2);
      final = final;
      takes_back = rules_as_conflict-eq-ok back e5;
      result = ok-injective h5;
    }

-- Cancelling takes the document's active movements back, on hand and in the stock ledger.
pub cancel_document-Restocked :
    (db : Db) (id now : ℕ) (r : Document × Db) (h : cancel_document db id now ≡ ok r)
    → StockValid db
    → Restocked db (map reversed (active_of db (cancel-Cancelled db id now r h).d)) r.1
unfolding load_balance_quantities
cancel_document-Restocked db id now r h v =
    let c = cancel-Cancelled db id now r h in
    let ms = active_of db c.d in
    let keys = add_keys (map movement_key ms) [] in
    let (moves, nonneg) =
      take_back_checked-Moves ms (load_balance_quantities db keys).0 c.final c.takes_back
        (load_quantities-NonNegative (sort key_before keys) db.stock_balances v.nonnegative) in
    let books = finish_cancel-books c.d ms c.final now (load_balance_quantities db keys).1 in
    subst (λ r. Restocked db (map reversed ms) r.1) c.result
      (restock db keys (map reversed ms) c.final _ _ (add_keys-Distinct (map movement_key ms) [] tt)
        moves nonneg books.0 books.1
        (λ k.
          ledger_total-written k c.d.id c.d.posting_version MovementKind.reverse "cancel"
            c.d.document_type (map reversed ms)))

-- In a session with valid stock, a successful cancel_document leaves valid stock.
pub cancel_document-StockValid :
    (db : Db) (id now : ℕ) (r : Document × Db)
    → cancel_document db id now ≡ ok r
    → StockValid db
    → StockValid r.1
cancel_document-StockValid db id now r h v =
    Restocked-StockValid db (map reversed (active_of db (cancel-Cancelled db id now r h).d)) r.1
      (cancel_document-Restocked db id now r h v) v
