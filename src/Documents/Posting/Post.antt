-- ===== src/Documents/Posting/Post.antt =====
-- `post_document`: what a successful call does to the stock.
use faethon_system.Base.{
  ℕ, ◌+◌, ◌+ℤ◌, any, List, [], ◌++◌, map, Option, ok, ◌>>=◌, >>=-eq-ok, >>-eq-ok, ok-injective,
  rules_as_conflict, rules_as_conflict-eq-ok, ◌≡◌, refl, subst, ◌∙◌, Bool-cases, inl, inr, Text,
  ◌&&◌, ◌==◌,
}
use faethon_system.Base.Sort.{sort}
use faethon_system.Models.{
  Db, Document, DocumentLine, DocumentType, incoming, outgoing, adjustment, transfer, StockMovement,
  apply, put_document, write_audit,
}
use faethon_system.Logistics.{create_tasks_for_document}
use faethon_system.Logistics.Frame.{
  SameBooks, SameBooks-refl, SameBooks-trans, write_audit-SameBooks,
  create_tasks_for_document-SameBooks,
}
use faethon_system.Documents.Stock.{
  Key, key_before, Quantities, Movement, document_stock_keys, load_quantities,
  load_balance_quantities, plan_document_movements, add_keys, required_warehouse_id,
  required_destination_id, line_keys, stock_movement, write_stock_movements, apply_quantities,
  apply_balance_quantities,
}
use faethon_system.Documents.Stock.Keys.{Distinct, add_keys-Distinct, sort-Distinct}
use faethon_system.Documents.Stock.Plan.{moved, Moves, NonNegative, plan_document_movements-Moves}
use faethon_system.Documents.Stock.Balances.{
  on_hand, IsNonNegative, write_back, apply_quantities-IsNonNegative, load_quantities-IsNonNegative,
}
use faethon_system.Documents.Posting.{
  Planned, as_posted, first_reason, check_postable, store_revision, finish_post, post_document,
}
use faethon_system.Documents.Drafts.{load_document}
use faethon_system.Documents.Posting.Ledger.{
  StockValid, ledger_total, ledger_total-append, ledger_total-written,
}

pub store_revision-SameBooks :
    (d : Document) (version : ℕ) (reason : Text) (db : Db)
    → SameBooks db (store_revision d version reason db)
unfolding store_revision
store_revision-SameBooks d version reason db =
    elim (Bool-cases (any (λ r. r.document_id == d.id && r.version == version) db.revisions)) [
      | inl e ↦ rw (e, store_revision) (SameBooks-refl db)
      | inr e ↦
          rw (e, store_revision)
            (record {
              documents = refl;
              stock_balances = refl;
              stock_movements = refl;
              payments = refl;
              cash_operations = refl;
            })
    ]

single_keys-Distinct :
    (w : Option ℕ) (lines : List DocumentLine) (ks : List Key)
    → (required_warehouse_id w >>= λ w'. ok (add_keys (line_keys w' lines) [])) ≡ ok ks
    → Distinct ks
single_keys-Distinct w lines ks h =
    let (w', e0, h0) = >>=-eq-ok (required_warehouse_id w) _ h in
    subst Distinct (ok-injective h0) (add_keys-Distinct (line_keys w' lines) [] tt)

pub document_stock_keys-Distinct :
    (type : DocumentType) (w d : Option ℕ) (lines : List DocumentLine) (ks : List Key)
    → document_stock_keys type w d lines ≡ ok ks
    → Distinct ks
unfolding document_stock_keys
document_stock_keys-Distinct transfer w d lines ks h =
    let (w', e0, h0) = >>=-eq-ok (required_warehouse_id w) _ h in
    let (d', e1, h1) = >>=-eq-ok (required_destination_id d) _ h0 in
    subst Distinct (ok-injective h1) (
      add_keys-Distinct (line_keys d' lines) (add_keys (line_keys w' lines) [])
        (add_keys-Distinct (line_keys w' lines) [] tt))
document_stock_keys-Distinct incoming w d lines ks h = single_keys-Distinct w lines ks h
document_stock_keys-Distinct outgoing w d lines ks h = single_keys-Distinct w lines ks h
document_stock_keys-Distinct adjustment w d lines ks h = single_keys-Distinct w lines ks h
document_stock_keys-Distinct DocumentType.other w d lines ks h = single_keys-Distinct w lines ks h

-- The stock of a session after quantities are loaded, moved and written back, and the movements
-- are stored.
pub record Restocked (db : Db) (ms : List Movement) (db' : Db) : Type 0 where
  pub on_hand_moves :
      (k : Key) → on_hand k db'.stock_balances ≡ on_hand k db.stock_balances +ℤ moved k ms
  pub ledger_moves :
      (k : Key)
      → ledger_total k db'.stock_movements ≡ ledger_total k db.stock_movements +ℤ moved k ms
  pub stays_nonnegative : IsNonNegative db.stock_balances → IsNonNegative db'.stock_balances

pub Restocked-StockValid :
    (db : Db) (ms : List Movement) (db' : Db) → Restocked db ms db' → StockValid db → StockValid db'
Restocked-StockValid db ms db' r v = record {
  balanced = λ k. r.on_hand_moves k ∙ rw (r.ledger_moves k, v.balanced k);
  nonnegative = r.stays_nonnegative v.nonnegative;
}

-- the session before the revision, the audit entry and the tasks of a posting
abbrev with_post : Document → List Movement → Quantities → Db → Db
with_post d ms final db = put_document (as_posted d) (
    write_stock_movements d (d.posting_version + 1) apply ms "post"
      (apply_balance_quantities final db))

finish_post-SameBooks :
    (d : Document) (ms : List Movement) (final : Quantities) (db : Db)
    → SameBooks (with_post d ms final db) (finish_post d (ms, final) db).1
unfolding finish_post
finish_post-SameBooks d ms final db =
    let d' = as_posted d in
    let db2 = with_post d ms final db in
    let db3 = store_revision d' (d.posting_version + 1) first_reason db2 in
    let db4 = write_audit db3 "document" d.id "post" in
    SameBooks-trans db2 db3 (create_tasks_for_document d' db4)
      (store_revision-SameBooks d' (d.posting_version + 1) first_reason db2)
      (SameBooks-trans db3 db4 (create_tasks_for_document d' db4)
        (write_audit-SameBooks db3 "document" d.id "post")
        (create_tasks_for_document-SameBooks d' db4))

-- The books of a posting: the written balances and the appended movements.
finish_post-books :
    (d : Document) (ms : List Movement) (final : Quantities) (db : Db)
    → let db' = (finish_post d (ms, final) db).1 in
      (db'.stock_balances ≡ apply_quantities final db.stock_balances)
      × (db'.stock_movements
          ≡ db.stock_movements
            ++ map (stock_movement d.id (d.posting_version + 1) apply "post" d.document_type) ms)
unfolding apply_balance_quantities write_stock_movements
finish_post-books d ms final db =
    let books = finish_post-SameBooks d ms final db in (books.stock_balances, books.stock_movements)

-- A posting touches one document and no payment.
pub finish_post-kept :
    (d : Document) (ms : List Movement) (final : Quantities) (db : Db)
    → let db' = (finish_post d (ms, final) db).1 in
      (db'.documents ≡ (put_document (as_posted d) db).documents)
      × (db'.payments ≡ db.payments)
      × (db'.stock_movements
          ≡ db.stock_movements
            ++ map (stock_movement d.id (d.posting_version + 1) apply "post" d.document_type) ms)
unfolding apply_balance_quantities write_stock_movements
finish_post-kept d ms final db =
    let books = finish_post-SameBooks d ms final db in
    (books.documents, books.payments, books.stock_movements)

-- What a successful call has done, step by step.
pub record Posted (db : Db) (id : ℕ) (r : Document × Db) : Type 0 where
  pub d : Document
  pub loaded : load_document db id ≡ ok d
  pub checked : check_postable db d ≡ ok tt
  pub keys : List Key
  pub distinct : Distinct keys
  pub planned : Planned
  pub plans :
      plan_document_movements d.document_type d.warehouse_id d.destination_warehouse_id d.lines
        (load_balance_quantities db keys).0
      ≡ ok planned
  pub result : finish_post d planned (load_balance_quantities db keys).1 ≡ r

pub post-Posted :
    (db : Db) (id : ℕ) (r : Document × Db) → post_document db id ≡ ok r → Posted db id r
unfolding post_document
post-Posted db id r h =
    let (d, e0, h0) = >>=-eq-ok (load_document db id) _ h in
    let (e1, h1) = >>-eq-ok (check_postable db d) _ h0 in
    let (keys, e2, h2) =
      >>=-eq-ok
        (document_stock_keys d.document_type d.warehouse_id d.destination_warehouse_id d.lines) _
        h1 in
    let plan =
      plan_document_movements d.document_type d.warehouse_id d.destination_warehouse_id d.lines
        (load_balance_quantities db keys).0 in
    let (planned, e3, h3) = >>=-eq-ok (rules_as_conflict plan) _ h2 in
    record {
      d = d;
      loaded = e0;
      checked = e1;
      keys = keys;
      distinct =
          document_stock_keys-Distinct d.document_type d.warehouse_id d.destination_warehouse_id
            d.lines keys e2;
      planned = planned;
      plans = rules_as_conflict-eq-ok plan e3;
      result = ok-injective h3;
    }

-- Writing moved quantities back and storing the movements restocks the session.
pub restock :
    (db : Db) (ks : List Key) (ms : List Movement) (final : Quantities)
    (stored : List StockMovement) (db' : Db)
    → Distinct ks
    → Moves (load_balance_quantities db ks).0 ms final
    → NonNegative final
    → db'.stock_balances ≡ apply_quantities final (load_balance_quantities db ks).1.stock_balances
    → db'.stock_movements ≡ db.stock_movements ++ stored
    → ((k : Key) → ledger_total k stored ≡ moved k ms)
    → Restocked db ms db'
unfolding load_balance_quantities
restock db ks ms final stored db' d m n balances movements totals = record {
  on_hand_moves = λ k.
      rw balances
        (write_back k (sort key_before ks) db.stock_balances ms final (sort-Distinct ks d) m);
  ledger_moves = λ k. rw (movements, ledger_total-append k db.stock_movements stored, totals k);
  stays_nonnegative = λ h. rw balances (
      apply_quantities-IsNonNegative final
        (load_quantities (sort key_before ks) db.stock_balances).1 n
        (load_quantities-IsNonNegative (sort key_before ks) db.stock_balances h));
}

-- Posting moves what is on hand, and the stock ledger with it, by the document's movements.
pub post_document-Restocked :
    (db : Db) (id : ℕ) (r : Document × Db) (h : post_document db id ≡ ok r)
    → Restocked db (post-Posted db id r h).planned.0 r.1
unfolding load_balance_quantities
post_document-Restocked db id r h =
    let p = post-Posted db id r h in
    let (moves, nonneg) =
      plan_document_movements-Moves p.d.document_type p.d.warehouse_id p.d.destination_warehouse_id
        p.d.lines (load_balance_quantities db p.keys).0 p.planned p.plans in
    let books =
      finish_post-books p.d p.planned.0 p.planned.1 (load_balance_quantities db p.keys).1 in
    subst (λ r. Restocked db p.planned.0 r.1) p.result
      (restock db p.keys p.planned.0 p.planned.1 _ _ p.distinct moves nonneg books.0 books.1 (λ k.
        ledger_total-written k p.d.id (p.d.posting_version + 1) apply "post" p.d.document_type
          p.planned.0))

-- In a session with valid stock, where every quantity on hand is the sum of its stock movements
-- and none is negative, a successful post_document leaves valid stock.
pub post_document-StockValid :
    (db : Db) (id : ℕ) (r : Document × Db)
    → post_document db id ≡ ok r
    → StockValid db
    → StockValid r.1
post_document-StockValid db id r h =
    Restocked-StockValid db (post-Posted db id r h).planned.0 r.1
      (post_document-Restocked db id r h)
