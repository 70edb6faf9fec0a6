-- ===== src/Documents/Posting/Repost.antt =====
-- `repost_document`: what a successful call does to the stock.
use faethon_system.Base.{
  not-false, ℕ, ◌+◌, ◌+ℤ◌, true, not, map, List, [], ◌++◌, ++-assoc, ok, raise_if, >>=-eq-ok,
  >>-eq-ok, raise_if-eq-ok, ok-injective, rules_as_conflict-eq-ok, ◌≡◌, sym, ap₂, subst, ◌∙◌, strip,
  length, ltb, Text,
}
use faethon_system.Models.{
  Db, Document, StockMovement, MovementKind, apply, put_document, write_audit,
}
use faethon_system.Logistics.{
  is_posted, create_tasks_for_document, cancel_active_tasks_for_document_version,
}
use faethon_system.Logistics.Frame.{
  SameBooks, SameBooks-trans, write_audit-SameBooks, cancel_active_tasks-SameBooks,
  create_tasks_for_document-SameBooks,
}
use faethon_system.Documents.Numbers.{number_taken}
use faethon_system.Documents.Stock.{
  Key, Quantities, Movement, movement_key, load_balance_quantities, add_keys, document_stock_keys,
  plan_document_movements, stock_movement, write_stock_movements, apply_quantities,
  apply_balance_quantities,
}
use faethon_system.Documents.Stock.Keys.{Distinct, add_keys-Distinct}
use faethon_system.Documents.Stock.Plan.{
  moved, Moves-trans, plan_document_movements-Moves, moved-append,
}
use faethon_system.Documents.Posting.{
  Planned, DocumentRepost, is_empty_list, reversed, rules_if, take_back, store_revision,
  build_repost_candidate, validate_repost_allocations, finish_repost, repost_reason,
  recovered_reason, repost_transaction, repost_document,
}
use faethon_system.Documents.Drafts.{load_document}
use faethon_system.Documents.Posting.Ledger.{
  StockValid, ledger_total, ledger_total-append, ledger_total-written,
}
use faethon_system.Documents.Posting.Post.{
  Restocked, Restocked-StockValid, restock, store_revision-SameBooks,
}
use faethon_system.Documents.Posting.Undo.{take_back-Moves, active_of}
use faethon_system.Documents.Posting.Frame.{build-Candidate}

abbrev pub reposted : Document → Document → Document
reposted d candidate = record candidate { posting_version = d.posting_version + 1 }

-- the stored movements of a repost
abbrev pub repost_rows : Document → Document → List Movement → List Movement → List StockMovement
repost_rows d candidate old ms =
    map
      (stock_movement d.id d.posting_version MovementKind.reverse "repost_reverse" d.document_type)
      (map reversed old)
    ++ map
        (stock_movement candidate.id (d.posting_version + 1) apply "repost_apply"
          candidate.document_type)
        ms

-- the session before the revision, the audit entry and the tasks of a repost
abbrev with_repost : Document → Document → List Movement → List Movement → Quantities → Db → Db
with_repost d candidate old ms final db =
    let db' =
      write_stock_movements d d.posting_version MovementKind.reverse (map reversed old)
        "repost_reverse" (apply_balance_quantities final db) in
    write_stock_movements (reposted d candidate) (d.posting_version + 1) apply ms "repost_apply"
      (put_document (reposted d candidate) db')

finish_repost-SameBooks :
    (d candidate : Document) (reason : Text) (old ms : List Movement) (final : Quantities) (now : ℕ)
    (db : Db)
    → SameBooks
        (with_repost d candidate old ms final db)
        (finish_repost d candidate reason old (ms, final) now db).1
unfolding finish_repost
finish_repost-SameBooks d candidate reason old ms final now db =
    let version = d.posting_version + 1 in
    let d' = reposted d candidate in
    let db3 = with_repost d candidate old ms final db in
    let db4 = store_revision d' version reason db3 in
    let db5 = write_audit db4 "document" d.id "repost" in
    let db6 =
      cancel_active_tasks_for_document_version d.id d.posting_version repost_reason now db5 in
    SameBooks-trans db3 db4 (create_tasks_for_document d' db6)
      (store_revision-SameBooks d' version reason db3)
      (SameBooks-trans db4 db5 (create_tasks_for_document d' db6)
        (write_audit-SameBooks db4 "document" d.id "repost")
        (SameBooks-trans db5 db6 (create_tasks_for_document d' db6)
          (cancel_active_tasks-SameBooks d.id d.posting_version repost_reason now db5)
          (create_tasks_for_document-SameBooks d' db6)))

finish_repost-books :
    (d candidate : Document) (reason : Text) (old ms : List Movement) (final : Quantities) (now : ℕ)
    (db : Db)
    → let db' = (finish_repost d candidate reason old (ms, final) now db).1 in
      (db'.stock_balances ≡ apply_quantities final db.stock_balances)
      × (db'.stock_movements ≡ db.stock_movements ++ repost_rows d candidate old ms)
unfolding apply_balance_quantities write_stock_movements
finish_repost-books d candidate reason old ms final now db =
    let books = finish_repost-SameBooks d candidate reason old ms final now db in
    (books.stock_balances, books.stock_movements ∙ ++-assoc db.stock_movements _ _)

-- A correction touches one document and no payment.
pub finish_repost-kept :
    (d candidate : Document) (reason : Text) (old : List Movement) (planned : Planned) (now : ℕ)
    (db : Db)
    → let db' = (finish_repost d candidate reason old planned now db).1 in
      (db'.documents ≡ (put_document (reposted d candidate) db).documents)
      × (db'.payments ≡ db.payments)
unfolding apply_balance_quantities write_stock_movements
finish_repost-kept d candidate reason old (ms, final) now db =
    let books = finish_repost-SameBooks d candidate reason old ms final now db in
    (books.documents, books.payments)

-- What a successful transaction has done, step by step.
pub record Reposted (db : Db) (d : Document) (payload : DocumentRepost) (now : ℕ)
    (r : Document × Db) : Type 0 where
  pub base : Db
  pub base_books : SameBooks db base
  pub candidate : Document
  pub same_id : candidate.id ≡ d.id
  pub same_status : candidate.status ≡ d.status
  pub allocations : validate_repost_allocations base d candidate ≡ ok tt
  pub keys : List Key
  pub distinct : Distinct keys
  pub baseline : Quantities
  pub takes_back : take_back (active_of base d) (load_balance_quantities base keys).0 ≡ ok baseline
  pub planned : Planned
  pub plans :
      plan_document_movements candidate.document_type candidate.warehouse_id
        candidate.destination_warehouse_id candidate.lines baseline
      ≡ ok planned
  pub result :
      finish_repost d candidate
        (strip payload.reason)
        (active_of base d)
        planned
        now
        (load_balance_quantities base keys).1
      ≡ r

repost_transaction-Reposted :
    (db : Db) (d : Document) (payload : DocumentRepost) (now : ℕ) (r : Document × Db)
    → repost_transaction db d payload now ≡ ok r
    → Reposted db d payload now r
unfolding repost_transaction
repost_transaction-Reposted db d payload now r h =
    let db1 = store_revision d d.posting_version recovered_reason db in
    let (built, e0, h0) = >>=-eq-ok (build_repost_candidate db1 d payload) _ h in
    let c = built.0 in
    let base = built.1 in
    let made = build-Candidate db1 d payload built e0 in
    let old = active_of base d in
    let (e1, h1) = >>-eq-ok (validate_repost_allocations base d c) _ h0 in
    let (e2, h2) =
      >>-eq-ok (rules_if (is_empty_list old) "Posted document has no active stock movements") _
        h1 in
    let (new_keys, e3, h3) =
      >>=-eq-ok
        (document_stock_keys c.document_type c.warehouse_id c.destination_warehouse_id c.lines) _
        h2 in
    let keys = add_keys new_keys (add_keys (map movement_key old) []) in
    let (baseline, e4, h4) = >>=-eq-ok (take_back old (load_balance_quantities base keys).0) _ h3 in
    let (planned, e5, h5) =
      >>=-eq-ok
        (plan_document_movements c.document_type c.warehouse_id c.destination_warehouse_id c.lines
          baseline)
        _ h4 in
    let (e6, h6) =
      >>-eq-ok
        (raise_if (number_taken (load_balance_quantities base keys).1 d.id c.number) 409
          "uq_documents_number")
        _ h5 in
    record {
      base = base;
      base_books =
          SameBooks-trans db db1 base
            (store_revision-SameBooks d d.posting_version recovered_reason db) made.books;
      candidate = c;
      same_id = made.same_id;
      same_status = made.same_status;
      allocations = e1;
      keys = keys;
      distinct =
          add_keys-Distinct new_keys (add_keys (map movement_key old) [])
            (add_keys-Distinct (map movement_key old) [] tt);
      baseline = baseline;
      takes_back = e4;
      planned = planned;
      plans = e5;
      result = ok-injective h6;
    }

-- A successful call finds the posted document and runs its transaction.
pub record Corrected (db : Db) (id : ℕ) (payload : DocumentRepost) (now : ℕ) (r : Document × Db)
    : Type 0 where
  pub d : Document
  pub loaded : load_document db id ≡ ok d
  pub posted : is_posted d.status ≡ true
  pub done : Reposted db d payload now r

pub repost-Corrected :
    (db : Db) (id : ℕ) (payload : DocumentRepost) (now : ℕ) (r : Document × Db)
    → repost_document db id payload now ≡ ok r
    → Corrected db id payload now r
unfolding repost_document
repost-Corrected db id payload now r h =
    let (d, e0, h0) = >>=-eq-ok (load_document db id) _ h in
    let (e1, h1) =
      >>-eq-ok (raise_if (not (is_posted d.status)) 409 "Only posted documents can be corrected") _
        h0 in
    let (e2, h2) =
      >>-eq-ok
        (raise_if (ltb (length (strip payload.reason)) 3) 422
          "Correction reason must contain at least 3 characters")
        _ h1 in
    record {
      d = d;
      loaded = e0;
      posted = not-false (is_posted d.status) (
          raise_if-eq-ok (not (is_posted d.status)) 409 "Only posted documents can be corrected"
            e1);
      done =
          repost_transaction-Reposted db d payload now r
            (rules_as_conflict-eq-ok (repost_transaction db d payload now) h2);
    }

-- the net movements of a repost: the old ones reversed, then the new ones
abbrev pub net_movements :
    (db : Db) (d : Document) (payload : DocumentRepost) (now : ℕ) (r : Document × Db)
    → Reposted db d payload now r
    → List Movement
net_movements db d payload now r p = map reversed (active_of p.base d) ++ p.planned.0

repost_rows-total :
    (k : Key) (d candidate : Document) (old ms : List Movement)
    → ledger_total k (repost_rows d candidate old ms) ≡ moved k (map reversed old ++ ms)
repost_rows-total k d candidate old ms =
    ledger_total-append k _ _
    ∙ ap₂ ◌+ℤ◌
        (ledger_total-written k d.id d.posting_version MovementKind.reverse "repost_reverse"
          d.document_type (map reversed old))
        (ledger_total-written k candidate.id (d.posting_version + 1) apply "repost_apply"
          candidate.document_type ms)
    ∙ sym (moved-append k (map reversed old) ms)

Reposted-Restocked :
    (db : Db) (d : Document) (payload : DocumentRepost) (now : ℕ) (r : Document × Db)
    (p : Reposted db d payload now r)
    → Restocked p.base (net_movements db d payload now r p) r.1
unfolding load_balance_quantities
Reposted-Restocked db d payload now r p =
    let old = active_of p.base d in
    let c = p.candidate in
    let start = load_balance_quantities p.base p.keys in
    let (moves, nonneg) =
      plan_document_movements-Moves c.document_type c.warehouse_id c.destination_warehouse_id
        c.lines p.baseline p.planned p.plans in
    let back = take_back-Moves old start.0 p.baseline p.takes_back in
    let net =
      Moves-trans start.0 (map reversed old) p.baseline p.planned.0 p.planned.1 back moves in
    let books =
      finish_repost-books d c (strip payload.reason) old p.planned.0 p.planned.1 now start.1 in
    subst (λ (r : Document × Db). Restocked p.base (map reversed old ++ p.planned.0) r.1) p.result
      (restock p.base p.keys (map reversed old ++ p.planned.0) p.planned.1 _ _ p.distinct net nonneg
        books.0 books.1 (λ k. repost_rows-total k d c old p.planned.0))

StockValid-SameBooks : (db db' : Db) → SameBooks db db' → StockValid db → StockValid db'
StockValid-SameBooks db db' b v = record {
  balanced = λ k. rw (b.stock_balances, b.stock_movements) (v.balanced k);
  nonnegative = rw b.stock_balances v.nonnegative;
}

-- In a session with valid stock, a successful repost_document, which reverses the old movements
-- and applies those of the corrected document, leaves valid stock.
pub repost_document-StockValid :
    (db : Db) (id : ℕ) (payload : DocumentRepost) (now : ℕ) (r : Document × Db)
    → repost_document db id payload now ≡ ok r
    → StockValid db
    → StockValid r.1
repost_document-StockValid db id payload now r h v =
    let c = repost-Corrected db id payload now r h in
    Restocked-StockValid c.done.base (net_movements db c.d payload now r c.done) r.1
      (Reposted-Restocked db c.d payload now r c.done)
      (StockValid-SameBooks db c.done.base c.done.base_books v)
