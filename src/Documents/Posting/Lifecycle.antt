-- ===== src/Documents/Posting/Lifecycle.antt =====
-- `post_document` and `cancel_document` one after the other.
use faethon_system.Base.{
  ok-injective, ℕ, ◌+◌, ℤ, ◌+ℤ◌, neg, int_laws, ◌==◌, ==→eq, ==-refl, find, find-satisfies,
  find-update_where, update_where, filter, filter-append, List, [], ◌∷◌, ◌++◌, map, ok, err, http,
  or_raise, or_raise-eq-ok, ◌≡◌, refl, sym, ap, subst, ◌∙◌,
}
use faethon_system.Models.{Db, Document, apply, get_document, put_document}
use faethon_system.Documents.Drafts.{load_document}
use faethon_system.Documents.Stock.{
  Key, Movement, movement_key, add_keys, load_balance_quantities, stock_movement, active_movement,
  active_posting_movements,
}
use faethon_system.Documents.Stock.Plan.{moved}
use faethon_system.Documents.Stock.Balances.{on_hand}
use faethon_system.Documents.Posting.{
  as_posted, check_postable, post_document, cancel_document, movement_of, reversed,
}
use faethon_system.Documents.Posting.Ledger.{StockValid, moved-reversed}
use faethon_system.Documents.Posting.Post.{
  Posted, post-Posted, post_document-Restocked, post_document-StockValid, finish_post-kept,
}
use faethon_system.Documents.Posting.Undo.{
  cancel-Cancelled, cancel_document-Restocked, finish_cancel-kept, as_cancelled, active_of,
}

-- A document that is overwritten under its key is loaded again.
load-put :
    (db db' : Db) (id : ℕ) (d d' : Document)
    → load_document db id ≡ ok d
    → d'.id ≡ d.id
    → db'.documents ≡ (put_document d' db).documents
    → load_document db' id ≡ ok d'
unfolding load_document
load-put db db' id d d' h same stored =
    let found = or_raise-eq-ok (get_document db id) 404 "Document not found" h in
    let key : d'.id ≡ id =
      same ∙ ==→eq d.id id (find-satisfies (λ (e : Document). e.id == id) db.documents found) in
    let again =
      find-update_where (λ (e : Document). e.id) id d d' db.documents found (rw key (==-refl id)) in
    let table =
      stored ∙ ap (λ k. update_where (λ (e : Document). e.id == k) (λ _. d') db.documents) key in
    ap (λ ds. or_raise (find (λ (e : Document). e.id == id) ds) 404 "Document not found") table
    ∙ ap (λ o. or_raise o 404 "Document not found") again

loaded_after_post :
    (db : Db) (id : ℕ) (r : Document × Db) (p : Posted db id r)
    → load_document r.1 id ≡ ok (as_posted p.d)
unfolding load_balance_quantities
loaded_after_post db id r p =
    let start = (load_balance_quantities db p.keys).1 in
    let kept = finish_post-kept p.d p.planned.0 p.planned.1 start in
    load-put db r.1 id p.d (as_posted p.d) p.loaded refl
      (ap (λ (r : Document × Db). r.1.documents) (sym p.result) ∙ kept.0)

-- After a successful post_document, another one of the same document ends in a 409.
pub post_document-once :
    (db : Db) (id : ℕ) (r : Document × Db)
    → post_document db id ≡ ok r
    → post_document r.1 id ≡ err (http 409 "Only draft documents can be posted")
unfolding post_document check_postable
post_document-once db id r h = rw (loaded_after_post db id r (post-Posted db id r h))

-- After a successful cancel_document, another one of the same document and a post_document of
-- it both end in a 409.
pub cancel_document-once :
    (db : Db) (id now later : ℕ) (r : Document × Db)
    → cancel_document db id now ≡ ok r
    → (cancel_document r.1 id later ≡ err (http 409 "Only posted documents can be cancelled"))
      × (post_document r.1 id ≡ err (http 409 "Only draft documents can be posted"))
unfolding check_postable load_balance_quantities cancel_document post_document
cancel_document-once db id now later r h =
    let c = cancel-Cancelled db id now r h in
    let start = load_balance_quantities db (add_keys (map movement_key (active_of db c.d)) []) in
    let kept = finish_cancel-kept c.d (active_of db c.d) c.final now start.1 in
    let loaded =
      load-put db r.1 id c.d (as_cancelled c.d) c.loaded refl
        (ap (λ (r : Document × Db). r.1.documents) (sym c.result) ∙ kept.0) in
    (rw loaded, rw loaded)

-- the movements of a posting are the active ones of the posted document
active_written :
    (d : Document) (ms : List Movement)
    → map movement_of (
        filter
          (active_movement (as_posted d))
          (map (stock_movement d.id (d.posting_version + 1) apply "post" d.document_type) ms))
      ≡ ms
unfolding stock_movement
active_written d [] = refl
active_written d ((p, w, delta) ∷ ms) =
    rw (==-refl d.id, ==-refl (d.posting_version + 1))
      (ap (λ rest. (p, w, delta) ∷ rest) (active_written d ms))

-- No stored movement belongs to the version that the next posting makes.
abbrev pub NextVersionUnused : Db → Document → Type 0
NextVersionUnused db d = active_posting_movements db (as_posted d) ≡ []

active_after_post :
    (db : Db) (id : ℕ) (r : Document × Db) (p : Posted db id r)
    → NextVersionUnused db p.d
    → active_of r.1 (as_posted p.d) ≡ p.planned.0
unfolding active_posting_movements load_balance_quantities
active_after_post db id r p unused =
    let kept = finish_post-kept p.d p.planned.0 p.planned.1 (load_balance_quantities db p.keys).1 in
    let rows = ap (λ (r : Document × Db). r.1.stock_movements) (sym p.result) ∙ kept.2 in
    let mine = active_movement (as_posted p.d) in
    let written =
      map (stock_movement p.d.id (p.d.posting_version + 1) apply "post" p.d.document_type)
        p.planned.0 in
    ap (λ ms. map movement_of (filter mine ms)) rows
    ∙ ap (map movement_of) (
        filter-append mine db.stock_movements written ∙ ap (λ ms. ms ++ filter mine written) unused)
    ∙ active_written p.d p.planned.0

moved_back : (a b c : ℤ) → c ≡ neg b → a +ℤ b +ℤ c ≡ a
moved_back a b c h = ap (λ x. a +ℤ b +ℤ x) h ∙ omega int_laws

-- In a session with valid stock, where no movement belongs to the version that a posting of the
-- document makes, a successful post_document followed by a successful cancel_document of the
-- same document leaves every quantity on hand as it was.
pub cancel_document-post_document :
    (db : Db) (id now : ℕ) (r s : Document × Db) (d : Document) (k : Key)
    → StockValid db
    → load_document db id ≡ ok d
    → NextVersionUnused db d
    → post_document db id ≡ ok r
    → cancel_document r.1 id now ≡ ok s
    → on_hand k s.1.stock_balances ≡ on_hand k db.stock_balances
cancel_document-post_document db id now r s d k v loaded unused h g =
    let p = post-Posted db id r h in
    let c = cancel-Cancelled r.1 id now s g in
    let posted = (post_document-Restocked db id r h).on_hand_moves k in
    let cancelled =
      (cancel_document-Restocked r.1 id now s g
          (post_document-StockValid db id r h v)).on_hand_moves
        k in
    let first : d ≡ p.d = ok-injective (sym loaded ∙ p.loaded) in
    let second : c.d ≡ as_posted p.d = ok-injective (sym c.loaded ∙ loaded_after_post db id r p) in
    let active =
      ap (active_of r.1) second
      ∙ active_after_post db id r p (subst (NextVersionUnused db) first unused) in
    let back = ap (λ ms. moved k (map reversed ms)) active ∙ moved-reversed k p.planned.0 in
    cancelled
    ∙ ap (λ x. x +ℤ moved k (map reversed (active_of r.1 c.d))) posted
    ∙ moved_back (on_hand k db.stock_balances) (moved k p.planned.0)
        (moved k (map reversed (active_of r.1 c.d))) back
