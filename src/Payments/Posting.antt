-- ===== src/Payments/Posting.antt =====
-- `post_document` and `cancel_document`, and the payment allocations.
use faethon_system.Base.{
  ℕ, ◌≤ℤ◌, ◌==◌, ==→eq, find, find-satisfies, map, [], none, some, ok, or_raise-eq-ok, inl, inr,
  ◌≡◌, refl, sym, ap, subst, ◌∙◌,
}
use faethon_system.Models.{Db, Document, get_document, put_document}
use faethon_system.Documents.Drafts.{load_document}
use faethon_system.Documents.Stock.{load_balance_quantities, add_keys, movement_key}
use faethon_system.Documents.Posting.{as_posted, post_document, cancel_document}
use faethon_system.Documents.Posting.Post.{post-Posted, finish_post-kept}
use faethon_system.Documents.Posting.Undo.{
  cancel-Cancelled, finish_cancel-kept, as_cancelled, active_of,
}
use faethon_system.Payments.{posted_amount}
use faethon_system.Payments.Allocations.{AllocationsValid}
use faethon_system.Payments.Reposting.{find-put}

-- A new version of a loaded document with the same total keeps the invariant.
same_total-AllocationsValid :
    (db db' : Db) (id : ℕ) (d d' : Document)
    → AllocationsValid db
    → load_document db id ≡ ok d
    → d'.id ≡ d.id
    → d'.total_amount ≡ d.total_amount
    → db'.documents ≡ (put_document d' db).documents
    → db'.payments ≡ db.payments
    → AllocationsValid db'
unfolding load_document
same_total-AllocationsValid db db' id d d' v loaded key total documents payments =
    let found = or_raise-eq-ok (get_document db id) 404 "Document not found" loaded in
    let own : d.id ≡ id =
      ==→eq d.id id (find-satisfies (λ (e : Document). e.id == id) db.documents found) in
    record {
      distinct = rw payments v.distinct;
      nonnegative = rw payments v.nonnegative;
      fits = λ k e h.
          let stored = subst (λ ds. find (λ (e : Document). e.id == k) ds ≡ some e) documents h in
          subst (λ ps. posted_amount k none ps ≤ℤ e.total_amount) (sym payments)
            (elim (find-put d' e k db.documents stored) [
              | inl s ↦
                  let here : k ≡ id =
                    sym
                      (==→eq e.id k (find-satisfies (λ (e : Document). e.id == k) db'.documents h))
                    ∙ ap (λ (x : Document). x.id) s
                    ∙ key
                    ∙ own in
                  subst (λ t. posted_amount k none db.payments ≤ℤ t)
                    (sym (ap (λ (x : Document). x.total_amount) s ∙ total))
                    (subst (λ i. posted_amount i none db.payments ≤ℤ d.total_amount) (sym here)
                      (v.fits id d found))
              | inr f ↦ v.fits k e f
            ]);
    }

-- In a session with valid allocations, a successful post_document leaves valid allocations.
pub post_document-AllocationsValid :
    (db : Db) (id : ℕ) (r : Document × Db)
    → post_document db id ≡ ok r
    → AllocationsValid db
    → AllocationsValid r.1
unfolding load_balance_quantities
post_document-AllocationsValid db id r h v =
    let p = post-Posted db id r h in
    let kept = finish_post-kept p.d p.planned.0 p.planned.1 (load_balance_quantities db p.keys).1 in
    let same = ap (λ (r : Document × Db). r.1) (sym p.result) in
    same_total-AllocationsValid db r.1 id p.d (as_posted p.d) v p.loaded refl refl
      (ap (λ (x : Db). x.documents) same ∙ kept.0) (ap (λ (x : Db). x.payments) same ∙ kept.1)

-- In a session with valid allocations, a successful cancel_document leaves valid allocations.
pub cancel_document-AllocationsValid :
    (db : Db) (id now : ℕ) (r : Document × Db)
    → cancel_document db id now ≡ ok r
    → AllocationsValid db
    → AllocationsValid r.1
unfolding load_balance_quantities
cancel_document-AllocationsValid db id now r h v =
    let c = cancel-Cancelled db id now r h in
    let start =
      (load_balance_quantities db (add_keys (map movement_key (active_of db c.d)) [])).1 in
    let kept = finish_cancel-kept c.d (active_of db c.d) c.final now start in
    let same = ap (λ (r : Document × Db). r.1) (sym c.result) in
    same_total-AllocationsValid db r.1 id c.d (as_cancelled c.d) v c.loaded refl refl
      (ap (λ (x : Db). x.documents) same ∙ kept.0) (ap (λ (x : Db). x.payments) same ∙ kept.1)
