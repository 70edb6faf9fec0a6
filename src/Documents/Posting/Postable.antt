-- ===== src/Documents/Posting/Postable.antt =====
-- The checks of `post_document`, and the exceptions that the whole call can end in.
use faethon_system.Base.{
  ℕ, ℤ, pos, ltb_ℤ, leb_ℤ, true, not, ◌&&◌, is_some, same_option, All, Option, none, some, List, [],
  ◌∷◌, ok, ◌>>=◌, or_raise, rules_as_conflict, ok-injective, ◌≡◌, subst,
}
use faethon_system.Base.Crashes.{
  rules_as_conflict-NoCrash, NoCrash, NoCrash-bind, NoCrash-seq, NoCrash-test, NoCrash-or_raise,
}
use faethon_system.Base.Sort.{sort}
use faethon_system.Models.{
  Db, Document, DocumentLine, DocumentType, incoming, outgoing, adjustment, transfer, Partner,
  get_partner, get_product, get_document,
}
use faethon_system.Documents.Rules.{
  is_draft, is_transfer, is_adjustment, is_supplier, is_customer, check_partner,
  validate_document_partner, unknown_warehouse, validate_document_warehouse_references,
  validate_document_warehouses, validate_document_line,
}
use faethon_system.Documents.Drafts.{load_document, validate_lines}
use faethon_system.Documents.Stock.{
  Key, key_before, add_keys, line_keys, document_stock_keys, load_balance_quantities,
  plan_document_movements, plan_destination, required_warehouse_id,
}
use faethon_system.Documents.Stock.Keys.{in_keys}
use faethon_system.Documents.Posting.{is_empty_list, check_postable, post_document}
use faethon_system.Documents.Posting.Crashes.{
  lines_in_keys, All-map, in_keys-add_keys, in_keys-sort, Has-load_quantities,
}
use faethon_system.Documents.Posting.Totality.{Reads, plan-RulesOnly}

check_partner-NoCrash : (type : DocumentType) (p : Partner) → NoCrash (check_partner type p)
check_partner-NoCrash incoming p =
    NoCrash-test (not (is_supplier p.partner_type)) 409
      "Incoming document requires supplier partner"
check_partner-NoCrash outgoing p =
    NoCrash-test (not (is_customer p.partner_type)) 409
      "Outgoing document requires customer partner"
check_partner-NoCrash adjustment p = tt
check_partner-NoCrash transfer p = tt
check_partner-NoCrash DocumentType.other p = tt

partner-NoCrash :
    (db : Db) (type : DocumentType) (id : Option ℕ) → NoCrash (validate_document_partner db type id)
unfolding validate_document_partner
partner-NoCrash db transfer id =
    NoCrash-test (is_some id) 422 "Transfer document must not have partner"
partner-NoCrash db adjustment id = tt
partner-NoCrash db incoming none = tt
partner-NoCrash db outgoing none = tt
partner-NoCrash db DocumentType.other none = tt
partner-NoCrash db incoming (some id) =
    NoCrash-bind (or_raise (get_partner db id) 404 "Partner not found") _
      (NoCrash-or_raise (get_partner db id) 404 "Partner not found")
      (λ p _. check_partner-NoCrash incoming p)
partner-NoCrash db outgoing (some id) =
    NoCrash-bind (or_raise (get_partner db id) 404 "Partner not found") _
      (NoCrash-or_raise (get_partner db id) 404 "Partner not found")
      (λ p _. check_partner-NoCrash outgoing p)
partner-NoCrash db DocumentType.other (some id) =
    NoCrash-bind (or_raise (get_partner db id) 404 "Partner not found") _
      (NoCrash-or_raise (get_partner db id) 404 "Partner not found")
      (λ p _. check_partner-NoCrash DocumentType.other p)

warehouses-NoCrash :
    (db : Db) (type : DocumentType) (w d : Option ℕ)
    → NoCrash (validate_document_warehouses db type w d)
unfolding validate_document_warehouses validate_document_warehouse_references
warehouses-NoCrash db type w d =
    NoCrash-seq _ _ (NoCrash-test (not (is_some w)) 422 "Document warehouse is required") (
      NoCrash-seq _ _
        (NoCrash-seq _ _ (NoCrash-test (unknown_warehouse db w) 404 "Warehouse not found") (
          NoCrash-seq _ _
            (NoCrash-test (unknown_warehouse db d) 404 "Destination warehouse not found")
            (NoCrash-seq _ _
              (NoCrash-test (not (is_transfer type) && is_some d) 422
                "Destination warehouse is only valid for transfer documents")
              (NoCrash-test (is_some w && same_option d w) 422
                "Transfer warehouses must be different"))))
        (NoCrash-seq _ _
          (NoCrash-test (is_transfer type && not (is_some d)) 422
            "Transfer document destination warehouse is required")
          (NoCrash-seq _ _
            (NoCrash-test (is_transfer type && same_option d w) 422
              "Transfer warehouses must be different")
            (NoCrash-test (not (is_transfer type) && is_some d) 422
              "Destination warehouse is only valid for transfer documents"))))

line-NoCrash :
    (db : Db) (type : DocumentType) (id : ℕ) (q : ℤ) → NoCrash (validate_document_line db type id q)
unfolding validate_document_line
line-NoCrash db type id q =
    NoCrash-bind (or_raise (get_product db id) 404 "Product not found") _
      (NoCrash-or_raise (get_product db id) 404 "Product not found")
      (λ p _.
        NoCrash-seq _ _
          (NoCrash-test (not p.is_active) 409 "Inactive product cannot be used in a document")
          (NoCrash-seq _ _
            (NoCrash-test (not (is_adjustment type) && leb_ℤ q (pos 0)) 422
              "Document line quantity must be greater than zero")
            (NoCrash-seq _ _
              (NoCrash-test (ltb_ℤ q (pos 0)) 422 "Document line quantity cannot be negative") tt)))

lines-NoCrash :
    (db : Db) (type : DocumentType) (ls : List DocumentLine) → NoCrash (validate_lines db type ls)
unfolding validate_lines
lines-NoCrash db type [] = tt
lines-NoCrash db type (l ∷ ls) =
    NoCrash-bind (validate_document_line db type l.product_id l.quantity) _
      (line-NoCrash db type l.product_id l.quantity) (λ _ _. lines-NoCrash db type ls)

postable-NoCrash : (db : Db) (d : Document) → NoCrash (check_postable db d)
unfolding check_postable
postable-NoCrash db d =
    NoCrash-seq _ _
      (NoCrash-test (not (is_draft d.status)) 409 "Only draft documents can be posted")
      (NoCrash-seq _ _
        (warehouses-NoCrash db d.document_type d.warehouse_id d.destination_warehouse_id)
        (NoCrash-seq _ _ (NoCrash-test (is_empty_list d.lines) 422 "Document has no lines") (
          NoCrash-seq _ _ (partner-NoCrash db d.document_type d.partner_id)
            (lines-NoCrash db d.document_type d.lines))))

keys-NoCrash :
    (type : DocumentType) (w d : Option ℕ) (ls : List DocumentLine)
    → NoCrash (document_stock_keys type w d ls)
unfolding document_stock_keys
keys-NoCrash transfer none d ls = tt
keys-NoCrash transfer (some w) none ls = tt
keys-NoCrash transfer (some w) (some d) ls = tt
keys-NoCrash incoming none d ls = tt
keys-NoCrash incoming (some w) d ls = tt
keys-NoCrash outgoing none d ls = tt
keys-NoCrash outgoing (some w) d ls = tt
keys-NoCrash adjustment none d ls = tt
keys-NoCrash adjustment (some w) d ls = tt
keys-NoCrash DocumentType.other none d ls = tt
keys-NoCrash DocumentType.other (some w) d ls = tt

-- The collected keys of the lines: at their warehouse and, for a transfer, at the destination.
abbrev Collected : ℕ → Option ℕ → List Key → DocumentLine → Type 0
Collected w d ks l =
    (in_keys (l.product_id, w) ks ≡ true)
    × ((e : ℕ) → d ≡ some e → in_keys (l.product_id, e) ks ≡ true)

own_keys :
    (w : ℕ) (ls : List DocumentLine) (ks : List Key)
    → add_keys (line_keys w ls) [] ≡ ks
    → All (Collected w none ks) ls
own_keys w ls ks h =
    subst (λ ks. All (Collected w none ks) ls) h
      (All-map
        (λ (l : DocumentLine). in_keys (l.product_id, w) (add_keys (line_keys w ls) []) ≡ true) _
        (λ l own. (own, λ e none_e. absurd (cc none_e))) ls (lines_in_keys w ls []))

All-both :
    (P Q : DocumentLine → Type 0) (ls : List DocumentLine)
    → All P ls
    → All Q ls
    → All (λ l. P l × Q l) ls
All-both P Q [] p q = tt
All-both P Q (l ∷ ls) p q = ((p.0, q.0), All-both P Q ls p.1 q.1)

both_keys :
    (w d : ℕ) (ls : List DocumentLine) (ks : List Key)
    → add_keys (line_keys d ls) (add_keys (line_keys w ls) []) ≡ ks
    → All (Collected w (some d) ks) ls
both_keys w d ls ks h =
    let own = add_keys (line_keys w ls) [] in
    let all = add_keys (line_keys d ls) own in
    subst (λ ks. All (Collected w (some d) ks) ls) h
      (All-both (λ (l : DocumentLine). in_keys (l.product_id, w) all ≡ true)
        (λ (l : DocumentLine). (e : ℕ) → some d ≡ some e → in_keys (l.product_id, e) all ≡ true) ls
        (All-map (λ (l : DocumentLine). in_keys (l.product_id, w) own ≡ true) _
          (λ l own_l. in_keys-add_keys (l.product_id, w) (line_keys d ls) own own_l) ls
          (lines_in_keys w ls []))
        (All-map (λ (l : DocumentLine). in_keys (l.product_id, d) all ≡ true) _
          (λ l there e same.
            let d_e : d ≡ e = cc same in
            subst (λ e. in_keys (l.product_id, e) all ≡ true) d_e there)
          ls (lines_in_keys d ls own)))

one_warehouse :
    (type : DocumentType) (wid did : Option ℕ) (ls : List DocumentLine) (ks : List Key) (w : ℕ)
    (d : Option ℕ)
    → (required_warehouse_id wid >>= λ w. ok (add_keys (line_keys w ls) [])) ≡ ok ks
    → wid ≡ some w
    → none ≡ d
    → All (Collected w d ks) ls
one_warehouse type none did ls ks w d h e f = absurd (cc e)
one_warehouse type (some v) did ls ks w d h e f =
    let v_w : v ≡ w = cc e in
    subst (λ d. All (Collected w d ks) ls) f
      (subst (λ w. All (Collected w none ks) ls) v_w (own_keys v ls ks (ok-injective h)))

document_keys-Collected :
    (type : DocumentType) (wid did : Option ℕ) (ls : List DocumentLine) (ks : List Key) (w : ℕ)
    (d : Option ℕ)
    → document_stock_keys type wid did ls ≡ ok ks
    → wid ≡ some w
    → plan_destination type did ≡ ok d
    → All (Collected w d ks) ls
unfolding document_stock_keys
document_keys-Collected transfer none did ls ks w d h e f = absurd (cc e)
document_keys-Collected transfer (some v) none ls ks w d h e f = absurd (cc h)
document_keys-Collected transfer (some v) (some t) ls ks w d h e f =
    let v_w : v ≡ w = cc e in
    subst (λ d. All (Collected w d ks) ls) (ok-injective f)
      (subst (λ w. All (Collected w (some t) ks) ls) v_w (both_keys v t ls ks (ok-injective h)))
document_keys-Collected incoming wid did ls ks w d h e f =
    one_warehouse incoming wid did ls ks w d h e (ok-injective f)
document_keys-Collected outgoing wid did ls ks w d h e f =
    one_warehouse outgoing wid did ls ks w d h e (ok-injective f)
document_keys-Collected adjustment wid did ls ks w d h e f =
    one_warehouse adjustment wid did ls ks w d h e (ok-injective f)
document_keys-Collected DocumentType.other wid did ls ks w d h e f =
    one_warehouse DocumentType.other wid did ls ks w d h e (ok-injective f)

loaded-Reads :
    (db : Db) (w : ℕ) (d : Option ℕ) (ks : List Key) (ls : List DocumentLine)
    → All (Collected w d ks) ls
    → All (Reads w d (load_balance_quantities db ks).0) ls
unfolding load_balance_quantities
loaded-Reads db w d ks ls h =
    All-map (Collected w d ks) _
      (λ l c. (
        Has-load_quantities (l.product_id, w) (sort key_before ks) db.stock_balances
            (in_keys-sort (l.product_id, w) ks c.0),
        λ e same.
            Has-load_quantities (l.product_id, e) (sort key_before ks) db.stock_balances
              (in_keys-sort (l.product_id, e) ks (c.1 e same)),
      ))
      ls h

-- post_document returns or raises an HTTPException: no KeyError of its quantities and no
-- DocumentRulesError leaves it.
pub post_document-NoCrash : (db : Db) (id : ℕ) → NoCrash (post_document db id)
unfolding post_document load_document
post_document-NoCrash db id =
    NoCrash-bind (load_document db id) _
      (NoCrash-or_raise (get_document db id) 404 "Document not found")
      (λ d _. NoCrash-seq (check_postable db d) _ (postable-NoCrash db d) (
        NoCrash-bind
          (document_stock_keys d.document_type d.warehouse_id d.destination_warehouse_id d.lines) _
          (keys-NoCrash d.document_type d.warehouse_id d.destination_warehouse_id d.lines)
          (λ ks collected.
            let start = (load_balance_quantities db ks).0 in
            let plan =
              plan_document_movements d.document_type d.warehouse_id d.destination_warehouse_id
                d.lines start in
            NoCrash-bind (rules_as_conflict plan) _
              (rules_as_conflict-NoCrash plan (
                plan-RulesOnly d.document_type d.warehouse_id d.destination_warehouse_id d.lines
                  start
                  (λ w t e f. loaded-Reads db w t ks d.lines (
                    document_keys-Collected d.document_type d.warehouse_id
                      d.destination_warehouse_id d.lines ks w t collected e f))))
              (λ _ _. tt))))
