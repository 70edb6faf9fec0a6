-- ===== src/Payments/Keeps.antt =====
-- `post_payment`, `replace_posted_payment_allocations` and `cancel_payment`, and the allocations.
use faethon_system.Base.{
  not-false, ℕ, ℤ, pos, ◌+ℤ◌, ◌≤ℤ◌, int_laws, +ℤ-zero, true, not, ◌==◌, ==→eq, ltb_ℤ, distinct,
  find-satisfies, update_where, Option, none, some, List, [], ◌∷◌, map, ◌&&◌, ok, raise_if,
  raise_if-eq-ok, or_raise, or_raise-eq-ok, >>=-eq-ok, >>-eq-ok, ok-injective, ◌≡◌, sym, ap, ap₂,
  subst, ◌∙◌, arith,
}
use faethon_system.Models.{
  Db, CashOperation, Document, Payment, PaymentAllocation, PaymentType, Status, get_document,
  put_payment, write_audit,
}
use faethon_system.Documents.Rules.{is_draft}
use faethon_system.Documents.Posting.{is_empty_list}
use faethon_system.Logistics.{is_posted}
use faethon_system.Cash.{create_cash_operation, cancel_payment_cash_operations}
use faethon_system.Cash.Create.{create-Created}
use faethon_system.Cash.Cancel.{cancel_payment_cash_operations-kept}
use faethon_system.Payments.{
  amount_to, outstanding, Validated, check_payment_document, validate_each, validate_allocations,
  to_allocation, load_payment, is_refund, total_of, posted_amount, as_posted, cash_payload_for,
  replace_allocations, post_payment, replace_posted_payment_allocations, cancel_payment,
  required_partner_id, validate_supported_payment, validate_payment_partner,
}
use faethon_system.Payments.Amounts.{contribution, validate_allocations-fits, document_ids}
use faethon_system.Payments.Allocations.{
  NonNegative, AllocationsValid, load-found, replaced-AllocationsValid, without_fits,
  outstanding_fits, amount_without, All-find,
}

posted_contribution :
    (id : ℕ) (p : Payment) (as' : List PaymentAllocation)
    → is_posted p.status ≡ true
    → p.allocations ≡ as'
    → contribution id p ≡ amount_to id as'
posted_contribution id p as' h e = rw h (ap (amount_to id) e)

pub draft_adds_nothing :
    (id : ℕ) (p : Payment) → is_draft p.status ≡ true → contribution id p ≡ pos 0
draft_adds_nothing id p h = ground arith

add_nothing : (a b c : ℤ) → a ≡ b +ℤ c → c ≡ pos 0 → b ≡ a
add_nothing a b c h k = sym (h ∙ ap (λ x. b +ℤ x) k ∙ +ℤ-zero b)

pub add_zero_fits : (a b : ℤ) → a ≤ℤ b → a +ℤ pos 0 ≤ℤ b
add_zero_fits a b h = omega int_laws

abbrev allocation : ℤ → ℕ → PaymentAllocation
allocation amount id = record { document_id = id; amount = amount }

-- The validated pairs are the inputs again.
validate_each-inputs :
    (db : Db) (type : PaymentType) (partner : ℕ) (excluded : Option ℕ)
    (as' : List PaymentAllocation) (v : Validated)
    → validate_each db type partner excluded as' ≡ ok v
    → map to_allocation v ≡ as'
unfolding validate_each
validate_each-inputs db type partner excluded [] v h = ap (map to_allocation) (sym (ok-injective h))
validate_each-inputs db type partner excluded (a ∷ as') v h =
    let (doc, e0, h0) =
      >>=-eq-ok (or_raise (get_document db a.document_id) 404 "Document not found") _ h in
    let (e1, h1) = >>-eq-ok (check_payment_document type partner doc) _ h0 in
    let (e2, h2) =
      >>-eq-ok
        (raise_if (ltb_ℤ (outstanding db excluded doc) a.amount) 409
          "Allocation exceeds outstanding amount for document")
        _ h1 in
    let (others, e3, h3) = >>=-eq-ok (validate_each db type partner excluded as') _ h2 in
    let key : doc.id ≡ a.document_id = ==→eq doc.id a.document_id (
      find-satisfies (λ (q : Document). q.id == a.document_id) db.documents
        (or_raise-eq-ok (get_document db a.document_id) 404 "Document not found" e0)) in
    ap (map to_allocation) (sym (ok-injective h3))
    ∙ ap₂ (λ (i : ℕ) (rest : List PaymentAllocation). allocation a.amount i ∷ rest) key
        (validate_each-inputs db type partner excluded as' others e3)

pub validate_allocations-inputs :
    (db : Db) (type : PaymentType) (partner : ℕ) (amount : ℤ) (as' : List PaymentAllocation)
    (excluded : Option ℕ) (v : Validated)
    → validate_allocations db type partner amount as' excluded ≡ ok v
    → map to_allocation v ≡ as'
unfolding validate_allocations
validate_allocations-inputs db type partner amount as' excluded v h =
    let (e0, h0) =
      >>-eq-ok
        (raise_if (is_refund type && not (is_empty_list as')) 422
          "Refund cannot be allocated to documents")
        _ h in
    let (e1, h1) =
      >>-eq-ok
        (raise_if (not (distinct (document_ids as'))) 422
          "Payment document can be allocated only once")
        _ h0 in
    let (e2, h2) =
      >>-eq-ok
        (raise_if (ltb_ℤ amount (total_of as')) 409 "Allocated amount exceeds payment amount") _
        h1 in
    validate_each-inputs db type partner excluded as' v h2

-- What a successful `post_payment` has done.
pub record Posted (db : Db) (payment_id : ℕ) (r : Payment × Db) : Type 0 where
  pub p : Payment
  pub loaded : load_payment db payment_id ≡ ok p
  pub was_draft : is_draft p.status ≡ true
  pub partner_id : ℕ
  pub validated : Validated
  pub validates :
      validate_allocations db p.payment_type partner_id p.amount p.allocations none ≡ ok validated
  pub payment : r.0 ≡ as_posted p validated
  pub operation : CashOperation × Db
  pub creates :
      create_cash_operation
        (put_payment (as_posted p validated) db)
        (cash_payload_for (as_posted p validated))
      ≡ ok operation
  pub result : r.1 ≡ write_audit operation.1 "payment" p.id "post"

pub post-Posted :
    (db : Db) (payment_id : ℕ) (r : Payment × Db)
    → post_payment db payment_id ≡ ok r
    → Posted db payment_id r
unfolding post_payment
post-Posted db payment_id r h =
    let (p, e0, h0) = >>=-eq-ok (load_payment db payment_id) _ h in
    let (e1, h1) =
      >>-eq-ok (raise_if (not (is_draft p.status)) 409 "Only draft payments can be posted") _ h0 in
    let (partner_id, e2, h2) = >>=-eq-ok (required_partner_id p.partner_id) _ h1 in
    let (e3, h3) = >>-eq-ok (validate_supported_payment p.payment_type p.method) _ h2 in
    let (e4, h4) = >>-eq-ok (validate_payment_partner db p.payment_type partner_id) _ h3 in
    let (validated, e5, h5) =
      >>=-eq-ok (validate_allocations db p.payment_type partner_id p.amount p.allocations none) _
        h4 in
    let payment = as_posted p validated in
    let (operation, e6, h6) =
      >>=-eq-ok (create_cash_operation (put_payment payment db) (cash_payload_for payment)) _ h5 in
    let same = sym (ok-injective h6) in
    record {
      p = p;
      loaded = e0;
      was_draft =
          not-false (is_draft p.status)
            (raise_if-eq-ok _ 409 "Only draft payments can be posted" e1);
      partner_id = partner_id;
      validated = validated;
      validates = e5;
      payment = ap (λ (r : Payment × Db). r.0) same;
      operation = operation;
      creates = e6;
      result = ap (λ (r : Payment × Db). r.1) same;
    }

-- In a session with valid allocations (distinct payment keys, no negative allocation, and no
-- document with more posted allocations than its total), a successful post_payment leaves valid
-- allocations.
pub post_payment-AllocationsValid :
    (db : Db) (payment_id : ℕ) (r : Payment × Db)
    → post_payment db payment_id ≡ ok r
    → AllocationsValid db
    → AllocationsValid r.1
unfolding write_audit
post_payment-AllocationsValid db payment_id r h v =
    let c = post-Posted db payment_id r h in
    let p = c.p in
    let p' = as_posted p c.validated in
    let found = load-found db payment_id p c.loaded in
    let created =
      create-Created (put_payment p' db) (cash_payload_for p') c.operation.0 c.operation.1
        c.creates in
    let positive =
      All-find (λ (q : Payment). NonNegative q.allocations) (λ q. q.id == p.id) db.payments p
        v.nonnegative found in
    replaced-AllocationsValid db r.1 p p' v found positive
      (ap (λ (x : Db). x.payments) c.result ∙ created.payments_kept)
      (ap (λ (x : Db). x.documents) c.result ∙ created.documents_kept)
      (λ id d e.
        let same =
          add_nothing _ _ _ (amount_without id db.payments p v.distinct found)
            (draft_adds_nothing id p c.was_draft) in
        subst (λ (x : ℤ). x +ℤ contribution id p' ≤ℤ d.total_amount) (sym same)
          (outstanding_fits db none id d (contribution id p') e (v.fits id d e) (
            validate_allocations-fits db p.payment_type c.partner_id p.amount p.allocations none
              c.validated id d c.validates e)))

-- In a session with valid allocations, a successful replace_posted_payment_allocations with no
-- negative amount leaves valid allocations.
pub replace_posted_payment_allocations-AllocationsValid :
    (db : Db) (payment_id : ℕ) (allocations : List PaymentAllocation) (r : Payment × Db)
    → NonNegative allocations
    → replace_posted_payment_allocations db payment_id allocations ≡ ok r
    → AllocationsValid db
    → AllocationsValid r.1
unfolding replace_posted_payment_allocations replace_allocations write_audit
replace_posted_payment_allocations-AllocationsValid db payment_id allocations r positive h v =
    let (p, e0, h0) = >>=-eq-ok (load_payment db payment_id) _ h in
    let (e1, h1) =
      >>-eq-ok (raise_if (not (is_posted p.status)) 409 "Only posted payments can be reallocated") _
        h0 in
    let (partner_id, e2, h2) = >>=-eq-ok (required_partner_id p.partner_id) _ h1 in
    let (validated, e3, h3) =
      >>=-eq-ok (validate_allocations db p.payment_type partner_id p.amount allocations (some p.id))
        _ h2 in
    let posted =
      not-false (is_posted p.status)
        (raise_if-eq-ok _ 409 "Only posted payments can be reallocated" e1) in
    let p' = replace_allocations p validated in
    let found = load-found db payment_id p e0 in
    let inputs =
      validate_allocations-inputs db p.payment_type partner_id p.amount allocations (some p.id)
        validated e3 in
    let same = sym (ok-injective h3) in
    replaced-AllocationsValid db r.1 p p' v found (rw inputs positive)
      (ap (λ (r : Payment × Db). r.1.payments) same) (ap (λ (r : Payment × Db). r.1.documents) same)
      (λ id d e.
        subst (λ (x : ℤ). posted_amount id (some p.id) db.payments +ℤ x ≤ℤ d.total_amount)
          (sym (posted_contribution id p' allocations posted inputs))
          (outstanding_fits db (some p.id) id d _ e (without_fits db p id d v found e) (
            validate_allocations-fits db p.payment_type partner_id p.amount allocations (some p.id)
              validated id d e3 e)))

-- In a session with valid allocations, a successful cancel_payment leaves valid allocations.
pub cancel_payment-AllocationsValid :
    (db : Db) (payment_id : ℕ) (r : Payment × Db)
    → cancel_payment db payment_id ≡ ok r
    → AllocationsValid db
    → AllocationsValid r.1
unfolding cancel_payment write_audit
cancel_payment-AllocationsValid db payment_id r h v =
    let (p, e0, h0) = >>=-eq-ok (load_payment db payment_id) _ h in
    let (e1, h1) =
      >>-eq-ok (raise_if (not (is_posted p.status)) 409 "Only posted payments can be cancelled") _
        h0 in
    let (db1, e2, h2) = >>=-eq-ok (cancel_payment_cash_operations db p.id) _ h1 in
    let kept = cancel_payment_cash_operations-kept db p.id db1 e2 in
    let p' : Payment = record p { status = Status.cancelled } in
    let found = load-found db payment_id p e0 in
    let same = sym (ok-injective h2) in
    let positive =
      All-find (λ (q : Payment). NonNegative q.allocations) (λ q. q.id == p.id) db.payments p
        v.nonnegative found in
    replaced-AllocationsValid db r.1 p p' v found positive
      (ap (λ (r : Payment × Db). r.1.payments) same
        ∙ ap (λ ps. update_where (λ (q : Payment). q.id == p.id) (λ _. p') ps) kept.0)
      (ap (λ (r : Payment × Db). r.1.documents) same ∙ kept.1)
      (λ id d e. add_zero_fits _ _ (without_fits db p id d v found e))
