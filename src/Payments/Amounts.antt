-- ===== src/Payments/Amounts.antt =====
-- The amounts that posted payments allocate to a document.
use faethon_system.Base.{
  not-false, ℕ, ℤ, pos, ◌+ℤ◌, ◌-ℤ◌, ◌≤ℤ◌, max_ℤ, ltb_ℤ, ltb_ℤ_false→le, int_laws, true, false, not,
  ◌&&◌, ◌==◌, ==→eq, ==-refl, if◌then◌else◌, Bool-cases, inl, inr, Option, none, some, List, [],
  ◌∷◌, map, find, update_where, All, contains, distinct, ok, raise_if, raise_if-eq-ok, or_raise,
  or_raise-eq-ok, >>=-eq-ok, >>-eq-ok, ◌≡◌, refl, sym, ap, subst, ◌∙◌, arith,
}
use faethon_system.Models.{Db, Document, Payment, PaymentAllocation, PaymentType, get_document}
use faethon_system.Logistics.{is_posted}
use faethon_system.Payments.{
  amount_to, counted, posted_amount, outstanding, Validated, check_payment_document, validate_each,
  validate_allocations, is_refund, total_of,
}
use faethon_system.Documents.Posting.{is_empty_list}

-- What a payment adds to the amount of a document.
abbrev pub contribution : ℕ → Payment → ℤ
contribution document_id p =
    if is_posted p.status then amount_to document_id p.allocations else pos 0

abbrev pub OtherId : ℕ → Payment → Type 0
OtherId k p = (p.id == k) ≡ false

-- No two payments share a key.
abbrev pub DistinctIds : List Payment → Type 0
DistinctIds [] = Unit
DistinctIds (p ∷ ps) = All (OtherId p.id) ps × DistinctIds ps

pub counted-none : (p : Payment) → counted none p ≡ is_posted p.status
counted-none p = ground arith

counted_self : (k : ℕ) (p : Payment) → (p.id == k) ≡ true → counted (some k) p ≡ false
counted_self k p h = ground arith

counted-other :
    (k : ℕ) (p : Payment) → (p.id == k) ≡ false → counted (some k) p ≡ is_posted p.status
counted-other k p h = ground arith

-- where no payment has the excluded key, nothing is excluded
posted_amount-absent :
    (d k : ℕ) (ps : List Payment)
    → All (OtherId k) ps
    → posted_amount d none ps ≡ posted_amount d (some k) ps
posted_amount-absent d k [] h = refl
posted_amount-absent d k (p ∷ ps) h = rw (posted_amount-absent d k ps h.1) (ground arith)

-- The whole amount is that of the other payments and the payment's own contribution.
pub posted_amount-split :
    (d k : ℕ) (ps : List Payment) (p : Payment)
    → DistinctIds ps
    → find (λ (q : Payment). q.id == k) ps ≡ some p
    → posted_amount d none ps ≡ posted_amount d (some k) ps +ℤ contribution d p
posted_amount-split d k [] p u h = absurd (cc h)
posted_amount-split d k (q ∷ ps) p u h = elim (Bool-cases (q.id == k)) [
  | inl e ↦
      let same : q ≡ p = cc (rw e at h) in
      let absent =
        posted_amount-absent d k ps (subst (λ i. All (OtherId i) ps) (==→eq q.id k e) u.0) in
      rw (counted-none q, counted_self k q e, absent)
        (subst
          (λ r.
            contribution d q +ℤ posted_amount d (some k) ps
            ≡ pos 0 +ℤ posted_amount d (some k) ps +ℤ contribution d r)
          same (omega int_laws))
  | inr e ↦
      rw (counted-none q, counted-other k q e, posted_amount-split d k ps p u.1 (rw e at h))
        (omega int_laws)
]

-- Replacing a payment leaves the amounts of the others.
pub posted_amount-put_excluded :
    (d k : ℕ) (ps : List Payment) (p' : Payment)
    → p'.id ≡ k
    → posted_amount d (some k) (update_where (λ (q : Payment). q.id == k) (λ _. p') ps)
      ≡ posted_amount d (some k) ps
posted_amount-put_excluded d k [] p' e = refl
posted_amount-put_excluded d k (q ∷ ps) p' e = elim (Bool-cases (q.id == k)) [
  | inl b ↦ rw (
    b,
    posted_amount-put_excluded d k ps p' e,
    counted_self k q b,
    counted_self k p' (rw e (==-refl k)),
  )
  | inr b ↦ rw (b, posted_amount-put_excluded d k ps p' e)
]

abbrev pub document_ids : List PaymentAllocation → List ℕ
document_ids as' = map (λ (a : PaymentAllocation). a.document_id) as'

max_ℤ_nonneg : (a : ℤ) → pos 0 ≤ℤ max_ℤ a (pos 0)
max_ℤ_nonneg a = ground arith

distinct-cons :
    (k : ℕ) (ks : List ℕ)
    → distinct (k ∷ ks) ≡ true
    → (contains k ks ≡ false) × (distinct ks ≡ true)
distinct-cons k ks h = ground arith

amount_to-absent :
    (id : ℕ) (as' : List PaymentAllocation)
    → contains id (document_ids as') ≡ false
    → amount_to id as' ≡ pos 0
amount_to-absent id [] h = refl
amount_to-absent id (a ∷ as') h = elim (Bool-cases (a.document_id == id)) [
  | inl b ↦ absurd (ground arith)
  | inr b ↦ rw (b, amount_to-absent id as' (ground arith)) (omega int_laws)
]

fits_alone : (a b : ℤ) → a ≤ℤ b → a +ℤ pos 0 ≤ℤ b
fits_alone a b h = omega int_laws

fits_later : (a b : ℤ) → a ≤ℤ b → pos 0 +ℤ a ≤ℤ b
fits_later a b h = omega int_laws

-- The validated allocations fit the documents: what they allocate to a document is no more than
-- what is outstanding.
pub validate_each-fits :
    (db : Db) (type : PaymentType) (partner : ℕ) (excluded : Option ℕ)
    (as' : List PaymentAllocation) (v : Validated) (id : ℕ) (d : Document)
    → validate_each db type partner excluded as' ≡ ok v
    → distinct (document_ids as') ≡ true
    → get_document db id ≡ some d
    → amount_to id as' ≤ℤ outstanding db excluded d
unfolding validate_each
validate_each-fits db type partner excluded [] v id d h u e =
    max_ℤ_nonneg (d.total_amount -ℤ posted_amount d.id excluded db.payments)
validate_each-fits db type partner excluded (a ∷ as') v id d h u e =
    let (doc, e0, h0) =
      >>=-eq-ok (or_raise (get_document db a.document_id) 404 "Document not found") _ h in
    let (e1, h1) = >>-eq-ok (check_payment_document type partner doc) _ h0 in
    let (e2, h2) =
      >>-eq-ok
        (raise_if (ltb_ℤ (outstanding db excluded doc) a.amount) 409
          "Allocation exceeds outstanding amount for document")
        _ h1 in
    let (others, e3, h3) = >>=-eq-ok (validate_each db type partner excluded as') _ h2 in
    let (fresh, tail) = distinct-cons a.document_id (document_ids as') u in
    elim (Bool-cases (a.document_id == id)) [
      | inl b ↦
          let here : a.document_id ≡ id = ==→eq a.document_id id b in
          let found : some doc ≡ some d =
            sym (or_raise-eq-ok (get_document db a.document_id) 404 "Document not found" e0)
            ∙ ap (get_document db) here
            ∙ e in
          let same : doc ≡ d = cc found in
          let nothing =
            amount_to-absent id as'
              (subst (λ i. contains i (document_ids as') ≡ false) here fresh) in
          rw (b, nothing)
            (subst (λ (x : Document). a.amount +ℤ pos 0 ≤ℤ outstanding db excluded x) same
              (fits_alone a.amount (outstanding db excluded doc) (
                ltb_ℤ_false→le (outstanding db excluded doc) a.amount
                  (raise_if-eq-ok _ 409 "Allocation exceeds outstanding amount for document" e2))))
      | inr b ↦ rw b (
          fits_later (amount_to id as') (outstanding db excluded d)
            (validate_each-fits db type partner excluded as' others id d e3 tail e))
    ]

-- After a successful validate_allocations the amount allocated to a document of the session is
-- at most what is outstanding of it.
pub validate_allocations-fits :
    (db : Db) (type : PaymentType) (partner : ℕ) (amount : ℤ) (as' : List PaymentAllocation)
    (excluded : Option ℕ) (v : Validated) (id : ℕ) (d : Document)
    → validate_allocations db type partner amount as' excluded ≡ ok v
    → get_document db id ≡ some d
    → amount_to id as' ≤ℤ outstanding db excluded d
unfolding validate_allocations
validate_allocations-fits db type partner amount as' excluded v id d h e =
    let (e0, h0) =
      >>-eq-ok
        (raise_if (is_refund type && not (is_empty_list as')) 422
          "Refund cannot be allocated to documents")
        _ h in
    let (e1, h1) =
      >>-eq-ok
        (raise_if (not (distinct (document_ids as'))) 422
          "Payment document can be allocated only once")
        _ h0 in
    let (e2, h2) =
      >>-eq-ok
        (raise_if (ltb_ℤ amount (total_of as')) 409 "Allocated amount exceeds payment amount") _
        h1 in
    validate_each-fits db type partner excluded as' v id d h2
      (not-false (distinct (document_ids as'))
        (raise_if-eq-ok _ 422 "Payment document can be allocated only once" e1))
      e
