-- ===== src/Payments/Reposting.antt =====
-- `repost_document` and the payment allocations: `_active_document_allocations` beside
-- `_posted_allocated_amount`.
use faethon_system.Base.{
  ℕ, ℤ, pos, ◌+ℤ◌, ◌≤ℤ◌, zero-+ℤ, +ℤ_assoc, not, ◌==◌, ==→eq, if◌then◌else◌, ltb_ℤ_false→le, any,
  ◌||◌, same_option, filter, Bool-cases, ◌⊎◌, inl, inr, none, some, List, [], ◌∷◌, ◌++◌, map, find,
  find-satisfies, update_where, strip, ok, raise_if, raise_if-eq-ok, >>-eq-ok, ◌≡◌, refl, sym, ap,
  ap₂, subst, ◌∙◌,
}
use faethon_system.Models.{Db, Document, Payment, PaymentAllocation, PaymentType, put_document}
use faethon_system.Logistics.{is_posted}
use faethon_system.Logistics.Frame.{SameBooks}
use faethon_system.Documents.Stock.{load_balance_quantities}
use faethon_system.Documents.Posting.{
  DocumentRepost, allocations_to, active_allocations, allocated_total, expects, expects_payments,
  validate_repost_allocations, finish_repost, repost_document,
}
use faethon_system.Documents.Posting.Repost.{
  Reposted, reposted, finish_repost-kept, repost-Corrected,
}
use faethon_system.Documents.Posting.Undo.{active_of}
use faethon_system.Payments.{amount_to, counted, posted_amount}
use faethon_system.Payments.Amounts.{counted-none}
use faethon_system.Payments.Allocations.{AllocationsValid, FitsDocuments}

allocated_total-append :
    (xs ys : List (PaymentType × ℤ))
    → allocated_total (xs ++ ys) ≡ allocated_total xs +ℤ allocated_total ys
allocated_total-append [] ys = sym (zero-+ℤ (allocated_total ys))
allocated_total-append ((t, a) ∷ xs) ys =
    ap (λ x. a +ℤ x) (allocated_total-append xs ys)
    ∙ sym (+ℤ_assoc a (allocated_total xs) (allocated_total ys))

allocated_total-matching :
    (id : ℕ) (type : PaymentType) (as' : List PaymentAllocation)
    → allocated_total (
        map
          (λ (a : PaymentAllocation). (type, a.amount))
          (filter (λ (a : PaymentAllocation). a.document_id == id) as'))
      ≡ amount_to id as'
allocated_total-matching id type [] = refl
allocated_total-matching id type (a ∷ as') = elim (Bool-cases (a.document_id == id)) [
  | inl e ↦ rw (e, allocated_total-matching id type as')
  | inr e ↦ rw (e, allocated_total-matching id type as') (sym (zero-+ℤ (amount_to id as')))
]

allocated_total-allocations_to :
    (id : ℕ) (p : Payment)
    → allocated_total (allocations_to id p)
      ≡ (if counted none p then amount_to id p.allocations else pos 0)
allocated_total-allocations_to id p = elim (Bool-cases (is_posted p.status)) [
  | inl e ↦ rw (counted-none p, e) (allocated_total-matching id p.payment_type p.allocations)
  | inr e ↦ rw (counted-none p, e)
]

-- The sum of the active allocations that the documents service checks a correction with is the
-- posted amount that the payments service validates with.
pub active_allocations-eq-posted_amount :
    (id : ℕ) (ps : List Payment)
    → allocated_total (active_allocations id ps) ≡ posted_amount id none ps
active_allocations-eq-posted_amount id [] = refl
active_allocations-eq-posted_amount id (p ∷ ps) =
    allocated_total-append (allocations_to id p) (active_allocations id ps)
    ∙ ap₂ ◌+ℤ◌ (allocated_total-allocations_to id p) (active_allocations-eq-posted_amount id ps)

validated_total :
    (allocations : List (PaymentType × ℤ)) (db : Db) (d candidate : Document)
    → active_allocations d.id db.payments ≡ allocations
    → validate_repost_allocations db d candidate ≡ ok tt
    → pos 0 ≤ℤ candidate.total_amount
    → allocated_total allocations ≤ℤ candidate.total_amount
unfolding validate_repost_allocations
validated_total [] db d candidate e h k = k
validated_total (a ∷ rest) db d candidate e h k =
    let (e0, h0) =
      >>-eq-ok
        (raise_if
          (not (same_option candidate.partner_id d.partner_id)
            || not (expects_payments candidate.document_type))
          409 "Reallocate posted payments before changing document partner or type")
        _ (rw e at h) in
    let (e1, h1) =
      >>-eq-ok
        (raise_if
          (any (λ (a : PaymentType × ℤ). not (expects candidate.document_type a.0)) (a ∷ rest)) 409
          "Reallocate posted payments before changing document type")
        _ h0 in
    ltb_ℤ_false→le candidate.total_amount (allocated_total (a ∷ rest))
      (raise_if-eq-ok _ 409 "Reallocate posted payments before reducing document total" h1)

-- A document found in a session with one document overwritten is that one or an old one.
pub find-put :
    (d' d : Document) (id : ℕ) (ds : List Document)
    → find
        (λ (e : Document). e.id == id)
        (update_where (λ (e : Document). e.id == d'.id) (λ _. d') ds)
      ≡ some d
    → (d ≡ d') ⊎ (find (λ (e : Document). e.id == id) ds ≡ some d)
find-put d' d id [] h = inr h
find-put d' d id (e ∷ ds) h = elim (Bool-cases (e.id == d'.id)) [
  | inl b ↦ elim (Bool-cases (d'.id == id)) [
    | inl c ↦ inl (cc (rw (b, c) at h))
    | inr c ↦ elim (find-put d' d id ds (rw (b, c) at h)) [
      | inl s ↦ inl s
      | inr f ↦ let key : e.id ≡ d'.id = ==→eq e.id d'.id b in inr (rw (key, c) f)
    ]
  ]
  | inr b ↦ elim (Bool-cases (e.id == id)) [
    | inl c ↦ inr (rw c (rw (b, c) at h))
    | inr c ↦ elim (find-put d' d id ds (rw (b, c) at h)) [ inl s ↦ inl s | inr f ↦ inr (rw c f) ]
  ]
]

corrected_total :
    (db : Db) (d : Document) (payload : DocumentRepost) (now : ℕ) (r : Document × Db)
    (p : Reposted db d payload now r)
    → pos 0 ≤ℤ r.0.total_amount
    → pos 0 ≤ℤ p.candidate.total_amount
unfolding finish_repost
corrected_total db d payload now r p h =
    subst (λ (r : Document × Db). pos 0 ≤ℤ r.0.total_amount) (sym p.result) h

-- The allocations fit the documents of a session whose corrected document has the checked total.
put_document-FitsDocuments :
    (db base : Db) (d candidate : Document)
    → SameBooks db base
    → candidate.id ≡ d.id
    → validate_repost_allocations base d candidate ≡ ok tt
    → pos 0 ≤ℤ candidate.total_amount
    → AllocationsValid db
    → FitsDocuments base.payments (put_document (reposted d candidate) base)
put_document-FitsDocuments db base d candidate books key checked total v id e found =
    elim (find-put (reposted d candidate) e id base.documents found) [
      | inl s ↦
          let here : id ≡ d.id =
            sym (
              ==→eq e.id id (
                find-satisfies (λ (e : Document). e.id == id)
                  (put_document (reposted d candidate) base).documents found))
            ∙ ap (λ (x : Document). x.id) s
            ∙ key in
          let fits =
            subst (λ x. x ≤ℤ candidate.total_amount)
              (active_allocations-eq-posted_amount d.id base.payments)
              (validated_total (active_allocations d.id base.payments) base d candidate refl checked
                total) in
          subst (λ (x : Document). posted_amount id none base.payments ≤ℤ x.total_amount) (sym s)
            (subst (λ i. posted_amount i none base.payments ≤ℤ candidate.total_amount) (sym here)
              fits)
      | inr f ↦ rw books.payments (v.fits id e (rw books.documents at f))
    ]

-- In a session with valid allocations, a successful repost_document whose corrected total is
-- not negative leaves valid allocations.
pub repost_document-AllocationsValid :
    (db : Db) (id : ℕ) (payload : DocumentRepost) (now : ℕ) (r : Document × Db)
    → pos 0 ≤ℤ r.0.total_amount
    → repost_document db id payload now ≡ ok r
    → AllocationsValid db
    → AllocationsValid r.1
unfolding load_balance_quantities
repost_document-AllocationsValid db id payload now r positive h v =
    let c = repost-Corrected db id payload now r h in
    let p = c.done in
    let start = load_balance_quantities p.base p.keys in
    let kept =
      finish_repost-kept c.d p.candidate (strip payload.reason) (active_of p.base c.d) p.planned now
        start.1 in
    let same = ap (λ (r : Document × Db). r.1) (sym p.result) in
    let payments = ap (λ (x : Db). x.payments) same ∙ kept.1 in
    let documents = ap (λ (x : Db). x.documents) same ∙ kept.0 in
    let total = corrected_total db c.d payload now r p positive in
    let fits =
      put_document-FitsDocuments db p.base c.d p.candidate p.base_books p.same_id p.allocations
        total v in
    record {
      distinct = rw (payments, p.base_books.payments) v.distinct;
      nonnegative = rw (payments, p.base_books.payments) v.nonnegative;
      fits = λ k e found.
          subst (λ ps. posted_amount k none ps ≤ℤ e.total_amount) (sym payments)
            (fits k e
              (subst (λ ds. find (λ (e : Document). e.id == k) ds ≡ some e) documents found));
    }
