-- ===== src/Payments/Drafts.antt =====
-- `create_payment`, `update_payment` and `delete_draft_payment`, and the allocations.
use faethon_system.Base.{
  not-false, ℕ, ◌<◌, ℤ, pos, ◌+ℤ◌, ◌≤ℤ◌, +ℤ-zero, zero-+ℤ, true, false, not, ◌==◌, Bool-cases, inl,
  inr, get_or, none, some, List, [], ◌∷◌, ◌++◌, filter, All, All-append, ok, raise_if,
  raise_if-eq-ok, or_raise, >>=-eq-ok, >>-eq-ok, ok-injective, ◌≡◌, refl, sym, subst, arith,
}
use faethon_system.Models.{Db, Payment, put_payment, write_audit}
use faethon_system.Documents.Rules.{is_draft}
use faethon_system.Payments.{
  posted_amount, counted, load_payment, replace_allocations, validate_allocations,
  validate_supported_payment, validate_payment_partner, required_partner_id, PaymentCreate,
  PaymentUpdate, allocation_inputs, updated_inputs, new_payment, create_payment, update_payment,
  delete_draft_payment,
}
use faethon_system.Payments.Amounts.{OtherId, DistinctIds}
use faethon_system.Payments.Allocations.{
  NonNegative, AllocationsValid, load-found, replaced-AllocationsValid, without_fits,
}
use faethon_system.Payments.Keeps.{draft_adds_nothing, add_zero_fits, validate_allocations-inputs}

-- A new payment takes the counter as its key: no stored payment has it.
abbrev pub KeysBelow : ℕ → List Payment → Type 0
KeysBelow n ps = All (λ (p : Payment). p.id < n) ps

distinct-append :
    (n : ℕ) (ps : List Payment) (p : Payment)
    → KeysBelow n ps
    → p.id ≡ n
    → DistinctIds ps
    → DistinctIds (ps ++ p ∷ [])
distinct-append n [] p b e u = (tt, tt)
distinct-append n (q ∷ ps) p b e u =
    (All-append (OtherId q.id) ps (p ∷ []) u.0 (ground arith, tt), distinct-append n ps p b.1 e u.1)

draft_uncounted : (p : Payment) → is_draft p.status ≡ true → counted none p ≡ false
draft_uncounted p h = ground arith

posted_amount-append_draft :
    (d : ℕ) (ps : List Payment) (p : Payment)
    → is_draft p.status ≡ true
    → posted_amount d none (ps ++ p ∷ []) ≡ posted_amount d none ps
posted_amount-append_draft d [] p h = rw (draft_uncounted p h) (+ℤ-zero (pos 0))
posted_amount-append_draft d (q ∷ ps) p h = rw (posted_amount-append_draft d ps p h)

-- In a session with valid allocations whose payment keys are below the counter, a successful
-- create_payment with no negative allocation leaves valid allocations.
pub create_payment-AllocationsValid :
    (db : Db) (payload : PaymentCreate) (r : Payment × Db)
    → KeysBelow db.next_id db.payments
    → NonNegative (allocation_inputs payload)
    → create_payment db payload ≡ ok r
    → AllocationsValid db
    → AllocationsValid r.1
unfolding create_payment replace_allocations new_payment write_audit
create_payment-AllocationsValid db payload r below positive h v =
    let (e0, h0) = >>-eq-ok (validate_supported_payment payload.payment_type payload.method) _ h in
    let (e1, h1) =
      >>-eq-ok (validate_payment_partner db payload.payment_type payload.partner_id) _ h0 in
    let (validated, e2, h2) =
      >>=-eq-ok
        (validate_allocations db payload.payment_type payload.partner_id payload.amount
          (allocation_inputs payload) none)
        _ h1 in
    let p = replace_allocations (new_payment db.next_id payload) validated in
    let inputs =
      validate_allocations-inputs db payload.payment_type payload.partner_id payload.amount
        (allocation_inputs payload) none validated e2 in
    subst (λ (r : Payment × Db). AllocationsValid r.1) (ok-injective h2)
      (record {
        distinct = distinct-append db.next_id db.payments p below refl v.distinct;
        nonnegative =
            All-append (λ (q : Payment). NonNegative q.allocations) db.payments (p ∷ [])
              v.nonnegative (subst NonNegative (sym inputs) positive, tt);
        fits = λ id d e.
            subst (λ x. x ≤ℤ d.total_amount)
              (sym (posted_amount-append_draft id db.payments p refl)) (v.fits id d e);
      })

-- In a session with valid allocations, a successful update_payment whose allocations are not
-- negative leaves valid allocations.
pub update_payment-AllocationsValid :
    (db : Db) (payment_id : ℕ) (payload : PaymentUpdate) (r : Payment × Db)
    → ((p : Payment) (amount : ℤ)
        → load_payment db payment_id ≡ ok p
        → NonNegative (updated_inputs p payload amount))
    → update_payment db payment_id payload ≡ ok r
    → AllocationsValid db
    → AllocationsValid r.1
unfolding update_payment replace_allocations write_audit
update_payment-AllocationsValid db payment_id payload r positive h v =
    let (p, e0, h0) = >>=-eq-ok (load_payment db payment_id) _ h in
    let (e1, h1) =
      >>-eq-ok (raise_if (not (is_draft p.status)) 409 "Only draft payments can be edited") _ h0 in
    let (type, e2, h2) =
      >>=-eq-ok
        (or_raise (get_or payload.payment_type (some p.payment_type)) 422
          "Payment type is required")
        _ h1 in
    let (partner_id, e3, h3) =
      >>=-eq-ok (required_partner_id (get_or payload.partner_id p.partner_id)) _ h2 in
    let (e4, h4) =
      >>-eq-ok (validate_supported_payment type (get_or payload.method p.method)) _ h3 in
    let (e5, h5) = >>-eq-ok (validate_payment_partner db type partner_id) _ h4 in
    let (amount, e6, h6) =
      >>=-eq-ok (or_raise (get_or payload.amount (some p.amount)) 422 "Payment amount is required")
        _ h5 in
    let (validated, e7, h7) =
      >>=-eq-ok
        (validate_allocations db type partner_id amount (updated_inputs p payload amount) none) _
        h6 in
    let draft =
      not-false (is_draft p.status) (raise_if-eq-ok _ 409 "Only draft payments can be edited" e1) in
    let inputs =
      validate_allocations-inputs db type partner_id amount (updated_inputs p payload amount) none
        validated e7 in
    let found = load-found db payment_id p e0 in
    let changed : Payment = record p {
      partner_id = some partner_id;
      payment_date = get_or payload.payment_date p.payment_date;
      payment_type = type;
      amount = amount;
      method = get_or payload.method p.method;
      note = get_or payload.note p.note;
    } in
    let p' = replace_allocations changed validated in
    subst (λ (r : Payment × Db). AllocationsValid r.1) (ok-injective h7)
      (replaced-AllocationsValid db (write_audit (put_payment p' db) "payment" p.id "update") p p' v
        found (subst NonNegative (sym inputs) (positive p amount e0)) refl refl
        (λ id d e.
          subst (λ (x : ℤ). posted_amount id (some p.id) db.payments +ℤ x ≤ℤ d.total_amount)
            (sym (draft_adds_nothing id p' draft))
            (add_zero_fits _ _ (without_fits db p id d v found e))))

abbrev others : ℕ → List Payment → List Payment
others k ps = filter (λ (q : Payment). not (q.id == k)) ps

All-others {κ} : (P : Payment → Type κ) (k : ℕ) (ps : List Payment) → All P ps → All P (others k ps)
All-others P k [] h = tt
All-others P k (q ∷ ps) h = elim (Bool-cases (q.id == k)) [
  | inl e ↦ rw e (All-others P k ps h.1)
  | inr e ↦ rw e (h.0, All-others P k ps h.1)
]

distinct-others : (k : ℕ) (ps : List Payment) → DistinctIds ps → DistinctIds (others k ps)
distinct-others k [] h = tt
distinct-others k (q ∷ ps) h = elim (Bool-cases (q.id == k)) [
  | inl e ↦ rw e (distinct-others k ps h.1)
  | inr e ↦ rw e (All-others (OtherId q.id) k ps h.0, distinct-others k ps h.1)
]

counted_other : (k : ℕ) (q : Payment) → (q.id == k) ≡ false → counted none q ≡ counted (some k) q
counted_other k q h = ground arith

counted_excluded : (k : ℕ) (q : Payment) → (q.id == k) ≡ true → counted (some k) q ≡ false
counted_excluded k q h = ground arith

posted_amount-others :
    (d k : ℕ) (ps : List Payment) → posted_amount d none (others k ps) ≡ posted_amount d (some k) ps
posted_amount-others d k [] = refl
posted_amount-others d k (q ∷ ps) = elim (Bool-cases (q.id == k)) [
  | inl e ↦
      rw (e, counted_excluded k q e, posted_amount-others d k ps)
        (sym (zero-+ℤ (posted_amount d (some k) ps)))
  | inr e ↦ rw (e, counted_other k q e, posted_amount-others d k ps)
]

-- In a session with valid allocations, a successful delete_draft_payment leaves valid
-- allocations.
pub delete_draft_payment-AllocationsValid :
    (db : Db) (payment_id : ℕ) (db' : Db)
    → delete_draft_payment db payment_id ≡ ok db'
    → AllocationsValid db
    → AllocationsValid db'
unfolding delete_draft_payment write_audit
delete_draft_payment-AllocationsValid db payment_id db' h v =
    let (p, e0, h0) = >>=-eq-ok (load_payment db payment_id) _ h in
    let (e1, h1) =
      >>-eq-ok (raise_if (not (is_draft p.status)) 409 "Only draft payments can be deleted") _ h0 in
    let found = load-found db payment_id p e0 in
    subst AllocationsValid (ok-injective h1) (record {
      distinct = distinct-others p.id db.payments v.distinct;
      nonnegative =
          All-others (λ (q : Payment). NonNegative q.allocations) p.id db.payments v.nonnegative;
      fits = λ id d e.
          rw (posted_amount-others id p.id db.payments) (without_fits db p id d v found e);
    })
