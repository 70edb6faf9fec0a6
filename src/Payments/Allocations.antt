-- ===== src/Payments/Allocations.antt =====
-- The invariant of payment allocations: how posted payments share the totals of documents.
use faethon_system.Base.{
  find-update_where, ℕ, ℤ, pos, ◌+ℤ◌, ◌-ℤ◌, ◌≤ℤ◌, max_ℤ, int_laws, Bool, ◌==◌, ==→eq, ==-refl,
  Bool-cases, inl, inr, Option, none, some, List, [], ◌∷◌, find, find-satisfies, update_where, All,
  ok, or_raise-eq-ok, ◌≡◌, refl, sym, ap, subst, ◌∙◌, arith,
}
use faethon_system.Models.{Db, Document, Payment, PaymentAllocation, get_document, get_payment}
use faethon_system.Logistics.{is_posted}
use faethon_system.Payments.{amount_to, posted_amount, outstanding, load_payment}
use faethon_system.Payments.Amounts.{
  contribution, OtherId, DistinctIds, posted_amount-split, posted_amount-put_excluded,
}

-- The request schema's bound on an allocation.
abbrev pub NonNegative : List PaymentAllocation → Type 0
NonNegative as' = All (λ (a : PaymentAllocation). pos 0 ≤ℤ a.amount) as'

abbrev pub FitsDocuments : List Payment → Db → Type 0
FitsDocuments ps db =
    (id : ℕ) (d : Document)
    → get_document db id ≡ some d
    → posted_amount id none ps ≤ℤ d.total_amount

pub record AllocationsValid (db : Db) : Type 0 where
  pub distinct : DistinctIds db.payments
  pub nonnegative : All (λ (p : Payment). NonNegative p.allocations) db.payments
  pub fits : FitsDocuments db.payments db

abbrev pub replaced : Payment → List Payment → List Payment
replaced p ps = update_where (λ (q : Payment). q.id == p.id) (λ _. p) ps

OtherId-replaced :
    (k : ℕ) (p : Payment) (ps : List Payment) → All (OtherId k) ps → All (OtherId k) (replaced p ps)
OtherId-replaced k p [] h = tt
OtherId-replaced k p (q ∷ ps) h = (ground arith, OtherId-replaced k p ps h.1)

distinct-replaced : (p : Payment) (ps : List Payment) → DistinctIds ps → DistinctIds (replaced p ps)
distinct-replaced p [] h = tt
distinct-replaced p (q ∷ ps) h = elim (Bool-cases (q.id == p.id)) [
  | inl e ↦ rw e (
    subst (λ i. All (OtherId i) (replaced p ps)) (==→eq q.id p.id e)
        (OtherId-replaced q.id p ps h.0),
    distinct-replaced p ps h.1,
  )
  | inr e ↦ rw e (OtherId-replaced q.id p ps h.0, distinct-replaced p ps h.1)
]

nonnegative-replaced :
    (p : Payment) (ps : List Payment)
    → NonNegative p.allocations
    → All (λ (q : Payment). NonNegative q.allocations) ps
    → All (λ (q : Payment). NonNegative q.allocations) (replaced p ps)
nonnegative-replaced p [] h k = tt
nonnegative-replaced p (q ∷ ps) h k = elim (Bool-cases (q.id == p.id)) [
  | inl e ↦ rw e (h, nonnegative-replaced p ps h k.1)
  | inr e ↦ rw e (k.0, nonnegative-replaced p ps h k.1)
]

pub All-find {κ} :
    (P : Payment → Type κ) (f : Payment → Bool) (ps : List Payment) (p : Payment)
    → All P ps
    → find f ps ≡ some p
    → P p
All-find P f [] p h e = absurd (cc e)
All-find P f (q ∷ ps) p h e = elim (Bool-cases (f q)) [
  | inl b ↦ subst P (cc (rw b at e)) h.0
  | inr b ↦ All-find P f ps p h.1 (rw b at e)
]

-- The amount of a document once a payment is replaced by a new version of it.
amount-replaced :
    (d : ℕ) (ps : List Payment) (p p' : Payment)
    → DistinctIds ps
    → find (λ (q : Payment). q.id == p'.id) ps ≡ some p
    → posted_amount d none (replaced p' ps) ≡ posted_amount d (some p'.id) ps +ℤ contribution d p'
amount-replaced d ps p p' u h =
    posted_amount-split d p'.id (replaced p' ps) p' (distinct-replaced p' ps u)
      (find-update_where (λ (q : Payment). q.id) p'.id p p' ps h (==-refl p'.id))
    ∙ ap (λ t. t +ℤ contribution d p') (posted_amount-put_excluded d p'.id ps p' refl)

amount_to_nonneg :
    (d : ℕ) (as' : List PaymentAllocation) → NonNegative as' → pos 0 ≤ℤ amount_to d as'
amount_to_nonneg d [] h = grind int_laws
amount_to_nonneg d (a ∷ as') h =
    let rest = amount_to_nonneg d as' h.1 in
    let first = h.0 in
    elim (Bool-cases (a.document_id == d)) [
      | inl e ↦ rw e (omega int_laws)
      | inr e ↦ rw e (omega int_laws)
    ]

max_fits : (t o a : ℤ) → o ≤ℤ t → a ≤ℤ max_ℤ (t -ℤ o) (pos 0) → o +ℤ a ≤ℤ t
max_fits t o a h k = grind int_laws

contribution_nonneg : (d : ℕ) (p : Payment) → NonNegative p.allocations → pos 0 ≤ℤ contribution d p
contribution_nonneg d p h = elim (Bool-cases (is_posted p.status)) [
  | inl e ↦ rw e (amount_to_nonneg d p.allocations h)
  | inr e ↦ rw e (omega int_laws)
]

-- A document's amount without a payment, and with what the payment adds.
pub amount_without :
    (d : ℕ) (ps : List Payment) (p : Payment)
    → DistinctIds ps
    → find (λ (q : Payment). q.id == p.id) ps ≡ some p
    → posted_amount d none ps ≡ posted_amount d (some p.id) ps +ℤ contribution d p
amount_without d ps p u h = posted_amount-split d p.id ps p u h

-- A loaded payment stands in the table under its own key.
pub load-found :
    (db : Db) (id : ℕ) (p : Payment)
    → load_payment db id ≡ ok p
    → find (λ (q : Payment). q.id == p.id) db.payments ≡ some p
unfolding load_payment
load-found db id p h =
    let found = or_raise-eq-ok (get_payment db id) 404 "Payment not found" h in
    let key : p.id ≡ id =
      ==→eq p.id id (find-satisfies (λ (q : Payment). q.id == id) db.payments found) in
    subst (λ i. find (λ (q : Payment). q.id == i) db.payments ≡ some p) (sym key) found

-- A call that stores a new version of a payment keeps the invariant if the version's own
-- allocations fit beside those of the other payments.
pub replaced-AllocationsValid :
    (db db' : Db) (p p' : Payment)
    → AllocationsValid db
    → find (λ (q : Payment). q.id == p'.id) db.payments ≡ some p
    → NonNegative p'.allocations
    → db'.payments ≡ replaced p' db.payments
    → db'.documents ≡ db.documents
    → ((id : ℕ) (d : Document)
        → get_document db id ≡ some d
        → posted_amount id (some p'.id) db.payments +ℤ contribution id p' ≤ℤ d.total_amount)
    → AllocationsValid db'
replaced-AllocationsValid db db' p p' v found positive stored same fit = record {
  distinct = rw stored (distinct-replaced p' db.payments v.distinct);
  nonnegative = rw stored (nonnegative-replaced p' db.payments positive v.nonnegative);
  fits = λ id d e.
      rw (stored, amount-replaced id db.payments p p' v.distinct found) (fit id d (rw same at e));
}

part_fits : (a b c t : ℤ) → a ≡ b +ℤ c → a ≤ℤ t → pos 0 ≤ℤ c → b ≤ℤ t
part_fits a b c t e h k = let whole = subst (λ (x : ℤ). x ≤ℤ t) e h in omega int_laws

-- What the other payments leave is within the total.
pub without_fits :
    (db : Db) (p : Payment) (id : ℕ) (d : Document)
    → AllocationsValid db
    → find (λ (q : Payment). q.id == p.id) db.payments ≡ some p
    → get_document db id ≡ some d
    → posted_amount id (some p.id) db.payments ≤ℤ d.total_amount
without_fits db p id d v found e =
    let split = amount_without id db.payments p v.distinct found in
    let whole = v.fits id d e in
    let own = contribution_nonneg id p (
      All-find (λ (q : Payment). NonNegative q.allocations) (λ q. q.id == p.id) db.payments p
        v.nonnegative found) in
    part_fits _ _ _ _ split whole own

-- An amount that is no more than the outstanding one fits beside the others.
pub outstanding_fits :
    (db : Db) (excluded : Option ℕ) (id : ℕ) (d : Document) (amount : ℤ)
    → get_document db id ≡ some d
    → posted_amount id excluded db.payments ≤ℤ d.total_amount
    → amount ≤ℤ outstanding db excluded d
    → posted_amount id excluded db.payments +ℤ amount ≤ℤ d.total_amount
outstanding_fits db excluded id d amount e h k =
    let key : d.id ≡ id =
      ==→eq d.id id (find-satisfies (λ (q : Document). q.id == id) db.documents e) in
    let k' =
      subst (λ i. amount ≤ℤ max_ℤ (d.total_amount -ℤ posted_amount i excluded db.payments) (pos 0))
        key k in
    max_fits d.total_amount (posted_amount id excluded db.payments) amount h k'
