-- ===== src/Payments/Effects.antt =====
-- `post_payment` and the cash balance; `get_partner_statement` and the partner's balance.
use faethon_system.Base.{
  ℕ, ℤ, pos, ◌+ℤ◌, ◌-ℤ◌, neg, int_laws, +ℤ-zero, +ℤ_assoc, zero-+ℤ, Bool, true, if◌then◌else◌,
  Bool-cases, inl, inr, List, [], ◌∷◌, map, filter, ok, or_raise, >>=-eq-ok, ok-injective, ◌≡◌,
  refl, sym, ap, ap₂, ◌∙◌,
}
use faethon_system.Base.Sort.{sort, total_where, total_where-append, total_where-sort}
use faethon_system.Models.{
  Db, Document, DocumentType, incoming, outgoing, adjustment, transfer, Payment, PaymentType,
  customer_payment, supplier_payment, refund, get_partner, put_payment, write_audit,
}
use faethon_system.Logistics.{is_posted}
use faethon_system.Cash.{get_cash_balance}
use faethon_system.Cash.Create.{create_cash_operation-balance, balance_after}
use faethon_system.Payments.{as_posted, cash_payload_for, post_payment}
use faethon_system.Payments.Keeps.{post-Posted}
use faethon_system.Payments.Statement.{
  document_balance_effect, payment_balance_effect, document_effect, payment_effect,
  is_outgoing_type, is_incoming_type, is_customer_payment, is_supplier_payment_or_refund,
  document_of, payment_by, sum_effects, partner_balance, RawRow, debit_of, credit_of, document_row,
  payment_row, row_before, StatementRow, running_rows, raw_rows, get_partner_statement,
  get_partner_balance,
}

-- what a posted payment adds to the cash balance: a customer's payment comes in, the others go out
abbrev pub cash_change : Payment → ℤ
cash_change p = elim p.payment_type [
  | supplier_payment ↦ neg p.amount
  | refund ↦ neg p.amount
  | _ ↦ p.amount
]

balance_after-payment :
    (p : Payment) (old : ℤ) → balance_after (cash_payload_for p) old ≡ old +ℤ cash_change p
unfolding cash_payload_for
balance_after-payment p old = grind int_laws

get_cash_balance-kept :
    (db db' : Db)
    → db'.cash_operations ≡ db.cash_operations
    → get_cash_balance db' ≡ get_cash_balance db
unfolding get_cash_balance
get_cash_balance-kept db db' h = rw h

-- A successful post_payment changes the cash balance by the payment's amount: down for a
-- supplier payment and a refund, up for others.
pub post_payment-cash_balance :
    (db : Db) (payment_id : ℕ) (r : Payment × Db)
    → post_payment db payment_id ≡ ok r
    → get_cash_balance r.1 ≡ get_cash_balance db +ℤ cash_change r.0
unfolding write_audit
post_payment-cash_balance db payment_id r h =
    let c = post-Posted db payment_id r h in
    let p' = as_posted c.p c.validated in
    let before = put_payment p' db in
    get_cash_balance-kept c.operation.1 r.1 (ap (λ (x : Db). x.cash_operations) c.result)
    ∙ create_cash_operation-balance before (cash_payload_for p') c.operation.0 c.operation.1
        c.creates
    ∙ balance_after-payment p' (get_cash_balance before)
    ∙ ap₂ (λ b (p : Payment). b +ℤ cash_change p) (get_cash_balance-kept db before refl)
        (sym c.payment)

abbrev net : RawRow → ℤ
net r = r.debit -ℤ r.credit

abbrev every : RawRow → Bool
every _ = true

debit_credit : (effect : ℤ) → debit_of effect -ℤ credit_of effect ≡ effect
debit_credit effect = grind int_laws

net-document_row : (d : Document) → net (document_row d) ≡ document_balance_effect d
unfolding document_row
net-document_row d = debit_credit (document_balance_effect d)

net-payment_row : (p : Payment) → net (payment_row p) ≡ payment_balance_effect p
unfolding payment_row
net-payment_row p = debit_credit (payment_balance_effect p)

document_type_effect :
    (type : DocumentType) (amount : ℤ)
    → elim type [ outgoing ↦ amount | incoming ↦ neg amount | _ ↦ pos 0 ] ≡ (
        if is_outgoing_type type
        then amount
        else if is_incoming_type type
        then neg amount
        else pos 0)
document_type_effect outgoing amount = refl
document_type_effect incoming amount = refl
document_type_effect adjustment amount = refl
document_type_effect transfer amount = refl
document_type_effect DocumentType.other amount = refl

payment_type_effect :
    (type : PaymentType) (amount : ℤ)
    → elim type [
      | customer_payment ↦ neg amount
      | supplier_payment ↦ amount
      | refund ↦ amount
      | PaymentType.other ↦ pos 0
    ]
      ≡ (if is_customer_payment type
          then neg amount
          else if is_supplier_payment_or_refund type
          then amount
          else pos 0)
payment_type_effect customer_payment amount = refl
payment_type_effect supplier_payment amount = refl
payment_type_effect refund amount = refl
payment_type_effect PaymentType.other amount = refl

-- The SQL expressions and the Python functions state the same rule.
document_effect-eq : (d : Document) → document_balance_effect d ≡ document_effect d
unfolding document_balance_effect document_effect
document_effect-eq d = elim (Bool-cases (is_posted d.status)) [
  | inl e ↦ rw e (document_type_effect d.document_type d.total_amount)
  | inr e ↦ rw e
]

payment_effect-eq : (p : Payment) → payment_balance_effect p ≡ payment_effect p
unfolding payment_balance_effect payment_effect
payment_effect-eq p = elim (Bool-cases (is_posted p.status)) [
  | inl e ↦ rw e (payment_type_effect p.payment_type p.amount)
  | inr e ↦ rw e
]

total-map {ℓ} :
    {A : Type ℓ} (row : A → RawRow) (f : A → ℤ)
    → ((x : A) → net (row x) ≡ f x)
    → (xs : List A) → total_where net every (map row xs) ≡ sum_effects f xs
total-map row f h [] = refl
total-map row f h (x ∷ xs) = ap₂ ◌+ℤ◌ (h x) (total-map row f h xs)

-- the balance of the last row
abbrev pub final_balance : ℤ → List StatementRow → ℤ
final_balance start [] = start
final_balance start ((_, balance) ∷ rows) = final_balance balance rows

final_balance-running_rows :
    (start : ℤ) (rs : List RawRow)
    → final_balance start (running_rows start rs) ≡ start +ℤ total_where net every rs
unfolding running_rows
final_balance-running_rows start [] = sym (+ℤ-zero start)
final_balance-running_rows start (r ∷ rs) =
    final_balance-running_rows (start +ℤ net r) rs
    ∙ +ℤ_assoc start (net r) (total_where net every rs)

raw_rows-total : (db : Db) (id : ℕ) → total_where net every (raw_rows db id) ≡ partner_balance db id
unfolding raw_rows partner_balance
raw_rows-total db id =
    total_where-append net every (map document_row (filter (document_of id) db.documents)) _
    ∙ ap₂ ◌+ℤ◌
        (total-map document_row document_effect (λ d. net-document_row d ∙ document_effect-eq d)
          (filter (document_of id) db.documents))
        (total-map payment_row payment_effect (λ p. net-payment_row p ∙ payment_effect-eq p)
          (filter (payment_by id) db.payments))

-- Where get_partner_statement succeeds, whose rows have the effects of the Python functions,
-- get_partner_balance succeeds too, whose sums are of the SQL expressions, and the last balance of
-- the statement is that balance.
pub get_partner_statement-balance :
    (db : Db) (partner_id : ℕ) (rows : List StatementRow)
    → get_partner_statement db partner_id ≡ ok rows
    → get_partner_balance db partner_id ≡ ok (final_balance (pos 0) rows)
unfolding get_partner_statement get_partner_balance
get_partner_statement-balance db partner_id rows h =
    let (partner, e0, h0) =
      >>=-eq-ok (or_raise (get_partner db partner_id) 404 "Partner not found") _ h in
    let ends : final_balance (pos 0) rows ≡ partner_balance db partner_id =
      ap (final_balance (pos 0)) (sym (ok-injective h0))
      ∙ final_balance-running_rows (pos 0) (sort row_before (raw_rows db partner_id))
      ∙ zero-+ℤ _
      ∙ total_where-sort net every row_before (raw_rows db partner_id)
      ∙ raw_rows-total db partner_id in
    rw (e0, ends)
