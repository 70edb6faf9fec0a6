-- ===== src/Imports/Debts.antt =====
-- `_apply_opening_partner_balances` of backend/app/services/import_service.py, and the balances of
-- partners after it. The number of a document is unique in its table, which is tested here row by
-- row; the database tests it at the commit.
use faethon_system.Base.{
  ℕ, ◌+◌, ◌==◌, ℤ, pos, ◌+ℤ◌, abs, eqb_ℤ, ltb_ℤ, int_laws, Bool, true, false, Option, none, some,
  get_or, List, [], ◌∷◌, ◌++◌, any, filter, Text, text, Result, ok, err, crash, ◌>>=◌, ◌>>◌,
  >>=-eq-ok, >>-eq-ok, ok-injective, if◌then◌else◌, ◌≡◌, refl, ap, subst, ◌∙◌, arith, Bool-cases,
  inl, inr,
}
use faethon_system.Models.{Db, Document, incoming, outgoing, Status}
use faethon_system.Documents.Rules.{base_currency_code, one_rate, same_text}
use faethon_system.Documents.Numbers.{print_number}
use faethon_system.Payments.Statement.{document_effect, document_of, sum_effects, partner_balance}
use faethon_system.Imports.{Row, value_of, Python}
use faethon_system.Imports.Stock.{Catalog, Named, find_named, or_crash}
use faethon_system.Imports.Clean.{or_crash-eq-ok}

abbrev pub partner_of : Catalog → Row → Option Named
partner_of s row = find_named s.named_partners (value_of (text "partner_name") row)

abbrev pub opening_number : Named → Text
opening_number partner = text "OPEN-" ++ print_number partner.id

abbrev pub is_positive : ℤ → Bool
is_positive balance = ltb_ℤ (pos 0) balance

-- The special document of a balance, with the defaults of the other columns.
abbrev pub opening_document : ℕ → ℕ → Named → ℤ → Document
opening_document id today partner balance = record {
  id = id;
  document_type = if is_positive balance then outgoing else incoming;
  number = opening_number partner;
  document_date = today;
  status = Status.posted;
  partner_id = some partner.id;
  warehouse_id = none;
  destination_warehouse_id = none;
  total_amount = abs balance;
  currency_code = base_currency_code;
  exchange_rate = one_rate;
  foreign_total_amount = pos 0;
  posting_version = 0;
  note = some (text "opening-partner-balance import");
  lines = [];
}

abbrev pub add_document : Document → Db → Db
add_document d db = record db { next_id = db.next_id + 1; documents = db.documents ++ d ∷ [] }

-- the refusal of a second document with the number
abbrev pub unique_number : Text → Db → Result (Unit {0})
unique_number number db =
    if any (λ (d : Document). same_text d.number number) db.documents
    then err (crash "IntegrityError")
    else ok tt

module _ (python : Python) (s : Catalog) (today : ℕ) where
  unfoldable pub apply_balance_row : Row → Db × ℕ → Result (Db × ℕ)
  apply_balance_row row state = do
    partner ← or_crash (partner_of s row)
    balance ← or_crash (python.decimal 2 (value_of (text "balance") row))
    if eqb_ℤ balance (pos 0)
        then ok state
        else (unique_number (opening_number partner) state.0
            >> ok (
              add_document (opening_document state.0.next_id today partner balance) state.0,
              state.1 + 1,
            ))

  unfoldable pub apply_opening_partner_balances : List Row → Db × ℕ → Result (Db × ℕ)
  apply_opening_partner_balances [] state = ok state
  apply_opening_partner_balances (row ∷ rows) state =
      apply_balance_row row state >>= (λ (next : Db × ℕ). apply_opening_partner_balances rows next)

-- What a row gives to the balance of a partner.
abbrev pub share_of : Python → Catalog → ℕ → Row → ℤ
share_of python s k row = elim (partner_of s row) [
  | none ↦ pos 0
  | some partner ↦
      if partner.id == k
      then get_or (python.decimal 2 (value_of (text "balance") row)) (pos 0)
      else pos 0
]

opening_effect :
    (id today : ℕ) (partner : Named) (balance : ℤ)
    → document_effect (opening_document id today partner balance) ≡ balance
unfolding document_effect
opening_effect id today partner balance = elim (Bool-cases (is_positive balance)) [
  | inl e ↦ let whole : ltb_ℤ balance (pos 0) ≡ false = ground arith in rw (e, whole)
  | inr e ↦ elim (Bool-cases (ltb_ℤ balance (pos 0))) [
    | inl negative ↦ rw (e, negative) (omega int_laws)
    | inr zero_one ↦ rw (e, zero_one) (grind (arith, int_laws))
  ]
]

effects-append :
    (k : ℕ) (documents : List Document) (d : Document)
    → sum_effects document_effect (filter (document_of k) (documents ++ d ∷ []))
      ≡ sum_effects document_effect (filter (document_of k) documents)
        +ℤ (if document_of k d then document_effect d else pos 0)
effects-append k [] d = elim (Bool-cases (document_of k d)) [
  | inl e ↦ rw e (omega int_laws)
  | inr e ↦ rw e (omega int_laws)
]
effects-append k (c ∷ cs) d = elim (Bool-cases (document_of k c)) [
  | inl e ↦ rw (e, effects-append k cs d) (omega int_laws)
  | inr e ↦ rw (e, effects-append k cs d)
]

add_document-balance :
    (k : ℕ) (d : Document) (db : Db)
    → partner_balance (add_document d db) k
      ≡ partner_balance db k +ℤ (if document_of k d then document_effect d else pos 0)
unfolding partner_balance
add_document-balance k d db = rw (effects-append k db.documents d) (omega int_laws)

module _ (python : Python) (s : Catalog) (today k : ℕ) where
  share_found :
      (row : Row) (partner : Named) (balance : ℤ)
      → partner_of s row ≡ some partner
      → python.decimal 2 (value_of (text "balance") row) ≡ some balance
      → share_of python s k row ≡ (if partner.id == k then balance else pos 0)
  share_found row partner balance e f = rw (share_of, e) (rw f refl)

  zero_share :
      (same : Bool) (balance : ℤ)
      → eqb_ℤ balance (pos 0) ≡ true
      → (if same then balance else pos 0) ≡ pos 0
  zero_share true balance h = ground arith
  zero_share false balance h = refl

  apply_balance_row-balance :
      (row : Row) (state state' : Db × ℕ)
      → apply_balance_row python s today row state ≡ ok state'
      → partner_balance state'.0 k ≡ partner_balance state.0 k +ℤ share_of python s k row
  unfolding apply_balance_row
  apply_balance_row-balance row state state' h =
      let (partner, e0, h0) = >>=-eq-ok (or_crash (partner_of s row)) _ h in
      let (balance, e1, h1) =
        >>=-eq-ok (or_crash (python.decimal 2 (value_of (text "balance") row))) _ h0 in
      let share =
        share_found row partner balance (or_crash-eq-ok (partner_of s row) e0)
          (or_crash-eq-ok (python.decimal 2 (value_of (text "balance") row)) e1) in
      let d = opening_document state.0.next_id today partner balance in
      elim (Bool-cases (eqb_ℤ balance (pos 0))) [
        | inl e ↦
            subst
              (λ (w : Db × ℕ).
                partner_balance w.0 k ≡ partner_balance state.0 k +ℤ share_of python s k row)
              (ok-injective (rw e at h1))
              (rw (share, zero_share (partner.id == k) balance e) (omega int_laws))
        | inr e ↦
            let (unique, h2) =
              >>-eq-ok (unique_number (opening_number partner) state.0) _ (rw e at h1) in
            subst
              (λ (w : Db × ℕ).
                partner_balance w.0 k ≡ partner_balance state.0 k +ℤ share_of python s k row)
              (ok-injective h2)
              (add_document-balance k d state.0
                ∙ rw (share, opening_effect state.0.next_id today partner balance) refl)
      ]

  -- What the rows give to the balance of the partner.
  abbrev pub total_share : List Row → ℤ
  total_share [] = pos 0
  total_share (row ∷ rows) = share_of python s k row +ℤ total_share rows

  -- An import of opening partner balances that returns changes the balance of every partner by the sum
  -- of the balances that the rows give for it.
  pub apply_opening_partner_balances-balance :
      (rows : List Row) (state state' : Db × ℕ)
      → apply_opening_partner_balances python s today rows state ≡ ok state'
      → partner_balance state'.0 k ≡ partner_balance state.0 k +ℤ total_share rows
  unfolding apply_opening_partner_balances
  apply_opening_partner_balances-balance [] state state' h =
      subst (λ (w : Db × ℕ). partner_balance w.0 k ≡ partner_balance state.0 k +ℤ pos 0)
        (ok-injective h) (omega int_laws)
  apply_opening_partner_balances-balance (row ∷ rows) state state' h =
      let (next, e, h') =
        >>=-eq-ok (apply_balance_row python s today row state)
          (λ (next : Db × ℕ). apply_opening_partner_balances python s today rows next) h in
      apply_opening_partner_balances-balance rows next state' h'
      ∙ ap (λ b. b +ℤ total_share rows) (apply_balance_row-balance row state next e)
      ∙ omega int_laws
