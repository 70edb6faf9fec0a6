-- ===== src/Documents/Stock/Plan.antt =====
-- What `_plan_document_movements` computes: movements, and quantities moved by them.
use faethon_system.Base.{
  ℕ, ℤ, pos, ◌+ℤ◌, ◌≤ℤ◌, int_laws, false, if◌then◌else◌, Bool-cases, inl, inr, Option, none, some,
  List, [], ◌∷◌, ◌++◌, any, All, ok, >>=-eq-ok, ok-injective, ◌≡◌, refl, sym, ap, subst, ◌∙◌, arith,
}
use faethon_system.Models.{DocumentLine, DocumentType, incoming, outgoing, adjustment, transfer}
use faethon_system.Documents.Stock.{
  Key, same_key, Quantities, lookup_key, set_key, read_key, add_to_key, Movement, movement_key,
  line_delta, receive_line, plan_line, plan_lines, plan_destination, negative_entry,
  check_nonnegative, plan_document_movements, required_warehouse_id,
}
use faethon_system.Documents.Stock.Keys.{
  keys_of, keys_of-set_key, lookup_key-set_key, read_key-eq-ok, same_key→eq,
}

-- The sum of a key's movements.
abbrev pub moved : Key → List Movement → ℤ
moved k [] = pos 0
moved k (m ∷ ms) = (if same_key (movement_key m) k then m.2 else pos 0) +ℤ moved k ms

abbrev pub shift : ℤ → Option ℤ → Option ℤ
shift d none = none
shift d (some q) = some (q +ℤ d)

-- The movements lead from one dict of quantities to another, key by key.
pub record Moves (qs : Quantities) (ms : List Movement) (qs' : Quantities) : Type 0 where
  pub keys : keys_of qs' ≡ keys_of qs
  pub at : (k : Key) → lookup_key k qs' ≡ shift (moved k ms) (lookup_key k qs)
  pub only : (k : Key) → lookup_key k qs ≡ none → moved k ms ≡ pos 0

pub moved-append : (k : Key) (ms ns : List Movement) → moved k (ms ++ ns) ≡ moved k ms +ℤ moved k ns
moved-append k [] ns = omega int_laws
moved-append k (m ∷ ms) ns = rw (moved-append k ms ns) (omega int_laws)

shift_zero : (o : Option ℤ) → o ≡ shift (pos 0) o
shift_zero none = refl
shift_zero (some q) = ap some (omega int_laws)

shift-shift : (d e : ℤ) (o : Option ℤ) → shift e (shift d o) ≡ shift (d +ℤ e) o
shift-shift d e none = refl
shift-shift d e (some q) = ap some (omega int_laws)

pub Moves-refl : (qs : Quantities) → Moves qs [] qs
Moves-refl qs = record { keys = refl; at = λ k. shift_zero (lookup_key k qs); only = λ k h. refl }

pub Moves-trans :
    (qs : Quantities) (ms : List Movement) (qs' : Quantities) (ns : List Movement)
    (qs'' : Quantities)
    → Moves qs ms qs'
    → Moves qs' ns qs''
    → Moves qs (ms ++ ns) qs''
Moves-trans qs ms qs' ns qs'' a b = record {
  keys = b.keys ∙ a.keys;
  at = λ k.
      b.at k
      ∙ ap (shift (moved k ns)) (a.at k)
      ∙ shift-shift (moved k ms) (moved k ns) (lookup_key k qs)
      ∙ ap (λ d. shift d (lookup_key k qs)) (sym (moved-append k ms ns));
  only = λ k h.
      let gone : lookup_key k qs' ≡ none = a.at k ∙ ap (shift (moved k ms)) h in
      rw (moved-append k ms ns, a.only k h, b.only k gone) (omega int_laws);
}

-- a write of the old value plus a delta is one movement
pub Moves-set_key :
    (p w : ℕ) (q delta : ℤ) (qs : Quantities)
    → lookup_key (p, w) qs ≡ some q
    → Moves qs ((p, w, delta) ∷ []) (set_key (p, w) (q +ℤ delta) qs)
Moves-set_key p w q delta qs h = record {
  keys = keys_of-set_key (p, w) (q +ℤ delta) qs h;
  at = λ k. lookup_key-set_key k (p, w) (q +ℤ delta) qs ∙ elim (Bool-cases (same_key (p, w) k)) [
    | inl e ↦ rw (e, ← same_key→eq (p, w) k e, h) (ap some (omega int_laws))
    | inr e ↦
        rw e (shift_zero (lookup_key k qs) ∙ ap (λ d. shift d (lookup_key k qs)) (omega int_laws))
  ];
  only = λ k g. elim (Bool-cases (same_key (p, w) k)) [
    | inl e ↦ absurd (cc (rw (← same_key→eq (p, w) k e) at g, h))
    | inr e ↦ rw e (omega int_laws)
  ];
}

pub add_to_key-Moves :
    (p w : ℕ) (delta : ℤ) (qs qs' : Quantities)
    → add_to_key (p, w) delta qs ≡ ok qs'
    → Moves qs ((p, w, delta) ∷ []) qs'
unfolding add_to_key
add_to_key-Moves p w delta qs qs' h =
    let (q, e, h1) = >>=-eq-ok (read_key (p, w) qs) _ h in
    rw (← (ok-injective h1)) (Moves-set_key p w q delta qs (read_key-eq-ok (p, w) qs e))

-- A plan's result: the movements, and the quantities that they lead to.
abbrev pub MovesTo : Quantities → List Movement × Quantities → Type 0
MovesTo qs r = Moves qs r.0 r.1

no_second_line :
    (qs : Quantities) (r : List Movement × Quantities) → ok ([], qs) ≡ ok r → MovesTo qs r
no_second_line qs r h = subst (MovesTo qs) (ok-injective h) (Moves-refl qs)

receive_line-Moves :
    (type : DocumentType) (d : Option ℕ) (line : DocumentLine) (qs : Quantities)
    (r : List Movement × Quantities)
    → receive_line type d line qs ≡ ok r
    → MovesTo qs r
unfolding receive_line
receive_line-Moves transfer none line qs r h = absurd (cc h)
receive_line-Moves transfer (some d) line qs r h =
    let (q, e, h1) = >>=-eq-ok (add_to_key (line.product_id, d) line.quantity qs) _ h in
    subst (MovesTo qs) (ok-injective h1) (add_to_key-Moves line.product_id d line.quantity qs q e)
receive_line-Moves incoming d line qs r h = no_second_line qs r h
receive_line-Moves outgoing d line qs r h = no_second_line qs r h
receive_line-Moves adjustment d line qs r h = no_second_line qs r h
receive_line-Moves DocumentType.other d line qs r h = no_second_line qs r h

plan_line-Moves :
    (type : DocumentType) (w : ℕ) (d : Option ℕ) (line : DocumentLine) (qs : Quantities)
    (r : List Movement × Quantities)
    → plan_line type w d line qs ≡ ok r
    → MovesTo qs r
unfolding plan_line
plan_line-Moves type w d line qs r h =
    let (current, e0, h0) = >>=-eq-ok (read_key (line.product_id, w) qs) _ h in
    let (delta, e1, h1) = >>=-eq-ok (line_delta type current line.quantity) _ h0 in
    let (qs', e2, h2) = >>=-eq-ok (add_to_key (line.product_id, w) delta qs) _ h1 in
    let (received, e3, h3) = >>=-eq-ok (receive_line type d line qs') _ h2 in
    subst (MovesTo qs) (ok-injective h3) (
      Moves-trans qs ((line.product_id, w, delta) ∷ []) qs' received.0 received.1
        (add_to_key-Moves line.product_id w delta qs qs' e2)
        (receive_line-Moves type d line qs' received e3))

plan_lines-Moves :
    (type : DocumentType) (w : ℕ) (d : Option ℕ) (lines : List DocumentLine) (qs : Quantities)
    (r : List Movement × Quantities)
    → plan_lines type w d lines qs ≡ ok r
    → MovesTo qs r
unfolding plan_lines
plan_lines-Moves type w d [] qs r h = subst (MovesTo qs) (ok-injective h) (Moves-refl qs)
plan_lines-Moves type w d (line ∷ lines) qs r h =
    let (first, e0, h0) = >>=-eq-ok (plan_line type w d line qs) _ h in
    let (rest, e1, h1) = >>=-eq-ok (plan_lines type w d lines first.1) _ h0 in
    subst (MovesTo qs) (ok-injective h1) (
      Moves-trans qs first.0 first.1 rest.0 rest.1 (plan_line-Moves type w d line qs first e0)
        (plan_lines-Moves type w d lines first.1 rest e1))

abbrev pub NonNegative : Quantities → Type 0
NonNegative qs = All (λ (e : Key × ℤ). pos 0 ≤ℤ e.1) qs

entries_nonneg : (qs : Quantities) → any negative_entry qs ≡ false → NonNegative qs
entries_nonneg [] h = tt
entries_nonneg ((k, q) ∷ qs) h = (ground arith, entries_nonneg qs (ground arith))

check_nonnegative-eq-ok :
    (planned r : List Movement × Quantities)
    → check_nonnegative planned ≡ ok r
    → (planned ≡ r) × NonNegative planned.1
unfolding check_nonnegative
check_nonnegative-eq-ok planned r h = elim (Bool-cases (any negative_entry planned.1)) [
  | inl e ↦ absurd (cc (rw e at h))
  | inr e ↦ (ok-injective (rw e at h), entries_nonneg planned.1 e)
]

-- A plan that succeeds moves every quantity by the sum of that key's planned movements, over the
-- same keys, and leaves no quantity below zero.
pub plan_document_movements-Moves :
    (type : DocumentType) (warehouse destination : Option ℕ) (lines : List DocumentLine)
    (starting : Quantities) (r : List Movement × Quantities)
    → plan_document_movements type warehouse destination lines starting ≡ ok r
    → Moves starting r.0 r.1 × NonNegative r.1
unfolding plan_document_movements
plan_document_movements-Moves type warehouse destination lines starting r h =
    let (w, e0, h0) = >>=-eq-ok (required_warehouse_id warehouse) _ h in
    let (d, e1, h1) = >>=-eq-ok (plan_destination type destination) _ h0 in
    let (planned, e2, h2) = >>=-eq-ok (plan_lines type w d lines starting) _ h1 in
    let (same, nonneg) = check_nonnegative-eq-ok planned r h2 in
    subst (λ r. MovesTo starting r × NonNegative r.1) same
      (plan_lines-Moves type w d lines starting planned e2, nonneg)
