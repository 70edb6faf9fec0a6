-- ===== src/Documents/Posting/Totality.antt =====
-- The lookups of `_plan_document_movements`, line by line.
use faethon_system.Base.{
  ℕ, ℤ, ◌+ℤ◌, ltb_ℤ, Bool-cases, inl, inr, any, All, Option, none, some, List, [], ◌∷◌, ok, err,
  crash, ◌>>=◌, >>=-eq-ok, ok-injective, or_raise-eq-ok, ◌≡◌, refl, sym, ap, subst, ◌∙◌,
}
use faethon_system.Base.Crashes.{RulesOnly, RulesOnly-bind, RulesOnly-or_raise}
use faethon_system.Models.{DocumentLine, DocumentType, incoming, outgoing, adjustment, transfer}
use faethon_system.Documents.Stock.{
  Key, Quantities, Movement, lookup_key, set_key, read_key, add_to_key, line_delta, receive_line,
  plan_line, plan_lines, check_nonnegative, negative_entry, plan_document_movements,
  plan_destination, required_warehouse_id,
}
use faethon_system.Documents.Posting.Crashes.{Has, Has-set_key, All-map}

-- The quantities have the keys that a line reads.
abbrev pub Reads : ℕ → Option ℕ → Quantities → DocumentLine → Type 0
Reads w d qs l = Has (l.product_id, w) qs × ((e : ℕ) → d ≡ some e → Has (l.product_id, e) qs)

line_delta-RulesOnly : (type : DocumentType) (a b : ℤ) → RulesOnly (line_delta type a b)
unfolding line_delta
line_delta-RulesOnly incoming a b = tt
line_delta-RulesOnly outgoing a b = elim (Bool-cases (ltb_ℤ a b)) [
  | inl e ↦ rw e tt
  | inr e ↦ rw e tt
]
line_delta-RulesOnly adjustment a b = tt
line_delta-RulesOnly transfer a b = elim (Bool-cases (ltb_ℤ a b)) [
  | inl e ↦ rw e tt
  | inr e ↦ rw e tt
]
line_delta-RulesOnly DocumentType.other a b = tt

read_key-ok : (k : Key) (qs : Quantities) (q : ℤ) → lookup_key k qs ≡ some q → read_key k qs ≡ ok q
read_key-ok k qs q h =
    ap (λ (o : Option ℤ). elim o [ none ↦ err (crash "KeyError") | some v ↦ ok v ]) h

add_to_key-ok :
    (k : Key) (v : ℤ) (qs : Quantities) (h : Has k qs)
    → add_to_key k v qs ≡ ok (set_key k (h.0 +ℤ v) qs)
unfolding add_to_key
add_to_key-ok k v qs (q, h) =
    ap (λ r. r >>= λ q'. ok (set_key k (q' +ℤ v) qs)) (read_key-ok k qs q h)

receive_line-RulesOnly :
    (type : DocumentType) (d : Option ℕ) (l : DocumentLine) (qs : Quantities)
    → ((e : ℕ) → d ≡ some e → Has (l.product_id, e) qs)
    → RulesOnly (receive_line type d l qs)
unfolding receive_line
receive_line-RulesOnly transfer none l qs h = tt
receive_line-RulesOnly transfer (some e) l qs h =
    rw (add_to_key-ok (l.product_id, e) l.quantity qs (h e refl)) tt
receive_line-RulesOnly incoming d l qs h = tt
receive_line-RulesOnly outgoing d l qs h = tt
receive_line-RulesOnly adjustment d l qs h = tt
receive_line-RulesOnly DocumentType.other d l qs h = tt

receive_line-Has :
    (type : DocumentType) (d : Option ℕ) (l : DocumentLine) (qs : Quantities)
    (r : List Movement × Quantities) (j : Key)
    → receive_line type d l qs ≡ ok r
    → Has j qs
    → Has j r.1
unfolding receive_line add_to_key
receive_line-Has transfer none l qs r j h k = absurd (cc h)
receive_line-Has transfer (some e) l qs r j h k =
    let (qs', e0, h0) = >>=-eq-ok (add_to_key (l.product_id, e) l.quantity qs) _ h in
    let (q, e1, h1) = >>=-eq-ok (read_key (l.product_id, e) qs) _ e0 in
    let stored =
      subst (Has j) (ok-injective h1) (Has-set_key j (l.product_id, e) (q +ℤ l.quantity) qs k) in
    subst (λ (r : List Movement × Quantities). Has j r.1) (ok-injective h0) stored
receive_line-Has incoming d l qs r j h k =
    subst (λ (r : List Movement × Quantities). Has j r.1) (ok-injective h) k
receive_line-Has outgoing d l qs r j h k =
    subst (λ (r : List Movement × Quantities). Has j r.1) (ok-injective h) k
receive_line-Has adjustment d l qs r j h k =
    subst (λ (r : List Movement × Quantities). Has j r.1) (ok-injective h) k
receive_line-Has DocumentType.other d l qs r j h k =
    subst (λ (r : List Movement × Quantities). Has j r.1) (ok-injective h) k

plan_line-RulesOnly :
    (type : DocumentType) (w : ℕ) (d : Option ℕ) (l : DocumentLine) (qs : Quantities)
    → Reads w d qs l
    → RulesOnly (plan_line type w d l qs)
unfolding plan_line
plan_line-RulesOnly type w d l qs ((q, found), received) =
    let k : Key = (l.product_id, w) in
    RulesOnly-bind (read_key k qs) _ (subst RulesOnly (sym (read_key-ok k qs q found)) tt)
      (λ current _.
        RulesOnly-bind (line_delta type current l.quantity) _
          (line_delta-RulesOnly type current l.quantity)
          (λ delta _.
            let added = add_to_key-ok k delta qs (q, found) in
            RulesOnly-bind (add_to_key k delta qs) _ (subst RulesOnly (sym added) tt) (λ qs' same.
              let stored : set_key k (q +ℤ delta) qs ≡ qs' = ok-injective (sym added ∙ same) in
              RulesOnly-bind (receive_line type d l qs') _
                (receive_line-RulesOnly type d l qs' (λ e at_e.
                  subst (Has (l.product_id, e)) stored
                    (Has-set_key (l.product_id, e) k (q +ℤ delta) qs (received e at_e))))
                (λ _ _. tt))))

plan_line-Has :
    (type : DocumentType) (w : ℕ) (d : Option ℕ) (l : DocumentLine) (qs : Quantities)
    (r : List Movement × Quantities) (j : Key)
    → plan_line type w d l qs ≡ ok r
    → Has j qs
    → Has j r.1
unfolding plan_line add_to_key
plan_line-Has type w d l qs r j h k =
    let (q, e0, h0) = >>=-eq-ok (read_key (l.product_id, w) qs) _ h in
    let (delta, e1, h1) = >>=-eq-ok (line_delta type q l.quantity) _ h0 in
    let (qs', e2, h2) = >>=-eq-ok (add_to_key (l.product_id, w) delta qs) _ h1 in
    let (q', e3, h3) = >>=-eq-ok (read_key (l.product_id, w) qs) _ e2 in
    let (received, e4, h4) = >>=-eq-ok (receive_line type d l qs') _ h2 in
    let stored =
      subst (Has j) (ok-injective h3) (Has-set_key j (l.product_id, w) (q' +ℤ delta) qs k) in
    subst (λ (r : List Movement × Quantities). Has j r.1) (ok-injective h4)
      (receive_line-Has type d l qs' received j e4 stored)

plan_lines-RulesOnly :
    (type : DocumentType) (w : ℕ) (d : Option ℕ) (ls : List DocumentLine) (qs : Quantities)
    → All (Reads w d qs) ls
    → RulesOnly (plan_lines type w d ls qs)
unfolding plan_lines
plan_lines-RulesOnly type w d [] qs h = tt
plan_lines-RulesOnly type w d (l ∷ ls) qs h =
    RulesOnly-bind (plan_line type w d l qs) _ (plan_line-RulesOnly type w d l qs h.0) (λ first e.
      RulesOnly-bind (plan_lines type w d ls first.1) _
        (plan_lines-RulesOnly type w d ls first.1 (
          All-map (Reads w d qs) (Reads w d first.1)
            (λ m r. (
              plan_line-Has type w d l qs first (m.product_id, w) e r.0,
              λ t same. plan_line-Has type w d l qs first (m.product_id, t) e (r.1 t same),
            ))
            ls h.1))
        (λ _ _. tt))

check_nonnegative-RulesOnly : (p : List Movement × Quantities) → RulesOnly (check_nonnegative p)
unfolding check_nonnegative
check_nonnegative-RulesOnly p = elim (Bool-cases (any negative_entry p.1)) [
  | inl e ↦ rw e tt
  | inr e ↦ rw e tt
]

destination-RulesOnly :
    (type : DocumentType) (did : Option ℕ) → RulesOnly (plan_destination type did)
destination-RulesOnly transfer none = tt
destination-RulesOnly transfer (some d) = tt
destination-RulesOnly incoming did = tt
destination-RulesOnly outgoing did = tt
destination-RulesOnly adjustment did = tt
destination-RulesOnly DocumentType.other did = tt

pub plan-RulesOnly :
    (type : DocumentType) (wid did : Option ℕ) (ls : List DocumentLine) (qs : Quantities)
    → ((w : ℕ) (d : Option ℕ)
        → wid ≡ some w
        → plan_destination type did ≡ ok d
        → All (Reads w d qs) ls)
    → RulesOnly (plan_document_movements type wid did ls qs)
unfolding plan_document_movements
plan-RulesOnly type wid did ls qs h =
    RulesOnly-bind (required_warehouse_id wid) _
      (RulesOnly-or_raise wid 422 "Document warehouse is required")
      (λ w e. RulesOnly-bind (plan_destination type did) _ (destination-RulesOnly type did) (λ d f.
        RulesOnly-bind (plan_lines type w d ls qs) _
          (plan_lines-RulesOnly type w d ls qs
            (h w d (or_raise-eq-ok wid 422 "Document warehouse is required" e) f))
          (λ p _. check_nonnegative-RulesOnly p)))
