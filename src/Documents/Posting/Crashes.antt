-- ===== src/Documents/Posting/Crashes.antt =====
-- Which keys `_document_stock_keys` collects and `_load_balance_quantities` loads.
use faethon_system.Base.{
  ℕ, ℤ, Bool, true, false, ◌||◌, Bool-cases, inl, inr, All, some, List, [], ◌∷◌, ◌≡◌, refl, ◌∙◌,
  arith,
}
use faethon_system.Base.Sort.{sort, insert_sorted}
use faethon_system.Models.{DocumentLine, StockBalance}
use faethon_system.Documents.Stock.{
  Key, same_key, key_before, add_key, add_keys, Quantities, lookup_key, set_key, line_keys,
  get_balance, load_quantities,
}
use faethon_system.Documents.Stock.Keys.{in_keys, same_key_refl, lookup_key-set_key}

abbrev pub Has : Key → Quantities → Type 0
Has k qs = (q : ℤ) × (lookup_key k qs ≡ some q)

pub Has-set_key : (j k : Key) (v : ℤ) (qs : Quantities) → Has j qs → Has j (set_key k v qs)
Has-set_key j k v qs (q, h) = elim (Bool-cases (same_key k j)) [
  | inl e ↦ (v, lookup_key-set_key j k v qs ∙ rw e)
  | inr e ↦ (q, lookup_key-set_key j k v qs ∙ rw e h)
]

or_later : (a b : Bool) → b ≡ true → (a || b) ≡ true
or_later a b h = ground arith

pub All-map {ℓ} :
    {A : Type ℓ} (P Q : A → Type 0) → ((x : A) → P x → Q x) → (xs : List A) → All P xs → All Q xs
All-map P Q f [] h = tt
All-map P Q f (x ∷ xs) h = (f x h.0, All-map P Q f xs h.1)

exchange :
    (a b c d : Bool) → (a || (b || c)) ≡ true → ((a || c) ≡ true → d ≡ true) → (b || d) ≡ true
exchange a true c d h k = refl
exchange a false c d h k = k h

keep_or : (a b c : Bool) → (a || b) ≡ true → (b ≡ true → c ≡ true) → (a || c) ≡ true
keep_or true b c h k = refl
keep_or false b c h k = k h

in_tail :
    (j k : Key) (ks : List Key)
    → same_key k j ≡ false
    → in_keys j (k ∷ ks) ≡ true
    → in_keys j ks ≡ true
in_tail (p, w) (q, v) ks e h = ground arith

in_keys-add_key :
    (j k : Key) (ks : List Key) → in_keys j ks ≡ true → in_keys j (add_key k ks) ≡ true
in_keys-add_key j k ks h = elim (Bool-cases (in_keys k ks)) [
  | inl e ↦ rw e h
  | inr e ↦ rw e (or_later (same_key j k) (in_keys j ks) h)
]

in_keys-added : (k : Key) (ks : List Key) → in_keys k (add_key k ks) ≡ true
in_keys-added k ks = elim (Bool-cases (in_keys k ks)) [
  | inl e ↦ rw (e, e)
  | inr e ↦ rw (e, same_key_refl k)
]

pub in_keys-add_keys :
    (j : Key) (js ks : List Key) → in_keys j ks ≡ true → in_keys j (add_keys js ks) ≡ true
in_keys-add_keys j [] ks h = h
in_keys-add_keys j (i ∷ js) ks h = in_keys-add_key j i (add_keys js ks) (in_keys-add_keys j js ks h)

-- every line's key is collected
pub lines_in_keys :
    (w : ℕ) (lines : List DocumentLine) (ks : List Key)
    → All
        (λ (l : DocumentLine). in_keys (l.product_id, w) (add_keys (line_keys w lines) ks) ≡ true)
        lines
lines_in_keys w [] ks = tt
lines_in_keys w (l ∷ lines) ks = (
  in_keys-added (l.product_id, w) (add_keys (line_keys w lines) ks),
  All-map (λ (m : DocumentLine). in_keys (m.product_id, w) (add_keys (line_keys w lines) ks) ≡ true)
      _
      (λ m h.
        in_keys-add_key (m.product_id, w) (l.product_id, w) (add_keys (line_keys w lines) ks) h)
      lines (lines_in_keys w lines ks),
)

in_keys-insert_sorted :
    (j k : Key) (ks : List Key)
    → (same_key j k || in_keys j ks) ≡ true
    → in_keys j (insert_sorted key_before k ks) ≡ true
in_keys-insert_sorted j k [] h = h
in_keys-insert_sorted j k (i ∷ ks) h = elim (Bool-cases (key_before k i)) [
  | inl e ↦ rw e h
  | inr e ↦
      rw e
        (exchange (same_key j k) (same_key j i) (in_keys j ks) _ h (in_keys-insert_sorted j k ks))
]

pub in_keys-sort :
    (j : Key) (ks : List Key) → in_keys j ks ≡ true → in_keys j (sort key_before ks) ≡ true
in_keys-sort j [] h = h
in_keys-sort j (k ∷ ks) h =
    in_keys-insert_sorted j k (sort key_before ks)
      (keep_or (same_key j k) (in_keys j ks) _ h (in_keys-sort j ks))

pub Has-load_quantities :
    (j : Key) (ks : List Key) (rows : List StockBalance)
    → in_keys j ks ≡ true
    → Has j (load_quantities ks rows).0
unfolding load_quantities
Has-load_quantities j [] rows h = absurd (cc h)
Has-load_quantities j (k ∷ ks) rows h = elim (Bool-cases (same_key k j)) [
  | inl e ↦ ((get_balance k rows).0.quantity, rw e)
  | inr e ↦
      let (q, found) = Has-load_quantities j ks (get_balance k rows).1 (in_tail j k ks e h) in
      (q, rw e found)
]
