-- ===== src/Documents/Stock/Keys.antt =====
-- Laws of the dicts and sets keyed by (product, warehouse).
use faethon_system.Base.{
  ℤ, Bool, true, false, if◌then◌else◌, Bool-cases, inl, inr, some, List, [], ◌∷◌, map, any, All, ok,
  ◌≡◌, refl, ◌∙◌, arith,
}
use faethon_system.Base.Sort.{sort, insert_sorted}
use faethon_system.Documents.Stock.{
  Key, same_key, key_before, add_key, add_keys, Quantities, lookup_key, set_key, read_key,
}

pub same_key_refl : (k : Key) → same_key k k ≡ true
same_key_refl (p, w) = ground arith

pub same_key-sym : (k j : Key) → same_key k j ≡ same_key j k
same_key-sym (p, w) (q, v) = ground arith

pub same_key→eq : (k j : Key) → same_key k j ≡ true → k ≡ j
same_key→eq (p, w) (q, v) h = ground arith

-- two tests against equal keys agree
pub same_key-cong : (j k i : Key) → same_key j k ≡ true → same_key j i ≡ same_key k i
same_key-cong (p, w) (q, v) (r, u) h = ground arith

abbrev pub in_keys : Key → List Key → Bool
in_keys k ks = any (same_key k) ks

abbrev pub Fresh : Key → List Key → Type 0
Fresh k ks = All (λ j. same_key k j ≡ false) ks

abbrev pub Distinct : List Key → Type 0
Distinct [] = Unit
Distinct (k ∷ ks) = Fresh k ks × Distinct ks

abbrev pub keys_of : Quantities → List Key
keys_of qs = map (λ (e : Key × ℤ). e.0) qs

Fresh-not_in : (k : Key) (ks : List Key) → in_keys k ks ≡ false → Fresh k ks
Fresh-not_in k [] h = tt
Fresh-not_in k (j ∷ ks) h = (ground arith, Fresh-not_in k ks (ground arith))

add_key-Distinct : (k : Key) (ks : List Key) → Distinct ks → Distinct (add_key k ks)
add_key-Distinct k ks d = elim (Bool-cases (in_keys k ks)) [
  | inl e ↦ rw e d
  | inr e ↦ rw e (Fresh-not_in k ks e, d)
]

pub add_keys-Distinct : (js ks : List Key) → Distinct ks → Distinct (add_keys js ks)
add_keys-Distinct [] ks d = d
add_keys-Distinct (j ∷ js) ks d = add_key-Distinct j (add_keys js ks) (add_keys-Distinct js ks d)

Fresh-insert_sorted :
    (k x : Key) (ys : List Key)
    → same_key k x ≡ false
    → Fresh k ys
    → Fresh k (insert_sorted key_before x ys)
Fresh-insert_sorted k x [] h hs = (h, tt)
Fresh-insert_sorted k x (y ∷ ys) h hs = elim (Bool-cases (key_before x y)) [
  | inl e ↦ rw e (h, hs)
  | inr e ↦ rw e (hs.0, Fresh-insert_sorted k x ys h hs.1)
]

insert_sorted-Distinct :
    (x : Key) (ys : List Key) → Fresh x ys → Distinct ys → Distinct (insert_sorted key_before x ys)
insert_sorted-Distinct x [] h d = (tt, tt)
insert_sorted-Distinct x (y ∷ ys) h d = elim (Bool-cases (key_before x y)) [
  | inl e ↦ rw e (h, d)
  | inr e ↦
      rw e (
        Fresh-insert_sorted y x ys (same_key-sym y x ∙ h.0) d.0,
        insert_sorted-Distinct x ys h.1 d.1,
      )
]

Fresh-sort : (k : Key) (ks : List Key) → Fresh k ks → Fresh k (sort key_before ks)
Fresh-sort k [] h = tt
Fresh-sort k (j ∷ ks) h = Fresh-insert_sorted k j (sort key_before ks) h.0 (Fresh-sort k ks h.1)

pub sort-Distinct : (ks : List Key) → Distinct ks → Distinct (sort key_before ks)
sort-Distinct [] d = tt
sort-Distinct (k ∷ ks) d =
    insert_sorted-Distinct k (sort key_before ks) (Fresh-sort k ks d.0) (sort-Distinct ks d.1)

pub lookup_key-set_key :
    (j k : Key) (v : ℤ) (qs : Quantities)
    → lookup_key j (set_key k v qs) ≡ (if same_key k j then some v else lookup_key j qs)
lookup_key-set_key j k v [] = refl
lookup_key-set_key (jp, jw) (kp, kw) v (((ip, iw), q) ∷ qs) =
    ground (arith, lookup_key-set_key (jp, jw) (kp, kw) v qs)

-- Writing under a key that is there keeps the keys.
pub keys_of-set_key :
    (k : Key) (v : ℤ) {old : ℤ} (qs : Quantities)
    → lookup_key k qs ≡ some old
    → keys_of (set_key k v qs) ≡ keys_of qs
keys_of-set_key k v [] h = ground arith
keys_of-set_key k v {old} ((i, q) ∷ qs) h = elim (Bool-cases (same_key i k)) [
  | inl e ↦ rw e
  | inr e ↦ rw (e, keys_of-set_key k v {old = old} qs (rw e at h))
]

pub read_key-eq-ok :
    (k : Key) (qs : Quantities) {q : ℤ} → read_key k qs ≡ ok q → lookup_key k qs ≡ some q
read_key-eq-ok k qs h = ground arith
