-- ===== src/Pricing/Markup.antt =====
-- The test for the review of a price.
use faethon_system.Base.{
  ℕ, zero, suc, ◌+◌, ◌-◌, ◌*◌, ◌/◌, ◌%◌, ◌^◌, ◌≤◌, ◌<◌, leb, pos, ◌-ℤ◌, true, false, some, ◌≡◌,
  refl, ap, ◌∙◌, arith, Bool-cases, inl, inr,
}
use faethon_system.Base.Decimal.{round_half_even, round_half_up}
use native.Mathlib.Nat.{div-add-mod}
use native.Mathlib.Numerals.{towards_suc}
use faethon_system.Pricing.{quotient_places, scaled_percent, percent_of, markup, pricing_values}

places-ge : (fuel n d places : ℕ) → (more : ℕ) × (quotient_places fuel n d places ≡ places + more)
unfolding quotient_places
places-ge zero n d places = (0, omega arith)
places-ge (suc fuel) n d places = elim (Bool-cases (leb (d * 10 ^ 27) (n * 10 ^ places))) [
  | inl e ↦ (0, rw (quotient_places, e) (omega arith))
  | inr e ↦
      let (more, h) = places-ge fuel n d (places + 1) in
      (more + 1, rw (quotient_places, e) (omega (arith, h)))
]

div-ge : (d x m : ℕ) → 0 < d → d * m ≤ x → m ≤ x / d
div-ge d x m h k = grind (arith, div-add-mod x d)

div-le : (d x m : ℕ) → 0 < d → x ≤ d * m → x / d ≤ m
div-le d x m h k = grind (arith, div-add-mod x d)

-- At the bound there is no rest.
div-lt : (d x m : ℕ) → 0 < d → x ≤ d * m → 0 < x % d → x / d < m
div-lt d x m h k r = grind (arith, div-add-mod x d)

half_even-ge : (d x m : ℕ) → 0 < d → d * m ≤ x → m ≤ round_half_even d x
unfolding round_half_even
half_even-ge d x m h k = ground (arith, div-ge d x m h k)

half_even-le : (d x m : ℕ) → 0 < d → x ≤ d * m → round_half_even d x ≤ m
unfolding round_half_even
half_even-le d x m h k = ground (arith, div-le d x m h k, div-lt d x m h k)

half_up-ge : (d x m : ℕ) → 0 < d → d * m ≤ x → m ≤ round_half_up d x
unfolding round_half_up
half_up-ge d x m h k = ground (arith, div-ge d x m h k)

half_up-le : (d x m : ℕ) → 0 < d → x ≤ d * m → round_half_up d x ≤ m
unfolding round_half_up
half_up-le d x m h k = ground (arith, div-le d x m h k, div-lt d x m h k)

ten_times : (k : ℕ) → 10 ^ (k + 1) ≡ 10 * 10 ^ k
ten_times k = simp towards_suc (omega arith)

out_of_product : (a b c : ℕ) → a * (b * c) ≡ b * (a * c)
out_of_product a b c = grind arith

mul_assoc : (a b c : ℕ) → a * b * c ≡ a * (b * c)
mul_assoc a b c = grind arith

times_part : (a b part : ℕ) → a ≤ b → a * part ≤ b * part
times_part a b part h = grind arith

-- Ten to so many places is a multiple of ten thousand.
scale_form : (more : ℕ) → (part : ℕ) × (10 ^ (13 + more) ≡ 10_000 * part) × (0 < part)
scale_form zero = (1_000_000_000, refl, omega arith)
scale_form (suc more) =
    let (part, e, h) = scale_form more in
    let next : 13 + suc more ≡ 13 + more + 1 = omega arith in
    (10 * part, ap (λ k. 10 ^ k) next ∙ ten_times (13 + more) ∙ omega (arith, e), omega arith)

scaled_percent-ge :
    (n d part : ℕ) → 0 < d → 0 < part → d ≤ 10 * n → 1000 ≤ scaled_percent (10_000 * part) n d
scaled_percent-ge n d part h k l =
    let q = round_half_even d (n * (10_000 * part)) in
    let quotient : 1000 * part ≤ q = half_even-ge d (n * (10_000 * part)) (1000 * part) h (
      omega (
        arith,
        out_of_product d 1000 part,
        out_of_product n 10_000 part,
        times_part d (10 * n) part l,
        mul_assoc 10 n part,
      )) in
    half_up-ge (10_000 * part) (q * 10_000) 1000 (omega arith) (omega (arith, quotient))

scaled_percent-le :
    (n d part : ℕ)
    → 0 < d
    → 0 < part
    → 10_000 * n ≤ 999 * d
    → scaled_percent (10_000 * part) n d ≤ 999
scaled_percent-le n d part h k l =
    let q = round_half_even d (n * (10_000 * part)) in
    let quotient : q ≤ 999 * part = half_even-le d (n * (10_000 * part)) (999 * part) h (
      omega (
        arith,
        out_of_product d 999 part,
        out_of_product n 10_000 part,
        times_part (10_000 * n) (999 * d) part l,
        mul_assoc 10_000 n part,
        mul_assoc 999 d part,
      )) in
    half_up-le (10_000 * part) (q * 10_000) 999 (omega arith) (omega (arith, quotient))

percent_of_scaled :
    (n d : ℕ) → (part : ℕ) × (0 < part) × (percent_of n d ≡ scaled_percent (10_000 * part) n d)
unfolding percent_of
percent_of_scaled n d =
    let (more, e) = places-ge 30 n d 13 in
    let (part, f, h) = scale_form more in
    (part, h, ap (λ scale. scaled_percent scale n d) (ap (λ places. 10 ^ places) e ∙ f))

percent_of-ge : (n d : ℕ) → 0 < d → d ≤ 10 * n → 1000 ≤ percent_of n d
percent_of-ge n d h k =
    let (part, positive, e) = percent_of_scaled n d in
    rw e (scaled_percent-ge n d part h positive k)

percent_of-le : (n d : ℕ) → 0 < d → 10_000 * n ≤ 999 * d → percent_of n d ≤ 999
percent_of-le n d h k =
    let (part, positive, e) = percent_of_scaled n d in
    rw e (scaled_percent-le n d part h positive k)

-- A sale price of at least eleven tenths of a positive purchase cost needs no review.
pub pricing_values_accepts :
    (sale cost : ℕ)
    → 0 < cost
    → 11 * cost ≤ 10 * sale
    → (pricing_values (some (pos sale)) (some (pos cost))).price_review_required ≡ false
unfolding pricing_values markup ◌-ℤ◌
pricing_values_accepts sale cost h k =
    ground (arith, percent_of-ge (sale - cost) cost h (omega arith))

-- A sale price at which the markup on a positive purchase cost is 9.99 percent or less needs a
-- review.
pub pricing_values_reviews :
    (sale cost : ℕ)
    → 0 < cost
    → 10_000 * sale ≤ 10_999 * cost
    → (pricing_values (some (pos sale)) (some (pos cost))).price_review_required ≡ true
unfolding pricing_values markup ◌-ℤ◌
pricing_values_reviews sale cost h k =
    ground (arith, percent_of-le (sale - cost) cost h (omega arith))
