-- ===== src/Documents/Totals.antt =====
-- The rounding of line totals: `_line_total`.
use faethon_system.Base.{ℕ, ◌+◌, ◌*◌, ◌≤◌, pos, ◌*ℤ◌, ◌≡◌, arith}
use faethon_system.Base.Decimal.{quantize, round_half_even}
use faethon_system.Documents.Rules.{line_total}

-- A quotient by a thousand is off by half a thousand at most.
round_half_even-near :
    (m : ℕ)
    → let r = round_half_even 1000 m in (2000 * r ≤ 2 * m + 1000) × (2 * m ≤ 2000 * r + 1000)
unfolding round_half_even
round_half_even-near m = ground arith

product_pos : (q p : ℕ) → pos q *ℤ pos p ≡ pos (q * p)
unfolding ◌*ℤ◌
product_pos q p = ground arith

line_total_pos : (q p : ℕ) → line_total (pos q) (pos p) ≡ pos (round_half_even 1000 (q * p))
unfolding line_total quantize
line_total_pos q p = rw (product_pos q p)

-- The line total of a quantity and a price that are not negative is a nonnegative amount, and
-- off from the exact product by half a hundredth at most.
pub line_total-near :
    (q p : ℕ)
    → (n : ℕ) × (line_total (pos q) (pos p) ≡ pos n)
      × (2000 * n ≤ 2 * (q * p) + 1000)
      × (2 * (q * p) ≤ 2000 * n + 1000)
line_total-near q p =
    let near = round_half_even-near (q * p) in
    (round_half_even 1000 (q * p), line_total_pos q p, near.0, near.1)
