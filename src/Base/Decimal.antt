-- ===== src/Base/Decimal.antt =====
-- `Decimal` values at a fixed scale, as their unscaled integers: money in hundredths, quantities in
-- thousandths, exchange rates in millionths (the `Numeric` columns of backend/app/models).
use faethon_system.Base.Bools.{ltb, if◌then◌else◌}
use faethon_system.Base.Int.{ℤ, pos, negsuc, neg}
use Prim.Native.Nat.{ℕ, suc, ◌+◌, ◌*◌, ◌/◌, ◌%◌}

-- Division with ties to the even neighbour: the default context's ROUND_HALF_EVEN.
unfoldable pub round_half_even : ℕ → ℕ → ℕ
round_half_even k m =
    if ltb (m % k * 2) k
    then m / k
    else if ltb k (m % k * 2)
    then m / k + 1
    else m / k + (m / k) % 2

-- Division with ties away from zero: ROUND_HALF_UP.
unfoldable pub round_half_up : ℕ → ℕ → ℕ
round_half_up k m = if ltb (m % k * 2) k then m / k else m / k + 1

abbrev pub by_magnitude : (ℕ → ℕ) → ℤ → ℤ
by_magnitude f (pos n) = pos (f n)
by_magnitude f (negsuc n) = neg (pos (f (suc n)))

-- `value.quantize(...)` to a scale that is `k` times coarser
unfoldable pub quantize : ℕ → ℤ → ℤ
unfolding round_half_even
quantize k = by_magnitude (round_half_even k)

-- `value.quantize(..., rounding=ROUND_HALF_UP)`
unfoldable pub quantize_half_up : ℕ → ℤ → ℤ
unfolding round_half_up
quantize_half_up k = by_magnitude (round_half_up k)
