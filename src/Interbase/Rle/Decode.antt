-- ===== src/Interbase/Rle/Decode.antt =====
-- The loop of `rle_decompress`: its rounds and its result.
use faethon_system.Base.{
  ℕ, zero, suc, ◌+◌, ◌-◌, ◌*◌, ◌≤◌, ◌≡◌, refl, [], ◌∷◌, ◌++◌, some, length, arith, Option-cases,
  inl, inr,
}
use faethon_system.Interbase.Bytes.{Bytes, length-take-bound, length-drop, length-append}
use faethon_system.Interbase.Rle.{replicate, rle_round, rle_loop, rle_decompress}

length-replicate : (n b : ℕ) → length (replicate n b) ≡ n
length-replicate zero b = refl
length-replicate (suc n) b = omega (arith, length-replicate n b)

round_shrinks :
    (b : ℕ) (rest chunk more : Bytes)
    → rle_round b rest ≡ some (chunk, more)
    → length more ≤ length rest
unfolding rle_round
round_shrinks b [] chunk more h = ground (arith, length-drop b [])
round_shrinks b (c ∷ rest) chunk more h = ground (arith, length-drop b (c ∷ rest))

round_bound :
    (b : ℕ) (rest chunk more : Bytes) → rle_round b rest ≡ some (chunk, more) → length chunk ≤ 128
unfolding rle_round
round_bound b [] chunk more h = ground (arith, length-take-bound b [])
round_bound b (c ∷ rest) chunk more h =
    ground (arith, length-take-bound b (c ∷ rest), length-replicate (256 - b) c)

loop_ends :
    (fuel other : ℕ) (bytes out : Bytes)
    → length bytes ≤ fuel
    → length bytes ≤ other
    → (r : Bytes) × (rle_loop fuel bytes out ≡ some r) × (rle_loop other bytes out ≡ some r)
unfolding rle_loop
loop_ends fuel other [] out h k = (out, refl, refl)
loop_ends zero other (b ∷ rest) out h k = absurd (omega arith)
loop_ends (suc fuel) zero (b ∷ rest) out h k = absurd (omega arith)
loop_ends (suc fuel) (suc other) (b ∷ rest) out h k = elim (Option-cases (rle_round b rest)) [
  | inl e ↦ (out, rw (rle_loop, e), rw (rle_loop, e))
  | inr ((chunk, more), e) ↦
      let shorter = round_shrinks b rest chunk more e in
      rw (rle_loop, e) (loop_ends fuel other more (out ++ chunk) (omega arith) (omega arith))
]

-- The loop of rle_decompress ends, and with every fuel from the number of bytes on in the same
-- result.
pub rle_decompress_ends :
    (fuel : ℕ) (bytes : Bytes)
    → length bytes ≤ fuel
    → rle_loop fuel bytes [] ≡ some (rle_decompress bytes)
unfolding rle_decompress
rle_decompress_ends fuel bytes h =
    let both = loop_ends fuel (length bytes) bytes [] h (omega arith) in rw (both.1, both.2)

loop_bound :
    (fuel : ℕ) (bytes out result : Bytes)
    → rle_loop fuel bytes out ≡ some result
    → length result ≤ length out + 128 * length bytes
unfolding rle_loop
loop_bound fuel [] out result h = ground arith
loop_bound zero (b ∷ rest) out result h = absurd (cc h)
loop_bound (suc fuel) (b ∷ rest) out result h = elim (Option-cases (rle_round b rest)) [
  | inl e ↦ ground (arith, rw (rle_loop, e) at h)
  | inr ((chunk, more), e) ↦ omega (
    arith,
    round_shrinks b rest chunk more e,
    round_bound b rest chunk more e,
    length-append out chunk,
    loop_bound fuel more (out ++ chunk) result (rw (rle_loop, e) at h),
  )
]

-- rle_decompress makes at most 128 bytes from each byte.
pub length-rle_decompress : (bytes : Bytes) → length (rle_decompress bytes) ≤ 128 * length bytes
length-rle_decompress bytes = omega (
  arith,
  loop_bound (length bytes) bytes [] (rle_decompress bytes)
      (rle_decompress_ends (length bytes) bytes (omega arith)),
)
