-- ===== src/Interbase/Rle/RoundTrip.antt =====
-- Runs of bytes in the form that `rle_decompress` reads.
use faethon_system.Base.{
  ℕ, zero, suc, ◌-◌, ◌≤◌, ◌<◌, ◌≡◌, sym, ◌∙◌, ap, true, false, List, [], ◌∷◌, ◌++◌, some, All,
  length, get_or, ltb, ◌==◌, arith, ++-nil, ++-assoc,
}
use faethon_system.Interbase.Bytes.{Bytes, length-append, take-append, drop-append}
use faethon_system.Interbase.Rle.{replicate, rle_round, rle_loop, rle_decompress}
use faethon_system.Interbase.Rle.Decode.{rle_decompress_ends}

-- A run is written out, or is one byte some times.
pub data Run : Type 0 where
  literal : Bytes → Run
  repeated : ℕ → ℕ → Run

abbrev pub FitsRun : Run → Type 0
FitsRun (literal bytes) = (0 < length bytes) × (length bytes < 128)
FitsRun (repeated times b) = (0 < times) × (times ≤ 128)

abbrev pub encode_run : Run → Bytes
encode_run (literal bytes) = length bytes ∷ bytes
encode_run (repeated times b) = (256 - times) ∷ b ∷ []

abbrev pub encode : List Run → Bytes
encode [] = []
encode (run ∷ runs) = encode_run run ++ encode runs

abbrev pub expand_run : Run → Bytes
expand_run (literal bytes) = bytes
expand_run (repeated times b) = replicate times b

abbrev pub expand : List Run → Bytes
expand [] = []
expand (run ∷ runs) = expand_run run ++ expand runs

-- nothing, or a zero byte with whatever follows it
abbrev pub IsPadding : Bytes → Type 0
IsPadding [] = Unit
IsPadding (b ∷ _) = b ≡ 0

literal_round :
    (bytes rest : Bytes)
    → 0 < length bytes
    → length bytes < 128
    → rle_round (length bytes) (bytes ++ rest) ≡ some (bytes, rest)
unfolding rle_round
literal_round bytes rest h k =
    let e : (length bytes == 0) ≡ false = ground arith in
    let s : ltb (length bytes) 128 ≡ true = ground arith in
    rw (e, s, take-append bytes rest, drop-append bytes rest)

repeat_round :
    (times b : ℕ) (rest : Bytes)
    → 0 < times
    → times ≤ 128
    → rle_round (256 - times) (b ∷ rest) ≡ some (replicate times b, rest)
unfolding rle_round
repeat_round times b rest h k =
    let e : ((256 - times) == 0) ≡ false = ground arith in
    let s : ltb (256 - times) 128 ≡ false = ground arith in
    let t : 256 - (256 - times) ≡ times = omega arith in rw (e, s, t)

loop-encode :
    (fuel : ℕ) (runs : List Run) (padding out : Bytes)
    → All FitsRun runs
    → IsPadding padding
    → length (encode runs ++ padding) ≤ fuel
    → rle_loop fuel (encode runs ++ padding) out ≡ some (out ++ expand runs)
unfolding rle_loop rle_round
loop-encode fuel [] [] out h p k = rw (++-nil out)
loop-encode zero [] (b ∷ _) out h p k = absurd (omega arith)
loop-encode (suc fuel) [] (b ∷ _) out h p k = rw (p, ++-nil out)
loop-encode zero (literal bytes ∷ runs) padding out h p k = absurd (omega arith)
loop-encode zero (repeated times b ∷ runs) padding out h p k = absurd (omega arith)
loop-encode (suc fuel) (literal bytes ∷ runs) padding out h p k =
    let rest = encode runs ++ padding in
    let fits : length rest ≤ fuel =
      omega (arith, length-append bytes rest, rw (++-assoc bytes (encode runs) padding) at k) in
    rw (rle_loop, ++-assoc bytes (encode runs) padding, literal_round bytes rest h.0.0 h.0.1)
      (loop-encode fuel runs padding (out ++ bytes) h.1 p fits
        ∙ ap some (++-assoc out bytes (expand runs)))
loop-encode (suc fuel) (repeated times b ∷ runs) padding out h p k =
    rw (rle_loop, repeat_round times b (encode runs ++ padding) h.0.0 h.0.1)
      (loop-encode fuel runs padding (out ++ replicate times b) h.1 p (omega arith)
        ∙ ap some (++-assoc out (replicate times b) (expand runs)))

some-injective : {a b : Bytes} → some a ≡ some b → a ≡ b
some-injective {a} h = ap (λ o. get_or o a) h

-- rle_decompress gives back the bytes of any list of runs that fit a length byte each, whatever
-- follows a zero byte after them.
pub rle_decompress-encode :
    (runs : List Run) (padding : Bytes)
    → All FitsRun runs
    → IsPadding padding
    → rle_decompress (encode runs ++ padding) ≡ expand runs
rle_decompress-encode runs padding h p =
    let bytes = encode runs ++ padding in
    some-injective (
      sym (rle_decompress_ends (length bytes) bytes (omega arith))
      ∙ loop-encode (length bytes) runs padding [] h p (omega arith))
