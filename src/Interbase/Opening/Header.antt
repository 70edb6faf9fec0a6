-- ===== src/Interbase/Opening/Header.antt =====
-- What `_read_header` lets through.
use faethon_system.Base.{
  ℕ, zero, suc, ◌+◌, ◌-◌, ◌*◌, ◌/◌, ◌%◌, ◌≤◌, ◌<◌, ◌≡◌, refl, ap, ap₂, ◌∙◌, Bool, true, false, not,
  ◌&&◌, leb, Bool-cases, inl, inr, ◌⊎◌, [], ◌∷◌, drop, length, ◌==◌, arith, contains, take, ==→eq,
}
use faethon_system.Base.{Result, Error, ok, err, crash, if◌then◌else◌}
use faethon_system.Base.Ensures.{Ensures, Ensures-bind, Ensures-if}
use faethon_system.Interbase.Bytes.{
  Bytes, little_endian, unpack, byte_at, has, length-take, length-take-le,
}
use faethon_system.Interbase.Tables.{Database}
use faethon_system.Interbase.Pages.Slots.{IsWhole}
use faethon_system.Interbase.Opening.{page_sizes, read_header}
use native.Mathlib.Nat.{div-add-mod}

-- the byte at an offset, or zero behind the end
abbrev pub byte : Bytes → ℕ → ℕ
byte [] at = 0
byte (b ∷ bytes) zero = b
byte (b ∷ bytes) (suc at) = byte bytes at

-- the two bytes at an offset as a number, the lower one first
abbrev pub word : Bytes → ℕ → ℕ
word file at = byte file at + 256 * byte file (suc at)

-- The file has a header page of InterBase structure 11: page type 1, one of the page sizes at
-- offset 16, and at offset 18 the structure, without the bit of Firebird.
abbrev pub has_header : Bytes → Bool
has_header file =
    leb 64 (length file)
    && (byte file 0 == 1
        && (contains (word file 16) (1024 ∷ 2048 ∷ 4096 ∷ 8192 ∷ 16384 ∷ [])
            && (not (has (word file 18) 32768) && word file 18 % 16 == 11)))

-- The database has the numbers of the header, its whole pages lie in the file, and it has no tables
-- yet.
abbrev pub Accepted : Bytes → Database → Type 0
Accepted file db =
    IsWhole db
    × (db.file ≡ file)
    × (db.page_size ≡ word file 16)
    × (db.page_count ≡ length file / word file 16)
    × (db.ods_major ≡ 11)
    × (db.ods_minor ≡ word file 62)
    × (db.implementation ≡ word file 60)
    × (db.tables ≡ [])

page_size_cases : (n : ℕ) → contains n page_sizes ≡ true → (0 < n) × (1024 ≤ n)
page_size_cases n h = ground arith

div_mul_le : (a n : ℕ) → a / n * n ≤ a
div_mul_le a n = grind (arith, div-add-mod a n)

enough_records : (n : ℕ) → 1024 ≤ n → 0 < (n - 24) / 17
enough_records n h = omega arith

pair-little_endian :
    (at : ℕ) (bytes : Bytes)
    → at + 2 ≤ length bytes
    → little_endian (take 2 (drop at bytes)) ≡ word bytes at
pair-little_endian zero [] h = absurd (omega arith)
pair-little_endian zero (a ∷ []) h = absurd (omega arith)
pair-little_endian zero (a ∷ b ∷ bytes) h = omega arith
pair-little_endian (suc at) [] h = absurd (omega arith)
pair-little_endian (suc at) (a ∷ bytes) h = pair-little_endian at bytes (omega arith)

take_all : (n : ℕ) (xs : Bytes) → length xs ≤ n → take n xs ≡ xs
take_all zero [] h = refl
take_all zero (x ∷ xs) h = absurd (omega arith)
take_all (suc n) [] h = refl
take_all (suc n) (x ∷ xs) h = rw (take_all n xs (omega arith))

byte-take : (n at : ℕ) (file : Bytes) → at < n → byte (take n file) at ≡ byte file at
byte-take zero at file h = absurd (omega arith)
byte-take (suc n) at [] h = refl
byte-take (suc n) zero (b ∷ file) h = refl
byte-take (suc n) (suc at) (b ∷ file) h = byte-take n at file (omega arith)

length-first_page : (n : ℕ) (file : Bytes) → 64 ≤ n → 64 ≤ length file → 64 ≤ length (take n file)
length-first_page n file h k = elim (Bool-cases (leb n (length file))) [
  | inl e ↦ omega (arith, length-take n file (ground arith))
  | inr e ↦ rw (take_all n file (ground arith)) k
]

unpack-pair : (page : Bytes) (at : ℕ) → at + 2 ≤ length page → unpack 2 page at ≡ ok (word page at)
unfolding unpack
unpack-pair page at h =
    let inside : leb (at + 2) (length page) ≡ true = ground arith in
    rw inside (ap ok (pair-little_endian at page h))

unpacked : (page : Bytes) (at v : ℕ) → unpack 2 page at ≡ ok v → at + 2 ≤ length page
unfolding unpack
unpacked page at v h = elim (Bool-cases (leb (at + 2) (length page))) [
  | inl e ↦ ground arith
  | inr e ↦ absurd (cc (rw e at h))
]

word-take : (n at : ℕ) (file : Bytes) → suc at < n → word (take n file) at ≡ word file at
word-take n at file h =
    ap₂ (λ a b. a + 256 * b) (byte-take n at file (omega arith)) (byte-take n (suc at) file h)

unpack-word :
    (n : ℕ) (file : Bytes) (at : ℕ)
    → 64 ≤ n
    → 64 ≤ length file
    → at + 2 ≤ 64
    → unpack 2 (take n file) at ≡ ok (word file at)
unpack-word n file at page long h =
    unpack-pair (take n file) at (omega (arith, length-first_page n file page long))
    ∙ ap ok (word-take n at file (omega arith))

first_byte :
    (n : ℕ) (file : Bytes) → 64 ≤ n → 64 ≤ length file → byte_at (take n file) 0 ≡ ok (byte file 0)
unfolding byte_at
first_byte zero file page long = absurd (omega arith)
first_byte (suc n) [] page long = absurd (omega arith)
first_byte (suc n) (b ∷ file) page long = refl

-- A shorter file has no header page.
read_header-Ensures : (file : Bytes) → Ensures (λ _. 64 ≤ length file) (read_header file)
unfolding read_header
read_header-Ensures file =
    let page = take 4096 file in
    Ensures-bind _ (byte_at page 0) _ λ page_type _.
      Ensures-if _ (not (page_type == 1)) _ _ (λ _. tt)
        λ _. Ensures-bind _ (unpack 2 page 16) _ λ page_size _.
          Ensures-bind _ (unpack 2 page 18) _ λ ods_word _.
            Ensures-bind _ (unpack 2 page 62) _ λ ods_minor minor.
              let long : 64 ≤ length file =
                omega (arith, unpacked page 62 ods_minor minor, length-take-le 4096 file) in
              Ensures-bind _ (unpack 2 page 60) _ λ implementation _.
                Ensures-if _ (not (contains page_size page_sizes)) _ _ (λ _. tt)
                  λ _.
                    Ensures-if _ (has ods_word 32768) _ _ (λ _. tt)
                      λ _. Ensures-if _ (not (ods_word % 16 == 11)) _ _ (λ _. tt) λ _. long

abbrev opened : Bytes → Database
opened file = record {
  file = file;
  page_size = word file 16;
  ods_major = word file 18 % 16;
  ods_minor = word file 62;
  implementation = word file 60;
  page_count = length file / word file 16;
  max_records = (word file 16 - 24) / 17;
  tables = [];
  page_index = [];
}

abbrev Raises : Bytes → Type 0
Raises file = (e : Error) × (read_header file ≡ err e)

-- The tests of a file that has a whole header, in their order.
abbrev tested : Bool → Bool → Bool → Bool → Database → Result Database
tested first_page sized firebird eleven db =
    if not first_page
    then err (crash "ValueError: not an InterBase/Firebird database")
    else if not sized
    then err (crash "ValueError: Unexpected page size")
    else if firebird
    then err (crash "ValueError: This file is Firebird")
    else if not eleven
    then err (crash "ValueError: Unsupported ODS")
    else ok db

read_header-tested :
    (file : Bytes)
    → 64 ≤ length file
    → read_header file
      ≡ tested
          (byte file 0 == 1)
          (contains (word file 16) page_sizes)
          (has (word file 18) 32768)
          (word file 18 % 16 == 11)
          (opened file)
unfolding read_header
read_header-tested file long =
    rw (read_header, first_byte 4096 file (omega arith) long)
      (rw (unpack-word 4096 file 16 (omega arith) long (omega arith)) (
        rw (unpack-word 4096 file 18 (omega arith) long (omega arith)) (
          rw (unpack-word 4096 file 62 (omega arith) long (omega arith))
            (rw (unpack-word 4096 file 60 (omega arith) long (omega arith)) refl))))

-- The file is opened, or refused.
abbrev pub Answered : Bytes → Bool → Result Database → Type 0
Answered file header r =
    ((header ≡ true) × (db : Database) × (r ≡ ok db) × Accepted file db)
    ⊎ ((header ≡ false) × (e : Error) × (r ≡ err e))

opened-Accepted :
    (file : Bytes)
    → contains (word file 16) page_sizes ≡ true
    → (word file 18 % 16 == 11) ≡ true
    → Accepted file (opened file)
opened-Accepted file sized eleven =
    let size = page_size_cases (word file 16) sized in
    (
      record {
        in_file = div_mul_le (length file) (word file 16);
        has_header = omega (arith, size.1);
        has_records = enough_records (word file 16) size.1;
        index_fits = tt;
      },
      refl,
      refl,
      refl,
      ==→eq _ 11 eleven,
      refl,
      refl,
      refl,
    )

tested-Answered :
    (file : Bytes) (first_page sized firebird eleven : Bool)
    → (sized ≡ true → eleven ≡ true → Accepted file (opened file))
    → Answered file
        (first_page && (sized && (not firebird && eleven)))
        (tested first_page sized firebird eleven (opened file))
tested-Answered file false sized firebird eleven accepted = inr (refl, _, refl)
tested-Answered file true false firebird eleven accepted = inr (refl, _, refl)
tested-Answered file true true true eleven accepted = inr (refl, _, refl)
tested-Answered file true true false false accepted = inr (refl, _, refl)
tested-Answered file true true false true accepted =
    inl (refl, opened file, refl, accepted refl refl)

short-Answered :
    (file : Bytes) (r : Result Database)
    → Ensures (λ _. 64 ≤ length file) r
    → leb 64 (length file) ≡ false
    → Answered file false r
short-Answered file (ok db) h short = absurd (ground (arith, h))
short-Answered file (err e) h short = inr (refl, e, refl)

-- _read_header returns exactly for the files with a header page of InterBase structure 11, and
-- raises an error for all others; what it returns are the numbers of the header, no tables yet, and
-- as many pages as lie whole in the file.
pub read_header-Accepted : (file : Bytes) → Answered file (has_header file) (read_header file)
read_header-Accepted file = elim (Bool-cases (leb 64 (length file))) [
  | inl e ↦
      rw (e, read_header-tested file (ground arith))
        (tested-Answered file (byte file 0 == 1) (contains (word file 16) page_sizes)
          (has (word file 18) 32768) (word file 18 % 16 == 11) (opened-Accepted file))
  | inr e ↦ rw e (short-Answered file (read_header file) (read_header-Ensures file) e)
]
