-- ===== src/Archive/Encoding.antt =====
-- Messages as protobuf lays them out, and what ProtobufReader (package-parser.ts) reads of them.

use native.Mathlib.Omega.{pow_step}
use cantontrace.Base.{
  ◌>>=◌, ℕ, zero, suc, ◌+◌, ◌*◌, ◌/◌, ◌%◌, ◌^◌, ◌<◌, ◌≤◌, ◌≡◌, refl, sym, ap, ◌∙◌, List, [], ◌∷◌,
  ◌++◌, some, true, false, ◌==◌, ltb, leb, length, take, drop, arith, All, Bool-cases, inl, inr,
  map, append_assoc, length-append,
}
use cantontrace.Runtime.Bits.{bit_or_above}
use cantontrace.Runtime.Varint.{varint, seven, groups, below_next}
use cantontrace.Archive.Reader.{
  number, bytes, ProtoField, read_varint_from, read_varint, little_endian, take_bytes, read_fixed,
  read_bytes, read_value, read_field, read_fields_loop, read_fields,
}

read_varint_from-varint :
    (k s v acc : ℕ) (rest : List ℕ)
    → s + 7 * k ≤ 70
    → v < 128 ^ k
    → 0 < k
    → acc < 2 ^ s
    → read_varint_from s acc (varint k v ++ rest) ≡ some (acc + v * 2 ^ s, rest)
unfolding read_varint_from varint
read_varint_from-varint zero s v acc rest e f pos h = absurd (omega arith)
read_varint_from-varint (suc k) s v acc rest e f pos h = elim (Bool-cases (ltb v 128)) [
  | inl small ↦
      let plain : v % 128 ≡ v = ground arith in
      let last : (v / 128 % 2 == 0) ≡ true = ground arith in
      rw (varint, small, read_varint_from, plain, bit_or_above s acc v h, last) refl
  | inr large ↦
      let low : (128 + v % 128) % 128 ≡ v % 128 = omega arith in
      let more : ((128 + v % 128) / 128 % 2 == 0) ≡ false = ground arith in
      let whole : v % 128 * 2 ^ s + v / 128 * 2 ^ (s + 7) ≡ v * 2 ^ s =
        rw (seven s) (groups v (2 ^ s)) in
      let next : acc + v % 128 * 2 ^ s < 2 ^ (s + 7) = rw (seven s) (below_next acc v (2 ^ s) h) in
      let many : 128 ≤ v = ground arith in
      let fits : v / 128 < 128 ^ k = omega (arith, pow_step 128 k) in
      let left : 0 < k = positive k v f many in
      let short : ltb 63 (s + 7) ≡ false = ground arith in
      rw
        (
          varint,
          large,
          read_varint_from,
          low,
          bit_or_above s acc (v % 128) h,
          more,
          short,
          read_varint_from-varint k (s + 7) (v / 128) (acc + v % 128 * 2 ^ s) rest (omega arith)
              fits left next,
        )
        (ap (λ z. some (z, rest)) (omega (arith, whole)))
]
  where
    positive : (k v : ℕ) → v < 128 ^ suc k → 128 ≤ v → 0 < k
    positive zero v f m = absurd (omega arith)
    positive (suc k) v f m = omega arith

-- 2^70.
abbrev pub limit : ℕ
limit = 1180591620717411303424

pub read_varint-varint :
    (v : ℕ) (rest : List ℕ) → v < limit → read_varint (varint 10 v ++ rest) ≡ some (v, rest)
unfolding read_varint
read_varint-varint v rest h =
    read_varint_from-varint 10 0 v 0 rest (omega arith) (omega arith) (omega arith) (omega arith)
    ∙ ap (λ z. some (z, rest)) (omega arith)

abbrev le_bytes : ℕ → ℕ → List ℕ
le_bytes zero v = []
le_bytes (suc k) v = v % 256 ∷ le_bytes k (v / 256)

length-le_bytes : (k v : ℕ) → length (le_bytes k v) ≡ k
length-le_bytes zero v = refl
length-le_bytes (suc k) v = ap suc (length-le_bytes k (v / 256))

little_endian-le_bytes : (k v : ℕ) → v < 256 ^ k → little_endian (le_bytes k v) ≡ v
unfolding little_endian
little_endian-le_bytes zero v h = omega arith
little_endian-le_bytes (suc k) v h =
    let rest : v / 256 < 256 ^ k = omega (arith, pow_step 256 k) in
    omega (arith, little_endian-le_bytes k (v / 256) rest)

take-append_self : (s rest : List ℕ) → take (length s) (s ++ rest) ≡ s
take-append_self [] rest = refl
take-append_self (b ∷ s) rest = ap (◌∷◌ b) (take-append_self s rest)

drop-append_self : (s rest : List ℕ) → drop (length s) (s ++ rest) ≡ rest
drop-append_self [] rest = refl
drop-append_self (b ∷ s) rest = drop-append_self s rest

take_bytes-append :
    (n : ℕ) (s rest : List ℕ) → n ≡ length s → take_bytes n (s ++ rest) ≡ some (s, rest)
unfolding take_bytes
take_bytes-append n s rest e =
    let enough : leb (length s) (length (s ++ rest)) ≡ true =
      ground (arith, length-append s rest) in
    rw (e, take_bytes, enough, take-append_self s rest, drop-append_self s rest) refl

read_fixed-le_bytes :
    (k v : ℕ) (rest : List ℕ) → v < 256 ^ k → read_fixed k (le_bytes k v ++ rest) ≡ some (v, rest)
unfolding read_fixed
read_fixed-le_bytes k v rest h =
    rw
      (
        read_fixed,
        take_bytes-append k (le_bytes k v) rest (sym (length-le_bytes k v)),
        little_endian-le_bytes k v h,
      )
      refl

-- A field of each wire type that is read, by its number.
pub data Field : Type 0 where
  int fixed64 fixed32 : ℕ → ℕ → Field
  block : ℕ → List ℕ → Field

unfoldable pub encode_field : Field → List ℕ
encode_field (int n v) = varint 10 (n * 8) ++ varint 10 v
encode_field (fixed64 n v) = varint 10 (n * 8 + 1) ++ le_bytes 8 v
encode_field (block n bs) = varint 10 (n * 8 + 2) ++ (varint 10 (length bs) ++ bs)
encode_field (fixed32 n v) = varint 10 (n * 8 + 5) ++ le_bytes 4 v

unfoldable pub encode_fields : List Field → List ℕ
encode_fields [] = []
encode_fields (f ∷ fs) = encode_field f ++ encode_fields fs

abbrev pub field_of : Field → ProtoField
field_of (int n v) = record { field_number = n; wire_type = 0; value = number v }
field_of (fixed64 n v) = record { field_number = n; wire_type = 1; value = number v }
field_of (block n bs) = record { field_number = n; wire_type = 2; value = bytes bs }
field_of (fixed32 n v) = record { field_number = n; wire_type = 5; value = number v }

-- A field number of at most 67 bits, and a value that its wire type has room for.
abbrev pub IsEncodable : Field → Type 0
IsEncodable (int n v) = (n * 8 + 7 < limit) × (v < limit)
IsEncodable (fixed64 n v) = (n * 8 + 7 < limit) × (v < 18446744073709551616)
IsEncodable (block n bs) = (n * 8 + 7 < limit) × (length bs < limit)
IsEncodable (fixed32 n v) = (n * 8 + 7 < limit) × (v < 4294967296)

tagged :
    (n w : ℕ) (rest : List ℕ)
    → w < 8
    → n * 8 + 7 < limit
    → read_field (varint 10 (n * 8 + w) ++ rest) ≡ (
        read_value w rest >>= λ v.
        some (record { field_number = n; wire_type = w; value = v.0 }, v.1))
unfolding read_field
tagged n w rest h fits =
    let kind : (n * 8 + w) % 8 ≡ w = omega arith in
    let index : (n * 8 + w) / 8 ≡ n = omega arith in
    rw (read_field, read_varint-varint (n * 8 + w) rest (omega arith), kind, index) refl

read_field-encode_field :
    (f : Field) (rest : List ℕ)
    → IsEncodable f
    → read_field (encode_field f ++ rest) ≡ some (field_of f, rest)
unfolding encode_field read_value read_bytes
read_field-encode_field (int n v) rest (p, q) =
    rw
      (
        append_assoc (varint 10 (n * 8)) (varint 10 v) rest,
        ap (λ t. read_field (varint 10 t ++ (varint 10 v ++ rest))) (plus_zero (n * 8)),
        tagged n 0 (varint 10 v ++ rest) (omega arith) p,
        read_varint-varint v rest q,
      )
      refl
  where
    plus_zero : (k : ℕ) → k ≡ k + 0
    plus_zero k = omega arith
read_field-encode_field (fixed64 n v) rest (p, q) =
    rw
      (
        append_assoc (varint 10 (n * 8 + 1)) (le_bytes 8 v) rest,
        tagged n 1 (le_bytes 8 v ++ rest) (omega arith) p,
        read_fixed-le_bytes 8 v rest (omega arith),
      )
      refl
read_field-encode_field (block n bs) rest (p, q) =
    rw
      (
        append_assoc (varint 10 (n * 8 + 2)) (varint 10 (length bs) ++ bs) rest,
        append_assoc (varint 10 (length bs)) bs rest,
        tagged n 2 (varint 10 (length bs) ++ (bs ++ rest)) (omega arith) p,
        read_varint-varint (length bs) (bs ++ rest) q,
        take_bytes-append (length bs) bs rest refl,
      )
      refl
read_field-encode_field (fixed32 n v) rest (p, q) =
    rw
      (
        append_assoc (varint 10 (n * 8 + 5)) (le_bytes 4 v) rest,
        tagged n 5 (le_bytes 4 v ++ rest) (omega arith) p,
        read_fixed-le_bytes 4 v rest (omega arith),
      )
      refl

length-varint : (k v : ℕ) (rest : List ℕ) → 1 + length rest ≤ length (varint (suc k) v ++ rest)
unfolding varint
length-varint k v rest = elim (Bool-cases (ltb v 128)) [
  | inl small ↦ rw (varint, small) (omega arith)
  | inr large ↦ rw (varint, large) (omega (arith, length-append (varint k (v / 128)) rest))
]

after_tag : (t : ℕ) (s rest : List ℕ) → 1 + length rest ≤ length ((varint 10 t ++ s) ++ rest)
after_tag t s rest =
    rw (append_assoc (varint 10 t) s rest)
      (omega (arith, length-varint 9 t (s ++ rest), length-append s rest))

length-encode_field :
    (f : Field) (rest : List ℕ) → 1 + length rest ≤ length (encode_field f ++ rest)
unfolding encode_field
length-encode_field (int n v) rest = after_tag (n * 8) (varint 10 v) rest
length-encode_field (fixed64 n v) rest = after_tag (n * 8 + 1) (le_bytes 8 v) rest
length-encode_field (fixed32 n v) rest = after_tag (n * 8 + 5) (le_bytes 4 v) rest
length-encode_field (block n bs) rest = after_tag (n * 8 + 2) (varint 10 (length bs) ++ bs) rest

read_fields_loop-encode_fields :
    (fuel : ℕ) (fs : List Field)
    → length (encode_fields fs) ≤ fuel
    → All IsEncodable fs
    → read_fields_loop fuel (encode_fields fs) ≡ map field_of fs
unfolding read_fields_loop encode_fields read_field read_varint read_varint_from
read_fields_loop-encode_fields zero [] short h = refl
read_fields_loop-encode_fields (suc fuel) [] short h = refl
read_fields_loop-encode_fields zero (f ∷ fs) short h =
    absurd (omega (arith, length-encode_field f (encode_fields fs)))
read_fields_loop-encode_fields (suc fuel) (f ∷ fs) short (p, h) =
    let enough : length (encode_fields fs) ≤ fuel =
      omega (arith, length-encode_field f (encode_fields fs)) in
    rw (read_fields_loop, read_field-encode_field f (encode_fields fs) p)
      (ap (◌∷◌ (field_of f)) (read_fields_loop-encode_fields fuel fs enough h))

-- A message of fields of the four wire types is read back as it was laid out.
pub read_fields-encode_fields :
    (fs : List Field) → All IsEncodable fs → read_fields (encode_fields fs) ≡ map field_of fs
unfolding read_fields
read_fields-encode_fields fs h =
    read_fields_loop-encode_fields (length (encode_fields fs)) fs (omega arith) h
