-- ===== src/Errors/Wire/Encoding.antt =====
-- An encoder of messages as protobuf lays them out, and what decodeSimpleMessage and decodeAllFields
-- (errors.ts) read at one place of its output.
use cantontrace.Base.{
  ℕ, suc, ◌+◌, ◌-◌, ◌*◌, ◌/◌, ◌<◌, ◌≤◌, ◌≡◌, refl, ap, ◌∙◌, List, [], ◌∷◌, ◌++◌, true, ltb, length,
  take, drop, arith, All, Str, length-append, min,
}
use cantontrace.Runtime.Json.{ℤ, pos}
use cantontrace.Runtime.Int.{to_signed, shift_right_three, slice}
use cantontrace.Runtime.Utf8.{IsAscii}
use cantontrace.Errors.Wire.{FieldValue, number, string, bytes, read, read_varint}
use cantontrace.Errors.Wire.Varint.{varint, read-varint}

-- A field of a message: a number, or a string.
pub data Field : Type 0 where
  int : ℕ → ℕ → Field
  str : ℕ → Str → Field

-- The encoding of a field whose string, if it is one, is ASCII.
unfoldable pub encode_field : Field → List ℕ
encode_field (int n v) = varint 5 (n * 8) ++ varint 5 v
encode_field (str n s) = varint 5 (n * 8 + 2) ++ (varint 5 (length s) ++ s)

unfoldable pub encode_fields : List Field → List ℕ
encode_fields [] = []
encode_fields (f ∷ fs) = encode_field f ++ encode_fields fs

-- A field number of at most 28 bits, and a value or a length of 31.
abbrev pub IsEncodable : Field → Type 0
IsEncodable (int n v) = (n < 268435456) × (v < 2147483648)
IsEncodable (str n s) = (n < 268435456) × (length s < 2147483648) × All IsAscii s

abbrev pub field_of : Field → ℤ × FieldValue
field_of (int n v) = (pos n, number (pos v))
field_of (str n s) = (pos n, string s)

drop-length : (pre rest : List ℕ) → drop (length pre) (pre ++ rest) ≡ rest
drop-length [] rest = refl
drop-length (b ∷ pre) rest = drop-length pre rest

take-length : (s rest : List ℕ) → take (length s) (s ++ rest) ≡ s
take-length [] rest = refl
take-length (b ∷ s) rest = ap (◌∷◌ b) (take-length s rest)

-- Reading what follows `pre`.
pub read_varint-at :
    (pre rest : List ℕ) (i v : ℕ)
    → i ≡ length pre
    → v < 4294967296
    → read_varint (bytes (pre ++ (varint 5 v ++ rest))) (pos i) ≡ (v, pos (i + length (varint 5 v)))
unfolding read_varint
read_varint-at pre rest i v e h =
    let r : read (varint 5 v ++ rest) 0 0 ≡ (0 + v * 1, length (varint 5 v)) =
      read-varint 5 0 v 0 rest (omega arith) (omega arith) (omega arith) (omega arith) in
    let one : 0 + v * 1 ≡ v = omega arith in
    rw (e, read_varint, drop-length pre (varint 5 v ++ rest), r, one) refl

pub slice-at :
    (pre s rest : List ℕ) (i : ℕ)
    → i ≡ length pre
    → slice (pre ++ (s ++ rest)) (pos i) (pos (i + length s)) ≡ s
slice-at pre s rest i e =
    let total : length (pre ++ (s ++ rest)) ≡ length pre + (length s + length rest) =
      length-append pre (s ++ rest) ∙ ap (λ n. length pre + n) (length-append s rest) in
    let low : min (length pre) (length (pre ++ (s ++ rest))) ≡ length pre = omega arith in
    let high : min (length pre + length s) (length (pre ++ (s ++ rest))) ≡ length pre + length s =
      omega arith in
    let size : length pre + length s - length pre ≡ length s = omega arith in
    rw (e, low, high, size, drop-length pre (s ++ rest)) (take-length s rest)

pub length-varint : (k v : ℕ) → 0 < length (varint (suc k) v)
unfolding varint
length-varint k v = ground arith

pub tag_number :
    (tag n : ℕ) → n < 268435456 → n * 8 ≤ tag → tag < n * 8 + 8 → shift_right_three tag ≡ pos n
tag_number tag n h low high =
    let small : ltb tag 2147483648 ≡ true = ground arith in
    let exact : tag / 8 ≡ n = omega arith in rw (small, exact) refl

pub to_signed-small : (v : ℕ) → v < 2147483648 → to_signed v ≡ pos v
to_signed-small v h = let small : ltb v 2147483648 ≡ true = ground arith in rw small refl

pub length-encode_field : (f : Field) → 0 < length (encode_field f)
unfolding encode_field
length-encode_field (int n v) =
    omega (arith, length-append (varint 5 (n * 8)) (varint 5 v), length-varint 4 (n * 8))
length-encode_field (str n s) = omega (
  arith,
  length-append (varint 5 (n * 8 + 2)) (varint 5 (length s) ++ s),
  length-varint 4 (n * 8 + 2),
)
