-- ===== src/Archive/Wrap.antt =====
-- wrapAsArchive of api-gateway/src/services/package-parser.ts, on bytes: the conversions from and to
-- base64 are a library's.
use Prim.Native.Nat.{bit_or}
use native.Mathlib.Omega.{pow_step}
use cantontrace.Base.{
  ◌≡◌, refl, ap, ◌∙◌, ◌<◌, ◌≤◌, ◌^◌, true, false, arith, Bool-cases, inl, inr, append_assoc,
  append-nil, ℕ, zero, suc, ◌+◌, ◌/◌, ◌%◌, List, [], ◌∷◌, ◌++◌, Str, ltb, if◌then◌else◌, length,
}
use cantontrace.Runtime.Utf8.{encode}
use cantontrace.Runtime.Bits.{bit_or_above}
use cantontrace.Runtime.Varint.{varint}
use cantontrace.Archive.Reader.{number, bytes, read_fields}
use cantontrace.Archive.Encoding.{
  Field, int, block, encode_field, encode_fields, read_fields-encode_fields,
}

-- `>>>` takes the number modulo 2^32, so that six rounds are enough for every number.
unfoldable pub encode_varint_from : ℕ → ℕ → List ℕ
encode_varint_from zero v = []
encode_varint_from (suc fuel) v =
    let rest = encode_varint_from fuel (v % 4294967296 / 128) in
    if ltb 127 v then bit_or (v % 128) 128 ∷ rest else v % 128 ∷ []

unfoldable pub encode_varint : ℕ → List ℕ
encode_varint v = encode_varint_from 6 v

-- The archive of payload bytes and a package id.
unfoldable pub wrap_as_archive : List ℕ → Str → List ℕ
wrap_as_archive payload package_id =
    8
    ∷ 0
    ∷ 26
    ∷ (encode_varint (length payload)
        ++ (payload ++ 34 ∷ (encode_varint (length (encode package_id)) ++ encode package_id)))

-- The bytes of a number below 2^32 are its groups of seven bits.
encode_varint_from-varint :
    (fuel k v : ℕ)
    → v < 4294967296
    → v < 128 ^ fuel
    → v < 128 ^ k
    → 0 < fuel
    → 0 < k
    → encode_varint_from fuel v ≡ varint k v
unfolding encode_varint_from varint
encode_varint_from-varint zero k v w f g p q = absurd (omega arith)
encode_varint_from-varint (suc fuel) zero v w f g p q = absurd (omega arith)
encode_varint_from-varint (suc fuel) (suc k) v w f g p q = elim (Bool-cases (ltb v 128)) [
  | inl small ↦
      let last : ltb 127 v ≡ false = ground arith in
      let plain : v % 128 ≡ v = ground arith in
      rw (encode_varint_from, varint, small, last, plain) refl
  | inr large ↦
      let more : ltb 127 v ≡ true = ground arith in
      let many : 128 ≤ v = ground arith in
      let whole : v % 4294967296 / 128 ≡ v / 128 = omega arith in
      let group : bit_or (v % 128) 128 ≡ 128 + v % 128 =
        omega (arith, bit_or_above 7 (v % 128) 1 (omega arith)) in
      rw
        (
          encode_varint_from,
          varint,
          large,
          more,
          group,
          whole,
          encode_varint_from-varint fuel k (v / 128) (omega arith)
              (omega (arith, pow_step 128 fuel)) (omega (arith, pow_step 128 k))
              (positive fuel v f many) (positive k v g many),
        )
        refl
]
  where
    positive : (k v : ℕ) → v < 128 ^ suc k → 128 ≤ v → 0 < k
    positive zero v f m = absurd (omega arith)
    positive (suc k) v f m = omega arith

encode_varint_lem : (v : ℕ) → v < 4294967296 → encode_varint v ≡ varint 10 v
unfolding encode_varint
encode_varint_lem v h =
    encode_varint_from-varint 6 10 v h (omega arith) (omega arith) (omega arith) (omega arith)

abbrev archive_fields : List ℕ → Str → List Field
archive_fields payload package_id = int 1 0 ∷ block 3 payload ∷ block 4 (encode package_id) ∷ []

tags :
    (varint 10 0 ≡ 0 ∷ [])
    × (varint 10 8 ≡ 8 ∷ [])
    × (varint 10 26 ≡ 26 ∷ [])
    × (varint 10 34 ≡ 34 ∷ [])
unfolding varint
tags = (refl, refl, refl, refl)

wrap_as_archive_lem :
    (payload : List ℕ) (package_id : Str)
    → length payload < 4294967296
    → length (encode package_id) < 4294967296
    → wrap_as_archive payload package_id ≡ encode_fields (archive_fields payload package_id)
unfolding wrap_as_archive encode_fields encode_field
wrap_as_archive_lem payload package_id h g =
    rw
      (
        wrap_as_archive,
        encode_varint_lem (length payload) h,
        encode_varint_lem (length (encode package_id)) g,
        tags.0,
        tags.1,
        tags.2,
        tags.3,
        append_assoc (varint 10 (length payload)) payload
            (34 ∷ ((varint 10 (length (encode package_id)) ++ encode package_id) ++ [])),
        append-nil (varint 10 (length (encode package_id)) ++ encode package_id),
      )
      refl

-- The archive of a payload and a package id, each shorter than 4 GB, reads as three fields: the hash
-- function 0, the payload and the package id in UTF-8.
pub read_fields-wrap_as_archive :
    (payload : List ℕ) (package_id : Str)
    → length payload < 4294967296
    → length (encode package_id) < 4294967296
    → read_fields (wrap_as_archive payload package_id)
      ≡ record { field_number = 1; wire_type = 0; value = number 0 }
        ∷ record { field_number = 3; wire_type = 2; value = bytes payload }
        ∷ record { field_number = 4; wire_type = 2; value = bytes (encode package_id) }
        ∷ []
read_fields-wrap_as_archive payload package_id h g =
    ap read_fields (wrap_as_archive_lem payload package_id h g)
    ∙ read_fields-encode_fields (archive_fields payload package_id)
        ((omega arith, omega arith), ((omega arith, omega arith), ((omega arith, omega arith), tt)))
