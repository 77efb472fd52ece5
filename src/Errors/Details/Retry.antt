-- ===== src/Errors/Details/Retry.antt =====
-- decodeRetryInfo (errors.ts) decodes the embedded duration from the string that it was decoded to.
use Prim.Native.Nat.{bit_or}
use cantontrace.Base.{
  ℕ, ◌*◌, ◌===◌, ◌/◌, ◌%◌, ◌<◌, ◌≡◌, refl, List, [], ◌∷◌, some, true, ◌==◌, ltb, arith,
}
use cantontrace.Runtime.Json.{pos}
use cantontrace.Runtime.Int.{to_signed}
use cantontrace.Errors.Wire.Varint.{varint}
use cantontrace.Errors.Wire.{
  bytes, chars, number, string, digit_value, read, read_varint, field_round, decode_round,
  decode_loop, set_field, rounds, Fields, decode_simple_message,
}
use cantontrace.Errors.Wire.Encoding.{int, str, encode_field, encode_fields}
use cantontrace.Errors.Details.{integer, field_at, decode_retry_info}
use cantontrace.Errors.Details.RoundTrip.{write_fields, decode_loop-encode_fields}

digit_value-lt : (c : ℕ) → digit_value c < 10
digit_value-lt c = ground arith

-- A duration of seconds only, below 128, as the bytes of its message: its tag and the number.
abbrev pub duration : ℕ → List ℕ
duration n = 8 ∷ n ∷ []

-- What the characters of such a message are decoded to, whatever the number is.
abbrev misread : ℕ → Fields
misread n = (pos 0, number (to_signed (bit_or 0 (digit_value n % 128 * 1 % 4294967296)))) ∷ []

decode_simple_message-duration :
    (n : ℕ) → decode_simple_message (chars (duration n)) ≡ some (misread n)
unfolding decode_simple_message decode_loop decode_round field_round read_varint read set_field
decode_simple_message-duration n =
    let last : (digit_value n / 128 % 2 == 0) ≡ true = ground (arith, digit_value-lt n) in
    rw (decode_simple_message, decode_loop, decode_round, field_round, read_varint, read, last) refl

encode_fields-duration : (n : ℕ) → n < 128 → encode_fields (int 1 n ∷ []) ≡ duration n
unfolding encode_fields encode_field varint
encode_fields-duration n small =
    let one : ltb n 128 ≡ true = ground arith in rw (encode_fields, encode_field, varint, one) refl

-- The message around it.
decode_simple_message-around :
    (n : ℕ)
    → n < 128
    → decode_simple_message (bytes (encode_fields (str 1 (duration n) ∷ [])))
      ≡ some ((pos 1, string (duration n)) ∷ [])
unfolding decode_simple_message write_fields set_field
decode_simple_message-around n small =
    decode_loop-encode_fields set_field (rounds (bytes (encode_fields (str 1 (duration n) ∷ []))))
      [] (str 1 (duration n) ∷ []) [] ((omega arith, omega arith, (omega arith, (small, tt))), tt)
      (omega arith)

-- A retry delay of up to 127 seconds, encoded as a `RetryInfo` message, is decoded as a delay of 0
-- seconds and 0 nanoseconds.
pub decode_retry_info-duration :
    (n : ℕ)
    → n < 128
    → decode_retry_info (encode_fields (str 1 (encode_fields (int 1 n ∷ [])) ∷ []))
      ≡ some (record { seconds = integer (pos 0); nanos = integer (pos 0) })
unfolding decode_retry_info field_at ◌===◌
decode_retry_info-duration n small =
    rw
      (
        encode_fields-duration n small,
        decode_retry_info,
        decode_simple_message-around n small,
        decode_simple_message-duration n,
      )
      refl
