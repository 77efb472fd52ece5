-- ===== src/Errors/Wire.antt =====
-- The protobuf decoder of api-gateway/src/canton/errors.ts: readVarint, decodeSimpleMessage and
-- decodeAllFields. An Int32 is kept as its bit pattern; an offset is an integer that may be negative.
pub mod Termination
pub mod Varint
pub mod Encoding
use Prim.Native.Nat.{bit_or}
use cantontrace.Base.{
  ℕ, zero, suc, ◌+◌, ◌-◌, ◌*◌, ◌/◌, ◌%◌, ◌^◌, List, [], ◌∷◌, ◌++◌, Option, none, some, ◌==◌, ltb,
  if◌then◌else◌, Str, map, length, drop, Bool, false,
}
use cantontrace.Runtime.Object.{is_digit}
use cantontrace.Runtime.Json.{ℤ, pos, negsuc}
use cantontrace.Runtime.Int.{◌+ℤ◌, to_signed, shift_right_three, below, slice}
use cantontrace.Runtime.Utf8.{decode}

-- A field's value. The third type of the source, the raw bytes, never arises: a `TextDecoder` that
-- is not fatal decodes every byte array.
pub data FieldValue : Type 0 where
  number : ℤ → FieldValue
  string : Str → FieldValue

-- What is decoded: a byte array, or, in decodeRetryInfo, a string in the place of one.
pub data Source : Type 0 where
  bytes : List ℕ → Source
  chars : Str → Source

-- An element under a bit operation: a character is read as a number, and is 0 where it is none.
abbrev pub digit_value : ℕ → ℕ
digit_value c = if is_digit c then c - b'0' else 0

abbrev pub elements : Source → List ℕ
elements (bytes bs) = bs
elements (chars s) = map digit_value s

-- The bits of `result`, and how many elements are read.
unfoldable pub read : List ℕ → ℕ → ℕ → ℕ × ℕ
read [] result shift = (result, 0)
read (b ∷ bs) result shift =
    let result' = bit_or result (b % 128 * 2 ^ (shift % 32) % 4294967296) in
    let rest = read bs result' (shift + 7) in
    if b / 128 % 2 == 0 then (result', 1) else (rest.0, suc rest.1)

-- An element before the first is `undefined`, which ends the loop.
unfoldable pub read_varint : Source → ℤ → ℕ × ℤ
read_varint source (pos i) = let r = read (drop i (elements source)) 0 0 in (r.0, pos (i + r.1))
read_varint source (negsuc i) = (0, negsuc i +ℤ pos 1)

-- The value of a length-delimited field: `TextDecoder.decode` refuses a string, which is then kept.
abbrev pub chunk : Source → ℤ → ℤ → Str
chunk (bytes bs) a b = decode (slice bs a b)
chunk (chars s) a b = slice s a b

-- A round of the loop ends the decoding or goes on at an offset.
pub data Round {ℓ} (A : Type ℓ) : Type ℓ where
  finish : A → Round A
  go : ℤ → A → Round A

module _ {ℓ} {A : Type ℓ} (write : ℤ → FieldValue → A → A) where
  -- The field after its tag.
  unfoldable pub field_round : Source → ℕ → ℤ → A → Round A
  field_round source tag offset a =
      let field = shift_right_three tag in
      let r = read_varint source offset in
      if tag % 8 == 0
      then go r.1 (write field (number (to_signed r.0)) a)
      else if tag % 8 == 2
      then go (r.1 +ℤ to_signed r.0)
          (write field (string (chunk source r.1 (r.1 +ℤ to_signed r.0))) a)
      else if tag % 8 == 1
      then go (offset +ℤ pos 8) a
      else if tag % 8 == 5
      then go (offset +ℤ pos 4) a
      else finish a

  unfoldable pub decode_round : Source → ℤ → A → Round A
  decode_round source offset a =
      let tag = read_varint source offset in
      if below offset (length (elements source)) then field_round source tag.0 tag.1 a else finish a

  -- The loop, for at most `fuel` rounds.
  unfoldable pub decode_loop : ℕ → Source → ℤ → A → Option A
  decode_loop zero source offset a = none
  decode_loop (suc fuel) source offset a = elim (decode_round source offset a) [
    | finish a' ↦ some a'
    | go offset' a' ↦ decode_loop fuel source offset' a'
  ]

abbrev pub Fields : Type 0
Fields = List (ℤ × FieldValue)

-- `result.push([fieldNumber, value])`.
abbrev pub push_field : ℤ → FieldValue → Fields → Fields
push_field n v fields = fields ++ (n, v) ∷ []

-- `result[fieldNumber] = value`.
unfoldable pub set_field : ℤ → FieldValue → Fields → Fields
set_field n v [] = (n, v) ∷ []
set_field n v ((m, w) ∷ fields) =
    if same m n then (m, v) ∷ fields else (m, w) ∷ set_field n v fields
  where
    same : ℤ → ℤ → Bool
    same (pos a) (pos b) = a == b
    same (negsuc a) (negsuc b) = a == b
    same _ _ = false

-- The loop goes on for as many rounds as there are elements and ends in one more, as long as no
-- length is negative.
abbrev pub rounds : Source → ℕ
rounds source = suc (length (elements source))

unfoldable pub decode_all_fields : Source → Option Fields
decode_all_fields source = decode_loop push_field (rounds source) source (pos 0) []

unfoldable pub decode_simple_message : Source → Option Fields
decode_simple_message source = decode_loop set_field (rounds source) source (pos 0) []
