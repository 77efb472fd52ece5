-- ===== src/Archive/Reader.antt =====
-- ProtobufReader of api-gateway/src/services/package-parser.ts. A reader stands for the bytes that are
-- left; what throws gives none. Numbers are read without rounding beyond 2^53.
use Prim.Native.Nat.{bit_or}
use cantontrace.Base.{
  ◌>>=◌, ℕ, zero, suc, ◌+◌, ◌*◌, ◌/◌, ◌%◌, ◌^◌, List, [], ◌∷◌, Option, none, some, ◌==◌, ltb, leb,
  if◌then◌else◌, take, drop, length,
}

pub data WireValue : Type 0 where
  number : ℕ → WireValue
  bytes : List ℕ → WireValue

pub record ProtoField : Type 0 where
  pub field_number : ℕ
  pub wire_type : ℕ
  pub value : WireValue

-- The varint from the byte at `shift` bits on.
unfoldable pub read_varint_from : ℕ → ℕ → List ℕ → Option (ℕ × List ℕ)
read_varint_from shift result [] = none
read_varint_from shift result (b ∷ bs) =
    let result' = bit_or result (b % 128 * 2 ^ shift) in
    let rest = read_varint_from (shift + 7) result' bs in
    if b / 128 % 2 == 0 then some (result', bs) else if ltb 63 (shift + 7) then none else rest

unfoldable pub read_varint : List ℕ → Option (ℕ × List ℕ)
read_varint bs = read_varint_from 0 0 bs

-- The number that bytes make, the lowest first.
unfoldable pub little_endian : List ℕ → ℕ
little_endian [] = 0
little_endian (b ∷ bs) = b + 256 * little_endian bs

-- `n` bytes, unless fewer are left.
unfoldable pub take_bytes : ℕ → List ℕ → Option (List ℕ × List ℕ)
take_bytes n bs = if leb n (length bs) then some (take n bs, drop n bs) else none

unfoldable pub read_fixed : ℕ → List ℕ → Option (ℕ × List ℕ)
read_fixed n bs = do r ← take_bytes n bs; some (little_endian r.0, r.1)

unfoldable pub read_bytes : List ℕ → Option (List ℕ × List ℕ)
read_bytes bs = do r ← read_varint bs; take_bytes r.0 r.1

abbrev pub map_value {ℓ} :
    {A : Type ℓ} → (A → WireValue) → Option (A × List ℕ) → Option (WireValue × List ℕ)
map_value f none = none
map_value f (some r) = some (f r.0, r.1)

-- The value of a field of a wire type; a wire type that is unknown ends the reading.
unfoldable pub read_value : ℕ → List ℕ → Option (WireValue × List ℕ)
read_value wire_type bs =
    if wire_type == 0
    then map_value number (read_varint bs)
    else if wire_type == 1
    then map_value number (read_fixed 8 bs)
    else if wire_type == 2
    then map_value bytes (read_bytes bs)
    else if wire_type == 5
    then map_value number (read_fixed 4 bs)
    else none

unfoldable pub read_field : List ℕ → Option (ProtoField × List ℕ)
read_field bs = do
  tag ← read_varint bs
  v ← read_value (tag.0 % 8) tag.1
  some (record { field_number = tag.0 / 8; wire_type = tag.0 % 8; value = v.0 }, v.1)

-- One round for each byte is enough, since a field has at least one.
unfoldable pub read_fields_loop : ℕ → List ℕ → List ProtoField
read_fields_loop zero bs = []
read_fields_loop (suc fuel) bs = elim (read_field bs) [
  | none ↦ []
  | some (f, rest) ↦ f ∷ read_fields_loop fuel rest
]

unfoldable pub read_fields : List ℕ → List ProtoField
read_fields bs = read_fields_loop (length bs) bs
