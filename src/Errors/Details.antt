-- ===== src/Errors/Details.antt =====
-- Status details: parseStatusDetails and the decoders of its messages in api-gateway/src/canton/errors.ts.
-- A decoder that does not return is `none`; none of them throws. A property that the source casts to
-- a string keeps the value that is there.
pub mod RoundTrip
pub mod Retry
use mathlib.Core.Option.{get_or}
use cantontrace.Base.{
  ◌>>=◌, ℕ, ◌+◌, ◌≡◌, List, [], ◌∷◌, Option, none, some, Bool, true, false, ◌&&◌, not, ◌==◌,
  if◌then◌else◌, Str, text, ◌===◌, ◌++◌,
}
use cantontrace.Runtime.Object.{set}
use cantontrace.Runtime.Decimal.{decimal}
use cantontrace.Runtime.Json.{ℤ, pos, negsuc}
use cantontrace.Runtime.Utf8.{encode}
use cantontrace.Errors.Wire.{
  FieldValue, number, string, Source, bytes, chars, Fields, decode_all_fields,
  decode_simple_message,
}

-- `google.protobuf.Any`.
pub record Any : Type 0 where
  pub type_url : Str
  pub value : List ℕ

pub record ParsedErrorInfo : Type 0 where
  pub reason : Str
  pub domain : Str
  pub metadata : List (Str × FieldValue)

pub record ParsedRequestInfo : Type 0 where
  pub request_id : FieldValue
  pub serving_data : FieldValue

-- `Number(v)` of an Int32, or of a string, whose reading as a number is left open.
pub data Coerced : Type 0 where
  integer : ℤ → Coerced
  reading : Str → Coerced

pub record ParsedRetryInfo : Type 0 where
  pub seconds : Coerced
  pub nanos : Coerced

pub record ParsedResourceInfo : Type 0 where
  pub resource_type : FieldValue
  pub resource_name : FieldValue
  pub owner : FieldValue
  pub description : FieldValue

pub record ParsedStatusDetails : Type 0 where
  pub error_info : Option ParsedErrorInfo
  pub request_info : Option ParsedRequestInfo
  pub retry_info : Option ParsedRetryInfo
  pub resource_info : Option ParsedResourceInfo

abbrev pub no_details : ParsedStatusDetails
no_details = record {
  error_info = none;
  request_info = none;
  retry_info = none;
  resource_info = none;
}

abbrev pub is_number : ℕ → ℤ → Bool
is_number n (pos m) = m == n
is_number n (negsuc m) = false

-- `decoded[n]`.
unfoldable pub field_at : ℕ → Fields → Option FieldValue
field_at n [] = none
field_at n ((m, v) ∷ fields) = if is_number n m then some v else field_at n fields

unfoldable pub get_string_field : Fields → ℕ → Option Str
get_string_field [] n = none
get_string_field ((m, number i) ∷ fields) n = get_string_field fields n
get_string_field ((m, string s) ∷ fields) n =
    if is_number n m then some s else get_string_field fields n

unfoldable pub get_all_bytes_fields : Fields → ℕ → List Str
get_all_bytes_fields [] n = []
get_all_bytes_fields ((m, number i) ∷ fields) n = get_all_bytes_fields fields n
get_all_bytes_fields ((m, string s) ∷ fields) n =
    if is_number n m then s ∷ get_all_bytes_fields fields n else get_all_bytes_fields fields n

-- A key that is neither missing, 0 nor the empty string, as the name of a property.
abbrev pub property_name : Option FieldValue → Option Str
property_name none = none
property_name (some (number (pos n))) = if n == 0 then none else some (decimal n)
property_name (some (number (negsuc n))) = some (b'-' ∷ decimal (n + 1))
property_name (some (string s)) = if s === [] then none else some s

abbrev pub empty_string : FieldValue
empty_string = string []

-- One entry of a map field.
unfoldable pub decode_entry : Str → List (Str × FieldValue) → Option (List (Str × FieldValue))
decode_entry entry result = do
  decoded ← decode_simple_message (bytes (encode entry))
  some (elim (property_name (field_at 1 decoded)) [
    | none ↦ result
    | some key ↦ set key (get_or (field_at 2 decoded) empty_string) result
  ])

unfoldable pub decode_entries :
    List Str → List (Str × FieldValue) → Option (List (Str × FieldValue))
decode_entries [] result = some result
decode_entries (entry ∷ entries) result = do
  result' ← decode_entry entry result
  decode_entries entries result'

unfoldable pub decode_string_map_entries : List Str → Option (List (Str × FieldValue))
decode_string_map_entries entries = decode_entries entries []

unfoldable pub decode_error_info : List ℕ → Option ParsedErrorInfo
decode_error_info bs = do
  decoded ← decode_all_fields (bytes bs)
  metadata ← decode_string_map_entries (get_all_bytes_fields decoded 3)
  some (record {
    reason = get_or (get_string_field decoded 1) [];
    domain = get_or (get_string_field decoded 2) [];
    metadata = metadata;
  })

unfoldable pub decode_request_info : List ℕ → Option ParsedRequestInfo
decode_request_info bs = do
  decoded ← decode_simple_message (bytes bs)
  some (record {
    request_id = get_or (field_at 1 decoded) empty_string;
    serving_data = get_or (field_at 2 decoded) empty_string;
  })

-- `Number(v ?? 0)`.
abbrev pub coerce : Option FieldValue → Coerced
coerce none = integer (pos 0)
coerce (some (number i)) = integer i
coerce (some (string s)) = reading s

-- The properties of a number that stands in the place of the bytes: its length is `undefined`, so
-- that nothing is read of it.
abbrev pub duration_of : FieldValue → Option Fields
duration_of (number i) = some []
duration_of (string s) = if s === [] then some [] else decode_simple_message (chars s)

unfoldable pub decode_retry_info : List ℕ → Option ParsedRetryInfo
decode_retry_info bs = do
  decoded ← decode_simple_message (bytes bs)
  dur ← duration_of (get_or (field_at 1 decoded) empty_string)
  some (record { seconds = coerce (field_at 1 dur); nanos = coerce (field_at 2 dur) })

unfoldable pub decode_resource_info : List ℕ → Option ParsedResourceInfo
decode_resource_info bs = do
  decoded ← decode_simple_message (bytes bs)
  some (record {
    resource_type = get_or (field_at 1 decoded) empty_string;
    resource_name = get_or (field_at 2 decoded) empty_string;
    owner = get_or (field_at 3 decoded) empty_string;
    description = get_or (field_at 4 decoded) empty_string;
  })

abbrev pub type_url_error_info : Str
type_url_error_info = text "type.googleapis.com/google.rpc.ErrorInfo"

abbrev pub type_url_request_info : Str
type_url_request_info = text "type.googleapis.com/google.rpc.RequestInfo"

abbrev pub type_url_retry_info : Str
type_url_retry_info = text "type.googleapis.com/google.rpc.RetryInfo"

abbrev pub type_url_resource_info : Str
type_url_resource_info = text "type.googleapis.com/google.rpc.ResourceInfo"

unfoldable pub parse_detail : Any → ParsedStatusDetails → Option ParsedStatusDetails
parse_detail detail result =
    if detail.type_url === type_url_error_info
    then (do info ← decode_error_info detail.value; some (record result { error_info = some info }))
    else if detail.type_url === type_url_request_info
    then (do
      info ← decode_request_info detail.value
      some (record result { request_info = some info }))
    else if detail.type_url === type_url_retry_info
    then (do info ← decode_retry_info detail.value; some (record result { retry_info = some info }))
    else if detail.type_url === type_url_resource_info
    then (do
      info ← decode_resource_info detail.value
      some (record result { resource_info = some info }))
    else some result

unfoldable pub parse_details : List Any → ParsedStatusDetails → Option ParsedStatusDetails
parse_details [] result = some result
parse_details (detail ∷ details) result = do
  result' ← parse_detail detail result
  parse_details details result'

unfoldable pub parse_status_details : List Any → Option ParsedStatusDetails
parse_status_details details = parse_details details no_details
