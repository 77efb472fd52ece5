-- ===== src/Errors/Tests.antt =====
-- The decoders and parsers of errors.ts on concrete messages.
use mathlib.Core.Option
use mathlib.Core.Option.{get_or}
use cantontrace.Base.{
  zero, suc, ◌%◌, ◌≡◌, ◌≢◌, refl, List, [], ◌∷◌, none, some, text, arith, map, get_elem?, All,
}
use cantontrace.Runtime.Decimal.{decimal}
use cantontrace.Runtime.Json.{pos}
use cantontrace.Runtime.Int.{◌+ℤ◌, to_signed}
use cantontrace.Errors.Category.{
  category_info, categories, system_internal_assumption_violated, malicious_or_faulty_behaviour,
}
use cantontrace.Errors.Category.Laws.{with_code}
use cantontrace.Errors.Wire.{
  string, Source, bytes, read, read_varint, decode_loop, push_field, set_field, decode_all_fields,
  decode_simple_message,
}
use cantontrace.Errors.Wire.Termination.{IsSteady, decoders-end, decode_loop-never}
use cantontrace.Errors.Wire.Encoding.{Field, int, str, encode_fields, IsEncodable, field_of}
use cantontrace.Errors.Details.{
  integer, decode_retry_info, parse_status_details, parse_details, no_details,
}
use cantontrace.Errors.Details.RoundTrip.{decode_all_fields-encode_fields}
use cantontrace.Errors.Details.Retry.{decode_retry_info-duration}
use cantontrace.Errors.Message.{
  ParsedCantonError, trim, trim_start, trim_end, parse_canton_error_string,
}
use cantontrace.Errors.Message.RoundTrip.{format, IsFormattable, parse_canton_error_string-format}
use cantontrace.Errors.Command.{grpc_error_to_command_error, grpc_status_name}
use cantontrace.Errors.Command.Laws.{without_details, grpc_error_to_command_error-format}

internal :
    with_code 13 (map category_info categories)
    ≡ system_internal_assumption_violated ∷ malicious_or_faulty_behaviour ∷ []
unfolding with_code
internal = refl

-- An ErrorInfo with a reason, and a number.
abbrev message : List Field
message = str 1 (text "OOPS") ∷ int 2 300 ∷ str 1 (text "AGAIN") ∷ []

message-All : All IsEncodable message
message-All = (
  (omega arith, omega arith, (omega arith, (omega arith, (omega arith, (omega arith, tt))))),
  (
    (omega arith, omega arith),
    (
      (
        omega arith,
        omega arith,
        (omega arith, (omega arith, (omega arith, (omega arith, (omega arith, tt))))),
      ),
      tt,
    ),
  ),
)

decode_all_fields-encode_fields_example :
    decode_all_fields (bytes (encode_fields message)) ≡ some (map field_of message)
decode_all_fields-encode_fields_example = decode_all_fields-encode_fields message message-All

decode_retry_info-duration_example :
    decode_retry_info (encode_fields (str 1 (encode_fields (int 1 30 ∷ [])) ∷ []))
    ≡ some (record { seconds = integer (pos 0); nanos = integer (pos 0) })
decode_retry_info-duration_example = decode_retry_info-duration 30 (omega arith)

-- A tag alone.
abbrev lone : Source
lone = bytes (10 ∷ [])

lone-IsSteady : IsSteady lone
unfolding read_varint read
lone-IsSteady zero = omega arith
lone-IsSteady (suc zero) = omega arith
lone-IsSteady (suc (suc i)) = omega arith

decoders-end_example : (decode_all_fields lone ≢ none) × (decode_simple_message lone ≢ none)
decoders-end_example = decoders-end lone lone-IsSteady

-- A tag and a length of -6.
abbrev loop : Source
loop = bytes (10 ∷ 250 ∷ 255 ∷ 255 ∷ 255 ∷ 15 ∷ [])

loop_facts :
    ((read_varint loop (pos 0)).0 % 8 ≡ 2)
    × ((let r = read_varint loop (read_varint loop (pos 0)).1 in r.1 +ℤ to_signed r.0) ≡ pos 0)
unfolding read_varint read
loop_facts = (refl, refl)

decode_loop-never_example :
    (decode_loop push_field 1000 loop (pos 0) [] ≡ none)
    × (decode_loop set_field 1000 loop (pos 0) [] ≡ none)
decode_loop-never_example = decode_loop-never 1000 loop (pos 0) [] refl loop_facts.0 loop_facts.1

abbrev contract_not_found : ParsedCantonError
contract_not_found = record {
  error_code_id = text "NOT_FOUND";
  category_id = text "4";
  correlation_id_prefix = text "a1";
  human_readable_message = text " no ";
}

contract_not_found-IsFormattable : IsFormattable contract_not_found
contract_not_found-IsFormattable = record {
  code = ((λ e. cc), (refl, (refl, (refl, (refl, (refl, (refl, (refl, (refl, (refl, tt))))))))));
  category = ((λ e. cc), (refl, tt));
  prefix = ((λ e. cc), (refl, (refl, tt)));
}

parse_canton_error_string-format_example :
    parse_canton_error_string (format contract_not_found)
    ≡ some (record contract_not_found { human_readable_message = trim (text " no ") })
parse_canton_error_string-format_example =
    parse_canton_error_string-format contract_not_found contract_not_found-IsFormattable

trimmed : trim (text " no ") ≡ text "no"
unfolding trim trim_start trim_end
trimmed = refl

numeral : text "4" ≡ decimal 4
unfolding decimal
numeral = refl

empty_details : parse_status_details [] ≡ some no_details
unfolding parse_status_details parse_details
empty_details = refl

grpc_error_to_command_error-format_example :
    Option.map without_details (
      grpc_error_to_command_error
        (record { code = 5; message = format contract_not_found; details = [] })
        none)
    ≡ some (record {
      error_code_id = text "NOT_FOUND";
      category_id = get_or (get_elem? categories 3) system_internal_assumption_violated;
      grpc_status_code = grpc_status_name 5;
      message = trim (text " no ");
      correlation_id = string (text "a1");
      error_info = none;
      request_info = none;
      retry_info = none;
      resource_info = none;
    })
grpc_error_to_command_error-format_example =
    grpc_error_to_command_error-format contract_not_found 3 5 [] no_details none
      contract_not_found-IsFormattable numeral empty_details
