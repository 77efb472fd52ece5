-- ===== src/Errors/Command/Laws.antt =====
-- What grpcErrorToCommandError (errors.ts) makes of an error in Canton's format.
use mathlib.Core.Option
use mathlib.Core.Option.{get_or}
use cantontrace.Base.{ℕ, suc, ◌≡◌, refl, List, Option, none, some, Str, get_elem?}
use cantontrace.Runtime.Decimal.{decimal}
use cantontrace.Errors.Wire.{string}
use cantontrace.Errors.Category.{categories, system_internal_assumption_violated}
use cantontrace.Errors.Category.Laws.{category_id_to_error_category-decimal}
use cantontrace.Errors.Details.{Any, ParsedStatusDetails, parse_status_details}
use cantontrace.Errors.Message.{ParsedCantonError, trim}
use cantontrace.Errors.Message.RoundTrip.{format, IsFormattable, parse_canton_error_string-format}
use cantontrace.Errors.Command.{CommandError, grpc_status_name, grpc_error_to_command_error}

-- What a command error says without the details of its status.
abbrev pub without_details : CommandError → CommandError
without_details c = record c {
  error_info = none;
  request_info = none;
  retry_info = none;
  resource_info = none;
}

-- A status whose message is in Canton's format, with the decimal numeral of a category id, and whose
-- details are decoded becomes a command error with the code of the message, the category at that
-- position (a violated system-internal assumption where there is none), the prefix as correlation id
-- whatever the details and the trailing headers say, the name of the gRPC code, and the trimmed text.
pub grpc_error_to_command_error-format :
    (e : ParsedCantonError) (n code : ℕ) (details : List Any) (parsed : ParsedStatusDetails)
    (trailing : Option (List (Str × Str)))
    → IsFormattable e
    → e.category_id ≡ decimal (suc n)
    → parse_status_details details ≡ some parsed
    → Option.map without_details (
        grpc_error_to_command_error
          (record { code = code; message = format e; details = details })
          trailing)
      ≡ some (record {
        error_code_id = e.error_code_id;
        category_id = get_or (get_elem? categories n) system_internal_assumption_violated;
        grpc_status_code = grpc_status_name code;
        message = trim e.human_readable_message;
        correlation_id = string e.correlation_id_prefix;
        error_info = none;
        request_info = none;
        retry_info = none;
        resource_info = none;
      })
unfolding grpc_error_to_command_error
grpc_error_to_command_error-format e n code details parsed trailing h id decoded =
    rw
      (
        grpc_error_to_command_error,
        decoded,
        parse_canton_error_string-format e h,
        id,
        (category_id_to_error_category-decimal n).0,
      )
      refl
