-- ===== src/Errors/Command.antt =====
-- Command errors: grpcErrorToCommandError and CantonError in api-gateway/src/canton/errors.ts, and
-- CommandError in api-gateway/src/types.ts, without the properties that nothing there sets. A
-- retry delay is left as its seconds and nanoseconds.
pub mod Laws
use mathlib.Core.Option
use mathlib.Core.Option.{get_or}
use cantontrace.Base.{
  ◌>>=◌, ℕ, List, [], ◌∷◌, ◌++◌, Option, none, some, ◌==◌, if◌then◌else◌, Str, text, get_elem?,
}
use cantontrace.Base.Lookup.{get}
use cantontrace.Runtime.Decimal.{decimal}
use cantontrace.Errors.Wire.{FieldValue, string}
use cantontrace.Errors.Category.{
  ErrorCategory, system_internal_assumption_violated, category_id_to_error_category,
  grpc_code_to_category,
}
use cantontrace.Errors.Details.{
  Any, ParsedErrorInfo, ParsedRequestInfo, ParsedRetryInfo, ParsedResourceInfo, ParsedStatusDetails,
  parse_status_details,
}
use cantontrace.Errors.Message.{ParsedCantonError, parse_canton_error_string}

pub record Status : Type 0 where
  pub code : ℕ
  pub message : Str
  pub details : List Any

pub record ErrorReason : Type 0 where
  pub reason : Str
  pub metadata : List (Str × FieldValue)

pub record ResourceName : Type 0 where
  pub resource_type : FieldValue
  pub resource_name : FieldValue
  pub owner : FieldValue

pub record CommandError : Type 0 where
  pub error_code_id : Str
  pub category_id : ErrorCategory
  pub grpc_status_code : Str
  pub message : Str
  pub correlation_id : FieldValue
  pub error_info : Option ErrorReason
  pub request_info : Option FieldValue
  pub retry_info : Option ParsedRetryInfo
  pub resource_info : Option ResourceName

abbrev pub grpc_code_names : List Str
grpc_code_names =
    text "OK"
    ∷ text "CANCELLED"
    ∷ text "UNKNOWN"
    ∷ text "INVALID_ARGUMENT"
    ∷ text "DEADLINE_EXCEEDED"
    ∷ text "NOT_FOUND"
    ∷ text "ALREADY_EXISTS"
    ∷ text "PERMISSION_DENIED"
    ∷ text "RESOURCE_EXHAUSTED"
    ∷ text "FAILED_PRECONDITION"
    ∷ text "ABORTED"
    ∷ text "OUT_OF_RANGE"
    ∷ text "UNIMPLEMENTED"
    ∷ text "INTERNAL"
    ∷ text "UNAVAILABLE"
    ∷ text "DATA_LOSS"
    ∷ text "UNAUTHENTICATED"
    ∷ []

unfoldable pub grpc_status_name : ℕ → Str
grpc_status_name code = get_or (get_elem? grpc_code_names code) (text "CODE_" ++ decimal code)

abbrev pub category_of : Option ParsedCantonError → ℕ → ErrorCategory
category_of none code = grpc_code_to_category code
category_of (some e) code =
    get_or (category_id_to_error_category e.category_id) system_internal_assumption_violated

-- The first that is there: the message's prefix, the id of the request, the trailing header.
abbrev pub correlation_of :
    Option ParsedCantonError → Option ParsedRequestInfo → Option (List (Str × Str)) → FieldValue
correlation_of (some e) request trailing = string e.correlation_id_prefix
correlation_of none (some r) trailing = r.request_id
correlation_of none none (some headers) = string (get_or (get (text "x-correlation-id") headers) [])
correlation_of none none none = string []

unfoldable pub grpc_error_to_command_error :
    Status → Option (List (Str × Str)) → Option CommandError
grpc_error_to_command_error status trailing = do
  parsed ← parse_status_details status.details
  let canton = parse_canton_error_string status.message
  some (record {
    error_code_id = elim canton [
      | none ↦ text "GRPC_" ++ decimal status.code
      | some e ↦ e.error_code_id
    ];
    category_id = category_of canton status.code;
    grpc_status_code = grpc_status_name status.code;
    message = elim canton [ none ↦ status.message | some e ↦ e.human_readable_message ];
    correlation_id = correlation_of canton parsed.request_info trailing;
    error_info =
        Option.map (λ (i : ParsedErrorInfo). record { reason = i.reason; metadata = i.metadata })
          parsed.error_info;
    request_info = Option.map (λ (r : ParsedRequestInfo). r.request_id) parsed.request_info;
    retry_info = parsed.retry_info;
    resource_info =
        Option.map
          (λ (r : ParsedResourceInfo). record {
            resource_type = r.resource_type;
            resource_name = r.resource_name;
            owner = r.owner;
          })
          parsed.resource_info;
  })

-- The error that is thrown: its text, and what it carries.
pub record CantonError : Type 0 where
  pub name : Str
  pub message : Str
  pub command_error : CommandError
  pub grpc_code : ℕ

unfoldable pub canton_error : Status → Option (List (Str × Str)) → Option CantonError
canton_error status trailing = do
  e ← grpc_error_to_command_error status trailing
  some (record {
    name = text "CantonError";
    message = text "[" ++ (e.error_code_id ++ (text "] " ++ e.message));
    command_error = e;
    grpc_code = status.code;
  })
