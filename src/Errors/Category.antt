-- ===== src/Errors/Category.antt =====
-- The error categories of Canton and the gRPC codes that they map to: api-gateway/src/canton/errors.ts.
pub mod Laws
use cantontrace.Base.{
  ℕ, zero, suc, ◌≡◌, refl, Bool, true, false, ◌||◌, List, [], ◌∷◌, ◌++◌, Option, none, some, arith,
  ◌==◌, if◌then◌else◌, Str, text, map, any, get_elem?, ◌+◌, ap, sym, ◌⊎◌, append-nil, append_assoc,
  ◌∙◌, Bool-cases, inl, inr,
}
use cantontrace.Runtime.Object.{number_from}
use cantontrace.Runtime.Decimal.{decimal, number-decimal}
use mathlib.Core.Option.{get_or}

pub data ErrorCategory : Type 0 where
  invalid_independent_of_system_state : ErrorCategory
  auth_interceptor_invalid_authentication_credentials : ErrorCategory
  invalid_given_current_system_state_other : ErrorCategory
  invalid_given_current_system_state_resource_missing : ErrorCategory
  invalid_given_current_system_state_resource_exists : ErrorCategory
  contention_on_shared_resources : ErrorCategory
  deadline_exceeded_request_state_unknown : ErrorCategory
  transient_server_failure : ErrorCategory
  system_internal_assumption_violated : ErrorCategory
  malicious_or_faulty_behaviour : ErrorCategory
  internal_unsupported_operation : ErrorCategory

pub record ErrorCategoryInfo : Type 0 where
  pub category : ErrorCategory
  pub grpc_code : ℕ
  pub grpc_code_name : Str
  pub description : Str
  pub debugger_handling : Str

-- The properties of `ERROR_CATEGORIES`.
abbrev pub category_info : ErrorCategory → ErrorCategoryInfo
category_info invalid_independent_of_system_state = record {
  category = invalid_independent_of_system_state;
  grpc_code = 3;
  grpc_code_name = text "INVALID_ARGUMENT";
  description = text "Malformed command, unsupported LF version, empty key maintainers";
  debugger_handling = text "Show syntax/format error, pinpoint malformed field";
}
category_info auth_interceptor_invalid_authentication_credentials = record {
  category = auth_interceptor_invalid_authentication_credentials;
  grpc_code = 7;
  grpc_code_name = text "PERMISSION_DENIED";
  description = text "Invalid/missing JWT, wrong audience, expired token";
  debugger_handling =
      text
        "Show auth failure — Canton strips exact cause from API response for security; details only in server-side logs";
}
category_info invalid_given_current_system_state_other = record {
  category = invalid_given_current_system_state_other;
  grpc_code = 9;
  grpc_code_name = text "FAILED_PRECONDITION";
  description = text "Mutable system state (packages, parties, deduplication) fails preconditions";
  debugger_handling = text "Trigger ACS refresh, check if concurrent transaction altered state";
}
category_info invalid_given_current_system_state_resource_missing = record {
  category = invalid_given_current_system_state_resource_missing;
  grpc_code = 5;
  grpc_code_name = text "NOT_FOUND";
  description = text "Contract/party/package not found";
  debugger_handling =
      text "Link to Contract Lifecycle Tracker to show when/how resource was removed";
}
category_info invalid_given_current_system_state_resource_exists = record {
  category = invalid_given_current_system_state_resource_exists;
  grpc_code = 6;
  grpc_code_name = text "ALREADY_EXISTS";
  description = text "Duplicate command, duplicate contract key";
  debugger_handling = text "Show deduplication status, link to existing resource";
}
category_info contention_on_shared_resources = record {
  category = contention_on_shared_resources;
  grpc_code = 10;
  grpc_code_name = text "ABORTED";
  description = text "UTXO contention, interpretation time exceeded, resource limits";
  debugger_handling = text "Show contention timeline, advise profiling or operator scaling";
}
category_info deadline_exceeded_request_state_unknown = record {
  category = deadline_exceeded_request_state_unknown;
  grpc_code = 4;
  grpc_code_name = text "DEADLINE_EXCEEDED";
  description = text "Timeout — outcome unknown";
  debugger_handling = text "Warn that transaction may or may not have committed, show how to check";
}
category_info transient_server_failure = record {
  category = transient_server_failure;
  grpc_code = 14;
  grpc_code_name = text "UNAVAILABLE";
  description = text "Infrastructure faults (DB serialization errors, network issues)";
  debugger_handling =
      text "Filter from application-logic views, categorize as infrastructure retry";
}
category_info system_internal_assumption_violated = record {
  category = system_internal_assumption_violated;
  grpc_code = 13;
  grpc_code_name = text "INTERNAL";
  description = text "Internal bugs or unexpected states";
  debugger_handling = text "Flag for operator attention, not developer fix";
}
category_info malicious_or_faulty_behaviour = record {
  category = malicious_or_faulty_behaviour;
  grpc_code = 13;
  grpc_code_name = text "INTERNAL";
  description = text "Security-related failures";
  debugger_handling = text "Warn that details are deliberately hidden for security";
}
category_info internal_unsupported_operation = record {
  category = internal_unsupported_operation;
  grpc_code = 12;
  grpc_code_name = text "UNIMPLEMENTED";
  description = text "Calling unsupported API endpoints";
  debugger_handling = text "Show which endpoint is unsupported and suggest alternatives";
}

-- The keys of `ERROR_CATEGORIES`, as they stand.
abbrev pub categories : List ErrorCategory
categories =
    invalid_independent_of_system_state ∷ auth_interceptor_invalid_authentication_credentials
    ∷ invalid_given_current_system_state_other ∷ invalid_given_current_system_state_resource_missing
    ∷ invalid_given_current_system_state_resource_exists ∷ contention_on_shared_resources
    ∷ deadline_exceeded_request_state_unknown ∷ transient_server_failure
    ∷ system_internal_assumption_violated ∷ malicious_or_faulty_behaviour
    ∷ internal_unsupported_operation ∷ []

-- The properties of `GRPC_CODE_TO_CATEGORIES`: categories under a code.
abbrev pub CodeTable : Type 0
CodeTable = List (ℕ × List ErrorCategory)

unfoldable pub under : ℕ → CodeTable → List ErrorCategory
under code [] = []
under code ((k, cs) ∷ t) = if k == code then cs else under code t

-- `existing.push(info.category)`, or a new property.
unfoldable pub push_category : ErrorCategoryInfo → CodeTable → CodeTable
push_category info [] = (info.grpc_code, info.category ∷ []) ∷ []
push_category info ((k, cs) ∷ t) =
    if k == info.grpc_code
    then (k, cs ++ info.category ∷ []) ∷ t
    else (k, cs) ∷ push_category info t

unfoldable pub push_categories : List ErrorCategoryInfo → CodeTable → CodeTable
push_categories [] t = t
push_categories (info ∷ infos) t = push_categories infos (push_category info t)

unfoldable pub grpc_code_to_categories : CodeTable
grpc_code_to_categories = push_categories (map category_info categories) []

-- `CATEGORY_MAP` at a number, and at a string of digits.
unfoldable pub category_map : ℕ → Option ErrorCategory
category_map n =
    if n == 1
    then some invalid_independent_of_system_state
    else if n == 2
    then some auth_interceptor_invalid_authentication_credentials
    else if n == 3
    then some invalid_given_current_system_state_other
    else if n == 4
    then some invalid_given_current_system_state_resource_missing
    else if n == 5
    then some invalid_given_current_system_state_resource_exists
    else if n == 6
    then some contention_on_shared_resources
    else if n == 7
    then some deadline_exceeded_request_state_unknown
    else if n == 8
    then some transient_server_failure
    else if n == 9
    then some system_internal_assumption_violated
    else if n == 10
    then some malicious_or_faulty_behaviour
    else if n == 11
    then some internal_unsupported_operation
    else none

unfoldable pub category_id_to_error_category : Str → Option ErrorCategory
category_id_to_error_category id = category_map (number_from 0 id)

unfoldable pub code_map : ℕ → Option ErrorCategory
code_map code =
    if code == 3
    then some invalid_independent_of_system_state
    else if code == 7
    then some auth_interceptor_invalid_authentication_credentials
    else if code == 9
    then some invalid_given_current_system_state_other
    else if code == 5
    then some invalid_given_current_system_state_resource_missing
    else if code == 6
    then some invalid_given_current_system_state_resource_exists
    else if code == 10
    then some contention_on_shared_resources
    else if code == 4
    then some deadline_exceeded_request_state_unknown
    else if code == 14
    then some transient_server_failure
    else if code == 12
    then some internal_unsupported_operation
    else none

unfoldable pub grpc_code_to_category : ℕ → ErrorCategory
grpc_code_to_category code = get_or (code_map code) system_internal_assumption_violated
