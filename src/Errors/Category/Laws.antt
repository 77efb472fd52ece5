-- ===== src/Errors/Category/Laws.antt =====
-- The tables of error categories in api-gateway/src/canton/errors.ts, against each other.
use cantontrace.Base.{
  ℕ, zero, suc, ◌≡◌, refl, List, [], ◌∷◌, ◌++◌, none, arith, ◌==◌, if◌then◌else◌, map, get_elem?,
  ap, sym, ◌⊎◌, append-nil, append_assoc, ◌∙◌, inl, inr,
}
use cantontrace.Runtime.Decimal.{decimal, number-decimal}
use cantontrace.Errors.Category.{
  ErrorCategory, ErrorCategoryInfo, category_info, categories, CodeTable, under, push_category,
  push_categories, grpc_code_to_categories, category_map, category_id_to_error_category, code_map,
  grpc_code_to_category, invalid_independent_of_system_state,
  auth_interceptor_invalid_authentication_credentials, invalid_given_current_system_state_other,
  invalid_given_current_system_state_resource_missing,
  invalid_given_current_system_state_resource_exists, contention_on_shared_resources,
  deadline_exceeded_request_state_unknown, transient_server_failure,
  system_internal_assumption_violated, malicious_or_faulty_behaviour,
  internal_unsupported_operation,
}

-- The categories of those infos that have the code.
unfoldable pub with_code : ℕ → List ErrorCategoryInfo → List ErrorCategory
with_code code [] = []
with_code code (info ∷ infos) =
    if info.grpc_code == code then info.category ∷ with_code code infos else with_code code infos

under-push_category :
    (code : ℕ) (info : ErrorCategoryInfo) (t : CodeTable)
    → under code (push_category info t)
      ≡ under code t ++ (if info.grpc_code == code then info.category ∷ [] else [])
unfolding under push_category
under-push_category code info [] = ground arith
under-push_category code info ((k, cs) ∷ t) =
    ground (arith, under-push_category code info t, append-nil (under code t), append-nil cs)

under-push_categories :
    (code : ℕ) (infos : List ErrorCategoryInfo) (t : CodeTable)
    → under code (push_categories infos t) ≡ under code t ++ with_code code infos
unfolding under push_categories with_code
under-push_categories code [] t = sym (append-nil (under code t))
under-push_categories code (info ∷ infos) t = ground (
  arith,
  under-push_categories code infos (push_category info t),
  under-push_category code info t,
  append_assoc (under code t) (info.category ∷ []) (with_code code infos),
  append-nil (under code t),
)

-- The reverse table has under each code the categories with that code, in the order in which they
-- are declared, and nothing under any other code.
pub under-grpc_code_to_categories :
    (code : ℕ) → under code grpc_code_to_categories ≡ with_code code (map category_info categories)
unfolding grpc_code_to_categories under
under-grpc_code_to_categories code = under-push_categories code (map category_info categories) []

-- A category is found again from its gRPC code, unless it is the one for malicious or faulty
-- behaviour: that one is reported as a violated system-internal assumption.
pub grpc_code_to_category-category_info :
    (c : ErrorCategory)
    → (c ≡ malicious_or_faulty_behaviour
        × grpc_code_to_category (category_info c).grpc_code ≡ system_internal_assumption_violated)
      ⊎ (grpc_code_to_category (category_info c).grpc_code ≡ c)
unfolding grpc_code_to_category code_map
grpc_code_to_category-category_info invalid_independent_of_system_state = inr refl
grpc_code_to_category-category_info auth_interceptor_invalid_authentication_credentials = inr refl
grpc_code_to_category-category_info invalid_given_current_system_state_other = inr refl
grpc_code_to_category-category_info invalid_given_current_system_state_resource_missing = inr refl
grpc_code_to_category-category_info invalid_given_current_system_state_resource_exists = inr refl
grpc_code_to_category-category_info contention_on_shared_resources = inr refl
grpc_code_to_category-category_info deadline_exceeded_request_state_unknown = inr refl
grpc_code_to_category-category_info transient_server_failure = inr refl
grpc_code_to_category-category_info system_internal_assumption_violated = inr refl
grpc_code_to_category-category_info malicious_or_faulty_behaviour = inl (refl, refl)
grpc_code_to_category-category_info internal_unsupported_operation = inr refl

category_map-suc : (n : ℕ) → category_map (suc n) ≡ get_elem? categories n
unfolding category_map
category_map-suc zero = refl
category_map-suc (suc zero) = refl
category_map-suc (suc (suc zero)) = refl
category_map-suc (suc (suc (suc zero))) = refl
category_map-suc (suc (suc (suc (suc zero)))) = refl
category_map-suc (suc (suc (suc (suc (suc zero))))) = refl
category_map-suc (suc (suc (suc (suc (suc (suc zero)))))) = refl
category_map-suc (suc (suc (suc (suc (suc (suc (suc zero))))))) = refl
category_map-suc (suc (suc (suc (suc (suc (suc (suc (suc zero)))))))) = refl
category_map-suc (suc (suc (suc (suc (suc (suc (suc (suc (suc zero))))))))) = refl
category_map-suc (suc (suc (suc (suc (suc (suc (suc (suc (suc (suc zero)))))))))) = refl
category_map-suc (suc (suc (suc (suc (suc (suc (suc (suc (suc (suc (suc n))))))))))) = ground arith

-- A category id is read as a position, from one, in the declaration of the categories: the decimal
-- numeral of any number gives the category there, and `null` where there is none.
pub category_id_to_error_category-decimal :
    (n : ℕ)
    → (category_id_to_error_category (decimal (suc n)) ≡ get_elem? categories n)
      × (category_id_to_error_category (decimal 0) ≡ none)
unfolding category_id_to_error_category category_map
category_id_to_error_category-decimal n = (
  ap category_map (number-decimal (suc n)) ∙ category_map-suc n,
  ap category_map (number-decimal 0),
)
