-- ===== src/Payload/Fields.antt =====
-- decodePayload and the package metadata of api-gateway/src/services/payload-decoder.ts.
use cantontrace.Base.{
  ℕ, zero, suc, List, [], ◌∷◌, Option, none, some, Str, ◌===◌, Bool, true, false, if◌then◌else◌,
}
use cantontrace.Base.Lookup.{get, put}
use cantontrace.Runtime.Json.{Json, Properties, end, property, of_list}
use cantontrace.Runtime.Number.{Number, not_a_number, integer, parse_int}
use cantontrace.Ledger.{TemplateId}
use cantontrace.Package.{FieldDefinition, TemplateDefinition, ModuleDetail, PackageDetail}
use cantontrace.Payload.Normalize.{fill, normalize_value, normalize_payload}

abbrev pub Cache : Type 0
Cache = List (Str × PackageDetail)

-- An absent and an empty package name are not registered.
unfoldable pub register_package_metadata : PackageDetail → Cache → Cache
register_package_metadata detail cache = elim detail.package_name [
  | none ↦ put detail.package_id detail cache
  | some name ↦
      if name === []
      then put detail.package_id detail cache
      else put name detail (put detail.package_id detail cache)
]

abbrev pub clear_package_metadata : Cache → Cache
clear_package_metadata cache = []

-- The first template of the name, in the first such module that has one.
unfoldable pub find_template : Str → List TemplateDefinition → Option (List FieldDefinition)
find_template name [] = none
find_template name (t ∷ ts) = if t.name === name then some t.fields else find_template name ts

abbrev pub otherwise {ℓ} : {A : Type ℓ} → Option A → Option A → Option A
otherwise none next = next
otherwise (some a) next = some a

unfoldable pub find_fields : TemplateId → List ModuleDetail → Option (List FieldDefinition)
find_fields id [] = none
find_fields id (m ∷ ms) =
    let rest = find_fields id ms in
    if m.name === id.module_name
    then otherwise (find_template id.entity_name m.templates) rest
    else rest

unfoldable pub resolve_template_fields : TemplateId → Cache → Option (List FieldDefinition)
resolve_template_fields id cache = elim (get id.package_name cache) [
  | none ↦ none
  | some detail ↦ find_fields id detail.modules
]

-- `fields[index]`, and none where a guard keeps the original key.
abbrev pub definition_at : ℕ → List FieldDefinition → Option FieldDefinition
definition_at i [] = none
definition_at zero (f ∷ fs) = some f
definition_at (suc i) (f ∷ fs) = definition_at i fs

abbrev pub field_of_number : Number → List FieldDefinition → Option FieldDefinition
field_of_number not_a_number fields = none
field_of_number (integer false i) fields = definition_at i fields
field_of_number (integer true zero) fields = definition_at zero fields
field_of_number (integer true (suc i)) fields = none

unfoldable pub field_key : Str → List FieldDefinition → Str
field_key key fields = elim (field_of_number (parse_int key) fields) [
  | none ↦ key
  | some f ↦ f.name
]

-- The entries that the loop assigns, in order.
unfoldable pub map_entries : Properties → List FieldDefinition → List (Str × Json)
map_entries end fields = []
map_entries (property k v ps) fields =
    (field_key k fields, normalize_value v) ∷ map_entries ps fields

unfoldable pub map_field_indices_to_names : Properties → List FieldDefinition → Properties
map_field_indices_to_names payload fields = of_list (fill [] (map_entries payload fields))

unfoldable pub decode_payload : Cache → Properties → TemplateId → Bool → Properties
decode_payload cache payload id true = normalize_payload payload
decode_payload cache payload id false = elim (resolve_template_fields id cache) [
  | none ↦ payload
  | some [] ↦ payload
  | some (f ∷ fs) ↦ map_field_indices_to_names payload (f ∷ fs)
]
