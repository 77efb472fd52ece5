-- ===== src/Payload/Normalize.antt =====
-- normalizePayload and normalizeValue of api-gateway/src/services/payload-decoder.ts. Values are read as
-- `Object.entries` lists them; a key that `in` finds on the prototype is left out.
use cantontrace.Base.{
  List, [], ◌∷◌, Option, none, some, Str, text, ◌===◌, Bool, true, false, ◌&&◌, if◌then◌else◌,
}
use cantontrace.Base.Lookup.{get}
use cantontrace.Runtime.Json.{
  Json, Elements, Properties, nil, cons, end, property, properties, of_list,
}
use cantontrace.Runtime.Object.{set}

-- `for (const [key, value] of ...) result[key] = value`.
unfoldable pub fill : List (Str × Json) → List (Str × Json) → List (Str × Json)
fill result [] = result
fill result ((k, v) ∷ entries) = fill (set k v result) entries

abbrev pub rebuild : List (Str × Json) → List (Str × Json)
rebuild = fill []

-- `key in obj`.
abbrev pub is_present : Option Json → Bool
is_present none = false
is_present (some v) = true

abbrev pub has_key : Str → List (Str × Json) → Bool
has_key k ps = is_present (get k ps)

-- `obj[key]`.
abbrev pub field : Str → List (Str × Json) → Json
field k ps = elim (get k ps) [ none ↦ Json.undefined | some v ↦ v ]

-- `tag === name`.
abbrev pub is_tag : Str → Json → Bool
is_tag name (Json.str s) = s === name
is_tag name _ = false

abbrev pub variant : Json → Json → Json
variant tag value = Json.obj (property (text "tag") tag (property (text "value") value end))

-- `tag` as it stands and `value` normalized.
abbrev pub normalize_tagged : Json → Json → Json
normalize_tagged tag value =
    if is_tag (text "None") tag
    then Json.null
    else if is_tag (text "Some") tag
    then value
    else variant tag value

-- The object's properties and the same properties with normalized values.
unfoldable pub normalize_object : List (Str × Json) → List (Str × Json) → Json
normalize_object ps done =
    if has_key (text "tag") ps && has_key (text "value") ps
    then normalize_tagged (field (text "tag") ps) (field (text "value") done)
    else if has_key (text "unumeric") ps
    then field (text "unumeric") ps
    else if has_key (text "int64") ps
    then field (text "int64") ps
    else if has_key (text "contractId") ps
    then Json.obj (property (text "contractId") (field (text "contractId") ps) end)
    else if has_key (text "party") ps
    then field (text "party") ps
    else Json.obj (of_list (rebuild done))

unfoldable mutual
  pub normalize_value : Json → Json
  normalize_value Json.undefined = Json.null
  normalize_value Json.null = Json.null
  normalize_value (Json.bool b) = Json.bool b
  normalize_value (Json.num n) = Json.num n
  normalize_value (Json.str s) = Json.str s
  normalize_value (Json.arr vs) = Json.arr (normalize_elements vs)
  normalize_value (Json.obj ps) = normalize_object (properties ps) (normalize_properties ps)

  pub normalize_elements : Elements → Elements
  normalize_elements nil = nil
  normalize_elements (cons v vs) = cons (normalize_value v) (normalize_elements vs)

  pub normalize_properties : Properties → List (Str × Json)
  normalize_properties end = []
  normalize_properties (property k v ps) = (k, normalize_value v) ∷ normalize_properties ps

-- A payload is an object, so that the test for one has passed.
unfoldable pub normalize_payload : Properties → Properties
normalize_payload ps = of_list (rebuild (normalize_properties ps))
