-- ===== src/Payload/Encode.antt =====
-- encodePayload and encodeValue of api-gateway/src/services/payload-decoder.ts.
use cantontrace.Base.{suc, List, [], ◌∷◌, Str, text, ◌||◌, if◌then◌else◌}
use cantontrace.Runtime.Json.{
  Json, Elements, Properties, nil, cons, end, property, properties, of_list, ℤ, pos, negsuc,
}
use cantontrace.Runtime.Decimal.{decimal}
use cantontrace.Payload.Normalize.{rebuild, has_key}

-- `String(n)` of an integer.
unfoldable pub print : ℤ → Str
print (pos n) = decimal n
print (negsuc n) = b'-' ∷ decimal (suc n)

abbrev pub missing : Json
missing =
    Json.obj
      (property (text "tag") (Json.str (text "None")) (property (text "value") (Json.obj end) end))

-- The object and its properties with encoded values.
unfoldable pub encode_object : Properties → List (Str × Json) → Json
encode_object ps done =
    if has_key (text "tag") (properties ps) || has_key (text "contractId") (properties ps)
    then Json.obj ps
    else Json.obj (of_list (rebuild done))

unfoldable mutual
  pub encode_value : Json → Json
  encode_value Json.undefined = missing
  encode_value Json.null = missing
  encode_value (Json.str s) = Json.str s
  encode_value (Json.num n) = Json.str (print n)
  encode_value (Json.bool b) = Json.bool b
  encode_value (Json.arr vs) = Json.arr (encode_elements vs)
  encode_value (Json.obj ps) = encode_object ps (encode_properties ps)

  pub encode_elements : Elements → Elements
  encode_elements nil = nil
  encode_elements (cons v vs) = cons (encode_value v) (encode_elements vs)

  pub encode_properties : Properties → List (Str × Json)
  encode_properties end = []
  encode_properties (property k v ps) = (k, encode_value v) ∷ encode_properties ps

-- The template is not read.
unfoldable pub encode_payload : Properties → Json
encode_payload payload = encode_value (Json.obj payload)
