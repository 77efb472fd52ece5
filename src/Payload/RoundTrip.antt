-- ===== src/Payload/RoundTrip.antt =====
-- decodePayload after encodePayload.
use cantontrace.Base.{List, Str, text, ◌===◌, Bool, true, false, ◌||◌, ◌≡◌, refl, ap, ◌∙◌, arith}
use cantontrace.Base.Lookup.{get}
use cantontrace.Runtime.Json.{
  Json, Elements, Properties, nil, cons, end, property, properties, of_list,
}
use cantontrace.Runtime.Object.{map_values}
use cantontrace.Payload.Normalize.{
  rebuild, has_key, normalize_value, normalize_object, normalize_elements, normalize_payload,
}
use cantontrace.Ledger.{TemplateId}
use cantontrace.Payload.Fields.{Cache, decode_payload}
use cantontrace.Payload.Encode.{
  missing, print, encode_value, encode_object, encode_elements, encode_payload,
}
use cantontrace.Payload.Objects.{
  properties-of_list, has_key-map_values, rebuild-map_values, normalize_properties-eq,
  encode_properties-eq,
}

-- The value with its numbers as texts and nothing undefined.
unfoldable mutual
  pub printed : Json → Json
  printed Json.undefined = Json.null
  printed Json.null = Json.null
  printed (Json.bool b) = Json.bool b
  printed (Json.num n) = Json.str (print n)
  printed (Json.str s) = Json.str s
  printed (Json.arr vs) = Json.arr (printed_elements vs)
  printed (Json.obj ps) = Json.obj (printed_properties ps)

  pub printed_elements : Elements → Elements
  printed_elements nil = nil
  printed_elements (cons v vs) = cons (printed v) (printed_elements vs)

  pub printed_properties : Properties → Properties
  printed_properties end = end
  printed_properties (property k v ps) = property k (printed v) (printed_properties ps)

-- The keys that encoding or decoding takes for a mark.
abbrev pub passes : List (Str × Json) → Bool
passes l = has_key (text "tag") l || has_key (text "contractId") l

abbrev pub is_marked : List (Str × Json) → Bool
is_marked l =
    passes l || has_key (text "unumeric") l || has_key (text "int64") l || has_key (text "party") l

abbrev pub IsOrdered : Properties → Type 0
IsOrdered ps = rebuild (properties ps) ≡ properties ps

-- Every object has its keys in JavaScript's order and none of them is a mark.
unfoldable mutual
  pub IsPlain : Json → Type 0
  IsPlain (Json.arr vs) = IsPlainElements vs
  IsPlain (Json.obj ps) = IsOrdered ps × (is_marked (properties ps) ≡ false) × IsPlainProperties ps
  IsPlain _ = Unit

  pub IsPlainElements : Elements → Type 0
  IsPlainElements nil = Unit
  IsPlainElements (cons v vs) = IsPlain v × IsPlainElements vs

  pub IsPlainProperties : Properties → Type 0
  IsPlainProperties end = Unit
  IsPlainProperties (property k v ps) = IsPlain v × IsPlainProperties ps

-- Encoding an ordered object that is not passed on, as a list.
encode_object_lem :
    (ps : Properties)
    → IsOrdered ps
    → passes (properties ps) ≡ false
    → encode_value (Json.obj ps) ≡ Json.obj (of_list (map_values encode_value (properties ps)))
unfolding encode_value encode_object
encode_object_lem ps o h =
    rw
      (encode_object, h, encode_properties-eq ps, rebuild-map_values encode_value (properties ps) o)
      refl

recoded : Properties → Properties
recoded ps = of_list (map_values normalize_value (map_values encode_value (properties ps)))

normalize-encode_properties :
    (ps : Properties)
    → IsOrdered ps
    → normalize_payload (of_list (map_values encode_value (properties ps))) ≡ recoded ps
unfolding normalize_payload recoded
normalize-encode_properties ps o =
    let l = map_values encode_value (properties ps) in
    let kept : rebuild l ≡ l = rebuild-map_values encode_value (properties ps) o in
    rw
      (
        normalize_payload,
        normalize_properties-eq (of_list l),
        properties-of_list l,
        rebuild-map_values normalize_value l kept,
      )
      refl

normalize_unmarked :
    (ps : Properties)
    → is_marked (properties ps) ≡ false
    → normalize_value (Json.obj ps) ≡ Json.obj (normalize_payload ps)
unfolding normalize_value normalize_object normalize_payload
normalize_unmarked ps h = ground arith

is_marked-map_values :
    (f : Json → Json) (l : List (Str × Json)) → is_marked (map_values f l) ≡ is_marked l
is_marked-map_values f l =
    rw
      (
        has_key-map_values f (text "tag") l,
        has_key-map_values f (text "contractId") l,
        has_key-map_values f (text "unumeric") l,
        has_key-map_values f (text "int64") l,
        has_key-map_values f (text "party") l,
      )
      refl

passes_of_is_marked : (l : List (Str × Json)) → is_marked l ≡ false → passes l ≡ false
passes_of_is_marked l h = ground arith

normalize-encode_object :
    (ps : Properties)
    → IsOrdered ps
    → is_marked (properties ps) ≡ false
    → normalize_value (encode_value (Json.obj ps)) ≡ Json.obj (recoded ps)
normalize-encode_object ps o h =
    let l = map_values encode_value (properties ps) in
    let unmarked : is_marked (properties (of_list l)) ≡ false =
      ap is_marked (properties-of_list l) ∙ is_marked-map_values encode_value (properties ps) ∙ h in
    ap normalize_value (encode_object_lem ps o (passes_of_is_marked (properties ps) h))
    ∙ normalize_unmarked (of_list l) unmarked
    ∙ ap Json.obj (normalize-encode_properties ps o)

normalize-missing : normalize_value missing ≡ Json.null
unfolding normalize_value normalize_object get ◌===◌
normalize-missing = refl

mutual
  unfolding normalize_value encode_value printed IsPlain normalize_object recoded

  normalize-encode_value : (v : Json) → IsPlain v → normalize_value (encode_value v) ≡ printed v
  normalize-encode_value Json.undefined h = normalize-missing
  normalize-encode_value Json.null h = normalize-missing
  normalize-encode_value (Json.bool b) h = refl
  normalize-encode_value (Json.num n) h = refl
  normalize-encode_value (Json.str s) h = refl
  normalize-encode_value (Json.arr vs) h = ap Json.arr (normalize-encode_elements vs h)
  normalize-encode_value (Json.obj ps) (o, u, h) =
      normalize-encode_object ps o u ∙ ap Json.obj (recoded-printed ps h)

  normalize-encode_elements :
      (vs : Elements)
      → IsPlainElements vs
      → normalize_elements (encode_elements vs) ≡ printed_elements vs
  normalize-encode_elements nil h = refl
  normalize-encode_elements (cons v vs) (p, h) =
      rw (normalize-encode_value v p, normalize-encode_elements vs h) refl

  recoded-printed : (ps : Properties) → IsPlainProperties ps → recoded ps ≡ printed_properties ps
  recoded-printed end h = refl
  recoded-printed (property k v ps) (p, h) =
      ap (λ w. property k w (recoded ps)) (normalize-encode_value v p)
      ∙ ap (property k (printed v)) (recoded-printed ps h)

-- A payload in JavaScript's order, whose own keys are neither `tag` nor `contractId` and whose values
-- are plain, is encoded to an object that verbose decoding takes back to the payload, with numbers as
-- texts and nothing undefined.
pub decode_payload-encode_payload :
    (cache : Cache) (id : TemplateId) (ps : Properties)
    → IsOrdered ps
    → passes (properties ps) ≡ false
    → IsPlainProperties ps
    → (encoded : Properties) × (encode_payload ps ≡ Json.obj encoded)
      × (decode_payload cache encoded id true ≡ printed_properties ps)
unfolding encode_payload decode_payload
decode_payload-encode_payload cache id ps o u h = (
  of_list (map_values encode_value (properties ps)),
  encode_object_lem ps o u,
  normalize-encode_properties ps o ∙ recoded-printed ps h,
)
