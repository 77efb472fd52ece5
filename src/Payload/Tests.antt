-- ===== src/Payload/Tests.antt =====
-- Runs of the payload decoder.
use cantontrace.Base.{none, List, [], ◌∷◌, some, text, true, false, ◌≡◌, refl, ◌===◌, arith}
use cantontrace.Base.Lookup.{get, put}
use cantontrace.Runtime.Json.{Json, Properties, nil, cons, end, property, pos}
use cantontrace.Runtime.Object.{set}
use cantontrace.Ledger.{TemplateId}
use cantontrace.Payload.Normalize.{fill, normalize_value, normalize_object}
use cantontrace.Package.{FieldDefinition, TemplateDefinition, PackageDetail}
use cantontrace.Payload.Fields.{
  Cache, register_package_metadata, find_template, find_fields, resolve_template_fields,
  decode_payload,
}
use cantontrace.Payload.Encode.{encode_payload}
use cantontrace.Payload.RoundTrip.{IsPlain, printed_properties, decode_payload-encode_payload}
use cantontrace.Payload.Indices.{indexed, named, decode_payload-indexed}

abbrev iou_fields : List FieldDefinition
iou_fields =
    record { name = text "owner"; type = text "Party"; optional = false }
    ∷ record { name = text "amount"; type = text "Decimal"; optional = false }
    ∷ []

abbrev iou_template : TemplateDefinition
iou_template = record {
  name = text "Iou";
  fields = iou_fields;
  choices = [];
  key = none;
  signatory_expression = text "owner";
  observer_expression = [];
  ensure_expression = none;
  implements = [];
  source_code = none;
  decompiled_lf = none;
}

abbrev iou_package : PackageDetail
iou_package = record {
  package_id = text "1f2e";
  package_name = some (text "iou");
  package_version = none;
  modules = record { name = text "Main"; templates = iou_template ∷ []; interfaces = [] } ∷ [];
  has_source = false;
}

abbrev iou : TemplateId
iou = record { package_name = text "iou"; module_name = text "Main"; entity_name = text "Iou" }

abbrev registered : Cache
registered = register_package_metadata iou_package []

found : resolve_template_fields iou registered ≡ some iou_fields
unfolding resolve_template_fields register_package_metadata find_template find_fields get put ◌===◌
found = refl

abbrev iou_values : List Json
iou_values = Json.str (text "Alice") ∷ Json.null ∷ []

decode_payload-indexed_example :
    decode_payload registered (indexed 0 iou_values) iou false
    ≡ decode_payload registered (named iou_fields iou_values) iou true
decode_payload-indexed_example =
    decode_payload-indexed registered iou
      (record { name = text "owner"; type = text "Party"; optional = false })
      (record { name = text "amount"; type = text "Decimal"; optional = false } ∷ []) iou_values
      found (omega arith)

abbrev nested : Properties
nested = property (text "owner") (Json.str (text "Alice")) (
    property (text "amounts") (Json.arr (cons (Json.num (pos 3)) (cons Json.undefined nil)))
      (property (text "terms") (Json.obj (property (text "days") Json.null end)) end))

decode_payload-encode_payload_example :
    (encoded : Properties) × (encode_payload nested ≡ Json.obj encoded)
    × (decode_payload [] encoded iou true ≡ printed_properties nested)
unfolding set get put fill ◌===◌ IsPlain
decode_payload-encode_payload_example =
    decode_payload-encode_payload [] iou nested refl refl
      (tt, ((tt, (tt, tt)), ((refl, refl, (tt, tt)), tt)))

-- A record with a field called `party` is read as that field alone.
party_field :
    normalize_value (
      Json.obj (
        property
          (text "party")
          (Json.str (text "Alice"))
          (property (text "amount") (Json.str (text "3")) end)))
    ≡ Json.str (text "Alice")
unfolding normalize_value normalize_object get ◌===◌
party_field = refl
