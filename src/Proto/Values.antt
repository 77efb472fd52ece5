-- ===== src/Proto/Values.antt =====
-- `recordToObject` and `valueToObject` of api-gateway/src/canton/services/state-service.ts, and
-- `timestampToISO` of shared.ts at the timestamp messages.
use cantontrace.Base.{
  ◌+◌, ◌*◌, ◌/◌, ◌≡◌, refl, List, [], Option, none, some, Str, text, arith, ◌===◌, if◌then◌else◌,
}
use mathlib.Core.Option
use cantontrace.Base.Lookup.{get}
use cantontrace.Runtime.Json.{Json, Elements, Properties, of_list}
use cantontrace.Runtime.Object.{set, get-set}
use cantontrace.Runtime.Date.{iso_string}
use cantontrace.Proto.{
  Value, RecordFields, ValueList, Entries, Pairs, no_fields, field, no_values, element, no_entries,
  entry, no_pairs, pair, record_value, variant, list, text_map, no_value, optional, contract_id,
  int64, numeric, text_value, timestamp, party, enum, bool, date, unit, gen_map, Timestamp,
}

unfoldable mutual
  pub value_to_object : Value → Json
  value_to_object (record_value fs) = Json.obj (of_list (record_fields fs []))
  value_to_object (variant tag v) = Json.obj (
      Properties.property (text "tag") (Json.str tag)
        (Properties.property (text "value") (value_to_object v) Properties.end))
  value_to_object (list vs) = Json.arr (values_to_objects vs)
  value_to_object (text_map es) = Json.obj (of_list (entry_fields es []))
  value_to_object no_value = Json.null
  value_to_object (optional v) = value_to_object v
  value_to_object (contract_id s) = Json.str s
  value_to_object (int64 s) = Json.str s
  value_to_object (numeric s) = Json.str s
  value_to_object (text_value s) = Json.str s
  value_to_object (timestamp s) = Json.str s
  value_to_object (party s) = Json.str s
  value_to_object (enum s) = Json.str s
  value_to_object (bool b) = Json.bool b
  value_to_object (date d) = Json.num d
  value_to_object unit = Json.obj Properties.end
  value_to_object (gen_map ps) = Json.arr (pairs_to_objects ps)

  -- The loop of `recordToObject`: `result[field.label] = …`.
  pub record_fields : RecordFields → List (Str × Json) → List (Str × Json)
  record_fields no_fields result = result
  record_fields (field label v fs) result = record_fields fs (set label (value_to_object v) result)

  -- `elements.map(valueToObject)`.
  pub values_to_objects : ValueList → Elements
  values_to_objects no_values = Elements.nil
  values_to_objects (element v vs) = Elements.cons (value_to_object v) (values_to_objects vs)

  -- The loop over the entries of a text map.
  pub entry_fields : Entries → List (Str × Json) → List (Str × Json)
  entry_fields no_entries result = result
  entry_fields (entry k v es) result = entry_fields es (set k (value_to_object v) result)

  -- The entries of a generic map, each as an object with a key and a value.
  pub pairs_to_objects : Pairs → Elements
  pairs_to_objects no_pairs = Elements.nil
  pairs_to_objects (pair k v ps) =
      Elements.cons
        (Json.obj (
          Properties.property (text "key") (value_to_object k)
            (Properties.property (text "value") (value_to_object v) Properties.end)))
        (pairs_to_objects ps)

unfoldable pub record_to_object : Option RecordFields → List (Str × Json)
record_to_object none = []
record_to_object (some fs) = record_fields fs []

-- The value of the last field with the label.
unfoldable pub last_field : Str → RecordFields → Option Value
last_field label no_fields = none
last_field label (field l v fs) = elim (last_field label fs) [
  | some w ↦ some w
  | none ↦ if l === label then some v else none
]

unfoldable pub timestamp_to_iso : Option Timestamp → Str
timestamp_to_iso none = iso_string 0
timestamp_to_iso (some ts) = iso_string (ts.seconds * 1000 + ts.nanos / 1000000)

-- What a lookup finds when the loop over the fields began with `result`.
abbrev found_in : Str → Option Value → List (Str × Json) → Option Json
found_in label (some v) result = some (value_to_object v)
found_in label none result = get label result

get-record_fields :
    (label : Str) (fs : RecordFields) (result : List (Str × Json))
    → get label (record_fields fs result) ≡ found_in label (last_field label fs) result
unfolding record_fields last_field
get-record_fields label no_fields result = refl
get-record_fields label (field l v fs) result = ground (
  arith,
  get-record_fields label fs (set l (value_to_object v) result),
  get-set l label (value_to_object v) result,
)

-- A property of the decoded record is the decoded value of the last field with that label, and
-- there is no property with a label that no field has.
pub get-record_to_object :
    (label : Str) (fs : RecordFields)
    → get label (record_to_object (some fs)) ≡ Option.map value_to_object (last_field label fs)
unfolding record_to_object get
get-record_to_object label fs = ground (arith, get-record_fields label fs [])
