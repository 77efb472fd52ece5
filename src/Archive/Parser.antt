-- ===== src/Archive/Parser.antt =====
-- The fallback parser of Daml-LF archives: parseDalfArchive and what it calls in
-- api-gateway/src/services/package-parser.ts. A `TextDecoder` that is not fatal does not throw, and
-- neither does readFields, so that the handlers around them are left out.
use mathlib.Core.Option.{get_or}
use cantontrace.Base.{
  ◌&&◌, ℕ, List, [], ◌∷◌, ◌++◌, Option, none, some, Str, text, Bool, true, false, not, ◌==◌, ◌===◌,
  if◌then◌else◌, get_elem?, length,
}
use cantontrace.Runtime.Decimal.{decimal}
use cantontrace.Runtime.Utf8.{decode}
use cantontrace.Package.{
  FieldDefinition, ChoiceDefinition, KeyDefinition, TemplateDefinition, InterfaceDefinition,
  ModuleDetail, PackageDetail,
}
use cantontrace.Archive.Reader.{WireValue, number, bytes, ProtoField, read_fields}

-- The interned strings and dotted names of a package.
pub record Interned : Type 0 where
  pub strings : List Str
  pub dotted_names : List (List Str)

-- `segments.join('.')`.
unfoldable pub join_dots : List Str → Str
join_dots [] = []
join_dots (s ∷ []) = s
join_dots (s ∷ t ∷ ss) = s ++ b'.' ∷ join_dots (t ∷ ss)

-- `table[i] ?? d`.
abbrev pub entry_or {ℓ} : {A : Type ℓ} → List A → ℕ → A → A
entry_or table i d = get_or (get_elem? table i) d

-- A field of a number whose value is bytes, and one whose value is none.
unfoldable pub bytes_of : ℕ → ProtoField → Option (List ℕ)
bytes_of n f = if f.field_number == n then as_bytes f.value else none
  where
    as_bytes : WireValue → Option (List ℕ)
    as_bytes (number v) = none
    as_bytes (bytes bs) = some bs

unfoldable pub number_of : ℕ → ProtoField → Option ℕ
number_of n f = if f.field_number == n then as_number f.value else none
  where
    as_number : WireValue → Option ℕ
    as_number (number v) = some v
    as_number (bytes bs) = none

-- A loop over fields that sets or extends what it has so far.
unfoldable pub each {ℓ} : {A : Type ℓ} → (ProtoField → A → A) → List ProtoField → A → A
each step [] a = a
each step (f ∷ fs) a = each step fs (step f a)

-- `if (...) a = ...` for a value that is there.
abbrev pub on_some {ℓ κ} : {A : Type ℓ} {B : Type κ} → Option A → (A → B → B) → B → B
on_some none f b = b
on_some (some a) f b = f a b

abbrev pub push {ℓ} : {A : Type ℓ} → A → List A → List A
push a l = l ++ a ∷ []

abbrev pub push_parsed {ℓ} : {A : Type ℓ} → Option A → List A → List A
push_parsed none l = l
push_parsed (some a) l = l ++ a ∷ []

abbrev pub interned_name : ℕ → Str
interned_name i = text "<interned_" ++ (decimal i ++ text ">")

unfoldable pub parse_interned_dotted_name : List ℕ → List Str → List Str
parse_interned_dotted_name bs strings =
    each (λ f. on_some (number_of 1 f) (λ i. push (entry_or strings i (interned_name i))))
      (read_fields bs) []

-- One segment of a dotted name: in bytes or by its index.
unfoldable pub segment : List Str → ProtoField → List Str → List Str
segment strings f segments =
    if f.field_number == 1 then push (spelled f.value) segments else segments
  where
    spelled : WireValue → Str
    spelled (bytes bs) = decode bs
    spelled (number i) = entry_or strings i (b'<' ∷ (decimal i ++ text ">"))

unfoldable pub parse_dotted_name : List ℕ → List Str → Str
parse_dotted_name bs strings = join_dots (each (segment strings) (read_fields bs) [])

abbrev pub dotted : Interned → ℕ → Str
dotted t i = join_dots (entry_or t.dotted_names i [])

unfoldable pub name_field : List Str → ProtoField → Str → Str
name_field strings f name =
    on_some (bytes_of 1 f) (λ bs _. decode bs)
      (on_some (number_of 2 f) (λ i _. entry_or strings i (text "field_" ++ decimal i)) name)

-- A field without a name is left out.
unfoldable pub push_named : Str → List FieldDefinition → List FieldDefinition
push_named [] fields = fields
push_named (c ∷ s) fields =
    push (record { name = c ∷ s; type = text "unknown"; optional = false }) fields

unfoldable pub type_field : List Str → ProtoField → List FieldDefinition → List FieldDefinition
type_field strings f fields = elim f.value [
  | number v ↦ fields
  | bytes bs ↦ push_named (each (name_field strings) (read_fields bs) []) fields
]

unfoldable pub parse_type_fields : List ℕ → Interned → List FieldDefinition
parse_type_fields bs t = each (type_field t.strings) (read_fields bs) []

abbrev pub from_dalf : Str
from_dalf = text "<from DALF>"

unfoldable pub choice_field : List Str → ProtoField → Str × Bool → Str × Bool
choice_field strings f c = (
  on_some (number_of 9 f) (λ i _. entry_or strings i (text "choice_" ++ decimal i))
      (on_some (bytes_of 1 f) (λ bs _. decode bs) c.0),
  on_some (number_of 2 f) (λ v _. not (v == 0)) c.1,
)

-- A name that is empty gives nothing.
unfoldable pub choice_of : Str × Bool → Option ChoiceDefinition
choice_of ([], consuming) = none
choice_of (c ∷ s, consuming) = some (record {
  name = c ∷ s;
  consuming = consuming;
  parameters = [];
  return_type = text "unknown";
  controller_expression = from_dalf;
  source_code = none;
  decompiled_lf = none;
})

unfoldable pub parse_choice : List ℕ → Interned → Option ChoiceDefinition
parse_choice bs t = choice_of (each (choice_field t.strings) (read_fields bs) ([], true))

unfoldable pub parse_template_key : List ℕ → KeyDefinition
parse_template_key bs = record {
  type = text "unknown";
  expression = from_dalf;
  maintainer_expression = from_dalf;
}

-- What the loop of parseTemplate has so far.
pub record TemplateParts : Type 0 where
  pub name : Str
  pub fields : List FieldDefinition
  pub choices : List ChoiceDefinition
  pub key : Option KeyDefinition

unfoldable pub template_field : Interned → ProtoField → TemplateParts → TemplateParts
template_field t f p = record {
  name =
      on_some (number_of 12 f) (λ i _. dotted t i)
        (on_some (bytes_of 1 f) (λ bs _. parse_dotted_name bs t.strings) p.name);
  fields = on_some (bytes_of 3 f) (λ bs l. l ++ parse_type_fields bs t) p.fields;
  choices = on_some (bytes_of 4 f) (λ bs. push_parsed (parse_choice bs t)) p.choices;
  key = on_some (bytes_of 8 f) (λ bs _. some (parse_template_key bs)) p.key;
}

unfoldable pub template_of_parts : TemplateParts → Option TemplateDefinition
template_of_parts p =
    if p.name === []
    then none
    else some (record {
      name = p.name;
      fields = p.fields;
      choices = p.choices;
      key = p.key;
      signatory_expression = from_dalf;
      observer_expression = from_dalf;
      ensure_expression = none;
      implements = [];
      source_code = none;
      decompiled_lf = none;
    })

abbrev pub no_parts : TemplateParts
no_parts = record { name = []; fields = []; choices = []; key = none }

unfoldable pub parse_template : List ℕ → Interned → Option TemplateDefinition
parse_template bs t = template_of_parts (each (template_field t) (read_fields bs) no_parts)

unfoldable pub interface_field :
    Interned → ProtoField → Str × List ChoiceDefinition → Str × List ChoiceDefinition
interface_field t f p = (
  on_some (number_of 6 f) (λ i _. dotted t i)
      (on_some (bytes_of 1 f) (λ bs _. parse_dotted_name bs t.strings) p.0),
  on_some (bytes_of 3 f) (λ bs. push_parsed (parse_choice bs t)) p.1,
)

unfoldable pub parse_interface : List ℕ → Interned → Option InterfaceDefinition
parse_interface bs t = of_parts (each (interface_field t) (read_fields bs) ([], []))
  where
    of_parts : Str × List ChoiceDefinition → Option InterfaceDefinition
    of_parts ([], choices) = none
    of_parts (c ∷ s, choices) = some (record { name = c ∷ s; methods = []; choices = choices })

unfoldable pub module_field : Interned → ProtoField → ModuleDetail → ModuleDetail
module_field t f m = record {
  name =
      on_some (number_of 8 f) (λ i _. dotted t i)
        (on_some (bytes_of 1 f) (λ bs _. parse_dotted_name bs t.strings) m.name);
  templates = on_some (bytes_of 3 f) (λ bs. push_parsed (parse_template bs t)) m.templates;
  interfaces = on_some (bytes_of 11 f) (λ bs. push_parsed (parse_interface bs t)) m.interfaces;
}

-- A module with neither a name nor a template is left out.
unfoldable pub module_of_parts : ModuleDetail → Option ModuleDetail
module_of_parts m = if m.name === [] && length m.templates == 0 then none else some m

unfoldable pub parse_module : List ℕ → Interned → Option ModuleDetail
parse_module bs t =
    module_of_parts (
      each (module_field t) (read_fields bs)
        (record { name = []; templates = []; interfaces = [] }))

-- The three passes over the fields of a package.
unfoldable pub intern_strings : List ProtoField → List Str
intern_strings fields = each (λ f. on_some (bytes_of 11 f) (λ bs. push (decode bs))) fields []

unfoldable pub intern_dotted_names : List ProtoField → List Str → List (List Str)
intern_dotted_names fields strings =
    each (λ f. on_some (bytes_of 12 f) (λ bs. push (parse_interned_dotted_name bs strings))) fields
      []

unfoldable pub parse_modules : List ProtoField → Interned → List ModuleDetail
parse_modules fields t =
    each (λ f. on_some (bytes_of 2 f) (λ bs. push_parsed (parse_module bs t))) fields []

unfoldable pub try_parse_package : List ℕ → List ModuleDetail
try_parse_package bs =
    let fields = read_fields bs in
    let strings = intern_strings fields in
    parse_modules fields
      (record { strings = strings; dotted_names = intern_dotted_names fields strings })

-- A length-delimited field of whatever number is tried as a package.
unfoldable pub package_field : ProtoField → List ModuleDetail → List ModuleDetail
package_field f modules = elim f.value [
  | number v ↦ modules
  | bytes bs ↦ if f.wire_type == 2 then modules ++ try_parse_package bs else modules
]

unfoldable pub parse_dalf_archive : List ℕ → Str → Option Str → Option Str → PackageDetail
parse_dalf_archive archive_bytes package_id package_name package_version = record {
  package_id = package_id;
  package_name = package_name;
  package_version = package_version;
  modules = each package_field (read_fields archive_bytes) [];
  has_source = false;
}
