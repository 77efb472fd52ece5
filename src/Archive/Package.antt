-- ===== src/Archive/Package.antt =====
-- Daml-LF packages laid out with interned names, and what parseDalfArchive (package-parser.ts) makes of
-- them.
pub mod Levels
pub mod Whole
use cantontrace.Base.{
  ℕ, List, [], ◌∷◌, ◌++◌, Str, text, Bool, map, if◌then◌else◌, ◌≢◌, none, false, All,
}
use cantontrace.Runtime.Decimal.{decimal}
use cantontrace.Runtime.Utf8.{IsAscii}
use cantontrace.Package.{FieldDefinition, ChoiceDefinition, TemplateDefinition, ModuleDetail}
use cantontrace.Archive.Encoding.{Field, int, block, encode_fields, IsEncodable}
use cantontrace.Archive.Parser.{Interned, entry_or, interned_name, dotted, from_dalf}

-- Choices, templates and modules with the indices of their names.
pub record Choice : Type 0 where
  pub name : ℕ
  pub consuming : Bool

pub record Template : Type 0 where
  pub name : ℕ
  pub fields : List ℕ
  pub choices : List Choice

pub record Module : Type 0 where
  pub name : ℕ
  pub templates : List Template

pub record LfPackage : Type 0 where
  pub strings : List Str
  pub dotted_names : List (List ℕ)
  pub modules : List Module

abbrev pub choice_fields : Choice → List Field
choice_fields c = int 9 c.name ∷ int 2 (if c.consuming then 1 else 0) ∷ []

abbrev pub name_fields : ℕ → List Field
name_fields i = int 2 i ∷ []

abbrev pub field_blocks : List ℕ → List Field
field_blocks = map (λ i. block 1 (encode_fields (name_fields i)))

abbrev pub template_fields : Template → List Field
template_fields t =
    int 12 t.name
    ∷ block 3 (encode_fields (field_blocks t.fields))
    ∷ map (λ c. block 4 (encode_fields (choice_fields c))) t.choices

abbrev pub module_fields : Module → List Field
module_fields m = int 8 m.name ∷ map (λ t. block 3 (encode_fields (template_fields t))) m.templates

abbrev pub dotted_fields : List ℕ → List Field
dotted_fields = map (int 1)

abbrev pub string_blocks : List Str → List Field
string_blocks = map (block 11)

abbrev pub dotted_blocks : List (List ℕ) → List Field
dotted_blocks = map (λ d. block 12 (encode_fields (dotted_fields d)))

abbrev pub module_blocks : List Module → List Field
module_blocks = map (λ m. block 2 (encode_fields (module_fields m)))

abbrev pub package_fields : LfPackage → List Field
package_fields p =
    string_blocks p.strings ++ (dotted_blocks p.dotted_names ++ module_blocks p.modules)

-- The interned names, and what the indices stand for.
abbrev pub interned : LfPackage → Interned
interned p = record {
  strings = p.strings;
  dotted_names = map (map (λ i. entry_or p.strings i (interned_name i))) p.dotted_names;
}

module _ (t : Interned) where
  abbrev pub field_name : ℕ → Str
  field_name i = entry_or t.strings i (text "field_" ++ decimal i)

  abbrev pub choice_name : Choice → Str
  choice_name c = entry_or t.strings c.name (text "choice_" ++ decimal c.name)

  abbrev pub field_detail : ℕ → FieldDefinition
  field_detail i = record { name = field_name i; type = text "unknown"; optional = false }

  abbrev pub choice_detail : Choice → ChoiceDefinition
  choice_detail c = record {
    name = choice_name c;
    consuming = c.consuming;
    parameters = [];
    return_type = text "unknown";
    controller_expression = from_dalf;
    source_code = none;
    decompiled_lf = none;
  }

  abbrev pub template_detail : Template → TemplateDefinition
  template_detail l = record {
    name = dotted t l.name;
    fields = map field_detail l.fields;
    choices = map choice_detail l.choices;
    key = none;
    signatory_expression = from_dalf;
    observer_expression = from_dalf;
    ensure_expression = none;
    implements = [];
    source_code = none;
    decompiled_lf = none;
  }

  abbrev pub module_detail : Module → ModuleDetail
  module_detail m = record {
    name = dotted t m.name;
    templates = map template_detail m.templates;
    interfaces = [];
  }

  -- Names are not empty, and fields have room for their values.
  abbrev pub IsField : ℕ → Type 0
  IsField i = (field_name i ≢ []) × All IsEncodable (name_fields i)

  abbrev pub IsChoice : Choice → Type 0
  IsChoice c = (choice_name c ≢ []) × All IsEncodable (choice_fields c)

  abbrev pub IsTemplate : Template → Type 0
  IsTemplate l =
      (dotted t l.name ≢ [])
      × All IsEncodable (template_fields l)
      × All IsEncodable (field_blocks l.fields)
      × All IsField l.fields
      × All IsChoice l.choices

  abbrev pub IsModule : Module → Type 0
  IsModule m =
      (dotted t m.name ≢ []) × All IsEncodable (module_fields m) × All IsTemplate m.templates

-- Every level of the package is laid out so, and its strings are ASCII.
abbrev pub IsPackage : LfPackage → Type 0
IsPackage p =
    All IsEncodable (package_fields p)
    × All (All IsAscii) p.strings
    × All (λ d. All IsEncodable (dotted_fields d)) p.dotted_names
    × All (IsModule (interned p)) p.modules
