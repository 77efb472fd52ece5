-- ===== src/Archive/Engine.antt =====
-- parseDalfViaEngine and the mapping of the engine service's answers in
-- api-gateway/src/services/package-parser.ts.
use mathlib.Core.Option
use mathlib.Core.Option.{get_or}
use cantontrace.Base.{ℕ, List, [], ◌∷◌, Option, none, some, Str, Bool, map}
use cantontrace.Package.{
  FieldDefinition, ChoiceDefinition, KeyDefinition, TemplateDefinition, InterfaceDefinition,
  ModuleDetail, PackageDetail,
}
use cantontrace.Archive.Parser.{parse_dalf_archive}
use cantontrace.Archive.Wrap.{wrap_as_archive}

pub record EngineFieldDefinition : Type 0 where
  pub name : Str
  pub field_type : Str
  pub optional : Bool

pub record EngineChoiceDefinition : Type 0 where
  pub name : Str
  pub consuming : Bool
  pub parameters : List EngineFieldDefinition
  pub return_type : Str
  pub controller_expression : Str
  pub source_code : Option Str
  pub decompiled_lf : Option Str

pub record EngineKeyDefinition : Type 0 where
  pub key_type : Str
  pub expression : Str
  pub maintainer_expression : Str

pub record EngineTemplateDefinition : Type 0 where
  pub name : Str
  pub fields : List EngineFieldDefinition
  pub choices : List EngineChoiceDefinition
  pub key : Option EngineKeyDefinition
  pub signatory_expression : Str
  pub observer_expression : Str
  pub ensure_expression : Option Str
  pub implements : List Str
  pub source_code : Option Str
  pub decompiled_lf : Option Str

pub record EngineInterfaceDefinition : Type 0 where
  pub name : Str
  pub methods : List EngineFieldDefinition
  pub choices : List EngineChoiceDefinition

pub record EngineTypeDefinition : Type 0 where
  pub name : Str
  pub serializable : Bool
  pub representation : Str

pub record EngineModuleDetail : Type 0 where
  pub name : Str
  pub templates : List EngineTemplateDefinition
  pub interfaces : List EngineInterfaceDefinition
  pub type_definitions : Option (List EngineTypeDefinition)

pub record EnginePackageDetail : Type 0 where
  pub package_id : Str
  pub package_name : Option Str
  pub package_version : Option Str
  pub modules : List EngineModuleDetail
  pub has_source : Bool

unfoldable pub map_engine_field : EngineFieldDefinition → FieldDefinition
map_engine_field f = record { name = f.name; type = f.field_type; optional = f.optional }

unfoldable pub map_engine_choice : EngineChoiceDefinition → ChoiceDefinition
map_engine_choice c = record {
  name = c.name;
  consuming = c.consuming;
  parameters = map map_engine_field c.parameters;
  return_type = c.return_type;
  controller_expression = c.controller_expression;
  source_code = c.source_code;
  decompiled_lf = c.decompiled_lf;
}

unfoldable pub map_engine_key : EngineKeyDefinition → KeyDefinition
map_engine_key k = record {
  type = k.key_type;
  expression = k.expression;
  maintainer_expression = k.maintainer_expression;
}

unfoldable pub map_engine_template : EngineTemplateDefinition → TemplateDefinition
map_engine_template t = record {
  name = t.name;
  fields = map map_engine_field t.fields;
  choices = map map_engine_choice t.choices;
  key = Option.map map_engine_key t.key;
  signatory_expression = t.signatory_expression;
  observer_expression = t.observer_expression;
  ensure_expression = t.ensure_expression;
  implements = t.implements;
  source_code = t.source_code;
  decompiled_lf = t.decompiled_lf;
}

unfoldable pub map_engine_interface : EngineInterfaceDefinition → InterfaceDefinition
map_engine_interface i = record {
  name = i.name;
  methods = map map_engine_field i.methods;
  choices = map map_engine_choice i.choices;
}

unfoldable pub map_engine_module : EngineModuleDetail → ModuleDetail
map_engine_module m = record {
  name = m.name;
  templates = map map_engine_template m.templates;
  interfaces = map map_engine_interface m.interfaces;
}

-- `a || b` of texts and `a ?? b`.
abbrev pub or_text : Str → Str → Str
or_text [] b = b
or_text (c ∷ s) b = c ∷ s

abbrev pub or_given : Option Str → Option Str → Option Str
or_given none b = b
or_given (some a) b = some a

unfoldable pub map_engine_response :
    EnginePackageDetail → Str → Option Str → Option Str → PackageDetail
map_engine_response engine package_id package_name package_version = record {
  package_id = or_text engine.package_id package_id;
  package_name = or_given engine.package_name package_name;
  package_version = or_given engine.package_version package_version;
  modules = map map_engine_module engine.modules;
  has_source = engine.has_source;
}

-- `answer archive` is what the engine service makes of the archive, none when it cannot be reached or
-- refuses; `archive_bytes` is the base64 text decoded.
unfoldable pub parse_dalf_via_engine :
    (List ℕ → Option EnginePackageDetail) → List ℕ → Str → Option Str → Option Str → PackageDetail
parse_dalf_via_engine answer archive_bytes package_id package_name package_version =
    elim (answer (wrap_as_archive archive_bytes package_id)) [
      | none ↦ parse_dalf_archive archive_bytes package_id package_name package_version
      | some engine ↦ map_engine_response engine package_id package_name package_version
    ]
