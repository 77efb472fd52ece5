-- ===== src/Package.antt =====
-- The package types of api-gateway/src/types.ts.
use cantontrace.Base.{List, Option, Str, Bool}

pub record FieldDefinition : Type 0 where
  pub name : Str
  pub type : Str
  pub optional : Bool

pub record ChoiceDefinition : Type 0 where
  pub name : Str
  pub consuming : Bool
  pub parameters : List FieldDefinition
  pub return_type : Str
  pub controller_expression : Str
  pub source_code : Option Str
  pub decompiled_lf : Option Str

pub record KeyDefinition : Type 0 where
  pub type : Str
  pub expression : Str
  pub maintainer_expression : Str

pub record TemplateDefinition : Type 0 where
  pub name : Str
  pub fields : List FieldDefinition
  pub choices : List ChoiceDefinition
  pub key : Option KeyDefinition
  pub signatory_expression : Str
  pub observer_expression : Str
  pub ensure_expression : Option Str
  pub implements : List Str
  pub source_code : Option Str
  pub decompiled_lf : Option Str

pub record InterfaceDefinition : Type 0 where
  pub name : Str
  pub methods : List FieldDefinition
  pub choices : List ChoiceDefinition

pub record ModuleDetail : Type 0 where
  pub name : Str
  pub templates : List TemplateDefinition
  pub interfaces : List InterfaceDefinition

pub record PackageDetail : Type 0 where
  pub package_id : Str
  pub package_name : Option Str
  pub package_version : Option Str
  pub modules : List ModuleDetail
  pub has_source : Bool
