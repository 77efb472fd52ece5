-- ===== src/Archive/Package/Levels.antt =====
-- The parsers of choices, record types, templates and modules (package-parser.ts) on their layouts.
use cantontrace.Base.{
  ℕ, List, [], ◌∷◌, ◌++◌, none, some, Str, text, Bool, true, false, not, ◌==◌, ===_ne, map,
  if◌then◌else◌, ◌≡◌, ◌≢◌, refl, sym, ap, ◌∙◌, All, append_assoc, append-nil,
}
use cantontrace.Package.{FieldDefinition, ModuleDetail}
use cantontrace.Archive.Reader.{ProtoField, read_fields}
use cantontrace.Archive.Encoding.{
  Field, block, encode_fields, field_of, IsEncodable, read_fields-encode_fields,
}
use cantontrace.Archive.Parser.{
  Interned, push_parsed, each, bytes_of, number_of, choice_field, choice_of, parse_choice,
  name_field, push_named, type_field, parse_type_fields, TemplateParts, template_field,
  template_of_parts, parse_template, module_field, module_of_parts, parse_module, dotted, from_dalf,
}
use cantontrace.Archive.Package.{
  Choice, Template, Module, choice_fields, name_fields, field_blocks, template_fields,
  module_fields, field_name, choice_name, field_detail, choice_detail, template_detail,
  module_detail, IsField, IsChoice, IsTemplate, IsModule,
}

choice_of-named :
    (name : Str) (consuming : Bool)
    → name ≢ []
    → choice_of (name, consuming)
      ≡ some (record {
        name = name;
        consuming = consuming;
        parameters = [];
        return_type = text "unknown";
        controller_expression = from_dalf;
        source_code = none;
        decompiled_lf = none;
      })
unfolding choice_of
choice_of-named [] consuming h = absurd (h refl)
choice_of-named (c ∷ s) consuming h = refl

push_named-named :
    (name : Str) (fields : List FieldDefinition)
    → name ≢ []
    → push_named name fields
      ≡ fields ++ record { name = name; type = text "unknown"; optional = false } ∷ []
unfolding push_named
push_named-named [] fields h = absurd (h refl)
push_named-named (c ∷ s) fields h = refl

consumed : (b : Bool) → not ((if b then 1 else 0) == 0) ≡ b
consumed true = refl
consumed false = refl

-- A loop over fields of one kind, each of which extends what there is by one element.
module _ {X B S : Type 0} (step : ProtoField → S → S) (layout : X → Field) (detail : X → B)
    (extend : List B → S → S) (IsFine : X → Type 0) where
  record Extends : Type 0 where
    nothing : (s : S) → extend [] s ≡ s
    more : (l m : List B) (s : S) → extend m (extend l s) ≡ extend (l ++ m) s
    one : (x : X) (s : S) → IsFine x → step (field_of (layout x)) s ≡ extend (detail x ∷ []) s

  each-layout :
      Extends
      → (xs : List X) (s : S) → All IsFine xs
      → each step (map field_of (map layout xs)) s ≡ extend (map detail xs) s
  unfolding each
  each-layout laws [] s h = sym (laws.nothing s)
  each-layout laws (x ∷ xs) s (p, h) =
      ap (each step (map field_of (map layout xs))) (laws.one x s p)
      ∙ each-layout laws xs (extend (detail x ∷ []) s) h
      ∙ laws.more (detail x ∷ []) (map detail xs) s

-- Elements pushed to a list.
pub each-pushed :
    {X B : Type 0} (step : ProtoField → List B → List B) (layout : X → Field) (detail : X → B)
    (IsFine : X → Type 0)
    → ((x : X) (l : List B) → IsFine x → step (field_of (layout x)) l ≡ l ++ detail x ∷ [])
    → (xs : List X) (l : List B) → All IsFine xs
    → each step (map field_of (map layout xs)) l ≡ l ++ map detail xs
each-pushed step layout detail IsFine one =
    each-layout step layout detail (λ m l. l ++ m) IsFine
      (record { nothing = append-nil; more = λ l m s. append_assoc s l m; one = one })

module _ (t : Interned) where
  parse_choice_lem :
      (c : Choice)
      → IsChoice t c
      → parse_choice (encode_fields (choice_fields c)) t ≡ some (choice_detail t c)
  unfolding parse_choice each choice_field number_of bytes_of
  parse_choice_lem c (ne, h) =
      rw (parse_choice, read_fields-encode_fields (choice_fields c) h)
        (ap (λ b. choice_of (choice_name t c, b)) (consumed c.consuming)
          ∙ choice_of-named (choice_name t c) c.consuming ne)

  name_lem :
      (i : ℕ)
      → All IsEncodable (name_fields i)
      → each (name_field t.strings) (read_fields (encode_fields (name_fields i))) []
        ≡ field_name t i
  unfolding each name_field number_of bytes_of
  name_lem i h = rw (read_fields-encode_fields (name_fields i) h) refl

  each-field_blocks :
      (is : List ℕ) (fields : List FieldDefinition)
      → All (IsField t) is
      → each (type_field t.strings) (map field_of (field_blocks is)) fields
        ≡ fields ++ map (field_detail t) is
  unfolding type_field
  each-field_blocks =
      each-pushed (type_field t.strings) (λ i. block 1 (encode_fields (name_fields i)))
        (field_detail t) (IsField t)
        (λ i fields h.
          ap (λ n. push_named n fields) (name_lem i h.1)
          ∙ push_named-named (field_name t i) fields h.0)

  parse_type_fields_lem :
      (is : List ℕ)
      → All IsEncodable (field_blocks is)
      → All (IsField t) is
      → parse_type_fields (encode_fields (field_blocks is)) t ≡ map (field_detail t) is
  unfolding parse_type_fields
  parse_type_fields_lem is e h =
      rw (parse_type_fields, read_fields-encode_fields (field_blocks is) e)
        (each-field_blocks is [] h)

  each-choices :
      (cs : List Choice) (p : TemplateParts)
      → All (IsChoice t) cs
      → each
          (template_field t)
          (map field_of (map (λ c. block 4 (encode_fields (choice_fields c))) cs))
          p
        ≡ record p { choices = p.choices ++ map (choice_detail t) cs }
  unfolding template_field number_of bytes_of
  each-choices =
      each-layout (template_field t) (λ c. block 4 (encode_fields (choice_fields c)))
        (choice_detail t) (λ l p. record p { choices = p.choices ++ l }) (IsChoice t)
        (record {
          nothing = λ p. ap (λ l. record p { choices = l }) (append-nil p.choices);
          more = λ l m p. ap (λ l. record p { choices = l }) (append_assoc p.choices l m);
          one = λ c p h.
              ap (λ r. record p { choices = push_parsed r p.choices }) (parse_choice_lem c h);
        })

  parse_template_lem :
      (l : Template)
      → IsTemplate t l
      → parse_template (encode_fields (template_fields l)) t ≡ some (template_detail t l)
  unfolding parse_template template_of_parts each template_field number_of bytes_of
  parse_template_lem l (ne, e, r, f, c) =
      rw (parse_template, read_fields-encode_fields (template_fields l) e)
        (ap
            (λ fields. template_of_parts (
              each (template_field t)
                (map field_of (map (λ c. block 4 (encode_fields (choice_fields c))) l.choices))
                (record { name = dotted t l.name; fields = fields; choices = []; key = none })))
            (parse_type_fields_lem l.fields r f)
          ∙ ap template_of_parts (each-choices l.choices _ c)
          ∙ named)
    where
      named :
          template_of_parts (record {
            name = dotted t l.name;
            fields = map (field_detail t) l.fields;
            choices = map (choice_detail t) l.choices;
            key = none;
          })
          ≡ some (template_detail t l)
      named = rw (template_of_parts, ===_ne (dotted t l.name) [] ne) refl

  each-templates :
      (ls : List Template) (m : ModuleDetail)
      → All (IsTemplate t) ls
      → each
          (module_field t)
          (map field_of (map (λ l. block 3 (encode_fields (template_fields l))) ls))
          m
        ≡ record m { templates = m.templates ++ map (template_detail t) ls }
  unfolding module_field number_of bytes_of
  each-templates =
      each-layout (module_field t) (λ l. block 3 (encode_fields (template_fields l)))
        (template_detail t) (λ l m. record m { templates = m.templates ++ l }) (IsTemplate t)
        (record {
          nothing = λ m. ap (λ l. record m { templates = l }) (append-nil m.templates);
          more = λ k l m. ap (λ l. record m { templates = l }) (append_assoc m.templates k l);
          one = λ l m h.
              ap (λ r. record m { templates = push_parsed r m.templates }) (parse_template_lem l h);
        })

  pub parse_module_lem :
      (m : Module)
      → IsModule t m
      → parse_module (encode_fields (module_fields m)) t ≡ some (module_detail t m)
  unfolding parse_module module_of_parts each module_field number_of bytes_of
  parse_module_lem m (ne, e, h) =
      rw (parse_module, read_fields-encode_fields (module_fields m) e)
        (ap module_of_parts (each-templates m.templates _ h) ∙ named)
    where
      named : module_of_parts (module_detail t m) ≡ some (module_detail t m)
      named = rw (module_of_parts, ===_ne (dotted t m.name) [] ne) refl
