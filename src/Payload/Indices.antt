-- ===== src/Payload/Indices.antt =====
-- decodePayload of payloads whose keys are the positions of the template's fields.
use cantontrace.Base.{
  ℕ, suc, ◌+◌, ◌≤◌, List, [], ◌∷◌, some, true, false, ◌≡◌, refl, ap, ◌∙◌, length, arith,
}
use cantontrace.Runtime.Json.{Json, Properties, end, property, of_list}
use cantontrace.Runtime.Decimal.{decimal}
use cantontrace.Runtime.Number.{parse_int-decimal}
use cantontrace.Ledger.{TemplateId}
use cantontrace.Payload.Normalize.{fill, normalize_value, normalize_properties, normalize_payload}
use cantontrace.Package.{FieldDefinition}
use cantontrace.Payload.Fields.{
  Cache, definition_at, field_key, map_entries, map_field_indices_to_names, resolve_template_fields,
  decode_payload,
}

-- The values under the keys `i`, `i + 1`, ..., and under the names of the fields.
abbrev pub indexed : ℕ → List Json → Properties
indexed i [] = end
indexed i (v ∷ vs) = property (decimal i) v (indexed (suc i) vs)

abbrev pub named : List FieldDefinition → List Json → Properties
named fs [] = end
named [] (v ∷ vs) = end
named (f ∷ fs) (v ∷ vs) = property f.name v (named fs vs)

-- `fields` holds `fs` from `i` on.
abbrev HoldsFrom : ℕ → List FieldDefinition → List FieldDefinition → Type 0
HoldsFrom i fs fields = (j : ℕ) → definition_at (i + j) fields ≡ definition_at j fs

field_key-decimal :
    (i : ℕ) (f : FieldDefinition) (fs fields : List FieldDefinition)
    → HoldsFrom i (f ∷ fs) fields
    → field_key (decimal i) fields ≡ f.name
unfolding field_key
field_key-decimal i f fs fields h =
    let here : definition_at i fields ≡ some f =
      ap (λ j. definition_at j fields) (omega arith) ∙ h 0 in
    rw (field_key, parse_int-decimal i, here) refl

HoldsFrom-next :
    (i : ℕ) (f : FieldDefinition) (fs fields : List FieldDefinition)
    → HoldsFrom i (f ∷ fs) fields
    → HoldsFrom (suc i) fs fields
HoldsFrom-next i f fs fields h j = ap (λ k. definition_at k fields) (omega arith) ∙ h (suc j)

map_entries-indexed :
    (vs : List Json) (i : ℕ) (fs fields : List FieldDefinition)
    → length vs ≤ length fs
    → HoldsFrom i fs fields
    → map_entries (indexed i vs) fields ≡ normalize_properties (named fs vs)
unfolding map_entries normalize_value
map_entries-indexed [] i fs fields short h = refl
map_entries-indexed (v ∷ vs) i [] fields short h = absurd (omega arith)
map_entries-indexed (v ∷ vs) i (f ∷ fs) fields short h =
    rw
      (
        field_key-decimal i f fs fields h,
        map_entries-indexed vs (suc i) fs fields (omega arith) (HoldsFrom-next i f fs fields h),
      )
      refl

-- A payload that lists the values of the first fields of the template by position is decoded without
-- names, by the registered fields, to what verbose decoding makes of the payload that lists them by name.
pub decode_payload-indexed :
    (cache : Cache) (id : TemplateId) (f : FieldDefinition) (fs : List FieldDefinition)
    (vs : List Json)
    → resolve_template_fields id cache ≡ some (f ∷ fs)
    → length vs ≤ length (f ∷ fs)
    → decode_payload cache (indexed 0 vs) id false
      ≡ decode_payload cache (named (f ∷ fs) vs) id true
unfolding decode_payload map_field_indices_to_names normalize_payload
decode_payload-indexed cache id f fs vs found short =
    rw (decode_payload, found)
      (ap (λ l. of_list (fill [] l))
        (map_entries-indexed vs 0 (f ∷ fs) (f ∷ fs) short
          (λ j. ap (λ k. definition_at k (f ∷ fs)) (omega arith))))
