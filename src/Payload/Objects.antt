-- ===== src/Payload/Objects.antt =====
-- Objects that a loop refills with converted values.
use cantontrace.Base.{List, [], ◌∷◌, Str, ◌≡◌, refl, ap, ◌∙◌, Option-cases, inl, inr}
use cantontrace.Base.Lookup.{get}
use cantontrace.Runtime.Json.{Json, Properties, end, property, properties, of_list}
use cantontrace.Runtime.Object.{map_values, set, set-map_values, get-map_values}
use cantontrace.Payload.Normalize.{fill, rebuild, has_key, normalize_value, normalize_properties}
use cantontrace.Payload.Encode.{encode_value, encode_properties}

pub properties-of_list : (l : List (Str × Json)) → properties (of_list l) ≡ l
properties-of_list [] = refl
properties-of_list ((k, v) ∷ l) = ap (◌∷◌ (k, v)) (properties-of_list l)

module _ (f : Json → Json) where
  pub fill-map_values :
      (l result : List (Str × Json))
      → fill (map_values f result) (map_values f l) ≡ map_values f (fill result l)
  unfolding fill
  fill-map_values [] result = refl
  fill-map_values ((k, v) ∷ l) result =
      ap (λ r. fill r (map_values f l)) (set-map_values f k v result)
      ∙ fill-map_values l (set k v result)

  pub has_key-map_values :
      (k : Str) (l : List (Str × Json)) → has_key k (map_values f l) ≡ has_key k l
  has_key-map_values k l = elim (Option-cases (get k l)) [
    | inl e ↦ rw (get-map_values f k l, e) refl
    | inr (v, e) ↦ rw (get-map_values f k l, e) refl
  ]

  -- An object in JavaScript's order keeps it.
  pub rebuild-map_values :
      (l : List (Str × Json)) → rebuild l ≡ l → rebuild (map_values f l) ≡ map_values f l
  rebuild-map_values l h = fill-map_values l [] ∙ ap (map_values f) h

pub normalize_properties-eq :
    (ps : Properties) → normalize_properties ps ≡ map_values normalize_value (properties ps)
unfolding normalize_value
normalize_properties-eq end = refl
normalize_properties-eq (property k v ps) =
    ap (◌∷◌ (k, normalize_value v)) (normalize_properties-eq ps)

pub encode_properties-eq :
    (ps : Properties) → encode_properties ps ≡ map_values encode_value (properties ps)
unfolding encode_value
encode_properties-eq end = refl
encode_properties-eq (property k v ps) = ap (◌∷◌ (k, encode_value v)) (encode_properties-eq ps)
