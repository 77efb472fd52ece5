-- ===== src/Runtime/Object.antt =====
-- A plain object as its list of properties in JavaScript's order: the keys that are array indices
-- first, ascending, then the others as they were added. Inherited properties are left out.
use mathlib.Core.Option
use cantontrace.Base.{
  ℕ, ◌+◌, ◌*◌, ◌-◌, ◌≡◌, refl, Bool, ◌&&◌, List, [], ◌∷◌, ◌++◌, Option, none, some, arith, ltb, leb,
  if◌then◌else◌, Str, ◌===◌, ===_iff, all, Option-cases, inl, inr, map, sym, map-append,
}
use cantontrace.Base.Lookup.{get, put, get-put}

abbrev pub is_digit : ℕ → Bool
is_digit c = leb b'0' c && leb c b'9'

unfoldable pub number_from : ℕ → Str → ℕ
number_from n [] = n
number_from n (c ∷ s) = number_from (n * 10 + (c - b'0')) s

-- A canonical array index: digits with no leading zero, below 2^32 - 1.
array_index : Str → Option ℕ
unfolding number_from
array_index [] = none
array_index (c ∷ []) = if is_digit c then some (c - b'0') else none
array_index (c ∷ s) =
    if is_digit c && not_zero c && all is_digit s && ltb (number_from 0 (c ∷ s)) 4294967295
    then some (number_from 0 (c ∷ s))
    else none
  where
    not_zero : ℕ → Bool
    not_zero d = ltb b'0' d

module _ {ℓ} {V : Type ℓ} where
  -- A new property whose key is the array index `n`.
  place : ℕ → Str → V → List (Str × V) → List (Str × V)
  place n k v [] = (k, v) ∷ []
  place n k v ((j, w) ∷ o) = elim (array_index j) [
    | none ↦ (k, v) ∷ (j, w) ∷ o
    | some i ↦ if ltb n i then (k, v) ∷ (j, w) ∷ o else (j, w) ∷ place n k v o
  ]

  new_property : Str → V → List (Str × V) → List (Str × V)
  unfolding place array_index
  new_property k v o = elim (array_index k) [ none ↦ o ++ (k, v) ∷ [] | some n ↦ place n k v o ]

  -- `o[k] = v`.
  unfoldable pub set : Str → V → List (Str × V) → List (Str × V)
  unfolding new_property get put
  set k v o = elim (get k o) [ none ↦ new_property k v o | some _ ↦ put k v o ]

  get-place :
      (n : ℕ) (k j : Str) (v : V) (o : List (Str × V))
      → get k o ≡ none
      → get j (place n k v o) ≡ (if k === j then some v else get j o)
  unfolding place get
  get-place n k j v [] h = refl
  get-place n k j v ((i, w) ∷ o) h =
      ground (arith, get-place n k j v o, ===_iff k j, ===_iff i k, ===_iff i j)

  get-append_single :
      (k j : Str) (v : V) (o : List (Str × V))
      → get k o ≡ none
      → get j (o ++ (k, v) ∷ []) ≡ (if k === j then some v else get j o)
  unfolding get
  get-append_single k j v [] h = refl
  get-append_single k j v ((i, w) ∷ o) h =
      ground (arith, get-append_single k j v o, ===_iff k j, ===_iff i k, ===_iff i j)

  get-new_property :
      (k j : Str) (v : V) (o : List (Str × V))
      → get k o ≡ none
      → get j (new_property k v o) ≡ (if k === j then some v else get j o)
  unfolding new_property
  get-new_property k j v o h = elim (Option-cases (array_index k)) [
    | inl e ↦ rw (e, new_property) (get-append_single k j v o h)
    | inr (n, e) ↦ rw (e, new_property) (get-place n k j v o h)
  ]

  pub get-set :
      (k j : Str) (v : V) (o : List (Str × V))
      → get j (set k v o) ≡ (if k === j then some v else get j o)
  unfolding set
  get-set k j v o = elim (Option-cases (get k o)) [
    | inl absent ↦ rw (absent, set) (get-new_property k j v o absent)
    | inr (w, present) ↦ rw (present, set) (get-put k j v o)
  ]

-- The same keys, with what `f` makes of the values.
abbrev pub map_values {ℓ κ} : {V : Type ℓ} {W : Type κ} → (V → W) → List (Str × V) → List (Str × W)
map_values f = map (λ e. (e.0, f e.1))

module _ {ℓ κ} {V : Type ℓ} {W : Type κ} (f : V → W) where
  pub get-map_values :
      (k : Str) (o : List (Str × V)) → get k (map_values f o) ≡ Option.map f (get k o)
  unfolding get
  get-map_values k [] = refl
  get-map_values k ((j, v) ∷ o) = ground (arith, get-map_values k o)

  put-map_values :
      (k : Str) (v : V) (o : List (Str × V))
      → put k (f v) (map_values f o) ≡ map_values f (put k v o)
  unfolding put
  put-map_values k v [] = refl
  put-map_values k v ((j, w) ∷ o) = ground (arith, put-map_values k v o)

  place-map_values :
      (n : ℕ) (k : Str) (v : V) (o : List (Str × V))
      → place n k (f v) (map_values f o) ≡ map_values f (place n k v o)
  unfolding place
  place-map_values n k v [] = refl
  place-map_values n k v ((j, w) ∷ o) = ground (arith, place-map_values n k v o)

  new_property-map_values :
      (k : Str) (v : V) (o : List (Str × V))
      → new_property k (f v) (map_values f o) ≡ map_values f (new_property k v o)
  unfolding new_property
  new_property-map_values k v o = elim (Option-cases (array_index k)) [
    | inl e ↦ rw (e, new_property) (sym (map-append (λ e. (e.0, f e.1)) o ((k, v) ∷ [])))
    | inr (n, e) ↦ rw (e, new_property) (place-map_values n k v o)
  ]

  pub set-map_values :
      (k : Str) (v : V) (o : List (Str × V))
      → set k (f v) (map_values f o) ≡ map_values f (set k v o)
  unfolding set
  set-map_values k v o = elim (Option-cases (get k o)) [
    | inl absent ↦ rw (get-map_values k o, absent, set) (new_property-map_values k v o)
    | inr (w, present) ↦ rw (get-map_values k o, present, set) (put-map_values k v o)
  ]
