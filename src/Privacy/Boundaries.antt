-- ===== src/Privacy/Boundaries.antt =====
-- The disclosed boundaries of privacy.ts.

use cantontrace.Base.{
  ◌≡◌, refl, ap, ◌∙◌, List, [], ◌∷◌, ◌++◌, Str, Bool, if◌then◌else◌, length, ltb, map, keep,
  includes, arith, Bool-cases, inl, inr,
}
use cantontrace.Ledger.{
  LedgerEvent, created, archived, exercised, assigned, unassigned, ExercisedEvent,
}
use cantontrace.Privacy.{
  DisclosedBoundary, build_privacy_event, is_visible_to_party, find_boundaries, boundaries_of,
}
use cantontrace.Privacy.Informed.{is_informed, privacy_events}

-- The boundaries by the events and the parties that they name: of an exercise with more witnesses than
-- acting parties, every party that is informed of it.
abbrev pub boundary_pairs : List Str → List (Str × LedgerEvent) → List (Str × Str)
boundary_pairs parties [] = []
boundary_pairs parties ((id, created c) ∷ entries) = boundary_pairs parties entries
boundary_pairs parties ((id, archived a) ∷ entries) = boundary_pairs parties entries
boundary_pairs parties ((id, exercised e) ∷ entries) =
    (if ltb (length e.acting_parties) (length e.witnesses)
      then map (λ p. (id, p)) (keep (λ p. is_informed p (exercised e)) parties)
      else [])
    ++ boundary_pairs parties entries
boundary_pairs parties ((id, assigned a) ∷ entries) = boundary_pairs parties entries
boundary_pairs parties ((id, unassigned u) ∷ entries) = boundary_pairs parties entries

abbrev pub pair_of : DisclosedBoundary → Str × Str
pair_of b = (b.event_id, b.accessed_by)

pairs-keep :
    (f g : Str → Bool) (h : Str → DisclosedBoundary) (id : Str)
    → ((p : Str) → f p ≡ g p)
    → ((p : Str) → pair_of (h p) ≡ (id, p))
    → (l : List Str) → map pair_of (map h (keep f l)) ≡ map (λ p. (id, p)) (keep g l)
pairs-keep f g h id same named [] = refl
pairs-keep f g h id same named (p ∷ l) = elim (Bool-cases (g p)) [
  | inl e ↦
      let rest = pairs-keep f g h id same named l in let first = named p in rw (same p, e) (cc)
  | inr e ↦ rw (same p, e) (pairs-keep f g h id same named l)
]

boundaries_of-exercised :
    (events_by_id : List (Str × LedgerEvent)) (id : Str) (e : ExercisedEvent) (parties : List Str)
    → map pair_of (boundaries_of events_by_id parties (build_privacy_event id (exercised e))) ≡ (
        if ltb (length e.acting_parties) (length e.witnesses)
        then map (λ p. (id, p)) (keep (λ p. is_informed p (exercised e)) parties)
        else [])
unfolding build_privacy_event is_visible_to_party includes
boundaries_of-exercised events_by_id id e parties =
    elim (Bool-cases (ltb (length e.acting_parties) (length e.witnesses))) [
      | inr few ↦ rw few refl
      | inl more ↦ rw more (pairs-keep _ _ _ id (λ p. ground arith) (λ p. refl) parties)
    ]

map_append : (l k : List DisclosedBoundary) → map pair_of (l ++ k) ≡ map pair_of l ++ map pair_of k
map_append [] k = refl
map_append (b ∷ l) k = ap (◌∷◌ (pair_of b)) (map_append l k)

pub find_boundaries-pairs :
    (events_by_id : List (Str × LedgerEvent)) (parties : List Str)
    (entries : List (Str × LedgerEvent))
    → map pair_of (find_boundaries events_by_id parties (privacy_events entries))
      ≡ boundary_pairs parties entries
unfolding find_boundaries build_privacy_event
find_boundaries-pairs by_id parties [] = refl
find_boundaries-pairs by_id parties ((id, created c) ∷ entries) =
    find_boundaries-pairs by_id parties entries
find_boundaries-pairs by_id parties ((id, archived a) ∷ entries) =
    find_boundaries-pairs by_id parties entries
find_boundaries-pairs by_id parties ((id, exercised e) ∷ entries) =
    map_append (boundaries_of by_id parties (build_privacy_event id (exercised e))) _
    ∙ ap (λ l. l ++ map pair_of (find_boundaries by_id parties (privacy_events entries)))
        (boundaries_of-exercised by_id id e parties)
    ∙ ap
        (λ l.
          (if ltb (length e.acting_parties) (length e.witnesses)
            then map (λ p. (id, p)) (keep (λ p. is_informed p (exercised e)) parties)
            else [])
          ++ l)
        (find_boundaries-pairs by_id parties entries)
find_boundaries-pairs by_id parties ((id, assigned a) ∷ entries) =
    find_boundaries-pairs by_id parties entries
find_boundaries-pairs by_id parties ((id, unassigned u) ∷ entries) =
    find_boundaries-pairs by_id parties entries
