-- ===== src/Update/Collisions.antt =====
-- When `mapTransactionToDetail` (update-service.ts) takes its events to share ids, and what it does
-- when they do not.
use mathlib.Core.Option.{get_or}
use cantontrace.Base.{
  ℕ, suc, ◌≡◌, refl, sym, ◌∙◌, ◌↔◌, List, [], ◌∷◌, none, some, Str, Bool, false, ◌||◌, not, keep,
  includes, add, arith, All, Distinct, ◌===◌, Option-cases, inl, inr, ===_iff, includes-add,
}
use cantontrace.Proto.{TreeEvent, Transaction}
use cantontrace.Update.Mapping.{map_tree_event}
use cantontrace.Update.Detail.{
  event_id, Flat, Scan, start, admit, scan_step, scan, ids, Tree, direct, flat_phase,
  map_transaction_to_detail,
}
use cantontrace.Update.Ids.{id_of}

-- The ids that the events of a list come with.
unfoldable pub found : List TreeEvent → List Str
found [] = []
found (te ∷ tes) = elim (id_of te) [ none ↦ found tes | some id ↦ id ∷ found tes ]

-- Some id was seen before, or comes twice.
repeats : List Str → List Str → Bool
repeats seen [] = false
repeats seen (id ∷ rest) = includes id seen || repeats (add id seen) rest

collisions-scan_step :
    (i : ℕ) (te : TreeEvent) (tes : List TreeEvent) (s : Scan)
    → ((scan_step i te s).collisions || repeats (scan_step i te s).seen (found tes))
      ≡ (s.collisions || repeats s.seen (found (te ∷ tes)))
unfolding scan_step found repeats admit
collisions-scan_step i te tes s = elim (Option-cases (map_tree_event te)) [
  | inl e ↦ rw (e, scan_step, found) refl
  | inr (ev, e) ↦ elim (Option-cases (event_id ev)) [
    | inl e' ↦ rw (e, scan_step, found, e') refl
    | inr (id, e') ↦ rw (e, scan_step, found, e') (ground arith)
  ]
]

repeats-found_nil : (seen : List Str) → repeats seen (found []) ≡ false
unfolding repeats found
repeats-found_nil seen = refl

collisions-scan :
    (i : ℕ) (tes : List TreeEvent) (s : Scan)
    → (scan i tes s).collisions ≡ (s.collisions || repeats s.seen (found tes))
unfolding scan repeats
collisions-scan i [] s = ground (arith, repeats-found_nil s.seen)
collisions-scan i (te ∷ tes) s =
    collisions-scan (suc i) tes (scan_step i te s) ∙ collisions-scan_step i te tes s

-- None of the ids was seen before.
abbrev AllNew : List Str → List Str → Type 0
AllNew seen = All (λ t. includes t seen ≡ false)

AllNew-add :
    (id : Str) (seen rest : List Str)
    → AllNew (add id seen) rest ↔ (AllNew seen rest × (includes id rest ≡ false))
unfolding includes
AllNew-add id seen [] = (λ _. (tt, refl), λ _. tt)
AllNew-add id seen (t ∷ rest) = (
  λ h.
      ground
        (arith, includes-add t id seen, (AllNew-add id seen rest).0, ===_iff t id, ===_iff id t),
  λ h.
      ground
        (arith, includes-add t id seen, (AllNew-add id seen rest).1, ===_iff t id, ===_iff id t),
)

repeats-eq-false_iff :
    (seen ids : List Str) → (repeats seen ids ≡ false) ↔ (AllNew seen ids × Distinct ids)
unfolding repeats
repeats-eq-false_iff seen [] = (λ _. (tt, tt), λ _. refl)
repeats-eq-false_iff seen (id ∷ rest) = (
  λ h. ground (arith, (repeats-eq-false_iff (add id seen) rest).0, (AllNew-add id seen rest).0),
  λ h. ground (arith, (repeats-eq-false_iff (add id seen) rest).1, (AllNew-add id seen rest).1),
)

AllNew-nil : (ids : List Str) → AllNew [] ids
unfolding includes
AllNew-nil [] = tt
AllNew-nil (t ∷ ts) = (refl, AllNew-nil ts)

-- The flag `hasCollisions` is left down exactly when no two events come with one id.
pub collisions-eq-false_iff :
    (tes : List TreeEvent) → ((scan 0 tes start).collisions ≡ false) ↔ Distinct (found tes)
collisions-eq-false_iff tes =
    let r = repeats-eq-false_iff [] (found tes) in
    (
      λ h. (r.0 (sym (collisions-scan 0 tes start) ∙ h)).1,
      λ d. collisions-scan 0 tes start ∙ r.1 (AllNew-nil (found tes), d),
    )

roots-direct :
    (x : Str) (fs : List Flat) (t : Tree)
    → includes x (direct fs t).roots ≡ (includes x t.roots || includes x (ids fs))
unfolding direct includes
roots-direct x [] t = ground arith
roots-direct x (f ∷ fs) t =
    roots-direct x fs _ ∙ ground (arith, includes-add x f.synthetic_id t.roots)

-- Where no two events share an id, every event of the flat list is a root, beside the roots that
-- the transaction names itself, and nothing else is.
pub includes-map_transaction_to_detail-roots :
    (tx : Transaction) (x : Str)
    → Distinct (found (get_or tx.events []))
    → includes x (map_transaction_to_detail tx).root_event_ids ≡ (
        includes x (keep (λ id. not (id === [])) (get_or tx.root_event_ids []))
        || includes x (ids (scan 0 (get_or tx.events []) start).mapped))
unfolding map_transaction_to_detail flat_phase
includes-map_transaction_to_detail-roots tx x d =
    rw ((collisions-eq-false_iff (get_or tx.events [])).1 d)
      (roots-direct x (scan 0 (get_or tx.events []) start).mapped _)
