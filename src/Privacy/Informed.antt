-- ===== src/Privacy/Informed.antt =====
-- Who is informed of an event of a transaction, and what privacy.ts shows of it.

use cantontrace.Base.{
  ◌≡◌, refl, sym, ap, ◌∙◌, List, [], ◌∷◌, ◌++◌, some, Str, Bool, false, ◌||◌, if◌then◌else◌, map,
  keep, any, includes, add, includes-add, append-nil, append_assoc, arith, Bool-cases, inl, inr,
  ◌===◌, ===_iff, ===_refl, Distinct, Distinct-append_single,
}
use cantontrace.Base.Lookup.{get}
use cantontrace.Runtime.Object.{set, get-set}
use cantontrace.Ledger.{LedgerEvent, created, archived, exercised, assigned, unassigned}
use cantontrace.Privacy.{
  PrivacyEvent, build_privacy_event, is_visible_to_party, add_all, add_parties, collect,
  visible_ids, fill_matrix,
}

-- The parties that the ledger informs of an event, by its kind.
abbrev pub is_informed : Str → LedgerEvent → Bool
is_informed p (created c) =
    includes p c.signatories || includes p c.observers || includes p c.witnesses
is_informed p (archived a) = includes p a.witnesses
is_informed p (exercised e) = includes p e.witnesses || includes p e.acting_parties
is_informed p (assigned a) = false
is_informed p (unassigned u) = false

-- The ids of the events that a party is informed of.
abbrev pub informed_ids : Str → List (Str × LedgerEvent) → List Str
informed_ids p entries = map (λ e. e.0) (keep (λ e. is_informed p e.1) entries)

is_visible_to_party-informed :
    (id : Str) (e : LedgerEvent) (p : Str)
    → is_visible_to_party (build_privacy_event id e) p ≡ is_informed p e
unfolding is_visible_to_party build_privacy_event includes
is_visible_to_party-informed id (created c) p = ground arith
is_visible_to_party-informed id (archived a) p = ground arith
is_visible_to_party-informed id (exercised e) p = ground arith
is_visible_to_party-informed id (assigned a) p = refl
is_visible_to_party-informed id (unassigned u) p = refl

event_id-build_privacy_event :
    (id : Str) (e : LedgerEvent) → (build_privacy_event id e).event_id ≡ id
unfolding build_privacy_event
event_id-build_privacy_event id (created c) = refl
event_id-build_privacy_event id (archived a) = refl
event_id-build_privacy_event id (exercised e) = refl
event_id-build_privacy_event id (assigned a) = refl
event_id-build_privacy_event id (unassigned u) = refl

includes-add_all :
    (p : Str) (ps l : List Str) → includes p (add_all ps l) ≡ (includes p l || includes p ps)
unfolding add_all includes
includes-add_all p [] l = ground arith
includes-add_all p (q ∷ ps) l = ground (arith, includes-add_all p ps (add q l), includes-add p q l)

includes-add_parties :
    (p : Str) (pe : PrivacyEvent) (l : List Str)
    → includes p (add_parties pe l) ≡ (includes p l || is_visible_to_party pe p)
unfolding is_visible_to_party
includes-add_parties p pe l = ground (
  arith,
  includes-add_all p pe.signatories l,
  includes-add_all p pe.observers (add_all pe.signatories l),
  includes-add_all p pe.witnesses (add_all pe.observers (add_all pe.signatories l)),
  includes-add_all p pe.acting_parties
      (add_all pe.witnesses (add_all pe.observers (add_all pe.signatories l))),
)

-- What is collected: the events in order, and the parties of before with those that are informed.
abbrev pub privacy_events : List (Str × LedgerEvent) → List PrivacyEvent
privacy_events = map (λ e. build_privacy_event e.0 e.1)

pub collect-events :
    (entries : List (Str × LedgerEvent)) (events : List PrivacyEvent) (parties : List Str)
    → (collect entries events parties).0 ≡ events ++ privacy_events entries
unfolding collect
collect-events [] events parties = sym (append-nil events)
collect-events ((id, e) ∷ entries) events parties =
    collect-events entries (events ++ build_privacy_event id e ∷ []) _
    ∙ append_assoc events (build_privacy_event id e ∷ []) (privacy_events entries)

pub includes-collect :
    (p : Str) (entries : List (Str × LedgerEvent)) (events : List PrivacyEvent) (parties : List Str)
    → includes p (collect entries events parties).1
      ≡ (includes p parties || any (λ e. is_informed p e.1) entries)
unfolding collect
includes-collect p [] events parties = ground arith
includes-collect p ((id, e) ∷ entries) events parties =
    includes-collect p entries _ _
    ∙ rw
        (
          includes-add_parties p (build_privacy_event id e) parties,
          is_visible_to_party-informed id e p,
        )
        (ground arith)

add-Distinct : (s : Str) (l : List Str) → Distinct l → Distinct (add s l)
unfolding add
add-Distinct s l d = elim (Bool-cases (includes s l)) [
  | inl e ↦ rw (add, e) d
  | inr e ↦ rw (add, e) (Distinct-append_single s l d e)
]

add_all-Distinct : (ps l : List Str) → Distinct l → Distinct (add_all ps l)
unfolding add_all
add_all-Distinct [] l d = d
add_all-Distinct (p ∷ ps) l d = add_all-Distinct ps (add p l) (add-Distinct p l d)

pub collect-Distinct :
    (entries : List (Str × LedgerEvent)) (events : List PrivacyEvent) (parties : List Str)
    → Distinct parties
    → Distinct (collect entries events parties).1
unfolding collect
collect-Distinct [] events parties d = d
collect-Distinct ((id, e) ∷ entries) events parties d = collect-Distinct entries _ _ (
    add_all-Distinct _ _
      (add_all-Distinct _ _ (add_all-Distinct _ _ (add_all-Distinct _ parties d))))

pub get-fill_matrix :
    (events : List PrivacyEvent) (p : Str) (parties : List Str) (matrix : List (Str × List Str))
    → get p (fill_matrix events parties matrix)
      ≡ (if includes p parties then some (visible_ids events p) else get p matrix)
unfolding fill_matrix includes
get-fill_matrix events p [] matrix = refl
get-fill_matrix events p (q ∷ parties) matrix =
    get-fill_matrix events p parties (set q (visible_ids events q) matrix)
    ∙ rw (get-set q p (visible_ids events q) matrix) (elim (Bool-cases (q === p)) [
      | inl same ↦ let e : q ≡ p = (===_iff q p).0 same in rw e (ground (arith, ===_refl p))
      | inr other ↦ rw other refl
    ])

pub visible_ids-informed :
    (p : Str) (entries : List (Str × LedgerEvent))
    → visible_ids (privacy_events entries) p ≡ informed_ids p entries
visible_ids-informed p [] = refl
visible_ids-informed p ((id, e) ∷ entries) = elim (Bool-cases (is_informed p e)) [
  | inl yes_e ↦
      rw (is_visible_to_party-informed id e p, yes_e, event_id-build_privacy_event id e)
        (ap (◌∷◌ id) (visible_ids-informed p entries))
  | inr no_e ↦ rw (is_visible_to_party-informed id e p, no_e) (visible_ids-informed p entries)
]
