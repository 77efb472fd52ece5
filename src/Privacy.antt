-- ===== src/Privacy.antt =====
-- The privacy analysis of a transaction: api-gateway/src/routes/privacy.ts. The rights of the user are given
-- by their parties, if they have one; the transaction is what the ledger returned.
pub mod Sorting
pub mod Informed
pub mod Boundaries
pub mod Analysis
mod Tests
use mathlib.Core.Option.{get_or}
use cantontrace.Base.{
  ℕ, List, [], ◌∷◌, ◌++◌, Option, none, some, Str, text, Bool, true, false, not, ◌&&◌, ◌||◌, ◌==◌,
  if◌then◌else◌, ltb, length, map, keep, includes, add,
}
use cantontrace.Base.Lookup.{get}
use cantontrace.Runtime.Object.{set}
use cantontrace.Ledger.{
  LedgerEvent, created, archived, exercised, assigned, unassigned, TemplateId, TransactionDetail,
}
use cantontrace.Update.Detail.{event_type}

pub record PrivacyEvent : Type 0 where
  pub event_id : Str
  pub event_type : Str
  pub template_id : TemplateId
  pub signatories : List Str
  pub observers : List Str
  pub witnesses : List Str
  pub acting_parties : List Str
  pub is_disclosed : Bool

pub record DisclosedBoundary : Type 0 where
  pub event_id : Str
  pub contract_id : Str
  pub accessed_by : Str
  pub reason : Str

pub record PrivacyAnalysis : Type 0 where
  pub update_id : Str
  pub parties : List Str
  pub visibility_matrix : List (Str × List Str)
  pub events : List PrivacyEvent
  pub disclosed_contract_boundaries : List DisclosedBoundary

abbrev pub no_template : TemplateId
no_template = record { package_name = []; module_name = []; entity_name = [] }

abbrev pub template_or_empty : LedgerEvent → TemplateId
template_or_empty (created c) = c.template_id
template_or_empty (archived a) = a.template_id
template_or_empty (exercised e) = e.template_id
template_or_empty (assigned a) = get_or a.template_id no_template
template_or_empty (unassigned u) = get_or u.template_id no_template

abbrev pub base_event : Str → LedgerEvent → PrivacyEvent
base_event event_id event = record {
  event_id = event_id;
  event_type = event_type event;
  template_id = template_or_empty event;
  signatories = [];
  observers = [];
  witnesses = [];
  acting_parties = [];
  is_disclosed = false;
}

unfoldable pub build_privacy_event : Str → LedgerEvent → PrivacyEvent
build_privacy_event id (created c) = record (base_event id (created c)) {
  signatories = c.signatories;
  observers = c.observers;
  witnesses = c.witnesses;
}
build_privacy_event id (archived a) = record (base_event id (archived a)) {
  witnesses = a.witnesses;
}
build_privacy_event id (exercised e) = record (base_event id (exercised e)) {
  witnesses = e.witnesses;
  acting_parties = e.acting_parties;
  is_disclosed = ltb (length e.acting_parties) (length e.witnesses);
}
build_privacy_event id (assigned a) = base_event id (assigned a)
build_privacy_event id (unassigned u) = base_event id (unassigned u)

unfoldable pub is_visible_to_party : PrivacyEvent → Str → Bool
is_visible_to_party pe party =
    includes party pe.signatories
    || includes party pe.observers
    || includes party pe.witnesses
    || includes party pe.acting_parties

abbrev pub contract_of : LedgerEvent → Str
contract_of (created c) = c.contract_id
contract_of (archived a) = a.contract_id
contract_of (exercised e) = e.contract_id
contract_of (assigned a) = a.contract_id
contract_of (unassigned u) = u.contract_id

unfoldable pub extract_contract_id : PrivacyEvent → List (Str × LedgerEvent) → Str
extract_contract_id pe events_by_id = elim (get pe.event_id events_by_id) [
  | none ↦ []
  | some e ↦ contract_of e
]

unfoldable pub add_all : List Str → List Str → List Str
add_all [] parties = parties
add_all (p ∷ ps) parties = add_all ps (add p parties)

abbrev pub add_parties : PrivacyEvent → List Str → List Str
add_parties pe parties =
    add_all pe.acting_parties
      (add_all pe.witnesses (add_all pe.observers (add_all pe.signatories parties)))

-- The events with the parties that stand in them.
unfoldable pub collect :
    List (Str × LedgerEvent) → List PrivacyEvent → List Str → List PrivacyEvent × List Str
collect [] events parties = (events, parties)
collect ((id, e) ∷ entries) events parties =
    let pe = build_privacy_event id e in
    collect entries (events ++ pe ∷ []) (add_parties pe parties)

-- `l.sort()`, by UTF-16 code units.
unfoldable pub before : Str → Str → Bool
before [] t = true
before (c ∷ s) [] = false
before (c ∷ s) (d ∷ t) = ltb c d || (c == d && before s t)

unfoldable pub insert : Str → List Str → List Str
insert s [] = s ∷ []
insert s (t ∷ ts) = if before s t then s ∷ t ∷ ts else t ∷ insert s ts

unfoldable pub sort : List Str → List Str
sort [] = []
sort (s ∷ ts) = insert s (sort ts)

abbrev pub visible_ids : List PrivacyEvent → Str → List Str
visible_ids events party =
    map (λ pe. pe.event_id) (keep (λ pe. is_visible_to_party pe party) events)

unfoldable pub fill_matrix :
    List PrivacyEvent → List Str → List (Str × List Str) → List (Str × List Str)
fill_matrix events [] matrix = matrix
fill_matrix events (p ∷ parties) matrix =
    fill_matrix events parties (set p (visible_ids events p) matrix)

abbrev pub is_boundary : PrivacyEvent → Str → Bool
is_boundary pe party =
    is_visible_to_party pe party
    && not (includes party pe.signatories)
    && not (includes party pe.observers)

abbrev pub boundaries_of :
    List (Str × LedgerEvent) → List Str → PrivacyEvent → List DisclosedBoundary
boundaries_of events_by_id parties pe =
    if pe.is_disclosed
    then map
        (λ party. record {
          event_id = pe.event_id;
          contract_id = extract_contract_id pe events_by_id;
          accessed_by = party;
          reason = text "Witness via LEDGER_EFFECTS (informed party, not stakeholder)";
        })
        (keep (is_boundary pe) parties)
    else []

unfoldable pub find_boundaries :
    List (Str × LedgerEvent) → List Str → List PrivacyEvent → List DisclosedBoundary
find_boundaries events_by_id parties [] = []
find_boundaries events_by_id parties (pe ∷ events) =
    boundaries_of events_by_id parties pe ++ find_boundaries events_by_id parties events

abbrev pub present : List (Option Str) → List Str
present [] = []
present (none ∷ rights) = present rights
present (some p ∷ rights) = p ∷ present rights

-- Who asks: the known parties, or those of the rights.
unfoldable pub requesting_parties : List Str → List (Option Str) → List Str
requesting_parties [] rights = present rights
requesting_parties (p ∷ known) rights = p ∷ known

-- No analysis is the answer 404.
unfoldable pub analyze_privacy : Str → Option TransactionDetail → Option PrivacyAnalysis
analyze_privacy update_id none = none
analyze_privacy update_id (some tx) =
    let collected = collect tx.events_by_id [] [] in
    let parties = sort collected.1 in
    some (record {
      update_id = update_id;
      parties = parties;
      visibility_matrix = fill_matrix collected.0 parties [];
      events = collected.0;
      disclosed_contract_boundaries = find_boundaries tx.events_by_id parties collected.0;
    })
