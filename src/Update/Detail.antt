-- ===== src/Update/Detail.antt =====
-- `mapTransactionToDetail`: the events of a transaction under unique ids, the tree that they form,
-- and the ids of its roots.
use mathlib.Core.Option.{get_or}
use cantontrace.Base.{
  ℕ, suc, ◌+◌, List, [], ◌∷◌, ◌++◌, Option, none, some, Str, text, Bool, true, false, not, ◌||◌,
  map, keep, length, ltb, if◌then◌else◌, ◌===◌, includes, add,
}
use cantontrace.Base.Lookup.{get}
use cantontrace.Runtime.Object.{set}
use cantontrace.Runtime.Decimal.{decimal}
use cantontrace.Ledger.{
  LedgerEvent, created, archived, exercised, assigned, unassigned, TransactionDetail,
}
use cantontrace.Proto.{TreeEvent, Transaction}
use cantontrace.Proto.Values.{timestamp_to_iso}
use cantontrace.Update.Mapping.{map_tree_event, or_undefined, trace_of}
use cantontrace.Update.Diff.{compute_state_diff}

-- Phase 1. One entry of `events_by_id`: an entry with an empty key or the key "undefined" is dropped.
unfoldable pub admit_entry : Str × TreeEvent → List (Str × LedgerEvent) → List (Str × LedgerEvent)
admit_entry (id, te) by_id =
    if id === [] || id === text "undefined"
    then by_id
    else elim (map_tree_event te) [ none ↦ by_id | some e ↦ set id e by_id ]

unfoldable pub admit_entries :
    List (Str × TreeEvent) → List (Str × LedgerEvent) → List (Str × LedgerEvent)
admit_entries [] by_id = by_id
admit_entries (entry ∷ entries) by_id = admit_entries entries (admit_entry entry by_id)

abbrev pub event_id : LedgerEvent → Option Str
event_id (created c) = some c.event_id
event_id (archived a) = some a.event_id
event_id (exercised e) = some e.event_id
event_id (assigned a) = none
event_id (unassigned u) = none

abbrev pub event_type : LedgerEvent → Str
event_type (created c) = text "created"
event_type (archived a) = text "archived"
event_type (exercised e) = text "exercised"
event_type (assigned a) = text "assigned"
event_type (unassigned u) = text "unassigned"

-- `event.eventId = id`.
abbrev pub with_event_id : Str → LedgerEvent → LedgerEvent
with_event_id id (created c) = created (record c { event_id = id })
with_event_id id (archived a) = archived (record a { event_id = id })
with_event_id id (exercised e) = exercised (record e { event_id = id })
with_event_id id (assigned a) = assigned a
with_event_id id (unassigned u) = unassigned u

abbrev pub is_exercised : LedgerEvent → Bool
is_exercised (exercised e) = true
is_exercised _ = false

-- An entry of `mappedFlat`.
pub record Flat : Type 0 where
  pub synthetic_id : Str
  pub event : LedgerEvent

-- `mappedFlat`, `seenIds` and `hasCollisions`.
pub record Scan : Type 0 where
  pub mapped : List Flat
  pub seen : List Str
  pub collisions : Bool

abbrev pub start : Scan
start = record { mapped = []; seen = []; collisions = false }

-- Phase 2. The event at position `i`, with the id `id`.
unfoldable pub admit : ℕ → Str → LedgerEvent → Scan → Scan
admit i id e s =
    let collisions = s.collisions || includes id s.seen in
    let seen = add id s.seen in
    let synthetic =
      if collisions || ltb (length seen) (i + 1)
      then id ++ (text ":" ++ (event_type e ++ (text ":" ++ decimal i)))
      else id in
    record {
      mapped = s.mapped ++ record { synthetic_id = synthetic; event = e } ∷ [];
      seen = seen;
      collisions = collisions;
    }

-- An event that does not map, or that has no id, is passed over.
unfoldable pub scan_step : ℕ → TreeEvent → Scan → Scan
scan_step i te s = elim (map_tree_event te) [
  | none ↦ s
  | some e ↦ elim (event_id e) [ none ↦ s | some id ↦ admit i id e s ]
]

unfoldable pub scan : ℕ → List TreeEvent → Scan → Scan
scan i [] s = s
scan i (te ∷ tes) s = scan (suc i) tes (scan_step i te s)

-- With collisions: every event under its synthetic id.
unfoldable pub populate : List Flat → List (Str × LedgerEvent) → List (Str × LedgerEvent)
populate [] by_id = by_id
populate (f ∷ fs) by_id =
    populate fs (set f.synthetic_id (with_event_id f.synthetic_id f.event) by_id)

-- `parent.childEventIds.push(id)`, if the parent is an exercise.
unfoldable pub push_child : Str → Str → List (Str × LedgerEvent) → List (Str × LedgerEvent)
push_child parent id by_id = elim (get parent by_id) [
  | some (exercised e) ↦
      set parent (exercised (record e { child_event_ids = e.child_event_ids ++ id ∷ [] })) by_id
  | _ ↦ by_id
]

-- `eventsById`, `exerciseStack` with its top at the head, and the keys of `childOf`.
pub record Link : Type 0 where
  pub by_id : List (Str × LedgerEvent)
  pub stack : List Str
  pub children : List Str

-- An event becomes a child of the exercise on top of the stack.
unfoldable pub claim : Str → Link → Link
claim id l = elim l.stack [
  | [] ↦ l
  | parent ∷ _ ↦ record l { by_id = push_child parent id l.by_id; children = add id l.children }
]

unfoldable pub link_step : Flat → Link → Link
link_step f l =
    let l' = claim f.synthetic_id l in
    if is_exercised f.event then record l' { stack = f.synthetic_id ∷ l'.stack } else l'

unfoldable pub link : List Flat → Link → Link
link [] l = l
link (f ∷ fs) l = link fs (link_step f l)

abbrev pub ids : List Flat → List Str
ids = map (λ f. f.synthetic_id)

-- The events by id, and the ids of the roots.
pub record Tree : Type 0 where
  pub by_id : List (Str × LedgerEvent)
  pub roots : List Str

unfoldable pub reconstruct : List Flat → List (Str × LedgerEvent) → Tree
reconstruct fs by_id =
    let l = link fs (record { by_id = populate fs by_id; stack = []; children = [] }) in
    record { by_id = l.by_id; roots = keep (λ id. not (includes id l.children)) (ids fs) }

-- Without collisions: an event that is there already is kept.
unfoldable pub direct : List Flat → Tree → Tree
direct [] t = t
direct (f ∷ fs) t = direct fs (record {
  by_id = elim (get f.synthetic_id t.by_id) [
    | none ↦ set f.synthetic_id f.event t.by_id
    | some _ ↦ t.by_id
  ];
  roots = add f.synthetic_id t.roots;
})

-- Phase 2 as a whole.
unfoldable pub flat_phase : Scan → Tree → Tree
flat_phase s t = if s.collisions then reconstruct s.mapped t.by_id else direct s.mapped t

unfoldable pub map_transaction_to_detail : Transaction → TransactionDetail
map_transaction_to_detail tx =
    let first : Tree = record {
      by_id = admit_entries (get_or tx.events_by_id []) [];
      roots = keep (λ id. not (id === [])) (get_or tx.root_event_ids []);
    } in
    let t = flat_phase (scan 0 (get_or tx.events []) start) first in
    record {
      update_id = tx.update_id;
      command_id = or_undefined tx.command_id;
      workflow_id = or_undefined tx.workflow_id;
      offset = tx.offset;
      record_time = timestamp_to_iso tx.record_time;
      effective_at = timestamp_to_iso tx.effective_at;
      trace_context = trace_of tx.trace_context;
      root_event_ids = t.roots;
      events_by_id = t.by_id;
      state_diff = compute_state_diff t.by_id;
    }
