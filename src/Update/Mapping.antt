-- ===== src/Update/Mapping.antt =====
-- From the messages of the ledger API to updates and events: `mapGetUpdatesResponse`,
-- `mapTreeEvents` and what they call.
use mathlib.Core.Option
use mathlib.Core.Option.{get_or}
use cantontrace.Base.{List, [], ◌∷◌, ◌++◌, Option, none, some, Str, text, false}
use cantontrace.Base.Lookup.{values}
use cantontrace.Runtime.Json.{Json, Properties}
use cantontrace.Ledger.{TemplateId, LedgerEvent, LedgerUpdate, UpdateType, TraceContext}
use cantontrace.Proto
use cantontrace.Proto.{
  Identifier, TreeEvent, Transaction, Reassignment, TopologyTransaction, OffsetCheckpoint,
  SynchronizerTime, GetUpdatesResponse, Timestamp,
}
use cantontrace.Proto.Values.{value_to_object, record_to_object, timestamp_to_iso}

-- `s || d` and `s || undefined`: an absent or an empty text gives way.
abbrev pub or_default : Option Str → Str → Str
or_default none d = d
or_default (some []) d = d
or_default (some (c ∷ s)) d = c ∷ s

abbrev pub or_undefined : Option Str → Option Str
or_undefined none = none
or_undefined (some []) = none
or_undefined (some (c ∷ s)) = some (c ∷ s)

-- `x?.f`.
abbrev pub chain {ℓ κ} : {A : Type ℓ} {B : Type κ} → Option A → (A → Option B) → Option B
chain none f = none
chain (some a) f = f a

-- `x ?? y`.
abbrev pub coalesce {ℓ} : {A : Type ℓ} → Option A → Option A → Option A
coalesce none y = y
coalesce (some a) y = some a

abbrev pub template_of : Option Str → Option Identifier → TemplateId
template_of package_name template_id = record {
  package_name = get_or (coalesce package_name (chain template_id (λ t. t.package_id))) [];
  module_name = get_or (chain template_id (λ t. t.module_name)) [];
  entity_name = get_or (chain template_id (λ t. t.entity_name)) [];
}

abbrev pub trace_of : Option Proto.TraceContext → Option TraceContext
trace_of = Option.map (λ t. record { trace_parent = t.traceparent; trace_state = t.tracestate })

unfoldable pub map_created : Proto.CreatedEvent → LedgerEvent
map_created c = LedgerEvent.created (record {
  event_id = or_default c.event_id (or_default c.offset (text "create:" ++ c.contract_id));
  contract_id = c.contract_id;
  template_id = template_of c.package_name c.template_id;
  payload = record_to_object c.create_arguments;
  signatories = get_or c.signatories [];
  observers = get_or c.observers [];
  witnesses = get_or c.witness_parties [];
  contract_key = Option.map value_to_object c.contract_key;
})

unfoldable pub map_exercised : Proto.ExercisedEvent → LedgerEvent
map_exercised e = LedgerEvent.exercised (record {
  event_id =
      or_default e.event_id
        (or_default e.offset (text "exercise:" ++ e.contract_id ++ text ":" ++ e.choice));
  contract_id = e.contract_id;
  template_id = template_of e.package_name e.template_id;
  choice = e.choice;
  choice_argument = get_or (Option.map value_to_object e.choice_argument) (Json.obj Properties.end);
  acting_parties = get_or e.acting_parties [];
  consuming = get_or e.consuming false;
  witnesses = get_or e.witness_parties [];
  child_event_ids = get_or e.child_event_ids [];
  exercise_result = Option.map value_to_object e.exercise_result;
})

unfoldable pub map_archived : Proto.ArchivedEvent → LedgerEvent
map_archived a = LedgerEvent.archived (record {
  event_id = or_default a.event_id (or_default a.offset (text "archive:" ++ a.contract_id));
  contract_id = a.contract_id;
  template_id = template_of a.package_name a.template_id;
  witnesses = get_or a.witness_parties [];
})

unfoldable pub map_tree_event : TreeEvent → Option LedgerEvent
map_tree_event (TreeEvent.created c) = some (map_created c)
map_tree_event (TreeEvent.exercised e) = some (map_exercised e)
map_tree_event (TreeEvent.archived a) = some (map_archived a)
map_tree_event TreeEvent.unset = none

-- `if (mapped) events.push(mapped)`.
abbrev pub push_some {ℓ} : {A : Type ℓ} → Option A → List A → List A
push_some none l = l
push_some (some a) l = l ++ a ∷ []

-- Each of the two loops of `mapTreeEvents`.
unfoldable pub push_events : List TreeEvent → List LedgerEvent → List LedgerEvent
push_events [] events = events
push_events (te ∷ tes) events = push_events tes (push_some (map_tree_event te) events)

unfoldable pub map_tree_events : List TreeEvent → Option (List (Str × TreeEvent)) → List LedgerEvent
map_tree_events flat none = push_events flat []
map_tree_events flat (some by_id) = push_events (values by_id) (push_events flat [])

unfoldable pub map_transaction_to_update : Transaction → LedgerUpdate
map_transaction_to_update tx = record {
  update_id = tx.update_id;
  update_type = UpdateType.transaction;
  offset = tx.offset;
  record_time = timestamp_to_iso tx.record_time;
  command_id = or_undefined tx.command_id;
  workflow_id = or_undefined tx.workflow_id;
  trace_context = trace_of tx.trace_context;
  events = map_tree_events (get_or tx.events []) tx.events_by_id;
}

abbrev unassigned_event : Proto.UnassignedEvent → LedgerEvent
unassigned_event ue = LedgerEvent.unassigned (record {
  contract_id = ue.contract_id;
  template_id = Option.map (λ t. template_of ue.package_name (some t)) ue.template_id;
  source = ue.source;
  reassignment_id = ue.unassign_id;
})

abbrev assigned_event : Proto.AssignedEvent → LedgerEvent
assigned_event ae = LedgerEvent.assigned (record {
  contract_id = get_or (Option.map (λ ce. ce.contract_id) ae.created_event) [];
  template_id =
      chain ae.created_event
        (λ ce. Option.map (λ t. template_of ce.package_name (some t)) ce.template_id);
  source = ae.source;
  target = ae.target;
  reassignment_id = ae.unassign_id;
})

unfoldable pub map_reassignment_to_update : Reassignment → LedgerUpdate
map_reassignment_to_update r = record {
  update_id = r.update_id;
  update_type = UpdateType.reassignment;
  offset = r.offset;
  record_time = timestamp_to_iso r.record_time;
  command_id = or_undefined r.command_id;
  workflow_id = or_undefined r.workflow_id;
  trace_context = trace_of r.trace_context;
  events =
      push_some (Option.map assigned_event r.assigned_event)
        (push_some (Option.map unassigned_event r.unassigned_event) []);
}

unfoldable pub map_topology_to_update : TopologyTransaction → LedgerUpdate
map_topology_to_update t = record {
  update_id = t.update_id;
  update_type = UpdateType.topology_transaction;
  offset = t.offset;
  record_time = timestamp_to_iso t.record_time;
  command_id = none;
  workflow_id = none;
  trace_context = trace_of t.trace_context;
  events = [];
}

-- The record time of the first synchronizer, and otherwise the time `now`.
abbrev checkpoint_time : Str → Option (List SynchronizerTime) → Str
checkpoint_time now none = now
checkpoint_time now (some []) = now
checkpoint_time now (some (t ∷ _)) = elim t.record_time [
  | none ↦ now
  | some ts ↦ timestamp_to_iso (some ts)
]

unfoldable pub map_offset_checkpoint_to_update : Str → OffsetCheckpoint → LedgerUpdate
map_offset_checkpoint_to_update now checkpoint = record {
  update_id = text "checkpoint-" ++ checkpoint.offset;
  update_type = UpdateType.offset_checkpoint;
  offset = checkpoint.offset;
  record_time = checkpoint_time now checkpoint.synchronizer_times;
  command_id = none;
  workflow_id = none;
  trace_context = none;
  events = [];
}

unfoldable pub map_get_updates_response : Str → GetUpdatesResponse → Option LedgerUpdate
map_get_updates_response now (GetUpdatesResponse.transaction tx) =
    some (map_transaction_to_update tx)
map_get_updates_response now (GetUpdatesResponse.reassignment r) =
    some (map_reassignment_to_update r)
map_get_updates_response now (GetUpdatesResponse.topology_transaction t) =
    some (map_topology_to_update t)
map_get_updates_response now (GetUpdatesResponse.offset_checkpoint c) =
    some (map_offset_checkpoint_to_update now c)
map_get_updates_response now GetUpdatesResponse.empty = none
