-- ===== src/Update/Tests.antt =====
-- The mapping of update-service.ts at concrete transactions: a flat list that shares the id "7", and
-- one with an id for each event.
use mathlib.Core.Option.{get_or}
use cantontrace.Update.Recent.{
  update, fails, resolves, requested, get_recent_updates, get_recent_updates-settled,
}
use cantontrace.Base.{
  ◌≡◌, refl, List, [], ◌∷◌, ◌++◌, none, some, Str, text, true, ◌===◌, includes, add, arith, All,
  Distinct, map, length,
}
use cantontrace.Base.Lookup.{get, put, values}
use cantontrace.Runtime.Object.{set}
use cantontrace.Runtime.Decimal.{decimal}
use cantontrace.Runtime.Date.{iso_string}
use Prim.Native.String.{String}
use mathlib.Core.List.{tail}
use cantontrace.Runtime.Json.{Json, Properties}
use cantontrace.Ledger.{LedgerUpdate, UpdateType, LedgerEvent, exercised, ExercisedEvent}
use cantontrace.Proto.{TreeEvent, Transaction, no_fields, field, int64, RecordFields}
use cantontrace.Proto.Values.{value_to_object, record_to_object, timestamp_to_iso}
use cantontrace.Update.Mapping.{
  map_created, map_exercised, map_archived, map_tree_event, map_tree_events, push_events,
}
use cantontrace.Update.Detail.{
  admit_entry, admit_entries, admit, scan_step, scan, start, populate, push_child, claim, link_step,
  link, reconstruct, direct, flat_phase, map_transaction_to_detail, ids, Flat,
}
use cantontrace.Update.Diff.{
  created_by_contract_id, output_of, input_of, diff_step, diff_loop, compute_state_diff,
}
use cantontrace.Update.Diff.Laws.{
  creates, consumed, last_create, shown, shown_with, compute_state_diff-sides,
}
use cantontrace.Update.Ids.{scan-Distinct, colons, IsPlain, id_of}
use cantontrace.Update.Roots.{through_first_exercise, map_transaction_to_detail-roots}
use cantontrace.Update.Children.{map_transaction_to_detail-children}
use cantontrace.Update.Collisions.{found}

program : Unit {0}
unfolding get put set includes add ◌===◌ decimal iso_string value_to_object record_to_object
    timestamp_to_iso map_created map_exercised map_archived map_tree_event map_tree_events
    push_events admit_entry admit_entries admit scan_step scan populate push_child claim link_step
    link reconstruct direct flat_phase map_transaction_to_detail created_by_contract_id output_of
    input_of diff_step diff_loop compute_state_diff colons found through_first_exercise
program = tt

abbrev create : String → Str → TreeEvent
create contract id = TreeEvent.created (record {
  event_id = some id;
  offset = none;
  contract_id = text contract;
  template_id = none;
  package_name = some (text "iou");
  contract_key = none;
  create_arguments = some (field (text "amount") (int64 (text "5")) no_fields);
  witness_parties = none;
  signatories = some (text "alice" ∷ []);
  observers = none;
})

abbrev exercise : String → Str → TreeEvent
exercise contract id = TreeEvent.exercised (record {
  event_id = some id;
  offset = none;
  contract_id = text contract;
  template_id = none;
  package_name = none;
  choice = text "Transfer";
  choice_argument = none;
  acting_parties = some (text "alice" ∷ []);
  consuming = some true;
  witness_parties = none;
  child_event_ids = none;
  exercise_result = none;
})

abbrev with_events : List TreeEvent → Transaction
with_events tes = record {
  update_id = text "u";
  command_id = some [];
  workflow_id = none;
  effective_at = none;
  events = some tes;
  offset = text "7";
  trace_context = none;
  record_time = some (record { seconds = 1; nanos = 5000000 });
  events_by_id = none;
  root_event_ids = none;
}

-- Two exercises side by side, each followed by a create, all with the id "7".
abbrev shared : Transaction
shared = with_events (
    exercise "c1" (text "7")
    ∷ create "c2" (text "7")
    ∷ exercise "c3" (text "7")
    ∷ create "c4" (text "7")
    ∷ [])

abbrev own : Transaction
own = with_events (create "c1" (text "7:0") ∷ exercise "c1" (text "7:1") ∷ [])

shared-roots : (map_transaction_to_detail shared).root_event_ids ≡ text "7" ∷ []
unfolding program
shared-roots = refl

own-roots : (map_transaction_to_detail own).root_event_ids ≡ text "7:0" ∷ text "7:1" ∷ []
unfolding program
own-roots = refl

own-net_change :
    (map_transaction_to_detail own).state_diff.net_change ≡ text "1 created, 1 consumed"
unfolding program
own-net_change = refl

own-record_time : (map_transaction_to_detail own).record_time ≡ text "1970-01-01T00:00:01.005Z"
unfolding program
own-record_time = refl

shared-IsPlain : All (λ te. IsPlain (id_of te)) (get_or shared.events [])
unfolding program
shared-IsPlain = omega arith

shared-collide : (scan 0 (get_or shared.events []) start).collisions ≡ true
unfolding program
shared-collide = refl

scan-Distinct_example : Distinct (ids (scan 0 (get_or shared.events []) start).mapped)
scan-Distinct_example = scan-Distinct (get_or shared.events []) shared-IsPlain

map_transaction_to_detail-roots_example :
    (map_transaction_to_detail shared).root_event_ids
    ≡ through_first_exercise (scan 0 (get_or shared.events []) start).mapped
map_transaction_to_detail-roots_example =
    map_transaction_to_detail-roots shared shared-IsPlain shared-collide

-- The first exercise of `shared`, and what follows it.
abbrev first_exercise : ExercisedEvent
first_exercise = record {
  event_id = text "7";
  contract_id = text "c1";
  template_id = record { package_name = []; module_name = []; entity_name = [] };
  choice = text "Transfer";
  choice_argument = Json.obj Properties.end;
  acting_parties = text "alice" ∷ [];
  consuming = true;
  witnesses = [];
  child_event_ids = [];
  exercise_result = none;
}

abbrev later : List Flat
later = tail (scan 0 (get_or shared.events []) start).mapped

shared-split :
    (scan 0 (get_or shared.events []) start).mapped
    ≡ [] ++ record { synthetic_id = text "7"; event = exercised first_exercise } ∷ later
unfolding program
shared-split = refl

map_transaction_to_detail-children_example :
    get (text "7") (map_transaction_to_detail shared).events_by_id
    ≡ some (
        exercised (record first_exercise {
          event_id = text "7";
          child_event_ids = [] ++ through_first_exercise later;
        }))
map_transaction_to_detail-children_example =
    map_transaction_to_detail-children shared [] later
      (record { synthetic_id = text "7"; event = exercised first_exercise }) first_exercise
      shared-IsPlain shared-collide shared-split refl

own-Distinct : Distinct (found (get_or own.events []))
unfolding program
own-Distinct = (refl, (refl, tt))

abbrev own_events : List (Str × LedgerEvent)
own_events = (map_transaction_to_detail own).events_by_id

compute_state_diff-sides_example :
    ((compute_state_diff own_events).outputs ≡ map shown (creates (values own_events)))
    × ((compute_state_diff own_events).inputs
        ≡ map
            (λ c. shown_with c.0 c.1 (last_create c.0 (creates (values own_events))))
            (consumed (values own_events)))
    × ((compute_state_diff own_events).net_change
        ≡ decimal (length (creates (values own_events)))
          ++ text " created, "
          ++ decimal (length (consumed (values own_events)))
          ++ text " consumed")
compute_state_diff-sides_example = compute_state_diff-sides own_events

abbrev two_amounts : RecordFields
two_amounts =
    field (text "amount") (int64 (text "1")) (field (text "amount") (int64 (text "2")) no_fields)

-- An update, whatever it holds, before an error.
abbrev checkpoint : LedgerUpdate
checkpoint = record {
  update_id = text "u";
  update_type = UpdateType.offset_checkpoint;
  offset = text "7";
  record_time = text "";
  command_id = none;
  workflow_id = none;
  trace_context = none;
  events = [];
}

get_recent_updates-settled_example :
    (get_recent_updates 1 (update checkpoint ∷ fails ∷ []) requested).outcome
    ≡ some (resolves (checkpoint ∷ []))
get_recent_updates-settled_example = get_recent_updates-settled 1 (update checkpoint ∷ fails ∷ [])
