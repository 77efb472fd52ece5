-- ===== src/Proto.antt =====
-- The messages of the ledger API as the proto loader delivers them:
-- api-gateway/src/canton/proto/types.ts. A field for which the code has a fallback is an `Option`;
-- a oneof is a data type.
pub mod Values
use cantontrace.Base.{ℕ, Bool, List, Option, Str}
use cantontrace.Runtime.Json.{ℤ}

pub record Identifier : Type 0 where
  pub package_id : Option Str
  pub module_name : Option Str
  pub entity_name : Option Str

mutual
  -- One case for each member of the oneof.
  pub data Value : Type 0 where
    record_value : RecordFields → Value
    variant : Str → Value → Value
    list : ValueList → Value
    text_map : Entries → Value
    no_value : Value
    optional : Value → Value
    contract_id int64 numeric text_value timestamp party enum : Str → Value
    bool : Bool → Value
    date : ℤ → Value
    unit : Value
    gen_map : Pairs → Value

  -- The fields of a record, each with its label.
  pub data RecordFields : Type 0 where
    no_fields : RecordFields
    field : Str → Value → RecordFields → RecordFields

  pub data ValueList : Type 0 where
    no_values : ValueList
    element : Value → ValueList → ValueList

  pub data Entries : Type 0 where
    no_entries : Entries
    entry : Str → Value → Entries → Entries

  pub data Pairs : Type 0 where
    no_pairs : Pairs
    pair : Value → Value → Pairs → Pairs

pub record Timestamp : Type 0 where
  pub seconds : ℕ
  pub nanos : ℕ

pub record TraceContext : Type 0 where
  pub traceparent : Option Str
  pub tracestate : Option Str

pub record CreatedEvent : Type 0 where
  pub event_id : Option Str
  pub offset : Option Str
  pub contract_id : Str
  pub template_id : Option Identifier
  pub package_name : Option Str
  pub contract_key : Option Value
  pub create_arguments : Option RecordFields
  pub witness_parties : Option (List Str)
  pub signatories : Option (List Str)
  pub observers : Option (List Str)

pub record ArchivedEvent : Type 0 where
  pub event_id : Option Str
  pub offset : Option Str
  pub contract_id : Str
  pub template_id : Option Identifier
  pub package_name : Option Str
  pub witness_parties : Option (List Str)

pub record ExercisedEvent : Type 0 where
  pub event_id : Option Str
  pub offset : Option Str
  pub contract_id : Str
  pub template_id : Option Identifier
  pub package_name : Option Str
  pub choice : Str
  pub choice_argument : Option Value
  pub acting_parties : Option (List Str)
  pub consuming : Option Bool
  pub witness_parties : Option (List Str)
  pub child_event_ids : Option (List Str)
  pub exercise_result : Option Value

pub data TreeEvent : Type 0 where
  created : CreatedEvent → TreeEvent
  exercised : ExercisedEvent → TreeEvent
  archived : ArchivedEvent → TreeEvent
  unset : TreeEvent

pub record AssignedEvent : Type 0 where
  pub source : Str
  pub target : Str
  pub unassign_id : Str
  pub created_event : Option CreatedEvent

pub record UnassignedEvent : Type 0 where
  pub unassign_id : Str
  pub contract_id : Str
  pub template_id : Option Identifier
  pub source : Str
  pub package_name : Option Str

pub record Transaction : Type 0 where
  pub update_id : Str
  pub command_id : Option Str
  pub workflow_id : Option Str
  pub effective_at : Option Timestamp
  pub events : Option (List TreeEvent)
  pub offset : Str
  pub trace_context : Option TraceContext
  pub record_time : Option Timestamp
  pub events_by_id : Option (List (Str × TreeEvent))
  pub root_event_ids : Option (List Str)

pub record Reassignment : Type 0 where
  pub update_id : Str
  pub command_id : Option Str
  pub workflow_id : Option Str
  pub offset : Str
  pub assigned_event : Option AssignedEvent
  pub unassigned_event : Option UnassignedEvent
  pub trace_context : Option TraceContext
  pub record_time : Option Timestamp

pub record TopologyTransaction : Type 0 where
  pub update_id : Str
  pub offset : Str
  pub trace_context : Option TraceContext
  pub record_time : Option Timestamp

pub record SynchronizerTime : Type 0 where
  pub synchronizer_id : Str
  pub record_time : Option Timestamp

pub record OffsetCheckpoint : Type 0 where
  pub offset : Str
  pub synchronizer_times : Option (List SynchronizerTime)

pub data GetUpdatesResponse : Type 0 where
  transaction : Transaction → GetUpdatesResponse
  reassignment : Reassignment → GetUpdatesResponse
  topology_transaction : TopologyTransaction → GetUpdatesResponse
  offset_checkpoint : OffsetCheckpoint → GetUpdatesResponse
  empty : GetUpdatesResponse
