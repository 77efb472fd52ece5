-- ===== src/Ledger.antt =====
-- The ledger data that the gateway hands out: api-gateway/src/types.ts. An optional property is an
-- `Option`; a `Record<string, unknown>` is a list of properties.
use cantontrace.Base.{Bool, List, Option, Str}
use cantontrace.Runtime.Json.{Json}

pub record TemplateId : Type 0 where
  pub package_name : Str
  pub module_name : Str
  pub entity_name : Str

abbrev pub Payload : Type 0
Payload = List (Str × Json)

pub record CreatedEvent : Type 0 where
  pub event_id : Str
  pub contract_id : Str
  pub template_id : TemplateId
  pub payload : Payload
  pub signatories : List Str
  pub observers : List Str
  pub witnesses : List Str
  pub contract_key : Option Json

pub record ArchivedEvent : Type 0 where
  pub event_id : Str
  pub contract_id : Str
  pub template_id : TemplateId
  pub witnesses : List Str

pub record ExercisedEvent : Type 0 where
  pub event_id : Str
  pub contract_id : Str
  pub template_id : TemplateId
  pub choice : Str
  pub choice_argument : Json
  pub acting_parties : List Str
  pub consuming : Bool
  pub witnesses : List Str
  pub child_event_ids : List Str
  pub exercise_result : Option Json

pub record AssignedEvent : Type 0 where
  pub contract_id : Str
  pub template_id : Option TemplateId
  pub source : Str
  pub target : Str
  pub reassignment_id : Str

pub record UnassignedEvent : Type 0 where
  pub contract_id : Str
  pub template_id : Option TemplateId
  pub source : Str
  pub reassignment_id : Str

pub data LedgerEvent : Type 0 where
  created : CreatedEvent → LedgerEvent
  archived : ArchivedEvent → LedgerEvent
  exercised : ExercisedEvent → LedgerEvent
  assigned : AssignedEvent → LedgerEvent
  unassigned : UnassignedEvent → LedgerEvent

pub data UpdateType : Type 0 where
  transaction reassignment topology_transaction offset_checkpoint : UpdateType

pub record TraceContext : Type 0 where
  pub trace_parent : Option Str
  pub trace_state : Option Str

pub record LedgerUpdate : Type 0 where
  pub update_id : Str
  pub update_type : UpdateType
  pub offset : Str
  pub record_time : Str
  pub command_id : Option Str
  pub workflow_id : Option Str
  pub trace_context : Option TraceContext
  pub events : List LedgerEvent

pub data TransactionShape : Type 0 where
  acs_delta ledger_effects : TransactionShape

pub record EventStreamFilter : Type 0 where
  pub templates : Option (List TemplateId)
  pub parties : Option (List Str)
  pub event_types : Option (List Str)
  pub transaction_shape : Option TransactionShape

pub record ActiveContract : Type 0 where
  pub contract_id : Str
  pub template_id : TemplateId
  pub payload : Payload
  pub signatories : List Str
  pub observers : List Str
  pub created_at : Str

pub record StateDiff : Type 0 where
  pub inputs : List ActiveContract
  pub outputs : List ActiveContract
  pub net_change : Str

pub record TransactionDetail : Type 0 where
  pub update_id : Str
  pub command_id : Option Str
  pub workflow_id : Option Str
  pub offset : Str
  pub record_time : Str
  pub effective_at : Str
  pub trace_context : Option TraceContext
  pub root_event_ids : List Str
  pub events_by_id : List (Str × LedgerEvent)
  pub state_diff : StateDiff
