-- ===== src/Workflow.antt =====
-- The workflow debugger: api-gateway/src/routes/workflows.ts. What the ledger returns for an id, and the
-- order `localeCompare` of record times, are arguments.
pub mod Correlation
pub mod Flows
pub mod Order
mod Tests
use cantontrace.Base.{
  ℕ, List, [], ◌∷◌, ◌++◌, Option, none, some, Str, text, Bool, true, false, not, ◌&&◌, ◌==◌,
  if◌then◌else◌, leb, ltb, length, map, any, includes, add, ◌===◌,
}
use cantontrace.Base.Lookup.{get, put, values}
use cantontrace.Ledger.{
  LedgerEvent, created, archived, exercised, assigned, unassigned, TemplateId, TraceContext,
  LedgerUpdate, UpdateType, transaction, TransactionDetail,
}

pub record WorkflowTransaction : Type 0 where
  pub update_id : Str
  pub offset : Str
  pub record_time : Str
  pub command_id : Option Str
  pub workflow_id : Option Str
  pub trace_context : Option TraceContext
  pub template_id : TemplateId
  pub choice : Option Str
  pub acting_parties : List Str
  pub contracts_created : List Str
  pub contracts_consumed : List Str

pub record ContractFlow : Type 0 where
  pub from_update_id : Str
  pub to_update_id : Str
  pub contract_id : Str
  pub template_id : TemplateId

pub record WorkflowTimeline : Type 0 where
  pub correlation_type : Str
  pub correlation_key : Str
  pub transactions : List WorkflowTransaction
  pub contract_flows : List ContractFlow

unfoldable pub insert_update :
    (Str → Str → Bool) → LedgerUpdate → List LedgerUpdate → List LedgerUpdate
insert_update at_most u [] = u ∷ []
insert_update at_most u (v ∷ vs) =
    if at_most u.record_time v.record_time then u ∷ v ∷ vs else v ∷ insert_update at_most u vs

-- The stable sort by record time.
unfoldable pub sort_updates : (Str → Str → Bool) → List LedgerUpdate → List LedgerUpdate
sort_updates at_most [] = []
sort_updates at_most (u ∷ us) = insert_update at_most u (sort_updates at_most us)

unfoldable pub add_acting : List Str → List Str → List Str
add_acting [] parties = parties
add_acting (p ∷ ps) parties = add_acting ps (add p parties)

-- What an event adds to the summary of its update.
unfoldable pub note_event : LedgerEvent → WorkflowTransaction → WorkflowTransaction
note_event (created c) x = record x {
  contracts_created = x.contracts_created ++ c.contract_id ∷ [];
  template_id = c.template_id;
}
note_event (archived a) x = record x {
  contracts_consumed = x.contracts_consumed ++ a.contract_id ∷ [];
}
note_event (exercised e) x = record x {
  contracts_consumed = x.contracts_consumed ++ e.contract_id ∷ [];
  template_id = e.template_id;
  choice = some e.choice;
  acting_parties = add_acting e.acting_parties x.acting_parties;
}
note_event (assigned a) x = x
note_event (unassigned u) x = x

unfoldable pub note_events : List LedgerEvent → WorkflowTransaction → WorkflowTransaction
note_events [] x = x
note_events (e ∷ es) x = note_events es (note_event e x)

unfoldable pub summarize : LedgerUpdate → WorkflowTransaction
summarize u = note_events u.events (record {
  update_id = u.update_id;
  offset = u.offset;
  record_time = u.record_time;
  command_id = u.command_id;
  workflow_id = u.workflow_id;
  trace_context = u.trace_context;
  template_id = record { package_name = []; module_name = []; entity_name = [] };
  choice = none;
  acting_parties = [];
  contracts_created = [];
  contracts_consumed = [];
})

pub record Creator : Type 0 where
  pub update_id : Str
  pub template_id : TemplateId

unfoldable pub note_creations : Creator → List Str → List (Str × Creator) → List (Str × Creator)
note_creations c [] m = m
note_creations c (cid ∷ cids) m = note_creations c cids (put cid c m)

unfoldable pub contract_creators :
    List WorkflowTransaction → List (Str × Creator) → List (Str × Creator)
contract_creators [] m = m
contract_creators (x ∷ xs) m = contract_creators xs (
    note_creations (record { update_id = x.update_id; template_id = x.template_id })
      x.contracts_created m)

abbrev pub flow_to : Str → Str → Option Creator → List ContractFlow
flow_to update_id cid none = []
flow_to update_id cid (some c) =
    if c.update_id === update_id
    then []
    else record {
      from_update_id = c.update_id;
      to_update_id = update_id;
      contract_id = cid;
      template_id = c.template_id;
    }
      ∷ []

unfoldable pub flows_of : List (Str × Creator) → Str → List Str → List ContractFlow
flows_of creators update_id [] = []
flows_of creators update_id (cid ∷ cids) =
    flow_to update_id cid (get cid creators) ++ flows_of creators update_id cids

unfoldable pub all_flows : List (Str × Creator) → List WorkflowTransaction → List ContractFlow
all_flows creators [] = []
all_flows creators (x ∷ xs) =
    flows_of creators x.update_id x.contracts_consumed ++ all_flows creators xs

unfoldable pub build_timeline :
    (Str → Str → Bool) → Str → Str → List LedgerUpdate → WorkflowTimeline
build_timeline at_most correlation_type correlation_key updates =
    let transactions = map summarize (sort_updates at_most updates) in
    record {
      correlation_type = correlation_type;
      correlation_key = correlation_key;
      transactions = transactions;
      contract_flows = all_flows (contract_creators transactions []) transactions;
    }
