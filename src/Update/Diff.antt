-- ===== src/Update/Diff.antt =====
-- `computeStateDiff`: the contracts that a transaction consumed and created.
pub mod Laws
use mathlib.Core.Option.{get_or}
use mathlib.Core.Option
use cantontrace.Base.{
  ℕ, List, [], ◌∷◌, ◌++◌, Option, none, some, Str, text, Bool, true, false, length, if◌then◌else◌,
}
use cantontrace.Base.Lookup.{get, put, values}
use cantontrace.Runtime.Decimal.{decimal}
use cantontrace.Ledger.{
  CreatedEvent, LedgerEvent, TemplateId, ActiveContract, StateDiff, created, archived, exercised,
  assigned, unassigned,
}

-- `createdByContractId`.
unfoldable pub created_by_contract_id :
    List LedgerEvent → List (Str × CreatedEvent) → List (Str × CreatedEvent)
created_by_contract_id [] m = m
created_by_contract_id (created c ∷ es) m = created_by_contract_id es (put c.contract_id c m)
created_by_contract_id (archived a ∷ es) m = created_by_contract_id es m
created_by_contract_id (exercised e ∷ es) m = created_by_contract_id es m
created_by_contract_id (assigned a ∷ es) m = created_by_contract_id es m
created_by_contract_id (unassigned u ∷ es) m = created_by_contract_id es m

unfoldable pub output_of : CreatedEvent → ActiveContract
output_of c = record {
  contract_id = c.contract_id;
  template_id = c.template_id;
  payload = c.payload;
  signatories = c.signatories;
  observers = c.observers;
  created_at = [];
}

-- What is known of a consumed contract: its create event in the same transaction, if there is one.
unfoldable pub input_of : Str → TemplateId → Option CreatedEvent → ActiveContract
input_of contract_id template_id found = record {
  contract_id = contract_id;
  template_id = template_id;
  payload = get_or (Option.map (λ c. c.payload) found) [];
  signatories = get_or (Option.map (λ c. c.signatories) found) [];
  observers = get_or (Option.map (λ c. c.observers) found) [];
  created_at = [];
}

pub record Sides : Type 0 where
  pub inputs : List ActiveContract
  pub outputs : List ActiveContract

-- One round of the second loop.
unfoldable pub diff_step : List (Str × CreatedEvent) → LedgerEvent → Sides → Sides
diff_step m (created c) s = record s { outputs = s.outputs ++ output_of c ∷ [] }
diff_step m (archived a) s = record s {
  inputs = s.inputs ++ input_of a.contract_id a.template_id (get a.contract_id m) ∷ [];
}
diff_step m (exercised e) s =
    if e.consuming
    then record s {
      inputs = s.inputs ++ input_of e.contract_id e.template_id (get e.contract_id m) ∷ [];
    }
    else s
diff_step m (assigned a) s = s
diff_step m (unassigned u) s = s

unfoldable pub diff_loop : List (Str × CreatedEvent) → List LedgerEvent → Sides → Sides
diff_loop m [] s = s
diff_loop m (e ∷ es) s = diff_loop m es (diff_step m e s)

unfoldable pub compute_state_diff : List (Str × LedgerEvent) → StateDiff
compute_state_diff events_by_id =
    let events = values events_by_id in
    let s =
      diff_loop (created_by_contract_id events []) events (record { inputs = []; outputs = [] }) in
    record {
      inputs = s.inputs;
      outputs = s.outputs;
      net_change =
          decimal (length s.outputs)
          ++ text " created, "
          ++ decimal (length s.inputs)
          ++ text " consumed";
    }
