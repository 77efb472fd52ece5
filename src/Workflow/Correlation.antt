-- ===== src/Workflow/Correlation.antt =====
-- How workflows.ts finds the updates of a timeline: by trace, by workflow, along contracts or by id.
use cantontrace.Base.{
  ℕ, List, [], ◌∷◌, ◌++◌, Option, none, some, Str, text, Bool, true, false, ◌==◌, if◌then◌else◌,
  leb, ltb, length, any, includes, add, ◌===◌,
}
use cantontrace.Base.Lookup.{values}
use cantontrace.Ledger.{
  LedgerEvent, created, archived, exercised, assigned, unassigned, TraceContext, LedgerUpdate,
  transaction, TransactionDetail,
}
use cantontrace.Workflow.{WorkflowTimeline, build_timeline}

-- A right with an empty party counts as one with none.
unfoldable pub get_parties_from_rights : List (Option Str) → List Str → List Str
get_parties_from_rights [] parties = parties
get_parties_from_rights (none ∷ rights) parties = get_parties_from_rights rights parties
get_parties_from_rights (some [] ∷ rights) parties = get_parties_from_rights rights parties
get_parties_from_rights (some (c ∷ p) ∷ rights) parties =
    get_parties_from_rights rights (add (c ∷ p) parties)

-- `s.split(c)[0]`, and what follows the first `c`.
unfoldable pub up_to : ℕ → Str → Str
up_to c [] = []
up_to c (d ∷ s) = if d == c then [] else d ∷ up_to c s

unfoldable pub rest_after : ℕ → Str → Option Str
rest_after c [] = none
rest_after c (d ∷ s) = if d == c then some s else rest_after c s

abbrev pub non_empty_part : Str → Option Str
non_empty_part [] = none
non_empty_part (c ∷ s) = some (c ∷ s)

unfoldable pub extract_update_id : Str → Option Str
extract_update_id [] = none
extract_update_id (c ∷ s) = if c == b'#' then non_empty_part (up_to b':' s) else none

abbrev pub second_part : Option Str → Option Str
second_part none = none
second_part (some s) = some (up_to b'-' s)

-- `traceParent?.split('-')?.[1]`.
unfoldable pub trace_id_of : Option TraceContext → Option Str
trace_id_of none = none
trace_id_of (some t) = elim t.trace_parent [
  | none ↦ none
  | some p ↦ second_part (rest_after b'-' p)
]

abbrev pub is_text : Str → Option Str → Bool
is_text s none = false
is_text s (some t) = t === s

unfoldable pub matches_trace : Str → LedgerUpdate → Bool
matches_trace trace_id u = is_text trace_id (trace_id_of u.trace_context)

unfoldable pub matches_workflow : Str → LedgerUpdate → Bool
matches_workflow workflow_id u = is_text workflow_id u.workflow_id

-- What was collected from a stream, and whether the stream was cancelled; it may still send updates.
pub record Collection : Type 0 where
  pub collected : List LedgerUpdate
  pub cancelled : Bool

unfoldable pub collect_update : (LedgerUpdate → Bool) → ℕ → LedgerUpdate → Collection → Collection
collect_update matches max_transactions u s =
    if matches u
    then record {
      collected = s.collected ++ u ∷ [];
      cancelled =
          if leb max_transactions (length (s.collected ++ u ∷ [])) then true else s.cancelled;
    }
    else s

unfoldable pub update_of : TransactionDetail → LedgerUpdate
update_of t = record {
  update_id = t.update_id;
  update_type = transaction;
  offset = t.offset;
  record_time = t.record_time;
  command_id = t.command_id;
  workflow_id = t.workflow_id;
  trace_context = t.trace_context;
  events = values t.events_by_id;
}

unfoldable pub correlate_by_update_id :
    (Str → Str → Bool) → Str → Option TransactionDetail → WorkflowTimeline
correlate_by_update_id at_most update_id none = record {
  correlation_type = text "update_id";
  correlation_key = update_id;
  transactions = [];
  contract_flows = [];
}
correlate_by_update_id at_most update_id (some t) =
    build_timeline at_most (text "update_id") update_id (update_of t ∷ [])

-- What the event query says about a contract: whether its creation is known, and the id of the event
-- that archived it.
pub record ContractEvents : Type 0 where
  pub is_created : Bool
  pub archived_by : Option Str

pub record Chain : Type 0 where
  pub updates : List LedgerUpdate
  pub visited : List Str
  pub contract_queue : List Str

abbrev pub created_contracts : List LedgerEvent → List Str
created_contracts [] = []
created_contracts (created c ∷ es) = c.contract_id ∷ created_contracts es
created_contracts (archived a ∷ es) = created_contracts es
created_contracts (exercised e ∷ es) = created_contracts es
created_contracts (assigned a ∷ es) = created_contracts es
created_contracts (unassigned u ∷ es) = created_contracts es

abbrev pub follow : Option TransactionDetail → Chain → Chain
follow none s = s
follow (some t) s = record s {
  updates =
      if any (λ u. u.update_id === t.update_id) s.updates
      then s.updates
      else s.updates ++ update_of t ∷ [];
  contract_queue = s.contract_queue ++ created_contracts (values t.events_by_id);
}

abbrev pub archiving_update : ContractEvents → Option Str
archiving_update e =
    if e.is_created
    then (elim e.archived_by [ none ↦ none | some id ↦ extract_update_id id ])
    else none

-- A round for the contract at the head of the queue: nothing if it was visited before.
unfoldable pub visit :
    (Str → ContractEvents) → (Str → Option TransactionDetail) → Str → Chain → Chain
visit events_of transaction_of cid s =
    if includes cid s.visited then s else elim (archiving_update (events_of cid)) [
      | none ↦ record s { visited = s.visited ++ cid ∷ [] }
      | some id ↦ follow (transaction_of id) (record s { visited = s.visited ++ cid ∷ [] })
    ]

-- A round of the loop; none when the loop is over.
unfoldable pub chain_round :
    (Str → ContractEvents) → (Str → Option TransactionDetail) → ℕ → Chain → Option Chain
chain_round events_of transaction_of max_transactions s = elim s.contract_queue [
  | [] ↦ none
  | cid ∷ queue ↦
      if ltb (length s.updates) max_transactions
      then some (visit events_of transaction_of cid (record s { contract_queue = queue }))
      else none
]
