-- ===== src/Privacy/Tests.antt =====
-- A contract that alice and bob share, and an exercise that carol sees.
use cantontrace.Base.{
  ◌≡◌, refl, [], ◌∷◌, none, some, text, false, if◌then◌else◌, any, includes, add, map, Distinct,
  ◌===◌,
}
use cantontrace.Base.Lookup.{get}
use cantontrace.Runtime.Json.{Json}
use cantontrace.Runtime.Object.{set}
use cantontrace.Ledger.{LedgerEvent, created, exercised, TransactionDetail}
use cantontrace.Privacy.{
  PrivacyAnalysis, analyze_privacy, no_template, build_privacy_event, sort, fill_matrix, collect,
  find_boundaries, add_all, insert, before, is_visible_to_party, extract_contract_id,
}
use cantontrace.Privacy.Sorting.{IsSorted}
use cantontrace.Privacy.Informed.{is_informed, informed_ids}
use cantontrace.Privacy.Boundaries.{boundary_pairs, pair_of}
use cantontrace.Privacy.Analysis.{analyze_privacy-informed}

abbrev shared : LedgerEvent
shared = created (record {
  event_id = text "#t:0";
  contract_id = text "c1";
  template_id = no_template;
  payload = [];
  signatories = text "bob" ∷ [];
  observers = text "alice" ∷ [];
  witnesses = [];
  contract_key = none;
})

abbrev shown : LedgerEvent
shown = exercised (record {
  event_id = text "#t:1";
  contract_id = text "c1";
  template_id = no_template;
  choice = text "Show";
  choice_argument = Json.null;
  acting_parties = text "alice" ∷ [];
  consuming = false;
  witnesses = text "carol" ∷ text "alice" ∷ [];
  child_event_ids = [];
  exercise_result = none;
})

abbrev transaction : TransactionDetail
transaction = record {
  update_id = text "t";
  command_id = none;
  workflow_id = none;
  offset = text "7";
  record_time = [];
  effective_at = [];
  trace_context = none;
  root_event_ids = text "#t:0" ∷ text "#t:1" ∷ [];
  events_by_id = (text "#t:0", shared) ∷ (text "#t:1", shown) ∷ [];
  state_diff = record { inputs = []; outputs = []; net_change = [] };
}

abbrev analysis : PrivacyAnalysis
analysis = record {
  update_id = text "t";
  parties = text "alice" ∷ text "bob" ∷ text "carol" ∷ [];
  visibility_matrix =
      (text "alice", text "#t:0" ∷ text "#t:1" ∷ [])
      ∷ (text "bob", text "#t:0" ∷ [])
      ∷ (text "carol", text "#t:1" ∷ [])
      ∷ [];
  events = build_privacy_event (text "#t:0") shared ∷ build_privacy_event (text "#t:1") shown ∷ [];
  disclosed_contract_boundaries =
      record {
        event_id = text "#t:1";
        contract_id = text "c1";
        accessed_by = text "alice";
        reason = text "Witness via LEDGER_EFFECTS (informed party, not stakeholder)";
      }
      ∷ record {
        event_id = text "#t:1";
        contract_id = text "c1";
        accessed_by = text "carol";
        reason = text "Witness via LEDGER_EFFECTS (informed party, not stakeholder)";
      }
      ∷ [];
}

analyzed : analyze_privacy (text "t") (some transaction) ≡ some analysis
unfolding analyze_privacy sort fill_matrix collect find_boundaries add_all build_privacy_event add
    ◌===◌ insert before set is_visible_to_party extract_contract_id
analyzed = refl

analyze_privacy-informed_example :
    IsSorted analysis.parties
    × Distinct analysis.parties
    × (includes (text "alice") analysis.parties
        ≡ any (λ e. is_informed (text "alice") e.1) transaction.events_by_id)
    × (get (text "alice") analysis.visibility_matrix ≡ (
        if any (λ e. is_informed (text "alice") e.1) transaction.events_by_id
        then some (informed_ids (text "alice") transaction.events_by_id)
        else none))
    × (map pair_of analysis.disclosed_contract_boundaries
        ≡ boundary_pairs analysis.parties transaction.events_by_id)
analyze_privacy-informed_example =
    analyze_privacy-informed (text "t") transaction analysis (text "alice") analyzed
