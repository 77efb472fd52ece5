-- ===== src/Workflow/Tests.antt =====
-- An update that creates a contract, and one that archives it. Their times are ordered by length.
use cantontrace.Base.{
  ◌≡◌, refl, List, [], ◌∷◌, none, some, Str, text, Bool, true, false, leb, length, map, keep, arith,
  ◌===◌, includes,
}
use cantontrace.Ledger.{LedgerEvent, created, archived, LedgerUpdate, UpdateType, TemplateId}
use cantontrace.Workflow.{build_timeline, sort_updates, insert_update}
use cantontrace.Workflow.Correlation.{
  extract_update_id, up_to, rest_after, matches_trace, trace_id_of,
}
use cantontrace.Workflow.Order.{IsChronological}
use cantontrace.Workflow.Flows.{links, link_of, build_timeline-links}

abbrev shorter : Str → Str → Bool
shorter s t = leb (length s) (length t)

shorter_total : (s t : Str) → shorter s t ≡ false → shorter t s ≡ true
shorter_total s t h = ground arith

shorter_trans : (s t r : Str) → shorter s t ≡ true → shorter t r ≡ true → shorter s r ≡ true
shorter_trans s t r h k = ground arith

abbrev template : TemplateId
template = record { package_name = text "p"; module_name = text "M"; entity_name = text "T" }

abbrev update_with : Str → Str → LedgerEvent → LedgerUpdate
update_with id time e = record {
  update_id = id;
  update_type = UpdateType.transaction;
  offset = text "1";
  record_time = time;
  command_id = none;
  workflow_id = none;
  trace_context = some (record { trace_parent = some (text "00-abc-def-01"); trace_state = none });
  events = e ∷ [];
}

abbrev birth : LedgerUpdate
birth = update_with (text "u1") (text "1") (
    created (record {
      event_id = text "#u1:0";
      contract_id = text "c";
      template_id = template;
      payload = [];
      signatories = [];
      observers = [];
      witnesses = [];
      contract_key = none;
    }))

abbrev death : LedgerUpdate
death = update_with (text "u2") (text "22") (
    archived (record {
      event_id = text "#u2:0";
      contract_id = text "c";
      template_id = template;
      witnesses = [];
    }))

abbrev both : List LedgerUpdate
both = death ∷ birth ∷ []

build_timeline-links_example :
    IsChronological shorter (sort_updates shorter both)
    × (length (keep (λ u. u.update_id === text "u1") (sort_updates shorter both))
        ≡ length (keep (λ u. u.update_id === text "u1") both))
    × (map
          (λ x. x.update_id)
          (build_timeline shorter (text "workflow_id") (text "w") both).transactions
        ≡ map (λ u. u.update_id) (sort_updates shorter both))
    × (map link_of (build_timeline shorter (text "workflow_id") (text "w") both).contract_flows
        ≡ links (sort_updates shorter both) (sort_updates shorter both))
build_timeline-links_example =
    build_timeline-links shorter shorter_total shorter_trans (text "workflow_id") (text "w") both
      (λ u. u.update_id === text "u1")

one_link :
    links (sort_updates shorter both) (sort_updates shorter both)
    ≡ (text "u1", text "u2", text "c") ∷ []
unfolding sort_updates insert_update ◌===◌ includes
one_link = refl

ids_read :
    (extract_update_id (text "#u7:3") ≡ some (text "u7")) × (extract_update_id (text "u7:3") ≡ none)
unfolding extract_update_id up_to
ids_read = (refl, refl)

trace_read : matches_trace (text "abc") birth ≡ true
unfolding matches_trace trace_id_of rest_after up_to ◌===◌
trace_read = refl
