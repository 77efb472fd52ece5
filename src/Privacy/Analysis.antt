-- ===== src/Privacy/Analysis.antt =====
-- The whole analysis of privacy.ts, against who is informed of the events.
use mathlib.Core.Path.{subst}
use mathlib.Core.Option.{some_inj}
use cantontrace.Base.{
  ◌≡◌, refl, ap, ◌∙◌, List, [], none, some, Str, if◌then◌else◌, map, any, includes, Distinct,
}
use cantontrace.Base.Lookup.{get}
use cantontrace.Ledger.{TransactionDetail}
use cantontrace.Privacy.{
  PrivacyEvent, PrivacyAnalysis, collect, sort, visible_ids, find_boundaries, analyze_privacy,
}
use cantontrace.Privacy.Sorting.{IsSorted, sort-IsSorted, includes-sort, sort-Distinct}
use cantontrace.Privacy.Informed.{
  is_informed, informed_ids, privacy_events, collect-events, includes-collect, collect-Distinct,
  get-fill_matrix, visible_ids-informed,
}
use cantontrace.Privacy.Boundaries.{boundary_pairs, pair_of, find_boundaries-pairs}

-- The analysis of a transaction lists, sorted and each once, exactly the parties that are informed of one of
-- its events; under such a party the matrix has the ids of exactly the events that it is informed of, in
-- their order, and under any other name it has nothing; and the boundaries are the exercises that have
-- more witnesses than acting parties, each with every party that is informed of it, the acting ones too.
pub analyze_privacy-informed :
    (update_id : Str) (tx : TransactionDetail) (a : PrivacyAnalysis) (p : Str)
    → analyze_privacy update_id (some tx) ≡ some a
    → IsSorted a.parties
      × Distinct a.parties
      × (includes p a.parties ≡ any (λ e. is_informed p e.1) tx.events_by_id)
      × (get p a.visibility_matrix ≡ (
          if any (λ e. is_informed p e.1) tx.events_by_id
          then some (informed_ids p tx.events_by_id)
          else none))
      × (map pair_of a.disclosed_contract_boundaries ≡ boundary_pairs a.parties tx.events_by_id)
unfolding analyze_privacy includes get
analyze_privacy-informed update_id tx a p e =
    let events : List PrivacyEvent = (collect tx.events_by_id [] []).0 in
    let parties : List Str = sort (collect tx.events_by_id [] []).1 in
    let mapped : events ≡ privacy_events tx.events_by_id = collect-events tx.events_by_id [] [] in
    let there : includes p parties ≡ any (λ e. is_informed p e.1) tx.events_by_id =
      includes-sort p _ ∙ includes-collect p tx.events_by_id [] [] in
    let row : visible_ids events p ≡ informed_ids p tx.events_by_id =
      ap (λ l. visible_ids l p) mapped ∙ visible_ids-informed p tx.events_by_id in
    subst
      (λ (a : PrivacyAnalysis).
        IsSorted a.parties
        × Distinct a.parties
        × (includes p a.parties ≡ any (λ e. is_informed p e.1) tx.events_by_id)
        × (get p a.visibility_matrix ≡ (
            if any (λ e. is_informed p e.1) tx.events_by_id
            then some (informed_ids p tx.events_by_id)
            else none))
        × (map pair_of a.disclosed_contract_boundaries ≡ boundary_pairs a.parties tx.events_by_id))
      (some_inj.0 e)
      (
        sort-IsSorted _,
        sort-Distinct _ (collect-Distinct tx.events_by_id [] [] tt),
        there,
        get-fill_matrix events p parties [] ∙ rw (there, row) refl,
        ap (λ l. map pair_of (find_boundaries tx.events_by_id parties l)) mapped
            ∙ find_boundaries-pairs tx.events_by_id parties tx.events_by_id,
      )
