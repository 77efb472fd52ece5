-- ===== src/Workflow/Flows.antt =====
-- The flows between the transactions of a timeline of workflows.ts, against the events of the updates.
use cantontrace.Base.{
  ◌≡◌, refl, sym, ap, ◌∙◌, List, [], ◌∷◌, ◌++◌, Option, none, some, Str, Bool, true, false,
  if◌then◌else◌, map, includes, ◌===◌, append-nil, append_assoc, map-append, arith, keep, length,
  Bool-cases, inl, inr,
}
use cantontrace.Base.Lookup.{get, put, get-put}
use cantontrace.Ledger.{
  LedgerEvent, created, archived, exercised, assigned, unassigned, LedgerUpdate,
}
use cantontrace.Workflow.{
  WorkflowTransaction, ContractFlow, Creator, note_event, note_events, summarize, sort_updates,
  note_creations, contract_creators, flow_to, flows_of, all_flows, build_timeline,
}
use cantontrace.Workflow.Order.{
  IsChronological, sort_updates-IsChronological, length-keep-sort_updates,
}

-- The contracts that events create, and those that they archive or exercise a choice on.
abbrev pub created_ids : List LedgerEvent → List Str
created_ids [] = []
created_ids (created c ∷ es) = c.contract_id ∷ created_ids es
created_ids (archived a ∷ es) = created_ids es
created_ids (exercised e ∷ es) = created_ids es
created_ids (assigned a ∷ es) = created_ids es
created_ids (unassigned u ∷ es) = created_ids es

abbrev pub used_ids : List LedgerEvent → List Str
used_ids [] = []
used_ids (created c ∷ es) = used_ids es
used_ids (archived a ∷ es) = a.contract_id ∷ used_ids es
used_ids (exercised e ∷ es) = e.contract_id ∷ used_ids es
used_ids (assigned a ∷ es) = used_ids es
used_ids (unassigned u ∷ es) = used_ids es

-- The last of the updates that creates a contract.
abbrev pub last_of : Option LedgerUpdate → Bool → LedgerUpdate → Option LedgerUpdate
last_of (some v) here u = some v
last_of none true u = some u
last_of none false u = none

abbrev pub creator_of : Str → List LedgerUpdate → Option LedgerUpdate
creator_of cid [] = none
creator_of cid (u ∷ us) = last_of (creator_of cid us) (includes cid (created_ids u.events)) u

-- The links to an update: from the creator of each contract that it uses, unless it is the update itself.
abbrev pub link_to : Str → Str → Option LedgerUpdate → List (Str × Str × Str)
link_to to cid none = []
link_to to cid (some v) = if v.update_id === to then [] else (v.update_id, to, cid) ∷ []

abbrev pub links_to : List LedgerUpdate → Str → List Str → List (Str × Str × Str)
links_to timeline to [] = []
links_to timeline to (cid ∷ cids) =
    link_to to cid (creator_of cid timeline) ++ links_to timeline to cids

abbrev pub links : List LedgerUpdate → List LedgerUpdate → List (Str × Str × Str)
links timeline [] = []
links timeline (u ∷ us) = links_to timeline u.update_id (used_ids u.events) ++ links timeline us

abbrev pub link_of : ContractFlow → Str × Str × Str
link_of f = (f.from_update_id, f.to_update_id, f.contract_id)

note_events-contracts :
    (es : List LedgerEvent) (x : WorkflowTransaction)
    → ((note_events es x).contracts_created ≡ x.contracts_created ++ created_ids es)
      × ((note_events es x).contracts_consumed ≡ x.contracts_consumed ++ used_ids es)
      × ((note_events es x).update_id ≡ x.update_id)
unfolding note_events note_event
note_events-contracts [] x =
    (sym (append-nil x.contracts_created), sym (append-nil x.contracts_consumed), refl)
note_events-contracts (created c ∷ es) x =
    let r = note_events-contracts es (note_event (created c) x) in
    (r.0 ∙ append_assoc x.contracts_created (c.contract_id ∷ []) (created_ids es), r.1, r.2)
note_events-contracts (archived a ∷ es) x =
    let r = note_events-contracts es (note_event (archived a) x) in
    (r.0, r.1 ∙ append_assoc x.contracts_consumed (a.contract_id ∷ []) (used_ids es), r.2)
note_events-contracts (exercised e ∷ es) x =
    let r = note_events-contracts es (note_event (exercised e) x) in
    (r.0, r.1 ∙ append_assoc x.contracts_consumed (e.contract_id ∷ []) (used_ids es), r.2)
note_events-contracts (assigned a ∷ es) x = note_events-contracts es x
note_events-contracts (unassigned u ∷ es) x = note_events-contracts es x

summarize-contracts :
    (u : LedgerUpdate)
    → ((summarize u).contracts_created ≡ created_ids u.events)
      × ((summarize u).contracts_consumed ≡ used_ids u.events)
      × ((summarize u).update_id ≡ u.update_id)
unfolding summarize
summarize-contracts u = note_events-contracts u.events _

-- The entry that the map of creators has for an update.
abbrev as_creator : Option LedgerUpdate → Option Creator → Option Creator
as_creator none before = before
as_creator (some v) before =
    some (record { update_id = (summarize v).update_id; template_id = (summarize v).template_id })

get-note_creations :
    (cid : Str) (c : Creator) (cids : List Str) (m : List (Str × Creator))
    → get cid (note_creations c cids m) ≡ (if includes cid cids then some c else get cid m)
unfolding note_creations includes
get-note_creations cid c [] m = refl
get-note_creations cid c (k ∷ cids) m =
    get-note_creations cid c cids (put k c m) ∙ rw (get-put k cid c m) (ground arith)

creator_from : LedgerUpdate → Creator
creator_from u = record {
  update_id = (summarize u).update_id;
  template_id = (summarize u).template_id;
}

as_creator-last_of :
    (o : Option LedgerUpdate) (here : Bool) (u : LedgerUpdate) (before : Option Creator)
    → as_creator o (if here then some (creator_from u) else before)
      ≡ as_creator (last_of o here u) before
unfolding creator_from
as_creator-last_of (some v) here u before = refl
as_creator-last_of none true u before = refl
as_creator-last_of none false u before = refl

get-contract_creators :
    (cid : Str) (us : List LedgerUpdate) (m : List (Str × Creator))
    → get cid (contract_creators (map summarize us) m) ≡ as_creator (creator_of cid us) (get cid m)
unfolding contract_creators creator_from
get-contract_creators cid [] m = refl
get-contract_creators cid (u ∷ us) m =
    get-contract_creators cid us (note_creations (creator_from u) (summarize u).contracts_created m)
    ∙ ap (as_creator (creator_of cid us)) (
        get-note_creations cid (creator_from u) (summarize u).contracts_created m
        ∙ ap (λ cids. if includes cid cids then some (creator_from u) else get cid m)
            (summarize-contracts u).0)
    ∙ as_creator-last_of (creator_of cid us) (includes cid (created_ids u.events)) u (get cid m)

flow_to-link :
    (to cid : Str) (o : Option LedgerUpdate)
    → map link_of (flow_to to cid (as_creator o none)) ≡ link_to to cid o
flow_to-link to cid none = refl
flow_to-link to cid (some v) = elim (Bool-cases (v.update_id === to)) [
  | inl same ↦ rw ((summarize-contracts v).2, same) refl
  | inr other ↦ rw ((summarize-contracts v).2, other) refl
]

-- The map of creators, as the flows read it.
module _ (timeline : List LedgerUpdate) where
  abbrev creators : List (Str × Creator)
  creators = contract_creators (map summarize timeline) []

  flows_of-links :
      (to : Str) (cids : List Str)
      → map link_of (flows_of creators to cids) ≡ links_to timeline to cids
  unfolding flows_of get
  flows_of-links to [] = refl
  flows_of-links to (cid ∷ cids) =
      map-append link_of (flow_to to cid (get cid creators)) (flows_of creators to cids)
      ∙ ap (λ l. l ++ map link_of (flows_of creators to cids))
          (ap (λ o. map link_of (flow_to to cid o)) (get-contract_creators cid timeline [])
            ∙ flow_to-link to cid (creator_of cid timeline))
      ∙ ap (λ l. link_to to cid (creator_of cid timeline) ++ l) (flows_of-links to cids)

  all_flows-links :
      (us : List LedgerUpdate)
      → map link_of (all_flows creators (map summarize us)) ≡ links timeline us
  unfolding all_flows
  all_flows-links [] = refl
  all_flows-links (u ∷ us) =
      map-append link_of
        (flows_of creators (summarize u).update_id (summarize u).contracts_consumed) _
      ∙ ap (λ l. l ++ map link_of (all_flows creators (map summarize us)))
          (flows_of-links (summarize u).update_id (summarize u).contracts_consumed
            ∙ ap (λ to. links_to timeline to (summarize u).contracts_consumed)
                (summarize-contracts u).2
            ∙ ap (links_to timeline u.update_id) (summarize-contracts u).1)
      ∙ ap (λ l. links_to timeline u.update_id (used_ids u.events) ++ l) (all_flows-links us)

same_ids :
    (us : List LedgerUpdate) → map (λ x. x.update_id) (map summarize us) ≡ map (λ u. u.update_id) us
same_ids [] = refl
same_ids (u ∷ us) = let first = (summarize-contracts u).2 in let rest = same_ids us in cc

-- For an order of the record times that is total and transitive, the transactions of a timeline are
-- those of the sorted updates; these are chronological and have, of any kind of update, as many as were
-- given. The flows are these links, in the order of the timeline: to each update, from the last update
-- of the timeline that creates a contract that the former archives or exercises a choice on, unless both
-- have one id.
pub build_timeline-links :
    (at_most : Str → Str → Bool) (total : (s t : Str) → at_most s t ≡ false → at_most t s ≡ true)
    (trans : (s t r : Str) → at_most s t ≡ true → at_most t r ≡ true → at_most s r ≡ true)
    (correlation_type correlation_key : Str) (updates : List LedgerUpdate) (p : LedgerUpdate → Bool)
    → IsChronological at_most (sort_updates at_most updates)
      × (length (keep p (sort_updates at_most updates)) ≡ length (keep p updates))
      × (map
            (λ x. x.update_id)
            (build_timeline at_most correlation_type correlation_key updates).transactions
          ≡ map (λ u. u.update_id) (sort_updates at_most updates))
      × (map link_of
            (build_timeline at_most correlation_type correlation_key updates).contract_flows
          ≡ links (sort_updates at_most updates) (sort_updates at_most updates))
unfolding build_timeline
build_timeline-links at_most total trans correlation_type correlation_key updates p = (
  sort_updates-IsChronological at_most total trans updates,
  length-keep-sort_updates at_most p updates,
  same_ids (sort_updates at_most updates),
  all_flows-links (sort_updates at_most updates) (sort_updates at_most updates),
)
