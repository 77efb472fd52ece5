-- ===== src/Reassignment.antt =====
-- The reassignments that api-gateway/src/routes/reassignments.ts collects from a stream of updates. The
-- order of texts, `localeCompare`, is a parameter, and so is the time that a text stands for.
pub mod Statuses
mod Tests
use mathlib.Core.Option.{get_or}
use cantontrace.Base.{
  ℕ, ◌-◌, List, [], ◌∷◌, ◌++◌, Option, none, some, Str, Bool, true, false, not, ◌&&◌, ◌===◌, leb,
  if◌then◌else◌, length, map,
}
use cantontrace.Base.Lookup.{get, put, delete, values}
use cantontrace.Ledger.{
  TemplateId, LedgerEvent, LedgerUpdate, UpdateType, AssignedEvent, UnassignedEvent,
}

pub data ReassignmentStatus : Type 0 where
  unassigned in_flight assigned failed : ReassignmentStatus

-- `Partial<Reassignment>` of what the updates tell.
pub record Partial : Type 0 where
  pub reassignment_id : Option Str
  pub contract_id : Option Str
  pub template_id : Option TemplateId
  pub source_synchronizer : Option Str
  pub target_synchronizer : Option Str
  pub status : Option ReassignmentStatus
  pub unassigned_at : Option Str
  pub assigned_at : Option Str

pub record Reassignment : Type 0 where
  pub reassignment_id : Str
  pub contract_id : Str
  pub template_id : TemplateId
  pub source_synchronizer : Str
  pub target_synchronizer : Str
  pub status : ReassignmentStatus
  pub unassigned_at : Option Str
  pub assigned_at : Option Str
  pub latency_ms : Option ℕ

abbrev pub blank : Partial
blank = record {
  reassignment_id = none;
  contract_id = none;
  template_id = none;
  source_synchronizer = none;
  target_synchronizer = none;
  status = none;
  unassigned_at = none;
  assigned_at = none;
}

abbrev pub is_given : Option Str → Bool
is_given none = false
is_given (some []) = false
is_given (some (c ∷ s)) = true

-- `if (event.templateId) existing.templateId = event.templateId`.
abbrev pub newer : Option TemplateId → Option TemplateId → Option TemplateId
newer none old = old
newer (some t) old = some t

unfoldable pub note_unassigned : UnassignedEvent → Str → Partial → Partial
note_unassigned e time p = record p {
  reassignment_id = some e.reassignment_id;
  contract_id = some e.contract_id;
  template_id = newer e.template_id p.template_id;
  source_synchronizer = some e.source;
  status = some (if is_given p.assigned_at then assigned else unassigned);
  unassigned_at = some time;
}

unfoldable pub note_assigned : AssignedEvent → Str → Partial → Partial
note_assigned e time p = record p {
  reassignment_id = some e.reassignment_id;
  contract_id = some e.contract_id;
  template_id = newer e.template_id p.template_id;
  source_synchronizer = some e.source;
  target_synchronizer = some e.target;
  status = some assigned;
  assigned_at = some time;
}

abbrev pub Found : Type 0
Found = List (Str × Partial)

-- `contractId && event.contractId !== contractId`.
abbrev pub is_other : Option Str → Str → Bool
is_other none id = false
is_other (some []) id = false
is_other (some (c ∷ s)) id = not (id === (c ∷ s))

abbrev pub known : Str → Found → Partial
known id found = get_or (get id found) blank

-- The loop over the events of an update, and whether it came to its end.
unfoldable pub note_reassignments : Option Str → Str → List LedgerEvent → Found → Found × Bool
note_reassignments wanted time [] found = (found, true)
note_reassignments wanted time (LedgerEvent.unassigned e ∷ es) found =
    let rest =
      note_reassignments wanted time es
        (put e.reassignment_id (note_unassigned e time (known e.reassignment_id found)) found) in
    if is_other wanted e.contract_id then (delete e.reassignment_id found, false) else rest
note_reassignments wanted time (LedgerEvent.assigned e ∷ es) found =
    let rest =
      note_reassignments wanted time es
        (put e.reassignment_id (note_assigned e time (known e.reassignment_id found)) found) in
    if is_other wanted e.contract_id then (delete e.reassignment_id found, false) else rest
note_reassignments wanted time (_ ∷ es) found = note_reassignments wanted time es found

abbrev pub is_reassignment : UpdateType → Bool
is_reassignment UpdateType.reassignment = true
is_reassignment _ = false

-- What an update makes of the map, and whether the stream is cancelled.
unfoldable pub on_reassignment_update : ℕ → Option Str → LedgerUpdate → Found → Found × Bool
on_reassignment_update limit wanted u found =
    if is_reassignment u.update_type
    then (let r = note_reassignments wanted u.record_time u.events found in
        (r.0, r.1 && leb limit (length r.0)))
    else (found, false)

-- The map after the updates of a stream.
unfoldable pub note_updates : ℕ → Option Str → List LedgerUpdate → Found → Found
note_updates limit wanted [] found = found
note_updates limit wanted (u ∷ us) found =
    note_updates limit wanted us (on_reassignment_update limit wanted u found).0

module _ (time_of : Str → Option ℕ) where
  -- `Math.max(0, end - start)`.
  unfoldable pub compute_latency : Option Str → Option Str → Option ℕ
  compute_latency (some (c ∷ s)) (some (d ∷ t)) = between (time_of (c ∷ s)) (time_of (d ∷ t))
    where
      between : Option ℕ → Option ℕ → Option ℕ
      between (some start) (some end_time) = some (end_time - start)
      between _ _ = none
  compute_latency _ _ = none

  unfoldable pub complete : Partial → Reassignment
  complete p = record {
    reassignment_id = get_or p.reassignment_id [];
    contract_id = get_or p.contract_id [];
    template_id =
        get_or p.template_id (record { package_name = []; module_name = []; entity_name = [] });
    source_synchronizer = get_or p.source_synchronizer [];
    target_synchronizer = get_or p.target_synchronizer [];
    status = get_or p.status unassigned;
    unassigned_at = p.unassigned_at;
    assigned_at = p.assigned_at;
    latency_ms = compute_latency p.unassigned_at p.assigned_at;
  }

unfoldable pub mark_in_flight : Reassignment → Reassignment
mark_in_flight r =
    if is_given r.unassigned_at && not (is_given r.assigned_at)
    then record r { status = in_flight }
    else r

-- The stable sort by the time of the unassignment.
module _ (at_most : Str → Str → Bool) where
  unfoldable pub insert_reassignment : Reassignment → List Reassignment → List Reassignment
  insert_reassignment r [] = r ∷ []
  insert_reassignment r (s ∷ ss) =
      let rest = insert_reassignment r ss in
      if at_most (get_or r.unassigned_at []) (get_or s.unassigned_at [])
      then r ∷ s ∷ ss
      else s ∷ rest

  unfoldable pub sort_reassignments : List Reassignment → List Reassignment
  sort_reassignments [] = []
  sort_reassignments (r ∷ rs) = insert_reassignment r (sort_reassignments rs)

-- `finalize` with what was collected before; its result is sent and kept.
unfoldable pub finalize :
    (Str → Option ℕ) → (Str → Str → Bool) → Found → List Reassignment → List Reassignment
finalize time_of at_most found collected =
    sort_reassignments at_most
      (map mark_in_flight (collected ++ map (complete time_of) (values found)))
