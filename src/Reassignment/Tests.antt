-- ===== src/Reassignment/Tests.antt =====
-- A reassignment that is seen to begin.
use cantontrace.Base.{ℕ, ◌≡◌, refl, [], ◌∷◌, Option, none, Str, text, Bool, true, All, length}
use cantontrace.Base.Lookup.{put}
use cantontrace.Ledger.{LedgerEvent, LedgerUpdate, UpdateType}
use cantontrace.Reassignment.{
  Found, note_updates, on_reassignment_update, note_reassignments, finalize, sort_reassignments,
  insert_reassignment,
}
use cantontrace.Reassignment.Statuses.{
  IsSettled, finalize-note_updates-IsSettled, length-finalize-finalize,
}

abbrev begun : LedgerUpdate
begun = record {
  update_id = text "u";
  update_type = UpdateType.reassignment;
  offset = text "7";
  record_time = text "2024-01-01T00:00:00.000Z";
  command_id = none;
  workflow_id = none;
  trace_context = none;
  events =
      LedgerEvent.unassigned (record {
        contract_id = text "c";
        template_id = none;
        source = text "s";
        reassignment_id = text "r";
      })
      ∷ [];
}

abbrev no_time : Str → Option ℕ
no_time s = none

abbrev always : Str → Str → Bool
always s t = true

finalize-note_updates-IsSettled_example :
    All IsSettled (finalize no_time always (note_updates 50 none (begun ∷ []) []) [])
finalize-note_updates-IsSettled_example =
    finalize-note_updates-IsSettled no_time always 50 none (begun ∷ []) (refl, tt)

-- The reply of the timeout after that of the stream's end.
abbrev found : Found
found = note_updates 50 none (begun ∷ []) []

twice : length (finalize no_time always found (finalize no_time always found [])) ≡ 2
unfolding note_updates on_reassignment_update note_reassignments put finalize sort_reassignments
    insert_reassignment
twice = length-finalize-finalize no_time always found
