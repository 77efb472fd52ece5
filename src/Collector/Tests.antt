-- ===== src/Collector/Tests.antt =====
-- The event stream store on concrete updates.
use mathlib.Core.Option
use Prim.Native.String.{String}
use cantontrace.Base.{
  ◌≡◌, refl, List, [], ◌∷◌, ◌++◌, none, some, text, arith, includes, Distinct, ◌===◌,
}
use cantontrace.Ledger.{LedgerUpdate, transaction}
use cantontrace.Collector.{
  Collector, Socket, initial, newest, update_ids, pause, resume, clear_timer, recent_answered,
  merge_recent, reverse_onto,
}
use cantontrace.Collector.Pausing.{receive, events-resume-receive-pause_eq}
use cantontrace.Collector.Recent.{update_ids-recent_answered-Distinct}
use cantontrace.Collector.Operations.{
  Operation, event, opened, closed, fired, started, stop, hold, release, perform, perform_all,
}
use cantontrace.Collector.Bounds.{IsBounded, perform_all-IsBounded}
use cantontrace.Collector.Stopping.{on_close-stop_collection}

abbrev update : String → LedgerUpdate
update id = record {
  update_id = text id;
  update_type = transaction;
  offset = text id;
  record_time = text "2024";
  command_id = none;
  workflow_id = none;
  trace_context = none;
  events = [];
}

abbrev one_two : List LedgerUpdate
one_two = update "1" ∷ update "2" ∷ []

both : newest one_two ≡ one_two
unfolding newest
both = refl

events-resume-receive-pause_eq_example :
    (resume (receive one_two (pause initial))).events ≡ (receive one_two initial).events
events-resume-receive-pause_eq_example =
    events-resume-receive-pause_eq one_two initial refl (omega arith) (omega arith)

abbrev shown : Collector
shown = record initial { events = update "2" ∷ update "3" ∷ [] }

one_two-Distinct : Distinct (update_ids one_two)
unfolding includes ◌===◌
one_two-Distinct = (refl, (refl, tt))

shown-Distinct : Distinct (update_ids shown.events)
unfolding includes ◌===◌
shown-Distinct = (refl, (refl, tt))

update_ids-recent_answered-Distinct_example :
    Distinct (update_ids (recent_answered (some one_two) shown).events)
update_ids-recent_answered-Distinct_example =
    update_ids-recent_answered-Distinct one_two shown one_two-Distinct shown-Distinct

merged :
    update_ids (recent_answered (some one_two) shown).events ≡ text "1" ∷ text "2" ∷ text "3" ∷ []
unfolding recent_answered merge_recent reverse_onto newest includes ◌===◌
merged = refl

initial-IsBounded : IsBounded initial
initial-IsBounded = record {
  events = omega arith;
  buffer = omega arith;
  attempts = omega arith;
  delays = tt;
}

abbrev session : List Operation
session =
    started (some one_two)
    ∷ opened
    ∷ hold
    ∷ event (update "3")
    ∷ release
    ∷ closed
    ∷ fired 1
    ∷ stop
    ∷ []

perform_all-IsBounded_example : IsBounded (perform_all session initial)
perform_all-IsBounded_example =
    perform_all-IsBounded session initial
      (omega arith, (tt, (tt, (tt, (tt, (tt, (tt, (tt, tt)))))))) initial-IsBounded

on_close-stop_collection_example :
    ((perform closed (perform stop initial)).pending
      ≡ (clear_timer initial).pending
        ++ record { timeout_id = (clear_timer initial).next_id; delay = 1000 } ∷ [])
    × (Option.map
          (λ (s : Socket). s.opened_with)
          (perform (fired (clear_timer initial).next_id) (perform closed (perform stop initial))).ws
        ≡ some initial.filter)
on_close-stop_collection_example = on_close-stop_collection initial
