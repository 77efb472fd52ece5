-- ===== src/Stream/Tests.antt =====
-- A subscription `ws-s-1` with the socket 7, whose stream is 0.
use cantontrace.Base.{
  ℕ, ◌≡◌, ◌≢◌, ◌⊎◌, refl, [], ◌∷◌, ◌++◌, none, some, text, Str, true, false, ◌&&◌, ◌==◌,
  if◌then◌else◌, map, keep, ◌===◌,
}
use cantontrace.Base.Lookup.{get, put}
use cantontrace.Ledger.{LedgerUpdate, UpdateType}
use cantontrace.Stream.{
  Manager, Readiness, open_socket, idle, no_filter, update, is_empty, on_update, on_error,
  reconnect_due, passes_filter, update_stream_filter, subscribe_to_event_stream,
  unsubscribe_for_session, unsubscribe_all, get_active_subscription_count, start_stream,
  open_stream, set_object, starts_with, session_prefix, greet,
}
use cantontrace.Stream.Steps.{Reach, start, later, subscribe}
use cantontrace.Stream.Safety.{IsEntry, is_running}
use cantontrace.Stream.Safety.Reachable.{Reach-running}
use cantontrace.Stream.Safety.Leaving.{
  unsubscribe_for_session-subscriptions, unsubscribe_all-silent,
}
use cantontrace.Stream.Fanout.{is_open, stays, on_update-delivery}
use cantontrace.Stream.Restart.{update_stream_filter-no_restart, on_error-second_stream}

abbrev one : Manager
one =
    subscribe_to_event_stream true (text "ws-s-1") 3 7 no_filter (text "alice" ∷ []) (text "5") idle

one-Reach : Reach one
one-Reach =
    later start (subscribe true (text "ws-s-1") 3 7 no_filter (text "alice" ∷ []) (text "5"))

one-running : is_running (one.stream 0).phase ≡ true
unfolding subscribe_to_event_stream start_stream open_stream set_object get put greet
one-running = refl

one-IsEntry : IsEntry one 0
unfolding subscribe_to_event_stream start_stream open_stream set_object get put greet ◌===◌
one-IsEntry = refl

one-active : (one.object 0).is_active ≡ true
unfolding subscribe_to_event_stream start_stream open_stream set_object get put greet
one-active = refl

Reach-running_example :
    IsEntry one (one.stream 0).owner
    × ((one.object (one.stream 0).owner).cancel ≡ some 0)
    × ((one.object (one.stream 0).owner).is_active ≡ true)
    × ((◌≡◌ {A = ℕ} 0 0)
        ⊎ ((one.object (one.stream 0).owner).id ≢ (one.object (one.stream 0).owner).id))
Reach-running_example = Reach-running one one-Reach 0 0 one-running one-running

unsubscribe_for_session-subscriptions_example :
    ((x : Str)
      → get x (unsubscribe_for_session (text "s") one).subscriptions
        ≡ (if starts_with (session_prefix (text "s")) x then none else get x one.subscriptions))
    × ((k : ℕ)
        → (is_running ((unsubscribe_for_session (text "s") one).stream k).phase
            && starts_with
                (session_prefix (text "s"))
                ((unsubscribe_for_session (text "s") one).object
                  ((unsubscribe_for_session (text "s") one).stream k).owner).id)
          ≡ false)
unsubscribe_for_session-subscriptions_example =
    unsubscribe_for_session-subscriptions (text "s") one one-Reach

prefix_of_one : starts_with (session_prefix (text "s")) (text "ws-s-1") ≡ true
unfolding starts_with
prefix_of_one = refl

-- The prefix of the session `s` is also one of the ids of the session `s-t`.
prefix_of_other :
    starts_with (session_prefix (text "s")) (session_prefix (text "s-t") ++ text "1") ≡ true
unfolding starts_with
prefix_of_other = refl

unsubscribe_all-silent_example :
    ((unsubscribe_all one).subscriptions ≡ [])
    × ((k : ℕ) → is_running ((unsubscribe_all one).stream k).phase ≡ false)
    × (get_active_subscription_count (unsubscribe_all one) ≡ 0)
unsubscribe_all-silent_example = unsubscribe_all-silent one one-Reach

abbrev checkpoint : LedgerUpdate
checkpoint = record {
  update_id = text "u";
  update_type = UpdateType.transaction;
  offset = text "9";
  record_time = [];
  command_id = none;
  workflow_id = none;
  trace_context = none;
  events = [];
}

abbrev all_open : ℕ → Readiness
all_open w = open_socket

checkpoint-passes : passes_filter checkpoint (one.object 0).filter ≡ true
unfolding subscribe_to_event_stream start_stream open_stream set_object get put greet passes_filter
checkpoint-passes = refl

on_update-delivery_example :
    ((on_update all_open checkpoint 0 one).sent
      ≡ one.sent
        ++ map
            (λ w. (w, update checkpoint))
            (keep (λ w. is_open (all_open w)) (one.object 0).websockets))
    × ((on_update all_open checkpoint 0 one).offsets
        ≡ one.offsets ++ ((one.object 0).id, text "9") ∷ [])
    × (((on_update all_open checkpoint 0 one).object 0).last_offset ≡ text "9")
    × (((on_update all_open checkpoint 0 one).object 0).websockets
        ≡ keep (λ w. stays (all_open w)) (one.object 0).websockets)
    × (get (one.object 0).id (on_update all_open checkpoint 0 one).subscriptions ≡ (
        if is_empty (keep (λ w. stays (all_open w)) (one.object 0).websockets)
        then none
        else get (one.object 0).id one.subscriptions))
on_update-delivery_example =
    on_update-delivery all_open checkpoint 0 one one-Reach checkpoint-passes

update_stream_filter-no_restart_example :
    (((update_stream_filter true (one.object 0).id no_filter one).object 0).filter ≡ no_filter)
    × ((update_stream_filter true (one.object 0).id no_filter one).next_stream ≡ one.next_stream)
    × ((k : ℕ)
        → (is_running ((update_stream_filter true (one.object 0).id no_filter one).stream k).phase
            && ((update_stream_filter true (one.object 0).id no_filter one).stream k).owner == 0)
          ≡ false)
update_stream_filter-no_restart_example =
    update_stream_filter-no_restart true no_filter 0 one one-Reach one-IsEntry one-active

one-socket :
    is_empty (keep (λ w. stays (all_open w)) (one.object (one.stream 0).owner).websockets) ≡ false
unfolding subscribe_to_event_stream start_stream open_stream set_object get put greet
one-socket = refl

on_error-second_stream_example :
    let after : Manager =
      reconnect_due true
        (one.stream 0).owner
        (on_error all_open (text "bad") (one.stream 0).owner one) in
    (is_running (after.stream 0).phase ≡ true)
    × (is_running (after.stream one.next_stream).phase ≡ true)
    × ((after.stream one.next_stream).owner ≡ (after.stream 0).owner)
    × (◌≢◌ {A = ℕ} 0 one.next_stream)
on_error-second_stream_example =
    on_error-second_stream all_open (text "bad") 0 one one-Reach one-running one-socket
